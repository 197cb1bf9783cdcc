-- ===== src/Registration/Sanitize.antt =====
-- `sanitizeText` (internal/handler/registration.go).
use proindustrial_backend.Common.{
  All, Bool, Bool-cases, arith, leb, nat_eq, ◌==◌, ◌||◌, ◌&&◌, [], ap, filter, inl, inr, not, refl,
  true, ℕ, ◌∙◌, ◌∷◌, ◌≡◌,
}
use proindustrial_backend.Common.Text.{
  IsTrimmed, Text, is_space, trim, trim-All, trim-IsTrimmed, trim_of_IsTrimmed, trim_space,
}
use proindustrial_backend.Registration.{is_control, sanitize_text}

filter-All : (p : ℕ → Bool) (s : Text) → All (λ c. p c ≡ true) (filter p s)
filter-All p [] = tt
filter-All p (c ∷ s) = elim (Bool-cases (p c)) [
  | inl keep ↦ rw keep (keep, filter-All p s)
  | inr drop ↦ rw drop (filter-All p s)
]

filter_of_All : (p : ℕ → Bool) (s : Text) → All (λ c. p c ≡ true) s → filter p s ≡ s
filter_of_All p [] h = refl
filter_of_All p (c ∷ s) (keep, h) = rw (keep, filter_of_All p s h)

-- A character that is TAB, LF, CR, or at least U+0020, and not DEL.
abbrev pub is_kept : ℕ → Bool
is_kept c = (c == 9 || c == 10 || c == 13 || leb 32 c) && not (c == 127)

not_control-kept : (c : ℕ) → not (is_control c) ≡ true → is_kept c ≡ true
not_control-kept c h = ground arith

All-map : {P Q : ℕ → Type 0} (s : Text) → ((c : ℕ) → P c → Q c) → All P s → All Q s
All-map [] f h = tt
All-map (c ∷ s) f (h, k) = (f c h, All-map s f k)

-- A sanitised field has no character below U+0020 but TAB, LF and CR, no DEL, and no space at
-- either end; sanitising it again leaves it as it is.
pub sanitize_text_lem :
    (s : Text)
    → All (λ c. is_kept c ≡ true) (sanitize_text s)
      × IsTrimmed is_space (sanitize_text s)
      × (sanitize_text (sanitize_text s) ≡ sanitize_text s)
unfolding sanitize_text trim_space
sanitize_text_lem s =
    let p = λ (c : ℕ). not (is_control c) in
    let clean = trim-All is_space (λ c. p c ≡ true) (filter p s) (filter-All p s) in
    let trimmed = trim-IsTrimmed is_space (filter p s) in
    (
      All-map (trim is_space (filter p s)) not_control-kept clean,
      trimmed,
      ap (trim is_space) (filter_of_All p (trim is_space (filter p s)) clean)
          ∙ trim_of_IsTrimmed is_space (trim is_space (filter p s)) trimmed,
    )
