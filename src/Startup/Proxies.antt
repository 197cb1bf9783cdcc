-- ===== src/Startup/Proxies.antt =====
-- The list of trusted proxies (cmd/server/main.go).
use proindustrial_backend.Common.{
  All, Bool-cases, List, [], false, inl, inr, nat_eq, string_eq, text_eq, ℕ, ◌==◌, ◌∷◌, ◌≡◌, ◌≢◌,
}
use proindustrial_backend.Common.Text.{
  IsTrimmed, Text, is_space, trim, trim-IsTrimmed, trim_space, trim-All,
}
use proindustrial_backend.Startup.{keep_part, put_first, split_commas, split_list, trimmed_parts}

-- A part of the list: it is not empty, has no space at an end, and holds no comma.
pub record IsPart (p : Text) : Type 0 where
  pub given : p ≢ []
  pub trimmed : IsTrimmed is_space p
  pub plain : All (λ c. (c == b',') ≡ false) p

abbrev Plain : Text → Type 0
Plain p = All (λ c. (c == b',') ≡ false) p

put_first-Plain :
    (c : ℕ) (ps : List Text) → (c == b',') ≡ false → All Plain ps → All Plain (put_first c ps)
put_first-Plain c [] h k = ((h, tt), tt)
put_first-Plain c (p ∷ ps) h (k, ks) = ((h, k), ks)

split_commas-Plain : (s : Text) → All Plain (split_commas s)
unfolding split_commas
split_commas-Plain [] = (tt, tt)
split_commas-Plain (c ∷ s) = elim (Bool-cases (c == b',')) [
  | inl comma ↦ rw comma (tt, split_commas-Plain s)
  | inr other ↦ rw other (put_first-Plain c (split_commas s) other (split_commas-Plain s))
]

keep_part-IsPart :
    (p : Text) (out : List Text)
    → IsTrimmed is_space p
    → Plain p
    → All IsPart out
    → All IsPart (keep_part p out)
keep_part-IsPart [] out h k ks = ks
keep_part-IsPart (c ∷ s) out h k ks = (record { given = λ e. cc e; trimmed = h; plain = k }, ks)

trimmed_parts-IsPart : (ps : List Text) → All Plain ps → All IsPart (trimmed_parts ps)
unfolding trimmed_parts trim_space
trimmed_parts-IsPart [] h = tt
trimmed_parts-IsPart (p ∷ ps) (h, k) =
    keep_part-IsPart (trim is_space p) (trimmed_parts ps) (trim-IsTrimmed is_space p)
      (trim-All is_space (λ c. (c == b',') ≡ false) p h) (trimmed_parts-IsPart ps k)

pub split_list-IsPart : (raw : Text) → All IsPart (split_list raw)
unfolding split_list
split_list-IsPart raw = trimmed_parts-IsPart (split_commas raw) (split_commas-Plain raw)
