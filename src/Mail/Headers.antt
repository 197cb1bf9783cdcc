-- ===== src/Mail/Headers.antt =====
-- The headers of a mail that is sent by SMTP (internal/notify/mailer.go).
use proindustrial_backend.Common.{
  All, Bool-cases, List, [], arith, inl, inr, length, nat_eq, refl, string_eq, text_eq, ℕ, ◌++◌,
  ◌+◌, ◌==◌, ◌∷◌, ◌≡◌,
}
use proindustrial_backend.Common.Text.{Text, codes}
use proindustrial_backend.Mail.{line, mail_head, sanitize_header, text_of}
use proindustrial_backend.Registration.{clean}
use proindustrial_backend.Tables.{count}

-- How often a character occurs.
abbrev pub occurrences : ℕ → Text → ℕ
occurrences x = count (λ c. c == x)

occurrences-append :
    (x : ℕ) (s t : Text) → occurrences x (s ++ t) ≡ occurrences x s + occurrences x t
occurrences-append x [] t = omega arith
occurrences-append x (c ∷ s) t = omega (arith, occurrences-append x s t)

-- One occurrence for each line, where no line has one of its own.
text_of-lines :
    (x : ℕ) (ls : List Text)
    → occurrences x (13 ∷ 10 ∷ []) ≡ 1
    → All (λ l. occurrences x l ≡ 0) ls
    → occurrences x (text_of ls) ≡ length ls
text_of-lines x [] e h = refl
text_of-lines x (l ∷ ls) e (clean, h) = omega (
  arith,
  occurrences-append x (line l) (text_of ls),
  occurrences-append x l (13 ∷ 10 ∷ []),
  e,
  clean,
  text_of-lines x ls e h,
)

sanitize_header-clean :
    (s : Text) → (occurrences 10 (sanitize_header s) ≡ 0) × (occurrences 13 (sanitize_header s) ≡ 0)
unfolding sanitize_header
sanitize_header-clean [] = (refl, refl)
sanitize_header-clean (c ∷ s) =
    let (a, b) = sanitize_header-clean s in
    elim (Bool-cases (c == 13)) [
      | inl hit ↦ rw hit (omega (arith, a), omega (arith, b))
      | inr miss ↦ elim (Bool-cases (c == 10)) [
        | inl hit ↦ rw (miss, hit) (omega (arith, a), omega (arith, b))
        | inr miss' ↦ (ground (arith, a, miss, miss'), ground (arith, b, miss, miss'))
      ]
    ]

-- Whatever the sender, the address and the subject hold, the head of a mail that goes out by SMTP
-- has exactly six line feeds and six carriage returns, those of its own six lines: no field can add
-- a header.
pub mail_head-lines :
    (from to subject : Text)
    → (occurrences 10 (mail_head from to subject) ≡ 6)
      × (occurrences 13 (mail_head from to subject) ≡ 6)
unfolding mail_head
mail_head-lines from to subject =
    let (f10, f13) = sanitize_header-clean from in
    let (t10, t13) = sanitize_header-clean to in
    let (s10, s13) = sanitize_header-clean subject in
    (
      text_of-lines 10 fields refl (
        omega (arith, f10),
        (omega (arith, t10), (omega (arith, s10), (refl, (refl, (refl, tt))))),
      ),
      text_of-lines 13 fields refl (
        omega (arith, f13),
        (omega (arith, t13), (omega (arith, s13), (refl, (refl, (refl, tt))))),
      ),
    )
  where
    fields : List Text
    fields =
        (codes "From: " ++ sanitize_header from)
        ∷ (codes "To: " ++ sanitize_header to)
        ∷ (codes "Subject: " ++ sanitize_header subject)
        ∷ codes "MIME-Version: 1.0"
        ∷ codes "Content-Type: text/plain; charset=UTF-8"
        ∷ []
        ∷ []
