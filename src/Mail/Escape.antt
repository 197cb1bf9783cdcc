-- ===== src/Mail/Escape.antt =====
-- `textToHTML` (internal/notify/mailer.go), as one pass over the text.
use proindustrial_backend.Common.{
  Bool-cases, [], ap, append_assoc, if◌then◌else◌, inl, inr, nat_eq, refl, string_eq, sym, text_eq,
  ℕ, ◌++◌, ◌==◌, ◌∙◌, ◌∷◌, ◌≡◌,
}
use proindustrial_backend.Common.Text.{Text, codes}
use proindustrial_backend.Mail.{escape, replace_all, text_to_html}

-- What one character becomes.
abbrev pub escape_char : ℕ → Text
escape_char c =
    if c == b'&'
    then codes "&amp;"
    else if c == b'<'
    then codes "&lt;"
    else if c == b'>'
    then codes "&gt;"
    else if c == 10
    then codes "<br />"
    else c ∷ []

abbrev pub escape_each : Text → Text
escape_each [] = []
escape_each (c ∷ s) = escape_char c ++ escape_each s

replace_all-append :
    (c : ℕ) (by s t : Text) → replace_all c by (s ++ t) ≡ replace_all c by s ++ replace_all c by t
unfolding replace_all
replace_all-append c by [] t = refl
replace_all-append c by (x ∷ s) t = elim (Bool-cases (x == c)) [
  | inl hit ↦
      rw (hit, replace_all-append c by s t)
        (sym (append_assoc by (replace_all c by s) (replace_all c by t)))
  | inr miss ↦ rw (miss, replace_all-append c by s t) refl
]

escape-append : (s t : Text) → escape (s ++ t) ≡ escape s ++ escape t
unfolding escape
escape-append s t =
    ap newline (
      ap greater (
        ap less (replace_all-append b'&' (codes "&amp;") s t)
        ∙ replace_all-append b'<' (codes "&lt;") (ampersand s) (ampersand t))
      ∙ replace_all-append b'>' (codes "&gt;") (less (ampersand s)) (less (ampersand t)))
    ∙ replace_all-append 10 (codes "<br />") (greater (less (ampersand s)))
        (greater (less (ampersand t)))
  where
    ampersand : Text → Text
    ampersand = replace_all b'&' (codes "&amp;")

    less : Text → Text
    less = replace_all b'<' (codes "&lt;")

    greater : Text → Text
    greater = replace_all b'>' (codes "&gt;")

    newline : Text → Text
    newline = replace_all 10 (codes "<br />")

escape_one : (c : ℕ) → escape (c ∷ []) ≡ escape_char c
unfolding escape replace_all
escape_one c = elim (Bool-cases (c == b'&')) [
  | inl hit ↦ rw hit refl
  | inr miss ↦ elim (Bool-cases (c == b'<')) [
    | inl hit ↦ rw (miss, hit) refl
    | inr miss' ↦ elim (Bool-cases (c == b'>')) [
      | inl hit ↦ rw (miss, miss', hit) refl
      | inr miss'' ↦ elim (Bool-cases (c == 10)) [
        | inl hit ↦ rw (miss, miss', miss'', hit) refl
        | inr last ↦ rw (miss, miss', miss'', last) refl
      ]
    ]
  ]
]

escape_lem : (s : Text) → escape s ≡ escape_each s
unfolding escape replace_all
escape_lem [] = refl
escape_lem (c ∷ s) = escape-append (c ∷ []) s ∙ (λ i. escape_one c i ++ escape_lem s i)

-- The four replacements, one after the other, are one pass that replaces each character by itself:
-- no replacement touches what another has put in.
pub text_to_html_lem : (s : Text) → text_to_html s ≡ codes "<p>" ++ escape_each s ++ codes "</p>"
unfolding text_to_html
text_to_html_lem s = ap (λ t. codes "<p>" ++ t ++ codes "</p>") (escape_lem s)
