-- ===== src/Slug.antt =====
-- internal/repository/admin_repo.go: `slugify`, and the candidates of `nextCompanySlug`.
pub mod Shape
pub mod Idempotent
pub mod Decimal
pub mod Candidates
use mathlib.Core.List.{map}
use proindustrial_backend.Common.{
  Bool, List, [], false, if◌then◌else◌, leb, length, ltb, nat_eq, refl, string_eq, suc, take,
  text_eq, true, zero, ℕ, ◌%◌, ◌^◌, ◌-◌, ◌&&◌, ◌++◌, ◌+◌, ◌/◌, ◌==◌, ◌||◌, ◌∷◌, ◌≡◌,
}
use proindustrial_backend.Common.Text.{Text, codes, to_lower, trim, trim_space}
use proindustrial_backend.Model.Limits.{max_slug_base}

-- The pairs of `slugReplacer`: each replaces one character by one.
abbrev pub replacements : List (ℕ × ℕ)
replacements =
    (0xe1, b'a')
    ∷ (0xe9, b'e')
    ∷ (0xed, b'i')
    ∷ (0xf3, b'o')
    ∷ (0xfa, b'u')
    ∷ (0xfc, b'u')
    ∷ (0xf1, b'n')
    ∷ (0xc1, b'a')
    ∷ (0xc9, b'e')
    ∷ (0xcd, b'i')
    ∷ (0xd3, b'o')
    ∷ (0xda, b'u')
    ∷ (0xdc, b'u')
    ∷ (0xd1, b'n')
    ∷ (0xe0, b'a')
    ∷ (0xe8, b'e')
    ∷ (0xec, b'i')
    ∷ (0xf2, b'o')
    ∷ (0xf9, b'u')
    ∷ (0xe7, b'c')
    ∷ []

replace_rune : List (ℕ × ℕ) → ℕ → ℕ
replace_rune [] c = c
replace_rune ((old, new) ∷ pairs) c = if c == old then new else replace_rune pairs c

-- `slugReplacer.Replace`
replace : Text → Text
unfolding replace_rune
replace = map (replace_rune replacements)

-- The class `[a-z0-9]`.
abbrev pub is_slug_char : ℕ → Bool
is_slug_char c = leb b'a' c && leb c b'z' || leb b'0' c && leb c b'9'

-- `nonSlugCharPattern.ReplaceAllString(…, "-")`: one dash for each longest run of other characters.
-- The flag says that the run before the text has its dash.
dash_runs : Bool → Text → Text
dash_runs in_run [] = []
dash_runs in_run (c ∷ s) = elim (is_slug_char c) [
  | true ↦ c ∷ dash_runs false s
  | false ↦ let rest = dash_runs true s in if in_run then rest else b'-' ∷ rest
]

abbrev pub is_dash : ℕ → Bool
is_dash c = c == b'-'

-- The truncation, with the second `strings.Trim`.
shorten : Text → Text
unfolding trim
shorten slug =
    if ltb max_slug_base (length slug) then trim is_dash (take max_slug_base slug) else slug

unfoldable pub slugify : (ℕ → ℕ) → Text → Text
unfolding replace dash_runs shorten trim trim_space to_lower
slugify unicode_lower value =
    shorten (trim is_dash (dash_runs false (to_lower unicode_lower (trim_space (replace value)))))

-- `if base == "" { base = "empresa" }`
abbrev pub or_empresa : Text → Text
or_empresa [] = codes "empresa"
or_empresa (c ∷ s) = c ∷ s

unfoldable pub slug_base : (ℕ → ℕ) → Text → Text
slug_base unicode_lower name = or_empresa (slugify unicode_lower name)

-- The digits of `n` before `out`; `n + 1` rounds are enough.
digits : ℕ → ℕ → Text → Text
digits zero n out = out
digits (suc f) n out =
    let more = digits f (n / 10) ((b'0' + n % 10) ∷ out) in
    if ltb n 10 then (b'0' + n) ∷ out else more

unfoldable pub decimal : ℕ → Text
unfolding digits
decimal n = digits (suc n) n []

-- The text of an `int`, which is kept as its 64 bits: from 2 ^ 63 on it is negative.
unfoldable pub int_text : ℕ → Text
unfolding decimal
int_text i = if ltb i (2 ^ 63) then decimal i else b'-' ∷ decimal (2 ^ 64 - i)

-- `i++` on an `int`
unfoldable pub incremented : ℕ → ℕ
incremented i = (i + 1) % 2 ^ 64

-- `fmt.Sprintf("%s-%d", base, i)`
unfoldable pub candidate : Text → ℕ → Text
unfolding int_text
candidate base i = base ++ b'-' ∷ int_text i

slugify_test :
    slugify (λ c. c) (codes "  Tuberías del  Sur, Ñuñoa & Cía. ")
    ≡ codes "tuberias-del-sur-nunoa-cia"
unfolding slugify
slugify_test = refl

candidate_test : candidate (codes "acme") 12 ≡ codes "acme-12"
unfolding candidate
candidate_test = refl
