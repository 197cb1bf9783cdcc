-- ===== src/Slug/Idempotent.antt =====
-- `slugify` on its own results.
use mathlib.Core.List.{map}
use mathlib.Core.Path.{ap₂}
use proindustrial_backend.Common.{
  All, Bool, List, [], arith, false, length, refl, true, ℕ, ◌<◌, ◌∷◌, ◌≡◌, ◌≤◌,
}
use proindustrial_backend.Common.Text.{
  HeadKept, IsTrimmed, Text, is_space, lower_rune, to_lower, trim, trim_of_IsTrimmed, trim_space,
}
use proindustrial_backend.Model.Limits.{max_slug_base}
use proindustrial_backend.Slug.{
  dash_runs, is_dash, replace, replace_rune, replacements, shorten, slugify,
}
use proindustrial_backend.Slug.Shape.{IsSlug, NoDouble, SlugChar, slugify-IsSlug}

map-id : (f : ℕ → ℕ) (s : Text) → All (λ c. f c ≡ c) s → map f s ≡ s
map-id f [] h = refl
map-id f (c ∷ s) h = ap₂ ◌∷◌ h.0 (map-id f s h.1)

-- To go from one property of every character to another.
All-imp : {P Q : ℕ → Type 0} (f : (c : ℕ) → P c → Q c) (s : Text) → All P s → All Q s
All-imp f [] h = tt
All-imp f (c ∷ s) h = (f c h.0, All-imp f s h.1)

replace_rune_ascii :
    (pairs : List (ℕ × ℕ)) (c : ℕ) → All (λ p. 128 ≤ p.0) pairs → c < 128 → replace_rune pairs c ≡ c
unfolding replace_rune
replace_rune_ascii [] c h k = refl
replace_rune_ascii (p ∷ pairs) c h k = ground (arith, replace_rune_ascii pairs c h.1 k)

replace_rune_slug : (c : ℕ) → SlugChar c → replace_rune replacements c ≡ c
replace_rune_slug c h = replace_rune_ascii replacements c (omega arith) (ground arith)

lower_rune_slug : (u : ℕ → ℕ) (c : ℕ) → SlugChar c → lower_rune u c ≡ c
unfolding lower_rune
lower_rune_slug u c h = ground arith

is_space_slug : (c : ℕ) → SlugChar c → is_space c ≡ false
unfolding is_space
is_space_slug c h = ground arith

IsTrimmed-of_All : (p : ℕ → Bool) (s : Text) → All (λ c. p c ≡ false) s → IsTrimmed p s
IsTrimmed-of_All p [] h = (tt, tt)
IsTrimmed-of_All p (c ∷ []) h = (h.0, h.0)
IsTrimmed-of_All p (c ∷ d ∷ s) h = (h.0, (IsTrimmed-of_All p (d ∷ s) h.1).1)

trim_space_slug : (s : Text) → All SlugChar s → trim_space s ≡ s
unfolding trim_space
trim_space_slug s h =
    trim_of_IsTrimmed is_space s (IsTrimmed-of_All is_space s (All-imp is_space_slug s h))

HeadKept-of_NoDouble : (c : ℕ) (s : Text) → is_dash c ≡ true → NoDouble (c ∷ s) → HeadKept is_dash s
HeadKept-of_NoDouble c [] h k = tt
HeadKept-of_NoDouble c (d ∷ s) h k = ground arith

NoDouble-tail : (c : ℕ) (s : Text) → NoDouble (c ∷ s) → NoDouble s
NoDouble-tail c [] h = tt
NoDouble-tail c (d ∷ s) h = h.1

mutual
  unfolding dash_runs

  dash_runs_out : (s : Text) → All SlugChar s → NoDouble s → dash_runs false s ≡ s
  dash_runs_out [] h k = refl
  dash_runs_out (c ∷ s) h k = ground (
    arith,
    dash_runs_out s h.1 (NoDouble-tail c s k),
    λ (e : is_dash c ≡ true).
        dash_runs_in s h.1 (NoDouble-tail c s k) (HeadKept-of_NoDouble c s e k),
  )

  dash_runs_in :
      (s : Text) → All SlugChar s → NoDouble s → HeadKept is_dash s → dash_runs true s ≡ s
  dash_runs_in [] h k e = refl
  dash_runs_in (c ∷ s) h k e = ground (arith, dash_runs_out s h.1 (NoDouble-tail c s k))

replace_slug : (s : Text) → All SlugChar s → replace s ≡ s
unfolding replace
replace_slug s h = map-id (replace_rune replacements) s (All-imp replace_rune_slug s h)

to_lower_slug : (u : ℕ → ℕ) (s : Text) → All SlugChar s → to_lower u s ≡ s
unfolding to_lower
to_lower_slug u s h = map-id (lower_rune u) s (All-imp (lower_rune_slug u) s h)

shorten_short : (s : Text) → length s ≤ max_slug_base → shorten s ≡ s
unfolding shorten
shorten_short s h = ground arith

-- The steps of `slugify`, to be rewritten one by one.
slugify_lem :
    (u : ℕ → ℕ) (s : Text)
    → slugify u s ≡ shorten (trim is_dash (dash_runs false (to_lower u (trim_space (replace s)))))
unfolding slugify
slugify_lem u s = refl

-- Making a slug of a slug changes nothing: `nextCompanySlug` may be given a name that is one.
pub slugify_of_IsSlug : (unicode_lower : ℕ → ℕ) (s : Text) → IsSlug s → slugify unicode_lower s ≡ s
slugify_of_IsSlug u s h =
    rw
      (
        slugify_lem u s,
        replace_slug s h.chars,
        trim_space_slug s h.chars,
        to_lower_slug u s h.chars,
        dash_runs_out s h.chars h.single,
        trim_of_IsTrimmed is_dash s h.edges,
      )
      (shorten_short s h.bounded)

-- `slugify` is idempotent.
pub slugify-slugify :
    (unicode_lower : ℕ → ℕ) (name : Text)
    → slugify unicode_lower (slugify unicode_lower name) ≡ slugify unicode_lower name
slugify-slugify unicode_lower name =
    slugify_of_IsSlug unicode_lower (slugify unicode_lower name) (slugify-IsSlug unicode_lower name)
