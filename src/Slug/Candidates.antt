-- ===== src/Slug/Candidates.antt =====
-- The candidates of `nextCompanySlug` and the search among them, over a list of the slugs in use.
use proindustrial_backend.Common.{
  Bool-cases, List, Option, [], ap, arith, contains, false, if◌then◌else◌, inl, inr, length, ltb,
  lt→ltb, length-append, nat_eq, none, refl, some, string_eq, suc, sym, text_eq, true, zero, ℕ,
  ◌++◌, ◌+◌, ◌<◌, ◌==◌, ◌^◌, ◌∙◌, ◌∷◌, ◌≡◌, ◌≢◌, ◌≤◌,
}
use proindustrial_backend.Common.Text.{Text}
use proindustrial_backend.Model.Limits.{max_slug_base}
use proindustrial_backend.Slug.{
  candidate, decimal, incremented, int_text, or_empresa, slug_base, slugify,
}
use proindustrial_backend.Slug.Decimal.{decimal-injective, decimal-length}
use proindustrial_backend.Slug.Shape.{slugify-IsSlug}

append-cancel : (s t u : Text) → s ++ t ≡ s ++ u → t ≡ u
append-cancel [] t u e = e
append-cancel (c ∷ s) t u e = append-cancel s t u (cc)

-- A candidate whose number is not negative.
abbrev pub numbered : Text → ℕ → Text
numbered base i = base ++ b'-' ∷ decimal i

pub candidate-numbered : (base : Text) (i : ℕ) → i < 2 ^ 63 → candidate base i ≡ numbered base i
unfolding candidate int_text
candidate-numbered base i h =
    let positive : ltb i (2 ^ 63) ≡ true = lt→ltb i (2 ^ 63) h in rw positive refl

pub incremented_below : (i : ℕ) → i < 2 ^ 63 → incremented i ≡ i + 1
unfolding incremented
incremented_below i h = omega arith

-- Two numbers that give the same candidate for a base are equal.
numbered-injective : (base : Text) (i j : ℕ) → numbered base i ≡ numbered base j → i ≡ j
numbered-injective base i j e = decimal-injective i j (let tails = append-cancel base _ _ e in (cc))

-- The name without a number is no candidate.
pub numbered-ne : (base : Text) (i : ℕ) → base ≢ numbered base i
numbered-ne base i e = omega (arith, ap (length {A = ℕ}) e, length-append base (b'-' ∷ decimal i))

-- A candidate with a number below 10 ^ 19 is at most `MaxSlugBase` + 20 characters long.
pub numbered-length :
    (base : Text) (i : ℕ)
    → length base ≤ max_slug_base
    → i < 10 ^ 19
    → length (numbered base i) ≤ 100
numbered-length base i h k =
    omega (arith, length-append base (b'-' ∷ decimal i), decimal-length i 18 k)

or_empresa_bounds :
    (s : Text)
    → length s ≤ max_slug_base
    → (1 ≤ length (or_empresa s)) × (length (or_empresa s) ≤ max_slug_base)
or_empresa_bounds [] h = omega arith
or_empresa_bounds (c ∷ s) h = omega arith

-- `base` is at most `MaxSlugBase` characters long, and not empty.
pub slug_base_bounds :
    (unicode_lower : ℕ → ℕ) (name : Text)
    → (1 ≤ length (slug_base unicode_lower name))
      × (length (slug_base unicode_lower name) ≤ max_slug_base)
unfolding slug_base
slug_base_bounds unicode_lower name =
    or_empresa_bounds (slugify unicode_lower name) (slugify-IsSlug unicode_lower name).bounded

-- The search over a list of the slugs in use: at most as many rounds as the fuel.
unfoldable pub pick : ℕ → Text → ℕ → Text → List Text → Option Text
pick zero base i slug taken = none
pick (suc f) base i slug taken = elim (contains taken slug) [
  | true ↦ pick f base (i + 1) (numbered base i) taken
  | false ↦ some slug
]

remove : Text → List Text → List Text
remove s [] = []
remove s (t ∷ ts) = if s == t then remove s ts else t ∷ remove s ts

length-remove : (s : Text) (ts : List Text) → length (remove s ts) ≤ length ts
unfolding remove
length-remove s [] = omega arith
length-remove s (t ∷ ts) = ground (arith, length-remove s ts)

remove_shorter :
    (s : Text) (ts : List Text) → contains ts s ≡ true → length (remove s ts) < length ts
unfolding remove contains
remove_shorter s [] h = cc
remove_shorter s (t ∷ ts) h = ground (arith, remove_shorter s ts, length-remove s ts)

contains-remove : (s t : Text) (ts : List Text) → s ≢ t → contains (remove s ts) t ≡ contains ts t
unfolding remove contains
contains-remove s t [] h = refl
contains-remove s t (u ∷ ts) h =
    ground (arith, contains-remove s t ts h, text_eq.decides s u, text_eq.decides t u)

pub pick_used :
    (f : ℕ) (base : Text) (i : ℕ) (slug : Text) (taken : List Text)
    → contains taken slug ≡ true
    → pick (suc f) base i slug taken ≡ pick f base (i + 1) (numbered base i) taken
unfolding pick
pick_used f base i slug taken h = rw (h, pick)

pub pick_free :
    (f : ℕ) (base : Text) (i : ℕ) (slug : Text) (taken : List Text)
    → contains taken slug ≡ false
    → pick (suc f) base i slug taken ≡ some slug
unfolding pick
pick_free f base i slug taken h = rw (h, pick)

pick-remove :
    (f : ℕ) (base : Text) (i : ℕ) (slug s : Text) (taken : List Text)
    → s ≢ slug
    → ((j : ℕ) → i ≤ j → s ≢ numbered base j)
    → pick f base i slug (remove s taken) ≡ pick f base i slug taken
pick-remove zero base i slug s taken h k = unfold pick in refl
pick-remove (suc f) base i slug s taken h k =
    let kept = contains-remove s slug taken h in
    elim (Bool-cases (contains taken slug)) [
      | inl used ↦
          pick_used f base i slug (remove s taken) (kept ∙ used)
          ∙ pick-remove f base (i + 1) (numbered base i) s taken (k i (omega arith))
              (λ j p. k j (omega arith))
          ∙ sym (pick_used f base i slug taken used)
      | inr free ↦
          pick_free f base i slug (remove s taken) (kept ∙ free)
          ∙ sym (pick_free f base i slug taken free)
    ]

-- The search finds a slug whenever its fuel exceeds the number of slugs in use.
pub pick_total :
    (f : ℕ) (base : Text) (i : ℕ) (slug : Text) (taken : List Text)
    → length taken < f
    → ((j : ℕ) → i ≤ j → slug ≢ numbered base j)
    → (s : Text) × (pick f base i slug taken ≡ some s)
pick_total zero base i slug taken h k = elim h [ ]
pick_total (suc f) base i slug taken h k = elim (Bool-cases (contains taken slug)) [
  | inl used ↦
      let (s, found) =
        pick_total f base (i + 1) (numbered base i) (remove slug taken)
          (omega (arith, remove_shorter slug taken used))
          (λ j p e. omega (arith, numbered-injective base i j e)) in
      (
        s,
        pick_used f base i slug taken used
            ∙ sym (
                pick-remove f base (i + 1) (numbered base i) slug taken (k i (omega arith))
                  (λ j p. k j (omega arith)))
            ∙ found,
      )
  | inr free ↦ (slug, pick_free f base i slug taken free)
]

-- What the search returns is free, and as long as a candidate may be.
pub pick_sound :
    (f : ℕ) (base : Text) (i : ℕ) (slug s : Text) (taken : List Text)
    → length base ≤ max_slug_base
    → length slug ≤ 100
    → i + f ≤ 10 ^ 19
    → pick f base i slug taken ≡ some s
    → (contains taken s ≡ false) × (length s ≤ 100)
pick_sound zero base i slug s taken hb hs hi e = unfold pick in cc
pick_sound (suc f) base i slug s taken hb hs hi e = elim (Bool-cases (contains taken slug)) [
  | inl used ↦
      pick_sound f base (i + 1) (numbered base i) s taken hb
        (numbered-length base i hb (omega arith)) (omega arith)
        (sym (pick_used f base i slug taken used) ∙ e)
  | inr free ↦
      let same : some slug ≡ some s = sym (pick_free f base i slug taken free) ∙ e in
      let same' : slug ≡ s = cc in (rw (← same') free, rw (← same') hs)
]
