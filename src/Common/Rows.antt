-- ===== src/Common/Rows.antt =====
-- The rows that a test keeps, after a change of rows that it does not keep; and keys.
use Prim.Native.String.{String}
use mathlib.Core.Path.{◌≡◌, refl, ap, sym, ◌∙◌}
use mathlib.Core.Logic.{inl, inr}
use mathlib.Core.Bool.{Bool, true, false, ◌&&◌}
use mathlib.Core.List.{List, [], ◌∷◌}
use proindustrial_backend.Common.Classes.{beq_of_ne, nat_eq, string_eq, text_eq, ◌!=◌, ◌==◌}
use proindustrial_backend.Common.Lists.{any, filter, find, map_if}
use proindustrial_backend.Common.Tests.{Bool-cases, if◌then◌else◌}

pub and_false : (a b : Bool) → b ≡ false → (a && b) ≡ false
and_false true b h = h
and_false false b h = refl

pub and_swap : (a b c : Bool) → b ≡ c → (a && b) ≡ (a && c)
and_swap a b c h = ap (λ x. a && x) h

module _ {A : Type 0} (p test : A → Bool) (set : A → A) where
  -- The rows that change are none that `p` keeps, before or after.
  pub filter-map_if :
      ((x : A) → test x ≡ true → p x ≡ false)
      → ((x : A) → test x ≡ true → p (set x) ≡ false)
      → (xs : List A) → filter p (map_if test set xs) ≡ filter p xs
  filter-map_if h k [] = refl
  filter-map_if h k (x ∷ xs) = elim (Bool-cases (test x)) [
    | inl hit ↦ rw (hit, h x hit, k x hit) (filter-map_if h k xs)
    | inr miss ↦ rw (miss, filter-map_if h k xs) refl
  ]

  pub find-map_if :
      ((x : A) → test x ≡ true → p x ≡ false)
      → ((x : A) → test x ≡ true → p (set x) ≡ false)
      → (xs : List A) → find p (map_if test set xs) ≡ find p xs
  find-map_if h k [] = refl
  find-map_if h k (x ∷ xs) = elim (Bool-cases (test x)) [
    | inl hit ↦ rw (hit, h x hit, k x hit) (find-map_if h k xs)
    | inr miss ↦ rw (miss, find-map_if h k xs) refl
  ]

  -- A test that does not tell a row from what it becomes.
  pub any-map_if :
      ((x : A) → p (set x) ≡ p x) → (xs : List A) → any p (map_if test set xs) ≡ any p xs
  any-map_if h [] = refl
  any-map_if h (x ∷ xs) = elim (Bool-cases (test x)) [
    | inl hit ↦ rw (hit, h x, any-map_if h xs) refl
    | inr miss ↦ rw (miss, any-map_if h xs) refl
  ]

module _ {A : Type 0} (p q : A → Bool) where
  -- Dropping rows that `p` does not keep.
  pub filter-filter :
      ((x : A) → p x ≡ true → q x ≡ true) → (xs : List A) → filter p (filter q xs) ≡ filter p xs
  filter-filter h [] = refl
  filter-filter h (x ∷ xs) = elim (Bool-cases (p x)) [
    | inl hit ↦ rw (h x hit, hit, filter-filter h xs) refl
    | inr miss ↦ elim (Bool-cases (q x)) [
      | inl keep ↦ rw (keep, miss) (filter-filter h xs)
      | inr drop ↦ rw (drop, miss) (filter-filter h xs)
    ]
  ]

  pub find-filter :
      ((x : A) → p x ≡ true → q x ≡ true) → (xs : List A) → find p (filter q xs) ≡ find p xs
  find-filter h [] = refl
  find-filter h (x ∷ xs) = elim (Bool-cases (p x)) [
    | inl hit ↦ rw (h x hit, hit) refl
    | inr miss ↦ elim (Bool-cases (q x)) [
      | inl keep ↦ rw (keep, miss) (find-filter h xs)
      | inr drop ↦ rw (drop, miss) (find-filter h xs)
    ]
  ]

  pub any-filter-kept :
      ((x : A) → p x ≡ true → q x ≡ true) → (xs : List A) → any p (filter q xs) ≡ any p xs
  any-filter-kept h [] = refl
  any-filter-kept h (x ∷ xs) = elim (Bool-cases (p x)) [
    | inl hit ↦ rw (h x hit, hit) refl
    | inr miss ↦ elim (Bool-cases (q x)) [
      | inl keep ↦ rw (keep, miss) (any-filter-kept h xs)
      | inr drop ↦ rw (drop, miss) (any-filter-kept h xs)
    ]
  ]

  pub any-filter-dropped :
      ((x : A) → p x ≡ true → q x ≡ false) → (xs : List A) → any p (filter q xs) ≡ false
  any-filter-dropped h [] = refl
  any-filter-dropped h (x ∷ xs) = elim (Bool-cases (p x)) [
    | inl hit ↦ rw (h x hit) (any-filter-dropped h xs)
    | inr miss ↦ elim (Bool-cases (q x)) [
      | inl keep ↦ rw (keep, miss) (any-filter-dropped h xs)
      | inr drop ↦ rw drop (any-filter-dropped h xs)
    ]
  ]

  pub any-filter-false : (xs : List A) → any p xs ≡ false → any p (filter q xs) ≡ false
  any-filter-false [] e = refl
  any-filter-false (x ∷ xs) e = elim (Bool-cases (p x)) [
    | inl hit ↦ absurd (cc (e, ap (λ b. if b then true else any p xs) hit))
    | inr miss ↦
        let rest : any p xs ≡ false = ap (λ b. if b then true else any p xs) (sym miss) ∙ e in
        elim (Bool-cases (q x)) [
          | inl keep ↦ rw (keep, miss) (any-filter-false xs rest)
          | inr drop ↦ rw drop (any-filter-false xs rest)
        ]
  ]

pub filter-miss :
    {A : Type 0} (p : A → Bool) (x : A) (xs : List A)
    → p x ≡ false
    → filter p (x ∷ xs) ≡ filter p xs
filter-miss p x xs h = ap (λ b. if b then x ∷ filter p xs else filter p xs) h

module _ {A : Type 0} (key : A → String) where
  -- A primary key: no two rows share it.
  abbrev pub HasKey : List A → Type 0
  HasKey [] = Unit
  HasKey (x ∷ xs) = (any (λ y. key y == key x) xs ≡ false) × HasKey xs

  pub HasKey-map_if :
      (test : A → Bool) (set : A → A)
      → ((x : A) → key (set x) ≡ key x)
      → (xs : List A) → HasKey xs
      → HasKey (map_if test set xs)
  HasKey-map_if test set h [] k = tt
  HasKey-map_if test set h (x ∷ xs) (fresh, k) = (
    any-map_if (λ y. key y == key (if test x then set x else x)) test set
          (λ y. ap (λ z. z == key (if test x then set x else x)) (h y)) xs
        ∙ ap (λ z. any (λ y. key y == z) xs) (same_key x)
        ∙ fresh,
    HasKey-map_if test set h xs k,
  )
    where
      same_key : (y : A) → key (if test y then set y else y) ≡ key y
      same_key y = elim (Bool-cases (test y)) [ inl hit ↦ rw hit (h y) | inr miss ↦ rw miss refl ]

  pub HasKey-filter : (q : A → Bool) (xs : List A) → HasKey xs → HasKey (filter q xs)
  HasKey-filter q [] k = tt
  HasKey-filter q (x ∷ xs) (fresh, k) = elim (Bool-cases (q x)) [
    | inl keep ↦ rw keep (any-filter-false (λ y. key y == key x) q xs fresh, HasKey-filter q xs k)
    | inr drop ↦ rw drop (HasKey-filter q xs k)
  ]

pub bne_unless : (a b : String) → (a ≡ b → ⊥) → (a != b) ≡ true
bne_unless a b h = ap (λ x. elim x [ true ↦ false | false ↦ true ]) (beq_of_ne a b h)
