-- ===== src/Common/Classes.antt =====
-- Equality tests as an interface: numbers, native strings and texts (lists of code points).
use Prim.Native.Nat.{ℕ}
use Prim.Native.String.{String}
use mathlib.Core.Path.{◌≡◌, refl, ap₂}
use mathlib.Core.Logic.{◌↔◌, ◌≢◌, inl, inr}
use mathlib.Core.Bool.{Bool, true, false, ◌&&◌, ◌||◌}
use mathlib.Core.List.{List, [], ◌∷◌}
use native.Mathlib.Omega.{arith}
use text.Mathlib.Text.{◌==◌ as str_eq}
use text.Mathlib.TextEquality.{eq_iff}
use proindustrial_backend.Common.Tests.{Bool-cases, and_true, nat_beq, nat_beq_iff}

pub record Equality {ℓ} (A : Type ℓ) : Type ℓ where
  pub beq : A → A → Bool
  pub decides : (a b : A) → (beq a b ≡ true) ↔ (a ≡ b)

infix 50 ◌!=◌ ◌==◌
abbrev pub ◌==◌ {ℓ} : {A : Type ℓ} ⦃e : Equality A⦄ → A → A → Bool
◌==◌ ⦃e⦄ = e.beq

abbrev pub ◌!=◌ {ℓ} : {A : Type ℓ} ⦃e : Equality A⦄ → A → A → Bool
◌!=◌ ⦃e⦄ a b = elim (e.beq a b) [ true ↦ false | false ↦ true ]

instance abbrev pub nat_eq : Equality ℕ
nat_eq = record { beq = nat_beq; decides = nat_beq_iff }

abbrev pub text_beq : List ℕ → List ℕ → Bool
text_beq [] [] = true
text_beq (a ∷ s) (b ∷ t) = nat_beq a b && text_beq s t
text_beq _ _ = false

text_beq_sound : (s t : List ℕ) → text_beq s t ≡ true → s ≡ t
text_beq_sound [] [] h = refl
text_beq_sound (a ∷ s) (b ∷ t) h =
    let (p, q) = and_true (nat_beq a b) (text_beq s t) h in
    ap₂ ◌∷◌ ((nat_beq_iff a b).0 p) (text_beq_sound s t q)
text_beq_sound [] (b ∷ t) h = cc
text_beq_sound (a ∷ s) [] h = cc

text_beq_self : (s : List ℕ) → text_beq s s ≡ true
text_beq_self [] = refl
text_beq_self (a ∷ s) = ground (arith, text_beq_self s)

pub text_beq_iff : (s t : List ℕ) → (text_beq s t ≡ true) ↔ (s ≡ t)
text_beq_iff s t = (text_beq_sound s t, λ e. rw e (text_beq_self t))

instance abbrev pub text_eq : Equality (List ℕ)
text_eq = record { beq = text_beq; decides = text_beq_iff }

instance abbrev pub string_eq : Equality String
string_eq = record { beq = str_eq; decides = eq_iff }

flipped : (b : Bool) → elim b [ true ↦ false | false ↦ true ] ≡ false → b ≡ true
flipped true h = refl
flipped false h = cc

module _ {ℓ} {A : Type ℓ} ⦃e : Equality A⦄ where
  pub eq_self : (a : A) → (a == a) ≡ true
  eq_self a = (e.decides a a).1 refl

  pub eq_of_beq : (a b : A) → (a == b) ≡ true → a ≡ b
  eq_of_beq a b = (e.decides a b).0

  pub ne_of_beq : (a b : A) → (a == b) ≡ false → a ≢ b
  ne_of_beq a b h q = cc (h, (e.decides a b).1 q)

  pub beq_of_ne : (a b : A) → a ≢ b → (a == b) ≡ false
  beq_of_ne a b h = elim (Bool-cases (a == b)) [
    | inl same ↦ absurd (h ((e.decides a b).0 same))
    | inr other ↦ other
  ]

  pub eq_of_bne : (a b : A) → (a != b) ≡ false → a ≡ b
  eq_of_bne a b h = eq_of_beq a b (flipped (e.beq a b) h)

  -- `candidate` among `xs`, as a loop with an early exit or a lookup in a `map[T]bool`.
  unfoldable pub contains : List A → A → Bool
  contains [] a = false
  contains (x ∷ xs) a = a == x || contains xs a
