-- ===== src/Slug/Decimal.antt =====
-- The decimal numbers of the candidates.
use proindustrial_backend.Common.{
  Bool-cases, [], ap, arith, inl, inr, length, ltb, ltb-false, suc, sym, zero, ℕ, ◌%◌, ◌*◌, ◌+◌,
  ◌-◌, ◌/◌, ◌<◌, ◌^◌, ◌∙◌, ◌∷◌, ◌≡◌, ◌≤◌,
}
use proindustrial_backend.Common.Text.{Text}
use proindustrial_backend.Slug.{decimal, digits}

-- The number that digits spell behind `n`.
abbrev value : ℕ → Text → ℕ
value n [] = n
value n (c ∷ s) = value (n * 10 + (c - b'0')) s

value-digits : (f n : ℕ) (out : Text) → n < f → value 0 (digits f n out) ≡ value n out
unfolding digits
value-digits zero n out h = elim h [ ]
value-digits (suc f) n out h = elim (Bool-cases (ltb n 10)) [
  | inl small ↦ rw small (ap (λ m. value m out) (omega arith))
  | inr large ↦ rw large (
      value-digits f (n / 10) ((b'0' + n % 10) ∷ out) (omega (arith, ltb-false n 10 large))
      ∙ ap (λ m. value m out) (omega arith))
]

-- Different numbers print differently.
pub decimal-injective : (m n : ℕ) → decimal m ≡ decimal n → m ≡ n
unfolding decimal
decimal-injective m n e =
    sym (value-digits (suc m) m [] (omega arith))
    ∙ ap (value 0) e
    ∙ value-digits (suc n) n [] (omega arith)

digits-length :
    (f n k : ℕ) (out : Text) → n < 10 ^ (suc k) → length (digits f n out) ≤ suc k + length out
unfolding digits
digits-length zero n k out h = omega arith
digits-length (suc f) n zero out h = ground arith
digits-length (suc f) n (suc k) out h =
    ground (arith, digits-length f (n / 10) k ((b'0' + n % 10) ∷ out))

-- A number below `10 ^ k` has at most `k` digits.
pub decimal-length : (n k : ℕ) → n < 10 ^ (suc k) → length (decimal n) ≤ suc k
unfolding decimal
decimal-length n k h = omega (arith, digits-length (suc n) n k [] h)
