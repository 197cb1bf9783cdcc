-- ===== src/Registration/Services.antt =====
-- `cleanServices` (internal/handler/registration.go) against the catalogue.
use mathlib.Core.List.{map}
use proindustrial_backend.Common.{
  Bool, Bool-cases, List, [], arith, contains, false, inl, inr, nat_eq, not, string_eq, text_eq, ℕ,
  ◌&&◌, ◌∙◌, ◌∷◌, ◌≡◌,
}
use proindustrial_backend.Common.Text.{Text, to_lower, trim_space}
use proindustrial_backend.Registration.{clean, clean_services, valid_services}

-- No element is among those before it or in `seen`.
abbrev pub NoRepeats : List Text → List Text → Type 0
NoRepeats seen [] = Unit
NoRepeats seen (s ∷ ss) = (contains seen s ≡ false) × NoRepeats (s ∷ seen) ss

-- The form in which a service is compared.
abbrev pub normal : (ℕ → ℕ) → Text → Text
normal unicode_lower s = to_lower unicode_lower (trim_space s)

no_more : (x : Text) (a b : Bool) → (a && b && not (contains [] x)) ≡ (a && b)
unfolding contains
no_more x a b = ground arith

module _ (u : ℕ → ℕ) where
  clean-NoRepeats : (seen raw : List Text) → NoRepeats seen (clean u seen raw)
  unfolding clean
  clean-NoRepeats seen [] = tt
  clean-NoRepeats seen (s ∷ raw) =
      elim (Bool-cases (contains valid_services (normal u s) && not (contains seen (normal u s)))) [
        | inl keep ↦
            let new : contains seen (normal u s) ≡ false = ground arith in
            rw keep (new, clean-NoRepeats (normal u s ∷ seen) raw)
        | inr skip ↦ rw skip (clean-NoRepeats seen raw)
      ]

  clean-contains :
      (seen raw : List Text) (x : Text)
      → contains (clean u seen raw) x
        ≡ (contains valid_services x && contains (map (normal u) raw) x && not (contains seen x))
  unfolding clean contains
  clean-contains seen [] x = ground arith
  clean-contains seen (s ∷ raw) x = ground (
    arith,
    clean-contains seen raw x,
    clean-contains (normal u s ∷ seen) raw x,
    text_eq.decides x (normal u s),
  )

  -- `cleanServices` keeps a slug exactly when it is one of the catalogue's and some service of
  -- the request reads so, trimmed and in lower case.
  pub clean_services-contains :
      (raw : List Text) (x : Text)
      → contains (clean_services u raw) x
        ≡ (contains valid_services x && contains (map (normal u) raw) x)
  unfolding clean_services
  clean_services-contains raw x =
      clean-contains [] raw x
      ∙ no_more x (contains valid_services x) (contains (map (normal u) raw) x)

  -- `cleanServices` keeps no slug twice.
  pub clean_services-NoRepeats : (raw : List Text) → NoRepeats [] (clean_services u raw)
  unfolding clean_services
  clean_services-NoRepeats raw = clean-NoRepeats [] raw
