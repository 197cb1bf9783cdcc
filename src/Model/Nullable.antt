-- ===== src/Model/Nullable.antt =====
-- `NullString`, `NullTime` and `NullInt64` (internal/model/models.go), which differ in the type of
-- their value alone, and how they are written and read as JSON. `encoding/json` is the parameter
-- `Codec`: `Marshal` of a value, and `Unmarshal` into a variable, which may fail.
use proindustrial_backend.Common.{
  Bool, Bool-cases, Option, ap, beq_of_ne, false, if◌then◌else◌, inl, inr, nat_eq, none, refl, some,
  text_eq, true, ◌==◌, ◌∙◌, ◌≡◌, ◌≢◌,
}
use proindustrial_backend.Common.Text.{Text, codes}

pub record Nullable (A : Type 0) : Type 0 where
  pub valid : Bool
  pub value : A

-- What the other files keep of such a field: a value that is not valid is never looked at.
abbrev pub shown : {A : Type 0} → Nullable A → Option A
shown n = if n.valid then some n.value else none

pub record Codec (A : Type 0) : Type 0 where
  pub marshal : A → Option Text
  pub unmarshal : Text → A → Bool × A

module _ {A : Type 0} (json : Codec A) where
  -- `MarshalJSON`
  unfoldable pub marshal_json : Nullable A → Option Text
  marshal_json n = if n.valid then json.marshal n.value else some (codes "null")

  abbrev pub read_value : Nullable A → Bool × A → Bool × Nullable A
  read_value n (done, v) = (done, record n { valid = true; value = v })

  -- `UnmarshalJSON` into a field: whether it succeeds, and what is then in the field. A `null`
  -- leaves the old value behind the flag.
  unfoldable pub unmarshal_json : Text → Nullable A → Bool × Nullable A
  unmarshal_json b n =
      if b == codes "null"
      then (true, record n { valid = false })
      else read_value n (json.unmarshal b n.value)

  -- What is written as JSON is read back into any field, whatever was in it, as the same value or
  -- as none; where the JSON library reads back what it writes, and writes no value as `null`.
  pub unmarshal_json-marshal_json :
      ((a old : A) (b : Text) → json.marshal a ≡ some b → json.unmarshal b old ≡ (true, a))
      → ((a : A) → json.marshal a ≢ some (codes "null"))
      → (n field : Nullable A) {b : Text} → marshal_json n ≡ some b
      → ((unmarshal_json b field).0 ≡ true) × (shown (unmarshal_json b field).1 ≡ shown n)
  unfolding marshal_json unmarshal_json
  unmarshal_json-marshal_json back visible n field {b} h = elim (Bool-cases n.valid) [
    | inl valid ↦
        let written : json.marshal n.value ≡ some b = (rw valid at h) in
        let other : (b == codes "null") ≡ false =
          beq_of_ne b (codes "null") (λ e. visible n.value (written ∙ ap some e)) in
        rw (valid, other, back n.value field.value b written) (refl, refl)
    | inr empty ↦
        let same : some (codes "null") ≡ some b = (rw empty at h) in
        let null : codes "null" ≡ b = cc in rw (empty, ← null) (refl, refl)
  ]
