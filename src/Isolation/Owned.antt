-- ===== src/Isolation/Owned.antt =====
-- Rows with an owner, and rows that refer to them: a service or a project of a company, and an image.
use proindustrial_backend.Common.{
  Bool, Bool-cases, HasKey, List, String, [], and_false, and_true, any, any-filter-kept, any-map_if,
  ap, beq_of_ne, eq_of_beq, false, filter, if◌then◌else◌, inl, inr, map_if, nat_eq, refl, string_eq,
  sym, text_eq, true, ◌&&◌, ◌==◌, ◌∙◌, ◌∷◌, ◌≡◌, ◌≢◌,
}

module _ {S I : Type 0} (key owner : S → String) (ref : I → String) where
  -- The row of a key is the owner's.
  abbrev pub has : String → String → List S → Bool
  has id c ss = any (λ s. key s == id && owner s == c) ss

  abbrev pub seen : String → List S → List I → List I
  seen c ss is = filter (λ i. has (ref i) c ss) is

  module _ (c other : String) (apart : c ≢ other) where
    owned_miss : (id : String) (s : S) → owner s ≡ c → (key s == id && owner s == other) ≡ false
    owned_miss id s e = and_false (key s == id) (owner s == other) (rw e (beq_of_ne c other apart))

    none_has :
        (id x : String) (ss : List S) → any (λ s. key s == id) ss ≡ false → has id x ss ≡ false
    none_has id x [] h = refl
    none_has id x (s ∷ ss) h = elim (Bool-cases (key s == id)) [
      | inl hit ↦ absurd (cc (h, ap (λ b. if b then true else any (λ s. key s == id) ss) hit))
      | inr miss ↦ rw miss (none_has id x ss (rw miss at h))
    ]

    -- A row that one company owns by a key hides the key from the others.
    pub has_apart :
        (id : String) (ss : List S) → HasKey key ss → has id c ss ≡ true → has id other ss ≡ false
    has_apart id [] k h = refl
    has_apart id (s ∷ ss) (fresh, k) h = elim (Bool-cases (key s == id)) [
      | inl this ↦
          let free : any (λ y. key y == id) ss ≡ false =
            ap (λ x. any (λ y. key y == x) ss) (sym (eq_of_beq (key s) id this)) ∙ fresh in
          elim (Bool-cases (owner s == other)) [
            | inl theirs ↦
                let mine : (owner s == c) ≡ false =
                  rw (eq_of_beq (owner s) other theirs) (beq_of_ne other c (λ e. apart (sym e))) in
                let none_left : has id c (s ∷ ss) ≡ false =
                  rw (this, mine) (none_has id c ss free) in
                absurd (cc (h, none_left))
            | inr others ↦ rw (this, others) (none_has id other ss free)
          ]
      | inr miss ↦ rw miss (has_apart id ss k (rw miss at h))
    ]

    -- What the other company sees of its images, after each kind of change.
    pub seen-cons :
        (s : S) (ss : List S) (is : List I)
        → owner s ≡ c
        → seen other (s ∷ ss) is ≡ seen other ss is
    seen-cons s ss is e =
        ap (λ p. filter p is)
          (λ k i. ap (λ b. if b then true else has (ref i) other ss) (owned_miss (ref i) s e) k)

    pub seen-drop :
        (q : S → Bool) (ss : List S) (is : List I)
        → ((s : S) → (owner s == other) ≡ true → q s ≡ true)
        → seen other (filter q ss) is ≡ seen other ss is
    seen-drop q ss is h =
        ap (λ p. filter p is)
          (λ k i.
            any-filter-kept (λ s. key s == ref i && owner s == other) q
              (λ s e. h s (and_true (key s == ref i) (owner s == other) e).1) ss k)

  pub has-map_if :
      (test : S → Bool) (set : S → S) (id x : String) (ss : List S)
      → ((s : S) → key (set s) ≡ key s)
      → ((s : S) → owner (set s) ≡ owner s)
      → has id x (map_if test set ss) ≡ has id x ss
  has-map_if test set id x ss h k =
      any-map_if (λ s. key s == id && owner s == x) test set (λ s j. (h s j == id) && (k s j == x))
        ss
