-- ===== src/Tables/Sorting.antt =====
-- `ORDER BY`, the insertion sort of `Tables`, by an order that is total and transitive.
use proindustrial_backend.Common.{
  All, Bool, Bool-cases, List, [], ap, false, filter, inl, inr, refl, sym, true, ◌∙◌, ◌∷◌, ◌≡◌,
}
use proindustrial_backend.Tables.{insert_by, sort_by}

All-filter :
    {A : Type 0} (P : A → Type 0) (p : A → Bool) (l : List A) → All P l → All P (filter p l)
All-filter P p [] h = tt
All-filter P p (x ∷ l) (h, k) = elim (Bool-cases (p x)) [
  | inl keep ↦ rw keep (h, All-filter P p l k)
  | inr drop ↦ rw drop (All-filter P p l k)
]

module _ {A : Type 0} (before : A → A → Bool) where
  abbrev IsOrdered : List A → Type 0
  IsOrdered [] = Unit
  IsOrdered (a ∷ l) = All (λ x. before a x ≡ true) l × IsOrdered l

  -- A row that stands before all others goes first.
  insert_by_first :
      (a : A) (l : List A) → All (λ x. before a x ≡ true) l → insert_by before a l ≡ a ∷ l
  insert_by_first a [] h = refl
  insert_by_first a (b ∷ l) (h, k) = rw h refl

  insert_by-All :
      (P : A → Type 0) (a : A) (l : List A) → P a → All P l → All P (insert_by before a l)
  insert_by-All P a [] h k = (h, tt)
  insert_by-All P a (b ∷ l) h (k, ks) = elim (Bool-cases (before a b)) [
    | inl first ↦ rw first (h, (k, ks))
    | inr later ↦ rw later (k, insert_by-All P a l h ks)
  ]

  pub sort_by-All : (P : A → Type 0) (l : List A) → All P l → All P (sort_by before l)
  sort_by-All P [] h = tt
  sort_by-All P (a ∷ l) (h, k) = insert_by-All P a (sort_by before l) h (sort_by-All P l k)

  module _ (total : (a b : A) → before a b ≡ false → before b a ≡ true)
      (trans : (a b c : A) → before a b ≡ true → before b c ≡ true → before a c ≡ true) where
    below :
        (a b : A) (l : List A)
        → before a b ≡ true
        → All (λ x. before b x ≡ true) l
        → All (λ x. before a x ≡ true) l
    below a b [] h k = tt
    below a b (c ∷ l) h (k, ks) = (trans a b c h k, below a b l h ks)

    insert_by-IsOrdered : (a : A) (l : List A) → IsOrdered l → IsOrdered (insert_by before a l)
    insert_by-IsOrdered a [] h = (tt, tt)
    insert_by-IsOrdered a (b ∷ l) (h, k) = elim (Bool-cases (before a b)) [
      | inl first ↦ rw first ((first, below a b l first h), (h, k))
      | inr later ↦ rw later (
        insert_by-All (λ x. before b x ≡ true) a l (total a b later) h,
        insert_by-IsOrdered a l k,
      )
    ]

    sort_by-IsOrdered : (l : List A) → IsOrdered (sort_by before l)
    sort_by-IsOrdered [] = tt
    sort_by-IsOrdered (a ∷ l) = insert_by-IsOrdered a (sort_by before l) (sort_by-IsOrdered l)

    filter-insert_by_kept :
        (p : A → Bool) (a : A) (l : List A)
        → p a ≡ true
        → IsOrdered l
        → filter p (insert_by before a l) ≡ insert_by before a (filter p l)
    filter-insert_by_kept p a [] h k = rw h refl
    filter-insert_by_kept p a (b ∷ l) h (k, ks) = elim (Bool-cases (before a b)) [
      | inl first ↦
          rw (first, h)
            (sym (
              insert_by_first a (filter p (b ∷ l))
                (All-filter (λ x. before a x ≡ true) p (b ∷ l) (first, below a b l first k))))
      | inr later ↦ elim (Bool-cases (p b)) [
        | inl keep ↦
            rw (later, keep) (rw later (ap (λ x. b ∷ x) (filter-insert_by_kept p a l h ks)))
        | inr drop ↦ rw (later, drop) (filter-insert_by_kept p a l h ks)
      ]
    ]

    filter-insert_by_dropped :
        (p : A → Bool) (a : A) (l : List A)
        → p a ≡ false
        → filter p (insert_by before a l) ≡ filter p l
    filter-insert_by_dropped p a [] h = rw h refl
    filter-insert_by_dropped p a (b ∷ l) h = elim (Bool-cases (before a b)) [
      | inl first ↦ rw (first, h) refl
      | inr later ↦ elim (Bool-cases (p b)) [
        | inl keep ↦ rw (later, keep) (ap (λ x. b ∷ x) (filter-insert_by_dropped p a l h))
        | inr drop ↦ rw (later, drop) (filter-insert_by_dropped p a l h)
      ]
    ]

    -- `WHERE` and `ORDER BY` may be done in either order.
    pub filter-sort_by :
        (p : A → Bool) (l : List A) → filter p (sort_by before l) ≡ sort_by before (filter p l)
    filter-sort_by p [] = refl
    filter-sort_by p (a ∷ l) = elim (Bool-cases (p a)) [
      | inl keep ↦ rw keep (
          filter-insert_by_kept p a (sort_by before l) keep (sort_by-IsOrdered l)
          ∙ ap (insert_by before a) (filter-sort_by p l))
      | inr drop ↦
          rw drop (filter-insert_by_dropped p a (sort_by before l) drop ∙ filter-sort_by p l)
    ]
