-- ===== src/Media/Regions/Coverage.antt =====
-- The regions of the companies as a set for each (internal/repository/media_repo.go).
use proindustrial_backend.Common.{
  Bool, Bool-cases, List, String, [], and_true, any, any-filter-kept, any-filter-dropped, ne_of_beq,
  or_true, or_with_false, ap, beq_of_ne, eq_of_beq, eq_self, false, if◌then◌else◌, inl, inr, leb,
  length, nat_eq, not, refl, string_eq, subst, sym, text_eq, true, ◌&&◌, ◌==◌, ◌||◌, ◌∙◌, ◌∷◌, ◌≡◌,
}
use proindustrial_backend.Common.Text.{Text}
use proindustrial_backend.Database.{◌>>◌, Db, Driver, Result, World, err, ok, statement}
use proindustrial_backend.Database.Ensures.{
  Ensures, Ensures-pure, Ensures-statement_bind, Ensures-transaction,
}
use proindustrial_backend.Database.Laws.{Result-cases, next, transaction_err}
use proindustrial_backend.Model.{Company}
use proindustrial_backend.Media.Regions.{
  delete_regions, insert_region, insert_regions, same_region, serves, set_service_regions,
}

-- Which company serves which region.
abbrev pub Coverage : Type 0
Coverage = String → Text → Bool

abbrev pub coverage : Db → Coverage
coverage db c r = any (same_region c r) db.service_regions

abbrev is_given : Text → Bool
is_given [] = false
is_given (c ∷ s) = true

-- A region that the list names; an empty one is none.
abbrev pub asked : List Text → Text → Bool
asked [] r = false
asked (x ∷ xs) r = (is_given x && x == r) || asked xs r

-- The set of one company is replaced.
abbrev pub replace : String → List Text → Coverage → Coverage
replace company regions before c r = if company == c then asked regions r else before c r

-- What a replacement promises, by its outcome.
abbrev pub Replaces : String → List Text → Coverage → Result (Unit {0}) → Coverage → Type 0
Replaces company regions before (ok u) after = after ≡ replace company regions before
Replaces company regions before (err e) after = after ≡ before

first_row : (a b : Bool) → (if a then true else b) ≡ (b || a)
first_row true b = sym (or_true b)
first_row false b = sym (or_with_false b)

module _ (company : String) (region : Text) (c : String) (r : Text) where
  held_already :
      (rows : List (String × Text))
      → any (same_region company region) rows ≡ true
      → any (same_region c r) rows ≡ (any (same_region c r) rows || (company == c && region == r))
  held_already rows held = elim (Bool-cases (company == c && region == r)) [
    | inl this ↦
        let (a, b) = and_true (company == c) (region == r) this in
        let has : any (same_region c r) rows ≡ true =
          cc (held, eq_of_beq company c a, eq_of_beq region r b) in
        rw has refl
    | inr other ↦ rw other (sym (or_with_false (any (same_region c r) rows)))
  ]

  insert_region-coverage :
      (db : Db) {u : Unit {0}} {after : Db}
      → insert_region company region db ≡ ok (u, after)
      → coverage after c r ≡ (coverage db c r || (company == c && region == r))
  unfolding insert_region
  insert_region-coverage db {after} h = elim (Bool-cases (leb (length region) 100)) [
    | inr long ↦ absurd (cc (rw long at h))
    | inl short ↦ elim (Bool-cases (any (same_region company region) db.service_regions)) [
      | inl held ↦
          let same : db ≡ after = cc (rw (short, held) at h) in
          subst (λ x. coverage x c r ≡ (coverage db c r || (company == c && region == r))) same
            (held_already db.service_regions held)
      | inr new ↦ elim (Bool-cases (any (λ (x : Company). x.id == company) db.companies)) [
        | inl found ↦
            let same : record db { service_regions = (company, region) ∷ db.service_regions }
                ≡ after =
              cc (rw (short, new, found) at h) in
            subst (λ x. coverage x c r ≡ (coverage db c r || (company == c && region == r))) same
              (first_row (company == c && region == r) (coverage db c r))
        | inr missing ↦ absurd (cc (rw (short, new, missing) at h))
      ]
    ]
  ]

delete_regions-coverage :
    (company : String) (db : Db) (c : String) (r : Text)
    → coverage (delete_regions company db) c r ≡ (not (company == c) && coverage db c r)
unfolding delete_regions
delete_regions-coverage company db c r = elim (Bool-cases (company == c)) [
  | inl mine ↦ rw mine (
      any-filter-dropped (same_region c r) (λ x. not (serves company x))
        (λ x hit.
          rw
            (
              eq_of_beq x.0 c (and_true (x.0 == c) (x.1 == r) hit).0,
              sym (eq_of_beq company c mine),
              eq_self company,
            )
            refl)
        db.service_regions)
  | inr theirs ↦ rw theirs (
      any-filter-kept (same_region c r) (λ x. not (serves company x))
        (λ x hit.
          rw
            (
              eq_of_beq x.0 c (and_true (x.0 == c) (x.1 == r) hit).0,
              beq_of_ne c company (λ e. ne_of_beq company c theirs (sym e)),
            )
            refl)
        db.service_regions)
]

nothing_more : (a m : Bool) → (a || (m && false)) ≡ a
nothing_more a true = or_with_false a
nothing_more a false = or_with_false a

both_added : (a m x y : Bool) → ((a || (m && x)) || (m && y)) ≡ (a || (m && (x || y)))
both_added true m x y = refl
both_added false true x y = refl
both_added false false x y = refl

emptied : (m a b : Bool) → ((not m && a) || (m && b)) ≡ (if m then b else a)
emptied true a b = refl
emptied false a b = or_with_false a

module _ (d : Driver) (company : String) where
  -- What the insertions have added, for as long as they return.
  abbrev Added : List Text → Coverage → Db → Type 0
  Added regions before db =
      (c : String) (r : Text) → coverage db c r ≡ (before c r || (company == c && asked regions r))

  insert_regions-Added :
      (regions : List Text) (w : World)
      → Ensures (insert_regions d company regions) w (λ _ db. Added regions (coverage w.db) db)
  unfolding insert_regions
  insert_regions-Added [] w =
      Ensures-pure tt w (λ _ db. Added [] (coverage w.db) db)
        (λ c r. sym (nothing_more (coverage w.db c r) (company == c)))
  insert_regions-Added ([] ∷ regions) w = insert_regions-Added regions w
  insert_regions-Added ((x ∷ s) ∷ regions) w =
      Ensures-statement_bind (λ _. insert_regions d company regions) w
        (λ _ db. Added ((x ∷ s) ∷ regions) (coverage w.db) db) d
        (λ t. insert_region company (x ∷ s))
        (λ u w' ran v h c r.
          insert_regions-Added regions w' v h c r
          ∙ ap (λ b. b || (company == c && asked regions r))
              (insert_region-coverage company (x ∷ s) c r w.db ran)
          ∙ both_added (coverage w.db c r) (company == c) ((x ∷ s) == r) (asked regions r))

  abbrev Replaced : List Text → Coverage → Db → Type 0
  Replaced regions before db =
      (c : String) (r : Text) → coverage db c r ≡ replace company regions before c r

  -- The body of the transaction: the deletion, then the insertions.
  replace_regions-Replaced :
      (regions : List Text) (w : World)
      → Ensures
          (statement d (λ t db. ok (tt {0}, delete_regions company db))
            >> insert_regions d company regions)
          w
          (λ _ db. Replaced regions (coverage w.db) db)
  replace_regions-Replaced regions w =
      Ensures-statement_bind (λ _. insert_regions d company regions) w
        (λ _ db. Replaced regions (coverage w.db) db) d (λ t db. ok (tt, delete_regions company db))
        (λ u w' ran v h c r.
          let emptied_db : delete_regions company w.db ≡ w'.db = cc in
          insert_regions-Added regions w' v h c r
          ∙ ap (λ b. b || (company == c && asked regions r))
              (ap (λ x. coverage x c r) (sym emptied_db) ∙ delete_regions-coverage company w.db c r)
          ∙ emptied (company == c) (coverage w.db c r) (asked regions r))

  -- As a set of regions for each company, a call that succeeds replaces the set of its company by the
  -- regions of the list that are not empty and leaves every other set as it was; one that fails
  -- changes no set.
  pub set_service_regions-Replaces :
      (regions : List Text) (w : World)
      → Replaces company regions
          (coverage w.db)
          (set_service_regions d company regions w).0
          (coverage (set_service_regions d company regions w).1.db)
  unfolding set_service_regions
  set_service_regions-Replaces regions w =
      elim (Result-cases (set_service_regions d company regions w).0) [
        | inl (u, e) ↦ rw e (λ i c r.
            Ensures-transaction d _ w (λ _ db. Replaced regions (coverage w.db) db)
              (replace_regions-Replaced regions (next w)) u e c r i)
        | inr (x, e) ↦ rw e (ap coverage (transaction_err d _ w e))
      ]
