-- ===== src/Database/Keeps.antt =====
-- A relation between the tables before and after, which every action built from statements keeps.
use proindustrial_backend.Common.{
  Bool, Bool-cases, Option, false, if◌then◌else◌, inl, inr, none, refl, some, subst, sym, true, ℕ,
  ◌+◌, ◌≡◌,
}
use proindustrial_backend.Database.{
  Action, Db, Driver, Error, Result, World, err, finish, ok, pure, query, require, settle,
  statement, transaction, ◌>>=◌, ◌>>◌,
}
use proindustrial_backend.Database.Laws.{>>=_of_err, >>=_of_ok, Result-cases, next}

-- The tables that a statement leaves, where it does not end in an error.
abbrev Left : {A : Type 0} → (Db → Type 0) → Result (A × Db) → Type 0
Left P (ok (a, db)) = P db
Left P (err e) = Unit

pub record Leaves {A : Type 0} (P : Db → Type 0) (r : Result (A × Db)) : Type 0 where
  pub tables : Left P r

module _ {A : Type 0} {P : Db → Type 0} where
  pub Leaves-ok : {a : A} {db : Db} → P db → Leaves P (ok (a, db))
  Leaves-ok h = record { tables = h }

  pub Leaves-err : {e : Error} → Leaves {A = A} P (err e)
  Leaves-err = record { tables = tt }

  pub Leaves-if :
      (b : Bool) {x y : Result (A × Db)}
      → (b ≡ true → Leaves P x)
      → (b ≡ false → Leaves P y)
      → Leaves P (if b then x else y)
  Leaves-if true h k = h refl
  Leaves-if false h k = k refl

  -- A test whose failure is an error.
  pub Leaves-guard :
      (b : Bool) (e : Error) {x : Result (A × Db)}
      → (b ≡ true → Leaves P x)
      → Leaves P (if b then x else err e)
  Leaves-guard b e h = Leaves-if b h (λ _. Leaves-err)

  -- A test that must fail.
  pub Leaves-unless :
      (b : Bool) (e : Error) {x : Result (A × Db)}
      → (b ≡ false → Leaves P x)
      → Leaves P (if b then err e else x)
  Leaves-unless b e h = Leaves-if b (λ _. Leaves-err) h

  pub Leaves-found :
      {B : Type 0} (o : Option B) (e : Error) {f : B → Result (A × Db)}
      → ((b : B) → Leaves P (f b))
      → Leaves P (elim o [ none ↦ err e | some b ↦ f b ])
  Leaves-found none e h = Leaves-err
  Leaves-found (some b) e h = h b

module _ (R : Db → Db → Type 0) (same : (a : Db) → R a a)
    (chain : (a b c : Db) → R a b → R b c → R a c) where
  abbrev pub Keeps : {A : Type 0} → Action A → Type 0
  Keeps m = (w : World) → R w.db (m w).1.db

  settled :
      {A : Type 0} (db : Db) (t : ℕ) (r : Result (A × Db))
      → Leaves (R db) r
      → R db (settle db t r).1.db
  settled db t (ok (a, after)) k = k.tables
  settled db t (err e) k = same db

  -- One statement, on the tables that it finds.
  pub Keeps-statement_at :
      {A : Type 0} (d : Driver) (run : ℕ → Db → Result (A × Db)) (w : World)
      → Leaves (R w.db) (run w.tick w.db)
      → R w.db (statement d run w).1.db
  unfolding statement
  Keeps-statement_at d run w h = elim (Bool-cases (d.fails w.tick)) [
    | inl fails ↦ rw fails (same w.db)
    | inr runs ↦ rw runs (settled w.db (w.tick + 1) (run w.tick w.db) h)
  ]

  pub Keeps-statement :
      {A : Type 0} (d : Driver) (run : ℕ → Db → Result (A × Db))
      → ((t : ℕ) (db : Db) → Leaves (R db) (run t db))
      → Keeps (statement d run)
  Keeps-statement d run h w = Keeps-statement_at d run w (h w.tick w.db)

  pub Keeps-query : {A : Type 0} (d : Driver) (f : Db → A) → Keeps (query d f)
  Keeps-query d f = Keeps-statement d (λ t db. ok (f db, db)) (λ t db. Leaves-ok (same db))

  pub Keeps-pure : {A : Type 0} (a : A) → Keeps (pure a)
  Keeps-pure a w = same w.db

  pub Keeps-require : (b : Bool) (e : Error) → Keeps (require b e)
  Keeps-require true e w = same w.db
  Keeps-require false e w = same w.db

  -- What follows a guard runs only where the guard holds.
  pub Keeps-require_then :
      {A : Type 0} (b : Bool) (e : Error) (m : Action A)
      → (b ≡ true → Keeps m)
      → Keeps (require b e >> m)
  unfolding ◌>>=◌
  Keeps-require_then true e m h w = h refl w
  Keeps-require_then false e m h w = same w.db

  pub Keeps-bind :
      {A B : Type 0} (m : Action A) (f : A → Action B)
      → Keeps m
      → ((a : A) → Keeps (f a))
      → Keeps (m >>= f)
  Keeps-bind m f h k w = elim (Result-cases (m w).0) [
    | inl (a, e) ↦
        subst (λ p. R w.db p.1.db)
          (sym (>>=_of_ok m f w {a = a} {w' = (m w).1} (λ i. (e i, (m w).1))))
          (chain w.db (m w).1.db (f a (m w).1).1.db (h w) (k a (m w).1))
    | inr (x, e) ↦
        subst (λ p. R w.db p.1.db)
          (sym (>>=_of_err m f w {x = x} {w' = (m w).1} (λ i. (e i, (m w).1)))) (h w)
  ]

  finished :
      {A : Type 0} (d : Driver) (db : Db) (p : Result A × World)
      → R db p.1.db
      → R db (finish d db p).1.db
  finished d db (ok a, w) r = elim (Bool-cases (d.fails w.tick)) [
    | inl fails ↦ rw fails (same db)
    | inr runs ↦ rw runs r
  ]
  finished d db (err e, w) r = same db

  pub Keeps-transaction :
      {A : Type 0} (d : Driver) (body : Action A) → Keeps body → Keeps (transaction d body)
  unfolding transaction
  Keeps-transaction d body h w = elim (Bool-cases (d.fails w.tick)) [
    | inl fails ↦ rw fails (same w.db)
    | inr runs ↦ rw runs (finished d w.db (body (next w)) (h (next w)))
  ]
