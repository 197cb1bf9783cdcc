-- ===== src/Database/Laws.antt =====
-- What statements and transactions leave behind.
use proindustrial_backend.Common.{
  Bool, Option, Option-cases, ap, arith, false, inl, inr, none, refl, some, sym, true, ℕ, ◌+◌, ◌∙◌,
  ◌≡◌, ◌⊎◌,
}
use proindustrial_backend.Database.{
  Action, Db, Driver, Error, Result, World, connection, err, ok, on_no_rows, one, query, require,
  settle, statement, transaction, ◌>>=◌,
}

-- A transaction that ends in an error leaves every table as it was.
pub transaction_err :
    {A : Type 0} (d : Driver) (body : Action A) (w : World) {e : Error}
    → (transaction d body w).0 ≡ err e
    → (transaction d body w).1.db ≡ w.db
unfolding transaction
transaction_err d body w h = ground arith

-- A transaction that returns a value has committed what its body did.
pub transaction_ok :
    {A : Type 0} (d : Driver) (body : Action A) (w : World) {a : A}
    → (transaction d body w).0 ≡ ok a
    → let inner = body (record { db = w.db; tick = w.tick + 1 }) in
      (inner.0 ≡ ok a) × ((transaction d body w).1.db ≡ inner.1.db)
unfolding transaction
transaction_ok d body w h = ground arith

pub Result-cases :
    {A : Type 0} (r : Result A) → ((a : A) × (r ≡ ok a)) ⊎ ((e : Error) × (r ≡ err e))
Result-cases (ok a) = inl (a, refl)
Result-cases (err e) = inr (e, refl)

-- A first step that returns a value hands it on, with the world that it left; one that fails ends.
pub >>=_of_ok :
    {A B : Type 0} (m : Action A) (f : A → Action B) (w : World) {a : A} {w' : World}
    → m w ≡ (ok a, w')
    → (m >>= f) w ≡ f a w'
unfolding ◌>>=◌
>>=_of_ok m f w e = λ i. elim (e i).0 [ ok a ↦ f a (e i).1 | err x ↦ (err x, (e i).1) ]

pub >>=_of_err :
    {A B : Type 0} (m : Action A) (f : A → Action B) (w : World) {x : Error} {w' : World}
    → m w ≡ (err x, w')
    → (m >>= f) w ≡ (err x, w')
unfolding ◌>>=◌
>>=_of_err m f w e = λ i. elim (e i).0 [ ok a ↦ f a (e i).1 | err x ↦ (err x, (e i).1) ]

-- Inversion of a sequence that returns a value.
pub >>=-eq-ok :
    {A B : Type 0} (m : Action A) (f : A → Action B) (w : World) {b : B}
    → ((m >>= f) w).0 ≡ ok b
    → (a : A) × ((m w).0 ≡ ok a) × ((f a (m w).1).0 ≡ ok b) × ((m >>= f) w ≡ f a (m w).1)
>>=-eq-ok m f w h = elim (Result-cases (m w).0) [
  | inl (a, e) ↦
      let step = >>=_of_ok m f w {a = a} {w' = (m w).1} (λ i. (e i, (m w).1)) in
      (a, e, ap (λ p. p.0) (sym step) ∙ h, step)
  | inr (x, e) ↦
      absurd (cc (h, ap (λ p. p.0) (>>=_of_err m f w {x = x} {w' = (m w).1} (λ i. (e i, (m w).1)))))
]

-- A statement that returns a value ran, at the tick and on the tables that it found.
pub statement_ok :
    {A : Type 0} (d : Driver) (run : ℕ → Db → Result (A × Db)) (w : World) {a : A}
    → (statement d run w).0 ≡ ok a
    → run w.tick w.db ≡ ok (a, (statement d run w).1.db)
unfolding statement
statement_ok d run w h = ground arith

-- A statement that no failure meets does what it says.
pub statement_runs :
    {A : Type 0} (d : Driver) (run : ℕ → Db → Result (A × Db)) (w : World)
    → d.fails w.tick ≡ false
    → statement d run w ≡ settle w.db (w.tick + 1) (run w.tick w.db)
unfolding statement
statement_runs d run w h = ground arith

pub require_ok :
    (b : Bool) (e : Error) (w : World) {u : Unit {0}}
    → (require b e w).0 ≡ ok u
    → (b ≡ true) × ((require b e w).1 ≡ w)
require_ok true e w h = (refl, refl)
require_ok false e w h = cc

pub on_no_rows_ok :
    {A : Type 0} (e : Error) (m : Action A) (w : World) {a : A}
    → (on_no_rows e m w).0 ≡ ok a
    → ((m w).0 ≡ ok a) × ((on_no_rows e m w).1 ≡ (m w).1)
on_no_rows_ok e m w h = ground arith

-- The world after one statement that has changed no table.
abbrev pub next : World → World
next w = record { db = w.db; tick = w.tick + 1 }

pub query_ok :
    {A : Type 0} (d : Driver) (f : Db → A) (w : World) {a : A}
    → (query d f w).0 ≡ ok a
    → (a ≡ f w.db) × (query d f w ≡ (ok (f w.db), next w))
unfolding statement
query_ok d f w h = ground arith

pub query_runs :
    {A : Type 0} (d : Driver) (f : Db → A) (w : World)
    → d.fails w.tick ≡ false
    → query d f w ≡ (ok (f w.db), next w)
unfolding statement
query_runs d f w h = ground arith

-- A query can only fail by the connection.
pub query_err :
    {A : Type 0} (d : Driver) (f : Db → A) (w : World) {e : Error}
    → (query d f w).0 ≡ err e
    → e ≡ connection
unfolding statement
query_err d f w h = ground arith

pub statement_fails :
    {A : Type 0} (d : Driver) (run : ℕ → Db → Result (A × Db)) (w : World)
    → d.fails w.tick ≡ true
    → statement d run w ≡ (err connection, next w)
unfolding statement
statement_fails d run w h = ground arith

-- A statement that ends in an error leaves the tables alone.
pub statement_err :
    {A : Type 0} (d : Driver) (run : ℕ → Db → Result (A × Db)) (w : World) {e : Error}
    → (statement d run w).0 ≡ err e
    → (statement d run w).1.db ≡ w.db
unfolding statement
statement_err d run w h = ground arith

-- `SELECT` for one row leaves the tables alone, whether or not it finds the row.
pub select_db :
    {A : Type 0} (d : Driver) (f : Db → Option A) (w : World)
    → (statement d (λ t db. one (f db) db) w).1.db ≡ w.db
unfolding statement
select_db d f w = elim (Option-cases (f w.db)) [
  | inl missing ↦ ground arith
  | inr (a, found) ↦ ground arith
]

pub on_no_rows_db :
    {A : Type 0} (e : Error) (m : Action A) (w : World) → (on_no_rows e m w).1.db ≡ (m w).1.db
on_no_rows_db e m w = elim (Result-cases (m w).0) [
  | inl (a, h) ↦ ground arith
  | inr (x, h) ↦ ground arith
]

-- A sequence leaves the tables alone when both of its steps do.
pub >>=_db :
    {A B : Type 0} (m : Action A) (f : A → Action B) (w : World)
    → (m w).1.db ≡ w.db
    → ((a : A) (w' : World) → (f a w').1.db ≡ w'.db)
    → ((m >>= f) w).1.db ≡ w.db
unfolding ◌>>=◌
>>=_db m f w h k = elim (Result-cases (m w).0) [
  | inl (a, e) ↦
      let step = >>=_of_ok m f w {a = a} {w' = (m w).1} (λ i. (e i, (m w).1)) in
      ap (λ p. p.1.db) step ∙ k a (m w).1 ∙ h
  | inr (x, e) ↦
      ap (λ p. p.1.db) (>>=_of_err m f w {x = x} {w' = (m w).1} (λ i. (e i, (m w).1))) ∙ h
]

pub one_ok :
    {A : Type 0} (o : Option A) (db : Db) {a : A} {db' : Db}
    → one o db ≡ ok (a, db')
    → (o ≡ some a) × (db' ≡ db)
one_ok none db h = cc
one_ok (some b) db h = ground arith

pub query_db : {A : Type 0} (d : Driver) (f : Db → A) (w : World) → (query d f w).1.db ≡ w.db
unfolding statement
query_db d f w = ground arith
