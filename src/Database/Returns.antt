-- ===== src/Database/Returns.antt =====
-- Total correctness: an action returns a value, and what holds of it and of the tables.
use proindustrial_backend.Common.{Bool, ap, arith, false, refl, true, ℕ, ◌+◌, ◌∙◌, ◌≡◌}
use proindustrial_backend.Database.{
  Action, Db, Driver, Error, Result, World, err, finish, ok, on_no_rows, pure, rename_no_rows,
  require, settle, statement, transaction, ◌>>=◌,
}
use proindustrial_backend.Database.Laws.{>>=_of_ok, next, statement_runs}

abbrev pub Returns : {A : Type 0} → Action A → World → (A → Db → Type 0) → Type 0
Returns {A} m w Q = (a : A) × (w' : World) × (m w ≡ (ok a, w')) × Q a w'.db

pub Returns-pure :
    {A : Type 0} (a : A) (w : World) (Q : A → Db → Type 0) → Q a w.db → Returns (pure a) w Q
Returns-pure a w Q h = (a, w, refl, h)

pub Returns-bind :
    {A B : Type 0} (m : Action A) (f : A → Action B) (w : World) (P : A → Db → Type 0)
    (Q : B → Db → Type 0)
    → Returns m w P
    → ((a : A) (w' : World) → P a w'.db → Returns (f a) w' Q)
    → Returns (m >>= f) w Q
Returns-bind m f w P Q (a, w₁, e, h) second =
    let (b, w₂, e₂, k) = second a w₁ h in (b, w₂, >>=_of_ok m f w e ∙ e₂, k)

-- Without failures a statement returns what it computes from the tables.
pub Returns-statement :
    {A : Type 0} (d : Driver) (run : ℕ → Db → Result (A × Db)) (w : World) {a : A} {db : Db}
    → d.fails w.tick ≡ false
    → run w.tick w.db ≡ ok (a, db)
    → Returns (statement d run) w (λ a' db'. (a' ≡ a) × (db' ≡ db))
Returns-statement d run w {a} {db} h e = (
  a,
  record { db = db; tick = w.tick + 1 },
  statement_runs d run w h ∙ ap (settle w.db (w.tick + 1)) e,
  (refl, refl),
)

pub Returns-require :
    (b : Bool) (e : Error) (w : World) → b ≡ true → Returns (require b e) w (λ _ db. db ≡ w.db)
Returns-require true e w h = (tt, w, refl, refl)
Returns-require false e w h = absurd (cc)

pub Returns-on_no_rows :
    {A : Type 0} (e : Error) (m : Action A) (w : World) (Q : A → Db → Type 0)
    → Returns m w Q
    → Returns (on_no_rows e m) w Q
Returns-on_no_rows e m w Q (a, w', h, k) = (
  a,
  w',
  (λ i. elim (h i).0 [ ok x ↦ (ok x, (h i).1) | err x ↦ (err (rename_no_rows e x), (h i).1) ]),
  k,
)

transaction_runs :
    {A : Type 0} (d : Driver) (body : Action A) (w : World)
    → d.fails w.tick ≡ false
    → transaction d body w ≡ finish d w.db (body (next w))
unfolding transaction
transaction_runs d body w h = ground arith

commits :
    {A : Type 0} (d : Driver) (db : Db) (a : A) (w : World)
    → d.fails w.tick ≡ false
    → finish d db (ok a, w) ≡ (ok a, next w)
commits d db a w h = ground arith

-- Where no statement fails, `COMMIT` does not either.
pub Returns-transaction :
    {A : Type 0} (d : Driver) (body : Action A) (w : World) (Q : A → Db → Type 0)
    → ((t : ℕ) → d.fails t ≡ false)
    → Returns body (next w) Q
    → Returns (transaction d body) w Q
Returns-transaction d body w Q h (a, w', e, k) = (
  a,
  next w',
  transaction_runs d body w (h w.tick) ∙ ap (finish d w.db) e ∙ commits d w.db a w' (h w'.tick),
  k,
)
