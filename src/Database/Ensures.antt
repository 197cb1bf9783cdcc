-- ===== src/Database/Ensures.antt =====
-- Postconditions: what holds of the value and of the tables whenever an action returns a value.
use proindustrial_backend.Common.{Bool, ap, subst, sym, true, ℕ, ◌≡◌}
use proindustrial_backend.Database.{
  Action, Db, Driver, Error, Result, World, ok, on_no_rows, pure, query, raise, require, statement,
  transaction, ◌>>=◌, ◌>>◌,
}
use proindustrial_backend.Database.Laws.{
  >>=-eq-ok, next, on_no_rows_ok, query_ok, require_ok, statement_ok, transaction_ok,
}

abbrev pub Ensures : {A : Type 0} → Action A → World → (A → Db → Type 0) → Type 0
Ensures {A} m w Q = (a : A) → (m w).0 ≡ ok a → Q a (m w).1.db

pub Ensures-require :
    (b : Bool) (e : Error) (w : World) → Ensures (require b e) w (λ _ db. (b ≡ true) × (db ≡ w.db))
Ensures-require b e w u h = let (holds, step) = require_ok b e w h in (holds, ap (λ v. v.db) step)

module _ {A : Type 0} where
  pub Ensures-pure : (a : A) (w : World) (Q : A → Db → Type 0) → Q a w.db → Ensures (pure a) w Q
  Ensures-pure a w Q h b e = let same : a ≡ b = cc in subst (λ x. Q x w.db) same h

  pub Ensures-raise : (e : Error) (w : World) (Q : A → Db → Type 0) → Ensures (raise e) w Q
  Ensures-raise e w Q b h = absurd (cc)

  pub Ensures-statement :
      (d : Driver) (run : ℕ → Db → Result (A × Db)) (w : World)
      → Ensures (statement d run) w (λ a db. run w.tick w.db ≡ ok (a, db))
  Ensures-statement d run w a h = statement_ok d run w h

  pub Ensures-query :
      (d : Driver) (f : Db → A) (w : World)
      → Ensures (query d f) w (λ a db. (a ≡ f w.db) × (db ≡ w.db))
  Ensures-query d f w a h = let (same, step) = query_ok d f w h in (same, ap (λ p. p.1.db) step)

  pub Ensures-on_no_rows :
      (e : Error) (m : Action A) (w : World) (Q : A → Db → Type 0)
      → Ensures m w Q
      → Ensures (on_no_rows e m) w Q
  Ensures-on_no_rows e m w Q h a k =
      let (ran, step) = on_no_rows_ok e m w k in subst (λ v. Q a v.db) (sym step) (h a ran)

  -- A transaction ensures what its body ensures after `BEGIN`.
  pub Ensures-transaction :
      (d : Driver) (body : Action A) (w : World) (Q : A → Db → Type 0)
      → Ensures body (next w) Q
      → Ensures (transaction d body) w Q
  Ensures-transaction d body w Q h a k =
      let (ran, same) = transaction_ok d body w k in subst (Q a) (sym same) (h a ran)

-- The second step may rest on what the first ensures.
pub Ensures-bind :
    {A B : Type 0} (m : Action A) (f : A → Action B) (w : World) (P : A → Db → Type 0)
    (Q : B → Db → Type 0)
    → Ensures m w P
    → ((a : A) (w' : World) → P a w'.db → Ensures (f a) w' Q)
    → Ensures (m >>= f) w Q
Ensures-bind m f w P Q first second b h =
    let (a, ran, rest, step) = >>=-eq-ok m f w h in
    subst (λ p. Q b p.1.db) (sym step) (second a (m w).1 (first a ran) b rest)

module _ {A B : Type 0} (f : A → Action B) (w : World) (Q : B → Db → Type 0) where
  pub Ensures-statement_bind :
      (d : Driver) (run : ℕ → Db → Result (A × Db))
      → ((a : A) (w' : World) → run w.tick w.db ≡ ok (a, w'.db) → Ensures (f a) w' Q)
      → Ensures (statement d run >>= f) w Q
  Ensures-statement_bind d run second =
      Ensures-bind (statement d run) f w (λ a db. run w.tick w.db ≡ ok (a, db)) Q
        (Ensures-statement d run w) second

  pub Ensures-query_bind :
      (d : Driver) (g : Db → A)
      → ((a : A) (w' : World) → a ≡ g w.db → w'.db ≡ w.db → Ensures (f a) w' Q)
      → Ensures (query d g >>= f) w Q
  Ensures-query_bind d g second =
      Ensures-bind (query d g) f w (λ a db. (a ≡ g w.db) × (db ≡ w.db)) Q (Ensures-query d g w)
        (λ a w' h. second a w' h.0 h.1)

pub Ensures-require_bind :
    {B : Type 0} (k : Action B) (w : World) (Q : B → Db → Type 0) (b : Bool) (e : Error)
    → ((w' : World) → b ≡ true → w'.db ≡ w.db → Ensures k w' Q)
    → Ensures (require b e >> k) w Q
Ensures-require_bind k w Q b e second =
    Ensures-bind (require b e) (λ _. k) w (λ _ db. (b ≡ true) × (db ≡ w.db)) Q
      (Ensures-require b e w) (λ _ w' h. second w' h.0 h.1)
