-- ===== src/Login/Password.antt =====
-- Changing the password (internal/handler/auth.go).
use proindustrial_backend.Common.{
  Bool-cases, Option, String, ap, arith, false, inl, inr, map_if, nat_eq, none, refl, some,
  string_eq, subst, sym, text_eq, true, ℕ, ◌==◌, ◌∙◌, ◌≡◌, ◌≢◌,
}
use proindustrial_backend.Common.Text.{Text}
use proindustrial_backend.Accounts.{change_password, get_by_id, rehash}
use proindustrial_backend.Database.{Db, Driver, Error, Result, World, err, ok, one, statement}
use proindustrial_backend.Database.Laws.{Result-cases, one_ok, statement_ok}
use proindustrial_backend.Http.{answer, call}
use proindustrial_backend.Login.{
  Crypto, after_account, after_change, after_hash, change, claims_of, sent, signed,
}
use proindustrial_backend.Model.{User}
use proindustrial_backend.Tables.{user_by_id}

sent_ok : (o : Option Text) {code : ℕ} {token : Text} → sent o ≡ answer code token → o ≡ some token
sent_ok none h = absurd (cc)
sent_ok (some t) {code} {token} h = let same : t ≡ token = cc in ap some same

rehash_ok :
    (id hash : String) (db : Db) {u : Unit {0}} {after : Db}
    → rehash id hash db ≡ ok (u, after)
    → after ≡ record db {
      users =
          map_if
            (λ (x : User). x.id == id)
            (λ x. record x { password_hash = hash; must_change_password = false })
            db.users;
    }
rehash_ok id hash db h = ground arith

module _ (d : Driver) (crypto : Crypto) (secret : String) where
  after_change_ok :
      (u : User) (r : Result (Unit {0})) (w : World) {code : ℕ} {token : Text}
      → (after_change d crypto secret u r w).0 ≡ answer code token
      → (r ≡ ok tt)
        × ((now : ℕ) × (crypto.sign secret (claims_of now false u) ≡ some token))
        × ((after_change d crypto secret u r w).1 ≡ w)
  unfolding after_change
  after_change_ok u (err e) w h = absurd (cc)
  after_change_ok u (ok done) w h = (
    refl,
    (d.now w.tick, sent_ok (crypto.sign secret (claims_of (d.now w.tick) false u)) h),
    refl,
  )

  -- The tables after the account `u` got a hash of `fresh`.
  abbrev pub Rehashed : Text → User → Db → Db → Type 0
  Rehashed fresh u before after =
      (hash : String) × (k : ℕ) × (crypto.hash k fresh ≡ some hash)
      × (after ≡ record before {
        users =
            map_if (λ (x : User). x.id == u.id)
              (λ x. record x { password_hash = hash; must_change_password = false }) before.users;
      })

  -- What a change of the password of `u` has met, and the tables and the token that follow.
  abbrev pub Changed : Text → Text → User → Db → Db → Text → Type 0
  Changed current fresh u before after token =
      (crypto.matches u.password_hash current ≡ true)
      × Rehashed fresh u before after
      × ((now : ℕ) × (crypto.sign secret (claims_of now false u) ≡ some token))

  after_hash_ok :
      (fresh : Text) (k : ℕ) (u : User) (o : Option String) (w : World) {code : ℕ} {token : Text}
      → crypto.hash k fresh ≡ o
      → (after_hash d crypto secret u o w).0 ≡ answer code token
      → Rehashed fresh u w.db (after_hash d crypto secret u o w).1.db
        × ((now : ℕ) × (crypto.sign secret (claims_of now false u) ≡ some token))
  unfolding after_hash call change_password
  after_hash_ok fresh k u none w made h = absurd (cc)
  after_hash_ok fresh k u (some hash) w made h =
      let run : ℕ → Db → Result (Unit {0} × Db) = λ t. rehash u.id hash in
      let (ran, signed, same) = after_change_ok u (statement d run w).0 (statement d run w).1 h in
      let done = rehash_ok u.id hash w.db (statement_ok d run w ran) in
      ((hash, k, made, ap (λ v. v.db) same ∙ done), signed)

  after_account_ok :
      (current fresh : Text) (u : User) (w : World) {code : ℕ} {token : Text}
      → (after_account d crypto secret current fresh (ok u) w).0 ≡ answer code token
      → Changed current fresh u w.db
          (after_account d crypto secret current fresh (ok u) w).1.db
          token
  unfolding after_account
  after_account_ok current fresh u w h =
      elim (Bool-cases (crypto.matches u.password_hash current)) [
        | inr wrong ↦ absurd (let no = rw wrong at h in cc)
        | inl matched ↦
            let (rehashed, signed) =
              after_hash_ok fresh w.tick u (crypto.hash w.tick fresh) w refl (rw matched at h) in
            rw matched (refl, rehashed, signed)
      ]

  after_account_err :
      (current fresh : Text) (e : Error) (w : World) {code : ℕ} {token : Text}
      → (after_account d crypto secret current fresh (err e) w).0 ≢ answer code token
  unfolding after_account
  after_account_err current fresh e w h = cc

  -- A change of the password that is answered with a token has met the account of the session and
  -- its current password; the row gets a hash of the new password and loses the flag, no other row changes, and the
  -- token carries the claims of the account without the flag.
  pub change_ok :
      (id : String) (current fresh : Text) (w : World) {code : ℕ} {token : Text}
      → (change d crypto secret id (some (current, fresh)) w).0 ≡ answer code token
      → (u : User) × (user_by_id id w.db ≡ some u)
        × Changed current fresh u w.db
            (change d crypto secret id (some (current, fresh)) w).1.db
            token
  unfolding change call
  change_ok id current fresh w {code} {token} h =
      let got = get_by_id d id w in
      let go = λ (r : Result User). after_account d crypto secret current fresh r got.1 in
      elim (Result-cases got.0) [
        | inr (e, lost) ↦
            absurd (after_account_err current fresh e got.1 (sym (ap (λ r. (go r).0) lost) ∙ h))
        | inl (u, ran) ↦
            let found =
              one_ok (user_by_id id w.db) w.db
                (statement_ok d (λ t db. one (user_by_id id db) db) w ran) in
            (
              u,
              found.0,
              subst (λ b. Changed current fresh u b (go got.0).1.db token) found.1
                  (subst (λ r. Changed current fresh u got.1.db (go r).1.db token) (sym ran)
                    (after_account_ok current fresh u got.1 (sym (ap (λ r. (go r).0) ran) ∙ h))),
            )
      ]
