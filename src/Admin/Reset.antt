-- ===== src/Admin/Reset.antt =====
-- What `ResetInitialPassword` leaves (internal/repository/admin_repo.go).
use proindustrial_backend.Common.{
  Bool, List, Option, Option-cases, String, ap, arith, eq_of_beq, find, inl, inr, map_if, nat_eq,
  none, refl, some, string_eq, sym, text_eq, true, ◌∙◌, ◌≡◌, ◌==◌,
}
use proindustrial_backend.Admin.{ApproveRegistrationResult, get_registration}
use proindustrial_backend.Admin.Approval.{Ensures-get_registration}
use proindustrial_backend.Admin.Credentials.{
  account_test, company_of, reset_body, reset_initial_password, reset_user,
}
use proindustrial_backend.Database.{
  Db, Driver, World, approved_company_not_found, ok, on_no_rows, statement,
}
use proindustrial_backend.Database.Ensures.{
  Ensures-bind, Ensures-on_no_rows, Ensures-pure, Ensures-require_bind, Ensures-statement,
  Ensures-statement_bind, Ensures-transaction,
}
use proindustrial_backend.Database.Laws.{next, one_ok}
use proindustrial_backend.Model.{Company, ProviderRegistration, User}
use proindustrial_backend.Tables.{registration_by_id, update_user}

update_user_ok :
    (test : User → Bool) (set : User → User) (db : Db) {u : User} {after : Db}
    → update_user test set db ≡ ok (u, after)
    → (old : User) × (find test db.users ≡ some old)
      × (u ≡ set old)
      × (after ≡ record db { users = map_if test set db.users })
unfolding update_user
update_user_ok test set db h = elim (Option-cases (find test db.users)) [
  | inl missing ↦ absurd (ground arith)
  | inr (old, found) ↦ (old, found, ground arith, ground arith)
]

company_of-users :
    (o : Option String) (db : Db) (us : List User)
    → company_of o (record db { users = us }) ≡ company_of o db
company_of-users none db us = refl
company_of-users (some c) db us = refl

company_of-some :
    (o : Option String) (db : Db) {c : Company}
    → company_of o db ≡ some c
    → (k : String) × (o ≡ some k) × (find (λ (x : Company). x.id == k) db.companies ≡ some c)
company_of-some none db h = absurd (cc)
company_of-some (some k) db h = (k, refl, h)

-- The account of a registration: the one linked to it, or, without a link, any with its address.
abbrev pub is_account : Driver → ProviderRegistration → User → Bool
is_account d reg u = elim reg.user_id [
  | some id ↦ u.id == id
  | none ↦ d.lower u.email == d.lower reg.email
]

account_test_lem :
    (d : Driver) (reg : ProviderRegistration) (o : Option String)
    → account_test d reg o ≡ λ u. elim o [
      | some id ↦ u.id == id
      | none ↦ d.lower u.email == d.lower reg.email
    ]
account_test_lem d reg none = refl
account_test_lem d reg (some id) = refl

module _ (d : Driver) (id hash : String) (before : Db) where
  -- The account of an approved registration has the new hash, and its flag; the company is its own.
  abbrev pub Resets : ApproveRegistrationResult → Db → Type 0
  Resets r after =
      (old : User) × (company : String) × (find (λ (x : ProviderRegistration). x.id == id)
          before.registrations
        ≡ some r.registration)
      × (r.registration.status ≡ "approved")
      × (find (is_account d r.registration) before.users ≡ some old)
      × (r.user ≡ record old { password_hash = hash; must_change_password = true })
      × (old.company_id ≡ some company)
      × (find (λ (c : Company). c.id == company) before.companies ≡ some r.company)
      × (after ≡ record before {
        users =
            map_if (is_account d r.registration)
              (λ u. record u { password_hash = hash; must_change_password = true }) before.users;
      })

  -- A reset that returns has found the registration approved, an account linked to it (or, without
  -- a link, with its address) and that account's company; every such account has the new hash and
  -- has to change its password, and nothing else has changed.
  pub reset_initial_password_ok :
      (w : World) {r : ApproveRegistrationResult}
      → w.db ≡ before
      → (reset_initial_password d id hash w).0 ≡ ok r
      → Resets r (reset_initial_password d id hash w).1.db
  unfolding reset_initial_password reset_body
  reset_initial_password_ok w {r} start e =
      Ensures-transaction d (reset_body d id hash) w Resets
        (Ensures-bind (get_registration d id) _ (next w)
          (λ reg db. (registration_by_id id w.db ≡ some reg) × (db ≡ w.db)) Resets
          (Ensures-get_registration d id (next w))
          λ reg w₁ (found, s₁). Ensures-require_bind _ w₁ Resets _ _ λ w₂ approved s₂.
            let test = account_test d reg reg.user_id in
            Ensures-bind
              (on_no_rows approved_company_not_found
                (statement d (λ t. update_user test (reset_user hash))))
              _ w₂ (λ u db. update_user test (reset_user hash) w₂.db ≡ ok (u, db)) Resets
              (Ensures-on_no_rows approved_company_not_found
                (statement d (λ t. update_user test (reset_user hash))) w₂
                (λ u db. update_user test (reset_user hash) w₂.db ≡ ok (u, db))
                (Ensures-statement d (λ t. update_user test (reset_user hash)) w₂))
              λ user w₃ e₃. Ensures-statement_bind _ w₃ Resets d _ λ company w₄ e₄.
                Ensures-pure _ w₄ Resets (
                  let (old, there, same, after) =
                    update_user_ok test (reset_user hash) before (rw (s₂ ∙ s₁ ∙ start) at e₃) in
                  let (own, kept) = one_ok (company_of user.company_id w₃.db) w₃.db e₄ in
                  let (k, owner, its) = company_of-some old.company_id before (
                    sym (
                      company_of-users old.company_id before
                        (map_if test (reset_user hash) before.users))
                    ∙ ap (company_of old.company_id) (sym after)
                    ∙ sym (ap (λ (u : User). company_of u.company_id w₃.db) same)
                    ∙ own) in
                  let meant = account_test_lem d reg reg.user_id in
                  (
                    old,
                    k,
                    ap (registration_by_id id) (sym start) ∙ found,
                    eq_of_beq ⦃e = string_eq⦄ reg.status "approved" approved,
                    ap (λ f. find f before.users) (sym meant) ∙ there,
                    same,
                    owner,
                    its,
                    kept
                        ∙ after
                        ∙ ap
                            (λ f. record before { users = map_if f (reset_user hash) before.users })
                            meant,
                  )))
        r e
