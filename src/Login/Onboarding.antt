-- ===== src/Login/Onboarding.antt =====
-- What a provider meets after an approval: the first login with the initial password
-- (internal/repository/admin_repo.go and internal/handler/auth.go).
use proindustrial_backend.Common.{
  List, String, ap, eq_self, false, find, length, nat_eq, refl, some, sym, string_eq, text_eq, true,
  ℕ, ◌!=◌, ◌+◌, ◌==◌, ◌^◌, ◌∙◌, ◌∷◌, ◌≡◌, ◌≤◌,
}
use proindustrial_backend.Common.Text.{Text}
use proindustrial_backend.Admin.{ApproveRegistrationResult, approve_registration}
use proindustrial_backend.Admin.Approval.{approve_registration_ok}
use proindustrial_backend.Database.{Driver, World, ok, statement}
use proindustrial_backend.Accounts.{get_by_email}
use proindustrial_backend.Database.Laws.{statement_runs}
use proindustrial_backend.Http.{answer, call}
use proindustrial_backend.Login.{
  Crypto, after_user, claims_of, login_as, login_response, signed, with_company,
}
use proindustrial_backend.Model.{Company, User}

module _ (d : Driver) (crypto : Crypto) (secret : String) where
  -- An account of the right role and password gets its token and its company.
  accepted :
      (password token : Text) (u : User) (c : Company) (cs : List Company) (w : World)
      → w.db.companies ≡ c ∷ cs
      → u.role ≡ "provider"
      → u.company_id ≡ some c.id
      → crypto.matches u.password_hash password ≡ true
      → crypto.sign secret (claims_of (d.now w.tick) u.must_change_password u) ≡ some token
      → d.fails w.tick ≡ false
      → (after_user d crypto secret password "provider" (ok u) w).0
        ≡ answer 200 (login_response u token (some c))
  unfolding call after_user signed with_company statement
  accepted password token u c cs w companies role owner right signed_token runs =
      let plays : (u.role != "provider") ≡ false = rw role refl in
      rw (plays, right, signed_token, owner, runs, companies, eq_self c.id) refl

  -- The account and its company are the first rows of their tables.
  first_rows_login :
      (typed password token : Text) (u : User) (us : List User) (c : Company) (cs : List Company)
      (w : World)
      → w.db.users ≡ u ∷ us
      → w.db.companies ≡ c ∷ cs
      → d.lower typed ≡ d.lower u.email
      → u.role ≡ "provider"
      → u.company_id ≡ some c.id
      → crypto.matches u.password_hash password ≡ true
      → crypto.sign secret (claims_of (d.now (w.tick + 1)) u.must_change_password u) ≡ some token
      → d.fails w.tick ≡ false
      → d.fails (w.tick + 1) ≡ false
      → (login_as d crypto secret "provider" typed password w).0
        ≡ answer 200 (login_response u token (some c))
  unfolding login_as call
  first_rows_login typed password token u us c cs w users companies same role owner right signs f
        g =
      let hit : (d.lower u.email == d.lower typed) ≡ true = (rw same (eq_self (d.lower u.email))) in
      let found : find (λ (x : User). d.lower x.email == d.lower typed) w.db.users ≡ some u =
        rw (users, hit) refl in
      let ran : get_by_email d typed w ≡ (ok u, record { db = w.db; tick = w.tick + 1 }) =
        statement_runs d _ w f ∙ (rw found refl) in
      ap (λ p. (after_user d crypto secret password "provider" p.0 p.1).0) ran
      ∙ accepted password token u c cs (record { db = w.db; tick = w.tick + 1 }) companies role
          owner right signs g

  -- After an approval that returns a result, with at most 2 ^ 63 - 3 companies before it, a login
  -- as a provider with the address of the account in any spelling that the database's `lower`
  -- takes for the same, and with a password that matches the stored hash, is answered with a token
  -- that signs the claims of that account and its company, and says that the password is to be
  -- changed; where its two queries do not fail and the token can be signed.
  pub approve-login :
      (unicode_lower : ℕ → ℕ) (id hash : String) (initial_password typed token : Text) (w : World)
      {r : ApproveRegistrationResult}
      → length w.db.companies + 3 ≤ 2 ^ 63
      → (approve_registration d unicode_lower id hash initial_password w).0 ≡ ok r
      → let after = (approve_registration d unicode_lower id hash initial_password w).1 in
        d.lower typed ≡ d.lower r.user.email
        → crypto.matches hash initial_password ≡ true
        → crypto.sign secret (claims_of (d.now (after.tick + 1)) true r.user) ≡ some token
        → d.fails after.tick ≡ false
        → d.fails (after.tick + 1) ≡ false
        → (login_as d crypto secret "provider" typed initial_password after).0
          ≡ answer 200 (record {
            token = token;
            user_id = r.user.id;
            email = r.user.email;
            role = "provider";
            must_change_password = true;
            company = some r.company;
          })
  approve-login unicode_lower id hash initial_password typed token w {r} few h same right signs f
        g =
      let a = approve_registration_ok d unicode_lower id hash initial_password w {r = r} few h in
      let role : r.user.role ≡ "provider" = ap (λ u. u.role) a.user in
      let flagged : r.user.must_change_password ≡ true = ap (λ u. u.must_change_password) a.user in
      let hashed : r.user.password_hash ≡ hash = ap (λ u. u.password_hash) a.user in
      first_rows_login typed initial_password token r.user w.db.users r.company w.db.companies
        (approve_registration d unicode_lower id hash initial_password w).1
        (ap (λ t. t.users) a.tables) (ap (λ t. t.companies) a.tables) same role
        (ap (λ u. u.company_id) a.user ∙ ap some (sym (ap (λ x. x.id) a.company))) (rw hashed right)
        (ap
            (λ b. crypto.sign secret (
              claims_of
                (d.now
                  ((approve_registration d unicode_lower id hash initial_password w).1.tick + 1))
                b r.user))
            flagged
          ∙ signs)
        f g
      ∙ (rw (role, flagged) refl)
