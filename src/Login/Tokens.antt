-- ===== src/Login/Tokens.antt =====
-- Logging in, and what a token opens (internal/handler/auth.go, internal/middleware/auth.go).
use proindustrial_backend.Common.{
  Bool, Bool-cases, Option, Option-cases, String, [], ap, beq_of_ne, contains, eq_of_bne, eq_self,
  false, find, if◌then◌else◌, inl, inr, nat_eq, none, not, refl, some, string_eq, sym, text_eq,
  true, ℕ, ◌!=◌, ◌&&◌, ◌++◌, ◌==◌, ◌∙◌, ◌∷◌, ◌≡◌, ◌≢◌,
}
use proindustrial_backend.Common.Text.{Text, codes}
use proindustrial_backend.Accounts.{get_by_email}
use proindustrial_backend.Database.{Db, Driver, World, ok, one}
use proindustrial_backend.Database.Laws.{Result-cases, one_ok, statement_ok}
use proindustrial_backend.Http.{answer, call, refuse}
use proindustrial_backend.Login.{
  Crypto, LoginResponse, after_user, claims_of, company_claim, get_company, login_as,
  login_response, option_of, signed, with_company,
}
use proindustrial_backend.Model.{User}
use proindustrial_backend.Session.{
  Parser, after_prefix, auth, check_claims, check_header, check_password_change, check_role,
  check_user, claim, flag, key_for, non_empty, password_change_exempt_routes, text,
}

after_prefix-append : (p s : Text) → after_prefix p (p ++ s) ≡ some s
unfolding after_prefix
after_prefix-append [] s = refl
after_prefix-append (c ∷ p) s = rw (eq_self c) (after_prefix-append p s)

is_exempt : String → Bool
is_exempt path = contains password_change_exempt_routes path

claims-sub : (now : ℕ) (b : Bool) (u : User) → claim "sub" (claims_of now b u) ≡ some (text u.id)
unfolding claims_of
claims-sub now b u = refl

claims-role :
    (now : ℕ) (b : Bool) (u : User) → claim "role" (claims_of now b u) ≡ some (text u.role)
unfolding claims_of
claims-role now b u = refl

claims-flag :
    (now : ℕ) (b : Bool) (u : User) → claim "mustChangePassword" (claims_of now b u) ≡ some (flag b)
unfolding claims_of
claims-flag now b u = refl

company_claim-lookup :
    (o : Option String) → o ≢ some "" → non_empty (claim "companyId" (company_claim o)) ≡ o
company_claim-lookup none h = refl
company_claim-lookup (some c) h = rw (beq_of_ne c "" (λ e. h (ap some e))) refl

nested :
    {A : Type 0} (a b : Bool) (x y : A)
    → (if a then if b then x else y else x) ≡ (if a && not b then y else x)
nested true true x y = refl
nested true false x y = refl
nested false b x y = refl

module _ (parse : Parser) (secret : String) (path : String) where
  -- A token that the library reads back as the claims of an account, whose identifier and role
  -- are not empty and whose company, if any, is not the empty identifier, passes the middleware
  -- of a route for that role, as that account and its company; unless the password is still to be
  -- changed and the route is not exempt: then it is forbidden.
  pub auth_of_claims :
      (token : Text) (now : ℕ) (must_change : Bool) (u : User)
      → parse token (key_for secret) ≡ some (claims_of now must_change u)
      → u.id ≢ ""
      → u.role ≢ ""
      → u.company_id ≢ some ""
      → auth parse secret (u.role ∷ []) path (codes "Bearer " ++ token) ≡ (
          if must_change && not (contains password_change_exempt_routes path)
          then refuse 403 (codes "debe cambiar su contraseña antes de continuar")
          else answer 200 (record { user_id = u.id; role = u.role; company_id = u.company_id }))
  unfolding auth check_header check_claims check_user check_role check_password_change claims_of
      contains
  auth_of_claims token now must_change u h id role company =
      rw (after_prefix-append (codes "Bearer ") token, h)
        (rw
          (
            beq_of_ne u.id "" id,
            beq_of_ne u.role "" role,
            eq_self u.role,
            company_claim-lookup u.company_id company,
          )
          (nested must_change (contains password_change_exempt_routes path) _ _))

module _ (d : Driver) (u : User) (token : Text) where
  with_company_ok :
      (o : Option String) (w : World) {code : ℕ} {r : LoginResponse}
      → (with_company d u token o w).0 ≡ answer code r
      → (token ≡ r.token) × (u.id ≡ r.user_id) × (u.must_change_password ≡ r.must_change_password)
  unfolding with_company call
  with_company_ok none w {code} {r} h =
      let same : login_response u token none ≡ r = cc in
      (ap (λ x. x.token) same, ap (λ x. x.user_id) same, ap (λ x. x.must_change_password) same)
  with_company_ok (some c) w {code} {r} h =
      let same : login_response u token (option_of (get_company d c w).0) ≡ r = cc in
      (ap (λ x. x.token) same, ap (λ x. x.user_id) same, ap (λ x. x.must_change_password) same)

-- The account of an address.
abbrev pub account : Driver → Text → Db → Option User
account d email db = find (λ (u : User). d.lower u.email == d.lower email) db.users

module _ (d : Driver) (crypto : Crypto) (secret : String) where
  -- What a login with a password and for a role has met, and the answer to it.
  abbrev pub LoggedIn : Text → String → User → LoginResponse → Type 0
  LoggedIn password expected u r =
      (u.role ≡ expected)
      × (crypto.matches u.password_hash password ≡ true)
      × ((now : ℕ) × (crypto.sign secret (claims_of now u.must_change_password u) ≡ some r.token))
      × (u.id ≡ r.user_id)
      × (u.must_change_password ≡ r.must_change_password)

  after_user_ok :
      (password : Text) (expected : String) (u : User) (w : World) {code : ℕ} {r : LoginResponse}
      → (after_user d crypto secret password expected (ok u) w).0 ≡ answer code r
      → LoggedIn password expected u r
  unfolding after_user signed
  after_user_ok password expected u w {code} {r} h = elim (Bool-cases (u.role != expected)) [
    | inl other_role ↦ absurd (let no = rw other_role at h in cc)
    | inr same_role ↦ elim (Bool-cases (crypto.matches u.password_hash password)) [
      | inr wrong ↦ absurd (let no = rw (same_role, wrong) at h in cc)
      | inl matched ↦
          elim (Option-cases
            (crypto.sign secret (claims_of (d.now w.tick) u.must_change_password u))) [
              | inl failed ↦ absurd (let no = rw (same_role, matched, failed) at h in cc)
              | inr (token, made) ↦
                  let (t, id, must) =
                    with_company_ok d u token u.company_id w (rw (same_role, matched, made) at h) in
                  (
                    eq_of_bne u.role expected same_role,
                    matched,
                    (d.now w.tick, made ∙ ap some t),
                    id,
                    must,
                  )
            ]
    ]
  ]

  -- A login that is answered with a token has met an account with the address, the role that was
  -- asked for and a hash that matches the password; the token signs that account's claims, and the
  -- answer tells whether its password is to be changed.
  pub login_as_ok :
      (expected : String) (email password : Text) (w : World) {code : ℕ} {r : LoginResponse}
      → (login_as d crypto secret expected email password w).0 ≡ answer code r
      → (u : User) × (account d email w.db ≡ some u) × LoggedIn password expected u r
  unfolding login_as call
  login_as_ok expected email password w {code} {r} h =
      elim (Result-cases (get_by_email d email w).0) [
        | inr (e, lost) ↦ absurd (
            unfold after_user in
            cc (
              h,
              ap
                  (λ x.
                    (after_user d crypto secret password expected x (get_by_email d email w).1).0)
                  lost,
            ))
        | inl (u, ran) ↦
            let found =
              one_ok (account d email w.db) w.db
                (statement_ok d (λ t db. one (account d email db) db) w ran) in
            (
              u,
              found.0,
              after_user_ok password expected u (get_by_email d email w).1 (
                  sym (
                    ap
                      (λ x.
                        (after_user d crypto secret password expected x
                          (get_by_email d email w).1).0)
                      ran)
                  ∙ h),
            )
      ]
