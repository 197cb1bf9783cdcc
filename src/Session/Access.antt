-- ===== src/Session/Access.antt =====
-- Which requests `Auth` passes on (internal/middleware/auth.go).
use proindustrial_backend.Common.{
  Bool-cases, List, Option, Option-cases, String, [], ap, arith, contains, eq_of_beq, false, inl,
  inr, nat_eq, ne_of_beq, none, not, refl, some, string_eq, text_eq, true, ℕ, ◌&&◌, ◌++◌, ◌==◌, ◌∷◌,
  ◌≡◌, ◌≢◌,
}
use proindustrial_backend.Common.Text.{Text, codes}
use proindustrial_backend.Http.{answer}
use proindustrial_backend.Session.{
  ClaimValue, Claims, Context, Parser, after_prefix, auth, check_claims, check_header,
  check_password_change, check_role, check_user, claim, flag, is_set, key_for, non_empty, number,
  password_change_exempt_routes, role_allowed, text,
}

-- What a request that passes has shown.
pub record Passes (parse : Parser) (secret : String) (roles : List String) (path : String)
    (header : Text) (context : Context) : Type 0 where
  pub token : Text
  pub bearer : header ≡ codes "Bearer " ++ token
  pub claims : Claims
  pub valid : parse token (key_for secret) ≡ some claims
  pub subject : claim "sub" claims ≡ some (text context.user_id)
  pub named : context.user_id ≢ ""
  pub role : claim "role" claims ≡ some (text context.role)
  pub role_named : context.role ≢ ""
  pub role_fits : role_allowed roles context.role ≡ true
  pub company : context.company_id ≡ non_empty (claim "companyId" claims)
  pub changed :
      (is_set (claim "mustChangePassword" claims)
        && not (contains password_change_exempt_routes path))
      ≡ false

after_prefix_ok : (p s : Text) {t : Text} → after_prefix p s ≡ some t → s ≡ p ++ t
unfolding after_prefix
after_prefix_ok [] s h = cc
after_prefix_ok (c ∷ p) [] h = absurd (cc)
after_prefix_ok (c ∷ p) (x ∷ s) {t} h = elim (Bool-cases (c == x)) [
  | inl same ↦
      let rest : after_prefix p s ≡ some t = rw same at h in
      rw (← eq_of_beq c x same) (ap (◌∷◌ c) (after_prefix_ok p s rest))
  | inr other ↦ absurd (let nothing = rw other at h in cc)
]

non_empty_ok :
    (v : Option ClaimValue) {s : String} → non_empty v ≡ some s → (v ≡ some (text s)) × (s ≢ "")
non_empty_ok none h = absurd (cc)
non_empty_ok (some (text x)) {s} h = elim (Bool-cases (x == "")) [
  | inl empty ↦ absurd (let nothing = rw empty at h in cc)
  | inr full ↦
      let kept : some x ≡ some s = rw full at h in
      let same : x ≡ s = cc in (ap (λ y. some (text y)) same, rw (← same) (ne_of_beq x "" full))
]
non_empty_ok (some (flag b)) h = absurd (cc)
non_empty_ok (some (number n)) h = absurd (cc)

check_password_change_ok :
    (path : String) (claims : Claims) (context : Context) {code : ℕ} {c : Context}
    → check_password_change path claims context ≡ answer code c
    → (c ≡ context)
      × ((is_set (claim "mustChangePassword" claims)
            && not (contains password_change_exempt_routes path))
          ≡ false)
unfolding check_password_change
check_password_change_ok path claims context h = (ground arith, ground arith)

module _ (parse : Parser) (secret : String) (roles : List String) (path : String) where
  -- A request is passed on only with a token that the library finds valid under the server's
  -- secret, for a user and a role that are named, a role that the route admits, and, while the
  -- password is still to be changed, on the routes that are exempt.
  pub auth_ok :
      (header : Text) {code : ℕ} {context : Context}
      → auth parse secret roles path header ≡ answer code context
      → Passes parse secret roles path header context
  unfolding auth check_header check_claims check_user check_role
  auth_ok header {code} {context} h = elim (Option-cases (after_prefix (codes "Bearer ") header)) [
    | inl missing ↦ absurd (let no = rw missing at h in cc)
    | inr (token, e₁) ↦ elim (Option-cases (parse token (key_for secret))) [
      | inl unreadable ↦ absurd (let no = rw (e₁, unreadable) at h in cc)
      | inr (claims, e₂) ↦ elim (Option-cases (non_empty (claim "sub" claims))) [
        | inl nobody ↦ absurd (let no = rw (e₁, e₂, nobody) at h in cc)
        | inr (user, e₃) ↦ elim (Option-cases (non_empty (claim "role" claims))) [
          | inl without ↦ absurd (let no = rw (e₁, e₂, e₃, without) at h in cc)
          | inr (role, e₄) ↦ elim (Bool-cases (role_allowed roles role)) [
            | inr forbidden ↦ absurd (let no = rw (e₁, e₂, e₃, e₄, forbidden) at h in cc)
            | inl admitted ↦
                let (same, changed) =
                  check_password_change_ok path claims
                    (record {
                      user_id = user;
                      role = role;
                      company_id = non_empty (claim "companyId" claims);
                    })
                    (rw (e₁, e₂, e₃, e₄, admitted) at h) in
                let (is_user, user_named) = non_empty_ok (claim "sub" claims) e₃ in
                let (is_role, role_named) = non_empty_ok (claim "role" claims) e₄ in
                rw same (record {
                  token = token;
                  bearer = after_prefix_ok (codes "Bearer ") header e₁;
                  claims = claims;
                  valid = e₂;
                  subject = is_user;
                  named = user_named;
                  role = is_role;
                  role_named = role_named;
                  role_fits = admitted;
                  company = refl;
                  changed = changed;
                })
          ]
        ]
      ]
    ]
  ]
