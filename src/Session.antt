-- ===== src/Session.antt =====
-- internal/middleware/auth.go: who may call a route. The JWT library is a parameter: it looks up the
-- key for the method that a token names, and returns the claims of a token that it finds valid.
pub mod Access
use proindustrial_backend.Common.{
  Bool, List, Option, String, [], contains, false, if◌then◌else◌, nat_eq, none, some, string_eq,
  text_eq, true, ℕ, ◌==◌, ◌∷◌,
}
use proindustrial_backend.Common.Text.{Text, codes}
use proindustrial_backend.Http.{Reply, answer, refuse}

pub data Method : Type 0 where
  hmac : Method
  unsupported : Method

pub data ClaimValue : Type 0 where
  text : String → ClaimValue
  flag : Bool → ClaimValue
  number : ℕ → ClaimValue

abbrev pub Claims : Type 0
Claims = List (String × ClaimValue)

-- `jwt.Parse`, with an error or an invalid token as `none`.
abbrev pub Parser : Type 0
Parser = Text → (Method → Option String) → Option Claims

-- The key function that `Auth` passes to the library.
abbrev pub key_for : String → Method → Option String
key_for secret hmac = some secret
key_for secret unsupported = none

-- `claims[name]`
abbrev pub claim : String → Claims → Option ClaimValue
claim name [] = none
claim name ((k, v) ∷ cs) = if k == name then some v else claim name cs

-- `.(string)`, then `ok && s != ""`
abbrev pub non_empty : Option ClaimValue → Option String
non_empty none = none
non_empty (some (text s)) = if s == "" then none else some s
non_empty (some (flag b)) = none
non_empty (some (number n)) = none

-- `.(bool)`, then `ok && b`
abbrev pub is_set : Option ClaimValue → Bool
is_set none = false
is_set (some (text s)) = false
is_set (some (flag b)) = b
is_set (some (number n)) = false

unfoldable pub password_change_exempt_routes : List String
password_change_exempt_routes =
    "/api/auth/change-password" ∷ "/api/auth/me" ∷ "/api/admin/auth/change-password"
    ∷ "/api/admin/auth/me" ∷ []

-- What the middleware sets on the request's context.
pub record Context : Type 0 where
  pub user_id : String
  pub role : String
  pub company_id : Option String

-- `strings.HasPrefix` and `strings.TrimPrefix`
unfoldable pub after_prefix : Text → Text → Option Text
after_prefix [] s = some s
after_prefix (c ∷ p) [] = none
after_prefix (c ∷ p) (x ∷ s) = let rest = after_prefix p s in if c == x then rest else none

abbrev pub role_allowed : List String → String → Bool
role_allowed [] role = true
role_allowed (r ∷ rs) role = contains (r ∷ rs) role

unfoldable pub check_password_change : String → Claims → Context → Reply Context
check_password_change path claims context =
    if is_set (claim "mustChangePassword" claims)
    then if contains password_change_exempt_routes path
      then answer 200 context
      else refuse 403 (codes "debe cambiar su contraseña antes de continuar")
    else answer 200 context

unfoldable pub check_role : List String → String → Claims → String → Option String → Reply Context
check_role roles path claims user none = refuse 401 (codes "invalid role")
check_role roles path claims user (some role) =
    if role_allowed roles role
    then check_password_change path claims
        (record { user_id = user; role = role; company_id = non_empty (claim "companyId" claims) })
    else refuse 403 (codes "forbidden")

unfoldable pub check_user : List String → String → Claims → Option String → Reply Context
check_user roles path claims none = refuse 401 (codes "invalid user id")
check_user roles path claims (some user) =
    check_role roles path claims user (non_empty (claim "role" claims))

unfoldable pub check_claims : List String → String → Option Claims → Reply Context
check_claims roles path none = refuse 401 (codes "invalid token")
check_claims roles path (some claims) =
    check_user roles path claims (non_empty (claim "sub" claims))

unfoldable pub check_header : Parser → String → List String → String → Option Text → Reply Context
check_header parse secret roles path none = refuse 401 (codes "missing token")
check_header parse secret roles path (some token) =
    check_claims roles path (parse token (key_for secret))

-- A request that passes is answered by its handler, which gets the context.
unfoldable pub auth : Parser → String → List String → String → Text → Reply Context
auth parse secret roles path header =
    check_header parse secret roles path (after_prefix (codes "Bearer ") header)
