-- ===== src/Login.antt =====
-- internal/handler/auth.go: logging in and changing the password. bcrypt and the signing of tokens
-- are parameters. The handlers get the decoded body, or `none` where binding fails.
pub mod Tokens
pub mod Password
pub mod Onboarding
use proindustrial_backend.Common.{
  Bool, Option, String, [], false, if◌then◌else◌, nat_eq, none, some, string_eq, text_eq, ℕ, ◌!=◌,
  ◌+◌, ◌∷◌,
}
use proindustrial_backend.Common.Text.{Text, codes}
use proindustrial_backend.Accounts.{change_password, get_by_email, get_by_id}
use proindustrial_backend.Database.{Action, Driver, Result, err, ok, one, statement}
use proindustrial_backend.Http.{Handler, Reply, answer, call, internal_error, refuse, respond}
use proindustrial_backend.Model.{Company, User}
use proindustrial_backend.Session.{Claims, flag, number, text}
use proindustrial_backend.Tables.{company_by_id}

-- `bcrypt.CompareHashAndPassword` and `GenerateFromPassword`, whose salt depends on the call, and
-- `SignedString`.
pub record Crypto : Type 0 where
  pub matches : String → Text → Bool
  pub hash : ℕ → Text → Option String
  pub sign : String → Claims → Option Text

pub record Credentials : Type 0 where
  pub email : Text
  pub password : Text

pub record LoginResponse : Type 0 where
  pub token : Text
  pub user_id : String
  pub email : Text
  pub role : String
  pub must_change_password : Bool
  pub company : Option Company

-- 72 hours, in seconds.
abbrev pub token_life : ℕ
token_life = 259200

abbrev pub company_claim : Option String → Claims
company_claim none = []
company_claim (some c) = ("companyId", text c) ∷ []

unfoldable pub claims_of : ℕ → Bool → User → Claims
claims_of now must_change u =
    ("sub", text u.id)
    ∷ ("role", text u.role)
    ∷ ("exp", number (now + token_life))
    ∷ ("mustChangePassword", flag must_change)
    ∷ company_claim u.company_id

-- `company, _ := h.companyRepo.GetByID(…)`
abbrev pub option_of : {A : Type 0} → Result A → Option A
option_of (ok a) = some a
option_of (err e) = none

abbrev pub get_company : Driver → String → Action Company
get_company d id = statement d (λ t db. one (company_by_id id db) db)

abbrev pub login_response : User → Text → Option Company → LoginResponse
login_response u token company = record {
  token = token;
  user_id = u.id;
  email = u.email;
  role = u.role;
  must_change_password = u.must_change_password;
  company = company;
}

unfoldable pub with_company : Driver → User → Text → Option String → Handler LoginResponse
with_company d u token none = respond (answer 200 (login_response u token none))
with_company d u token (some c) =
    call (get_company d c) (λ r. respond (answer 200 (login_response u token (option_of r))))

unfoldable pub signed : Driver → User → Option Text → Handler LoginResponse
signed d u none = respond internal_error
signed d u (some token) = with_company d u token u.company_id

-- The answer of `ChangePassword`, once its token is signed or not.
abbrev pub sent : Option Text → Reply Text
sent none = internal_error
sent (some token) = answer 200 token

module _ (d : Driver) (crypto : Crypto) (secret : String) where
  unfoldable pub after_user : Text → String → Result User → Handler LoginResponse
  after_user password expected_role (err e) w = (refuse 401 (codes "invalid credentials"), w)
  after_user password expected_role (ok u) w =
      if u.role != expected_role
      then (refuse 403 (codes "forbidden"), w)
      else if crypto.matches u.password_hash password
      then signed d u (crypto.sign secret (claims_of (d.now w.tick) u.must_change_password u)) w
      else (refuse 401 (codes "invalid credentials"), w)

  unfoldable pub login_as : String → Text → Text → Handler LoginResponse
  login_as expected_role email password =
      call (get_by_email d email) (after_user password expected_role)

  -- `Login`
  unfoldable pub login : Option Credentials → Handler LoginResponse
  login none = respond (refuse 400 (codes "correo y contraseña son requeridos"))
  login (some body) = login_as "provider" body.email body.password

  -- `AdminLogin`
  unfoldable pub admin_login : Option Credentials → Handler LoginResponse
  admin_login none = respond (refuse 400 (codes "correo y contraseña son requeridos"))
  admin_login (some body) = login_as "admin" body.email body.password

  -- A fresh token, without the flag.
  unfoldable pub after_change : User → Result (Unit {0}) → Handler Text
  after_change u (err e) w = (internal_error, w)
  after_change u (ok done) w = (sent (crypto.sign secret (claims_of (d.now w.tick) false u)), w)

  unfoldable pub after_hash : User → Option String → Handler Text
  after_hash u none = respond internal_error
  after_hash u (some hash) = call (change_password d u.id hash) (after_change u)

  unfoldable pub after_account : Text → Text → Result User → Handler Text
  after_account current fresh (err e) w = (refuse 401 (codes "user not found"), w)
  after_account current fresh (ok u) w =
      if crypto.matches u.password_hash current
      then after_hash u (crypto.hash w.tick fresh) w
      else (refuse 401 (codes "current password is incorrect"), w)

  -- `ChangePassword`, on the current and the new password.
  unfoldable pub change : String → Option (Text × Text) → Handler Text
  change user_id none =
      respond (refuse 400 (codes "contraseña actual y nueva son requeridas (mínimo 8 caracteres)"))
  change user_id (some (current, fresh)) = call (get_by_id d user_id) (after_account current fresh)

pub record Profile : Type 0 where
  pub user_id : String
  pub email : Text
  pub role : String
  pub must_change_password : Bool
  pub company : Option Company

abbrev pub profile : User → Option Company → Profile
profile u company = record {
  user_id = u.id;
  email = u.email;
  role = u.role;
  must_change_password = u.must_change_password;
  company = company;
}

-- `Me`, on the identifiers in the context; a missing company is the empty identifier.
unfoldable pub me : Driver → String → String → Handler Profile
me d user_id company_id = call (get_by_id d user_id) λ r. elim r [
  | err e ↦ respond (refuse 401 (codes "user not found"))
  | ok u ↦ call (get_company d company_id) (λ c. respond (answer 200 (profile u (option_of c))))
]

-- `AdminMe`, whose answer has no company.
unfoldable pub admin_me : Driver → String → Handler Profile
admin_me d user_id = call (get_by_id d user_id) λ r. elim r [
  | err e ↦ respond (refuse 401 (codes "user not found"))
  | ok u ↦ respond (answer 200 (profile u none))
]
