-- ===== src/Examples/Requests.antt =====
-- Theorems on the handlers and the middleware, at concrete requests.
use proindustrial_backend.Common.{
  any, length, ◌≤◌, Option, String, [], contains, false, if◌then◌else◌, inr, nat_eq, ne_of_beq,
  none, not, refl, some, string_eq, text_eq, ℕ, ◌&&◌, ◌++◌, ◌==◌, ◌∷◌, ◌≡◌, ◌≢◌,
}
use proindustrial_backend.Common.Text.{Text, codes, to_lower, trim_space}
use proindustrial_backend.Accounts.{change_password}
use proindustrial_backend.Admin.Removal.{delete_approved_company_by_registration, delete_body}
use proindustrial_backend.Category.{regions}
use proindustrial_backend.Database.{World, statement, transaction, ◌>>=◌}
use proindustrial_backend.Examples.{db, driver, from_reply, provider, registration, same, world}
use proindustrial_backend.Http.{Reply, answer, call, refuse}
use proindustrial_backend.Login.{
  Crypto, LoginResponse, after_account, after_change, after_hash, after_user, change, claims_of,
  login_as, login_response, signed, with_company,
}
use proindustrial_backend.Login.Password.{Changed, change_ok}
use proindustrial_backend.Login.Tokens.{LoggedIn, account, auth_of_claims, login_as_ok}
use proindustrial_backend.Model.{ProviderRegistration, User}
use proindustrial_backend.Registration.{
  clean, clean_services, collapse, create_registration, has_domain_dot, insert_registration,
  is_known_region, pending_exists, sanitize_text, valid_services,
}
use proindustrial_backend.Registration.Form.{Body, complaint, create, normalize}
use proindustrial_backend.Registration.Submission.{WithinLimits, cleaned, create_ok, pending_row}
use proindustrial_backend.Review.{delete, delete_error}
use proindustrial_backend.Session.{
  Context, Parser, after_prefix, auth, check_claims, check_header, check_password_change,
  check_role, check_user, password_change_exempt_routes,
}
use proindustrial_backend.Session.Access.{Passes, auth_ok}
use proindustrial_backend.Tables.{user_by_id}

-- A library that accepts any token, with the claims of the provider.
abbrev parse : Parser
parse token key = some (claims_of 0 false provider)

abbrev bearer : Text
bearer = codes "Bearer t"

abbrev context : Context
context = record { user_id = "u1"; role = "provider"; company_id = some "c1" }

passed : auth parse "s" ("provider" ∷ []) "/api/panel/quotes" bearer ≡ answer 200 context
unfolding auth check_header check_claims check_user check_role check_password_change claims_of
    after_prefix contains password_change_exempt_routes
passed = refl

auth_ok_example : Passes parse "s" ("provider" ∷ []) "/api/panel/quotes" bearer context
auth_ok_example =
    auth_ok parse "s" ("provider" ∷ []) "/api/panel/quotes" bearer {code = 200} {context = context}
      passed

c1_named : ◌≢◌ {A = Option String} (some "c1") (some "")
c1_named e = ne_of_beq ⦃e = string_eq⦄ "c1" "" refl (cc)

auth_of_claims_example :
    auth parse "s" ("provider" ∷ []) "/api/panel/quotes" (codes "Bearer " ++ codes "t") ≡ (
      if false && not (contains password_change_exempt_routes "/api/panel/quotes")
      then refuse 403 (codes "debe cambiar su contraseña antes de continuar")
      else answer 200 context)
auth_of_claims_example =
    auth_of_claims parse "s" "/api/panel/quotes" (codes "t") 0 false provider refl
      (ne_of_beq ⦃e = string_eq⦄ "u1" "" refl) (ne_of_beq ⦃e = string_eq⦄ "provider" "" refl)
      c1_named

abbrev crypto : Crypto
crypto = record {
  matches = λ hash password. password == codes "pw";
  hash = λ k password. if password == codes "new" then some "h2" else some "h";
  sign = λ secret claims. some (codes "t");
}

abbrev email : Text
email = codes "x@y.cl"

abbrev no_login : LoginResponse
no_login = login_response provider [] none

abbrev logged_in : Reply LoginResponse × World
logged_in = login_as driver crypto "s" "provider" email (codes "pw") world

logged_in_ok : logged_in.0 ≡ answer 200 (from_reply no_login logged_in.0)
unfolding login_as call after_user signed with_company statement
logged_in_ok = refl

login_as_ok_example :
    (u : User) × (account driver email db ≡ some u)
    × LoggedIn driver crypto "s" (codes "pw") "provider" u (from_reply no_login logged_in.0)
login_as_ok_example =
    login_as_ok driver crypto "s" "provider" email (codes "pw") world {code = 200}
      {r = from_reply no_login logged_in.0} logged_in_ok

abbrev changed : Reply Text × World
changed = change driver crypto "s" "u1" (some (codes "pw", codes "new")) world

changed_ok : changed.0 ≡ answer 200 (codes "t")
unfolding change call after_account after_hash after_change change_password statement
changed_ok = refl

change_ok_example :
    (u : User) × (user_by_id "u1" db ≡ some u)
    × Changed driver crypto "s" (codes "pw") (codes "new") u db changed.1.db (codes "t")
change_ok_example =
    change_ok driver crypto "s" "u1" (codes "pw") (codes "new") world {code = 200}
      {token = codes "t"} changed_ok

abbrev body : Body
body = record {
  company_name = codes "Minera  Uno";
  email = codes "Ventas@Uno.cl";
  phone = codes " 56912345678";
  region = codes "Atacama";
  services = codes "termofusion" ∷ [];
  description = codes "Servicios de termofusión y geomembranas para minería.";
}

abbrev created : Reply ProviderRegistration × World
created = create driver same (inr body) world

abbrev no_row : ProviderRegistration
no_row = registration "" "" none

created_ok : created.0 ≡ answer 201 (from_reply no_row created.0)
unfolding create call normalize complaint sanitize_text trim_space collapse clean_services clean
    valid_services to_lower has_domain_dot contains is_known_region regions pending_exists
    create_registration insert_registration statement
created_ok = refl

create_ok_example :
    ◌≡◌ {A = ℕ} 201 201
    × WithinLimits (cleaned same body)
    × ((t : ℕ) × (from_reply no_row created.0 ≡ pending_row driver t (cleaned same body)))
    × (length (from_reply no_row created.0).services ≤ 10)
    × ((driver.pending_email_uniq
          && any
              (λ (x : ProviderRegistration).
                driver.lower x.email == driver.lower (cleaned same body).email
                && x.status == "pending")
              db.registrations)
        ≡ false)
    × (created.1.db ≡ record db { registrations = from_reply no_row created.0 ∷ db.registrations })
create_ok_example =
    create_ok driver same body world {code = 201} {reg = from_reply no_row created.0} created_ok

abbrev gone : Reply (Unit {0}) × World
gone = delete driver "r1" world

gone_refused : gone.0 ≡ refuse 409 (codes "empresa aprobada no encontrada para este registro")
unfolding delete call delete_approved_company_by_registration delete_body delete_error transaction
    statement ◌>>=◌
gone_refused = refl
