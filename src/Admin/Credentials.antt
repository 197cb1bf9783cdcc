-- ===== src/Admin/Credentials.antt =====
-- `ResetInitialPassword`: a new password for the account of an approved registration.
use proindustrial_backend.Common.{
  Bool, Option, String, [], nat_eq, none, some, string_eq, text_eq, true, ◌==◌,
}
use proindustrial_backend.Admin.{ApproveRegistrationResult, get_registration}
use proindustrial_backend.Database.{
  Action, Db, Driver, approved_company_not_found, on_no_rows, one, pure, require, statement,
  transaction, ◌>>=◌, ◌>>◌,
}
use proindustrial_backend.Model.{Company, ProviderRegistration, User}
use proindustrial_backend.Tables.{company_by_id, update_user}

-- The user whose password is reset: by the link, or by the address where there is none.
abbrev pub account_test : Driver → ProviderRegistration → Option String → User → Bool
account_test d reg (some id) u = u.id == id
account_test d reg none u = d.lower u.email == d.lower reg.email

abbrev pub reset_user : String → User → User
reset_user hash u = record u { password_hash = hash; must_change_password = true }

-- `WHERE id = $1` with a nullable `$1`: no row equals NULL.
abbrev pub company_of : Option String → Db → Option Company
company_of none db = none
company_of (some c) db = company_by_id c db

unfoldable pub reset_body : Driver → String → String → Action ApproveRegistrationResult
reset_body d id hash = do
  reg ← get_registration d id
  require (reg.status == "approved") approved_company_not_found
  user ←
      on_no_rows approved_company_not_found
        (statement d (λ t. update_user (account_test d reg reg.user_id) (reset_user hash)))
  company ← statement d (λ t db. one (company_of user.company_id db) db)
  pure record {
    registration = reg;
    company = company;
    user = user;
    initial_password = [];
    email_status = "";
    email_note = [];
  }

unfoldable pub reset_initial_password : Driver → String → String → Action ApproveRegistrationResult
reset_initial_password d id hash = transaction d (reset_body d id hash)
