-- ===== src/Admin.antt =====
-- internal/repository/admin_repo.go: approving, rejecting and deleting registrations.
pub mod Slugs
pub mod Approval
pub mod Refusal
pub mod Removal
pub mod Progress
pub mod Deletion
pub mod Credentials
pub mod Reset
pub mod Decision
use proindustrial_backend.Common.{
  List, Option, String, [], false, filter, if◌then◌else◌, leb, length, nat_eq, none, not, some,
  string_eq, suc, take, text_eq, true, zero, ℕ, ◌&&◌, ◌+◌, ◌==◌, ◌∷◌,
}
use proindustrial_backend.Common.Text.{Text, to_lower, trim_space}
use proindustrial_backend.Category.{category_groups}
use proindustrial_backend.Database.{
  Action, Driver, Result, diverged, err, is_no_rows, no_rows, ok, on_no_rows, one, pure, query,
  raise, registration_already_done, registration_email_in_use, registration_not_found, require,
  statement, transaction, ◌>>=◌, ◌>>◌,
}
use proindustrial_backend.Http.{status}
use proindustrial_backend.Model.{CategoryGroup, Company, ProviderRegistration, User}
use proindustrial_backend.Model.Limits.{max_description}
use proindustrial_backend.Slug.{candidate, incremented, slug_base}
use proindustrial_backend.Tables.{
  email_taken, insert_company, insert_user, registration_by_id, slug_taken, sort_desc,
  update_registration,
}

pub record ApproveRegistrationResult : Type 0 where
  pub registration : ProviderRegistration
  pub company : Company
  pub user : User
  pub initial_password : Text
  pub email_status : String
  pub email_note : Text

-- `nullableStr` of quote_repo.go
abbrev pub nullable_str : Text → Option Text
nullable_str [] = none
nullable_str (c ∷ s) = some (c ∷ s)

-- the inner loop of `categoryNames`, with its `break`
unfoldable pub category_label : Text → List CategoryGroup → Text
category_label slug [] = slug
category_label slug (g ∷ gs) = if g.slug == slug then g.name else category_label slug gs

unfoldable pub category_names : List Text → List Text
unfolding category_label category_groups
category_names [] = []
category_names (slug ∷ slugs) = category_label slug category_groups ∷ category_names slugs

unfoldable pub truncated_description : Option Text → Option Text
truncated_description none = none
truncated_description (some d) =
    if leb (length d) max_description then some d else some (trim_space (take max_description d))

-- The loop of `nextCompanySlug`; the counter is an `int`.
unfoldable pub try_slugs : Driver → ℕ → Text → ℕ → Text → Action Text
try_slugs d zero base i slug = raise diverged
try_slugs d (suc fuel) base i slug = do
  used ← query d (slug_taken slug)
  elim used [ true ↦ try_slugs d fuel base (incremented i) (candidate base i) | false ↦ pure slug ]

-- One round more than there are companies: enough fuel for a table of at most 2 ^ 63 - 3 of them.
unfoldable pub next_company_slug : Driver → (ℕ → ℕ) → Text → Action Text
next_company_slug d unicode_lower name w =
    let base = slug_base unicode_lower name in
    try_slugs d (suc (length w.db.companies)) base 2 base w

-- `ListRegistrations`
abbrev pub list_registrations : Driver → String → Action (List ProviderRegistration)
list_registrations d status = query d (λ db.
    sort_desc (λ (r : ProviderRegistration). r.created_at)
      (if status == ""
        then db.registrations
        else filter (λ (r : ProviderRegistration). r.status == status) db.registrations))

-- `GetRegistrationByID`
abbrev pub get_registration_by_id : Driver → String → Action ProviderRegistration
get_registration_by_id d id = statement d (λ t db. one (registration_by_id id db) db)

-- The same query where a missing row is `ErrRegistrationNotFound`.
abbrev pub get_registration : Driver → String → Action ProviderRegistration
get_registration d id =
    on_no_rows registration_not_found (statement d (λ t db. one (registration_by_id id db) db))

-- The row that an approval inserts into `companies`; columns not named take their defaults.
abbrev pub company_row : Driver → ℕ → ProviderRegistration → Text → Text → Company
company_row d t reg slug email = record {
  id = d.uuid t;
  slug = slug;
  name = reg.company_name;
  tagline = none;
  description = truncated_description reg.description;
  location = reg.region;
  region = reg.region;
  categories = reg.services;
  services = category_names reg.services;
  phone = reg.phone;
  email = some email;
  website = none;
  years_active = none;
  featured = false;
  logo_url = none;
  cover_url = none;
  created_at = d.now t;
  updated_at = d.now t;
}

abbrev pub user_row : Driver → ℕ → Text → String → String → User
user_row d t email hash company = record {
  id = d.uuid t;
  email = email;
  password_hash = hash;
  company_id = some company;
  role = "provider";
  must_change_password = true;
  created_at = d.now t;
}

abbrev pub approved :
    Driver → ℕ → String → String → Text → ProviderRegistration → ProviderRegistration
approved d t company user email reg = record reg {
  status = "approved";
  company_id = some company;
  user_id = some user;
  approved_at = some (d.now t);
  email = email;
}

module _ (d : Driver) (unicode_lower : ℕ → ℕ) where
  -- The address that an approval gives the account.
  abbrev pub account_email : ProviderRegistration → Text
  account_email reg = to_lower unicode_lower (trim_space reg.email)

  -- The part of the transaction behind the two guards.
  unfoldable pub create_account :
      String → String → Text → ProviderRegistration → Action ApproveRegistrationResult
  create_account id hash initial_password reg = do
    slug ← next_company_slug d unicode_lower reg.company_name
    company ← statement d (λ t. insert_company (company_row d t reg slug (account_email reg)))
    user ← statement d (λ t. insert_user d (user_row d t (account_email reg) hash company.id))
    reg' ← statement d (λ t.
        update_registration (λ r. r.id == id) (approved d t company.id user.id (account_email reg)))
    pure record {
      registration = reg';
      company = company;
      user = user;
      initial_password = initial_password;
      email_status = "";
      email_note = [];
    }

  unfoldable pub approve_body : String → String → Text → Action ApproveRegistrationResult
  approve_body id hash initial_password = do
    reg ← get_registration d id
    require (reg.status == "pending") registration_already_done
    taken ← query d (email_taken d.lower (account_email reg))
    require (not taken) registration_email_in_use
    create_account id hash initial_password reg

  unfoldable pub approve_registration : String → String → Text → Action ApproveRegistrationResult
  approve_registration id hash initial_password =
      transaction d (approve_body id hash initial_password)

abbrev pub rejected : Driver → ℕ → Text → ProviderRegistration → ProviderRegistration
rejected d t reason reg = record reg {
  status = "rejected";
  rejection_reason = nullable_str reason;
  rejected_at = some (d.now t);
}

-- What `RejectRegistration` answers when its update met no row.
unfoldable pub explain_reject :
    Driver → String → Result ProviderRegistration → Action ProviderRegistration
explain_reject d id (ok reg) = pure reg
explain_reject d id (err e) =
    if is_no_rows e then (do get_registration d id; raise registration_already_done) else raise e

unfoldable pub reject_registration : Driver → String → Text → Action ProviderRegistration
reject_registration d id reason w =
    let (r, w') =
      statement d
        (λ t.
          update_registration (λ reg. reg.id == id && reg.status == "pending")
            (rejected d t reason))
        w in
    explain_reject d id r w'

unfoldable pub set_email_status : Driver → String → String → Text → Action (Unit {0})
set_email_status d id status note = statement d (λ t db.
    elim (update_registration (λ reg. reg.id == id)
      (λ reg. record reg { email_status = some status; email_note = some note }) db) [
        | ok (reg, db') ↦ ok (tt, db')
        | err no_rows ↦ ok (tt, db)
        | err e ↦ err e
      ])
