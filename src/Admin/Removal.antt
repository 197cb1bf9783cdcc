-- ===== src/Admin/Removal.antt =====
-- `DeleteApprovedCompanyByRegistration`: its statements, with the `ON DELETE` action of each column
-- of migrations/ that refers to a deleted row, and the transaction.
use mathlib.Core.List.{map}
use proindustrial_backend.Common.{
  Bool, List, Option, String, [], any, false, filter, if◌then◌else◌, nat_eq, none, not, some,
  string_eq, text_eq, ◌!=◌, ◌&&◌, ◌==◌, ◌||◌, ◌∷◌,
}
use proindustrial_backend.Common.Text.{Text}
use proindustrial_backend.Admin.{get_registration}
use proindustrial_backend.Database.{
  Action, Db, Driver, EventRow, Result, approved_company_not_found, err, foreign_key_violation, ok,
  pure, query, raise, require, statement, transaction, ◌>>=◌, ◌>>◌,
}
use proindustrial_backend.Model.{
  Company, CompanyCertification, CompanyProject, CompanyService, ProjectImage, ProviderRegistration,
  QuoteRequest, ServiceImage, User,
}
use proindustrial_backend.Tables.{forget, is_id}

-- `SELECT id FROM companies WHERE lower(email) = lower($1)`
abbrev pub same_address : (Text → Text) → Text → Option Text → Bool
same_address lower email none = false
same_address lower email (some e) = lower e == lower email

abbrev pub companies_by_email : (Text → Text) → Text → Db → List Company
companies_by_email lower email db =
    filter (λ (c : Company). same_address lower email c.email) db.companies

-- `len(matches) != 1`
abbrev pub only_match : List Company → Action String
only_match [] = raise approved_company_not_found
only_match (c ∷ []) = pure c.id
only_match (c ∷ x ∷ cs) = raise approved_company_not_found

unfoldable pub linked_company : Driver → ProviderRegistration → Option String → Action String
linked_company d reg (some c) = pure c
linked_company d reg none = do
  matches ← query d (companies_by_email d.lower reg.email)
  only_match matches

-- `DELETE FROM quote_requests WHERE target_company_id = $1`
abbrev pub delete_quotes : String → Db → Db
delete_quotes c db = record db {
  quotes = filter (λ (q : QuoteRequest). not (is_id c q.target_company_id)) db.quotes;
}

-- A registration forgets its user when that is a user of the company.
abbrev pub forget_user : String → List User → Option String → Option String
forget_user c users none = none
forget_user c users (some u) =
    if any (λ (x : User). x.id == u && is_id c x.company_id) users then none else some u

-- `DELETE FROM users WHERE company_id = $1`
abbrev pub delete_users : String → Db → Db
delete_users c db = record db {
  users = filter (λ (u : User). not (is_id c u.company_id)) db.users;
  registrations =
      map (λ (r : ProviderRegistration). record r { user_id = forget_user c db.users r.user_id })
        db.registrations;
}

abbrev pub service_of : String → List CompanyService → String → Bool
service_of c services s = any (λ (x : CompanyService). x.id == s && x.company_id == c) services

abbrev pub project_of : String → List CompanyProject → String → Bool
project_of c projects p = any (λ (x : CompanyProject). x.id == p && x.company_id == c) projects

-- What follows a company when its row is deleted.
abbrev pub without_company : String → Db → Db
without_company c db = record db {
  companies = filter (λ (x : Company). x.id != c) db.companies;
  services = filter (λ (x : CompanyService). x.company_id != c) db.services;
  service_images =
      filter (λ (x : ServiceImage). not (service_of c db.services x.service_id)) db.service_images;
  certifications = filter (λ (x : CompanyCertification). x.company_id != c) db.certifications;
  projects = filter (λ (x : CompanyProject). x.company_id != c) db.projects;
  project_images =
      filter (λ (x : ProjectImage). not (project_of c db.projects x.project_id)) db.project_images;
  service_regions = filter (λ x. x.0 != c) db.service_regions;
  events = filter (λ (x : EventRow). x.event.company_id != c) db.events;
  registrations =
      map (λ (r : ProviderRegistration). record r { company_id = forget c r.company_id })
        db.registrations;
}

-- `DELETE FROM companies WHERE id = $1`, where users and quotes that refer to it are in the way.
unfoldable pub delete_company : String → Db → Result (Unit {0} × Db)
delete_company c db =
    if any (λ (u : User). is_id c u.company_id) db.users
      || any (λ (q : QuoteRequest). is_id c q.target_company_id) db.quotes
    then err foreign_key_violation
    else ok (tt, without_company c db)

-- `DELETE FROM provider_registrations WHERE id = $1`
abbrev pub delete_registration : String → Db → Db
delete_registration id db = record db {
  registrations = filter (λ (r : ProviderRegistration). r.id != id) db.registrations;
}

-- An `Exec` that no constraint can stop.
abbrev pub exec : Driver → (Db → Db) → Action (Unit {0})
exec d f = statement d (λ t db. ok (tt, f db))

-- The four deletions.
unfoldable pub delete_rows : Driver → String → String → Action (Unit {0})
delete_rows d id c = do
  exec d (delete_quotes c)
  exec d (delete_users c)
  statement d (λ t. delete_company c)
  exec d (delete_registration id)

unfoldable pub delete_body : Driver → String → Action (Unit {0})
delete_body d id = do
  reg ← get_registration d id
  require (reg.status == "approved") approved_company_not_found
  c ← linked_company d reg reg.company_id
  exists ← query d (λ db. any (λ (x : Company). x.id == c) db.companies)
  require exists approved_company_not_found
  delete_rows d id c

unfoldable pub delete_approved_company_by_registration : Driver → String → Action (Unit {0})
delete_approved_company_by_registration d id = transaction d (delete_body d id)
