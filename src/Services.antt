-- ===== src/Services.antt =====
-- internal/repository/service_repo.go: the services that a company offers.
pub mod Pictures
use mathlib.Core.List.{map}
use proindustrial_backend.Common.{
  Bool, List, Option, String, [], any, contains, false, filter, find, if◌then◌else◌, leb, length,
  map_if, nat_eq, none, not, some, string_eq, text_eq, true, ℕ, ◌!=◌, ◌&&◌, ◌==◌, ◌||◌, ◌∷◌,
}
use proindustrial_backend.Common.Text.{Text}
use proindustrial_backend.Admin.{nullable_str}
use proindustrial_backend.Database.{
  Action, Db, Driver, Error, Result, World, check_violation, err, fits, foreign_key_violation,
  not_found, ok, query, statement, syntax_error, too_long, unique_violation,
}
use proindustrial_backend.Model.{Company, CompanyService, ServiceImage, leb_int}
use proindustrial_backend.Tables.{count, sort_by, sort_desc}

pub record CreateServiceInput : Type 0 where
  pub name : Text
  pub category : Text
  pub description : Text

abbrev pub offers : String → CompanyService → Bool
offers company s = s.company_id == company

-- `List`
unfoldable pub list_services : Driver → String → Action (List CompanyService)
list_services d company =
    query d
      (λ db. sort_desc (λ (s : CompanyService). s.created_at) (filter (offers company) db.services))

-- `ListActive`
unfoldable pub active_services : String → Db → List CompanyService
active_services company db =
    sort_by (λ (a b : CompanyService). leb a.created_at b.created_at)
      (filter (λ (s : CompanyService). offers company s && s.status == "active") db.services)

unfoldable pub list_active : Driver → String → Action (List CompanyService)
list_active d company = query d (active_services company)

-- `WHERE service_id IN (?) ORDER BY sort_order ASC`
unfoldable pub images_in : List String → Db → List ServiceImage
images_in ids db =
    sort_by (λ (a b : ServiceImage). leb_int a.sort_order b.sort_order)
      (filter (λ (i : ServiceImage). contains ids i.service_id) db.service_images)

-- The entry of `imgMap` for a service, which keeps the order of the query.
abbrev pub attach : List ServiceImage → CompanyService → CompanyService × List ServiceImage
attach images s = (s, filter (λ (i : ServiceImage). i.service_id == s.id) images)

-- A failed query of the images leaves every service without any.
unfoldable pub attach_all :
    List CompanyService
    → Result (List ServiceImage)
    → Result (List (CompanyService × List ServiceImage))
attach_all services (ok images) = ok (map (attach images) services)
attach_all services (err e) = ok (map (attach []) services)

unfoldable pub with_images :
    Driver
    → Result (List CompanyService)
    → World
    → Result (List (CompanyService × List ServiceImage)) × World
with_images d (err e) w = (err e, w)
with_images d (ok []) w = (ok [], w)
with_images d (ok (s ∷ ss)) w =
    let (r, w') = query d (images_in (map (λ (x : CompanyService). x.id) (s ∷ ss))) w in
    (attach_all (s ∷ ss) r, w')

-- `ListActiveWithImages`
unfoldable pub list_active_with_images :
    Driver → String → Action (List (CompanyService × List ServiceImage))
list_active_with_images d company w = let (r, w') = list_active d company w in with_images d r w'

abbrev pub service_row : Driver → ℕ → String → CreateServiceInput → CompanyService
service_row d t company input = record {
  id = d.uuid t;
  company_id = company;
  name = input.name;
  category = nullable_str input.category;
  description = nullable_str input.description;
  status = "active";
  created_at = d.now t;
}

-- The widths of the columns of `company_services`.
abbrev pub service_fits : CompanyService → Bool
service_fits s = leb (length s.name) 200 && fits 100 s.category

unfoldable pub insert_service : CompanyService → Db → Result (CompanyService × Db)
insert_service s db =
    if service_fits s
    then if any (λ (x : CompanyService). x.id == s.id) db.services
      then err unique_violation
      else if any (λ (c : Company). c.id == s.company_id) db.companies
      then ok (s, record db { services = s ∷ db.services })
      else err foreign_key_violation
    else err too_long

-- `Create`
unfoldable pub create_service : Driver → String → CreateServiceInput → Action CompanyService
create_service d company input = statement d (λ t. insert_service (service_row d t company input))

-- The map of the columns to set, by column.
pub record ServiceFields : Type 0 where
  pub name : Option Text
  pub category : Option Text
  pub description : Option Text
  pub status : Option String

abbrev pub given : {A : Type 0} → Option A → Bool
given none = false
given (some a) = true

abbrev pub or_kept : {A : Type 0} → A → Option A → A
or_kept a none = a
or_kept a (some b) = b

abbrev pub or_kept_null : {A : Type 0} → Option A → Option A → Option A
or_kept_null o none = o
or_kept_null o (some b) = some b

abbrev pub any_service_field : ServiceFields → Bool
any_service_field f = given f.name || given f.category || given f.description || given f.status

abbrev pub set_service : ServiceFields → CompanyService → CompanyService
set_service f s = record s {
  name = or_kept s.name f.name;
  category = or_kept_null s.category f.category;
  description = or_kept_null s.description f.description;
  status = or_kept s.status f.status;
}

-- The CHECK constraint on the status.
unfoldable pub service_statuses : List String
service_statuses = "active" ∷ "draft" ∷ []

abbrev pub owned_service : String → String → CompanyService → Bool
owned_service id company s = s.id == id && offers company s

-- `UPDATE company_services SET … WHERE … RETURNING *`; with no column to set it does not parse.
unfoldable pub update_service_row :
    String → String → ServiceFields → Db → Result (CompanyService × Db)
update_service_row id company f db =
    if any_service_field f
    then elim (find (owned_service id company) db.services) [
      | none ↦ err Error.no_rows
      | some s ↦
          if service_fits (set_service f s)
          then if contains service_statuses (set_service f s).status
            then ok (
              set_service f s,
              record db {
                services = map_if (owned_service id company) (set_service f) db.services;
              },
            )
            else err check_violation
          else err too_long
    ]
    else err syntax_error

-- `Update`
unfoldable pub update_service : Driver → String → String → ServiceFields → Action CompanyService
update_service d id company f = statement d (λ t. update_service_row id company f)

-- `ON DELETE CASCADE`: the images go with their service.
unfoldable pub delete_service_row : String → String → Db → Result (Unit {0} × Db)
delete_service_row id company db =
    if any (owned_service id company) db.services
    then ok (
      tt,
      record db {
        services = filter (λ (s : CompanyService). not (owned_service id company s)) db.services;
        service_images = filter (λ (i : ServiceImage). i.service_id != id) db.service_images;
      },
    )
    else err not_found

-- `Delete`
unfoldable pub delete_service : Driver → String → String → Action (Unit {0})
delete_service d id company = statement d (λ t. delete_service_row id company)

-- `Count`
unfoldable pub count_services : Driver → String → Action ℕ
count_services d company = query d (λ db. count (offers company) db.services)
