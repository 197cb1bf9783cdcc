-- ===== src/Panel.antt =====
-- internal/handler/panel.go: the panel of a company, which is the `company` of the session. A body
-- that cannot be bound is `none`.
use proindustrial_backend.Common.{Bool, List, Option, String, if◌then◌else◌, none, some, ℕ, ◌||◌}
use proindustrial_backend.Common.Text.{codes}
use proindustrial_backend.Companies.{ProfileFields, found_company, update_company}
use proindustrial_backend.Database.{Driver, Result, err, ok}
use proindustrial_backend.Http.{Handler, Reply, answer, call, internal_error, refuse, respond}
use proindustrial_backend.Login.{get_company}
use proindustrial_backend.Model.{Company, CompanyService}
use proindustrial_backend.Quotes.{DashboardStats, stats}
use proindustrial_backend.Quotes.Inbox.{data_or}
use proindustrial_backend.Services.{
  CreateServiceInput, ServiceFields, count_services, create_service, delete_service, given,
  list_services, update_service,
}

abbrev pub with_total : DashboardStats → ℕ → DashboardStats
with_total s n = record s { total_services = n }

abbrev pub after_count : DashboardStats → Result ℕ → Handler DashboardStats
after_count s (ok n) = respond (answer 200 (with_total s n))
after_count s (err e) = respond internal_error

abbrev pub after_stats : Driver → String → Result DashboardStats → Handler DashboardStats
after_stats d company (ok s) = call (count_services d company) (after_count s)
after_stats d company (err e) = respond internal_error

-- `DashboardStats`
unfoldable pub dashboard_stats : Driver → String → Handler DashboardStats
dashboard_stats d company = call (stats d company) (after_stats d company)

-- `GetProfile`
unfoldable pub get_profile : Driver → String → Handler Company
get_profile d company = call (get_company d company) found_company

-- `len(fields) == 0`
abbrev pub any_profile_field : ProfileFields → Bool
any_profile_field f =
    given f.name
    || given f.tagline
    || given f.description
    || given f.location
    || given f.region
    || given f.phone
    || given f.email
    || given f.website
    || given f.years_active

-- A company that cannot be read again is answered as `null`.
abbrev pub read_again : Result Company → Handler (Option Company)
read_again (ok c) = respond (answer 200 (some c))
read_again (err e) = respond (answer 200 none)

abbrev pub after_update : Driver → String → Result (Unit {0}) → Handler (Option Company)
after_update d company (ok u) = call (get_company d company) read_again
after_update d company (err e) = respond internal_error

-- `UpdateProfile`
unfoldable pub update_profile : Driver → String → Option ProfileFields → Handler (Option Company)
update_profile d company none = respond (refuse 400 (codes "datos de perfil inválidos"))
update_profile d company (some f) =
    if any_profile_field f
    then call (update_company d company f) (after_update d company)
    else respond (refuse 400 (codes "no hay campos para actualizar"))

-- `ListServices`
unfoldable pub list_own_services : Driver → String → Handler (List CompanyService)
list_own_services d company = call (list_services d company) (data_or internal_error)

abbrev pub created_service : Result CompanyService → Handler CompanyService
created_service (ok s) = respond (answer 201 s)
created_service (err e) = respond internal_error

-- `CreateService`
unfoldable pub add_service : Driver → String → Option CreateServiceInput → Handler CompanyService
add_service d company none = respond (refuse 400 (codes "nombre del servicio es requerido"))
add_service d company (some input) = call (create_service d company input) created_service

abbrev pub service_missing : {A : Type 0} → Reply A
service_missing = refuse 404 (codes "service not found")

-- `UpdateService`
unfoldable pub change_service :
    Driver → String → String → Option ServiceFields → Handler CompanyService
change_service d company id none = respond (refuse 400 (codes "datos de servicio inválidos"))
change_service d company id (some f) =
    call (update_service d id company f) (data_or service_missing)

-- `DeleteService`
unfoldable pub remove_service : Driver → String → String → Handler (Unit {0})
remove_service d company id = call (delete_service d id company) (data_or service_missing)
