-- ===== src/Routes.antt =====
-- internal/router/router.go: the routes, each with the middleware before its handler. The global
-- middleware and the static files of the local storage are not in the table.
pub mod Guards
use proindustrial_backend.Common.{List, String, [], ℕ, ◌++◌, ◌∷◌}
use proindustrial_backend.Model.Limits.{max_body_bytes}

-- `RateLimit`, `PublicWriteLimit`, `EventLimit`
pub data Limiter : Type 0 where
  logins public_write events : Limiter

pub data Guard : Type 0 where
  limited : Limiter → Guard
  body_limit : ℕ → Guard
  requires : String → Guard

pub record Route : Type 0 where
  pub method : String
  pub path : String
  pub guards : List Guard
  pub handler : String

abbrev pub route : String → String → List Guard → String → Route
route method path guards handler = record {
  method = method;
  path = path;
  guards = guards;
  handler = handler;
}

abbrev pub provider_only : List Guard
provider_only = requires "provider" ∷ []

abbrev pub admin_only : List Guard
admin_only = requires "admin" ∷ []

abbrev pub public_writes : List Guard
public_writes = limited public_write ∷ body_limit max_body_bytes ∷ []

unfoldable pub health_routes : List Route
health_routes =
    route "GET" "/healthz" [] "Health.Healthz" ∷ route "GET" "/readyz" [] "Health.Readyz" ∷ []

unfoldable pub public_routes : List Route
public_routes =
    route "POST" "/api/events" (limited events ∷ body_limit max_body_bytes ∷ [])
      "Analytics.TrackEvent"
    ∷ route "GET" "/api/category-groups" [] "GetCategoryGroups"
    ∷ route "GET" "/api/regions" [] "GetRegions"
    ∷ route "GET" "/api/companies" [] "Company.List"
    ∷ route "GET" "/api/companies/:slug" [] "Company.GetBySlug"
    ∷ route "GET" "/api/companies/:slug/services" [] "Company.ListServices"
    ∷ route "GET" "/api/companies/:slug/certifications" [] "Media.GetPublicCertifications"
    ∷ route "GET" "/api/companies/:slug/projects" [] "Media.GetPublicProjects"
    ∷ route "POST" "/api/quotes" public_writes "Quote.Create"
    ∷ route "POST" "/api/registrations" public_writes "Registration.Create"
    ∷ []

unfoldable pub session_routes : List Route
session_routes =
    route "POST" "/api/auth/login" (limited logins ∷ []) "Auth.Login"
    ∷ route "GET" "/api/auth/me" provider_only "Auth.Me"
    ∷ route "POST" "/api/auth/change-password" provider_only "Auth.ChangePassword"
    ∷ []

unfoldable pub panel_routes : List Route
panel_routes =
    route "GET" "/api/panel/dashboard/stats" provider_only "Panel.DashboardStats"
    ∷ route "GET" "/api/panel/quotes" provider_only "Quote.List"
    ∷ route "PATCH" "/api/panel/quotes/:id" provider_only "Quote.UpdateStatus"
    ∷ route "POST" "/api/panel/quotes/:id/reply" provider_only "Quote.Reply"
    ∷ route "POST" "/api/panel/quotes/:id/close" provider_only "Quote.Close"
    ∷ route "PATCH" "/api/panel/quotes/:id/tags" provider_only "Quote.SetTags"
    ∷ route "PATCH" "/api/panel/quotes/:id/follow-up" provider_only "Quote.SetFollowUp"
    ∷ route "GET" "/api/panel/analytics" provider_only "Analytics.GetAnalytics"
    ∷ route "GET" "/api/panel/services" provider_only "Panel.ListServices"
    ∷ route "POST" "/api/panel/services" provider_only "Panel.CreateService"
    ∷ route "PATCH" "/api/panel/services/:id" provider_only "Panel.UpdateService"
    ∷ route "DELETE" "/api/panel/services/:id" provider_only "Panel.DeleteService"
    ∷ route "GET" "/api/panel/profile" provider_only "Panel.GetProfile"
    ∷ route "PUT" "/api/panel/profile" provider_only "Panel.UpdateProfile"
    ∷ []

unfoldable pub media_routes : List Route
media_routes =
    route "POST" "/api/panel/profile/logo" provider_only "Media.UploadLogo"
    ∷ route "POST" "/api/panel/profile/cover" provider_only "Media.UploadCover"
    ∷ route "GET" "/api/panel/profile/regions" provider_only "Media.GetServiceRegions"
    ∷ route "PUT" "/api/panel/profile/regions" provider_only "Media.UpdateServiceRegions"
    ∷ route "GET" "/api/panel/services/:id/images" provider_only "Media.ListServiceImages"
    ∷ route "POST" "/api/panel/services/:id/images" provider_only "Media.AddServiceImage"
    ∷ route "DELETE" "/api/panel/services/:id/images/:imgId" provider_only
        "Media.DeleteServiceImage"
    ∷ route "PATCH" "/api/panel/services/:id/images/reorder" provider_only
        "Media.ReorderServiceImages"
    ∷ route "GET" "/api/panel/certifications" provider_only "Media.ListCertifications"
    ∷ route "POST" "/api/panel/certifications" provider_only "Media.CreateCertification"
    ∷ route "PATCH" "/api/panel/certifications/:id" provider_only "Media.UpdateCertification"
    ∷ route "DELETE" "/api/panel/certifications/:id" provider_only "Media.DeleteCertification"
    ∷ route "POST" "/api/panel/certifications/:id/document" provider_only
        "Media.UploadCertificationDoc"
    ∷ route "GET" "/api/panel/projects" provider_only "Media.ListProjects"
    ∷ route "POST" "/api/panel/projects" provider_only "Media.CreateProject"
    ∷ route "PATCH" "/api/panel/projects/:id" provider_only "Media.UpdateProject"
    ∷ route "DELETE" "/api/panel/projects/:id" provider_only "Media.DeleteProject"
    ∷ route "POST" "/api/panel/projects/:id/images" provider_only "Media.AddProjectImage"
    ∷ route "DELETE" "/api/panel/projects/:id/images/:imgId" provider_only
        "Media.DeleteProjectImage"
    ∷ []

unfoldable pub admin_routes : List Route
admin_routes =
    route "POST" "/api/admin/auth/login" (limited logins ∷ []) "Auth.AdminLogin"
    ∷ route "GET" "/api/admin/auth/me" admin_only "Auth.AdminMe"
    ∷ route "POST" "/api/admin/auth/change-password" admin_only "Auth.ChangePassword"
    ∷ route "GET" "/api/admin/registrations" admin_only "Admin.ListRegistrations"
    ∷ route "GET" "/api/admin/registrations/:id" admin_only "Admin.GetRegistration"
    ∷ route "POST" "/api/admin/registrations/:id/approve" admin_only "Admin.ApproveRegistration"
    ∷ route "POST" "/api/admin/registrations/:id/reject" admin_only "Admin.RejectRegistration"
    ∷ route "POST" "/api/admin/registrations/:id/resend-credentials" admin_only
        "Admin.ResendCredentials"
    ∷ route "DELETE" "/api/admin/registrations/:id/company" admin_only "Admin.DeleteApprovedCompany"
    ∷ []

-- `Setup`
unfoldable pub routes : List Route
unfolding health_routes public_routes session_routes panel_routes media_routes admin_routes
routes =
    health_routes ++ public_routes ++ session_routes ++ panel_routes ++ media_routes ++ admin_routes
