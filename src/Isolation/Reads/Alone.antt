-- ===== src/Isolation/Reads/Alone.antt =====
-- The panel of a company shows what its own rows say, whatever other companies do.
use mathlib.Core.List.{map}
use proindustrial_backend.Common.{
  All, Bool, List, String, and_true, ap, nat_eq, string_eq, sym, text_eq, ℕ, ◌∙◌, ◌≡◌, ◌≢◌,
}
use proindustrial_backend.Common.Text.{Text}
use proindustrial_backend.Companies.{found_company}
use proindustrial_backend.Database.{Db, Driver, World, one}
use proindustrial_backend.Gallery.Panel.{
  data_or_plain, show_certifications, show_images, show_projects, show_regions,
}
use proindustrial_backend.Http.{internal_error}
use proindustrial_backend.Isolation.{Change, IsKeyed, perform_all}
use proindustrial_backend.Isolation.Reads.{
  Read, alone, certifications, certifications_read, dashboard, dashboard_read, images, images_read,
  profile, profile_read, projects, projects_read, quotes, quotes_read, read, regions, regions_read,
  services, services_read,
}
use proindustrial_backend.Isolation.Reads.Replies.{
  all, call_reply, dashboard_stats-own, data_or-Answers, data_or_plain-Answers, few,
  found_company-Answers, list_projects-own, one-outcome, outcome, query_same, statement_same,
}
use proindustrial_backend.Isolation.Reads.Tables.{
  certifications-own, company_by_id-own, own, owned_images-own, quotes-own, service_regions-own,
  services-own,
}
use proindustrial_backend.Isolation.Sessions.{perform_all-view}
use proindustrial_backend.Login.{get_company}
use proindustrial_backend.Media.Certifications.{list_certifications}
use proindustrial_backend.Media.Images.{image_before, list_service_images}
use proindustrial_backend.Media.Projects.{list_projects}
use proindustrial_backend.Media.Regions.{get_service_regions}
use proindustrial_backend.Model.{CompanyCertification, CompanyService, QuoteRequest}
use proindustrial_backend.Panel.{get_profile, list_own_services}
use proindustrial_backend.Quotes.{list_by_company, listed_quote}
use proindustrial_backend.Quotes.Inbox.{data_or, list_quotes}
use proindustrial_backend.Services.{list_services}
use proindustrial_backend.Tables.{company_by_id, is_id, sort_by, sort_desc}

module _ (d : Driver) (before : Text → Text → Bool) (c : String) where
  read-alone :
      (q : Read) (db : Db) (t : ℕ)
      → read d before c q (few d c db t) ≡ read d before c q (all d c db t)
  unfolding read get_profile list_own_services show_certifications show_images show_projects
      show_regions list_quotes list_services list_certifications list_service_images
      get_service_regions list_by_company
  read-alone profile_read db t = ap profile (
      call_reply (get_company d c) found_company (few d c db t) (all d c db t) found_company-Answers
        (statement_same d c db _ t (
          one-outcome (company_by_id c (own c db)) (own c db) db
          ∙ ap (λ o. outcome (one o db)) (company_by_id-own c db))))
  read-alone dashboard_read db t = ap dashboard (dashboard_stats-own d c db t)
  read-alone services_read db t = ap services (
      call_reply (list_services d c) (data_or internal_error) (few d c db t) (all d c db t)
        (data_or-Answers internal_error)
        (query_same d c db _ t
          (ap (sort_desc (λ (s : CompanyService). s.created_at)) (services-own c db).0)))
  read-alone certifications_read db t = ap certifications (
      call_reply (list_certifications d c) data_or_plain (few d c db t) (all d c db t)
        data_or_plain-Answers
        (query_same d c db _ t
          (ap (sort_desc (λ (x : CompanyCertification). x.created_at)) (certifications-own c db))))
  read-alone projects_read db t = ap projects (
      call_reply (list_projects d c) data_or_plain (few d c db t) (all d c db t)
        data_or_plain-Answers (list_projects-own d c db t))
  read-alone regions_read db t = ap regions (
      call_reply (get_service_regions d before c) data_or_plain (few d c db t) (all d c db t)
        data_or_plain-Answers
        (query_same d c db _ t (
          ap (λ l. sort_by before (map (λ (r : String × Text). r.1) l))
            (service_regions-own c db))))
  read-alone (quotes_read status) db t = ap quotes (
      call_reply (list_by_company d c status) (data_or internal_error) (few d c db t) (all d c db t)
        (data_or-Answers internal_error)
        (query_same d c db _ t (
          ap (sort_desc (λ (q : QuoteRequest). q.created_at))
            (quotes-own c db (listed_quote c status)
              (λ q e. (and_true (is_id c q.target_company_id) _ e).0)).0)))
  read-alone (images_read service) db t = ap images (
      call_reply (list_service_images d service c) data_or_plain (few d c db t) (all d c db t)
        data_or_plain-Answers
        (query_same d c db _ t (ap (sort_by image_before) (owned_images-own c db service))))

  -- Whatever changes other companies make, in whatever order and with whatever failures, the panel
  -- of a company answers each of its reading requests as it would have answered before, after as
  -- many statements; where no two services and no two projects shared an identifier at the start.
  pub perform_all-read :
      (changes : List (String × Change)) (w : World) (q : Read) (t : ℕ)
      → All (λ (x : String × Change). x.0 ≢ c) changes
      → IsKeyed w.db
      → read d before c q (record { db = (perform_all d changes w).db; tick = t })
        ≡ read d before c q (record { db = w.db; tick = t })
  perform_all-read changes w q t apart keyed =
      sym (read-alone q (perform_all d changes w).db t)
      ∙ ap (λ v. read d before c q (record { db = alone v; tick = t }))
          (perform_all-view d c changes w apart keyed).0
      ∙ read-alone q w.db t
