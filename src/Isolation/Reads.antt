-- ===== src/Isolation/Reads.antt =====
-- What the panel of a company shows: the answers of the handlers that read
-- (internal/handler/panel.go, quote.go and media.go), and the tables with its own rows alone.
pub mod Tables
pub mod Replies
pub mod Alone
use proindustrial_backend.Common.{Bool, List, Option, String, [], filter, none, some, ◌∷◌}
use proindustrial_backend.Common.Text.{Text}
use proindustrial_backend.Database.{Db, Driver, World}
use proindustrial_backend.Gallery.Panel.{
  show_certifications, show_images, show_projects, show_regions,
}
use proindustrial_backend.Http.{Reply}
use proindustrial_backend.Isolation.{View}
use proindustrial_backend.Media.Projects.{Pictured}
use proindustrial_backend.Model.{
  Company, CompanyCertification, CompanyService, QuoteRequest, ServiceImage,
}
use proindustrial_backend.Panel.{dashboard_stats, get_profile, list_own_services}
use proindustrial_backend.Quotes.{DashboardStats}
use proindustrial_backend.Quotes.Inbox.{list_quotes}

-- The requests of a panel that change nothing.
pub data Read : Type 0 where
  profile_read dashboard_read services_read certifications_read projects_read regions_read : Read
  quotes_read images_read : String → Read

pub data Shown : Type 0 where
  profile : Reply Company → Shown
  dashboard : Reply DashboardStats → Shown
  services : Reply (List CompanyService) → Shown
  certifications : Reply (List CompanyCertification) → Shown
  projects : Reply (List Pictured) → Shown
  regions : Reply (List Text) → Shown
  quotes : Reply (List QuoteRequest) → Shown
  images : Reply (List ServiceImage) → Shown

-- The answer of a handler, for the company of the session; `before` is the collation of regions.
unfoldable pub read : Driver → (Text → Text → Bool) → String → Read → World → Shown
read d before c profile_read w = profile (get_profile d c w).0
read d before c dashboard_read w = dashboard (dashboard_stats d c w).0
read d before c services_read w = services (list_own_services d c w).0
read d before c certifications_read w = certifications (show_certifications d c w).0
read d before c projects_read w = projects (show_projects d c w).0
read d before c regions_read w = regions (show_regions d before c w).0
read d before c (quotes_read status) w = quotes (list_quotes d c status w).0
read d before c (images_read service) w = images (show_images d c service w).0

abbrev to_list : {A : Type 0} → Option A → List A
to_list none = []
to_list (some a) = a ∷ []

-- The tables that hold what a company has, and nothing else.
unfoldable pub alone : View → Db
alone v = record {
  companies = to_list v.company;
  users = [];
  registrations = [];
  quotes = v.quotes;
  services = v.services;
  service_images = v.service_images;
  certifications = v.certifications;
  projects = v.projects;
  project_images = v.project_images;
  service_regions = v.service_regions;
  events = [];
}
