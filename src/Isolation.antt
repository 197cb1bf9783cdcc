-- ===== src/Isolation.antt =====
-- The panels of the companies, side by side: every change that a session of a company can make
-- through internal/repository, and what a company has of its own.
pub mod Owned
pub mod Changes
pub mod Services
pub mod Projects
pub mod Sessions
pub mod Reads
use proindustrial_backend.Common.{HasKey, List, Option, String, [], filter, ℕ, ◌∷◌}
use proindustrial_backend.Common.Text.{Text}
use proindustrial_backend.Category.{regions}
use proindustrial_backend.Companies.{ProfileFields, update_company}
use proindustrial_backend.Database.{Db, Driver, World}
use proindustrial_backend.Login.{change}
use proindustrial_backend.Media.{has_project, has_service, update_cover, update_logo}
use proindustrial_backend.Media.Certifications.{
  CertificationInput, certified, create_certification, delete_certification, update_certification,
}
use proindustrial_backend.Media.Images.{
  ImageOrder, add_service_image, delete_service_image, reorder_service_images,
}
use proindustrial_backend.Media.Projects.{
  ProjectInput, add_project_image, create_project, delete_project, delete_project_image, made_by,
  update_project,
}
use proindustrial_backend.Media.Regions.{serves, set_service_regions}
use proindustrial_backend.Model.{
  Company, CompanyCertification, CompanyProject, CompanyService, ProjectImage, QuoteRequest,
  ServiceImage,
}
use proindustrial_backend.Quotes.{set_follow_up, set_outcome, set_reply, set_tags, update_status}
use proindustrial_backend.Services.{
  CreateServiceInput, ServiceFields, create_service, delete_service, offers, update_service,
}
use proindustrial_backend.Tables.{company_by_id, is_id}

-- What a company has: its row, its requests, and what its panel edits.
pub record View : Type 0 where
  pub company : Option Company
  pub quotes : List QuoteRequest
  pub services : List CompanyService
  pub service_images : List ServiceImage
  pub certifications : List CompanyCertification
  pub projects : List CompanyProject
  pub project_images : List ProjectImage
  pub service_regions : List (String × Text)

unfoldable pub view : String → Db → View
view c db = record {
  company = company_by_id c db;
  quotes = filter (λ (q : QuoteRequest). is_id c q.target_company_id) db.quotes;
  services = filter (offers c) db.services;
  service_images = filter (λ (i : ServiceImage). has_service i.service_id c db) db.service_images;
  certifications = filter (certified c) db.certifications;
  projects = filter (made_by c) db.projects;
  project_images = filter (λ (i : ProjectImage). has_project i.project_id c db) db.project_images;
  service_regions = filter (serves c) db.service_regions;
}

-- The primary keys that the ownership of images rests on.
pub record IsKeyed (db : Db) : Type 0 where
  pub services : HasKey (λ (s : CompanyService). s.id) db.services
  pub projects : HasKey (λ (p : CompanyProject). p.id) db.projects

-- The repository calls that a handler of the panel makes to change something.
pub data Change : Type 0 where
  profile_changed : ProfileFields → Change
  logo_changed cover_changed : Text → Change
  service_added : CreateServiceInput → Change
  service_changed : String → ServiceFields → Change
  service_removed : String → Change
  image_added : String → Text → Change
  image_removed : String → Change
  images_reordered : String → List ImageOrder → Change
  certification_added : CertificationInput → Change
  certification_changed : String → CertificationInput → Change
  certification_removed : String → Change
  project_added : ProjectInput → Change
  project_changed : String → ProjectInput → Change
  project_removed : String → Change
  picture_added : String → Text → Change
  picture_removed : String → Change
  regions_set : List Text → Change
  quote_closed : String → String → Text → Change
  quote_replied : String → Text → Change
  quote_tagged : String → List Text → Change
  quote_followed : String → Option ℕ → Change
  quote_marked : String → String → Change

-- The world that a change of a company leaves, whatever it answers.
unfoldable pub perform : Driver → String → Change → World → World
perform d company (profile_changed f) w = (update_company d company f w).1
perform d company (logo_changed url) w = (update_logo d company url w).1
perform d company (cover_changed url) w = (update_cover d company url w).1
perform d company (service_added input) w = (create_service d company input w).1
perform d company (service_changed id f) w = (update_service d id company f w).1
perform d company (service_removed id) w = (delete_service d id company w).1
perform d company (image_added service url) w = (add_service_image d service company url w).1
perform d company (image_removed id) w = (delete_service_image d id company w).1
perform d company (images_reordered service orders) w =
    (reorder_service_images d service company orders w).1
perform d company (certification_added input) w = (create_certification d company input w).1
perform d company (certification_changed id input) w = (update_certification d id company input w).1
perform d company (certification_removed id) w = (delete_certification d id company w).1
perform d company (project_added input) w = (create_project d company input w).1
perform d company (project_changed id input) w = (update_project d id company input w).1
perform d company (project_removed id) w = (delete_project d id company w).1
perform d company (picture_added project url) w = (add_project_image d project company url w).1
perform d company (picture_removed id) w = (delete_project_image d id company w).1
perform d company (regions_set regions) w = (set_service_regions d company regions w).1
perform d company (quote_closed id outcome note) w = (set_outcome d id company outcome note w).1
perform d company (quote_replied id note) w = (set_reply d id company note w).1
perform d company (quote_tagged id tags) w = (set_tags d id company tags w).1
perform d company (quote_followed id at_time) w = (set_follow_up d id company at_time w).1
perform d company (quote_marked id status) w = (update_status d id company status w).1

-- Changes of any companies, one after the other.
unfoldable pub perform_all : Driver → List (String × Change) → World → World
perform_all d [] w = w
perform_all d ((company, change) ∷ rest) w = perform_all d rest (perform d company change w)
