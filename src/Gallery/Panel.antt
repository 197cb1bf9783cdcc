-- ===== src/Gallery/Panel.antt =====
-- internal/handler/media.go: the handlers that store no file. A body that cannot be bound is `none`.
use proindustrial_backend.Common.{Bool, List, Option, String, [], none, some}
use proindustrial_backend.Common.Text.{Text, codes}
use proindustrial_backend.Category.{regions}
use proindustrial_backend.Companies.{get_by_slug}
use proindustrial_backend.Database.{Driver, Result, err, ok}
use proindustrial_backend.Gallery.{plain_error}
use proindustrial_backend.Http.{Handler, answer, call, refuse, respond}
use proindustrial_backend.Media.Certifications.{
  CertificationInput, create_certification, delete_certification, list_certifications,
  update_certification,
}
use proindustrial_backend.Media.Images.{
  ImageOrder, delete_service_image, list_service_images, reorder_service_images,
}
use proindustrial_backend.Media.Projects.{
  Pictured, ProjectInput, create_project, delete_project, delete_project_image, list_projects,
  update_project,
}
use proindustrial_backend.Media.Regions.{get_service_regions, set_service_regions}
use proindustrial_backend.Model.{Company, CompanyCertification, ServiceImage}

abbrev pub done_or : {A : Type 0} → Text → Result A → Handler A
done_or message (ok a) = respond (answer 200 a)
done_or message (err e) = respond (refuse 404 message)

abbrev pub data_or_plain : {A : Type 0} → Result A → Handler A
data_or_plain (ok a) = respond (answer 200 a)
data_or_plain (err e) = respond plain_error

abbrev pub created_or_plain : {A : Type 0} → Result A → Handler A
created_or_plain (ok a) = respond (answer 201 a)
created_or_plain (err e) = respond plain_error

module _ (d : Driver) where
  -- `ListServiceImages`
  unfoldable pub show_images : String → String → Handler (List ServiceImage)
  show_images company service = call (list_service_images d service company) data_or_plain

  -- `DeleteServiceImage`
  unfoldable pub remove_image : String → String → Handler (Unit {0})
  remove_image company id =
      call (delete_service_image d id company) (done_or (codes "imagen no encontrada"))

  -- `ReorderServiceImages`
  unfoldable pub reorder_images : String → String → Option (List ImageOrder) → Handler (Unit {0})
  reorder_images company service none = respond (refuse 400 (codes "formato inválido"))
  reorder_images company service (some orders) =
      call (reorder_service_images d service company orders) data_or_plain

  -- `ListCertifications`
  unfoldable pub show_certifications : String → Handler (List CompanyCertification)
  show_certifications company = call (list_certifications d company) data_or_plain

  -- `CreateCertification`: the form has no URL.
  unfoldable pub add_certification :
      String → Option CertificationInput → Handler CompanyCertification
  add_certification company none = respond (refuse 400 (codes "nombre de certificación requerido"))
  add_certification company (some input) =
      call (create_certification d company (record input { document_url = [] })) created_or_plain

  -- `UpdateCertification`: the form has no URL.
  unfoldable pub change_certification :
      String → String → Option CertificationInput → Handler CompanyCertification
  change_certification company id none = respond (refuse 400 (codes "nombre requerido"))
  change_certification company id (some input) =
      call (update_certification d id company (record input { document_url = [] }))
        (done_or (codes "certificación no encontrada"))

  -- `DeleteCertification`
  unfoldable pub remove_certification : String → String → Handler (Unit {0})
  remove_certification company id =
      call (delete_certification d id company) (done_or (codes "certificación no encontrada"))

  -- `ListProjects`
  unfoldable pub show_projects : String → Handler (List Pictured)
  show_projects company = call (list_projects d company) data_or_plain

  -- `CreateProject`
  unfoldable pub add_project : String → Option ProjectInput → Handler Pictured
  add_project company none = respond (refuse 400 (codes "título del proyecto requerido"))
  add_project company (some input) = call (create_project d company input) created_or_plain

  -- `UpdateProject`
  unfoldable pub change_project : String → String → Option ProjectInput → Handler Pictured
  change_project company id none = respond (refuse 400 (codes "título requerido"))
  change_project company id (some input) =
      call (update_project d id company input) (done_or (codes "proyecto no encontrado"))

  -- `DeleteProject`
  unfoldable pub remove_project : String → String → Handler (Unit {0})
  remove_project company id =
      call (delete_project d id company) (done_or (codes "proyecto no encontrado"))

  -- `DeleteProjectImage`
  unfoldable pub remove_picture : String → String → Handler (Unit {0})
  remove_picture company id =
      call (delete_project_image d id company) (done_or (codes "imagen no encontrada"))

  -- `GetServiceRegions`
  unfoldable pub show_regions : (Text → Text → Bool) → String → Handler (List Text)
  show_regions before company = call (get_service_regions d before company) data_or_plain

  abbrev pub echo : {A : Type 0} → A → Result (Unit {0}) → Handler A
  echo a (ok u) = respond (answer 200 a)
  echo a (err e) = respond plain_error

  -- `UpdateServiceRegions`
  unfoldable pub change_regions : String → Option (List Text) → Handler (List Text)
  change_regions company none = respond (refuse 400 (codes "regions requerido"))
  change_regions company (some regions) =
      call (set_service_regions d company regions) (echo regions)

  abbrev pub for_company : {A : Type 0} → (Company → Handler A) → Result Company → Handler A
  for_company k (ok c) = k c
  for_company k (err e) = respond (refuse 404 (codes "empresa no encontrada"))

  -- `GetPublicCertifications`
  unfoldable pub public_certifications : Text → Handler (List CompanyCertification)
  public_certifications slug =
      call (get_by_slug d slug) (for_company (λ c. call (list_certifications d c.id) data_or_plain))

  -- `GetPublicProjects`
  unfoldable pub public_projects : Text → Handler (List Pictured)
  public_projects slug =
      call (get_by_slug d slug) (for_company (λ c. call (list_projects d c.id) data_or_plain))
