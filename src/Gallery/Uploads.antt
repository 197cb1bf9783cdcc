-- ===== src/Gallery/Uploads.antt =====
-- internal/handler/media.go: the handlers that store a file.
use proindustrial_backend.Common.{String, [], if◌then◌else◌, leb, ℕ, ◌++◌}
use proindustrial_backend.Common.Text.{Text, codes}
use proindustrial_backend.Database.{Driver, Result, err, ok}
use proindustrial_backend.Gallery.{
  Listed, UploadRequest, Uploading, allowed_doc_mimes, allowed_image_mimes, created_or,
  max_doc_size, max_image_size, max_images, plain_error, stored, upload_file,
}
use proindustrial_backend.Http.{Handler, Reply, answer, call, refuse, respond}
use proindustrial_backend.Media.{update_cover, update_logo}
use proindustrial_backend.Media.Certifications.{CertificationInput, update_certification}
use proindustrial_backend.Media.Images.{add_service_image, count_service_images}
use proindustrial_backend.Media.Projects.{add_project_image}
use proindustrial_backend.Model.{CompanyCertification, ProjectImage, ServiceImage}
use proindustrial_backend.Quotes.Inbox.{data_or}
use proindustrial_backend.Slug.{decimal}
use proindustrial_backend.Storage.{Paths, Provider}

abbrev pub url_or_error : Text → Result (Unit {0}) → Handler Text
url_or_error url (ok u) = respond (answer 200 url)
url_or_error url (err e) = respond plain_error

abbrev pub no_service : Text
no_service = codes "servicio no encontrado"

abbrev pub too_many : Text
too_many = codes "máximo " ++ decimal max_images ++ codes " imágenes por servicio"

-- The input that holds a URL and nothing else.
abbrev pub only_document : Text → CertificationInput
only_document url = record {
  name = [];
  issuer = [];
  document_url = url;
  issued_at = [];
  expires_at = [];
}

abbrev pub no_certification : {A : Type 0} → Reply A
no_certification = refuse 404 (codes "certificación no encontrada")

module _ {S : Type 0} (d : Driver) (store : Provider S) (listed : Listed) (paths : Paths) where
  -- `UploadLogo`
  unfoldable pub upload_logo : String → UploadRequest → Uploading S Text
  upload_logo company up w s =
      stored (λ url. call (update_logo d company url) (url_or_error url)) w
        (upload_file store listed company (codes "logo") allowed_image_mimes max_image_size up.uuid
          up.file s)

  -- `UploadCover`
  unfoldable pub upload_cover : String → UploadRequest → Uploading S Text
  upload_cover company up w s =
      stored (λ url. call (update_cover d company url) (url_or_error url)) w
        (upload_file store listed company (codes "cover") allowed_image_mimes max_image_size up.uuid
          up.file s)

  unfoldable pub store_image : String → String → UploadRequest → Uploading S ServiceImage
  store_image company service up w s =
      stored (λ url. call (add_service_image d service company url) (created_or no_service)) w
        (upload_file store listed company (paths.join (codes "services") (codes service))
          allowed_image_mimes max_image_size up.uuid up.file s)

  unfoldable pub within_limit :
      String → String → UploadRequest → Result ℕ → Uploading S ServiceImage
  within_limit company service up (err e) w s = ((refuse 404 no_service, w), s)
  within_limit company service up (ok n) w s =
      if leb max_images n then ((refuse 400 too_many, w), s) else store_image company service up w s

  -- `AddServiceImage`
  unfoldable pub add_image : String → String → UploadRequest → Uploading S ServiceImage
  add_image company service up w s =
      let (r, w') = count_service_images d service company w in
      within_limit company service up r w' s

  -- `UploadCertificationDoc`
  unfoldable pub upload_certification_doc :
      String → String → UploadRequest → Uploading S CompanyCertification
  upload_certification_doc company id up w s =
      stored
        (λ url.
          call (update_certification d id company (only_document url)) (data_or no_certification))
        w
        (upload_file store listed company (paths.join (codes "certs") (codes id)) allowed_doc_mimes
          max_doc_size up.uuid up.file s)

  -- `AddProjectImage`
  unfoldable pub add_picture : String → String → UploadRequest → Uploading S ProjectImage
  add_picture company project up w s =
      stored
        (λ url.
          call (add_project_image d project company url)
            (created_or (codes "proyecto no encontrado")))
        w
        (upload_file store listed company (paths.join (codes "projects") (codes project))
          allowed_image_mimes max_image_size up.uuid up.file s)
