-- ===== src/Examples/Media.antt =====
-- Theorems on uploads, mails and guards, at concrete inputs.
use proindustrial_backend.Common.{
  Memᴰ, [], contains, false, inr, none, refl, some, suc, true, ℕ, ◌++◌, ◌∷◌, ◌≡◌,
}
use proindustrial_backend.Common.Text.{Text, codes}
use proindustrial_backend.Database.{World, statement}
use proindustrial_backend.Examples.{driver, provider}
use proindustrial_backend.Examples.Panel.{panel, panel_db}
use proindustrial_backend.Gallery.{Mimes, UploadRequest, before_semicolon, extension, upload_file}
use proindustrial_backend.Gallery.Documents.{DocumentKept, upload_certification_doc_ok}
use proindustrial_backend.Gallery.Limits.{ImageAdded, add_image_ok}
use proindustrial_backend.Gallery.Uploads.{
  add_image, store_image, upload_certification_doc, within_limit,
}
use proindustrial_backend.Http.{answer, call}
use proindustrial_backend.Login.{claims_of}
use proindustrial_backend.Mail.{mail_head, text_to_html}
use proindustrial_backend.Mail.Escape.{escape_each, text_to_html_lem}
use proindustrial_backend.Mail.Headers.{mail_head-lines, occurrences}
use proindustrial_backend.Media
use proindustrial_backend.Media.Certifications.{update_certification, update_certification_row}
use proindustrial_backend.Media.Images.{add_service_image, count_service_images, insert_image}
use proindustrial_backend.Model.{CompanyCertification, ServiceImage, is_int4, pos}
use proindustrial_backend.Routes.{Route, provider_only, route, routes}
use proindustrial_backend.Serving.{
  Passage, Request, initial_limiters, passed, serve, global_middleware, request_id, cors, security,
  limit_body, run_guards, run_guard,
}
use proindustrial_backend.Serving.Sessions.{HasSession, serve-HasSession}
use proindustrial_backend.Session.{
  Parser, after_prefix, auth, check_claims, check_header, check_password_change, check_role,
  check_user, password_change_exempt_routes,
}
use proindustrial_backend.Storage.{
  Disk, Bucket, Paths, Provider, StorageConfig, Upload, local_provider, local_upload,
  new_local_provider, new_provider, or_fail, removed,
}
use proindustrial_backend.Storage.Contract.{upload-public_url}

-- A disk that counts what is done to it, and paths as they are.
abbrev disk : Disk ℕ
disk = record {
  mkdir_all = λ p s. (true, suc s);
  create = λ p s. (true, suc s);
  copy = λ p t s. (true, suc s);
  remove = λ p s. (removed, suc s);
}

abbrev bucket : Bucket ℕ
bucket = record { put_object = λ n k f s. (true, suc s); delete_object = λ n k s. (true, suc s) }

abbrev paths : Paths
paths = record { join = λ a b. a ++ codes "/" ++ b; from_slash = λ p. p; dir = λ p. p }

abbrev config : StorageConfig
config = record {
  driver = "local";
  base_url = codes "/u";
  dir = codes "d";
  s3_bucket = [];
  s3_public_base = [];
}

abbrev store : Provider ℕ
store = local_provider paths disk (codes "d") (codes "/u")

abbrev picture : Upload
picture = record { size = 10; content_type = codes "image/png; q"; content = [] }

provider_made : new_provider paths disk false bucket config 0 ≡ (inr store, 1)
unfolding new_provider new_local_provider or_fail
provider_made = refl

picture_stored : store.upload (codes "k") picture 7 ≡ (inr (codes "/u/k"), 10)
unfolding local_upload or_fail
picture_stored = refl

upload-public_url_example : codes "/u/k" ≡ store.public_url (codes "k")
upload-public_url_example =
    upload-public_url paths disk bucket false config (codes "k") picture 0 7 provider_made
      picture_stored

abbrev no_names : Mimes → Text
no_names m = []

abbrev request : UploadRequest
request = record { file = some picture; uuid = codes "u" }

abbrev added : ServiceImage
added = record {
  id = "id-n";
  service_id = "s1";
  url = codes "/u/companies/c1/services/s1/u.png";
  alt_text = none;
  sort_order = pos 1;
  created_at = 2;
}

image_answers :
    (add_image driver store no_names paths "c1" "s1" request panel 0).0.0 ≡ answer 201 added
unfolding add_image count_service_images within_limit store_image upload_file before_semicolon
    extension local_upload or_fail call add_service_image statement insert_image is_int4
    Media.next_order
image_answers = refl

add_image_ok_example :
    ImageAdded driver store no_names paths "c1" "s1" request panel 0 added
      (add_image driver store no_names paths "c1" "s1" request panel 0).0.1.db
      (add_image driver store no_names paths "c1" "s1" request panel 0).1
add_image_ok_example =
    add_image_ok driver store no_names paths "c1" "s1" request panel 0 {code = 201} image_answers

abbrev certification : CompanyCertification
certification = record {
  id = "x1";
  company_id = "c1";
  name = codes "ISO 9001";
  issuer = some (codes "SGS");
  document_url = none;
  issued_at = some (codes "2024-01-01");
  expires_at = none;
  created_at = 0;
}

abbrev certified : World
certified = record { db = record panel_db { certifications = certification ∷ [] }; tick = 0 }

abbrev blanked : CompanyCertification
blanked = record certification {
  name = [];
  issuer = none;
  document_url = some (codes "/u/companies/c1/certs/x1/u.png");
  issued_at = none;
}

document_answers :
    (upload_certification_doc driver store no_names paths "c1" "x1" request certified 0).0.0
    ≡ answer 200 blanked
unfolding upload_certification_doc upload_file before_semicolon extension local_upload or_fail call
    update_certification update_certification_row statement
document_answers = refl

upload_certification_doc_ok_example :
    DocumentKept driver store no_names paths "c1" "x1" request certified 0 blanked
      (upload_certification_doc driver store no_names paths "c1" "x1" request certified 0).0.1.db
      (upload_certification_doc driver store no_names paths "c1" "x1" request certified 0).1
upload_certification_doc_ok_example =
    upload_certification_doc_ok driver store no_names paths "c1" "x1" request certified 0
      {code = 200} document_answers

abbrev injected : Text
injected = codes "a" ++ (13 ∷ 10 ∷ codes "Bcc: x@y.cl")

mail_head-lines_example :
    (occurrences 10 (mail_head (codes "a@b.cl") (codes "c@d.cl") injected) ≡ 6)
    × (occurrences 13 (mail_head (codes "a@b.cl") (codes "c@d.cl") injected) ≡ 6)
mail_head-lines_example = mail_head-lines (codes "a@b.cl") (codes "c@d.cl") injected

text_to_html_example :
    text_to_html (codes "a < b & c")
    ≡ codes "<p>" ++ escape_each (codes "a < b & c") ++ codes "</p>"
text_to_html_example = text_to_html_lem (codes "a < b & c")

abbrev parse : Parser
parse token key = some (claims_of 0 false provider)

abbrev inbox : Route
inbox = route "GET" "/api/panel/quotes" provider_only "Quote.List"

abbrev listing : Request
listing = record {
  method = "GET";
  client_ip = "1.2.3.4";
  authorization = codes "Bearer t";
  request_id = [];
  time = 0;
  random_hex = codes "00";
}

inbox_route : Memᴰ inbox routes
unfolding routes
inbox_route = Memᴰ.tail (
    Memᴰ.tail (
      Memᴰ.tail (
        Memᴰ.tail (
          Memᴰ.tail (
            Memᴰ.tail (
              Memᴰ.tail (
                Memᴰ.tail (
                  Memᴰ.tail (
                    Memᴰ.tail (
                      Memᴰ.tail (
                        Memᴰ.tail (
                          Memᴰ.tail (Memᴰ.tail (Memᴰ.tail (Memᴰ.tail (Memᴰ.head refl))))))))))))))))

abbrev arrived : Passage
arrived = record {
  headers =
      ("X-Request-ID", codes "00")
      ∷ ("Access-Control-Allow-Origin", codes "http://o")
      ∷ ("Access-Control-Allow-Methods", codes "GET, POST, PUT, PATCH, DELETE, OPTIONS")
      ∷ ("Access-Control-Allow-Headers", codes "Origin, Content-Type, Authorization")
      ∷ ("Access-Control-Allow-Credentials", codes "true")
      ∷ ("X-Content-Type-Options", codes "nosniff")
      ∷ ("X-Frame-Options", codes "DENY")
      ∷ ("Referrer-Policy", codes "strict-origin-when-cross-origin")
      ∷ [];
  body_max = some 26214400;
  session = some (record { user_id = "u1"; role = "provider"; company_id = some "c1" });
}

inbox_reached :
    (serve parse "s" (codes "http://o") inbox listing initial_limiters).0 ≡ passed arrived
unfolding serve global_middleware request_id cors security limit_body run_guards run_guard auth
    check_header check_claims check_user check_role check_password_change claims_of after_prefix
    contains password_change_exempt_routes
inbox_reached = refl

serve-HasSession_example : HasSession parse "s" "/api/panel/quotes" listing "provider" arrived
serve-HasSession_example =
    serve-HasSession parse "s" (codes "http://o") listing initial_limiters {route = inbox}
      inbox_route refl inbox_reached
