-- ===== src/Gallery.antt =====
-- internal/handler/media.go: what the uploads of a company share.
pub mod Uploads
pub mod Panel
pub mod Limits
pub mod Documents
use proindustrial_backend.Common.{
  Bool, List, Option, String, [], false, if◌then◌else◌, inl, inr, ltb, nat_eq, none, some,
  string_eq, text_eq, true, ℕ, ◌*◌, ◌++◌, ◌/◌, ◌==◌, ◌^◌, ◌∷◌, ◌⊎◌,
}
use proindustrial_backend.Common.Text.{Text, codes}
use proindustrial_backend.Database.{Error, Result, World, err, not_found, ok}
use proindustrial_backend.Http.{Handler, Reply, answer, refuse, respond}
use proindustrial_backend.RateLimit.{store}
use proindustrial_backend.Slug.{decimal}
use proindustrial_backend.Storage.{Provider, StorageError, Upload}

abbrev pub max_image_size : ℕ
max_image_size = 5 * 2 ^ 20

abbrev pub max_doc_size : ℕ
max_doc_size = 10 * 2 ^ 20

abbrev pub max_images : ℕ
max_images = 8

abbrev pub Mimes : Type 0
Mimes = List (Text × Text)

abbrev pub allowed_image_mimes : Mimes
allowed_image_mimes =
    (codes "image/jpeg", codes ".jpg")
    ∷ (codes "image/png", codes ".png")
    ∷ (codes "image/webp", codes ".webp")
    ∷ []

abbrev pub allowed_doc_mimes : Mimes
allowed_doc_mimes =
    (codes "application/pdf", codes ".pdf")
    ∷ (codes "image/jpeg", codes ".jpg")
    ∷ (codes "image/png", codes ".png")
    ∷ []

unfoldable pub extension : Mimes → Text → Option Text
extension [] mime = none
extension ((m, ext) ∷ mimes) mime = if mime == m then some ext else extension mimes mime

-- `strings.Split(s, ";")[0]`
unfoldable pub before_semicolon : Text → Text
before_semicolon [] = []
before_semicolon (c ∷ s) = if c == b';' then [] else c ∷ before_semicolon s

-- What a request brings: the file of the form, where there is one, and the identifier that is drawn.
pub record UploadRequest : Type 0 where
  pub file : Option Upload
  pub uuid : Text

-- The names of the types that are allowed, which Go's map lists in an order of its own.
abbrev pub Listed : Type 0
Listed = Mimes → Text

abbrev pub too_large : ℕ → Text
too_large max = codes "el archivo supera el límite de " ++ decimal (max / 2 ^ 20) ++ codes "MB"

abbrev pub bad_type : Listed → Mimes → Text → Text
bad_type listed allowed mime =
    codes "tipo de archivo no permitido (" ++ mime ++ codes "). Permitidos: " ++ listed allowed

-- `companies/%s/%s/%s%s`
abbrev pub storage_key : String → Text → Text → Text → Text
storage_key company subfolder uuid ext =
    codes "companies/" ++ codes company ++ codes "/" ++ subfolder ++ codes "/" ++ uuid ++ ext

module _ {S : Type 0} (store : Provider S) (listed : Listed) where
  abbrev pub after_store : (StorageError ⊎ Text) × S → (Text ⊎ Text) × S
  after_store (inl e, s) = (inl (codes "error al guardar el archivo"), s)
  after_store (inr url, s) = (inr url, s)

  abbrev pub store_as :
      String → Text → Text → Mimes → Upload → Text → Option Text → S → (Text ⊎ Text) × S
  store_as company subfolder uuid allowed file mime none s = (inl (bad_type listed allowed mime), s)
  store_as company subfolder uuid allowed file mime (some ext) s = after_store (
      store.upload (storage_key company subfolder uuid ext) (record file { content_type = mime }) s)

  -- `uploadFile`: the message of the error, or the URL.
  unfoldable pub upload_file :
      String → Text → Mimes → ℕ → Text → Option Upload → S → (Text ⊎ Text) × S
  upload_file company subfolder allowed max uuid none s = (inl (codes "archivo requerido"), s)
  upload_file company subfolder allowed max uuid (some file) s =
      if ltb max file.size
      then (inl (too_large max), s)
      else (let mime = before_semicolon file.content_type in
          store_as company subfolder uuid allowed file mime (extension allowed mime) s)

-- A handler that stores a file answers over the state of the storage too.
abbrev pub Uploading : Type 0 → Type 0 → Type 0
Uploading S A = World → S → (Reply A × World) × S

-- `if err != nil { … 400 … }`, then the rest with the URL.
abbrev pub stored :
    {S A : Type 0} → (Text → Handler A) → World → (Text ⊎ Text) × S → (Reply A × World) × S
stored k w (inl message, s) = ((refuse 400 message, w), s)
stored k w (inr url, s) = (k url w, s)

abbrev pub plain_error : {A : Type 0} → Reply A
plain_error = refuse 500 (codes "error interno")

abbrev pub is_not_found : Error → Bool
is_not_found not_found = true
is_not_found e = false

-- A missing row and another error are answered apart.
abbrev pub created_or : {A : Type 0} → Text → Result A → Handler A
created_or message (ok a) = respond (answer 201 a)
created_or message (err e) = respond (if is_not_found e then refuse 404 message else plain_error)
