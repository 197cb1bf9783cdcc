-- ===== src/Gallery/Limits.antt =====
-- What an upload has met, and what it leaves (internal/handler/media.go).
use proindustrial_backend.Common.{
  Bool-cases, Option, Option-cases, String, eq_self, subst, arith, inl, ltb, ltb-false, leb-false,
  inr, leb, length, nat_eq, string_eq, text_eq, ◌⊎◌, none, refl, some, true, ℕ, ◌+◌, ◌<◌, ◌∷◌, ◌≡◌,
  ◌≤◌,
}
use proindustrial_backend.Common.Text.{Text, codes}
use proindustrial_backend.Database.{Db, Driver, World, ok, statement}
use proindustrial_backend.Gallery.{
  created_or, is_not_found, stored, Listed, after_store, Mimes, UploadRequest, allowed_image_mimes,
  before_semicolon, extension, max_image_size, max_images, storage_key, upload_file,
}
use proindustrial_backend.Gallery.Uploads.{no_service, add_image, store_image, within_limit}
use proindustrial_backend.Database.Laws.{Result-cases, next, query_runs, statement_fails}
use proindustrial_backend.Http.{Reply, answer, call}
use proindustrial_backend.Media.{has_service}
use proindustrial_backend.Media.Images.{
  add_service_image, count_service_images, insert_image, owned_images,
}
use proindustrial_backend.Model.{ServiceImage}
use proindustrial_backend.Storage.{Paths, Provider, StorageError, Upload}

module _ {S : Type 0} (store : Provider S) (listed : Listed) where
  after_store_ok :
      {url : Text} {s' : S} (p : (StorageError ⊎ Text) × S)
      → after_store store listed p ≡ (inr url, s')
      → p ≡ (inr url, s')
  after_store_ok (inl e, s) h = absurd (cc)
  after_store_ok (inr u, s) h = ground arith

  -- What `uploadFile` has checked and done where it returns a URL.
  pub record Stored (company : String) (subfolder : Text) (allowed : Mimes) (max : ℕ) (uuid : Text)
      (file : Option Upload) (s : S) (url : Text) (s' : S) : Type 0 where
    pub found : Upload
    pub ext : Text
    pub given : file ≡ some found
    pub size : found.size ≤ max
    pub mime : extension allowed (before_semicolon found.content_type) ≡ some ext
    pub put :
        store.upload
          (storage_key company subfolder uuid ext)
          (record found { content_type = before_semicolon found.content_type })
          s
        ≡ (inr url, s')

  pub upload_file-Stored :
      (company : String) (subfolder : Text) (allowed : Mimes) (max : ℕ) (uuid : Text)
      (file : Option Upload) (s : S) {url : Text} {s' : S}
      → upload_file store listed company subfolder allowed max uuid file s ≡ (inr url, s')
      → Stored company subfolder allowed max uuid file s url s'
  unfolding upload_file
  upload_file-Stored company subfolder allowed max uuid none s h = absurd (cc)
  upload_file-Stored company subfolder allowed max uuid (some f) s h =
      elim (Bool-cases (ltb max f.size)) [
        | inl large ↦ absurd (cc (rw large at h))
        | inr small ↦ elim (Option-cases (extension allowed (before_semicolon f.content_type))) [
          | inl unknown ↦ absurd (cc (rw (small, unknown) at h))
          | inr (ext, known) ↦ record {
            found = f;
            ext = ext;
            given = refl;
            size = ltb-false max f.size small;
            mime = known;
            put = after_store_ok _ (rw (small, known) at h);
          }
        ]
      ]

-- The image that is added, and the tables that it is added to.
record Inserted (service company : String) (url : Text) (w : World) (img : ServiceImage)
    (after : Db) : Type 0 where
  mine : has_service service company w.db ≡ true
  service_id : img.service_id ≡ service
  url_is : img.url ≡ url
  row : after ≡ record w.db { service_images = img ∷ w.db.service_images }

add_service_image-Inserted :
    (d : Driver) (service company : String) (url : Text) (w : World) {img : ServiceImage}
    → (add_service_image d service company url w).0 ≡ ok img
    → Inserted service company url w img (add_service_image d service company url w).1.db
unfolding add_service_image statement insert_image
add_service_image-Inserted d service company url w h = ground arith

-- One image more is seen of the service, which was one of the company's.
length-Inserted :
    (service company : String) (url : Text) (w : World) (img : ServiceImage) (after : Db)
    → Inserted service company url w img after
    → length (owned_images service company after) ≡ length (owned_images service company w.db) + 1
length-Inserted service company url w img after h =
    rw (h.row, h.mine, h.service_id, eq_self service) (omega arith)

module _ {S : Type 0} (d : Driver) (store : Provider S) (listed : Listed) (paths : Paths) where
  pub record ImageAdded (company service : String) (up : UploadRequest) (w : World) (s : S)
      (img : ServiceImage) (after : Db) (s' : S) : Type 0 where
    pub room : length (owned_images service company w.db) < max_images
    pub stored :
        Stored store listed company
          (paths.join (codes "services") (codes service))
          allowed_image_mimes
          max_image_size
          up.uuid
          up.file
          s
          img.url
          s'
    pub mine : has_service service company w.db ≡ true
    pub row : after ≡ record w.db { service_images = img ∷ w.db.service_images }
    pub count :
        length (owned_images service company after) ≡ length (owned_images service company w.db) + 1

  module _ (company service : String) (up : UploadRequest) (w : World) (s : S)
      (room : length (owned_images service company w.db) < max_images) where
    -- The answer of a reply is an image that was added.
    abbrev Adds : ServiceImage → ℕ → (Reply ServiceImage × World) × S → Type 0
    Adds img code p = p.0.0 ≡ answer code img → ImageAdded company service up w s img p.0.1.db p.1

    abbrev folder : Text
    folder = paths.join (codes "services") (codes service)

    insert-Adds :
        (img : ServiceImage) (code : ℕ) (url : Text) (s' : S)
        → Stored store listed company folder allowed_image_mimes max_image_size up.uuid up.file s
            url s'
        → Adds img code
            (call (add_service_image d service company url) (created_or no_service) (next w), s')
    unfolding call
    insert-Adds img code url s' put h =
        elim (Result-cases (add_service_image d service company url (next w)).0) [
          | inl (made, e) ↦
              let done = add_service_image-Inserted d service company url (next w) e in
              let same : made ≡ img = cc (rw e at h) in
              rw e (
                subst
                  (λ i.
                    ImageAdded company service up w s i
                      (add_service_image d service company url (next w)).1.db s')
                  same
                  (record {
                    room = room;
                    stored = rw done.url_is put;
                    mine = done.mine;
                    row = done.row;
                    count = length-Inserted service company url (next w) made _ done;
                  }))
          | inr (x, e) ↦ elim (Bool-cases (is_not_found x)) [
            | inl missing ↦ absurd (cc (rw (e, missing) at h))
            | inr other ↦ absurd (cc (rw (e, other) at h))
          ]
        ]

    stored-Adds :
        (img : ServiceImage) (code : ℕ) (p : (Text ⊎ Text) × S)
        → upload_file store listed company folder allowed_image_mimes max_image_size up.uuid up.file
            s
          ≡ p
        → Adds img code (
            stored
              (λ url. call (add_service_image d service company url) (created_or no_service))
              (next w)
              p)
    stored-Adds img code (inl message, s') e h = absurd (cc)
    stored-Adds img code (inr url, s') e h =
        insert-Adds img code url s'
          (upload_file-Stored store listed company folder allowed_image_mimes max_image_size up.uuid
            up.file s e)
          h

  -- An image that is answered was added while the service had fewer than `maxImages` that are seen;
  -- its file was of an allowed type and size and is stored under a key of the company and the
  -- service, the service is the company's, the image is the one row that was added, and the service
  -- has one image more.
  pub add_image_ok :
      (company service : String) (up : UploadRequest) (w : World) (s : S) {code : ℕ}
      {img : ServiceImage}
      → (add_image d store listed paths company service up w s).0.0 ≡ answer code img
      → let (reply, s') = add_image d store listed paths company service up w s in
        ImageAdded company service up w s img reply.1.db s'
  unfolding add_image count_service_images within_limit store_image
  add_image_ok company service up w s {code} {img} h = elim (Bool-cases (d.fails w.tick)) [
    | inl fails ↦ absurd (
        cc (
          rw (statement_fails d (λ t db. ok (length (owned_images service company db), db)) w fails)
            at h))
    | inr runs ↦
        rw (query_runs d (λ db. length (owned_images service company db)) w runs)
          (elim (Bool-cases (leb max_images (length (owned_images service company w.db)))) [
            | inl full ↦ absurd (
                cc (
                  rw (query_runs d (λ db. length (owned_images service company db)) w runs, full) at
                    h))
            | inr room ↦ rw room (
                stored-Adds company service up w s (leb-false _ _ room) img code _ refl (
                  rw (query_runs d (λ db. length (owned_images service company db)) w runs, room) at
                    h))
          ])
  ]
