-- ===== src/Gallery/Documents.antt =====
-- What the upload of a document does to a certification (internal/handler/media.go).
use proindustrial_backend.Common.{
  Option-cases, ap, refl, ◌∙◌, ◌⊎◌, arith, find, map_if, inl, inr, string_eq, nat_eq, text_eq,
  String, [], none, some, ℕ, ◌≡◌,
}
use proindustrial_backend.Common.Text.{Text, codes}
use proindustrial_backend.Admin.{nullable_str}
use proindustrial_backend.Database.{Db, Driver, World, ok, statement}
use proindustrial_backend.Media.Certifications.{
  owned_certification, update_certification, update_certification_row, set_certification,
}
use proindustrial_backend.Database.Laws.{Result-cases}
use proindustrial_backend.Gallery.{
  Listed, UploadRequest, allowed_doc_mimes, max_doc_size, stored, upload_file,
}
use proindustrial_backend.Gallery.Limits.{Stored, upload_file-Stored}
use proindustrial_backend.Http.{Handler, answer, call}
use proindustrial_backend.Quotes.Inbox.{data_or}
use proindustrial_backend.Storage.{Paths, Provider}
use proindustrial_backend.Gallery.Uploads.{
  no_certification, only_document, upload_certification_doc,
}
use proindustrial_backend.Model.{CompanyCertification}

-- The row that was found, and what is left of it.
pub record Overwritten (company id : String) (url : Text) (before : Db)
    (cert : CompanyCertification) (after : Db) : Type 0 where
  pub old : CompanyCertification
  pub found : find (owned_certification id company) before.certifications ≡ some old
  pub written : cert ≡ record old {
    name = [];
    issuer = none;
    document_url = nullable_str url;
    issued_at = none;
    expires_at = none;
  }
  pub rows : after ≡ record before {
    certifications =
        map_if
          (owned_certification id company)
          (set_certification (only_document url) none none)
          before.certifications;
  }

update_only_document :
    (d : Driver) (company id : String) (url : Text) (w : World) {cert : CompanyCertification}
    → (update_certification d id company (only_document url) w).0 ≡ ok cert
    → Overwritten company id url w.db cert
        (update_certification d id company (only_document url) w).1.db
unfolding update_certification statement update_certification_row
update_only_document d company id url w h =
    elim (Option-cases (find (owned_certification id company) w.db.certifications)) [
      | inl lost ↦ absurd (ground (arith, lost))
      | inr (old, e) ↦ record {
        old = old;
        found = e;
        written = ground (arith, e);
        rows = ground (arith, e);
      }
    ]

module _ {S : Type 0} (d : Driver) (store : Provider S) (listed : Listed) (paths : Paths) where
  abbrev send_document : String → String → Text → Handler CompanyCertification
  send_document company id url =
      call (update_certification d id company (only_document url)) (data_or no_certification)

  -- The answer is the row that the URL of the file has overwritten.
  pub record DocumentKept (company id : String) (up : UploadRequest) (w : World) (s : S)
      (cert : CompanyCertification) (after : Db) (s' : S) : Type 0 where
    pub url : Text
    pub stored :
        Stored store listed company
          (paths.join (codes "certs") (codes id))
          allowed_doc_mimes
          max_doc_size
          up.uuid
          up.file
          s
          url
          s'
    pub row : Overwritten company id url w.db cert after

  write-Kept :
      (company id : String) (up : UploadRequest) (w : World) (s : S) (url : Text) (s' : S)
      (cert : CompanyCertification) (code : ℕ)
      → Stored store listed company
          (paths.join (codes "certs") (codes id))
          allowed_doc_mimes
          max_doc_size
          up.uuid
          up.file
          s
          url
          s'
      → (send_document company id url w).0 ≡ answer code cert
      → DocumentKept company id up w s cert (send_document company id url w).1.db s'
  unfolding call
  write-Kept company id up w s url s' cert code put h =
      elim (Result-cases (update_certification d id company (only_document url) w).0) [
        | inl (made, e) ↦
            let same : made ≡ cert = cc (rw e at h) in
            rw e (record {
              url = url;
              stored = put;
              row = update_only_document d company id url w (e ∙ ap ok same);
            })
        | inr (x, e) ↦ absurd (cc (rw e at h))
      ]

  stored-Kept :
      (company id : String) (up : UploadRequest) (w : World) (s : S) (cert : CompanyCertification)
      (code : ℕ) (p : (Text ⊎ Text) × S)
      → upload_file store listed company
          (paths.join (codes "certs") (codes id))
          allowed_doc_mimes
          max_doc_size
          up.uuid
          up.file
          s
        ≡ p
      → (stored (send_document company id) w p).0.0 ≡ answer code cert
      → DocumentKept company id up w s cert
          (stored (send_document company id) w p).0.1.db
          (stored (send_document company id) w p).1
  stored-Kept company id up w s cert code (inl message, s') e h = absurd (cc)
  stored-Kept company id up w s cert code (inr url, s') e h =
      write-Kept company id up w s url s' cert code
        (upload_file-Stored store listed company (paths.join (codes "certs") (codes id))
          allowed_doc_mimes max_doc_size up.uuid up.file s e)
        h

  -- An upload of a document that is answered with a certification has stored a file of an allowed
  -- type and size, and left the certification with its URL alone: the name is empty, and the issuer
  -- and both dates are gone.
  pub upload_certification_doc_ok :
      (company id : String) (up : UploadRequest) (w : World) (s : S) {code : ℕ}
      {cert : CompanyCertification}
      → (upload_certification_doc d store listed paths company id up w s).0.0 ≡ answer code cert
      → let (reply, s') = upload_certification_doc d store listed paths company id up w s in
        DocumentKept company id up w s cert reply.1.db s'
  unfolding upload_certification_doc
  upload_certification_doc_ok company id up w s {code} {cert} h =
      stored-Kept company id up w s cert code _ refl h
