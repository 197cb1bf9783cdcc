-- ===== src/Media/Certifications.antt =====
-- internal/repository/media_repo.go: the certifications of a company.
use proindustrial_backend.Common.{
  Bool, List, Option, String, [], any, filter, find, if◌then◌else◌, leb, length, map_if, nat_eq,
  none, not, some, string_eq, text_eq, ℕ, ◌&&◌, ◌==◌, ◌∷◌,
}
use proindustrial_backend.Common.Text.{Text}
use proindustrial_backend.Admin.{nullable_str}
use proindustrial_backend.Database.{
  Action, Db, Driver, Error, Result, World, err, fits, foreign_key_violation, invalid_date,
  not_found, ok, query, statement, too_long, unique_violation,
}
use proindustrial_backend.Media.{deleted}
use proindustrial_backend.Model.{Company, CompanyCertification}
use proindustrial_backend.Tables.{sort_desc}

abbrev pub certified : String → CompanyCertification → Bool
certified company c = c.company_id == company

-- `ListCertifications`, and `GetPublicCertifications`, which sends the same query.
unfoldable pub list_certifications : Driver → String → Action (List CompanyCertification)
list_certifications d company = query d (λ db.
    sort_desc (λ (c : CompanyCertification). c.created_at)
      (filter (certified company) db.certifications))

pub record CertificationInput : Type 0 where
  pub name : Text
  pub issuer : Text
  pub document_url : Text
  pub issued_at : Text
  pub expires_at : Text

-- `NULLIF($n, '')::DATE`
abbrev pub nullable_date : Driver → Text → Result (Option Text)
nullable_date d [] = ok none
nullable_date d (c ∷ s) = elim (d.date (c ∷ s)) [ none ↦ err invalid_date | some t ↦ ok (some t) ]

-- The two dates, then what is done with them.
abbrev pub both_dates :
    {A : Type 0}
    → Result (Option Text)
    → Result (Option Text)
    → (Option Text → Option Text → Result A)
    → Result A
both_dates (ok a) (ok b) k = k a b
both_dates (ok a) (err e) k = err e
both_dates (err e) r k = err e

abbrev pub with_dates :
    {A : Type 0} → Driver → CertificationInput → (Option Text → Option Text → Result A) → Result A
with_dates d input k =
    both_dates (nullable_date d input.issued_at) (nullable_date d input.expires_at) k

abbrev pub certification_fits : CompanyCertification → Bool
certification_fits c = leb (length c.name) 200 && fits 200 c.issuer

unfoldable pub insert_certification : CompanyCertification → Db → Result (CompanyCertification × Db)
insert_certification c db =
    if certification_fits c
    then if any (λ (x : CompanyCertification). x.id == c.id) db.certifications
      then err unique_violation
      else if any (λ (x : Company). x.id == c.company_id) db.companies
      then ok (c, record db { certifications = c ∷ db.certifications })
      else err foreign_key_violation
    else err too_long

abbrev pub certification_row :
    Driver → ℕ → String → CertificationInput → Option Text → Option Text → CompanyCertification
certification_row d t company input issued expires = record {
  id = d.uuid t;
  company_id = company;
  name = input.name;
  issuer = nullable_str input.issuer;
  document_url = nullable_str input.document_url;
  issued_at = issued;
  expires_at = expires;
  created_at = d.now t;
}

-- `CreateCertification`
unfoldable pub create_certification :
    Driver → String → CertificationInput → Action CompanyCertification
create_certification d company input = statement d (λ t db.
    with_dates d input (λ a b. insert_certification (certification_row d t company input a b) db))

abbrev pub set_certification :
    CertificationInput → Option Text → Option Text → CompanyCertification → CompanyCertification
set_certification input issued expires c = record c {
  name = input.name;
  issuer = nullable_str input.issuer;
  document_url = nullable_str input.document_url;
  issued_at = issued;
  expires_at = expires;
}

abbrev pub owned_certification : String → String → CompanyCertification → Bool
owned_certification id company c = c.id == id && certified company c

-- `UPDATE company_certifications SET … WHERE … RETURNING *`
unfoldable pub update_certification_row :
    (CompanyCertification → Bool)
    → (CompanyCertification → CompanyCertification)
    → Db
    → Result (CompanyCertification × Db)
update_certification_row test set db = elim (find test db.certifications) [
  | none ↦ err Error.no_rows
  | some c ↦
      if certification_fits (set c)
      then ok (set c, record db { certifications = map_if test set db.certifications })
      else err too_long
]

-- Any error of a statement is answered as a missing row.
abbrev pub missed : {A : Type 0} → Result A × World → Result A × World
missed (ok a, w) = (ok a, w)
missed (err e, w) = (err not_found, w)

abbrev pub or_not_found : {A : Type 0} → Action A → Action A
or_not_found m w = missed (m w)

-- `UpdateCertification`
unfoldable pub update_certification :
    Driver → String → String → CertificationInput → Action CompanyCertification
update_certification d id company input = or_not_found (
    statement d (λ t db. with_dates d input (λ a b.
      update_certification_row (owned_certification id company) (set_certification input a b) db)))

unfoldable pub delete_certification_row : String → String → Db → Result (Unit {0} × Db)
delete_certification_row id company db =
    deleted (any (owned_certification id company) db.certifications) (record db {
      certifications = filter (λ c. not (owned_certification id company c)) db.certifications;
    })

-- `DeleteCertification`
unfoldable pub delete_certification : Driver → String → String → Action (Unit {0})
delete_certification d id company = statement d (λ t. delete_certification_row id company)
