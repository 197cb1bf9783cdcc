-- ===== src/Media.antt =====
-- internal/repository/media_repo.go: the logo and the cover of a company, and what its images, its
-- certifications, its projects and its regions share.
pub mod Images
pub mod Certifications
pub mod Projects
pub mod Regions
use proindustrial_backend.Common.{
  Bool, List, String, [], any, false, if◌then◌else◌, map_if, nat_eq, some, string_eq, text_eq, true,
  ℕ, ◌&&◌, ◌==◌, ◌∷◌,
}
use proindustrial_backend.Common.Text.{Text}
use proindustrial_backend.Database.{
  Action, Db, Driver, Result, World, err, not_found, ok, statement,
}
use proindustrial_backend.Model.{Company, CompanyProject, leb_int, pos, suc_int, ℤ}
use proindustrial_backend.Services.{owned_service}

-- `MAX(sort_order)`
abbrev pub max_int : ℤ → ℤ → ℤ
max_int a b = if leb_int a b then b else a

abbrev pub max_order : ℤ → List ℤ → ℤ
max_order a [] = a
max_order a (b ∷ l) = max_int a (max_order b l)

-- `COALESCE(MAX(sort_order)+1, 0)`
unfoldable pub next_order : List ℤ → ℤ
next_order [] = pos 0
next_order (a ∷ l) = suc_int (max_order a l)

-- `id=$1 AND company_id=$2`, as a test of a table's rows.
abbrev pub has_service : String → String → Db → Bool
has_service id company db = any (owned_service id company) db.services

abbrev pub owned_project : String → String → CompanyProject → Bool
owned_project id company p = p.id == id && p.company_id == company

abbrev pub has_project : String → String → Db → Bool
has_project id company db = any (owned_project id company) db.projects

-- `RowsAffected` of a deletion: no row is an error of the code's own.
abbrev pub deleted : Bool → Db → Result (Unit {0} × Db)
deleted true db = ok (tt, db)
deleted false db = err not_found

-- `if err != nil || !exists { return nil, ErrNotFound }`
abbrev pub if_exists : {A : Type 0} → Action A → Result Bool × World → Result A × World
if_exists k (ok true, w) = k w
if_exists k (ok false, w) = (err not_found, w)
if_exists k (err e, w) = (err not_found, w)

abbrev pub check_exists : {A : Type 0} → Action Bool → Action A → Action A
check_exists test k w = if_exists k (test w)

abbrev pub logo_company : ℕ → Text → Company → Company
logo_company now url c = record c { logo_url = some url; updated_at = now }

abbrev pub cover_company : ℕ → Text → Company → Company
cover_company now url c = record c { cover_url = some url; updated_at = now }

-- `UPDATE companies SET … WHERE id=$2`
abbrev pub set_company : String → (Company → Company) → Db → Db
set_company id set db = record db {
  companies = map_if (λ (c : Company). c.id == id) set db.companies;
}

-- `UpdateLogo`
unfoldable pub update_logo : Driver → String → Text → Action (Unit {0})
update_logo d company url =
    statement d (λ t db. ok (tt, set_company company (logo_company (d.now t) url) db))

-- `UpdateCover`
unfoldable pub update_cover : Driver → String → Text → Action (Unit {0})
update_cover d company url =
    statement d (λ t db. ok (tt, set_company company (cover_company (d.now t) url) db))
