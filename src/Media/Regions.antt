-- ===== src/Media/Regions.antt =====
-- internal/repository/media_repo.go: the regions that a company serves.
pub mod Coverage
use mathlib.Core.List.{map}
use proindustrial_backend.Common.{
  Bool, List, String, [], any, filter, if◌then◌else◌, leb, length, nat_eq, not, string_eq, text_eq,
  ◌&&◌, ◌==◌, ◌∷◌,
}
use proindustrial_backend.Common.Text.{Text}
use proindustrial_backend.Category.{regions}
use proindustrial_backend.Database.{
  Action, Db, Driver, Result, err, foreign_key_violation, ok, pure, query, statement, too_long,
  transaction, ◌>>◌,
}
use proindustrial_backend.Model.{Company}
use proindustrial_backend.Tables.{sort_by}

abbrev pub serves : String → String × Text → Bool
serves company (c, region) = c == company

-- `ORDER BY region ASC` is the collation of PostgreSQL, a parameter.
unfoldable pub get_service_regions : Driver → (Text → Text → Bool) → String → Action (List Text)
get_service_regions d before company = query d (λ db.
    sort_by before (map (λ (r : String × Text). r.1) (filter (serves company) db.service_regions)))

unfoldable pub delete_regions : String → Db → Db
delete_regions company db = record db {
  service_regions = filter (λ r. not (serves company r)) db.service_regions;
}

abbrev pub same_region : String → Text → String × Text → Bool
same_region company region (c, r) = c == company && r == region

-- `INSERT … ON CONFLICT DO NOTHING`
unfoldable pub insert_region : String → Text → Db → Result (Unit {0} × Db)
insert_region company region db =
    if leb (length region) 100
    then if any (same_region company region) db.service_regions
      then ok (tt, db)
      else if any (λ (c : Company). c.id == company) db.companies
      then ok (tt, record db { service_regions = (company, region) ∷ db.service_regions })
      else err foreign_key_violation
    else err too_long

-- The loop, which passes over an empty region.
unfoldable pub insert_regions : Driver → String → List Text → Action (Unit {0})
insert_regions d company [] = pure tt
insert_regions d company ([] ∷ regions) = insert_regions d company regions
insert_regions d company ((c ∷ s) ∷ regions) =
    statement d (λ t. insert_region company (c ∷ s)) >> insert_regions d company regions

-- `SetServiceRegions`
unfoldable pub set_service_regions : Driver → String → List Text → Action (Unit {0})
set_service_regions d company regions =
    transaction d
      (statement d (λ t db. ok (tt, delete_regions company db)) >> insert_regions d company regions)
