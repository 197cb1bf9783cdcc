-- ===== src/Media/Projects.antt =====
-- internal/repository/media_repo.go: the projects of a company, and their images.
use mathlib.Core.List.{map}
use proindustrial_backend.Common.{
  Bool, List, Option, String, [], any, filter, find, if◌then◌else◌, leb, length, map_if, nat_eq,
  none, not, some, string_eq, text_eq, ℕ, ◌!=◌, ◌&&◌, ◌==◌, ◌||◌, ◌∷◌,
}
use proindustrial_backend.Common.Text.{Text}
use proindustrial_backend.Admin.{nullable_str}
use proindustrial_backend.Companies.{int4_fits}
use proindustrial_backend.Database.{
  Action, Db, Driver, Error, Result, World, err, fits, foreign_key_violation, not_found, ok,
  out_of_range, pure, query, statement, too_long, unique_violation, ◌>>=◌,
}
use proindustrial_backend.Media.{check_exists, deleted, has_project, next_order, owned_project}
use proindustrial_backend.Media.Certifications.{or_not_found}
use proindustrial_backend.Model.{Company, CompanyProject, ProjectImage, is_int4, leb_int, ℤ}
use proindustrial_backend.Tables.{sort_by}

-- A project with its `Images`.
abbrev pub Pictured : Type 0
Pictured = CompanyProject × List ProjectImage

abbrev pub made_by : String → CompanyProject → Bool
made_by company p = p.company_id == company

-- `ORDER BY sort_order ASC, created_at DESC`
abbrev pub project_before : CompanyProject → CompanyProject → Bool
project_before a b =
    leb_int a.sort_order b.sort_order
    && (not (leb_int b.sort_order a.sort_order) || leb b.created_at a.created_at)

abbrev pub picture_of : String → ProjectImage → Bool
picture_of project i = i.project_id == project

abbrev pub pictures : Driver → String → Action (List ProjectImage)
pictures d project = query d (λ db.
    sort_by (λ (a b : ProjectImage). leb_int a.sort_order b.sort_order)
      (filter (picture_of project) db.project_images))

-- The error of the query for the images is ignored.
abbrev pub found_pictures : Result (List ProjectImage) → List ProjectImage
found_pictures (ok l) = l
found_pictures (err e) = []

unfoldable pub attach_pictures : Driver → List CompanyProject → World → List Pictured × World
attach_pictures d [] w = ([], w)
attach_pictures d (p ∷ ps) w =
    let (r, w1) = pictures d p.id w in
    let (rest, w2) = attach_pictures d ps w1 in ((p, found_pictures r) ∷ rest, w2)

abbrev pub attached : List Pictured × World → Result (List Pictured) × World
attached (l, w) = (ok l, w)

-- `ListProjects`, and `GetPublicProjects`, which calls it.
unfoldable pub list_projects : Driver → String → Action (List Pictured)
list_projects d company =
    query d (λ db. sort_by project_before (filter (made_by company) db.projects)) >>= λ ps w.
    attached (attach_pictures d ps w)

pub record ProjectInput : Type 0 where
  pub title : Text
  pub description : Text
  pub client_name : Text
  pub year : Option ℤ

abbrev pub project_orders : String → Db → List ℤ
project_orders company db =
    map (λ (p : CompanyProject). p.sort_order) (filter (made_by company) db.projects)

abbrev pub project_row : Driver → ℕ → String → ProjectInput → Db → CompanyProject
project_row d t company input db = record {
  id = d.uuid t;
  company_id = company;
  title = input.title;
  description = nullable_str input.description;
  client_name = nullable_str input.client_name;
  year = input.year;
  cover_url = none;
  sort_order = next_order (project_orders company db);
  created_at = d.now t;
}

abbrev pub project_fits : CompanyProject → Bool
project_fits p = leb (length p.title) 300 && fits 200 p.client_name

unfoldable pub insert_project : CompanyProject → Db → Result (CompanyProject × Db)
insert_project p db =
    if int4_fits p.year && is_int4 p.sort_order
    then if project_fits p
      then if any (λ (x : CompanyProject). x.id == p.id) db.projects
        then err unique_violation
        else if any (λ (x : Company). x.id == p.company_id) db.companies
        then ok (p, record db { projects = p ∷ db.projects })
        else err foreign_key_violation
      else err too_long
    else err out_of_range

-- `CreateProject`
unfoldable pub create_project : Driver → String → ProjectInput → Action Pictured
create_project d company input =
    statement d (λ t db. insert_project (project_row d t company input db) db) >>= λ p. pure (p, [])

abbrev pub set_project : ProjectInput → CompanyProject → CompanyProject
set_project input p = record p {
  title = input.title;
  description = nullable_str input.description;
  client_name = nullable_str input.client_name;
  year = input.year;
}

-- `UPDATE company_projects SET … WHERE … RETURNING *`
unfoldable pub update_project_row :
    String → String → ProjectInput → Db → Result (CompanyProject × Db)
update_project_row id company input db =
    if int4_fits input.year
    then elim (find (owned_project id company) db.projects) [
      | none ↦ err Error.no_rows
      | some p ↦
          if project_fits (set_project input p)
          then ok (
            set_project input p,
            record db {
              projects = map_if (owned_project id company) (set_project input) db.projects;
            },
          )
          else err too_long
    ]
    else err out_of_range

abbrev pub with_pictures : Driver → CompanyProject → Action Pictured
with_pictures d p w = let (r, w') = pictures d p.id w in (ok (p, found_pictures r), w')

-- `UpdateProject`
unfoldable pub update_project : Driver → String → String → ProjectInput → Action Pictured
update_project d id company input =
    or_not_found (statement d (λ t. update_project_row id company input)) >>= with_pictures d

-- `ON DELETE CASCADE`: the images go with their project.
unfoldable pub delete_project_row : String → String → Db → Result (Unit {0} × Db)
delete_project_row id company db =
    if has_project id company db
    then ok (
      tt,
      record db {
        projects = filter (λ p. not (owned_project id company p)) db.projects;
        project_images = filter (λ (i : ProjectImage). i.project_id != id) db.project_images;
      },
    )
    else err not_found

-- `DeleteProject`
unfoldable pub delete_project : Driver → String → String → Action (Unit {0})
delete_project d id company = statement d (λ t. delete_project_row id company)

abbrev pub picture_orders : String → Db → List ℤ
picture_orders project db =
    map (λ (i : ProjectImage). i.sort_order) (filter (picture_of project) db.project_images)

abbrev pub picture_row : Driver → ℕ → String → Text → Db → ProjectImage
picture_row d t project url db = record {
  id = d.uuid t;
  project_id = project;
  url = url;
  alt_text = none;
  sort_order = next_order (picture_orders project db);
}

unfoldable pub insert_picture : ProjectImage → Db → Result (ProjectImage × Db)
insert_picture i db =
    if is_int4 i.sort_order
    then if any (λ (x : ProjectImage). x.id == i.id) db.project_images
      then err unique_violation
      else if any (λ (p : CompanyProject). p.id == i.project_id) db.projects
      then ok (i, record db { project_images = i ∷ db.project_images })
      else err foreign_key_violation
    else err out_of_range

-- `AddProjectImage`: a failed query leaves `exists` false.
unfoldable pub add_project_image : Driver → String → String → Text → Action ProjectImage
add_project_image d project company url =
    check_exists (query d (has_project project company))
      (statement d (λ t db. insert_picture (picture_row d t project url db) db))

abbrev pub removed_picture : String → String → Db → ProjectImage → Bool
removed_picture id company db i = i.id == id && has_project i.project_id company db

unfoldable pub delete_picture_row : String → String → Db → Result (Unit {0} × Db)
delete_picture_row id company db =
    deleted (any (removed_picture id company db) db.project_images) (record db {
      project_images = filter (λ i. not (removed_picture id company db i)) db.project_images;
    })

-- `DeleteProjectImage`
unfoldable pub delete_project_image : Driver → String → String → Action (Unit {0})
delete_project_image d id company = statement d (λ t. delete_picture_row id company)
