-- ===== src/Isolation/Projects.antt =====
-- What a statement on the projects of one company, and on their images, does to what another has
-- (internal/repository/media_repo.go).
use proindustrial_backend.Common.{
  HasKey-filter, HasKey-map_if, List, String, and_true, any, ap, beq_of_ne, bne_unless, false,
  filter, filter-filter, filter-map_if, filter-miss, find, map_if, nat_eq, not, refl, string_eq,
  text_eq, true, ◌!=◌, ◌&&◌, ◌==◌, ◌∙◌, ◌∷◌, ◌≡◌, ◌≢◌,
}
use proindustrial_backend.Companies.{int4_fits}
use proindustrial_backend.Database.{
  Db, Error, foreign_key_violation, not_found, ok, out_of_range, too_long, unique_violation,
}
use proindustrial_backend.Database.Keeps.{Leaves, Leaves-found, Leaves-guard, Leaves-unless}
use proindustrial_backend.Isolation.{IsKeyed}
use proindustrial_backend.Isolation.Changes.{
  Isolated, Leaves-deleted, id-apart, not_owned, projects-Isolated,
}
use proindustrial_backend.Isolation.Owned.{has-map_if, has_apart, seen-cons, seen-drop}
use proindustrial_backend.Media.{has_project, owned_project}
use proindustrial_backend.Media.Projects.{
  ProjectInput, delete_picture_row, delete_project_row, insert_picture, insert_project, made_by,
  project_fits, removed_picture, set_project, update_project_row,
}
use proindustrial_backend.Model.{Company, CompanyProject, ProjectImage, is_int4}

abbrev project_key : CompanyProject → String
project_key p = p.id

abbrev project_owner : CompanyProject → String
project_owner p = p.company_id

abbrev image_project : ProjectImage → String
image_project i = i.project_id

module _ (c other : String) (apart : c ≢ other) where
  hidden :
      (id : String) (db : Db)
      → IsKeyed db
      → has_project id c db ≡ true
      → has_project id other db ≡ false
  hidden id db keyed =
      has_apart project_key project_owner image_project c other apart id db.projects keyed.projects

  made_by-apart : (p : CompanyProject) → made_by c p ≡ true → made_by other p ≡ false
  made_by-apart p = id-apart c other apart p.company_id

  -- A change of the images alone.
  pictures-Isolated :
      {A : Type 0} {a : A} (db : Db) (is : List ProjectImage)
      → (IsKeyed db
          → filter (λ (i : ProjectImage). has_project i.project_id other db) is
            ≡ filter (λ (i : ProjectImage). has_project i.project_id other db) db.project_images)
      → Leaves (Isolated other db) (ok (a, record db { project_images = is }))
  pictures-Isolated db is h =
      projects-Isolated other db db.projects is (λ keyed. keyed.projects) refl h

  pub insert_project-Isolated :
      (p : CompanyProject) (db : Db)
      → p.company_id ≡ c
      → Leaves (Isolated other db) (insert_project p db)
  unfolding insert_project
  insert_project-Isolated p db e =
      Leaves-guard (int4_fits p.year && is_int4 p.sort_order) out_of_range λ int.
        Leaves-guard (project_fits p) too_long λ fit.
          Leaves-unless (any (λ (x : CompanyProject). x.id == p.id) db.projects) unique_violation
            λ new.
              Leaves-guard (any (λ (x : Company). x.id == p.company_id) db.companies)
                foreign_key_violation
                λ found.
                  projects-Isolated other db (p ∷ db.projects) db.project_images
                    (λ keyed. (new, keyed.projects))
                    (filter-miss (made_by other) p db.projects (rw e (beq_of_ne c other apart)))
                    (λ keyed.
                      seen-cons project_key project_owner image_project c other apart p db.projects
                        db.project_images e)

  pub update_project-Isolated :
      (id : String) (input : ProjectInput) (db : Db)
      → Leaves (Isolated other db) (update_project_row id c input db)
  unfolding update_project_row
  update_project-Isolated id input db = Leaves-guard (int4_fits input.year) out_of_range λ int.
      Leaves-found (find (owned_project id c) db.projects) Error.no_rows λ p.
        Leaves-guard (project_fits (set_project input p)) too_long λ fit.
          projects-Isolated other db {a = set_project input p}
            (map_if (owned_project id c) (set_project input) db.projects) db.project_images
            (λ keyed.
              HasKey-map_if project_key (owned_project id c) (set_project input) (λ x. refl)
                db.projects keyed.projects)
            (filter-map_if (made_by other) (owned_project id c) (set_project input)
              (λ x hit. made_by-apart x (and_true (x.id == id) (made_by c x) hit).1)
              (λ x hit. made_by-apart x (and_true (x.id == id) (made_by c x) hit).1) db.projects)
            (λ keyed k.
              filter
                (λ (i : ProjectImage).
                  has-map_if project_key project_owner image_project (owned_project id c)
                    (set_project input) i.project_id other db.projects (λ x. refl) (λ x. refl) k)
                db.project_images)

  pub delete_project-Isolated :
      (id : String) (db : Db) → Leaves (Isolated other db) (delete_project_row id c db)
  unfolding delete_project_row
  delete_project-Isolated id db = Leaves-guard (has_project id c db) not_found λ mine.
      projects-Isolated other db (filter (λ p. not (owned_project id c p)) db.projects)
        (filter (λ (i : ProjectImage). i.project_id != id) db.project_images)
        (λ keyed.
          HasKey-filter project_key (λ p. not (owned_project id c p)) db.projects keyed.projects)
        (filter-filter (made_by other) (λ p. not (owned_project id c p)) (theirs_stay id)
          db.projects)
        (λ keyed.
          seen-drop project_key project_owner image_project c other apart
            (λ p. not (owned_project id c p)) db.projects
            (filter (λ (i : ProjectImage). i.project_id != id) db.project_images) (theirs_stay id)
          ∙ filter-filter (λ (i : ProjectImage). has_project i.project_id other db)
              (λ (i : ProjectImage). i.project_id != id)
              (λ i seen. bne_unless i.project_id id (λ e.
                absurd (cc (seen, ap (λ x. has_project x other db) e, hidden id db keyed mine))))
              db.project_images)
    where
      theirs_stay :
          (id : String) (p : CompanyProject)
          → made_by other p ≡ true
          → not (owned_project id c p) ≡ true
      theirs_stay id p theirs =
          not_owned (owned_project id c p) (made_by other p) theirs
            (λ hit. made_by-apart p (and_true (p.id == id) (made_by c p) hit).1)

  pub insert_picture-Isolated :
      (i : ProjectImage) (db : Db)
      → has_project i.project_id c db ≡ true
      → Leaves (Isolated other db) (insert_picture i db)
  unfolding insert_picture
  insert_picture-Isolated i db mine = Leaves-guard (is_int4 i.sort_order) out_of_range λ int.
      Leaves-unless (any (λ (x : ProjectImage). x.id == i.id) db.project_images) unique_violation
        λ new.
          Leaves-guard (any (λ (p : CompanyProject). p.id == i.project_id) db.projects)
            foreign_key_violation
            λ found. pictures-Isolated db (i ∷ db.project_images) (λ keyed.
              filter-miss (λ (x : ProjectImage). has_project x.project_id other db) i
                db.project_images (hidden i.project_id db keyed mine))

  pub delete_picture-Isolated :
      (id : String) (db : Db) → Leaves (Isolated other db) (delete_picture_row id c db)
  unfolding delete_picture_row
  delete_picture-Isolated id db = Leaves-deleted (any (removed_picture id c db) db.project_images) (
      pictures-Isolated db _ (λ keyed.
        filter-filter (λ (i : ProjectImage). has_project i.project_id other db)
          (λ i. not (removed_picture id c db i))
          (λ i theirs.
            not_owned (removed_picture id c db i) (has_project i.project_id other db) theirs (λ hit.
              hidden i.project_id db keyed
                (and_true (i.id == id) (has_project i.project_id c db) hit).1))
          db.project_images))
