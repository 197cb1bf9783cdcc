-- ===== src/Isolation/Sessions.antt =====
-- The changes of one company, and any sequence of changes, as another company sees them.
use proindustrial_backend.Common.{
  All, Bool, Bool-cases, List, Option, String, [], false, inl, inr, refl, subst, sym, true, ℕ, ◌+◌,
  ◌∙◌, ◌∷◌, ◌≡◌, ◌≢◌,
}
use proindustrial_backend.Common.Text.{Text}
use proindustrial_backend.Category.{regions}
use proindustrial_backend.Companies.{update_company}
use proindustrial_backend.Database.{Action, Db, Driver, Result, World, err, ok, query, statement}
use proindustrial_backend.Database.Keeps.{
  Keeps, Keeps-bind, Keeps-query, Keeps-require, Keeps-statement, Keeps-statement_at,
  Keeps-transaction, Leaves, Leaves-err,
}
use proindustrial_backend.Database.Laws.{next, query_runs, statement_fails}
use proindustrial_backend.Examples.{same}
use proindustrial_backend.Isolation.{
  Change, IsKeyed, certification_added, certification_changed, certification_removed, cover_changed,
  image_added, image_removed, images_reordered, logo_changed, perform, perform_all, picture_added,
  picture_removed, profile_changed, project_added, project_changed, project_removed, quote_closed,
  quote_followed, quote_marked, quote_replied, quote_tagged, regions_set, service_added,
  service_changed, service_removed, view,
}
use proindustrial_backend.Isolation.Changes.{
  Isolated, Isolated-chain, Isolated-self, delete_certification-Isolated, delete_regions-Isolated,
  insert_certification-Isolated, insert_region-Isolated, set_company-Isolated,
  update_certification-Isolated, update_company-Isolated, update_quote-Isolated,
}
use proindustrial_backend.Isolation.Projects.{
  delete_picture-Isolated, delete_project-Isolated, insert_picture-Isolated,
  insert_project-Isolated, update_project-Isolated,
}
use proindustrial_backend.Isolation.Services.{
  delete_image-Isolated, delete_service-Isolated, insert_image-Isolated, insert_service-Isolated,
  order_image-Isolated, update_service-Isolated,
}
use proindustrial_backend.Login.{change}
use proindustrial_backend.Media.{
  check_exists, cover_company, has_project, has_service, if_exists, logo_company, update_cover,
  update_logo,
}
use proindustrial_backend.Media.Certifications.{
  both_dates, certification_row, create_certification, delete_certification, missed, nullable_date,
  or_not_found, set_certification, update_certification,
}
use proindustrial_backend.Media.Images.{
  ImageOrder, add_service_image, delete_service_image, image_row, order_images,
  reorder_service_images,
}
use proindustrial_backend.Media.Projects.{
  add_project_image, create_project, delete_project, delete_project_image, picture_row, project_row,
  update_project,
}
use proindustrial_backend.Media.Regions.{insert_regions, set_service_regions}
use proindustrial_backend.Model.{QuoteRequest}
use proindustrial_backend.Quotes.{
  closed_quote, followed_quote, owned_quote, replied_quote, set_follow_up, set_outcome, set_reply,
  set_tags, status_quote, tagged_quote, update_quote, update_status,
}
use proindustrial_backend.Quotes.States.{affected-Leaves}
use proindustrial_backend.Services.{create_service, delete_service, service_row, update_service}

module _ (d : Driver) (c other : String) (apart : c ≢ other) where
  abbrev Quiet : {A : Type 0} → Action A → Type 0
  Quiet = Keeps (Isolated other) (Isolated-self other) (Isolated-chain other)

  abbrev quiet_statement :
      {A : Type 0} (run : ℕ → Db → Result (A × Db))
      → ((t : ℕ) (db : Db) → Leaves (Isolated other db) (run t db))
      → Quiet (statement d run)
  quiet_statement = Keeps-statement (Isolated other) (Isolated-self other) (Isolated-chain other) d

  if_exists-Quiet :
      {A : Type 0} (k : Action A) (b : Bool) (w : World) (db : Db)
      → w.db ≡ db
      → (b ≡ true → Isolated other db (k w).1.db)
      → Isolated other db (if_exists k (ok b, w)).1.db
  if_exists-Quiet k true w db e h = h refl
  if_exists-Quiet k false w db e h = subst (Isolated other db) (sym e) (Isolated-self other db)

  -- What follows the check runs on the tables that the check has seen.
  check_exists-Quiet :
      {A : Type 0} (test : Db → Bool) (run : ℕ → Db → Result (A × Db))
      → ((t : ℕ) (db : Db) → test db ≡ true → Leaves (Isolated other db) (run t db))
      → Quiet (check_exists (query d test) (statement d run))
  check_exists-Quiet test run h w = elim (Bool-cases (d.fails w.tick)) [
    | inl fails ↦
        subst (λ p. Isolated other w.db (if_exists (statement d run) p).1.db)
          (sym (statement_fails d (λ t db. ok (test db, db)) w fails)) (Isolated-self other w.db)
    | inr runs ↦
        subst (λ p. Isolated other w.db (if_exists (statement d run) p).1.db)
          (sym (query_runs d test w runs))
          (if_exists-Quiet (statement d run) (test w.db) (next w) w.db refl (λ yes.
            Keeps-statement_at (Isolated other) (Isolated-self other) (Isolated-chain other) d run
              (next w) (h (w.tick + 1) w.db yes)))
  ]

  missed_db : {A : Type 0} (p : Result A × World) → (missed p).1.db ≡ p.1.db
  missed_db (ok a, w) = refl
  missed_db (err e, w) = refl

  or_not_found-Quiet : {A : Type 0} (m : Action A) → Quiet m → Quiet (or_not_found m)
  or_not_found-Quiet m h w = subst (Isolated other w.db) (sym (missed_db (m w))) (h w)

  both_dates-Leaves :
      {A : Type 0} {P : Db → Type 0} (r s : Result (Option Text))
      (k : Option Text → Option Text → Result (A × Db))
      → ((a b : Option Text) → Leaves P (k a b))
      → Leaves P (both_dates r s k)
  both_dates-Leaves (ok a) (ok b) k h = h a b
  both_dates-Leaves (ok a) (err e) k h = Leaves-err
  both_dates-Leaves (err e) s k h = Leaves-err

  order_images-Quiet :
      (service : String) (os : List ImageOrder) → Quiet (order_images d service c os)
  unfolding order_images
  order_images-Quiet service [] = λ w. Isolated-self other w.db
  order_images-Quiet service (o ∷ os) =
      Keeps-bind (Isolated other) (Isolated-self other) (Isolated-chain other) _ _
        (quiet_statement _ (λ t. order_image-Isolated c other apart service o))
        (λ u. order_images-Quiet service os)

  insert_regions-Quiet : (rs : List Text) → Quiet (insert_regions d c rs)
  unfolding insert_regions
  insert_regions-Quiet [] = λ w. Isolated-self other w.db
  insert_regions-Quiet ([] ∷ rs) = insert_regions-Quiet rs
  insert_regions-Quiet ((x ∷ s) ∷ rs) =
      Keeps-bind (Isolated other) (Isolated-self other) (Isolated-chain other) _ _
        (quiet_statement _ (λ t. insert_region-Isolated c other apart (x ∷ s)))
        (λ u. insert_regions-Quiet rs)

  quiet_quote :
      (id : String) (set : ℕ → QuoteRequest → QuoteRequest)
      → ((t : ℕ) (q : QuoteRequest) → (set t q).target_company_id ≡ q.target_company_id)
      → Quiet (statement d (λ t. update_quote (owned_quote id c) (set t)))
  quiet_quote id set h =
      quiet_statement _ (λ t db. update_quote-Isolated c other apart id (set t) db (h t))

  perform-Isolated : (change : Change) (w : World) → Isolated other w.db (perform d c change w).db
  unfolding perform update_company update_logo update_cover create_service update_service
      delete_service add_service_image delete_service_image reorder_service_images
      create_certification update_certification delete_certification create_project update_project
      delete_project add_project_image delete_project_image set_service_regions set_outcome
      set_reply set_tags set_follow_up update_status
  perform-Isolated (profile_changed f) =
      quiet_statement _ (λ t. update_company-Isolated c other apart (d.now t) f)
  perform-Isolated (logo_changed url) =
      quiet_statement _
        (λ t db. set_company-Isolated c other apart (logo_company (d.now t) url) db (λ x. refl))
  perform-Isolated (cover_changed url) =
      quiet_statement _
        (λ t db. set_company-Isolated c other apart (cover_company (d.now t) url) db (λ x. refl))
  perform-Isolated (service_added input) =
      quiet_statement _
        (λ t db. insert_service-Isolated c other apart (service_row d t c input) db refl)
  perform-Isolated (service_changed id f) =
      quiet_statement _ (λ t. update_service-Isolated c other apart id f)
  perform-Isolated (service_removed id) =
      quiet_statement _ (λ t. delete_service-Isolated c other apart id)
  perform-Isolated (image_added service url) =
      check_exists-Quiet (has_service service c) _
        (λ t db mine. insert_image-Isolated c other apart (image_row d t service url db) db mine)
  perform-Isolated (image_removed id) =
      quiet_statement _ (λ t. delete_image-Isolated c other apart id)
  perform-Isolated (images_reordered service orders) =
      Keeps-transaction (Isolated other) (Isolated-self other) (Isolated-chain other) d _
        (order_images-Quiet service orders)
  perform-Isolated (certification_added input) = quiet_statement _ (λ t db.
      both_dates-Leaves (nullable_date d input.issued_at) (nullable_date d input.expires_at) _
        (λ a b.
          insert_certification-Isolated c other apart (certification_row d t c input a b) db refl))
  perform-Isolated (certification_changed id input) = or_not_found-Quiet _ (
      quiet_statement _ (λ t db.
        both_dates-Leaves (nullable_date d input.issued_at) (nullable_date d input.expires_at) _
          (λ a b.
            update_certification-Isolated c other apart id (set_certification input a b) db
              (λ x. refl))))
  perform-Isolated (certification_removed id) =
      quiet_statement _ (λ t. delete_certification-Isolated c other apart id)
  perform-Isolated (project_added input) =
      Keeps-bind (Isolated other) (Isolated-self other) (Isolated-chain other) _ _
        (quiet_statement _
          (λ t db. insert_project-Isolated c other apart (project_row d t c input db) db refl))
        (λ p w. Isolated-self other w.db)
  perform-Isolated (project_changed id input) =
      Keeps-bind (Isolated other) (Isolated-self other) (Isolated-chain other) _ _
        (or_not_found-Quiet _
          (quiet_statement _ (λ t. update_project-Isolated c other apart id input)))
        (λ p w. Keeps-query (Isolated other) (Isolated-self other) (Isolated-chain other) d _ w)
  perform-Isolated (project_removed id) =
      quiet_statement _ (λ t. delete_project-Isolated c other apart id)
  perform-Isolated (picture_added project url) =
      check_exists-Quiet (has_project project c) _ (λ t db mine.
        insert_picture-Isolated c other apart (picture_row d t project url db) db mine)
  perform-Isolated (picture_removed id) =
      quiet_statement _ (λ t. delete_picture-Isolated c other apart id)
  perform-Isolated (regions_set regions) =
      Keeps-transaction (Isolated other) (Isolated-self other) (Isolated-chain other) d _ (
        Keeps-bind (Isolated other) (Isolated-self other) (Isolated-chain other) _ _
          (quiet_statement _ (λ t. delete_regions-Isolated c other apart))
          (λ u. insert_regions-Quiet regions))
  perform-Isolated (quote_closed id outcome note) =
      Keeps-bind (Isolated other) (Isolated-self other) (Isolated-chain other) _ _
        (Keeps-require (Isolated other) (Isolated-self other) (Isolated-chain other) _ _)
        (λ u. quiet_quote id (λ t. closed_quote (d.now t) outcome note) (λ t q. refl))
  perform-Isolated (quote_replied id note) =
      quiet_quote id (λ t. replied_quote (d.now t) note) (λ t q. refl)
  perform-Isolated (quote_tagged id tags) = quiet_quote id (λ t. tagged_quote tags) (λ t q. refl)
  perform-Isolated (quote_followed id at_time) =
      quiet_quote id (λ t. followed_quote at_time) (λ t q. refl)
  perform-Isolated (quote_marked id status) = quiet_statement _ (λ t db.
      affected-Leaves _
        (update_quote-Isolated c other apart id (status_quote status) db (λ q. refl)))

-- Whatever changes other companies make, in whatever order and with whatever failures, a company
-- has the same row, requests, services, certifications, projects, regions and images as before,
-- where no two services and no two projects share an identifier at the start; and the identifiers
-- stay so.
pub perform_all-view :
    (d : Driver) (other : String) (changes : List (String × Change)) (w : World)
    → All (λ (x : String × Change). x.0 ≢ other) changes
    → IsKeyed w.db
    → (view other (perform_all d changes w).db ≡ view other w.db)
      × IsKeyed (perform_all d changes w).db
unfolding perform_all
perform_all-view d other [] w h keyed = (refl, keyed)
perform_all-view d other ((c, change) ∷ rest) w (apart, h) keyed =
    let (keyed', first) = perform-Isolated d c other apart change w keyed in
    let (same, keyed_still) = perform_all-view d other rest (perform d c change w) h keyed' in
    (same ∙ first, keyed_still)
