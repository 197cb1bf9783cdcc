-- ===== src/Isolation/Services.antt =====
-- What a statement on the services of one company, and on their images, does to what another has
-- (internal/repository/service_repo.go and media_repo.go).
use proindustrial_backend.Common.{
  HasKey-filter, HasKey-map_if, List, String, and_true, any, ap, beq_of_ne, bne_unless, contains,
  false, filter, filter-filter, filter-map_if, filter-miss, find, map_if, nat_eq, not, refl,
  string_eq, text_eq, true, ◌!=◌, ◌&&◌, ◌==◌, ◌∙◌, ◌∷◌, ◌≡◌, ◌≢◌,
}
use proindustrial_backend.Database.{
  Db, Error, check_violation, foreign_key_violation, not_found, ok, out_of_range, syntax_error,
  too_long, unique_violation,
}
use proindustrial_backend.Database.Keeps.{Leaves, Leaves-found, Leaves-guard, Leaves-unless}
use proindustrial_backend.Isolation.{IsKeyed}
use proindustrial_backend.Isolation.Changes.{
  Isolated, Leaves-deleted, id-apart, not_owned, services-Isolated,
}
use proindustrial_backend.Isolation.Owned.{has-map_if, has_apart, seen-cons, seen-drop}
use proindustrial_backend.Media.{has_service}
use proindustrial_backend.Media.Images.{
  ImageOrder, delete_image_row, insert_image, is_ordered, order_image, ordered_image, removed_image,
}
use proindustrial_backend.Model.{Company, CompanyService, ServiceImage, is_int4}
use proindustrial_backend.Services.{
  ServiceFields, any_service_field, delete_service_row, insert_service, offers, owned_service,
  service_fits, service_statuses, set_service, update_service_row,
}

abbrev service_key : CompanyService → String
service_key s = s.id

abbrev service_owner : CompanyService → String
service_owner s = s.company_id

abbrev image_service : ServiceImage → String
image_service i = i.service_id

module _ (c other : String) (apart : c ≢ other) where
  hidden :
      (id : String) (db : Db)
      → IsKeyed db
      → has_service id c db ≡ true
      → has_service id other db ≡ false
  hidden id db keyed =
      has_apart service_key service_owner image_service c other apart id db.services keyed.services

  offers-apart : (s : CompanyService) → offers c s ≡ true → offers other s ≡ false
  offers-apart s = id-apart c other apart s.company_id

  -- A change of the images alone.
  images-Isolated :
      {A : Type 0} {a : A} (db : Db) (is : List ServiceImage)
      → (IsKeyed db
          → filter (λ (i : ServiceImage). has_service i.service_id other db) is
            ≡ filter (λ (i : ServiceImage). has_service i.service_id other db) db.service_images)
      → Leaves (Isolated other db) (ok (a, record db { service_images = is }))
  images-Isolated db is h =
      services-Isolated other db db.services is (λ keyed. keyed.services) refl h

  pub insert_service-Isolated :
      (s : CompanyService) (db : Db)
      → s.company_id ≡ c
      → Leaves (Isolated other db) (insert_service s db)
  unfolding insert_service
  insert_service-Isolated s db e = Leaves-guard (service_fits s) too_long λ fit.
      Leaves-unless (any (λ (x : CompanyService). x.id == s.id) db.services) unique_violation λ new.
        Leaves-guard (any (λ (x : Company). x.id == s.company_id) db.companies)
          foreign_key_violation
          λ found.
            services-Isolated other db (s ∷ db.services) db.service_images
              (λ keyed. (new, keyed.services))
              (filter-miss (offers other) s db.services (rw e (beq_of_ne c other apart)))
              (λ keyed.
                seen-cons service_key service_owner image_service c other apart s db.services
                  db.service_images e)

  pub update_service-Isolated :
      (id : String) (f : ServiceFields) (db : Db)
      → Leaves (Isolated other db) (update_service_row id c f db)
  unfolding update_service_row
  update_service-Isolated id f db = Leaves-guard (any_service_field f) syntax_error λ given.
      Leaves-found (find (owned_service id c) db.services) Error.no_rows λ s.
        Leaves-guard (service_fits (set_service f s)) too_long λ fit.
          Leaves-guard (contains service_statuses (set_service f s).status) check_violation λ valid.
            services-Isolated other db {a = set_service f s}
              (map_if (owned_service id c) (set_service f) db.services) db.service_images
              (λ keyed.
                HasKey-map_if service_key (owned_service id c) (set_service f) (λ x. refl)
                  db.services keyed.services)
              (filter-map_if (offers other) (owned_service id c) (set_service f)
                (λ x hit. offers-apart x (and_true (x.id == id) (offers c x) hit).1)
                (λ x hit. offers-apart x (and_true (x.id == id) (offers c x) hit).1) db.services)
              (λ keyed k.
                filter
                  (λ (i : ServiceImage).
                    has-map_if service_key service_owner image_service (owned_service id c)
                      (set_service f) i.service_id other db.services (λ x. refl) (λ x. refl) k)
                  db.service_images)

  pub delete_service-Isolated :
      (id : String) (db : Db) → Leaves (Isolated other db) (delete_service_row id c db)
  unfolding delete_service_row
  delete_service-Isolated id db =
      Leaves-guard (any (owned_service id c) db.services) not_found λ mine.
        services-Isolated other db
          (filter (λ (s : CompanyService). not (owned_service id c s)) db.services)
          (filter (λ (i : ServiceImage). i.service_id != id) db.service_images)
          (λ keyed.
            HasKey-filter service_key (λ s. not (owned_service id c s)) db.services keyed.services)
          (filter-filter (offers other) (λ s. not (owned_service id c s)) (theirs_stay id)
            db.services)
          (λ keyed.
            seen-drop service_key service_owner image_service c other apart
              (λ s. not (owned_service id c s)) db.services
              (filter (λ (i : ServiceImage). i.service_id != id) db.service_images) (theirs_stay id)
            ∙ filter-filter (λ (i : ServiceImage). has_service i.service_id other db)
                (λ (i : ServiceImage). i.service_id != id)
                (λ i seen. bne_unless i.service_id id (λ e.
                  absurd (cc (seen, ap (λ x. has_service x other db) e, hidden id db keyed mine))))
                db.service_images)
    where
      theirs_stay :
          (id : String) (s : CompanyService)
          → offers other s ≡ true
          → not (owned_service id c s) ≡ true
      theirs_stay id s theirs =
          not_owned (owned_service id c s) (offers other s) theirs
            (λ hit. offers-apart s (and_true (s.id == id) (offers c s) hit).1)

  pub insert_image-Isolated :
      (i : ServiceImage) (db : Db)
      → has_service i.service_id c db ≡ true
      → Leaves (Isolated other db) (insert_image i db)
  unfolding insert_image
  insert_image-Isolated i db mine = Leaves-guard (is_int4 i.sort_order) out_of_range λ int.
      Leaves-unless (any (λ (x : ServiceImage). x.id == i.id) db.service_images) unique_violation
        λ new.
          Leaves-guard (any (λ (s : CompanyService). s.id == i.service_id) db.services)
            foreign_key_violation
            λ found. images-Isolated db (i ∷ db.service_images) (λ keyed.
              filter-miss (λ (x : ServiceImage). has_service x.service_id other db) i
                db.service_images (hidden i.service_id db keyed mine))

  pub delete_image-Isolated :
      (id : String) (db : Db) → Leaves (Isolated other db) (delete_image_row id c db)
  unfolding delete_image_row
  delete_image-Isolated id db = Leaves-deleted (any (removed_image id c db) db.service_images) (
      images-Isolated db _ (λ keyed.
        filter-filter (λ (i : ServiceImage). has_service i.service_id other db)
          (λ i. not (removed_image id c db i))
          (λ i theirs.
            not_owned (removed_image id c db i) (has_service i.service_id other db) theirs (λ hit.
              hidden i.service_id db keyed
                (and_true (i.id == id) (has_service i.service_id c db) hit).1))
          db.service_images))

  pub order_image-Isolated :
      (service : String) (o : ImageOrder) (db : Db)
      → Leaves (Isolated other db) (order_image service c o db)
  unfolding order_image
  order_image-Isolated service o db = Leaves-guard (is_int4 o.sort_order) out_of_range λ int.
      images-Isolated db _ (λ keyed.
        filter-map_if (λ (i : ServiceImage). has_service i.service_id other db)
          (is_ordered service c db o) (ordered_image o.sort_order)
          (λ i hit. hidden i.service_id db keyed (ordered_mine service o db i hit))
          (λ i hit. hidden i.service_id db keyed (ordered_mine service o db i hit))
          db.service_images)
    where
      ordered_mine :
          (service : String) (o : ImageOrder) (db : Db) (i : ServiceImage)
          → is_ordered service c db o i ≡ true
          → has_service i.service_id c db ≡ true
      ordered_mine service o db i hit =
          let (mine, _) =
            and_true (i.id == o.id && has_service i.service_id c db) (i.service_id == service)
              hit in
          (and_true (i.id == o.id) (has_service i.service_id c db) mine).1
