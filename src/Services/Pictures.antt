-- ===== src/Services/Pictures.antt =====
-- The services of a public page with their images (internal/repository/service_repo.go).
use mathlib.Core.List.{map}
use proindustrial_backend.Common.{
  All, Bool, List, String, [], ap, arith, contains, eq_of_beq, eq_self, false, filter,
  filter-filter, nat_eq, or_true, refl, string_eq, text_eq, true, ◌+◌, ◌==◌, ◌∙◌, ◌∷◌, ◌≡◌,
}
use proindustrial_backend.Database.{Db, Driver, World, ok, statement}
use proindustrial_backend.Media.Images.{public_images, image_of}
use proindustrial_backend.Model.{CompanyService, ServiceImage, ℤ, leb_int, pos, negsuc}
use proindustrial_backend.Services.{
  active_services, attach, attach_all, images_in, list_active, list_active_with_images, with_images,
}
use proindustrial_backend.Tables.{sort_by}
use proindustrial_backend.Tables.Sorting.{filter-sort_by}

leb_int_total : (a b : ℤ) → leb_int a b ≡ false → leb_int b a ≡ true
leb_int_total (pos m) (pos n) h = ground arith
leb_int_total (pos m) (negsuc n) h = refl
leb_int_total (negsuc m) (pos n) h = cc
leb_int_total (negsuc m) (negsuc n) h = ground arith

leb_int_trans : (a b c : ℤ) → leb_int a b ≡ true → leb_int b c ≡ true → leb_int a c ≡ true
leb_int_trans (pos l) (pos m) (pos n) h k = ground arith
leb_int_trans (pos l) (negsuc m) c h k = absurd (cc)
leb_int_trans (pos l) (pos m) (negsuc n) h k = cc
leb_int_trans (negsuc l) b (pos n) h k = refl
leb_int_trans (negsuc l) (pos m) (negsuc n) h k = absurd (cc)
leb_int_trans (negsuc l) (negsuc m) (negsuc n) h k = ground arith

abbrev ids : List CompanyService → List String
ids = map (λ (s : CompanyService). s.id)

abbrev by_order : ServiceImage → ServiceImage → Bool
by_order a b = leb_int a.sort_order b.sort_order

abbrev pub with_own_images : Db → CompanyService → CompanyService × List ServiceImage
with_own_images db s = (s, public_images s.id db)

-- One query for all services finds for each what a query of its own would.
attach-own :
    (known : List String) (s : CompanyService) (db : Db)
    → contains known s.id ≡ true
    → attach (images_in known db) s ≡ with_own_images db s
unfolding images_in
attach-own known s db h =
    ap (λ l. (s, l))
      (filter-sort_by by_order (λ a b. leb_int_total a.sort_order b.sort_order)
          (λ a b c. leb_int_trans a.sort_order b.sort_order c.sort_order) (image_of s.id)
          (filter (λ (i : ServiceImage). contains known i.service_id) db.service_images)
        ∙ ap (sort_by by_order) (
            filter-filter (image_of s.id) (λ (i : ServiceImage). contains known i.service_id)
              (λ i hit. ap (contains known) (eq_of_beq i.service_id s.id hit) ∙ h)
              db.service_images))

attach_each :
    (known : List String) (db : Db) (ss : List CompanyService)
    → All (λ (s : CompanyService). contains known s.id ≡ true) ss
    → map (attach (images_in known db)) ss ≡ map (with_own_images db) ss
attach_each known db [] h = refl
attach_each known db (s ∷ ss) (h, k) = λ i. attach-own known s db h i ∷ attach_each known db ss k i

known_more :
    (x : String) (known : List String) (ss : List CompanyService)
    → All (λ (s : CompanyService). contains known s.id ≡ true) ss
    → All (λ (s : CompanyService). contains (x ∷ known) s.id ≡ true) ss
unfolding contains
known_more x known [] h = tt
known_more x known (s ∷ ss) (h, k) = (rw (h, or_true (s.id == x)) refl, known_more x known ss k)

own_ids_known :
    (ss : List CompanyService) → All (λ (s : CompanyService). contains (ids ss) s.id ≡ true) ss
own_ids_known [] = tt
own_ids_known (s ∷ ss) =
    (unfold contains in rw (eq_self s.id) refl, known_more s.id (ids ss) ss (own_ids_known ss))

with_images-own :
    (d : Driver) (ss : List CompanyService) (w : World)
    → d.fails w.tick ≡ false
    → (with_images d (ok ss) w).0 ≡ ok (map (with_own_images w.db) ss)
unfolding with_images statement attach_all
with_images-own d [] w h = refl
with_images-own d (s ∷ ss) w h =
    rw h (ap ok (attach_each (ids (s ∷ ss)) w.db (s ∷ ss) (own_ids_known (s ∷ ss))))

-- Where neither of its two queries fails, the list of active services has with each service, in
-- their order, the images that a query for that service alone would find.
pub list_active_with_images-own :
    (d : Driver) (company : String) (w : World)
    → d.fails w.tick ≡ false
    → d.fails (w.tick + 1) ≡ false
    → (list_active_with_images d company w).0
      ≡ ok (map (with_own_images w.db) (active_services company w.db))
unfolding list_active_with_images list_active statement
list_active_with_images-own d company w h k =
    rw h
      (with_images-own d (active_services company w.db) (record { db = w.db; tick = w.tick + 1 }) k)
