-- ===== src/Media/Images.antt =====
-- internal/repository/media_repo.go: the images of a service.
use mathlib.Core.List.{map}
use proindustrial_backend.Common.{
  Bool, List, String, [], any, filter, if◌then◌else◌, leb, length, map_if, nat_eq, none, not,
  string_eq, text_eq, ℕ, ◌&&◌, ◌==◌, ◌||◌, ◌∷◌,
}
use proindustrial_backend.Common.Text.{Text}
use proindustrial_backend.Database.{
  Action, Db, Driver, Result, err, foreign_key_violation, ok, out_of_range, pure, query, statement,
  transaction, unique_violation, ◌>>◌,
}
use proindustrial_backend.Media.{check_exists, deleted, has_service, next_order}
use proindustrial_backend.Model.{CompanyService, ServiceImage, is_int4, leb_int, ℤ}
use proindustrial_backend.Tables.{sort_by}

-- `JOIN company_services cs … WHERE si.service_id = $1 AND cs.company_id = $2`
abbrev pub image_of : String → ServiceImage → Bool
image_of service i = i.service_id == service

abbrev pub owned_images : String → String → Db → List ServiceImage
owned_images service company db =
    if has_service service company db then filter (image_of service) db.service_images else []

-- `ORDER BY si.sort_order ASC, si.created_at ASC`
abbrev pub image_before : ServiceImage → ServiceImage → Bool
image_before a b =
    leb_int a.sort_order b.sort_order
    && (not (leb_int b.sort_order a.sort_order) || leb a.created_at b.created_at)

-- `ListServiceImages`
unfoldable pub list_service_images : Driver → String → String → Action (List ServiceImage)
list_service_images d service company =
    query d (λ db. sort_by image_before (owned_images service company db))

-- `WHERE service_id=$1 ORDER BY sort_order ASC`
abbrev pub public_images : String → Db → List ServiceImage
public_images service db =
    sort_by (λ (a b : ServiceImage). leb_int a.sort_order b.sort_order)
      (filter (image_of service) db.service_images)

-- `GetPublicServiceImages`, which no route calls.
unfoldable pub get_public_service_images : Driver → String → Action (List ServiceImage)
get_public_service_images d service = query d (public_images service)

-- `CountServiceImages`
unfoldable pub count_service_images : Driver → String → String → Action ℕ
count_service_images d service company = query d (λ db. length (owned_images service company db))

abbrev pub image_orders : String → Db → List ℤ
image_orders service db =
    map (λ (i : ServiceImage). i.sort_order) (filter (image_of service) db.service_images)

abbrev pub image_row : Driver → ℕ → String → Text → Db → ServiceImage
image_row d t service url db = record {
  id = d.uuid t;
  service_id = service;
  url = url;
  alt_text = none;
  sort_order = next_order (image_orders service db);
  created_at = d.now t;
}

unfoldable pub insert_image : ServiceImage → Db → Result (ServiceImage × Db)
insert_image i db =
    if is_int4 i.sort_order
    then if any (λ (x : ServiceImage). x.id == i.id) db.service_images
      then err unique_violation
      else if any (λ (s : CompanyService). s.id == i.service_id) db.services
      then ok (i, record db { service_images = i ∷ db.service_images })
      else err foreign_key_violation
    else err out_of_range

-- `AddServiceImage`
unfoldable pub add_service_image : Driver → String → String → Text → Action ServiceImage
add_service_image d service company url =
    check_exists (query d (has_service service company))
      (statement d (λ t db. insert_image (image_row d t service url db) db))

-- `si.id = $1 AND si.service_id = cs.id AND cs.company_id = $2`
abbrev pub removed_image : String → String → Db → ServiceImage → Bool
removed_image id company db i = i.id == id && has_service i.service_id company db

unfoldable pub delete_image_row : String → String → Db → Result (Unit {0} × Db)
delete_image_row id company db =
    deleted (any (removed_image id company db) db.service_images) (record db {
      service_images = filter (λ i. not (removed_image id company db i)) db.service_images;
    })

-- `DeleteServiceImage`
unfoldable pub delete_service_image : Driver → String → String → Action (Unit {0})
delete_service_image d id company = statement d (λ t. delete_image_row id company)

pub record ImageOrder : Type 0 where
  pub id : String
  pub sort_order : ℤ

abbrev pub ordered_image : ℤ → ServiceImage → ServiceImage
ordered_image n i = record i { sort_order = n }

abbrev pub is_ordered : String → String → Db → ImageOrder → ServiceImage → Bool
is_ordered service company db o i =
    i.id == o.id && has_service i.service_id company db && i.service_id == service

unfoldable pub order_image : String → String → ImageOrder → Db → Result (Unit {0} × Db)
order_image service company o db =
    if is_int4 o.sort_order
    then ok (
      tt,
      record db {
        service_images =
            map_if (is_ordered service company db o) (ordered_image o.sort_order) db.service_images;
      },
    )
    else err out_of_range

unfoldable pub order_images : Driver → String → String → List ImageOrder → Action (Unit {0})
order_images d service company [] = pure tt
order_images d service company (o ∷ os) =
    statement d (λ t. order_image service company o) >> order_images d service company os

-- `ReorderServiceImages`
unfoldable pub reorder_service_images :
    Driver → String → String → List ImageOrder → Action (Unit {0})
reorder_service_images d service company orders =
    transaction d (order_images d service company orders)
