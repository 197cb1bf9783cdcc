-- ===== src/Companies.antt =====
-- internal/repository/company_repo.go and internal/handler/company.go: the public catalogue of
-- companies, and the changes of a profile. The text search, its rank and the collation of names
-- are PostgreSQL's: they are the parameter `Search`.
use proindustrial_backend.Common.{
  Bool, List, Option, String, [], contains, false, filter, find, if◌then◌else◌, leb, map_if, nat_eq,
  none, not, some, string_eq, text_eq, true, ℕ, ◌&&◌, ◌==◌, ◌∷◌,
}
use proindustrial_backend.Common.Text.{Text, codes}
use proindustrial_backend.Database.{
  Action, Db, Driver, Error, Result, check_violation, err, fits, ok, one, out_of_range, query,
  statement, too_long,
}
use proindustrial_backend.Http.{Handler, Reply, answer, call, internal_error, refuse, respond}
use proindustrial_backend.Model.{Company, CompanyService, ServiceImage, is_int4, ℤ}
use proindustrial_backend.Services.{list_active_with_images, or_kept, or_kept_null}
use proindustrial_backend.Tables.{company_by_id, company_fits, sort_by}

pub record Search : Type 0 where
  pub matches : Text → Company → Bool
  pub rank : Text → Company → ℕ
  pub name_before : Text → Text → Bool

pub record CompanyFilter : Type 0 where
  pub category : Text
  pub region : Text
  pub search_text : Text
  pub featured : Option Bool

-- A condition that an empty parameter leaves out.
abbrev pub unless_empty : Text → Bool → Bool
unless_empty [] b = true
unless_empty (c ∷ s) b = b

abbrev pub is_text : Text → Option Text → Bool
is_text t none = false
is_text t (some u) = u == t

abbrev pub same_flag : Bool → Bool → Bool
same_flag true b = b
same_flag false b = not b

abbrev pub has_flag : Option Bool → Bool → Bool
has_flag none b = true
has_flag (some a) b = same_flag a b

unfoldable pub listed_company : Search → CompanyFilter → Company → Bool
listed_company search f c =
    unless_empty f.category (contains c.categories f.category)
    && unless_empty f.region (is_text f.region c.region)
    && has_flag f.featured c.featured
    && unless_empty f.search_text (search.matches f.search_text c)

-- `featured DESC, name ASC`
abbrev pub by_name : Search → Company → Company → Bool
by_name search a b =
    if same_flag a.featured b.featured then search.name_before a.name b.name else a.featured

abbrev pub by_rank : Search → Text → Company → Company → Bool
by_rank search q a b =
    if search.rank q a == search.rank q b
    then by_name search a b
    else leb (search.rank q b) (search.rank q a)

abbrev pub company_order : Search → Text → Company → Company → Bool
company_order search [] = by_name search
company_order search (c ∷ q) = by_rank search (c ∷ q)

-- `List`
unfoldable pub list_companies : Driver → Search → CompanyFilter → Action (List Company)
list_companies d search f = query d (λ db.
    sort_by (company_order search f.search_text) (filter (listed_company search f) db.companies))

-- `GetBySlug`
unfoldable pub get_by_slug : Driver → Text → Action Company
get_by_slug d slug =
    statement d (λ t db. one (find (λ (c : Company). c.slug == slug) db.companies) db)

-- The map of the columns to set, by column.
pub record ProfileFields : Type 0 where
  pub name : Option Text
  pub tagline : Option Text
  pub description : Option Text
  pub location : Option Text
  pub region : Option Text
  pub phone : Option Text
  pub email : Option Text
  pub website : Option Text
  pub years_active : Option ℤ

abbrev pub set_profile : ℕ → ProfileFields → Company → Company
set_profile now f c = record c {
  name = or_kept c.name f.name;
  tagline = or_kept_null c.tagline f.tagline;
  description = or_kept_null c.description f.description;
  location = or_kept_null c.location f.location;
  region = or_kept_null c.region f.region;
  phone = or_kept_null c.phone f.phone;
  email = or_kept_null c.email f.email;
  website = or_kept_null c.website f.website;
  years_active = or_kept_null c.years_active f.years_active;
  updated_at = now;
}

abbrev pub int4_fits : Option ℤ → Bool
int4_fits none = true
int4_fits (some i) = is_int4 i

-- The widths of the columns that a profile sets.
abbrev pub profile_fits : Company → Bool
profile_fits c = company_fits c && fits 200 c.tagline && fits 300 c.website

-- `UPDATE companies SET … WHERE id = $n`: no row of that id is no error.
unfoldable pub update_company_row : ℕ → String → ProfileFields → Db → Result (Unit {0} × Db)
update_company_row now id f db =
    if int4_fits f.years_active
    then elim (company_by_id id db) [
      | none ↦ ok (tt, db)
      | some c ↦
          if profile_fits (set_profile now f c)
          then if fits 600 (set_profile now f c).description
            then ok (
              tt,
              record db {
                companies = map_if (λ (x : Company). x.id == id) (set_profile now f) db.companies;
              },
            )
            else err check_violation
          else err too_long
    ]
    else err out_of_range

-- `Update`, with at least one column.
unfoldable pub update_company : Driver → String → ProfileFields → Action (Unit {0})
update_company d id f = statement d (λ t. update_company_row (d.now t) id f)

-- `CompanyHandler.List`: the message of an error is the driver's own, `shown`.
abbrev pub after_list : (Error → Text) → Result (List Company) → Handler (List Company)
after_list shown (ok cs) = respond (answer 200 cs)
after_list shown (err e) = respond (refuse 500 (shown e))

-- The parameter `featured` of the URL.
unfoldable pub featured_of : String → Option Bool
featured_of f = if f == "true" then some true else if f == "false" then some false else none

unfoldable pub list_public :
    Driver → Search → (Error → Text) → Text → Text → Text → String → Handler (List Company)
list_public d search shown category region q featured =
    call
      (list_companies d search (record {
        category = category;
        region = region;
        search_text = q;
        featured = featured_of featured;
      }))
      (after_list shown)

abbrev pub company_missing : {A : Type 0} → Reply A
company_missing = refuse 404 (codes "company not found")

abbrev pub found_company : Result Company → Handler Company
found_company (ok c) = respond (answer 200 c)
found_company (err e) = respond company_missing

-- `CompanyHandler.GetBySlug`
unfoldable pub show_company : Driver → Text → Handler Company
show_company d slug = call (get_by_slug d slug) found_company

abbrev pub services_or_error :
    Result (List (CompanyService × List ServiceImage))
    → Handler (List (CompanyService × List ServiceImage))
services_or_error (ok l) = respond (answer 200 l)
services_or_error (err e) = respond internal_error

abbrev pub services_of :
    Driver → Result Company → Handler (List (CompanyService × List ServiceImage))
services_of d (ok c) = call (list_active_with_images d c.id) services_or_error
services_of d (err e) = respond company_missing

-- `CompanyHandler.ListServices`
unfoldable pub show_services : Driver → Text → Handler (List (CompanyService × List ServiceImage))
show_services d slug = call (get_by_slug d slug) (services_of d)
