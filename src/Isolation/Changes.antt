-- ===== src/Isolation/Changes.antt =====
-- What a statement of one company does to what another has (internal/repository).
use proindustrial_backend.Common.{
  Bool, HasKey, List, Option, String, and_true, any, ap, beq_of_ne, contains, eq_of_beq, false,
  filter, filter-filter, filter-map_if, filter-miss, find, find-map_if, if◌then◌else◌, leb, length,
  map_if, nat_eq, none, not, refl, some, string_eq, text_eq, true, ℕ, ◌==◌, ◌∙◌, ◌∷◌, ◌≡◌, ◌≢◌,
}
use proindustrial_backend.Common.Text.{Text}
use proindustrial_backend.Companies.{
  ProfileFields, int4_fits, profile_fits, set_profile, update_company_row,
}
use proindustrial_backend.Database.{
  Db, Error, check_violation, err, fits, foreign_key_violation, ok, out_of_range, too_long,
  unique_violation,
}
use proindustrial_backend.Database.Keeps.{
  Leaves, Leaves-err, Leaves-found, Leaves-guard, Leaves-if, Leaves-ok, Leaves-unless,
}
use proindustrial_backend.Isolation.{IsKeyed, view}
use proindustrial_backend.Media.{deleted, has_project, has_service, owned_project, set_company}
use proindustrial_backend.Media.Certifications.{
  certification_fits, certified, delete_certification_row, insert_certification,
  owned_certification, update_certification_row,
}
use proindustrial_backend.Media.Projects.{made_by}
use proindustrial_backend.Media.Regions.{delete_regions, insert_region, same_region, serves}
use proindustrial_backend.Model.{
  Company, CompanyCertification, CompanyProject, CompanyService, ProjectImage, QuoteRequest,
  ServiceImage,
}
use proindustrial_backend.Quotes.{owned_quote, quote_statuses, update_quote}
use proindustrial_backend.Services.{offers, owned_service}
use proindustrial_backend.Tables.{company_by_id, is_id}

abbrev pub Isolated : String → Db → Db → Type 0
Isolated other before after =
    IsKeyed before → IsKeyed after × (view other after ≡ view other before)

pub Isolated-self : (other : String) (db : Db) → Isolated other db db
Isolated-self other db keyed = (keyed, refl)

pub Isolated-chain :
    (other : String) (a b c : Db) → Isolated other a b → Isolated other b c → Isolated other a c
Isolated-chain other a b c h k keyed =
    let (keyed', e) = h keyed in let (keyed'', e') = k keyed' in (keyed'', e' ∙ e)

-- A row that another has is none that fails to be kept.
pub not_owned :
    (mine theirs : Bool) → theirs ≡ true → (mine ≡ true → theirs ≡ false) → not mine ≡ true
not_owned true theirs h k = absurd (cc (h, k refl))
not_owned false theirs h k = refl

pub Leaves-deleted :
    {P : Db → Type 0} (hit : Bool) {db : Db}
    → Leaves P (ok (tt {0}, db))
    → Leaves P (deleted hit db)
Leaves-deleted true h = h
Leaves-deleted false h = Leaves-err

-- One table, or a table and the one that refers to it, changes where the other has nothing.
module _ (other : String) (db : Db) where
  pub companies-Isolated :
      {A : Type 0} {a : A} (cs : List Company)
      → find (λ (c : Company). c.id == other) cs ≡ company_by_id other db
      → Leaves (Isolated other db) (ok (a, record db { companies = cs }))
  unfolding view
  companies-Isolated cs e = Leaves-ok λ keyed. (
    record { services = keyed.services; projects = keyed.projects },
    λ i. record (view other db) { company = e i },
  )

  pub quotes-Isolated :
      {A : Type 0} {a : A} (qs : List QuoteRequest)
      → filter (λ (q : QuoteRequest). is_id other q.target_company_id) qs
        ≡ filter (λ (q : QuoteRequest). is_id other q.target_company_id) db.quotes
      → Leaves (Isolated other db) (ok (a, record db { quotes = qs }))
  unfolding view
  quotes-Isolated qs e = Leaves-ok λ keyed. (
    record { services = keyed.services; projects = keyed.projects },
    λ i. record (view other db) { quotes = e i },
  )

  pub certifications-Isolated :
      {A : Type 0} {a : A} (cs : List CompanyCertification)
      → filter (certified other) cs ≡ filter (certified other) db.certifications
      → Leaves (Isolated other db) (ok (a, record db { certifications = cs }))
  unfolding view
  certifications-Isolated cs e = Leaves-ok λ keyed. (
    record { services = keyed.services; projects = keyed.projects },
    λ i. record (view other db) { certifications = e i },
  )

  pub regions-Isolated :
      {A : Type 0} {a : A} (rs : List (String × Text))
      → filter (serves other) rs ≡ filter (serves other) db.service_regions
      → Leaves (Isolated other db) (ok (a, record db { service_regions = rs }))
  unfolding view
  regions-Isolated rs e = Leaves-ok λ keyed. (
    record { services = keyed.services; projects = keyed.projects },
    λ i. record (view other db) { service_regions = e i },
  )

  pub services-Isolated :
      {A : Type 0} {a : A} (ss : List CompanyService) (is : List ServiceImage)
      → (IsKeyed db → HasKey (λ (s : CompanyService). s.id) ss)
      → filter (offers other) ss ≡ filter (offers other) db.services
      → (IsKeyed db
          → filter (λ (i : ServiceImage). any (owned_service i.service_id other) ss) is
            ≡ filter (λ (i : ServiceImage). has_service i.service_id other db) db.service_images)
      → Leaves (Isolated other db) (ok (a, record db { services = ss; service_images = is }))
  unfolding view
  services-Isolated ss is k e f = Leaves-ok λ keyed. (
    record { services = k keyed; projects = keyed.projects },
    λ i. record (view other db) { services = e i; service_images = f keyed i },
  )

  pub projects-Isolated :
      {A : Type 0} {a : A} (ps : List CompanyProject) (is : List ProjectImage)
      → (IsKeyed db → HasKey (λ (p : CompanyProject). p.id) ps)
      → filter (made_by other) ps ≡ filter (made_by other) db.projects
      → (IsKeyed db
          → filter (λ (i : ProjectImage). any (owned_project i.project_id other) ps) is
            ≡ filter (λ (i : ProjectImage). has_project i.project_id other db) db.project_images)
      → Leaves (Isolated other db) (ok (a, record db { projects = ps; project_images = is }))
  unfolding view
  projects-Isolated ps is k e f = Leaves-ok λ keyed. (
    record { services = keyed.services; projects = k keyed },
    λ i. record (view other db) { projects = e i; project_images = f keyed i },
  )

module _ (c other : String) (apart : c ≢ other) where
  is_id-apart : (o : Option String) → is_id c o ≡ true → is_id other o ≡ false
  is_id-apart none h = cc
  is_id-apart (some x) h = rw (eq_of_beq x c h) (beq_of_ne c other apart)

  pub id-apart : (x : String) → (x == c) ≡ true → (x == other) ≡ false
  id-apart x h = rw (eq_of_beq x c h) (beq_of_ne c other apart)

  pub update_quote-Isolated :
      (id : String) (set : QuoteRequest → QuoteRequest) (db : Db)
      → ((q : QuoteRequest) → (set q).target_company_id ≡ q.target_company_id)
      → Leaves (Isolated other db) (update_quote (owned_quote id c) set db)
  unfolding update_quote
  update_quote-Isolated id set db h =
      Leaves-found (find (owned_quote id c) db.quotes) Error.no_rows λ q.
        Leaves-guard (contains quote_statuses (set q).status) check_violation λ valid.
          quotes-Isolated other db {a = set q} (map_if (owned_quote id c) set db.quotes) (
            filter-map_if (λ (x : QuoteRequest). is_id other x.target_company_id) (owned_quote id c)
              set
              (λ x hit.
                is_id-apart x.target_company_id
                  (and_true (x.id == id) (is_id c x.target_company_id) hit).1)
              (λ x hit.
                ap (is_id other) (h x)
                ∙ is_id-apart x.target_company_id
                    (and_true (x.id == id) (is_id c x.target_company_id) hit).1)
              db.quotes)

  companies_of :
      (set : Company → Company) (db : Db)
      → ((x : Company) → (set x).id ≡ x.id)
      → Leaves (Isolated other db) (
          ok (
            tt {0},
            record db { companies = map_if (λ (x : Company). x.id == c) set db.companies },
          ))
  companies_of set db h = companies-Isolated other db _ (
      find-map_if (λ (x : Company). x.id == other) (λ (x : Company). x.id == c) set
        (λ x hit. id-apart x.id hit) (λ x hit. ap (λ y. y == other) (h x) ∙ id-apart x.id hit)
        db.companies)

  pub set_company-Isolated :
      (set : Company → Company) (db : Db)
      → ((x : Company) → (set x).id ≡ x.id)
      → Leaves (Isolated other db) (ok (tt {0}, set_company c set db))
  set_company-Isolated = companies_of

  pub update_company-Isolated :
      (now : ℕ) (f : ProfileFields) (db : Db)
      → Leaves (Isolated other db) (update_company_row now c f db)
  unfolding update_company_row
  update_company-Isolated now f db =
      Leaves-guard (int4_fits f.years_active) out_of_range λ int. written (company_by_id c db)
    where
      written :
          (o : Option Company)
          → Leaves (Isolated other db) (elim o [
            | none ↦ ok (tt {0}, db)
            | some x ↦
                if profile_fits (set_profile now f x)
                then if fits 600 (set_profile now f x).description
                  then ok (
                    tt {0},
                    record db {
                      companies =
                          map_if (λ (y : Company). y.id == c) (set_profile now f) db.companies;
                    },
                  )
                  else err check_violation
                else err too_long
          ])
      written none = Leaves-ok (Isolated-self other db)
      written (some x) = Leaves-guard (profile_fits (set_profile now f x)) too_long λ fit.
          Leaves-guard (fits 600 (set_profile now f x).description) check_violation
            λ short. companies_of (set_profile now f) db (λ y. refl)

  pub insert_certification-Isolated :
      (x : CompanyCertification) (db : Db)
      → x.company_id ≡ c
      → Leaves (Isolated other db) (insert_certification x db)
  unfolding insert_certification
  insert_certification-Isolated x db e = Leaves-guard (certification_fits x) too_long λ fit.
      Leaves-unless (any (λ (y : CompanyCertification). y.id == x.id) db.certifications)
        unique_violation
        λ new.
          Leaves-guard (any (λ (y : Company). y.id == x.company_id) db.companies)
            foreign_key_violation
            λ found.
              certifications-Isolated other db (x ∷ db.certifications)
                (filter-miss (certified other) x db.certifications (rw e (beq_of_ne c other apart)))

  owned_certification-apart :
      (id : String) (x : CompanyCertification)
      → owned_certification id c x ≡ true
      → certified other x ≡ false
  owned_certification-apart id x hit =
      id-apart x.company_id (and_true (x.id == id) (certified c x) hit).1

  pub update_certification-Isolated :
      (id : String) (set : CompanyCertification → CompanyCertification) (db : Db)
      → ((x : CompanyCertification) → (set x).company_id ≡ x.company_id)
      → Leaves (Isolated other db) (update_certification_row (owned_certification id c) set db)
  unfolding update_certification_row
  update_certification-Isolated id set db h =
      Leaves-found (find (owned_certification id c) db.certifications) Error.no_rows λ x.
        Leaves-guard (certification_fits (set x)) too_long λ fit.
          certifications-Isolated other db {a = set x} _ (
            filter-map_if (certified other) (owned_certification id c) set
              (owned_certification-apart id)
              (λ y hit. ap (λ z. z == other) (h y) ∙ owned_certification-apart id y hit)
              db.certifications)

  pub delete_certification-Isolated :
      (id : String) (db : Db) → Leaves (Isolated other db) (delete_certification_row id c db)
  unfolding delete_certification_row
  delete_certification-Isolated id db =
      Leaves-deleted (any (owned_certification id c) db.certifications) (
        certifications-Isolated other db _ (
          filter-filter (certified other) (λ x. not (owned_certification id c x))
            (λ x theirs.
              not_owned (owned_certification id c x) (certified other x) theirs
                (owned_certification-apart id x))
            db.certifications))

  pub delete_regions-Isolated :
      (db : Db) → Leaves (Isolated other db) (ok (tt {0}, delete_regions c db))
  unfolding delete_regions
  delete_regions-Isolated db = regions-Isolated other db _ (
      filter-filter (serves other) (λ r. not (serves c r))
        (λ r theirs. not_owned (serves c r) (serves other r) theirs (λ hit. id-apart r.0 hit))
        db.service_regions)

  pub insert_region-Isolated :
      (region : Text) (db : Db) → Leaves (Isolated other db) (insert_region c region db)
  unfolding insert_region
  insert_region-Isolated region db = Leaves-guard (leb (length region) 100) too_long λ fit.
      Leaves-if (any (same_region c region) db.service_regions)
        (λ held. Leaves-ok (Isolated-self other db))
        λ new.
          Leaves-guard (any (λ (x : Company). x.id == c) db.companies) foreign_key_violation
            λ found.
              regions-Isolated other db _ (
                filter-miss (serves other) (c, region) db.service_regions (beq_of_ne c other apart))
