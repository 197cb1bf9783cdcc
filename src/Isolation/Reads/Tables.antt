-- ===== src/Isolation/Reads/Tables.antt =====
-- What the queries of a panel find in the tables that hold its company's rows alone.
use proindustrial_backend.Common.{
  All, Bool, Bool-cases, List, String, [], and_true, any, any-filter-kept, ap, arith, eq_of_beq,
  eq_self, false, filter, filter-filter, find, if◌then◌else◌, inl, inr, nat_eq, refl, string_eq,
  text_eq, true, ◌+◌, ◌==◌, ◌∙◌, ◌∷◌, ◌≡◌,
}
use proindustrial_backend.Database.{Db}
use proindustrial_backend.Isolation.{view}
use proindustrial_backend.Isolation.Reads.{alone, to_list}
use proindustrial_backend.Media.{has_project, has_service, owned_project}
use proindustrial_backend.Media.Certifications.{certified}
use proindustrial_backend.Media.Images.{image_of, owned_images}
use proindustrial_backend.Media.Projects.{made_by, picture_of}
use proindustrial_backend.Media.Regions.{serves}
use proindustrial_backend.Model.{Company, CompanyProject, ProjectImage, QuoteRequest, ServiceImage}
use proindustrial_backend.Services.{offers, owned_service}
use proindustrial_backend.Tables.{company_by_id, count, is_id}

module _ {A : Type 0} (p : A → Bool) where
  find-to_list : (xs : List A) → find p (to_list (find p xs)) ≡ find p xs
  find-to_list [] = refl
  find-to_list (x ∷ xs) = elim (Bool-cases (p x)) [
    | inl hit ↦ rw hit (rw hit refl)
    | inr miss ↦ rw miss (find-to_list xs)
  ]

module _ {A : Type 0} (p q : A → Bool) where
  count-filter :
      ((x : A) → p x ≡ true → q x ≡ true) → (xs : List A) → count p (filter q xs) ≡ count p xs
  count-filter h [] = refl
  count-filter h (x ∷ xs) = elim (Bool-cases (p x)) [
    | inl hit ↦ rw (h x hit, hit) (ap (λ n. 1 + n) (count-filter h xs))
    | inr miss ↦ elim (Bool-cases (q x)) [
      | inl keep ↦ rw (keep, miss) (ap (λ n. 0 + n) (count-filter h xs))
      | inr drop ↦ rw (drop, miss) (count-filter h xs ∙ omega arith)
    ]
  ]

All-map :
    {A : Type 0} {P Q : A → Type 0} → ((x : A) → P x → Q x) → (xs : List A) → All P xs → All Q xs
All-map f [] h = tt
All-map f (x ∷ xs) (h, k) = (f x h, All-map f xs k)

All-if :
    {A : Type 0} (P : A → Type 0) (b : Bool) (x : A) (xs : List A)
    → (b ≡ true → P x)
    → All P xs
    → All P (if b then x ∷ xs else xs)
All-if P true x xs h k = (h refl, k)
All-if P false x xs h k = k

found_before : (b : Bool) {x : Bool} → x ≡ true → (if b then true else x) ≡ true
found_before true h = refl
found_before false h = h

-- A project of the company is found by its identifier among those of the company.
made_by-All :
    (c : String) (ps : List CompanyProject)
    → All (λ (p : CompanyProject). any (owned_project p.id c) ps ≡ true) (filter (made_by c) ps)
made_by-All c [] = tt
made_by-All c (p ∷ ps) =
    All-if (λ (x : CompanyProject). any (owned_project x.id c) (p ∷ ps) ≡ true) (made_by c p) p
      (filter (made_by c) ps) (λ mine. rw (eq_self p.id, mine) refl)
      (All-map (λ (x : CompanyProject) h. found_before (owned_project x.id c p) h)
        (filter (made_by c) ps) (made_by-All c ps))

module _ (c : String) (db : Db) where
  -- The tables with the rows of the company alone.
  abbrev pub own : Db
  own = alone (view c db)

  pub company_by_id-own : company_by_id c own ≡ company_by_id c db
  unfolding alone view
  company_by_id-own = find-to_list (λ (x : Company). x.id == c) db.companies

  pub quotes-own :
      (p : QuoteRequest → Bool)
      → ((q : QuoteRequest) → p q ≡ true → is_id c q.target_company_id ≡ true)
      → (filter p own.quotes ≡ filter p db.quotes) × (count p own.quotes ≡ count p db.quotes)
  unfolding alone view
  quotes-own p h = (
    filter-filter p (λ (q : QuoteRequest). is_id c q.target_company_id) h db.quotes,
    count-filter p (λ (q : QuoteRequest). is_id c q.target_company_id) h db.quotes,
  )

  pub services-own :
      (filter (offers c) own.services ≡ filter (offers c) db.services)
      × (count (offers c) own.services ≡ count (offers c) db.services)
  unfolding alone view
  services-own = (
    filter-filter (offers c) (offers c) (λ s e. e) db.services,
    count-filter (offers c) (offers c) (λ s e. e) db.services,
  )

  pub certifications-own :
      filter (certified c) own.certifications ≡ filter (certified c) db.certifications
  unfolding alone view
  certifications-own = filter-filter (certified c) (certified c) (λ s e. e) db.certifications

  pub projects-own : filter (made_by c) own.projects ≡ filter (made_by c) db.projects
  unfolding alone view
  projects-own = filter-filter (made_by c) (made_by c) (λ s e. e) db.projects

  pub service_regions-own :
      filter (serves c) own.service_regions ≡ filter (serves c) db.service_regions
  unfolding alone view
  service_regions-own = filter-filter (serves c) (serves c) (λ s e. e) db.service_regions

  has_service-own : (id : String) → has_service id c own ≡ has_service id c db
  unfolding alone view
  has_service-own id =
      any-filter-kept (owned_service id c) (offers c) (λ s e. (and_true (s.id == id) _ e).1)
        db.services

  pub owned_images-own : (service : String) → owned_images service c own ≡ owned_images service c db
  unfolding alone view
  owned_images-own service = elim (Bool-cases (has_service service c db)) [
    | inl mine ↦
        rw (has_service-own service, mine)
          (filter-filter (image_of service) (λ (i : ServiceImage). has_service i.service_id c db)
            (λ i e. ap (λ x. has_service x c db) (eq_of_beq i.service_id service e) ∙ mine)
            db.service_images)
    | inr other ↦ rw (has_service-own service, other) refl
  ]

  pub pictures-own :
      (project : String)
      → has_project project c db ≡ true
      → filter (picture_of project) own.project_images
        ≡ filter (picture_of project) db.project_images
  unfolding alone view
  pictures-own project mine =
      filter-filter (picture_of project) (λ (i : ProjectImage). has_project i.project_id c db)
        (λ i e. ap (λ x. has_project x c db) (eq_of_beq i.project_id project e) ∙ mine)
        db.project_images

  pub projects-All :
      All (λ (p : CompanyProject). has_project p.id c db ≡ true) (filter (made_by c) db.projects)
  projects-All = made_by-All c db.projects
