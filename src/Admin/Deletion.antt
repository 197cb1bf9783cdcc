-- ===== src/Admin/Deletion.antt =====
-- What `DeleteApprovedCompanyByRegistration` leaves (internal/repository/admin_repo.go).
use proindustrial_backend.Common.{
  Bool, Bool-cases, List, Option, String, [], any, ap, arith, beq_of_ne, eq_of_beq, false, filter,
  find, if◌then◌else◌, inl, inr, nat_eq, none, not, refl, some, string_eq, subst, sym, text_eq,
  true, ◌!=◌, ◌==◌, ◌∙◌, ◌∷◌, ◌≡◌, ◌≢◌, ◌⊎◌,
}
use proindustrial_backend.Admin.{get_registration}
use proindustrial_backend.Admin.Approval.{Ensures-get_registration}
use proindustrial_backend.Admin.Removal.{
  companies_by_email, delete_approved_company_by_registration, delete_body, delete_company,
  delete_quotes, delete_registration, delete_rows, delete_users, linked_company, only_match,
  without_company,
}
use proindustrial_backend.Database.{
  Db, Driver, EventRow, Result, World, err, foreign_key_violation, ok,
}
use proindustrial_backend.Database.Ensures.{
  Ensures, Ensures-bind, Ensures-query_bind, Ensures-require_bind, Ensures-statement_bind,
  Ensures-transaction,
}
use proindustrial_backend.Database.Laws.{next, statement_ok}
use proindustrial_backend.Model.{
  Company, CompanyCertification, CompanyProject, CompanyService, ProviderRegistration, QuoteRequest,
  User,
}
use proindustrial_backend.Tables.{company_by_id, is_id, registration_by_id}

module _ {A : Type 0} (p q : A → Bool) where
  any-filter : ((x : A) → p x ≡ true → q x ≡ false) → (xs : List A) → any p (filter q xs) ≡ false
  any-filter h [] = refl
  any-filter h (x ∷ xs) = elim (Bool-cases (p x)) [
    | inl hit ↦ rw (h x hit, any-filter h xs)
    | inr miss ↦ elim (Bool-cases (q x)) [
      | inl keep ↦ rw (keep, miss, any-filter h xs)
      | inr drop ↦ rw (drop, any-filter h xs)
    ]
  ]

  find-filter-none :
      ((x : A) → p x ≡ true → q x ≡ false) → (xs : List A) → find p (filter q xs) ≡ none
  find-filter-none h [] = refl
  find-filter-none h (x ∷ xs) = elim (Bool-cases (p x)) [
    | inl hit ↦ rw (h x hit, find-filter-none h xs)
    | inr miss ↦ elim (Bool-cases (q x)) [
      | inl keep ↦ rw (keep, miss, find-filter-none h xs)
      | inr drop ↦ rw (drop, find-filter-none h xs)
    ]
  ]

  find-filter :
      ((x : A) → p x ≡ true → q x ≡ true) → (xs : List A) → find p (filter q xs) ≡ find p xs
  find-filter h [] = refl
  find-filter h (x ∷ xs) = elim (Bool-cases (p x)) [
    | inl hit ↦ rw (h x hit, hit)
    | inr miss ↦ elim (Bool-cases (q x)) [
      | inl keep ↦ rw (keep, miss, find-filter h xs)
      | inr drop ↦ rw (drop, miss, find-filter h xs)
    ]
  ]

abbrev flip : Bool → Bool
flip b = elim b [ true ↦ false | false ↦ true ]

same_differs : (a b : String) → (a == b) ≡ true → (a != b) ≡ false
same_differs a b h = ap flip h

other_differs : (a b c : String) → b ≢ c → (a == b) ≡ true → (a != c) ≡ true
other_differs a b c h k = let e = eq_of_beq a b k in rw e (ap flip (beq_of_ne b c h))

is_true-not : (b : Bool) → b ≡ true → not b ≡ false
is_true-not b h = ground arith

-- The tables `after` hold nothing of the company `c` or of the registration, and every other company.
pub record Erased (id c : String) (before after : Db) : Type 0 where
  pub company : company_by_id c after ≡ none
  pub users : any (λ (u : User). is_id c u.company_id) after.users ≡ false
  pub quotes : any (λ (q : QuoteRequest). is_id c q.target_company_id) after.quotes ≡ false
  pub services : any (λ (s : CompanyService). s.company_id == c) after.services ≡ false
  pub certifications :
      any (λ (x : CompanyCertification). x.company_id == c) after.certifications ≡ false
  pub projects : any (λ (x : CompanyProject). x.company_id == c) after.projects ≡ false
  pub events : any (λ (x : EventRow). x.event.company_id == c) after.events ≡ false
  pub registration : registration_by_id id after ≡ none
  pub others : (other : String) → other ≢ c → company_by_id other after ≡ company_by_id other before

unless_ok :
    (held : Bool) (db : Db) {u : Unit {0}} {after : Db}
    → ◌≡◌ {A = Result (Unit {0} × Db)}
        (if held then err foreign_key_violation else ok (tt, db))
        (ok (u, after))
    → db ≡ after
unless_ok true db h = absurd (cc)
unless_ok false db h = cc

delete_company_ok :
    (c : String) (db : Db) {u : Unit {0}} {after : Db}
    → delete_company c db ≡ ok (u, after)
    → without_company c db ≡ after
unfolding delete_company
delete_company_ok c db h = unless_ok _ (without_company c db) h

-- The four deletions, one after the other.
abbrev erase : String → String → Db → Db
erase id c db = delete_registration id (without_company c (delete_users c (delete_quotes c db)))

erase-Erased : (id c : String) (before : Db) → Erased id c before (erase id c before)
erase-Erased id c before =
    let left = (without_company c (delete_users c (delete_quotes c before))).registrations in
    record {
      company =
          find-filter-none (λ (x : Company). x.id == c) (λ (x : Company). x.id != c)
            (λ x. same_differs x.id c) before.companies;
      users =
          any-filter (λ (u : User). is_id c u.company_id) (λ (u : User). not (is_id c u.company_id))
            (λ u. is_true-not (is_id c u.company_id)) before.users;
      quotes =
          any-filter (λ (q : QuoteRequest). is_id c q.target_company_id)
            (λ (q : QuoteRequest). not (is_id c q.target_company_id))
            (λ q. is_true-not (is_id c q.target_company_id)) before.quotes;
      services =
          any-filter (λ (s : CompanyService). s.company_id == c)
            (λ (s : CompanyService). s.company_id != c) (λ s. same_differs s.company_id c)
            before.services;
      certifications =
          any-filter (λ (s : CompanyCertification). s.company_id == c)
            (λ (s : CompanyCertification). s.company_id != c) (λ s. same_differs s.company_id c)
            before.certifications;
      projects =
          any-filter (λ (s : CompanyProject). s.company_id == c)
            (λ (s : CompanyProject). s.company_id != c) (λ s. same_differs s.company_id c)
            before.projects;
      events =
          any-filter (λ (s : EventRow). s.event.company_id == c)
            (λ (s : EventRow). s.event.company_id != c) (λ s. same_differs s.event.company_id c)
            before.events;
      registration =
          find-filter-none (λ (r : ProviderRegistration). r.id == id)
            (λ (r : ProviderRegistration). r.id != id) (λ r. same_differs r.id id) left;
      others = λ other ne.
          find-filter (λ (x : Company). x.id == other) (λ (x : Company). x.id != c)
            (λ x. other_differs x.id other c ne) before.companies;
    }

-- The company that belongs to the registration: the linked one, or the only one with its address.
abbrev pub Linked : Driver → ProviderRegistration → Db → String → Type 0
Linked d reg db c =
    (reg.company_id ≡ some c)
    ⊎ ((x : Company) × (companies_by_email d.lower reg.email db ≡ x ∷ []) × (x.id ≡ c))

only_match-Ensures :
    (d : Driver) (reg : ProviderRegistration) (db : Db) (cs : List Company) (w : World)
    → w.db ≡ db
    → companies_by_email d.lower reg.email db ≡ cs
    → Ensures (only_match cs) w (λ c after. Linked d reg db c × (after ≡ db))
only_match-Ensures d reg db [] w h k a e = absurd (cc)
only_match-Ensures d reg db (x ∷ []) w h k a e = (inr (x, k, cc), h)
only_match-Ensures d reg db (x ∷ y ∷ cs) w h k a e = absurd (cc)

linked_company-Ensures :
    (d : Driver) (reg : ProviderRegistration) (db : Db) (o : Option String) (w : World)
    → w.db ≡ db
    → reg.company_id ≡ o
    → Ensures (linked_company d reg o) w (λ c after. Linked d reg db c × (after ≡ db))
unfolding linked_company
linked_company-Ensures d reg db (some c) w h k =
    λ a e. let same : c ≡ a = cc in (inl (k ∙ ap some same), h)
linked_company-Ensures d reg db none w h k =
    Ensures-query_bind only_match w (λ c after. Linked d reg db c × (after ≡ db)) d
      (companies_by_email d.lower reg.email)
      λ cs w' e s.
        only_match-Ensures d reg db cs w' (s ∙ h)
          (sym (e ∙ ap (companies_by_email d.lower reg.email) h))

-- What an `Exec` leaves.
exec_ok :
    {u : Unit {0}} {a b : Db} → ◌≡◌ {A = Result (Unit {0} × Db)} (ok (tt, a)) (ok (u, b)) → b ≡ a
exec_ok h = cc

module _ (d : Driver) (id : String) (before : Db) where
  abbrev Deletes : Unit {0} → Db → Type 0
  Deletes u after =
      (reg : ProviderRegistration) × (c : String) × (registration_by_id id before ≡ some reg)
      × (reg.status ≡ "approved")
      × Linked d reg before c
      × Erased id c before after

  delete_rows-Ensures :
      (c : String) (w : World)
      → w.db ≡ before
      → Ensures (delete_rows d id c) w (λ u after. after ≡ erase id c before)
  unfolding delete_rows
  delete_rows-Ensures c w h =
      let Q : Unit {0} → Db → Type 0 = λ u after. after ≡ erase id c before in
      Ensures-statement_bind _ w Q d _ λ u₁ w₁ e₁. Ensures-statement_bind _ w₁ Q d _ λ u₂ w₂ e₂.
        Ensures-statement_bind _ w₂ Q d _ λ u₃ w₃ e₃. λ a ran.
          exec_ok (statement_ok d (λ t db. ok (tt, delete_registration id db)) w₃ ran)
          ∙ ap (delete_registration id) (sym (delete_company_ok c w₂.db e₃))
          ∙ ap (λ db. delete_registration id (without_company c db)) (exec_ok e₂)
          ∙ ap (λ db. delete_registration id (without_company c (delete_users c db))) (exec_ok e₁)
          ∙ ap (erase id c) h

  -- A deletion that returns has found the registration approved, and a company that is linked to
  -- it or the only one with its address; that company is gone, with its users, quotes, services,
  -- certifications, projects and events, and so is the registration; every other company is as it
  -- was.
  pub delete_approved_company_ok :
      (w : World) {u : Unit {0}}
      → w.db ≡ before
      → (delete_approved_company_by_registration d id w).0 ≡ ok u
      → (reg : ProviderRegistration) × (c : String) × (registration_by_id id before ≡ some reg)
        × (reg.status ≡ "approved")
        × Linked d reg before c
        × Erased id c before (delete_approved_company_by_registration d id w).1.db
  unfolding delete_approved_company_by_registration delete_body
  delete_approved_company_ok w {u} h e =
      Ensures-transaction d (delete_body d id) w Deletes
        (Ensures-bind (get_registration d id) _ (next w)
          (λ reg db. (registration_by_id id w.db ≡ some reg) × (db ≡ w.db)) Deletes
          (Ensures-get_registration d id (next w))
          λ reg w₁ (found, s₁). Ensures-require_bind _ w₁ Deletes _ _ λ w₂ approved s₂.
            Ensures-bind (linked_company d reg reg.company_id) _ w₂
              (λ c after. Linked d reg before c × (after ≡ before)) Deletes
              (linked_company-Ensures d reg before reg.company_id w₂ (s₂ ∙ s₁ ∙ h) refl)
              λ c w₃ (linked, s₃). Ensures-query_bind _ w₃ Deletes d _ λ exists w₄ e₄ s₄.
                Ensures-require_bind _ w₄ Deletes _ _ λ w₅ there s₅. λ a ran. (
                  reg,
                  c,
                  ap (registration_by_id id) (sym h) ∙ found,
                  eq_of_beq reg.status "approved" approved,
                  linked,
                  subst (Erased id c before) (sym (delete_rows-Ensures c w₅ (s₅ ∙ s₄ ∙ s₃) a ran))
                      (erase-Erased id c before),
                ))
        u e
