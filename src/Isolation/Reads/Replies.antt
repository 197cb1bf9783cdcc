-- ===== src/Isolation/Reads/Replies.antt =====
-- What the calls of a panel answer on the tables with its company's rows alone.
use proindustrial_backend.Common.{
  All, Bool-cases, List, Option, String, [], and_true, ap, filter, if◌then◌else◌, inl, inr, nat_eq,
  none, refl, some, string_eq, sym, text_eq, true, ℕ, ◌+◌, ◌∙◌, ◌∷◌, ◌≡◌,
}
use proindustrial_backend.Database.{
  Action, Db, Driver, Result, World, connection, err, ok, one, query, settle, statement,
}
use proindustrial_backend.Http.{Handler, Reply, call}
use proindustrial_backend.Isolation.Reads.Tables.{
  own, pictures-own, projects-All, projects-own, quotes-own, services-own,
}
use proindustrial_backend.Companies.{found_company}
use proindustrial_backend.Gallery.Panel.{data_or_plain}
use proindustrial_backend.Media.{has_project}
use proindustrial_backend.Media.Projects.{
  attach_pictures, found_pictures, list_projects, made_by, project_before,
}
use proindustrial_backend.Model.{CompanyProject, ProjectImage, leb_int}
use proindustrial_backend.Panel.{after_count, after_stats, dashboard_stats}
use proindustrial_backend.Quotes.{DashboardStats, stats, with_status}
use proindustrial_backend.Quotes.Inbox.{data_or}
use proindustrial_backend.Services.{count_services, offers}
use proindustrial_backend.Tables.{count, is_id, sort_by}
use proindustrial_backend.Database.Laws.{query_runs, statement_fails, >>=_of_err, >>=_of_ok}
use proindustrial_backend.Tables.Sorting.{sort_by-All}

-- What a statement answers, without the tables that it leaves.
abbrev pub outcome : {A : Type 0} → Result (A × Db) → Result A
outcome (ok (a, db)) = ok a
outcome (err e) = err e

-- A handler that answers by the result of its call alone.
abbrev pub Answers : {A B : Type 0} → (Result A → Handler B) → Type 0
Answers {A} k = (r : Result A) (w w' : World) → (k r w).0 ≡ (k r w').0

settle-outcome :
    {A : Type 0} (db : Db) (t : ℕ) (r : Result (A × Db)) → (settle db t r).0 ≡ outcome r
settle-outcome db t (ok (a, db')) = refl
settle-outcome db t (err e) = refl

pub one-outcome :
    {A : Type 0} (o : Option A) (db db' : Db) → outcome (one o db) ≡ outcome (one o db')
one-outcome none db db' = refl
one-outcome (some a) db db' = refl

-- Two worlds that give a call the same result give such a handler the same answer.
pub call_reply :
    {A B : Type 0} (m : Action A) (k : Result A → Handler B) (w w' : World)
    → Answers k
    → (m w).0 ≡ (m w').0
    → (call m k w).0 ≡ (call m k w').0
unfolding call
call_reply m k w w' h e = h (m w).0 (m w).1 (m w').1 ∙ ap (λ r. (k r (m w').1).0) e

pub data_or-Answers : {A : Type 0} (reply : Reply A) → Answers (data_or reply)
data_or-Answers reply (ok a) w w' = refl
data_or-Answers reply (err e) w w' = refl

pub data_or_plain-Answers : {A : Type 0} → Answers (data_or_plain {A = A})
data_or_plain-Answers (ok a) w w' = refl
data_or_plain-Answers (err e) w w' = refl

pub found_company-Answers : Answers found_company
found_company-Answers (ok a) w w' = refl
found_company-Answers (err e) w w' = refl

after_count-Answers : (s : DashboardStats) → Answers (after_count s)
after_count-Answers s (ok n) w w' = refl
after_count-Answers s (err e) w w' = refl

module _ (d : Driver) where
  statement-outcome :
      {A : Type 0} (run : ℕ → Db → Result (A × Db)) (w : World)
      → (statement d run w).0
        ≡ (if d.fails w.tick then err connection else outcome (run w.tick w.db))
  unfolding statement
  statement-outcome run w = elim (Bool-cases (d.fails w.tick)) [
    | inl fails ↦ rw fails refl
    | inr runs ↦ rw runs (settle-outcome w.db (w.tick + 1) (run w.tick w.db))
  ]

  query-world :
      {A : Type 0} (f : Db → A) (w : World)
      → (query d f w).1 ≡ record { db = w.db; tick = w.tick + 1 }
  unfolding statement
  query-world f w = elim (Bool-cases (d.fails w.tick)) [
    | inl fails ↦ rw fails refl
    | inr runs ↦ rw runs refl
  ]

  module _ (c : String) (db : Db) where
    -- The tables with the company's rows alone, and all tables, after as many statements.
    abbrev pub few : ℕ → World
    few t = record { db = own c db; tick = t }

    abbrev pub all : ℕ → World
    all t = record { db = db; tick = t }

    pub statement_same :
        {A : Type 0} (run : ℕ → Db → Result (A × Db)) (t : ℕ)
        → outcome (run t (own c db)) ≡ outcome (run t db)
        → (statement d run (few t)).0 ≡ (statement d run (all t)).0
    statement_same run t e =
        statement-outcome run (few t)
        ∙ ap (λ r. if d.fails t then err connection else r) e
        ∙ sym (statement-outcome run (all t))

    pub query_same :
        {A : Type 0} (f : Db → A) (t : ℕ)
        → f (own c db) ≡ f db
        → (query d f (few t)).0 ≡ (query d f (all t)).0
    query_same f t e = statement_same (λ t db. ok (f db, db)) t (ap ok e)

    after_stats-own :
        (r : Result DashboardStats) (t : ℕ)
        → (after_stats d c r (few t)).0 ≡ (after_stats d c r (all t)).0
    unfolding count_services
    after_stats-own (ok s) t =
        call_reply (count_services d c) (after_count s) (few t) (all t) (after_count-Answers s)
          (query_same (λ db. count (offers c) db.services) t (services-own c db).1)
    after_stats-own (err e) t = refl

    stats-own : (t : ℕ) → (stats d c (few t)).0 ≡ (stats d c (all t)).0
    unfolding stats
    stats-own t = query_same _ t (λ i. record {
      total_quotes = (quotes-own c db (λ q. is_id c q.target_company_id) (λ q e. e)).1 i;
      new_quotes = (with_status-own "new") i;
      read_quotes = (with_status-own "read") i;
      responded_quotes = (with_status-own "responded") i;
      total_services = 0;
    })
      where
        with_status-own :
            (s : String)
            → count (with_status c s) (own c db).quotes ≡ count (with_status c s) db.quotes
        with_status-own s =
            (quotes-own c db (with_status c s)
              (λ q e. (and_true (is_id c q.target_company_id) _ e).0)).1

    stats-world : (w : World) → (stats d c w).1 ≡ record { db = w.db; tick = w.tick + 1 }
    unfolding stats
    stats-world w = query-world _ w

    pub dashboard_stats-own :
        (t : ℕ) → (dashboard_stats d c (few t)).0 ≡ (dashboard_stats d c (all t)).0
    unfolding dashboard_stats call
    dashboard_stats-own t =
        ap (λ w. (after_stats d c (stats d c (few t)).0 w).0) (stats-world (few t))
        ∙ after_stats-own (stats d c (few t)).0 (t + 1)
        ∙ ap (λ r. (after_stats d c r (all (t + 1))).0) (stats-own t)
        ∙ ap (λ w. (after_stats d c (stats d c (all t)).0 w).0) (sym (stats-world (all t)))

    attach-own :
        (ps : List CompanyProject) (t : ℕ)
        → All (λ (p : CompanyProject). has_project p.id c db ≡ true) ps
        → (attach_pictures d ps (few t)).0 ≡ (attach_pictures d ps (all t)).0
    unfolding attach_pictures
    attach-own [] t h = refl
    attach-own (p ∷ ps) t (mine, h) =
        let first = query_same _ t (
          ap (sort_by (λ (a b : ProjectImage). leb_int a.sort_order b.sort_order))
            (pictures-own c db p.id mine)) in
        let rest =
          ap (λ w. (attach_pictures d ps w).0) (query-world _ (few t))
          ∙ attach-own ps (t + 1) h
          ∙ ap (λ w. (attach_pictures d ps w).0) (sym (query-world _ (all t))) in
        λ i. (p, found_pictures (first i)) ∷ rest i

    pub list_projects-own : (t : ℕ) → (list_projects d c (few t)).0 ≡ (list_projects d c (all t)).0
    unfolding list_projects
    list_projects-own t = elim (Bool-cases (d.fails t)) [
      | inl fails ↦
          fst_path (>>=_of_err _ _ (few t) (statement_fails d _ (few t) fails))
          ∙ sym (fst_path (>>=_of_err _ _ (all t) (statement_fails d _ (all t) fails)))
      | inr runs ↦
          fst_path (>>=_of_ok _ _ (few t) (query_runs d rows (few t) runs))
          ∙ ap (λ ps. ok (attach_pictures d (sort_by project_before ps) (few (t + 1))).0)
              (projects-own c db)
          ∙ ap ok (
              attach-own (sort_by project_before (filter (made_by c) db.projects)) (t + 1) (
                sort_by-All project_before (λ (p : CompanyProject). has_project p.id c db ≡ true)
                  (filter (made_by c) db.projects) (projects-All c db)))
          ∙ sym (fst_path (>>=_of_ok _ _ (all t) (query_runs d rows (all t) runs)))
    ]
      where
        rows : Db → List CompanyProject
        rows db = sort_by project_before (filter (made_by c) db.projects)

        fst_path : {A B : Type 0} {p q : A × B} → p ≡ q → p.0 ≡ q.0
        fst_path e = ap (λ x. x.0) e
