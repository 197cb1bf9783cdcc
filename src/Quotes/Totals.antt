-- ===== src/Quotes/Totals.antt =====
-- The figures of the dashboard (internal/repository/quote_repo.go and internal/handler/panel.go).
use proindustrial_backend.Common.{
  All, Bool, Bool-cases, List, String, [], arith, contains, eq_of_beq, false, if◌then◌else◌, inl,
  inr, nat_eq, refl, string_eq, text_eq, true, ℕ, ◌&&◌, ◌+◌, ◌==◌, ◌∷◌, ◌≡◌,
}
use proindustrial_backend.Database.{Driver, World, statement}
use proindustrial_backend.Http.{answer, call}
use proindustrial_backend.Model.{QuoteRequest}
use proindustrial_backend.Panel.{dashboard_stats}
use proindustrial_backend.Quotes.{DashboardStats, quote_statuses, stats, with_status}
use proindustrial_backend.Services.{count_services, offers}
use proindustrial_backend.Tables.{count, is_id}

-- The status is one of `new`, `read` and `responded`.
abbrev pub HasKnownStatus : QuoteRequest → Type 0
HasKnownStatus q = contains quote_statuses q.status ≡ true

abbrev weight : Bool → ℕ
weight b = if b then 1 else 0

one_status :
    (s : String)
    → contains quote_statuses s ≡ true
    → weight (s == "new") + (weight (s == "read") + weight (s == "responded")) ≡ 1
unfolding quote_statuses contains
one_status s h = elim (Bool-cases (s == "new")) [
  | inl new ↦ rw (eq_of_beq s "new" new) refl
  | inr a ↦ elim (Bool-cases (s == "read")) [
    | inl read ↦ rw (eq_of_beq s "read" read) refl
    | inr b ↦ elim (Bool-cases (s == "responded")) [
      | inl responded ↦ rw (eq_of_beq s "responded" responded) refl
      | inr c ↦ absurd (cc (rw (a, b, c) at h))
    ]
  ]
]

module _ (company : String) where
  abbrev for_company : QuoteRequest → Bool
  for_company q = is_id company q.target_company_id

  -- A row counts once in all, and once under its status.
  one_row :
      (mine : Bool) (s : String)
      → contains quote_statuses s ≡ true
      → weight (mine && s == "new")
          + (weight (mine && s == "read") + weight (mine && s == "responded"))
        ≡ weight mine
  one_row true s h = one_status s h
  one_row false s h = refl

  count-statuses :
      (qs : List QuoteRequest)
      → All HasKnownStatus qs
      → count (with_status company "new") qs
          + (count (with_status company "read") qs + count (with_status company "responded") qs)
        ≡ count for_company qs
  count-statuses [] h = refl
  count-statuses (q ∷ qs) (s, h) =
      omega (arith, one_row (for_company q) q.status s, count-statuses qs h)

  -- The figures of a dashboard, on the tables that it was computed from.
  pub record AddsUp (w : World) (s : DashboardStats) : Type 0 where
    pub total : s.total_quotes ≡ count for_company w.db.quotes
    pub parts : s.new_quotes + (s.read_quotes + s.responded_quotes) ≡ s.total_quotes
    pub services : s.total_services ≡ count (offers company) w.db.services

  -- Where every request of the table has one of the three statuses, a dashboard that is answered
  -- counts all requests of the company and all its services, and its new, read and answered
  -- requests add up to its requests.
  pub dashboard_stats-AddsUp :
      (d : Driver) (w : World) {code : ℕ} {s : DashboardStats}
      → All HasKnownStatus w.db.quotes
      → (dashboard_stats d company w).0 ≡ answer code s
      → AddsUp w s
  unfolding dashboard_stats call stats statement count_services
  dashboard_stats-AddsUp d w known h = ground (arith, count-statuses w.db.quotes known)
