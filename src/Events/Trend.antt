-- ===== src/Events/Trend.antt =====
-- The daily figures of a company (internal/repository/event_repo.go), against a count day by day.
use mathlib.Core.List.{map}
use proindustrial_backend.Common.{
  Bool, Bool-cases, List, Option, [], ap, beq_of_ne, ne_of_beq, sym, or_true, any, arith, contains,
  eq_of_beq, false, filter, find, if◌then◌else◌, inl, inr, leb, leb-false, leb_of_le, length,
  nat_eq, none, refl, some, string_eq, suc, text_eq, true, zero, ℕ, ◌-◌, ◌==◌, ◌∙◌, ◌∷◌, ◌≡◌, ◌≢◌,
}
use proindustrial_backend.Events.{
  Calendar, DailyMetric, EventDay, QuoteDay, day_of_event, day_of_quote, event_day, event_days,
  event_on, group_from, is_click, is_view, quote_day, quote_days, quotes_on, metric, series, trend,
}
use proindustrial_backend.Database.{EventRow}
use proindustrial_backend.Model.{QuoteRequest}
use proindustrial_backend.Tables.{count, insert_by, sort_by}

apart : (seen : List ℕ) (x y : ℕ) → contains seen x ≡ true → contains seen y ≡ false → x ≢ y
apart seen x y h k e = cc (h, k, ap (contains seen) e)

-- The first row of a key, in what `GROUP BY` makes of the rows.
module _ {A B : Type 0} (key : A → ℕ) (of_group : ℕ → List A → B) (day_of : B → ℕ)
    (keyed : (k : ℕ) (l : List A) → day_of (of_group k l) ≡ k) where
  abbrev on : ℕ → B → Bool
  on day b = day_of b == day

  abbrev at_day : ℕ → A → Bool
  at_day day a = key a == day

  group_off : (k day : ℕ) (l : List A) → k ≢ day → on day (of_group k l) ≡ false
  group_off k day l h = rw (keyed k l) (beq_of_ne k day h)

  find-group_from_seen :
      (seen : List ℕ) (all l : List A) (day : ℕ)
      → contains seen day ≡ true
      → find (on day) (group_from key of_group seen all l) ≡ none
  unfolding group_from
  find-group_from_seen seen all [] day h = refl
  find-group_from_seen seen all (a ∷ l) day h = elim (Bool-cases (contains seen (key a))) [
    | inl old ↦ rw old (find-group_from_seen seen all l day h)
    | inr new ↦
        rw
          (
            new,
            group_off (key a) day (filter (at_day (key a)) all)
                (λ e. apart seen day (key a) h new (sym e)),
          )
          (find-group_from_seen (key a ∷ seen) all l day
            (unfold contains in rw (h, or_true (day == key a)) refl))
  ]

  find-group_from :
      (seen : List ℕ) (all l : List A) (day : ℕ)
      → contains seen day ≡ false
      → find (on day) (group_from key of_group seen all l)
        ≡ (if any (at_day day) l then some (of_group day (filter (at_day day) all)) else none)
  unfolding group_from
  find-group_from seen all [] day h = refl
  find-group_from seen all (a ∷ l) day h = elim (Bool-cases (contains seen (key a))) [
    | inl old ↦
        rw (old, beq_of_ne (key a) day (apart seen (key a) day old h))
          (find-group_from seen all l day h)
    | inr new ↦ elim (Bool-cases (key a == day)) [
      | inl hit ↦
          rw (new, keyed (key a) (filter (at_day (key a)) all), hit)
            (ap (λ k. some (of_group k (filter (at_day k) all))) (eq_of_beq (key a) day hit))
      | inr miss ↦
          rw
            (
              new,
              group_off (key a) day (filter (at_day (key a)) all) (ne_of_beq (key a) day miss),
              miss,
            )
            (find-group_from (key a ∷ seen) all l day (
              unfold contains in
              rw (h, beq_of_ne day (key a) (λ e. ne_of_beq (key a) day miss (sym e))) refl))
    ]
  ]

-- Sorting by the key leaves the first row of each key the first.
module _ {B : Type 0} (day_of : B → ℕ) (day : ℕ) where
  abbrev earlier : B → B → Bool
  earlier a b = leb (day_of a) (day_of b)

  abbrev first : List B → Option B
  first = find (λ b. day_of b == day)

  find-insert_by : (a : B) (l : List B) → first (insert_by earlier a l) ≡ first (a ∷ l)
  find-insert_by a [] = refl
  find-insert_by a (b ∷ l) = elim (Bool-cases (leb (day_of a) (day_of b))) [
    | inl before ↦ rw before refl
    | inr after ↦
        rw (after, find-insert_by a l) (ground (arith, leb-false (day_of a) (day_of b) after))
  ]

  find-sort_by : (l : List B) → first (sort_by earlier l) ≡ first l
  find-sort_by [] = refl
  find-sort_by (a ∷ l) =
      find-insert_by a (sort_by earlier l)
      ∙ ap (λ o. if day_of a == day then some a else o) (find-sort_by l)

filter_none : {A : Type 0} (p : A → Bool) (l : List A) → any p l ≡ false → filter p l ≡ []
filter_none p [] h = refl
filter_none p (a ∷ l) h = elim (Bool-cases (p a)) [
  | inl hit ↦ absurd (cc (rw hit at h))
  | inr miss ↦ rw miss (filter_none p l (rw miss at h))
]

-- The days of a range, the first one first.
abbrev pub last_days : ℕ → ℕ → List ℕ
last_days today zero = []
last_days today (suc i) = (today - i) ∷ last_days today i

-- What is counted on a day, from the rows themselves.
module _ (calendar : Calendar) (es : List EventRow) (qs : List QuoteRequest) where
  abbrev pub events_of : ℕ → List EventRow
  events_of day = filter (λ e. day_of_event calendar e == day) es

  abbrev pub requests_of : ℕ → List QuoteRequest
  requests_of day = filter (λ q. day_of_quote calendar q == day) qs

  abbrev pub daily_metric : ℕ → DailyMetric
  daily_metric day = record {
    date = day;
    profile_views = count is_view (events_of day);
    contact_clicks = count is_click (events_of day);
    rfqs = length (requests_of day);
  }

  event_on-find :
      (l : List EventDay) (day : ℕ)
      → event_on l day ≡ elim (find (λ (e : EventDay). e.day == day) l) [
        | none ↦ record { day = 0; pv = 0; cc = 0 }
        | some e ↦ e
      ]
  event_on-find [] day = refl
  event_on-find (e ∷ l) day = elim (Bool-cases (e.day == day)) [
    | inl hit ↦ rw hit refl
    | inr miss ↦ rw miss (event_on-find l day)
  ]

  quotes_on-find :
      (l : List QuoteDay) (day : ℕ)
      → quotes_on l day
        ≡ elim (find (λ (q : QuoteDay). q.day == day) l) [ none ↦ 0 | some q ↦ q.cnt ]
  quotes_on-find [] day = refl
  quotes_on-find (q ∷ l) day = elim (Bool-cases (q.day == day)) [
    | inl hit ↦ rw hit refl
    | inr miss ↦ rw miss (quotes_on-find l day)
  ]

  event_on-days :
      (day : ℕ)
      → ((event_on (event_days calendar es) day).pv ≡ count is_view (events_of day))
        × ((event_on (event_days calendar es) day).cc ≡ count is_click (events_of day))
  unfolding event_days contains
  event_on-days day =
      let grouped = group_from (day_of_event calendar) event_day [] es es in
      let found =
        find-sort_by (λ (e : EventDay). e.day) day grouped
        ∙ find-group_from (day_of_event calendar) event_day (λ (e : EventDay). e.day) (λ k l. refl)
            [] es es day refl in
      rw (event_on-find (event_days calendar es) day, found)
        (elim (Bool-cases (any (λ e. day_of_event calendar e == day) es)) [
          | inl some_row ↦ rw some_row (refl, refl)
          | inr no_row ↦
              rw (no_row, filter_none (λ e. day_of_event calendar e == day) es no_row) (refl, refl)
        ])

  quotes_on-days : (day : ℕ) → quotes_on (quote_days calendar qs) day ≡ length (requests_of day)
  unfolding quote_days contains
  quotes_on-days day =
      rw
        (
          quotes_on-find (quote_days calendar qs) day,
          find-group_from (day_of_quote calendar) quote_day (λ (q : QuoteDay). q.day) (λ k l. refl)
              [] qs qs day refl,
        )
        (elim (Bool-cases (any (λ q. day_of_quote calendar q == day) qs)) [
          | inl some_row ↦ rw some_row refl
          | inr no_row ↦
              rw (no_row, filter_none (λ q. day_of_quote calendar q == day) qs no_row) refl
        ])

  metric-daily :
      (day : ℕ) → metric (event_days calendar es) (quote_days calendar qs) day ≡ daily_metric day
  metric-daily day = λ i. record {
    date = day;
    profile_views = (event_on-days day).0 i;
    contact_clicks = (event_on-days day).1 i;
    rfqs = quotes_on-days day i;
  }

  abbrev rows : ℕ → ℕ → List DailyMetric
  rows = series (event_days calendar es) (quote_days calendar qs)

  series-daily : (today n : ℕ) → rows today n ≡ map daily_metric (last_days today n)
  unfolding series
  series-daily today zero = refl
  series-daily today (suc i) = λ k. metric-daily (today - i) k ∷ series-daily today i k

  abbrev by_date : DailyMetric → DailyMetric → Bool
  by_date a b = leb a.date b.date

  -- The loop makes its rows in order.
  insert_by-daily :
      (today i : ℕ)
      → insert_by by_date (daily_metric (today - i)) (map daily_metric (last_days today i))
        ≡ daily_metric (today - i) ∷ map daily_metric (last_days today i)
  insert_by-daily today zero = refl
  insert_by-daily today (suc i) = rw (leb_of_le (today - suc i) (today - i) (omega arith)) refl

  sort_by-daily :
      (today n : ℕ)
      → sort_by by_date (map daily_metric (last_days today n))
        ≡ map daily_metric (last_days today n)
  sort_by-daily today zero = refl
  sort_by-daily today (suc i) =
      ap (insert_by by_date (daily_metric (today - i))) (sort_by-daily today i)
      ∙ insert_by-daily today i

  pub trend-daily :
      (today n : ℕ)
      → trend (event_days calendar es) (quote_days calendar qs) today n
        ≡ map daily_metric (last_days today n)
  unfolding trend
  trend-daily today n = ap (sort_by by_date) (series-daily today n) ∙ sort_by-daily today n
