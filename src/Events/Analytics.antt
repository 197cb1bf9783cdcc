-- ===== src/Events/Analytics.antt =====
-- The figures of a company (internal/repository/event_repo.go), where no query fails.
use mathlib.Core.List.{map}
use proindustrial_backend.Common.{
  List, String, false, filter, if◌then◌else◌, length, ltb, nat_eq, none, refl, some, string_eq,
  text_eq, ℕ, ◌+◌, ◌≡◌,
}
use proindustrial_backend.Database.{Driver, EventRow, World, ok, statement}
use proindustrial_backend.Events.{
  AnalyticsResult, Calendar, analytics, event_days, quote_days, result_of, event_is, event_totals,
  is_click, is_view, recent_event, recent_quote,
}
use proindustrial_backend.Events.Trend.{daily_metric, last_days, trend-daily}
use proindustrial_backend.Model.{QuoteRequest}
use proindustrial_backend.Tables.{count}

module _ (d : Driver) (calendar : Calendar) (clock : ℕ) (company : String) (days : ℕ)
    (w : World) where
  -- The rows in range at the time of the n-th query.
  abbrev pub events_at : ℕ → List EventRow
  events_at n = filter (recent_event company (calendar.days_before (d.now n) days)) w.db.events

  abbrev pub requests_at : ℕ → List QuoteRequest
  requests_at n = filter (recent_quote company (calendar.days_before (d.now n) days)) w.db.quotes

  pub record Figures (r : AnalyticsResult) : Type 0 where
    pub views : r.totals.profile_views ≡ count is_view (events_at w.tick)
    pub clicks : r.totals.contact_clicks ≡ count is_click (events_at w.tick)
    pub opens : r.totals.quote_form_opens ≡ count (event_is "quote_form_open") (events_at w.tick)
    pub submits :
        r.totals.quote_form_submits ≡ count (event_is "quote_form_submit") (events_at w.tick)
    pub rfqs : r.totals.rfqs_received ≡ length (requests_at (w.tick + 1))
    pub rate : r.totals.contact_rate ≡ (
        if ltb 0 r.totals.profile_views
        then some (r.totals.contact_clicks, r.totals.profile_views)
        else none)
    pub trend :
        r.trend
        ≡ map
            (daily_metric calendar (events_at (w.tick + 1 + 1)) (requests_at (w.tick + 1 + 1 + 1)))
            (last_days (calendar.day clock) days)

  -- Where none of its four queries fails, the report of a company changes no table, its totals count
  -- the rows in range at the time of each query, and its trend has, for each of the last days in
  -- order, the views, clicks and requests of that day, each counted over the rows themselves.
  pub analytics-Figures :
      d.fails w.tick ≡ false
      → d.fails (w.tick + 1) ≡ false
      → d.fails (w.tick + 1 + 1) ≡ false
      → d.fails (w.tick + 1 + 1 + 1) ≡ false
      → (r : AnalyticsResult) × ((analytics d calendar clock company days w).0 ≡ ok r)
        × Figures r
        × ((analytics d calendar clock company days w).1.db ≡ w.db)
  unfolding analytics statement event_totals
  analytics-Figures a b c e =
      rw (a, b, c, e)
        (
          result_of d calendar clock days (event_totals (events_at w.tick))
              (ok (length (requests_at (w.tick + 1))))
              (ok (event_days calendar (events_at (w.tick + 1 + 1))))
              (ok (quote_days calendar (requests_at (w.tick + 1 + 1 + 1)))),
          refl,
          record {
            views = refl;
            clicks = refl;
            opens = refl;
            submits = refl;
            rfqs = refl;
            rate = refl;
            trend =
                trend-daily calendar (events_at (w.tick + 1 + 1)) (requests_at (w.tick + 1 + 1 + 1))
                  (calendar.day clock) days;
          },
          refl,
        )
