-- ===== src/Events.antt =====
-- internal/repository/event_repo.go: the events of the public pages, and the figures of a company.
-- A day is its number; `DATE(… AT TIME ZONE 'UTC')` and an interval of days are the parameters
-- `day` and `days_before`.
pub mod Trend
pub mod Tracking
pub mod Analytics
use proindustrial_backend.Common.{
  Bool, List, Option, String, [], any, contains, filter, if◌then◌else◌, leb, length, ltb, nat_eq,
  none, some, string_eq, suc, text_eq, zero, ℕ, ◌&&◌, ◌++◌, ◌-◌, ◌==◌, ◌||◌, ◌∷◌,
}
use proindustrial_backend.Common.Text.{Text, codes, trim_space}
use proindustrial_backend.Admin.{nullable_str}
use proindustrial_backend.Database.{
  Action, Db, Driver, EventRow, Result, World, err, foreign_key_violation, ok, statement,
  unique_violation,
}
use proindustrial_backend.Gallery.Panel.{data_or_plain}
use proindustrial_backend.Http.{Handler, answer, call, refuse, respond}
use proindustrial_backend.Model.{Company, QuoteRequest}
use proindustrial_backend.Tables.{count, is_id, sort_by}

pub record Calendar : Type 0 where
  pub day : ℕ → ℕ
  pub days_before : ℕ → ℕ → ℕ

pub record EventInput : Type 0 where
  pub company_id : String
  pub event_type : String
  pub visitor_id : Text
  pub referrer : Text

abbrev pub event_row : Driver → ℕ → EventInput → Text → EventRow
event_row d t input ip_hash = record {
  event = record {
    id = d.uuid t;
    company_id = input.company_id;
    event_type = input.event_type;
    created_at = d.now t;
  };
  visitor_id = nullable_str input.visitor_id;
  referrer = nullable_str input.referrer;
  ip_hash = nullable_str ip_hash;
}

unfoldable pub insert_event_row : EventRow → Db → Result (Unit {0} × Db)
insert_event_row e db =
    if any (λ (x : EventRow). x.event.id == e.event.id) db.events
    then err unique_violation
    else if any (λ (c : Company). c.id == e.event.company_id) db.companies
    then ok (tt, record db { events = e ∷ db.events })
    else err foreign_key_violation

-- `Insert`
unfoldable pub insert_event : Driver → EventInput → Text → Action (Unit {0})
insert_event d input ip_hash = statement d (λ t. insert_event_row (event_row d t input ip_hash))

pub record DailyMetric : Type 0 where
  pub date : ℕ
  pub profile_views : ℕ
  pub contact_clicks : ℕ
  pub rfqs : ℕ

-- `ContactRate` is the quotient of clicks and views, 0 without views; here the two numbers.
pub record AnalyticsTotals : Type 0 where
  pub profile_views : ℕ
  pub contact_clicks : ℕ
  pub quote_form_opens : ℕ
  pub quote_form_submits : ℕ
  pub rfqs_received : ℕ
  pub contact_rate : Option (ℕ × ℕ)

pub record AnalyticsResult : Type 0 where
  pub range : String
  pub days : ℕ
  pub totals : AnalyticsTotals
  pub trend : List DailyMetric

abbrev pub event_is : String → EventRow → Bool
event_is kind e = e.event.event_type == kind

abbrev pub is_view : EventRow → Bool
is_view = event_is "profile_view"

abbrev pub is_click : EventRow → Bool
is_click e =
    event_is "contact_click_phone" e
    || event_is "contact_click_whatsapp" e
    || event_is "contact_click_email" e

-- `company_id = $1 AND created_at >= …`
abbrev pub recent_event : String → ℕ → EventRow → Bool
recent_event company since e = e.event.company_id == company && leb since e.event.created_at

abbrev pub recent_quote : String → ℕ → QuoteRequest → Bool
recent_quote company since q = is_id company q.target_company_id && leb since q.created_at

abbrev pub contact_rate : ℕ → ℕ → Option (ℕ × ℕ)
contact_rate clicks views = if ltb 0 views then some (clicks, views) else none

-- The first query, on the events in range.
unfoldable pub event_totals : List EventRow → AnalyticsTotals
event_totals es = record {
  profile_views = count is_view es;
  contact_clicks = count is_click es;
  quote_form_opens = count (event_is "quote_form_open") es;
  quote_form_submits = count (event_is "quote_form_submit") es;
  rfqs_received = 0;
  contact_rate = none;
}

-- The rows of `GROUP BY day`: a group begins with the first row of a day not seen yet.
module _ {A B : Type 0} (key : A → ℕ) (of_group : ℕ → List A → B) where
  unfoldable pub group_from : List ℕ → List A → List A → List B
  group_from seen all [] = []
  group_from seen all (a ∷ l) =
      let rest = group_from (key a ∷ seen) all l in
      let others = group_from seen all l in
      if contains seen (key a)
      then others
      else of_group (key a) (filter (λ x. key x == key a) all) ∷ rest

-- A row of the second query: the day, the views and the clicks.
pub record EventDay : Type 0 where
  pub day : ℕ
  pub pv : ℕ
  pub cc : ℕ

abbrev pub event_day : ℕ → List EventRow → EventDay
event_day day es = record { day = day; pv = count is_view es; cc = count is_click es }

-- A row of the third query: the day and the requests.
pub record QuoteDay : Type 0 where
  pub day : ℕ
  pub cnt : ℕ

abbrev pub quote_day : ℕ → List QuoteRequest → QuoteDay
quote_day day qs = record { day = day; cnt = length qs }

module _ (calendar : Calendar) where
  abbrev pub day_of_event : EventRow → ℕ
  day_of_event e = calendar.day e.event.created_at

  abbrev pub day_of_quote : QuoteRequest → ℕ
  day_of_quote q = calendar.day q.created_at

  unfoldable pub event_days : List EventRow → List EventDay
  event_days es =
      sort_by (λ (a b : EventDay). leb a.day b.day) (group_from day_of_event event_day [] es es)

  unfoldable pub quote_days : List QuoteRequest → List QuoteDay
  quote_days qs = group_from day_of_quote quote_day [] qs qs

-- The maps by day: `ev` is the empty row where there is none.
abbrev pub event_on : List EventDay → ℕ → EventDay
event_on [] day = record { day = 0; pv = 0; cc = 0 }
event_on (e ∷ es) day = if e.day == day then e else event_on es day

abbrev pub quotes_on : List QuoteDay → ℕ → ℕ
quotes_on [] day = 0
quotes_on (q ∷ qs) day = if q.day == day then q.cnt else quotes_on qs day

abbrev pub metric : List EventDay → List QuoteDay → ℕ → DailyMetric
metric es qs day = record {
  date = day;
  profile_views = (event_on es day).pv;
  contact_clicks = (event_on es day).cc;
  rfqs = quotes_on qs day;
}

-- The loop from `days - 1` down to 0.
unfoldable pub series : List EventDay → List QuoteDay → ℕ → ℕ → List DailyMetric
series es qs today zero = []
series es qs today (suc i) = metric es qs (today - i) ∷ series es qs today i

-- The series, then `sort.Slice` by the date.
unfoldable pub trend : List EventDay → List QuoteDay → ℕ → ℕ → List DailyMetric
trend es qs today days =
    sort_by (λ (a b : DailyMetric). leb a.date b.date) (series es qs today days)

abbrev pub range_label : ℕ → String
range_label days = if days == 7 then "7d" else if days == 90 then "90d" else "30d"

-- An error of a query that the code ignores.
abbrev pub or_default : {A : Type 0} → A → Result A → A
or_default a (ok b) = b
or_default a (err e) = a

abbrev pub with_rfqs : ℕ → AnalyticsTotals → AnalyticsTotals
with_rfqs n t = record t {
  rfqs_received = n;
  contact_rate = contact_rate t.contact_clicks t.profile_views;
}

module _ (d : Driver) (calendar : Calendar) (clock : ℕ) where
  -- A query over the rows in range at the time of the statement.
  abbrev pub recent : {A : Type 0} → String → ℕ → (List EventRow → A) → Action A
  recent company days f = statement d (λ t db.
      ok (f (filter (recent_event company (calendar.days_before (d.now t) days)) db.events), db))

  abbrev pub recent_requests : {A : Type 0} → String → ℕ → (List QuoteRequest → A) → Action A
  recent_requests company days f = statement d (λ t db.
      ok (f (filter (recent_quote company (calendar.days_before (d.now t) days)) db.quotes), db))

  abbrev pub result_of :
      ℕ
      → AnalyticsTotals
      → Result ℕ
      → Result (List EventDay)
      → Result (List QuoteDay)
      → AnalyticsResult
  result_of days totals n es qs = record {
    range = range_label days;
    days = days;
    totals = with_rfqs (or_default 0 n) totals;
    trend = trend (or_default [] es) (or_default [] qs) (calendar.day clock) days;
  }

  abbrev pub after_totals :
      String → ℕ → Result AnalyticsTotals → World → Result AnalyticsResult × World
  after_totals company days (err e) w = (err e, w)
  after_totals company days (ok totals) w =
      let (n, w1) = recent_requests company days length w in
      let (es, w2) = recent company days (event_days calendar) w1 in
      let (qs, w3) = recent_requests company days (quote_days calendar) w2 in
      (ok (result_of days totals n es qs), w3)

  -- `EventRepo.GetAnalytics`, with the time of the process as `clock`.
  unfoldable pub analytics : String → ℕ → Action AnalyticsResult
  analytics company days w =
      let (r, w') = recent company days event_totals w in after_totals company days r w'
