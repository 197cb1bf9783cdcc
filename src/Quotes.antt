-- ===== src/Quotes.antt =====
-- internal/repository/quote_repo.go: the requests for quotations that companies receive.
pub mod Inbox
pub mod States
pub mod Totals
use proindustrial_backend.Common.{
  Bool, List, Option, String, [], any, contains, filter, find, if◌then◌else◌, leb, length, map_if,
  nat_eq, none, some, string_eq, text_eq, true, ℕ, ◌&&◌, ◌==◌, ◌||◌, ◌∷◌,
}
use proindustrial_backend.Common.Text.{Text}
use proindustrial_backend.Admin.{nullable_str}
use proindustrial_backend.Database.{
  Action, Db, Driver, Error, Result, check_violation, err, fits, foreign_key_violation,
  invalid_outcome, is_no_rows, no_rows, not_found, ok, query, require, statement, too_long,
  unique_violation, ◌>>=◌, ◌>>◌,
}
use proindustrial_backend.Model.{Company, QuoteRequest}
use proindustrial_backend.Tables.{count, is_id, sort_desc}

pub record CreateQuoteInput : Type 0 where
  pub requester_name : Text
  pub requester_company : Text
  pub requester_email : Text
  pub requester_phone : Text
  pub service : Text
  pub description : Text
  pub location : Text
  pub target_company_id : String

-- `nullableStr` on an identifier
abbrev pub nullable_id : String → Option String
nullable_id id = if id == "" then none else some id

abbrev pub quote_row : Driver → ℕ → CreateQuoteInput → QuoteRequest
quote_row d t input = record {
  id = d.uuid t;
  requester_name = input.requester_name;
  requester_company = nullable_str input.requester_company;
  requester_email = input.requester_email;
  requester_phone = nullable_str input.requester_phone;
  service = input.service;
  description = nullable_str input.description;
  location = nullable_str input.location;
  target_company_id = nullable_id input.target_company_id;
  status = "new";
  reply_note = none;
  replied_at = none;
  outcome = none;
  outcome_note = none;
  closed_at = none;
  first_response_at = none;
  tags = [];
  follow_up_at = none;
  outcome_amount_clp = none;
  created_at = d.now t;
}

-- The widths of the columns of `quote_requests`.
abbrev pub quote_fits : QuoteRequest → Bool
quote_fits q =
    leb (length q.requester_name) 200
    && fits 200 q.requester_company
    && leb (length q.requester_email) 200
    && fits 50 q.requester_phone
    && leb (length q.service) 200
    && fits 200 q.location

-- The CHECK constraint on the status.
unfoldable pub quote_statuses : List String
quote_statuses = "new" ∷ "read" ∷ "responded" ∷ []

-- A reference to `companies` that may be NULL.
abbrev pub refers : Option String → Db → Bool
refers none db = true
refers (some c) db = any (λ (x : Company). x.id == c) db.companies

unfoldable pub insert_quote : QuoteRequest → Db → Result (QuoteRequest × Db)
insert_quote q db =
    if quote_fits q
    then if any (λ (x : QuoteRequest). x.id == q.id) db.quotes
      then err unique_violation
      else if refers q.target_company_id db
      then ok (q, record db { quotes = q ∷ db.quotes })
      else err foreign_key_violation
    else err too_long

unfoldable pub create_quote : Driver → CreateQuoteInput → Action QuoteRequest
create_quote d input = statement d (λ t. insert_quote (quote_row d t input))

-- `target_company_id = $1`, and the status where one is asked for.
abbrev pub listed_quote : String → String → QuoteRequest → Bool
listed_quote company status q =
    is_id company q.target_company_id && (status == "" || q.status == status)

-- `ListByCompany`
unfoldable pub list_by_company : Driver → String → String → Action (List QuoteRequest)
list_by_company d company status = query d (λ db.
    sort_desc (λ (q : QuoteRequest). q.created_at) (filter (listed_quote company status) db.quotes))

-- `WHERE id = $1 AND target_company_id = $2`
abbrev pub owned_quote : String → String → QuoteRequest → Bool
owned_quote id company q = q.id == id && is_id company q.target_company_id

-- `UPDATE quote_requests SET … WHERE … RETURNING *`
unfoldable pub update_quote :
    (QuoteRequest → Bool) → (QuoteRequest → QuoteRequest) → Db → Result (QuoteRequest × Db)
update_quote test set db = elim (find test db.quotes) [
  | none ↦ err Error.no_rows
  | some q ↦
      if contains quote_statuses (set q).status
      then ok (set q, record db { quotes = map_if test set db.quotes })
      else err check_violation
]

unfoldable pub valid_outcomes : List String
valid_outcomes =
    "won" ∷ "negotiating" ∷ "lost_price" ∷ "lost_other" ∷ "no_response" ∷ "cancelled"
    ∷ "no_capacity" ∷ []

abbrev pub closed_quote : ℕ → String → Text → QuoteRequest → QuoteRequest
closed_quote now outcome note q = record q {
  outcome = some outcome;
  outcome_note = nullable_str note;
  closed_at = some now;
}

-- `SetOutcome`
unfoldable pub set_outcome : Driver → String → String → String → Text → Action QuoteRequest
set_outcome d id company outcome note = do
  require (contains valid_outcomes outcome) invalid_outcome
  statement d (λ t. update_quote (owned_quote id company) (closed_quote (d.now t) outcome note))

-- `COALESCE(first_response_at, NOW())`
abbrev pub coalesce : Option ℕ → ℕ → Option ℕ
coalesce none now = some now
coalesce (some t) now = some t

abbrev pub replied_quote : ℕ → Text → QuoteRequest → QuoteRequest
replied_quote now note q = record q {
  reply_note = some note;
  replied_at = some now;
  status = "responded";
  first_response_at = coalesce q.first_response_at now;
}

-- `SetReply`
unfoldable pub set_reply : Driver → String → String → Text → Action QuoteRequest
set_reply d id company note =
    statement d (λ t. update_quote (owned_quote id company) (replied_quote (d.now t) note))

abbrev pub tagged_quote : List Text → QuoteRequest → QuoteRequest
tagged_quote tags q = record q { tags = tags }

-- `SetTags`
unfoldable pub set_tags : Driver → String → String → List Text → Action QuoteRequest
set_tags d id company tags =
    statement d (λ t. update_quote (owned_quote id company) (tagged_quote tags))

abbrev pub followed_quote : Option ℕ → QuoteRequest → QuoteRequest
followed_quote at_time q = record q { follow_up_at = at_time }

-- `SetFollowUp`
unfoldable pub set_follow_up : Driver → String → String → Option ℕ → Action QuoteRequest
set_follow_up d id company at_time =
    statement d (λ t. update_quote (owned_quote id company) (followed_quote at_time))

abbrev pub status_quote : String → QuoteRequest → QuoteRequest
status_quote status q = record q { status = status }

-- `RowsAffected` of a statement that changes at most one row: none is an error of the code's own.
abbrev pub affected : {A : Type 0} → Result (A × Db) → Result (Unit {0} × Db)
affected (ok (a, db)) = ok (tt, db)
affected (err e) = if is_no_rows e then err not_found else err e

-- `UpdateStatus`
unfoldable pub update_status : Driver → String → String → String → Action (Unit {0})
update_status d id company status =
    statement d (λ t db. affected (update_quote (owned_quote id company) (status_quote status) db))

pub record DashboardStats : Type 0 where
  pub total_quotes : ℕ
  pub new_quotes : ℕ
  pub read_quotes : ℕ
  pub responded_quotes : ℕ
  pub total_services : ℕ

abbrev pub with_status : String → String → QuoteRequest → Bool
with_status company status q = is_id company q.target_company_id && q.status == status

-- `Stats`
unfoldable pub stats : Driver → String → Action DashboardStats
stats d company = query d (λ db. record {
  total_quotes = count (λ (q : QuoteRequest). is_id company q.target_company_id) db.quotes;
  new_quotes = count (with_status company "new") db.quotes;
  read_quotes = count (with_status company "read") db.quotes;
  responded_quotes = count (with_status company "responded") db.quotes;
  total_services = 0;
})
