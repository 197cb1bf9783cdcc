-- ===== src/Quotes/States.antt =====
-- The states of a request for a quotation (internal/repository/quote_repo.go).
use proindustrial_backend.Common.{
  All, Bool, Bool-cases, List, Option, String, [], any, contains, find, inl, inr, is_some, map_if,
  nat_eq, none, refl, some, string_eq, sym, text_eq, true, ℕ, ◌==◌, ◌∷◌, ◌≡◌,
}
use proindustrial_backend.Common.Text.{Text}
use proindustrial_backend.Database.{
  Db, Driver, Error, Result, World, check_violation, err, foreign_key_violation, invalid_outcome,
  is_no_rows, ok, too_long, unique_violation,
}
use proindustrial_backend.Database.Keeps.{
  Keeps-require_then, Keeps-statement, Leaves, Leaves-err, Leaves-found, Leaves-guard, Leaves-ok,
  Leaves-unless,
}
use proindustrial_backend.Mail.{failed}
use proindustrial_backend.Model.{QuoteRequest}
use proindustrial_backend.Quotes.{
  CreateQuoteInput, affected, closed_quote, coalesce, create_quote, followed_quote, insert_quote,
  owned_quote, quote_fits, quote_row, quote_statuses, refers, replied_quote, set_follow_up,
  set_outcome, set_reply, set_tags, status_quote, tagged_quote, update_quote, update_status,
  valid_outcomes,
}

-- The calls that write requests.
pub data QuoteCall : Type 0 where
  quote_created : CreateQuoteInput → QuoteCall
  quote_closed : String → String → String → Text → QuoteCall
  quote_replied : String → String → Text → QuoteCall
  quote_tagged : String → String → List Text → QuoteCall
  quote_followed : String → String → Option ℕ → QuoteCall
  quote_marked : String → String → String → QuoteCall

-- The world that a call leaves, whatever it answers.
unfoldable pub run_quote : Driver → QuoteCall → World → World
run_quote d (quote_created input) w = (create_quote d input w).1
run_quote d (quote_closed id company outcome note) w = (set_outcome d id company outcome note w).1
run_quote d (quote_replied id company note) w = (set_reply d id company note w).1
run_quote d (quote_tagged id company tags) w = (set_tags d id company tags w).1
run_quote d (quote_followed id company at_time) w = (set_follow_up d id company at_time w).1
run_quote d (quote_marked id company status) w = (update_status d id company status w).1

unfoldable pub run_quotes : Driver → List QuoteCall → World → World
run_quotes d [] w = w
run_quotes d (c ∷ cs) w = run_quotes d cs (run_quote d c w)

-- An outcome, where there is one, is one of those that the code knows.
abbrev pub IsOutcome : Option String → Type 0
IsOutcome none = Unit
IsOutcome (some o) = contains valid_outcomes o ≡ true

-- A request has been answered where its first answer is dated.
pub record IsSound (q : QuoteRequest) : Type 0 where
  pub status : contains quote_statuses q.status ≡ true
  pub outcome : IsOutcome q.outcome
  pub replied : is_some q.replied_at ≡ is_some q.first_response_at

abbrev pub Sound : Db → Type 0
Sound db = All IsSound db.quotes

abbrev Stays : Db → Db → Type 0
Stays before after = Sound before → Sound after

Stays-refl : (db : Db) → Stays db db
Stays-refl db h = h

Stays-trans : (a b c : Db) → Stays a b → Stays b c → Stays a c
Stays-trans a b c h k s = k (h s)

All-map_if :
    (test : QuoteRequest → Bool) (set : QuoteRequest → QuoteRequest)
    → ((q : QuoteRequest) → IsSound q → IsSound (set q))
    → (qs : List QuoteRequest) → All IsSound qs
    → All IsSound (map_if test set qs)
All-map_if test set h [] k = tt
All-map_if test set h (q ∷ qs) (s, k) = elim (Bool-cases (test q)) [
  | inl hit ↦ rw hit (h q s, All-map_if test set h qs k)
  | inr miss ↦ rw miss (s, All-map_if test set h qs k)
]

coalesce_given : (o : Option ℕ) (now : ℕ) → is_some (coalesce o now) ≡ true
coalesce_given none now = refl
coalesce_given (some t) now = refl

pub affected-Leaves :
    {A : Type 0} {P : Db → Type 0} (r : Result (A × Db)) → Leaves P r → Leaves P (affected r)
affected-Leaves (ok (a, db)) h = Leaves-ok h.tables
affected-Leaves (err e) h = elim (Bool-cases (is_no_rows e)) [
  | inl none_found ↦ rw none_found Leaves-err
  | inr failed ↦ rw failed Leaves-err
]

module _ (d : Driver) where
  update_quote-Stays :
      (test : QuoteRequest → Bool) (set : QuoteRequest → QuoteRequest)
      → ((x : QuoteRequest)
          → contains quote_statuses (set x).status ≡ true
          → (q : QuoteRequest) → IsSound q
          → IsSound (set q))
      → (db : Db) → Leaves (Stays db) (update_quote test set db)
  unfolding update_quote
  update_quote-Stays test set h db = Leaves-found (find test db.quotes) Error.no_rows λ q.
      Leaves-guard (contains quote_statuses (set q).status) check_violation
        λ valid. Leaves-ok {a = set q} (λ s. All-map_if test set (h q valid) db.quotes s)

  insert_quote-Stays :
      (q : QuoteRequest) (db : Db) → IsSound q → Leaves (Stays db) (insert_quote q db)
  unfolding insert_quote
  insert_quote-Stays q db s = Leaves-guard (quote_fits q) too_long λ fit.
      Leaves-unless (any (λ (x : QuoteRequest). x.id == q.id) db.quotes) unique_violation λ new.
        Leaves-guard (refers q.target_company_id db) foreign_key_violation
          λ found. Leaves-ok (λ all. (s, all))

  run-Sound : (c : QuoteCall) (w : World) → Stays w.db (run_quote d c w).db
  unfolding run_quote create_quote set_outcome set_reply set_tags set_follow_up update_status
      quote_statuses contains
  run-Sound (quote_created input) = Keeps-statement Stays Stays-refl Stays-trans d _ (λ t db.
      insert_quote-Stays (quote_row d t input) db
        (record { status = refl; outcome = tt; replied = refl }))
  run-Sound (quote_closed id company outcome note) =
      Keeps-require_then Stays Stays-refl Stays-trans (contains valid_outcomes outcome)
        invalid_outcome _
        (λ known. Keeps-statement Stays Stays-refl Stays-trans d _ (λ t.
          update_quote-Stays (owned_quote id company) (closed_quote (d.now t) outcome note)
            (λ x valid q s. record { status = s.status; outcome = known; replied = s.replied })))
  run-Sound (quote_replied id company note) = Keeps-statement Stays Stays-refl Stays-trans d _ (λ t.
      update_quote-Stays (owned_quote id company) (replied_quote (d.now t) note) (λ x valid q s.
        record {
          status = refl;
          outcome = s.outcome;
          replied = sym (coalesce_given q.first_response_at (d.now t));
        }))
  run-Sound (quote_tagged id company tags) = Keeps-statement Stays Stays-refl Stays-trans d _ (λ t.
      update_quote-Stays (owned_quote id company) (tagged_quote tags)
        (λ x valid q s. record { status = s.status; outcome = s.outcome; replied = s.replied }))
  run-Sound (quote_followed id company at_time) =
      Keeps-statement Stays Stays-refl Stays-trans d _ (λ t.
        update_quote-Stays (owned_quote id company) (followed_quote at_time)
          (λ x valid q s. record { status = s.status; outcome = s.outcome; replied = s.replied }))
  run-Sound (quote_marked id company status) =
      Keeps-statement Stays Stays-refl Stays-trans d _ (λ t db. affected-Leaves _ (
        update_quote-Stays (owned_quote id company) (status_quote status)
          (λ x valid q s. record { status = valid; outcome = s.outcome; replied = s.replied }) db))

  -- In any sequence of calls, whatever fails, every request keeps a known status and a known
  -- outcome, and is dated as answered exactly where its first answer is dated.
  pub run_quotes-Sound : (cs : List QuoteCall) (w : World) → Stays w.db (run_quotes d cs w).db
  unfolding run_quotes
  run_quotes-Sound [] w h = h
  run_quotes-Sound (c ∷ cs) w h = run_quotes-Sound cs (run_quote d c w) (run-Sound c w h)
