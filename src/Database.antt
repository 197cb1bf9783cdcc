-- ===== src/Database.antt =====
-- The database as the repositories see it: tables, a driver that may fail at any statement, single
-- statements and transactions. PostgreSQL is not code of this repository: what it supplies (which
-- statements fail, the identifiers that it draws, its clock, its `lower`, what a date reads back
-- as) is the parameter `Driver`, one answer for each statement that is sent; and so is whether the
-- two unique indexes that migrations/011_registration_hardening.up.sql leaves out over duplicate
-- rows are there. The statements themselves are the SQL texts of internal/repository, and the
-- constraints those of migrations/.
pub mod Laws
pub mod Ensures
pub mod Returns
pub mod Keeps
use proindustrial_backend.Common.{
  Bool, List, Option, String, false, if◌then◌else◌, leb, length, none, some, true, ℕ, ◌+◌,
}
use proindustrial_backend.Common.Text.{Text}
use proindustrial_backend.Model.{
  Company, CompanyCertification, CompanyEvent, CompanyProject, CompanyService, ProjectImage,
  ProviderRegistration, QuoteRequest, ServiceImage, User,
}

-- A row of `company_events`, with the columns that no query returns.
pub record EventRow : Type 0 where
  pub event : CompanyEvent
  pub visitor_id : Option Text
  pub referrer : Option Text
  pub ip_hash : Option Text

-- A table is a list of its rows, the newest first; no query relies on that order.
pub record Db : Type 0 where
  pub companies : List Company
  pub users : List User
  pub registrations : List ProviderRegistration
  pub quotes : List QuoteRequest
  pub services : List CompanyService
  pub service_images : List ServiceImage
  pub certifications : List CompanyCertification
  pub projects : List CompanyProject
  pub project_images : List ProjectImage
  pub service_regions : List (String × Text)
  pub events : List EventRow

pub record Driver : Type 0 where
  pub fails : ℕ → Bool
  pub uuid : ℕ → String
  pub now : ℕ → ℕ
  pub lower : Text → Text
  pub date : Text → Option Text
  pub users_email_lower_uniq : Bool
  pub pending_email_uniq : Bool

-- `tick` counts the statements sent so far.
pub record World : Type 0 where
  pub db : Db
  pub tick : ℕ

-- Driver errors, then those of internal/repository/errors.go. `diverged` stands for a loop that
-- has used up its fuel, which no call does.
pub data Error : Type 0 where
  connection no_rows unique_violation check_violation foreign_key_violation too_long : Error
  not_found registration_not_found registration_already_done : Error
  registration_email_in_use approved_company_not_found invalid_outcome diverged : Error
  out_of_range invalid_date syntax_error : Error

pub data Result (A : Type 0) : Type 0 where
  ok : A → Result A
  err : Error → Result A

abbrev pub Action : Type 0 → Type 0
Action A = World → Result A × World

abbrev pub pure : {A : Type 0} → A → Action A
pure a w = (ok a, w)

abbrev pub raise : {A : Type 0} → Error → Action A
raise e w = (err e, w)

-- A step that fails ends the sequence.
infixl 5 ◌>>=◌ ◌>>◌
unfoldable pub ◌>>=◌ : {A B : Type 0} → Action A → (A → Action B) → Action B
◌>>=◌ m f w = let (r, w') = m w in elim r [ ok a ↦ f a w' | err e ↦ (err e, w') ]

abbrev pub ◌>>◌ : {A B : Type 0} → Action A → Action B → Action B
m >> k = m >>= λ _. k

-- `if !test { return nil, e }`
abbrev pub require : Bool → Error → Action (Unit {0})
require true e w = (ok tt, w)
require false e w = (err e, w)

-- `errors.Is(err, sql.ErrNoRows)`
abbrev pub is_no_rows : Error → Bool
is_no_rows no_rows = true
is_no_rows other = false

-- `IsUniqueViolation`
abbrev pub is_unique_violation : Error → Bool
is_unique_violation unique_violation = true
is_unique_violation other = false

-- The error of a missing row, answered by another.
abbrev pub rename_no_rows : Error → Error → Error
rename_no_rows e x = if is_no_rows x then e else x

abbrev pub on_no_rows : {A : Type 0} → Error → Action A → Action A
on_no_rows e m w =
    let (r, w') = m w in elim r [ ok a ↦ (ok a, w') | err x ↦ (err (rename_no_rows e x), w') ]

abbrev pub settle : {A : Type 0} → Db → ℕ → Result (A × Db) → Result A × World
settle db t (ok (a, db')) = (ok a, record { db = db'; tick = t })
settle db t (err e) = (err e, record { db = db; tick = t })

-- One statement: it fails and changes nothing, or it answers from the tables and the tick.
unfoldable pub statement : {A : Type 0} → Driver → (ℕ → Db → Result (A × Db)) → Action A
statement d run w =
    if d.fails w.tick
    then (err connection, record { db = w.db; tick = w.tick + 1 })
    else settle w.db (w.tick + 1) (run w.tick w.db)

-- A query: it leaves the tables as they are.
abbrev pub query : {A : Type 0} → Driver → (Db → A) → Action A
query d f = statement d (λ t db. ok (f db, db))

-- What is left of a transaction: `Commit` may fail too, and a deferred `Rollback` follows an error.
abbrev pub finish : {A : Type 0} → Driver → Db → Result A × World → Result A × World
finish d db (ok a, w) =
    if d.fails w.tick
    then (err connection, record { db = db; tick = w.tick + 1 })
    else (ok a, record { db = w.db; tick = w.tick + 1 })
finish d db (err e, w) = (err e, record { db = db; tick = w.tick + 1 })

-- `Begin`, the body, then `Commit` or `Rollback`.
unfoldable pub transaction : {A : Type 0} → Driver → Action A → Action A
transaction d body w =
    if d.fails w.tick
    then (err connection, record { db = w.db; tick = w.tick + 1 })
    else finish d w.db (body (record { db = w.db; tick = w.tick + 1 }))

-- `SELECT … WHERE` for one row
abbrev pub one : {A : Type 0} → Option A → Db → Result (A × Db)
one none db = err no_rows
one (some a) db = ok (a, db)

-- The length of a nullable text is within a column's.
abbrev pub fits : ℕ → Option Text → Bool
fits n none = true
fits n (some t) = leb (length t) n
