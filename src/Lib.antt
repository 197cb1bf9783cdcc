-- ===== src/Lib.antt =====
-- The backend of ProIndustrial, a directory of industrial companies: a Go program of HTTP handlers
-- over PostgreSQL. A provider registers with a form; an administrator approves or rejects the
-- registration; an approval creates a company with a free slug and an account with an initial
-- password, which has to be changed before the panel opens. In its panel a company keeps its
-- profile, services, images, certifications, projects and regions, and answers the requests for
-- quotations that visitors leave; the events of its public page are counted for it.
--
-- The parts, and the files that model them:
-- - Common: equality tests, lists over native numbers, and texts as lists of code points, with Go's
--   `strings.TrimSpace`, `strings.Trim` and `strings.ToLower`.
-- - Model: internal/model. One record for each row type, the limits of the forms, and in
--   Model/Nullable how a nullable field is written and read as JSON.
-- - Database: the tables, PostgreSQL as a parameter (`Driver`: which statement fails, the
--   identifiers, the clock, `lower`, the reading of dates, and which of the two unique indexes that a
--   migration may leave out are there), one statement, and a transaction that commits or rolls back.
--   Database/Laws, Ensures, Returns and Keeps hold the rules by which repository code is reasoned
--   about.
-- - Tables: the SQL statements that repositories share, with the constraints of migrations/, and
--   the sorting of a query's rows.
-- - Category: internal/repository/category_repo.go.
-- - Slug: `slugify` and the candidates of `nextCompanySlug` (internal/repository/admin_repo.go).
-- - Admin: internal/repository/admin_repo.go. `approve_registration` is `ApproveRegistration`,
--   `reject_registration` is `RejectRegistration`, Admin/Removal has
--   `DeleteApprovedCompanyByRegistration` and Admin/Credentials `ResetInitialPassword`.
-- - Accounts: internal/repository/auth_repo.go.
-- - Http: what a handler answers.
-- - Registration: internal/repository/registration_repo.go and internal/handler/registration.go.
-- - Session: internal/middleware/auth.go. Login: internal/handler/auth.go.
-- - Review: internal/handler/admin.go.
-- - Quotes: internal/repository/quote_repo.go. Quotes/Inbox: internal/handler/quote.go, whose
--   handlers answer together with the mails that they ask for.
-- - Services: internal/repository/service_repo.go. Companies: internal/repository/company_repo.go
--   and internal/handler/company.go. Panel: internal/handler/panel.go.
-- - Media: internal/repository/media_repo.go, with one file each for images, certifications,
--   projects and regions. Gallery: internal/handler/media.go; Gallery/Uploads has the handlers that
--   store a file, over the state of the storage, and Gallery/Panel the others.
-- - Storage: internal/storage, the local provider, the S3 provider, and `New`.
-- - Mail: internal/notify/mailer.go. Mail/Messages has the bodies of the mails.
-- - Events: internal/repository/event_repo.go. Events/Tracking: internal/handler/analytics.go.
-- - Isolation: all changes that sessions of companies can make through the repositories, as one
--   data type, and what a company has of its own. Isolation/Reads: the requests of a panel that
--   change nothing, but for the report of the events, as another.
-- - RateLimit: internal/middleware/ratelimit.go. Routes: internal/router/router.go. Serving: the
--   other middleware, the guards of a route in turn, and internal/handler/health.go.
-- - Settings: internal/config/config.go. Startup: cmd/server/main.go, and the proxies that
--   internal/router/router.go trusts.
-- - Examples: the theorems at concrete inputs.
--
-- State and errors. A repository operation takes the world (the tables and the number of statements
-- sent so far) to a result and a world. Any statement may fail, `BEGIN` and `COMMIT` included; the
-- error of a failed connection and those of internal/repository/errors.go are values. A statement
-- reads and writes the tables at once: two requests that interleave inside a handler are not
-- modelled, so that what one statement reads still holds in the next. A handler is a function from
-- the world to a reply and a world.
--
-- Fuel. Only the loop of `nextCompanySlug` may run for long. Its fuel is one more than the number
-- of companies; the candidates are all different, so one of them is free before it is used up. Its
-- counter is an `int` of 64 bits, which wraps around; the theorems on it are for tables of at most
-- 2 ^ 63 - 3 companies, where it does not.
--
-- Parameters stand for code that is not in the repository: PostgreSQL (`Driver`, and `Search` for
-- its text search and collation), the calendar of its dates (`Calendar`), bcrypt and the signing of
-- tokens (`Crypto`), the reading of tokens (`Parser`), SHA-256, `encoding/json` (`Codec`), the
-- random source, gin's binding, validation and matching of routes, the disk, the bucket and the
-- paths of files (`Disk`, `Bucket`, `Paths`), Resend and the SMTP server (`Servers`), the
-- environment of the process, and the part of `unicode.ToLower` beyond ASCII.
--
-- Not modelled: internal/logger, internal/database/postgres.go and scripts/genhash, which only call
-- libraries; the encoding of JSON but for the nullable fields; the order of rows that `ORDER BY`
-- leaves open, which is that of the tables. An identifier may be any string: that PostgreSQL
-- refuses one that is no UUID is among the failures of the driver. The quotient of the contact rate
-- is kept as its two numbers. Times are natural numbers, and texts are sequences of code points, so
-- that text which is not valid UTF-8 is left out.
pub mod Common
pub mod Model
pub mod Database
pub mod Slug
pub mod Category
pub mod Tables
pub mod Admin
pub mod Accounts
pub mod Http
pub mod Registration
pub mod Session
pub mod Login
pub mod Review
pub mod Quotes
pub mod Services
pub mod Companies
pub mod Panel
pub mod Media
pub mod Gallery
pub mod Storage
pub mod Mail
pub mod Events
pub mod Isolation
pub mod RateLimit
pub mod Settings
pub mod Startup
pub mod Routes
pub mod Serving
pub mod Examples
