-- ===== src/Tables.antt =====
-- The SQL statements that several repositories share, each as a function of the tables: what the
-- statement reads or writes, and the constraints of migrations/ that it may violate.
-- A unique or primary key is checked on insertion; a CHECK constraint on every row written; a
-- reference on insertion and on deletion, with the `ON DELETE` action of its column.
pub mod Sorting
use proindustrial_backend.Common.{
  Bool, List, Option, String, [], any, false, find, if◌then◌else◌, leb, length, map_if, nat_eq,
  none, some, string_eq, text_eq, true, ℕ, ◌&&◌, ◌+◌, ◌==◌, ◌||◌, ◌∷◌,
}
use proindustrial_backend.Common.Text.{Text, codes}
use proindustrial_backend.Database.{
  Db, Driver, Error, Result, check_violation, err, fits, foreign_key_violation, ok, too_long,
  unique_violation,
}
use proindustrial_backend.Model.{Company, ProviderRegistration, User}

-- `company_id = $1` on a nullable column
abbrev pub is_id : String → Option String → Bool
is_id id none = false
is_id id (some x) = x == id

-- `ON DELETE SET NULL`
abbrev pub forget : String → Option String → Option String
forget id none = none
forget id (some x) = if x == id then none else some x

abbrev pub company_by_id : String → Db → Option Company
company_by_id id db = find (λ (c : Company). c.id == id) db.companies

abbrev pub user_by_id : String → Db → Option User
user_by_id id db = find (λ (u : User). u.id == id) db.users

abbrev pub registration_by_id : String → Db → Option ProviderRegistration
registration_by_id id db = find (λ (r : ProviderRegistration). r.id == id) db.registrations

-- `SELECT COUNT(*) > 0 FROM users WHERE lower(email) = $1`
abbrev pub email_taken : (Text → Text) → Text → Db → Bool
email_taken lower email db = any (λ (u : User). lower u.email == email) db.users

-- `SELECT COUNT(*) > 0 FROM companies WHERE slug = $1`
abbrev pub slug_taken : Text → Db → Bool
slug_taken slug db = any (λ (c : Company). c.slug == slug) db.companies

-- The columns of `companies` that a registration fills, and `companies_description_len`.
abbrev pub company_fits : Company → Bool
company_fits c =
    leb (length c.slug) 100
    && leb (length c.name) 200
    && fits 100 c.location
    && fits 100 c.region
    && fits 50 c.phone
    && fits 200 c.email

unfoldable pub insert_company : Company → Db → Result (Company × Db)
insert_company c db =
    if company_fits c
    then if fits 600 c.description
      then if any (λ (x : Company). x.id == c.id || x.slug == c.slug) db.companies
        then err unique_violation
        else ok (c, record db { companies = c ∷ db.companies })
      else err check_violation
    else err too_long

-- The widths of the columns of `users`.
abbrev pub user_fits : User → Bool
user_fits u =
    leb (length u.email) 200
    && leb (length (codes u.password_hash)) 200
    && leb (length (codes u.role)) 20

-- The key, the UNIQUE of the address, and `users_email_lower_uniq` where it is there.
abbrev pub user_clashes : Driver → User → User → Bool
user_clashes d u x =
    x.id == u.id
    || x.email == u.email
    || d.users_email_lower_uniq && d.lower x.email == d.lower u.email

-- The widths, `users_role_check`, the unique columns, and the reference to `companies`.
unfoldable pub insert_user : Driver → User → Db → Result (User × Db)
insert_user d u db =
    if user_fits u
    then if u.role == "provider" || u.role == "admin"
      then if any (user_clashes d u) db.users
        then err unique_violation
        else if elim u.company_id [
          | none ↦ true
          | some c ↦ any (λ (x : Company). x.id == c) db.companies
        ]
        then ok (u, record db { users = u ∷ db.users })
        else err foreign_key_violation
      else err check_violation
    else err too_long

-- `provider_registrations_description_len` and `provider_registrations_rejection_len`
abbrev pub registration_checked : ProviderRegistration → Bool
registration_checked r = fits 600 r.description && fits 500 r.rejection_reason

-- `UPDATE provider_registrations SET … WHERE … RETURNING *`, where at most one row can match.
unfoldable pub update_registration :
    (ProviderRegistration → Bool)
    → (ProviderRegistration → ProviderRegistration)
    → Db
    → Result (ProviderRegistration × Db)
update_registration test set db = elim (find test db.registrations) [
  | none ↦ err Error.no_rows
  | some r ↦
      if registration_checked (set r)
      then ok (set r, record db { registrations = map_if test set db.registrations })
      else err check_violation
]

-- `UPDATE users SET … WHERE … RETURNING *` of the password, the same for all rows that it writes, of
-- which the first is read.
unfoldable pub update_user : (User → Bool) → (User → User) → Db → Result (User × Db)
update_user test set db = elim (find test db.users) [
  | none ↦ err Error.no_rows
  | some u ↦
      if leb (length (codes (set u).password_hash)) 200
      then ok (set u, record db { users = map_if test set db.users })
      else err too_long
]

-- `ORDER BY … DESC`, as an insertion sort.
module _ {A : Type 0} (key : A → ℕ) where
  abbrev pub insert_desc : A → List A → List A
  insert_desc a [] = a ∷ []
  insert_desc a (b ∷ l) = if leb (key b) (key a) then a ∷ b ∷ l else b ∷ insert_desc a l

  abbrev pub sort_desc : List A → List A
  sort_desc [] = []
  sort_desc (a ∷ l) = insert_desc a (sort_desc l)

-- `ORDER BY` with the order given, as an insertion sort that keeps equal rows in place.
module _ {A : Type 0} (before : A → A → Bool) where
  abbrev pub insert_by : A → List A → List A
  insert_by a [] = a ∷ []
  insert_by a (b ∷ l) = if before a b then a ∷ b ∷ l else b ∷ insert_by a l

  abbrev pub sort_by : List A → List A
  sort_by [] = []
  sort_by (a ∷ l) = insert_by a (sort_by l)

-- `COUNT(*)`, on the rows that a test keeps.
abbrev pub count : {A : Type 0} → (A → Bool) → List A → ℕ
count p [] = 0
count p (x ∷ xs) = (if p x then 1 else 0) + count p xs
