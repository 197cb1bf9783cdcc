-- ===== src/Accounts.antt =====
-- internal/repository/auth_repo.go: the accounts.
use proindustrial_backend.Common.{
  Bool, Option, String, any, if◌then◌else◌, leb, length, not, ◌&&◌, false, find, map_if, nat_eq,
  string_eq, text_eq, ◌==◌,
}
use proindustrial_backend.Common.Text.{Text, codes}
use proindustrial_backend.Database.{Action, Db, Driver, Result, err, ok, one, statement, too_long}
use proindustrial_backend.Model.{User}
use proindustrial_backend.Tables.{insert_user, user_by_id}

abbrev pub get_by_email : Driver → Text → Action User
get_by_email d email =
    statement d (λ t db. one (find (λ (u : User). d.lower u.email == d.lower email) db.users) db)

abbrev pub get_by_id : Driver → String → Action User
get_by_id d id = statement d (λ t db. one (user_by_id id db) db)

pub record CreateUserInput : Type 0 where
  pub email : Text
  pub password_hash : String
  pub company_id : Option String
  pub role : String
  pub must_change_password : Bool

unfoldable pub create_user : Driver → CreateUserInput → Action User
create_user d input = statement d (λ t. insert_user d (record {
  id = d.uuid t;
  email = input.email;
  password_hash = input.password_hash;
  company_id = input.company_id;
  role = input.role;
  must_change_password = input.must_change_password;
  created_at = d.now t;
}))

abbrev pub changed_user : String → User → User
changed_user hash u = record u { password_hash = hash; must_change_password = false }

-- The width of the column is checked where a row is written.
abbrev pub rehash : String → String → Db → Result (Unit {0} × Db)
rehash id hash db =
    if any (λ (u : User). u.id == id) db.users && not (leb (length (codes hash)) 200)
    then err too_long
    else ok
        (tt, record db { users = map_if (λ (u : User). u.id == id) (changed_user hash) db.users })

unfoldable pub change_password : Driver → String → String → Action (Unit {0})
change_password d id hash = statement d (λ t. rehash id hash)
