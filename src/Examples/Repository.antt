-- ===== src/Examples/Repository.antt =====
-- Theorems on the repositories, at concrete tables.
use proindustrial_backend.Common.{
  String, [], any, arith, false, find, length, map_if, nat_eq, ne_of_beq, none, refl, some,
  string_eq, suc, text_eq, true, zero, ℕ, ◌==◌, ◌&&◌, ◌∷◌, ◌≡◌, ◌≤◌,
}
use proindustrial_backend.Common.Text.{Text, codes, to_lower, trim_space}
use proindustrial_backend.Admin.{
  ApproveRegistrationResult, approve_body, approve_registration, category_names, create_account,
  explain_reject, next_company_slug, reject_registration, truncated_description, try_slugs,
}
use proindustrial_backend.Admin.Approval.{IsApproved, approve_registration_ok}
use proindustrial_backend.Admin.Credentials.{reset_body, reset_initial_password}
use proindustrial_backend.Admin.Decision.{reject_registration-decided, reject_registration_ok}
use proindustrial_backend.Admin.Deletion.{Erased, Linked, delete_approved_company_ok}
use proindustrial_backend.Admin.Progress.{CanApprove, approve_registration_returns}
use proindustrial_backend.Admin.Refusal.{approve_registration_refused, decided}
use proindustrial_backend.Admin.Removal.{
  delete_approved_company_by_registration, delete_body, delete_company, delete_rows, linked_company,
}
use proindustrial_backend.Admin.Reset.{Resets, reset_initial_password_ok}
use proindustrial_backend.Admin.Slugs.{next_company_slug_ok, next_company_slug_terminates}
use proindustrial_backend.Database.{
  Db, Driver, Result, World, connection, err, ok, registration_already_done, statement, transaction,
  ◌>>=◌,
}
use proindustrial_backend.Examples.{
  company, db, driver, from_ok, provider, registration, same, world,
}
use proindustrial_backend.Model.{Company, ProviderRegistration, User}
use proindustrial_backend.Slug.{candidate, incremented, int_text, slug_base, slugify}
use proindustrial_backend.Tables.{
  insert_company, insert_user, registration_by_id, slug_taken, update_registration, update_user,
}

abbrev pub approval : Result ApproveRegistrationResult × World
approval = approve_registration driver same "r1" "hash" (codes "pw") world

abbrev pub no_result : ApproveRegistrationResult
no_result = record {
  registration = registration "" "" none;
  company = company "" "";
  user = provider;
  initial_password = [];
  email_status = "";
  email_note = [];
}

pub approval_returns : approval.0 ≡ ok (from_ok no_result approval.0)
unfolding approve_registration approve_body create_account transaction statement ◌>>=◌
    next_company_slug try_slugs incremented int_text slug_base slugify insert_company insert_user
    update_registration trim_space to_lower truncated_description category_names candidate
approval_returns = refl

approve_registration_ok_example :
    IsApproved driver same "r1" "hash" (codes "pw") db approval.1.db (from_ok no_result approval.0)
approve_registration_ok_example =
    approve_registration_ok driver same "r1" "hash" (codes "pw") world
      {r = from_ok no_result approval.0} (omega arith) approval_returns

never_company : (t : ℕ) → any (λ (c : Company). c.id == driver.uuid t) db.companies ≡ false
never_company zero = refl
never_company (suc n) = refl

never_user : (t : ℕ) → any (λ (u : User). u.id == driver.uuid t) db.users ≡ false
never_user zero = refl
never_user (suc n) = refl

can_approve : CanApprove driver same "r1" "hash" db (registration "r1" "pending" none)
unfolding to_lower trim_space
can_approve = record {
  found = refl;
  pending = refl;
  unused = refl;
  lowered = refl;
  name_fits = omega arith;
  email_fits = omega arith;
  hash_fits = omega arith;
  phone_fits = refl;
  region_fits = refl;
  checked = refl;
  few = omega arith;
  new_company = never_company;
  new_user = never_user;
}

approve_registration_returns_example : (r : ApproveRegistrationResult) × (approval.0 ≡ ok r)
approve_registration_returns_example =
    approve_registration_returns driver same "r1" "hash" (codes "pw")
      (registration "r1" "pending" none) db (λ t. refl) can_approve world refl

abbrev refused : Result ApproveRegistrationResult × World
refused = approve_registration driver same "r2" "hash" (codes "pw") world

approve_registration_refused_example :
    (refused.0 ≡ err registration_already_done) × (refused.1.db ≡ db)
approve_registration_refused_example =
    approve_registration_refused driver same "r2" "hash" (codes "pw") world
      {e = registration_already_done} (λ t. refl)
      (decided (registration "r2" "approved" (some "c1")) refl
        (ne_of_beq ⦃e = string_eq⦄ "approved" "pending" refl))

abbrev deletion : Result (Unit {0}) × World
deletion = delete_approved_company_by_registration driver "r2" world

deletion_ok : deletion.0 ≡ ok tt
unfolding delete_approved_company_by_registration delete_body delete_rows linked_company
    delete_company transaction statement ◌>>=◌
deletion_ok = refl

delete_approved_company_ok_example :
    (reg : ProviderRegistration) × (c : String) × (registration_by_id "r2" db ≡ some reg)
    × (reg.status ≡ "approved")
    × Linked driver reg db c
    × Erased "r2" c db deletion.1.db
delete_approved_company_ok_example =
    delete_approved_company_ok driver "r2" db world {u = tt} refl deletion_ok

abbrev lost : Driver
lost = record driver { fails = λ t. true }

lost_err : (next_company_slug lost same (codes "uno") world).0 ≡ err connection
unfolding next_company_slug try_slugs statement ◌>>=◌
lost_err = refl

next_company_slug_terminates_example : connection ≡ connection
next_company_slug_terminates_example =
    next_company_slug_terminates lost same (codes "uno") world {e = connection} (omega arith)
      lost_err

abbrev slug_run : Result Text × World
slug_run = next_company_slug driver same (codes "Uno") world

slug_run_ok : slug_run.0 ≡ ok (codes "uno-2")
unfolding next_company_slug try_slugs incremented int_text slug_base slugify candidate statement
    ◌>>=◌ trim_space to_lower
slug_run_ok = refl

next_company_slug_ok_example :
    (slug_taken (codes "uno-2") db ≡ false) × (length (codes "uno-2") ≤ 100) × (slug_run.1.db ≡ db)
next_company_slug_ok_example =
    next_company_slug_ok driver same (codes "Uno") world {s = codes "uno-2"} (omega arith)
      slug_run_ok

abbrev rejection : String → Result ProviderRegistration × World
rejection id = reject_registration driver id (codes "no") world

abbrev no_registration : ProviderRegistration
no_registration = registration "" "" none

rejection_ok : (rejection "r1").0 ≡ ok (from_ok no_registration (rejection "r1").0)
unfolding reject_registration explain_reject update_registration statement ◌>>=◌
rejection_ok = refl

abbrev rejected_row : ProviderRegistration → ProviderRegistration
rejected_row x = record x {
  status = "rejected";
  rejection_reason = some (codes "no");
  rejected_at = some 0;
}

reject_registration_ok_example :
    (old : ProviderRegistration) × (find
        (λ (x : ProviderRegistration). x.id == "r1" && x.status == "pending")
        db.registrations
      ≡ some old)
    × (from_ok no_registration (rejection "r1").0 ≡ rejected_row old)
    × ((rejection "r1").1.db ≡ record db {
      registrations =
          map_if
            (λ (x : ProviderRegistration). x.id == "r1" && x.status == "pending")
            rejected_row
            db.registrations;
    })
reject_registration_ok_example =
    reject_registration_ok driver "r1" (codes "no") world
      {reg = from_ok no_registration (rejection "r1").0} rejection_ok

rejection_err : (rejection "r2").0 ≡ err registration_already_done
unfolding reject_registration explain_reject update_registration statement ◌>>=◌
rejection_err = refl

reject_registration-decided_example :
    registration_by_id "r2" (rejection "r2").1.db ≡ some (registration "r2" "approved" (some "c1"))
reject_registration-decided_example =
    reject_registration-decided driver "r2" "r2" (codes "no") world
      {reg = registration "r2" "approved" (some "c1")} refl
      (ne_of_beq ⦃e = string_eq⦄ "approved" "pending" refl)

abbrev linked : ProviderRegistration
linked = record (registration "r3" "approved" (some "c1")) { user_id = some "u1" }

abbrev reset_db : Db
reset_db = record db { registrations = linked ∷ [] }

abbrev reset_world : World
reset_world = record { db = reset_db; tick = 0 }

abbrev reset : Result ApproveRegistrationResult × World
reset = reset_initial_password driver "r3" "h2" reset_world

reset_ok : reset.0 ≡ ok (from_ok no_result reset.0)
unfolding reset_initial_password reset_body update_user transaction statement ◌>>=◌
reset_ok = refl

reset_initial_password_ok_example :
    Resets driver "r3" "h2" reset_db (from_ok no_result reset.0) reset.1.db
reset_initial_password_ok_example =
    reset_initial_password_ok driver "r3" "h2" reset_db reset_world {r = from_ok no_result reset.0}
      refl reset_ok
