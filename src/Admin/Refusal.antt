-- ===== src/Admin/Refusal.antt =====
-- The refusals of `ApproveRegistration` (internal/repository/admin_repo.go).
use proindustrial_backend.Common.{
  Bool, String, any, ap, beq_of_ne, eq_self, false, find, nat_eq, none, not, refl, some, string_eq,
  text_eq, true, ℕ, ◌+◌, ◌==◌, ◌∙◌, ◌≡◌, ◌≢◌,
}
use proindustrial_backend.Common.Text.{Text, to_lower, trim_space}
use proindustrial_backend.Admin.{
  account_email, approve_body, approve_registration, get_registration,
}
use proindustrial_backend.Database.{
  Action, Db, Driver, Error, Result, World, err, ok, one, query, registration_already_done,
  registration_email_in_use, registration_not_found, rename_no_rows, settle, require, transaction,
}
use proindustrial_backend.Database.Laws.{>>=_of_err, >>=_of_ok, next, query_runs, statement_runs}
use proindustrial_backend.Model.{ProviderRegistration, User}
use proindustrial_backend.Tables.{email_taken, registration_by_id}

transaction_refused :
    {A : Type 0} (d : Driver) (body : Action A) (w : World) {e : Error} {w' : World}
    → d.fails w.tick ≡ false
    → body (next w) ≡ (err e, w')
    → ((transaction d body w).0 ≡ err e) × ((transaction d body w).1.db ≡ w.db)
unfolding transaction
transaction_refused d body w runs h = rw (runs, h) (refl, refl)

require_refuses : (b : Bool) (e : Error) (w : World) → b ≡ false → require b e w ≡ (err e, w)
require_refuses b e w h = rw h refl

require_passes : (b : Bool) (e : Error) (w : World) → b ≡ true → require b e w ≡ (ok tt, w)
require_passes b e w h = rw h refl

-- What the query for a registration makes of its answer.
abbrev answered : Result ProviderRegistration × World → Result ProviderRegistration × World
answered p = elim p.0 [
  | ok reg ↦ (ok reg, p.1)
  | err x ↦ (err (rename_no_rows registration_not_found x), p.1)
]

module _ (d : Driver) (id : String) (w : World) (runs : d.fails w.tick ≡ false) where
  get_registration_missing :
      registration_by_id id w.db ≡ none
      → get_registration d id w ≡ (err registration_not_found, next w)
  get_registration_missing h =
      ap answered (statement_runs d (λ t db. one (registration_by_id id db) db) w runs)
      ∙ ap (λ o. answered (settle w.db (w.tick + 1) (one o w.db))) h

  get_registration_found :
      {reg : ProviderRegistration}
      → registration_by_id id w.db ≡ some reg
      → get_registration d id w ≡ (ok reg, next w)
  get_registration_found h =
      ap answered (statement_runs d (λ t db. one (registration_by_id id db) db) w runs)
      ∙ ap (λ o. answered (settle w.db (w.tick + 1) (one o w.db))) h

-- When an approval is refused, and with which error.
pub data Refusal (d : Driver) (unicode_lower : ℕ → ℕ) (id : String) (db : Db) : Error → Type 0 where
  missing :
      find (λ (r : ProviderRegistration). r.id == id) db.registrations ≡ none
      → Refusal d unicode_lower id db registration_not_found
  decided :
      (reg : ProviderRegistration)
      → find (λ (r : ProviderRegistration). r.id == id) db.registrations ≡ some reg
      → reg.status ≢ "pending"
      → Refusal d unicode_lower id db registration_already_done
  in_use :
      (reg : ProviderRegistration)
      → find (λ (r : ProviderRegistration). r.id == id) db.registrations ≡ some reg
      → reg.status ≡ "pending"
      → any
          (λ (u : User). d.lower u.email == to_lower unicode_lower (trim_space reg.email))
          db.users
        ≡ true
      → Refusal d unicode_lower id db registration_email_in_use

module _ (d : Driver) (unicode_lower : ℕ → ℕ) (id hash : String) (initial_password : Text) where
  body_refused :
      (w : World) {e : Error}
      → ((t : ℕ) → d.fails t ≡ false)
      → Refusal d unicode_lower id w.db e
      → (w' : World) × (approve_body d unicode_lower id hash initial_password w ≡ (err e, w'))
  unfolding approve_body
  body_refused w sound (missing h) =
      (_, >>=_of_err (get_registration d id) _ w (get_registration_missing d id w (sound w.tick) h))
  body_refused w sound (decided reg h k) = (
    _,
    >>=_of_ok (get_registration d id) _ w (get_registration_found d id w (sound w.tick) h)
        ∙ >>=_of_err (require (reg.status == "pending") registration_already_done) _ (next w) (
            require_refuses (reg.status == "pending") registration_already_done (next w)
              (beq_of_ne reg.status "pending" k)),
  )
  body_refused w sound (in_use reg h pending taken) = (
    _,
    >>=_of_ok (get_registration d id) _ w (get_registration_found d id w (sound w.tick) h)
        ∙ >>=_of_ok (require (reg.status == "pending") registration_already_done) _ (next w) (
            require_passes (reg.status == "pending") registration_already_done (next w)
              (rw pending (eq_self {A = String} "pending")))
        ∙ >>=_of_ok (query d (email_taken d.lower (account_email d unicode_lower reg))) _ (next w) (
            query_runs d (email_taken d.lower (account_email d unicode_lower reg)) (next w)
              (sound (w.tick + 1)))
        ∙ >>=_of_err
            (require (not (email_taken d.lower (account_email d unicode_lower reg) w.db))
              registration_email_in_use)
            _ (next (next w))
            (require_refuses (not (email_taken d.lower (account_email d unicode_lower reg) w.db))
              registration_email_in_use (next (next w)) (ap not taken)),
  )

  -- Where no statement fails, an approval is refused with the error of the first check that it
  -- misses: the registration is not found; it is found but not pending; it is found and pending,
  -- but a user has its trimmed address in lower case. No table changes.
  pub approve_registration_refused :
      (w : World) {e : Error}
      → ((t : ℕ) → d.fails t ≡ false)
      → Refusal d unicode_lower id w.db e
      → ((approve_registration d unicode_lower id hash initial_password w).0 ≡ err e)
        × ((approve_registration d unicode_lower id hash initial_password w).1.db ≡ w.db)
  unfolding approve_registration
  approve_registration_refused w sound why =
      let (w', h) = body_refused (next w) sound why in
      transaction_refused d (approve_body d unicode_lower id hash initial_password) w (sound w.tick)
        h
