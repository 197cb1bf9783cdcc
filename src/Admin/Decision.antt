-- ===== src/Admin/Decision.antt =====
-- `RejectRegistration` (internal/repository/admin_repo.go): its result, its errors, and registrations
-- that are decided.
use proindustrial_backend.Common.{
  Bool, Bool-cases, List, Option, String, if◌then◌else◌, none, [], ap, arith, beq_of_ne, false,
  find, inl, inr, map_if, nat_eq, refl, some, string_eq, text_eq, ℕ, ◌&&◌, ◌==◌, ◌∙◌, ◌∷◌, ◌≡◌, ◌≢◌,
}
use proindustrial_backend.Common.Text.{Text}
use proindustrial_backend.Admin.{
  explain_reject, nullable_str, get_registration, reject_registration, rejected,
}
use proindustrial_backend.Admin.Approval.{update_registration_ok}
use proindustrial_backend.Database.{
  Db, Driver, Error, Result, World, err, is_no_rows, ok, one, raise, registration_already_done,
  registration_not_found, statement,
}
use proindustrial_backend.Database.Laws.{
  >>=-eq-ok, >>=_db, Result-cases, on_no_rows_db, select_db, statement_err, statement_ok,
}
use proindustrial_backend.Model.{ProviderRegistration}
use proindustrial_backend.Tables.{registration_by_id, update_registration}

pub get_registration_db :
    (d : Driver) (id : String) (w : World) → (get_registration d id w).1.db ≡ w.db
get_registration_db d id w =
    on_no_rows_db registration_not_found (statement d (λ t db. one (registration_by_id id db) db)) w
    ∙ select_db d (registration_by_id id) w

module _ (d : Driver) (id : String) where
  explain_reject_db :
      (r : Result ProviderRegistration) (w : World) → (explain_reject d id r w).1.db ≡ w.db
  unfolding explain_reject
  explain_reject_db (ok reg) w = refl
  explain_reject_db (err e) w = elim (Bool-cases (is_no_rows e)) [
    | inl missing ↦ rw missing (
        >>=_db (get_registration d id) (λ _. raise registration_already_done) w
          (get_registration_db d id w) (λ reg w'. refl))
    | inr lost ↦ rw lost
  ]

  explain_reject_ok :
      (r : Result ProviderRegistration) (w : World) {reg : ProviderRegistration}
      → (explain_reject d id r w).0 ≡ ok reg
      → r ≡ ok reg
  unfolding explain_reject
  explain_reject_ok (ok reg) w h = h
  explain_reject_ok (err e) w {reg} h = elim (Bool-cases (is_no_rows e)) [
    | inl missing ↦
        let (found, ran, rest, step) =
          >>=-eq-ok (get_registration d id) (λ _. raise registration_already_done) w
            (rw missing at h) in
        absurd (cc)
    | inr lost ↦ absurd (let same = rw lost at h in cc)
  ]

nullable_str_lem : (s : Text) → nullable_str s ≡ (if s == [] then none else some s)
nullable_str_lem [] = refl
nullable_str_lem (c ∷ s) = refl

-- Which row a rejection writes.
abbrev rejectable : String → ProviderRegistration → Bool
rejectable id reg = reg.id == id && reg.status == "pending"

module _ (d : Driver) (id : String) (reason : Text) (w : World) where
  abbrev reject_run : ℕ → Db → Result (ProviderRegistration × Db)
  reject_run t = update_registration (rejectable id) (rejected d t reason)

  -- What the update of a rejection leaves, in terms of the row that it writes.
  reject_registration_writes :
      {reg : ProviderRegistration}
      → (reject_registration d id reason w).0 ≡ ok reg
      → (old : ProviderRegistration) × (find (rejectable id) w.db.registrations ≡ some old)
        × (reg ≡ rejected d w.tick reason old)
        × ((reject_registration d id reason w).1.db ≡ record w.db {
          registrations = map_if (rejectable id) (rejected d w.tick reason) w.db.registrations;
        })
  unfolding reject_registration
  reject_registration_writes h =
      let (r, w') = statement d reject_run w in
      let ran =
        explain_reject_ok d id (statement d reject_run w).0 (statement d reject_run w).1 h in
      let (old, found, same, after) =
        update_registration_ok (rejectable id) (rejected d w.tick reason) w.db
          (statement_ok d reject_run w ran) in
      (
        old,
        found,
        same,
        explain_reject_db d id (statement d reject_run w).0 (statement d reject_run w).1 ∙ after,
      )

  -- A rejection that returns a registration has found it pending under that identifier. The row has
  -- become rejected, with the time, and with the reason unless that is empty, and nothing else has
  -- changed.
  pub reject_registration_ok :
      {reg : ProviderRegistration}
      → (reject_registration d id reason w).0 ≡ ok reg
      → (old : ProviderRegistration) × (find
            (λ (x : ProviderRegistration). x.id == id && x.status == "pending")
            w.db.registrations
          ≡ some old)
        × (reg ≡ record old {
          status = "rejected";
          rejection_reason = if reason == [] then none else some reason;
          rejected_at = some (d.now w.tick);
        })
        × ((reject_registration d id reason w).1.db ≡ record w.db {
          registrations =
              map_if
                (λ (x : ProviderRegistration). x.id == id && x.status == "pending")
                (λ x. record x {
                  status = "rejected";
                  rejection_reason = if reason == [] then none else some reason;
                  rejected_at = some (d.now w.tick);
                })
                w.db.registrations;
        })
  reject_registration_ok h =
      let (old, found, same, after) = reject_registration_writes h in
      let write = λ (r : Option Text) (x : ProviderRegistration). record x {
        status = "rejected";
        rejection_reason = r;
        rejected_at = some (d.now w.tick);
      } in
      let kept = nullable_str_lem reason in
      (
        old,
        found,
        same ∙ ap (λ r. write r old) kept,
        after
            ∙ ap
                (λ r. record w.db {
                  registrations = map_if (rejectable id) (write r) w.db.registrations;
                })
                kept,
      )

  -- A rejection that returns an error has changed no table.
  reject_registration_err :
      {e : Error}
      → (reject_registration d id reason w).0 ≡ err e
      → (reject_registration d id reason w).1.db ≡ w.db
  unfolding reject_registration
  reject_registration_err {e} h = elim (Result-cases (statement d reject_run w).0) [
    | inl (reg, ran) ↦ absurd (
        unfold explain_reject in
        cc (h, ap (λ r. (explain_reject d id r (statement d reject_run w).1).0) ran))
    | inr (x, ran) ↦
        explain_reject_db d id (statement d reject_run w).0 (statement d reject_run w).1
        ∙ statement_err d reject_run w ran
  ]

find-map_if :
    (p test : ProviderRegistration → Bool) (set : ProviderRegistration → ProviderRegistration)
    (rs : List ProviderRegistration) {reg : ProviderRegistration}
    → ((r : ProviderRegistration) → p (set r) ≡ p r)
    → find p rs ≡ some reg
    → test reg ≡ false
    → find p (map_if test set rs) ≡ some reg
find-map_if p test set [] k h free = absurd (cc)
find-map_if p test set (r ∷ rs) {reg} k h free = elim (Bool-cases (p r)) [
  | inl this ↦
      let found : some r ≡ some reg = rw this at h in
      let same : r ≡ reg = cc in let kept : test r ≡ false = rw same free in rw (kept, this, same)
  | inr other ↦
      let rest = find-map_if p test set rs k (rw other at h) free in
      elim (Bool-cases (test r)) [
        | inl hit ↦ rw (hit, k r, other, rest)
        | inr miss ↦ rw (miss, other, rest)
      ]
]

-- A registration that is not pending is the same after any rejection, of that or another
-- registration, whatever its outcome.
pub reject_registration-decided :
    (d : Driver) (id other : String) (reason : Text) (w : World) {reg : ProviderRegistration}
    → registration_by_id other w.db ≡ some reg
    → reg.status ≢ "pending"
    → registration_by_id other (reject_registration d id reason w).1.db ≡ some reg
reject_registration-decided d id other reason w {reg} h k =
    let by_id = λ (r : ProviderRegistration). r.id == other in
    let decided = beq_of_ne reg.status "pending" k in
    let skipped : rejectable id reg ≡ false = ground arith in
    elim (Result-cases (reject_registration d id reason w).0) [
      | inl (r, e) ↦
          let (old, found, same, after) = reject_registration_writes d id reason w e in
          ap (registration_by_id other) after
          ∙ find-map_if by_id (rejectable id) (rejected d w.tick reason) w.db.registrations
              (λ r. refl) h skipped
      | inr (x, e) ↦ ap (registration_by_id other) (reject_registration_err d id reason w e) ∙ h
    ]
