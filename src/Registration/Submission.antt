-- ===== src/Registration/Submission.antt =====
-- What a submitted form leads to (internal/handler/registration.go).
use proindustrial_backend.Common.{
  Bool, Bool-cases, Option, ap, arith, false, inl, inr, [], take, length-take, any, nat_eq,
  string_eq, text_eq, ◌==◌, ◌&&◌, length, none, refl, some, subst, true, ℕ, ◌∙◌, ◌∷◌, ◌≡◌, ◌≤◌,
}
use proindustrial_backend.Common.Text.{Text, to_lower}
use proindustrial_backend.Admin.{nullable_str}
use proindustrial_backend.Category.{regions}
use proindustrial_backend.Database.{
  Db, Driver, Result, World, err, is_unique_violation, ok, query, statement,
}
use proindustrial_backend.Database.Laws.{query_db, statement_ok}
use proindustrial_backend.Http.{answer, call}
use proindustrial_backend.Model.{ProviderRegistration}
use proindustrial_backend.Model.Limits.{
  max_company_name, max_description, max_email, max_phone, min_company_name, min_description,
  min_phone,
}
use proindustrial_backend.RateLimit.{accepted}
use proindustrial_backend.Registration.{
  CreateRegistrationInput, create_registration, has_domain_dot, has_pending, insert_registration,
  is_known_region, pending_exists, registration_row, collapse, sanitize_text, clean_services,
}
use proindustrial_backend.Registration.Form.{
  Body, after_insert, after_pending, complaint, create, limited, normalize, submit,
}

-- The limits that an accepted form keeps.
pub record WithinLimits (input : CreateRegistrationInput) : Type 0 where
  pub name_least : min_company_name ≤ length input.company_name
  pub name_most : length input.company_name ≤ max_company_name
  pub email_most : length input.email ≤ max_email
  pub domain : has_domain_dot input.email ≡ true
  pub phone_least : min_phone ≤ length input.phone
  pub phone_most : length input.phone ≤ max_phone
  pub region : is_known_region input.region ≡ true
  pub description_least : min_description ≤ length input.description
  pub description_most : length input.description ≤ max_description
  pub some_service : 1 ≤ length input.services

complaint-none : (input : CreateRegistrationInput) → complaint input ≡ none → WithinLimits input
unfolding complaint
complaint-none input h = record {
  name_least = ground arith;
  name_most = ground arith;
  email_most = ground arith;
  domain = ground arith;
  phone_least = ground arith;
  phone_most = ground arith;
  region = ground arith;
  description_least = ground arith;
  description_most = ground arith;
  some_service = ground arith;
}

insert_registration_ok :
    (d : Driver) (r : ProviderRegistration) (db : Db) {r' : ProviderRegistration} {db' : Db}
    → insert_registration d r db ≡ ok (r', db')
    → (r' ≡ r)
      × ((d.pending_email_uniq && has_pending d.lower (d.lower r.email) db) ≡ false)
      × (db' ≡ record db { registrations = r' ∷ db.registrations })
unfolding insert_registration
insert_registration_ok d r db h = (ground arith, ground arith, ground arith)

after_insert_ok :
    (r : Result ProviderRegistration) (w : World) {code : ℕ} {reg : ProviderRegistration}
    → (after_insert r w).0 ≡ answer code reg
    → (r ≡ ok reg) × (code ≡ 201) × ((after_insert r w).1 ≡ w)
after_insert_ok (ok x) w h = (cc, cc, refl)
after_insert_ok (err e) w h = elim (Bool-cases (is_unique_violation e)) [
  | inl twice ↦ absurd (let no = rw twice at h in cc)
  | inr lost ↦ absurd (let no = rw lost at h in cc)
]

-- The row is in the table.
abbrev Inserts : Driver → CreateRegistrationInput → Db → ProviderRegistration → Db → Type 0
Inserts d input before reg after =
    ((t : ℕ) × (reg ≡ registration_row d t input))
    × ((d.pending_email_uniq && has_pending d.lower (d.lower input.email) before) ≡ false)
    × (after ≡ record before { registrations = reg ∷ before.registrations })

module _ (d : Driver) (input : CreateRegistrationInput) where
  inserted :
      (w : World) {code : ℕ} {reg : ProviderRegistration}
      → (call (create_registration d input) after_insert w).0 ≡ answer code reg
      → (code ≡ 201)
        × Inserts d input w.db reg (call (create_registration d input) after_insert w).1.db
  unfolding call create_registration
  inserted w {code} {reg} h =
      let run : ℕ → Db → Result (ProviderRegistration × Db) =
        λ t. insert_registration d (registration_row d t input) in
      let (ran, created, same) = after_insert_ok (statement d run w).0 (statement d run w).1 h in
      let (row, free, after) =
        insert_registration_ok d (registration_row d w.tick input) w.db
          (statement_ok d run w ran) in
      (created, ((w.tick, row), free, ap (λ v. v.db) same ∙ after))

  after_pending-Inserts :
      (r : Result Bool) (w : World) {code : ℕ} {reg : ProviderRegistration}
      → (after_pending d input r w).0 ≡ answer code reg
      → (code ≡ 201) × Inserts d input w.db reg (after_pending d input r w).1.db
  after_pending-Inserts (ok true) w h = absurd (cc)
  after_pending-Inserts (ok false) w h = inserted w h
  after_pending-Inserts (err e) w h = inserted w h

  submit-Inserts :
      (o : Option Text) (w : World) {code : ℕ} {reg : ProviderRegistration}
      → (submit d input o w).0 ≡ answer code reg
      → (o ≡ none) × (code ≡ 201) × Inserts d input w.db reg (submit d input o w).1.db
  unfolding call pending_exists
  submit-Inserts (some message) w h = absurd (cc)
  submit-Inserts none w {code} {reg} h =
      let asked = query d (has_pending d.lower input.email) w in
      let (created, row) = after_pending-Inserts asked.0 asked.1 h in
      (
        refl,
        created,
        subst (λ before. Inserts d input before reg (after_pending d input asked.0 asked.1).1.db)
            (query_db d (has_pending d.lower input.email) w) row,
      )

-- The form as it is read: every field sanitised, the runs of spaces of the name collapsed, the
-- address in lower case, and the services cleaned.
abbrev pub cleaned : (ℕ → ℕ) → Body → CreateRegistrationInput
cleaned unicode_lower body = record {
  company_name = collapse false (sanitize_text body.company_name);
  email = to_lower unicode_lower (sanitize_text body.email);
  phone = sanitize_text body.phone;
  region = sanitize_text body.region;
  services = clean_services unicode_lower body.services;
  description = sanitize_text body.description;
}

-- The row of a form that kept the limits, written at the time `t`.
abbrev pub pending_row : Driver → ℕ → CreateRegistrationInput → ProviderRegistration
pending_row d t form = record {
  id = d.uuid t;
  company_name = form.company_name;
  email = form.email;
  phone = some form.phone;
  region = some form.region;
  services = take 10 form.services;
  description = some form.description;
  status = "pending";
  created_at = d.now t;
  company_id = none;
  user_id = none;
  approved_at = none;
  email_status = none;
  email_note = none;
  rejection_reason = none;
  rejected_at = none;
}

nullable_str-some : (s : Text) → 1 ≤ length s → nullable_str s ≡ some s
nullable_str-some [] h = absurd (omega (arith, h))
nullable_str-some (c ∷ s) h = refl

known_region-some : (s : Text) → is_known_region s ≡ true → nullable_str s ≡ some s
unfolding is_known_region regions
known_region-some [] h = absurd (cc)
known_region-some (c ∷ s) h = refl

registration_row-limited :
    (d : Driver) (t : ℕ) (input : CreateRegistrationInput)
    → WithinLimits input
    → registration_row d t (limited input) ≡ pending_row d t input
registration_row-limited d t input w = λ i. record (registration_row d t (limited input)) {
  phone = nullable_str-some input.phone (omega (arith, w.phone_least)) i;
  region = known_region-some input.region w.region i;
  description = nullable_str-some input.description (omega (arith, w.description_least)) i;
}

-- A form that is answered with a registration keeps, once it is cleaned, the limits on the name,
-- address, phone, region and description, and has a service; the answer is 201, and the one row
-- added has exactly those fields and the first `MaxServices` of those services, and is pending.
-- Where the index of pending addresses is there, no pending registration had its address.
pub create_ok :
    (d : Driver) (unicode_lower : ℕ → ℕ) (body : Body) (w : World) {code : ℕ}
    {reg : ProviderRegistration}
    → (create d unicode_lower (inr body) w).0 ≡ answer code reg
    → let form = cleaned unicode_lower body in
      (code ≡ 201)
      × WithinLimits form
      × ((t : ℕ) × (reg ≡ pending_row d t form))
      × (length reg.services ≤ 10)
      × ((d.pending_email_uniq
            && any
                (λ (x : ProviderRegistration).
                  d.lower x.email == d.lower form.email && x.status == "pending")
                w.db.registrations)
          ≡ false)
      × ((create d unicode_lower (inr body) w).1.db
          ≡ record w.db { registrations = reg ∷ w.db.registrations })
unfolding create normalize
create_ok d unicode_lower body w h =
    let input = normalize unicode_lower body in
    let (accepted, created, ((t, row), free, after)) =
      submit-Inserts d (limited input) (complaint input) w h in
    let kept = complaint-none input accepted in
    let written = row ∙ registration_row-limited d t input kept in
    (
      created,
      kept,
      (t, written),
      rw written (omega (arith, length-take 10 input.services)),
      free,
      after,
    )
