-- ===== src/Admin/Progress.antt =====
-- When `ApproveRegistration` goes through (internal/repository/admin_repo.go).
use proindustrial_backend.Common.{
  Bool, Bool-cases, List, Option, String, [], any, ap, eq_of_beq, arith, eq_self, false, find, inl,
  inr, leb, leb_of_le, length, length-take, map_if, nat_eq, none, not, refl, some, string_eq, take,
  text_eq, true, ℕ, ◌+◌, ◌==◌, ◌^◌, ◌||◌, ◌∙◌, ◌∷◌, ◌≡◌, ◌≤◌,
}
use proindustrial_backend.Common.Text.{Text, codes, is_space, length-trim, trim, trim_space}
use proindustrial_backend.Admin.{
  ApproveRegistrationResult, account_email, approve_body, approve_registration, approved,
  company_row, create_account, get_registration, next_company_slug, truncated_description, user_row,
}
use proindustrial_backend.Admin.Slugs.{next_company_slug_returns}
use proindustrial_backend.Database.{
  Db, Driver, World, fits, ok, one, registration_already_done, registration_email_in_use,
  registration_not_found, require, statement,
}
use proindustrial_backend.Database.Laws.{next}
use proindustrial_backend.Database.Returns.{
  Returns, Returns-bind, Returns-on_no_rows, Returns-pure, Returns-require, Returns-statement,
  Returns-transaction,
}
use proindustrial_backend.Model.{Company, ProviderRegistration, User}
use proindustrial_backend.Model.Limits.{max_description}
use proindustrial_backend.Tables.{
  company_fits, user_clashes, email_taken, insert_company, insert_user, registration_by_id,
  registration_checked, slug_taken, update_registration,
}

-- A description is cut to what the column of `companies` takes; one that fits is kept.
pub truncated_description-fits :
    (o : Option Text) → fits max_description (truncated_description o) ≡ true
unfolding truncated_description trim_space
truncated_description-fits none = refl
truncated_description-fits (some t) =
    let cut = take max_description t in
    elim (Bool-cases (leb (length t) max_description)) [
      | inl short ↦ rw (short, short) refl
      | inr long ↦ rw long (
          leb_of_le (length (trim is_space cut)) 600
            (omega (arith, length-trim is_space cut, length-take max_description t)))
    ]

-- What an approval needs: the registration is pending and its row within its own columns, the hash
-- fits its column, the address belongs to no user and is left alone by the database's `lower`, and
-- the identifiers drawn are new.
pub record CanApprove (d : Driver) (unicode_lower : ℕ → ℕ) (id hash : String) (db : Db)
    (reg : ProviderRegistration) : Type 0 where
  pub found : registration_by_id id db ≡ some reg
  pub pending : reg.status ≡ "pending"
  pub unused : email_taken d.lower (account_email d unicode_lower reg) db ≡ false
  pub lowered : d.lower (account_email d unicode_lower reg) ≡ account_email d unicode_lower reg
  pub name_fits : length reg.company_name ≤ 200
  pub email_fits : length (account_email d unicode_lower reg) ≤ 200
  pub hash_fits : length (codes hash) ≤ 200
  pub phone_fits : fits 50 reg.phone ≡ true
  pub region_fits : fits 100 reg.region ≡ true
  pub checked : registration_checked reg ≡ true
  pub few : length db.companies + 3 ≤ 2 ^ 63
  pub new_company : (t : ℕ) → any (λ (c : Company). c.id == d.uuid t) db.companies ≡ false
  pub new_user : (t : ℕ) → any (λ (u : User). u.id == d.uuid t) db.users ≡ false

any-or :
    {A : Type 0} (p q : A → Bool) (xs : List A)
    → any p xs ≡ false
    → any q xs ≡ false
    → any (λ x. p x || q x) xs ≡ false
any-or p q [] h k = refl
any-or p q (x ∷ xs) h k = ground (arith, any-or p q xs)

insert_company_runs :
    (c : Company) (db : Db)
    → company_fits c ≡ true
    → fits 600 c.description ≡ true
    → any (λ (x : Company). x.id == c.id) db.companies ≡ false
    → slug_taken c.slug db ≡ false
    → insert_company c db ≡ ok (c, record db { companies = c ∷ db.companies })
unfolding insert_company
insert_company_runs c db h k new free = rw (
  h,
  k,
  any-or (λ (x : Company). x.id == c.id) (λ (x : Company). x.slug == c.slug) db.companies new free,
)

-- An address that is taken as it stands is taken in lower case.
user_clashes-none :
    (d : Driver) (u x : User)
    → (x.id == u.id) ≡ false
    → (d.lower x.email == d.lower u.email) ≡ false
    → user_clashes d u x ≡ false
user_clashes-none d u x new free = elim (Bool-cases (x.email == u.email)) [
  | inl same ↦
      let one_case : (d.lower x.email == d.lower u.email) ≡ true =
        rw (eq_of_beq x.email u.email same) (eq_self (d.lower u.email)) in
      absurd (cc)
  | inr other ↦ ground arith
]

any-user_clashes :
    (d : Driver) (u : User) (us : List User)
    → any (λ (x : User). x.id == u.id) us ≡ false
    → any (λ (x : User). d.lower x.email == d.lower u.email) us ≡ false
    → any (user_clashes d u) us ≡ false
any-user_clashes d u [] h k = refl
any-user_clashes d u (x ∷ us) h k =
    let rest = any-user_clashes d u us (ground arith) (ground arith) in
    rw (user_clashes-none d u x (ground arith) (ground arith), rest)

insert_user_runs :
    (d : Driver) (u : User) (c : Company) (db : Db)
    → length u.email ≤ 200
    → length (codes u.password_hash) ≤ 200
    → u.role ≡ "provider"
    → any (λ (x : User). x.id == u.id) db.users ≡ false
    → email_taken d.lower (d.lower u.email) db ≡ false
    → u.company_id ≡ some c.id
    → insert_user d u (record db { companies = c ∷ db.companies })
      ≡ ok (u, record db { companies = c ∷ db.companies; users = u ∷ db.users })
unfolding insert_user
insert_user_runs d u c db h k role new free linked =
    rw
      (
        leb_of_le (length u.email) 200 h,
        leb_of_le (length (codes u.password_hash)) 200 k,
        role,
        any-user_clashes d u db.users new free,
        linked,
        eq_self c.id,
      )
      refl

one_of : {A : Type 0} (o : Option A) (db : Db) {a : A} → o ≡ some a → one o db ≡ ok (a, db)
one_of o db h = rw h refl

update_registration_runs :
    (test : ProviderRegistration → Bool) (set : ProviderRegistration → ProviderRegistration)
    (db : Db) {reg : ProviderRegistration}
    → find test db.registrations ≡ some reg
    → registration_checked (set reg) ≡ true
    → update_registration test set db
      ≡ ok (set reg, record db { registrations = map_if test set db.registrations })
unfolding update_registration
update_registration_runs test set db h k = rw (h, update_registration) (rw k refl)

module _ (d : Driver) (unicode_lower : ℕ → ℕ) (id hash : String) (initial_password : Text)
    (reg : ProviderRegistration) (before : Db) (sound : (t : ℕ) → d.fails t ≡ false)
    (can : CanApprove d unicode_lower id hash before reg) where
  abbrev Done : ApproveRegistrationResult → Db → Type 0
  Done r after = Unit

  row_fits :
      (t : ℕ) (slug : Text)
      → length slug ≤ 100
      → company_fits (company_row d t reg slug (account_email d unicode_lower reg)) ≡ true
  row_fits t slug h =
      rw
        (
          leb_of_le (length slug) 100 h,
          leb_of_le (length reg.company_name) 200 can.name_fits,
          can.region_fits,
          can.phone_fits,
          leb_of_le (length (account_email d unicode_lower reg)) 200 can.email_fits,
        )
        refl

  -- The three writes, from a free slug on.
  insert_company_at :
      (w : World) (slug : Text)
      → w.db ≡ before
      → slug_taken slug before ≡ false
      → length slug ≤ 100
      → insert_company (company_row d w.tick reg slug (account_email d unicode_lower reg)) w.db
        ≡ ok (
          company_row d w.tick reg slug (account_email d unicode_lower reg),
          record before {
            companies =
                company_row d w.tick reg slug (account_email d unicode_lower reg)
                ∷ before.companies;
          },
        )
  insert_company_at w slug start free short =
      ap (insert_company (company_row d w.tick reg slug (account_email d unicode_lower reg))) start
      ∙ insert_company_runs (company_row d w.tick reg slug (account_email d unicode_lower reg))
          before (row_fits w.tick slug short) (truncated_description-fits reg.description)
          (can.new_company w.tick) free

  insert_user_at :
      (w : World) (c : Company)
      → w.db ≡ record before { companies = c ∷ before.companies }
      → insert_user d (user_row d w.tick (account_email d unicode_lower reg) hash c.id) w.db
        ≡ ok (
          user_row d w.tick (account_email d unicode_lower reg) hash c.id,
          record before {
            companies = c ∷ before.companies;
            users = user_row d w.tick (account_email d unicode_lower reg) hash c.id ∷ before.users;
          },
        )
  insert_user_at w c e =
      ap (insert_user d (user_row d w.tick (account_email d unicode_lower reg) hash c.id)) e
      ∙ insert_user_runs d (user_row d w.tick (account_email d unicode_lower reg) hash c.id) c
          before can.email_fits can.hash_fits refl (can.new_user w.tick)
          (ap (λ x. email_taken d.lower x before) can.lowered ∙ can.unused) refl

  create_account_returns :
      (w : World)
      → w.db ≡ before
      → Returns (create_account d unicode_lower id hash initial_password reg) w Done
  unfolding create_account
  create_account_returns w start =
      Returns-bind (next_company_slug d unicode_lower reg.company_name) _ w
        (λ s db. (slug_taken s w.db ≡ false) × (length s ≤ 100) × (db ≡ w.db)) Done
        (next_company_slug_returns d unicode_lower reg.company_name w sound (rw start can.few))
        λ slug w₁ (free, short, s₁).
          Returns-bind _ _ w₁ _ Done
            (Returns-statement d _ w₁ (sound w₁.tick)
              (insert_company_at w₁ slug (s₁ ∙ start) (rw start at free) short))
            λ company w₂ (c, s₂).
              Returns-bind _ _ w₂ _ Done
                (Returns-statement d _ w₂ (sound w₂.tick) (insert_user_at w₂ company (rw c s₂)))
                λ user w₃ (u, s₃).
                  Returns-bind _ _ w₃ _ Done
                    (Returns-statement d _ w₃ (sound w₃.tick) (
                      update_registration_runs (λ r. r.id == id)
                        (approved d w₃.tick company.id user.id (account_email d unicode_lower reg))
                        w₃.db (ap (λ (db : Db). registration_by_id id db) s₃ ∙ can.found)
                        can.checked))
                    λ reg' w₄ h. Returns-pure _ w₄ Done tt

  -- An approval returns a result whenever no statement fails, the registration is found and
  -- pending, no user has its address in trimmed lower case, which the database's `lower` leaves
  -- as it is, the name, address, phone, region and hash fit the columns of `companies` and `users`, the
  -- registration meets its own CHECK constraints, the identifiers drawn are those of no company
  -- and no user, and there are at most 2 ^ 63 - 3 companies.
  pub approve_registration_returns :
      (w : World)
      → w.db ≡ before
      → (r : ApproveRegistrationResult) × ((approve_registration d unicode_lower id hash
            initial_password w).0
          ≡ ok r)
  unfolding approve_registration approve_body
  approve_registration_returns w start =
      let (r, w', ran, _) =
        Returns-transaction d (approve_body d unicode_lower id hash initial_password) w Done sound (
          Returns-bind (get_registration d id) _ (next w) (λ a db. (a ≡ reg) × (db ≡ w.db)) Done
            (Returns-on_no_rows registration_not_found
              (statement d (λ t db. one (registration_by_id id db) db)) (next w)
              (λ a db. (a ≡ reg) × (db ≡ w.db))
              (Returns-statement d (λ t db. one (registration_by_id id db) db) (next w)
                (sound (w.tick + 1))
                (one_of (registration_by_id id w.db) w.db (rw start can.found))))
            λ a w₁ (this, s₁).
              Returns-bind (require (a.status == "pending") registration_already_done) _ w₁
                (λ u db. db ≡ w₁.db) Done
                (Returns-require (a.status == "pending") registration_already_done w₁
                  (rw this (rw can.pending (eq_self {A = String} "pending"))))
                λ u w₂ s₂.
                  Returns-bind _ _ w₂ (λ b db. (b ≡ false) × (db ≡ w₂.db)) Done
                    (Returns-statement d _ w₂ (sound w₂.tick) (
                      let taken : email_taken d.lower (account_email d unicode_lower a) w₂.db
                          ≡ false =
                        rw (this, s₂ ∙ s₁ ∙ start) can.unused in
                      ap (λ t. ok (t, w₂.db)) taken))
                    λ b w₃ (unused, s₃).
                      Returns-bind (require (not b) registration_email_in_use) _ w₃
                        (λ u db. db ≡ w₃.db) Done
                        (Returns-require (not b) registration_email_in_use w₃ (rw unused refl))
                        λ u w₄ s₄.
                          rw this (create_account_returns w₄ (s₄ ∙ s₃ ∙ s₂ ∙ s₁ ∙ start))) in
      (r, ap (λ p. p.0) ran)
