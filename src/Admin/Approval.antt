-- ===== src/Admin/Approval.antt =====
-- `ApproveRegistration`: its result (internal/repository/admin_repo.go).
use mathlib.Core.List.{map}
use proindustrial_backend.Common.{
  Bool, Bool-cases, List, Option, any, if◌then◌else◌, leb, none, take, Option-cases, String, [], ap,
  arith, eq_of_beq, false, find, inl, inr, length, map_if, nat_eq, not, refl, some, string_eq, sym,
  text_eq, true, ℕ, ◌+◌, ◌==◌, ◌^◌, ◌∙◌, ◌∷◌, ◌≡◌, ◌≤◌,
}
use proindustrial_backend.Common.Text.{Text, to_lower, trim_space}
use proindustrial_backend.Admin.{
  ApproveRegistrationResult, category_label, category_names, truncated_description, account_email,
  approve_body, approve_registration, approved, company_row, create_account, get_registration,
  next_company_slug, user_row,
}
use proindustrial_backend.Category.{category_groups}
use proindustrial_backend.Admin.Slugs.{next_company_slug_ok}
use proindustrial_backend.Database.{Db, Driver, World, ok, one, registration_not_found, statement}
use proindustrial_backend.Database.Ensures.{
  Ensures, Ensures-bind, Ensures-on_no_rows, Ensures-pure, Ensures-query_bind, Ensures-require_bind,
  Ensures-statement_bind, Ensures-transaction,
}
use proindustrial_backend.Database.Laws.{next, one_ok, statement_ok}
use proindustrial_backend.Model.{CategoryGroup, Company, ProviderRegistration, User}
use proindustrial_backend.Tables.{
  email_taken, insert_company, insert_user, registration_by_id, slug_taken, update_registration,
}

not-true : (b : Bool) → not b ≡ true → b ≡ false
not-true b h = ground arith

-- The description of the company: that of the registration, or its first 600 characters, trimmed.
abbrev pub cut : Option Text → Option Text
cut none = none
cut (some t) = if leb (length t) 600 then some t else some (trim_space (take 600 t))

-- The name of the category with that slug, or the slug itself.
abbrev pub label : Text → Text
label slug = elim (find (λ (g : CategoryGroup). g.slug == slug) category_groups) [
  | none ↦ slug
  | some g ↦ g.name
]

-- The rows of an approval, column by column, written at the times `t₁`, `t₂` and `t₃`.
pub record IsApproved (d : Driver) (unicode_lower : ℕ → ℕ) (id hash : String)
    (initial_password : Text) (before after : Db) (r : ApproveRegistrationResult) : Type 0 where
  pub reg : ProviderRegistration
  pub email : Text
  pub address : email ≡ to_lower unicode_lower (trim_space reg.email)
  pub found : find (λ (x : ProviderRegistration). x.id == id) before.registrations ≡ some reg
  pub pending : reg.status ≡ "pending"
  pub unused : any (λ (u : User). d.lower u.email == email) before.users ≡ false
  pub slug : Text
  pub free : any (λ (c : Company). c.slug == slug) before.companies ≡ false
  pub short : length slug ≤ 100
  pub t₁ : ℕ
  pub company : r.company ≡ record {
    id = d.uuid t₁;
    slug = slug;
    name = reg.company_name;
    tagline = none;
    description = cut reg.description;
    location = reg.region;
    region = reg.region;
    categories = reg.services;
    services = map label reg.services;
    phone = reg.phone;
    email = some email;
    website = none;
    years_active = none;
    featured = false;
    logo_url = none;
    cover_url = none;
    created_at = d.now t₁;
    updated_at = d.now t₁;
  }
  pub t₂ : ℕ
  pub user : r.user ≡ record {
    id = d.uuid t₂;
    email = email;
    password_hash = hash;
    company_id = some (d.uuid t₁);
    role = "provider";
    must_change_password = true;
    created_at = d.now t₂;
  }
  pub t₃ : ℕ
  pub registration : r.registration ≡ record reg {
    status = "approved";
    company_id = some (d.uuid t₁);
    user_id = some (d.uuid t₂);
    approved_at = some (d.now t₃);
    email = email;
  }
  pub password : r.initial_password ≡ initial_password
  pub tables : after ≡ record before {
    companies = r.company ∷ before.companies;
    users = r.user ∷ before.users;
    registrations =
        map_if
          (λ (x : ProviderRegistration). x.id == id)
          (λ x. record x {
            status = "approved";
            company_id = some (d.uuid t₁);
            user_id = some (d.uuid t₂);
            approved_at = some (d.now t₃);
            email = email;
          })
          before.registrations;
  }

truncated_description_lem : (o : Option Text) → truncated_description o ≡ cut o
unfolding truncated_description
truncated_description_lem none = refl
truncated_description_lem (some t) = refl

category_label_lem :
    (slug : Text) (gs : List CategoryGroup)
    → category_label slug gs
      ≡ elim (find (λ (g : CategoryGroup). g.slug == slug) gs) [ none ↦ slug | some g ↦ g.name ]
unfolding category_label
category_label_lem slug [] = refl
category_label_lem slug (g ∷ gs) = elim (Bool-cases (g.slug == slug)) [
  | inl hit ↦ rw hit refl
  | inr miss ↦ rw miss (category_label_lem slug gs)
]

category_names-map : (slugs : List Text) → category_names slugs ≡ map label slugs
unfolding category_names
category_names-map [] = refl
category_names-map (slug ∷ slugs) =
    λ i. category_label_lem slug category_groups i ∷ category_names-map slugs i

company_row_lem :
    (d : Driver) (t : ℕ) (reg : ProviderRegistration) (slug email : Text)
    → company_row d t reg slug email ≡ record (company_row d t reg slug email) {
      description = cut reg.description;
      services = map label reg.services;
    }
company_row_lem d t reg slug email = λ i. record (company_row d t reg slug email) {
  description = truncated_description_lem reg.description i;
  services = category_names-map reg.services i;
}

-- What the two insertions and the update return, and leave.
insert_company_ok :
    (c : Company) (db : Db) {r : Company} {db' : Db}
    → insert_company c db ≡ ok (r, db')
    → (r ≡ c) × (db' ≡ record db { companies = r ∷ db.companies })
unfolding insert_company
insert_company_ok c db h = ground arith

insert_user_ok :
    (d : Driver) (u : User) (db : Db) {r : User} {db' : Db}
    → insert_user d u db ≡ ok (r, db')
    → (r ≡ u) × (db' ≡ record db { users = r ∷ db.users })
unfolding insert_user
insert_user_ok d u db h = ground arith

pub update_registration_ok :
    (test : ProviderRegistration → Bool) (set : ProviderRegistration → ProviderRegistration)
    (db : Db) {r : ProviderRegistration} {db' : Db}
    → update_registration test set db ≡ ok (r, db')
    → (old : ProviderRegistration) × (find test db.registrations ≡ some old)
      × (r ≡ set old)
      × (db' ≡ record db { registrations = map_if test set db.registrations })
unfolding update_registration
update_registration_ok test set db h = elim (Option-cases (find test db.registrations)) [
  | inl missing ↦ absurd (ground arith)
  | inr (old, found) ↦ (old, found, ground arith, ground arith)
]

pub Ensures-get_registration :
    (d : Driver) (id : String) (w : World)
    → Ensures
        (get_registration d id)
        w
        (λ reg db. (registration_by_id id w.db ≡ some reg) × (db ≡ w.db))
Ensures-get_registration d id w =
    Ensures-on_no_rows registration_not_found
      (statement d (λ t db. one (registration_by_id id db) db)) w
      (λ reg db. (registration_by_id id w.db ≡ some reg) × (db ≡ w.db))
      λ reg h.
        one_ok (registration_by_id id w.db) w.db
          (statement_ok d (λ t db. one (registration_by_id id db) db) w h)

module _ (d : Driver) (unicode_lower : ℕ → ℕ) (id hash : String) (initial_password : Text) where
  abbrev Approves : Db → ApproveRegistrationResult → Db → Type 0
  Approves before r after = IsApproved d unicode_lower id hash initial_password before after r

  -- The three writes, one after the other.
  writes-IsApproved :
      {before db₂ db₃ db₄ : Db} (reg : ProviderRegistration) (slug : Text) (t₁ t₂ t₃ : ℕ)
      {company : Company} {user : User} {reg' : ProviderRegistration}
      → registration_by_id id before ≡ some reg
      → reg.status ≡ "pending"
      → email_taken d.lower (account_email d unicode_lower reg) before ≡ false
      → slug_taken slug before ≡ false
      → length slug ≤ 100
      → insert_company (company_row d t₁ reg slug (account_email d unicode_lower reg)) before
        ≡ ok (company, db₂)
      → insert_user d (user_row d t₂ (account_email d unicode_lower reg) hash company.id) db₂
        ≡ ok (user, db₃)
      → update_registration
          (λ r. r.id == id)
          (approved d t₃ company.id user.id (account_email d unicode_lower reg))
          db₃
        ≡ ok (reg', db₄)
      → Approves before
          (record {
            registration = reg';
            company = company;
            user = user;
            initial_password = initial_password;
            email_status = "";
            email_note = [];
          })
          db₄
  writes-IsApproved {before} {db₂} {db₃} reg slug t₁ t₂ t₃ {company} {user} found pending unused
        free short e₁ e₂ e₃ =
      let email = account_email d unicode_lower reg in
      let test = λ (r : ProviderRegistration). r.id == id in
      let set = approved d t₃ company.id user.id email in
      let (c, s₁) = insert_company_ok (company_row d t₁ reg slug email) before e₁ in
      let (u, s₂) = insert_user_ok d (user_row d t₂ email hash company.id) db₂ e₂ in
      let (old, there, r, s₃) = update_registration_ok test set db₃ e₃ in
      let s₁₂ : db₃
          ≡ record before { companies = company ∷ before.companies; users = user ∷ before.users } =
        s₂ ∙ ap (λ (db : Db). record db { users = user ∷ db.users }) s₁ in
      let rows : db₃.registrations ≡ before.registrations =
        ap (λ (db : Db). db.registrations) s₁₂ in
      let same : old ≡ reg = cc (there, found, ap (find test) rows) in
      let written = c ∙ company_row_lem d t₁ reg slug email in
      let owner : company.id ≡ d.uuid t₁ = ap (λ (x : Company). x.id) written in
      let login : user.id ≡ d.uuid t₂ = ap (λ (x : User). x.id) u in
      let marks = λ (x y : String). approved d t₃ x y email in
      let marked : marks company.id user.id ≡ marks (d.uuid t₁) (d.uuid t₂) =
        λ i. marks (owner i) (login i) in
      record {
        reg = reg;
        email = email;
        address = refl;
        found = found;
        pending = pending;
        unused = unused;
        slug = slug;
        free = free;
        short = short;
        t₁ = t₁;
        company = written;
        t₂ = t₂;
        user = u ∙ ap (λ x. user_row d t₂ email hash x) owner;
        t₃ = t₃;
        registration = r ∙ ap set same ∙ ap (λ f. f reg) marked;
        password = refl;
        tables =
            s₃
            ∙ ap (λ (db : Db). record db { registrations = map_if test set db.registrations }) s₁₂
            ∙ ap
                (λ f. record before {
                  companies = company ∷ before.companies;
                  users = user ∷ before.users;
                  registrations = map_if test f before.registrations;
                })
                marked;
      }

  Ensures-create_account :
      (before : Db) (reg : ProviderRegistration) (w : World)
      → w.db ≡ before
      → registration_by_id id before ≡ some reg
      → reg.status ≡ "pending"
      → email_taken d.lower (account_email d unicode_lower reg) before ≡ false
      → length before.companies + 3 ≤ 2 ^ 63
      → Ensures (create_account d unicode_lower id hash initial_password reg) w (Approves before)
  unfolding create_account
  Ensures-create_account before reg w start found pending unused few =
      Ensures-bind (next_company_slug d unicode_lower reg.company_name) _ w
        (λ s db. (slug_taken s w.db ≡ false) × (length s ≤ 100) × (db ≡ w.db)) (Approves before)
        (λ s h. next_company_slug_ok d unicode_lower reg.company_name w (rw start few) h)
        λ slug w₁ (free, short, s₁).
          Ensures-statement_bind _ w₁ (Approves before) d _ λ company w₂ e₁.
            Ensures-statement_bind _ w₂ (Approves before) d _ λ user w₃ e₂.
              Ensures-statement_bind _ w₃ (Approves before) d _ λ reg' w₄ e₃.
                Ensures-pure _ w₄ (Approves before) (
                  writes-IsApproved reg slug w₁.tick w₂.tick w₃.tick found pending unused
                    (rw start at free) short (rw (s₁ ∙ start) at e₁) e₂ e₃)

  -- Whenever an approval returns a result, with at most 2 ^ 63 - 3 companies in the table, the
  -- registration was found, pending, and its trimmed address in lower case in use by no user. Added
  -- were one company with the data of the registration, a slug that was free and a description of
  -- at most 600 characters, and one account with that address and hash, of role `provider`, whose
  -- password has to be changed; the registration is approved and linked to both, and nothing else
  -- changed.
  pub approve_registration_ok :
      (w : World) {r : ApproveRegistrationResult}
      → length w.db.companies + 3 ≤ 2 ^ 63
      → (approve_registration d unicode_lower id hash initial_password w).0 ≡ ok r
      → IsApproved d unicode_lower id hash initial_password w.db
          (approve_registration d unicode_lower id hash initial_password w).1.db
          r
  unfolding approve_registration approve_body
  approve_registration_ok w {r} few h =
      Ensures-transaction d (approve_body d unicode_lower id hash initial_password) w
        (Approves w.db)
        (Ensures-bind (get_registration d id) _ (next w)
          (λ reg db. (registration_by_id id w.db ≡ some reg) × (db ≡ w.db)) (Approves w.db)
          (Ensures-get_registration d id (next w))
          λ reg w₁ (found, s₁). Ensures-require_bind _ w₁ (Approves w.db) _ _ λ w₂ pending s₂.
            Ensures-query_bind _ w₂ (Approves w.db) d _ λ taken w₃ e s₃.
              Ensures-require_bind _ w₃ (Approves w.db) _ _ λ w₄ unused s₄.
                Ensures-create_account w.db reg w₄ (s₄ ∙ s₃ ∙ s₂ ∙ s₁) found
                  (eq_of_beq reg.status "pending" pending)
                  (ap (email_taken d.lower (account_email d unicode_lower reg)) (sym (s₂ ∙ s₁))
                    ∙ sym e
                    ∙ not-true taken unused)
                  few)
        r h
