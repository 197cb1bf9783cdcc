-- ===== src/Registration.antt =====
-- internal/repository/registration_repo.go, and the form of internal/handler/registration.go.
pub mod Services
pub mod Sanitize
pub mod Form
pub mod Submission
use mathlib.Core.List.{map}
use proindustrial_backend.Common.{
  Bool, List, Option, [], any, contains, false, filter, if◌then◌else◌, leb, length, nat_eq, none,
  not, some, string_eq, text_eq, true, ℕ, ◌!=◌, ◌&&◌, ◌==◌, ◌||◌, ◌∷◌,
}
use proindustrial_backend.Common.Text.{Text, codes, to_lower, trim_space}
use proindustrial_backend.Admin.{nullable_str}
use proindustrial_backend.Category.{category_groups, regions}
use proindustrial_backend.Database.{
  Action, Db, Driver, Result, check_violation, err, fits, ok, query, statement, too_long,
  unique_violation,
}
use proindustrial_backend.Model.{CategoryGroup, ProviderRegistration}
use proindustrial_backend.Tables.{registration_checked}

pub record CreateRegistrationInput : Type 0 where
  pub company_name : Text
  pub email : Text
  pub phone : Text
  pub region : Text
  pub services : List Text
  pub description : Text

-- `SELECT COUNT(*) … WHERE lower(email) = $1 AND status = 'pending'`
abbrev pub has_pending : (Text → Text) → Text → Db → Bool
has_pending lower email db =
    any (λ (r : ProviderRegistration). lower r.email == email && r.status == "pending")
      db.registrations

unfoldable pub pending_exists : Driver → Text → Action Bool
pending_exists d email = query d (has_pending d.lower email)

abbrev pub registration_row : Driver → ℕ → CreateRegistrationInput → ProviderRegistration
registration_row d t input = record {
  id = d.uuid t;
  company_name = input.company_name;
  email = input.email;
  phone = nullable_str input.phone;
  region = nullable_str input.region;
  services = input.services;
  description = nullable_str input.description;
  status = "pending";
  created_at = d.now t;
  company_id = none;
  user_id = none;
  approved_at = none;
  email_status = none;
  email_note = none;
  rejection_reason = none;
  rejected_at = none;
}

-- The widths of the columns of `provider_registrations`.
abbrev pub registration_fits : ProviderRegistration → Bool
registration_fits r =
    leb (length r.company_name) 200
    && leb (length r.email) 200
    && fits 50 r.phone
    && fits 100 r.region

-- The constraints, and `provider_registrations_pending_email_uniq`: one pending registration for
-- an address, where that index is there.
unfoldable pub insert_registration :
    Driver → ProviderRegistration → Db → Result (ProviderRegistration × Db)
insert_registration d r db =
    if registration_fits r
    then if registration_checked r
      then if any (λ (x : ProviderRegistration). x.id == r.id) db.registrations
          || d.pending_email_uniq && has_pending d.lower (d.lower r.email) db
        then err unique_violation
        else ok (r, record db { registrations = r ∷ db.registrations })
      else err check_violation
    else err too_long

unfoldable pub create_registration : Driver → CreateRegistrationInput → Action ProviderRegistration
create_registration d input = statement d (λ t. insert_registration d (registration_row d t input))

-- `controlChars`
abbrev pub is_control : ℕ → Bool
is_control c = leb c 8 || c == 0x0b || c == 0x0c || leb 0x0e c && leb c 0x1f || c == 0x7f

unfoldable pub sanitize_text : Text → Text
sanitize_text s = trim_space (filter (λ c. not (is_control c)) s)

-- `\s` of Go's regexp
abbrev pub is_re_space : ℕ → Bool
is_re_space c = c == 0x09 || c == 0x0a || c == 0x0c || c == 0x0d || c == 0x20

-- A run of `\s` that begins with `c`, before a text whose runs are collapsed: whether the run
-- goes on is read off the source.
abbrev pub starts_space : Text → Bool
starts_space [] = false
starts_space (c ∷ s) = is_re_space c

-- `multiSpace.ReplaceAllString(s, " ")`. `inside` tells that the character before is part of a run
-- already replaced.
unfoldable pub collapse : Bool → Text → Text
collapse inside [] = []
collapse inside (c ∷ s) =
    let rest = collapse false s in
    let more = collapse true s in
    if is_re_space c
    then if inside then more else if starts_space s then b' ' ∷ more else c ∷ rest
    else c ∷ rest

-- `repository.CategoryGroups` as the set of its slugs.
unfoldable pub valid_services : List Text
unfolding category_groups
valid_services = map (λ (g : CategoryGroup). g.slug) category_groups

-- The loop of `cleanServices`; `seen` are the slugs put out so far.
unfoldable pub clean : (ℕ → ℕ) → List Text → List Text → List Text
clean unicode_lower seen [] = []
clean unicode_lower seen (s ∷ raw) =
    let slug = to_lower unicode_lower (trim_space s) in
    let kept = clean unicode_lower (slug ∷ seen) raw in
    let skipped = clean unicode_lower seen raw in
    if contains valid_services slug && not (contains seen slug) then slug ∷ kept else skipped

unfoldable pub clean_services : (ℕ → ℕ) → List Text → List Text
clean_services unicode_lower raw = clean unicode_lower [] raw

-- What follows the last `@`, if there is one.
abbrev pub after_last_at : Text → Option Text
after_last_at [] = none
after_last_at (c ∷ s) = elim (after_last_at s) [
  | some domain ↦ some domain
  | none ↦ if c == b'@' then some s else none
]

unfoldable pub has_domain_dot : Text → Bool
has_domain_dot email = elim (after_last_at email) [
  | none ↦ false
  | some domain ↦ contains domain b'.'
]

unfoldable pub is_known_region : Text → Bool
is_known_region region = any (λ r. r != codes "Todas las regiones" && r == region) regions
