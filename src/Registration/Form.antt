-- ===== src/Registration/Form.antt =====
-- The handler of the registration form: what the validator's errors read like, the checks behind
-- the normalisation, and the insertion.
use mathlib.Core.List.{map}
use proindustrial_backend.Common.{
  Bool, List, Option, String, [], false, if◌then◌else◌, inl, inr, leb, length, ltb, nat_eq, none,
  not, some, string_eq, take, text_eq, true, ℕ, ◌&&◌, ◌++◌, ◌==◌, ◌||◌, ◌∷◌, ◌⊎◌,
}
use proindustrial_backend.Common.Text.{Text, codes, to_lower}
use proindustrial_backend.Database.{Driver, Result, err, is_unique_violation, ok}
use proindustrial_backend.Http.{Handler, Reply, answer, call, internal_error, refuse, respond}
use proindustrial_backend.Model.{ProviderRegistration}
use proindustrial_backend.Model.Limits.{
  max_company_name, max_description, max_email, max_phone, max_services, min_company_name,
  min_description, min_phone,
}
use proindustrial_backend.Registration.{
  CreateRegistrationInput, clean_services, collapse, create_registration, has_domain_dot,
  is_known_region, pending_exists, sanitize_text,
}
use proindustrial_backend.Slug.{decimal}

-- One `validator.FieldError`.
pub record FieldError : Type 0 where
  pub field : String
  pub tag : String
  pub param : Text

-- What `ShouldBindJSON` may answer: an error of the validator or any other.
pub data BindError : Type 0 where
  malformed : BindError
  invalid : List FieldError → BindError

-- `fieldLabels`, with the default for a field that it lacks.
unfoldable pub field_label : String → Text
field_label field =
    if field == "CompanyName"
    then codes "el nombre de la empresa"
    else if field == "Email"
    then codes "el correo electrónico"
    else if field == "Phone"
    then codes "el teléfono"
    else if field == "Region"
    then codes "la región"
    else if field == "Description"
    then codes "la descripción"
    else if field == "Services"
    then codes "los servicios"
    else codes "un campo"

unfoldable pub field_message : FieldError → Text
field_message fe =
    let label = field_label fe.field in
    if fe.tag == "required"
    then label ++ codes " es obligatorio"
    else if fe.tag == "email"
    then codes "el correo electrónico no tiene un formato válido"
    else if fe.tag == "min"
    then label ++ codes " debe tener al menos " ++ fe.param ++ codes " caracteres"
    else if fe.tag == "max"
    then label ++ codes " no puede superar " ++ fe.param ++ codes " caracteres"
    else label ++ codes " no es válido"

-- `strings.Join`
unfoldable pub join : Text → List Text → Text
join separator [] = []
join separator (s ∷ []) = s
join separator (s ∷ t ∷ ss) = s ++ separator ++ join separator (t ∷ ss)

unfoldable pub validation_message : BindError → Text
validation_message malformed = codes "el formato de la solicitud no es válido"
validation_message (invalid errors) = join (codes "; ") (map field_message errors)

-- The decoded request.
pub record Body : Type 0 where
  pub company_name : Text
  pub email : Text
  pub phone : Text
  pub region : Text
  pub services : List Text
  pub description : Text

abbrev pub between : ℕ → ℕ → ℕ → Bool
between least most n = leb least n && leb n most

unfoldable pub normalize : (ℕ → ℕ) → Body → CreateRegistrationInput
normalize unicode_lower body = record {
  company_name = collapse false (sanitize_text body.company_name);
  email = to_lower unicode_lower (sanitize_text body.email);
  phone = sanitize_text body.phone;
  region = sanitize_text body.region;
  services = clean_services unicode_lower body.services;
  description = sanitize_text body.description;
}

abbrev pub bounds_message : Text → ℕ → ℕ → Text
bounds_message what least most =
    what
    ++ codes " debe tener entre "
    ++ decimal least
    ++ codes " y "
    ++ decimal most
    ++ codes " caracteres"

-- The first check that the normalised form fails.
unfoldable pub complaint : CreateRegistrationInput → Option Text
complaint input =
    if not (between min_company_name max_company_name (length input.company_name))
    then some (bounds_message (codes "el nombre de la empresa") min_company_name max_company_name)
    else if ltb max_email (length input.email) || not (has_domain_dot input.email)
    then some (codes "el correo electrónico no tiene un formato válido")
    else if not (between min_phone max_phone (length input.phone))
    then some (bounds_message (codes "el teléfono") min_phone max_phone)
    else if not (is_known_region input.region)
    then some (codes "selecciona una región válida")
    else if not (between min_description max_description (length input.description))
    then some (bounds_message (codes "la descripción") min_description max_description)
    else if length input.services == 0
    then some (codes "selecciona al menos una categoría de servicio")
    else none

-- `services[:model.MaxServices]`
abbrev pub limited : CreateRegistrationInput → CreateRegistrationInput
limited input = record input { services = take max_services input.services }

abbrev pub already_received : {A : Type 0} → Reply A
already_received = refuse 409 (
    codes "Ya recibimos una solicitud con este correo y está en revisión. Te contactaremos pronto.")

abbrev pub after_insert : Result ProviderRegistration → Handler ProviderRegistration
after_insert (ok reg) = respond (answer 201 reg)
after_insert (err e) = respond (if is_unique_violation e then already_received else internal_error)

-- A failed `PendingExists` does not stop the insertion.
abbrev pub after_pending :
    Driver → CreateRegistrationInput → Result Bool → Handler ProviderRegistration
after_pending d input (ok true) = respond already_received
after_pending d input answered = call (create_registration d input) after_insert

abbrev pub submit : Driver → CreateRegistrationInput → Option Text → Handler ProviderRegistration
submit d input (some message) = respond (refuse 400 message)
submit d input none = call (pending_exists d input.email) (after_pending d input)

unfoldable pub create : Driver → (ℕ → ℕ) → BindError ⊎ Body → Handler ProviderRegistration
create d unicode_lower (inl e) = respond (refuse 400 (validation_message e))
create d unicode_lower (inr body) =
    let input = normalize unicode_lower body in submit d (limited input) (complaint input)
