-- ===== src/Review.antt =====
-- internal/handler/admin.go: the review of registrations by an administrator. bcrypt, the random
-- source and the mail provider are parameters.
pub mod Outcomes
use proindustrial_backend.Common.{
  Bool, List, Option, String, [], false, if◌then◌else◌, length, ltb, nat_eq, none, some, string_eq,
  suc, text_eq, true, zero, ℕ, ◌!=◌, ◌%◌, ◌&&◌, ◌++◌, ◌+◌, ◌∷◌,
}
use proindustrial_backend.Common.Text.{Text, codes, trim_space}
use proindustrial_backend.Admin.{
  ApproveRegistrationResult, approve_registration, get_registration_by_id, list_registrations,
  nullable_str, reject_registration, set_email_status,
}
use proindustrial_backend.Admin.Credentials.{reset_initial_password}
use proindustrial_backend.Admin.Removal.{delete_approved_company_by_registration}
use proindustrial_backend.Database.{
  Driver, Error, Result, World, approved_company_not_found, err, ok, registration_already_done,
  registration_email_in_use, registration_not_found,
}
use proindustrial_backend.Http.{Handler, Reply, answer, call, internal_error, refuse, respond}
use proindustrial_backend.Model.{ProviderRegistration}
use proindustrial_backend.Model.Limits.{max_rejection_reason}
use proindustrial_backend.Slug.{decimal}

-- `bcrypt.GenerateFromPassword` and `rand.Int`, which may fail; the second argument is the call.
pub record Random : Type 0 where
  pub hash : Text → ℕ → Option String
  pub int : ℕ → ℕ → Option ℕ

-- `AdminHandler`, and how a mail ends: the provider's status and note, and whether it came in time.
pub record Delivery : Type 0 where
  pub status : String
  pub note : Text
  pub in_time : Bool

pub record AdminHandler : Type 0 where
  pub has_mailer : Bool
  pub initial_password : Text
  pub app_env : String

unfoldable pub password_chars : Text
password_chars = codes "abcdefghijklmnopqrstuvwxyzABCDEFGHIJKLMNOPQRSTUVWXYZ0123456789"

-- The element at a place, where there is one.
abbrev pub char_at : ℕ → Text → Text
char_at n [] = []
char_at zero (c ∷ s) = c ∷ []
char_at (suc n) (c ∷ s) = char_at n s

-- One byte of the password; a failure of the source falls back on the place.
abbrev pub pick_char : ℕ → Option ℕ → Text
pick_char i none = char_at (i % 62) password_chars
pick_char i (some n) = char_at n password_chars

-- The loop over the bytes.
unfoldable pub random_chars : Random → ℕ → ℕ → ℕ → Text
random_chars random seed i zero = []
random_chars random seed i (suc n) =
    pick_char i (random.int 62 (seed + i)) ++ random_chars random seed (i + 1) n

unfoldable pub generate_initial_password : AdminHandler → Random → ℕ → Text
generate_initial_password h random seed =
    if h.initial_password != [] && h.app_env != "production"
    then h.initial_password
    else random_chars random seed 0 12

-- `deliverBounded`: the answer, and the outcome that the goroutine stores. A mail that is not in
-- time is stored all the same, after the answer; here at once, which the answer does not show.
unfoldable pub deliver_bounded :
    AdminHandler → Driver → String → Text → Delivery → World → (String × Text) × World
deliver_bounded h d id slow_note sent w =
    if h.has_mailer
    then (
      if sent.in_time then (sent.status, sent.note) else ("pending", slow_note),
      (set_email_status d id sent.status sent.note w).1,
    )
    else (("logged", codes "No hay proveedor de correo configurado."), w)

unfoldable pub credentials_slow_note : Text
credentials_slow_note =
    codes
      "El envío está tardando. Vuelve a cargar la lista en unos minutos para ver si se completó; mientras tanto, entrega la contraseña inicial por otro medio."

unfoldable pub rejection_slow_note : Text
rejection_slow_note =
    codes
      "El envío del aviso está tardando. Vuelve a cargar la lista en unos minutos para confirmar si salió."

-- `errors.Is` on what the repository returns.
unfoldable pub approve_error : Error → Reply ApproveRegistrationResult
approve_error registration_not_found = refuse 404 (codes "registro no encontrado")
approve_error registration_already_done = refuse 409 (codes "el registro ya fue procesado")
approve_error registration_email_in_use = refuse 409 (codes "el correo ya está en uso")
approve_error e = internal_error

unfoldable pub resend_error : Error → Reply ApproveRegistrationResult
resend_error registration_not_found = refuse 404 (codes "registro no encontrado")
resend_error approved_company_not_found =
    refuse 409 (codes "el registro no tiene una empresa aprobada asociada")
resend_error e = internal_error

unfoldable pub reject_error : Error → Reply ProviderRegistration
reject_error registration_not_found = refuse 404 (codes "registro no encontrado")
reject_error registration_already_done = refuse 409 (codes "el registro ya fue procesado")
reject_error e = internal_error

unfoldable pub delete_error : Error → Reply (Unit {0})
delete_error registration_not_found = refuse 404 (codes "registro no encontrado")
delete_error approved_company_not_found =
    refuse 409 (codes "empresa aprobada no encontrada para este registro")
delete_error e = internal_error

-- `ListRegistrations`
unfoldable pub list : Driver → String → Handler (List ProviderRegistration)
list d status =
    call (list_registrations d status)
      λ r. elim r [ ok regs ↦ respond (answer 200 regs) | err e ↦ respond internal_error ]

-- `GetRegistration`
unfoldable pub get : Driver → String → Handler ProviderRegistration
get d id = call (get_registration_by_id d id) λ r. elim r [
  | ok reg ↦ respond (answer 200 reg)
  | err e ↦ respond (refuse 404 (codes "registro no encontrado"))
]

module _ (h : AdminHandler) (d : Driver) (random : Random) where
  -- `deliverCredentials`, reflected in the answer.
  abbrev pub deliver_credentials :
      Delivery → Text → ApproveRegistrationResult → Handler ApproveRegistrationResult
  deliver_credentials sent initial_password result w =
      let ((status, note), w') =
        deliver_bounded h d result.registration.id credentials_slow_note sent w in
      (
        answer 200 (record result {
          initial_password = initial_password;
          email_status = status;
          email_note = note;
        }),
        w',
      )

  unfoldable pub after_approval :
      Delivery → Result ApproveRegistrationResult → Handler ApproveRegistrationResult
  after_approval sent (ok result) = deliver_credentials sent result.initial_password result
  after_approval sent (err e) = respond (approve_error e)

  unfoldable pub approve_with :
      (ℕ → ℕ) → String → Delivery → Text → Option String → Handler ApproveRegistrationResult
  approve_with unicode_lower id sent initial_password none = respond internal_error
  approve_with unicode_lower id sent initial_password (some hash) =
      call (approve_registration d unicode_lower id hash initial_password) (after_approval sent)

  -- `ApproveRegistration`
  unfoldable pub approve : (ℕ → ℕ) → String → Delivery → Handler ApproveRegistrationResult
  approve unicode_lower id sent w =
      let initial_password = generate_initial_password h random w.tick in
      approve_with unicode_lower id sent initial_password (random.hash initial_password w.tick) w

  unfoldable pub after_reset :
      Delivery → Text → Result ApproveRegistrationResult → Handler ApproveRegistrationResult
  after_reset sent initial_password (ok result) = deliver_credentials sent initial_password result
  after_reset sent initial_password (err e) = respond (resend_error e)

  unfoldable pub resend_with :
      String → Delivery → Text → Option String → Handler ApproveRegistrationResult
  resend_with id sent initial_password none = respond internal_error
  resend_with id sent initial_password (some hash) =
      call (reset_initial_password d id hash) (after_reset sent initial_password)

  -- `ResendCredentials`
  unfoldable pub resend : String → Delivery → Handler ApproveRegistrationResult
  resend id sent w =
      let initial_password = generate_initial_password h random w.tick in
      resend_with id sent initial_password (random.hash initial_password w.tick) w

-- The decoded body of a rejection; a body that cannot be decoded leaves both fields absent.
pub record Rejection : Type 0 where
  pub reason : Text
  pub notify : Option Bool

abbrev pub wants_notice : Option Bool → Bool
wants_notice none = true
wants_notice (some b) = b

unfoldable pub with_notice :
    AdminHandler → Driver → Delivery → Bool → ProviderRegistration → Handler ProviderRegistration
with_notice h d sent false reg w = (answer 200 reg, w)
with_notice h d sent true reg w =
    let ((status, note), w') = deliver_bounded h d reg.id rejection_slow_note sent w in
    (answer 200 (record reg { email_status = some status; email_note = nullable_str note }), w')

abbrev pub after_rejection :
    AdminHandler
    → Driver
    → Delivery
    → Bool
    → Result ProviderRegistration
    → Handler ProviderRegistration
after_rejection h d sent notify (ok reg) = with_notice h d sent notify reg
after_rejection h d sent notify (err e) = respond (reject_error e)

-- `RejectRegistration`
unfoldable pub reject :
    AdminHandler → Driver → String → Delivery → Rejection → Handler ProviderRegistration
reject h d id sent body w =
    let reason = trim_space body.reason in
    if ltb max_rejection_reason (length reason)
    then (
      refuse 400 (
          codes "el motivo no puede superar los "
          ++ decimal max_rejection_reason
          ++ codes " caracteres"),
      w,
    )
    else call (reject_registration d id reason)
        (after_rejection h d sent (wants_notice body.notify)) w

abbrev pub after_deletion : Result (Unit {0}) → Handler (Unit {0})
after_deletion (ok done) = respond (answer 200 done)
after_deletion (err e) = respond (delete_error e)

-- `DeleteApprovedCompany`
unfoldable pub delete : Driver → String → Handler (Unit {0})
delete d id = call (delete_approved_company_by_registration d id) after_deletion
