-- ===== src/Quotes/Inbox.antt =====
-- internal/handler/quote.go: the form for a quotation, and the inbox of a company. A body that
-- cannot be bound is `none`; `company` is the identifier in the context of the session. A mail is
-- sent through a parameter that is told what to send, and what the code logs of it is left out.
use proindustrial_backend.Common.{
  Bool, List, Option, String, [], false, if◌then◌else◌, inl, inr, nat_eq, none, some, string_eq,
  text_eq, true, ℕ, ◌!=◌, ◌++◌, ◌∷◌, ◌⊎◌,
}
use proindustrial_backend.Common.Text.{Text, codes}
use proindustrial_backend.Database.{Driver, Error, Result, World, err, invalid_outcome, ok}
use proindustrial_backend.Http.{Handler, Reply, answer, call, internal_error, refuse, respond}
use proindustrial_backend.Login.{get_company}
use proindustrial_backend.Model.{Company, QuoteRequest}
use proindustrial_backend.Quotes.{
  CreateQuoteInput, create_quote, list_by_company, set_follow_up, set_outcome, set_reply, set_tags,
  update_status,
}

pub data Mail : Type 0 where
  new_quote_notification : Text → Text → Text → Text → Text → Text → Mail
  quote_submit_confirmation : Text → Text → Text → Text → Mail
  quote_reply : Text → Text → Text → Text → Text → Mail

-- A reply, and the mails that were sent before it.
abbrev pub Mailing : Type 0 → Type 0
Mailing A = World → (Reply A × List Mail) × World

abbrev pub without_mail : {A : Type 0} → Reply A → Mailing A
without_mail reply w = ((reply, []), w)

-- The name and the address of the company that the form names, empty where there is none.
abbrev pub target_of : Result Company → Text × Text
target_of (ok c) = (c.name, elim c.email [ none ↦ [] | some e ↦ e ])
target_of (err e) = ([], [])

abbrev pub or_text : Text → Text → Text
or_text fallback [] = fallback
or_text fallback (c ∷ s) = c ∷ s

abbrev pub notification : CreateQuoteInput → Text → Text → List Mail
notification input name [] = []
notification input name (c ∷ email) =
    new_quote_notification (c ∷ email) name input.requester_name input.requester_company
      input.service input.description
    ∷ []

unfoldable pub submission_mails : CreateQuoteInput → Text × Text → List Mail
submission_mails input (name, email) =
    notification input name email
    ++ (quote_submit_confirmation input.requester_email input.requester_name
          (or_text (codes "la empresa") name) input.service
        ∷ [])

unfoldable pub after_lookup :
    CreateQuoteInput → QuoteRequest → World → Text × Text → (Reply QuoteRequest × List Mail) × World
after_lookup input q w target = ((answer 201 q, submission_mails input target), w)

unfoldable pub notify_submission :
    Driver → Bool → CreateQuoteInput → QuoteRequest → Mailing QuoteRequest
notify_submission d false input q w = without_mail (answer 201 q) w
notify_submission d true input q w =
    if input.target_company_id != ""
    then (let (r, w') = get_company d input.target_company_id w in
        after_lookup input q w' (target_of r))
    else after_lookup input q w ([], [])

abbrev pub after_create :
    Driver → Bool → CreateQuoteInput → Result QuoteRequest → Mailing QuoteRequest
after_create d has_mailer input (ok q) = notify_submission d has_mailer input q
after_create d has_mailer input (err e) = without_mail internal_error

-- `Create`
unfoldable pub submit_quote : Driver → Bool → Option CreateQuoteInput → Mailing QuoteRequest
submit_quote d has_mailer none w =
    without_mail (refuse 400 (codes "nombre, correo y servicio son requeridos")) w
submit_quote d has_mailer (some input) w =
    let (r, w') = create_quote d input w in after_create d has_mailer input r w'

abbrev pub data_or : {A : Type 0} → Reply A → Result A → Handler A
data_or reply (ok a) = respond (answer 200 a)
data_or reply (err e) = respond reply

abbrev pub quote_not_found : {A : Type 0} → Reply A
quote_not_found = refuse 404 (codes "solicitud no encontrada")

-- `List`
unfoldable pub list_quotes : Driver → String → String → Handler (List QuoteRequest)
list_quotes d company status = call (list_by_company d company status) (data_or internal_error)

abbrev pub is_invalid_outcome : Error → Bool
is_invalid_outcome invalid_outcome = true
is_invalid_outcome e = false

abbrev pub after_close : Result QuoteRequest → Handler QuoteRequest
after_close (ok q) = respond (answer 200 q)
after_close (err e) =
    respond
      (if is_invalid_outcome e then refuse 400 (codes "outcome inválido") else quote_not_found)

-- `Close`, on the outcome and the note.
unfoldable pub close_quote :
    Driver → String → String → Option (String × Text) → Handler QuoteRequest
close_quote d company id none = respond (refuse 400 (codes "el outcome es requerido"))
close_quote d company id (some (outcome, note)) =
    call (set_outcome d id company outcome note) after_close

abbrev pub name_or : Text → Result Company → Text
name_or fallback (ok c) = c.name
name_or fallback (err e) = fallback

unfoldable pub notify_reply : Driver → Bool → String → Text → QuoteRequest → Mailing QuoteRequest
notify_reply d false company note q w = without_mail (answer 200 q) w
notify_reply d true company note q w =
    let (r, w') = get_company d company w in
    (
      (
        answer 200 q,
        quote_reply q.requester_email q.requester_name (name_or (codes "La empresa") r) q.service
              note
            ∷ [],
      ),
      w',
    )

abbrev pub after_reply : Driver → Bool → String → Text → Result QuoteRequest → Mailing QuoteRequest
after_reply d has_mailer company note (ok q) = notify_reply d has_mailer company note q
after_reply d has_mailer company note (err e) = without_mail quote_not_found

-- `Reply`
unfoldable pub reply_quote : Driver → Bool → String → String → Option Text → Mailing QuoteRequest
reply_quote d has_mailer company id none w =
    without_mail (refuse 400 (codes "el mensaje de respuesta es requerido")) w
reply_quote d has_mailer company id (some note) w =
    let (r, w') = set_reply d id company note w in after_reply d has_mailer company note r w'

-- `SetTags`
unfoldable pub tag_quote : Driver → String → String → Option (List Text) → Handler QuoteRequest
tag_quote d company id none = respond (refuse 400 (codes "tags requerido"))
tag_quote d company id (some tags) = call (set_tags d id company tags) (data_or quote_not_found)

-- `SetFollowUp`: a body without the field clears it.
unfoldable pub follow_up_quote : Driver → String → String → Option (Option ℕ) → Handler QuoteRequest
follow_up_quote d company id none = respond (refuse 400 (codes "body inválido"))
follow_up_quote d company id (some at_time) =
    call (set_follow_up d id company at_time) (data_or quote_not_found)

-- `UpdateStatus`, where the message of the validator is handed in with a body that it refuses.
unfoldable pub mark_quote : Driver → String → String → Text ⊎ String → Handler (Unit {0})
mark_quote d company id (inl message) = respond (refuse 400 message)
mark_quote d company id (inr status) =
    call (update_status d id company status) (data_or (refuse 404 (codes "quote not found")))
