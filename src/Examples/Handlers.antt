-- ===== src/Examples/Handlers.antt =====
-- Handlers of the panel and of the public pages, run on concrete requests.
use proindustrial_backend.Common.{
  [], contains, inr, leb, length, nat_eq, none, refl, some, string_eq, text_eq, true, ◌==◌, ◌∷◌,
  ◌≡◌,
}
use proindustrial_backend.Common.Text.{codes, trim_space}
use proindustrial_backend.Companies.{
  ProfileFields, Search, featured_of, get_by_slug, list_companies, list_public, listed_company,
  show_company,
}
use proindustrial_backend.Database.{statement, ◌>>=◌}
use proindustrial_backend.Events
use proindustrial_backend.Events.{insert_event, insert_event_row}
use proindustrial_backend.Events.Tracking.{days_of_range, track_event, valid_event_types}
use proindustrial_backend.Examples.{company, driver, world}
use proindustrial_backend.Examples.Panel.{form, panel, quote, service}
use proindustrial_backend.Http.{answer, call, refuse}
use proindustrial_backend.Panel.{change_service, update_profile}
use proindustrial_backend.Quotes
use proindustrial_backend.Quotes.{
  create_quote, insert_quote, owned_quote, quote_row, replied_quote, set_outcome, set_reply,
  update_quote, update_status, status_quote,
}
use proindustrial_backend.Quotes.Inbox.{
  after_lookup, close_quote, mark_quote, notify_reply, notify_submission, quote_not_found,
  quote_reply, quote_submit_confirmation, reply_quote, submission_mails, submit_quote,
}
use proindustrial_backend.Services.{
  ServiceFields, service_statuses, update_service, update_service_row,
}

-- A company without an address is not told of a request; who asked is.
asked : (submit_quote driver true (some form) panel).0 ≡ (
  answer 201 (quote_row driver 0 form),
  quote_submit_confirmation (codes "a@b.cl") (codes "Ana") (codes "uno") form.service ∷ [],
)
unfolding submit_quote create_quote insert_quote statement notify_submission after_lookup
    submission_mails
asked = refl

unbound :
    (submit_quote driver true none panel).0
    ≡ (refuse 400 (codes "nombre, correo y servicio son requeridos"), [])
unfolding submit_quote
unbound = refl

-- The request of another company is not found, and no mail goes out.
not_theirs :
    (reply_quote driver true "c2" "q1" (some (codes "Hola")) panel).0 ≡ (quote_not_found, [])
unfolding reply_quote set_reply statement update_quote
not_theirs = refl

answered : (reply_quote driver true "c1" "q1" (some (codes "Hola")) panel).0 ≡ (
  answer 200 (replied_quote 0 (codes "Hola") quote),
  quote_reply (codes "a@b.cl") (codes "Ana") (codes "uno") form.service (codes "Hola") ∷ [],
)
unfolding reply_quote set_reply statement update_quote contains Quotes.quote_statuses notify_reply
answered = refl

unknown_outcome :
    (close_quote driver "c1" "q1" (some ("lost", [])) panel).0
    ≡ refuse 400 (codes "outcome inválido")
unfolding close_quote call set_outcome Quotes.valid_outcomes contains ◌>>=◌
unknown_outcome = refl

marked : (mark_quote driver "c1" "q1" (inr "read") panel).0 ≡ answer 200 tt
unfolding mark_quote call update_status statement update_quote contains Quotes.quote_statuses
marked = refl

abbrev no_profile : ProfileFields
no_profile = record {
  name = none;
  tagline = none;
  description = none;
  location = none;
  region = none;
  phone = none;
  email = none;
  website = none;
  years_active = none;
}

nothing_to_change :
    (update_profile driver "c1" (some no_profile) panel).0
    ≡ refuse 400 (codes "no hay campos para actualizar")
unfolding update_profile
nothing_to_change = refl

abbrev draft : ServiceFields
draft = record { name = none; category = none; description = none; status = some "draft" }

-- The service of another company is not found; one's own is changed.
not_their_service :
    (change_service driver "c2" "s1" (some draft) panel).0 ≡ refuse 404 (codes "service not found")
unfolding change_service call update_service statement update_service_row
not_their_service = refl

drafted :
    (change_service driver "c1" "s1" (some draft) panel).0
    ≡ answer 200 (record (service "s1" "c1") { status = "draft" })
unfolding change_service call update_service statement update_service_row contains service_statuses
drafted = refl

abbrev search : Search
search = record {
  matches = λ q c. c.name == q;
  rank = λ q c. 0;
  name_before = λ a b. leb (length a) (length b);
}

-- A search by text keeps the companies that PostgreSQL matches.
searched :
    (list_public driver search (λ e. []) [] [] (codes "dos") "" world).0
    ≡ answer 200 (company "c2" "dos" ∷ [])
unfolding list_public list_companies listed_company statement call featured_of
searched = refl

no_such_company :
    (show_company driver (codes "tres") world).0 ≡ refuse 404 (codes "company not found")
unfolding show_company call get_by_slug statement
no_such_company = refl

abbrev view_event : Events.EventInput
view_event = record {
  company_id = "c1";
  event_type = "profile_view";
  visitor_id = [];
  referrer = [];
}

tracked : (track_event driver (λ s. s) (some view_event) (codes "1.2.3.4") world).0 ≡ answer 204 tt
unfolding track_event call insert_event insert_event_row statement contains valid_event_types
tracked = refl

unknown_event :
    (track_event driver (λ s. s) (some (record view_event { event_type = "click" })) [] world).0
    ≡ refuse 400 (codes "eventType inválido")
unfolding track_event contains valid_event_types
unknown_event = refl

ninety_days : days_of_range (codes " 90d ") ≡ 90
unfolding days_of_range trim_space
ninety_days = refl
