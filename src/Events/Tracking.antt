-- ===== src/Events/Tracking.antt =====
-- internal/handler/analytics.go: what the public pages report, and what the panel asks for. SHA-256
-- is the parameter `hash`.
use proindustrial_backend.Common.{
  List, Option, String, [], contains, if◌then◌else◌, nat_eq, none, some, string_eq, text_eq, ℕ,
  ◌++◌, ◌==◌, ◌∷◌,
}
use proindustrial_backend.Common.Text.{Text, codes, trim_space}
use proindustrial_backend.Database.{Driver, Result}
use proindustrial_backend.Events.{AnalyticsResult, Calendar, EventInput, analytics, insert_event}
use proindustrial_backend.Gallery.Panel.{data_or_plain}
use proindustrial_backend.Http.{Handler, answer, call, refuse, respond}

unfoldable pub valid_event_types : List String
valid_event_types =
    "profile_view" ∷ "service_view" ∷ "contact_click_phone" ∷ "contact_click_whatsapp"
    ∷ "contact_click_email" ∷ "quote_form_open" ∷ "quote_form_submit" ∷ []

abbrev pub ip_salt : Text
ip_salt = codes "proindustrial-2026"

-- An error of the insertion is logged and answered as a success.
abbrev pub no_content : Result (Unit {0}) → Handler (Unit {0})
no_content r = respond (answer 204 tt)

-- `TrackEvent`, on the body and the address of the client.
unfoldable pub track_event : Driver → (Text → Text) → Option EventInput → Text → Handler (Unit {0})
track_event d hash none ip = respond (refuse 400 (codes "companyId y eventType requeridos"))
track_event d hash (some input) ip =
    if contains valid_event_types input.event_type
    then call (insert_event d input (hash (ip ++ ip_salt))) no_content
    else respond (refuse 400 (codes "eventType inválido"))

-- The parameter `range` of the URL.
unfoldable pub days_of_range : Text → ℕ
days_of_range range =
    if trim_space range == codes "7d" then 7 else if trim_space range == codes "90d" then 90 else 30

module _ (d : Driver) (calendar : Calendar) (clock : ℕ) where
  -- `AnalyticsHandler.GetAnalytics`
  unfoldable pub get_analytics : String → Text → Handler AnalyticsResult
  get_analytics company range =
      call (analytics d calendar clock company (days_of_range range)) data_or_plain
