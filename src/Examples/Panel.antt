-- ===== src/Examples/Panel.antt =====
-- Theorems on the panels of the companies and their requests, at a concrete database.
use mathlib.Core.List.{map}
use proindustrial_backend.Common.{
  All, leb, length, Bool, List, String, [], contains, none, ne_of_beq, refl, some, string_eq, ℕ,
  ◌-◌, ◌*◌, ◌/◌, ◌∷◌, ◌≡◌, ◌≢◌,
}
use proindustrial_backend.Common.Text.{Text, codes}
use proindustrial_backend.Companies.{ProfileFields}
use proindustrial_backend.Database.{Db, EventRow, World, ok, statement}
use proindustrial_backend.Events.{AnalyticsResult, Calendar, analytics}
use proindustrial_backend.Events.Analytics.{Figures, analytics-Figures}
use proindustrial_backend.Examples.{db, driver}
use proindustrial_backend.Http.{answer, call}
use proindustrial_backend.Isolation.{
  Change, IsKeyed, perform_all, profile_changed, service_removed, image_added, view, quote_replied,
}
use proindustrial_backend.Isolation.Reads.{images_read, read}
use proindustrial_backend.Isolation.Reads.Alone.{perform_all-read}
use proindustrial_backend.Isolation.Sessions.{perform_all-view}
use proindustrial_backend.Media.Regions.{set_service_regions}
use proindustrial_backend.Media.Regions.Coverage.{Replaces, coverage, set_service_regions-Replaces}
use proindustrial_backend.Model.{CompanyService, QuoteRequest, ServiceImage, pos}
use proindustrial_backend.Panel.{dashboard_stats}
use proindustrial_backend.Quotes
use proindustrial_backend.Quotes.{quote_statuses, quote_row, stats, CreateQuoteInput}
use proindustrial_backend.Quotes.States.{
  Sound, QuoteCall, quote_created, quote_closed, quote_replied as replied_call, run_quotes,
  run_quotes-Sound,
}
use proindustrial_backend.Quotes.Totals.{AddsUp, HasKnownStatus, dashboard_stats-AddsUp}
use proindustrial_backend.Services.{active_services, count_services, list_active_with_images}
use proindustrial_backend.Services.Pictures.{list_active_with_images-own, with_own_images}

abbrev pub service : String → String → CompanyService
service id company_id = record {
  id = id;
  company_id = company_id;
  name = codes "Termofusión";
  category = none;
  description = none;
  status = "active";
  created_at = 0;
}

abbrev pub image : String → String → ServiceImage
image id service_id = record {
  id = id;
  service_id = service_id;
  url = codes "/a.png";
  alt_text = none;
  sort_order = pos 0;
  created_at = 0;
}

abbrev pub form : CreateQuoteInput
form = record {
  requester_name = codes "Ana";
  requester_company = [];
  requester_email = codes "a@b.cl";
  requester_phone = [];
  service = codes "termofusion";
  description = [];
  location = [];
  target_company_id = "c1";
}

abbrev pub quote : QuoteRequest
quote = record (quote_row driver 0 form) { id = "q1" }

abbrev pub event : ℕ → EventRow
event time = record {
  event = record { id = "e"; company_id = "c1"; event_type = "profile_view"; created_at = time };
  visitor_id = none;
  referrer = none;
  ip_hash = none;
}

-- Two companies with a service each, an image of each, a request, two views and a region.
abbrev pub panel_db : Db
panel_db = record db {
  quotes = quote ∷ [];
  services = service "s1" "c1" ∷ service "s2" "c2" ∷ [];
  service_images = image "i1" "s1" ∷ image "i2" "s2" ∷ [];
  service_regions = ("c1", codes "Maule") ∷ ("c2", codes "Biobío") ∷ [];
  events = event 200 ∷ event 201 ∷ [];
}

abbrev pub panel : World
panel = record { db = panel_db; tick = 0 }

abbrev no_fields : ProfileFields
no_fields = record {
  name = some (codes "Uno SpA");
  tagline = none;
  description = none;
  location = none;
  region = none;
  phone = none;
  email = none;
  website = none;
  years_active = none;
}

-- What a session of `c1` tries, once on a service of `c2`.
abbrev changes : List (String × Change)
changes =
    ("c1", profile_changed no_fields)
    ∷ ("c1", service_removed "s2")
    ∷ ("c1", image_added "s2" (codes "/b.png"))
    ∷ ("c1", quote_replied "q1" (codes "Gracias"))
    ∷ []

c1_is_not_c2 : ◌≢◌ {A = String} "c1" "c2"
c1_is_not_c2 = ne_of_beq ⦃e = string_eq⦄ "c1" "c2" refl

perform_all-view_example :
    (view "c2" (perform_all driver changes panel).db ≡ view "c2" panel.db)
    × IsKeyed (perform_all driver changes panel).db
perform_all-view_example =
    perform_all-view driver "c2" changes panel
      (c1_is_not_c2, (c1_is_not_c2, (c1_is_not_c2, (c1_is_not_c2, tt))))
      (record { services = (refl, (refl, tt)); projects = tt })

abbrev by_length : Text → Text → Bool
by_length a b = leb (length a) (length b)

perform_all-read_example :
    read driver by_length "c2"
      (images_read "s2")
      (record { db = (perform_all driver changes panel).db; tick = 9 })
    ≡ read driver by_length "c2" (images_read "s2") (record { db = panel_db; tick = 9 })
perform_all-read_example =
    perform_all-read driver by_length "c2" changes panel (images_read "s2") 9
      (c1_is_not_c2, (c1_is_not_c2, (c1_is_not_c2, (c1_is_not_c2, tt))))
      (record { services = (refl, (refl, tt)); projects = tt })

abbrev calls : List QuoteCall
calls =
    quote_created form
    ∷ replied_call "q1" "c1" (codes "Gracias")
    ∷ quote_closed "q1" "c1" "won" []
    ∷ []

quote_is_Sound : Sound panel_db
unfolding contains Quotes.quote_statuses
quote_is_Sound = (record { status = refl; outcome = tt; replied = refl }, tt)

run_quotes-Sound_example : Sound (run_quotes driver calls panel).db
run_quotes-Sound_example = run_quotes-Sound driver calls panel quote_is_Sound

dashboard_answers :
    (dashboard_stats driver "c1" panel).0
    ≡ answer 200 (record {
      total_quotes = 1;
      new_quotes = 1;
      read_quotes = 0;
      responded_quotes = 0;
      total_services = 1;
    })
unfolding dashboard_stats call stats count_services statement
dashboard_answers = refl

quote-HasKnownStatus : All HasKnownStatus panel_db.quotes
unfolding contains quote_statuses
quote-HasKnownStatus = (refl, tt)

dashboard_stats-AddsUp_example : AddsUp "c1" panel (record {
  total_quotes = 1;
  new_quotes = 1;
  read_quotes = 0;
  responded_quotes = 0;
  total_services = 1;
})
dashboard_stats-AddsUp_example =
    dashboard_stats-AddsUp "c1" driver panel {code = 200} quote-HasKnownStatus dashboard_answers

abbrev calendar : Calendar
calendar = record { day = λ t. t / 10; days_before = λ t n. t - n * 10 }

analytics-Figures_example :
    (r : AnalyticsResult) × ((analytics driver calendar 205 "c1" 7 panel).0 ≡ ok r)
    × Figures driver calendar 205 "c1" 7 panel r
    × ((analytics driver calendar 205 "c1" 7 panel).1.db ≡ panel.db)
analytics-Figures_example = analytics-Figures driver calendar 205 "c1" 7 panel refl refl refl refl

abbrev asked_regions : List Text
asked_regions = codes "Maule" ∷ [] ∷ codes "Ñuble" ∷ []

set_service_regions-Replaces_example :
    Replaces "c1" asked_regions
      (coverage panel.db)
      (set_service_regions driver "c1" asked_regions panel).0
      (coverage (set_service_regions driver "c1" asked_regions panel).1.db)
set_service_regions-Replaces_example = set_service_regions-Replaces driver "c1" asked_regions panel

list_active_with_images-own_example :
    (list_active_with_images driver "c1" panel).0
    ≡ ok (map (with_own_images panel.db) (active_services "c1" panel.db))
list_active_with_images-own_example = list_active_with_images-own driver "c1" panel refl refl
