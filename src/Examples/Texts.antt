-- ===== src/Examples/Texts.antt =====
-- Theorems on texts, limits and routes, at concrete inputs.
use mathlib.Core.List.{map, Memᴰ}
use proindustrial_backend.Model.Nullable.{
  Codec, Nullable, marshal_json, shown, unmarshal_json, unmarshal_json-marshal_json,
}
use proindustrial_backend.Common.{
  All, Option, leb, ◌||◌, false, List, Memᴰ, String, [], arith, contains, if◌then◌else◌, length,
  min, nat_eq, none, refl, some, string_eq, text_eq, true, ◌&&◌, ◌==◌, ◌∷◌, ◌≡◌, ◌≢◌,
}
use proindustrial_backend.Common.Text.{IsTrimmed, Text, codes, is_space}
use proindustrial_backend.Examples.{same}
use proindustrial_backend.RateLimit.{
  Call, RateLimiter, accepted, allow, cleanup, new_rate_limiter, request, requests, sweep,
}
use proindustrial_backend.RateLimit.Bound.{accepted-min}
use proindustrial_backend.RateLimit.Cleanup.{allow-cleanup}
use proindustrial_backend.Registration.{clean_services, sanitize_text, valid_services}
use proindustrial_backend.Registration.Sanitize.{is_kept, sanitize_text_lem}
use proindustrial_backend.Registration.Services.{
  NoRepeats, clean_services-NoRepeats, clean_services-contains, normal,
}
use proindustrial_backend.Review.{AdminHandler, Random, generate_initial_password, password_chars}
use proindustrial_backend.Review.Outcomes.{
  Bounded, drawn, every, get_elem?, generate_initial_password_production, is_alphanumeric,
}
use proindustrial_backend.Routes.{health_routes, route, routes}
use proindustrial_backend.Routes.Guards.{guarded, routes-guarded}
use proindustrial_backend.Settings.{config_with, default_jwt_secret, get_env, load, load_production}
use proindustrial_backend.Slug.{slugify}
use proindustrial_backend.Slug.Idempotent.{slugify-slugify}
use proindustrial_backend.Slug.Shape.{IsSlug, slugify-IsSlug}

slugify-IsSlug_example : IsSlug (slugify same (codes "  Ñandú & Cía "))
slugify-IsSlug_example = slugify-IsSlug same (codes "  Ñandú & Cía ")

slugify-slugify_example :
    slugify same (slugify same (codes "Minería Ltda.")) ≡ slugify same (codes "Minería Ltda.")
slugify-slugify_example = slugify-slugify same (codes "Minería Ltda.")

sanitize_text_example :
    All (λ c. is_kept c ≡ true) (sanitize_text (0 ∷ codes " a "))
    × IsTrimmed is_space (sanitize_text (0 ∷ codes " a "))
    × (sanitize_text (sanitize_text (0 ∷ codes " a ")) ≡ sanitize_text (0 ∷ codes " a "))
sanitize_text_example = sanitize_text_lem (0 ∷ codes " a ")

abbrev services : List Text
services = codes " Termofusion" ∷ codes "nada" ∷ codes "termofusion" ∷ []

clean_services-contains_example : contains (clean_services same services) (codes "termofusion") ≡ (
    contains valid_services (codes "termofusion")
    && contains (map (normal same) services) (codes "termofusion"))
clean_services-contains_example = clean_services-contains same services (codes "termofusion")

clean_services-NoRepeats_example : NoRepeats [] (clean_services same services)
clean_services-NoRepeats_example = clean_services-NoRepeats same services

-- Three requests of one address within a window of a limiter of two.
abbrev calls : List Call
calls = request "a" 1 ∷ request "b" 2 ∷ sweep 3 ∷ request "a" 4 ∷ []

accepted-min_example :
    accepted "a" (new_rate_limiter 2 10) (request "a" 0 ∷ calls)
    ≡ min (requests "a" (request "a" 0 ∷ calls)) 2
accepted-min_example =
    accepted-min (new_rate_limiter 2 10) "a" 0 calls (omega arith) refl
      (omega arith, (omega arith, (omega arith, (omega arith, tt))))

healthz_listed : Memᴰ (route "GET" "/healthz" [] "Health.Healthz") routes
unfolding routes health_routes
healthz_listed = Memᴰ.head refl

routes-guarded_example : guarded (route "GET" "/healthz" [] "Health.Healthz") ≡ true
routes-guarded_example = routes-guarded healthz_listed

abbrev small : Random
small = record {
  hash = λ p k. some "hash";
  int = λ most k. if k == 3 || leb most k then none else some k;
}

abbrev production : AdminHandler
production = record { has_mailer = true; initial_password = codes "abc"; app_env = "production" }

small-Bounded : Bounded small
small-Bounded most k n e = ground arith

generate_initial_password_production_example :
    (length (generate_initial_password production small 0) ≡ 12)
    × (every is_alphanumeric (generate_initial_password production small 0) ≡ true)
    × (map some (generate_initial_password production small 0)
        ≡ map
            (λ i. get_elem? (drawn small 0 i) password_chars)
            (0 ∷ 1 ∷ 2 ∷ 3 ∷ 4 ∷ 5 ∷ 6 ∷ 7 ∷ 8 ∷ 9 ∷ 10 ∷ 11 ∷ []))
generate_initial_password_production_example =
    generate_initial_password_production production small 0 small-Bounded refl

abbrev env : String → String
env name = if name == "APP_ENV" then "production" else if name == "JWT_SECRET" then "s" else ""

load-env : load env ≡ some (config_with env "production" "s")
unfolding load get_env
load-env = refl

env_production : (config_with env "production" "s").app_env ≡ "production"
unfolding config_with
env_production = refl

load_production_example : (config_with env "production" "s").jwt_secret ≢ default_jwt_secret
load_production_example =
    load_production env {c = config_with env "production" "s"} load-env env_production

abbrev one_entry : RateLimiter
one_entry = record (new_rate_limiter 2 10) {
  entries = ("a", record { count = 2; window_end = 5 }) ∷ [];
}

allow-cleanup_example : (allow (cleanup one_entry 6) "a" 7).1 ≡ (allow one_entry "a" 7).1
allow-cleanup_example = allow-cleanup one_entry "a" 6 7 (omega arith) (refl, tt)

-- A text is written behind a quotation mark.
abbrev quoting : Codec Text
quoting = record {
  marshal = λ s. some (b'"' ∷ s);
  unmarshal = λ b old. elim b [ [] ↦ (false, old) | ◌∷◌ c s ↦ (true, s) ];
}

abbrev field_of : Text → Nullable Text
field_of s = record { valid = true; value = s }

quoting_back :
    (a old : Text) (b : Text) → some (b'"' ∷ a) ≡ some b → quoting.unmarshal b old ≡ (true, a)
quoting_back a old b e = let same : b'"' ∷ a ≡ b = cc in rw (← same) refl

never_null : (a : Text) → ◌≢◌ {A = Option Text} (some (b'"' ∷ a)) (some (codes "null"))
never_null a e = let same : b'"' ∷ a ≡ codes "null" = cc in cc

quoted : marshal_json quoting (field_of (codes "a")) ≡ some (b'"' ∷ codes "a")
unfolding marshal_json
quoted = refl

unmarshal_json-marshal_json_example :
    ((unmarshal_json quoting (b'"' ∷ codes "a") (field_of (codes "z"))).0 ≡ true)
    × (shown (unmarshal_json quoting (b'"' ∷ codes "a") (field_of (codes "z"))).1
        ≡ some (codes "a"))
unmarshal_json-marshal_json_example =
    unmarshal_json-marshal_json quoting quoting_back never_null (field_of (codes "a"))
      (field_of (codes "z")) {b = b'"' ∷ codes "a"} quoted
