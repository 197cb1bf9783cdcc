-- ===== src/Serving.antt =====
-- What a request passes before its handler runs: the global middleware and the guards of its route
-- (internal/router/router.go and internal/middleware), and the handlers of internal/handler/health.go.
-- gin, which matches a request to a route and runs the functions in turn until one aborts, is a
-- library: what it hands over of a request is the record `Request`.
pub mod Sessions
use proindustrial_backend.Common.{
  Bool, List, Option, String, [], false, if◌then◌else◌, min, nat_eq, none, some, string_eq, text_eq,
  true, ℕ, ◌*◌, ◌++◌, ◌==◌, ◌^◌, ◌∷◌,
}
use proindustrial_backend.Common.Text.{Text, codes}
use proindustrial_backend.Http.{Reply, answer, refuse}
use proindustrial_backend.RateLimit
use proindustrial_backend.RateLimit.{RateLimiter, allow}
use proindustrial_backend.Routes.{
  Guard, Limiter, Route, body_limit, events, limited, logins, public_write, requires,
}
use proindustrial_backend.Session.{Context, Parser, auth}

-- A request, the time at which it is served, and the text of the random bytes that are drawn for it.
pub record Request : Type 0 where
  pub method : String
  pub client_ip : String
  pub authorization : Text
  pub request_id : Text
  pub time : ℕ
  pub random_hex : Text

abbrev pub Headers : Type 0
Headers = List (String × Text)

-- What the handler finds: the headers set so far, the largest body that it can read, and the
-- session, where a guard has set one.
pub record Passage : Type 0 where
  pub headers : Headers
  pub body_max : Option ℕ
  pub session : Option Context

pub data Outcome : Type 0 where
  stopped : ℕ → Text → Headers → Outcome
  passed : Passage → Outcome

-- `RequestID`
abbrev pub id_or_random : Text → Text → Text
id_or_random [] random = random
id_or_random (c ∷ s) random = c ∷ s

unfoldable pub request_id : Request → Passage → Passage
request_id r p = record p {
  headers = p.headers ++ (("X-Request-ID", id_or_random r.request_id r.random_hex) ∷ []);
}

abbrev pub cors_headers : Text → Headers
cors_headers origin =
    ("Access-Control-Allow-Origin", origin)
    ∷ ("Access-Control-Allow-Methods", codes "GET, POST, PUT, PATCH, DELETE, OPTIONS")
    ∷ ("Access-Control-Allow-Headers", codes "Origin, Content-Type, Authorization")
    ∷ ("Access-Control-Allow-Credentials", codes "true")
    ∷ []

-- `CORS`
unfoldable pub cors : Text → Request → Passage → Outcome
cors origin r p =
    if r.method == "OPTIONS"
    then stopped 204 [] (p.headers ++ cors_headers origin)
    else passed (record p { headers = p.headers ++ cors_headers origin })

-- `Security`
unfoldable pub security : Passage → Passage
security p = record p {
  headers =
      p.headers
      ++ (("X-Content-Type-Options", codes "nosniff")
          ∷ ("X-Frame-Options", codes "DENY")
          ∷ ("Referrer-Policy", codes "strict-origin-when-cross-origin")
          ∷ []);
}

-- A reader within a reader: the smaller limit holds.
abbrev pub tighter : ℕ → Option ℕ → ℕ
tighter max none = max
tighter max (some n) = min max n

-- `BodyLimit`
unfoldable pub limit_body : ℕ → Passage → Passage
limit_body max p = record p { body_max = some (tighter max p.body_max) }

abbrev pub global_body_max : ℕ
global_body_max = 25 * 2 ^ 20

abbrev pub after_cors : Outcome → Outcome
after_cors (stopped code message headers) = stopped code message headers
after_cors (passed p) = passed (limit_body global_body_max (security p))

-- The `Use` lines of `Setup`, in their order.
unfoldable pub global_middleware : Text → Request → Outcome
global_middleware origin r =
    after_cors
      (cors origin r (request_id r (record { headers = []; body_max = none; session = none })))

-- The three limiters of the process.
pub record Limiters : Type 0 where
  pub login_limiter : RateLimiter
  pub public_write_limiter : RateLimiter
  pub event_limiter : RateLimiter

abbrev pub initial_limiters : Limiters
initial_limiters = record {
  login_limiter = RateLimit.login_limiter;
  public_write_limiter = RateLimit.public_write_limiter;
  event_limiter = RateLimit.event_limiter;
}

abbrev pub too_many_logins : Passage → Outcome
too_many_logins p =
    stopped 429 (codes "demasiados intentos, intenta de nuevo en 5 minutos")
      (p.headers ++ (("Retry-After", codes "300") ∷ []))

abbrev pub too_many_events : Passage → Outcome
too_many_events p = stopped 429 (codes "demasiados eventos") p.headers

abbrev pub too_many_writes : Passage → Outcome
too_many_writes p =
    stopped 429
      (codes
        "Recibimos demasiadas solicitudes desde esta conexión. Intenta de nuevo más tarde o escríbenos a contacto@puntofusion.cl.")
      (p.headers ++ (("Retry-After", codes "3600") ∷ []))

-- `RateLimit`
unfoldable pub rate_limit : Request → Passage → Limiters → Outcome × Limiters
rate_limit r p ls =
    let (rl, admitted) = allow ls.login_limiter r.client_ip r.time in
    (if admitted then passed p else too_many_logins p, record ls { login_limiter = rl })

-- `PublicWriteLimit`
unfoldable pub public_write_limit : Request → Passage → Limiters → Outcome × Limiters
public_write_limit r p ls =
    let (rl, admitted) = allow ls.public_write_limiter r.client_ip r.time in
    (if admitted then passed p else too_many_writes p, record ls { public_write_limiter = rl })

-- `EventLimit`
unfoldable pub event_limit : Request → Passage → Limiters → Outcome × Limiters
event_limit r p ls =
    let (rl, admitted) = allow ls.event_limiter r.client_ip r.time in
    (if admitted then passed p else too_many_events p, record ls { event_limiter = rl })

abbrev pub with_session : Passage → Reply Context → Outcome
with_session p (refuse code message) = stopped code message p.headers
with_session p (answer code context) = passed (record p { session = some context })

module _ (parse : Parser) (secret : String) (path : String) (r : Request) where
  unfoldable pub run_guard : Guard → Passage → Limiters → Outcome × Limiters
  run_guard (limited logins) p ls = rate_limit r p ls
  run_guard (limited public_write) p ls = public_write_limit r p ls
  run_guard (limited events) p ls = event_limit r p ls
  run_guard (body_limit max) p ls = (passed (limit_body max p), ls)
  run_guard (requires role) p ls =
      (with_session p (auth parse secret (role ∷ []) path r.authorization), ls)

  -- The guards in turn; one that stops the request is the last.
  unfoldable pub run_guards : List Guard → Outcome × Limiters → Outcome × Limiters
  run_guards [] (o, ls) = (o, ls)
  run_guards (g ∷ gs) (stopped code message headers, ls) = (stopped code message headers, ls)
  run_guards (g ∷ gs) (passed p, ls) = run_guards gs (run_guard g p ls)

-- A request to a route, up to its handler.
unfoldable pub serve : Parser → String → Text → Route → Request → Limiters → Outcome × Limiters
serve parse secret origin route r ls =
    run_guards parse secret route.path r route.guards (global_middleware origin r, ls)

-- `Healthz`
abbrev pub healthz : Reply Text
healthz = answer 200 (codes "ok")

-- `Readyz`, on whether the database answers.
abbrev pub readyz : Bool → Reply Text
readyz true = answer 200 (codes "ok")
readyz false = answer 503 (codes "db unavailable")
