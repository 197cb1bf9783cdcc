-- ===== src/Routes/Guards.antt =====
-- The guards of the routes (internal/router/router.go).
use Prim.Native.Char.{code}
use proindustrial_backend.Common.{
  Bool, List, Memᴰ, String, [], and_true, ap, false, if◌then◌else◌, nat_eq, refl, string_eq,
  text_eq, true, ◌&&◌, ◌==◌, ◌||◌, ◌∙◌, ◌∷◌, ◌≡◌,
}
use proindustrial_backend.Routes.{Guard, Route, body_limit, limited, requires, routes}

abbrev pub starts : String → String → Bool
starts String.[] s = true
starts (String.◌∷◌ c p) String.[] = false
starts (String.◌∷◌ c p) (String.◌∷◌ x s) = code c == code x && starts p s

abbrev pub has_role : String → List Guard → Bool
has_role r [] = false
has_role r (requires s ∷ gs) = s == r || has_role r gs
has_role r (limited l ∷ gs) = has_role r gs
has_role r (body_limit n ∷ gs) = has_role r gs

abbrev pub has_limiter : List Guard → Bool
has_limiter [] = false
has_limiter (limited l ∷ gs) = true
has_limiter (requires s ∷ gs) = has_limiter gs
has_limiter (body_limit n ∷ gs) = has_limiter gs

-- The routes under `/api/panel` need the role of a provider; those under `/api/admin` that of an
-- administrator, the login excepted; and a public route that writes has a rate limit.
abbrev pub guarded : Route → Bool
guarded r =
    if starts "/api/panel/" r.path
    then has_role "provider" r.guards
    else if starts "/api/admin/" r.path
    then r.path == "/api/admin/auth/login" || has_role "admin" r.guards
    else r.method == "GET" || has_limiter r.guards || has_role "provider" r.guards

all : List Route → Bool
all [] = true
all (r ∷ rs) = guarded r && all rs

all-mem : (rs : List Route) {r : Route} → all rs ≡ true → Memᴰ r rs → guarded r ≡ true
unfolding all
all-mem [] h m = elim m [ ]
all-mem (x ∷ rs) {r} h (Memᴰ.head e) = ap guarded e ∙ (and_true (guarded x) (all rs) h).0
all-mem (x ∷ rs) {r} h (Memᴰ.tail m) = all-mem rs (and_true (guarded x) (all rs) h).1 m

-- Every route of the table whose path is under `/api/panel` needs the role of a provider; every one
-- under `/api/admin` but the login that of an administrator; and every other one that is not a GET
-- has a rate limit or needs the role of a provider.
pub routes-guarded : {r : Route} → Memᴰ r routes → guarded r ≡ true
unfolding routes all
routes-guarded m = all-mem routes refl m
