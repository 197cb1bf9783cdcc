-- ===== src/Serving/Sessions.antt =====
-- Which requests reach the handlers that need a session (internal/router/router.go).
use proindustrial_backend.Common.{
  Bool, List, Memᴰ, Option, Option-cases, String, inl, inr, subst, sym, [], and_true, eq_of_beq, ap,
  arith, if◌then◌else◌, nat_eq, none, refl, some, string_eq, text_eq, true, ℕ, ◌&&◌, ◌∙◌, ◌∷◌, ◌≡◌,
}
use proindustrial_backend.Common.Text.{Text}
use proindustrial_backend.Http.{Reply, answer, refuse}
use proindustrial_backend.Routes.{
  Guard, Route, body_limit, events, limited, logins, public_write, requires, routes,
}
use proindustrial_backend.Routes.Guards.{starts}
use proindustrial_backend.Serving.{
  Limiters, Outcome, Passage, Request, event_limit, limit_body, passed, public_write_limit,
  rate_limit, run_guard, run_guards, serve, stopped, with_session, global_middleware,
}
use proindustrial_backend.Tables.{is_id}
use proindustrial_backend.Session.{Context, Parser, auth}
use proindustrial_backend.Session.Access.{Passes, auth_ok}

-- The role that the last guard with a role asks for.
abbrev or_else : Option String → String → Option String
or_else none s = some s
or_else (some r) s = some r

abbrev pub last_role : List Guard → Option String
last_role [] = none
last_role (requires s ∷ gs) = or_else (last_role gs) s
last_role (limited l ∷ gs) = last_role gs
last_role (body_limit n ∷ gs) = last_role gs

module _ (parse : Parser) (secret : String) (path : String) (r : Request) where
  -- A session for a role, as the handler finds it.
  pub record HasSession (role : String) (p : Passage) : Type 0 where
    pub context : Context
    pub set : p.session ≡ some context
    pub shown : Passes parse secret (role ∷ []) path r.authorization context

  stopped_stays :
      (gs : List Guard) (code : ℕ) (message : Text) (headers : List (String × Text)) (ls : Limiters)
      → run_guards parse secret path r gs (stopped code message headers, ls)
        ≡ (stopped code message headers, ls)
  unfolding run_guards
  stopped_stays [] code message headers ls = refl
  stopped_stays (g ∷ gs) code message headers ls = refl

  -- A guard that is passed hands a passage to the next.
  go_on :
      (gs : List Guard) (o : Outcome × Limiters) {p : Passage}
      → (run_guards parse secret path r gs o).0 ≡ passed p
      → (q : Passage) × (ls : Limiters) × (o ≡ (passed q, ls))
        × ((run_guards parse secret path r gs (passed q, ls)).0 ≡ passed p)
  go_on gs (passed q, ls) h = (q, ls, refl, h)
  go_on gs (stopped code message headers, ls) h =
      absurd (cc (h, ap (λ x. x.0) (stopped_stays gs code message headers ls)))

  with_session_ok :
      (q : Passage) (reply : Reply Context) {p : Passage}
      → with_session q reply ≡ passed p
      → (code : ℕ) × (context : Context) × (reply ≡ answer code context)
        × (p.session ≡ some context)
  with_session_ok q (refuse code message) h = absurd (cc)
  with_session_ok q (answer code context) {p} h = (
    code,
    context,
    refl,
    let e : record q { session = some context } ≡ p = cc in sym (ap (λ x. x.session) e),
  )

  limited_session :
      (g : Guard) (q : Passage) (ls : Limiters) {p : Passage} {ls' : Limiters}
      → last_role (g ∷ []) ≡ none
      → run_guard parse secret path r g q ls ≡ (passed p, ls')
      → p.session ≡ q.session
  unfolding run_guard rate_limit public_write_limit event_limit limit_body
  limited_session (limited logins) q ls h k = ground arith
  limited_session (limited public_write) q ls h k = ground arith
  limited_session (limited events) q ls h k = ground arith
  limited_session (body_limit n) q ls h k = ground arith
  limited_session (requires s) q ls h k = absurd (cc)

  open_guard : (g : Guard) (gs : List Guard) → last_role (g ∷ gs) ≡ none → last_role (g ∷ []) ≡ none
  open_guard (limited l) gs h = refl
  open_guard (body_limit n) gs h = refl
  open_guard (requires s) gs h = elim (Option-cases (last_role gs)) [
    | inl last ↦ absurd (cc (rw last at h))
    | inr (role, later) ↦ absurd (cc (rw later at h))
  ]

  open_rest : (g : Guard) (gs : List Guard) → last_role (g ∷ gs) ≡ none → last_role gs ≡ none
  open_rest (limited l) gs h = h
  open_rest (body_limit n) gs h = h
  open_rest (requires s) gs h = elim (Option-cases (last_role gs)) [
    | inl last ↦ last
    | inr (role, later) ↦ absurd (cc (rw later at h))
  ]

  -- Guards without a role leave the session as it was.
  session_kept :
      (gs : List Guard) (q : Passage) (ls : Limiters) {p : Passage}
      → last_role gs ≡ none
      → (run_guards parse secret path r gs (passed q, ls)).0 ≡ passed p
      → p.session ≡ q.session
  unfolding run_guards
  session_kept [] q ls {p} k h = let e : q ≡ p = cc in sym (ap (λ x. x.session) e)
  session_kept (g ∷ gs) q ls k h =
      let (q', ls', e, onward) = go_on gs (run_guard parse secret path r g q ls) h in
      session_kept gs q' ls' (open_rest g gs k) onward
      ∙ limited_session g q ls (open_guard g gs k) e

  session_set :
      (gs : List Guard) (q : Passage) (ls : Limiters) {role : String} {p : Passage}
      → last_role gs ≡ some role
      → (run_guards parse secret path r gs (passed q, ls)).0 ≡ passed p
      → HasSession role p
  unfolding run_guards run_guard
  session_set [] q ls k h = absurd (cc)
  session_set (limited l ∷ gs) q ls k h =
      let (q', ls', e, onward) = go_on gs (run_guard parse secret path r (limited l) q ls) h in
      session_set gs q' ls' k onward
  session_set (body_limit n ∷ gs) q ls k h = session_set gs (limit_body n q) ls k h
  session_set (requires s ∷ gs) q ls {role} {p} k h =
      let (q', ls', e, onward) = go_on gs (run_guard parse secret path r (requires s) q ls) h in
      elim (Option-cases (last_role gs)) [
        | inr (later, f) ↦
            let same : later ≡ role = cc (rw f at k) in
            session_set gs q' ls' (f ∙ ap some same) onward
        | inl last ↦
            let same : s ≡ role = cc (rw last at k) in
            let (code, context, shown, set) =
              with_session_ok q (auth parse secret (s ∷ []) path r.authorization)
                (ap (λ x. x.0) e) in
            subst (λ x. HasSession x p) same
              (record {
                context = context;
                set = session_kept gs q' ls' last onward ∙ set;
                shown = auth_ok parse secret (s ∷ []) path r.authorization shown;
              })
      ]

-- The role that a path is for: those of the panel, and those of the administration.
abbrev pub path_role : Route → Option String
path_role r =
    if starts "/api/panel/" r.path
    then some "provider"
    else if starts "/api/admin/registrations" r.path
    then some "admin"
    else none

abbrev asks_for : Option String → Route → Bool
asks_for none r = true
asks_for (some role) r = is_id role (last_role r.guards)

all_ask : List Route → Bool
all_ask [] = true
all_ask (r ∷ rs) = asks_for (path_role r) r && all_ask rs

all_ask-mem :
    (rs : List Route) {r : Route} → all_ask rs ≡ true → Memᴰ r rs → asks_for (path_role r) r ≡ true
unfolding all_ask
all_ask-mem [] h m = elim m [ ]
all_ask-mem (x ∷ rs) h (Memᴰ.head e) =
    ap (λ y. asks_for (path_role y) y) e ∙ (and_true (asks_for (path_role x) x) (all_ask rs) h).0
all_ask-mem (x ∷ rs) h (Memᴰ.tail m) =
    all_ask-mem rs (and_true (asks_for (path_role x) x) (all_ask rs) h).1 m

all_routes_ask : all_ask routes ≡ true
unfolding routes all_ask
all_routes_ask = refl

eq_of_is_id : (role : String) (o : Option String) → is_id role o ≡ true → o ≡ some role
eq_of_is_id role none h = cc
eq_of_is_id role (some x) h = ap some (eq_of_beq x role h)

-- A request to a route of the table under /api/panel or /api/admin/registrations that passes every
-- guard up to its handler, whatever the limiters hold, leaves the handler a session, and that
-- session is the one of a token that the request has shown: the library finds it valid under the
-- server's secret, and its role is the one that the path is for.
pub serve-HasSession :
    (parse : Parser) (secret : String) (origin : Text) (r : Request) (ls : Limiters) {route : Route}
    {role : String} {p : Passage}
    → Memᴰ route routes
    → path_role route ≡ some role
    → (serve parse secret origin route r ls).0 ≡ passed p
    → HasSession parse secret route.path r role p
unfolding serve
serve-HasSession parse secret origin r ls {route} {role} m k h =
    let asked = all_ask-mem routes all_routes_ask m in
    let last =
      eq_of_is_id role (last_role route.guards) (subst (λ o. asks_for o route ≡ true) k asked) in
    let (q, ls', e, onward) =
      go_on parse secret route.path r route.guards (global_middleware origin r, ls) h in
    session_set parse secret route.path r route.guards q ls' last onward
