-- ===== src/RateLimit/Bound.antt =====
-- A history of calls (internal/middleware/ratelimit.go) from the opening of a window.
use proindustrial_backend.Common.{
  All, Bool, Bool-cases, List, Option, String, [], arith, eq_of_beq, eq_self, false, inl, inr,
  leb_of_le, leb_of_lt, ltb, ltb-false, ltb_of_le, ltb→lt, min, nat_eq, ne_of_beq, none, refl, some,
  string_eq, text_eq, true, ℕ, ◌+◌, ◌-◌, ◌<◌, ◌==◌, ◌∙◌, ◌∷◌, ◌≡◌, ◌≤◌,
}
use proindustrial_backend.RateLimit.{
  Call, IpEntry, RateLimiter, accepted, admit, allow, cleanup, expired, live, lookup, open_window,
  request, requests, store, sweep, time,
}
use proindustrial_backend.RateLimit.Window.{allow_others, allow_settings, lookup-store_self}

-- No window of the address is open at `now`.
abbrev pub closed : ℕ → Option IpEntry → Bool
closed now none = true
closed now (some e) = expired now e

live-lookup :
    (ip : String) (t : ℕ) (es : List (String × IpEntry)) {e : IpEntry}
    → lookup ip es ≡ some e
    → expired t e ≡ false
    → lookup ip (live t es) ≡ some e
live-lookup ip t [] h k = absurd (cc)
live-lookup ip t ((j, x) ∷ es) {e} h k = elim (Bool-cases (j == ip)) [
  | inl same ↦
      let found : some x ≡ some e = rw same at h in
      let this : x ≡ e = cc in let kept : expired t x ≡ false = rw this k in rw (kept, same, this)
  | inr other ↦
      let rest = live-lookup ip t es (rw other at h) k in
      elim (Bool-cases (expired t x)) [
        | inl late ↦ rw (late, rest)
        | inr soon ↦ rw (soon, other, rest)
      ]
]

-- A request in the open window, below the limit and at it.
allow_room :
    (rl : RateLimiter) (ip : String) (t : ℕ) {e : IpEntry}
    → lookup ip rl.entries ≡ some e
    → t ≤ e.window_end
    → e.count < rl.limit
    → allow rl ip t
      ≡ (record rl { entries = store ip (record e { count = e.count + 1 }) rl.entries }, true)
unfolding allow admit
allow_room rl ip t {e} h k room =
    rw (h, ltb_of_le e.window_end t k, leb_of_lt rl.limit e.count room) refl

allow_full :
    (rl : RateLimiter) (ip : String) (t : ℕ) {e : IpEntry}
    → lookup ip rl.entries ≡ some e
    → t ≤ e.window_end
    → rl.limit ≤ e.count
    → allow rl ip t ≡ (rl, false)
unfolding allow admit
allow_full rl ip t {e} h k full =
    rw (h, ltb_of_le e.window_end t k, leb_of_le rl.limit e.count full) refl

allow_opens :
    (rl : RateLimiter) (ip : String) (t : ℕ)
    → closed t (lookup ip rl.entries) ≡ true
    → allow rl ip t ≡ (
      record rl {
        entries = store ip (record { count = 1; window_end = t + rl.window }) rl.entries;
      },
      true,
    )
unfolding allow admit open_window
allow_opens rl ip t h = ground arith

-- What the limiter owes an address with an open window: as many more requests as the limit leaves.
spends :
    (rl : RateLimiter) (ip : String) (cs : List Call) {e : IpEntry}
    → lookup ip rl.entries ≡ some e
    → e.count ≤ rl.limit
    → All (λ c. time c ≤ e.window_end) cs
    → accepted ip rl cs ≡ min (requests ip cs) (rl.limit - e.count)
unfolding accepted cleanup
spends rl ip [] h k inside = omega arith
spends rl ip (sweep t ∷ cs) {e} h k (now, inside) =
    spends (cleanup rl t) ip cs {e = e}
      (live-lookup ip t rl.entries h (ltb_of_le e.window_end t now)) k inside
spends rl ip (request j t ∷ cs) {e} h k (now, inside) = elim (Bool-cases (j == ip)) [
  | inl same ↦
      let this = eq_of_beq j ip same in
      elim (Bool-cases (ltb e.count rl.limit)) [
        | inl below ↦
            let room = ltb→lt e.count rl.limit below in
            let more : IpEntry = record e { count = e.count + 1 } in
            let step = allow_room rl j t (rw this h) now room in
            let rest =
              spends (record rl { entries = store j more rl.entries }) ip cs {e = more}
                (rw this (lookup-store_self ip more rl.entries)) (omega (arith, room)) inside in
            rw (same, step) (omega (arith, rest, room))
        | inr at_limit ↦
            let full = ltb-false e.count rl.limit at_limit in
            let step = allow_full rl j t (rw this h) now full in
            rw (same, step) (omega (arith, spends rl ip cs h k inside, full))
      ]
  | inr other ↦
      let kept = allow_settings rl j t in
      let rest =
        spends (allow rl j t).0 ip cs (allow_others rl ip j t (ne_of_beq j ip other) ∙ h)
          (omega (arith, kept.0, k)) inside in
      rw other (omega (arith, rest, kept.0))
]

-- From the request that opens a window of an address, a limiter with a limit of at least 1 lets
-- through all requests of that address up to the limit, and no more, for as long as the window
-- lasts; whatever the other addresses send and whenever the cleaning runs.
pub accepted-min :
    (rl : RateLimiter) (ip : String) (t : ℕ) (cs : List Call)
    → 1 ≤ rl.limit
    → closed t (lookup ip rl.entries) ≡ true
    → All (λ c. time c ≤ t + rl.window) cs
    → accepted ip rl (request ip t ∷ cs) ≡ min (requests ip (request ip t ∷ cs)) rl.limit
unfolding accepted
accepted-min rl ip t cs positive h inside =
    let first : IpEntry = record { count = 1; window_end = t + rl.window } in
    let rest =
      spends (record rl { entries = store ip first rl.entries }) ip cs {e = first}
        (lookup-store_self ip first rl.entries) positive inside in
    rw (allow_opens rl ip t h, eq_self ip) (omega (arith, rest, positive))
