-- ===== src/RateLimit.antt =====
-- internal/middleware/ratelimit.go: requests per address and window. The Go map is an association
-- list; a time and a duration are natural numbers. The mutex makes `allow` and `cleanup` atomic, so
-- a history is a list of such calls, each with the time that it reads.
pub mod Window
pub mod Bound
pub mod Cleanup
use proindustrial_backend.Common.{
  Bool, List, Option, String, [], false, if◌then◌else◌, leb, ltb, nat_eq, none, some, string_eq,
  text_eq, true, ℕ, ◌+◌, ◌==◌, ◌∷◌,
}

pub record IpEntry : Type 0 where
  pub count : ℕ
  pub window_end : ℕ

pub record RateLimiter : Type 0 where
  pub entries : List (String × IpEntry)
  pub limit : ℕ
  pub window : ℕ

abbrev pub new_rate_limiter : ℕ → ℕ → RateLimiter
new_rate_limiter limit window = record { entries = []; limit = limit; window = window }

abbrev pub lookup : String → List (String × IpEntry) → Option IpEntry
lookup ip [] = none
lookup ip ((k, e) ∷ es) = if k == ip then some e else lookup ip es

abbrev pub store : String → IpEntry → List (String × IpEntry) → List (String × IpEntry)
store ip e [] = (ip, e) ∷ []
store ip e ((k, x) ∷ es) = if k == ip then (ip, e) ∷ es else (k, x) ∷ store ip e es

-- `now.After(e.windowEnd)`
abbrev pub expired : ℕ → IpEntry → Bool
expired now e = ltb e.window_end now

abbrev pub live : ℕ → List (String × IpEntry) → List (String × IpEntry)
live now [] = []
live now ((k, e) ∷ es) = if expired now e then live now es else (k, e) ∷ live now es

-- One round of `cleanup`.
unfoldable pub cleanup : RateLimiter → ℕ → RateLimiter
cleanup rl now = record rl { entries = live now rl.entries }

unfoldable pub open_window : RateLimiter → String → ℕ → RateLimiter × Bool
open_window rl ip now = (
  record rl { entries = store ip (record { count = 1; window_end = now + rl.window }) rl.entries },
  true,
)

-- The cases of `allow` on the entry of the address.
unfoldable pub admit : RateLimiter → String → ℕ → Option IpEntry → RateLimiter × Bool
unfolding open_window
admit rl ip now none = open_window rl ip now
admit rl ip now (some e) =
    if expired now e
    then open_window rl ip now
    else if leb rl.limit e.count
    then (rl, false)
    else (record rl { entries = store ip (record e { count = e.count + 1 }) rl.entries }, true)

unfoldable pub allow : RateLimiter → String → ℕ → RateLimiter × Bool
unfolding admit
allow rl ip now = admit rl ip now (lookup ip rl.entries)

-- 5 minutes and 1 hour, in seconds.
abbrev pub login_limiter : RateLimiter
login_limiter = new_rate_limiter 5 300

abbrev pub public_write_limiter : RateLimiter
public_write_limiter = new_rate_limiter 20 3600

abbrev pub event_limiter : RateLimiter
event_limiter = new_rate_limiter 300 3600

-- A call of `allow`, or a tick of the cleaning goroutine.
pub data Call : Type 0 where
  request : String → ℕ → Call
  sweep : ℕ → Call

abbrev pub time : Call → ℕ
time (request ip t) = t
time (sweep t) = t

-- How many of the calls are for `ip`.
abbrev pub requests : String → List Call → ℕ
requests ip [] = 0
requests ip (sweep t ∷ cs) = requests ip cs
requests ip (request k t ∷ cs) = (if k == ip then 1 else 0) + requests ip cs

-- How many of the calls for `ip` are let through.
unfoldable pub accepted : String → RateLimiter → List Call → ℕ
accepted ip rl [] = 0
accepted ip rl (sweep t ∷ cs) = accepted ip (cleanup rl t) cs
accepted ip rl (request k t ∷ cs) =
    (if k == ip then if (allow rl k t).1 then 1 else 0 else 0) + accepted ip (allow rl k t).0 cs
