-- ===== src/RateLimit/Window.antt =====
-- One call of `allow` (internal/middleware/ratelimit.go), and the entries of the other addresses.
use proindustrial_backend.Common.{
  Bool-cases, List, Option, String, [], arith, inl, inr, leb, none, some, string_eq, ℕ, ◌+◌, ◌∷◌,
  ◌≡◌, ◌≢◌,
}
use proindustrial_backend.RateLimit.{
  IpEntry, RateLimiter, admit, allow, expired, lookup, open_window, store,
}

pub lookup-store_self :
    (ip : String) (e : IpEntry) (es : List (String × IpEntry)) → lookup ip (store ip e es) ≡ some e
lookup-store_self ip e [] = ground (arith, string_eq.decides ip ip)
lookup-store_self ip e ((k, x) ∷ es) =
    ground (arith, lookup-store_self ip e es, string_eq.decides ip ip)

pub lookup-store_ne :
    (ip j : String) (e : IpEntry) (es : List (String × IpEntry))
    → j ≢ ip
    → lookup ip (store j e es) ≡ lookup ip es
lookup-store_ne ip j e [] h = ground (arith, string_eq.decides j ip)
lookup-store_ne ip j e ((k, x) ∷ es) h = ground (
  arith,
  lookup-store_ne ip j e es h,
  string_eq.decides j ip,
  string_eq.decides k ip,
  string_eq.decides k j,
)

admit_others :
    (rl : RateLimiter) (ip j : String) (now : ℕ) (o : Option IpEntry)
    → j ≢ ip
    → lookup ip (admit rl j now o).0.entries ≡ lookup ip rl.entries
unfolding admit open_window
admit_others rl ip j now none h = lookup-store_ne ip j _ rl.entries h
admit_others rl ip j now (some e) h = elim (Bool-cases (expired now e)) [
  | inl late ↦
      rw (
        late,
        lookup-store_ne ip j (record { count = 1; window_end = now + rl.window }) rl.entries h,
      )
  | inr soon ↦ elim (Bool-cases (leb rl.limit e.count)) [
    | inl full ↦ rw (soon, full)
    | inr room ↦
        rw (soon, room, lookup-store_ne ip j (record e { count = e.count + 1 }) rl.entries h)
  ]
]

-- A call of `allow` for one address leaves the entry of every other as it was.
pub allow_others :
    (rl : RateLimiter) (ip j : String) (now : ℕ)
    → j ≢ ip
    → lookup ip (allow rl j now).0.entries ≡ lookup ip rl.entries
unfolding allow
allow_others rl ip j now h = admit_others rl ip j now (lookup j rl.entries) h

-- The limit and the length of the window never change.
pub allow_settings :
    (rl : RateLimiter) (ip : String) (now : ℕ)
    → ((allow rl ip now).0.limit ≡ rl.limit) × ((allow rl ip now).0.window ≡ rl.window)
unfolding allow admit open_window
allow_settings rl ip now = ground arith
