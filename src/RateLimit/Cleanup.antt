-- ===== src/RateLimit/Cleanup.antt =====
-- The cleaning goroutine (internal/middleware/ratelimit.go) and the answers of `allow`.
use proindustrial_backend.Common.{
  Bool, Bool-cases, List, Option, Option-cases, String, [], arith, eq_of_beq, inl, inr, leb, ltb→lt,
  lt→ltb, nat_eq, none, not, refl, some, string_eq, sym, text_eq, true, ℕ, ◌==◌, ◌||◌, ◌∙◌, ◌∷◌,
  ◌≡◌, ◌≤◌,
}
use proindustrial_backend.RateLimit.{
  IpEntry, RateLimiter, admit, allow, cleanup, expired, live, lookup, open_window,
}

-- One entry for each address, as the keys of a Go map are.
abbrev Distinct : List (String × IpEntry) → Type 0
Distinct [] = Unit
Distinct ((k, e) ∷ es) = (lookup k es ≡ none) × Distinct es

live-missing :
    (ip : String) (t : ℕ) (es : List (String × IpEntry))
    → lookup ip es ≡ none
    → lookup ip (live t es) ≡ none
live-missing ip t [] h = refl
live-missing ip t ((k, e) ∷ es) h = elim (Bool-cases (k == ip)) [
  | inl here ↦ let found : ◌≡◌ {A = Option IpEntry} (some e) none = rw here at h in absurd (cc)
  | inr other ↦
      let rest = live-missing ip t es (rw other at h) in
      elim (Bool-cases (expired t e)) [
        | inl late ↦ rw (late, rest)
        | inr soon ↦ rw (soon, other, rest)
      ]
]

-- The answer for an entry that is there or not.
abbrev answers : RateLimiter → ℕ → Option IpEntry → Bool
answers rl now none = true
answers rl now (some e) = expired now e || not (leb rl.limit e.count)

later_expired : (t now : ℕ) (e : IpEntry) → t ≤ now → expired t e ≡ true → expired now e ≡ true
later_expired t now e h k = lt→ltb e.window_end now (omega (arith, h, ltb→lt e.window_end t k))

live-answers :
    (rl : RateLimiter) (ip : String) (t now : ℕ) (es : List (String × IpEntry))
    → t ≤ now
    → Distinct es
    → answers rl now (lookup ip (live t es)) ≡ answers rl now (lookup ip es)
live-answers rl ip t now [] h k = refl
live-answers rl ip t now ((j, e) ∷ es) h (new, k) = elim (Bool-cases (expired t e)) [
  | inl late ↦ elim (Bool-cases (j == ip)) [
    | inl here ↦
        let gone : lookup ip (live t es) ≡ none =
          rw (← eq_of_beq j ip here) (live-missing j t es new) in
        rw (late, here, gone, later_expired t now e h late) refl
    | inr other ↦ rw (late, other) (live-answers rl ip t now es h k)
  ]
  | inr soon ↦ elim (Bool-cases (j == ip)) [
    | inl here ↦ rw (soon, here) refl
    | inr other ↦ rw (soon, other) (live-answers rl ip t now es h k)
  ]
]

allow-answers :
    (rl : RateLimiter) (ip : String) (now : ℕ)
    → (allow rl ip now).1 ≡ answers rl now (lookup ip rl.entries)
unfolding allow admit open_window
allow-answers rl ip now = elim (Option-cases (lookup ip rl.entries)) [
  | inl missing ↦ rw missing refl
  | inr (e, found) ↦ elim (Bool-cases (expired now e)) [
    | inl late ↦ rw (found, late) refl
    | inr soon ↦ elim (Bool-cases (leb rl.limit e.count)) [
      | inl full ↦ rw (found, soon, full) refl
      | inr room ↦ rw (found, soon, room) refl
    ]
  ]
]

-- A round of the cleaning at any time up to that of a request changes the answer to no request, when
-- the map has one entry for each address.
pub allow-cleanup :
    (rl : RateLimiter) (ip : String) (t now : ℕ)
    → t ≤ now
    → Distinct rl.entries
    → (allow (cleanup rl t) ip now).1 ≡ (allow rl ip now).1
unfolding cleanup
allow-cleanup rl ip t now h k =
    allow-answers (cleanup rl t) ip now
    ∙ live-answers rl ip t now rl.entries h k
    ∙ sym (allow-answers rl ip now)
