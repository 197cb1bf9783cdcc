-- ===== src/Slug/Shape.antt =====
-- What a slug looks like, whatever company name it is made from.
use proindustrial_backend.Common.{
  All, All-take, Bool, Bool-cases, [], arith, false, inl, inr, length, length-take, ltb, ltb-false,
  suc, take, true, zero, ℕ, ◌&&◌, ◌||◌, ◌∷◌, ◌≡◌, ◌≤◌,
}
use proindustrial_backend.Common.Text.{
  HeadKept, IsTrimmed, Text, length-trim, put, to_lower, trim, trim-All, trim-IsTrimmed, trim_left,
  trim_right, trim_space,
}
use proindustrial_backend.Model.Limits.{max_slug_base}
use proindustrial_backend.Slug.{dash_runs, is_dash, is_slug_char, replace, shorten, slugify}

abbrev pub SlugChar : ℕ → Type 0
SlugChar c = (is_slug_char c || is_dash c) ≡ true

-- No two dashes in a row.
abbrev pub NoDouble : Text → Type 0
NoDouble [] = Unit
NoDouble (c ∷ []) = Unit
NoDouble (c ∷ d ∷ s) = ((is_dash c && is_dash d) ≡ false) × NoDouble (d ∷ s)

pub record IsSlug (s : Text) : Type 0 where
  pub chars : All SlugChar s
  pub edges : IsTrimmed is_dash s
  pub single : NoDouble s
  pub bounded : length s ≤ max_slug_base

NoDouble-tail : (c : ℕ) (s : Text) → NoDouble (c ∷ s) → NoDouble s
NoDouble-tail c [] h = tt
NoDouble-tail c (d ∷ s) h = h.1

NoDouble-trim_left : (s : Text) → NoDouble s → NoDouble (trim_left is_dash s)
unfolding trim_left
NoDouble-trim_left [] h = tt
NoDouble-trim_left (c ∷ s) h = ground (arith, NoDouble-trim_left s (NoDouble-tail c s h))

-- What `trim_right` leaves of a text starts as the text does, or is empty.
NoDouble-put :
    (c d : ℕ) (s : Text)
    → (is_dash c && is_dash d) ≡ false
    → NoDouble (put is_dash d s)
    → NoDouble (put is_dash c (put is_dash d s))
NoDouble-put c d [] h k = ground arith
NoDouble-put c d (e ∷ s) h k = (h, k)

NoDouble-trim_right : (s : Text) → NoDouble s → NoDouble (trim_right is_dash s)
unfolding trim_right
NoDouble-trim_right [] h = tt
NoDouble-trim_right (c ∷ []) h = ground arith
NoDouble-trim_right (c ∷ d ∷ s) h =
    NoDouble-put c d (trim_right is_dash s) h.0 (NoDouble-trim_right (d ∷ s) h.1)

NoDouble-trim : (s : Text) → NoDouble s → NoDouble (trim is_dash s)
unfolding trim
NoDouble-trim s h = NoDouble-trim_right (trim_left is_dash s) (NoDouble-trim_left s h)

NoDouble-take : (n : ℕ) (s : Text) → NoDouble s → NoDouble (take n s)
NoDouble-take zero s h = tt
NoDouble-take (suc n) [] h = tt
NoDouble-take (suc zero) (c ∷ s) h = tt
NoDouble-take (suc (suc n)) (c ∷ []) h = tt
NoDouble-take (suc (suc n)) (c ∷ d ∷ s) h = (h.0, NoDouble-take (suc n) (d ∷ s) h.1)

dash_runs-All : (b : Bool) (s : Text) → All SlugChar (dash_runs b s)
unfolding dash_runs
dash_runs-All b [] = tt
dash_runs-All b (c ∷ s) = ground (arith, dash_runs-All true s, dash_runs-All false s)

-- A text that is about to follow a run's dash starts with no dash.
dash_runs-HeadKept : (s : Text) → HeadKept is_dash (dash_runs true s)
unfolding dash_runs
dash_runs-HeadKept [] = tt
dash_runs-HeadKept (c ∷ s) = ground (arith, dash_runs-HeadKept s)

NoDouble-cons : (c : ℕ) (s : Text) → HeadKept is_dash s → NoDouble s → NoDouble (c ∷ s)
NoDouble-cons c [] h k = tt
NoDouble-cons c (d ∷ s) h k = ground arith

NoDouble-cons_char : (c : ℕ) (s : Text) → is_dash c ≡ false → NoDouble s → NoDouble (c ∷ s)
NoDouble-cons_char c [] h k = tt
NoDouble-cons_char c (d ∷ s) h k = ground arith

dash_runs-NoDouble : (b : Bool) (s : Text) → NoDouble (dash_runs b s)
unfolding dash_runs
dash_runs-NoDouble b [] = tt
dash_runs-NoDouble b (c ∷ s) = ground (
  arith,
  dash_runs-NoDouble true s,
  dash_runs-NoDouble false s,
  NoDouble-cons_char c (dash_runs false s),
  NoDouble-cons b'-' (dash_runs true s) (dash_runs-HeadKept s),
)

IsSlug-trim :
    (s : Text) → All SlugChar s → NoDouble s → length s ≤ max_slug_base → IsSlug (trim is_dash s)
IsSlug-trim s chars single bounded = record {
  chars = trim-All is_dash SlugChar s chars;
  edges = trim-IsTrimmed is_dash s;
  single = NoDouble-trim s single;
  bounded = omega (arith, length-trim is_dash s);
}

shorten-IsSlug : (s : Text) → All SlugChar s → IsTrimmed is_dash s → NoDouble s → IsSlug (shorten s)
unfolding shorten
shorten-IsSlug s chars edges single = elim (Bool-cases (ltb max_slug_base (length s))) [
  | inl long ↦ rw long (
      IsSlug-trim (take max_slug_base s) (All-take SlugChar max_slug_base s chars)
        (NoDouble-take max_slug_base s single) (rw (length-take max_slug_base s) (omega arith)))
  | inr short ↦ rw short record {
    chars = chars;
    edges = edges;
    single = single;
    bounded = ltb-false max_slug_base (length s) short;
  }
]

-- Whatever the company name, and whatever the tables that lower a non-ASCII character, its slug
-- holds only `a-z`, `0-9` and dashes, has no dash at an end, no two dashes in a row, and at most
-- `MaxSlugBase` characters.
pub slugify-IsSlug : (unicode_lower : ℕ → ℕ) (name : Text) → IsSlug (slugify unicode_lower name)
unfolding slugify
slugify-IsSlug unicode_lower name =
    let lowered = to_lower unicode_lower (trim_space (replace name)) in
    let runs = dash_runs false lowered in
    shorten-IsSlug (trim is_dash runs)
      (trim-All is_dash SlugChar runs (dash_runs-All false lowered)) (trim-IsTrimmed is_dash runs)
      (NoDouble-trim runs (dash_runs-NoDouble false lowered))
