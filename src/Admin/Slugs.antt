-- ===== src/Admin/Slugs.antt =====
-- `nextCompanySlug` against the tables (internal/repository/admin_repo.go).
use mathlib.Core.List.{map}
use proindustrial_backend.Common.{
  Bool, Bool-cases, List, [], any, ap, arith, contains, false, inl, inr, length, length-map, nat_eq,
  none, refl, some, string_eq, suc, sym, text_eq, true, zero, ℕ, ◌+◌, ◌==◌, ◌^◌, ◌∙◌, ◌∷◌, ◌≡◌, ◌≢◌,
  ◌≤◌, ◌⊎◌,
}
use proindustrial_backend.Common.Text.{Text}
use proindustrial_backend.Admin.{next_company_slug, try_slugs}
use proindustrial_backend.Database.{
  Action, Db, Driver, Error, World, connection, diverged, err, ok, pure, query, raise, ◌>>=◌,
}
use proindustrial_backend.Database.Laws.{>>=_of_err, >>=_of_ok, next, query_runs, statement_fails}
use proindustrial_backend.Database.Returns.{Returns}
use proindustrial_backend.Model.{Company}
use proindustrial_backend.Slug.{candidate, incremented, slug_base}
use proindustrial_backend.Slug.Candidates.{
  candidate-numbered, incremented_below, numbered, numbered-ne, pick, pick_free, pick_sound,
  pick_total, pick_used, slug_base_bounds,
}
use proindustrial_backend.Tables.{slug_taken}

-- The slugs in use.
abbrev pub slugs : Db → List Text
slugs db = map (λ (c : Company). c.slug) db.companies

slug_taken-contains_list :
    (slug : Text) (cs : List Company)
    → any (λ (c : Company). c.slug == slug) cs ≡ contains (map (λ (c : Company). c.slug) cs) slug
unfolding contains
slug_taken-contains_list slug [] = refl
slug_taken-contains_list slug (c ∷ cs) = ground (
  arith,
  slug_taken-contains_list slug cs,
  text_eq.decides c.slug slug,
  text_eq.decides slug c.slug,
)

slug_taken-contains : (slug : Text) (db : Db) → slug_taken slug db ≡ contains (slugs db) slug
slug_taken-contains slug db = slug_taken-contains_list slug db.companies

-- The loop with numbers that do not wrap around.
unfoldable search : Driver → ℕ → Text → ℕ → Text → Action Text
search d zero base i slug = raise diverged
search d (suc fuel) base i slug = do
  used ← query d (slug_taken slug)
  elim used [ true ↦ search d fuel base (i + 1) (numbered base i) | false ↦ pure slug ]

module _ (d : Driver) (f : ℕ) (base : Text) (i : ℕ) (slug : Text) (w : World) where
  -- What a round does with the answer of its query.
  go_on : Bool → Action Text
  go_on used = elim used [ true ↦ search d f base (i + 1) (numbered base i) | false ↦ pure slug ]

  search_round :
      d.fails w.tick ≡ false
      → search d (suc f) base i slug w ≡ go_on (slug_taken slug w.db) (next w)
  unfolding search go_on
  search_round h =
      >>=_of_ok (query d (slug_taken slug)) go_on w (query_runs d (slug_taken slug) w h)

  search_used :
      d.fails w.tick ≡ false
      → slug_taken slug w.db ≡ true
      → search d (suc f) base i slug w ≡ search d f base (i + 1) (numbered base i) (next w)
  unfolding go_on
  search_used h k = search_round h ∙ ap (λ b. go_on b (next w)) k

  search_free :
      d.fails w.tick ≡ false
      → slug_taken slug w.db ≡ false
      → search d (suc f) base i slug w ≡ (ok slug, next w)
  unfolding go_on
  search_free h k = search_round h ∙ ap (λ b. go_on b (next w)) k

  search_failed : d.fails w.tick ≡ true → search d (suc f) base i slug w ≡ (err connection, next w)
  unfolding search go_on
  search_failed h =
      >>=_of_err (query d (slug_taken slug)) go_on w
        (statement_fails d (λ t db. ok (slug_taken slug db, db)) w h)

-- The loop searches as `pick` does among the slugs of the tables, and changes no table.
search_ok :
    (d : Driver) (f : ℕ) (base : Text) (i : ℕ) (slug : Text) (w : World) {s : Text}
    → (search d f base i slug w).0 ≡ ok s
    → (pick f base i slug (slugs w.db) ≡ some s) × ((search d f base i slug w).1.db ≡ w.db)
search_ok d zero base i slug w h = unfold search in cc
search_ok d (suc f) base i slug w {s} h = elim (Bool-cases (d.fails w.tick)) [
  | inl fails ↦ absurd (cc (h, search_failed d f base i slug w fails))
  | inr runs ↦ elim (Bool-cases (slug_taken slug w.db)) [
    | inl used ↦
        let e = search_used d f base i slug w runs used in
        let (found, same) = search_ok d f base (i + 1) (numbered base i) (next w) (rw e at h) in
        (
          pick_used f base i slug (slugs w.db) (sym (slug_taken-contains slug w.db) ∙ used) ∙ found,
          rw e same,
        )
    | inr free ↦
        let e = search_free d f base i slug w runs free in
        let same : slug ≡ s = cc (h, e) in
        (
          pick_free f base i slug (slugs w.db) (sym (slug_taken-contains slug w.db) ∙ free)
              ∙ ap some same,
          rw e refl,
        )
  ]
]

-- An error is the connection's, or the fuel is used up and `pick` finds nothing either.
search_err :
    (d : Driver) (f : ℕ) (base : Text) (i : ℕ) (slug : Text) (w : World) {e : Error}
    → (search d f base i slug w).0 ≡ err e
    → (e ≡ connection) ⊎ (pick f base i slug (slugs w.db) ≡ none)
search_err d zero base i slug w h = inr (unfold pick in refl)
search_err d (suc f) base i slug w h = elim (Bool-cases (d.fails w.tick)) [
  | inl fails ↦ inl (cc (h, search_failed d f base i slug w fails))
  | inr runs ↦ elim (Bool-cases (slug_taken slug w.db)) [
    | inl used ↦
        let step =
          pick_used f base i slug (slugs w.db) (sym (slug_taken-contains slug w.db) ∙ used) in
        elim (search_err d f base (i + 1) (numbered base i) (next w)
          (rw (search_used d f base i slug w runs used) at h)) [
            | inl lost ↦ inl lost
            | inr nothing ↦ inr (step ∙ nothing)
          ]
    | inr free ↦ absurd (cc (h, search_free d f base i slug w runs free))
  ]
]

-- The counter of the code does not reach the negative numbers in so many rounds.
try_slugs-search :
    (d : Driver) (f : ℕ) (base : Text) (i : ℕ) (slug : Text)
    → i + f ≤ 2 ^ 63
    → try_slugs d f base i slug ≡ search d f base i slug
unfolding try_slugs search
try_slugs-search d zero base i slug h = refl
try_slugs-search d (suc f) base i slug h =
    let step : try_slugs d f base (incremented i) (candidate base i)
        ≡ search d f base (i + 1) (numbered base i) =
      (λ k.
        try_slugs d f base (incremented_below i (omega arith) k)
          (candidate-numbered base i (omega arith) k))
      ∙ try_slugs-search d f base (i + 1) (numbered base i) (omega arith) in
    ap (λ go. query d (slug_taken slug) >>= λ used. elim used [ true ↦ go | false ↦ pure slug ])
      step

base-ne :
    (unicode_lower : ℕ → ℕ) (name : Text) (j : ℕ)
    → 2 ≤ j
    → slug_base unicode_lower name ≢ numbered (slug_base unicode_lower name) j
base-ne unicode_lower name j h = numbered-ne (slug_base unicode_lower name) j

-- What the search of `nextCompanySlug` over the slugs in use comes to.
pick_company :
    (unicode_lower : ℕ → ℕ) (name : Text) (db : Db)
    → (s : Text) × (pick
          (suc (length db.companies))
          (slug_base unicode_lower name)
          2
          (slug_base unicode_lower name)
          (slugs db)
        ≡ some s)
pick_company unicode_lower name db =
    pick_total (suc (length db.companies)) (slug_base unicode_lower name) 2
      (slug_base unicode_lower name) (slugs db)
      (omega (arith, length-map (λ (c : Company). c.slug) db.companies))
      (base-ne unicode_lower name)

-- With at most 2 ^ 63 - 3 companies, `nextCompanySlug` ends in every state: its loop never outlasts
-- one round more than there are companies, so its only error is a lost connection.
pub next_company_slug_terminates :
    (d : Driver) (unicode_lower : ℕ → ℕ) (name : Text) (w : World) {e : Error}
    → length w.db.companies + 3 ≤ 2 ^ 63
    → (next_company_slug d unicode_lower name w).0 ≡ err e
    → e ≡ connection
unfolding next_company_slug
next_company_slug_terminates d unicode_lower name w few h =
    let base = slug_base unicode_lower name in
    let loop = try_slugs-search d (suc (length w.db.companies)) base 2 base (omega arith) in
    let (s, found) = pick_company unicode_lower name w.db in
    elim (search_err d (suc (length w.db.companies)) base 2 base w
      (ap (λ m. (m w).0) (sym loop) ∙ h)) [
        | inl lost ↦ lost
        | inr nothing ↦ absurd (cc (found, nothing))
      ]

-- The slug that `nextCompanySlug` returns is in use by no company and at most 100 characters
-- long, the width of `companies.slug`, when there are at most 2 ^ 63 - 3 companies; no table
-- changes.
pub next_company_slug_ok :
    (d : Driver) (unicode_lower : ℕ → ℕ) (name : Text) (w : World) {s : Text}
    → length w.db.companies + 3 ≤ 2 ^ 63
    → (next_company_slug d unicode_lower name w).0 ≡ ok s
    → (slug_taken s w.db ≡ false)
      × (length s ≤ 100)
      × ((next_company_slug d unicode_lower name w).1.db ≡ w.db)
unfolding next_company_slug
next_company_slug_ok d unicode_lower name w {s} few h =
    let base = slug_base unicode_lower name in
    let loop = try_slugs-search d (suc (length w.db.companies)) base 2 base (omega arith) in
    let (found, same) =
      search_ok d (suc (length w.db.companies)) base 2 base w (ap (λ m. (m w).0) (sym loop) ∙ h) in
    let bounds = slug_base_bounds unicode_lower name in
    let (free, short) =
      pick_sound (suc (length w.db.companies)) base 2 base s (slugs w.db) bounds.1 (omega arith)
        (omega arith) found in
    (slug_taken-contains s w.db ∙ free, short, ap (λ m. (m w).1.db) loop ∙ same)

search_returns :
    (d : Driver) (f : ℕ) (base : Text) (i : ℕ) (slug s : Text) (w : World)
    → ((t : ℕ) → d.fails t ≡ false)
    → pick f base i slug (slugs w.db) ≡ some s
    → Returns (search d f base i slug) w (λ s' db. (s' ≡ s) × (db ≡ w.db))
search_returns d zero base i slug s w h e = absurd (unfold pick in cc)
search_returns d (suc f) base i slug s w h e = elim (Bool-cases (slug_taken slug w.db)) [
  | inl used ↦
      let in_use = sym (slug_taken-contains slug w.db) ∙ used in
      let (a, w', ran, k) =
        search_returns d f base (i + 1) (numbered base i) s (next w) h
          (sym (pick_used f base i slug (slugs w.db) in_use) ∙ e) in
      (a, w', search_used d f base i slug w (h w.tick) used ∙ ran, k)
  | inr free ↦
      let unused = sym (slug_taken-contains slug w.db) ∙ free in
      let same : some slug ≡ some s = sym (pick_free f base i slug (slugs w.db) unused) ∙ e in
      (slug, next w, search_free d f base i slug w (h w.tick) free, (cc, refl))
]

-- Where no statement fails, `nextCompanySlug` returns.
pub next_company_slug_returns :
    (d : Driver) (unicode_lower : ℕ → ℕ) (name : Text) (w : World)
    → ((t : ℕ) → d.fails t ≡ false)
    → length w.db.companies + 3 ≤ 2 ^ 63
    → Returns
        (next_company_slug d unicode_lower name)
        w
        (λ s db. (slug_taken s w.db ≡ false) × (length s ≤ 100) × (db ≡ w.db))
unfolding next_company_slug
next_company_slug_returns d unicode_lower name w h few =
    let base = slug_base unicode_lower name in
    let (s, found) = pick_company unicode_lower name w.db in
    let loop = try_slugs-search d (suc (length w.db.companies)) base 2 base (omega arith) in
    let (a, w', searched, k) =
      search_returns d (suc (length w.db.companies)) base 2 base s w h found in
    let ran = ap (λ m. m w) loop ∙ searched in
    let (free, short, _) = next_company_slug_ok d unicode_lower name w few (ap (λ p. p.0) ran) in
    (a, w', ran, (free, short, k.1))
