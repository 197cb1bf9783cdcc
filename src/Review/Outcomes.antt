-- ===== src/Review/Outcomes.antt =====
-- Initial passwords and refusals (internal/handler/admin.go).
use mathlib.Core.List.{map}
use proindustrial_backend.Common.{
  List, Bool, Bool-cases, Option, Option-cases, String, [], and_true, ap, arith, false, inl, inr,
  leb, length, length-append, nat_eq, none, refl, some, string_eq, suc, sym, text_eq, true, zero, ℕ,
  ◌!=◌, ◌%◌, ◌&&◌, ◌++◌, ◌+◌, ◌<◌, ◌||◌, ◌∙◌, ◌∷◌, ◌≡◌,
}
use proindustrial_backend.Common.Text.{Text}
use proindustrial_backend.Admin.Removal.{delete_approved_company_by_registration, delete_body}
use proindustrial_backend.Database.{Driver, Result, World, err, ok}
use proindustrial_backend.Database.Laws.{Result-cases, transaction_err}
use proindustrial_backend.Http.{Reply, answer, call, refuse}
use proindustrial_backend.Review.{
  AdminHandler, Random, after_deletion, char_at, delete, generate_initial_password, password_chars,
  pick_char, random_chars,
}

abbrev pub is_alphanumeric : ℕ → Bool
is_alphanumeric c = leb b'a' c && leb c b'z' || leb b'A' c && leb c b'Z' || leb b'0' c && leb c b'9'

abbrev pub every : (ℕ → Bool) → Text → Bool
every p [] = true
every p (c ∷ s) = p c && every p s

every-append :
    (p : ℕ → Bool) (s t : Text) → every p s ≡ true → every p t ≡ true → every p (s ++ t) ≡ true
every-append p [] t h k = k
every-append p (c ∷ s) t h k =
    let (this, rest) = and_true (p c) (every p s) h in rw (this, every-append p s t rest k)

char_at-every : (p : ℕ → Bool) (n : ℕ) (s : Text) → every p s ≡ true → every p (char_at n s) ≡ true
char_at-every p n [] h = refl
char_at-every p zero (c ∷ s) h = rw (and_true (p c) (every p s) h).0 refl
char_at-every p (suc n) (c ∷ s) h = char_at-every p n s (and_true (p c) (every p s) h).1

char_at-length : (n : ℕ) (s : Text) → n < length s → length (char_at n s) ≡ 1
char_at-length n [] h = absurd (omega (arith, h))
char_at-length zero (c ∷ s) h = refl
char_at-length (suc n) (c ∷ s) h = char_at-length n s (omega (arith, h))

chars-every : every is_alphanumeric password_chars ≡ true
unfolding password_chars
chars-every = refl

chars-length : length password_chars ≡ 62
unfolding password_chars
chars-length = refl

-- What `rand.Int` documents: its results are below the bound.
abbrev pub Bounded : Random → Type 0
Bounded random = (most k n : ℕ) → random.int most k ≡ some n → n < most

module _ (random : Random) (h : Bounded random) where
  pick_char-every : (i : ℕ) (o : Option ℕ) → every is_alphanumeric (pick_char i o) ≡ true
  pick_char-every i none = char_at-every is_alphanumeric (i % 62) password_chars chars-every
  pick_char-every i (some n) = char_at-every is_alphanumeric n password_chars chars-every

  pick_char-length : (i k : ℕ) → length (pick_char i (random.int 62 k)) ≡ 1
  pick_char-length i k = elim (Option-cases (random.int 62 k)) [
    | inl failed ↦
        rw failed (char_at-length (i % 62) password_chars (rw chars-length (omega arith)))
    | inr (n, drawn) ↦ rw drawn (char_at-length n password_chars (rw chars-length (h 62 k n drawn)))
  ]

  random_chars_lem :
      (seed i n : ℕ)
      → (length (random_chars random seed i n) ≡ n)
        × (every is_alphanumeric (random_chars random seed i n) ≡ true)
  unfolding random_chars
  random_chars_lem seed i zero = (refl, refl)
  random_chars_lem seed i (suc n) =
      let one_char = pick_char i (random.int 62 (seed + i)) in
      let rest = random_chars random seed (i + 1) n in
      let (counted, plain) = random_chars_lem seed (i + 1) n in
      (
        omega (arith, length-append one_char rest, pick_char-length i (seed + i), counted),
        every-append is_alphanumeric one_char rest (pick_char-every i (random.int 62 (seed + i)))
            plain,
      )

-- The character at a place of a text.
abbrev pub get_elem? : ℕ → Text → Option ℕ
get_elem? n [] = none
get_elem? zero (c ∷ s) = some c
get_elem? (suc n) (c ∷ s) = get_elem? n s

-- The number drawn for the place `i`, or `i` itself where the draw fails.
abbrev pub number_for : ℕ → Option ℕ → ℕ
number_for i none = i % 62
number_for i (some n) = n

abbrev pub drawn : Random → ℕ → ℕ → ℕ
drawn random seed i = number_for i (random.int 62 (seed + i))

-- The places from `i` on.
abbrev places : ℕ → ℕ → List ℕ
places i zero = []
places i (suc n) = i ∷ places (i + 1) n

char_at_lem :
    (n : ℕ) (s rest : Text)
    → n < length s
    → map some (char_at n s ++ rest) ≡ get_elem? n s ∷ map some rest
char_at_lem n [] rest h = absurd (omega (arith, h))
char_at_lem zero (c ∷ s) rest h = refl
char_at_lem (suc n) (c ∷ s) rest h = char_at_lem n s rest (omega (arith, h))

pick_char_lem :
    (i : ℕ) (o : Option ℕ) (rest : Text)
    → ((n : ℕ) → o ≡ some n → n < 62)
    → map some (pick_char i o ++ rest) ≡ get_elem? (number_for i o) password_chars ∷ map some rest
pick_char_lem i none rest h =
    char_at_lem (i % 62) password_chars rest (rw chars-length (omega arith))
pick_char_lem i (some n) rest h = char_at_lem n password_chars rest (rw chars-length (h n refl))

module _ (random : Random) (h : Bounded random) (seed : ℕ) where
  random_chars-map :
      (i n : ℕ)
      → map some (random_chars random seed i n)
        ≡ map (λ j. get_elem? (drawn random seed j) password_chars) (places i n)
  unfolding random_chars
  random_chars-map i zero = refl
  random_chars-map i (suc n) =
      pick_char_lem i (random.int 62 (seed + i)) (random_chars random seed (i + 1) n)
        (h 62 (seed + i))
      ∙ ap (λ l. get_elem? (drawn random seed i) password_chars ∷ l) (random_chars-map (i + 1) n)

draws :
    (h : AdminHandler) (random : Random) (seed : ℕ)
    → h.app_env ≡ "production"
    → generate_initial_password h random seed ≡ random_chars random seed 0 12
unfolding generate_initial_password
draws h random seed production =
    let same : (h.app_env != "production") ≡ false = rw production refl in
    rw same (elim (Bool-cases (h.initial_password != [])) [
      | inl given ↦ rw given refl
      | inr absent ↦ rw absent refl
    ])

-- In production, whatever password is configured, an initial password has twelve characters, all
-- of them letters and digits; the one at each place is that of `passwordChars` at the number drawn
-- for that place (at the place itself where that draw fails). The random source keeps to its bound.
pub generate_initial_password_production :
    (h : AdminHandler) (random : Random) (seed : ℕ)
    → Bounded random
    → h.app_env ≡ "production"
    → (length (generate_initial_password h random seed) ≡ 12)
      × (every is_alphanumeric (generate_initial_password h random seed) ≡ true)
      × (map some (generate_initial_password h random seed)
          ≡ map
              (λ i. get_elem? (drawn random seed i) password_chars)
              (0 ∷ 1 ∷ 2 ∷ 3 ∷ 4 ∷ 5 ∷ 6 ∷ 7 ∷ 8 ∷ 9 ∷ 10 ∷ 11 ∷ []))
generate_initial_password_production h random seed bounded production =
    let same = draws h random seed production in
    let (counted, plain) = random_chars_lem random bounded seed 0 12 in
    (
      ap length same ∙ counted,
      ap (every is_alphanumeric) same ∙ plain,
      ap (map some) same ∙ random_chars-map random bounded seed 0 12,
    )

after_deletion_world : (r : Result (Unit {0})) (w : World) → (after_deletion r w).1 ≡ w
after_deletion_world (ok done) w = refl
after_deletion_world (err e) w = refl

module _ (d : Driver) (id : String) (w : World) where
  -- A deletion that is refused has changed no table.
  delete_refused :
      {code : ℕ} {message : Text}
      → (delete d id w).0 ≡ refuse code message
      → (delete d id w).1.db ≡ w.db
  unfolding delete call delete_approved_company_by_registration
  delete_refused {code} {message} h =
      let ran = delete_approved_company_by_registration d id w in
      elim (Result-cases ran.0) [
        | inl (done, e) ↦
            let wrong : ◌≡◌ {A = Reply (Unit {0})} (answer 200 done) (refuse code message) =
              sym (ap (λ r. (after_deletion r ran.1).0) e) ∙ h in
            absurd (cc)
        | inr (e, failed) ↦
            ap (λ v. v.db) (after_deletion_world ran.0 ran.1)
            ∙ transaction_err d (delete_body d id) w failed
      ]
