-- ===== src/Common/Text.antt =====
-- Texts as lists of code points (Go's runes; text that is not valid UTF-8 is not modelled), and the
-- functions of Go's `strings` and `unicode` packages that the program calls on them.
use Prim.Native.Char.{code}
use Prim.Native.Nat.{ℕ, suc, ◌+◌, ◌≤◌}
use Prim.Native.String.{String}
use mathlib.Core.Path.{◌≡◌, refl, ap}
use mathlib.Core.Bool.{Bool, false, ◌&&◌, ◌||◌}
use mathlib.Core.List.{List, [], ◌∷◌, map}
use native.Mathlib.Omega.{arith}
use proindustrial_backend.Common.Tests.{ltb, leb, if◌then◌else◌}
use proindustrial_backend.Common.Classes.{◌==◌, nat_eq}
use proindustrial_backend.Common.Lists.{length, All}

abbrev pub Text : Type 0
Text = List ℕ

-- The code points of a literal.
abbrev pub codes : String → Text
codes String.[] = []
codes (String.◌∷◌ c s) = code c ∷ codes s

-- `unicode.IsSpace`: the Latin-1 cases, then the other characters of property White_Space.
unfoldable pub is_space : ℕ → Bool
is_space c =
    leb 9 c && leb c 13
    || c == 32
    || c == 0x85
    || c == 0xa0
    || c == 0x1680
    || leb 0x2000 c && leb c 0x200a
    || c == 0x2028
    || c == 0x2029
    || c == 0x202f
    || c == 0x205f
    || c == 0x3000

-- `unicode.ToLower`: its ASCII case, then the library's tables, which are the parameter.
unfoldable pub lower_rune : (ℕ → ℕ) → ℕ → ℕ
lower_rune unicode_lower c =
    if ltb c 128 then if leb b'A' c && leb c b'Z' then c + 32 else c else unicode_lower c

-- `strings.ToLower`
unfoldable pub to_lower : (ℕ → ℕ) → Text → Text
unfolding lower_rune
to_lower unicode_lower = map (lower_rune unicode_lower)

module _ (p : ℕ → Bool) where
  unfoldable pub trim_left : Text → Text
  trim_left [] = []
  trim_left (c ∷ s) = if p c then trim_left s else c ∷ s

  -- Puts `c` before a text whose end is trimmed already.
  abbrev pub put : ℕ → Text → Text
  put c [] = if p c then [] else c ∷ []
  put c (d ∷ s) = c ∷ d ∷ s

  unfoldable pub trim_right : Text → Text
  trim_right [] = []
  trim_right (c ∷ s) = put c (trim_right s)

  -- `strings.TrimFunc`
  unfoldable pub trim : Text → Text
  unfolding trim_left trim_right
  trim s = trim_right (trim_left s)

  -- The first character, and the last, are none that `p` removes.
  abbrev pub HeadKept : Text → Type 0
  HeadKept [] = Unit
  HeadKept (c ∷ s) = p c ≡ false

  abbrev pub LastKept : Text → Type 0
  LastKept [] = Unit
  LastKept (c ∷ []) = p c ≡ false
  LastKept (c ∷ d ∷ s) = LastKept (d ∷ s)

  abbrev pub IsTrimmed : Text → Type 0
  IsTrimmed s = HeadKept s × LastKept s

module _ (p : ℕ → Bool) where
  trim_left-HeadKept : (s : Text) → HeadKept p (trim_left p s)
  unfolding trim_left
  trim_left-HeadKept [] = tt
  trim_left-HeadKept (c ∷ s) = ground (arith, trim_left-HeadKept s)

  put-LastKept : (c : ℕ) (s : Text) → LastKept p s → LastKept p (put p c s)
  put-LastKept c [] h = ground arith
  put-LastKept c (d ∷ s) h = h

  trim_right-LastKept : (s : Text) → LastKept p (trim_right p s)
  unfolding trim_right
  trim_right-LastKept [] = tt
  trim_right-LastKept (c ∷ s) = put-LastKept c (trim_right p s) (trim_right-LastKept s)

  put-HeadKept : (c : ℕ) (s : Text) → p c ≡ false → HeadKept p (put p c s)
  put-HeadKept c [] h = ground arith
  put-HeadKept c (d ∷ s) h = h

  trim_right-HeadKept : (s : Text) → HeadKept p s → HeadKept p (trim_right p s)
  unfolding trim_right
  trim_right-HeadKept [] h = tt
  trim_right-HeadKept (c ∷ s) h = put-HeadKept c (trim_right p s) h

  -- Trimming leaves no removable character at either end.
  pub trim-IsTrimmed : (s : Text) → IsTrimmed p (trim p s)
  unfolding trim
  trim-IsTrimmed s = (
    trim_right-HeadKept (trim_left p s) (trim_left-HeadKept s),
    trim_right-LastKept (trim_left p s),
  )

  trim_right_of_LastKept : (s : Text) → LastKept p s → trim_right p s ≡ s
  unfolding trim_right
  trim_right_of_LastKept [] h = refl
  trim_right_of_LastKept (c ∷ []) h = ground arith
  trim_right_of_LastKept (c ∷ d ∷ s) h = rw (trim_right_of_LastKept (d ∷ s) h)

  trim_left_of_HeadKept : (s : Text) → HeadKept p s → trim_left p s ≡ s
  unfolding trim_left
  trim_left_of_HeadKept [] h = refl
  trim_left_of_HeadKept (c ∷ s) h = ground arith

  -- A trimmed text is left as it is.
  pub trim_of_IsTrimmed : (s : Text) → IsTrimmed p s → trim p s ≡ s
  unfolding trim
  trim_of_IsTrimmed s h = rw (trim_left_of_HeadKept s h.0) (trim_right_of_LastKept s h.1)

  trim_left-All : (P : ℕ → Type 0) (s : Text) → All P s → All P (trim_left p s)
  unfolding trim_left
  trim_left-All P [] h = tt
  trim_left-All P (c ∷ s) h = ground (arith, trim_left-All P s h.1)

  put-All : (P : ℕ → Type 0) (c : ℕ) (s : Text) → P c → All P s → All P (put p c s)
  put-All P c [] h k = ground arith
  put-All P c (d ∷ s) h k = (h, k)

  trim_right-All : (P : ℕ → Type 0) (s : Text) → All P s → All P (trim_right p s)
  unfolding trim_right
  trim_right-All P [] h = tt
  trim_right-All P (c ∷ s) (q, h) = put-All P c (trim_right p s) q (trim_right-All P s h)

  -- What holds of every character still holds of every character that is left.
  pub trim-All : (P : ℕ → Type 0) (s : Text) → All P s → All P (trim p s)
  unfolding trim
  trim-All P s h = trim_right-All P (trim_left p s) (trim_left-All P s h)

  length-trim_left : (s : Text) → length (trim_left p s) ≤ length s
  unfolding trim_left
  length-trim_left [] = omega arith
  length-trim_left (c ∷ s) = ground (arith, length-trim_left s)

  length-put : (c : ℕ) (s : Text) → length (put p c s) ≤ suc (length s)
  length-put c [] = ground arith
  length-put c (d ∷ s) = omega arith

  length-trim_right : (s : Text) → length (trim_right p s) ≤ length s
  unfolding trim_right
  length-trim_right [] = omega arith
  length-trim_right (c ∷ s) = omega (arith, length-put c (trim_right p s), length-trim_right s)

  pub length-trim : (s : Text) → length (trim p s) ≤ length s
  unfolding trim
  length-trim s = omega (arith, length-trim_right (trim_left p s), length-trim_left s)

-- `strings.TrimSpace`
unfoldable pub trim_space : Text → Text
unfolding trim is_space
trim_space = trim is_space

pub length-to_lower : (u : ℕ → ℕ) (s : Text) → length (to_lower u s) ≡ length s
unfolding to_lower
length-to_lower u [] = refl
length-to_lower u (c ∷ s) = ap suc (length-to_lower u s)
