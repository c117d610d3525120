-- ===== src/Common/Text.antt =====
-- Go strings as lists of code points (runes). `byte_len` is the source's len(s) on valid UTF-8.
use Prim.Native.Nat.{ℕ, suc, ◌+◌, ◌≤◌}
use Prim.Native.Char.{code}
use Prim.Native.String.{String}
use mathlib.Core.Path.{◌≡◌, refl}
use mathlib.Core.Logic.{◌↔◌}
use mathlib.Core.Bool.{Bool, true, false, ◌&&◌, ◌||◌}
use mathlib.Core.List.{List, [], ◌∷◌}
use native.Mathlib.Omega.{arith}
use aso_bell.Common.Tests.{ltb, leb, ◌==◌, if◌then◌else◌}

abbrev pub Text : Type 0
Text = List ℕ

-- A text literal.
abbrev pub codes : String → Text
codes String.[] = []
codes (String.◌∷◌ c s) = code c ∷ codes s

unfoldable pub text_eq : Text → Text → Bool
text_eq [] [] = true
text_eq (x ∷ xs) (y ∷ ys) = x == y && text_eq xs ys
text_eq _ _ = false

pub text_eq_iff : (a b : Text) → (text_eq a b ≡ true) ↔ (a ≡ b)
unfolding text_eq
text_eq_iff [] [] = ground arith
text_eq_iff [] (y ∷ ys) = ground arith
text_eq_iff (x ∷ xs) [] = ground arith
text_eq_iff (x ∷ xs) (y ∷ ys) = ground (arith, text_eq_iff xs ys)

pub text_eq_refl : (a : Text) → text_eq a a ≡ true
text_eq_refl a = (text_eq_iff a a).1 refl

-- The number of bytes that UTF-8 spends on a code point.
abbrev pub rune_len : ℕ → ℕ
rune_len c = if ltb c 128 then 1 else if ltb c 2048 then 2 else if ltb c 65536 then 3 else 4

unfoldable pub byte_len : Text → ℕ
byte_len [] = 0
byte_len (c ∷ s) = rune_len c + byte_len s

-- utf8.RuneCountInString
unfoldable pub rune_count : Text → ℕ
rune_count [] = 0
rune_count (c ∷ s) = suc (rune_count s)

-- unicode.IsSpace
abbrev pub is_space : ℕ → Bool
is_space c =
    (leb 9 c && leb c 13)
    || c == 32
    || c == 0x85
    || c == 0xa0
    || c == 0x1680
    || (leb 0x2000 c && leb c 0x200a)
    || c == 0x2028
    || c == 0x2029
    || c == 0x202f
    || c == 0x205f
    || c == 0x3000

-- Drops the elements of a prefix that pass the test.
unfoldable pub trim_left : (ℕ → Bool) → Text → Text
trim_left p [] = []
trim_left p (c ∷ s) = if p c then trim_left p s else c ∷ s

-- One element in front of a text that has been trimmed on the right.
abbrev pub keep_unless : Bool → ℕ → Text → Text
keep_unless true c [] = []
keep_unless false c [] = c ∷ []
keep_unless b c (d ∷ s) = c ∷ d ∷ s

-- Drops the elements of a suffix that pass the test (strings.TrimRight).
unfoldable pub trim_right : (ℕ → Bool) → Text → Text
trim_right p [] = []
trim_right p (c ∷ s) = keep_unless (p c) c (trim_right p s)

-- strings.TrimSpace
unfoldable pub trim_space : Text → Text
unfolding trim_left trim_right
trim_space s = trim_right is_space (trim_left is_space s)

rune_count-keep_unless :
    (b : Bool) (c : ℕ) (s : Text) → rune_count (keep_unless b c s) ≤ suc (rune_count s)
unfolding rune_count
rune_count-keep_unless true c [] = omega arith
rune_count-keep_unless false c [] = omega arith
rune_count-keep_unless true c (d ∷ s) = omega arith
rune_count-keep_unless false c (d ∷ s) = omega arith

pub rune_count-trim_right : (p : ℕ → Bool) (s : Text) → rune_count (trim_right p s) ≤ rune_count s
unfolding trim_right rune_count
rune_count-trim_right p [] = omega arith
rune_count-trim_right p (c ∷ s) =
    omega (arith, rune_count-keep_unless (p c) c (trim_right p s), rune_count-trim_right p s)
