-- ===== src/Bot/Input.antt =====
-- internal/manager/bot: the text of users. Unicode tables, norm.NFKC and the calendar of a location
-- are arguments.
use aso_bell.Common.{
  ℕ, ◌-◌, Bool, true, false, List, [], ◌∷◌, ◌++◌, Option, none, some, ltb, ◌==◌, if◌then◌else◌,
}
use aso_bell.Common.Int.{ℤ}
use aso_bell.Common.Text.{Text, is_space, trim_space, byte_len, rune_len}
use aso_bell.Domain.Duration.{DurationText}
use aso_bell.Domain.TimeOfDay.{Zone}

-- *time.Location: beside the zone, `at` is time.Date of a year, month, day, hour and minute, and
-- the rest reads or prints an instant at the location.
pub record Calendar : Type 0 where
  pub zone : Zone
  pub at : ℤ → ℤ → ℤ → ℤ → ℤ → ℤ
  pub year : ℤ → ℤ
  pub month : ℤ → ℤ
  pub day : ℤ → ℤ
  -- Format with 2006-01-02 and with 15:04.
  pub date_text : ℤ → Text
  pub clock_text : ℤ → Text

pub record Library : Type 0 where
  -- norm.NFKC.String, strings.ToLower, strings.EqualFold
  pub nfkc : Text → Text
  pub to_lower : Text → Text
  pub equal_fold : Text → Text → Bool
  pub durations : DurationText
  -- time.LoadLocation and time.UTC
  pub load : Text → Option Calendar
  pub utc : Calendar

abbrev push : ℕ → List Text → List Text
push c [] = (c ∷ []) ∷ []
push c (word ∷ words) = (c ∷ word) ∷ words

-- strings.FieldsFunc: the words between runes that pass the test. The flag tells whether the text
-- stands behind a rune of a word.
unfoldable pub fields_from : (ℕ → Bool) → Bool → Text → List Text
fields_from p true [] = [] ∷ []
fields_from p false [] = []
fields_from p true (c ∷ s) =
    let stop = fields_from p false s in
    let more = fields_from p true s in if p c then [] ∷ stop else push c more
fields_from p false (c ∷ s) =
    let skip = fields_from p false s in
    let more = fields_from p true s in if p c then skip else push c more

unfoldable pub fields_func : (ℕ → Bool) → Text → List Text
unfolding fields_from
fields_func p s = fields_from p false s

-- strings.Join with a space.
unfoldable pub join_space : List Text → Text
join_space [] = []
join_space (word ∷ []) = word
join_space (word ∷ next ∷ words) = word ++ b' ' ∷ join_space (next ∷ words)

-- normalizeInput
unfoldable pub normalize_input : Library → Text → Text
unfolding fields_func join_space
normalize_input l s = join_space (fields_func is_space (l.nfkc s))

abbrev in_front : ℕ → Option (Text × Text) → Option (Text × Text)
in_front c none = none
in_front c (some (front, back)) = some (c ∷ front, back)

-- s[:n] and s[n:] for a count of bytes, if there are so many and the cut falls between two runes.
-- A cut inside a rune leaves a byte that is equal to no rune of a keyword.
unfoldable pub cut_bytes : ℕ → Text → Option (Text × Text)
cut_bytes n [] = if n == 0 then some ([], []) else none
cut_bytes n (c ∷ s) =
    let rest = cut_bytes (n - rune_len c) s in
    if n == 0 then some ([], c ∷ s) else if ltb n (rune_len c) then none else in_front c rest

abbrev if_folded : Library → Text → Option (Text × Text) → Option Text
if_folded l prefix none = none
if_folded l prefix (some (front, back)) =
    if l.equal_fold front prefix then some (trim_space back) else none

-- cutPrefixFold: `none` is false.
unfoldable pub cut_prefix_fold : Library → Text → Text → Option Text
unfolding cut_bytes
cut_prefix_fold l s prefix = if_folded l prefix (cut_bytes (byte_len prefix) s)

-- strings.Cut at a byte: the text behind it is empty if there is none.
unfoldable pub cut_at : ℕ → Text → Text × Text
cut_at b [] = ([], [])
cut_at b (c ∷ s) = let (front, back) = cut_at b s in if c == b then ([], s) else (c ∷ front, back)

-- strings.Split at the runes that pass the test.
unfoldable pub split_at : (ℕ → Bool) → Text → List Text
split_at p [] = [] ∷ []
split_at p (c ∷ s) = let rest = split_at p s in if p c then [] ∷ rest else push c rest
