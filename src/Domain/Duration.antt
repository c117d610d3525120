-- ===== src/Domain/Duration.antt =====
-- internal/manager/domain/duration.go. time.ParseDuration, Duration.String and the conversion of a
-- number of days through floating point are arguments.
use aso_bell.Common.{
  ℕ, zero, suc, Bool, ◌&&◌, [], ◌∷◌, ◌++◌, Option, none, some, leb, ◌==◌, if◌then◌else◌,
}
use aso_bell.Common.Int.{ℤ}
use aso_bell.Common.Lists.{is_empty}
use aso_bell.Common.Text.{Text, codes, trim_space, rune_count}
use aso_bell.Domain.Job.{decimal}

pub record DurationText : Type 0 where
  -- time.ParseDuration
  pub parse : Text → Option ℤ
  -- (time.Duration).String
  pub format : ℤ → Text
  -- strconv.ParseFloat, and the product with a day, as an int64.
  pub day_nanos : Text → Option ℤ

abbrev pub is_digit : ℕ → Bool
is_digit c = leb b'0' c && leb c b'9'

-- The longest prefix of digits, and what is behind it.
unfoldable pub digits : Text → Text
digits [] = []
digits (c ∷ s) = if is_digit c then c ∷ digits s else []

unfoldable pub behind_digits : Text → Text
behind_digits [] = []
behind_digits (c ∷ s) = if is_digit c then behind_digits s else c ∷ s

abbrev if_day : Text → Text → Option Text
if_day number [] = none
if_day number (c ∷ s) = if c == b'd' then some number else none

day_fraction : Text → Text → Option Text
day_fraction whole s =
    if is_empty (digits s) then none else if_day (whole ++ b'.' ∷ digits s) (behind_digits s)

day_rest : Text → Text → Option Text
unfolding day_fraction
day_rest whole [] = none
day_rest whole (c ∷ s) =
    if c == b'd' then some whole else if c == b'.' then day_fraction whole s else none

-- dayUnitPattern at the head of a text: the number in front of the d.
day_number : Text → Option Text
unfolding digits behind_digits day_rest
day_number s = if is_empty (digits s) then none else day_rest (digits s) (behind_digits s)

abbrev append_to : Text → Option Text → Option Text
append_to front none = none
append_to front (some s) = some (front ++ s)

abbrev replaced : Option ℤ → Option Text → Option Text
replaced none rest = none
replaced (some nanos) rest = append_to (decimal nanos ++ codes "ns") rest

-- ReplaceAllStringFunc from left to right, with the runes of the last match still to pass over.
expand_from : DurationText → ℕ → Text → Option Text
unfolding day_number
expand_from t skip [] = some []
expand_from t (suc skip) (c ∷ s) = expand_from t skip s
expand_from t zero (c ∷ s) = elim (day_number (c ∷ s)) [
  | none ↦ append_to (c ∷ []) (expand_from t zero s)
  | some number ↦ replaced (t.day_nanos number) (expand_from t (rune_count number) s)
]

-- expandDayUnit
unfoldable pub expand_day_unit : DurationText → Text → Option Text
unfolding expand_from
expand_day_unit t s = expand_from t zero s

abbrev parse_expanded : DurationText → Option Text → Option ℤ
parse_expanded t none = none
parse_expanded t (some s) = t.parse s

-- ParseDuration; every error is `none`.
unfoldable pub parse_duration : DurationText → Text → Option ℤ
unfolding expand_day_unit
parse_duration t s =
    if is_empty (trim_space s) then none else parse_expanded t (expand_day_unit t (trim_space s))

-- FormatDuration
unfoldable pub format_duration : DurationText → ℤ → Text
format_duration t d = t.format d
