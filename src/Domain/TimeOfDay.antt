-- ===== src/Domain/TimeOfDay.antt =====
-- internal/manager/domain/timeofday.go, and the two calls of package time that depend on a
-- location's transition table, which is data outside the repository.
pub mod RoundTrip
use aso_bell.Common.{
  ℕ, zero, suc, ◌+◌, ◌-◌, ◌*◌, ◌/◌, ◌%◌, Bool, true, false, List, [], ◌∷◌, ◌++◌, Option, none, some,
  ◌&&◌, leb, ◌==◌, if◌then◌else◌,
}
use aso_bell.Common.Int.{ℤ, pos, negsuc, leb_ℤ}
use aso_bell.Common.Text.{Text, trim_space, byte_len}

abbrev pub max_hour : ℤ
max_hour = pos 23

abbrev pub max_minute : ℤ
max_minute = pos 59

pub record TimeOfDay : Type 0 where
  pub hour : ℤ
  pub minute : ℤ

-- (TimeOfDay).Valid
unfoldable pub is_valid : TimeOfDay → Bool
is_valid t =
    leb_ℤ (pos 0) t.hour
    && leb_ℤ t.hour max_hour
    && leb_ℤ (pos 0) t.minute
    && leb_ℤ t.minute max_minute

-- *time.Location: `date day h m` is time.Date at the calendar day of `day` in the location, and
-- `add_days t n` is t.In(loc).AddDate(0, 0, n).
pub record Zone : Type 0 where
  pub date : ℤ → ℤ → ℤ → ℤ
  pub add_days : ℤ → ℤ → ℤ

-- (TimeOfDay).On
unfoldable pub on : TimeOfDay → ℤ → Zone → ℤ
on t day loc = loc.date day t.hour t.minute

abbrev is_digit : ℕ → Bool
is_digit c = leb b'0' c && leb c b'9'

-- strings.Split at ":": the piece read so far, reversed into `piece`, and the rest.
split_colon : Text → Text → List Text
split_colon piece [] = piece ∷ []
split_colon piece (c ∷ s) =
    if c == b':' then piece ∷ split_colon [] s else split_colon (piece ++ c ∷ []) s

-- strconv.Atoi on a text of two bytes: two digits, or a sign and a digit.
atoi2 : Text → Option ℤ
atoi2 (a ∷ b ∷ []) =
    if is_digit a && is_digit b
    then some (pos ((a - b'0') * 10 + (b - b'0')))
    else if a == b'+' && is_digit b
    then some (pos (b - b'0'))
    else if a == b'-' && is_digit b
    then some (if b == b'0' then pos 0 else negsuc (b - b'0' - 1))
    else none
atoi2 _ = none

-- The checks of ParseTimeOfDay after the two conversions.
finish_parse : Option ℤ → Option ℤ → Option TimeOfDay
unfolding is_valid
finish_parse (some h) (some m) =
    let t : TimeOfDay = record { hour = h; minute = m } in if is_valid t then some t else none
finish_parse _ _ = none

parse_parts : List Text → Option TimeOfDay
unfolding finish_parse atoi2 byte_len
parse_parts (h ∷ m ∷ []) =
    if byte_len h == 2 && byte_len m == 2 then finish_parse (atoi2 h) (atoi2 m) else none
parse_parts _ = none

-- ParseTimeOfDay; every error is `none`.
unfoldable pub parse_time_of_day : Text → Option TimeOfDay
unfolding split_colon parse_parts trim_space
parse_time_of_day s = parse_parts (split_colon [] (trim_space s))

-- %02d of a value from 0 to 99.
two_digits : ℕ → Text
two_digits n = (b'0' + n / 10) ∷ (b'0' + n % 10) ∷ []

abbrev as_ℕ : ℤ → ℕ
as_ℕ (pos n) = n
as_ℕ (negsuc n) = 0

-- (TimeOfDay).String for a valid time.
unfoldable pub to_text : TimeOfDay → Text
unfolding two_digits
to_text t = two_digits (as_ℕ t.hour) ++ b':' ∷ two_digits (as_ℕ t.minute)
