-- ===== src/Bot/DateTime.antt =====
-- internal/manager/bot/datetime.go. Errors are `none`: they all wrap ErrInvalidDateTime.
pub mod Read
pub mod After
pub mod Tests
use aso_bell.Common.{
  ℕ, zero, ◌+◌, ◌-◌, ◌*◌, Bool, true, false, not, ◌&&◌, ◌||◌, List, [], ◌∷◌, Option, none, some,
  leb, ◌==◌, if◌then◌else◌,
}
use aso_bell.Common.Int.{ℤ, pos, ◌+ℤ◌, ltb_ℤ, leb_ℤ, eq_ℤ}
use aso_bell.Common.Lists.{is_empty, length}
use aso_bell.Common.Text.{Text, codes}
use aso_bell.Domain.Duration.{is_digit, parse_duration}
use aso_bell.Domain.TimeOfDay.{TimeOfDay, is_valid, on}
use aso_bell.Bot.Input.{Library, Calendar, normalize_input, cut_prefix_fold, cut_at, split_at}

-- The value of a text of digits.
number_from : ℕ → Text → Option ℕ
number_from acc [] = some acc
number_from acc (c ∷ s) =
    let rest = number_from (acc * 10 + (c - b'0')) s in if is_digit c then rest else none

-- \d{least,most} and strconv.Atoi, which does not fail on at most four digits.
unfoldable pub number : ℕ → ℕ → Text → Option ℕ
unfolding number_from
number least most s = if leb least (length s) && leb (length s) most then number_from 0 s else none

-- The groups of datePattern.
pub record DateMatch : Type 0 where
  pub year : Option ℕ
  pub month : ℕ
  pub day : ℕ

abbrev month_day : Option ℕ → Option ℕ → Option ℕ → Option DateMatch
month_day year (some m) (some d) = some record { year = year; month = m; day = d }
month_day year _ _ = none

abbrev with_year : Option ℕ → Option ℕ → Option ℕ → Option DateMatch
with_year none m d = none
with_year (some y) m d = month_day (some y) m d

match_parts : List Text → Option DateMatch
unfolding number
match_parts (m ∷ d ∷ []) = month_day none (number 1 2 m) (number 1 2 d)
match_parts (y ∷ m ∷ d ∷ []) = with_year (number 4 4 y) (number 1 2 m) (number 1 2 d)
match_parts _ = none

abbrev is_date_separator : ℕ → Bool
is_date_separator c = c == b'-' || c == b'/'

-- datePattern.FindStringSubmatch: no digit is a separator, so the groups are what stands between.
unfoldable pub match_date : Text → Option DateMatch
unfolding match_parts split_at
match_date s = match_parts (split_at is_date_separator s)

abbrev if_valid : Option ℕ → Option ℕ → Option TimeOfDay
if_valid (some h) (some m) =
    let tod : TimeOfDay = record { hour = pos h; minute = pos m } in
    if is_valid tod then some tod else none
if_valid _ _ = none

time_parts : List Text → Option TimeOfDay
unfolding number is_valid
time_parts (h ∷ m ∷ []) = if_valid (number 1 2 h) (number 2 2 m)
time_parts _ = none

-- parseTimeOfDay, with timePattern.
unfoldable pub parse_time_of_day : Text → Option TimeOfDay
unfolding time_parts split_at
parse_time_of_day s = time_parts (split_at (λ c. c == b':') s)

-- timeOrDefault
unfoldable pub time_or_default : Text → TimeOfDay → Option TimeOfDay
time_or_default s default_time = if is_empty s then some default_time else parse_time_of_day s

-- dateAt
unfoldable pub date_at : ℤ → ℕ → ℕ → TimeOfDay → Calendar → Option ℤ
date_at year month day tod loc =
    let at = loc.at year (pos month) (pos day) tod.hour tod.minute in
    if not (eq_ℤ (loc.month at) (pos month)) || not (eq_ℤ (loc.day at) (pos day))
    then none
    else some at

-- The year that is left out is the one of the base, or the next.
abbrev this_or_next : DateMatch → ℤ → Calendar → TimeOfDay → Option ℤ → Option ℤ
this_or_next m base loc tod none = none
this_or_next m base loc tod (some at) =
    if ltb_ℤ at base then date_at (loc.year base +ℤ pos 1) m.month m.day tod loc else some at

abbrev at_year : DateMatch → Option ℕ → ℤ → Calendar → TimeOfDay → Option ℤ
at_year m (some y) base loc tod = date_at (pos y) m.month m.day tod loc
at_year m none base loc tod =
    this_or_next m base loc tod (date_at (loc.year base) m.month m.day tod loc)

abbrev at_time : DateMatch → ℤ → Calendar → Option TimeOfDay → Option ℤ
at_time m base loc none = none
at_time m base loc (some tod) = at_year m m.year base loc tod

abbrev at_match : Text → ℤ → Calendar → TimeOfDay → Option DateMatch → Option ℤ
at_match rest base loc default_time none = none
at_match rest base loc default_time (some m) =
    at_time m base loc (time_or_default rest default_time)

-- parseAbsolute; SplitN at the first space leaves the rest empty if there is none.
unfoldable pub parse_absolute : Text → ℤ → Calendar → TimeOfDay → Option ℤ
unfolding match_date time_or_default date_at cut_at
parse_absolute s base loc default_time =
    let (first, rest) = cut_at b' ' s in at_match rest base loc default_time (match_date first)

-- The words of relativeDays, with their days.
abbrev relative_words : List (Text × ℤ)
relative_words =
    (codes "明後日", pos 2)
    ∷ (codes "あさって", pos 2)
    ∷ (codes "day after tomorrow", pos 2)
    ∷ (codes "tomorrow", pos 1)
    ∷ (codes "明日", pos 1)
    ∷ (codes "あした", pos 1)
    ∷ (codes "today", pos 0)
    ∷ (codes "今日", pos 0)
    ∷ (codes "本日", pos 0)
    ∷ []

first_relative : Library → Text → List (Text × ℤ) → Option (ℤ × Text)
first_relative l s [] = none
first_relative l s ((word, days) ∷ words) = elim (cut_prefix_fold l s word) [
  | some rest ↦ some (days, rest)
  | none ↦ first_relative l s words
]

-- relativeDays
unfoldable pub relative_days : Library → Text → Option (ℤ × Text)
unfolding first_relative
relative_days l s = first_relative l s relative_words

abbrev on_day : Option TimeOfDay → ℤ → Calendar → Option ℤ
on_day none day loc = none
on_day (some tod) day loc = some (on tod day loc.zone)

abbrev start_at : Library → Text → ℤ → Calendar → TimeOfDay → Option (ℤ × Text) → Option ℤ
start_at l s now loc default_time none = parse_absolute s now loc default_time
start_at l s now loc default_time (some (days, rest)) =
    on_day (time_or_default rest default_time) (loc.zone.add_days now days) loc

-- ParseStartTime
unfoldable pub parse_start_time : Library → Text → ℤ → Calendar → TimeOfDay → Option ℤ
unfolding relative_days parse_absolute time_or_default on
parse_start_time l input now loc default_time =
    let s = normalize_input l input in
    if is_empty s then none else start_at l s now loc default_time (relative_days l s)

abbrev midnight : TimeOfDay
midnight = record { hour = pos 0; minute = pos 0 }

abbrev if_positive : ℤ → Option ℤ → Option ℤ
if_positive starts_at none = none
if_positive starts_at (some d) = if leb_ℤ d (pos 0) then none else some (starts_at +ℤ d)

-- The first time of day behind the start.
abbrev end_on : TimeOfDay → ℤ → Calendar → ℤ
end_on tod starts_at loc =
    let end = on tod starts_at loc.zone in
    if ltb_ℤ starts_at end then end else on tod (loc.zone.add_days starts_at (pos 1)) loc.zone

abbrev end_at : Text → ℤ → Calendar → Option TimeOfDay → Option ℤ
end_at s starts_at loc (some tod) = some (end_on tod starts_at loc)
end_at s starts_at loc none = parse_absolute s starts_at loc midnight

-- deltaPatten, whose dot fits every rune but a line break, which normalizeInput has replaced.
abbrev end_of : Library → Text → ℤ → Calendar → Option ℤ
end_of l [] starts_at loc = none
end_of l (c ∷ s) starts_at loc =
    if c == b'+' && not (is_empty s)
    then if_positive starts_at (parse_duration l.durations s)
    else end_at (c ∷ s) starts_at loc (parse_time_of_day (c ∷ s))

-- ParseEndTime
unfoldable pub parse_end_time : Library → Text → ℤ → Calendar → Option ℤ
unfolding parse_absolute parse_time_of_day on
parse_end_time l input starts_at loc = end_of l (normalize_input l input) starts_at loc
