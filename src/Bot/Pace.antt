-- ===== src/Bot/Pace.antt =====
-- internal/manager/bot/pace.go. Errors are `none`: they all wrap ErrInvalidPace.
use aso_bell.Common.{
  ℕ, ◌/◌, ◌%◌, ◌+◌, Bool, ◌&&◌, ◌||◌, List, [], ◌∷◌, ◌++◌, Option, none, some, ◌==◌, if◌then◌else◌,
}
use aso_bell.Common.Int.{ℤ, pos, pos_part, neg_part, sub_ℕ, leb_ℤ}
use aso_bell.Common.Lists.{is_empty, any}
use aso_bell.Common.Text.{Text, codes, text_eq, is_space}
use aso_bell.Domain.Duration.{parse_duration}
use aso_bell.Domain.Job.{hour, minute, decimal}
use aso_bell.Domain.Reminder.{ReminderMode, ReminderPolicy, one_day, default_final_offset, validate}
use aso_bell.Domain.TimeOfDay.{TimeOfDay, to_text}
use aso_bell.Bot.DateTime.{parse_time_of_day}
use aso_bell.Bot.Input.{Library, normalize_input, fields_func, cut_prefix_fold}

abbrev zero_time : TimeOfDay
zero_time = record { hour = pos 0; minute = pos 0 }

-- A policy with nothing but its mode.
abbrev pub bare_policy : ReminderMode → ReminderPolicy
bare_policy mode = record {
  mode = mode;
  offsets = [];
  every = pos 0;
  at = zero_time;
  final_offset = pos 0;
}

-- isNonePace
unfoldable pub is_none_pace : Library → Text → Bool
is_none_pace l s =
    any (text_eq (l.to_lower s))
      (codes "off" ∷ codes "none" ∷ codes "なし" ∷ codes "no" ∷ codes "オフ" ∷ [])

abbrev with_every : Option ℤ → Option TimeOfDay → Option ReminderPolicy
with_every (some every) (some at) = some record {
  mode = ReminderMode.interval;
  offsets = [];
  every = every;
  at = at;
  final_offset = default_final_offset;
}
with_every _ _ = none

interval_of : Library → List Text → Option ReminderPolicy
interval_of l (every ∷ []) = with_every (parse_duration l.durations every) (some zero_time)
interval_of l (every ∷ at ∷ []) =
    with_every (parse_duration l.durations every) (parse_time_of_day at)
interval_of l _ = none

-- parseInterval
unfoldable pub parse_interval : Library → Text → Option ReminderPolicy
unfolding interval_of
parse_interval l rest = interval_of l (fields_func is_space rest)

abbrev add_offset : Option ℤ → Option (List ℤ) → Option (List ℤ)
add_offset (some d) (some offsets) = some (d ∷ offsets)
add_offset _ _ = none

-- The loop of parseOffsets.
parse_fields : Library → List Text → Option (List ℤ)
parse_fields l [] = some []
parse_fields l (field ∷ fields) =
    add_offset (parse_duration l.durations field) (parse_fields l fields)

-- The runes of offsetSeparators.
abbrev is_offset_separator : ℕ → Bool
is_offset_separator c = c == b',' || c == 0x3001 || c == b' '

abbrev with_offsets : Option (List ℤ) → Option ReminderPolicy
with_offsets none = none
with_offsets (some offsets) = some (record (bare_policy ReminderMode.offsets) { offsets = offsets })

-- parseOffsets
unfoldable pub parse_offsets : Library → Text → Option ReminderPolicy
unfolding parse_fields
parse_offsets l s =
    let fields = fields_func is_offset_separator s in
    if is_empty fields then none else with_offsets (parse_fields l fields)

-- parsePace
unfoldable pub parse_pace : Library → Text → Option ReminderPolicy
unfolding parse_interval parse_offsets
parse_pace l s = elim (cut_prefix_fold l s (codes "every")) [
  | some rest ↦ parse_interval l rest
  | none ↦ elim (cut_prefix_fold l s (codes "毎")) [
    | some rest ↦ parse_interval l rest
    | none ↦ parse_offsets l s
  ]
]

abbrev if_accepted : Option ReminderPolicy → Option ReminderPolicy
if_accepted none = none
if_accepted (some p) = elim (validate p (codes "reminder_policy")) [ none ↦ some p | some e ↦ none ]

-- ParseReminderPace
unfoldable pub parse_reminder_pace : Library → Text → Option ReminderPolicy
unfolding is_none_pace parse_pace validate
parse_reminder_pace l input =
    let s = normalize_input l input in
    if is_empty s
    then none
    else if is_none_pace l s
    then some (bare_policy ReminderMode.none_mode)
    else if_accepted (parse_pace l s)

abbrev divides : ℕ → ℤ → Bool
divides unit d = (pos_part d + neg_part d) % unit == 0

-- %d of d / unit, which Go rounds towards zero.
abbrev counted : ℕ → ℤ → ℕ → Text
counted unit d mark = decimal (sub_ℕ (pos_part d / unit) (neg_part d / unit)) ++ mark ∷ []

-- formatOffset
unfoldable pub format_offset : Library → ℤ → Text
unfolding decimal
format_offset l d =
    if leb_ℤ (pos one_day) d && divides one_day d
    then counted one_day d b'd'
    else if divides hour d
    then counted hour d b'h'
    else if divides minute d
    then counted minute d b'm'
    else l.durations.format d

-- strings.Join with a comma of the formatted offsets.
format_offsets : Library → List ℤ → Text
unfolding format_offset
format_offsets l [] = []
format_offsets l (off ∷ []) = format_offset l off
format_offsets l (off ∷ next ∷ rest) = format_offset l off ++ b',' ∷ format_offsets l (next ∷ rest)

format_mode : Library → ReminderPolicy → ReminderMode → Text
unfolding format_offsets to_text
format_mode l p ReminderMode.none_mode = codes "off"
format_mode l p ReminderMode.interval =
    codes "every " ++ format_offset l p.every ++ b' ' ∷ to_text p.at
format_mode l p ReminderMode.offsets = format_offsets l p.offsets
format_mode l p (ReminderMode.unknown m) = []

-- FormatReminderPace
unfoldable pub format_reminder_pace : Library → ReminderPolicy → Text
unfolding format_mode
format_reminder_pace l p = format_mode l p p.mode
