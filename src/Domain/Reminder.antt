-- ===== src/Domain/Reminder.antt =====
-- internal/manager/domain/reminder.go: reminder policies and the times that they generate.
pub mod Order
pub mod Valid
pub mod Plan
pub mod Rounds
pub mod Used
use aso_bell.Common.{
  ℕ, zero, suc, ◌+◌, ◌*◌, ◌/◌, ◌%◌, Bool, true, false, not, List, [], ◌∷◌, ◌++◌, Option, none, some,
  ltb, ◌==◌, if◌then◌else◌,
}
use aso_bell.Common.Int.{ℤ, pos, pos_part, neg_part, sub_ℕ, ◌+ℤ◌, ◌-ℤ◌, ltb_ℤ, leb_ℤ, eq_ℤ}
use aso_bell.Common.Lists.{length, is_empty, any}
use aso_bell.Common.Text.{Text, codes}
use aso_bell.Domain.Errors.{Error, FieldError, ValidationError, addf, check, err}
use aso_bell.Domain.TimeOfDay.{TimeOfDay, Zone, is_valid, on}
use aso_bell.Domain.Job.{hour}

pub data ReminderMode : Type 0 where
  offsets interval none_mode : ReminderMode
  unknown : Text → ReminderMode

abbrev pub max_reminders : ℕ
max_reminders = 30

abbrev pub min_reminder_interval : ℤ
min_reminder_interval = pos hour

abbrev pub one_day : ℕ
one_day = 24 * hour

abbrev pub default_final_offset : ℤ
default_final_offset = pos (3 * hour)

pub record ReminderPolicy : Type 0 where
  pub mode : ReminderMode
  pub offsets : List ℤ
  pub every : ℤ
  pub at : TimeOfDay
  pub final_offset : ℤ

-- DefaultReminderPolicy
unfoldable pub default_reminder_policy : ReminderPolicy
default_reminder_policy = record {
  mode = ReminderMode.offsets;
  offsets = pos (7 * one_day) ∷ pos one_day ∷ pos (3 * hour) ∷ [];
  every = pos 0;
  at = record { hour = pos 0; minute = pos 0 };
  final_offset = pos 0;
}

-- The loop over the offsets, with the map of those seen.
unfoldable pub validate_entries : Text → List ℤ → List ℤ → ValidationError → ValidationError
validate_entries field seen [] v = v
validate_entries field seen (off ∷ rest) v =
    let v1 =
      check (leb_ℤ off (pos 0)) (field ++ codes ".offsets") (codes "must be positive, got %s") v in
    let v2 =
      check (any (eq_ℤ off) seen) (field ++ codes ".offsets") (codes "duplicated entry %s") v1 in
    validate_entries field (off ∷ seen) rest v2

-- validateOffsets
validate_offsets : ReminderPolicy → ValidationError → Text → ValidationError
unfolding addf
validate_offsets p v field =
    if is_empty p.offsets
    then addf v (field ++ codes ".offsets") (codes "must not be empty")
    else (let v1 =
          check (ltb max_reminders (length p.offsets)) (field ++ codes ".offsets")
            (codes "must not exceed %d entries") v in
        validate_entries field [] p.offsets v1)

-- validateInterval
validate_interval : ReminderPolicy → ValidationError → Text → ValidationError
validate_interval p v field =
    let v1 =
      check (ltb_ℤ p.every min_reminder_interval) (field ++ codes ".every")
        (codes "must be at least %s") v in
    let v2 = check (not (is_valid p.at)) (field ++ codes ".at") (codes "must be HH:MM") v1 in
    check (ltb_ℤ p.final_offset (pos 0)) (field ++ codes ".final_offset")
      (codes "must not be negative") v2

-- The switch of Validate.
collect : ReminderMode → ReminderPolicy → ValidationError → Text → ValidationError
unfolding validate_offsets validate_interval addf
collect none_mode p v field = v
collect ReminderMode.offsets p v field = validate_offsets p v field
collect interval p v field = validate_interval p v field
collect (unknown m) p v field = addf v (field ++ codes ".mode") (codes "unknown mode %q")

-- (ReminderPolicy).Validate: `none` is a nil error.
unfoldable pub validate : ReminderPolicy → Text → Option Error
unfolding collect err
validate p field = err (collect p.mode p [] field)

-- offsetTimes, with its loop.
unfoldable pub offset_times : List ℤ → ℤ → ℤ → List ℤ
offset_times [] now starts_at = []
offset_times (off ∷ rest) now starts_at =
    if ltb_ℤ now (starts_at -ℤ off)
    then (starts_at -ℤ off) ∷ offset_times rest now starts_at
    else offset_times rest now starts_at

-- every / oneDay, which Go rounds towards zero.
quot_days : ℤ → ℤ
quot_days every = sub_ℕ (pos_part every / one_day) (neg_part every / one_day)

-- advance
unfoldable pub advance : ℤ → ℤ → Zone → ℤ
unfolding quot_days
advance t every loc =
    if (pos_part every + neg_part every) % one_day == 0
    then loc.add_days t (quot_days every)
    else t +ℤ every

-- firstInterval
unfoldable pub first_interval : ReminderPolicy → ℤ → Zone → ℤ
unfolding on
first_interval p now loc =
    let candidate = on p.at now loc in
    if ltb_ℤ candidate now then loc.add_days candidate (pos 1) else candidate

abbrev pub append_after : ℤ → ℤ → List ℤ → List ℤ
append_after now t times = if ltb_ℤ now t then times ++ t ∷ [] else times

-- The for loop of intervalTimes on fuel, `none` when the fuel is out.
unfoldable pub interval_loop : ℤ → Zone → ℤ → ℤ → ℕ → ℤ → List ℤ → Option (List ℤ)
interval_loop every loc now final zero t times = none
interval_loop every loc now final (suc fuel) t times =
    let times' = append_after now t times in
    let rest = interval_loop every loc now final fuel (advance t every loc) times' in
    if not (ltb_ℤ t final)
    then some times
    else if ltb max_reminders (length times')
    then some times'
    else rest

-- One round may pass over a time that is not after `now`; each later one appends, up to the cap.
abbrev pub rounds : ℕ
rounds = 33

-- `times = append(times, final)` behind the loop.
abbrev pub append_final : ℤ → ℤ → Option (List ℤ) → Option (List ℤ)
append_final now final none = none
append_final now final (some times) = some (append_after now final times)

-- intervalTimes
unfoldable pub interval_times : ReminderPolicy → ℤ → ℤ → Zone → Option (List ℤ)
unfolding interval_loop first_interval
interval_times p now starts_at loc =
    let final = starts_at -ℤ p.final_offset in
    append_final now final
      (interval_loop p.every loc now final rounds (first_interval p now loc) [])

-- slices.SortFunc by time.Time.Compare: equal instants are one value here.
unfoldable pub insert : ℤ → List ℤ → List ℤ
insert t [] = t ∷ []
insert t (u ∷ us) = if leb_ℤ t u then t ∷ u ∷ us else u ∷ insert t us

unfoldable pub sort : List ℤ → List ℤ
unfolding insert
sort [] = []
sort (t ∷ ts) = insert t (sort ts)

-- slices.CompactFunc by time.Time.Equal: keeps the first of each run of equals.
unfoldable pub compact_from : ℤ → List ℤ → List ℤ
compact_from t [] = t ∷ []
compact_from t (u ∷ us) = if eq_ℤ t u then compact_from t us else t ∷ compact_from u us

unfoldable pub compact : List ℤ → List ℤ
unfolding compact_from
compact [] = []
compact (t ∷ ts) = compact_from t ts

pub data Scheduled : Type 0 where
  times : List ℤ → Scheduled
  rejected : Error → Scheduled
  -- The interval loop did not end within its fuel.
  unfinished : Scheduled

-- The end of Schedule: sort, compact and the limit.
finish : List ℤ → Scheduled
unfolding sort compact addf
finish ts =
    let us = compact (sort ts) in
    if ltb max_reminders (length us)
    then rejected (
        Error.validation
          (addf [] (codes "reminder_policy") (codes "generates %d reminders, limit is %d")))
    else times us

finish_loop : Option (List ℤ) → Scheduled
unfolding finish
finish_loop none = unfinished
finish_loop (some ts) = finish ts

-- The switch of Schedule. Validate has refused an unknown mode; with one, `times` stays nil.
generate : ReminderMode → ReminderPolicy → ℤ → ℤ → Zone → Scheduled
unfolding finish finish_loop offset_times interval_times
generate none_mode p now starts_at loc = times []
generate ReminderMode.offsets p now starts_at loc = finish (offset_times p.offsets now starts_at)
generate interval p now starts_at loc = finish_loop (interval_times p now starts_at loc)
generate (unknown m) p now starts_at loc = finish []

-- (ReminderPolicy).Schedule
unfoldable pub schedule : ReminderPolicy → ℤ → ℤ → Zone → Scheduled
unfolding validate generate
schedule p now starts_at loc = elim (validate p (codes "reminder_policy")) [
  | some e ↦ rejected e
  | none ↦ generate p.mode p now starts_at loc
]
