-- ===== src/Mongo/Convert/RoundTrip.antt =====
-- convert.go: a policy, its document and back.
use aso_bell.Common.{◌≡◌, refl, true, false, List, [], ◌∷◌, some}
use aso_bell.Common.Int.{ℤ}
use aso_bell.Common.Lists.{is_empty}
use aso_bell.Domain.TimeOfDay.{TimeOfDay, is_valid, to_text}
use aso_bell.Domain.TimeOfDay.RoundTrip.{parse_time_of_day-to_text}
use aso_bell.Domain.Reminder.{ReminderMode, ReminderPolicy, offsets, interval, none_mode, unknown}
use aso_bell.Domain.Reminder.Valid.{IsPolicy}
use aso_bell.Domain.Reminder.Used.{used}
use aso_bell.Domain.Duration.{DurationText, format_duration}
use aso_bell.Mongo.Convert.{
  encode_offsets, decode_offsets, encode_reminder_policy, decode_reminder_policy, duration_or_zero,
  time_or_midnight,
}

-- What the package time promises of the texts that it writes.
pub record IsReadBack (t : DurationText) : Type 0 where
  pub parse_format : (d : ℤ) → t.parse (t.format d) ≡ some d
  pub format_filled : (d : ℤ) → is_empty (t.format d) ≡ false

decode_offsets-encode_offsets :
    (t : DurationText)
    → IsReadBack t
    → (ds : List ℤ) → decode_offsets t (encode_offsets t ds) ≡ some ds
unfolding encode_offsets decode_offsets format_duration
decode_offsets-encode_offsets t read [] = refl
decode_offsets-encode_offsets t read (d ∷ ds) =
    rw (read.parse_format d, decode_offsets-encode_offsets t read ds) refl

duration_or_zero-format :
    (t : DurationText) → IsReadBack t → (d : ℤ) → duration_or_zero t (format_duration t d) ≡ some d
unfolding format_duration
duration_or_zero-format t read d = rw (read.format_filled d, read.parse_format d) refl

to_text_filled : (at : TimeOfDay) → is_empty (to_text at) ≡ false
unfolding to_text
to_text_filled at = refl

time_or_midnight-to_text :
    (at : TimeOfDay) → is_valid at ≡ true → time_or_midnight (to_text at) ≡ some at
time_or_midnight-to_text at v = rw (to_text_filled at, parse_time_of_day-to_text at v) refl

-- The policy of a given mode, in the place of p.mode.
encoded_mode :
    (t : DurationText)
    → IsReadBack t
    → (m : ReminderMode) (p : ReminderPolicy) → IsPolicy m p
    → decode_reminder_policy t (encode_reminder_policy t record p { mode = m })
      ≡ some (used m record p { mode = m })
unfolding encode_reminder_policy decode_reminder_policy used
encoded_mode t read offsets p h = rw (decode_offsets-encode_offsets t read p.offsets) refl
encoded_mode t read none_mode p h = rw (decode_offsets-encode_offsets t read p.offsets) refl
encoded_mode t read (unknown m) p h = absurd h
encoded_mode t read interval p (low, at, final) =
    rw
      (
        decode_offsets-encode_offsets t read p.offsets,
        duration_or_zero-format t read p.every,
        duration_or_zero-format t read p.final_offset,
        time_or_midnight-to_text p.at at,
      )
      refl

-- A valid policy is read back with the fields that its mode uses.
pub decode-encode_reminder_policy :
    (t : DurationText)
    → IsReadBack t
    → (p : ReminderPolicy) → IsPolicy p.mode p
    → decode_reminder_policy t (encode_reminder_policy t p) ≡ some (used p.mode p)
decode-encode_reminder_policy t read p h = encoded_mode t read p.mode p h
