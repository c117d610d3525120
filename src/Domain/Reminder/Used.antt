-- ===== src/Domain/Reminder/Used.antt =====
-- reminder.go: the fields of a policy that its mode uses.
use aso_bell.Common.{◌≡◌, refl}
use aso_bell.Common.Int.{ℤ, pos}
use aso_bell.Domain.TimeOfDay.{Zone}
use aso_bell.Domain.Reminder.{
  ReminderMode, ReminderPolicy, offsets, interval, none_mode, unknown, validate_offsets, collect,
  validate, generate, schedule,
}

-- The policy with the zero values in the fields that its mode does not use.
unfoldable pub used : ReminderMode → ReminderPolicy → ReminderPolicy
used interval p = p
used m p = record p {
  every = pos 0;
  at = record { hour = pos 0; minute = pos 0 };
  final_offset = pos 0;
}

-- The schedule of a policy with a given mode in its place.
scheduled_mode :
    (m : ReminderMode) (p : ReminderPolicy) (now starts_at : ℤ) (loc : Zone)
    → schedule (used m record p { mode = m }) now starts_at loc
      ≡ schedule record p { mode = m } now starts_at loc
unfolding used schedule validate collect validate_offsets generate
scheduled_mode offsets p now starts_at loc = refl
scheduled_mode interval p now starts_at loc = refl
scheduled_mode none_mode p now starts_at loc = refl
scheduled_mode (unknown m) p now starts_at loc = refl

-- A policy and its used fields have the same schedule.
pub schedule-used :
    (p : ReminderPolicy) (now starts_at : ℤ) (loc : Zone)
    → schedule (used p.mode p) now starts_at loc ≡ schedule p now starts_at loc
schedule-used p now starts_at loc = scheduled_mode p.mode p now starts_at loc
