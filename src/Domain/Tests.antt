-- ===== src/Domain/Tests.antt =====
-- Runs of the theorems of internal/manager/domain at concrete inputs.
use aso_bell.Common.{ℕ, ◌+◌, ◌*◌, ◌/◌, ◌-◌, ◌<◌, ◌≡◌, ◌↔◌, refl, true, List, [], ◌∷◌, none, arith}
use aso_bell.Common.Int.{ℤ, pos, negsuc, ◌+ℤ◌, ◌*ℤ◌, ◌-ℤ◌, ◌≤ℤ◌, ◌<ℤ◌, eq_ℤ, int_laws}
use aso_bell.Common.Lists.{any}
use aso_bell.Common.Text.{codes}
use aso_bell.Domain.Errors.{check}
use aso_bell.Domain.TimeOfDay.{Zone}
use aso_bell.Domain.Job.{hour, minute, base_backoff, backoff}
use aso_bell.Domain.Job.Backoff.{backoff-min}
use aso_bell.Domain.Reminder.{
  ReminderMode, ReminderPolicy, one_day, validate, validate_entries, schedule, times,
}
use aso_bell.Domain.Reminder.Valid.{IsPolicy, validate-IsPolicy}
use aso_bell.Domain.Reminder.Rounds.{ZoneLaws}
use aso_bell.Domain.Reminder.Plan.{IsPlan, schedule-IsPlan, schedule-offsets}

-- Midnight of the day of an instant, in UTC.
abbrev start_of_day : ℤ → ℤ
start_of_day (pos n) = pos (n / one_day * one_day)
start_of_day (negsuc n) = negsuc (n / one_day * one_day + (one_day - 1))

-- The location UTC: days of 24 hours.
abbrev utc : Zone
utc = record {
  date = λ t h m. start_of_day t +ℤ (h *ℤ pos hour +ℤ m *ℤ pos minute);
  add_days = λ t n. t +ℤ n *ℤ pos one_day;
}

utc_later : (t : ℤ) (n : ℕ) → 0 < n → t <ℤ t +ℤ pos n *ℤ pos one_day
unfolding ◌*ℤ◌
utc_later t n h = grind int_laws

utc_next_day :
    (t h m : ℤ)
    → pos 0 ≤ℤ h
    → pos 0 ≤ℤ m
    → t ≤ℤ start_of_day t +ℤ (h *ℤ pos hour +ℤ m *ℤ pos minute) +ℤ pos 1 *ℤ pos one_day
unfolding ◌*ℤ◌ ◌+ℤ◌
utc_next_day (pos n) (pos h) (pos m) hh hm = ground arith
utc_next_day (negsuc n) (pos h) (pos m) hh hm = ground arith
utc_next_day t (negsuc h) m hh hm = absurd (omega arith)
utc_next_day t (pos h) (negsuc m) hh hm = absurd (omega arith)

utc_laws : ZoneLaws utc
utc_laws = record { later = utc_later; next_day = utc_next_day }

-- Every second day at 19:00, and an hour before the start.
abbrev every_other_day : ReminderPolicy
every_other_day = record {
  mode = ReminderMode.interval;
  offsets = [];
  every = pos (2 * one_day);
  at = record { hour = pos 19; minute = pos 0 };
  final_offset = pos hour;
}

-- A week before the start, a day before, and three hours before.
abbrev usual : ReminderPolicy
usual = record {
  mode = ReminderMode.offsets;
  offsets = pos (7 * one_day) ∷ pos one_day ∷ pos (3 * hour) ∷ [];
  every = pos 0;
  at = record { hour = pos 0; minute = pos 0 };
  final_offset = pos 0;
}

schedule-IsPlan_example :
    IsPlan
      (pos (10 * one_day))
      (pos (20 * one_day))
      (schedule every_other_day (pos (10 * one_day)) (pos (20 * one_day)) utc)
schedule-IsPlan_example =
    schedule-IsPlan every_other_day (pos (10 * one_day)) (pos (20 * one_day)) utc utc_laws

usual_valid : validate usual (codes "reminder_policy") ≡ none
unfolding validate validate_entries check
usual_valid = refl

schedule-offsets_example :
    (ts : List ℤ) × (schedule usual (pos (18 * one_day)) (pos (20 * one_day)) utc ≡ times ts)
    × ((a : ℤ)
        → (any (eq_ℤ a) ts ≡ true) ↔ (
            (pos (18 * one_day) <ℤ a)
            × (any (eq_ℤ (pos (20 * one_day) -ℤ a)) usual.offsets ≡ true)))
schedule-offsets_example =
    schedule-offsets usual (pos (18 * one_day)) (pos (20 * one_day)) utc refl usual_valid

validate-IsPolicy_example :
    (validate every_other_day (codes "reminder_policy") ≡ none)
    ↔ IsPolicy ReminderMode.interval every_other_day
validate-IsPolicy_example = validate-IsPolicy every_other_day (codes "reminder_policy")

backoff-min_example : (backoff (pos 4) ≡ 240000000000) × (backoff (pos 0) ≡ base_backoff)
backoff-min_example = backoff-min 3 (pos 0) (omega arith)
