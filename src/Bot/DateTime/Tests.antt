-- ===== src/Bot/DateTime/Tests.antt =====
-- A run of the theorem of datetime.go in a calendar without clock changes.
use aso_bell.Common.{
  ℕ, ◌+◌, ◌-◌, ◌*◌, ◌/◌, ◌%◌, ◌≤◌, ◌<◌, ◌≡◌, refl, ◌⊎◌, true, [], ◌∷◌, some, arith, subst, sym, ap,
  ◌∙◌,
}
use aso_bell.Common.Int.{ℤ, pos, negsuc, ◌+ℤ◌, ◌*ℤ◌, ◌<ℤ◌, ◌≤ℤ◌}
use aso_bell.Common.Text.{Text, codes, text_eq, trim_space}
use aso_bell.Domain.Duration.{DurationText, digits}
use aso_bell.Domain.Job.{hour, minute}
use aso_bell.Domain.Reminder.{one_day}
use aso_bell.Domain.TimeOfDay.{TimeOfDay, is_valid, on}
use aso_bell.Bot.Input.{Library, Calendar, normalize_input, split_at}
use aso_bell.Bot.DateTime.{DateMatch, parse_end_time, parse_time_of_day, number, match_date}
use aso_bell.Bot.DateTime.After.{InRange, CalendarLaws, IsDated, named_date, parse_end_time_later}

value : ℕ → Text → ℕ
value acc [] = acc
value acc (c ∷ s) = value (acc * 10 + (c - b'0')) s

-- Durations are whole hours.
abbrev pub hours : DurationText
unfolding value
hours = record {
  parse = λ s. some (pos (value 0 (digits s) * hour));
  format = λ d. [];
  day_nanos = λ s. some (pos (value 0 s * 24 * hour));
}

-- A location without clock changes, whose calendar has twelve months of 31 days from year 0 on; no
-- date is before it.
abbrev start_of_day : ℤ → ℤ
start_of_day (pos n) = pos (n / one_day * one_day)
start_of_day (negsuc n) = negsuc (n / one_day * one_day + (one_day - 1))

abbrev day_number : ℕ → ℕ → ℕ → ℕ
day_number y m d = (y * 12 + (m - 1)) * 31 + (d - 1)

abbrev instant_at : ℤ → ℤ → ℤ → ℤ → ℤ → ℤ
instant_at (pos y) (pos m) (pos d) h k =
    pos (day_number y m d * one_day) +ℤ (h *ℤ pos hour +ℤ k *ℤ pos minute)
instant_at _ _ _ h k = negsuc 0

abbrev year_of : ℤ → ℤ
year_of (pos n) = pos (n / (372 * one_day))
year_of (negsuc n) = negsuc (n / (372 * one_day))

abbrev month_of : ℤ → ℤ
month_of (pos n) = pos (n / (31 * one_day) % 12 + 1)
month_of (negsuc n) = negsuc 0

abbrev day_of : ℤ → ℤ
day_of (pos n) = pos (n / one_day % 31 + 1)
day_of (negsuc n) = negsuc 0

abbrev even_months : Calendar
even_months = record {
  zone = record {
    date = λ t h m. start_of_day t +ℤ (h *ℤ pos hour +ℤ m *ℤ pos minute);
    add_days = λ t n. t +ℤ n *ℤ pos one_day;
  };
  at = instant_at;
  year = year_of;
  month = month_of;
  day = day_of;
  date_text = λ t. codes "2026-09-20";
  clock_text = λ t. codes "19:00";
}

abbrev pub plain : Library
plain = record {
  nfkc = λ s. s;
  to_lower = λ s. s;
  equal_fold = text_eq;
  durations = hours;
  load = λ name. some even_months;
  utc = even_months;
}

day_after :
    (n : ℕ) (h m : ℤ)
    → pos 0 ≤ℤ h
    → pos 0 ≤ℤ m
    → pos n <ℤ start_of_day (pos n +ℤ pos 1 *ℤ pos one_day) +ℤ (h *ℤ pos hour +ℤ m *ℤ pos minute)
unfolding ◌*ℤ◌ ◌+ℤ◌
day_after n (pos h) (pos m) hh hm = ground arith
day_after n (negsuc h) m hh hm = absurd (omega arith)
day_after n (pos h) (negsuc m) hh hm = absurd (omega arith)

-- A valid time has an hour up to 23 and a minute up to 59.
valid_bounds :
    (tod : TimeOfDay)
    → is_valid tod ≡ true
    → (h k : ℕ) × (tod.hour ≡ pos h) × (tod.minute ≡ pos k) × (h ≤ 23) × (k ≤ 59)
unfolding is_valid
valid_bounds tod v = valid_parts tod.hour tod.minute v
  where
    valid_parts :
        (h m : ℤ)
        → is_valid record { hour = h; minute = m } ≡ true
        → (a b : ℕ) × (h ≡ pos a) × (m ≡ pos b) × (a ≤ 23) × (b ≤ 59)
    valid_parts (pos a) (pos b) v = (a, b, refl, refl, ground arith, ground arith)
    valid_parts (pos a) (negsuc b) v = absurd (ground arith)
    valid_parts (negsuc a) m v = absurd (ground arith)

-- The parts of an instant of the calendar.
same_parts :
    (y m d s : ℕ)
    → s < one_day
    → let n = day_number y m d * one_day + s in
      (n / one_day ≡ day_number y m d)
      × (n / (31 * one_day) ≡ day_number y m d / 31)
      × (n / (372 * one_day) ≡ day_number y m d / 372)
same_parts y m d s h = (omega arith, omega arith, omega arith)

same_year_of_days :
    (y m d : ℕ)
    → day_number y m d / 31 % 12 + 1 ≡ m
    → day_number y m d % 31 + 1 ≡ d
    → day_number y m d / 372 ≡ y
same_year_of_days y m d em ed = omega (arith, em, ed)

pos_equal : (a b : ℕ) → pos a ≡ pos b → a ≡ b
pos_equal a b h = ground arith

abbrev nanos : ℕ → ℕ → ℕ → ℕ → ℕ → ℕ
nanos y m d h k = day_number y m d * one_day + (h * hour + k * minute)

instant_at-nanos :
    (y m d h k : ℕ) → instant_at (pos y) (pos m) (pos d) (pos h) (pos k) ≡ pos (nanos y m d h k)
unfolding ◌*ℤ◌ ◌+ℤ◌
instant_at-nanos y m d h k = ground arith

-- The date that an instant of the calendar is made of.
same_year :
    (y m d h k : ℕ)
    → h ≤ 23
    → k ≤ 59
    → month_of (instant_at (pos y) (pos m) (pos d) (pos h) (pos k)) ≡ pos m
    → day_of (instant_at (pos y) (pos m) (pos d) (pos h) (pos k)) ≡ pos d
    → year_of (instant_at (pos y) (pos m) (pos d) (pos h) (pos k)) ≡ pos y
same_year y m d h k hh hk em ed =
    let at = instant_at-nanos y m d h k in
    let (days, months, years) = same_parts y m d (h * hour + k * minute) (omega arith) in
    let em' =
      pos_equal (nanos y m d h k / (31 * one_day) % 12 + 1) m
        (subst (λ x. month_of x ≡ pos m) at em) in
    let ed' =
      pos_equal (nanos y m d h k / one_day % 31 + 1) d (subst (λ x. day_of x ≡ pos d) at ed) in
    subst (λ x. year_of x ≡ pos y) (sym at)
      (ap pos (years ∙ same_year_of_days y m d (rw months at em') (rw days at ed')))

later_year : (t u : ℤ) → year_of t <ℤ year_of u → t <ℤ u
later_year (pos m) (pos n) h = ground arith
later_year (pos m) (negsuc n) h = absurd (ground arith)
later_year (negsuc m) (pos n) h = ground arith
later_year (negsuc m) (negsuc n) h = ground arith

next_day :
    (t : ℤ) (tod : TimeOfDay)
    → InRange even_months t
    → is_valid tod ≡ true
    → t <ℤ even_months.zone.date (even_months.zone.add_days t (pos 1)) tod.hour tod.minute
next_day (pos n) tod near v =
    let (h, k, eh, ek, hh, hk) = valid_bounds tod v in
    rw (eh, ek) (day_after n (pos h) (pos k) (omega arith) (omega arith))
next_day (negsuc n) tod (low, high) v = absurd (ground arith)

even_months-CalendarLaws : CalendarLaws even_months
even_months-CalendarLaws = record {
  next_day = next_day;
  later_year = later_year;
  same_year = λ y m d tod small v.
      let (h, k, eh, ek, hh, hk) = valid_bounds tod v in rw (eh, ek) (same_year y m d h k hh hk);
}

-- Half past one, behind a start at two o'clock, is on the next day.
next_night :
    parse_end_time plain (codes " 1:30") (pos (2 * hour)) even_months
    ≡ some (pos (one_day + hour + 30 * minute))
unfolding parse_end_time normalize_input parse_time_of_day number on is_valid trim_space split_at
    match_date ◌+ℤ◌ ◌*ℤ◌
next_night = refl

parse_end_time_later_example :
    (pos (2 * hour) <ℤ pos (one_day + hour + 30 * minute))
    ⊎ ((m : DateMatch) × (named_date plain (codes " 1:30") ≡ some m)
        × IsDated even_months m (pos (2 * hour)) (pos (one_day + hour + 30 * minute)))
parse_end_time_later_example =
    parse_end_time_later plain even_months (codes " 1:30") (pos (2 * hour))
      (pos (one_day + hour + 30 * minute)) even_months-CalendarLaws (omega arith, omega arith)
      next_night
