-- ===== src/Domain/Reminder/Rounds.antt =====
-- reminder.go, intervalTimes: the loop ends within the fuel, in every location whose calendar
-- moves forward.
use aso_bell.Common.{
  ℕ, zero, suc, ◌+◌, ◌/◌, ◌%◌, ◌≤◌, ◌<◌, ◌≡◌, refl, true, List, [], ◌∷◌, ◌++◌, Option, some, arith,
  Bool-cases, inl, inr, ltb, ◌==◌,
}
use aso_bell.Common.Int.{ℤ, pos, negsuc, ◌≤ℤ◌, ◌<ℤ◌, ◌-ℤ◌, ltb_ℤ, int_laws}
use aso_bell.Common.Lists.{length, length-append}
use aso_bell.Domain.TimeOfDay.{Zone, is_valid, on}
use aso_bell.Domain.Reminder.{
  ReminderPolicy, max_reminders, min_reminder_interval, one_day, rounds, append_after, quot_days,
  advance, first_interval, interval_loop, interval_times,
}

-- What package time documents of a location: a later calendar day begins later, and the day after
-- the calendar day of `t` lies behind `t`.
pub record ZoneLaws (z : Zone) : Type 0 where
  pub later : (t : ℤ) (n : ℕ) → 0 < n → t <ℤ z.add_days t (pos n)
  pub next_day : (t h m : ℤ) → pos 0 ≤ℤ h → pos 0 ≤ℤ m → t ≤ℤ z.add_days (z.date t h m) (pos 1)

quot_days_pos : (n : ℕ) → one_day ≤ n → (q : ℕ) × (quot_days (pos n) ≡ pos q) × (0 < q)
unfolding quot_days
quot_days_pos n h = (n / one_day, ground arith, omega arith)

whole_days : (n : ℕ) → 1 ≤ n → n % one_day ≡ 0 → one_day ≤ n
whole_days n h e = omega arith

pub advance-later :
    (z : Zone) (t every : ℤ) → ZoneLaws z → min_reminder_interval ≤ℤ every → t <ℤ advance t every z
unfolding advance
advance-later z t (negsuc n) laws h = absurd (omega arith)
advance-later z t (pos n) laws h = elim (Bool-cases ((n + 0) % one_day == 0)) [
  | inl e ↦
      let (q, eq, p) = quot_days_pos n (whole_days n (omega arith) (ground arith)) in
      rw (e, eq) (laws.later t q p)
  | inr e ↦ rw e (omega int_laws)
]

now-le-first_interval :
    (p : ReminderPolicy) (now : ℤ) (z : Zone)
    → ZoneLaws z
    → is_valid p.at ≡ true
    → now ≤ℤ first_interval p now z
unfolding first_interval on is_valid
now-le-first_interval p now z laws v =
    elim (Bool-cases (ltb_ℤ (z.date now p.at.hour p.at.minute) now)) [
      | inl e ↦ rw e (laws.next_day now p.at.hour p.at.minute (ground arith) (ground arith))
      | inr e ↦ rw e (ground arith)
    ]

-- The loop has returned.
abbrev pub Ends : Option (List ℤ) → Type 0
Ends r = (ts : List ℤ) × (r ≡ some ts)

module _ (every : ℤ) (z : Zone) (now final : ℤ) (laws : ZoneLaws z)
    (step : min_reminder_interval ≤ℤ every) where
  -- Behind `now` every round adds a time, and the cap is 30.
  interval_loop-Ends :
      (fuel : ℕ) (t : ℤ) (ts : List ℤ)
      → now <ℤ t
      → length ts ≤ max_reminders
      → max_reminders + 1 < fuel + length ts
      → Ends (interval_loop every z now final fuel t ts)
  unfolding interval_loop
  interval_loop-Ends zero t ts lt cap enough = absurd (omega arith)
  interval_loop-Ends (suc fuel) t ts lt cap enough = elim (Bool-cases (ltb_ℤ t final)) [
    | inr e ↦ rw e (ts, refl)
    | inl e ↦
        let app : ltb_ℤ now t ≡ true = ground arith in
        rw (e, app)
          (elim (Bool-cases (ltb max_reminders (length (ts ++ t ∷ [])))) [
            | inl f ↦ rw f (ts ++ t ∷ [], refl)
            | inr f ↦ rw f (
                interval_loop-Ends fuel (advance t every z) (ts ++ t ∷ [])
                  (omega (arith, advance-later z t every laws step)) (ground arith)
                  (omega (arith, length-append ts (t ∷ []))))
          ])
  ]

  -- The first time may be `now` itself.
  interval_loop-Ends_first : (t : ℤ) → now ≤ℤ t → Ends (interval_loop every z now final rounds t [])
  interval_loop-Ends_first t le = elim (Bool-cases (ltb_ℤ now t)) [
    | inl e ↦ interval_loop-Ends rounds t [] (ground arith) (omega arith) (omega arith)
    | inr e ↦ elim (Bool-cases (ltb_ℤ t final)) [
      | inr f ↦ unfold interval_loop in rw f ([], refl)
      | inl f ↦
          unfold interval_loop in
          rw (f, e)
            (interval_loop-Ends 32 (advance t every z) []
              (omega (arith, advance-later z t every laws step)) (omega arith) (omega arith))
    ]
  ]

-- A policy with an interval of an hour or more at a valid time of day generates its times within the
-- 33 rounds of the model, whatever the clock and the start are, in a location with the laws of a
-- calendar.
pub interval_times-Ends :
    (p : ReminderPolicy) (now starts_at : ℤ) (z : Zone)
    → ZoneLaws z
    → min_reminder_interval ≤ℤ p.every
    → is_valid p.at ≡ true
    → Ends (interval_times p now starts_at z)
unfolding interval_times
interval_times-Ends p now starts_at z laws step v =
    let final = starts_at -ℤ p.final_offset in
    let (ts, e) =
      interval_loop-Ends_first p.every z now final laws step (first_interval p now z)
        (now-le-first_interval p now z laws v) in
    rw e (append_after now final ts, refl)
