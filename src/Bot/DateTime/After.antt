-- ===== src/Bot/DateTime/After.antt =====
-- datetime.go: an end lies behind its start, or on the date that the input names.
use aso_bell.Common.{
  ℕ, ◌≤◌, ◌≡◌, refl, true, subst, not, ◌&&◌, ◌⊎◌, inl, inr, [], ◌∷◌, Option, none, some, arith,
  Bool-cases, Option-cases, ◌==◌,
}
use aso_bell.Common.Int.{ℤ, pos, negsuc, ◌+ℤ◌, ◌<ℤ◌, ◌≤ℤ◌, ltb_ℤ, leb_ℤ, eq_ℤ, eq_ℤ_iff, int_laws}
use aso_bell.Common.Lists.{is_empty}
use aso_bell.Common.Text.{Text}
use aso_bell.Domain.Duration.{parse_duration}
use aso_bell.Domain.TimeOfDay.{TimeOfDay, is_valid, on}
use aso_bell.Bot.Input.{Library, Calendar, normalize_input, cut_at}
use aso_bell.Bot.DateTime.{
  DateMatch, match_date, parse_time_of_day, time_or_default, date_at, midnight, this_or_next,
  at_year, parse_absolute, if_positive, end_on, end_at, end_of, parse_end_time,
}
use aso_bell.Bot.DateTime.Read.{
  some_not_none, parse_time_of_day-is_valid, time_or_default-is_valid, IsYear, match_date-IsYear,
}
use mathlib.Core.Option.{some-injective}

-- An instant of the years from 0 to 9999.
abbrev pub InRange : Calendar → ℤ → Type 0
InRange c t = (pos 0 ≤ℤ c.year t) × (c.year t ≤ℤ pos 9999)

-- What the package time keeps to in a location whose clock changes do not skip a midnight: a time of
-- day on the next calendar day is later, a later year is later, and a date that exists has the year
-- that it is made of.
pub record CalendarLaws (c : Calendar) : Type 0 where
  pub next_day :
      (t : ℤ) (tod : TimeOfDay)
      → InRange c t
      → is_valid tod ≡ true
      → t <ℤ c.zone.date (c.zone.add_days t (pos 1)) tod.hour tod.minute
  pub later_year : (t u : ℤ) → c.year t <ℤ c.year u → t <ℤ u
  pub same_year :
      (y m d : ℕ) (tod : TimeOfDay)
      → y ≤ 10000
      → is_valid tod ≡ true
      → c.month (c.at (pos y) (pos m) (pos d) tod.hour tod.minute) ≡ pos m
      → c.day (c.at (pos y) (pos m) (pos d) tod.hour tod.minute) ≡ pos d
      → c.year (c.at (pos y) (pos m) (pos d) tod.hour tod.minute) ≡ pos y

abbrev InYear : Calendar → Option ℕ → ℤ → ℤ → Type 0
InYear c none base at = base ≤ℤ at
InYear c (some y) base at = c.year at ≡ pos y

-- The instant is on the named date: in the named year, or not before the base if none is named.
abbrev pub IsDated : Calendar → DateMatch → ℤ → ℤ → Type 0
IsDated c m base at = (c.month at ≡ pos m.month) × (c.day at ≡ pos m.day) × InYear c m.year base at

-- The date at the head of an input.
abbrev pub named_date : Library → Text → Option DateMatch
named_date l input = match_date (cut_at b' ' (normalize_input l input)).0

abbrev IsRead : Option TimeOfDay → Type 0
IsRead none = Unit
IsRead (some tod) = is_valid tod ≡ true

IsRead-is_valid : (s : Text) → IsRead (parse_time_of_day s)
IsRead-is_valid s = elim (Option-cases (parse_time_of_day s)) [
  | inl e ↦ rw e tt
  | inr (tod, e) ↦ rw e (parse_time_of_day-is_valid s tod e)
]

module _ (c : Calendar) (laws : CalendarLaws c) where
  date_at-Exists :
      (y : ℤ) (month day : ℕ) (tod : TimeOfDay) (at : ℤ)
      → pos 0 ≤ℤ y
      → y ≤ℤ pos 10000
      → is_valid tod ≡ true
      → date_at y month day tod c ≡ some at
      → (c.month at ≡ pos month) × (c.day at ≡ pos day) × (c.year at ≡ y)
  unfolding date_at
  date_at-Exists (negsuc y) month day tod at low high v h = absurd (omega arith)
  date_at-Exists (pos y) month day tod at low high v h =
      let made = c.at (pos y) (pos month) (pos day) tod.hour tod.minute in
      elim (Bool-cases (eq_ℤ (c.month made) (pos month))) [
        | inr f ↦ absurd (some_not_none (rw f at h))
        | inl t ↦ elim (Bool-cases (eq_ℤ (c.day made) (pos day))) [
          | inr f ↦ absurd (some_not_none (rw (t, f) at h))
          | inl u ↦
              let m = (eq_ℤ_iff (c.month made) (pos month)).0 t in
              let d = (eq_ℤ_iff (c.day made) (pos day)).0 u in
              subst (λ x. (c.month x ≡ pos month) × (c.day x ≡ pos day) × (c.year x ≡ pos y))
                (some-injective made at (rw (t, u) at h))
                (m, d, laws.same_year y month day tod (omega arith) v m d)
        ]
      ]

  this_or_next-IsDated :
      (m : DateMatch) (base : ℤ) (tod : TimeOfDay) (at first : ℤ)
      → InRange c base
      → is_valid tod ≡ true
      → date_at (c.year base) m.month m.day tod c ≡ some first
      → this_or_next m base c tod (some first) ≡ some at
      → (c.month at ≡ pos m.month) × (c.day at ≡ pos m.day) × (base ≤ℤ at)
  this_or_next-IsDated m base tod at first (low, high) v e h =
      elim (Bool-cases (ltb_ℤ first base)) [
        | inl t ↦
            let (month, day, year) =
              date_at-Exists (c.year base +ℤ pos 1) m.month m.day tod at (omega int_laws)
                (omega int_laws) v (rw t at h) in
            let later = laws.later_year base at (rw year (omega int_laws)) in
            (month, day, omega (arith, later))
        | inr f ↦
            let (month, day, year) =
              date_at-Exists (c.year base) m.month m.day tod first low (omega arith) v e in
            subst (λ x. (c.month x ≡ pos m.month) × (c.day x ≡ pos m.day) × (base ≤ℤ x))
              (some-injective first at (rw f at h)) (month, day, ground arith)
      ]

  at_year-IsDated :
      (m : DateMatch) (year : Option ℕ) (base : ℤ) (tod : TimeOfDay) (at : ℤ)
      → InRange c base
      → is_valid tod ≡ true
      → IsYear year
      → at_year m year base c tod ≡ some at
      → (c.month at ≡ pos m.month) × (c.day at ≡ pos m.day) × InYear c year base at
  at_year-IsDated m (some y) base tod at near v small h =
      date_at-Exists (pos y) m.month m.day tod at (omega arith) (omega arith) v h
  at_year-IsDated m none base tod at near v small h =
      elim (Option-cases (date_at (c.year base) m.month m.day tod c)) [
        | inl e ↦ absurd (some_not_none (rw e at h))
        | inr (first, e) ↦ this_or_next-IsDated m base tod at first near v e (rw e at h)
      ]

  parse_absolute-IsDated :
      (s : Text) (base : ℤ) (default_time : TimeOfDay) (at : ℤ)
      → InRange c base
      → is_valid default_time ≡ true
      → parse_absolute s base c default_time ≡ some at
      → (m : DateMatch) × (match_date (cut_at b' ' s).0 ≡ some m) × IsDated c m base at
  unfolding parse_absolute
  parse_absolute-IsDated s base default_time at near v h =
      elim (Option-cases (match_date (cut_at b' ' s).0)) [
        | inl e ↦ absurd (some_not_none (rw e at h))
        | inr (m, e) ↦ elim (Option-cases (time_or_default (cut_at b' ' s).1 default_time)) [
          | inl n ↦ absurd (some_not_none (rw (e, n) at h))
          | inr (tod, n) ↦ (
            m,
            e,
            at_year-IsDated m m.year base tod at near
                (time_or_default-is_valid (cut_at b' ' s).1 default_time tod v n)
                (match_date-IsYear (cut_at b' ' s).0 m e) (rw (e, n) at h),
          )
        ]
      ]

  end_on-later :
      (tod : TimeOfDay) (start : ℤ)
      → InRange c start
      → is_valid tod ≡ true
      → start <ℤ end_on tod start c
  unfolding on
  end_on-later tod start near v =
      elim (Bool-cases (ltb_ℤ start (c.zone.date start tod.hour tod.minute))) [
        | inl t ↦ rw t (ground arith)
        | inr f ↦ rw f (laws.next_day start tod near v)
      ]

  if_positive-later :
      (start : ℤ) (d : Option ℤ) (end : ℤ) → if_positive start d ≡ some end → start <ℤ end
  if_positive-later start none end h = absurd (some_not_none h)
  if_positive-later start (some d) end h = elim (Bool-cases (leb_ℤ d (pos 0))) [
    | inl t ↦ absurd (some_not_none (rw t at h))
    | inr f ↦
        let less : pos 0 <ℤ d = ground arith in
        let later : start <ℤ (start +ℤ d) = omega int_laws in
        subst (λ x. start <ℤ x) (some-injective (start +ℤ d) end (rw f at h)) later
  ]

  end_at_later :
      (s : Text) (start : ℤ) (tod : Option TimeOfDay) (end : ℤ)
      → InRange c start
      → IsRead tod
      → end_at s start c tod ≡ some end
      → (start <ℤ end)
        ⊎ ((m : DateMatch) × (match_date (cut_at b' ' s).0 ≡ some m) × IsDated c m start end)
  end_at_later s start none end near v h =
      inr (parse_absolute-IsDated s start midnight end near (unfold is_valid in refl) h)
  end_at_later s start (some tod) end near v h = inl (
      subst (λ x. start <ℤ x) (some-injective (end_on tod start c) end h)
        (end_on-later tod start near v))

  end_of_later :
      (l : Library) (s : Text) (start end : ℤ)
      → InRange c start
      → end_of l s start c ≡ some end
      → (start <ℤ end)
        ⊎ ((m : DateMatch) × (match_date (cut_at b' ' s).0 ≡ some m) × IsDated c m start end)
  end_of_later l [] start end near h = absurd (some_not_none h)
  end_of_later l (x ∷ s) start end near h = elim (Bool-cases (x == b'+' && not (is_empty s))) [
    | inl t ↦ inl (if_positive-later start (parse_duration l.durations s) end (rw t at h))
    | inr f ↦
        end_at_later (x ∷ s) start (parse_time_of_day (x ∷ s)) end near (IsRead-is_valid (x ∷ s))
          (rw f at h)
  ]

-- In a calendar with the laws, an end that ParseEndTime reads behind a start of the years from 0 to
-- 9999 is after the start, unless the input names a date. Then the end is
-- on that day of that month, in the year that the input names; if it names none, the end is not
-- before the start.
pub parse_end_time_later :
    (l : Library) (c : Calendar) (input : Text) (start end : ℤ)
    → CalendarLaws c
    → InRange c start
    → parse_end_time l input start c ≡ some end
    → (start <ℤ end) ⊎ ((m : DateMatch) × (named_date l input ≡ some m) × IsDated c m start end)
unfolding parse_end_time
parse_end_time_later l c input start end laws near h =
    end_of_later c laws l (normalize_input l input) start end near h
