-- ===== src/Domain/TimeOfDay/RoundTrip.antt =====
-- timeofday.go: a time of day, its text and back.
use aso_bell.Common.{
  ℕ, zero, suc, ◌+◌, ◌≤◌, ◌<◌, ◌==◌, Bool-cases, inl, inr, ◌≡◌, refl, Bool, true, false, ◌&&◌,
  Option, none, some, arith, subst, sym,
}
use aso_bell.Common.Int.{ℤ, pos, negsuc, eq_ℤ, eq_ℤ_iff}
use aso_bell.Domain.TimeOfDay.{TimeOfDay, is_valid, parse_time_of_day, to_text}

-- The test `fits` holds of the `count` values from `first` on.
holds_from : ℕ → ℕ → (ℕ → Bool) → Bool
holds_from first zero fits = true
holds_from first (suc count) fits = fits first && holds_from (suc first) count fits

holds_from_sound :
    (first count : ℕ) (fits : ℕ → Bool) (v : ℕ)
    → first ≤ v
    → v < first + count
    → holds_from first count fits ≡ true
    → fits v ≡ true
unfolding holds_from
holds_from_sound first zero fits v low high h = absurd (omega arith)
holds_from_sound first (suc count) fits v low high h = elim (Bool-cases (first == v)) [
  | inl e ↦ let same : first ≡ v = ground arith in subst (λ u. fits u ≡ true) same (ground arith)
  | inr e ↦ holds_from_sound (suc first) count fits v (ground arith) (omega arith) (ground arith)
]

abbrev reads : Option TimeOfDay → TimeOfDay → Bool
reads none t = false
reads (some u) t = eq_ℤ u.hour t.hour && eq_ℤ u.minute t.minute

abbrev at_time : ℕ → ℕ → TimeOfDay
at_time h m = record { hour = pos h; minute = pos m }

abbrev reads_back : ℕ → ℕ → Bool
reads_back h m = reads (parse_time_of_day (to_text (at_time h m))) (at_time h m)

reads_table : holds_from 0 24 (λ h. holds_from 0 60 (reads_back h)) ≡ true
unfolding holds_from parse_time_of_day to_text
reads_table = refl

reads_eq : (r : Option TimeOfDay) (t : TimeOfDay) → reads r t ≡ true → r ≡ some t
reads_eq none t h = absurd (cc)
reads_eq (some u) t h = ground (arith, eq_ℤ_iff u.hour t.hour, eq_ℤ_iff u.minute t.minute)

-- A valid time has an hour below 24 and a minute below 60.
at_time_of :
    (h m : ℤ)
    → is_valid record { hour = h; minute = m } ≡ true
    → (a b : ℕ) × (h ≡ pos a) × (m ≡ pos b) × (a < 24) × (b < 60)
unfolding is_valid
at_time_of (pos a) (pos b) v = (a, b, refl, refl, ground arith, ground arith)
at_time_of (pos a) (negsuc b) v = absurd (ground arith)
at_time_of (negsuc a) m v = absurd (ground arith)

-- Every valid time of day is read back from the text that it is written as.
pub parse_time_of_day-to_text :
    (t : TimeOfDay) → is_valid t ≡ true → parse_time_of_day (to_text t) ≡ some t
parse_time_of_day-to_text t v =
    let (a, b, ha, hb, la, lb) = at_time_of t.hour t.minute v in
    let row =
      holds_from_sound 0 24 (λ h. holds_from 0 60 (reads_back h)) a (omega arith) la reads_table in
    let cell = holds_from_sound 0 60 (reads_back a) b (omega arith) lb row in
    let same : t ≡ at_time a b = ground arith in
    subst (λ u. parse_time_of_day (to_text u) ≡ some u) (sym same)
      (reads_eq (parse_time_of_day (to_text (at_time a b))) (at_time a b) cell)
