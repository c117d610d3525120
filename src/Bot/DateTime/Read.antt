-- ===== src/Bot/DateTime/Read.antt =====
-- datetime.go: the times of day and the years that are read.
use aso_bell.Common.{
  ℕ, ◌≤◌, leb, ◌+◌, ◌*◌, ◌-◌, ◌≡◌, true, false, List, subst, [], ◌∷◌, Option, none, some, arith,
  Bool-cases, Option-cases, inl, inr, ◌==◌,
}
use aso_bell.Common.Int.{pos}
use aso_bell.Common.Lists.{is_empty, length}
use aso_bell.Common.Text.{Text}
use aso_bell.Domain.Duration.{is_digit}
use aso_bell.Domain.TimeOfDay.{TimeOfDay, is_valid}
use aso_bell.Bot.Input.{split_at}
use aso_bell.Bot.DateTime.{
  DateMatch, match_date, number, number_from, if_valid, time_parts, month_day, with_year,
  match_parts, is_date_separator, parse_time_of_day, time_or_default,
}
use mathlib.Core.Option.{some-injective}

pub some_not_none : {A : Type 0} {a : A} → none ≡ some a → ⊥
some_not_none h = cc

if_valid-is_valid :
    (h m : Option ℕ) (tod : TimeOfDay) → if_valid h m ≡ some tod → is_valid tod ≡ true
if_valid-is_valid none m tod e = absurd (some_not_none e)
if_valid-is_valid (some h) none tod e = absurd (some_not_none e)
if_valid-is_valid (some h) (some m) tod e =
    let read : TimeOfDay = record { hour = pos h; minute = pos m } in
    elim (Bool-cases (is_valid read)) [
      | inr f ↦ absurd (some_not_none (rw f at e))
      | inl t ↦ subst (λ x. is_valid x ≡ true) (some-injective read tod (rw t at e)) t
    ]

time_parts-is_valid :
    (parts : List Text) (tod : TimeOfDay) → time_parts parts ≡ some tod → is_valid tod ≡ true
unfolding time_parts
time_parts-is_valid [] tod e = absurd (some_not_none e)
time_parts-is_valid (h ∷ []) tod e = absurd (some_not_none e)
time_parts-is_valid (h ∷ m ∷ []) tod e = if_valid-is_valid (number 1 2 h) (number 2 2 m) tod e
time_parts-is_valid (h ∷ m ∷ x ∷ xs) tod e = absurd (some_not_none e)

pub parse_time_of_day-is_valid :
    (s : Text) (tod : TimeOfDay) → parse_time_of_day s ≡ some tod → is_valid tod ≡ true
unfolding parse_time_of_day
parse_time_of_day-is_valid s tod e = time_parts-is_valid (split_at (λ c. c == b':') s) tod e

pub time_or_default-is_valid :
    (s : Text) (default_time tod : TimeOfDay)
    → is_valid default_time ≡ true
    → time_or_default s default_time ≡ some tod
    → is_valid tod ≡ true
unfolding time_or_default
time_or_default-is_valid s default_time tod v e = elim (Bool-cases (is_empty s)) [
  | inl t ↦
      subst (λ x. is_valid x ≡ true)
        (some-injective default_time tod (rw (time_or_default, t) at e)) v
  | inr f ↦ parse_time_of_day-is_valid s tod (rw (time_or_default, f) at e)
]

-- The greatest value of a text behind a value.
top : ℕ → Text → ℕ
top acc [] = acc
top acc (c ∷ s) = top (acc * 10 + 9) s

top_mono : (acc more : ℕ) (s : Text) → acc ≤ more → top acc s ≤ top more s
unfolding top
top_mono acc more [] h = h
top_mono acc more (c ∷ s) h = top_mono (acc * 10 + 9) (more * 10 + 9) s (omega arith)

number_from-top : (acc : ℕ) (s : Text) (v : ℕ) → number_from acc s ≡ some v → v ≤ top acc s
unfolding number_from top
number_from-top acc [] v e = let same = some-injective acc v e in omega (arith, same)
number_from-top acc (c ∷ s) v e = elim (Bool-cases (is_digit c)) [
  | inr f ↦ absurd (some_not_none (rw f at e))
  | inl t ↦
      let rest = number_from-top (acc * 10 + (c - b'0')) s v (rw t at e) in
      let digit : c - b'0' ≤ 9 = ground arith in
      let wider = top_mono (acc * 10 + (c - b'0')) (acc * 10 + 9) s (omega arith) in
      omega (arith, rest, wider)
]

-- A year of four digits.
number-year : (s : Text) (y : ℕ) → number 4 4 s ≡ some y → y ≤ 9999
unfolding number top
number-year [] y e = absurd (some_not_none e)
number-year (a ∷ []) y e = absurd (some_not_none e)
number-year (a ∷ b ∷ []) y e = absurd (some_not_none e)
number-year (a ∷ b ∷ c ∷ []) y e = absurd (some_not_none e)
number-year (a ∷ b ∷ c ∷ d ∷ []) y e = number_from-top 0 (a ∷ b ∷ c ∷ d ∷ []) y e
number-year (a ∷ b ∷ c ∷ d ∷ x ∷ s) y e =
    let long : leb (length (a ∷ b ∷ c ∷ d ∷ x ∷ s)) 4 ≡ false = ground arith in
    let enough : leb 4 (length (a ∷ b ∷ c ∷ d ∷ x ∷ s)) ≡ true = ground arith in
    absurd (some_not_none (rw (enough, long) at e))

-- The year of a date, if it has one, has four digits.
abbrev pub IsYear : Option ℕ → Type 0
IsYear none = Unit
IsYear (some y) = y ≤ 9999

month_day-IsYear :
    (year m d : Option ℕ) (date : DateMatch)
    → IsYear year
    → month_day year m d ≡ some date
    → IsYear date.year
month_day-IsYear year none d date h e = absurd (some_not_none e)
month_day-IsYear year (some m) none date h e = absurd (some_not_none e)
month_day-IsYear year (some m) (some d) date h e =
    subst (λ x. IsYear x.year) (some-injective _ date e) h

with_year-IsYear :
    (year m d : Option ℕ) (date : DateMatch)
    → IsYear year
    → with_year year m d ≡ some date
    → IsYear date.year
with_year-IsYear none m d date h e = absurd (some_not_none e)
with_year-IsYear (some y) m d date h e = month_day-IsYear (some y) m d date h e

number-IsYear : (s : Text) → IsYear (number 4 4 s)
number-IsYear s = elim (Option-cases (number 4 4 s)) [
  | inl e ↦ rw e tt
  | inr (y, e) ↦ rw e (number-year s y e)
]

match_parts-IsYear :
    (parts : List Text) (date : DateMatch) → match_parts parts ≡ some date → IsYear date.year
unfolding match_parts
match_parts-IsYear [] date e = absurd (some_not_none e)
match_parts-IsYear (m ∷ []) date e = absurd (some_not_none e)
match_parts-IsYear (m ∷ d ∷ []) date e =
    month_day-IsYear none (number 1 2 m) (number 1 2 d) date tt e
match_parts-IsYear (y ∷ m ∷ d ∷ []) date e =
    with_year-IsYear (number 4 4 y) (number 1 2 m) (number 1 2 d) date (number-IsYear y) e
match_parts-IsYear (y ∷ m ∷ d ∷ x ∷ xs) date e = absurd (some_not_none e)

pub match_date-IsYear : (s : Text) (date : DateMatch) → match_date s ≡ some date → IsYear date.year
unfolding match_date
match_date-IsYear s date e = match_parts-IsYear (split_at is_date_separator s) date e
