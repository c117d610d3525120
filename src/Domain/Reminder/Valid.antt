-- ===== src/Domain/Reminder/Valid.antt =====
-- reminder.go, Validate: which policies are accepted.
use aso_bell.Common.{◌≤◌, ◌≡◌, refl, ◌↔◌, true, false, List, [], ◌∷◌, ◌++◌, none, arith}
use aso_bell.Common.Int.{ℤ, pos, ◌≤ℤ◌, ◌<ℤ◌, eq_ℤ}
use aso_bell.Common.Lists.{length, any, All}
use aso_bell.Common.Text.{Text, codes}
use aso_bell.Domain.Errors.{
  ValidationError, addf-ne-nil, check-nil_iff, err-none_iff, merge, merge-nil_iff,
}
use aso_bell.Domain.TimeOfDay.{is_valid}
use aso_bell.Domain.Reminder.{
  ReminderMode, ReminderPolicy, offsets, interval, none_mode, unknown, max_reminders,
  min_reminder_interval, validate_entries, validate_offsets, validate_interval, collect, validate,
}

-- No offset stands in the list twice, and none is among those seen.
abbrev pub IsFresh : List ℤ → List ℤ → Type 0
IsFresh seen [] = Unit
IsFresh seen (off ∷ rest) = (any (eq_ℤ off) seen ≡ false) × IsFresh (off ∷ seen) rest

-- What the documentation asks of a policy.
abbrev pub IsPolicy : ReminderMode → ReminderPolicy → Type 0
IsPolicy none_mode p = Unit
IsPolicy offsets p =
    (1 ≤ length p.offsets)
    × (length p.offsets ≤ max_reminders)
    × All (λ off. pos 0 <ℤ off) p.offsets
    × IsFresh [] p.offsets
IsPolicy interval p =
    (min_reminder_interval ≤ℤ p.every) × (is_valid p.at ≡ true) × (pos 0 ≤ℤ p.final_offset)
IsPolicy (unknown m) p = ⊥

validate_entries-nil :
    (field : Text) (seen rest : List ℤ) (v : ValidationError)
    → (validate_entries field seen rest v ≡ [])
      ↔ ((v ≡ []) × All (λ off. pos 0 <ℤ off) rest × IsFresh seen rest)
unfolding validate_entries
validate_entries-nil field seen [] v = (λ h. (h, tt, tt), λ h. h.0)
validate_entries-nil field seen (off ∷ rest) v =
    grind (arith, validate_entries-nil field (off ∷ seen) rest, check-nil_iff)

validate_offsets-IsPolicy :
    (p : ReminderPolicy) (field : Text) → (validate_offsets p [] field ≡ []) ↔ IsPolicy offsets p
unfolding validate_offsets
validate_offsets-IsPolicy p field =
    grind (arith, validate_entries-nil field [] p.offsets, check-nil_iff, addf-ne-nil)

validate_interval-IsPolicy :
    (p : ReminderPolicy) (field : Text) → (validate_interval p [] field ≡ []) ↔ IsPolicy interval p
unfolding validate_interval
validate_interval-IsPolicy p field = grind (arith, check-nil_iff)

collect-IsPolicy :
    (m : ReminderMode) (p : ReminderPolicy) (field : Text)
    → (collect m p [] field ≡ []) ↔ IsPolicy m p
unfolding collect
collect-IsPolicy none_mode p field = (λ h. tt, λ h. refl)
collect-IsPolicy offsets p field = validate_offsets-IsPolicy p field
collect-IsPolicy interval p field = validate_interval-IsPolicy p field
collect-IsPolicy (unknown m) p field =
    (λ h. addf-ne-nil [] (field ++ codes ".mode") (codes "unknown mode %q") h, λ h. absurd h)

-- Validate accepts exactly the policies of the documentation: `none` always, between 1 and 30
-- distinct positive offsets, or an interval of an hour or more at a valid time of day with a final
-- offset that is not negative.
pub validate-IsPolicy :
    (p : ReminderPolicy) (field : Text) → (validate p field ≡ none) ↔ IsPolicy p.mode p
unfolding validate
validate-IsPolicy p field =
    let e = err-none_iff (collect p.mode p [] field) in
    let c = collect-IsPolicy p.mode p field in (λ h. c.0 (e.0 h), λ h. e.1 (c.1 h))

-- A nested Validate adds no error exactly when the policy is accepted.
pub merge-validate :
    (v : ValidationError) (p : ReminderPolicy) (f field : Text)
    → (merge v f (validate p field) ≡ []) ↔ ((v ≡ []) × IsPolicy p.mode p)
unfolding validate
merge-validate v p f field =
    let m = merge-nil_iff v f (collect p.mode p [] field) in
    let c = collect-IsPolicy p.mode p field in
    (λ h. ((m.0 h).0, c.0 (m.0 h).1), λ h. m.1 (h.0, c.1 h.1))
