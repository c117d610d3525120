-- ===== src/Domain/Reminder/Plan.antt =====
-- reminder.go, Schedule: what is scheduled, and that the interval loop ends.
use aso_bell.Common.{
  ℕ, zero, suc, ◌≤◌, ◌≡◌, refl, ◌↔◌, true, false, List, [], ◌∷◌, Option, none, some, arith,
  Bool-cases, Option-cases, inl, inr, ltb, subst,
}
use aso_bell.Common.Int.{ℤ, pos, ◌≤ℤ◌, ◌<ℤ◌, ◌-ℤ◌, eq_ℤ, ltb_ℤ, int_laws, -ℤ_parts}
use aso_bell.Common.Lists.{length, any, All, All-append}
use aso_bell.Common.Text.{codes}
use aso_bell.Domain.TimeOfDay.{Zone}
use aso_bell.Domain.Reminder.{
  ReminderMode, ReminderPolicy, Scheduled, offsets, interval, none_mode, unknown, times, rejected,
  unfinished, max_reminders, rounds, append_after, append_final, offset_times, advance,
  first_interval, interval_loop, interval_times, sort, compact, finish, finish_loop, generate,
  schedule, validate,
}
use aso_bell.Domain.Reminder.Order.{
  IsAscending, All-sort, sort-IsSorted, All-compact, compact-IsAscending, length-compact-sort,
  any-compact-sort,
}
use aso_bell.Domain.Reminder.Valid.{IsPolicy, validate-IsPolicy}
use aso_bell.Domain.Reminder.Rounds.{ZoneLaws, interval_times-Ends}

-- A reminder lies after `now` and not after the start.
abbrev pub IsDue : ℤ → ℤ → ℤ → Type 0
IsDue now starts_at t = (now <ℤ t) × (t ≤ℤ starts_at)

-- A plan: strictly ascending instants that are due, at most 30. A rejection is an error value.
abbrev pub IsPlan : ℤ → ℤ → Scheduled → Type 0
IsPlan now starts_at (times ts) =
    IsAscending ts × All (IsDue now starts_at) ts × (length ts ≤ max_reminders)
IsPlan now starts_at (rejected e) = Unit
IsPlan now starts_at unfinished = ⊥

finish-IsPlan :
    (now starts_at : ℤ) (ts : List ℤ)
    → All (IsDue now starts_at) ts
    → IsPlan now starts_at (finish ts)
unfolding finish
finish-IsPlan now starts_at ts h =
    elim (Bool-cases (ltb max_reminders (length (compact (sort ts))))) [
      | inl e ↦ rw e tt
      | inr e ↦ rw e (
        compact-IsAscending (sort ts) (sort-IsSorted ts),
        All-compact (IsDue now starts_at) (sort ts) (All-sort (IsDue now starts_at) ts h),
        ground arith,
      )
    ]

offset_times-IsDue :
    (offs : List ℤ) (now starts_at : ℤ)
    → All (λ off. pos 0 <ℤ off) offs
    → All (IsDue now starts_at) (offset_times offs now starts_at)
unfolding offset_times
offset_times-IsDue [] now starts_at h = tt
offset_times-IsDue (off ∷ rest) now starts_at h = elim (Bool-cases (ltb_ℤ now (starts_at -ℤ off))) [
  | inl e ↦ rw e ((ground arith, omega int_laws), offset_times-IsDue rest now starts_at h.1)
  | inr e ↦ rw e (offset_times-IsDue rest now starts_at h.1)
]

append_after-IsDue :
    (now starts_at t : ℤ) (ts : List ℤ)
    → t ≤ℤ starts_at
    → All (IsDue now starts_at) ts
    → All (IsDue now starts_at) (append_after now t ts)
append_after-IsDue now starts_at t ts le h = elim (Bool-cases (ltb_ℤ now t)) [
  | inl e ↦ rw e (All-append (IsDue now starts_at) ts (t ∷ []) h ((ground arith, le), tt))
  | inr e ↦ rw e h
]

-- What the caller of the loop asks of its result.
abbrev LoopIsDue : ℤ → ℤ → Option (List ℤ) → Type 0
LoopIsDue now starts_at none = Unit
LoopIsDue now starts_at (some ts) = All (IsDue now starts_at) ts

interval_loop-IsDue :
    (every : ℤ) (loc : Zone) (now starts_at final : ℤ) (fuel : ℕ) (t : ℤ) (ts : List ℤ)
    → final ≤ℤ starts_at
    → All (IsDue now starts_at) ts
    → LoopIsDue now starts_at (interval_loop every loc now final fuel t ts)
unfolding interval_loop
interval_loop-IsDue every loc now starts_at final zero t ts le h = tt
interval_loop-IsDue every loc now starts_at final (suc fuel) t ts le h =
    elim (Bool-cases (ltb_ℤ t final)) [
      | inr e ↦ rw e h
      | inl e ↦
          let before : t ≤ℤ starts_at = ground arith in
          let ts' = append_after-IsDue now starts_at t ts before h in
          rw e (elim (Bool-cases (ltb max_reminders (length (append_after now t ts)))) [
            | inl f ↦ rw f ts'
            | inr f ↦ rw f (
                interval_loop-IsDue every loc now starts_at final fuel (advance t every loc)
                  (append_after now t ts) le ts')
          ])
    ]

append_final-IsDue :
    (now starts_at final : ℤ) (r : Option (List ℤ))
    → final ≤ℤ starts_at
    → LoopIsDue now starts_at r
    → LoopIsDue now starts_at (append_final now final r)
append_final-IsDue now starts_at final none le h = tt
append_final-IsDue now starts_at final (some ts) le h =
    append_after-IsDue now starts_at final ts le h

interval_times-IsDue :
    (p : ReminderPolicy) (now starts_at : ℤ) (loc : Zone)
    → pos 0 ≤ℤ p.final_offset
    → LoopIsDue now starts_at (interval_times p now starts_at loc)
unfolding interval_times
interval_times-IsDue p now starts_at loc h =
    let final = starts_at -ℤ p.final_offset in
    let le : final ≤ℤ starts_at = omega int_laws in
    append_final-IsDue now starts_at final
      (interval_loop p.every loc now final rounds (first_interval p now loc) []) le
      (interval_loop-IsDue p.every loc now starts_at final rounds (first_interval p now loc) [] le
        tt)

finish_loop-IsPlan :
    (now starts_at : ℤ) (r : Option (List ℤ)) (ts : List ℤ)
    → r ≡ some ts
    → LoopIsDue now starts_at r
    → IsPlan now starts_at (finish_loop r)
unfolding finish_loop
finish_loop-IsPlan now starts_at none ts e h = absurd (cc)
finish_loop-IsPlan now starts_at (some us) ts e h = finish-IsPlan now starts_at us h

generate-IsPlan :
    (m : ReminderMode) (p : ReminderPolicy) (now starts_at : ℤ) (loc : Zone)
    → ZoneLaws loc
    → IsPolicy m p
    → IsPlan now starts_at (generate m p now starts_at loc)
unfolding generate
generate-IsPlan none_mode p now starts_at loc laws v = (tt, tt, omega arith)
generate-IsPlan offsets p now starts_at loc laws v =
    finish-IsPlan now starts_at (offset_times p.offsets now starts_at)
      (offset_times-IsDue p.offsets now starts_at v.2)
generate-IsPlan interval p now starts_at loc laws v =
    let (ts, e) = interval_times-Ends p now starts_at loc laws v.0 v.1 in
    finish_loop-IsPlan now starts_at (interval_times p now starts_at loc) ts e
      (interval_times-IsDue p now starts_at loc v.2)
generate-IsPlan (unknown m) p now starts_at loc laws v = absurd v

-- For every policy, clock, start and location with the laws of a calendar, Schedule returns: it
-- rejects, or its times are strictly ascending, all after `now` and none after the start, and at
-- most 30.
pub schedule-IsPlan :
    (p : ReminderPolicy) (now starts_at : ℤ) (loc : Zone)
    → ZoneLaws loc
    → IsPlan now starts_at (schedule p now starts_at loc)
unfolding schedule
schedule-IsPlan p now starts_at loc laws =
    elim (Option-cases (validate p (codes "reminder_policy"))) [
      | inr (x, e) ↦ rw (e, schedule) tt
      | inl e ↦
          rw (e, schedule)
            (generate-IsPlan p.mode p now starts_at loc laws
              ((validate-IsPolicy p (codes "reminder_policy")).0 e))
    ]

any-offset_times :
    (a : ℤ) (offs : List ℤ) (now starts_at : ℤ)
    → (any (eq_ℤ a) (offset_times offs now starts_at) ≡ true)
      ↔ ((now <ℤ a) × (any (eq_ℤ (starts_at -ℤ a)) offs ≡ true))
unfolding offset_times
any-offset_times a [] now starts_at = (λ h. absurd (cc), λ h. absurd (cc (h.1)))
any-offset_times a (off ∷ rest) now starts_at =
    ground
      (arith, any-offset_times a rest now starts_at, -ℤ_parts starts_at off, -ℤ_parts starts_at a)

offset_times-le :
    (offs : List ℤ) (now starts_at : ℤ) → length (offset_times offs now starts_at) ≤ length offs
unfolding offset_times
offset_times-le [] now starts_at = omega arith
offset_times-le (off ∷ rest) now starts_at = ground (arith, offset_times-le rest now starts_at)

-- An accepted policy of offsets is never rejected for its size, and an instant is scheduled
-- exactly when it lies after `now` and its distance to the start is one of the offsets.
pub schedule-offsets :
    (p : ReminderPolicy) (now starts_at : ℤ) (loc : Zone)
    → p.mode ≡ offsets
    → validate p (codes "reminder_policy") ≡ none
    → (ts : List ℤ) × (schedule p now starts_at loc ≡ times ts)
      × ((a : ℤ)
          → (any (eq_ℤ a) ts ≡ true)
            ↔ ((now <ℤ a) × (any (eq_ℤ (starts_at -ℤ a)) p.offsets ≡ true)))
unfolding schedule generate finish
schedule-offsets p now starts_at loc m v =
    let found = offset_times p.offsets now starts_at in
    let policy : IsPolicy offsets p =
      subst (λ k. IsPolicy k p) m ((validate-IsPolicy p (codes "reminder_policy")).0 v) in
    let small : ltb max_reminders (length (compact (sort found))) ≡ false =
      ground (arith, length-compact-sort found, offset_times-le p.offsets now starts_at) in
    (
      compact (sort found),
      rw (v, schedule) (rw (m, generate) (rw small refl)),
      λ a. rw (any-compact-sort a found) (any-offset_times a p.offsets now starts_at),
    )
