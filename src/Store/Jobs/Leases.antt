-- ===== src/Store/Jobs/Leases.antt =====
-- memstore.go, jobsRepo: a lease keeps every other worker from the job until it runs out.
use aso_bell.Common.{
  ℕ, zero, suc, ◌≡◌, refl, Bool, true, false, not, ◌&&◌, ◌||◌, List, [], ◌∷◌, none, some, arith,
  Bool-cases, Option-cases, inl, inr, subst, ap, sym,
}
use aso_bell.Common.Int.{ℤ, ltb_ℤ, leb_ℤ, ◌<ℤ◌}
use aso_bell.Common.Lists.{
  get_elem?, All, All-append, All-update, All-map, All-find, All-update_found, any, find-holds,
}
use aso_bell.Common.Text.{Text, text_eq, text_eq_iff}
use aso_bell.Domain.Errors.{Result, ok}
use aso_bell.Domain.Job.{Job, JobStatus}
use aso_bell.Store.State.{Store}
use aso_bell.Store.Jobs.{
  status_eq, clashes, claimable, queued, enqueue, has_id, find_job, modify_at, claim, complete,
  retry, fail, reschedule, extend_lease, cancel_one, cancel_by_event, update_job,
}
use aso_bell.Store.Jobs.Queue.{IsNumbered, IsQueue}
use aso_bell.Store.Jobs.Kept.{
  JobOp, op_enqueue, op_claim, op_complete, op_retry, op_fail, op_reschedule, op_extend, op_cancel,
  perform, next_id_fresh,
}
use mathlib.Core.Option.{some-injective}
use aso_bell.Store.Jobs.Claim.{Claimed, claim-Claimed}

-- The job is running with a lease that lasts until `t` at least, or it is done or failed.
abbrev pub is_held : ℤ → Job → Bool
is_held t j =
    (status_eq j.status JobStatus.running
      && elim j.lease_until [ none ↦ false | some l ↦ leb_ℤ t l ])
    || status_eq j.status JobStatus.done
    || status_eq j.status JobStatus.failed

-- Every job with the ID is held.
abbrev pub guarded : Text → ℤ → Job → Bool
guarded id t j = not (text_eq j.id id) || is_held t j

-- The operation claims before `t`, does not put the job with the ID back into the queue by Retry or
-- Reschedule, and does not shorten its lease. No method asks who holds a lease, so these are
-- conditions on the workers.
abbrev pub respects : Text → ℤ → JobOp → Bool
respects id t (op_enqueue job now) = true
respects id t (op_claim at lease) = ltb_ℤ at t
respects id t (op_complete i now) = true
respects id t (op_retry i run_at e now) = not (text_eq i id)
respects id t (op_fail i e now) = true
respects id t (op_reschedule i run_at now) = not (text_eq i id)
respects id t (op_extend i until now) = not (text_eq i id) || leb_ℤ t until
respects id t (op_cancel event_id kinds at) = true

abbrev pub IsGuarded : Text → ℤ → Store → Type 0
IsGuarded id t s = All (λ j. guarded id t j ≡ true) s.jobs

-- A held job is not claimable before the lease runs out.
held_unclaimable : (at t : ℤ) (j : Job) → is_held t j ≡ true → at <ℤ t → claimable at j ≡ true → ⊥
unfolding claimable
held_unclaimable at t j h lt c = ground arith

update-IsGuarded :
    (i id : Text) (t : ℤ) (f : Job → Job) (s : Store)
    → ((j : Job) → (f j).id ≡ j.id)
    → text_eq i id ≡ false
    → IsGuarded id t s
    → IsGuarded id t (update_job i f s).1
update-IsGuarded i id t f s k ne g = elim (Option-cases (find_job i s)) [
  | inl e ↦ rw (e, update_job) g
  | inr (j, e) ↦
      rw (e, update_job)
        (All-update (λ j. guarded id t j ≡ true) (has_id i) f s.jobs
          (λ j h m. ground (arith, text_eq_iff j.id i, k j)) g)
]

-- A write that leaves its job done or failed keeps every guard.
end-IsGuarded :
    (i id : Text) (t : ℤ) (f : Job → Job) (s : Store)
    → ((j : Job) → is_held t (f j) ≡ true)
    → IsGuarded id t s
    → IsGuarded id t (update_job i f s).1
end-IsGuarded i id t f s held g = elim (Option-cases (find_job i s)) [
  | inl e ↦ rw (e, update_job) g
  | inr (j, e) ↦
      rw (e, update_job)
        (All-update (λ j. guarded id t j ≡ true) (has_id i) f s.jobs
          (λ j h m. ground (arith, held j)) g)
]

-- The job with index i keeps its guard: it is another one, or it was not claimable.
claim_guarded_at :
    (id : Text) (t : ℤ) (i : ℕ) (js : List Job) (old new : Job)
    → get_elem? js i ≡ some old
    → new.id ≡ old.id
    → text_eq old.id id ≡ false
    → All (λ j. guarded id t j ≡ true) js
    → All (λ j. guarded id t j ≡ true) (modify_at (λ k. new) i js)
claim_guarded_at id t i [] old new e same ne g = tt
claim_guarded_at id t zero (x ∷ js) old new e same ne g = (rw (same, ne) refl, g.1)
claim_guarded_at id t (suc i) (x ∷ js) old new e same ne g =
    (g.0, claim_guarded_at id t i js old new e same ne g.1)

pub All-get_elem? :
    (P : Job → Type 0) (js : List Job) (i : ℕ) (j : Job) → All P js → get_elem? js i ≡ some j → P j
All-get_elem? P [] i j h e = absurd (cc)
All-get_elem? P (x ∷ js) zero j h e = subst P (some-injective x j e) h.0
All-get_elem? P (x ∷ js) (suc i) j h e = All-get_elem? P js i j h.1 e

-- What a claim takes before the lease runs out is not the held job.
pub claimed_other :
    (id : Text) (at t : ℤ) (js : List Job) (i : ℕ) (old : Job)
    → All (λ j. guarded id t j ≡ true) js
    → get_elem? js i ≡ some old
    → claimable at old ≡ true
    → at <ℤ t
    → text_eq old.id id ≡ false
claimed_other id at t js i old g e c lt = elim (Bool-cases (text_eq old.id id)) [
  | inr n ↦ n
  | inl m ↦
      let o = All-get_elem? (λ j. guarded id t j ≡ true) js i old g e in
      let held : is_held t old ≡ true = rw m at o in absurd (held_unclaimable at t old held lt c)
]

claim-IsGuarded :
    (id : Text) (t at lease : ℤ) (s : Store) (r : Result Job × Store)
    → at <ℤ t
    → IsGuarded id t s
    → Claimed at lease s r
    → IsGuarded id t r.1
claim-IsGuarded id t at lease s (Result.failed e, s') lt g c = subst (IsGuarded id t) (sym c.1) g
claim-IsGuarded id t at lease s (ok j, s') lt g (i, old, e, can, first, mark, same) =
    subst (IsGuarded id t) (sym same) (
      claim_guarded_at id t i s.jobs old j e (ap (λ k. k.id) mark)
        (claimed_other id at t s.jobs i old g e can lt) g)

enqueue-IsGuarded :
    (id : Text) (t : ℤ) (job : Job) (now : ℤ) (s : Store)
    → IsNumbered s.seq id
    → IsGuarded id t s
    → IsGuarded id t (enqueue job now s).1
unfolding enqueue queued
enqueue-IsGuarded id t job now s n g = elim (Bool-cases (any (clashes job) s.jobs)) [
  | inl e ↦ rw e g
  | inr e ↦
      rw e (
        All-append (λ j. guarded id t j ≡ true) s.jobs _ g (rw (next_id_fresh s.seq id n) refl, tt))
]

-- The holder's own extension does not shorten the lease.
extended :
    (i id : Text) (t until now : ℤ) (j : Job)
    → (not (text_eq i id) || leb_ℤ t until) ≡ true
    → guarded id t j ≡ true
    → text_eq j.id i ≡ true
    → status_eq j.status JobStatus.running ≡ true
    → guarded id t (record j { lease_until = some until; updated_at = now }) ≡ true
extended i id t until now j r h m run = ground (arith, text_eq_iff j.id i)

extend-IsGuarded :
    (i id : Text) (t until now : ℤ) (s : Store)
    → (not (text_eq i id) || leb_ℤ t until) ≡ true
    → IsGuarded id t s
    → IsGuarded id t (extend_lease i until now s).1
unfolding extend_lease
extend-IsGuarded i id t until now s r g = elim (Option-cases (find_job i s)) [
  | inl e ↦ rw (e, extend_lease) g
  | inr (j, e) ↦ elim (Bool-cases (status_eq j.status JobStatus.running)) [
    | inr m ↦ rw (e, extend_lease) (rw m g)
    | inl m ↦
        rw (e, extend_lease)
          (rw m (
            All-update_found (λ k. guarded id t k ≡ true) (has_id i)
              (λ k. record k { lease_until = some until; updated_at = now }) s.jobs j e
              (extended i id t until now j r
                (All-find (λ k. guarded id t k ≡ true) (has_id i) s.jobs j g e)
                (find-holds (has_id i) s.jobs j e) m)
              g))
  ]
]

pub perform-IsGuarded :
    (id : Text) (t : ℤ) (op : JobOp) (s : Store)
    → IsQueue s
    → IsNumbered s.seq id
    → respects id t op ≡ true
    → IsGuarded id t s
    → IsGuarded id t (perform op s)
unfolding complete retry fail reschedule cancel_by_event
perform-IsGuarded id t (op_enqueue job now) s q n r g = enqueue-IsGuarded id t job now s n g
perform-IsGuarded id t (op_claim at lease) s q n r g =
    claim-IsGuarded id t at lease s (claim at lease s) (ground arith) g (claim-Claimed at lease s)
perform-IsGuarded id t (op_complete i now) s q n r g =
    end-IsGuarded i id t _ s (λ j. ground arith) g
perform-IsGuarded id t (op_retry i run_at e now) s q n r g =
    update-IsGuarded i id t _ s (λ j. refl) (ground arith) g
perform-IsGuarded id t (op_fail i e now) s q n r g = end-IsGuarded i id t _ s (λ j. ground arith) g
perform-IsGuarded id t (op_reschedule i run_at now) s q n r g =
    update-IsGuarded i id t _ s (λ j. refl) (ground arith) g
perform-IsGuarded id t (op_extend i until now) s q n r g = extend-IsGuarded i id t until now s r g
perform-IsGuarded id t (op_cancel event_id kinds at) s q n r g =
    All-map (λ j. guarded id t j ≡ true) (cancel_one event_id kinds at) s.jobs (λ j h. ground arith)
      g
