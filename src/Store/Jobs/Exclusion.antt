-- ===== src/Store/Jobs/Exclusion.antt =====
-- memstore.go, jobsRepo: mutual exclusion of workers by the lease.
use aso_bell.Common.{
  ℕ, zero, suc, ◌≤◌, ◌≡◌, ◌≢◌, refl, true, false, List, [], ◌∷◌, some, arith, subst, sym, ap, ◌∙◌,
}
use aso_bell.Common.Int.{ℤ, ◌+ℤ◌, ◌<ℤ◌}
use aso_bell.Common.Lists.{get_elem?, All, All-mono}
use aso_bell.Common.Text.{Text, text_eq, text_eq_iff, text_eq_refl}
use aso_bell.Domain.Errors.{ok}
use aso_bell.Domain.Job.{Job}
use aso_bell.Store.State.{Store}
use aso_bell.Store.Jobs.{
  enqueue, claim, complete, retry, fail, reschedule, extend_lease, cancel_by_event, modify_at,
}
use aso_bell.Store.Jobs.Queue.{IsNumbered, IsDistinct, IsQueue}
use aso_bell.Store.Jobs.Kept.{
  JobOp, op_enqueue, op_claim, op_complete, op_retry, op_fail, op_reschedule, op_extend, op_cancel,
  perform, perform_all, perform-IsQueue, claim-IsQueue,
}
use aso_bell.Store.Jobs.Claim.{Claimed, claim-Claimed}
use aso_bell.Store.Jobs.Leases.{
  is_held, guarded, respects, IsGuarded, perform-IsGuarded, All-get_elem?, claimed_other,
}
use mathlib.Core.Option.{some-injective}

seq_le : (op : JobOp) (s : Store) → s.seq ≤ (perform op s).seq
unfolding enqueue claim complete retry fail reschedule extend_lease cancel_by_event
seq_le (op_enqueue job now) s = ground arith
seq_le (op_claim at lease) s = ground arith
seq_le (op_complete i now) s = ground arith
seq_le (op_retry i run_at e now) s = ground arith
seq_le (op_fail i e now) s = ground arith
seq_le (op_reschedule i run_at now) s = ground arith
seq_le (op_extend i until now) s = ground arith
seq_le (op_cancel event_id kinds at) s = omega arith

seq_grows :
    (op : JobOp) (s : Store) (id : Text) → IsNumbered s.seq id → IsNumbered (perform op s).seq id
seq_grows op s id (n, e, le) = (n, e, omega (arith, seq_le op s))

perform_all-IsGuarded :
    (id : Text) (t : ℤ) (ops : List JobOp) (s : Store)
    → IsQueue s
    → IsNumbered s.seq id
    → All (λ op. respects id t op ≡ true) ops
    → IsGuarded id t s
    → IsGuarded id t (perform_all ops s)
perform_all-IsGuarded id t [] s q n r g = g
perform_all-IsGuarded id t (op ∷ ops) s q n r g =
    perform_all-IsGuarded id t ops (perform op s) (perform-IsQueue op s q) (seq_grows op s id n) r.1
      (perform-IsGuarded id t op s q n r.0 g)

other_id : (a b : Text) → text_eq a b ≡ false → text_eq b a ≡ false
other_id a b h = ground (arith, text_eq_iff a b, text_eq_iff b a)

distinct_guarded :
    (t : ℤ) (js : List Job) (i : ℕ) (j : Job)
    → get_elem? js i ≡ some j
    → IsDistinct js
    → is_held t j ≡ true
    → All (λ k. guarded j.id t k ≡ true) js
distinct_guarded t [] i j e d h = tt
distinct_guarded t (x ∷ js) zero j e d h =
    subst (λ y. All (λ k. guarded y.id t k ≡ true) (x ∷ js)) (some-injective x j e)
      (
        rw (text_eq_refl x.id) (subst (λ y. is_held t y ≡ true) (sym (some-injective x j e)) h),
        All-mono (λ k. text_eq k.id x.id ≡ false) (λ k. guarded x.id t k ≡ true) js
            (λ k n. rw n refl) d.0,
      )
distinct_guarded t (x ∷ js) (suc i) j e d h = (
  rw (other_id j.id x.id (All-get_elem? (λ k. text_eq k.id x.id ≡ false) js i j d.0 e)) refl,
  distinct_guarded t js i j e d.1 h,
)

get_elem?-modify_at :
    (js : List Job) (i : ℕ) (old j : Job)
    → get_elem? js i ≡ some old
    → get_elem? (modify_at (λ k. j) i js) i ≡ some j
get_elem?-modify_at [] i old j e = absurd (cc)
get_elem?-modify_at (x ∷ js) zero old j e = refl
get_elem?-modify_at (x ∷ js) (suc i) old j e = get_elem?-modify_at js i old j e

-- What the holder and the others rely on after a claim.
claim_guards :
    (at lease : ℤ) (s : Store) (j : Job) (s' : Store)
    → IsQueue s
    → IsQueue s'
    → Claimed at lease s (ok j, s')
    → IsGuarded j.id (at +ℤ lease) s' × IsNumbered s'.seq j.id
claim_guards at lease s j s' q q' (i, old, e, can, first, mark, same) =
    let place : get_elem? s'.jobs i ≡ some j =
      subst (λ r. get_elem? r.jobs i ≡ some j) (sym same) (get_elem?-modify_at s.jobs i old j e) in
    let held : is_held (at +ℤ lease) j ≡ true =
      subst (λ k. is_held (at +ℤ lease) k ≡ true) (sym mark) (ground arith) in
    (
      distinct_guarded (at +ℤ lease) s'.jobs i j place q'.distinct held,
      All-get_elem? (λ k. IsNumbered s'.seq k.id) s'.jobs i j q'.numbered place,
    )

claim_other :
    (id : Text) (t at lease : ℤ) (s : Store) (j : Job) (s' : Store)
    → at <ℤ t
    → IsGuarded id t s
    → Claimed at lease s (ok j, s')
    → j.id ≢ id
claim_other id t at lease s j s' lt g (i, old, e, can, first, mark, same) h =
    let ne = claimed_other id at t s.jobs i old g e can lt in
    let eq : old.id ≡ id = sym (ap (λ k. k.id) mark) ∙ h in
    absurd (ground (arith, text_eq_iff old.id id))

-- In a queue with the invariant, a job that a worker has claimed at `at` is not claimed again before
-- `at + lease`, if what happens meanwhile puts it back by neither Retry nor Reschedule, shortens its
-- lease by no ExtendLease, and claims only before that time. Anything else may happen: jobs are
-- enqueued, claimed and canceled, this one and others completed and failed, others retried,
-- rescheduled and extended, and this one's lease is extended.
pub claim-excludes :
    (at lease : ℤ) (s : Store) (j : Job) (s1 : Store) (ops : List JobOp) (at2 lease2 : ℤ) (k : Job)
    (s2 : Store)
    → IsQueue s
    → claim at lease s ≡ (ok j, s1)
    → All (λ op. respects j.id (at +ℤ lease) op ≡ true) ops
    → at2 <ℤ at +ℤ lease
    → claim at2 lease2 (perform_all ops s1) ≡ (ok k, s2)
    → k.id ≢ j.id
claim-excludes at lease s j s1 ops at2 lease2 k s2 q first r early second =
    let q1 : IsQueue s1 = subst (λ x. IsQueue x.1) first (claim-IsQueue at lease s q) in
    let c1 : Claimed at lease s (ok j, s1) =
      subst (Claimed at lease s) first (claim-Claimed at lease s) in
    let (g1, n1) = claim_guards at lease s j s1 q q1 c1 in
    let g2 = perform_all-IsGuarded j.id (at +ℤ lease) ops s1 q1 n1 r g1 in
    claim_other j.id (at +ℤ lease) at2 lease2 (perform_all ops s1) k s2 early g2 (
      subst (Claimed at2 lease2 (perform_all ops s1)) second
        (claim-Claimed at2 lease2 (perform_all ops s1)))
