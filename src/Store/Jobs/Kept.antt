-- ===== src/Store/Jobs/Kept.antt =====
-- memstore.go, jobsRepo: every method keeps the queue's invariant.
use aso_bell.Common.{
  ℕ, zero, suc, ◌≡◌, refl, inl, inr, Bool, true, false, List, [], ◌∷◌, ◌++◌, none, some, map, arith,
  Bool-cases, Option-cases, sym, ◌∙◌,
}
use aso_bell.Common.Int.{ℤ}
use aso_bell.Common.Lists.{
  All, any, update, All-append, All-find, All-update, All-update_found, All-map, All-mono,
}
use aso_bell.Common.Text.{Text, text_eq, text_eq_iff}
use aso_bell.Domain.Job.{Job, JobKind, JobStatus}
use aso_bell.Store.State.{Store, hex_id, new}
use aso_bell.Store.State.Ids.{hex_id-injective}
use aso_bell.Store.Jobs.{
  status_eq, clashes, queued, enqueue, has_id, find_job, find_target, claimed, modify_at, claim,
  complete, retry, fail, reschedule, extend_lease, cancel_one, cancel_by_event, update_job,
}
use aso_bell.Store.Jobs.Queue.{
  IsNumbered, IsDistinct, IsDeduped, IsConsistent, IsQueue, SameKeys, KeepsKeys, SameKeys-update,
  SameKeys-map, SameKeys-modify_at, All-SameKeys, IsDistinct-SameKeys, IsDeduped-SameKeys,
}

-- A write that keeps the keys and leaves every job consistent keeps the invariant.
kept :
    (s : Store) (js : List Job)
    → IsQueue s
    → SameKeys s.jobs js
    → All IsConsistent js
    → IsQueue (record s { jobs = js })
kept s js q same c = record {
  numbered = All-SameKeys (λ a b. IsNumbered s.seq a) s.jobs js same q.numbered;
  distinct = IsDistinct-SameKeys s.jobs js same q.distinct;
  deduped = IsDeduped-SameKeys s.jobs js same q.deduped;
  consistent = c;
}

-- The first `any` test fails for each job it passed over.
All-of_any : (p : Job → Bool) (js : List Job) → any p js ≡ false → All (λ j. p j ≡ false) js
All-of_any p [] h = tt
All-of_any p (j ∷ js) h = (ground arith, All-of_any p js (ground arith))

IsDistinct-append :
    (js : List Job) (j : Job)
    → IsDistinct js
    → All (λ k. text_eq j.id k.id ≡ false) js
    → IsDistinct (js ++ j ∷ [])
IsDistinct-append [] j h f = (tt, tt)
IsDistinct-append (k ∷ js) j h f = (
  All-append (λ i. text_eq i.id k.id ≡ false) js (j ∷ []) h.0 (f.0, tt),
  IsDistinct-append js j h.1 f.1,
)

IsDeduped-append :
    (js : List Job) (j : Job)
    → IsDeduped js
    → All (λ k. clashes j k ≡ false) js
    → IsDeduped (js ++ j ∷ [])
IsDeduped-append [] j h f = (tt, tt)
IsDeduped-append (k ∷ js) j h f =
    (All-append (λ i. clashes i k ≡ false) js (j ∷ []) h.0 (f.0, tt), IsDeduped-append js j h.1 f.1)

-- An ID that the sequence has given out is not the next one.
pub next_id_fresh :
    (seq : ℕ) (id : Text) → IsNumbered seq id → text_eq (hex_id (suc seq)) id ≡ false
next_id_fresh seq id (n, e, le) = elim (Bool-cases (text_eq (hex_id (suc seq)) id)) [
  | inr f ↦ f
  | inl t ↦
      let same : hex_id (suc seq) ≡ hex_id n = (text_eq_iff (hex_id (suc seq)) id).0 t ∙ e in
      absurd (omega (arith, hex_id-injective (suc seq) n same))
]

IsNumbered-suc : (seq : ℕ) (id : Text) → IsNumbered seq id → IsNumbered (suc seq) id
IsNumbered-suc seq id (n, e, le) = (n, e, omega arith)

enqueue-IsQueue : (job : Job) (now : ℤ) (s : Store) → IsQueue s → IsQueue (enqueue job now s).1
unfolding enqueue queued
enqueue-IsQueue job now s q = elim (Bool-cases (any (clashes job) s.jobs)) [
  | inl e ↦ rw e q
  | inr e ↦ rw e record {
    numbered =
        All-append (λ j. IsNumbered (suc s.seq) j.id) s.jobs _
          (All-mono (λ j. IsNumbered s.seq j.id) (λ j. IsNumbered (suc s.seq) j.id) s.jobs
            (λ j. IsNumbered-suc s.seq j.id) q.numbered)
          ((suc s.seq, refl, omega arith), tt);
    distinct = IsDistinct-append s.jobs _ q.distinct (
        All-mono (λ j. IsNumbered s.seq j.id) (λ k. text_eq (hex_id (suc s.seq)) k.id ≡ false)
          s.jobs (λ j. next_id_fresh s.seq j.id) q.numbered);
    deduped = IsDeduped-append s.jobs _ q.deduped (All-of_any (clashes job) s.jobs e);
    consistent = All-append IsConsistent s.jobs _ q.consistent ((refl, refl, ground arith), tt);
  }
]

pub All-modify_at :
    (P : Job → Type 0) (f : Job → Job) (i : ℕ) (js : List Job)
    → ((j : Job) → P j → P (f j))
    → All P js
    → All P (modify_at f i js)
All-modify_at P f i [] step h = tt
All-modify_at P f zero (j ∷ js) step h = (step j h.0, h.1)
All-modify_at P f (suc i) (j ∷ js) step h = (h.0, All-modify_at P f i js step h.1)

pub claim-IsQueue : (at lease : ℤ) (s : Store) → IsQueue s → IsQueue (claim at lease s).1
unfolding claim claimed
claim-IsQueue at lease s q = elim (Option-cases (find_target at 0 none s.jobs)) [
  | inl e ↦ rw (e, claim) q
  | inr ((i, j), e) ↦
      rw (e, claim)
        (kept s (modify_at (claimed at lease) i s.jobs) q
          (SameKeys-modify_at (claimed at lease) i s.jobs (λ k. (refl, refl)))
          (All-modify_at IsConsistent (claimed at lease) i s.jobs (λ k c. (refl, refl, c.2))
            q.consistent))
]

update-IsQueue :
    (p : Job → Bool) (f : Job → Job) (s : Store)
    → KeepsKeys f
    → ((j : Job) → p j ≡ true → IsConsistent j → IsConsistent (f j))
    → IsQueue s
    → IsQueue (record s { jobs = update p f s.jobs })
update-IsQueue p f s k c q =
    kept s (update p f s.jobs) q (SameKeys-update p f s.jobs k)
      (All-update IsConsistent p f s.jobs (λ j h e. c j e h) q.consistent)

update_job-IsQueue :
    (id : Text) (f : Job → Job) (s : Store)
    → KeepsKeys f
    → ((j : Job) → IsConsistent j → IsConsistent (f j))
    → IsQueue s
    → IsQueue (update_job id f s).1
update_job-IsQueue id f s k c q = elim (Option-cases (find_job id s)) [
  | inl e ↦ rw (e, update_job) q
  | inr (j, e) ↦ rw (e, update_job) (update-IsQueue (has_id id) f s k (λ i m h. c i h) q)
]

extend_lease-IsQueue :
    (id : Text) (until now : ℤ) (s : Store) → IsQueue s → IsQueue (extend_lease id until now s).1
unfolding extend_lease
extend_lease-IsQueue id until now s q = elim (Option-cases (find_job id s)) [
  | inl e ↦ rw (e, extend_lease) q
  | inr (j, e) ↦ elim (Bool-cases (status_eq j.status JobStatus.running)) [
    | inr n ↦ rw (e, extend_lease) (rw n q)
    | inl r ↦
        let write : Job → Job = λ i. record i { lease_until = some until; updated_at = now } in
        let c : IsConsistent j = All-find IsConsistent (has_id id) s.jobs j q.consistent e in
        rw (e, extend_lease)
          (rw r (
            kept s (update (has_id id) write s.jobs) q
              (SameKeys-update (has_id id) write s.jobs (λ k. (refl, refl)))
              (All-update_found IsConsistent (has_id id) write s.jobs j e (sym r, c.1, c.2)
                q.consistent)))
  ]
]

cancel_by_event-IsQueue :
    (event_id : Text) (kinds : List JobKind) (at : ℤ) (s : Store)
    → IsQueue s
    → IsQueue (cancel_by_event event_id kinds at s).1
unfolding cancel_by_event
cancel_by_event-IsQueue event_id kinds at s q =
    kept s (map (cancel_one event_id kinds at) s.jobs) q
      (SameKeys-map (cancel_one event_id kinds at) s.jobs (λ k. (ground arith, ground arith)))
      (All-map IsConsistent (cancel_one event_id kinds at) s.jobs (λ k c. ground arith)
        q.consistent)

-- The methods that change the queue.
pub data JobOp : Type 0 where
  op_enqueue : Job → ℤ → JobOp
  op_claim : ℤ → ℤ → JobOp
  op_complete : Text → ℤ → JobOp
  op_retry : Text → ℤ → Text → ℤ → JobOp
  op_fail : Text → Text → ℤ → JobOp
  op_reschedule : Text → ℤ → ℤ → JobOp
  op_extend : Text → ℤ → ℤ → JobOp
  op_cancel : Text → List JobKind → ℤ → JobOp

abbrev pub perform : JobOp → Store → Store
perform (op_enqueue job now) s = (enqueue job now s).1
perform (op_claim at lease) s = (claim at lease s).1
perform (op_complete id now) s = (complete id now s).1
perform (op_retry id run_at e now) s = (retry id run_at e now s).1
perform (op_fail id e now) s = (fail id e now s).1
perform (op_reschedule id run_at now) s = (reschedule id run_at now s).1
perform (op_extend id until now) s = (extend_lease id until now s).1
perform (op_cancel event_id kinds at) s = (cancel_by_event event_id kinds at s).1

pub perform-IsQueue : (op : JobOp) (s : Store) → IsQueue s → IsQueue (perform op s)
unfolding complete retry fail reschedule
perform-IsQueue (op_enqueue job now) s q = enqueue-IsQueue job now s q
perform-IsQueue (op_claim at lease) s q = claim-IsQueue at lease s q
perform-IsQueue (op_complete id now) s q =
    update_job-IsQueue id _ s (λ k. (refl, refl)) (λ k c. (refl, refl, c.2)) q
perform-IsQueue (op_retry id run_at e now) s q =
    update_job-IsQueue id _ s (λ k. (refl, refl)) (λ k c. (refl, refl, c.2)) q
perform-IsQueue (op_fail id e now) s q =
    update_job-IsQueue id _ s (λ k. (refl, refl)) (λ k c. (refl, refl, c.2)) q
perform-IsQueue (op_reschedule id run_at now) s q =
    update_job-IsQueue id _ s (λ k. (refl, refl)) (λ k c. (refl, refl, c.2)) q
perform-IsQueue (op_extend id until now) s q = extend_lease-IsQueue id until now s q
perform-IsQueue (op_cancel event_id kinds at) s q = cancel_by_event-IsQueue event_id kinds at s q

abbrev pub perform_all : List JobOp → Store → Store
perform_all [] s = s
perform_all (op ∷ ops) s = perform_all ops (perform op s)

perform_all_kept : (ops : List JobOp) (s : Store) → IsQueue s → IsQueue (perform_all ops s)
perform_all_kept [] s q = q
perform_all_kept (op ∷ ops) s q = perform_all_kept ops (perform op s) (perform-IsQueue op s q)

new-IsQueue : IsQueue new
unfolding new
new-IsQueue = record { numbered = tt; distinct = tt; deduped = tt; consistent = tt }

-- Every queue that the methods make of an empty store, in any order and with any arguments, has
-- distinct IDs of the sequence and no two jobs with one dedupe key; each job has a lease exactly
-- while it is running, a finishing time when it is done, failed or canceled, and a positive limit
-- of attempts.
pub perform_all-IsQueue : (ops : List JobOp) → IsQueue (perform_all ops new)
perform_all-IsQueue ops = perform_all_kept ops new new-IsQueue
