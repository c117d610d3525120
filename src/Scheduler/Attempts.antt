-- ===== src/Scheduler/Attempts.antt =====
-- worker.go: a job whose handler keeps failing is given up.
use aso_bell.Common.{
  ℕ, suc, ◌+◌, ltb, ◌≤◌, ◌≡◌, refl, sym, ap, ◌∙◌, true, false, not, List, [], ◌∷◌, subst, arith,
}
use aso_bell.Common.Int.{ℤ, pos, ◌+ℤ◌, ltb_ℤ, ◌≤ℤ◌, int_laws}
use aso_bell.Common.Lists.{All, length, update}
use aso_bell.Common.Text.{Text, codes, text_eq_refl}
use aso_bell.Domain.Errors.{Error, Result}
use aso_bell.Domain.Job.{Job, JobStatus}
use aso_bell.Store.Jobs.{find_job, has_id, update_job, claimed, claimable}
use aso_bell.Store.Jobs.Claim.{claim-single}
use aso_bell.Store.Jobs
use aso_bell.Store.State.{Store}
use aso_bell.Usecase.Effects.{Env, World, now}
use aso_bell.Scheduler.{
  Handler, Config, is_retryable, verdict, run, run_rounds, run_once, claim, is_hopeless,
}
use aso_bell.Scheduler.Settled.{outcome, rewritten, after_error, with_store, ticked, run-settles}

-- The handler leaves the queue alone, and its error is one that run retries.
abbrev pub KeepsFailing : Handler → Type 0
KeepsFailing handler =
    (job : Job) (env : Env) (w : World)
    → (e : Error) × ((handler job env w).0 ≡ Result.failed e)
      × (verdict e ≡ is_retryable)
      × ((handler job env w).1.store.jobs ≡ w.store.jobs)

-- One round of RunOnce, and one after the other, each with the environment that it meets.
abbrev pub round : Handler → Config → Env → World → World
round handler c env w = (run_once handler (record c { batch_size = pos 1 }) env w).1

abbrev pub rounds : Handler → Config → List Env → World → World
rounds handler c [] w = w
rounds handler c (env ∷ envs) w = rounds handler c envs (round handler c env w)

-- Each round begins when the jobs are due.
abbrev pub IsDue : Handler → Config → List Env → World → Type 0
IsDue handler c [] w = Unit
IsDue handler c (env ∷ envs) w =
    All (λ j. j.run_at ≤ℤ env.clock w.calls) w.store.jobs
    × IsDue handler c envs (round handler c env w)

-- The queue holds one job: pending, with the attempts it has had and may have.
abbrev pub IsPending : Text → ℕ → ℕ → World → Type 0
IsPending id had most w =
    (j : Job) × (w.store.jobs ≡ j ∷ [])
    × (j.id ≡ id)
    × (j.status ≡ JobStatus.pending)
    × (j.attempts ≡ pos had)
    × (j.max_attempts ≡ pos most)

abbrev pub IsFailed : Text → World → Type 0
IsFailed id w = (j : Job) × (w.store.jobs ≡ j ∷ []) × (j.id ≡ id) × (j.status ≡ JobStatus.failed)

-- A write to the only job of a queue.
rewritten-single :
    (f : Job → Job) (j : Job) (s : Store) → s.jobs ≡ j ∷ [] → (rewritten j.id f s).jobs ≡ f j ∷ []
rewritten-single f j s e =
    subst (λ js. update (has_id j.id) f js ≡ f j ∷ []) (sym e) (rw (text_eq_refl j.id) refl)

run_retried :
    (handler : Handler) (job : Job) (env : Env) (w : World)
    → KeepsFailing handler
    → w.store.jobs ≡ job ∷ []
    → ltb_ℤ job.max_attempts job.attempts ≡ false
    → (e : Error) × (at : ℤ) × ((run handler job env w).1.store.jobs
        ≡ after_error is_retryable job (env.describe e) at job ∷ [])
run_retried handler job env w k only more =
    let (e, fails, again, same) = k job env (ticked w) in
    let w1 = (handler job env (ticked w)).1 in
    (
      e,
      env.clock w1.calls,
      ap (λ r. r.1.store.jobs) (run-settles handler job env w)
          ∙ rw (more, fails, again, outcome)
              (rewritten-single (after_error is_retryable job (env.describe e) (env.clock w1.calls))
                job w1.store (same ∙ only)),
    )

run_given_up :
    (handler : Handler) (job : Job) (env : Env) (w : World)
    → w.store.jobs ≡ job ∷ []
    → ltb_ℤ job.max_attempts job.attempts ≡ true
    → IsFailed job.id (run handler job env w).1
run_given_up handler job env w only spent = (
  after_error is_hopeless job (codes "max attempts exceeded") (env.clock w.calls) job,
  ap (λ r. r.1.store.jobs) (run-settles handler job env w)
      ∙ rw spent (
          rewritten-single
            (after_error is_hopeless job (codes "max attempts exceeded") (env.clock w.calls)) job
            w.store only),
  refl,
  refl,
)

claimable_due :
    (at : ℤ) (j : Job) → j.status ≡ JobStatus.pending → j.run_at ≤ℤ at → claimable at j ≡ true
unfolding claimable
claimable_due at j p h = rw (p, claimable) (ground arith)

-- A round runs what it claims.
round-run :
    (handler : Handler) (c : Config) (env : Env) (w : World) (j : Job)
    → w.store.jobs ≡ j ∷ []
    → j.status ≡ JobStatus.pending
    → j.run_at ≤ℤ env.clock w.calls
    → let job = claimed (env.clock w.calls) c.lease j in
      round handler c env w
      ≡ (run handler job env (with_store (ticked w) (record w.store { jobs = job ∷ [] }))).1
unfolding run_once run_rounds claim now Jobs.claim claimed
round-run handler c env w j only p due =
    let job = claimed (env.clock w.calls) c.lease j in
    let w1 = with_store (ticked w) (record w.store { jobs = job ∷ [] }) in
    rw
      (claim-single (env.clock w.calls) c.lease j w.store only
        (claimable_due (env.clock w.calls) j p due))
      (rw (ap (λ r. r.0) (run-settles handler job env w1)) refl)

one_more : (a : ℤ) (had : ℕ) → a ≡ pos had → a +ℤ pos 1 ≡ pos (suc had)
one_more a had e = rw e (omega int_laws)

spent-ltb :
    (a m : ℤ) (had most : ℕ)
    → a ≡ pos had
    → m ≡ pos most
    → ltb_ℤ m (a +ℤ pos 1) ≡ not (ltb had most)
spent-ltb a m had most e f = rw (one_more a had e, f) (ground arith)

-- A round with attempts left takes one of them.
round-IsPending :
    (handler : Handler) (c : Config) (env : Env) (w : World) (id : Text) (had most : ℕ)
    → KeepsFailing handler
    → IsPending id had most w
    → All (λ j. j.run_at ≤ℤ env.clock w.calls) w.store.jobs
    → ltb had most ≡ true
    → IsPending id (suc had) most (round handler c env w)
unfolding claimed
round-IsPending handler c env w id had most k (j, only, same, p, tries, limit) due left =
    let due1 : All (λ x. x.run_at ≤ℤ env.clock w.calls) (j ∷ []) =
      subst (All (λ x. x.run_at ≤ℤ env.clock w.calls)) only due in
    let job = claimed (env.clock w.calls) c.lease j in
    let w1 = with_store (ticked w) (record w.store { jobs = job ∷ [] }) in
    let (e, at, jobs) =
      run_retried handler job env w1 k refl
        (spent-ltb j.attempts j.max_attempts had most tries limit ∙ ap not left) in
    subst (IsPending id (suc had) most) (sym (round-run handler c env w j only p due1.0)) (
      after_error is_retryable job (env.describe e) at job,
      jobs,
      same,
      refl,
      one_more j.attempts had tries,
      limit,
    )

round-IsFailed :
    (handler : Handler) (c : Config) (env : Env) (w : World) (id : Text) (had most : ℕ)
    → IsPending id had most w
    → All (λ j. j.run_at ≤ℤ env.clock w.calls) w.store.jobs
    → ltb had most ≡ false
    → IsFailed id (round handler c env w)
unfolding claimed
round-IsFailed handler c env w id had most (j, only, same, p, tries, limit) due left =
    let due1 : All (λ x. x.run_at ≤ℤ env.clock w.calls) (j ∷ []) =
      subst (All (λ x. x.run_at ≤ℤ env.clock w.calls)) only due in
    let job = claimed (env.clock w.calls) c.lease j in
    let w1 = with_store (ticked w) (record w.store { jobs = job ∷ [] }) in
    subst (IsFailed id) (sym (round-run handler c env w j only p due1.0)) (
      subst (λ i. IsFailed i (run handler job env w1).1) same
        (run_given_up handler job env w1 refl
          (spent-ltb j.attempts j.max_attempts had most tries limit ∙ ap not left)))

-- A job whose handler keeps failing with an error that is retried does not stay in the queue for
-- ever: after the attempts that it has left and one more round, each begun when it is due, it is
-- failed.
pub rounds-IsFailed :
    (handler : Handler) (c : Config) (envs : List Env) (w : World) (id : Text) (had most : ℕ)
    → KeepsFailing handler
    → IsPending id had most w
    → had + length envs ≡ suc most
    → had ≤ most
    → IsDue handler c envs w
    → IsFailed id (rounds handler c envs w)
rounds-IsFailed handler c [] w id had most k p enough in_limit due = absurd (omega arith)
rounds-IsFailed handler c (env ∷ []) w id had most k p enough in_limit due =
    round-IsFailed handler c env w id had most p due.0 (ground arith)
rounds-IsFailed handler c (env ∷ next ∷ envs) w id had most k p enough in_limit due =
    rounds-IsFailed handler c (next ∷ envs) (round handler c env w) id (suc had) most k
      (round-IsPending handler c env w id had most k p due.0 (ground arith)) (omega arith)
      (omega arith) due.1
