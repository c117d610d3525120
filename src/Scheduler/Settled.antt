-- ===== src/Scheduler/Settled.antt =====
-- worker.go, run: what becomes of a job that a worker has run, for any handler.
use aso_bell.Common.{
  ◌≡◌, refl, sym, ap, Bool, List, [], ◌∷◌, none, some, if◌then◌else◌, Bool-cases, Option-cases, inl,
  inr,
}
use aso_bell.Common.Int.{ℤ, pos, ◌+ℤ◌, ltb_ℤ}
use aso_bell.Common.Lists.{find, update}
use aso_bell.Common.Text.{Text, codes}
use aso_bell.Domain.Errors.{Result, ok}
use aso_bell.Domain.Job.{Job, JobStatus, backoff}
use aso_bell.Store.Jobs.{find_job, has_id, update_job}
use aso_bell.Store.Jobs
use aso_bell.Store.State.{Store}
use aso_bell.Usecase.Effects.{Env, World, now, clock_now}
use aso_bell.Scheduler.{
  Handler, Verdict, is_rescheduled, is_hopeless, is_retryable, verdict, run, run_handler, settle,
  settle_error,
}

-- The job's record behind an error: as the handler left it, failed for good, or due again after the
-- wait of Backoff.
abbrev pub after_error : Verdict → Job → Text → ℤ → Job → Job
after_error is_rescheduled job cause at j = j
after_error is_hopeless job cause at j = record j {
  status = JobStatus.failed;
  finished_at = some at;
  last_error = cause;
  lease_until = none;
  updated_at = at;
}
after_error is_retryable job cause at j = record j {
  status = JobStatus.pending;
  run_at = at +ℤ pos (backoff job.attempts);
  last_error = cause;
  lease_until = none;
  updated_at = at;
}

-- The job's record behind the handler's result.
abbrev pub outcome : Env → Result (Unit {0}) → Job → ℤ → Job → Job
outcome env (ok u) job at j = record j {
  status = JobStatus.done;
  finished_at = some at;
  lease_until = none;
  updated_at = at;
}
outcome env (Result.failed e) job at j = after_error (verdict e) job (env.describe e) at j

-- The jobs of a store, with the first of that ID rewritten.
abbrev pub rewritten : Text → (Job → Job) → Store → Store
rewritten id f s = record s { jobs = update (has_id id) f s.jobs }

update_same : (p : Job → Bool) (js : List Job) → update p (λ j. j) js ≡ js
update_same p [] = refl
update_same p (j ∷ js) = elim (Bool-cases (p j)) [
  | inl e ↦ rw e refl
  | inr e ↦ rw e (ap (λ k. j ∷ k) (update_same p js))
]

update_missing :
    (p : Job → Bool) (f : Job → Job) (js : List Job) → find p js ≡ none → update p f js ≡ js
update_missing p f [] h = refl
update_missing p f (j ∷ js) h = elim (Bool-cases (p j)) [
  | inl e ↦ absurd (cc (rw e at h))
  | inr e ↦ rw e (ap (λ k. j ∷ k) (update_missing p f js (rw e at h)))
]

-- A repository's write rewrites the record where there is one.
write_rewrites : (id : Text) (f : Job → Job) (s : Store) → (update_job id f s).1 ≡ rewritten id f s
write_rewrites id f s = elim (Option-cases (find_job id s)) [
  | inl e ↦
      rw (e, update_job)
        (ap (λ js. record s { jobs = js }) (sym (update_missing (has_id id) f s.jobs e)))
  | inr (j, e) ↦ rw (e, update_job) refl
]

-- A world with another store.
abbrev pub with_store : World → Store → World
with_store w s = record w { store = s }

settle_error-outcome :
    (v : Verdict) (job : Job) (cause : Text) (at : ℤ) (env : Env) (w : World)
    → settle_error v job cause at env w
      ≡ (ok tt, with_store w (rewritten job.id (after_error v job cause at) w.store))
unfolding settle_error Jobs.fail Jobs.retry
settle_error-outcome is_rescheduled job cause at env w =
    ap (λ js. (ok tt, with_store w (record w.store { jobs = js })))
      (sym (update_same (has_id job.id) w.store.jobs))
settle_error-outcome is_hopeless job cause at env w =
    ap (λ s. (ok tt, with_store w s))
      (write_rewrites job.id (after_error is_hopeless job cause at) w.store)
settle_error-outcome is_retryable job cause at env w =
    ap (λ s. (ok tt, with_store w s))
      (write_rewrites job.id (after_error is_retryable job cause at) w.store)

settle-outcome :
    (job : Job) (at : ℤ) (r : Result (Unit {0})) (env : Env) (w : World)
    → settle job at r env w
      ≡ (ok tt, with_store w (rewritten job.id (outcome env r job at) w.store))
unfolding settle Jobs.complete
settle-outcome job at (ok u) env w =
    ap (λ s. (ok tt, with_store w s)) (write_rewrites job.id (outcome env (ok u) job at) w.store)
settle-outcome job at (Result.failed e) env w =
    settle_error-outcome (verdict e) job (env.describe e) at env w

-- The world with one more reading of the clock.
abbrev pub ticked : World → World
ticked w = record w { calls = clock_now ∷ w.calls }

pub run-settles :
    (handler : Handler) (job : Job) (env : Env) (w : World)
    → let (r, w1) = handler job env (ticked w) in
      run handler job env w ≡ (
        ok tt,
        if ltb_ℤ job.max_attempts job.attempts
            then with_store (ticked w) (
                rewritten job.id
                  (after_error is_hopeless job (codes "max attempts exceeded") (env.clock w.calls))
                  w.store)
            else with_store
                (ticked w1)
                (rewritten job.id (outcome env r job (env.clock w1.calls)) w1.store),
      )
unfolding run run_handler now Jobs.fail
run-settles handler job env w = elim (Bool-cases (ltb_ℤ job.max_attempts job.attempts)) [
  | inl e ↦ rw e (
      ap (λ s. (ok tt, with_store (ticked w) s))
        (write_rewrites job.id
          (after_error is_hopeless job (codes "max attempts exceeded") (env.clock w.calls))
          w.store))
  | inr e ↦
      let h = handler job env (ticked w) in
      rw e (settle-outcome job (env.clock h.1.calls) h.0 env (ticked h.1))
]
