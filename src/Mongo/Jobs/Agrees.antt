-- ===== src/Mongo/Jobs/Agrees.antt =====
-- jobs.go beside jobsRepo of memstore.go: filters, updates and methods.
use aso_bell.Common.{
  ◌≡◌, Bool, false, not, ◌&&◌, ◌||◌, List, [], ◌∷◌, Option, none, some, if◌then◌else◌,
}
use aso_bell.Common.Int.{ℤ, pos, ◌-ℤ◌, ltb_ℤ}
use aso_bell.Common.Text.{Text, codes, text_eq}
use aso_bell.Domain.Errors.{Error}
use aso_bell.Domain.Job.{Job, JobStatus}
use aso_bell.Store.State.{Store}
use aso_bell.Store.Jobs.{status_eq, complete, retry, fail, reschedule}
use aso_bell.Mongo.Upsert.{Value, null, job_status, text, instant, number, Fields}
use aso_bell.Mongo.Upsert.Lawful.{sum}
use aso_bell.Mongo.Jobs.{
  Filter, is, at_most, both, either, Change, set, inc, Collection, complete_update, retry_update,
  fail_update, reschedule_update,
}

abbrev pub is_status : {O : Type 0} → Value O → JobStatus → Bool
is_status (job_status r) s = status_eq r s
is_status _ s = false

abbrev pub not_after : {O : Type 0} → Value O → ℤ → Bool
not_after (instant u) t = not (ltb_ℤ t u)
not_after _ t = false

-- The value of a field behind a list of changes.
unfoldable pub changed : {O : Type 0} → Text → List (Change O) → Value O → Value O
changed name [] v = v
changed name (set key u ∷ rest) v = changed name rest (if text_eq name key then u else v)
changed name (inc key n ∷ rest) v =
    changed name rest (if text_eq name key then sum v (number n) else v)

-- What the server's documentation says of the filters and the updates.
pub record IsCollection {O : Type 0} (c : Collection O) : Type 0 where
  pub of_is :
      (d : Fields O) (f : Text) (s : JobStatus)
      → c.matches d (is f (job_status s)) ≡ is_status (d f) s
  pub of_at_most : (d : Fields O) (f : Text) (t : ℤ) → c.matches d (at_most f t) ≡ not_after (d f) t
  pub of_both :
      (d : Fields O) (a b : Filter O) → c.matches d (both a b) ≡ (c.matches d a && c.matches d b)
  pub of_either :
      (d : Fields O) (a b : Filter O) → c.matches d (either a b) ≡ (c.matches d a || c.matches d b)
  pub of_update :
      (d : Fields O) (changes : List (Change O)) (name : Text)
      → c.update d changes name ≡ changed name changes (d name)

abbrev pub optional : {O : Type 0} → (ℤ → ℤ) → Option ℤ → Value O
optional date none = null
optional date (some t) = instant (date t)

-- The fields that the queue reads and writes, with the instants as the driver writes them.
pub record ShowsJob {O : Type 0} (date : ℤ → ℤ) (d : Fields O) (job : Job) : Type 0 where
  pub status : d (codes "status") ≡ job_status job.status
  pub run_at : d (codes "runAt") ≡ instant (date job.run_at)
  pub attempts : d (codes "attempts") ≡ number job.attempts
  pub lease_until : d (codes "leaseUntil") ≡ optional date job.lease_until
  pub last_error : d (codes "lastError") ≡ text job.last_error
  pub updated_at : d (codes "updatedAt") ≡ instant (date job.updated_at)
  pub finished_at : d (codes "finishedAt") ≡ optional date job.finished_at
  pub dedupe_key : d (codes "dedupeKey") ≡ text job.dedupe_key

-- A method that ends a run of a job.
pub data JobWrite : Type 0 where
  completes : ℤ → JobWrite
  retries : ℤ → Text → ℤ → JobWrite
  fails : Text → ℤ → JobWrite
  reschedules : ℤ → ℤ → JobWrite

abbrev pub method : JobWrite → Text → Store → Option Error × Store
method (completes now) id = complete id now
method (retries run_at e now) id = retry id run_at e now
method (fails e now) id = fail id e now
method (reschedules run_at now) id = reschedule id run_at now

abbrev pub update_of : {O : Type 0} → (ℤ → ℤ) → JobWrite → List (Change O)
update_of date (completes now) = complete_update date now
update_of date (retries run_at e now) = retry_update date run_at e now
update_of date (fails e now) = fail_update date e now
update_of date (reschedules run_at now) = reschedule_update date run_at now

-- What a method writes to its job.
abbrev pub written : JobWrite → Job → Job
written (completes now) job = record job {
  status = JobStatus.done;
  finished_at = some now;
  lease_until = none;
  updated_at = now;
}
written (retries run_at e now) job = record job {
  status = JobStatus.pending;
  run_at = run_at;
  last_error = e;
  lease_until = none;
  updated_at = now;
}
written (fails e now) job = record job {
  status = JobStatus.failed;
  finished_at = some now;
  last_error = e;
  lease_until = none;
  updated_at = now;
}
written (reschedules run_at now) job = record job {
  status = JobStatus.pending;
  run_at = run_at;
  lease_until = none;
  updated_at = now;
  attempts = job.attempts -ℤ pos 1;
}

-- The changes turn the fields of one job into those of another.
abbrev Turns : {O : Type 0} → (ℤ → ℤ) → List (Change O) → Job → Job → Type 0
Turns date changes job job' =
    (changed (codes "status") changes (job_status job.status) ≡ job_status job'.status)
    × (changed (codes "runAt") changes (instant (date job.run_at)) ≡ instant (date job'.run_at))
    × (changed (codes "attempts") changes (number job.attempts) ≡ number job'.attempts)
    × (changed (codes "leaseUntil") changes (optional date job.lease_until)
        ≡ optional date job'.lease_until)
    × (changed (codes "lastError") changes (text job.last_error) ≡ text job'.last_error)
    × (changed (codes "updatedAt") changes (instant (date job.updated_at))
        ≡ instant (date job'.updated_at))
    × (changed (codes "finishedAt") changes (optional date job.finished_at)
        ≡ optional date job'.finished_at)
    × (changed (codes "dedupeKey") changes (text job.dedupe_key) ≡ text job'.dedupe_key)

abbrev dated : (ℤ → ℤ) → Option ℤ → Option ℤ
dated date none = none
dated date (some t) = some (date t)

-- The job with the instants that decide on a claim as the driver writes them.
abbrev pub as_stored : (ℤ → ℤ) → Job → Job
as_stored date job = record job {
  run_at = date job.run_at;
  lease_until = dated date job.lease_until;
}
