-- ===== src/Store/Jobs.antt =====
-- memstore.go, jobsRepo: the persistent job queue.
use aso_bell.Common.{
  ℕ, zero, suc, Bool, true, false, not, ◌&&◌, ◌||◌, List, [], ◌∷◌, ◌++◌, Option, none, some, map,
  if◌then◌else◌,
}
use aso_bell.Common.Int.{ℤ, pos, ◌+ℤ◌, ◌-ℤ◌, ltb_ℤ, leb_ℤ}
use aso_bell.Common.Lists.{is_empty, any, find, update, keep, count}
use aso_bell.Common.Text.{Text, text_eq}
use aso_bell.Domain.Errors.{Error, Result, ok}
use aso_bell.Domain.Job.{Job, JobKind, JobStatus, default_max_attempts}
use aso_bell.Domain.Job
use aso_bell.Store.State.{Store, next_seq, hex_id}
pub mod Queue
pub mod Kept
pub mod Claim
pub mod Leases
pub mod Exclusion

-- job.Status == JobPending, and the other comparisons of a status.
abbrev pub status_eq : JobStatus → JobStatus → Bool
status_eq JobStatus.pending JobStatus.pending = true
status_eq JobStatus.running JobStatus.running = true
status_eq JobStatus.done JobStatus.done = true
status_eq JobStatus.failed JobStatus.failed = true
status_eq JobStatus.canceled JobStatus.canceled = true
status_eq _ _ = false

unfoldable pub kind_eq : JobKind → JobKind → Bool
kind_eq JobKind.reminder JobKind.reminder = true
kind_eq JobKind.peek_expire JobKind.peek_expire = true
kind_eq JobKind.event_auto_end JobKind.event_auto_end = true
kind_eq JobKind.archive_channel JobKind.archive_channel = true
kind_eq (JobKind.unknown s) (JobKind.unknown t) = text_eq s t
kind_eq _ _ = false

-- The test of Enqueue's loop, with the guard in front of it.
abbrev pub clashes : Job → Job → Bool
clashes job existing = not (is_empty job.dedupe_key) && text_eq existing.dedupe_key job.dedupe_key

-- The job that Enqueue stores.
unfoldable pub queued : Job → ℕ → ℤ → Job
queued job n now = record job {
  id = hex_id n;
  status = JobStatus.pending;
  attempts = pos 0;
  lease_until = none;
  last_error = [];
  created_at = now;
  updated_at = now;
  max_attempts = if leb_ℤ job.max_attempts (pos 0) then default_max_attempts else job.max_attempts;
}

-- Enqueue
unfoldable pub enqueue : Job → ℤ → Store → Result Job × Store
unfolding queued
enqueue job now s =
    if any (clashes job) s.jobs
    then (Result.failed Error.already_exists, s)
    else (let created = queued job (next_seq s) now in
        (ok created, record s { seq = next_seq s; jobs = s.jobs ++ created ∷ [] }))

abbrev pub has_id : Text → Job → Bool
has_id id job = text_eq job.id id

-- findJob
abbrev pub find_job : Text → Store → Option Job
find_job id s = find (has_id id) s.jobs

-- Get
unfoldable pub get : Text → Store → Result Job
get id s = elim (find_job id s) [ none ↦ Result.failed Error.not_found | some job ↦ ok job ]

-- claimable
unfoldable pub claimable : ℤ → Job → Bool
claimable at job = elim job.status [
  | JobStatus.pending ↦ not (ltb_ℤ at job.run_at)
  | JobStatus.running ↦ elim job.lease_until [ none ↦ false | some until ↦ not (ltb_ℤ at until) ]
  | _ ↦ false
]

-- The body of Claim's loop; a pointer into the slice is an index with what it points at.
pick : ℤ → ℕ → Option (ℕ × Job) → Job → Option (ℕ × Job)
unfolding claimable
pick at i target job = if not (claimable at job) then target else elim target [
  | none ↦ some (i, job)
  | some (k, best) ↦ if ltb_ℤ job.run_at best.run_at then some (i, job) else some (k, best)
]

-- Claim's loop, from index i on.
find_target : ℤ → ℕ → Option (ℕ × Job) → List Job → Option (ℕ × Job)
unfolding pick
find_target at i target [] = target
find_target at i target (job ∷ jobs) = find_target at (suc i) (pick at i target job) jobs

-- What Claim writes through the pointer.
unfoldable pub claimed : ℤ → ℤ → Job → Job
claimed at lease job = record job {
  status = JobStatus.running;
  lease_until = some (at +ℤ lease);
  attempts = job.attempts +ℤ pos 1;
  updated_at = at;
}

-- A write through the pointer with index i.
abbrev pub modify_at : (Job → Job) → ℕ → List Job → List Job
modify_at f i [] = []
modify_at f zero (job ∷ jobs) = f job ∷ jobs
modify_at f (suc i) (job ∷ jobs) = job ∷ modify_at f i jobs

-- Claim
unfoldable pub claim : ℤ → ℤ → Store → Result Job × Store
unfolding find_target claimed
claim at lease s = elim (find_target at 0 none s.jobs) [
  | none ↦ (Result.failed Error.not_found, s)
  | some (i, job) ↦
      (ok (claimed at lease job), record s { jobs = modify_at (claimed at lease) i s.jobs })
]

-- updateJob: `none` is a nil error.
abbrev pub update_job : Text → (Job → Job) → Store → Option Error × Store
update_job id f s = elim (find_job id s) [
  | none ↦ (some Error.not_found, s)
  | some job ↦ (none, record s { jobs = update (has_id id) f s.jobs })
]

-- Complete
unfoldable pub complete : Text → ℤ → Store → Option Error × Store
complete id now = update_job id λ job. record job {
  status = JobStatus.done;
  finished_at = some now;
  lease_until = none;
  updated_at = now;
}

-- Retry
unfoldable pub retry : Text → ℤ → Text → ℤ → Store → Option Error × Store
retry id run_at last_err now = update_job id λ job. record job {
  status = JobStatus.pending;
  run_at = run_at;
  last_error = last_err;
  lease_until = none;
  updated_at = now;
}

-- Fail
unfoldable pub fail : Text → Text → ℤ → Store → Option Error × Store
fail id last_err now = update_job id λ job. record job {
  status = JobStatus.failed;
  finished_at = some now;
  last_error = last_err;
  lease_until = none;
  updated_at = now;
}

-- Reschedule
unfoldable pub reschedule : Text → ℤ → ℤ → Store → Option Error × Store
reschedule id run_at now = update_job id λ job. record job {
  status = JobStatus.pending;
  run_at = run_at;
  lease_until = none;
  updated_at = now;
  attempts = job.attempts -ℤ pos 1;
}

-- ExtendLease
unfoldable pub extend_lease : Text → ℤ → ℤ → Store → Option Error × Store
extend_lease id until now s = elim (find_job id s) [
  | none ↦ (some Error.not_found, s)
  | some job ↦ if not (status_eq job.status JobStatus.running) then (some Error.not_found, s) else (
    none,
    record s {
      jobs =
          update (has_id id) (λ j. record j { lease_until = some until; updated_at = now }) s.jobs;
    },
  )
]

-- The two guards of CancelByEvent's loop.
abbrev pub to_cancel : Text → List JobKind → Job → Bool
to_cancel event_id kinds job =
    text_eq job.event_id event_id
    && status_eq job.status JobStatus.pending
    && (is_empty kinds || any (kind_eq job.kind) kinds)

abbrev pub canceled_at : ℤ → Job → Job
canceled_at at job = record job {
  status = JobStatus.canceled;
  finished_at = some at;
  updated_at = at;
}

abbrev pub cancel_one : Text → List JobKind → ℤ → Job → Job
cancel_one event_id kinds at job = if to_cancel event_id kinds job then canceled_at at job else job

-- CancelByEvent
unfoldable pub cancel_by_event : Text → List JobKind → ℤ → Store → ℕ × Store
cancel_by_event event_id kinds at s = (
  count (to_cancel event_id kinds) s.jobs,
  record s { jobs = map (cancel_one event_id kinds at) s.jobs },
)

abbrev pub listed : Text → List JobStatus → Job → Bool
listed event_id statuses job =
    text_eq job.event_id event_id && (is_empty statuses || any (status_eq job.status) statuses)

-- slices.SortFunc by RunAt.
unfoldable pub insert_job : Job → List Job → List Job
insert_job job [] = job ∷ []
insert_job job (k ∷ ks) = if leb_ℤ job.run_at k.run_at then job ∷ k ∷ ks else k ∷ insert_job job ks

unfoldable pub sort_jobs : List Job → List Job
unfolding insert_job
sort_jobs [] = []
sort_jobs (job ∷ jobs) = insert_job job (sort_jobs jobs)

-- ListByEvent
unfoldable pub list_by_event : Text → List JobStatus → Store → List Job
unfolding sort_jobs
list_by_event event_id statuses s = sort_jobs (keep (listed event_id statuses) s.jobs)
