-- ===== src/Mongo/Jobs.antt =====
-- internal/manager/store/mongo/jobs.go: the filter and the updates of the queue, as the driver gets
-- them. The collection that carries them out is an argument, and so is `date`, by which the driver
-- writes a time.Time as a BSON datetime, a count of milliseconds.
pub mod Agrees
mod Tests
use aso_bell.Common.{Bool, List, [], ◌∷◌}
use aso_bell.Common.Int.{ℤ, pos, negsuc, ◌+ℤ◌}
use aso_bell.Common.Text.{Text, codes}
use aso_bell.Domain.Job.{JobStatus}
use aso_bell.Mongo.{utc}
use aso_bell.Mongo.Upsert.{Value, null, job_status, text, instant, Fields}

-- bson.M of a filter: `is f v` is {f: v}, `at_most f t` is {f: {$lte: t}}, `either` is $or.
pub data Filter (O : Type 0) : Type 0 where
  is : Text → Value O → Filter O
  at_most : Text → ℤ → Filter O
  both either : Filter O → Filter O → Filter O

-- A field of $set and a field of $inc.
pub data Change (O : Type 0) : Type 0 where
  set : Text → Value O → Change O
  inc : Text → ℤ → Change O

pub record Collection (O : Type 0) : Type 0 where
  pub matches : Fields O → Filter O → Bool
  pub update : Fields O → List (Change O) → Fields O

-- The filter of Claim.
unfoldable pub claim_filter : {O : Type 0} → (ℤ → ℤ) → ℤ → Filter O
claim_filter date now =
    either
      (both (is (codes "status") (job_status JobStatus.pending))
        (at_most (codes "runAt") (date (utc now))))
      (both (is (codes "status") (job_status JobStatus.running))
        (at_most (codes "leaseUntil") (date (utc now))))

-- The update of Claim.
unfoldable pub claim_update : {O : Type 0} → (ℤ → ℤ) → ℤ → ℤ → List (Change O)
claim_update date now lease =
    set (codes "status") (job_status JobStatus.running)
    ∷ set (codes "leaseUntil") (instant (date (utc now +ℤ lease)))
    ∷ set (codes "updatedAt") (instant (date (utc now)))
    ∷ inc (codes "attempts") (pos 1)
    ∷ []

-- The update of Complete.
unfoldable pub complete_update : {O : Type 0} → (ℤ → ℤ) → ℤ → List (Change O)
complete_update date now =
    set (codes "status") (job_status JobStatus.done)
    ∷ set (codes "finishedAt") (instant (date (utc now)))
    ∷ set (codes "leaseUntil") null
    ∷ set (codes "updatedAt") (instant (date (utc now)))
    ∷ []

-- The update of Retry.
unfoldable pub retry_update : {O : Type 0} → (ℤ → ℤ) → ℤ → Text → ℤ → List (Change O)
retry_update date run_at last_err now =
    set (codes "status") (job_status JobStatus.pending)
    ∷ set (codes "runAt") (instant (date (utc run_at)))
    ∷ set (codes "lastError") (text last_err)
    ∷ set (codes "leaseUntil") null
    ∷ set (codes "updatedAt") (instant (date (utc now)))
    ∷ []

-- The update of Fail.
unfoldable pub fail_update : {O : Type 0} → (ℤ → ℤ) → Text → ℤ → List (Change O)
fail_update date last_err now =
    set (codes "status") (job_status JobStatus.failed)
    ∷ set (codes "finishedAt") (instant (date (utc now)))
    ∷ set (codes "lastError") (text last_err)
    ∷ set (codes "leaseUntil") null
    ∷ set (codes "updatedAt") (instant (date (utc now)))
    ∷ []

-- The update of Reschedule.
unfoldable pub reschedule_update : {O : Type 0} → (ℤ → ℤ) → ℤ → ℤ → List (Change O)
reschedule_update date run_at now =
    set (codes "status") (job_status JobStatus.pending)
    ∷ set (codes "runAt") (instant (date (utc run_at)))
    ∷ set (codes "leaseUntil") null
    ∷ set (codes "updatedAt") (instant (date (utc now)))
    ∷ inc (codes "attempts") (negsuc 0)
    ∷ []
