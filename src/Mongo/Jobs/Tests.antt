-- ===== src/Mongo/Jobs/Tests.antt =====
-- A run of the theorem on the queue at a concrete job.
use aso_bell.Common.{ℕ, ◌/◌, Bool, false, ◌&&◌, ◌||◌, [], if◌then◌else◌}
use aso_bell.Common.Int.{ℤ, pos, negsuc}
use aso_bell.Common.Text.{codes, text_eq}
use aso_bell.Domain.Job.{Job, JobStatus, new_auto_end_job}
use aso_bell.Store.Jobs.{queued}
use aso_bell.Mongo.Upsert.{Value, null, job_status, text, instant, number, Fields}
use aso_bell.Mongo.Jobs.{Filter, is, at_most, both, either, Collection}
use aso_bell.Mongo.Jobs.Agrees.{is_status, not_after, changed}

abbrev accepted : Value ℕ → Value ℕ → Bool
accepted v (job_status s) = is_status v s
accepted v _ = false

matching : Fields ℕ → Filter ℕ → Bool
matching d (is f v) = accepted (d f) v
matching d (at_most f t) = not_after (d f) t
matching d (both a b) = matching d a && matching d b
matching d (either a b) = matching d a || matching d b

abbrev collection : Collection ℕ
collection = record { matches = matching; update = λ d changes name. changed name changes (d name) }

-- Milliseconds of a count of nanoseconds, rounded down.
abbrev millis : ℤ → ℤ
millis (pos n) = pos (n / 1_000_000)
millis (negsuc n) = negsuc (n / 1_000_000)

-- The end of an event is due at 20.5 ms.
abbrev ending : Job
ending = queued (new_auto_end_job (codes "event") (pos 20_500_000)) 1 (pos 5_500_000)

abbrev ending_doc : Fields ℕ
ending_doc name =
    if text_eq name (codes "status")
    then job_status JobStatus.pending
    else if text_eq name (codes "runAt")
    then instant (millis (pos 20_500_000))
    else if text_eq name (codes "attempts")
    then number (pos 0)
    else if text_eq name (codes "lastError")
    then text []
    else if text_eq name (codes "updatedAt")
    then instant (millis (pos 5_500_000))
    else if text_eq name (codes "dedupeKey")
    then text ending.dedupe_key
    else null
