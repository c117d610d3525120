-- ===== src/Domain/Job.antt =====
-- internal/manager/domain/job.go. Durations are in nanoseconds.
pub mod Backoff
use aso_bell.Common.{
  ℕ, zero, suc, ◌+◌, ◌-◌, ◌*◌, ◌/◌, ◌%◌, Bool, List, [], ◌∷◌, ◌++◌, Option, none, ltb, leb,
  if◌then◌else◌,
}
use aso_bell.Common.Int.{ℤ, pos, negsuc, leb_ℤ, pos_part, ◌-ℤ◌, max_ℤ}
use aso_bell.Common.Text.{Text, codes}

pub data JobKind : Type 0 where
  reminder peek_expire event_auto_end archive_channel : JobKind
  unknown : Text → JobKind

pub data JobStatus : Type 0 where
  pending running done failed canceled : JobStatus

abbrev pub second : ℕ
second = 1_000_000_000

abbrev pub minute : ℕ
minute = 60 * second

abbrev pub hour : ℕ
hour = 60 * minute

abbrev pub default_max_attempts : ℤ
default_max_attempts = pos 5

abbrev pub base_backoff : ℕ
base_backoff = 30 * second

abbrev pub max_backoff : ℕ
max_backoff = 30 * minute

pub record JobPayload : Type 0 where
  pub event_id : Text
  pub participation_id : Text
  pub sequence : ℤ
  pub scheduled_for : ℤ

pub record Job : Type 0 where
  pub id : Text
  pub kind : JobKind
  pub run_at : ℤ
  pub dedupe_key : Text
  pub event_id : Text
  pub payload : JobPayload
  pub status : JobStatus
  pub attempts : ℤ
  pub max_attempts : ℤ
  pub lease_until : Option ℤ
  pub last_error : Text
  pub created_at : ℤ
  pub updated_at : ℤ
  pub finished_at : Option ℤ

-- %d: the digits of a number on fuel; n + 1 rounds are enough.
unfoldable pub digits_on : ℕ → ℕ → Text
digits_on zero n = []
digits_on (suc f) n =
    let rest = digits_on f (n / 10) in
    if ltb n 10 then (b'0' + n) ∷ [] else rest ++ (b'0' + n % 10) ∷ []

unfoldable pub decimal : ℤ → Text
unfolding digits_on
decimal (pos n) = digits_on (suc n) n
decimal (negsuc n) = b'-' ∷ digits_on (suc (suc n)) (suc n)

-- newJob
new_job : JobKind → Text → ℤ → Text → JobPayload → Job
new_job kind event_id run_at dedupe_key payload = record {
  id = [];
  kind = kind;
  run_at = run_at;
  dedupe_key = dedupe_key;
  event_id = event_id;
  payload = payload;
  status = pending;
  attempts = pos 0;
  max_attempts = default_max_attempts;
  lease_until = none;
  last_error = [];
  created_at = pos 0;
  updated_at = pos 0;
  finished_at = none;
}

unfoldable pub reminder_key : Text → ℤ → Text
unfolding decimal
reminder_key event_id sequence = codes "reminder:" ++ event_id ++ b':' ∷ decimal sequence

unfoldable pub new_reminder_job : Text → ℤ → ℤ → Job
unfolding new_job
new_reminder_job event_id sequence run_at =
    new_job reminder event_id run_at (reminder_key event_id sequence) record {
      event_id = event_id;
      participation_id = [];
      sequence = sequence;
      scheduled_for = run_at;
    }

unfoldable pub peek_key : Text → ℤ → Text
unfolding decimal
peek_key participation_id peek_count =
    codes "peek:" ++ participation_id ++ b':' ∷ decimal peek_count

unfoldable pub new_peek_expire_job : Text → Text → ℤ → ℤ → Job
unfolding new_job
new_peek_expire_job event_id participation_id peek_count run_at =
    new_job peek_expire event_id run_at (peek_key participation_id peek_count) record {
      event_id = event_id;
      participation_id = participation_id;
      sequence = pos 0;
      scheduled_for = pos 0;
    }

unfoldable pub new_auto_end_job : Text → ℤ → Job
unfolding new_job
new_auto_end_job event_id run_at =
    new_job event_auto_end event_id run_at (codes "auto_end:" ++ event_id)
      record { event_id = event_id; participation_id = []; sequence = pos 0; scheduled_for = pos 0 }

unfoldable pub new_archive_channel_job : Text → ℤ → Job
unfolding new_job
new_archive_channel_job event_id run_at =
    new_job archive_channel event_id run_at (codes "archive:" ++ event_id)
      record { event_id = event_id; participation_id = []; sequence = pos 0; scheduled_for = pos 0 }

-- The loop of Backoff: `d` after the rounds left, or the cap as soon as it is reached.
backoff_loop : ℕ → ℕ → ℕ
backoff_loop zero d = d
backoff_loop (suc rounds) d =
    let rest = backoff_loop rounds (d * 2) in if leb max_backoff (d * 2) then max_backoff else rest

-- Backoff
unfoldable pub backoff : ℤ → ℕ
unfolding backoff_loop
backoff attempts = backoff_loop (pos_part (max_ℤ (attempts -ℤ pos 1) (pos 0))) base_backoff

-- (*Job).Exhausted
unfoldable pub exhausted : Job → Bool
exhausted j = leb_ℤ j.max_attempts j.attempts
