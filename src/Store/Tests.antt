-- ===== src/Store/Tests.antt =====
-- Runs of the theorems of memstore.go at concrete inputs.
use aso_bell.Common.{◌≡◌, ◌≢◌, refl, true, List, [], ◌∷◌, none}
use aso_bell.Common.Int.{pos, ◌+ℤ◌, ◌<ℤ◌, int_laws}
use aso_bell.Common.Lists.{All}
use aso_bell.Common.Text.{codes, text_eq}
use aso_bell.Domain.Errors.{Error, Result, ok}
use aso_bell.Domain.Job.{Job, JobKind, new_auto_end_job, new_reminder_job, reminder_key}
use aso_bell.Domain.Participation.{Role, Status}
use aso_bell.Domain.Account.{LinkToken, OauthState}
use aso_bell.Store.State.{Store, new, hex_id}
use aso_bell.Store.Jobs.{claim, claimable, enqueue, extend_lease, complete, cancel_by_event}
use aso_bell.Store.Jobs.Queue.{IsQueue}
use aso_bell.Store.Jobs.Kept.{
  JobOp, op_enqueue, op_complete, op_cancel, op_extend, perform_all, perform_all-IsQueue,
}
use aso_bell.Store.Jobs.Claim.{Claimed, claim-Claimed}
use aso_bell.Store.Jobs.Leases.{respects}
use aso_bell.Store.Jobs.Exclusion.{claim-excludes}
use aso_bell.Store.Participations.{ParticipationUpsert}
use aso_bell.Store.Participations.Unique
use aso_bell.Store.Participations.Unique.{
  IsRoster, RosterOp, op_upsert, op_set_status, op_others, reachable-IsRoster,
}
use aso_bell.Store.Tokens.{consume, create_token}
use aso_bell.Store.Accounts.{consume_state}
use aso_bell.Store.Accounts.Linked.{consume_state-once}
use aso_bell.Store.Tokens.Once.{ConsumedOnce, consume-ConsumedOnce}

-- Two jobs due at 10 and at 20.
abbrev auto_end : Job
auto_end = new_auto_end_job (codes "event") (pos 20)

abbrev first_reminder : Job
first_reminder = new_reminder_job (codes "event") (pos 0) (pos 10)

abbrev two_jobs_ops : List JobOp
two_jobs_ops = op_enqueue auto_end (pos 1) ∷ op_enqueue first_reminder (pos 2) ∷ []

abbrev two_jobs : Store
two_jobs = perform_all two_jobs_ops new

two_jobs-IsQueue : IsQueue two_jobs
two_jobs-IsQueue = perform_all-IsQueue two_jobs_ops

-- The job of a claim that has one.
abbrev job_of : Result Job → Job
job_of (ok j) = j
job_of (Result.failed e) = auto_end

abbrev first_claim : Result Job × Store
first_claim = claim (pos 30) (pos 60) two_jobs

-- Others cancel, complete another job and enqueue; the lease is extended.
abbrev meanwhile : List JobOp
meanwhile =
    op_complete (codes "other") (pos 31)
    ∷ op_extend (job_of first_claim.0).id (pos 200) (pos 40)
    ∷ op_cancel (codes "another event") (JobKind.reminder ∷ []) (pos 41)
    ∷ []

abbrev second_claim : Result Job × Store
second_claim = claim (pos 50) (pos 60) (perform_all meanwhile first_claim.1)

first_claims : claim (pos 30) (pos 60) two_jobs ≡ (ok (job_of first_claim.0), first_claim.1)
unfolding claim enqueue new claimable new_reminder_job reminder_key text_eq new_auto_end_job
first_claims = refl

second_claims :
    claim (pos 50) (pos 60) (perform_all meanwhile first_claim.1)
    ≡ (ok (job_of second_claim.0), second_claim.1)
unfolding claim enqueue new claimable ◌+ℤ◌ cancel_by_event extend_lease complete new_reminder_job
    reminder_key text_eq new_auto_end_job hex_id
second_claims = refl

meanwhile-respects :
    All (λ op. respects (job_of first_claim.0).id (pos 30 +ℤ pos 60) op ≡ true) meanwhile
unfolding claim enqueue new claimable new_reminder_job reminder_key text_eq new_auto_end_job hex_id
    ◌+ℤ◌
meanwhile-respects = (refl, (refl, (refl, tt)))

claim-excludes_example : (job_of second_claim.0).id ≢ (job_of first_claim.0).id
claim-excludes_example =
    claim-excludes (pos 30) (pos 60) two_jobs (job_of first_claim.0) first_claim.1 meanwhile
      (pos 50) (pos 60) (job_of second_claim.0) second_claim.1 two_jobs-IsQueue first_claims
      meanwhile-respects (omega (int_laws)) second_claims

claim-Claimed_example : Claimed (pos 30) (pos 60) two_jobs first_claim
claim-Claimed_example = claim-Claimed (pos 30) (pos 60) two_jobs

perform_all-IsQueue_example : IsQueue (perform_all two_jobs_ops new)
perform_all-IsQueue_example = perform_all-IsQueue two_jobs_ops

abbrev joining : ParticipationUpsert
joining = record {
  event_id = codes "event";
  workspace_id = codes "workspace";
  chat_user_id = codes "U1";
  display_name = codes "Aki";
  role = Role.participant;
  expires_at = none;
  now = pos 5;
}

abbrev join_then_leave : List RosterOp
join_then_leave =
    op_upsert joining
    ∷ op_others 3
    ∷ op_set_status (hex_id 1) Status.left (pos 9)
    ∷ op_upsert joining
    ∷ []

reachable-IsRoster_example : IsRoster (Unique.perform_all join_then_leave new)
reachable-IsRoster_example = reachable-IsRoster join_then_leave

abbrev token : LinkToken
token = record {
  id = codes "hash";
  workspace_id = codes "workspace";
  chat_user_id = codes "U1";
  display_name = codes "Aki";
  expires_at = pos 100;
  consumed_at = none;
}

abbrev with_token : Store
with_token = (create_token token new).1

consume-ConsumedOnce_example :
    ConsumedOnce (codes "hash") (pos 50) with_token (consume (codes "hash") (pos 50) with_token)
consume-ConsumedOnce_example = consume-ConsumedOnce (codes "hash") (pos 50) with_token

abbrev login : OauthState
login = record {
  state = codes "s1";
  code_verifier = codes "v";
  redirect_to = codes "/";
  expires_at = pos 600;
}

abbrev awaiting : Store
awaiting = record new { oauth_states = login ∷ [] }

login_consumed : (consume_state (codes "s1") (pos 5) awaiting).0 ≡ ok login
unfolding consume_state text_eq
login_consumed = refl

consume_state-once_example :
    (pos 5 <ℤ login.expires_at)
    × (consume_state (codes "s1") (pos 6) (consume_state (codes "s1") (pos 5) awaiting).1
        ≡ (Result.failed Error.not_found, (consume_state (codes "s1") (pos 5) awaiting).1))
consume_state-once_example =
    consume_state-once (codes "s1") (pos 5) (pos 6) awaiting login login_consumed
