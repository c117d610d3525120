-- ===== src/Scheduler.antt =====
-- internal/manager/scheduler: the handlers of the jobs, and the worker that claims and settles them.
-- The worker takes its Handler as an argument, as the source's interface; an arbitrary one also
-- covers the heartbeats that keepLease interleaves with the handler's own steps.
pub mod Settled
pub mod Attempts
pub mod Pool
mod Tests
use aso_bell.Common.{
  ℕ, zero, suc, ◌*◌, Bool, true, false, not, ◌||◌, List, [], ◌∷◌, Option, none, some, if◌then◌else◌,
}
use aso_bell.Common.Int.{ℤ, pos, pos_part, ◌+ℤ◌, ltb_ℤ, leb_ℤ}
use aso_bell.Common.Text.{Text, codes}
use aso_bell.Domain.Errors.{Error, Result, ok}
use aso_bell.Domain.Event.{Event, EndReason, is_open, auto_end_at}
use aso_bell.Domain.Job.{Job, JobKind, second, minute, backoff}
use aso_bell.Domain.Participation.{Participation, is_peeker, is_active}
use aso_bell.Domain.Workspace.{Workspace}
use aso_bell.Store.Jobs
use aso_bell.Usecase.Effects.{
  M, Env, World, pure, fail_with, ◌>>=◌, ◌>>◌, ignore, attempt, writes, changes, now, describe,
  event, workspace, is_not_found,
}
use aso_bell.Usecase.Events.{close, archive}
use aso_bell.Usecase.Participation.{expire_peek}
use aso_bell.Usecase.Reminders.{send}

-- skipMissing
abbrev pub skip_missing {ℓ} : {A : Type ℓ} → Result A → M (Unit {0})
skip_missing (ok a) = pure tt
skip_missing (Result.failed e) = if is_not_found e then pure tt else fail_with e

-- (*Handlers).reschedule
unfoldable pub reschedule : Job → ℤ → M (Unit {0})
unfolding now
reschedule job run_at = do
  at ← now
  writes (Jobs.reschedule job.id run_at at)
  fail_with Error.rescheduled

-- (*Handlers).reminder
unfoldable pub handle_reminder : Job → M (Unit {0})
handle_reminder job = do
  r ← attempt (
      send record {
        event_id = job.payload.event_id;
        sequence = job.payload.sequence;
        scheduled_for = job.payload.scheduled_for;
      })
  skip_missing r

-- peekExpire behind its call.
after_expiry : Job → Result (Option Participation × Bool) → M (Unit {0})
after_expiry job (Result.failed e) = if is_not_found e then pure tt else fail_with e
after_expiry job (ok (none, expired)) = pure tt
after_expiry job (ok (some part, expired)) =
    if expired || not (is_peeker part.role) || not (is_active part.status)
    then pure tt
    else elim part.expires_at [ none ↦ pure tt | some at ↦ reschedule job at ]

-- (*Handlers).peekExpire
unfoldable pub handle_peek_expire : Job → M (Unit {0})
unfolding after_expiry
handle_peek_expire job = do
  r ← attempt (expire_peek job.payload.participation_id)
  after_expiry job r

-- autoEnd behind its reads.
end_due : Job → Event → Workspace → M (Unit {0})
end_due job ev ws = do
  at ← now
  if ltb_ℤ at (auto_end_at ev ws.settings.auto_end_grace)
      then reschedule job (auto_end_at ev ws.settings.auto_end_grace)
      else do
        r ← attempt (
            close record {
              event_id = ev.id;
              reason = EndReason.auto;
              actor = record { chat_user_id = []; console = true };
            })
        skip_missing r

-- The two reads of autoEnd, whose missing results end it.
end_in : Job → Event → Result Workspace → M (Unit {0})
unfolding end_due
end_in job ev (ok ws) = end_due job ev ws
end_in job ev (Result.failed e) = if is_not_found e then pure tt else fail_with e

end_found : Job → Result Event → M (Unit {0})
unfolding end_in
end_found job (Result.failed e) = if is_not_found e then pure tt else fail_with e
end_found job (ok ev) =
    if not (is_open ev.status)
    then pure tt
    else do r ← attempt (workspace ev.workspace_id); end_in job ev r

-- (*Handlers).autoEnd
unfoldable pub handle_auto_end : Job → M (Unit {0})
unfolding end_found
handle_auto_end job = do r ← attempt (event job.payload.event_id); end_found job r

-- (*Handlers).archiveChannel
unfoldable pub handle_archive : Job → M (Unit {0})
handle_archive job = do r ← attempt (archive job.payload.event_id); skip_missing r

-- The switch of Handle.
handle_kind : JobKind → Job → M (Unit {0})
unfolding handle_reminder handle_peek_expire handle_auto_end handle_archive
handle_kind JobKind.reminder job = handle_reminder job
handle_kind JobKind.peek_expire job = handle_peek_expire job
handle_kind JobKind.event_auto_end job = handle_auto_end job
handle_kind JobKind.archive_channel job = handle_archive job
handle_kind (JobKind.unknown kind) job = fail_with Error.permanent

-- (*Handlers).Handle
unfoldable pub handle : Job → M (Unit {0})
unfolding handle_kind
handle job = handle_kind job.kind job

-- Config
pub record Config : Type 0 where
  pub poll_interval : ℤ
  pub batch_size : ℤ
  pub lease : ℤ
  pub workers : ℤ

abbrev or_default : ℤ → ℤ → ℤ
or_default v d = if leb_ℤ v (pos 0) then d else v

-- withDefaults, with the Default constants.
unfoldable pub with_defaults : Config → Config
with_defaults c = record {
  poll_interval = or_default c.poll_interval (pos (10 * second));
  batch_size = or_default c.batch_size (pos 10);
  lease = or_default c.lease (pos (2 * minute));
  workers = or_default c.workers (pos 4);
}

-- The Handler interface.
abbrev pub Handler : Type 0
Handler = Job → M (Unit {0})

-- (*Worker).complete
abbrev pub complete : Job → ℤ → M (Unit {0})
complete job at = ignore (writes (Jobs.complete job.id at))

-- (*Worker).fail
abbrev pub fail : Job → Text → ℤ → M (Unit {0})
fail job reason at = ignore (writes (Jobs.fail job.id reason at))

-- (*Worker).retry
abbrev pub retry : Job → Text → ℤ → M (Unit {0})
retry job cause at = ignore (writes (Jobs.retry job.id (at +ℤ pos (backoff job.attempts)) cause at))

-- What run does with an error: ErrRescheduled, ErrPermanent or a ValidationError, and any other.
pub data Verdict : Type 0 where
  is_rescheduled is_hopeless is_retryable : Verdict

-- The conditions of run's switch, isValidation among them.
abbrev pub verdict : Error → Verdict
verdict Error.rescheduled = is_rescheduled
verdict Error.permanent = is_hopeless
verdict (Error.validation fields) = is_hopeless
verdict _ = is_retryable

-- The cases of run's switch.
settle_error : Verdict → Job → Text → ℤ → M (Unit {0})
settle_error is_rescheduled job cause at = pure tt
settle_error is_hopeless job cause at = fail job cause at
settle_error is_retryable job cause at = retry job cause at

settle : Job → ℤ → Result (Unit {0}) → M (Unit {0})
unfolding settle_error
settle job at (ok u) = complete job at
settle job at (Result.failed e) = do cause ← describe e; settle_error (verdict e) job cause at

-- The handler's call in run, and what follows it.
run_handler : Handler → Job → M (Unit {0})
unfolding settle
run_handler handler job = do r ← attempt (handler job); at ← now; settle job at r

-- (*Worker).run
unfoldable pub run : Handler → Job → M (Unit {0})
unfolding run_handler
run handler job = do
  started ← now
  if ltb_ℤ job.max_attempts job.attempts
      then fail job (codes "max attempts exceeded") started
      else run_handler handler job

-- One tick of keepLease: the error ends the ticks.
unfoldable pub heartbeat : Config → Job → M (Unit {0})
heartbeat c job = do at ← now; writes (Jobs.extend_lease job.id (at +ℤ c.lease) at)

-- One Claim of the worker.
unfoldable pub claim : Config → M Job
claim c = do at ← now; changes (Jobs.claim at c.lease)

-- RunOnce, with the rounds of its loop: the number of jobs it has run.
run_rounds : Handler → Config → ℕ → M ℕ
unfolding claim run
run_rounds handler c zero = pure 0
run_rounds handler c (suc rounds) = do
  r ← attempt (claim c)
  elim r [
    | Result.failed e ↦ pure 0
    | ok job ↦ do run handler job; done ← run_rounds handler c rounds; pure (suc done)
  ]

-- (*Worker).RunOnce
unfoldable pub run_once : Handler → Config → M ℕ
unfolding run_rounds
run_once handler c = run_rounds handler c (pos_part c.batch_size)
