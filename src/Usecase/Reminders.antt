-- ===== src/Usecase/Reminders.antt =====
-- usecase/reminder.go: scheduling the reminders of an event, and sending one.
pub mod Once
pub mod Fresh
pub mod Pending
use aso_bell.Common.{
  Bool, true, false, not, List, [], ◌∷◌, ◌++◌, Option, none, some, map, if◌then◌else◌,
}
use aso_bell.Common.Int.{ℤ, pos, ◌+ℤ◌, eq_ℤ, max_ℤ, ltb_ℤ}
use aso_bell.Common.Lists.{is_empty, keep}
use aso_bell.Common.Text.{Text, codes}
use aso_bell.Domain.Errors.{Error, Result, ok}
use aso_bell.Domain.Event.{Event, is_open}
use aso_bell.Domain.Job.{Job, JobKind, new_reminder_job}
use aso_bell.Domain.Participation.{Participation, Status, is_participant}
use aso_bell.Domain.Reminder.{ReminderPolicy, Scheduled, times, rejected, unfinished, schedule}
use aso_bell.Domain.TimeOfDay.{Zone}
use aso_bell.Domain.Workspace.{Workspace, WorkspaceSettings}
use aso_bell.Store.State.{ReminderLog, ReminderTarget, ReminderTargetKind}
use aso_bell.Store.Jobs
use aso_bell.Store.Logs
use aso_bell.Store.Participations
use aso_bell.Usecase.Effects.{
  Reply, Message, reminder, recruit_reminder, post_message, M, pure, fail_with, ◌>>=◌, ◌>>◌,
  attempt, reads, updates, now, call, workspace, event, enqueue, describe, load_location,
  workspace_ref_of,
}

-- The maximum of nextReminderSequence's loop.
abbrev pub highest : ℤ → List Job → ℤ
highest n [] = n
highest n (job ∷ jobs) =
    if Jobs.kind_eq job.kind JobKind.reminder
    then highest (max_ℤ n job.payload.sequence) jobs
    else highest n jobs

-- nextReminderSequence
unfoldable pub next_reminder_sequence : Text → M ℤ
next_reminder_sequence event_id = do
  jobs ← reads (λ s. ok (Jobs.list_by_event event_id [] s))
  pure (highest (pos 0) jobs +ℤ pos 1)

-- The loop of scheduleReminders.
enqueue_times : Text → ℤ → List ℤ → M (Unit {0})
enqueue_times event_id sequence [] = pure tt
enqueue_times event_id sequence (at ∷ ats) = do
  sent ← reads (λ s. ok (Logs.sent_at event_id at s))
  if sent then enqueue_times event_id sequence ats else do
    enqueue (new_reminder_job event_id sequence at)
    enqueue_times event_id (sequence +ℤ pos 1) ats

-- The result of Schedule. Under a valid policy it is not unfinished.
unfoldable pub planned : Scheduled → M (List ℤ)
planned (times ts) = pure ts
planned (rejected e) = fail_with e
planned unfinished = fail_with (Error.other (codes "unfinished"))

-- scheduleReminders behind its early return.
unfoldable pub schedule_open : Workspace → Event → ℤ → M (Unit {0})
unfolding planned enqueue_times
schedule_open ws ev at = do
  loc ← load_location ws.settings.timezone
  ts ← planned (schedule ev.reminder_policy at ev.starts_at loc)
  sequence ← next_reminder_sequence ev.id
  enqueue_times ev.id sequence ts

-- scheduleReminders
unfoldable pub schedule_reminders : Workspace → Event → M (Unit {0})
unfolding schedule_open
schedule_reminders ws ev = do
  at ← now
  n ← updates (Jobs.cancel_by_event ev.id (JobKind.reminder ∷ []) at)
  if not (is_open ev.status) then pure tt else schedule_open ws ev at

-- SendReminderInput
pub record SendReminderInput : Type 0 where
  pub event_id : Text
  pub sequence : ℤ
  pub scheduled_for : ℤ

abbrev user_of : Participation → Text
user_of p = p.chat_user_id

-- participantIDs
unfoldable pub participant_ids : Text → M (List Text)
participant_ids event_id = do
  parts ← reads (λ s. ok (Participations.list_by_event event_id (Status.active ∷ []) s))
  pure (map user_of (keep (λ p. is_participant p.role) parts))

-- The record of one post, with its result.
target_of : ReminderTargetKind → Text → Result Reply → M ReminderTarget
target_of kind channel_id (ok r) = pure record {
  kind = kind;
  channel_id = channel_id;
  message_id = r.message.message_id;
  is_ok = true;
  error = [];
}
target_of kind channel_id (Result.failed e) = do
  text ← describe e
  pure record { kind = kind; channel_id = channel_id; message_id = []; is_ok = false; error = text }

-- postTarget
unfoldable pub post_target : Workspace → ReminderTargetKind → Text → Message → M ReminderTarget
unfolding target_of call
post_target ws kind channel_id msg = do
  r ← attempt (call (post_message (workspace_ref_of ws) channel_id msg))
  target_of kind channel_id r

-- postReminders
unfoldable pub post_reminders : Workspace → Event → ℤ → M (List ReminderTarget)
unfolding participant_ids post_target
post_reminders ws ev at = do
  participants ← participant_ids ev.id
  target ←
      post_target ws ReminderTargetKind.event ev.channel.channel_id (reminder ev at participants)
  if is_empty ws.settings.recruit_channel_id then pure (target ∷ []) else do
    recruit ←
        post_target ws ReminderTargetKind.recruit ws.settings.recruit_channel_id
          (recruit_reminder ev at ws.settings.peek_duration)
    pure (target ∷ recruit ∷ [])

-- The log that Send appends.
abbrev log_of : SendReminderInput → Event → ℤ → List ReminderTarget → ReminderLog
log_of i ev at targets = record {
  id = [];
  event_id = ev.id;
  sequence = i.sequence;
  scheduled_for = if eq_ℤ i.scheduled_for (pos 0) then at else i.scheduled_for;
  sent_at = at;
  targets = targets;
}

-- Send behind its checks.
send_due : SendReminderInput → Event → ℤ → M Bool
send_due i ev at = do
  ws ← workspace ev.workspace_id
  targets ← post_reminders ws ev at
  log ← updates (Logs.append (log_of i ev at targets))
  pure true

-- The two checks of Send that follow the one on the status.
send_open : SendReminderInput → Event → M Bool
unfolding send_due
send_open i ev = do
  at ← now
  if not (ltb_ℤ at ev.starts_at) then pure false else do
    sent ← reads (λ s. ok (Logs.sent_sequence i.event_id i.sequence s))
    if sent then pure false else send_due i ev at

-- (*ReminderService).Send
unfoldable pub send : SendReminderInput → M Bool
unfolding send_open
send i = do ev ← event i.event_id; if not (is_open ev.status) then pure false else send_open i ev
