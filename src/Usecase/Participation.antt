-- ===== src/Usecase/Participation.antt =====
-- usecase/participation.go: joining, peeking, leaving and expiry.
pub mod Aside
pub mod Records
pub mod Counts
pub mod Stale
pub mod Recount
mod Tests
use aso_bell.Common.{
  Bool, true, false, not, ◌&&◌, ◌||◌, List, [], ◌∷◌, map, Option, none, some, if◌then◌else◌,
}
use aso_bell.Common.Int.{ℤ, pos, negsuc, ◌+ℤ◌}
use aso_bell.Common.Lists.{is_empty, keep}
use aso_bell.Common.Text.{Text, text_eq}
use aso_bell.Domain.Errors.{Error, Result, ok}
use aso_bell.Domain.Event.{Event, EndReason, is_open}
use aso_bell.Domain.Participation.{
  Participation, Status, Action, Transition, is_participant, is_peeker, is_active, same_kind,
  decide_transition, peek_expired,
}
use aso_bell.Domain.Job.{JobKind, new_peek_expire_job}
use aso_bell.Domain.Workspace.{Workspace}
use aso_bell.Store.Participations.{ParticipationUpsert, ParticipationChange}
use aso_bell.Store.Participations
use aso_bell.Store.Events
use aso_bell.Store.Jobs
use aso_bell.Usecase.Effects.{
  Reply, M, pure, fail_with, ◌>>=◌, ◌>>◌, ignore, attempt, guard, when, reads, writes, updates, now,
  call, workspace, event, post, enqueue, require_provider_online, workspace_ref_of, is_not_found,
  add_member, remove_member, transition, left_message, removed_by_organizer,
}
use aso_bell.Usecase.Events.{close, refresh_messages}

-- ParticipationInput
pub record ParticipationInput : Type 0 where
  pub event_id : Text
  pub chat_user_id : Text
  pub display_name : Text
  pub action : Action

-- ParticipationResult
pub record ParticipationResult : Type 0 where
  pub event : Event
  pub participation : Option Participation
  pub transition : Transition
  pub expires_at : ℤ

-- expiresAtOf: the zero time is 0.
abbrev pub expires_at_of : Option Participation → ℤ
expires_at_of none = pos 0
expires_at_of (some p) = elim p.expires_at [ none ↦ pos 0 | some at ↦ at ]

-- openEvent
unfoldable pub open_event : Text → M (Event × Workspace)
open_event event_id = do
  ev ← event event_id
  guard (is_open ev.status) Error.event_closed
  ws ← workspace ev.workspace_id
  pure (ev, ws)

-- The error of GetByUser as a missing record.
abbrev missing_as_none : Result Participation → M (Option Participation)
missing_as_none (ok p) = pure (some p)
missing_as_none (Result.failed e) = if is_not_found e then pure none else fail_with e

-- currentParticipation
unfoldable pub current_participation : Text → Text → M (Option Participation)
current_participation event_id user = do
  r ← attempt (reads (Participations.get_by_user event_id user))
  missing_as_none r

-- handleChannelError
unfoldable pub handle_channel_error : Event → Error → M (Unit {0})
handle_channel_error ev cause = if not (is_not_found cause) then fail_with cause else do
  ignore (
      close record {
        event_id = ev.id;
        reason = EndReason.channel_lost;
        actor = record { chat_user_id = []; console = true };
      })
  fail_with cause

-- `err == nil`, or the handler.
abbrev or_channel_error : Event → Result Reply → M (Unit {0})
or_channel_error ev (ok r) = pure tt
or_channel_error ev (Result.failed e) = handle_channel_error ev e

-- joinChannel
unfoldable pub join_channel : Workspace → Event → Text → M (Unit {0})
join_channel ws ev user = if is_empty ev.channel.channel_id then pure tt else do
  r ← attempt (call (add_member (workspace_ref_of ws) ev.channel.channel_id user))
  or_channel_error ev r

-- leaveChannel
unfoldable pub leave_channel : Workspace → Event → Text → M (Unit {0})
leave_channel ws ev user = if is_empty ev.channel.channel_id then pure tt else do
  r ← attempt (call (remove_member (workspace_ref_of ws) ev.channel.channel_id user))
  or_channel_error ev r

-- addCount returns the event with its count.
unfoldable pub add_count : Event → ℤ → M Event
add_count ev delta = do
  at ← now
  writes (Events.add_participant_count ev.id delta at)
  pure (record ev { participant_count = ev.participant_count +ℤ delta })

-- The three conditional parts of afterTransition.
count_joined : Event → Transition → M Event
count_joined ev t = if is_participant t.role then add_count ev (pos 1) else pure ev

cancel_peeks : Event → Transition → M (Unit {0})
cancel_peeks ev t =
    when t.cancel_peek_job
      do at ← now; n ← updates (Jobs.cancel_by_event ev.id (JobKind.peek_expire ∷ []) at); pure tt

enqueue_expiry : Event → Participation → Transition → M (Unit {0})
enqueue_expiry ev part t = elim part.expires_at [
  | none ↦ pure tt
  | some at ↦
      when (is_peeker t.role) (enqueue (new_peek_expire_job ev.id part.id part.peek_count at))
]

-- afterTransition behind the count.
pub notify : Workspace → Event → Participation → Transition → M Event
unfolding cancel_peeks enqueue_expiry
notify ws ev part t = do
  cancel_peeks ev t
  enqueue_expiry ev part t
  post ws ev.channel.channel_id
      (transition t.kind part.chat_user_id ev.participant_count (expires_at_of (some part)))
  refresh_messages ws ev
  pure ev

-- afterTransition returns the event with its count.
unfoldable pub after_transition : Workspace → Event → Participation → Transition → M Event
unfolding count_joined notify
after_transition ws ev part t = do ev' ← count_joined ev t; notify ws ev' part t

-- The record that Apply upserts.
abbrev upsert_of : ParticipationInput → Event → Workspace → Transition → ℤ → ParticipationUpsert
upsert_of i ev ws t at = record {
  event_id = ev.id;
  workspace_id = ws.id;
  chat_user_id = i.chat_user_id;
  display_name = i.display_name;
  role = t.role;
  expires_at = if is_peeker t.role then some (at +ℤ ws.settings.peek_duration) else none;
  now = at;
}

-- Apply behind its upsert.
pub settle :
    ParticipationInput
    → Event
    → Workspace
    → Transition
    → ParticipationChange
    → M ParticipationResult
settle i ev ws t change =
    let settled = decide_transition change.before i.action in
    if not (same_kind settled.kind t.kind)
    then pure record {
      event = ev;
      participation = some change.after;
      transition = settled;
      expires_at = expires_at_of (some change.after);
    }
    else do
      when t.add_to_channel (join_channel ws ev i.chat_user_id)
      ev' ← after_transition ws ev change.after t
      pure record {
        event = ev';
        participation = some change.after;
        transition = t;
        expires_at = expires_at_of (some change.after);
      }

-- Apply behind its reads.
pub press : ParticipationInput → Event → Workspace → Option Participation → M ParticipationResult
unfolding settle
press i ev ws prev =
    let t = decide_transition prev i.action in
    if not t.add_to_channel && not t.cancel_peek_job
    then pure
        record { event = ev; participation = prev; transition = t; expires_at = expires_at_of prev }
    else do
      at ← now
      change ← updates (Participations.upsert (upsert_of i ev ws t at))
      settle i ev ws t change

-- (*ParticipationService).Apply
unfoldable pub apply : ParticipationInput → M ParticipationResult
unfolding press
apply i = do
  found ← open_event i.event_id
  prev ← current_participation i.event_id i.chat_user_id
  press i found.0 found.1 prev

-- detach returns the event with its count.
unfoldable pub detach : Workspace → Event → Participation → Status → M Event
detach ws ev part st = do
  leave_channel ws ev part.chat_user_id
  at ← now
  writes (Participations.set_status part.id st at)
  if not (is_participant part.role) then pure ev else add_count ev (negsuc 0)

-- Leave behind its checks.
leave_active : Text → Workspace → Event → Participation → M Participation
leave_active user ws ev part = do
  ev' ← detach ws ev part Status.left
  post ws ev'.channel.channel_id (left_message user ev'.participant_count)
  refresh_messages ws ev'
  pure (record part { status = Status.left })

-- (*ParticipationService).Leave
unfoldable pub leave : Text → Text → M Participation
unfolding leave_active
leave event_id user = do
  found ← open_event event_id
  guard (not (text_eq user found.0.organizer.user_id)) Error.organizer_cannot_leave
  part ← reads (Participations.get_by_user event_id user)
  guard (is_active part.status) Error.not_found
  leave_active user found.1 found.0 part

-- Remove behind its checks.
remove_active : Text → Workspace → Event → Participation → M (Unit {0})
remove_active user ws ev part = do
  ev' ← detach ws ev part Status.removed
  post ws ev'.channel.channel_id (removed_by_organizer user)
  refresh_messages ws ev'

-- (*ParticipationService).Remove
unfoldable pub remove : Text → Text → M (Unit {0})
unfolding remove_active
remove event_id user = do
  require_provider_online
  found ← open_event event_id
  part ← reads (Participations.get_by_user event_id user)
  if not (is_active part.status) then pure tt else remove_active user found.1 found.0 part

-- ExpirePeek behind its checks.
expire_due : Participation → M (Option Participation × Bool)
expire_due part = do
  ev ← event part.event_id
  ws ← workspace ev.workspace_id
  ev' ← detach ws ev part Status.expired
  pure (some (record part { status = Status.expired }), true)

-- The two checks of ExpirePeek on a record that was found.
expire_found : Participation → M (Option Participation × Bool)
unfolding expire_due
expire_found part =
    if not (is_peeker part.role) || not (is_active part.status) then pure (some part, false) else do
      at ← now
      if not (peek_expired part at) then pure (some part, false) else expire_due part

expire_result : Result Participation → M (Option Participation × Bool)
unfolding expire_found
expire_result (ok part) = expire_found part
expire_result (Result.failed e) = if is_not_found e then pure (none, false) else fail_with e

-- (*ParticipationService).ExpirePeek
unfoldable pub expire_peek : Text → M (Option Participation × Bool)
unfolding expire_result
expire_peek id = do r ← attempt (reads (Participations.get id)); expire_result r

abbrev user_of : Participation → Text
user_of p = p.chat_user_id

-- ActiveMembers
unfoldable pub active_members : Text → M (List Text × List Text)
active_members event_id = do
  parts ← reads (λ s. ok (Participations.list_by_event event_id (Status.active ∷ []) s))
  pure (
    map user_of (keep (λ p. is_participant p.role) parts),
    map user_of (keep (λ p. not (is_participant p.role)) parts),
  )
