-- ===== src/Usecase/Events.antt =====
-- usecase/event.go: closing an event and archiving its channel.
pub mod Close
pub mod Archive
pub mod Create
use aso_bell.Common.{Bool, true, false, not, ◌||◌, List, [], ◌∷◌, if◌then◌else◌}
use aso_bell.Common.Int.{ℤ}
use aso_bell.Common.Lists.{is_empty}
use aso_bell.Common.Text.{Text, text_eq}
use aso_bell.Domain.Errors.{Error, Result, ok}
use aso_bell.Domain.Event.{Event, EndReason, ChannelRef, end_event, cancel}
use aso_bell.Domain.Job.{JobKind, new_archive_channel_job}
use aso_bell.Domain.Workspace.{Workspace}
use aso_bell.Store.Jobs
use aso_bell.Store.Events
use aso_bell.Usecase.Effects.{
  ChannelInfo, Reply, M, pure, fail_with, ◌>>=◌, ◌>>◌, attempt, guard, when, writes, updates, now,
  call, workspace, event, post, update_posted, unpin, enqueue, workspace_ref_of, is_not_found,
  announcement, summary, closing, archive_channel,
}

-- Actor
pub record Actor : Type 0 where
  pub chat_user_id : Text
  pub console : Bool

-- CloseEventInput
pub record CloseEventInput : Type 0 where
  pub event_id : Text
  pub reason : EndReason
  pub actor : Actor

-- authorizeManage
unfoldable pub authorize_manage : Event → Actor → M (Unit {0})
authorize_manage ev actor =
    guard (actor.console || text_eq actor.chat_user_id ev.organizer.user_id) Error.forbidden

-- refreshMessages
unfoldable pub refresh_messages : Workspace → Event → M (Unit {0})
refresh_messages ws ev = do
  update_posted ws ev.messages.announcement (announcement ev ws.settings.peek_duration)
  update_posted ws ev.messages.recruit_announcement (announcement ev ws.settings.peek_duration)
  update_posted ws ev.messages.summary (summary ev)

-- closeMessages
unfoldable pub close_messages : Workspace → Event → M (Unit {0})
close_messages ws ev = do
  refresh_messages ws ev
  unpin ws ev.messages.announcement
  unpin ws ev.messages.summary
  post ws ev.channel.channel_id (closing ev)

-- The branch of Close on the reason.
abbrev closed_by : EndReason → Event → ℤ → Bool × Event
closed_by EndReason.canceled_reason ev at = cancel ev EndReason.canceled_reason at
closed_by EndReason.unset ev at = end_event ev EndReason.unset at
closed_by EndReason.manual ev at = end_event ev EndReason.manual at
closed_by EndReason.auto ev at = end_event ev EndReason.auto at
closed_by EndReason.provision_failed ev at = end_event ev EndReason.provision_failed at
closed_by EndReason.channel_lost ev at = end_event ev EndReason.channel_lost at

abbrev pub cancelled_kinds : List JobKind
cancelled_kinds = JobKind.reminder ∷ JobKind.event_auto_end ∷ JobKind.peek_expire ∷ []

-- The jobs of the event at the end of Close.
settle_jobs : Event → ℤ → M Event
settle_jobs ev at = do
  n ← updates (Jobs.cancel_by_event ev.id cancelled_kinds at)
  when (not (is_empty ev.channel.channel_id)) (enqueue (new_archive_channel_job ev.id at))
  pure ev

-- The part of Close behind the change of the event.
finish_close : Event → ℤ → M Event
unfolding settle_jobs
finish_close ev at = do
  writes (Events.update_fields ev)
  ws ← workspace ev.workspace_id
  close_messages ws ev
  settle_jobs ev at

-- if !changed { return ev, nil }
close_changed : Bool × Event → ℤ → M Event
unfolding finish_close
close_changed (false, ev) at = pure ev
close_changed (true, ev) at = finish_close ev at

-- (*EventService).Close
unfoldable pub close : CloseEventInput → M Event
unfolding close_changed
close i = do
  ev ← event i.event_id
  authorize_manage ev i.actor
  at ← now
  close_changed (closed_by i.reason ev at) at

-- The channel's information, or the recorded one where the channel is gone.
abbrev archived_info : Event → Result Reply → M ChannelInfo
archived_info ev (ok r) = pure r.channel
archived_info ev (Result.failed e) =
    if not (is_not_found e)
    then fail_with e
    else pure record {
      id = ev.channel.channel_id;
      name = ev.channel.name;
      is_private = false;
      archived = false;
    }

-- The channel that ArchiveChannel records.
abbrev archived_ref : Event → ChannelInfo → ChannelRef
archived_ref ev info = record {
  channel_id = ev.channel.channel_id;
  name = if is_empty info.name then ev.channel.name else info.name;
  archived = true;
}

-- ArchiveChannel behind its early return.
archive_open : Event → M (Unit {0})
archive_open ev = do
  ws ← workspace ev.workspace_id
  r ← attempt (
      call (
        archive_channel (workspace_ref_of ws) ev.channel.channel_id
          ws.settings.discord.archive_category_id))
  info ← archived_info ev r
  at ← now
  writes (Events.set_channel ev.id (archived_ref ev info) at)

-- (*EventService).ArchiveChannel
unfoldable pub archive : Text → M (Unit {0})
unfolding archive_open
archive event_id = do
  ev ← event event_id
  if is_empty ev.channel.channel_id || ev.channel.archived then pure tt else archive_open ev
