-- ===== src/Usecase/Events/Create.antt =====
-- usecase/event.go: creating an event with its channel and its messages, and editing one.
pub mod Outside
pub mod Aborted
mod Tests
use aso_bell.Common.{
  ℕ, zero, suc, ◌+◌, Bool, true, false, not, ◌&&◌, ◌||◌, List, [], ◌∷◌, Option, none, some,
  if◌then◌else◌, ◌==◌,
}
use aso_bell.Common.Int.{ℤ, pos, ◌+ℤ◌}
use aso_bell.Common.Lists.{is_empty}
use aso_bell.Common.Text.{Text, text_eq}
use aso_bell.Domain.Errors.{Error, Result, ok}
use aso_bell.Domain.Event.{
  Event, ChatUserRef, ChannelRef, MessageRef, MessageRefs, CreatedVia, EndReason, EventUpdate,
  NewEventParams, NewEventResult, refused, created, new_event, apply, cancel, auto_end_at,
  no_messages,
}
use aso_bell.Domain.Job.{new_auto_end_job, new_archive_channel_job}
use aso_bell.Domain.Participation.{Role}
use aso_bell.Domain.Provider.{ProviderKind}
use aso_bell.Domain.Provider
use aso_bell.Domain.Reminder.{ReminderPolicy}
use aso_bell.Domain.Workspace.{Workspace}
use aso_bell.Shared.ChannelName.{slack_max_len, discord_max_len, build, with_suffix}
use aso_bell.Store.Events
use aso_bell.Store.Participations.{ParticipationUpsert}
use aso_bell.Store.Participations
use aso_bell.Usecase.Effects.{
  Env, World, ChannelInfo, Reply, M, pure, fail_with, ◌>>=◌, ◌>>◌, ignore, attempt, guard, when,
  lift, reads, writes, updates, now, call, workspace, event, pin, enqueue, require_provider_online,
  workspace_ref_of, load_location, post_message, create_private_channel, announcement, summary,
  is_already_exists,
}
use aso_bell.Usecase.Events.{Actor, authorize_manage, refresh_messages}
use aso_bell.Usecase.Reminders.{schedule_reminders}

-- CreateEventInput
pub record CreateEventInput : Type 0 where
  pub workspace_id : Text
  pub title : Text
  pub description : Text
  pub location : Text
  pub starts_at : ℤ
  pub ends_at : Option ℤ
  pub organizer : ChatUserRef
  pub origin_channel_id : Text
  pub reminder_policy : Option ReminderPolicy
  pub created_via : CreatedVia
  pub created_by : Text

-- UpdateEventInput
pub record UpdateEventInput : Type 0 where
  pub event_id : Text
  pub update : EventUpdate
  pub actor : Actor

abbrev pub channel_name_attempts : ℕ
channel_name_attempts = 3

-- channelNameLimit
abbrev pub channel_name_limit : ProviderKind → ℕ
channel_name_limit kind =
    if Provider.kind_eq kind ProviderKind.discord then discord_max_len else slack_max_len

-- The errors behind which createChannel tries another name.
abbrev pub is_taken : Error → Bool
is_taken Error.name_taken = true
is_taken Error.already_exists = true
is_taken _ = false

-- startsAt.In(loc).Format
abbrev month_day : ℤ → Text → M Text
month_day at timezone = do loc ← load_location timezone; λ env w. (ok (env.month_day loc at), w)

-- channelname.Build with the tables of package unicode.
abbrev base_name : Workspace → Event → Text → M Text
base_name ws ev date env w = (
  ok (
      build env.unicode ws.settings.channel_name_prefix ev.title date
        (channel_name_limit ws.provider)),
  w,
)

-- The name of an attempt.
abbrev attempt_name : Workspace → Text → ℕ → Text
attempt_name ws base attempt =
    if attempt == 0 then base else with_suffix base (attempt + 1) (channel_name_limit ws.provider)

-- What createChannel does with the answer to an attempt.
abbrev next_name : (Error → M ChannelInfo) → Result Reply → M ChannelInfo
next_name next (ok reply) = pure reply.channel
next_name next (Result.failed e) = if is_taken e then next e else fail_with e

-- The loop of createChannel, with the attempts left and the last error.
try_names : Workspace → Event → Text → ℕ → ℕ → Error → M ChannelInfo
try_names ws ev base number zero last = fail_with last
try_names ws ev base number (suc left) last = do
  r ← attempt (
      call (
        create_private_channel (workspace_ref_of ws) record {
          name = attempt_name ws base number;
          topic = ev.title;
          member_ids = ev.organizer.user_id ∷ [];
          category_id = ws.settings.discord.event_category_id;
        }))
  next_name (try_names ws ev base (suc number) left) r

-- createChannel
unfoldable pub create_channel : Workspace → Event → M ChannelInfo
unfolding try_names
create_channel ws ev = do
  date ← month_day ev.starts_at ws.settings.timezone
  base ← base_name ws ev date
  try_names ws ev base 0 channel_name_attempts Error.name_taken

abbrev posted : Workspace → Text → Event → M MessageRef
posted ws channel_id ev = do
  r ←
      call
        (post_message (workspace_ref_of ws) channel_id (announcement ev ws.settings.peek_duration))
  pure r.message

-- The announcement in the recruiting channel.
post_recruit : Workspace → Event → M (Option MessageRef)
post_recruit ws ev =
    if is_empty ws.settings.recruit_channel_id
      || text_eq ws.settings.recruit_channel_id ev.origin_channel_id
    then pure none
    else do ref ← posted ws ws.settings.recruit_channel_id ev; pure (some ref)

-- postAnnouncements
unfoldable pub post_announcements : Workspace → Event → M MessageRefs
unfolding post_recruit
post_announcements ws ev = do
  first ← posted ws ev.origin_channel_id ev
  pin ws first
  recruit ← post_recruit ws ev
  r ← call (post_message (workspace_ref_of ws) ev.channel.channel_id (summary ev))
  pin ws r.message
  pure
      record { announcement = some first; recruit_announcement = recruit; summary = some r.message }

abbrev stop_or {ℓ} :
    {A : Type ℓ} → Event → (A → M (Event × Option Error)) → Result A → M (Event × Option Error)
stop_or ev next (ok a) = next a
stop_or ev next (Result.failed e) = pure (ev, some e)

-- `if err != nil { return err }` in provision, which leaves the event as it is then.
abbrev or_stop {ℓ} :
    {A : Type ℓ} → Event → M A → (A → M (Event × Option Error)) → M (Event × Option Error)
or_stop ev m next = do r ← attempt m; stop_or ev next r

-- provision: the event as it leaves it, and its error.
unfoldable pub provision : Workspace → Event → M (Event × Option Error)
provision ws ev = or_stop ev (create_channel ws ev) λ channel.
    let ref : ChannelRef = record {
      channel_id = channel.id;
      name = channel.name;
      archived = channel.archived;
    } in
    let ev1 : Event = record ev { channel = ref } in
    or_stop ev1 (do at ← now; writes (Events.set_channel ev.id ref at))
      λ u. or_stop ev1 (post_announcements ws ev1) λ messages.
        let ev2 : Event = record ev1 { messages = messages } in
        or_stop ev2 (do at ← now; writes (Events.set_messages ev.id messages at))
          λ v. pure (ev2, none)

-- registerOrganizer returns the event with its count.
unfoldable pub register_organizer : Workspace → Event → ℤ → M Event
register_organizer ws ev at = do
  change ← updates (
      Participations.upsert record {
        event_id = ev.id;
        workspace_id = ws.id;
        chat_user_id = ev.organizer.user_id;
        display_name = ev.organizer.display_name;
        role = Role.participant;
        expires_at = none;
        now = at;
      })
  writes (Events.add_participant_count ev.id (pos 1) at)
  pure (record ev { participant_count = ev.participant_count +ℤ pos 1 })

-- abortProvision behind Cancel.
abort_changed : Bool × Event → ℤ → M (Unit {0})
abort_changed (false, ev) at = pure tt
abort_changed (true, ev) at = do
  ignore (writes (Events.update_fields ev))
  when (not (is_empty ev.channel.channel_id)) (ignore (enqueue (new_archive_channel_job ev.id at)))

-- abortProvision
unfoldable pub abort_provision : Event → M (Unit {0})
unfolding abort_changed
abort_provision ev = do at ← now; abort_changed (cancel ev EndReason.provision_failed at) at

-- The part of Create behind provision.
unfoldable pub finish_create : Workspace → Event × Option Error → M Event
finish_create ws (ev, some e) = do abort_provision ev; fail_with e
finish_create ws (ev, none) = do
  schedule_reminders ws ev
  enqueue (new_auto_end_job ev.id (auto_end_at ev ws.settings.auto_end_grace))
  pure ev

-- The arguments of NewEvent.
abbrev params_of : CreateEventInput → Workspace → NewEventParams
params_of i ws = record {
  workspace_id = ws.id;
  title = i.title;
  description = i.description;
  location = i.location;
  starts_at = i.starts_at;
  ends_at = i.ends_at;
  organizer = i.organizer;
  origin_channel_id = i.origin_channel_id;
  reminder_policy = elim i.reminder_policy [
    | none ↦ ws.settings.default_reminder_policy
    | some p ↦ p
  ];
  created_via = i.created_via;
  created_by = i.created_by;
}

abbrev new_or_fail : NewEventResult → M Event
new_or_fail (refused e) = fail_with e
new_or_fail (created ev) = pure ev

-- (*EventService).Create
unfoldable pub create : CreateEventInput → M Event
create i = do
  require_provider_online
  ws ← workspace i.workspace_id
  at ← now
  ev ← new_or_fail (new_event (params_of i ws) at)
  stored ← updates (Events.create ev)
  counted ← register_organizer ws stored at
  provisioned ← provision ws counted
  finish_create ws provisioned

-- The error and the event of Apply.
abbrev applied : Option Error × Event → M Event
applied (some e, ev) = fail_with e
applied (none, ev) = pure ev

-- (*EventService).Update
unfoldable pub update : UpdateEventInput → M Event
update i = do
  ev ← event i.event_id
  authorize_manage ev i.actor
  ws ← workspace ev.workspace_id
  at ← now
  ev' ← applied (apply ev i.update at)
  writes (Events.update_fields ev')
  refresh_messages ws ev'
  schedule_reminders ws ev'
  pure ev'

-- (*EventService).SetReminderPolicy
unfoldable pub set_reminder_policy : Text → ReminderPolicy → Actor → M Event
unfolding update
set_reminder_policy event_id policy actor = update record {
  event_id = event_id;
  update = record {
    title = none;
    description = none;
    location = none;
    starts_at = none;
    ends_at = none;
    clear_ends_at = false;
    reminder_policy = some policy;
  };
  actor = actor;
}
