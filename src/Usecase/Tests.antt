-- ===== src/Usecase/Tests.antt =====
-- Runs of the theorems of internal/manager/usecase at concrete inputs.
use aso_bell.Common.{◌≡◌, refl, true, false, ◌||◌, [], ◌∷◌, none, some}
use aso_bell.Common.Int.{pos, ◌+ℤ◌, ◌*ℤ◌, ◌-ℤ◌}
use aso_bell.Common.Lists.{All}
use aso_bell.Common.Text.{codes, text_eq}
use aso_bell.Domain.Errors.{ok, check}
use aso_bell.Domain.Event.{Event, CreatedVia, EndReason, open_status, no_messages}
use aso_bell.Domain.Provider.{ProviderKind, ProviderStatus}
use aso_bell.Domain.Reminder.{default_reminder_policy}
use aso_bell.Domain.Workspace.{Workspace, default_workspace_settings}
use aso_bell.Store.State.{new}
use aso_bell.Store.Events
use aso_bell.Store.Events.{set_channel, find_event, get_workspace, saved, add_participant_count}
use aso_bell.Usecase.Effects.{Env, World, Reply, event, workspace, now, call}
use aso_bell.Usecase.Events.{CloseEventInput, close, archive}
use aso_bell.Usecase.Events.Archive.{archive-once}
use aso_bell.Usecase.Events.Close.{IsSettled, closed, close-IsSettled}
use aso_bell.Usecase.Participation.{}
use aso_bell.Domain.Job.{Job, new_reminder_job}
use aso_bell.Domain.Reminder.{ReminderPolicy, schedule, times, validate, validate_entries, one_day}
use aso_bell.Domain.TimeOfDay.{Zone}
use aso_bell.Store.Jobs.{queued}
use aso_bell.Store.Logs.{sent_sequence, append}
use aso_bell.Store.Participations.{list_by_event}
use aso_bell.Usecase.Reminders.{
  SendReminderInput, send, post_reminders, participant_ids, post_target, schedule_reminders,
}
use aso_bell.Usecase.Reminders.Once.{IsSilent, send-once}
use aso_bell.Usecase.Reminders.Pending.{pending_times, unsent, schedule_reminders-pending}
use aso_bell.Common.Lists.{find}
use aso_bell.Domain.Account.{AccountOrigin, ConsoleUser, ChatIdentity, LinkToken, usable}
use aso_bell.Store.Accounts
use aso_bell.Store.Accounts.{get_user}
use aso_bell.Store.State.{hex_id}
use aso_bell.Store.Tokens.{consume}
use aso_bell.Usecase.Identity.{identity_of, link, resolve_console_user}
use aso_bell.Usecase.Identity.Resolved.{link-resolves}
use aso_bell.Usecase.Workspaces.{sync}
use aso_bell.Usecase.Workspaces.Kept
use aso_bell.Usecase.Workspaces.Kept.{Keeps, sync-Keeps}

abbrev pub home : Workspace
home = record {
  id = codes "w1";
  provider = ProviderKind.discord;
  external_id = codes "guild";
  name = codes "home";
  settings = default_workspace_settings;
  created_at = pos 0;
  updated_at = pos 0;
}

abbrev pub picnic : Event
picnic = record {
  id = codes "e1";
  workspace_id = codes "w1";
  title = codes "picnic";
  description = [];
  location = [];
  starts_at = pos 1000;
  ends_at = none;
  status = open_status;
  organizer = record { user_id = codes "U1"; display_name = codes "Aki" };
  origin_channel_id = codes "C1";
  channel = record { channel_id = codes "C2"; name = codes "picnic"; archived = false };
  messages = no_messages;
  reminder_policy = default_reminder_policy;
  participant_count = pos 0;
  ended_at = none;
  end_reason = EndReason.unset;
  created_via = CreatedVia.chat;
  created_by = codes "U1";
  created_at = pos 1;
  updated_at = pos 1;
}

-- The provider grants every call, and the clock stands at 100.
abbrev granted : Reply
granted = record {
  message = record { channel_id = codes "C2"; message_id = codes "m" };
  channel = record { id = codes "C2"; name = codes "picnic"; is_private = true; archived = false };
  kind = ProviderKind.discord;
  workspaces = [];
}

abbrev pub calm : Env
calm = record {
  clock = λ calls. pos 100;
  status = λ calls. ProviderStatus.online;
  answer = λ calls c. ok granted;
  load_location = λ name. none;
  describe = λ e. [];
  kind = ProviderKind.discord;
  unicode = record { fold = λ s. s; is_letter = λ c. true; is_digit = λ c. false };
  month_day = λ loc t. codes "0920";
  hash_token = λ t. b'#' ∷ t;
  generate_token = λ calls. ok (codes "token");
}

abbrev pub start : World
start = record { store = record new { events = picnic ∷ []; workspaces = home ∷ [] }; calls = [] }

abbrev close_picnic : CloseEventInput
close_picnic = record {
  event_id = codes "e1";
  reason = EndReason.manual;
  actor = record { chat_user_id = codes "U1"; console = false };
}

home_stored : get_workspace picnic.workspace_id start.store ≡ ok home
unfolding get_workspace text_eq
home_stored = refl

picnic_stored : find_event (codes "e1") start.store ≡ some picnic
unfolding text_eq
picnic_stored = refl

by_organizer :
    (close_picnic.actor.console || text_eq close_picnic.actor.chat_user_id picnic.organizer.user_id)
    ≡ true
unfolding text_eq
by_organizer = refl

close-IsSettled_example :
    ((close close_picnic calm start).0 ≡ ok (closed EndReason.manual picnic (pos 100)))
    × (find_event (codes "e1") (close close_picnic calm start).1.store
        ≡ some (saved (closed EndReason.manual picnic (pos 100)) picnic))
    × All (IsSettled (codes "e1")) (close close_picnic calm start).1.store.jobs
close-IsSettled_example =
    close-IsSettled close_picnic picnic home calm start picnic_stored refl by_organizer home_stored

abbrev send_first : SendReminderInput
send_first = record { event_id = codes "e1"; sequence = pos 1; scheduled_for = pos 100 }

first_sent : (send send_first calm start).0 ≡ ok true
unfolding send event Events.get workspace get_workspace text_eq now sent_sequence new post_reminders
    participant_ids list_by_event post_target call default_workspace_settings append
first_sent = refl

-- The job of the reminder runs twice: the second Send stays silent.
send-once_example :
    IsSilent (send send_first calm (send send_first calm start).1) (send send_first calm start).1
send-once_example =
    send-once send_first send_first calm calm start (send send_first calm start).1 first_sent refl
      refl refl

-- Days of 24 hours.
abbrev pub utc : Zone
utc = record { date = λ t h m. pos 0; add_days = λ t n. t +ℤ n *ℤ pos one_day }

abbrev pub zoned : Env
zoned = record calm { load_location = λ name. some utc }

abbrev offset_policy : ReminderPolicy
offset_policy = record default_reminder_policy { offsets = pos 300 ∷ pos 500 ∷ pos 950 ∷ [] }

abbrev hike : Event
hike = record picnic { reminder_policy = offset_policy }

-- An earlier reminder of the event is in the queue: the new ones are numbered from 2.
abbrev earlier : Job
earlier = queued (new_reminder_job (codes "e1") (pos 1) (pos 400)) 1 (pos 50)

abbrev rescheduling : World
rescheduling = record start { store = record start.store { seq = 1; jobs = earlier ∷ [] } }

hike_plan : schedule offset_policy (pos 100) (pos 1000) utc ≡ times (pos 500 ∷ pos 700 ∷ [])
unfolding schedule validate default_reminder_policy validate_entries check ◌-ℤ◌
hike_plan = refl

schedule_reminders-pending_example :
    ((schedule_reminders home hike zoned rescheduling).0 ≡ ok tt)
    × (pending_times (codes "e1") (schedule_reminders home hike zoned rescheduling).1.store
        ≡ unsent (codes "e1") rescheduling.store (pos 500 ∷ pos 700 ∷ []))
unfolding queued new_reminder_job
schedule_reminders-pending_example =
    schedule_reminders-pending home hike utc (pos 500 ∷ pos 700 ∷ []) zoned rescheduling refl refl
      hike_plan ((1, refl, refl), tt)

abbrev google_user : ConsoleUser
google_user = record {
  id = codes "u1";
  google_sub = codes "g1";
  email = codes "aki@example.com";
  name = codes "Aki";
  picture = [];
  created_via = AccountOrigin.link;
  created_at = pos 1;
  last_login_at = pos 1;
}

abbrev chat_token : LinkToken
chat_token = record {
  id = codes "#t1";
  workspace_id = codes "w1";
  chat_user_id = codes "U1";
  display_name = codes "Aki";
  expires_at = pos 500;
  consumed_at = none;
}

abbrev linking : World
linking = record start {
  store = record start.store { link_tokens = chat_token ∷ []; console_users = google_user ∷ [] };
}

abbrev aki : ChatIdentity
aki = record (identity_of (codes "u1") home chat_token (pos 100)) { id = hex_id 1 }

aki_linked : (link (codes "u1") (codes "t1") calm linking).0 ≡ ok aki
unfolding link consume text_eq workspace get_workspace Accounts.link new now usable
aki_linked = refl

aki_known :
    get_user (codes "u1") (link (codes "u1") (codes "t1") calm linking).1.store ≡ ok google_user
unfolding link consume text_eq workspace get_workspace Accounts.link new now usable get_user
aki_known = refl

link-resolves_example :
    resolve_console_user
      (codes "w1")
      (codes "U1")
      zoned
      (link (codes "u1") (codes "t1") calm linking).1
    ≡ (ok google_user, (link (codes "u1") (codes "t1") calm linking).1)
link-resolves_example =
    link-resolves (codes "u1") (codes "t1") calm zoned linking aki google_user aki_linked aki_known

home_found : find (Kept.has_id (codes "w1")) start.store.workspaces ≡ some home
unfolding text_eq
home_found = refl

-- The provider reports another workspace only.
sync-Keeps_example : Keeps home (
    find
      (Kept.has_id (codes "w1"))
      (sync ProviderKind.discord
        (record { external_id = codes "other"; name = [] } ∷ [])
        calm
        start).1.store.workspaces)
sync-Keeps_example =
    sync-Keeps (codes "w1") home ProviderKind.discord
      (record { external_id = codes "other"; name = [] } ∷ []) calm start home_found

calm_archives : (archive (codes "e1") calm start).0 ≡ ok tt
unfolding archive event workspace get_workspace now set_channel text_eq Events.get call
calm_archives = refl

-- The job that archives the channel of the event runs twice.
archive-once_example :
    archive (codes "e1") zoned (archive (codes "e1") calm start).1
    ≡ (ok tt, (archive (codes "e1") calm start).1)
archive-once_example = archive-once (codes "e1") calm zoned start calm_archives
