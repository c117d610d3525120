-- ===== src/Bot/Arguments.antt =====
-- internal/manager/bot/dispatch.go: the arguments of a command as an event, and as its changes.
use aso_bell.Common.{Bool, false, not, ◌||◌, [], Option, none, some, if◌then◌else◌}
use aso_bell.Common.Int.{ℤ}
use aso_bell.Common.Lists.{is_empty}
use aso_bell.Common.Text.{Text, codes, trim_space}
use aso_bell.Domain.Event.{EventUpdate, CreatedVia}
use aso_bell.Domain.Workspace.{Workspace}
use aso_bell.Usecase.Effects.{}
use aso_bell.Usecase.Events
use aso_bell.Usecase.Events.Create.{CreateEventInput}
use aso_bell.Bot.DateTime.{parse_start_time, parse_end_time}
use aso_bell.Bot.Pace.{parse_reminder_pace}
use aso_bell.Bot.Commands.{Command, arg}
use aso_bell.Bot.Forms.{EventFormInput, location_or_utc}
use aso_bell.Bot.Reply.{
  Services, Parsed, bind, or_wrong, optional, parsed, msg_invalid_when, msg_invalid_ends,
  msg_invalid_pace,
}

-- createInput
abbrev pub create_input : Workspace → Text → Text → EventFormInput → CreateEventInput
create_input ws user_id origin i = record {
  workspace_id = ws.id;
  title = i.title;
  description = i.description;
  location = [];
  starts_at = i.starts_at;
  ends_at = i.ends_at;
  organizer = record { user_id = user_id; display_name = [] };
  origin_channel_id = origin;
  reminder_policy = i.reminder_policy;
  created_via = CreatedVia.chat;
  created_by = user_id;
}

-- usecase.Actor{ChatUserID: …}
abbrev pub chat_actor : Text → Events.Actor
chat_actor user_id = record { chat_user_id = user_id; console = false }

-- parseEventArgs at an instant.
unfoldable pub parse_event_args : Services → Workspace → Command → ℤ → Parsed EventFormInput
unfolding parse_start_time parse_end_time parse_reminder_pace
parse_event_args d ws cmd at =
    let loc = location_or_utc d.library ws.settings in
    bind
      (or_wrong msg_invalid_when
        (parse_start_time d.library (arg cmd (codes "when")) at loc ws.settings.default_start_time))
      λ starts_at.
        bind
          (optional (arg cmd (codes "ends")) msg_invalid_ends
            (λ raw. parse_end_time d.library raw starts_at loc))
          λ ends_at.
            bind
              (optional (arg cmd (codes "remind")) msg_invalid_pace (parse_reminder_pace d.library))
              λ policy. parsed record {
                title = trim_space (arg cmd (codes "title"));
                description = trim_space (arg cmd (codes "description"));
                starts_at = starts_at;
                ends_at = ends_at;
                reminder_policy = policy;
              }

-- hasEditArgs
abbrev pub has_edit_args : Command → Bool
has_edit_args cmd =
    not (is_empty (arg cmd (codes "title")))
    || not (is_empty (arg cmd (codes "when")))
    || not (is_empty (arg cmd (codes "ends")))
    || not (is_empty (arg cmd (codes "description")))

abbrev pub unless_empty : Text → Option Text
unless_empty text = if is_empty text then none else some text

abbrev pub start_or : Option ℤ → ℤ → ℤ
start_or none at = at
start_or (some starts_at) at = starts_at

-- parseEditArgs at an instant.
unfoldable pub parse_edit_args : Services → Workspace → Command → ℤ → Parsed EventUpdate
unfolding parse_start_time parse_end_time
parse_edit_args d ws cmd at =
    let loc = location_or_utc d.library ws.settings in
    bind
      (optional (arg cmd (codes "when")) msg_invalid_when
        (λ raw. parse_start_time d.library raw at loc ws.settings.default_start_time))
      λ starts_at.
        bind
          (optional (arg cmd (codes "ends")) msg_invalid_ends
            (λ raw. parse_end_time d.library raw (start_or starts_at at) loc))
          λ ends_at. parsed record {
            title = unless_empty (trim_space (arg cmd (codes "title")));
            description = unless_empty (trim_space (arg cmd (codes "description")));
            location = none;
            starts_at = starts_at;
            ends_at = ends_at;
            clear_ends_at = false;
            reminder_policy = none;
          }
