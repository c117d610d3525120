-- ===== src/Bot.antt =====
-- internal/manager/bot: commands, buttons and forms. Here dispatch.go: what each of them does by the
-- services. The dispatcher turns every error into a reply.
pub mod Input
pub mod DateTime
pub mod Pace
pub mod Commands
pub mod Forms
pub mod Reply
pub mod Arguments
pub mod EventCommands
pub mod WorkspaceCommands
pub mod Refused
mod Tests
use aso_bell.Common.{
  Bool, true, false, not, ◌&&◌, ◌||◌, List, [], ◌∷◌, ◌++◌, Option, none, some, ◌==◌, if◌then◌else◌,
}
use aso_bell.Common.Int.{ℤ, pos}
use aso_bell.Common.Lists.{is_empty}
use aso_bell.Common.Text.{Text, codes, text_eq, trim_space, trim_right}
use aso_bell.Domain.Errors.{Error, FieldError, Result, ok}
use aso_bell.Domain.Event.{Event, EventStatus, EndReason, EventUpdate, CreatedVia}
use aso_bell.Domain.Participation.{Action}
use aso_bell.Domain.Reminder.{ReminderPolicy}
use aso_bell.Domain.Workspace.{Workspace}
use aso_bell.Store.Events.{get_by_channel_id}
use aso_bell.Store.Paging.{Codec, EventPage}
use aso_bell.Store.Paging
use aso_bell.Usecase.Effects.{
  Message, WorkspaceRef, M, pure, ◌>>=◌, ◌>>◌, attempt, ignore, reads, now, call, workspace_ref_of,
  post_ephemeral, notice, help, created_message, event_info, event_list, action_reply,
  link_invitation, already_linked,
}
use aso_bell.Usecase.Events
use aso_bell.Usecase.Events.Create
use aso_bell.Usecase.Events.Create.{CreateEventInput}
use aso_bell.Usecase.Identity
use aso_bell.Usecase.Participation
use aso_bell.Usecase.Participation.{ParticipationResult}
use aso_bell.Usecase.Workspaces
use aso_bell.Bot.Input.{Library, Calendar}
use aso_bell.Bot.DateTime.{parse_start_time, parse_end_time}
use aso_bell.Bot.Pace.{parse_reminder_pace, format_reminder_pace}
use aso_bell.Bot.Commands.{
  Args, RawCommand, Command, Subcommand, arg, needs_event_channel, parse_command, parse_action_id,
}
use aso_bell.Bot.Forms.{
  Form, EventFormInput, form_event_new, form_event_edit, new_event_form, edit_event_form,
  location_or_utc, parse_event_form, update_of,
}
use aso_bell.Bot.Reply.{
  Services, BotReply, Parsed, say, tell, reply_for_error, or_reply, or_missing, bind, or_wrong,
  optional, tell_or, parsed, wrong, ephemeral, open_form, form_errors, message_for_error,
  msg_unknown_command, msg_invalid_when, msg_invalid_ends, msg_invalid_pace, msg_event_updated,
  form_in, open_or_fail,
}
use aso_bell.Bot.Arguments.{
  create_input, chat_actor, parse_event_args, has_edit_args, parse_edit_args,
}
use aso_bell.Bot.EventCommands.{event_command}
use aso_bell.Bot.WorkspaceCommands.{workspace_command}
use aso_bell.Domain.Account.{ConsoleUser}

abbrev is_help : Subcommand → Bool
is_help Subcommand.help = true
is_help _ = false

in_workspace : Services → Command → Workspace → M BotReply
unfolding workspace_command
in_workspace d cmd ws =
    if is_help cmd.sub
    then say help
    else if needs_event_channel cmd.sub
    then event_command d ws cmd
    else workspace_command d ws cmd cmd.sub

run_parsed : Services → Option Command → M BotReply
unfolding in_workspace
run_parsed d none = tell msg_unknown_command
run_parsed d (some cmd) = or_reply (Workspaces.resolve cmd.workspace) (in_workspace d cmd)

-- (*Dispatcher).Command
unfoldable pub command : Services → RawCommand → M BotReply
unfolding run_parsed
command d raw = run_parsed d (parse_command d.library raw)

-- Action of manager.proto
pub record RawAction : Type 0 where
  pub workspace : WorkspaceRef
  pub action_id : Text
  pub user_id : Text

abbrev press_of : Text → Text → Action → Participation.ParticipationInput
press_of event_id user_id action = record {
  event_id = event_id;
  chat_user_id = user_id;
  display_name = [];
  action = action;
}

abbrev action_answer : Workspace → ParticipationResult → Message
action_answer ws res =
    action_reply res.transition.kind res.event.channel.channel_id res.expires_at
      ws.settings.peek_duration

press : RawAction → Option (Action × Text) → M BotReply
press raw none = tell msg_unknown_command
press raw (some (action, event_id)) = or_reply (Workspaces.resolve raw.workspace) λ ws.
    or_reply (Participation.apply (press_of event_id raw.user_id action))
      λ res. say (action_answer ws res)

-- (*Dispatcher).Action
unfoldable pub action : RawAction → M BotReply
unfolding press
action raw = press raw (parse_action_id raw.action_id)

-- FormSubmission of manager.proto
pub record RawForm : Type 0 where
  pub workspace : WorkspaceRef
  pub form_id : Text
  pub user_id : Text
  pub metadata : Text
  pub values : Args

-- What Async runs behind the reply to a form: create an event and tell its author.
pub record Task : Type 0 where
  pub workspace : Workspace
  pub channel_id : Text
  pub user_id : Text
  pub input : CreateEventInput

-- notify
unfoldable pub notify : Workspace → Text → Text → Message → M (Unit {0})
notify ws channel_id user_id msg =
    if is_empty channel_id
    then pure tt
    else ignore (call (post_ephemeral (workspace_ref_of ws) channel_id user_id msg))

abbrev created_or_error : Result Event → Message
created_or_error (ok ev) = created_message ev
created_or_error (Result.failed e) = message_for_error e

-- The function that submitNewEvent gives to Async.
unfoldable pub run_task : Task → M (Unit {0})
unfolding notify
run_task t = do
  r ← attempt (Create.create t.input)
  notify t.workspace t.channel_id t.user_id (created_or_error r)

abbrev no_task : M BotReply → M (BotReply × Option Task)
no_task m = do reply ← m; pure (reply, none)

-- submitNewEvent
abbrev submit_new_event : Workspace → RawForm → EventFormInput → BotReply × Option Task
submit_new_event ws sub i = (
  ephemeral (notice (codes "イベントを作成しています。少し待ってね")),
  some record {
    workspace = ws;
    channel_id = sub.metadata;
    user_id = sub.user_id;
    input = create_input ws sub.user_id sub.metadata i;
  },
)

-- submitEditEvent
submit_edit_event : RawForm → EventFormInput → M BotReply
submit_edit_event sub i =
    or_reply
      (Create.update
        record { event_id = sub.metadata; update = update_of i; actor = chat_actor sub.user_id })
      λ ev. tell msg_event_updated

-- FormSubmit behind ParseEventForm.
submit : Workspace → RawForm → EventFormInput × Args → M (BotReply × Option Task)
unfolding submit_edit_event
submit ws sub (i, errs) =
    if not (is_empty errs)
    then pure (form_errors errs, none)
    else if text_eq sub.form_id form_event_new
    then pure (submit_new_event ws sub i)
    else if text_eq sub.form_id form_event_edit
    then no_task (submit_edit_event sub i)
    else no_task (tell msg_unknown_command)

abbrev if_resolved :
    (Workspace → M (BotReply × Option Task)) → Result Workspace → M (BotReply × Option Task)
if_resolved next (ok ws) = next ws
if_resolved next (Result.failed e) = no_task (reply_for_error e)

-- (*Dispatcher).FormSubmit, with the task that it starts.
unfoldable pub form_submit : Services → RawForm → M (BotReply × Option Task)
unfolding submit parse_event_form
form_submit d sub =
    attempt (Workspaces.resolve sub.workspace)
    >>= if_resolved
        λ ws. do at ← now; submit ws sub (parse_event_form d.library sub.values at ws.settings)
