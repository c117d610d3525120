-- ===== src/Bot/EventCommands.antt =====
-- internal/manager/bot/dispatch.go: the commands of an event's channel.
pub mod Refused
use aso_bell.Common.{
  Bool, true, false, not, ◌&&◌, ◌||◌, List, [], ◌∷◌, ◌++◌, Option, none, some, ◌==◌, if◌then◌else◌,
}
use aso_bell.Common.Int.{ℤ}
use aso_bell.Common.Lists.{is_empty}
use aso_bell.Common.Text.{Text, codes, text_eq, trim_space, trim_right}
use aso_bell.Domain.Errors.{Error, FieldError, Result, ok}
use aso_bell.Domain.Event.{Event, EventStatus, EndReason, EventUpdate, CreatedVia}
use aso_bell.Domain.Participation.{Action}
use aso_bell.Domain.Reminder.{ReminderPolicy}
use aso_bell.Domain.Workspace.{Workspace}
use aso_bell.Store.Events.{get_by_channel_id}
use aso_bell.Store.Paging.{Codec, EventPage}
use aso_bell.Store.Paging
use aso_bell.Usecase.Effects.{
  Message, WorkspaceRef, M, pure, ◌>>=◌, ◌>>◌, attempt, ignore, reads, now, call, workspace_ref_of,
  post_ephemeral, notice, help, created_message, event_info, event_list, action_reply,
  link_invitation, already_linked,
}
use aso_bell.Usecase.Events
use aso_bell.Usecase.Events.Create
use aso_bell.Usecase.Events.Create.{CreateEventInput}
use aso_bell.Usecase.Identity
use aso_bell.Usecase.Participation
use aso_bell.Usecase.Participation.{ParticipationResult}
use aso_bell.Usecase.Workspaces
use aso_bell.Bot.Input.{Library, Calendar}
use aso_bell.Bot.DateTime.{parse_start_time, parse_end_time}
use aso_bell.Bot.Pace.{parse_reminder_pace, format_reminder_pace}
use aso_bell.Bot.Commands.{
  Args, RawCommand, Command, Subcommand, arg, needs_event_channel, parse_command, parse_action_id,
}
use aso_bell.Bot.Forms.{
  Form, EventFormInput, form_event_new, form_event_edit, new_event_form, edit_event_form,
  location_or_utc, parse_event_form, update_of,
}
use aso_bell.Bot.Reply.{
  Services, BotReply, Parsed, say, tell, reply_for_error, or_reply, or_missing, bind, or_wrong,
  optional, tell_or, parsed, wrong, ephemeral, open_form, form_errors, message_for_error,
  msg_unknown_command, msg_invalid_when, msg_invalid_ends, msg_invalid_pace, msg_event_updated,
  form_in, open_or_fail,
}
use aso_bell.Bot.Arguments.{
  create_input, chat_actor, parse_event_args, has_edit_args, parse_edit_args,
}

-- editEvent
edit_event : Services → Workspace → Event → Command → M BotReply
unfolding parse_edit_args
edit_event d ws ev cmd =
    if not (has_edit_args cmd) then open_or_fail (form_in d ws (edit_event_form ev)) else do
      at ← now
      tell_or (parse_edit_args d ws cmd at) λ update.
          or_reply
            (Create.update
              record { event_id = ev.id; update = update; actor = chat_actor cmd.user_id })
            λ ev'. tell msg_event_updated

abbrev pace_set : Services → ReminderPolicy → Text
pace_set d policy = codes "リマインドを「" ++ format_reminder_pace d.library policy ++ codes "」に設定しました"

-- setPace
set_pace : Services → Event → Command → M BotReply
set_pace d ev cmd =
    if is_empty (arg cmd (codes "pace"))
    then tell msg_invalid_pace
    else tell_or
        (or_wrong msg_invalid_pace (parse_reminder_pace d.library (arg cmd (codes "pace"))))
        λ policy.
          or_reply (Create.set_reminder_policy ev.id policy (chat_actor cmd.user_id))
            λ ev'. tell (pace_set d policy)

abbrev closed_text : EventStatus → Text
closed_text EventStatus.canceled = codes "イベントを中止しました"
closed_text EventStatus.open_status = codes "イベントを終了しました"
closed_text EventStatus.ended = codes "イベントを終了しました"

-- closeEvent
close_event : Event → Command → EndReason → M BotReply
close_event ev cmd reason =
    or_reply
      (Events.close record { event_id = ev.id; reason = reason; actor = chat_actor cmd.user_id })
      λ closed. tell (closed_text closed.status)

-- leave
leave : Event → Command → M BotReply
leave ev cmd =
    or_missing (codes "このイベントには参加していません") (Participation.leave ev.id cmd.user_id)
      λ part. tell (codes "イベントから抜けました")

-- info
info : Event → M BotReply
info ev =
    or_reply (Participation.active_members ev.id) λ members. say (event_info ev members.0 members.1)

abbrev msg_not_event_channel : Text
msg_not_event_channel = codes "イベントチャンネルで実行してください"

-- The switch of eventCommand.
on_event : Services → Workspace → Command → Subcommand → Event → M BotReply
unfolding edit_event set_pace close_event leave info
on_event d ws cmd Subcommand.edit ev = edit_event d ws ev cmd
on_event d ws cmd Subcommand.remind ev = set_pace d ev cmd
on_event d ws cmd Subcommand.end_event ev = close_event ev cmd EndReason.manual
on_event d ws cmd Subcommand.cancel ev = close_event ev cmd EndReason.canceled_reason
on_event d ws cmd Subcommand.leave ev = leave ev cmd
on_event d ws cmd Subcommand.info ev = info ev
on_event d ws cmd (Subcommand.unknown name) ev = tell msg_unknown_command
on_event d ws cmd _ ev = say help

-- eventCommand
unfoldable pub event_command : Services → Workspace → Command → M BotReply
unfolding on_event
event_command d ws cmd =
    or_missing msg_not_event_channel (reads (get_by_channel_id cmd.channel_id))
      (on_event d ws cmd cmd.sub)
