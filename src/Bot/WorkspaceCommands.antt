-- ===== src/Bot/WorkspaceCommands.antt =====
-- internal/manager/bot/dispatch.go: the commands of a workspace.
use aso_bell.Common.{◌||◌, [], ◌∷◌, ◌++◌, some, ◌==◌, if◌then◌else◌}
use aso_bell.Common.Int.{pos}
use aso_bell.Common.Lists.{is_empty}
use aso_bell.Common.Text.{Text, codes, text_eq, trim_space, trim_right}
use aso_bell.Domain.Errors.{Error, Result, ok}
use aso_bell.Domain.Event.{EventStatus}
use aso_bell.Domain.Workspace.{Workspace}
use aso_bell.Store.Paging.{Codec, EventPage}
use aso_bell.Store.Paging
use aso_bell.Usecase.Effects.{
  M, ◌>>=◌, attempt, reads, now, help, created_message, event_list, link_invitation, already_linked,
}
use aso_bell.Usecase.Events.Create
use aso_bell.Usecase.Events.Create.{CreateEventInput}
use aso_bell.Usecase.Identity
use aso_bell.Usecase.Workspaces
use aso_bell.Bot.Commands.{Command, Subcommand, arg}
use aso_bell.Bot.Forms.{new_event_form}
use aso_bell.Bot.Reply.{
  Services, BotReply, say, tell, reply_for_error, or_reply, or_missing, tell_or,
  msg_unknown_command, form_in, open_or_fail,
}
use aso_bell.Bot.Arguments.{create_input, parse_event_args}
use aso_bell.Domain.Account.{ConsoleUser}

-- newEvent
new_event : Services → Workspace → Command → M BotReply
unfolding parse_event_args
new_event d ws cmd =
    if is_empty (arg cmd (codes "title")) || is_empty (arg cmd (codes "when"))
    then (do at ← now; open_or_fail (form_in d ws (new_event_form at ws.settings cmd.channel_id)))
    else do
      at ← now
      tell_or (parse_event_args d ws cmd at) λ i.
          or_reply (Create.create (create_input ws cmd.user_id cmd.channel_id i))
            λ ev. say (created_message ev)

-- listEvents
list_events : Services → Workspace → M BotReply
list_events d ws = do
  at ← now
  or_reply
      (reads (
        Paging.list d.codec record {
          workspace_id = ws.id;
          statuses = EventStatus.open_status ∷ [];
          ids = [];
          starts_after = some at;
          limit = pos 0;
          cursor = [];
        }))
      λ page. say (event_list page.events at)

abbrev set_here : Workspace → Command → M BotReply
set_here ws cmd =
    or_reply (Workspaces.set_recruit_channel ws.id cmd.channel_id)
      λ ws'. tell (codes "このチャンネルを募集チャンネルに設定しました")

abbrev clear_set : Workspace → M BotReply
clear_set ws =
    or_reply (Workspaces.clear_recruit_channel ws.id)
      λ ws'. tell (codes "このワークスペースの募集チャンネル設定を解除しました")

-- recruit
recruit : Services → Workspace → Command → M BotReply
recruit d ws cmd =
    let action = d.library.to_lower (trim_space (arg cmd (codes "action"))) in
    if text_eq action (codes "set")
    then set_here ws cmd
    else if text_eq action (codes "clear")
    then clear_set ws
    else tell (codes "`/asobell recruit set` または `/asobell recruit clear` を指定してください")

-- linkURL
abbrev link_url : Services → Text → Text
link_url d token = trim_right (λ c. c == b'/') d.console_url ++ (codes "/link/" ++ token)

invite : Services → Workspace → Command → M BotReply
invite d ws cmd =
    or_reply (Identity.issue_link_token ws.id cmd.user_id [])
      λ token. say (link_invitation (link_url d token))

login_by : Services → Workspace → Command → Result ConsoleUser → M BotReply
unfolding invite
login_by d ws cmd (ok user) = say (already_linked user.email d.console_url)
login_by d ws cmd (Result.failed Error.not_found) = invite d ws cmd
login_by d ws cmd (Result.failed e) = reply_for_error e

-- login
login : Services → Workspace → Command → M BotReply
unfolding login_by
login d ws cmd = attempt (Identity.resolve_console_user ws.id cmd.user_id) >>= login_by d ws cmd

-- unlink
unlink : Workspace → Command → M BotReply
unlink ws cmd =
    or_missing (codes "WebConsole と連携していません。`/asobell login` から連携できます")
      (Identity.unlink_chat_user ws.id cmd.user_id) λ u. tell (codes "WebConsole との連携を解除しました")

-- workspaceCommand
unfoldable pub workspace_command : Services → Workspace → Command → Subcommand → M BotReply
unfolding new_event list_events recruit login unlink
workspace_command d ws cmd Subcommand.new = new_event d ws cmd
workspace_command d ws cmd Subcommand.list = list_events d ws
workspace_command d ws cmd Subcommand.recruit = recruit d ws cmd
workspace_command d ws cmd Subcommand.login = login d ws cmd
workspace_command d ws cmd Subcommand.unlink = unlink ws cmd
workspace_command d ws cmd (Subcommand.unknown name) = tell msg_unknown_command
workspace_command d ws cmd _ = say help
