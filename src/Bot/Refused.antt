-- ===== src/Bot/Refused.antt =====
-- dispatch.go, Command: only the organizer changes an event.
use aso_bell.Common.{◌≡◌, refl, true, false, some, Bool-cases, inl, inr}
use aso_bell.Common.Text.{text_eq}
use aso_bell.Domain.Errors.{Result, ok}
use aso_bell.Domain.Event.{Event}
use aso_bell.Domain.Workspace.{Workspace}
use aso_bell.Store.Events.{find_event, get_by_channel_id}
use aso_bell.Common.Lists.{is_empty}
use aso_bell.Usecase.Effects.{Env, World, WorkspaceRef, workspace}
use aso_bell.Usecase.Workspaces.{resolve}
use aso_bell.Bot.{command, in_workspace, run_parsed, is_help}
use aso_bell.Bot.Commands.{
  Command, RawCommand, Subcommand, parse_command, organizer_only, needs_event_channel,
}
use aso_bell.Bot.Reply.{Services, reply_or}
use aso_bell.Bot.EventCommands.Refused.{LeavesAlone, event_command-LeavesAlone}

resolve_kept : (ref : WorkspaceRef) (env : Env) (w : World) → (resolve ref env w).1 ≡ w
unfolding resolve workspace
resolve_kept ref env w = elim (Bool-cases (is_empty ref.workspace_id)) [
  | inr e ↦ rw e refl
  | inl e ↦ elim (Bool-cases (is_empty ref.external_id)) [
    | inl f ↦ rw (e, f) refl
    | inr f ↦ rw (e, f) refl
  ]
]

organizer_needs_channel :
    (sub : Subcommand)
    → organizer_only sub ≡ true
    → (is_help sub ≡ false) × (needs_event_channel sub ≡ true)
organizer_needs_channel Subcommand.edit h = (refl, refl)
organizer_needs_channel Subcommand.remind h = (refl, refl)
organizer_needs_channel Subcommand.end_event h = (refl, refl)
organizer_needs_channel Subcommand.cancel h = (refl, refl)
organizer_needs_channel Subcommand.new h = absurd (cc)
organizer_needs_channel Subcommand.leave h = absurd (cc)
organizer_needs_channel Subcommand.info h = absurd (cc)
organizer_needs_channel Subcommand.list h = absurd (cc)
organizer_needs_channel Subcommand.recruit h = absurd (cc)
organizer_needs_channel Subcommand.login h = absurd (cc)
organizer_needs_channel Subcommand.unlink h = absurd (cc)
organizer_needs_channel Subcommand.help h = absurd (cc)
organizer_needs_channel (Subcommand.unknown name) h = absurd (cc)

-- A command edit, remind, end or cancel of a user who is not the organizer of the channel's event is
-- answered, whatever its arguments are and whatever the environment does: the repository stays as it
-- is, and the provider is asked nothing.
pub command-LeavesAlone :
    (d : Services) (raw : RawCommand) (cmd : Command) (ev : Event) (env : Env) (w : World)
    → parse_command d.library raw ≡ some cmd
    → organizer_only cmd.sub ≡ true
    → get_by_channel_id cmd.channel_id w.store ≡ ok ev
    → find_event ev.id w.store ≡ some ev
    → text_eq cmd.user_id ev.organizer.user_id ≡ false
    → LeavesAlone (command d raw env w) w
unfolding command run_parsed in_workspace
command-LeavesAlone d raw cmd ev env w read organizer here found stranger =
    rw (read, resolve_kept cmd.workspace env w) (at_workspace (resolve cmd.workspace env w).0)
  where
    at_workspace : (r : Result Workspace) → LeavesAlone (reply_or (in_workspace d cmd) r env w) w
    at_workspace (Result.failed e) = ((_, refl), refl, refl)
    at_workspace (ok ws) =
        let (other, needed) = organizer_needs_channel cmd.sub organizer in
        rw (other, needed)
          (event_command-LeavesAlone d ws cmd ev env w found stranger here organizer)
