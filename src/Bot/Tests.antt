-- ===== src/Bot/Tests.antt =====
-- Runs of the theorems on the bot at concrete inputs.
use aso_bell.Common.{◌≡◌, refl, true, false, [], some}
use aso_bell.Common.Int.{pos}
use aso_bell.Common.Text.{Text, codes, text_eq, trim_space}
use aso_bell.Domain.Errors.{ok}
use aso_bell.Domain.Identifier.{is_id}
use aso_bell.Domain.Participation.{Action}
use aso_bell.Store.Events.{find_event, get_by_channel_id}
use aso_bell.Usecase.Tests.{picnic, start, calm}
use aso_bell.Bot.{command}
use aso_bell.Bot.DateTime.Tests.{plain}
use aso_bell.Bot.Commands.{
  Command, RawCommand, Subcommand, parse_command, action_id, parse_action_id,
}
use aso_bell.Bot.Commands.ActionIds.{parse_action_id-action_id}
use aso_bell.Bot.EventCommands.Refused.{LeavesAlone}
use aso_bell.Bot.Refused.{command-LeavesAlone}
use aso_bell.Bot.Reply.{Services}

abbrev some_event : Text
some_event = codes "00000000000000000000000a"

some_event-is_id : is_id some_event ≡ true
unfolding is_id
some_event-is_id = refl

parse_action_id-action_id_example :
    parse_action_id (action_id Action.peek some_event) ≡ some (Action.peek, some_event)
parse_action_id-action_id_example =
    parse_action_id-action_id Action.peek some_event tt some_event-is_id

abbrev services : Services
services = record {
  library = plain;
  codec = record { encode = λ s. s; decode = λ s. some s; parse_int = λ s. some (pos 0) };
  console_url = codes "https://example.com/";
}

-- Another user ends the event by a text command.
abbrev foreign_end : RawCommand
foreign_end = record {
  workspace = record { workspace_id = codes "w1"; external_id = [] };
  channel_id = codes "C2";
  user_id = codes "U2";
  name = [];
  args = [];
  raw_text = codes "/asobell  end";
}

abbrev foreign_end_parsed : Command
foreign_end_parsed = record {
  sub = Subcommand.end_event;
  args = [];
  workspace = foreign_end.workspace;
  channel_id = codes "C2";
  user_id = codes "U2";
  raw_text = codes "/asobell end";
}

foreign_end_read : parse_command plain foreign_end ≡ some foreign_end_parsed
unfolding parse_command text_eq trim_space
foreign_end_read = refl

picnic_here : get_by_channel_id (codes "C2") start.store ≡ ok picnic
unfolding get_by_channel_id text_eq
picnic_here = refl

picnic_found : find_event (codes "e1") start.store ≡ some picnic
unfolding text_eq
picnic_found = refl

not_organizer : text_eq (codes "U2") picnic.organizer.user_id ≡ false
unfolding text_eq
not_organizer = refl

command-LeavesAlone_example : LeavesAlone (command services foreign_end calm start) start
command-LeavesAlone_example =
    command-LeavesAlone services foreign_end foreign_end_parsed picnic calm start foreign_end_read
      refl picnic_here picnic_found not_organizer
