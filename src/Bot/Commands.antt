-- ===== src/Bot/Commands.antt =====
-- internal/manager/bot/command.go and action.go. A map of arguments is a list of its entries in the
-- order in which they were written, of which the last of a key counts.
use aso_bell.Common.{
  ℕ, Bool, true, false, not, ◌&&◌, ◌||◌, List, [], ◌∷◌, ◌++◌, Option, none, some, ◌==◌,
  if◌then◌else◌,
}
use aso_bell.Common.Lists.{is_empty}
use aso_bell.Common.Text.{Text, codes, text_eq, trim_space}
use aso_bell.Domain.Participation.{Action}
use aso_bell.Usecase.Effects.{WorkspaceRef}
use aso_bell.Bot.Input.{Library, normalize_input, cut_at, split_at}
pub mod ActionIds

pub data Subcommand : Type 0 where
  new edit remind end_event cancel leave info list recruit login unlink help : Subcommand
  unknown : Text → Subcommand

abbrev pub Args : Type 0
Args = List (Text × Text)

-- The value of a key, the empty text if it is missing, as reading a Go map gives.
unfoldable pub lookup : Text → Args → Text
lookup key [] = []
lookup key ((k, v) ∷ args) = if text_eq k key then v else lookup key args

unfoldable pub has_key : Text → Args → Bool
has_key key [] = false
has_key key ((k, v) ∷ args) = text_eq k key || has_key key args

-- Command of manager.proto
pub record RawCommand : Type 0 where
  pub workspace : WorkspaceRef
  pub channel_id : Text
  pub user_id : Text
  pub name : Text
  pub args : Args
  pub raw_text : Text

pub record Command : Type 0 where
  pub sub : Subcommand
  pub args : Args
  pub workspace : WorkspaceRef
  pub channel_id : Text
  pub user_id : Text
  pub raw_text : Text

-- Arg
abbrev pub arg : Command → Text → Text
arg cmd key = lookup key cmd.args

subcommand_names : List (Text × Subcommand)
subcommand_names =
    (codes "new", new)
    ∷ (codes "edit", edit)
    ∷ (codes "remind", remind)
    ∷ (codes "end", end_event)
    ∷ (codes "cancel", cancel)
    ∷ (codes "leave", leave)
    ∷ (codes "info", info)
    ∷ (codes "list", list)
    ∷ (codes "recruit", recruit)
    ∷ (codes "login", login)
    ∷ (codes "unlink", unlink)
    ∷ (codes "help", help)
    ∷ []

named : Text → List (Text × Subcommand) → Subcommand
named name [] = unknown name
named name ((n, sub) ∷ names) = if text_eq n name then sub else named name names

-- Subcommand(name)
unfoldable pub subcommand : Text → Subcommand
unfolding named subcommand_names
subcommand name = named name subcommand_names

-- Valid
abbrev pub is_valid : Subcommand → Bool
is_valid (unknown name) = false
is_valid _ = true

-- NeedsEventChannel
abbrev pub needs_event_channel : Subcommand → Bool
needs_event_channel edit = true
needs_event_channel remind = true
needs_event_channel end_event = true
needs_event_channel cancel = true
needs_event_channel leave = true
needs_event_channel info = true
needs_event_channel _ = false

-- OrganizerOnly
abbrev pub organizer_only : Subcommand → Bool
organizer_only edit = true
organizer_only remind = true
organizer_only end_event = true
organizer_only cancel = true
organizer_only _ = false

-- strings.CutPrefix
unfoldable pub cut_prefix : Text → Text → Option Text
cut_prefix [] s = some s
cut_prefix (p ∷ prefix) [] = none
cut_prefix (p ∷ prefix) (c ∷ s) = let rest = cut_prefix prefix s in if p == c then rest else none

abbrev without_name : Text → Option Text → Text
without_name s none = s
without_name s (some after) = trim_space after

-- splitSubcommand
unfoldable pub split_subcommand : Library → Text → Text × Text
unfolding cut_prefix cut_at
split_subcommand l raw =
    let text = trim_space raw in
    let (name, rest) = cut_at b' ' (without_name text (cut_prefix (codes "/asobell") text)) in
    (l.to_lower name, trim_space rest)

-- setIfAbsent
unfoldable pub set_if_absent : Args → Text → Text → Args
unfolding has_key
set_if_absent args key value = if has_key key args then args else (key, value) ∷ args

merge_sub : Library → Args → Subcommand → Text → Args
unfolding set_if_absent cut_at
merge_sub l args remind rest = set_if_absent args (codes "pace") rest
merge_sub l args recruit rest =
    set_if_absent args (codes "action") (l.to_lower (cut_at b' ' rest).0)
merge_sub l args _ rest = args

-- mergePositionalArgs
unfoldable pub merge_positional_args : Library → Args → Subcommand → Text → Args
unfolding merge_sub
merge_positional_args l args sub rest = if is_empty rest then args else merge_sub l args sub rest

-- The loop over the arguments; a later entry overwrites an earlier one of the same key.
read_args : Library → Args → Args → Args
read_args l seen [] = seen
read_args l seen ((k, v) ∷ args) =
    read_args l
      (if is_empty (trim_space v) then seen else (l.to_lower (trim_space k), trim_space v) ∷ seen)
      args

abbrev command_of : RawCommand → Text → Args → Subcommand → Command
command_of raw raw_text args sub = record {
  sub = sub;
  args = args;
  workspace = raw.workspace;
  channel_id = raw.channel_id;
  user_id = raw.user_id;
  raw_text = raw_text;
}

-- The check of the name behind its split.
abbrev if_known : RawCommand → Text → Text → Args → Option Command
if_known raw raw_text name args =
    if is_empty name
    then some (command_of raw raw_text args help)
    else if not (is_valid (subcommand name))
    then none
    else some (command_of raw raw_text args (subcommand name))

-- ParseCommand: `none` is ErrUnknownCommand.
unfoldable pub parse_command : Library → RawCommand → Option Command
unfolding normalize_input split_subcommand merge_positional_args subcommand read_args
parse_command l raw =
    let args = read_args l [] raw.args in
    let name = l.to_lower (trim_space raw.name) in
    let raw_text = normalize_input l raw.raw_text in
    if is_empty name
    then (let (sub, rest) = split_subcommand l raw_text in
        if_known raw raw_text sub (merge_positional_args l args (subcommand sub) rest))
    else if_known raw raw_text name args

abbrev action_prefix : Text
action_prefix = codes "asobell"

abbrev pub action_name : Action → Text
action_name Action.join = codes "join"
action_name Action.peek = codes "peek"
action_name (Action.other_action name) = name

-- ActionID
unfoldable pub action_id : Action → Text → Text
action_id action event_id = action_prefix ++ b':' ∷ (action_name action ++ b':' ∷ event_id)

abbrev button_of : Text → Text → Option (Action × Text)
button_of name event_id =
    if text_eq name (codes "join")
    then some (Action.join, event_id)
    else if text_eq name (codes "peek")
    then some (Action.peek, event_id)
    else none

abbrev button_parts : List Text → Option (Action × Text)
button_parts (prefix ∷ name ∷ event_id ∷ []) =
    if not (text_eq prefix action_prefix) || is_empty event_id
    then none
    else button_of name event_id
button_parts _ = none

-- ParseActionID: `none` is ErrUnknownAction.
unfoldable pub parse_action_id : Text → Option (Action × Text)
unfolding split_at
parse_action_id id = button_parts (split_at (λ c. c == b':') (trim_space id))
