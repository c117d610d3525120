-- ===== src/Mongo/Convert.antt =====
-- internal/manager/store/mongo/convert.go: policies, settings and workspaces. Every error of a
-- decoder is `none`.
pub mod RoundTrip
use aso_bell.Common.{List, [], ◌∷◌, Option, none, some, if◌then◌else◌}
use aso_bell.Common.Int.{ℤ, pos}
use aso_bell.Common.Lists.{is_empty}
use aso_bell.Common.Text.{Text}
use aso_bell.Domain.TimeOfDay.{TimeOfDay, to_text, parse_time_of_day}
use aso_bell.Domain.Reminder.{ReminderMode, ReminderPolicy}
use aso_bell.Domain.Duration.{DurationText, format_duration}
use aso_bell.Domain.Workspace.{WorkspaceSettings, Workspace}
use aso_bell.Mongo.{ObjectIds, utc}
use aso_bell.Mongo.Documents.{ReminderPolicyDoc, WorkspaceSettingsDoc, WorkspaceDoc}

-- The loop over the offsets of encodeReminderPolicy.
encode_offsets : DurationText → List ℤ → List Text
unfolding format_duration
encode_offsets t [] = []
encode_offsets t (off ∷ rest) = format_duration t off ∷ encode_offsets t rest

-- What is written of the fields of an interval.
abbrev of_interval : ReminderMode → Text → Text
of_interval ReminderMode.offsets s = []
of_interval ReminderMode.interval s = s
of_interval ReminderMode.none_mode s = []
of_interval (ReminderMode.unknown m) s = []

-- encodeReminderPolicy
unfoldable pub encode_reminder_policy : DurationText → ReminderPolicy → ReminderPolicyDoc
unfolding encode_offsets format_duration
encode_reminder_policy t p = record {
  mode = p.mode;
  offsets = encode_offsets t p.offsets;
  every = of_interval p.mode (format_duration t p.every);
  at = of_interval p.mode (to_text p.at);
  final_offset = of_interval p.mode (format_duration t p.final_offset);
}

abbrev and_rest : Option ℤ → Option (List ℤ) → Option (List ℤ)
and_rest (some d) (some ds) = some (d ∷ ds)
and_rest _ _ = none

-- The loop over the offsets of decodeReminderPolicy.
decode_offsets : DurationText → List Text → Option (List ℤ)
decode_offsets t [] = some []
decode_offsets t (s ∷ rest) = and_rest (t.parse s) (decode_offsets t rest)

-- `if doc.Every != ""`
abbrev duration_or_zero : DurationText → Text → Option ℤ
duration_or_zero t s = if is_empty s then some (pos 0) else t.parse s

abbrev midnight : TimeOfDay
midnight = record { hour = pos 0; minute = pos 0 }

-- `if doc.At != ""`
abbrev time_or_midnight : Text → Option TimeOfDay
time_or_midnight s = if is_empty s then some midnight else parse_time_of_day s

abbrev policy_of :
    ReminderMode → Option (List ℤ) → Option ℤ → Option ℤ → Option TimeOfDay → Option ReminderPolicy
policy_of mode (some offsets) (some every) (some final) (some at) =
    some record { mode = mode; offsets = offsets; every = every; at = at; final_offset = final }
policy_of _ _ _ _ _ = none

-- decodeReminderPolicy
unfoldable pub decode_reminder_policy : DurationText → ReminderPolicyDoc → Option ReminderPolicy
unfolding decode_offsets
decode_reminder_policy t doc =
    policy_of doc.mode (decode_offsets t doc.offsets) (duration_or_zero t doc.every)
      (duration_or_zero t doc.final_offset) (time_or_midnight doc.at)

-- encodeWorkspaceSettings
unfoldable pub encode_workspace_settings : DurationText → WorkspaceSettings → WorkspaceSettingsDoc
unfolding encode_reminder_policy format_duration
encode_workspace_settings t s = record {
  recruit_channel_id = s.recruit_channel_id;
  timezone = s.timezone;
  default_reminder_policy = encode_reminder_policy t s.default_reminder_policy;
  peek_duration = format_duration t s.peek_duration;
  auto_end_grace = format_duration t s.auto_end_grace;
  channel_name_prefix = s.channel_name_prefix;
  default_start_time = to_text s.default_start_time;
  discord = record {
    event_category_id = s.discord.event_category_id;
    archive_category_id = s.discord.archive_category_id;
  };
}

abbrev settings_of :
    WorkspaceSettingsDoc
    → Option ReminderPolicy
    → Option ℤ
    → Option ℤ
    → Option TimeOfDay
    → Option WorkspaceSettings
settings_of doc (some policy) (some peek) (some grace) (some at) = some record {
  recruit_channel_id = doc.recruit_channel_id;
  timezone = doc.timezone;
  default_reminder_policy = policy;
  peek_duration = peek;
  auto_end_grace = grace;
  channel_name_prefix = doc.channel_name_prefix;
  default_start_time = at;
  discord = record {
    event_category_id = doc.discord.event_category_id;
    archive_category_id = doc.discord.archive_category_id;
  };
}
settings_of _ _ _ _ _ = none

-- decodeWorkspaceSettings
unfoldable pub decode_workspace_settings :
    DurationText → WorkspaceSettingsDoc → Option WorkspaceSettings
unfolding decode_reminder_policy
decode_workspace_settings t doc =
    settings_of doc (decode_reminder_policy t doc.default_reminder_policy)
      (t.parse doc.peek_duration) (t.parse doc.auto_end_grace)
      (parse_time_of_day doc.default_start_time)

abbrev workspace_of :
    {O : Type 0} → ObjectIds O → WorkspaceDoc O → Option WorkspaceSettings → Option Workspace
workspace_of ids doc none = none
workspace_of ids doc (some settings) = some record {
  id = ids.hex doc.id;
  provider = doc.provider;
  external_id = doc.external_id;
  name = doc.name;
  settings = settings;
  created_at = utc doc.created_at;
  updated_at = utc doc.updated_at;
}

-- decodeWorkspace
unfoldable pub decode_workspace :
    {O : Type 0} → ObjectIds O → DurationText → WorkspaceDoc O → Option Workspace
unfolding decode_workspace_settings
decode_workspace ids t doc = workspace_of ids doc (decode_workspace_settings t doc.settings)
