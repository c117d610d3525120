-- ===== src/Domain/Workspace.antt =====
-- internal/manager/domain/workspace.go. time.LoadLocation is an argument: the transition tables
-- are data outside the repository.
use aso_bell.Common.{
  ℕ, Bool, true, false, not, ◌&&◌, ◌||◌, [], ◌∷◌, Option, none, some, leb, ltb, ◌==◌, if◌then◌else◌,
}
use aso_bell.Common.Int.{ℤ, pos, leb_ℤ, eq_ℤ}
use aso_bell.Common.Lists.{is_empty}
use aso_bell.Common.Text.{Text, codes, byte_len}
use aso_bell.Domain.Errors.{Error, check, err, merge}
use aso_bell.Domain.TimeOfDay.{TimeOfDay, Zone}
use aso_bell.Domain.TimeOfDay
use aso_bell.Domain.Reminder.{ReminderMode, ReminderPolicy, default_reminder_policy, one_day}
use aso_bell.Domain.Reminder
use aso_bell.Domain.Provider.{ProviderKind}
use aso_bell.Domain.Provider
use aso_bell.Domain.Job.{hour}

pub record DiscordSettings : Type 0 where
  pub event_category_id : Text
  pub archive_category_id : Text

pub record WorkspaceSettings : Type 0 where
  pub recruit_channel_id : Text
  pub timezone : Text
  pub default_reminder_policy : ReminderPolicy
  pub peek_duration : ℤ
  pub auto_end_grace : ℤ
  pub channel_name_prefix : Text
  pub default_start_time : TimeOfDay
  pub discord : DiscordSettings

pub record Workspace : Type 0 where
  pub id : Text
  pub provider : ProviderKind
  pub external_id : Text
  pub name : Text
  pub settings : WorkspaceSettings
  pub created_at : ℤ
  pub updated_at : ℤ

abbrev pub channel_name_prefix_max_len : ℕ
channel_name_prefix_max_len = 16

-- DefaultWorkspaceSettings
unfoldable pub default_workspace_settings : WorkspaceSettings
unfolding Reminder.default_reminder_policy
default_workspace_settings = record {
  recruit_channel_id = [];
  timezone = codes "Asia/Tokyo";
  default_reminder_policy = default_reminder_policy;
  peek_duration = pos hour;
  auto_end_grace = pos one_day;
  channel_name_prefix = codes "ev-";
  default_start_time = record { hour = pos 19; minute = pos 0 };
  discord = record { event_category_id = []; archive_category_id = [] };
}

-- channelNamePrefixPattern, ^[a-z0-9_-]*$
matches_prefix : Text → Bool
matches_prefix [] = true
matches_prefix (c ∷ s) =
    ((leb b'a' c && leb c b'z') || (leb b'0' c && leb c b'9') || c == b'_' || c == b'-')
    && matches_prefix s

abbrev is_found {ℓ} : {A : Type ℓ} → Option A → Bool
is_found none = false
is_found (some a) = true

-- (*WorkspaceSettings).Location, by time.LoadLocation: `none` is an error.
unfoldable pub location : (Text → Option Zone) → WorkspaceSettings → Option Zone
location load_location s = load_location s.timezone

-- (*WorkspaceSettings).Validate
unfoldable pub validate_settings : (Text → Option Zone) → WorkspaceSettings → Option Error
unfolding matches_prefix
validate_settings load_location s =
    let v1 =
      if is_empty s.timezone
      then check true (codes "settings.timezone") (codes "must not be empty") []
      else check (not (is_found (load_location s.timezone))) (codes "settings.timezone")
          (codes "unknown timezone %q") [] in
    let v2 =
      check (leb_ℤ s.peek_duration (pos 0)) (codes "settings.peek_duration")
        (codes "must be positive") v1 in
    let v3 =
      check (leb_ℤ s.auto_end_grace (pos 0)) (codes "settings.auto_end_grace")
        (codes "must be positive") v2 in
    let v4 =
      check (ltb channel_name_prefix_max_len (byte_len s.channel_name_prefix))
        (codes "settings.channel_name_prefix") (codes "must not exceed %d characters") v3 in
    let v5 =
      check (not (matches_prefix s.channel_name_prefix)) (codes "settings.channel_name_prefix")
        (codes "must consist of lowercase letters, digits, '-' and '_'") v4 in
    let v6 =
      check (not (TimeOfDay.is_valid s.default_start_time)) (codes "settings.default_start_time")
        (codes "must be HH:MM") v5 in
    err (
      merge v6 (codes "settings.default_reminder_policy")
        (Reminder.validate s.default_reminder_policy (codes "settings.default_reminder_policy")))

-- Mode == ""
abbrev pub is_unset : ReminderMode → Bool
is_unset ReminderMode.offsets = false
is_unset ReminderMode.interval = false
is_unset ReminderMode.none_mode = false
is_unset (ReminderMode.unknown t) = is_empty t

-- (*WorkspaceSettings).Normalize
unfoldable pub normalize : WorkspaceSettings → WorkspaceSettings
unfolding default_workspace_settings
normalize s =
    let d = default_workspace_settings in
    record s {
      timezone = if is_empty s.timezone then d.timezone else s.timezone;
      peek_duration = if eq_ℤ s.peek_duration (pos 0) then d.peek_duration else s.peek_duration;
      auto_end_grace = if eq_ℤ s.auto_end_grace (pos 0) then d.auto_end_grace else s.auto_end_grace;
      channel_name_prefix =
          if is_empty s.channel_name_prefix then d.channel_name_prefix else s.channel_name_prefix;
      default_start_time =
          if eq_ℤ s.default_start_time.hour (pos 0) && eq_ℤ s.default_start_time.minute (pos 0)
          then d.default_start_time
          else s.default_start_time;
      default_reminder_policy =
          if is_unset s.default_reminder_policy.mode
          then d.default_reminder_policy
          else s.default_reminder_policy;
    }

-- (Workspace).Validate
unfoldable pub validate_workspace : (Text → Option Zone) → Workspace → Option Error
unfolding validate_settings
validate_workspace load_location w =
    let v1 =
      check (not (Provider.is_valid w.provider)) (codes "provider") (codes "unknown provider %q")
        [] in
    let v2 = check (is_empty w.external_id) (codes "external_id") (codes "must not be empty") v1 in
    let v3 = check (is_empty w.name) (codes "name") (codes "must not be empty") v2 in
    err (merge v3 (codes "settings") (validate_settings load_location w.settings))
