-- ===== src/Mongo/Documents.antt =====
-- internal/manager/store/mongo/docs.go: the documents as the repository fills and reads them. A
-- conversion between a string and a type of strings keeps its value, so such a field has the
-- domain's type; a duration and a time of day are texts.
use aso_bell.Common.{Bool, List, Option}
use aso_bell.Common.Int.{ℤ}
use aso_bell.Common.Text.{Text}
use aso_bell.Domain.Event.{EventStatus, EndReason, CreatedVia}
use aso_bell.Domain.Reminder.{ReminderMode}
use aso_bell.Domain.Participation.{Role, Status}
use aso_bell.Domain.Job.{JobKind, JobStatus}
use aso_bell.Domain.Account.{AccountOrigin}
use aso_bell.Domain.Provider.{ProviderKind, ProviderStatus}
use aso_bell.Store.State.{ReminderTargetKind}

pub record ReminderPolicyDoc : Type 0 where
  pub mode : ReminderMode
  pub offsets : List Text
  pub every : Text
  pub at : Text
  pub final_offset : Text

pub record DiscordSettingsDoc : Type 0 where
  pub event_category_id : Text
  pub archive_category_id : Text

pub record WorkspaceSettingsDoc : Type 0 where
  pub recruit_channel_id : Text
  pub timezone : Text
  pub default_reminder_policy : ReminderPolicyDoc
  pub peek_duration : Text
  pub auto_end_grace : Text
  pub channel_name_prefix : Text
  pub default_start_time : Text
  pub discord : DiscordSettingsDoc

pub record WorkspaceDoc (O : Type 0) : Type 0 where
  pub id : O
  pub provider : ProviderKind
  pub external_id : Text
  pub name : Text
  pub settings : WorkspaceSettingsDoc
  pub created_at : ℤ
  pub updated_at : ℤ

pub record ChatUserRefDoc : Type 0 where
  pub user_id : Text
  pub display_name : Text

pub record ChannelRefDoc : Type 0 where
  pub channel_id : Text
  pub name : Text
  pub archived : Bool

pub record MessageRefDoc : Type 0 where
  pub channel_id : Text
  pub message_id : Text

pub record MessageRefsDoc : Type 0 where
  pub announcement : Option MessageRefDoc
  pub recruit_announcement : Option MessageRefDoc
  pub summary : Option MessageRefDoc

pub record EventDoc (O : Type 0) : Type 0 where
  pub id : O
  pub workspace_id : O
  pub title : Text
  pub description : Text
  pub location : Text
  pub starts_at : ℤ
  pub ends_at : Option ℤ
  pub status : EventStatus
  pub organizer : ChatUserRefDoc
  pub origin_channel_id : Text
  pub channel : ChannelRefDoc
  pub messages : MessageRefsDoc
  pub reminder_policy : ReminderPolicyDoc
  pub participant_count : ℤ
  pub ended_at : Option ℤ
  pub end_reason : EndReason
  pub created_via : CreatedVia
  pub created_by : Text
  pub created_at : ℤ
  pub updated_at : ℤ

pub record ParticipationDoc (O : Type 0) : Type 0 where
  pub id : O
  pub event_id : O
  pub workspace_id : O
  pub chat_user_id : Text
  pub display_name : Text
  pub role : Role
  pub status : Status
  pub joined_at : ℤ
  pub expires_at : Option ℤ
  pub peek_count : ℤ
  pub updated_at : ℤ

pub record JobPayloadDoc : Type 0 where
  pub event_id : Text
  pub participation_id : Text
  pub sequence : ℤ
  pub scheduled_for : ℤ

pub record JobDoc (O : Type 0) : Type 0 where
  pub id : O
  pub kind : JobKind
  pub run_at : ℤ
  pub dedupe_key : Text
  pub event_id : Option O
  pub payload : JobPayloadDoc
  pub status : JobStatus
  pub attempts : ℤ
  pub max_attempts : ℤ
  pub lease_until : Option ℤ
  pub last_error : Text
  pub created_at : ℤ
  pub updated_at : ℤ
  pub finished_at : Option ℤ

pub record ReminderTargetDoc : Type 0 where
  pub kind : ReminderTargetKind
  pub channel_id : Text
  pub message_id : Text
  pub is_ok : Bool
  pub error : Text

pub record ReminderLogDoc (O : Type 0) : Type 0 where
  pub id : O
  pub event_id : O
  pub sequence : ℤ
  pub scheduled_for : ℤ
  pub sent_at : ℤ
  pub targets : List ReminderTargetDoc

pub record ConsoleUserDoc (O : Type 0) : Type 0 where
  pub id : O
  pub google_sub : Text
  pub email : Text
  pub name : Text
  pub picture : Text
  pub created_via : AccountOrigin
  pub created_at : ℤ
  pub last_login_at : ℤ

pub record ChatIdentityDoc (O : Type 0) : Type 0 where
  pub id : O
  pub console_user_id : O
  pub workspace_id : O
  pub provider : ProviderKind
  pub workspace_external_id : Text
  pub chat_user_id : Text
  pub display_name : Text
  pub linked_at : ℤ

pub record LinkTokenDoc (O : Type 0) : Type 0 where
  pub id : Text
  pub workspace_id : O
  pub chat_user_id : Text
  pub display_name : Text
  pub expires_at : ℤ
  pub consumed_at : Option ℤ

pub record SessionDoc (O : Type 0) : Type 0 where
  pub id : Text
  pub user_id : O
  pub csrftoken : Text
  pub created_at : ℤ
  pub expires_at : ℤ
  pub last_seen_at : ℤ

pub record OauthStateDoc : Type 0 where
  pub id : Text
  pub code_verifier : Text
  pub redirect_to : Text
  pub expires_at : ℤ

pub record CapabilitiesDoc : Type 0 where
  pub forms : Bool
  pub ephemeral : Bool
  pub direct_message : Bool

pub record ProviderDoc : Type 0 where
  pub id : Text
  pub kind : ProviderKind
  pub address : Text
  pub capabilities : CapabilitiesDoc
  pub version : Text
  pub bot_user_id : Text
  pub connected : Bool
  pub status : ProviderStatus
  pub failures : ℤ
  pub first_seen_at : ℤ
  pub last_seen_at : ℤ
  pub updated_at : ℤ
