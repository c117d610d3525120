-- ===== src/Mongo/Records.antt =====
-- internal/manager/store/mongo/convert.go: participations, jobs, logs, accounts and the provider.
use aso_bell.Common.{List, [], ◌∷◌, Option, none, some}
use aso_bell.Common.Text.{Text}
use aso_bell.Domain.Participation.{Participation}
use aso_bell.Domain.Job.{Job}
use aso_bell.Domain.Account.{ConsoleUser, ChatIdentity, LinkToken}
use aso_bell.Domain.Provider.{ProviderState}
use aso_bell.Store.State.{ReminderTarget, ReminderLog}
use aso_bell.Mongo.{ObjectIds, utc, utc_ptr}
use aso_bell.Mongo.Documents.{
  ParticipationDoc, JobDoc, ReminderTargetDoc, ReminderLogDoc, ConsoleUserDoc, ChatIdentityDoc,
  LinkTokenDoc, ProviderDoc,
}

-- decodeParticipation
unfoldable pub decode_participation :
    {O : Type 0} → ObjectIds O → ParticipationDoc O → Participation
decode_participation ids doc = record {
  id = ids.hex doc.id;
  event_id = ids.hex doc.event_id;
  workspace_id = ids.hex doc.workspace_id;
  chat_user_id = doc.chat_user_id;
  display_name = doc.display_name;
  role = doc.role;
  status = doc.status;
  joined_at = utc doc.joined_at;
  expires_at = utc_ptr doc.expires_at;
  peek_count = doc.peek_count;
  updated_at = utc doc.updated_at;
}

-- `if doc.EventID != nil`
abbrev hex_or_empty : {O : Type 0} → ObjectIds O → Option O → Text
hex_or_empty ids none = []
hex_or_empty ids (some o) = ids.hex o

-- decodeJob
unfoldable pub decode_job : {O : Type 0} → ObjectIds O → JobDoc O → Job
decode_job ids doc = record {
  id = ids.hex doc.id;
  kind = doc.kind;
  run_at = utc doc.run_at;
  dedupe_key = doc.dedupe_key;
  event_id = hex_or_empty ids doc.event_id;
  payload = record {
    event_id = doc.payload.event_id;
    participation_id = doc.payload.participation_id;
    sequence = doc.payload.sequence;
    scheduled_for = utc doc.payload.scheduled_for;
  };
  status = doc.status;
  attempts = doc.attempts;
  max_attempts = doc.max_attempts;
  lease_until = utc_ptr doc.lease_until;
  last_error = doc.last_error;
  created_at = utc doc.created_at;
  updated_at = utc doc.updated_at;
  finished_at = utc_ptr doc.finished_at;
}

-- The loop over the targets of decodeReminderLog.
decode_targets : List ReminderTargetDoc → List ReminderTarget
decode_targets [] = []
decode_targets (t ∷ rest) =
    record {
      kind = t.kind;
      channel_id = t.channel_id;
      message_id = t.message_id;
      is_ok = t.is_ok;
      error = t.error;
    }
    ∷ decode_targets rest

-- decodeReminderLog
unfoldable pub decode_reminder_log : {O : Type 0} → ObjectIds O → ReminderLogDoc O → ReminderLog
unfolding decode_targets
decode_reminder_log ids doc = record {
  id = ids.hex doc.id;
  event_id = ids.hex doc.event_id;
  sequence = doc.sequence;
  scheduled_for = utc doc.scheduled_for;
  sent_at = utc doc.sent_at;
  targets = decode_targets doc.targets;
}

-- decodeConsoleUser
unfoldable pub decode_console_user : {O : Type 0} → ObjectIds O → ConsoleUserDoc O → ConsoleUser
decode_console_user ids doc = record {
  id = ids.hex doc.id;
  google_sub = doc.google_sub;
  email = doc.email;
  name = doc.name;
  picture = doc.picture;
  created_via = doc.created_via;
  created_at = utc doc.created_at;
  last_login_at = utc doc.last_login_at;
}

-- decodeChatIdentity
unfoldable pub decode_chat_identity : {O : Type 0} → ObjectIds O → ChatIdentityDoc O → ChatIdentity
decode_chat_identity ids doc = record {
  id = ids.hex doc.id;
  console_user_id = ids.hex doc.console_user_id;
  workspace_id = ids.hex doc.workspace_id;
  provider = doc.provider;
  workspace_external_id = doc.workspace_external_id;
  chat_user_id = doc.chat_user_id;
  display_name = doc.display_name;
  linked_at = utc doc.linked_at;
}

-- decodeLinkToken
unfoldable pub decode_link_token : {O : Type 0} → ObjectIds O → LinkTokenDoc O → LinkToken
decode_link_token ids doc = record {
  id = doc.id;
  workspace_id = ids.hex doc.workspace_id;
  chat_user_id = doc.chat_user_id;
  display_name = doc.display_name;
  expires_at = utc doc.expires_at;
  consumed_at = utc_ptr doc.consumed_at;
}

-- decodeProvider
unfoldable pub decode_provider : ProviderDoc → ProviderState
decode_provider doc = record {
  kind = doc.kind;
  address = doc.address;
  capabilities = record {
    forms = doc.capabilities.forms;
    ephemeral = doc.capabilities.ephemeral;
    direct_message = doc.capabilities.direct_message;
  };
  version = doc.version;
  bot_user_id = doc.bot_user_id;
  connected = doc.connected;
  status = doc.status;
  failures = doc.failures;
  first_seen_at = utc doc.first_seen_at;
  last_seen_at = utc doc.last_seen_at;
  updated_at = utc doc.updated_at;
}
