-- ===== src/Store/State.antt =====
-- memstore.go: the Store, its ID sequence, and the walks over its slices of pointers.
use aso_bell.Common.{
  ℕ, zero, suc, ◌+◌, ◌*◌, ◌/◌, ◌%◌, ◌-◌, Bool, true, false, List, [], ◌∷◌, ◌++◌, Option, none, some,
  ltb, if◌then◌else◌,
}
use aso_bell.Common.Int.{ℤ, pos}
use aso_bell.Common.Lists.{length, replicate}
use aso_bell.Common.Text.{Text}
use aso_bell.Domain.Job.{Job}
use aso_bell.Domain.Event.{Event}
use aso_bell.Domain.Participation.{Participation}
use aso_bell.Domain.Workspace.{Workspace}
use aso_bell.Domain.Provider.{ProviderState}
use aso_bell.Domain.Account.{LinkToken, Session, ConsoleUser, ChatIdentity, OauthState}
pub mod Ids

-- reminderlog.go
pub data ReminderTargetKind : Type 0 where
  event recruit : ReminderTargetKind

pub record ReminderTarget : Type 0 where
  pub kind : ReminderTargetKind
  pub channel_id : Text
  pub message_id : Text
  pub is_ok : Bool
  pub error : Text

pub record ReminderLog : Type 0 where
  pub id : Text
  pub event_id : Text
  pub sequence : ℤ
  pub scheduled_for : ℤ
  pub sent_at : ℤ
  pub targets : List ReminderTarget

-- The slices and maps of the Store that the modelled methods use. A map is its list of values,
-- which carry their keys.
pub record Store : Type 0 where
  pub seq : ℕ
  pub provider : Option ProviderState
  pub schema_version : ℤ
  pub workspaces : List Workspace
  pub events : List Event
  pub participations : List Participation
  pub jobs : List Job
  pub reminder_logs : List ReminderLog
  pub link_tokens : List LinkToken
  pub sessions : List Session
  pub console_users : List ConsoleUser
  pub chat_identities : List ChatIdentity
  pub oauth_states : List OauthState

-- New
unfoldable pub new : Store
new = record {
  seq = 0;
  provider = none;
  schema_version = pos 0;
  workspaces = [];
  events = [];
  participations = [];
  jobs = [];
  reminder_logs = [];
  link_tokens = [];
  sessions = [];
  console_users = [];
  chat_identities = [];
  oauth_states = [];
}

abbrev pub hex_digit : ℕ → ℕ
hex_digit d = if ltb d 10 then b'0' + d else b'a' + (d - 10)

-- %x on fuel; n + 1 rounds are enough.
hex_on : ℕ → ℕ → Text
hex_on zero n = []
hex_on (suc f) n =
    let rest = hex_on f (n / 16) in
    if ltb n 16 then hex_digit n ∷ [] else rest ++ hex_digit (n % 16) ∷ []

-- %024x: padded with zeros to 24 places.
unfoldable pub hex_id : ℕ → Text
unfolding hex_on
hex_id n = let digits = hex_on (suc n) n in replicate (24 - length digits) b'0' ++ digits

-- nextID, as the new value of the counter.
abbrev pub next_seq : Store → ℕ
next_seq s = suc s.seq
