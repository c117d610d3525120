-- ===== src/Domain/Participation.antt =====
-- internal/manager/domain/participation.go
use aso_bell.Common.{Bool, true, false, not, ◌&&◌, Option, none, some, if◌then◌else◌}
use aso_bell.Common.Int.{ℤ, ltb_ℤ}
use aso_bell.Common.Text.{Text}

pub data Role : Type 0 where
  participant peeker : Role
  unknown : Text → Role

pub data Status : Type 0 where
  active expired removed left : Status

pub data Action : Type 0 where
  join peek : Action
  other_action : Text → Action

pub data TransitionKind : Type 0 where
  joined peeked promoted already_participant already_peeking : TransitionKind

pub record Transition : Type 0 where
  pub kind : TransitionKind
  pub role : Role
  pub add_to_channel : Bool
  pub cancel_peek_job : Bool

pub record Participation : Type 0 where
  pub id : Text
  pub event_id : Text
  pub workspace_id : Text
  pub chat_user_id : Text
  pub display_name : Text
  pub role : Role
  pub status : Status
  pub joined_at : ℤ
  pub expires_at : Option ℤ
  pub peek_count : ℤ
  pub updated_at : ℤ

-- role == RoleParticipant, role == RolePeeker
abbrev pub is_participant : Role → Bool
is_participant participant = true
is_participant peeker = false
is_participant (unknown t) = false

abbrev pub is_peeker : Role → Bool
is_peeker participant = false
is_peeker peeker = true
is_peeker (unknown t) = false

-- (*Participation).IsActive, on the status.
abbrev pub is_active : Status → Bool
is_active active = true
is_active expired = false
is_active removed = false
is_active left = false

-- The `!=` of two transition kinds.
abbrev pub same_kind : TransitionKind → TransitionKind → Bool
same_kind joined joined = true
same_kind peeked peeked = true
same_kind promoted promoted = true
same_kind already_participant already_participant = true
same_kind already_peeking already_peeking = true
same_kind _ _ = false

new_entry_transition : Action → Transition
new_entry_transition peek = record {
  kind = peeked;
  role = peeker;
  add_to_channel = true;
  cancel_peek_job = false;
}
new_entry_transition a = record {
  kind = joined;
  role = participant;
  add_to_channel = true;
  cancel_peek_job = false;
}

-- The peeker's case of the switch.
peeker_transition : Action → Transition
peeker_transition join = record {
  kind = promoted;
  role = participant;
  add_to_channel = false;
  cancel_peek_job = true;
}
peeker_transition a = record {
  kind = already_peeking;
  role = peeker;
  add_to_channel = false;
  cancel_peek_job = false;
}

-- The switch on the role of an active record.
active_transition : Role → Action → Transition
unfolding new_entry_transition peeker_transition
active_transition participant a = record {
  kind = already_participant;
  role = participant;
  add_to_channel = false;
  cancel_peek_job = false;
}
active_transition peeker a = peeker_transition a
active_transition (unknown t) a = new_entry_transition a

-- DecideTransition
unfoldable pub decide_transition : Option Participation → Action → Transition
unfolding new_entry_transition active_transition
decide_transition none a = new_entry_transition a
decide_transition (some p) a =
    if not (is_active p.status) then new_entry_transition a else active_transition p.role a

-- (*Participation).PeekExpired
unfoldable pub peek_expired : Participation → ℤ → Bool
peek_expired p now =
    is_peeker p.role && elim p.expires_at [ none ↦ false | some at ↦ not (ltb_ℤ now at) ]
