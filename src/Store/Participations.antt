-- ===== src/Store/Participations.antt =====
-- memstore.go, participationsRepo.
use aso_bell.Common.{
  ℕ, suc, Bool, true, false, not, ◌&&◌, ◌||◌, List, [], ◌∷◌, ◌++◌, Option, none, some,
  if◌then◌else◌,
}
use aso_bell.Common.Int.{ℤ, pos, ◌+ℤ◌, leb_ℤ}
use aso_bell.Common.Lists.{is_empty, any, find, update, keep, count}
use aso_bell.Common.Text.{Text, text_eq}
use aso_bell.Domain.Errors.{Error, Result, ok}
use aso_bell.Domain.Participation.{
  Participation, Role, Status, is_participant, is_peeker, is_active,
}
use aso_bell.Store.State.{Store, next_seq, hex_id}
pub mod Unique
pub mod Presses

pub record ParticipationUpsert : Type 0 where
  pub event_id : Text
  pub workspace_id : Text
  pub chat_user_id : Text
  pub display_name : Text
  pub role : Role
  pub expires_at : Option ℤ
  pub now : ℤ

pub record ParticipationChange : Type 0 where
  pub before : Option Participation
  pub after : Participation

-- The test of findParticipation.
abbrev pub is_of : Text → Text → Participation → Bool
is_of event_id chat_user_id p = text_eq p.event_id event_id && text_eq p.chat_user_id chat_user_id

-- peekIncrement
abbrev pub peek_increment : Role → ℤ
peek_increment Role.participant = pos 0
peek_increment Role.peeker = pos 1
peek_increment (Role.unknown t) = pos 0

-- The record that Upsert creates.
abbrev pub created_from : ParticipationUpsert → Text → Participation
created_from i id = record {
  id = id;
  event_id = i.event_id;
  workspace_id = i.workspace_id;
  chat_user_id = i.chat_user_id;
  display_name = i.display_name;
  role = i.role;
  status = Status.active;
  joined_at = i.now;
  expires_at = i.expires_at;
  peek_count = peek_increment i.role;
  updated_at = i.now;
}

-- What Upsert writes through the pointer to a stored record.
abbrev pub upserted : ParticipationUpsert → Participation → Participation
upserted i p =
    let keeps = is_participant p.role && is_active p.status in
    record p {
      display_name = i.display_name;
      status = Status.active;
      updated_at = i.now;
      role = if keeps then p.role else i.role;
      expires_at = if keeps then p.expires_at else i.expires_at;
      peek_count = if keeps then p.peek_count else p.peek_count +ℤ peek_increment i.role;
    }

-- findParticipation
abbrev pub find_participation : Text → Text → Store → Option Participation
find_participation event_id chat_user_id s = find (is_of event_id chat_user_id) s.participations

-- Upsert
unfoldable pub upsert : ParticipationUpsert → Store → ParticipationChange × Store
upsert i s = elim (find_participation i.event_id i.chat_user_id s) [
  | none ↦ (
    record { before = none; after = created_from i (hex_id (next_seq s)) },
    record s {
      seq = next_seq s;
      participations = s.participations ++ created_from i (hex_id (next_seq s)) ∷ [];
    },
  )
  | some p ↦ (
    record { before = some p; after = upserted i p },
    record s {
      participations = update (is_of i.event_id i.chat_user_id) (upserted i) s.participations;
    },
  )
]

abbrev pub has_id : Text → Participation → Bool
has_id id p = text_eq p.id id

-- Get
unfoldable pub get : Text → Store → Result Participation
get id s = elim (find (has_id id) s.participations) [
  | none ↦ Result.failed Error.not_found
  | some p ↦ ok p
]

-- GetByUser
unfoldable pub get_by_user : Text → Text → Store → Result Participation
get_by_user event_id chat_user_id s = elim (find_participation event_id chat_user_id s) [
  | none ↦ Result.failed Error.not_found
  | some p ↦ ok p
]

-- What SetStatus writes.
abbrev pub with_status : Status → ℤ → Participation → Participation
with_status st now p = record p {
  status = st;
  updated_at = now;
  expires_at = if is_active st then p.expires_at else none;
}

-- SetStatus: `none` is a nil error.
unfoldable pub set_status : Text → Status → ℤ → Store → Option Error × Store
set_status id st now s = elim (find (has_id id) s.participations) [
  | none ↦ (some Error.not_found, s)
  | some p ↦
      (none, record s { participations = update (has_id id) (with_status st now) s.participations })
]

abbrev pub status_eq : Status → Status → Bool
status_eq Status.active Status.active = true
status_eq Status.expired Status.expired = true
status_eq Status.removed Status.removed = true
status_eq Status.left Status.left = true
status_eq _ _ = false

abbrev pub role_eq : Role → Role → Bool
role_eq Role.participant Role.participant = true
role_eq Role.peeker Role.peeker = true
role_eq (Role.unknown a) (Role.unknown b) = text_eq a b
role_eq _ _ = false

-- role == ""
abbrev pub any_role : Role → Bool
any_role Role.participant = false
any_role Role.peeker = false
any_role (Role.unknown t) = is_empty t

-- slices.SortFunc by JoinedAt.
insert_joined : Participation → List Participation → List Participation
insert_joined p [] = p ∷ []
insert_joined p (q ∷ qs) =
    if leb_ℤ p.joined_at q.joined_at then p ∷ q ∷ qs else q ∷ insert_joined p qs

sort_joined : List Participation → List Participation
unfolding insert_joined
sort_joined [] = []
sort_joined (p ∷ ps) = insert_joined p (sort_joined ps)

abbrev pub listed : Text → List Status → Participation → Bool
listed event_id statuses p =
    text_eq p.event_id event_id && (is_empty statuses || any (status_eq p.status) statuses)

-- ListByEvent
unfoldable pub list_by_event : Text → List Status → Store → List Participation
unfolding sort_joined
list_by_event event_id statuses s = sort_joined (keep (listed event_id statuses) s.participations)

-- The two guards of CountActive's loop.
abbrev pub counted : Text → Role → Participation → Bool
counted event_id role p =
    text_eq p.event_id event_id && is_active p.status && (any_role role || role_eq p.role role)

-- CountActive
unfoldable pub count_active : Text → Role → Store → ℕ
count_active event_id role s = count (counted event_id role) s.participations
