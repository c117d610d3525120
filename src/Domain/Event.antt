-- ===== src/Domain/Event.antt =====
-- internal/manager/domain/event.go. A method on *Event returns the event as it leaves it.
pub mod Checks
pub mod Lifecycle
mod Tests
use aso_bell.Common.{
  ℕ, Bool, true, false, not, ◌&&◌, List, [], ◌∷◌, Option, none, some, ltb, if◌then◌else◌,
}
use aso_bell.Common.Int.{ℤ, pos, ◌+ℤ◌, ltb_ℤ}
use aso_bell.Common.Lists.{is_empty}
use aso_bell.Common.Text.{Text, codes, trim_space, rune_count}
use aso_bell.Domain.Errors.{Error, ValidationError, addf, check, err, merge}
use aso_bell.Domain.Identifier.{is_id}
use aso_bell.Domain.Reminder.{ReminderPolicy, validate}

pub data EventStatus : Type 0 where
  open_status ended canceled : EventStatus

-- `unset` is the empty reason of an event that has not been closed.
pub data EndReason : Type 0 where
  unset manual auto canceled_reason provision_failed channel_lost : EndReason

pub data CreatedVia : Type 0 where
  chat console : CreatedVia
  unknown : Text → CreatedVia

abbrev pub title_max_len : ℕ
title_max_len = 80

abbrev pub description_max_len : ℕ
description_max_len = 1000

abbrev pub location_max_len : ℕ
location_max_len = 200

pub record ChatUserRef : Type 0 where
  pub user_id : Text
  pub display_name : Text

pub record ChannelRef : Type 0 where
  pub channel_id : Text
  pub name : Text
  pub archived : Bool

pub record MessageRef : Type 0 where
  pub channel_id : Text
  pub message_id : Text

pub record MessageRefs : Type 0 where
  pub announcement : Option MessageRef
  pub recruit_announcement : Option MessageRef
  pub summary : Option MessageRef

pub record Event : Type 0 where
  pub id : Text
  pub workspace_id : Text
  pub title : Text
  pub description : Text
  pub location : Text
  pub starts_at : ℤ
  pub ends_at : Option ℤ
  pub status : EventStatus
  pub organizer : ChatUserRef
  pub origin_channel_id : Text
  pub channel : ChannelRef
  pub messages : MessageRefs
  pub reminder_policy : ReminderPolicy
  pub participant_count : ℤ
  pub ended_at : Option ℤ
  pub end_reason : EndReason
  pub created_via : CreatedVia
  pub created_by : Text
  pub created_at : ℤ
  pub updated_at : ℤ

pub record NewEventParams : Type 0 where
  pub workspace_id : Text
  pub title : Text
  pub description : Text
  pub location : Text
  pub starts_at : ℤ
  pub ends_at : Option ℤ
  pub organizer : ChatUserRef
  pub origin_channel_id : Text
  pub reminder_policy : ReminderPolicy
  pub created_via : CreatedVia
  pub created_by : Text

pub record EventUpdate : Type 0 where
  pub title : Option Text
  pub description : Option Text
  pub location : Option Text
  pub starts_at : Option ℤ
  pub ends_at : Option ℤ
  pub clear_ends_at : Bool
  pub reminder_policy : Option ReminderPolicy

pub validate_title : ValidationError → Text → ValidationError
unfolding addf
validate_title v title =
    if is_empty title
    then addf v (codes "title") (codes "must not be empty")
    else check (ltb title_max_len (rune_count title)) (codes "title")
        (codes "must not exceed %d characters") v

pub validate_description : ValidationError → Text → ValidationError
validate_description v description =
    check (ltb description_max_len (rune_count description)) (codes "description")
      (codes "must not exceed %d characters") v

pub validate_location : ValidationError → Text → ValidationError
validate_location v location =
    check (ltb location_max_len (rune_count location)) (codes "location")
      (codes "must not exceed %d characters") v

pub validate_ends_at : ValidationError → ℤ → Option ℤ → ValidationError
validate_ends_at v starts_at none = v
validate_ends_at v starts_at (some at) =
    check (not (ltb_ℤ starts_at at)) (codes "ends_at") (codes "must be after starts_at") v

abbrev pub is_known : CreatedVia → Bool
is_known chat = true
is_known console = true
is_known (unknown t) = false

-- The checks of NewEvent in their order, on the trimmed texts.
pub check_new : NewEventParams → Text → Text → Text → ℤ → ValidationError
unfolding validate_title validate_description validate_location validate_ends_at
check_new p title description location now =
    let v1 =
      validate_location (validate_description (validate_title [] title) description) location in
    let v2 =
      check (not (is_id p.workspace_id)) (codes "workspace_id") (codes "must be an object id") v1 in
    let v3 =
      check (is_empty p.organizer.user_id) (codes "organizer") (codes "must not be empty") v2 in
    let v4 =
      check (not (ltb_ℤ now p.starts_at)) (codes "starts_at") (codes "must be in the future") v3 in
    let v5 = validate_ends_at v4 p.starts_at p.ends_at in
    let v6 =
      merge v5 (codes "reminder_policy") (validate p.reminder_policy (codes "reminder_policy")) in
    check (not (is_known p.created_via)) (codes "created_via") (codes "unknown origin %q") v6

pub data NewEventResult : Type 0 where
  created : Event → NewEventResult
  refused : Error → NewEventResult

abbrev pub no_messages : MessageRefs
no_messages = record { announcement = none; recruit_announcement = none; summary = none }

abbrev pub no_channel : ChannelRef
no_channel = record { channel_id = []; name = []; archived = false }

-- NewEvent
unfoldable pub new_event : NewEventParams → ℤ → NewEventResult
unfolding check_new
new_event p now =
    let title = trim_space p.title in
    let description = trim_space p.description in
    let location = trim_space p.location in
    elim (err (check_new p title description location now)) [
      | some e ↦ refused e
      | none ↦ created record {
        id = [];
        workspace_id = p.workspace_id;
        title = title;
        description = description;
        location = location;
        starts_at = p.starts_at;
        ends_at = p.ends_at;
        status = open_status;
        organizer = p.organizer;
        origin_channel_id = p.origin_channel_id;
        channel = no_channel;
        messages = no_messages;
        reminder_policy = p.reminder_policy;
        participant_count = pos 0;
        ended_at = none;
        end_reason = unset;
        created_via = p.created_via;
        created_by = p.created_by;
        created_at = now;
        updated_at = now;
      }
    ]

-- (*Event).IsOpen, on the status.
abbrev pub is_open : EventStatus → Bool
is_open open_status = true
is_open ended = false
is_open canceled = false

-- A field of the update, trimmed, or what the event has.
abbrev edited_text : Option Text → Text → Text
edited_text none old = old
edited_text (some t) old = trim_space t

abbrev edited {ℓ} : {A : Type ℓ} → Option A → A → A
edited none old = old
edited (some a) old = a

-- The switch on clear_ends_at and ends_at.
abbrev edited_end : Bool → Option ℤ → Option ℤ → Option ℤ
edited_end true e old = none
edited_end false none old = old
edited_end false (some at) old = some at

-- `if u.F != nil { … validate(v, next.F) }`
abbrev when_given {ℓ} :
    {A : Type ℓ}
    → Option A
    → (ValidationError → ValidationError)
    → ValidationError
    → ValidationError
when_given none f v = v
when_given (some a) f v = f v

-- `next` of Apply, before its UpdatedAt is set.
next_event : Event → EventUpdate → Event
next_event e u = record e {
  title = edited_text u.title e.title;
  description = edited_text u.description e.description;
  location = edited_text u.location e.location;
  starts_at = edited u.starts_at e.starts_at;
  ends_at = edited_end u.clear_ends_at u.ends_at e.ends_at;
  reminder_policy = edited u.reminder_policy e.reminder_policy;
}

-- The checks of Apply in their order.
check_update : EventUpdate → Event → ValidationError
unfolding validate_title validate_description validate_location validate_ends_at
check_update u next =
    let v1 = when_given u.title (λ v. validate_title v next.title) [] in
    let v2 = when_given u.description (λ v. validate_description v next.description) v1 in
    let v3 = when_given u.location (λ v. validate_location v next.location) v2 in
    let v4 = validate_ends_at v3 next.starts_at next.ends_at in
    when_given u.reminder_policy
      (λ v.
        merge v (codes "reminder_policy") (validate next.reminder_policy (codes "reminder_policy")))
      v4

-- (*Event).Apply: the error, if any, and the event.
unfoldable pub apply : Event → EventUpdate → ℤ → Option Error × Event
unfolding next_event check_update
apply e u now =
    if not (is_open e.status)
    then (some Error.event_closed, e)
    else elim (err (check_update u (next_event e u))) [
      | some x ↦ (some x, e)
      | none ↦ (none, record (next_event e u) { updated_at = now })
    ]

-- (*Event).close
close : Event → EventStatus → EndReason → ℤ → Bool × Event
close e status reason now = if not (is_open e.status) then (false, e) else (
  true,
  record e { status = status; end_reason = reason; ended_at = some now; updated_at = now },
)

-- (*Event).End
unfoldable pub end_event : Event → EndReason → ℤ → Bool × Event
unfolding close
end_event e reason now = close e ended reason now

-- (*Event).Cancel
unfoldable pub cancel : Event → EndReason → ℤ → Bool × Event
unfolding close
cancel e reason now = close e canceled reason now

-- (*Event).AutoEndAt
unfoldable pub auto_end_at : Event → ℤ → ℤ
auto_end_at e grace = elim e.ends_at [ some at ↦ at | none ↦ e.starts_at +ℤ grace ]
