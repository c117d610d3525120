-- ===== src/Store/Events.antt =====
-- memstore.go, eventsRepo and workspacesRepo; their lists stand in Store/Paging.
use aso_bell.Common.{Bool, ◌&&◌, [], ◌∷◌, ◌++◌, Option, none, some}
use aso_bell.Common.Int.{ℤ, ◌+ℤ◌}
use aso_bell.Common.Lists.{find, update}
use aso_bell.Common.Text.{Text, text_eq}
use aso_bell.Domain.Errors.{Error, Result, ok}
use aso_bell.Domain.Event.{Event, ChannelRef, MessageRefs}
use aso_bell.Domain.Provider.{ProviderKind}
use aso_bell.Domain.Provider
use aso_bell.Domain.Workspace.{Workspace, WorkspaceSettings}
use aso_bell.Store.State.{Store, next_seq, hex_id}

abbrev pub has_id : Text → Event → Bool
has_id id e = text_eq e.id id

-- Create
unfoldable pub create : Event → Store → Event × Store
create e s =
    let created = record e { id = hex_id (next_seq s) } in
    (created, record s { seq = next_seq s; events = s.events ++ created ∷ [] })

-- findEvent
abbrev pub find_event : Text → Store → Option Event
find_event id s = find (has_id id) s.events

abbrev pub or_not_found {ℓ} : {A : Type ℓ} → Option A → Result A
or_not_found none = Result.failed Error.not_found
or_not_found (some a) = ok a

-- Get
unfoldable pub get : Text → Store → Result Event
get id s = or_not_found (find_event id s)

-- GetByChannelID
unfoldable pub get_by_channel_id : Text → Store → Result Event
get_by_channel_id channel_id s =
    or_not_found (find (λ e. text_eq e.channel.channel_id channel_id) s.events)

-- The lookup and the write through the pointer that the next methods share.
abbrev pub update_event : Text → (Event → Event) → Store → Option Error × Store
update_event id f s = elim (find_event id s) [
  | none ↦ (some Error.not_found, s)
  | some e ↦ (none, record s { events = update (has_id id) f s.events })
]

-- The fields that Update saves: not the channel, the messages and the participant count.
abbrev pub saved : Event → Event → Event
saved e stored = record stored {
  title = e.title;
  description = e.description;
  location = e.location;
  starts_at = e.starts_at;
  ends_at = e.ends_at;
  status = e.status;
  reminder_policy = e.reminder_policy;
  ended_at = e.ended_at;
  end_reason = e.end_reason;
  updated_at = e.updated_at;
}

-- Update
unfoldable pub update_fields : Event → Store → Option Error × Store
update_fields e = update_event e.id (saved e)

-- SetChannel
unfoldable pub set_channel : Text → ChannelRef → ℤ → Store → Option Error × Store
set_channel id channel now = update_event id λ e. record e { channel = channel; updated_at = now }

-- SetMessages
unfoldable pub set_messages : Text → MessageRefs → ℤ → Store → Option Error × Store
set_messages id messages now =
    update_event id λ e. record e { messages = messages; updated_at = now }

abbrev pub counted_up : ℤ → ℤ → Event → Event
counted_up delta now e = record e {
  participant_count = e.participant_count +ℤ delta;
  updated_at = now;
}

-- AddParticipantCount
unfoldable pub add_participant_count : Text → ℤ → ℤ → Store → Option Error × Store
add_participant_count id delta now = update_event id (counted_up delta now)

-- workspacesRepo.Get
unfoldable pub get_workspace : Text → Store → Result Workspace
get_workspace id s = or_not_found (find (λ w. text_eq w.id id) s.workspaces)

-- The test of findWorkspace.
abbrev pub is_workspace : ProviderKind → Text → Workspace → Bool
is_workspace provider external_id w =
    Provider.kind_eq w.provider provider && text_eq w.external_id external_id

-- workspacesRepo.GetByExternalID
unfoldable pub get_by_external_id : ProviderKind → Text → Store → Result Workspace
get_by_external_id provider external_id s =
    or_not_found (find (is_workspace provider external_id) s.workspaces)

-- workspacesRepo.Upsert
unfoldable pub upsert_workspace : Workspace → ℤ → Store → Workspace × Store
upsert_workspace w now s = elim (find (is_workspace w.provider w.external_id) s.workspaces) [
  | some old ↦ (
    record old { name = w.name; updated_at = now },
    record s {
      workspaces =
          update (is_workspace w.provider w.external_id)
            (λ x. record x { name = w.name; updated_at = now }) s.workspaces;
    },
  )
  | none ↦
      let created = record w { id = hex_id (next_seq s); created_at = now; updated_at = now } in
      (created, record s { seq = next_seq s; workspaces = s.workspaces ++ created ∷ [] })
]

-- workspacesRepo.UpdateSettings
unfoldable pub update_settings : Text → WorkspaceSettings → ℤ → Store → Result Workspace × Store
update_settings id settings now s = elim (find (λ w. text_eq w.id id) s.workspaces) [
  | none ↦ (Result.failed Error.not_found, s)
  | some w ↦ (
    ok (record w { settings = settings; updated_at = now }),
    record s {
      workspaces =
          update (λ x. text_eq x.id id) (λ x. record x { settings = settings; updated_at = now })
            s.workspaces;
    },
  )
]
