-- ===== src/Mongo/Events/RoundTrip.antt =====
-- convert.go and events.go: an event, its document and back.
use aso_bell.Common.{◌≡◌, refl, false, [], Option, none, some}
use aso_bell.Common.Int.{ℤ}
use aso_bell.Common.Lists.{is_empty}
use aso_bell.Common.Text.{codes}
use aso_bell.Domain.Errors.{ok}
use aso_bell.Domain.TimeOfDay.{Zone}
use aso_bell.Domain.Reminder.{validate, schedule}
use aso_bell.Domain.Reminder.Valid.{validate-IsPolicy}
use aso_bell.Domain.Reminder.Used.{used, schedule-used}
use aso_bell.Domain.Event.{Event, MessageRef, MessageRefs}
use aso_bell.Domain.Duration.{DurationText}
use aso_bell.Mongo.{ObjectIds, object_id, utc_ptr}
use aso_bell.Mongo.Documents.{EventDoc}
use aso_bell.Mongo.Convert.RoundTrip.{IsReadBack, decode-encode_reminder_policy}
use aso_bell.Mongo.Events.{
  WriteOutcome, written, encode_message_ref, decode_message_ref, encode_message_refs,
  decode_message_refs, event_doc, encode_event, decode_event, map_write_error, create, inserted,
  unless_refused,
}

-- What the driver promises of the texts of object ids.
pub record IsHex {O : Type 0} (ids : ObjectIds O) : Type 0 where
  pub from_hex-hex : (o : O) → ids.from_hex (ids.hex o) ≡ some o
  pub hex_filled : (o : O) → is_empty (ids.hex o) ≡ false

-- The event with the fields of its policy that its mode uses.
abbrev pub with_used : Event → Event
with_used ev = record ev { reminder_policy = used ev.reminder_policy.mode ev.reminder_policy }

message_ref : (ref : Option MessageRef) → decode_message_ref (encode_message_ref ref) ≡ ref
message_ref none = refl
message_ref (some ref) = refl

message_refs : (refs : MessageRefs) → decode_message_refs (encode_message_refs refs) ≡ refs
unfolding encode_message_refs decode_message_refs
message_refs refs =
    rw
      (
        message_ref refs.announcement,
        message_ref refs.recruit_announcement,
        message_ref refs.summary,
      )
      refl

utc_ptr-utc_ptr : (at : Option ℤ) → utc_ptr (utc_ptr at) ≡ at
utc_ptr-utc_ptr none = refl
utc_ptr-utc_ptr (some t) = refl

module _ {O : Type 0} (ids : ObjectIds O) (t : DurationText) where
  -- The document of an event with its two ids.
  decode_event-event_doc :
      IsReadBack t
      → (ev : Event) (w o : O) → validate ev.reminder_policy (codes "reminder_policy") ≡ none
      → decode_event ids t (event_doc t ev w o)
        ≡ ok record (with_used ev) { id = ids.hex o; workspace_id = ids.hex w }
  unfolding decode_event event_doc
  decode_event-event_doc read ev w o valid =
      let policy =
        decode-encode_reminder_policy t read ev.reminder_policy
          ((validate-IsPolicy ev.reminder_policy (codes "reminder_policy")).0 valid) in
      rw (policy, message_refs ev.messages, utc_ptr-utc_ptr ev.ends_at, utc_ptr-utc_ptr ev.ended_at)
        refl

  encode_event-doc :
      IsHex ids
      → (ev : Event) (w o : O) → ev.workspace_id ≡ ids.hex w
      → ev.id ≡ ids.hex o
      → encode_event ids t ev ≡ ok (event_doc t ev w o)
  unfolding encode_event object_id
  encode_event-doc hex ev w o at_w at_o =
      rw (at_w, at_o, hex.from_hex-hex w, hex.from_hex-hex o, hex.hex_filled o) refl

  with_own_ids :
      (ev : Event) (w o : O)
      → ev.workspace_id ≡ ids.hex w
      → ev.id ≡ ids.hex o
      → record (with_used ev) { id = ids.hex o; workspace_id = ids.hex w } ≡ with_used ev
  with_own_ids ev w o at_w at_o = rw (at_w, at_o) refl

  encode_event-new :
      IsHex ids
      → (ev : Event) (w : O) → ev.workspace_id ≡ ids.hex w
      → ev.id ≡ []
      → encode_event ids t ev ≡ ok (event_doc t ev w ids.nil)
  unfolding encode_event object_id
  encode_event-new hex ev w at_w new = rw (at_w, new, hex.from_hex-hex w) refl

  -- Where the texts of durations and object ids are read back, an event that has the texts of two
  -- object ids and a valid policy is encoded, and decoding the document gives the event back,
  -- with zero values in the fields of its policy that the mode does not use; that policy has the
  -- schedule of the event's policy at every instant, start and zone.
  pub decode_event-encode_event :
      IsHex ids
      → IsReadBack t
      → (ev : Event) (w o : O) (now starts_at : ℤ) (loc : Zone) → ev.workspace_id ≡ ids.hex w
      → ev.id ≡ ids.hex o
      → validate ev.reminder_policy (codes "reminder_policy") ≡ none
      → (doc : EventDoc O) × (encode_event ids t ev ≡ ok doc)
        × (decode_event ids t doc ≡ ok (with_used ev))
        × (schedule (with_used ev).reminder_policy now starts_at loc
            ≡ schedule ev.reminder_policy now starts_at loc)
  decode_event-encode_event hex read ev w o now starts_at loc at_w at_o valid = (
    event_doc t ev w o,
    encode_event-doc hex ev w o at_w at_o,
    rw⁻¹ (with_own_ids ev w o at_w at_o) (decode_event-event_doc read ev w o valid),
    schedule-used ev.reminder_policy now starts_at loc,
  )

  inserted-doc :
      (insert_one : EventDoc O → WriteOutcome) (ev : Event) (w o : O)
      → inserted ids t insert_one o (ok (event_doc t ev w ids.nil))
        ≡ unless_refused
            (map_write_error (insert_one (event_doc t ev w o)) (codes "create event"))
            (decode_event ids t (event_doc t ev w o))
  unfolding event_doc
  inserted-doc insert_one ev w o = refl

  -- Create returns a new event of a workspace under the id of its document, when the insertion
  -- succeeds.
  create-written :
      IsHex ids
      → IsReadBack t
      → (insert_one : EventDoc O → WriteOutcome) (ev : Event) (w o : O)
      → ev.workspace_id ≡ ids.hex w
      → ev.id ≡ []
      → validate ev.reminder_policy (codes "reminder_policy") ≡ none
      → insert_one (event_doc t ev w o) ≡ written
      → create ids t insert_one o ev
        ≡ ok record (with_used ev) { id = ids.hex o; workspace_id = ids.hex w }
  unfolding create map_write_error
  create-written hex read insert_one ev w o at_w new valid wrote =
      rw (encode_event-new hex ev w at_w new, inserted-doc insert_one ev w o, wrote)
        (decode_event-event_doc read ev w o valid)
