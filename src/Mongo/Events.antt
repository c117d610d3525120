-- ===== src/Mongo/Events.antt =====
-- internal/manager/store/mongo/convert.go and events.go: events.
pub mod RoundTrip
use aso_bell.Common.{[], ◌∷◌, Option, none, some, if◌then◌else◌}
use aso_bell.Common.Int.{ℤ}
use aso_bell.Common.Lists.{is_empty}
use aso_bell.Common.Text.{Text, codes}
use aso_bell.Domain.Errors.{Error, Result, ok, failed}
use aso_bell.Domain.Event.{Event, MessageRef, MessageRefs}
use aso_bell.Domain.Reminder.{ReminderPolicy}
use aso_bell.Domain.Duration.{DurationText}
use aso_bell.Mongo.{ObjectIds, object_id, utc, utc_ptr}
use aso_bell.Mongo.Documents.{EventDoc, MessageRefDoc, MessageRefsDoc}
use aso_bell.Mongo.Convert.{encode_reminder_policy, decode_reminder_policy}

-- encodeMessageRef
abbrev pub encode_message_ref : Option MessageRef → Option MessageRefDoc
encode_message_ref none = none
encode_message_ref (some ref) =
    some record { channel_id = ref.channel_id; message_id = ref.message_id }

-- decodeMessageRef
abbrev pub decode_message_ref : Option MessageRefDoc → Option MessageRef
decode_message_ref none = none
decode_message_ref (some doc) =
    some record { channel_id = doc.channel_id; message_id = doc.message_id }

-- encodeMessageRefs
unfoldable pub encode_message_refs : MessageRefs → MessageRefsDoc
encode_message_refs refs = record {
  announcement = encode_message_ref refs.announcement;
  recruit_announcement = encode_message_ref refs.recruit_announcement;
  summary = encode_message_ref refs.summary;
}

-- decodeMessageRefs
unfoldable pub decode_message_refs : MessageRefsDoc → MessageRefs
decode_message_refs doc = record {
  announcement = decode_message_ref doc.announcement;
  recruit_announcement = decode_message_ref doc.recruit_announcement;
  summary = decode_message_ref doc.summary;
}

-- The document of encodeEvent, with the two object ids.
unfoldable pub event_doc : {O : Type 0} → DurationText → Event → O → O → EventDoc O
unfolding encode_message_refs
event_doc t ev workspace_id id = record {
  id = id;
  workspace_id = workspace_id;
  title = ev.title;
  description = ev.description;
  location = ev.location;
  starts_at = utc ev.starts_at;
  ends_at = utc_ptr ev.ends_at;
  status = ev.status;
  organizer = record { user_id = ev.organizer.user_id; display_name = ev.organizer.display_name };
  origin_channel_id = ev.origin_channel_id;
  channel = record {
    channel_id = ev.channel.channel_id;
    name = ev.channel.name;
    archived = ev.channel.archived;
  };
  messages = encode_message_refs ev.messages;
  reminder_policy = encode_reminder_policy t ev.reminder_policy;
  participant_count = ev.participant_count;
  ended_at = utc_ptr ev.ended_at;
  end_reason = ev.end_reason;
  created_via = ev.created_via;
  created_by = ev.created_by;
  created_at = utc ev.created_at;
  updated_at = utc ev.updated_at;
}

abbrev doc_with_id : {O : Type 0} → DurationText → Event → O → Result O → Result (EventDoc O)
doc_with_id t ev workspace_id (failed e) = failed e
doc_with_id t ev workspace_id (ok id) = ok (event_doc t ev workspace_id id)

-- `if ev.ID != ""`
abbrev doc_in : {O : Type 0} → ObjectIds O → DurationText → Event → Result O → Result (EventDoc O)
doc_in ids t ev (failed e) = failed e
doc_in ids t ev (ok workspace_id) =
    if is_empty ev.id
    then ok (event_doc t ev workspace_id ids.nil)
    else doc_with_id t ev workspace_id (object_id ids ev.id)

-- encodeEvent
unfoldable pub encode_event :
    {O : Type 0} → ObjectIds O → DurationText → Event → Result (EventDoc O)
unfolding event_doc
encode_event ids t ev = doc_in ids t ev (object_id ids ev.workspace_id)

abbrev undecodable {ℓ} : {A : Type ℓ} → Result A
undecodable = failed (Error.other (codes "decode reminder policy"))

abbrev event_of : {O : Type 0} → ObjectIds O → EventDoc O → Option ReminderPolicy → Result Event
event_of ids doc none = undecodable
event_of ids doc (some policy) = ok record {
  id = ids.hex doc.id;
  workspace_id = ids.hex doc.workspace_id;
  title = doc.title;
  description = doc.description;
  location = doc.location;
  starts_at = utc doc.starts_at;
  ends_at = utc_ptr doc.ends_at;
  status = doc.status;
  organizer = record { user_id = doc.organizer.user_id; display_name = doc.organizer.display_name };
  origin_channel_id = doc.origin_channel_id;
  channel = record {
    channel_id = doc.channel.channel_id;
    name = doc.channel.name;
    archived = doc.channel.archived;
  };
  messages = decode_message_refs doc.messages;
  reminder_policy = policy;
  participant_count = doc.participant_count;
  ended_at = utc_ptr doc.ended_at;
  end_reason = doc.end_reason;
  created_via = doc.created_via;
  created_by = doc.created_by;
  created_at = utc doc.created_at;
  updated_at = utc doc.updated_at;
}

-- decodeEvent
unfoldable pub decode_event : {O : Type 0} → ObjectIds O → DurationText → EventDoc O → Result Event
unfolding decode_message_refs
decode_event ids t doc = event_of ids doc (decode_reminder_policy t doc.reminder_policy)

-- (*mongo.Collection).InsertOne: nil, an error of a duplicate key, another error.
pub data WriteOutcome : Type 0 where
  written duplicate_key write_failed : WriteOutcome

-- mapWriteError of store.go, behind `err != nil`.
unfoldable pub map_write_error : WriteOutcome → Text → Option Error
map_write_error written op = none
map_write_error duplicate_key op = some Error.already_exists
map_write_error write_failed op = some (Error.other op)

abbrev unless_refused : {A : Type 0} → Option Error → Result A → Result A
unless_refused none r = r
unless_refused (some e) r = failed e

-- Create behind encodeEvent: a new id for the document, the insertion, and the decoded document.
abbrev inserted :
    {O : Type 0}
    → ObjectIds O
    → DurationText
    → (EventDoc O → WriteOutcome)
    → O
    → Result (EventDoc O)
    → Result Event
inserted ids t insert_one new_id (failed e) = failed e
inserted ids t insert_one new_id (ok doc) =
    let doc' = record doc { id = new_id } in
    unless_refused (map_write_error (insert_one doc') (codes "create event"))
      (decode_event ids t doc')

-- (*eventRepo).Create, with the outcome of InsertOne and the id of bson.NewObjectID.
unfoldable pub create :
    {O : Type 0}
    → ObjectIds O
    → DurationText
    → (EventDoc O → WriteOutcome)
    → O
    → Event
    → Result Event
unfolding encode_event map_write_error
create ids t insert_one new_id ev = inserted ids t insert_one new_id (encode_event ids t ev)
