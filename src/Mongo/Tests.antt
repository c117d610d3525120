-- ===== src/Mongo/Tests.antt =====
-- Runs of the theorems on the documents at concrete inputs.
use aso_bell.Common.{ℕ, ◌≡◌, refl, [], ◌∷◌, Option, none, some, ◌*◌, ◌/◌, ◌==◌, ◌&&◌, if◌then◌else◌}
use aso_bell.Common.Int.{ℤ, pos, negsuc}
use aso_bell.Common.Text.{Text, codes, text_eq}
use aso_bell.Domain.Errors.{ok, check}
use aso_bell.Domain.TimeOfDay.{to_text, is_valid}
use aso_bell.Domain.Job.{hour}
use aso_bell.Domain.Reminder.{ReminderMode, ReminderPolicy, validate, schedule}
use aso_bell.Domain.Event.{Event}
use aso_bell.Domain.Duration.{DurationText}
use aso_bell.Usecase.Tests.{picnic, utc}
use aso_bell.Domain.Participation.{Participation, Role, Status}
use aso_bell.Store.State.{Store, new}
use aso_bell.Store.Participations.{ParticipationUpsert}
use aso_bell.Mongo.Upsert.{
  Value, null, boolean, text, role_value, status_value, object, instant, number, Expr, bare, field,
  if_null, equal, both, add, cond, Fields, Server,
}
use aso_bell.Mongo.Upsert.Lawful.{
  expression_of, set_value, or_else, chosen, same, sum, is_true, is_path,
}
use aso_bell.Mongo.{ObjectIds}
use aso_bell.Mongo.Documents.{EventDoc}
use aso_bell.Mongo.Convert.{encode_reminder_policy}
use aso_bell.Mongo.Convert.RoundTrip.{IsReadBack}
use aso_bell.Mongo.Events.{encode_event, decode_event}
use aso_bell.Mongo.Events.RoundTrip.{IsHex, with_used, decode_event-encode_event}

-- Object ids that are numbers, written as one rune behind an o.
abbrev read_id : Text → Option ℕ
read_id (c ∷ n ∷ []) = some n
read_id _ = none

abbrev numbered : ObjectIds ℕ
numbered = record { from_hex = read_id; hex = λ n. b'o' ∷ n ∷ []; nil = 0 }

numbered-IsHex : IsHex numbered
numbered-IsHex = record { from_hex-hex = λ n. refl; hex_filled = λ n. refl }

-- Durations written as their sign and one rune.
abbrev written_duration : ℤ → Text
written_duration (pos n) = b'+' ∷ n ∷ []
written_duration (negsuc n) = b'-' ∷ n ∷ []

abbrev read_duration : Text → Option ℤ
read_duration (c ∷ n ∷ []) = if c == b'+' then some (pos n) else some (negsuc n)
read_duration _ = none

abbrev signed : DurationText
signed = record { parse = read_duration; format = written_duration; day_nanos = read_duration }

signed-IsReadBack : IsReadBack signed
signed-IsReadBack = record {
  parse_format = elim [ pos n ↦ refl | negsuc n ↦ refl ];
  format_filled = elim [ pos n ↦ refl | negsuc n ↦ refl ];
}

-- Every two hours from half past nine, where the offsets are of no use.
abbrev two_hourly : ReminderPolicy
two_hourly = record {
  mode = ReminderMode.interval;
  offsets = [];
  every = pos (2 * hour);
  at = record { hour = pos 9; minute = pos 30 };
  final_offset = pos hour;
}

abbrev stored_picnic : Event
stored_picnic = record picnic {
  id = b'o' ∷ 7 ∷ [];
  workspace_id = b'o' ∷ 3 ∷ [];
  reminder_policy = two_hourly;
}

at_of_two_hourly : (encode_reminder_policy signed two_hourly).at ≡ codes "09:30"
unfolding encode_reminder_policy to_text
at_of_two_hourly = refl

two_hourly-valid : validate two_hourly (codes "reminder_policy") ≡ none
unfolding validate check is_valid
two_hourly-valid = refl

decode_event-encode_event_example :
    (doc : EventDoc ℕ) × (encode_event numbered signed stored_picnic ≡ ok doc)
    × (decode_event numbered signed doc ≡ ok (with_used stored_picnic))
    × (schedule (with_used stored_picnic).reminder_policy (pos 5) (pos 1000) utc
        ≡ schedule two_hourly (pos 5) (pos 1000) utc)
decode_event-encode_event_example =
    decode_event-encode_event numbered signed numbered-IsHex signed-IsReadBack stored_picnic 3 7
      (pos 5) (pos 1000) utc refl refl two_hourly-valid

-- A server that evaluates as documented.
evaluate : Fields ℕ → Expr ℕ → Value ℕ
evaluate d (bare v) = if is_path v then null else v
evaluate d (field f) = d f
evaluate d (if_null a b) = or_else (evaluate d a) (evaluate d b)
evaluate d (equal a b) = boolean (same (evaluate d a) (evaluate d b))
evaluate d (both a b) = boolean (is_true (evaluate d a) && is_true (evaluate d b))
evaluate d (add a b) = sum (evaluate d a) (evaluate d b)
evaluate d (cond c a b) = chosen (evaluate d c) (evaluate d a) (evaluate d b)

abbrev server : Server ℕ
unfolding evaluate
server = record {
  evaluate = evaluate;
  set = λ d stage name. set_value (evaluate d) (d name) (expression_of name stage);
}

-- Milliseconds of a count of nanoseconds, rounded down.
abbrev millis : ℤ → ℤ
millis (pos n) = pos (n / 1_000_000)
millis (negsuc n) = negsuc (n / 1_000_000)

-- A peeker of the event o7 in the workspace o3, and the press of its join button.
abbrev id_text : ℕ → Text
id_text n = b'o' ∷ n ∷ []

abbrev peeker : Participation
peeker = record {
  id = id_text 9;
  event_id = id_text 7;
  workspace_id = id_text 3;
  chat_user_id = codes "u1";
  display_name = codes "Ann";
  role = Role.peeker;
  status = Status.active;
  joined_at = pos 10_500_000;
  expires_at = some (pos 90_500_000);
  peek_count = pos 1;
  updated_at = pos 10_500_000;
}

abbrev join : ParticipationUpsert
join = record {
  event_id = id_text 7;
  workspace_id = id_text 3;
  chat_user_id = codes "u1";
  display_name = codes "Ann";
  role = Role.participant;
  expires_at = none;
  now = pos 20_500_000;
}

abbrev peeker_doc : Fields ℕ
peeker_doc name =
    if text_eq name (codes "_id")
    then object 9
    else if text_eq name (codes "eventId")
    then object 7
    else if text_eq name (codes "workspaceId")
    then object 3
    else if text_eq name (codes "chatUserId")
    then text (codes "u1")
    else if text_eq name (codes "displayName")
    then text (codes "Ann")
    else if text_eq name (codes "role")
    then role_value Role.peeker
    else if text_eq name (codes "status")
    then status_value Status.active
    else if text_eq name (codes "joinedAt")
    then instant (millis (pos 10_500_000))
    else if text_eq name (codes "expiresAt")
    then instant (millis (pos 90_500_000))
    else if text_eq name (codes "peekCount")
    then number (pos 1)
    else if text_eq name (codes "updatedAt")
    then instant (millis (pos 10_500_000))
    else null

abbrev with_peeker : Store
with_peeker = record new { participations = peeker ∷ [] }
