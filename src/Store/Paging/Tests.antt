-- ===== src/Store/Paging/Tests.antt =====
-- Runs of the theorems on event pages at concrete inputs.
use aso_bell.Common.{ℕ, ◌+◌, ◌-◌, ◌*◌, ◌≡◌, refl, [], ◌∷◌, none, some, arith}
use aso_bell.Common.Int.{pos, ◌*ℤ◌}
use aso_bell.Common.Lists.{All}
use aso_bell.Common.Text.{Text, codes}
use aso_bell.Domain.Event.{Event, EventStatus, EndReason, CreatedVia, no_channel, no_messages}
use aso_bell.Domain.Job.{decimal}
use aso_bell.Domain.Reminder.{default_reminder_policy}
use aso_bell.Store.State.{Store, new}
use aso_bell.Store.Paging.{Codec, EventFilter, unix_milli, of_milli}
use aso_bell.Store.Paging.Order.{IsApart, IsOrdered}
use aso_bell.Store.Paging.Cursor.{IsCodec, IsReadable}
use aso_bell.Store.Paging.Pages.{collect, all_matching, collect_complete}

value : ℕ → Text → ℕ
value acc [] = acc
value acc (c ∷ s) = value (acc * 10 + (c - b'0')) s

-- Text that is its own code, and digits read as a number.
abbrev plain : Codec
unfolding value
plain = record { encode = λ t. t; decode = λ t. some t; parse_int = λ t. some (pos (value 0 t)) }

abbrev at_second : Text → ℕ → Event
at_second id second = record {
  id = id;
  workspace_id = codes "w1";
  title = codes "picnic";
  description = [];
  location = [];
  starts_at = pos (second * 1000000000);
  ends_at = none;
  status = EventStatus.open_status;
  organizer = record { user_id = codes "U1"; display_name = codes "Aki" };
  origin_channel_id = codes "C1";
  channel = no_channel;
  messages = no_messages;
  reminder_policy = default_reminder_policy;
  participant_count = pos 0;
  ended_at = none;
  end_reason = EndReason.unset;
  created_via = CreatedVia.chat;
  created_by = codes "U1";
  created_at = pos 1;
  updated_at = pos 1;
}

-- Two of three events start together.
abbrev three_events : Store
three_events = record new {
  events = at_second (codes "1") 5 ∷ at_second (codes "2") 7 ∷ at_second (codes "3") 5 ∷ [];
}

-- Pages of one event of a workspace.
abbrev one_by_one : EventFilter
one_by_one = record {
  workspace_id = codes "w1";
  statuses = EventStatus.open_status ∷ [];
  ids = [];
  starts_after = none;
  limit = pos 1;
  cursor = [];
}

plain-IsCodec : IsCodec plain
unfolding plain
plain-IsCodec = (λ raw. refl, refl)

three_events-IsApart : IsApart three_events.events
three_events-IsApart = ground arith

three_events-IsReadable : All (IsReadable plain) three_events.events
unfolding plain value unix_milli of_milli decimal ◌*ℤ◌
three_events-IsReadable = ((refl, refl), ((refl, refl), ((refl, refl), tt)))

collect_complete_example :
    (collect 4 plain one_by_one three_events ≡ some (all_matching one_by_one three_events))
    × IsOrdered (all_matching one_by_one three_events)
collect_complete_example =
    collect_complete plain one_by_one three_events plain-IsCodec three_events-IsApart
      three_events-IsReadable
