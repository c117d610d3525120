-- ===== src/Domain/Event/Tests.antt =====
-- Runs of the theorems on an event at concrete inputs.
use aso_bell.Common.{◌+◌, ◌*◌, ◌≡◌, refl, true, false, List, [], ◌∷◌, none, some, arith}
use aso_bell.Common.Int.{ℤ, pos}
use aso_bell.Common.Text.{codes, rune_count}
use aso_bell.Domain.Job.{hour}
use aso_bell.Domain.Reminder.{ReminderMode, ReminderPolicy, one_day}
use aso_bell.Domain.Event.{
  Event, EndReason, CreatedVia, EventUpdate, NewEventParams, open_status, ended, canceled,
  no_channel, no_messages, new_event, apply, end_event, cancel,
}
use aso_bell.Domain.Event.Lifecycle.{
  IsWellFormed, IsOpened, Edited, EventOp, perform_all, new_event-IsOpened, apply-Edited,
  first_close_wins, perform_all-IsWellFormed,
}

abbrev no_reminders : ReminderPolicy
no_reminders = record {
  mode = ReminderMode.none_mode;
  offsets = [];
  every = pos 0;
  at = record { hour = pos 0; minute = pos 0 };
  final_offset = pos 0;
}

abbrev picnic_params : NewEventParams
picnic_params = record {
  workspace_id = codes "0123456789abcdef01234567";
  title = codes " picnic ";
  description = codes "bring a ball";
  location = codes "park";
  starts_at = pos (3 * one_day);
  ends_at = some (pos (3 * one_day + 2 * hour));
  organizer = record { user_id = codes "U1"; display_name = codes "Aki" };
  origin_channel_id = codes "C1";
  reminder_policy = no_reminders;
  created_via = CreatedVia.chat;
  created_by = codes "U1";
}

abbrev picnic : Event
picnic = record {
  id = codes "000000000000000000000001";
  workspace_id = codes "0123456789abcdef01234567";
  title = codes "picnic";
  description = codes "bring a ball";
  location = codes "park";
  starts_at = pos (3 * one_day);
  ends_at = some (pos (3 * one_day + 2 * hour));
  status = open_status;
  organizer = record { user_id = codes "U1"; display_name = codes "Aki" };
  origin_channel_id = codes "C1";
  channel = no_channel;
  messages = no_messages;
  reminder_policy = no_reminders;
  participant_count = pos 1;
  ended_at = none;
  end_reason = EndReason.unset;
  created_via = CreatedVia.chat;
  created_by = codes "U1";
  created_at = pos one_day;
  updated_at = pos one_day;
}

picnic-IsWellFormed : IsWellFormed picnic
unfolding rune_count
picnic-IsWellFormed = record {
  title = (refl, omega arith);
  description = omega arith;
  location = omega arith;
  end = omega arith;
  policy = tt;
}

-- The end moves by an hour, and the title is given with blanks.
abbrev later_end : EventUpdate
later_end = record {
  title = some (codes "  long picnic");
  description = none;
  location = none;
  starts_at = none;
  ends_at = some (pos (3 * one_day + 3 * hour));
  clear_ends_at = false;
  reminder_policy = none;
}

new_event-IsOpened_example :
    IsOpened picnic_params (pos one_day) (new_event picnic_params (pos one_day))
new_event-IsOpened_example = new_event-IsOpened picnic_params (pos one_day)

apply-Edited_example :
    Edited picnic (pos (2 * one_day)) (apply picnic later_end (pos (2 * one_day)))
apply-Edited_example = apply-Edited picnic later_end (pos (2 * one_day)) picnic-IsWellFormed

abbrev picnic_ops : List (EventOp × ℤ)
picnic_ops =
    (EventOp.edit later_end, pos (2 * one_day))
    ∷ (EventOp.finish EndReason.manual, pos (3 * one_day))
    ∷ (EventOp.abort EndReason.canceled_reason, pos (4 * one_day))
    ∷ []

perform_all-IsWellFormed_example : IsWellFormed (perform_all picnic_ops picnic)
perform_all-IsWellFormed_example = perform_all-IsWellFormed picnic_ops picnic picnic-IsWellFormed

first_close_wins_example :
    (perform_all picnic_ops (end_event picnic EndReason.auto (pos 7)).1 ≡ record picnic {
      status = ended;
      end_reason = EndReason.auto;
      ended_at = some (pos 7);
      updated_at = pos 7;
    })
    × (perform_all picnic_ops (cancel picnic EndReason.auto (pos 7)).1 ≡ record picnic {
      status = canceled;
      end_reason = EndReason.auto;
      ended_at = some (pos 7);
      updated_at = pos 7;
    })
    × ((end_event picnic EndReason.auto (pos 7)).0 ≡ true)
    × ((cancel picnic EndReason.auto (pos 7)).0 ≡ true)
first_close_wins_example = first_close_wins picnic EndReason.auto (pos 7) picnic_ops refl
