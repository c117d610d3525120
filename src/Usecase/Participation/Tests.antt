-- ===== src/Usecase/Participation/Tests.antt =====
-- Two presses of Join by one user, both decided on no record; the first one has run.
use aso_bell.Common.{◌≡◌, refl, true, [], ◌∷◌, none, some}
use aso_bell.Common.Int.{pos}
use aso_bell.Common.Text.{codes, text_eq}
use aso_bell.Domain.Errors.{Result, ok}
use aso_bell.Domain.Event.{Event}
use aso_bell.Domain.Participation.{Action, Role, decide_transition}
use aso_bell.Store.State.{new}
use aso_bell.Store.Participations.{ParticipationUpsert, upsert, find_participation, count_active}
use aso_bell.Store.Events.{find_event}
use aso_bell.Usecase.Effects.{World, now}
use aso_bell.Usecase.Tests.{picnic, home, calm, start}
use aso_bell.Usecase.Participation.{ParticipationInput, ParticipationResult, settle, press}
use aso_bell.Usecase.Participation.Counts.{IsCounted}
use aso_bell.Usecase.Participation.Recount.{is_agreed, press-IsCounted}

abbrev join_picnic : ParticipationInput
join_picnic = record {
  event_id = codes "e1";
  chat_user_id = codes "U2";
  display_name = codes "Ben";
  action = Action.join;
}

abbrev first_upsert : ParticipationUpsert
first_upsert = record {
  event_id = codes "e1";
  workspace_id = codes "w1";
  chat_user_id = codes "U2";
  display_name = codes "Ben";
  role = Role.participant;
  expires_at = none;
  now = pos 50;
}

abbrev counted_picnic : Event
counted_picnic = record picnic { participant_count = pos 1 }

-- The first press has joined the user.
abbrev behind_first : World
behind_first = record start {
  store = record start.store {
    events = counted_picnic ∷ [];
    participations = (upsert first_upsert new).1.participations;
  };
}

abbrev result_of : Result ParticipationResult → ParticipationResult
result_of (ok r) = r
result_of (Result.failed e) = record {
  event = picnic;
  participation = none;
  transition = decide_transition none Action.join;
  expires_at = pos 0;
}

agreed :
    is_agreed (find_participation (codes "e1") (codes "U2") behind_first.store) none join_picnic
    ≡ true
unfolding upsert text_eq decide_transition new
agreed = refl

event_found : find_event (codes "e1") behind_first.store ≡ some counted_picnic
unfolding text_eq
event_found = refl

one_counted : pos 1 ≡ pos (count_active (codes "e1") Role.participant behind_first.store)
unfolding count_active upsert text_eq new
one_counted = refl

second_done :
    (press join_picnic picnic home none calm behind_first).0
    ≡ ok (result_of (press join_picnic picnic home none calm behind_first).0)
unfolding press settle now upsert text_eq decide_transition new
second_done = refl

press-IsCounted_example :
    IsCounted (codes "e1") (press join_picnic picnic home none calm behind_first).1
press-IsCounted_example =
    press-IsCounted true join_picnic picnic counted_picnic home none calm behind_first
      (result_of (press join_picnic picnic home none calm behind_first).0) refl agreed event_found
      one_counted second_done
