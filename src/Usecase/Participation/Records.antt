-- ===== src/Usecase/Participation/Records.antt =====
-- usecase/participation.go, Apply: its upsert and the number of active participants.
use aso_bell.Common.{
  ◌+◌, ◌≡◌, refl, Bool, false, not, ◌&&◌, Option, none, some, arith, Option-cases, inl, inr,
}
use aso_bell.Common.Lists.{one_if}
use aso_bell.Common.Text.{Text}
use aso_bell.Domain.Participation.{
  Participation, Action, Role, is_participant, is_active, decide_transition,
}
use aso_bell.Store.State.{Store}
use aso_bell.Store.Participations.{ParticipationUpsert, find_participation, upsert, count_active}
use aso_bell.Store.Participations.Presses.{before-upsert, count_active-upsert}

-- The record counts as a participant.
abbrev pub counts : Option Participation → Bool
counts none = false
counts (some p) = is_participant p.role && is_active p.status

pub effect_before :
    (prev : Option Participation) (a : Action)
    → (not (decide_transition prev a).add_to_channel
        && not (decide_transition prev a).cancel_peek_job)
      ≡ false
    → counts prev ≡ false
unfolding decide_transition
effect_before none a h = refl
effect_before (some p) a h = ground arith

role_after :
    (u : ParticipationUpsert) (s : Store)
    → counts (find_participation u.event_id u.chat_user_id s) ≡ false
    → (upsert u s).0.after.role ≡ u.role
unfolding upsert
role_after u s h = elim (Option-cases (find_participation u.event_id u.chat_user_id s)) [
  | inl e ↦ rw (e, upsert) refl
  | inr (p, e) ↦ let idle : counts (some p) ≡ false = rw e at h in rw (e, upsert, idle) refl
]

pub upsert_events : (u : ParticipationUpsert) (s : Store) → (upsert u s).1.events ≡ s.events
unfolding upsert
upsert_events u s = ground arith

pub count_after :
    (u : ParticipationUpsert) (s : Store)
    → counts (find_participation u.event_id u.chat_user_id s) ≡ false
    → count_active u.event_id Role.participant (upsert u s).1
      ≡ count_active u.event_id Role.participant s + one_if (is_participant u.role)
count_after u s h =
    let before : counts (upsert u s).0.before ≡ false = rw (before-upsert u s) h in
    let q = rw (before, role_after u s h) at (count_active-upsert u s) in omega (arith, q)

pub count_of_records :
    (id : Text) (s s' : Store)
    → s'.participations ≡ s.participations
    → count_active id Role.participant s' ≡ count_active id Role.participant s
unfolding count_active
count_of_records id s s' h = rw h refl
