-- ===== src/Usecase/Participation/Stale.antt =====
-- usecase/participation.go, Apply behind its reads: presses that are decided on a stale record, since
-- other goroutines wrote between the read and the Upsert.
use aso_bell.Common.{◌≡◌, refl, true, false, not, ◌&&◌, Option, some, arith, ◌∙◌, ◌∷◌, ◌⊎◌}
use aso_bell.Domain.Errors.{Result, ok}
use aso_bell.Domain.Event.{Event}
use aso_bell.Domain.Participation.{Participation, Transition, same_kind, decide_transition}
use aso_bell.Domain.Workspace.{Workspace}
use aso_bell.Store.State.{Store}
use aso_bell.Store.Participations.{find_participation, upsert}
use aso_bell.Store.Participations.Presses.{before-upsert, has_effect}
use aso_bell.Usecase.Effects.{Env, World, clock_now, now}
use aso_bell.Usecase.Participation.{
  ParticipationInput, ParticipationResult, settle, press, upsert_of, expires_at_of,
}

idle_test : (t : Transition) → has_effect t ≡ not (not t.add_to_channel && not t.cancel_peek_job)
idle_test t = ground arith

-- The step from a press with an effect to what follows its Upsert.
pub press-settle :
    (i : ParticipationInput) (ev : Event) (ws : Workspace) (prev : Option Participation) (env : Env)
    (w : World)
    → has_effect (decide_transition prev i.action) ≡ true
    → let t = decide_transition prev i.action in
      let u = upsert_of i ev ws t (env.clock w.calls) in
      press i ev ws prev env w
      ≡ settle i ev ws t
          (upsert u w.store).0
          env
          record { store = (upsert u w.store).1; calls = clock_now ∷ w.calls }
unfolding press now
press-settle i ev ws prev env w h =
    let t = decide_transition prev i.action in
    let idle : (not t.add_to_channel && not t.cancel_peek_job) ≡ false =
      ground (arith, idle_test t) in
    rw idle refl

-- What a press leaves when it has no effect: a result, the events and the jobs as they were, and no
-- call of the provider.
abbrev pub IsIdle : Result ParticipationResult × World → World → Type 0
IsIdle r w =
    ((x : ParticipationResult) × (r.0 ≡ ok x))
    × (r.1.store.events ≡ w.store.events)
    × (r.1.store.jobs ≡ w.store.jobs)
    × ((r.1.calls ≡ w.calls) ⊎ (r.1.calls ≡ clock_now ∷ w.calls))

pub press-idle :
    (i : ParticipationInput) (ev : Event) (ws : Workspace) (prev : Option Participation) (env : Env)
    (w : World)
    → has_effect (decide_transition prev i.action) ≡ false
    → press i ev ws prev env w ≡ (
      ok record {
        event = ev;
        participation = prev;
        transition = decide_transition prev i.action;
        expires_at = expires_at_of prev;
      },
      w,
    )
unfolding press
press-idle i ev ws prev env w h =
    let t = decide_transition prev i.action in
    let idle : (not t.add_to_channel && not t.cancel_peek_job) ≡ true =
      ground (arith, idle_test t) in
    rw idle refl

pub settle-idle :
    (i : ParticipationInput) (ev : Event) (ws : Workspace) (prev : Option Participation) (env : Env)
    (w : World)
    → has_effect (decide_transition prev i.action) ≡ true
    → same_kind
        (decide_transition (find_participation ev.id i.chat_user_id w.store) i.action).kind
        (decide_transition prev i.action).kind
      ≡ false
    → (x : ParticipationResult) × (press i ev ws prev env w ≡ (
      ok x,
      record {
        store =
            (upsert
              (upsert_of i ev ws (decide_transition prev i.action) (env.clock w.calls))
              w.store).1;
        calls = clock_now ∷ w.calls;
      },
    ))
unfolding settle
settle-idle i ev ws prev env w h differ =
    let t = decide_transition prev i.action in
    let u = upsert_of i ev ws t (env.clock w.calls) in
    let other : same_kind (decide_transition (upsert u w.store).0.before i.action).kind t.kind
        ≡ false =
      rw (before-upsert u w.store) differ in
    let w2 : World = record { store = (upsert u w.store).1; calls = clock_now ∷ w.calls } in
    let done : settle i ev ws t (upsert u w.store).0 env w2 ≡ (
      ok record {
        event = ev;
        participation = some (upsert u w.store).0.after;
        transition = decide_transition (upsert u w.store).0.before i.action;
        expires_at = expires_at_of (some (upsert u w.store).0.after);
      },
      w2,
    ) =
      rw other refl in
    (_, press-settle i ev ws prev env w h ∙ done)
