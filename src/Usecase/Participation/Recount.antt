-- ===== src/Usecase/Participation/Recount.antt =====
-- usecase/participation.go, Apply behind its reads: the stored count behind a press that is decided on
-- a stale record.
use aso_bell.Common.{
  ◌≡◌, Bool, true, false, not, ◌&&◌, ◌||◌, Option, none, some, arith, Bool-cases, ◌∙◌, sym, ap, inl,
  inr, ◌∷◌, subst, Option-cases,
}
use aso_bell.Common.Int.{pos}
use aso_bell.Domain.Errors.{Result, ok}
use aso_bell.Domain.Event.{Event}
use aso_bell.Domain.Participation.{
  Participation, Role, Transition, TransitionKind, same_kind, is_participant, decide_transition,
}
use aso_bell.Domain.Workspace.{Workspace}
use aso_bell.Store.State.{Store}
use aso_bell.Store.Events.{find_event}
use aso_bell.Store.Participations.{
  ParticipationUpsert, find_participation, upsert, upserted, count_active,
}
use aso_bell.Store.Participations.Presses.{
  before-upsert, count_active-upsert, has_effect, button, press_role, effect_role, effect_kind,
  is_fresh,
}
use aso_bell.Usecase.Effects.{Env, World, clock_now}
use aso_bell.Usecase.Participation.{ParticipationInput, ParticipationResult, press, upsert_of}
use aso_bell.Usecase.Participation.Records.{
  counts, effect_before, upsert_events, count_after, count_of_records,
}
use aso_bell.Usecase.Participation.Counts.{IsCounted, settle_lem}
use aso_bell.Usecase.Participation.Stale.{press-settle, press-idle, settle-idle}

active_test :
    (t : Transition) → has_effect t ≡ true → (not t.add_to_channel && not t.cancel_peek_job) ≡ false
active_test t h = ground arith

none-has_effect : (b : Bool) → has_effect (decide_transition none (button b)) ≡ false → ⊥
unfolding decide_transition
none-has_effect true h = cc
none-has_effect false h = cc

kept_role :
    (b : Bool) (u : ParticipationUpsert) (p : Participation)
    → u.role ≡ press_role b
    → has_effect (decide_transition (some p) (button b)) ≡ false
    → is_participant (upserted u p).role ≡ counts (some p)
unfolding decide_transition
kept_role true u p role h = ground arith
kept_role false u p role h = ground arith

-- An Upsert whose record was such that the press had no effect leaves its role in the count.
role_without_effect :
    (b : Bool) (u : ParticipationUpsert) (s : Store)
    → u.role ≡ press_role b
    → has_effect (decide_transition (find_participation u.event_id u.chat_user_id s) (button b))
      ≡ false
    → is_participant (upsert u s).0.after.role
      ≡ counts (find_participation u.event_id u.chat_user_id s)
unfolding upsert
role_without_effect b u s role h =
    elim (Option-cases (find_participation u.event_id u.chat_user_id s)) [
      | inl e ↦
          let none_idle : has_effect (decide_transition none (button b)) ≡ false = rw e at h in
          absurd (none-has_effect b none_idle)
      | inr (p, e) ↦
          let some_idle : has_effect (decide_transition (some p) (button b)) ≡ false = rw e at h in
          rw (e, upsert) (kept_role b u p role some_idle)
    ]

-- The count behind an Upsert that a press without effect follows.
count_kept :
    (b : Bool) (u : ParticipationUpsert) (s : Store)
    → u.role ≡ press_role b
    → has_effect (decide_transition (find_participation u.event_id u.chat_user_id s) (button b))
      ≡ false
    → count_active u.event_id Role.participant (upsert u s).1
      ≡ count_active u.event_id Role.participant s
count_kept b u s role h =
    let before : counts (upsert u s).0.before
        ≡ counts (find_participation u.event_id u.chat_user_id s) =
      ap counts (before-upsert u s) in
    let q = rw (before, role_without_effect b u s role h) at (count_active-upsert u s) in
    omega (arith, q)

-- A press on the record that is found has no effect, or the one that a press on `prev` has.
abbrev pub is_agreed : Option Participation → Option Participation → ParticipationInput → Bool
is_agreed found prev i =
    not (has_effect (decide_transition found i.action))
    || same_kind (decide_transition found i.action).kind (decide_transition prev i.action).kind

same_fresh : (k l : TransitionKind) → same_kind k l ≡ true → is_fresh l ≡ true → is_fresh k ≡ true
same_fresh k l h f = ground arith

-- Let a press be decided on a record of the user that may be stale, and let the stored count be the
-- number of active participants. If a press on the record that its Upsert finds would have no effect
-- or the same one, a press that returns without an error leaves the number of active participants
-- as the stored count.
pub press-IsCounted :
    (b : Bool) (i : ParticipationInput) (ev e : Event) (ws : Workspace)
    (prev : Option Participation) (env : Env) (w : World) (r : ParticipationResult)
    → i.action ≡ button b
    → is_agreed (find_participation ev.id i.chat_user_id w.store) prev i ≡ true
    → find_event ev.id w.store ≡ some e
    → e.participant_count ≡ pos (count_active ev.id Role.participant w.store)
    → (press i ev ws prev env w).0 ≡ ok r
    → IsCounted ev.id (press i ev ws prev env w).1
press-IsCounted b i ev e ws prev env w r act agreed found h done =
    let t = decide_transition prev i.action in
    let u = upsert_of i ev ws t (env.clock w.calls) in
    let old = find_participation ev.id i.chat_user_id w.store in
    elim (Bool-cases (has_effect t)) [
      | inr f ↦ rw (press-idle i ev ws prev env w f) (e, found, h)
      | inl fresh ↦
          let role : u.role ≡ press_role b =
            subst
              (λ a.
                has_effect (decide_transition prev a) ≡ true
                → (decide_transition prev a).role ≡ press_role b)
              (sym act) (effect_role prev b) fresh in
          elim (Bool-cases (same_kind (decide_transition old i.action).kind t.kind)) [
            | inr differ ↦
                let idle : has_effect (decide_transition old i.action) ≡ false = ground arith in
                let kept = count_kept b u w.store role (rw act at idle) in
                let (x, step) = settle-idle i ev ws prev env w fresh differ in
                rw step (e, rw (upsert_events u w.store) found, h ∙ ap pos (sym kept))
            | inl same ↦
                let w2 : World = record {
                  store = (upsert u w.store).1;
                  calls = clock_now ∷ w.calls;
                } in
                let step = press-settle i ev ws prev env w fresh in
                let again : same_kind (decide_transition (upsert u w.store).0.before i.action).kind
                      t.kind
                    ≡ true =
                  rw (before-upsert u w.store) same in
                let active : has_effect (decide_transition old i.action) ≡ true =
                  effect_kind old i.action
                  ∙ same_fresh _ t.kind same (sym (effect_kind prev i.action) ∙ fresh) in
                let effect = active_test (decide_transition old i.action) active in
                let q =
                  settle_lem i ev e ws t (upsert u w.store).0 env w2 _ again
                    (rw (upsert_events u w.store) found) h in
                elim q [
                  | inr (x, failed) ↦
                      let no : (press i ev ws prev env w).0 ≡ Result.failed x = rw step failed in
                      absurd (cc)
                  | inl (e', found', h', ps) ↦
                      let n =
                        count_of_records ev.id w2.store _ ps
                        ∙ count_after u w.store (effect_before old i.action effect) in
                      rw step (e', found', h' ∙ ap pos (sym n))
                ]
          ]
    ]
