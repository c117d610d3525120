-- ===== src/Store/Participations/Presses.antt =====
-- participation.go and memstore.go: DecideTransition together with Upsert.
use aso_bell.Common.{
  ◌+◌, ◌≡◌, refl, Bool, true, false, ◌&&◌, ◌||◌, Option, none, some, arith, Option-cases, inl, inr,
  ◌∙◌, sym,
}
use aso_bell.Common.Lists.{
  find-holds, find-append_new, find-update_self, one_if, count-append, count-update,
}
use aso_bell.Common.Text.{Text, text_eq_refl}
use aso_bell.Domain.Participation.{
  Participation, Role, Action, Transition, TransitionKind, join, peek, other_action, same_kind,
  is_participant, is_active, decide_transition,
}
use aso_bell.Store.State.{Store, hex_id, next_seq}
use aso_bell.Store.Participations.{
  ParticipationUpsert, is_of, created_from, upserted, find_participation, upsert, counted,
  count_active,
}

-- The transition has an effect outside the record.
abbrev pub has_effect : Transition → Bool
has_effect t = t.add_to_channel || t.cancel_peek_job

-- The two buttons.
abbrev pub button : Bool → Action
button true = join
button false = peek

-- What a press of the button writes when it has an effect.
abbrev pub press_role : Bool → Role
press_role true = Role.participant
press_role false = Role.peeker

pub effect_role :
    (prev : Option Participation) (b : Bool)
    → has_effect (decide_transition prev (button b)) ≡ true
    → (decide_transition prev (button b)).role ≡ press_role b
unfolding decide_transition
effect_role none true h = refl
effect_role none false h = refl
effect_role (some p) true h = ground arith
effect_role (some p) false h = ground arith

-- The record that an upsert leaves is active, and the same press has no effect on it.
pub after_idle :
    (b : Bool) (i : ParticipationUpsert) (s : Store)
    → i.role ≡ press_role b
    → (is_active (upsert i s).0.after.status ≡ true)
      × (has_effect (decide_transition (some (upsert i s).0.after) (button b)) ≡ false)
unfolding upsert decide_transition
after_idle true i s r = ground arith
after_idle false i s r = ground arith

is_of_created :
    (i : ParticipationUpsert) (id : Text)
    → is_of i.event_id i.chat_user_id (created_from i id) ≡ true
is_of_created i id = rw (text_eq_refl i.event_id, text_eq_refl i.chat_user_id) refl

-- The store holds what Upsert returns.
pub find-upsert :
    (i : ParticipationUpsert) (s : Store)
    → find_participation i.event_id i.chat_user_id (upsert i s).1 ≡ some (upsert i s).0.after
unfolding upsert
find-upsert i s = elim (Option-cases (find_participation i.event_id i.chat_user_id s)) [
  | inl e ↦
      rw (e, upsert)
        (find-append_new (is_of i.event_id i.chat_user_id) s.participations _ e
          (is_of_created i (hex_id (next_seq s))))
  | inr (p, e) ↦
      rw (e, upsert)
        (find-update_self (is_of i.event_id i.chat_user_id) (upserted i) s.participations p e
          (find-holds (is_of i.event_id i.chat_user_id) s.participations p e))
]

pub before-upsert :
    (i : ParticipationUpsert) (s : Store)
    → (upsert i s).0.before ≡ find_participation i.event_id i.chat_user_id s
unfolding upsert
before-upsert i s = ground arith

abbrev pub is_fresh : TransitionKind → Bool
is_fresh TransitionKind.joined = true
is_fresh TransitionKind.peeked = true
is_fresh TransitionKind.promoted = true
is_fresh TransitionKind.already_participant = false
is_fresh TransitionKind.already_peeking = false

-- The kind tells whether there is an effect.
pub effect_kind :
    (p : Option Participation) (a : Action)
    → has_effect (decide_transition p a) ≡ is_fresh (decide_transition p a).kind
unfolding decide_transition
effect_kind none join = refl
effect_kind none peek = refl
effect_kind none (other_action t) = refl
effect_kind (some p) a = ground arith

kinds_differ :
    (k l : TransitionKind) → is_fresh k ≡ false → is_fresh l ≡ true → same_kind k l ≡ false
kinds_differ k l h t = ground arith

pub idle_differs :
    (p q : Option Participation) (a : Action)
    → has_effect (decide_transition p a) ≡ false
    → has_effect (decide_transition q a) ≡ true
    → same_kind (decide_transition p a).kind (decide_transition q a).kind ≡ false
idle_differs p q a e f = kinds_differ _ _ (sym (effect_kind p a) ∙ e) (sym (effect_kind q a) ∙ f)

-- Upsert changes the number of active participants of the event by its one record: with the record
-- that it found counted in, the new number is the old one with the record that it leaves counted in.
pub count_active-upsert :
    (i : ParticipationUpsert) (s : Store)
    → let c = (upsert i s).0 in
      count_active i.event_id Role.participant (upsert i s).1
        + one_if
            (elim c.before [ none ↦ false | some p ↦ is_participant p.role && is_active p.status ])
      ≡ count_active i.event_id Role.participant s + one_if (is_participant c.after.role)
unfolding upsert count_active
count_active-upsert i s = elim (Option-cases (find_participation i.event_id i.chat_user_id s)) [
  | inl e ↦
      rw (e, upsert)
        (ground (
          arith,
          count-append (counted i.event_id Role.participant) s.participations
              (created_from i (hex_id (next_seq s))),
          text_eq_refl i.event_id,
        ))
  | inr (p, e) ↦
      rw (e, upsert)
        (ground (
          arith,
          count-update (is_of i.event_id i.chat_user_id) (counted i.event_id Role.participant)
              (upserted i) s.participations p e,
          find-holds (is_of i.event_id i.chat_user_id) s.participations p e,
        ))
]
