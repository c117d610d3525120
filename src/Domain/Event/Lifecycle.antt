-- ===== src/Domain/Event/Lifecycle.antt =====
-- event.go: what an event keeps from its creation through edits, to its end.
use aso_bell.Common.{
  ◌≡◌, refl, ◌↔◌, inl, inr, true, false, List, [], ◌∷◌, Option, none, some, arith, Bool-cases,
  Option-cases, subst, sym,
}
use aso_bell.Common.Int.{ℤ, pos, ◌<ℤ◌}
use aso_bell.Common.Text.{Text, trim_space}
use aso_bell.Domain.Errors.{Error, ValidationError, err, err-none_iff, merge}
use aso_bell.Domain.Identifier.{is_id}
use aso_bell.Domain.Reminder.{ReminderPolicy, validate}
use aso_bell.Domain.Reminder.Valid.{IsPolicy, merge-validate}
use aso_bell.Domain.Event.{
  Event, EventStatus, EndReason, EventUpdate, NewEventParams, NewEventResult, created, refused,
  open_status, ended, canceled, is_open, check_new, new_event, next_event, check_update, apply,
  end_event, cancel, edited_text, edited, when_given, validate_title, validate_description,
  validate_location,
}
use aso_bell.Domain.Event.Checks.{
  IsTitle, IsDescription, IsLocation, EndsAfter, IsAccepted, check_new-nil, validate_title-nil,
  validate_description-nil, validate_location-nil, validate_ends_at-nil,
}

-- What holds of every stored event.
pub record IsWellFormed (e : Event) : Type 0 where
  pub title : IsTitle e.title
  pub description : IsDescription e.description
  pub location : IsLocation e.location
  pub end : EndsAfter e.starts_at e.ends_at
  pub policy : IsPolicy e.reminder_policy.mode e.reminder_policy

-- The result of NewEvent on an accepted input, and on another.
abbrev pub IsOpened : NewEventParams → ℤ → NewEventResult → Type 0
IsOpened p now (created e) =
    IsAccepted p now
    × IsWellFormed e
    × (e.status ≡ open_status)
    × (now <ℤ e.starts_at)
    × (is_id e.workspace_id ≡ true)
    × (e.participant_count ≡ pos 0)
IsOpened p now (refused x) = ¬ IsAccepted p now

-- NewEvent returns an event exactly on an input that meets the nine conditions of IsAccepted: the
-- trimmed texts within their limits, a workspace with an object id, an organizer, a start in the
-- future, an end behind it, a valid policy and a known origin. That event is open, well formed, starts
-- in the future, belongs to a workspace with an object id, and has no participants yet.
pub new_event-IsOpened : (p : NewEventParams) (now : ℤ) → IsOpened p now (new_event p now)
unfolding new_event
new_event-IsOpened p now =
    let v =
      check_new p (trim_space p.title) (trim_space p.description) (trim_space p.location) now in
    let c = check_new-nil p now in
    let n = err-none_iff v in
    elim (Option-cases (err v)) [
      | inl e ↦
          let a : IsAccepted p now = c.0 (n.0 e) in
          rw (e, new_event, IsOpened)
            (
              a,
              record {
                title = a.title;
                description = a.description;
                location = a.location;
                end = a.end;
                policy = a.policy;
              },
              refl,
              a.future,
              a.workspace,
              refl,
            )
      | inr (x, e) ↦ rw (e, new_event, IsOpened) (λ a. cc (n.1 (c.1 a)))
    ]

-- A text that is not given stays as it was; one that is given has been checked.
given_kept :
    (P : Text → Type 0) (f : ValidationError → Text → ValidationError)
    → ((v : ValidationError) (t : Text) → (f v t ≡ []) ↔ ((v ≡ []) × P t))
    → (o : Option Text) (old : Text) (v : ValidationError) → P old
    → when_given o (λ w. f w (edited_text o old)) v ≡ []
    → (v ≡ []) × P (edited_text o old)
given_kept P f iff none old v p h = (h, p)
given_kept P f iff (some t) old v p h = (iff v (trim_space t)).0 h

given-IsPolicy :
    (o : Option ReminderPolicy) (old : ReminderPolicy) (v : ValidationError) (f field : Text)
    → IsPolicy old.mode old
    → when_given o (λ w. merge w f (validate (edited o old) field)) v ≡ []
    → (v ≡ []) × IsPolicy (edited o old).mode (edited o old)
given-IsPolicy none old v f field p h = (h, p)
given-IsPolicy (some q) old v f field p h = (merge-validate v q f field).0 h

next_event-IsWellFormed :
    (e : Event) (u : EventUpdate)
    → IsWellFormed e
    → check_update u (next_event e u) ≡ []
    → IsWellFormed (next_event e u)
unfolding check_update next_event
next_event-IsWellFormed e u w h =
    let (h4, policy) = given-IsPolicy u.reminder_policy e.reminder_policy _ _ _ w.policy h in
    let (h3, end) =
      (validate_ends_at-nil _ (next_event e u).starts_at (next_event e u).ends_at).0 h4 in
    let (h2, location) =
      given_kept IsLocation validate_location validate_location-nil u.location e.location _
        w.location h3 in
    let (h1, description) =
      given_kept IsDescription validate_description validate_description-nil u.description
        e.description _ w.description h2 in
    let (h0, title) =
      given_kept IsTitle validate_title validate_title-nil u.title e.title _ w.title h1 in
    record {
      title = title;
      description = description;
      location = location;
      end = end;
      policy = policy;
    }

-- The outcome of Apply on an event: an error leaves it as it was; without one it was open, is well
-- formed if it was so before, is stamped with the time, and keeps every field that an update has
-- no value for.
abbrev pub Edited : Event → ℤ → Option Error × Event → Type 0
Edited e now (some x, e') = e' ≡ e
Edited e now (none, e') =
    (e.status ≡ open_status)
    × IsWellFormed e'
    × (e'.id ≡ e.id)
    × (e'.workspace_id ≡ e.workspace_id)
    × (e'.organizer ≡ e.organizer)
    × (e'.status ≡ open_status)
    × (e'.channel ≡ e.channel)
    × (e'.messages ≡ e.messages)
    × (e'.participant_count ≡ e.participant_count)
    × (e'.origin_channel_id ≡ e.origin_channel_id)
    × (e'.ended_at ≡ e.ended_at)
    × (e'.end_reason ≡ e.end_reason)
    × (e'.created_via ≡ e.created_via)
    × (e'.created_by ≡ e.created_by)
    × (e'.created_at ≡ e.created_at)
    × (e'.updated_at ≡ now)

open-eq : (s : EventStatus) → is_open s ≡ true → s ≡ open_status
open-eq s h = ground arith

-- Of a well-formed event, Apply makes a well-formed one, only while it is open, that is stamped with
-- the time and differs at most in its title, description, location, start, end and policy; when it
-- reports an error it has changed nothing.
pub apply-Edited :
    (e : Event) (u : EventUpdate) (now : ℤ) → IsWellFormed e → Edited e now (apply e u now)
unfolding apply
apply-Edited e u now w = elim (Bool-cases (is_open e.status)) [
  | inr closed ↦ rw (closed, apply, Edited) refl
  | inl opened ↦ elim (Option-cases (err (check_update u (next_event e u)))) [
    | inr (x, r) ↦ rw (opened, r, apply, Edited) refl
    | inl r ↦
        let f = next_event-IsWellFormed e u w ((err-none_iff _).0 r) in
        rw (opened, r, apply, Edited)
          (
            open-eq e.status opened,
            record {
              title = f.title;
              description = f.description;
              location = f.location;
              end = f.end;
              policy = f.policy;
            },
            unfold next_event in refl,
            unfold next_event in refl,
            unfold next_event in refl,
            unfold next_event in open-eq e.status opened,
            unfold next_event in refl,
            unfold next_event in refl,
            unfold next_event in refl,
            unfold next_event in refl,
            unfold next_event in refl,
            unfold next_event in refl,
            unfold next_event in refl,
            unfold next_event in refl,
            unfold next_event in refl,
            refl,
          )
  ]
]

-- What can be done to an event.
pub data EventOp : Type 0 where
  edit : EventUpdate → EventOp
  finish abort : EndReason → EventOp

abbrev pub perform : EventOp → ℤ → Event → Event
perform (edit u) now e = (apply e u now).1
perform (finish r) now e = (end_event e r now).1
perform (abort r) now e = (cancel e r now).1

abbrev pub perform_all : List (EventOp × ℤ) → Event → Event
perform_all [] e = e
perform_all ((op, now) ∷ ops) e = perform_all ops (perform op now e)

perform_closed :
    (op : EventOp) (now : ℤ) (e : Event) → is_open e.status ≡ false → perform op now e ≡ e
unfolding apply end_event cancel
perform_closed (edit u) now e h = ground arith
perform_closed (finish r) now e h = ground arith
perform_closed (abort r) now e h = ground arith

perform_all_closed :
    (ops : List (EventOp × ℤ)) (e : Event) → is_open e.status ≡ false → perform_all ops e ≡ e
perform_all_closed [] e h = refl
perform_all_closed ((op, now) ∷ ops) e h =
    rw (perform_closed op now e h) (perform_all_closed ops e h)

-- The first close of an open event decides: it records its status, reason and time, and no later
-- edit, end or cancel changes anything of the event.
pub first_close_wins :
    (e : Event) (reason : EndReason) (now : ℤ) (ops : List (EventOp × ℤ))
    → e.status ≡ open_status
    → (perform_all ops (end_event e reason now).1
        ≡ record e { status = ended; end_reason = reason; ended_at = some now; updated_at = now })
      × (perform_all ops (cancel e reason now).1 ≡ record e {
        status = canceled;
        end_reason = reason;
        ended_at = some now;
        updated_at = now;
      })
      × ((end_event e reason now).0 ≡ true)
      × ((cancel e reason now).0 ≡ true)
unfolding end_event cancel
first_close_wins e reason now ops h =
    rw (h) (perform_all_closed ops _ refl, perform_all_closed ops _ refl, refl, refl)

Edited-IsWellFormed :
    (e : Event) (now : ℤ) (r : Option Error × Event)
    → IsWellFormed e
    → Edited e now r
    → IsWellFormed r.1
Edited-IsWellFormed e now (some x, e') w h = subst IsWellFormed (sym h) w
Edited-IsWellFormed e now (none, e') w h = h.1

perform-IsWellFormed :
    (op : EventOp) (now : ℤ) (e : Event) → IsWellFormed e → IsWellFormed (perform op now e)
unfolding end_event cancel
perform-IsWellFormed (edit u) now e w =
    Edited-IsWellFormed e now (apply e u now) w (apply-Edited e u now w)
perform-IsWellFormed (finish r) now e w = ground arith
perform-IsWellFormed (abort r) now e w = ground arith

-- Every event that edits, ends and cancels make of a well-formed one is well formed.
pub perform_all-IsWellFormed :
    (ops : List (EventOp × ℤ)) (e : Event) → IsWellFormed e → IsWellFormed (perform_all ops e)
perform_all-IsWellFormed [] e w = w
perform_all-IsWellFormed ((op, now) ∷ ops) e w =
    perform_all-IsWellFormed ops (perform op now e) (perform-IsWellFormed op now e w)
