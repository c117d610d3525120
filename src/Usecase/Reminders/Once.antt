-- ===== src/Usecase/Reminders/Once.antt =====
-- usecase/reminder.go, Send: a reminder is posted once.
use aso_bell.Common.{
  ℕ, ◌≡◌, refl, Bool, true, false, not, ◌&&◌, List, [], ◌∷◌, ◌++◌, Option, some, none,
  if◌then◌else◌, Bool-cases, inl, inr,
}
use aso_bell.Common.Int.{ℤ, ltb_ℤ, eq_ℤ, eq_ℤ_iff}
use aso_bell.Common.Lists.{count, any, find-holds}
use aso_bell.Common.Text.{Text, text_eq, text_eq_iff, text_eq_refl}
use aso_bell.Domain.Errors.{Result, ok}
use aso_bell.Domain.Event.{Event, is_open}
use aso_bell.Domain.Workspace.{Workspace}
use aso_bell.Store.State.{Store, ReminderLog, ReminderTarget}
use aso_bell.Store.Events
use aso_bell.Store.Logs.{append, sent_sequence}
use aso_bell.Usecase.Effects.{
  Call, M, Env, World, post_message, clock_now, continue, ◌>>=◌, event, now, workspace, updates,
  pure,
}
use aso_bell.Usecase.Reminders.{
  SendReminderInput, send, send_open, send_due, post_reminders, log_of,
}

abbrev pub is_post : Call → Bool
is_post (post_message ws channel_id msg) = true
is_post _ = false

-- How many messages have been posted.
abbrev pub posts : World → ℕ
posts w = count is_post w.calls

-- The call leaves the store alone and posts nothing.
abbrev pub IsSilent {ℓ} : {B : Type ℓ} → Result B × World → World → Type 0
IsSilent r w = (r.1.store ≡ w.store) × (posts r.1 ≡ posts w)

open-IsSilent :
    (i : SendReminderInput) (ev : Event) (env : Env) (w : World)
    → sent_sequence i.event_id i.sequence w.store ≡ true
    → IsSilent (send_open i ev env w) w
unfolding send_open now
open-IsSilent i ev env w h = elim (Bool-cases (ltb_ℤ (env.clock w.calls) ev.starts_at)) [
  | inl e ↦ rw (e, h) (refl, refl)
  | inr e ↦ rw e (refl, refl)
]

-- The reminder is in the log: nothing happens.
pub send-IsSilent :
    (i : SendReminderInput) (env : Env) (w : World)
    → sent_sequence i.event_id i.sequence w.store ≡ true
    → IsSilent (send i env w) w
unfolding send event
send-IsSilent i env w h = found (Events.get i.event_id w.store)
  where
    found :
        (r : Result Event)
        → IsSilent
            (continue
              (λ ev. if not (is_open ev.status) then pure false else send_open i ev)
              env
              r
              w)
            w
    found (Result.failed e) = (refl, refl)
    found (ok ev) = elim (Bool-cases (is_open ev.status)) [
      | inl e ↦ rw e (open-IsSilent i ev env w h)
      | inr e ↦ rw e (refl, refl)
    ]

any-append :
    (p : ReminderLog → Bool) (xs : List ReminderLog) (x : ReminderLog)
    → p x ≡ true
    → any p (xs ++ x ∷ []) ≡ true
any-append p [] x h = rw h refl
any-append p (y ∷ xs) x h = elim (Bool-cases (p y)) [
  | inl e ↦ rw e refl
  | inr e ↦ rw e (any-append p xs x h)
]

false_sent : ok false ≡ ok true → ⊥
false_sent h = cc

-- A log of the event with the sequence.
append-sent :
    (event_id : Text) (sequence : ℤ) (log : ReminderLog) (s : Store)
    → log.event_id ≡ event_id
    → log.sequence ≡ sequence
    → sent_sequence event_id sequence (append log s).1 ≡ true
unfolding sent_sequence append
append-sent event_id sequence log s a b =
    any-append (λ l. text_eq l.event_id event_id && eq_ℤ l.sequence sequence) s.reminder_logs _
      (rw (a, b, text_eq_refl event_id, (eq_ℤ_iff sequence sequence).1 refl) refl)

-- What Send does with the targets.
abbrev log_targets : SendReminderInput → Event → ℤ → List ReminderTarget → M Bool
log_targets i ev at targets = do log ← updates (append (log_of i ev at targets)); pure true

targets_logged :
    (i : SendReminderInput) (ev : Event) (at : ℤ) (env : Env) (r : Result (List ReminderTarget))
    (w : World)
    → ev.id ≡ i.event_id
    → (continue (log_targets i ev at) env r w).0 ≡ ok true
    → sent_sequence i.event_id i.sequence (continue (log_targets i ev at) env r w).1.store ≡ true
targets_logged i ev at env (Result.failed e) w same h = absurd (cc)
targets_logged i ev at env (ok targets) w same h =
    append-sent i.event_id i.sequence (log_of i ev at targets) w.store same refl

due_logged :
    (i : SendReminderInput) (ev : Event) (at : ℤ) (env : Env) (w : World)
    → ev.id ≡ i.event_id
    → (send_due i ev at env w).0 ≡ ok true
    → sent_sequence i.event_id i.sequence (send_due i ev at env w).1.store ≡ true
unfolding send_due workspace
due_logged i ev at env w same = found (Events.get_workspace ev.workspace_id w.store)
  where
    after : Workspace → M Bool
    after ws = post_reminders ws ev at >>= log_targets i ev at

    found :
        (r : Result Workspace)
        → (continue after env r w).0 ≡ ok true
        → sent_sequence i.event_id i.sequence (continue after env r w).1.store ≡ true
    found (Result.failed e) h = absurd (cc)
    found (ok ws) h =
        let posted = post_reminders ws ev at env w in
        targets_logged i ev at env posted.0 posted.1 same h

open_logged :
    (i : SendReminderInput) (ev : Event) (env : Env) (w : World)
    → ev.id ≡ i.event_id
    → (send_open i ev env w).0 ≡ ok true
    → sent_sequence i.event_id i.sequence (send_open i ev env w).1.store ≡ true
unfolding send_open now
open_logged i ev env w same h = elim (Bool-cases (ltb_ℤ (env.clock w.calls) ev.starts_at)) [
  | inr e ↦ absurd (false_sent (rw e at h))
  | inl e ↦ elim (Bool-cases (sent_sequence i.event_id i.sequence w.store)) [
    | inl m ↦ absurd (false_sent (rw (e, m) at h))
    | inr m ↦
        let w' : World = record w { calls = clock_now ∷ w.calls } in
        rw (e, m) (due_logged i ev (env.clock w.calls) env w' same (rw (e, m) at h))
  ]
]

send-logged :
    (i : SendReminderInput) (env : Env) (w : World)
    → (send i env w).0 ≡ ok true
    → sent_sequence i.event_id i.sequence (send i env w).1.store ≡ true
unfolding send event Events.get
send-logged i env w = found (Events.find_event i.event_id w.store) refl
  where
    checked : Event → M Bool
    checked ev = if not (is_open ev.status) then pure false else send_open i ev

    found :
        (o : Option Event)
        → Events.find_event i.event_id w.store ≡ o
        → (continue checked env (Events.or_not_found o) w).0 ≡ ok true
        → sent_sequence i.event_id i.sequence
            (continue checked env (Events.or_not_found o) w).1.store
          ≡ true
    found none e h = absurd (cc)
    found (some ev) e h = elim (Bool-cases (is_open ev.status)) [
      | inr c ↦ absurd (false_sent (rw c at h))
      | inl o ↦
          let same =
            (text_eq_iff ev.id i.event_id).0
              (find-holds (Events.has_id i.event_id) w.store.events ev e) in
          rw o (open_logged i ev env w same (rw o at h))
    ]

-- After a Send that reports a reminder as sent, no Send of the same event and sequence posts
-- anything or changes the repository, whatever environment it meets and whatever happened between,
-- as long as the log is kept.
pub send-once :
    (i again : SendReminderInput) (env env' : Env) (w w' : World)
    → (send i env w).0 ≡ ok true
    → again.event_id ≡ i.event_id
    → again.sequence ≡ i.sequence
    → w'.store.reminder_logs ≡ (send i env w).1.store.reminder_logs
    → IsSilent (send again env' w') w'
unfolding sent_sequence
send-once i again env env' w w' sent same_event same_sequence same_logs =
    send-IsSilent again env' w'
      (rw (same_event, same_sequence, same_logs) (send-logged i env w sent))
