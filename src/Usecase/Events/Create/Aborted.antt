-- ===== src/Usecase/Events/Create/Aborted.antt =====
-- usecase/event.go, Create: what is left when provisioning or scheduling fails.
use aso_bell.Common.{
  ◌≡◌, refl, sym, ◌∙◌, true, List, [], ◌∷◌, none, some, map, is_some, Bool-cases, Option-cases, inl,
  inr, subst,
}
use aso_bell.Common.Int.{ℤ}
use aso_bell.Common.Lists.{any, is_empty, find, find-holds, find-update_self}
use aso_bell.Common.Text.{Text}
use aso_bell.Domain.Errors.{Error, Result, ok}
use aso_bell.Domain.Event.{Event, EndReason, EventStatus, open_status, cancel}
use aso_bell.Domain.Job.{Job, JobKind, new_archive_channel_job}
use aso_bell.Domain.Reminder.{schedule, rejected}
use aso_bell.Domain.TimeOfDay.{Zone}
use aso_bell.Domain.Workspace.{Workspace}
use aso_bell.Store.State.{Store}
use aso_bell.Store.Jobs
use aso_bell.Store.Jobs.{clashes, cancel_one}
use aso_bell.Store.Events.{find_event, has_id, saved}
use aso_bell.Store.Events
use aso_bell.Usecase.Effects.{Env, World, ◌>>=◌, now, enqueue, load_location, clock_now}
use aso_bell.Usecase.Events.Create.{provision, finish_create, abort_provision, abort_changed}
use aso_bell.Usecase.Reminders.{schedule_reminders, schedule_open, planned}
use aso_bell.Usecase.Events.Create.Outside.{IsSame, provision-Carries}

-- The event is stored as canceled, because provisioning failed.
abbrev pub IsAborted : Text → List Event → Type 0
IsAborted id es =
    (e : Event) × (find (has_id id) es ≡ some e)
    × (e.status ≡ EventStatus.canceled)
    × (e.end_reason ≡ EndReason.provision_failed)

update_fields-IsAborted :
    (ev old : Event) (s : Store)
    → find_event ev.id s ≡ some old
    → ev.status ≡ EventStatus.canceled
    → ev.end_reason ≡ EndReason.provision_failed
    → IsAborted ev.id (Events.update_fields ev s).1.events
unfolding Events.update_fields
update_fields-IsAborted ev old s found status reason =
    rw (found, Events.update_event)
      (
        saved ev old,
        find-update_self (has_id ev.id) (saved ev) s.events old found
            (find-holds (has_id ev.id) s.events old found),
        status,
        reason,
      )

-- Enqueue does not touch the events.
enqueue-events :
    (job : Job) (env : Env) (w : World) → (enqueue job env w).1.store.events ≡ w.store.events
unfolding enqueue now Jobs.enqueue
enqueue-events job env w = elim (Bool-cases (any (clashes job) w.store.jobs)) [
  | inl e ↦ rw (e, enqueue) refl
  | inr e ↦ rw (e, enqueue) refl
]

-- The event as Cancel leaves an open one.
abbrev aborted : Event → ℤ → Event
aborted ev at = record ev {
  status = EventStatus.canceled;
  end_reason = EndReason.provision_failed;
  ended_at = some at;
  updated_at = at;
}

cancel_open :
    (ev : Event) (at : ℤ)
    → ev.status ≡ open_status
    → cancel ev EndReason.provision_failed at ≡ (true, aborted ev at)
unfolding cancel
cancel_open ev at h = rw h refl

abort_changed-IsAborted :
    (ev old : Event) (at : ℤ) (env : Env) (w : World)
    → find_event ev.id w.store ≡ some old
    → ((abort_changed (true, aborted ev at) at env w).0 ≡ ok tt)
      × IsAborted ev.id (abort_changed (true, aborted ev at) at env w).1.store.events
unfolding abort_changed
abort_changed-IsAborted ev old at env w found =
    let stored = update_fields-IsAborted (aborted ev at) old w.store found refl refl in
    let w1 : World = record w { store = (Events.update_fields (aborted ev at) w.store).1 } in
    elim (Bool-cases (is_empty ev.channel.channel_id)) [
      | inl e ↦ rw e (refl, stored)
      | inr e ↦ rw e (
        refl,
        subst (IsAborted ev.id) (sym (enqueue-events (new_archive_channel_job ev.id at) env w1))
            stored,
      )
    ]

abort-IsAborted :
    (ev : Event) (env : Env) (w : World)
    → ev.status ≡ open_status
    → is_some (find_event ev.id w.store) ≡ true
    → ((abort_provision ev env w).0 ≡ ok tt)
      × IsAborted ev.id (abort_provision ev env w).1.store.events
unfolding abort_provision now
abort-IsAborted ev env w opened stored = elim (Option-cases (find_event ev.id w.store)) [
  | inl e ↦ absurd (cc (rw e at stored))
  | inr (old, e) ↦ rw (cancel_open ev (env.clock w.calls) opened) (
      abort_changed-IsAborted ev old (env.clock w.calls) env
        (record w { calls = clock_now ∷ w.calls }) e)
]

-- The end of Create on an event that is stored and open: whenever provisioning fails, whatever the
-- provider and the clock answer at each step, Create reports that failure and the stored event is
-- canceled for it.
pub provision-IsAborted :
    (ws : Workspace) (ev left : Event) (error : Error) (env : Env) (w : World)
    → ev.status ≡ open_status
    → is_some (find_event ev.id w.store) ≡ true
    → (provision ws ev env w).0 ≡ ok (left, some error)
    → let end = (provision ws ev >>= finish_create ws) env w in
      (end.0 ≡ Result.failed error) × IsAborted ev.id end.1.store.events
unfolding finish_create
provision-IsAborted ws ev left error env w opened stored fails =
    let (kept, same) = provision-Carries ws ev env w stored in
    let (id, status) : (left.id ≡ ev.id) × (left.status ≡ ev.status) =
      subst (IsSame ev) fails same in
    let w1 = (provision ws ev env w).1 in
    let (fine, ended) =
      abort-IsAborted left env w1 (status ∙ opened)
        (subst (λ i. is_some (find_event i w1.store) ≡ true) (sym id) kept) in
    rw (fails, fine)
      (refl, subst (λ i. IsAborted i (abort_provision left env w1).1.store.events) id ended)

-- The world behind the cancellation at the start of scheduleReminders.
abbrev without_reminders : Text → Env → World → World
without_reminders id env w = record w {
  calls = clock_now ∷ w.calls;
  store = record w.store {
    jobs = map (cancel_one id (JobKind.reminder ∷ []) (env.clock w.calls)) w.store.jobs;
  };
}

schedule_reminders-rejected :
    (ws : Workspace) (ev : Event) (loc : Zone) (error : Error) (env : Env) (w : World)
    → ev.status ≡ open_status
    → env.load_location ws.settings.timezone ≡ some loc
    → schedule ev.reminder_policy (env.clock w.calls) ev.starts_at loc ≡ rejected error
    → schedule_reminders ws ev env w ≡ (Result.failed error, without_reminders ev.id env w)
unfolding schedule_reminders schedule_open planned now Jobs.cancel_by_event
schedule_reminders-rejected ws ev loc error env w opened found plan =
    rw (opened, schedule_open, found, load_location, plan) refl

-- The end of Create where provisioning has succeeded but the policy gives too many reminders: Create
-- reports the error, and leaves the events as they were, this one open; no job of any kind is added
-- to the queue, neither a reminder nor the automatic end.
pub finish_create-rejected :
    (ws : Workspace) (ev : Event) (loc : Zone) (error : Error) (env : Env) (w : World)
    → ev.status ≡ open_status
    → env.load_location ws.settings.timezone ≡ some loc
    → schedule ev.reminder_policy (env.clock w.calls) ev.starts_at loc ≡ rejected error
    → let end = finish_create ws (ev, none) env w in
      (end.0 ≡ Result.failed error)
      × (end.1.store.events ≡ w.store.events)
      × (end.1.store.jobs
          ≡ map (cancel_one ev.id (JobKind.reminder ∷ []) (env.clock w.calls)) w.store.jobs)
unfolding finish_create
finish_create-rejected ws ev loc error env w opened found plan =
    rw (schedule_reminders-rejected ws ev loc error env w opened found plan) (refl, refl, refl)
