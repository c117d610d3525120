-- ===== src/Usecase/Reminders/Pending.antt =====
-- usecase/reminder.go, scheduleReminders: which reminders are pending behind it.
use aso_bell.Common.{
  ℕ, suc, ◌≡◌, refl, sym, ap, ◌∙◌, Bool, true, false, not, ◌&&◌, List, [], ◌∷◌, ◌++◌, some, map,
  Bool-cases, inl, inr, arith,
}
use aso_bell.Common.Int.{ℤ, pos, ◌+ℤ◌, pos_part, int_laws}
use aso_bell.Common.Lists.{All, All-append, All-mono, any, keep}
use aso_bell.Common.Text.{Text, text_eq, text_eq_iff, text_eq_refl}
use aso_bell.Domain.Errors.{ok}
use aso_bell.Domain.Event.{Event, is_open}
use aso_bell.Domain.Job.{Job, JobKind, JobStatus, new_reminder_job, reminder_key}
use aso_bell.Domain.Reminder.{schedule, times}
use aso_bell.Domain.TimeOfDay.{Zone}
use aso_bell.Domain.Workspace.{Workspace}
use aso_bell.Store.Jobs
use aso_bell.Store.Jobs.{status_eq, clashes, queued, cancel_one, canceled_at, to_cancel}
use aso_bell.Store.Logs.{sent_at}
use aso_bell.Store.State.{Store, next_seq}
use aso_bell.Usecase.Effects.{Env, World, clock_now, enqueue, now, load_location}
use aso_bell.Usecase.Reminders.{
  schedule_reminders, schedule_open, planned, enqueue_times, next_reminder_sequence,
}
use aso_bell.Usecase.Reminders.Fresh.{
  HasKey, IsKeyed, IsBelow, last_sequence, last_sequence-pos, last_sequence-IsBelow,
  reminder_key-injective,
}
use mathlib.Core.List.{append_assoc, append-nil}

abbrev pub is_reminder_of : Text → Job → Bool
is_reminder_of id j =
    text_eq j.event_id id
    && Jobs.kind_eq j.kind JobKind.reminder
    && status_eq j.status JobStatus.pending

abbrev run_at_of : Job → ℤ
run_at_of j = j.run_at

-- The times of the event's pending reminders, in the order of the queue.
abbrev pub pending_times : Text → Store → List ℤ
pending_times id s = map run_at_of (keep (is_reminder_of id) s.jobs)

-- The times that no log of the event has.
abbrev pub unsent : Text → Store → List ℤ → List ℤ
unsent id s ts = keep (λ t. not (sent_at id t s)) ts

abbrev reminders_only : List JobKind
reminders_only = JobKind.reminder ∷ []

canceled_one :
    (id : Text) (at : ℤ) (j : Job) → is_reminder_of id (cancel_one id reminders_only at j) ≡ false
canceled_one id at j = elim (Bool-cases (to_cancel id reminders_only j)) [
  | inl e ↦ rw e (ground arith)
  | inr e ↦ rw e (ground arith)
]

cancel-pending :
    (id : Text) (at : ℤ) (js : List Job)
    → keep (is_reminder_of id) (map (cancel_one id reminders_only at) js) ≡ []
cancel-pending id at [] = refl
cancel-pending id at (j ∷ js) = rw (canceled_one id at j) (cancel-pending id at js)

canceled-HasKey : (k : JobKind) (at : ℤ) (j : Job) → HasKey k j → HasKey k (canceled_at at j)
canceled-HasKey JobKind.reminder at j h = h
canceled-HasKey JobKind.peek_expire at j h = h
canceled-HasKey JobKind.event_auto_end at j h = h
canceled-HasKey JobKind.archive_channel at j h = h
canceled-HasKey (JobKind.unknown kind) at j h = h

cancel-IsKeyed :
    (id : Text) (at : ℤ) (js : List Job)
    → All IsKeyed js
    → All IsKeyed (map (cancel_one id reminders_only at) js)
cancel-IsKeyed id at [] k = tt
cancel-IsKeyed id at (j ∷ js) k = (
  elim (Bool-cases (to_cancel id reminders_only j)) [
    | inl e ↦ rw e (canceled-HasKey j.kind at j k.0)
    | inr e ↦ rw e k.0
  ],
  cancel-IsKeyed id at js k.1,
)

pending-append :
    (id : Text) (js : List Job) (j : Job)
    → is_reminder_of id j ≡ true
    → map run_at_of (keep (is_reminder_of id) (js ++ j ∷ []))
      ≡ map run_at_of (keep (is_reminder_of id) js) ++ j.run_at ∷ []
pending-append id [] j h = rw h refl
pending-append id (k ∷ js) j h = elim (Bool-cases (is_reminder_of id k)) [
  | inl e ↦ rw e (ap (λ ts. k.run_at ∷ ts) (pending-append id js j h))
  | inr e ↦ rw e (pending-append id js j h)
]

-- A key that lies above every job's clashes with none.
below-fresh :
    (id : Text) (n : ℕ) (at : ℤ) (js : List Job)
    → All (IsBelow id n) js
    → any (clashes (new_reminder_job id (pos n) at)) js ≡ false
unfolding new_reminder_job
below-fresh id n at [] b = refl
below-fresh id n at (j ∷ js) b = ground (arith, b.0 n (omega arith), below-fresh id n at js b.1)

queued-IsBelow :
    (id : Text) (n seq : ℕ) (at on : ℤ)
    → IsBelow id (suc n) (queued (new_reminder_job id (pos n) at) seq on)
unfolding queued new_reminder_job
queued-IsBelow id n seq at on m le =
    elim (Bool-cases (text_eq (reminder_key id (pos n)) (reminder_key id (pos m)))) [
      | inr e ↦ e
      | inl e ↦
          let r =
            reminder_key-injective id id n m
              ((text_eq_iff (reminder_key id (pos n)) (reminder_key id (pos m))).0 e) in
          absurd (omega (arith, le, r.0))
    ]

-- The world behind the enqueueing of a job that clashes with none.
abbrev queued_in : Job → Env → World → World
queued_in job env w = record w {
  calls = clock_now ∷ w.calls;
  store = record w.store {
    seq = next_seq w.store;
    jobs = w.store.jobs ++ queued job (next_seq w.store) (env.clock w.calls) ∷ [];
  };
}

enqueue-fresh :
    (job : Job) (env : Env) (w : World)
    → any (clashes job) w.store.jobs ≡ false
    → enqueue job env w ≡ (ok tt, queued_in job env w)
unfolding enqueue now Jobs.enqueue
enqueue-fresh job env w h = rw (h, enqueue) refl

new-is_reminder :
    (id : Text) (n seq : ℕ) (at on : ℤ)
    → is_reminder_of id (queued (new_reminder_job id (pos n) at) seq on) ≡ true
unfolding queued new_reminder_job Jobs.kind_eq
new-is_reminder id n seq at on = rw (text_eq_refl id) refl

pending-queued :
    (id : Text) (n : ℕ) (t : ℤ) (env : Env) (w : World)
    → pending_times id (queued_in (new_reminder_job id (pos n) t) env w).store
      ≡ pending_times id w.store ++ t ∷ []
unfolding queued new_reminder_job
pending-queued id n t env w =
    let new = queued (new_reminder_job id (pos n) t) (next_seq w.store) (env.clock w.calls) in
    pending-append id w.store.jobs new
      (new-is_reminder id n (next_seq w.store) t (env.clock w.calls))

unsent-queued :
    (id : Text) (job : Job) (ts : List ℤ) (env : Env) (w : World)
    → unsent id (queued_in job env w).store ts ≡ unsent id w.store ts
unfolding sent_at
unsent-queued id job ts env w = refl

queued_in-IsBelow :
    (id : Text) (n : ℕ) (t : ℤ) (env : Env) (w : World)
    → All (IsBelow id n) w.store.jobs
    → All (IsBelow id (suc n)) (queued_in (new_reminder_job id (pos n) t) env w).store.jobs
queued_in-IsBelow id n t env w b =
    All-append (IsBelow id (suc n)) w.store.jobs _
      (All-mono (IsBelow id n) (IsBelow id (suc n)) w.store.jobs
        (λ j h m le. h m (omega (arith, le))) b)
      (queued-IsBelow id n (next_seq w.store) t (env.clock w.calls), tt)

-- The loop of scheduleReminders appends the times not sent yet.
enqueue_times-pending :
    (id : Text) (sequence : ℤ) (n : ℕ) (ts : List ℤ) (env : Env) (w : World)
    → sequence ≡ pos n
    → All (IsBelow id n) w.store.jobs
    → ((enqueue_times id sequence ts env w).0 ≡ ok tt)
      × (pending_times id (enqueue_times id sequence ts env w).1.store
          ≡ pending_times id w.store ++ unsent id w.store ts)
unfolding enqueue_times
enqueue_times-pending id sequence n [] env w e b =
    (refl, sym (append-nil (pending_times id w.store)))
enqueue_times-pending id sequence n (t ∷ ts) env w e b = elim (Bool-cases (sent_at id t w.store)) [
  | inl s ↦ rw s (enqueue_times-pending id sequence n ts env w e b)
  | inr s ↦
      let job = new_reminder_job id (pos n) t in
      let w2 = queued_in job env w in
      let r =
        enqueue_times-pending id (pos n +ℤ pos 1) (suc n) ts env w2 (omega int_laws)
          (queued_in-IsBelow id n t env w b) in
      rw (s, e, enqueue-fresh job env w (below-fresh id n t w.store.jobs b))
        (
          r.0,
          r.1
              ∙ (ap (λ xs. xs ++ unsent id w2.store ts) (pending-queued id n t env w)
                  ∙ (append_assoc (pending_times id w.store) (t ∷ []) (unsent id w2.store ts)
                      ∙ ap (λ xs. pending_times id w.store ++ t ∷ xs)
                          (unsent-queued id job ts env w))),
        )
]

after_last : (last : ℤ) (n : ℕ) → last ≡ pos n → last +ℤ pos 1 ≡ pos (suc n)
after_last last n h = rw h (omega int_laws)

schedule_open-pending :
    (ws : Workspace) (ev : Event) (at : ℤ) (loc : Zone) (ts : List ℤ) (env : Env) (w : World)
    → env.load_location ws.settings.timezone ≡ some loc
    → schedule ev.reminder_policy at ev.starts_at loc ≡ times ts
    → All IsKeyed w.store.jobs
    → ((schedule_open ws ev at env w).0 ≡ ok tt)
      × (pending_times ev.id (schedule_open ws ev at env w).1.store
          ≡ pending_times ev.id w.store ++ unsent ev.id w.store ts)
unfolding schedule_open next_reminder_sequence Jobs.list_by_event
schedule_open-pending ws ev at loc ts env w found plan keyed =
    let last = last_sequence ev.id w.store.jobs in
    rw (found, load_location, plan, planned)
      (enqueue_times-pending ev.id (last +ℤ pos 1) (suc (pos_part last)) ts env w
        (after_last last (pos_part last) (last_sequence-pos ev.id w.store.jobs))
        (last_sequence-IsBelow ev.id w.store.jobs keyed))

-- scheduleReminders for an open event whose policy gives the times: it succeeds, and the event's
-- pending reminders are exactly the times that no log has yet, in their order. None is lost to the
-- key of an earlier reminder.
pub schedule_reminders-pending :
    (ws : Workspace) (ev : Event) (loc : Zone) (ts : List ℤ) (env : Env) (w : World)
    → is_open ev.status ≡ true
    → env.load_location ws.settings.timezone ≡ some loc
    → schedule ev.reminder_policy (env.clock w.calls) ev.starts_at loc ≡ times ts
    → All IsKeyed w.store.jobs
    → ((schedule_reminders ws ev env w).0 ≡ ok tt)
      × (pending_times ev.id (schedule_reminders ws ev env w).1.store ≡ unsent ev.id w.store ts)
unfolding schedule_reminders now Jobs.cancel_by_event sent_at
schedule_reminders-pending ws ev loc ts env w opened found plan keyed =
    let at = env.clock w.calls in
    let canceled = map (cancel_one ev.id reminders_only at) w.store.jobs in
    let w1 : World = record w {
      calls = clock_now ∷ w.calls;
      store = record w.store { jobs = canceled };
    } in
    let r =
      schedule_open-pending ws ev at loc ts env w1 found plan
        (cancel-IsKeyed ev.id at w.store.jobs keyed) in
    rw opened (
      r.0,
      r.1
          ∙ ap (λ js. map run_at_of js ++ unsent ev.id w.store ts)
              (cancel-pending ev.id at w.store.jobs),
    )
