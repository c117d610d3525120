-- ===== src/Usecase/Events/Close.antt =====
-- usecase/event.go, Close: what is left of an open event when Close returns.
use aso_bell.Common.{
  Bool, ◌&&◌, ℕ, ◌≡◌, refl, true, false, ◌||◌, List, [], ◌∷◌, none, some, arith, map, Bool-cases,
  inl, inr, subst, sym, ap, ◌∙◌,
}
use aso_bell.Common.Int.{ℤ}
use aso_bell.Common.Lists.{All, All-append, any, find-holds, find-update_self, is_empty, update}
use aso_bell.Common.Text.{Text, text_eq, text_eq_refl, text_eq_iff}
use aso_bell.Domain.Errors.{ok}
use aso_bell.Domain.Event.{Event, EndReason, EventStatus, end_event, cancel, open_status}
use aso_bell.Domain.Job.{Job, JobKind, JobStatus, new_archive_channel_job}
use aso_bell.Domain.Workspace.{Workspace}
use aso_bell.Store.Jobs.{
  status_eq, to_cancel, cancel_one, canceled_at, cancel_by_event, clashes, queued,
}
use aso_bell.Store.State.{Store}
use aso_bell.Store.Jobs
use aso_bell.Store.Events.{find_event, get_workspace, update_fields, saved, has_id}
use aso_bell.Store.Events
use aso_bell.Usecase.Effects.{Env, World, enqueue, workspace, event, now}
use aso_bell.Usecase.Events.{
  CloseEventInput, closed_by, cancelled_kinds, settle_jobs, finish_close, close_changed, close,
  authorize_manage, close_messages,
}
use aso_bell.Usecase.Quiet.{after_quiet, close_messages-IsQuiet}

-- The kinds that have no use once the event is closed.
abbrev pub is_useless : JobKind → Bool
is_useless JobKind.reminder = true
is_useless JobKind.peek_expire = true
is_useless JobKind.event_auto_end = true
is_useless JobKind.archive_channel = false
is_useless (JobKind.unknown k) = false

-- The job is not a pending reminder, expiry or automatic end of the event.
abbrev pub IsSettled : Text → Job → Type 0
IsSettled event_id j =
    (text_eq j.event_id event_id && status_eq j.status JobStatus.pending && is_useless j.kind)
    ≡ false

-- Close cancels exactly these.
is_canceled_kind :
    (k : JobKind)
    → (is_empty cancelled_kinds || any (Jobs.kind_eq k) cancelled_kinds) ≡ is_useless k
unfolding Jobs.kind_eq
is_canceled_kind JobKind.reminder = refl
is_canceled_kind JobKind.peek_expire = refl
is_canceled_kind JobKind.event_auto_end = refl
is_canceled_kind JobKind.archive_channel = refl
is_canceled_kind (JobKind.unknown k) = refl

cancel_one-IsSettled :
    (id : Text) (at : ℤ) (j : Job) → IsSettled id (cancel_one id cancelled_kinds at j)
cancel_one-IsSettled id at j = elim (Bool-cases (to_cancel id cancelled_kinds j)) [
  | inl e ↦ rw e (ground arith)
  | inr e ↦ rw e (
      sym (
        ap (λ b. text_eq j.event_id id && status_eq j.status JobStatus.pending && b)
          (is_canceled_kind j.kind))
      ∙ e)
]

map-IsSettled :
    (id : Text) (at : ℤ) (js : List Job)
    → All (IsSettled id) (map (cancel_one id cancelled_kinds at) js)
map-IsSettled id at [] = tt
map-IsSettled id at (j ∷ js) = (cancel_one-IsSettled id at j, map-IsSettled id at js)

archive-IsSettled :
    (id : Text) (n : ℕ) (at on : ℤ) → IsSettled id (queued (new_archive_channel_job id at) n on)
unfolding queued new_archive_channel_job Jobs.kind_eq
archive-IsSettled id n at on = rw (text_eq_refl id) refl

-- Enqueue adds at most the job, and never fails.
enqueue_kept :
    (P : Job → Type 0) (job : Job) (env : Env) (w : World)
    → ((n : ℕ) (at : ℤ) → P (queued job n at))
    → All P w.store.jobs
    → ((enqueue job env w).0 ≡ ok tt)
      × ((enqueue job env w).1.store.events ≡ w.store.events)
      × All P (enqueue job env w).1.store.jobs
unfolding enqueue now Jobs.enqueue
enqueue_kept P job env w new old = elim (Bool-cases (any (clashes job) w.store.jobs)) [
  | inl e ↦ rw (e, enqueue) (refl, refl, old)
  | inr e ↦ rw (e, enqueue) (refl, refl, All-append P w.store.jobs _ old (new _ _, tt))
]

settle_jobs-IsSettled :
    (ev : Event) (at : ℤ) (env : Env) (w : World)
    → ((settle_jobs ev at env w).0 ≡ ok ev)
      × ((settle_jobs ev at env w).1.store.events ≡ w.store.events)
      × All (IsSettled ev.id) (settle_jobs ev at env w).1.store.jobs
unfolding settle_jobs cancel_by_event
settle_jobs-IsSettled ev at env w = elim (Bool-cases (is_empty ev.channel.channel_id)) [
  | inl e ↦ rw e (refl, refl, map-IsSettled ev.id at w.store.jobs)
  | inr e ↦
      let w1 : World = record w { store = (cancel_by_event ev.id cancelled_kinds at w.store).1 } in
      let q =
        enqueue_kept (IsSettled ev.id) (new_archive_channel_job ev.id at) env w1
          (λ n on. archive-IsSettled ev.id n at on) (map-IsSettled ev.id at w.store.jobs) in
      rw (e, q.0) (refl, q.1, q.2)
]

-- The world behind the write of the event.
abbrev written : Event → World → World
written ev w = record w {
  store = record w.store { events = update (has_id ev.id) (saved ev) w.store.events };
}

module _ (ev old : Event) (at : ℤ) (env : Env) (w : World) (ws : Workspace)
    (found : find_event ev.id w.store ≡ some old)
    (home : get_workspace ev.workspace_id w.store ≡ ok ws) where
  home_written : get_workspace ev.workspace_id (written ev w).store ≡ ok ws
  unfolding get_workspace
  home_written = home

  update_fields_found : update_fields ev w.store ≡ (none, (written ev w).store)
  unfolding update_fields
  update_fields_found = rw (found, Events.update_event) refl

  finish_close_lem :
      finish_close ev at env w ≡ settle_jobs ev at env (close_messages ws ev env (written ev w)).1
  unfolding finish_close workspace
  finish_close_lem =
      rw (update_fields_found, finish_close, home_written)
        (after_quiet (close_messages ws ev) (settle_jobs ev at) env (written ev w)
          (close_messages-IsQuiet ws ev))

  finish_close-IsSettled :
      ((finish_close ev at env w).0 ≡ ok ev)
      × (find_event ev.id (finish_close ev at env w).1.store ≡ some (saved ev old))
      × All (IsSettled ev.id) (finish_close ev at env w).1.store.jobs
  finish_close-IsSettled =
      let w2 : World = (close_messages ws ev env (written ev w)).1 in
      let q = settle_jobs-IsSettled ev at env w2 in
      let same : w2.store ≡ (written ev w).store =
        (close_messages-IsQuiet ws ev env (written ev w)).1 in
      let stored =
        find-update_self (has_id ev.id) (saved ev) w.store.events old found
          (find-holds (has_id ev.id) w.store.events old found) in
      rw finish_close_lem (q.0, rw (q.1, same) stored, q.2)

-- The event as End or Cancel leaves an open one.
abbrev pub closed_status : EndReason → EventStatus
closed_status EndReason.canceled_reason = EventStatus.canceled
closed_status _ = EventStatus.ended

abbrev pub closed : EndReason → Event → ℤ → Event
closed r e at = record e {
  status = closed_status r;
  end_reason = r;
  ended_at = some at;
  updated_at = at;
}

closed_by_open :
    (r : EndReason) (e : Event) (at : ℤ)
    → e.status ≡ open_status
    → closed_by r e at ≡ (true, closed r e at)
unfolding end_event cancel
closed_by_open EndReason.canceled_reason e at h = rw h refl
closed_by_open EndReason.unset e at h = rw h refl
closed_by_open EndReason.manual e at h = rw h refl
closed_by_open EndReason.auto e at h = rw h refl
closed_by_open EndReason.provision_failed e at h = rw h refl
closed_by_open EndReason.channel_lost e at h = rw h refl

pub get_found :
    (id : Text) (e : Event) (s : Store) → find_event id s ≡ some e → Events.get id s ≡ ok e
unfolding Events.get
get_found id e s h = rw h refl

-- Close of an open event, by the organizer or from the console, never fails while the workspace is
-- stored, whatever the provider answers: it returns the event closed for the reason at the time of
-- the clock, the store has the event so, and no pending reminder, automatic end or expiry job of the
-- event is left.
pub close-IsSettled :
    (i : CloseEventInput) (e : Event) (ws : Workspace) (env : Env) (w : World)
    → find_event i.event_id w.store ≡ some e
    → e.status ≡ open_status
    → (i.actor.console || text_eq i.actor.chat_user_id e.organizer.user_id) ≡ true
    → get_workspace e.workspace_id w.store ≡ ok ws
    → let e' = closed i.reason e (env.clock w.calls) in
      ((close i env w).0 ≡ ok e')
      × (find_event i.event_id (close i env w).1.store ≡ some (saved e' e))
      × All (IsSettled i.event_id) (close i env w).1.store.jobs
unfolding close event authorize_manage now close_changed
close-IsSettled i e ws env w found opened allowed home =
    let e' = closed i.reason e (env.clock w.calls) in
    let w1 : World = (now env w).1 in
    let run : close i env w ≡ finish_close e' (env.clock w.calls) env w1 =
      rw
        (
          get_found i.event_id e w.store found,
          allowed,
          closed_by_open i.reason e (env.clock w.calls) opened,
        )
        refl in
    let id : e.id ≡ i.event_id =
      (text_eq_iff e.id i.event_id).0 (find-holds (has_id i.event_id) w.store.events e found) in
    let q =
      finish_close-IsSettled e' e (env.clock w.calls) env w1 ws
        (subst (λ x. find_event x w.store ≡ some e) (sym id) found) home in
    rw run (
      subst
        (λ x.
          ((finish_close e' (env.clock w.calls) env w1).0 ≡ ok e')
          × (find_event x (finish_close e' (env.clock w.calls) env w1).1.store ≡ some (saved e' e))
          × All (IsSettled x) (finish_close e' (env.clock w.calls) env w1).1.store.jobs)
        id q)
