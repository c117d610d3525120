-- ===== src/Usecase/Participation/Aside.antt =====
-- usecase/participation.go, afterTransition: what leaves the events and the records alone.
use aso_bell.Common.{◌≡◌, refl, some, Bool-cases, Option-cases, inl, inr, ◌∙◌, ap}
use aso_bell.Common.Lists.{any}
use aso_bell.Domain.Errors.{ok}
use aso_bell.Domain.Event.{Event}
use aso_bell.Domain.Job.{Job}
use aso_bell.Domain.Participation.{Participation, Transition, is_peeker}
use aso_bell.Domain.Workspace.{Workspace}
use aso_bell.Store.Jobs
use aso_bell.Store.Participations.{}
use aso_bell.Usecase.Effects.{transition, M, Env, World, ◌>>◌, enqueue, now, post}
use aso_bell.Usecase.Events.{refresh_messages}
use aso_bell.Usecase.Quiet.{IsQuiet, post-IsQuiet, refresh_messages-IsQuiet}
use aso_bell.Usecase.Participation.{expires_at_of, cancel_peeks, enqueue_expiry, notify}

-- The call returns `b`, and leaves the events and the participations as they were.
abbrev pub IsAside {ℓ} : {B : Type ℓ} → M B → B → Type ℓ
IsAside m b =
    (env : Env) (w : World)
    → ((m env w).0 ≡ ok b)
      × ((m env w).1.store.events ≡ w.store.events)
      × ((m env w).1.store.participations ≡ w.store.participations)

quiet-IsAside : (m : M (Unit {0})) → IsQuiet m → IsAside m tt
quiet-IsAside m q env w =
    ((q env w).0, ap (λ s. s.events) (q env w).1, ap (λ s. s.participations) (q env w).1)

cancel_peeks-IsAside : (ev : Event) (t : Transition) → IsAside (cancel_peeks ev t) tt
unfolding cancel_peeks now Jobs.cancel_by_event
cancel_peeks-IsAside ev t env w = elim (Bool-cases t.cancel_peek_job) [
  | inl e ↦ rw e (refl, refl, refl)
  | inr e ↦ rw e (refl, refl, refl)
]

enqueue-IsAside : (job : Job) → IsAside (enqueue job) tt
unfolding enqueue now Jobs.enqueue
enqueue-IsAside job env w = elim (Bool-cases (any (Jobs.clashes job) w.store.jobs)) [
  | inl e ↦ rw (e, enqueue) (refl, refl, refl)
  | inr e ↦ rw (e, enqueue) (refl, refl, refl)
]

enqueue_expiry-IsAside :
    (ev : Event) (part : Participation) (t : Transition) → IsAside (enqueue_expiry ev part t) tt
unfolding enqueue_expiry
enqueue_expiry-IsAside ev part t env w = elim (Option-cases part.expires_at) [
  | inl e ↦ rw (e, enqueue_expiry) (refl, refl, refl)
  | inr (at, e) ↦ elim (Bool-cases (is_peeker t.role)) [
    | inl p ↦ rw (e, p, enqueue_expiry) (enqueue-IsAside _ env w)
    | inr p ↦ rw (e, p, enqueue_expiry) (refl, refl, refl)
  ]
]

IsAside-then {ℓ} :
    {B : Type ℓ} (m : M (Unit {0})) (k : M B) (b : B)
    → IsAside m tt
    → IsAside k b
    → IsAside (m >> k) b
IsAside-then m k b qm qk env w =
    let r = qm env w in let q = qk env (m env w).1 in rw (r.0) (q.0, q.1 ∙ r.1, q.2 ∙ r.2)

pub notify-IsAside :
    (ws : Workspace) (ev : Event) (part : Participation) (t : Transition)
    → IsAside (notify ws ev part t) ev
unfolding notify
notify-IsAside ws ev part t =
    let msg =
      transition t.kind part.chat_user_id ev.participant_count (expires_at_of (some part)) in
    IsAside-then _ _ ev (cancel_peeks-IsAside ev t) (
      IsAside-then _ _ ev (enqueue_expiry-IsAside ev part t) (
        IsAside-then _ _ ev
          (quiet-IsAside (post ws ev.channel.channel_id msg)
            (post-IsQuiet ws ev.channel.channel_id msg))
          (IsAside-then _ _ ev
            (quiet-IsAside (refresh_messages ws ev) (refresh_messages-IsQuiet ws ev))
            (λ env w. (refl, refl, refl)))))
