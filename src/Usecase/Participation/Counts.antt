-- ===== src/Usecase/Participation/Counts.antt =====
-- usecase/participation.go, Apply: the stored count behind its Upsert.
use aso_bell.Common.{ℕ, ◌+◌, ◌≡◌, refl, true, some, arith, Bool-cases, List, inl, inr, ◌∙◌, ap, ◌⊎◌}
use aso_bell.Common.Int.{pos, ◌+ℤ◌}
use aso_bell.Common.Lists.{find-holds, find-update_self, is_empty, one_if}
use aso_bell.Common.Text.{Text}
use aso_bell.Domain.Errors.{Error, Result, ok}
use aso_bell.Domain.Event.{Event}
use aso_bell.Domain.Participation.{
  Participation, Role, Transition, same_kind, is_participant, decide_transition,
}
use aso_bell.Domain.Workspace.{Workspace}
use aso_bell.Store.Events
use aso_bell.Store.Events.{find_event, get_workspace, has_id, counted_up}
use aso_bell.Store.Participations.{ParticipationChange, count_active}
use aso_bell.Usecase.Effects.{Reply, is_not_found, M, Env, World, now, call, when}
use aso_bell.Usecase.Participation.{
  or_channel_error, ParticipationInput, count_joined, add_count, after_transition, join_channel,
  handle_channel_error, settle,
}
use aso_bell.Usecase.Participation.Aside.{notify-IsAside}
use aso_bell.Usecase.Participation.Records.{}

-- A world whose event has counted `n` participants, and whose records are `ps`.
abbrev HasCount : Text → ℕ → List Participation → World → Type 0
HasCount id n ps w =
    (e : Event) × (find_event id w.store ≡ some e)
    × (e.participant_count ≡ pos n)
    × (w.store.participations ≡ ps)

add_one : (n : ℕ) → pos n +ℤ pos 1 ≡ pos (n + 1)
unfolding ◌+ℤ◌
add_one n = ground arith

-- The count of a joined participant is raised by one, in the store and in the event at hand.
count_joined-HasCount :
    (ev e : Event) (t : Transition) (env : Env) (w : World) (n : ℕ)
    → find_event ev.id w.store ≡ some e
    → e.participant_count ≡ pos n
    → (ev' : Event) × ((count_joined ev t env w).0 ≡ ok ev')
      × HasCount ev.id
          (n + one_if (is_participant t.role))
          w.store.participations
          (count_joined ev t env w).1
unfolding count_joined add_count now Events.add_participant_count
count_joined-HasCount ev e t env w n found h = elim (Bool-cases (is_participant t.role)) [
  | inr p ↦ rw p (ev, refl, (e, found, h ∙ ap pos (omega arith), refl))
  | inl p ↦
      let at = env.clock w.calls in
      rw (p, found, Events.update_event)
        (
          _,
          refl,
          (
            counted_up (pos 1) at e,
            find-update_self (has_id ev.id) (counted_up (pos 1) at) w.store.events e found
                (find-holds (has_id ev.id) w.store.events e found),
            rw h (add_one n),
            refl,
          ),
        )
]

after_transition-HasCount :
    (ws : Workspace) (ev e : Event) (part : Participation) (t : Transition) (env : Env) (w : World)
    (n : ℕ)
    → find_event ev.id w.store ≡ some e
    → e.participant_count ≡ pos n
    → (ev' : Event) × ((after_transition ws ev part t env w).0 ≡ ok ev')
      × HasCount ev.id
          (n + one_if (is_participant t.role))
          w.store.participations
          (after_transition ws ev part t env w).1
unfolding after_transition
after_transition-HasCount ws ev e part t env w n found h =
    let (ev', done, (e', found', h', ps)) = count_joined-HasCount ev e t env w n found h in
    let w1 = (count_joined ev t env w).1 in
    let q = notify-IsAside ws ev' part t env w1 in
    rw (done) (ev', q.0, (e', rw (q.1) found', h', q.2 ∙ ps))

-- A call that succeeds and keeps the store, or is an error.
abbrev KeepsOrFails : M (Unit {0}) → Env → World → Type 0
KeepsOrFails m env w =
    (((m env w).0 ≡ ok tt) × ((m env w).1.store ≡ w.store))
    ⊎ ((x : Error) × ((m env w).0 ≡ Result.failed x))

or_channel_error_lem :
    (ev : Event) (r : Result Reply) (env : Env) (w : World)
    → KeepsOrFails (or_channel_error ev r) env w
unfolding handle_channel_error
or_channel_error_lem ev (ok r) env w = inl (refl, refl)
or_channel_error_lem ev (Result.failed x) env w = elim (Bool-cases (is_not_found x)) [
  | inl e ↦ inr (x, rw (e, handle_channel_error) refl)
  | inr e ↦ inr (x, rw (e, handle_channel_error) refl)
]

join_channel_lem :
    (ws : Workspace) (ev : Event) (user : Text) (env : Env) (w : World)
    → KeepsOrFails (join_channel ws ev user) env w
unfolding join_channel call
join_channel_lem ws ev user env w = elim (Bool-cases (is_empty ev.channel.channel_id)) [
  | inl e ↦ rw e (inl (refl, refl))
  | inr e ↦ rw e (or_channel_error_lem ev _ env _)
]

adding_lem :
    (t : Transition) (ws : Workspace) (ev : Event) (user : Text) (env : Env) (w : World)
    → KeepsOrFails (when t.add_to_channel (join_channel ws ev user)) env w
adding_lem t ws ev user env w = elim (Bool-cases t.add_to_channel) [
  | inl e ↦ rw e (join_channel_lem ws ev user env w)
  | inr e ↦ rw e (inl (refl, refl))
]

-- Either the world has the count and the records, or the call is an error.
abbrev CountsOrFails {ℓ} : {B : Type ℓ} → M B → Text → ℕ → List Participation → Env → World → Type ℓ
CountsOrFails m id n ps env w =
    HasCount id n ps (m env w).1 ⊎ ((x : Error) × ((m env w).0 ≡ Result.failed x))

pub settle_lem :
    (i : ParticipationInput) (ev e : Event) (ws : Workspace) (t : Transition)
    (c : ParticipationChange) (env : Env) (w : World) (n : ℕ)
    → same_kind (decide_transition c.before i.action).kind t.kind ≡ true
    → find_event ev.id w.store ≡ some e
    → e.participant_count ≡ pos n
    → CountsOrFails
        (settle i ev ws t c)
        ev.id
        (n + one_if (is_participant t.role))
        w.store.participations
        env
        w
unfolding settle
settle_lem i ev e ws t c env w n same found h =
    let join = when t.add_to_channel (join_channel ws ev i.chat_user_id) in
    elim (adding_lem t ws ev i.chat_user_id env w) [
      | inr (x, failed) ↦ rw (same, failed) (inr (x, refl))
      | inl (done, kept) ↦
          let w1 : World = (join env w).1 in
          let q = after_transition-HasCount ws ev e c.after t env w1 n (rw kept found) h in
          rw (same, done, q.1) (inl (q.2.0, q.2.1, q.2.2, q.2.3 ∙ ap (λ s. s.participations) kept))
    ]

-- The event is stored with the number of its active participants.
abbrev pub IsCounted : Text → World → Type 0
IsCounted id w =
    (e : Event) × (find_event id w.store ≡ some e)
    × (e.participant_count ≡ pos (count_active id Role.participant w.store))
