-- ===== src/Usecase/Workspaces/Kept.antt =====
-- usecase/workspace.go, Sync: no workspace is lost, and none loses its settings.
use aso_bell.Common.{
  ◌≡◌, refl, Bool, List, [], ◌∷◌, ◌++◌, Option, none, some, Bool-cases, Option-cases, inl, inr,
}
use aso_bell.Common.Int.{ℤ}
use aso_bell.Common.Lists.{find, update}
use aso_bell.Common.Text.{Text, text_eq}
use aso_bell.Domain.Errors.{Result, ok}
use aso_bell.Domain.Provider.{ProviderKind}
use aso_bell.Domain.Workspace.{Workspace}
use aso_bell.Store.Events.{upsert_workspace, is_workspace}
use aso_bell.Store.State.{Store}
use aso_bell.Usecase.Effects.{Env, World, ProviderWorkspace, now, clock_now, continue, pure}
use aso_bell.Usecase.Workspaces.{sync_all, sync, reported_as}

abbrev pub has_id : Text → Workspace → Bool
has_id id w = text_eq w.id id

-- There is a workspace, with the settings and the keys of the given one.
abbrev pub Keeps : Workspace → Option Workspace → Type 0
Keeps old none = ⊥
Keeps old (some w) =
    (w.settings ≡ old.settings) × (w.provider ≡ old.provider) × (w.external_id ≡ old.external_id)

update-Keeps :
    (id : Text) (p : Workspace → Bool) (name : Text) (at : ℤ) (old : Workspace)
    (ws : List Workspace)
    → Keeps old (find (has_id id) ws)
    → Keeps old (find (has_id id) (update p (λ x. record x { name = name; updated_at = at }) ws))
update-Keeps id p name at old [] k = k
update-Keeps id p name at old (x ∷ ws) k = elim (Bool-cases (has_id id x)) [
  | inl m ↦ elim (Bool-cases (p x)) [
    | inl e ↦ rw (e, m) (rw m at k)
    | inr e ↦ rw (e, m) (rw m at k)
  ]
  | inr m ↦ elim (Bool-cases (p x)) [
    | inl e ↦ rw (e, m) (rw m at k)
    | inr e ↦ rw (e, m) (update-Keeps id p name at old ws (rw m at k))
  ]
]

append-Keeps :
    (id : Text) (old new : Workspace) (ws : List Workspace)
    → Keeps old (find (has_id id) ws)
    → Keeps old (find (has_id id) (ws ++ new ∷ []))
append-Keeps id old new [] k = absurd k
append-Keeps id old new (x ∷ ws) k = elim (Bool-cases (has_id id x)) [
  | inl m ↦ rw m (rw m at k)
  | inr m ↦ rw m (append-Keeps id old new ws (rw m at k))
]

upsert-Keeps :
    (id : Text) (old new : Workspace) (at : ℤ) (s : Store)
    → Keeps old (find (has_id id) s.workspaces)
    → Keeps old (find (has_id id) (upsert_workspace new at s).1.workspaces)
unfolding upsert_workspace
upsert-Keeps id old new at s k =
    elim (Option-cases (find (is_workspace new.provider new.external_id) s.workspaces)) [
      | inl e ↦ rw (e, upsert_workspace) (append-Keeps id old _ s.workspaces k)
      | inr (w, e) ↦
          rw (e, upsert_workspace)
            (update-Keeps id (is_workspace new.provider new.external_id) new.name at old
              s.workspaces k)
    ]

sync_all-Keeps :
    (id : Text) (old : Workspace) (kind : ProviderKind) (reps : List ProviderWorkspace) (at : ℤ)
    (env : Env) (w : World)
    → Keeps old (find (has_id id) w.store.workspaces)
    → Keeps old (find (has_id id) (sync_all kind reps at env w).1.store.workspaces)
unfolding sync_all
sync_all-Keeps id old kind [] at env w k = k
sync_all-Keeps id old kind (rep ∷ reps) at env w k =
    let w1 : World = record w { store = (upsert_workspace (reported_as kind rep) at w.store).1 } in
    after (sync_all kind reps at env w1).0 (sync_all kind reps at env w1).1 (
      sync_all-Keeps id old kind reps at env w1
        (upsert-Keeps id old (reported_as kind rep) at w.store k))
  where
    first : Workspace
    first = (upsert_workspace (reported_as kind rep) at w.store).0

    after :
        (r : Result (List Workspace)) (w2 : World)
        → Keeps old (find (has_id id) w2.store.workspaces)
        → Keeps old
            (find (has_id id) (continue (λ rest. pure (first ∷ rest)) env r w2).1.store.workspaces)
    after (ok rest) w2 h = h
    after (Result.failed e) w2 h = h

-- Whatever workspaces the provider reports, also none, a Sync leaves every stored workspace in the
-- repository under its ID, with its settings and its keys.
pub sync-Keeps :
    (id : Text) (old : Workspace) (kind : ProviderKind) (reported : List ProviderWorkspace)
    (env : Env) (w : World)
    → find (has_id id) w.store.workspaces ≡ some old
    → Keeps old (find (has_id id) (sync kind reported env w).1.store.workspaces)
unfolding sync now
sync-Keeps id old kind reported env w found =
    sync_all-Keeps id old kind reported (env.clock w.calls) env
      (record w { calls = clock_now ∷ w.calls }) (rw found (refl, refl, refl))
