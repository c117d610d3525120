-- ===== src/Usecase/Events/Archive.antt =====
-- usecase/event.go, ArchiveChannel: a job that runs again finds nothing to do.
use aso_bell.Common.{
  ◌≡◌, refl, Bool, true, false, ◌||◌, none, some, Bool-cases, Option-cases, inl, inr, subst, sym,
}
use aso_bell.Common.Lists.{find-holds, find-update_self, is_empty}
use aso_bell.Common.Text.{Text, text_eq_iff, text_eq_refl}
use aso_bell.Domain.Errors.{Error, Result, ok}
use aso_bell.Domain.Event.{Event}
use aso_bell.Domain.Workspace.{Workspace}
use aso_bell.Store.State.{Store}
use aso_bell.Store.Events.{find_event, get_workspace, has_id, set_channel}
use aso_bell.Store.Events
use aso_bell.Usecase.Effects.{
  ChannelInfo, Reply, Env, World, M, continue, call, attempt, ◌>>=◌, now, writes, workspace, event,
  workspace_ref_of, is_not_found, archive_channel,
}
use aso_bell.Usecase.Events.{archive, archive_open, archived_info, archived_ref}

-- The stored event has no channel left to archive.
abbrev IsDone : Text → Store → Type 0
IsDone id s =
    (ev : Event) × (find_event id s ≡ some ev)
    × ((is_empty ev.channel.channel_id || ev.channel.archived) ≡ true)

archive_done :
    (id : Text) (env : Env) (w : World) → IsDone id w.store → archive id env w ≡ (ok tt, w)
unfolding archive event Events.get
archive_done id env w (ev, found, done) = rw (found, done) refl

or_true : (b : Bool) → (b || true) ≡ true
or_true true = refl
or_true false = refl

abbrev record_archived : Event → ChannelInfo → M (Unit {0})
record_archived ev info = now >>= λ at. writes (Events.set_channel ev.id (archived_ref ev info) at)

record_archived-IsDone :
    (ev : Event) (info : ChannelInfo) (env : Env) (w : World)
    → find_event ev.id w.store ≡ some ev
    → IsDone ev.id (record_archived ev info env w).1.store
unfolding now set_channel
record_archived-IsDone ev info env w found =
    rw (found, Events.update_event)
      (
        record ev { channel = archived_ref ev info; updated_at = env.clock w.calls },
        find-update_self (has_id ev.id)
            (λ e. record e { channel = archived_ref ev info; updated_at = env.clock w.calls })
            w.store.events ev found (text_eq_refl ev.id),
        or_true (is_empty ev.channel.channel_id),
      )

failed_not_ok : (e : Error) (r : Result (Unit {0})) → r ≡ Result.failed e → r ≡ ok tt → ⊥
failed_not_ok e r h k = cc

answered-IsDone :
    (ev : Event) (r : Result Reply) (env : Env) (w : World)
    → find_event ev.id w.store ≡ some ev
    → ((archived_info ev r >>= record_archived ev) env w).0 ≡ ok tt
    → IsDone ev.id ((archived_info ev r >>= record_archived ev) env w).1.store
answered-IsDone ev (ok reply) env w found h = record_archived-IsDone ev reply.channel env w found
answered-IsDone ev (Result.failed e) env w found h = elim (Bool-cases (is_not_found e)) [
  | inl t ↦ rw t (
      record_archived-IsDone ev
        record {
          id = ev.channel.channel_id;
          name = ev.channel.name;
          is_private = false;
          archived = false;
        }
        env w found)
  | inr f ↦ absurd (failed_not_ok e _ refl (rw f at h))
]

abbrev archive_at : Event → Workspace → M (Unit {0})
archive_at ev ws =
    attempt (
      call (
        archive_channel (workspace_ref_of ws) ev.channel.channel_id
          ws.settings.discord.archive_category_id))
    >>= λ r. archived_info ev r >>= record_archived ev

archive_open-IsDone :
    (ev : Event) (env : Env) (w : World)
    → find_event ev.id w.store ≡ some ev
    → (archive_open ev env w).0 ≡ ok tt
    → IsDone ev.id (archive_open ev env w).1.store
unfolding archive_open workspace call
archive_open-IsDone ev env w found = at_home (get_workspace ev.workspace_id w.store)
  where
    at_home :
        (r : Result Workspace)
        → (continue (archive_at ev) env r w).0 ≡ ok tt
        → IsDone ev.id (continue (archive_at ev) env r w).1.store
    at_home (ok ws) h = answered-IsDone ev _ env _ found h
    at_home (Result.failed e) h = absurd (cc)

archive_undone :
    (ev : Event) (env : Env) (w : World)
    → find_event ev.id w.store ≡ some ev
    → (is_empty ev.channel.channel_id || ev.channel.archived) ≡ false
    → archive ev.id env w ≡ archive_open ev env w
unfolding archive event Events.get
archive_undone ev env w found f = rw (found, f) refl

archive_found-IsDone :
    (ev : Event) (env : Env) (w : World)
    → find_event ev.id w.store ≡ some ev
    → (archive ev.id env w).0 ≡ ok tt
    → IsDone ev.id (archive ev.id env w).1.store
archive_found-IsDone ev env w found h =
    elim (Bool-cases (is_empty ev.channel.channel_id || ev.channel.archived)) [
      | inl done ↦
          subst (λ r. IsDone ev.id r.1.store) (sym (archive_done ev.id env w (ev, found, done)))
            (ev, found, done)
      | inr f ↦
          subst (λ r. r.0 ≡ ok tt → IsDone ev.id r.1.store) (sym (archive_undone ev env w found f))
            (archive_open-IsDone ev env w found) h
    ]

archive_missing :
    (id : Text) (env : Env) (w : World)
    → find_event id w.store ≡ none
    → (archive id env w).0 ≡ Result.failed Error.not_found
unfolding archive event Events.get
archive_missing id env w h = rw h refl

archive-IsDone :
    (id : Text) (env : Env) (w : World)
    → (archive id env w).0 ≡ ok tt
    → IsDone id (archive id env w).1.store
archive-IsDone id env w h = elim (Option-cases (find_event id w.store)) [
  | inl none_found ↦
      absurd (failed_not_ok Error.not_found _ (archive_missing id env w none_found) h)
  | inr (ev, found) ↦
      let same = (text_eq_iff ev.id id).0 (find-holds (has_id id) w.store.events ev found) in
      let here : find_event ev.id w.store ≡ some ev =
        subst (λ i. find_event i w.store ≡ some ev) (sym same) found in
      subst (λ i. (archive i env w).0 ≡ ok tt → IsDone i (archive i env w).1.store) same
        (archive_found-IsDone ev env w here) h
]

-- When ArchiveChannel has returned without an error, each later ArchiveChannel of the event, in
-- whatever environment, while the repository is as it was left, returns without an error, asks the
-- provider nothing and changes nothing.
pub archive-once :
    (id : Text) (env later : Env) (w : World)
    → (archive id env w).0 ≡ ok tt
    → archive id later (archive id env w).1 ≡ (ok tt, (archive id env w).1)
archive-once id env later w h =
    archive_done id later (archive id env w).1 (archive-IsDone id env w h)
