-- ===== src/Usecase/Quiet.antt =====
-- usecase/deps.go and event.go: the calls whose failures are only logged.
use aso_bell.Common.{[], ◌∷◌, ◌≡◌, refl, ◌∙◌, none, some, Option}
use aso_bell.Common.Text.{Text}
use aso_bell.Domain.Errors.{ok}
use aso_bell.Domain.Event.{Event, MessageRef}
use aso_bell.Domain.Workspace.{Workspace}
use aso_bell.Usecase.Effects.{M, Env, World, Message, ◌>>◌, post, update_posted, unpin}
use aso_bell.Usecase.Events.{refresh_messages, close_messages}

-- The call returns without an error, and the store stays as it was.
abbrev pub IsQuiet : M (Unit {0}) → Type 0
IsQuiet m = (env : Env) (w : World) → ((m env w).0 ≡ ok tt) × ((m env w).1.store ≡ w.store)

-- What follows a quiet call runs, in a world with the same store.
pub after_quiet {ℓ} :
    {B : Type ℓ} (m : M (Unit {0})) (k : M B) (env : Env) (w : World)
    → IsQuiet m
    → (m >> k) env w ≡ k env (m env w).1
after_quiet m k env w q = rw ((q env w).0) refl

IsQuiet-then : (m k : M (Unit {0})) → IsQuiet m → IsQuiet k → IsQuiet (m >> k)
IsQuiet-then m k qm qk env w =
    rw (after_quiet m k env w qm) ((qk env (m env w).1).0, (qk env (m env w).1).1 ∙ (qm env w).1)

update_posted-IsQuiet :
    (ws : Workspace) (ref : Option MessageRef) (msg : Message) → IsQuiet (update_posted ws ref msg)
unfolding update_posted
update_posted-IsQuiet ws none msg env w = (refl, refl)
update_posted-IsQuiet ws (some ref) msg env w = (refl, refl)

unpin-IsQuiet : (ws : Workspace) (ref : Option MessageRef) → IsQuiet (unpin ws ref)
unfolding unpin
unpin-IsQuiet ws none env w = (refl, refl)
unpin-IsQuiet ws (some ref) env w = (refl, refl)

pub post-IsQuiet :
    (ws : Workspace) (channel_id : Text) (msg : Message) → IsQuiet (post ws channel_id msg)
unfolding post
post-IsQuiet ws [] msg env w = (refl, refl)
post-IsQuiet ws (c ∷ channel_id) msg env w = (refl, refl)

pub refresh_messages-IsQuiet : (ws : Workspace) (ev : Event) → IsQuiet (refresh_messages ws ev)
unfolding refresh_messages
refresh_messages-IsQuiet ws ev =
    IsQuiet-then _ _ (update_posted-IsQuiet ws ev.messages.announcement _) (
      IsQuiet-then _ _ (update_posted-IsQuiet ws ev.messages.recruit_announcement _)
        (update_posted-IsQuiet ws ev.messages.summary _))

pub close_messages-IsQuiet : (ws : Workspace) (ev : Event) → IsQuiet (close_messages ws ev)
unfolding close_messages
close_messages-IsQuiet ws ev = IsQuiet-then _ _ (refresh_messages-IsQuiet ws ev) (
    IsQuiet-then _ _ (unpin-IsQuiet ws ev.messages.announcement) (
      IsQuiet-then _ _ (unpin-IsQuiet ws ev.messages.summary)
        (post-IsQuiet ws ev.channel.channel_id _)))
