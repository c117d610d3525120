-- ===== src/Usecase/Identity/Resolved.antt =====
-- usecase/identity.go, Link: what the chat account is afterwards.
use aso_bell.Common.{◌∷◌, ◌≡◌, refl, sym, subst}
use aso_bell.Common.Int.{ℤ}
use aso_bell.Common.Text.{Text}
use aso_bell.Domain.Account.{LinkToken, ChatIdentity, ConsoleUser}
use aso_bell.Domain.Errors.{Result, ok}
use aso_bell.Domain.Workspace.{Workspace}
use aso_bell.Store.Accounts
use aso_bell.Store.Accounts.Linked.{IsCopy, link-IsCopy, link-get_identity}
use aso_bell.Store.Events.{get_workspace}
use aso_bell.Store.Tokens
use aso_bell.Store.State.{Store}
use aso_bell.Usecase.Effects.{Env, World, clock_now, continue, now, workspace, M, changes}
use aso_bell.Usecase.Identity.{identity_of, link_token, link, resolve_console_user}

-- The identity belongs to the console user, and is found under its own workspace and chat user.
abbrev IsLinked : Text → Result ChatIdentity → World → Type 0
IsLinked user (Result.failed e) w = Unit
IsLinked user (ok j) w =
    (j.console_user_id ≡ user)
    × (Accounts.get_identity j.workspace_id j.chat_user_id w.store ≡ ok j)

stored-IsLinked :
    (i : ChatIdentity) (w : World) (r : Result ChatIdentity)
    → (Accounts.link i w.store).0 ≡ r
    → IsCopy i r
    → IsLinked i.console_user_id r (record w { store = (Accounts.link i w.store).1 })
stored-IsLinked i w (Result.failed e) h c = tt
stored-IsLinked i w (ok j) h (workspace_id, chat_user_id, user) = (
  sym user,
  subst (λ a. Accounts.get_identity a j.chat_user_id (Accounts.link i w.store).1 ≡ ok j)
      workspace_id
      (subst (λ b. Accounts.get_identity i.workspace_id b (Accounts.link i w.store).1 ≡ ok j)
        chat_user_id (link-get_identity i j w.store h)),
)

link_token-IsLinked :
    (user : Text) (at : ℤ) (token : LinkToken) (env : Env) (w : World)
    → IsLinked user (link_token user at token env w).0 (link_token user at token env w).1
unfolding link_token workspace
link_token-IsLinked user at token env w = found (get_workspace token.workspace_id w.store)
  where
    after : Workspace → M ChatIdentity
    after ws = changes (Accounts.link (identity_of user ws token at))

    found :
        (r : Result Workspace) → IsLinked user (continue after env r w).0 (continue after env r w).1
    found (Result.failed e) = tt
    found (ok ws) =
        let i = identity_of user ws token at in
        stored-IsLinked i w (Accounts.link i w.store).0 refl (link-IsCopy i w.store)

link-IsLinked :
    (user plain : Text) (env : Env) (w : World)
    → IsLinked user (link user plain env w).0 (link user plain env w).1
unfolding link now
link-IsLinked user plain env w =
    let at = env.clock w.calls in found at (Tokens.consume (env.hash_token plain) at w.store)
  where
    found :
        (at : ℤ) (r : Result LinkToken × Store)
        → let w1 : World = record { store = r.1; calls = clock_now ∷ w.calls } in
          IsLinked user
            (continue (link_token user at) env r.0 w1).0
            (continue (link_token user at) env r.0 w1).1
    found at (Result.failed e, s) = tt
    found at (ok token, s) =
        link_token-IsLinked user at token env (record { store = s; calls = clock_now ∷ w.calls })

-- When Link has returned an identity to a console user who exists, ResolveConsoleUser of that
-- identity's workspace and chat user gives that console user, in any environment.
pub link-resolves :
    (user plain : Text) (env env' : Env) (w : World) (j : ChatIdentity) (u : ConsoleUser)
    → (link user plain env w).0 ≡ ok j
    → Accounts.get_user user (link user plain env w).1.store ≡ ok u
    → resolve_console_user j.workspace_id j.chat_user_id env' (link user plain env w).1
      ≡ (ok u, (link user plain env w).1)
unfolding resolve_console_user
link-resolves user plain env env' w j u linked known =
    let w1 = (link user plain env w).1 in
    let (own, found) : IsLinked user (ok j) w1 =
      subst (λ r. IsLinked user r w1) linked (link-IsLinked user plain env w) in
    rw (found, own, known) refl
