-- ===== src/Usecase/Identity.antt =====
-- usecase/identity.go and providerstatus.go: linking a chat account with a user of the console.
pub mod Resolved
use aso_bell.Common.{Bool, true, false, List, [], ◌∷◌, Option, none, some, if◌then◌else◌}
use aso_bell.Common.Int.{ℤ}
use aso_bell.Common.Lists.{any}
use aso_bell.Common.Text.{Text}
use aso_bell.Domain.Account.{
  LinkToken, ChatIdentity, ConsoleUser, new_link_token, default_link_token_ttl, usable,
}
use aso_bell.Domain.Errors.{Error, Result, ok}
use aso_bell.Domain.Provider.{ProviderState}
use aso_bell.Domain.Workspace.{Workspace}
use aso_bell.Store.Accounts
use aso_bell.Store.Logs
use aso_bell.Store.Tokens
use aso_bell.Usecase.Effects.{
  Env, World, M, pure, fail_with, ◌>>=◌, ◌>>◌, reads, writes, changes, now, workspace, error_result,
  lift,
}

-- LinkTokenView
pub record LinkTokenView : Type 0 where
  pub workspace_name : Text
  pub display_name : Text
  pub chat_user_id : Text

-- GenerateToken and HashToken, which are outside.
abbrev generate_token : M Text
generate_token env w = (env.generate_token w.calls, w)

abbrev hash_token : Text → M Text
hash_token token env w = (ok (env.hash_token token), w)

-- NewLinkToken behind GenerateToken.
abbrev token_of : Text → Text → Text → Text → ℤ → M (Text × LinkToken)
token_of plain workspace_id chat_user_id display_name at env w = (
  ok (
      new_link_token env.hash_token plain workspace_id chat_user_id display_name at
        default_link_token_ttl),
  w,
)

-- IssueLinkToken
unfoldable pub issue_link_token : Text → Text → Text → M Text
issue_link_token workspace_id chat_user_id display_name = do
  ws ← workspace workspace_id
  at ← now
  plain ← generate_token
  token ← token_of plain ws.id chat_user_id display_name at
  writes (Tokens.create_token token.1)
  pure token.0

-- `if err = token.Usable(…); err != nil`
abbrev check_usable : LinkToken → ℤ → M (Unit {0})
check_usable token at = lift (error_result (usable token at))

-- GetLinkToken
unfoldable pub get_link_token : Text → M LinkTokenView
get_link_token plain = do
  id ← hash_token plain
  token ← reads (Tokens.get_token id)
  at ← now
  check_usable token at
  ws ← workspace token.workspace_id
  pure record {
    workspace_name = ws.name;
    display_name = token.display_name;
    chat_user_id = token.chat_user_id;
  }

-- The record that Link stores.
abbrev pub identity_of : Text → Workspace → LinkToken → ℤ → ChatIdentity
identity_of console_user_id ws token at = record {
  id = [];
  console_user_id = console_user_id;
  workspace_id = ws.id;
  provider = ws.provider;
  workspace_external_id = ws.external_id;
  chat_user_id = token.chat_user_id;
  display_name = token.display_name;
  linked_at = at;
}

-- Link behind the token.
link_token : Text → ℤ → LinkToken → M ChatIdentity
link_token console_user_id at token = do
  ws ← workspace token.workspace_id
  changes (Accounts.link (identity_of console_user_id ws token at))

-- Link
unfoldable pub link : Text → Text → M ChatIdentity
unfolding link_token
link console_user_id plain = do
  at ← now
  id ← hash_token plain
  token ← changes (Tokens.consume id at)
  link_token console_user_id at token

-- List
unfoldable pub list : Text → M (List ChatIdentity)
list console_user_id = reads (λ s. ok (Accounts.list_by_user console_user_id s))

-- Unlink
unfoldable pub unlink : Text → Text → M (Unit {0})
unlink console_user_id identity_id = do
  identities ← reads (λ s. ok (Accounts.list_by_user console_user_id s))
  if any (Accounts.is_identity identity_id) identities
      then writes (Accounts.unlink identity_id)
      else fail_with Error.not_found

-- UnlinkChatUser
unfoldable pub unlink_chat_user : Text → Text → M (Unit {0})
unlink_chat_user workspace_id chat_user_id = do
  identity ← reads (Accounts.get_identity workspace_id chat_user_id)
  writes (Accounts.unlink identity.id)

-- ResolveConsoleUser
unfoldable pub resolve_console_user : Text → Text → M ConsoleUser
resolve_console_user workspace_id chat_user_id = do
  identity ← reads (Accounts.get_identity workspace_id chat_user_id)
  reads (Accounts.get_user identity.console_user_id)

-- providerstatus.go, Stored
unfoldable pub stored_provider : M ProviderState
stored_provider = reads Logs.get_provider
