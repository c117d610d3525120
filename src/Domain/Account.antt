-- ===== src/Domain/Account.antt =====
-- internal/manager/domain/account.go: the one-time link tokens and the sessions. The random text
-- and the hash of NewLinkToken are arguments: crypto/rand and crypto/sha256 are not modelled.
use aso_bell.Common.{◌*◌, Bool, not, Option, none, some, if◌then◌else◌}
use aso_bell.Common.Int.{ℤ, pos, ◌+ℤ◌, ltb_ℤ}
use aso_bell.Common.Text.{Text}
use aso_bell.Domain.Errors.{Error}
use aso_bell.Domain.Job.{minute}
use aso_bell.Domain.Provider.{ProviderKind}

-- AccountOrigin
pub data AccountOrigin : Type 0 where
  link allowlist : AccountOrigin

pub record ConsoleUser : Type 0 where
  pub id : Text
  pub google_sub : Text
  pub email : Text
  pub name : Text
  pub picture : Text
  pub created_via : AccountOrigin
  pub created_at : ℤ
  pub last_login_at : ℤ

pub record ChatIdentity : Type 0 where
  pub id : Text
  pub console_user_id : Text
  pub workspace_id : Text
  pub provider : ProviderKind
  pub workspace_external_id : Text
  pub chat_user_id : Text
  pub display_name : Text
  pub linked_at : ℤ

pub record OauthState : Type 0 where
  pub state : Text
  pub code_verifier : Text
  pub redirect_to : Text
  pub expires_at : ℤ

pub record LinkToken : Type 0 where
  pub id : Text
  pub workspace_id : Text
  pub chat_user_id : Text
  pub display_name : Text
  pub expires_at : ℤ
  pub consumed_at : Option ℤ

pub record Session : Type 0 where
  pub id : Text
  pub user_id : Text
  pub csrf_token : Text
  pub created_at : ℤ
  pub expires_at : ℤ
  pub last_seen_at : ℤ

-- NewLinkToken, after GenerateToken has returned `token`.
unfoldable pub new_link_token : (Text → Text) → Text → Text → Text → Text → ℤ → ℤ → Text × LinkToken
new_link_token hash_token token workspace_id chat_user_id display_name now ttl = (
  token,
  record {
    id = hash_token token;
    workspace_id = workspace_id;
    chat_user_id = chat_user_id;
    display_name = display_name;
    expires_at = now +ℤ ttl;
    consumed_at = none;
  },
)

-- (*LinkToken).Usable: `none` is a nil error.
unfoldable pub usable : LinkToken → ℤ → Option Error
usable t now = elim t.consumed_at [
  | some at ↦ some Error.link_token_consumed
  | none ↦ if not (ltb_ℤ now t.expires_at) then some Error.link_token_expired else none
]

-- (*Session).Expired
unfoldable pub expired : Session → ℤ → Bool
expired s now = not (ltb_ℤ now s.expires_at)

-- DefaultLinkTokenTTL
abbrev pub default_link_token_ttl : ℤ
default_link_token_ttl = pos (10 * minute)
