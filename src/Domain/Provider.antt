-- ===== src/Domain/Provider.antt =====
-- internal/manager/domain/provider.go
use aso_bell.Common.{Bool, true, false, not, ◌||◌, if◌then◌else◌}
use aso_bell.Common.Int.{ℤ, leb_ℤ}
use aso_bell.Common.Text.{Text, text_eq}

pub data ProviderKind : Type 0 where
  slack discord unset : ProviderKind
  unknown : Text → ProviderKind

pub data ProviderStatus : Type 0 where
  online offline : ProviderStatus

-- (ProviderKind).Valid
unfoldable pub is_valid : ProviderKind → Bool
is_valid slack = true
is_valid discord = true
is_valid unset = false
is_valid (unknown t) = false

unfoldable pub kind_eq : ProviderKind → ProviderKind → Bool
kind_eq slack slack = true
kind_eq discord discord = true
kind_eq unset unset = true
kind_eq (unknown s) (unknown t) = text_eq s t
kind_eq _ _ = false

pub record Capabilities : Type 0 where
  pub forms : Bool
  pub ephemeral : Bool
  pub direct_message : Bool

pub record ProviderState : Type 0 where
  pub kind : ProviderKind
  pub address : Text
  pub capabilities : Capabilities
  pub version : Text
  pub bot_user_id : Text
  pub connected : Bool
  pub status : ProviderStatus
  pub failures : ℤ
  pub first_seen_at : ℤ
  pub last_seen_at : ℤ
  pub updated_at : ℤ

-- DecideProviderStatus
unfoldable pub decide_provider_status : Bool → ℤ → ℤ → ProviderStatus
decide_provider_status connected failures threshold =
    if not connected || leb_ℤ threshold failures then offline else online
