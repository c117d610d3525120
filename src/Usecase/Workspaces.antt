-- ===== src/Usecase/Workspaces.antt =====
-- usecase/workspace.go: the workspaces that the provider reports, and their settings.
pub mod Kept
use aso_bell.Common.{Bool, true, false, not, List, [], ◌∷◌, Option, none, some, if◌then◌else◌}
use aso_bell.Common.Int.{ℤ, pos}
use aso_bell.Common.Lists.{is_empty}
use aso_bell.Common.Text.{Text}
use aso_bell.Domain.Errors.{Error, Result, ok}
use aso_bell.Domain.Provider.{ProviderKind}
use aso_bell.Domain.Workspace.{
  Workspace, WorkspaceSettings, default_workspace_settings, normalize, validate_settings,
}
use aso_bell.Store.Events
use aso_bell.Usecase.Effects.{
  Env, World, Reply, M, ProviderWorkspace, WorkspaceRef, pure, fail_with, ◌>>=◌, ◌>>◌, lift, reads,
  updates, changes, now, call, workspace, error_result, get_info, list_connected_workspaces,
}

-- The workspace that Sync upserts.
abbrev reported_as : ProviderKind → ProviderWorkspace → Workspace
reported_as kind rep = record {
  id = [];
  provider = kind;
  external_id = rep.external_id;
  name = rep.name;
  settings = default_workspace_settings;
  created_at = pos 0;
  updated_at = pos 0;
}

-- The loop of Sync.
sync_all : ProviderKind → List ProviderWorkspace → ℤ → M (List Workspace)
sync_all kind [] at = pure []
sync_all kind (rep ∷ reps) at = do
  ws ← updates (Events.upsert_workspace (reported_as kind rep) at)
  rest ← sync_all kind reps at
  pure (ws ∷ rest)

-- Sync
unfoldable pub sync : ProviderKind → List ProviderWorkspace → M (List Workspace)
unfolding sync_all
sync kind reported = do at ← now; sync_all kind reported at

-- SyncFromProvider
unfoldable pub sync_from_provider : M (List Workspace)
unfolding sync
sync_from_provider = do
  info ← call get_info
  reported ← call list_connected_workspaces
  sync info.kind reported.workspaces

-- Get
unfoldable pub get : Text → M Workspace
get id = workspace id

-- GetByExternalID
unfoldable pub get_by_external_id : ProviderKind → Text → M Workspace
get_by_external_id kind external_id = reads (Events.get_by_external_id kind external_id)

-- `if err := settings.Validate(); err != nil`
abbrev check_settings : WorkspaceSettings → M (Unit {0})
check_settings settings env w = (error_result (validate_settings env.load_location settings), w)

-- UpdateSettings
unfoldable pub update_settings : Text → WorkspaceSettings → M Workspace
update_settings id settings = do
  check_settings (normalize settings)
  at ← now
  changes (Events.update_settings id (normalize settings) at)

-- updateRecruitChannel
unfoldable pub update_recruit_channel : Text → Text → M Workspace
unfolding update_settings
update_recruit_channel id channel_id = do
  ws ← workspace id
  update_settings id (record (ws.settings) { recruit_channel_id = channel_id })

-- SetRecruitChannel
unfoldable pub set_recruit_channel : Text → Text → M Workspace
unfolding update_recruit_channel
set_recruit_channel id channel_id = update_recruit_channel id channel_id

-- ClearRecruitChannel
unfoldable pub clear_recruit_channel : Text → M Workspace
unfolding update_recruit_channel
clear_recruit_channel id = update_recruit_channel id []

-- deps.Status.State().Kind
abbrev provider_kind : M ProviderKind
provider_kind env w = (ok env.kind, w)

-- Resolve
unfoldable pub resolve : WorkspaceRef → M Workspace
resolve ref =
    if not (is_empty ref.workspace_id)
    then workspace ref.workspace_id
    else if is_empty ref.external_id
    then fail_with Error.not_found
    else do kind ← provider_kind; reads (Events.get_by_external_id kind ref.external_id)
