-- ===== src/Usecase/Effects.antt =====
-- usecase/ports.go and deps.go: what a service call may do. The provider, the clock and the tables
-- of locations are outside the repository: an environment answers each call, and may let its answer
-- depend on every call made before, so that a proof for all environments covers every behaviour.
use aso_bell.Common.{Bool, true, false, List, ◌∷◌, Option, none, some, if◌then◌else◌}
use aso_bell.Common.Int.{ℤ}
use aso_bell.Common.Lists.{is_empty}
use aso_bell.Common.Text.{Text}
use aso_bell.Domain.Errors.{Error, Result, ok}
use aso_bell.Domain.TimeOfDay.{Zone}
use aso_bell.Domain.Event.{Event, MessageRef}
use aso_bell.Domain.Participation.{TransitionKind}
use aso_bell.Domain.Job.{Job}
use aso_bell.Domain.Provider.{ProviderKind, ProviderStatus}
use aso_bell.Shared.ChannelName.{Unicode}
use aso_bell.Domain.Workspace.{Workspace}
use aso_bell.Store.State.{Store}
use aso_bell.Store.Jobs
use aso_bell.Store.Events

-- WorkspaceRef
pub record WorkspaceRef : Type 0 where
  pub workspace_id : Text
  pub external_id : Text

-- workspaceRefOf
abbrev pub workspace_ref_of : Workspace → WorkspaceRef
workspace_ref_of w = record { workspace_id = w.id; external_id = w.external_id }

-- ChannelInfo
pub record ChannelInfo : Type 0 where
  pub id : Text
  pub name : Text
  pub is_private : Bool
  pub archived : Bool

-- CreateChannelInput
pub record CreateChannelInput : Type 0 where
  pub name : Text
  pub topic : Text
  pub member_ids : List Text
  pub category_id : Text

-- ProviderWorkspace
pub record ProviderWorkspace : Type 0 where
  pub external_id : Text
  pub name : Text

-- The messages of MessageRenderer, and of bot/messages.go behind them, by the function that renders
-- them and its arguments; `notice` is Error.
pub data Message : Type 0 where
  announcement : Event → ℤ → Message
  summary : Event → Message
  reminder : Event → ℤ → List Text → Message
  recruit_reminder : Event → ℤ → ℤ → Message
  closing : Event → Message
  transition : TransitionKind → Text → ℤ → ℤ → Message
  left_message : Text → ℤ → Message
  removed_by_organizer : Text → Message
  notice : Text → Message
  help : Message
  created_message : Event → Message
  event_info : Event → List Text → List Text → Message
  event_list : List Event → ℤ → Message
  action_reply : TransitionKind → Text → ℤ → ℤ → Message
  link_invitation : Text → Message
  already_linked : Text → Text → Message

-- The calls that leave the program.
pub data Call : Type 0 where
  clock_now : Call
  provider_state : Call
  post_message : WorkspaceRef → Text → Message → Call
  post_ephemeral : WorkspaceRef → Text → Text → Message → Call
  update_message : WorkspaceRef → MessageRef → Message → Call
  pin_message unpin_message : WorkspaceRef → MessageRef → Call
  add_member remove_member : WorkspaceRef → Text → Text → Call
  archive_channel : WorkspaceRef → Text → Text → Call
  create_private_channel : WorkspaceRef → CreateChannelInput → Call
  get_info list_connected_workspaces : Call

-- What a call that succeeds returns; a method reads the part that its call has.
pub record Reply : Type 0 where
  pub message : MessageRef
  pub channel : ChannelInfo
  pub kind : ProviderKind
  pub workspaces : List ProviderWorkspace

-- The calls made so far come newest first.
pub record Env : Type 0 where
  pub clock : List Call → ℤ
  pub status : List Call → ProviderStatus
  -- The kind in Deps.Status.State()
  pub kind : ProviderKind
  pub answer : List Call → Call → Result Reply
  pub load_location : Text → Option Zone
  -- err.Error()
  pub describe : Error → Text
  pub unicode : Unicode
  -- The month and the day of an instant at a location, as 0102.
  pub month_day : Zone → ℤ → Text
  -- domain.HashToken, and the text that GenerateToken returns.
  pub hash_token : Text → Text
  pub generate_token : List Call → Result Text

pub record World : Type 0 where
  pub store : Store
  pub calls : List Call

-- A service call: it reads the environment, and its changes stay when it fails.
abbrev pub M {ℓ} : Type ℓ → Type ℓ
M A = Env → World → Result A × World

abbrev pub pure {ℓ} : {A : Type ℓ} → A → M A
pure a env w = (ok a, w)

abbrev pub fail_with {ℓ} : {A : Type ℓ} → Error → M A
fail_with e env w = (Result.failed e, w)

abbrev pub continue {ℓ κ} :
    {A : Type ℓ} {B : Type κ} → (A → M B) → Env → Result A → World → Result B × World
continue f env (ok a) w = f a env w
continue f env (Result.failed e) w = (Result.failed e, w)

infixl 5 ◌>>=◌ ◌>>◌
abbrev pub ◌>>=◌ {ℓ κ} : {A : Type ℓ} {B : Type κ} → M A → (A → M B) → M B
◌>>=◌ m f env w = let (r, w') = m env w in continue f env r w'

abbrev pub ◌>>◌ {ℓ} : {B : Type ℓ} → M (Unit {0}) → M B → M B
m >> k = m >>= λ _. k

-- `if err := m; err != nil { log }`: the failure is dropped and its changes stay.
abbrev pub ignore {ℓ} : {A : Type ℓ} → M A → M (Unit {0})
ignore m env w = let (r, w') = m env w in (ok tt, w')

-- The error as a value, for a caller that looks at it.
abbrev pub attempt {ℓ} : {A : Type ℓ} → M A → M (Result A)
attempt m env w = let (r, w') = m env w in (ok r, w')

-- if bad { return err }
abbrev pub guard : Bool → Error → M (Unit {0})
guard true e = pure tt
guard false e = fail_with e

abbrev pub when : Bool → M (Unit {0}) → M (Unit {0})
when true m = m
when false m = pure tt

abbrev pub lift {ℓ} : {A : Type ℓ} → Result A → M A
lift r env w = (r, w)

-- The repository's methods: a read, a write that may fail, and one that returns a value.
abbrev pub reads {ℓ} : {A : Type ℓ} → (Store → Result A) → M A
reads f env w = (f w.store, w)

abbrev pub error_result : Option Error → Result (Unit {0})
error_result none = ok tt
error_result (some e) = Result.failed e

abbrev pub writes : (Store → Option Error × Store) → M (Unit {0})
writes f env w = let (e, s) = f w.store in (error_result e, record w { store = s })

abbrev pub updates {ℓ} : {A : Type ℓ} → (Store → A × Store) → M A
updates f env w = let (a, s) = f w.store in (ok a, record w { store = s })

-- A repository method that returns a value or fails.
abbrev pub changes {ℓ} : {A : Type ℓ} → (Store → Result A × Store) → M A
changes f env w = let (r, s) = f w.store in (r, record w { store = s })

-- err.Error()
abbrev pub describe : Error → M Text
describe e env w = (ok (env.describe e), w)

-- time.LoadLocation, which fails on a name without a table.
abbrev pub load_location : Text → M Zone
load_location name env w = elim (env.load_location name) [
  | none ↦ (Result.failed (Error.other name), w)
  | some loc ↦ (ok loc, w)
]

-- Deps.now
unfoldable pub now : M ℤ
now env w = (ok (env.clock w.calls), record w { calls = clock_now ∷ w.calls })

-- One call of the provider.
unfoldable pub call : Call → M Reply
call c env w = (env.answer w.calls c, record w { calls = c ∷ w.calls })

abbrev is_online : ProviderStatus → Bool
is_online ProviderStatus.online = true
is_online ProviderStatus.offline = false

-- Deps.requireProviderOnline
unfoldable pub require_provider_online : M (Unit {0})
require_provider_online env w = (
  if is_online (env.status w.calls) then ok tt else Result.failed Error.provider_unavailable,
  record w { calls = provider_state ∷ w.calls },
)

-- Deps.workspace
unfoldable pub workspace : Text → M Workspace
workspace id = reads (Events.get_workspace id)

-- Deps.event
unfoldable pub event : Text → M Event
event id = reads (Events.get id)

-- Deps.post: the renderer never returns nil.
unfoldable pub post : Workspace → Text → Message → M (Unit {0})
unfolding call
post ws channel_id msg =
    if is_empty channel_id
    then pure tt
    else ignore (call (post_message (workspace_ref_of ws) channel_id msg))

-- Deps.updateMessage
unfoldable pub update_posted : Workspace → Option MessageRef → Message → M (Unit {0})
unfolding call
update_posted ws none msg = pure tt
update_posted ws (some ref) msg = ignore (call (update_message (workspace_ref_of ws) ref msg))

-- Deps.pin
unfoldable pub pin : Workspace → MessageRef → M (Unit {0})
unfolding call
pin ws ref = ignore (call (pin_message (workspace_ref_of ws) ref))

-- Deps.unpin
unfoldable pub unpin : Workspace → Option MessageRef → M (Unit {0})
unfolding call
unpin ws none = pure tt
unpin ws (some ref) = ignore (call (unpin_message (workspace_ref_of ws) ref))

abbrev pub is_already_exists : Error → Bool
is_already_exists Error.already_exists = true
is_already_exists _ = false

abbrev pub is_not_found : Error → Bool
is_not_found Error.not_found = true
is_not_found _ = false

-- The test behind Enqueue: a duplicate counts as a success.
abbrev settle_enqueue : Result Job → Result (Unit {0})
settle_enqueue (ok job) = ok tt
settle_enqueue (Result.failed e) = if is_already_exists e then ok tt else Result.failed e

-- The argument of Enqueue that Deps.enqueue reads from the clock.
abbrev enqueue_at : Job → ℤ → M (Unit {0})
enqueue_at job at env w =
    let (r, s) = Jobs.enqueue job at w.store in (settle_enqueue r, record w { store = s })

-- Deps.enqueue
unfoldable pub enqueue : Job → M (Unit {0})
unfolding now
enqueue job = do at ← now; enqueue_at job at
