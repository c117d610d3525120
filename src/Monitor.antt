-- ===== src/Monitor.antt =====
-- internal/manager/providerclient/monitor.go: the observed state of the paired provider. The
-- repository is that of memstore.go, whose SaveProvider does not fail; the answers of GetInfo and
-- the clock's readings are arguments, and a list of answers that ends stands for a canceled context.
mod Status
mod Kind
mod Waits
mod Tests
use aso_bell.Common.{
  ◌*◌, Bool, true, false, not, ◌&&◌, ◌||◌, List, [], ◌∷◌, Option, none, some, if◌then◌else◌,
}
use aso_bell.Common.Int.{ℤ, pos, ◌+ℤ◌, ◌*ℤ◌, leb_ℤ, ltb_ℤ, eq_ℤ, min_ℤ, max_ℤ}
use aso_bell.Common.Text.{Text}
use aso_bell.Domain.Errors.{Error, Result, ok}
use aso_bell.Domain.Job.{second}
use aso_bell.Domain.Provider.{
  ProviderKind, ProviderStatus, ProviderState, Capabilities, is_valid, kind_eq,
  decide_provider_status,
}
use aso_bell.Store.State.{Store}
use aso_bell.Store.Logs.{get_provider, save_provider}

-- ports.go, ProviderInfo
pub record ProviderInfo : Type 0 where
  pub kind : ProviderKind
  pub capabilities : Capabilities
  pub version : Text
  pub bot_user_id : Text
  pub connected : Bool

-- MonitorConfig, without the ports.
pub record MonitorConfig : Type 0 where
  pub address : Text
  pub interval : ℤ
  pub offline_after_failures : ℤ
  pub min_backoff : ℤ
  pub max_backoff : ℤ

abbrev pub default_min_backoff : ℤ
default_min_backoff = pos second

abbrev pub default_max_backoff : ℤ
default_max_backoff = pos (30 * second)

abbrev pub default_poll_interval : ℤ
default_poll_interval = pos (15 * second)

-- domain.DefaultProviderOfflineAfterFailures
abbrev pub default_offline_after_failures : ℤ
default_offline_after_failures = pos 3

-- `if v <= 0 { v = d }`
abbrev pub or_default : ℤ → ℤ → ℤ
or_default v d = if leb_ℤ v (pos 0) then d else v

-- The defaults that NewMonitor fills in.
unfoldable pub with_defaults : MonitorConfig → MonitorConfig
with_defaults c =
    let least = or_default c.min_backoff default_min_backoff in
    record c {
      interval = or_default c.interval default_poll_interval;
      offline_after_failures = or_default c.offline_after_failures default_offline_after_failures;
      min_backoff = least;
      max_backoff =
          if ltb_ℤ c.max_backoff least then max_ℤ default_max_backoff least else c.max_backoff;
    }

-- The state that NewMonitor starts from.
unfoldable pub initial : MonitorConfig → ProviderState
initial c = record {
  kind = ProviderKind.unset;
  address = c.address;
  capabilities = record { forms = false; ephemeral = false; direct_message = false };
  version = [];
  bot_user_id = [];
  connected = false;
  status = ProviderStatus.offline;
  failures = pos 0;
  first_seen_at = pos 0;
  last_seen_at = pos 0;
  updated_at = pos 0;
}

-- `if FirstSeenAt.IsZero() { FirstSeenAt = now }`: the zero time is 0.
abbrev first_seen : ProviderState → ℤ → ℤ
first_seen s now = if eq_ℤ s.first_seen_at (pos 0) then now else s.first_seen_at

-- observe
unfoldable pub observe : MonitorConfig → ProviderInfo → ℤ → ProviderState → ProviderState
observe c info now s = record {
  kind = info.kind;
  address = c.address;
  capabilities = info.capabilities;
  version = info.version;
  bot_user_id = info.bot_user_id;
  connected = info.connected;
  status = decide_provider_status info.connected (pos 0) c.offline_after_failures;
  failures = pos 0;
  first_seen_at = first_seen s now;
  last_seen_at = now;
  updated_at = now;
}

-- observeFailure
unfoldable pub observe_failure : MonitorConfig → ℤ → ProviderState → ProviderState
observe_failure c now s = record s {
  address = c.address;
  status = decide_provider_status s.connected (s.failures +ℤ pos 1) c.offline_after_failures;
  failures = s.failures +ℤ pos 1;
  first_seen_at = first_seen s now;
  updated_at = now;
}

-- The monitor with the repository it saves to.
pub record Monitored : Type 0 where
  pub state : ProviderState
  pub store : Store

-- NewMonitor, with its repository.
abbrev pub started : MonitorConfig → Store → Monitored
started c s = record { state = initial c; store = s }

-- `m.save(ctx, state)` on the new state.
abbrev saved : ProviderState → Store → Monitored
saved state s = record { state = state; store = save_provider state s }

-- `recorded != "" && recorded != info.Kind`
abbrev pub mismatches : ProviderKind → ProviderKind → Bool
mismatches recorded kind = not (kind_eq recorded ProviderKind.unset) && not (kind_eq recorded kind)

-- Refresh at one answer of GetInfo: the error, if any, and the monitor. It returns the state it
-- leaves.
unfoldable pub refresh :
    MonitorConfig → Result ProviderInfo → ℤ → Monitored → Option Error × Monitored
unfolding observe observe_failure
refresh c (Result.failed e) now m = (some e, saved (observe_failure c now m.state) m.store)
refresh c (ok info) now m = (
  if mismatches m.state.kind info.kind then some Error.provider_kind_mismatch else none,
  saved (observe c info now m.state) m.store,
)

-- Run: one Refresh for each tick, its error logged.
unfoldable pub run : MonitorConfig → List (Result ProviderInfo × ℤ) → Monitored → Monitored
run c [] m = m
run c ((answer, now) ∷ rest) m = run c rest (refresh c answer now m).1

-- Online
unfoldable pub is_online : Monitored → Bool
is_online m = elim m.state.status [ ProviderStatus.online ↦ true | ProviderStatus.offline ↦ false ]

-- What pollUntilReachable leaves: the information or the last error, the waits it slept, in their
-- order, and the monitor.
pub record Polled : Type 0 where
  pub answer : Result ProviderInfo
  pub at : ℤ
  pub waits : List ℤ
  pub monitor : Monitored

abbrev add_wait : ℤ → Polled → Polled
add_wait w p = record p { waits = w ∷ p.waits }

-- pollUntilReachable. Where the answers end, the sleep is canceled.
unfoldable pub poll_until_reachable :
    MonitorConfig → ℤ → Error → List (Result ProviderInfo × ℤ) → Monitored → Polled
unfolding observe_failure
poll_until_reachable c wait last [] m = record {
  answer = Result.failed last;
  at = pos 0;
  waits = [];
  monitor = m;
}
poll_until_reachable c wait last ((ok info, now) ∷ rest) m = record {
  answer = ok info;
  at = now;
  waits = [];
  monitor = m;
}
poll_until_reachable c wait last ((Result.failed e, now) ∷ rest) m = add_wait wait (
    poll_until_reachable c (min_ℤ (wait *ℤ pos 2) c.max_backoff) e rest
      (saved (observe_failure c now m.state) m.store))

-- The recorded state that Bootstrap loads.
abbrev loaded : MonitorConfig → Option ProviderState → ProviderState → ProviderState
loaded c none s = s
loaded c (some stored) s = record stored { address = c.address }

abbrev stored_kind : Option ProviderState → ProviderKind
stored_kind none = ProviderKind.unset
stored_kind (some p) = p.kind

-- The end of Bootstrap, on the information of a provider that was reached.
finish_bootstrap :
    MonitorConfig → ProviderKind → Result ProviderInfo → ℤ → Monitored → Option Error × Monitored
unfolding observe
finish_bootstrap c recorded (Result.failed e) now m = (some e, m)
finish_bootstrap c recorded (ok info) now m =
    if not (is_valid info.kind) || mismatches recorded info.kind
    then (some Error.provider_kind_mismatch, m)
    else (none, saved (observe c info now m.state) m.store)

-- Bootstrap
unfoldable pub bootstrap :
    MonitorConfig → Error → List (Result ProviderInfo × ℤ) → Monitored → Option Error × Monitored
unfolding poll_until_reachable finish_bootstrap
bootstrap c canceled answers m =
    let m1 = record m { state = loaded c m.store.provider m.state } in
    let p = poll_until_reachable c c.min_backoff canceled answers m1 in
    finish_bootstrap c (stored_kind m.store.provider) p.answer p.at p.monitor
