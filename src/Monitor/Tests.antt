-- ===== src/Monitor/Tests.antt =====
-- Runs of the theorems of internal/manager/providerclient/monitor.go at concrete inputs.
use aso_bell.Common.{◌≡◌, refl, true, [], ◌∷◌, none, some}
use aso_bell.Common.Int.{pos, pos_part, ◌≤ℤ◌}
use aso_bell.Common.Lists.{get_elem?}
use aso_bell.Common.Text.{codes}
use aso_bell.Domain.Errors.{Error, Result, ok}
use aso_bell.Domain.Provider.{ProviderState, discord, slack, kind_eq, is_valid}
use aso_bell.Store.State.{new}
use aso_bell.Monitor.{
  MonitorConfig, ProviderInfo, Monitored, started, run, is_online, initial, refresh, bootstrap,
  with_defaults, poll_until_reachable,
}
use aso_bell.Monitor.Status.{is_reachable, latest, is_online-run}
use aso_bell.Monitor.Kind.{Records, bootstrap-Records, refresh_forgets}
use aso_bell.Monitor.Waits.{poll_until_reachable-doubles, doubled, leading_failures}

abbrev plain : MonitorConfig
plain = record {
  address = codes "localhost";
  interval = pos 0;
  offline_after_failures = pos 0;
  min_backoff = pos 0;
  max_backoff = pos 0;
}

abbrev discord_info : ProviderInfo
discord_info = record {
  kind = discord;
  capabilities = record { forms = true; ephemeral = true; direct_message = true };
  version = codes "1";
  bot_user_id = codes "B";
  connected = true;
}

abbrev slack_info : ProviderInfo
slack_info = record discord_info { kind = slack }

abbrev down : Result ProviderInfo
down = Result.failed Error.provider_unavailable

-- One answer and two failures: still online, for the threshold is three.
is_online-run_example :
    is_online (
      run
        (with_defaults plain)
        ((ok discord_info, pos 1) ∷ (down, pos 2) ∷ (down, pos 3) ∷ [])
        (started (with_defaults plain) new))
    ≡ is_reachable
        (with_defaults plain)
        (latest ((ok discord_info, pos 1) ∷ (down, pos 2) ∷ (down, pos 3) ∷ []))
is_online-run_example =
    is_online-run (with_defaults plain)
      ((ok discord_info, pos 1) ∷ (down, pos 2) ∷ (down, pos 3) ∷ []) new

abbrev on_discord : ProviderState
on_discord = record (initial plain) { kind = discord }

abbrev knows_discord : Monitored
knows_discord = record { state = on_discord; store = record new { provider = some on_discord } }

bootstrap-Records_example :
    Records discord
      (bootstrap plain Error.provider_unavailable
        ((down, pos 4) ∷ (ok slack_info, pos 5) ∷ [])
        knows_discord).1.store
unfolding kind_eq
bootstrap-Records_example =
    bootstrap-Records plain Error.provider_unavailable ((down, pos 4) ∷ (ok slack_info, pos 5) ∷ [])
      knows_discord on_discord refl refl

refresh_forgets_example :
    ((refresh plain (ok slack_info) (pos 6) knows_discord).0 ≡ some Error.provider_kind_mismatch)
    × ((bootstrap plain Error.provider_unavailable
          ((ok slack_info, pos 7) ∷ [])
          (started plain (refresh plain (ok slack_info) (pos 6) knows_discord).1.store)).0
        ≡ none)
unfolding kind_eq is_valid
refresh_forgets_example =
    refresh_forgets plain Error.provider_unavailable slack_info (pos 6) (pos 7) knows_discord refl
      refl

poll_until_reachable-doubles_example :
    (pos 1 ≤ℤ (with_defaults plain).min_backoff)
    × (get_elem?
          (poll_until_reachable
            (with_defaults plain)
            (with_defaults plain).min_backoff
            Error.provider_unavailable
            ((down, pos 1) ∷ (down, pos 2) ∷ [])
            knows_discord).waits
          1
        ≡ doubled
            (pos_part (with_defaults plain).min_backoff)
            (pos_part (with_defaults plain).max_backoff)
            (leading_failures ((down, pos 1) ∷ (down, pos 2) ∷ []))
            1)
poll_until_reachable-doubles_example =
    poll_until_reachable-doubles plain Error.provider_unavailable
      ((down, pos 1) ∷ (down, pos 2) ∷ []) knows_discord 1
