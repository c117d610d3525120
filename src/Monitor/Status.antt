-- ===== src/Monitor/Status.antt =====
-- monitor.go: the status against the answers of GetInfo, read from the latest one back.
use aso_bell.Common.{
  ℕ, suc, ◌≡◌, refl, ◌∙◌, Bool, false, ◌&&◌, List, [], ◌∷◌, Option, none, some, arith,
}
use aso_bell.Common.Int.{ℤ, pos, ◌+ℤ◌, ltb_ℤ, int_laws}
use aso_bell.Domain.Errors.{Result, ok}
use aso_bell.Domain.Provider.{ProviderState, decide_provider_status}
use aso_bell.Store.State.{Store}
use aso_bell.Monitor.{
  MonitorConfig, ProviderInfo, Monitored, initial, observe, observe_failure, refresh, run,
  is_online, started,
}

-- The latest information of the provider, and how many answers have failed since.
abbrev pub Latest : Type 0
Latest = Option ProviderInfo × ℕ

abbrev earlier : Result ProviderInfo → Latest → Latest
earlier answer (some info, n) = (some info, n)
earlier (ok info) (none, n) = (some info, n)
earlier (Result.failed e) (none, n) = (none, suc n)

unfoldable pub latest : List (Result ProviderInfo × ℤ) → Latest
latest [] = (none, 0)
latest ((answer, now) ∷ rest) = earlier answer (latest rest)

-- Online: the latest information says that the provider is connected to its chat tool, and fewer
-- answers than the threshold have failed since. Before any information it is not.
abbrev pub is_reachable : MonitorConfig → Latest → Bool
is_reachable c (none, n) = false
is_reachable c (some info, n) = info.connected && ltb_ℤ (pos n) c.offline_after_failures

abbrev connected_after : Bool → Latest → Bool
connected_after before (none, n) = before
connected_after before (some info, n) = info.connected

abbrev failures_after : ℤ → Latest → ℤ
failures_after before (none, n) = before +ℤ pos n
failures_after before (some info, n) = pos n

abbrev IsDecided : MonitorConfig → ProviderState → Type 0
IsDecided c s = s.status ≡ decide_provider_status s.connected s.failures c.offline_after_failures

-- What the answers make of a state.
abbrev Follows : MonitorConfig → Latest → ProviderState → ProviderState → Type 0
Follows c l s s' =
    (s'.connected ≡ connected_after s.connected l)
    × (s'.failures ≡ failures_after s.failures l)
    × IsDecided c s'

zero_add : (n : ℕ) → pos 0 +ℤ pos n ≡ pos n
zero_add n = omega int_laws

Follows-earlier :
    (c : MonitorConfig) (answer : Result ProviderInfo) (now : ℤ) (m : Monitored) (l : Latest)
    (s' : ProviderState)
    → Follows c l (refresh c answer now m).1.state s'
    → Follows c (earlier answer l) m.state s'
unfolding refresh observe observe_failure
Follows-earlier c answer now m (some info, n) s' h = h
Follows-earlier c (ok info) now m (none, n) s' (a, b, d) = (a, b ∙ zero_add n, d)
Follows-earlier c (Result.failed e) now m (none, n) s' (a, b, d) = (a, b ∙ omega int_laws, d)

refresh-IsDecided :
    (c : MonitorConfig) (answer : Result ProviderInfo) (now : ℤ) (m : Monitored)
    → IsDecided c (refresh c answer now m).1.state
unfolding refresh observe observe_failure
refresh-IsDecided c (ok info) now m = refl
refresh-IsDecided c (Result.failed e) now m = refl

run-Follows :
    (c : MonitorConfig) (answers : List (Result ProviderInfo × ℤ)) (m : Monitored)
    → IsDecided c m.state
    → Follows c (latest answers) m.state (run c answers m).state
unfolding run latest
run-Follows c [] m h = (refl, omega int_laws, h)
run-Follows c ((answer, now) ∷ rest) m h =
    let m1 = (refresh c answer now m).1 in
    Follows-earlier c answer now m (latest rest) (run c rest m1).state
      (run-Follows c rest m1 (refresh-IsDecided c answer now m))

start-IsDecided : (c : MonitorConfig) (s : Store) → IsDecided c (started c s).state
unfolding initial decide_provider_status
start-IsDecided c s = refl

online_of_latest :
    (c : MonitorConfig) (l : Latest) (m : Monitored)
    → m.state.connected ≡ connected_after (initial c).connected l
    → m.state.failures ≡ failures_after (initial c).failures l
    → IsDecided c m.state
    → is_online m ≡ is_reachable c l
unfolding is_online initial decide_provider_status
online_of_latest c (none, n) m h1 h2 h3 = rw (h3, is_online) (rw h1 refl)
online_of_latest c (some info, n) m h1 h2 h3 = rw (h3, is_online) (rw (h1, h2) (ground arith))

-- After any answers, Online tells exactly whether the latest information says that the provider is
-- connected and fewer answers than the threshold have failed since.
pub is_online-run :
    (c : MonitorConfig) (answers : List (Result ProviderInfo × ℤ)) (s : Store)
    → is_online (run c answers (started c s)) ≡ is_reachable c (latest answers)
unfolding is_online
is_online-run c answers s =
    let m = run c answers (started c s) in
    let (connected, failures, decided) =
      run-Follows c answers (started c s) (start-IsDecided c s) in
    online_of_latest c (latest answers) m connected failures decided
