-- ===== src/Monitor/Kind.antt =====
-- monitor.go: the recorded kind of the provider, which Bootstrap guards and Refresh does not.
use aso_bell.Common.{
  ◌≡◌, refl, sym, ◌∙◌, ap, true, false, not, ◌||◌, List, [], ◌∷◌, none, some, arith, Bool-cases,
  Option-cases, inl, inr, subst,
}
use aso_bell.Common.Int.{ℤ, pos, ◌*ℤ◌, min_ℤ}
use aso_bell.Common.Text.{text_eq_iff}
use aso_bell.Domain.Errors.{Error, Result, ok}
use aso_bell.Domain.Provider.{
  ProviderKind, ProviderState, slack, discord, unset, unknown, is_valid, kind_eq,
}
use aso_bell.Store.State.{Store}
use aso_bell.Store.Logs.{save_provider}
use aso_bell.Monitor.{
  MonitorConfig, ProviderInfo, Monitored, initial, mismatches, loaded, stored_kind, observe,
  observe_failure, refresh, poll_until_reachable, finish_bootstrap, bootstrap, started, saved,
}

kind_eq_sound : (k l : ProviderKind) → kind_eq k l ≡ true → k ≡ l
unfolding kind_eq
kind_eq_sound slack l h = ground arith
kind_eq_sound discord l h = ground arith
kind_eq_sound unset l h = ground arith
kind_eq_sound (unknown s) (unknown t) h = ap ProviderKind.unknown ((text_eq_iff s t).0 h)
kind_eq_sound (unknown s) slack h = cc
kind_eq_sound (unknown s) discord h = cc
kind_eq_sound (unknown s) unset h = cc

-- The store records a provider of the kind.
abbrev pub Records : ProviderKind → Store → Type 0
Records k s = (p : ProviderState) × (s.provider ≡ some p) × (p.kind ≡ k)

-- The store and the monitor's state both have the kind.
abbrev HasKind : ProviderKind → Monitored → Type 0
HasKind k m = Records k m.store × (m.state.kind ≡ k)

save_provider-Records :
    (k : ProviderKind) (p : ProviderState) (s : Store) → p.kind ≡ k → Records k (save_provider p s)
unfolding save_provider
save_provider-Records k p s h = elim (Option-cases s.provider) [
  | inl e ↦ rw (e, save_provider) (p, refl, h)
  | inr (old, e) ↦ rw (e, save_provider) (record p { first_seen_at = old.first_seen_at }, refl, h)
]

poll-HasKind :
    (k : ProviderKind) (c : MonitorConfig) (wait : ℤ) (last : Error)
    (answers : List (Result ProviderInfo × ℤ)) (m : Monitored)
    → HasKind k m
    → HasKind k (poll_until_reachable c wait last answers m).monitor
unfolding poll_until_reachable observe_failure
poll-HasKind k c wait last [] m h = h
poll-HasKind k c wait last ((ok info, now) ∷ rest) m h = h
poll-HasKind k c wait last ((Result.failed e, now) ∷ rest) m h =
    poll-HasKind k c (min_ℤ (wait *ℤ pos 2) c.max_backoff) e rest
      (saved (observe_failure c now m.state) m.store)
      (save_provider-Records k (observe_failure c now m.state) m.store h.1, h.1)

finish-HasKind :
    (k : ProviderKind) (c : MonitorConfig) (answer : Result ProviderInfo) (now : ℤ) (m : Monitored)
    → kind_eq k unset ≡ false
    → HasKind k m
    → Records k (finish_bootstrap c k answer now m).1.store
unfolding finish_bootstrap observe
finish-HasKind k c (Result.failed e) now m u h = h.0
finish-HasKind k c (ok info) now m u h =
    elim (Bool-cases (not (is_valid info.kind) || mismatches k info.kind)) [
      | inl bad ↦ rw bad h.0
      | inr good ↦
          let same : kind_eq k info.kind ≡ true = ground arith in
          rw good (save_provider-Records k _ m.store (sym (kind_eq_sound k info.kind same)))
    ]

-- Once a kind is recorded, Bootstrap never records another one, whatever the provider answers: it
-- starts with a provider of the recorded kind, or reports an error.
pub bootstrap-Records :
    (c : MonitorConfig) (canceled : Error) (answers : List (Result ProviderInfo × ℤ))
    (m : Monitored) (p : ProviderState)
    → m.store.provider ≡ some p
    → kind_eq p.kind unset ≡ false
    → Records p.kind (bootstrap c canceled answers m).1.store
unfolding bootstrap
bootstrap-Records c canceled answers m p h u =
    subst
      (λ o.
        let polled =
          poll_until_reachable c c.min_backoff canceled answers
            (record m { state = loaded c o m.state }) in
        Records p.kind
          (finish_bootstrap c (stored_kind o) polled.answer polled.at polled.monitor).1.store)
      (sym h)
      (let m1 : Monitored = record m { state = loaded c (some p) m.state } in
        let polled = poll_until_reachable c c.min_backoff canceled answers m1 in
        finish-HasKind p.kind c polled.answer polled.at polled.monitor u
          (poll-HasKind p.kind c c.min_backoff canceled answers m1 ((p, h, refl), refl)))

kind_eq_refl : (k : ProviderKind) → kind_eq k k ≡ true
unfolding kind_eq
kind_eq_refl slack = refl
kind_eq_refl discord = refl
kind_eq_refl unset = refl
kind_eq_refl (unknown s) = (text_eq_iff s s).1 refl

-- A recorded kind matches itself.
accepts :
    (c : MonitorConfig) (k : ProviderKind) (info : ProviderInfo) (now : ℤ) (m : Monitored)
    → k ≡ info.kind
    → is_valid info.kind ≡ true
    → (finish_bootstrap c k (ok info) now m).0 ≡ none
unfolding finish_bootstrap
accepts c k info now m same valid =
    rw (valid, same, kind_eq_refl info.kind)
      (elim (Bool-cases (kind_eq info.kind unset)) [ inl e ↦ rw e refl | inr e ↦ rw e refl ])

bootstrap-accepts :
    (c : MonitorConfig) (canceled : Error) (info : ProviderInfo) (now : ℤ) (s : Store)
    → Records info.kind s
    → is_valid info.kind ≡ true
    → (bootstrap c canceled ((ok info, now) ∷ []) (started c s)).0 ≡ none
unfolding bootstrap poll_until_reachable
bootstrap-accepts c canceled info now s (p, h, same) valid =
    accepts c (stored_kind s.provider) info now
      (record { state = loaded c s.provider (initial c); store = s }) (ap stored_kind h ∙ same)
      valid

-- Refresh at a provider of another, known kind reports the mismatch, and records the other kind all
-- the same: a manager that is started again on that repository accepts the other provider.
pub refresh_forgets :
    (c : MonitorConfig) (canceled : Error) (info : ProviderInfo) (now later : ℤ) (m : Monitored)
    → mismatches m.state.kind info.kind ≡ true
    → is_valid info.kind ≡ true
    → ((refresh c (ok info) now m).0 ≡ some Error.provider_kind_mismatch)
      × ((bootstrap c canceled
            ((ok info, later) ∷ [])
            (started c (refresh c (ok info) now m).1.store)).0
          ≡ none)
unfolding refresh observe
refresh_forgets c canceled info now later m differs valid = (
  rw differs refl,
  bootstrap-accepts c canceled info later (save_provider (observe c info now m.state) m.store)
      (save_provider-Records info.kind (observe c info now m.state) m.store refl) valid,
)
