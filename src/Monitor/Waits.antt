-- ===== src/Monitor/Waits.antt =====
-- monitor.go, pollUntilReachable: the waits between the answers.
use aso_bell.Common.{
  ℕ, zero, suc, ◌*◌, ◌^◌, ◌≤◌, min, leb, true, false, ◌≡◌, refl, List, [], ◌∷◌, Option, none, some,
  arith, ltb, if◌then◌else◌, Bool-cases, inl, inr, ◌∙◌, ap,
}
use aso_bell.Common.Int.{pos_of_nonneg, ℤ, pos, max_ℤ, ◌*ℤ◌, ◌≤ℤ◌, pos_part, min_ℤ, ltb_ℤ}
use aso_bell.Common.Lists.{get_elem?}
use aso_bell.Domain.Errors.{Error, Result, ok}
use aso_bell.Domain.Job.Backoff.{double_pow, le_times_pow}
use aso_bell.Monitor.{
  MonitorConfig, ProviderInfo, Monitored, with_defaults, poll_until_reachable, saved,
  observe_failure, or_default, default_min_backoff, default_max_backoff,
}

-- The answers that fail before the first one that succeeds.
unfoldable pub leading_failures : List (Result ProviderInfo × ℤ) → ℕ
leading_failures [] = 0
leading_failures ((ok info, now) ∷ rest) = 0
leading_failures ((Result.failed e, now) ∷ rest) = suc (leading_failures rest)

-- The wait with the index, of n waits.
abbrev pub doubled : ℕ → ℕ → ℕ → ℕ → Option ℤ
doubled k most n i = if ltb i n then some (pos (min (k * 2 ^ i) most)) else none

next_wait : (k most : ℕ) → min_ℤ (pos k *ℤ pos 2) (pos most) ≡ pos (min (k * 2) most)
unfolding ◌*ℤ◌
next_wait k most = ground arith

double_min : (k most i : ℕ) → min (min (k * 2) most * 2 ^ i) most ≡ min (k * 2 ^ suc i) most
double_min k most i = elim (Bool-cases (leb (k * 2) most)) [
  | inl e ↦ let same : min (k * 2) most ≡ k * 2 = ground arith in rw (same, double_pow k i) refl
  | inr e ↦
      let same : min (k * 2) most ≡ most = ground arith in
      rw (same, double_pow k i)
        (omega (
          arith,
          le_times_pow most most i (omega arith),
          le_times_pow most (k * 2) i (ground arith),
        ))
]

doubled-suc :
    (k most n i : ℕ) → doubled (min (k * 2) most) most n i ≡ doubled k most (suc n) (suc i)
doubled-suc k most n i = elim (Bool-cases (ltb i n)) [
  | inl e ↦
      let e' : ltb (suc i) (suc n) ≡ true = ground arith in rw (e, e', double_min k most i) refl
  | inr e ↦ let e' : ltb (suc i) (suc n) ≡ false = ground arith in rw (e, e') refl
]

first_wait : (k most : ℕ) → k ≤ most → pos k ≡ pos (min (k * 2 ^ 0) most)
first_wait k most h = ap pos (omega arith)

poll-waits :
    (c : MonitorConfig) (wait : ℤ) (k most : ℕ) (last : Error)
    (answers : List (Result ProviderInfo × ℤ)) (m : Monitored) (i : ℕ)
    → wait ≡ pos k
    → c.max_backoff ≡ pos most
    → k ≤ most
    → get_elem? (poll_until_reachable c wait last answers m).waits i
      ≡ doubled k most (leading_failures answers) i
unfolding poll_until_reachable leading_failures
poll-waits c wait k most last [] m i at top h = ground arith
poll-waits c wait k most last ((ok info, now) ∷ rest) m i at top h = ground arith
poll-waits c wait k most last ((Result.failed e, now) ∷ rest) m zero at top h =
    let here : ltb 0 (suc (leading_failures rest)) ≡ true = ground arith in
    rw here (ap some (at ∙ first_wait k most h))
poll-waits c wait k most last ((Result.failed e, now) ∷ rest) m (suc i) at top h =
    let next : min_ℤ (wait *ℤ pos 2) c.max_backoff ≡ pos (min (k * 2) most) =
      ap (λ w. min_ℤ (w *ℤ pos 2) c.max_backoff) at
      ∙ (ap (min_ℤ (pos k *ℤ pos 2)) top ∙ next_wait k most) in
    poll-waits c (min_ℤ (wait *ℤ pos 2) c.max_backoff) (min (k * 2) most) most e rest
      (saved (observe_failure c now m.state) m.store) i next top (omega arith)
    ∙ doubled-suc k most (leading_failures rest) i

least_pos : (v : ℤ) → pos 1 ≤ℤ or_default v default_min_backoff
least_pos v = ground arith

least_le : (v least : ℤ) → least ≤ℤ (if ltb_ℤ v least then max_ℤ default_max_backoff least else v)
least_le v least = ground arith

waits_of :
    (d : MonitorConfig) (last : Error) (answers : List (Result ProviderInfo × ℤ)) (m : Monitored)
    (i : ℕ)
    → pos 1 ≤ℤ d.min_backoff
    → d.min_backoff ≤ℤ d.max_backoff
    → get_elem? (poll_until_reachable d d.min_backoff last answers m).waits i
      ≡ doubled (pos_part d.min_backoff) (pos_part d.max_backoff) (leading_failures answers) i
waits_of d last answers m i some_time ordered =
    poll-waits d d.min_backoff (pos_part d.min_backoff) (pos_part d.max_backoff) last answers m i
      (pos_of_nonneg d.min_backoff (omega arith)) (pos_of_nonneg d.max_backoff (omega arith))
      (ground arith)

-- A poll under any configuration, its missing values filled in, waits once for each answer that
-- fails before the first success: at first the least wait, at least 1 ns, then twice as long each
-- time, never longer than the longest wait.
pub poll_until_reachable-doubles :
    (c : MonitorConfig) (last : Error) (answers : List (Result ProviderInfo × ℤ)) (m : Monitored)
    (i : ℕ)
    → let d = with_defaults c in
      (pos 1 ≤ℤ d.min_backoff)
      × (get_elem? (poll_until_reachable d d.min_backoff last answers m).waits i
          ≡ doubled (pos_part d.min_backoff) (pos_part d.max_backoff) (leading_failures answers) i)
unfolding with_defaults
poll_until_reachable-doubles c last answers m i =
    let least = or_default c.min_backoff default_min_backoff in
    (
      least_pos c.min_backoff,
      waits_of (with_defaults c) last answers m i (least_pos c.min_backoff)
          (least_le c.max_backoff least),
    )
