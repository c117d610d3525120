-- ===== src/Domain/Job/Backoff.antt =====
-- job.go, Backoff: the wait after each failure.
use aso_bell.Common.{
  ℕ, zero, suc, ◌*◌, ◌^◌, ◌≤◌, ◌<◌, min, ◌≡◌, refl, arith, leb, Bool-cases, inl, inr,
}
use aso_bell.Common.Int.{ℤ, pos, ◌-ℤ◌, ◌≤ℤ◌, pos_part, max_ℤ}
use aso_bell.Domain.Job.{base_backoff, max_backoff, backoff_loop, backoff}
use native.Mathlib.Nat.{pow-suc}

pow_pos : (n : ℕ) → 1 ≤ 2 ^ n
pow_pos zero = omega arith
pow_pos (suc n) = rw pow-suc (omega (arith, pow_pos n))

pub double_pow : (d n : ℕ) → d * 2 ^ suc n ≡ d * 2 * 2 ^ n
double_pow d n = rw pow-suc (omega arith)

pub le_times_pow : (c d n : ℕ) → c ≤ d → c ≤ d * 2 ^ n
le_times_pow c d n h = grind (arith, pow_pos n)

backoff_loop-min : (n d : ℕ) → d < max_backoff → backoff_loop n d ≡ min (d * 2 ^ n) max_backoff
unfolding backoff_loop
backoff_loop-min zero d h = omega arith
backoff_loop-min (suc n) d h = elim (Bool-cases (leb max_backoff (d * 2))) [
  | inl e ↦ rw (e, double_pow) (omega (arith, le_times_pow max_backoff (d * 2) n (ground arith)))
  | inr e ↦ rw (e, double_pow) (backoff_loop-min n (d * 2) (ground arith))
]

-- After failure n + 1 the wait is 30 s doubled n times, capped at 30 minutes; an attempt count of
-- 0 or less waits 30 s.
pub backoff-min :
    (n : ℕ) (a : ℤ)
    → a ≤ℤ pos 0
    → (backoff (pos (suc n)) ≡ min (base_backoff * 2 ^ n) max_backoff) × (backoff a ≡ base_backoff)
unfolding backoff ◌-ℤ◌
backoff-min n a h =
    let r : pos_part (max_ℤ (pos (suc n) -ℤ pos 1) (pos 0)) ≡ n = ground arith in
    let z : pos_part (max_ℤ (a -ℤ pos 1) (pos 0)) ≡ 0 = ground arith in
    (rw r (backoff_loop-min n base_backoff (omega arith)), rw z refl)
