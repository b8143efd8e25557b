-- ===== src/Execution/Backoff.antt =====
-- computeNextRunAt of src/domains/execution/retry.service.ts: exponential backoff with a cap.
use hyperscale_job_scheduler.Base.{
  ℕ, zero, suc, ◌+◌, ◌*◌, ◌^◌, ◌≤◌, ◌<◌, min, ltb, if◌then◌else◌, ◌≡◌, arith,
}
use native.Mathlib.Nat.{pow-suc}
use hyperscale_job_scheduler.Constants.{base_delay_ms, max_delay_ms, retry_multiplier}

-- `jitter` is the whole part of `Math.random() * 1_000`: a Date keeps whole milliseconds.
unfoldable pub compute_next_run_at : ℕ → ℕ → ℕ → ℕ
compute_next_run_at attempt now jitter =
    let delay = min (base_delay_ms * retry_multiplier ^ attempt) max_delay_ms in
    now + delay + jitter

power_ge_one : (n : ℕ) → 1 ≤ 2 ^ n
power_ge_one zero = omega arith
power_ge_one (suc n) = rw pow-suc (omega (arith, power_ge_one n))

power_ge_64 : (n : ℕ) → 64 ≤ 2 ^ suc (suc (suc (suc (suc (suc n)))))
power_ge_64 n = simp pow-suc (omega (arith, power_ge_one n))

-- A retry runs between one and sixty-one seconds after the failure.
backoff_bounds :
    (attempt now jitter : ℕ)
    → jitter < 1000
    → (now + base_delay_ms ≤ compute_next_run_at attempt now jitter)
      × (compute_next_run_at attempt now jitter < now + max_delay_ms + 1000)
unfolding compute_next_run_at
backoff_bounds attempt now jitter h = omega (arith, power_ge_one attempt)

-- The delay is one second doubled with each attempt up to the fifth, 32 seconds, and one minute from
-- the sixth on.
pub backoff_delay :
    (attempt now jitter : ℕ)
    → compute_next_run_at attempt now jitter
      ≡ now + jitter + (if ltb attempt 6 then base_delay_ms * 2 ^ attempt else max_delay_ms)
unfolding compute_next_run_at
backoff_delay zero now jitter = omega arith
backoff_delay (suc zero) now jitter = omega arith
backoff_delay (suc (suc zero)) now jitter = omega arith
backoff_delay (suc (suc (suc zero))) now jitter = omega arith
backoff_delay (suc (suc (suc (suc zero)))) now jitter = omega arith
backoff_delay (suc (suc (suc (suc (suc zero))))) now jitter = omega arith
backoff_delay (suc (suc (suc (suc (suc (suc n)))))) now jitter = ground (arith, power_ge_64 n)
