-- ===== src/Retry/Bounds.antt =====
-- retry.go: how long RetryWithBackoff waits, and how long CalculateRequeueAfter makes its caller wait.
use native.Mathlib.Nat.{le_trans, mul-le-mul_right}
use db_provision_operator.Base.{
  arith, false, suc, zero, ℕ, ◌+◌, ◌*◌, ◌≡◌, ◌≤◌, Bool-cases, inl, inr,
}
use db_provision_operator.Errors.{GoError, is_nil, nil_error}
use db_provision_operator.Retry.{
  RetryConfig, RetryResult, Surroundings, calculate_requeue_after, capped_interval, max_attempts,
  next_interval, retry_loop, retry_with_backoff, second,
}

module _ (c : RetryConfig) (s : Surroundings) (percent : ℕ)
    (spread : (attempt interval : ℕ)
      → s.jitter attempt interval * 100 ≤ interval * (100 + percent)) where
  capped_interval_bound :
      (attempt interval : ℕ) → capped_interval c attempt interval ≤ c.max_interval
  unfolding capped_interval
  capped_interval_bound attempt interval = ground arith

  next_interval_bound :
      (attempt interval : ℕ)
      → next_interval c s attempt interval * 100 ≤ c.max_interval * (100 + percent)
  unfolding next_interval
  next_interval_bound attempt interval =
      let capped : ℕ = capped_interval c attempt interval in
      let bound : capped * (100 + percent) ≤ c.max_interval * (100 + percent) =
        mul-le-mul_right (100 + percent) (capped_interval_bound attempt interval) in
      elim (Bool-cases c.has_jitter) [
        | inl h ↦ rw h (le_trans (spread attempt capped) bound)
        | inr h ↦ rw h (omega arith)
      ]

  loop_interval_bound :
      (rounds start interval : ℕ) (last : GoError)
      → interval * 100 ≤ c.max_interval * (100 + percent)
      → (retry_loop c s rounds start interval last).last_interval * 100
        ≤ c.max_interval * (100 + percent)
  unfolding retry_loop
  loop_interval_bound zero start interval last h = h
  loop_interval_bound (suc rounds) start interval last h = ground (
    arith,
    loop_interval_bound rounds (start + 1) (next_interval c s start interval) (s.call start)
        (next_interval_bound start interval),
  )

-- If the jitter adds at most `percent` percent to an interval, the interval that a run reports
-- exceeds `MaxInterval` by at most that share.
pub retry_with_backoff_interval :
    (c : RetryConfig) (s : Surroundings) (percent : ℕ)
    → ((attempt interval : ℕ) → s.jitter attempt interval * 100 ≤ interval * (100 + percent))
    → (retry_with_backoff c s).last_interval * 100 ≤ c.max_interval * (100 + percent)
unfolding retry_with_backoff
retry_with_backoff_interval c s percent spread =
    loop_interval_bound c s percent spread (max_attempts c.max_retries) 0 0 nil_error (omega arith)

-- After a success the caller waits five minutes. After a failure it waits at least
-- `InitialInterval`, and at most `MaxInterval` when the initial interval is within that.
pub calculate_requeue_after_bounds :
    (c : RetryConfig) (r : RetryResult)
    → (r.last_error ≡ nil_error → calculate_requeue_after c r ≡ 300 * second)
      × (is_nil r.last_error ≡ false
          → (c.initial_interval ≤ calculate_requeue_after c r)
            × (c.initial_interval ≤ c.max_interval → calculate_requeue_after c r ≤ c.max_interval))
unfolding calculate_requeue_after
calculate_requeue_after_bounds c r = ground arith
