-- ===== src/Tests/ErrorRuns.antt =====
-- Runs of the error classes and of the retry loop.
use db_provision_operator.Base.{
  arith, codes, false, refl, suc, true, zero, ℕ, ◌*◌, ◌+◌, ◌<◌, ◌↔◌, ◌≡◌, ◌≤◌,
}
use db_provision_operator.Errors.{
  GoError, as_retryable, classify_error, classify_requeue, database_error, err_already_exists,
  error_text, foreign, has_transient_pattern, is_nil, is_retryable_error, nil_error, permanent,
  sentinel, to_lower, wrapped,
}
use db_provision_operator.Errors.Chain.{Cause, by_message}
use db_provision_operator.Errors.Classes.{
  IsPermanent, classify_error-Wraps, classify_error-permanent_iff, rank,
}
use db_provision_operator.Errors.Requeue.{Waits, classify_requeue-Waits}
use db_provision_operator.Retry.{
  RetryResult, Surroundings, backup_retry_config, calculate_requeue_after, connection_retry_config,
  default_retry_config, max_attempts, retry_with_backoff, second,
}
use db_provision_operator.Retry.Runs.{
  Failed, retry_with_backoff-exhausted, retry_with_backoff-stop, retry_with_backoff-success,
  retry_with_backoff_attempts,
}
use db_provision_operator.Retry.Bounds.{calculate_requeue_after_bounds, retry_with_backoff_interval}

abbrev taken : GoError
taken = database_error (codes "create") (codes "db") (sentinel err_already_exists)

classify_error-permanent_iff_example :
    (classify_error taken ≡ permanent) ↔ ((c : GoError) × Cause taken c × IsPermanent c)
classify_error-permanent_iff_example = classify_error-permanent_iff taken

classify_error-Wraps_example :
    rank (classify_error taken) ≤ rank (classify_error (wrapped (codes "reconcile: ") taken))
classify_error-Wraps_example = classify_error-Wraps (by_message (codes "reconcile: ") taken)

classify_requeue-Waits_example :
    ((classify_requeue taken).1 ≡ nil_error) × Waits taken (classify_requeue taken).0
classify_requeue-Waits_example = classify_requeue-Waits taken

abbrev refused : GoError
refused = foreign (codes "dial tcp: connection refused")

-- the first two calls are refused, the third succeeds
abbrev third_time : ℕ → GoError
third_time zero = refused
third_time (suc zero) = refused
third_time (suc (suc n)) = nil_error

abbrev lucky : Surroundings
lucky = record {
  call = third_time;
  is_cancelled = λ n. false;
  context_error = foreign (codes "context canceled");
  jitter = λ attempt interval. interval;
}

abbrev unlucky : Surroundings
unlucky = record {
  call = λ n. refused;
  is_cancelled = λ n. false;
  context_error = foreign (codes "context canceled");
  jitter = λ attempt interval. interval;
}

refused-retries : is_retryable_error refused ≡ true
unfolding is_retryable_error as_retryable error_text has_transient_pattern to_lower
refused-retries = refl

nil-stops : is_retryable_error nil_error ≡ false
unfolding is_retryable_error
nil-stops = refl

retry_with_backoff-stop_example :
    ((retry_with_backoff default_retry_config lucky).attempts ≡ 3)
    × ((retry_with_backoff default_retry_config lucky).last_error ≡ nil_error)
retry_with_backoff-stop_example =
    retry_with_backoff-stop default_retry_config lucky 2 (omega arith)
      (refl, refused-retries, (refl, refused-retries, refl)) nil-stops

retry_with_backoff-exhausted_example :
    ((retry_with_backoff backup_retry_config unlucky).attempts ≡ 3)
    × ((retry_with_backoff backup_retry_config unlucky).last_error ≡ refused)
retry_with_backoff-exhausted_example =
    retry_with_backoff-exhausted backup_retry_config unlucky 2 refl
      (refl, refused-retries, (refl, refused-retries, refl)) refused-retries

retry_with_backoff-success_example :
    (k : ℕ) × (k < max_attempts default_retry_config.max_retries)
    × Failed default_retry_config lucky 0 k
    × (lucky.call k ≡ nil_error)
    × ((retry_with_backoff default_retry_config lucky).attempts ≡ k + 1)
retry_with_backoff-success_example =
    retry_with_backoff-success default_retry_config lucky (λ e. cc)
      retry_with_backoff-stop_example.1

retry_with_backoff_attempts_example :
    (1 ≤ (retry_with_backoff connection_retry_config unlucky).attempts)
    × ((retry_with_backoff connection_retry_config unlucky).attempts ≤ 4)
retry_with_backoff_attempts_example = retry_with_backoff_attempts connection_retry_config unlucky

no_spread : (attempt interval : ℕ) → unlucky.jitter attempt interval * 100 ≤ interval * (100 + 10)
no_spread attempt interval = omega arith

retry_with_backoff_interval_example :
    (retry_with_backoff default_retry_config unlucky).last_interval * 100
    ≤ default_retry_config.max_interval * (100 + 10)
retry_with_backoff_interval_example =
    retry_with_backoff_interval default_retry_config unlucky 10 no_spread

abbrev failed_once : RetryResult
failed_once = record { attempts = 2; last_error = refused; last_interval = 7 * second }

calculate_requeue_after_bounds_example :
    (failed_once.last_error ≡ nil_error
      → calculate_requeue_after default_retry_config failed_once ≡ 300 * second)
    × (is_nil failed_once.last_error ≡ false
        → (default_retry_config.initial_interval
            ≤ calculate_requeue_after default_retry_config failed_once)
          × (default_retry_config.initial_interval ≤ default_retry_config.max_interval
              → calculate_requeue_after default_retry_config failed_once
                ≤ default_retry_config.max_interval))
calculate_requeue_after_bounds_example =
    calculate_requeue_after_bounds default_retry_config failed_once
