-- ===== src/Retry.antt =====
-- internal/util/retry.go: RetryWithBackoff and CalculateRequeueAfter. A duration is its number of
-- nanoseconds, never negative here. What the code does not decide is a parameter: the product with
-- the float `Multiplier` (`scale`), the random jitter, the outcome of each call, whether the context
-- ends the wait before a call, and the context's error. `TotalTime` is a clock reading, and left out.
pub mod Runs
pub mod Bounds
use db_provision_operator.Base.{Bool, if◌then◌else◌, ltb, suc, true, zero, ℕ, ◌&&◌, ◌*◌, ◌+◌, ◌==◌}
use db_provision_operator.Base.Int.{negsuc, pos, ℤ}
use db_provision_operator.Errors.{GoError, is_nil, is_retryable_error, nil_error}

pub record RetryConfig : Type 0 where
  pub max_retries : ℤ
  pub initial_interval : ℕ
  pub max_interval : ℕ
  pub scale : ℕ → ℕ
  pub has_jitter : Bool

pub record Surroundings : Type 0 where
  pub call : ℕ → GoError
  pub is_cancelled : ℕ → Bool
  pub context_error : GoError
  pub jitter : ℕ → ℕ → ℕ

pub record RetryResult : Type 0 where
  pub attempts : ℕ
  pub last_error : GoError
  pub last_interval : ℕ

abbrev pub second : ℕ
second = 1000000000

-- DefaultRetryConfig, ConnectionRetryConfig and BackupRetryConfig, whose multipliers are whole
abbrev pub default_retry_config : RetryConfig
default_retry_config = record {
  max_retries = pos 5;
  initial_interval = 5 * second;
  max_interval = 1800 * second;
  scale = λ i. i * 2;
  has_jitter = true;
}

abbrev pub connection_retry_config : RetryConfig
connection_retry_config = record {
  max_retries = pos 3;
  initial_interval = 5 * second;
  max_interval = 1800 * second;
  scale = λ i. i * 2;
  has_jitter = true;
}

abbrev pub backup_retry_config : RetryConfig
backup_retry_config = record {
  max_retries = pos 2;
  initial_interval = 10 * second;
  max_interval = 1800 * second;
  scale = λ i. i * 3;
  has_jitter = true;
}

-- `maxAttempts`: a negative number of retries is the safety cap
abbrev pub max_attempts : ℤ → ℕ
max_attempts (pos n) = n + 1
max_attempts (negsuc n) = 1000

-- the interval before it is jittered
unfoldable pub capped_interval : RetryConfig → ℕ → ℕ → ℕ
capped_interval c attempt interval =
    let grown = if attempt == 0 then c.initial_interval else c.scale interval in
    if ltb c.max_interval grown then c.max_interval else grown

unfoldable pub next_interval : RetryConfig → Surroundings → ℕ → ℕ → ℕ
unfolding capped_interval
next_interval c s attempt interval =
    let capped = capped_interval c attempt interval in
    if c.has_jitter then s.jitter attempt capped else capped

-- the loop over the attempts, with the number of attempts that are left
unfoldable pub retry_loop : RetryConfig → Surroundings → ℕ → ℕ → ℕ → GoError → RetryResult
unfolding next_interval
retry_loop c s zero attempt interval last = record {
  attempts = attempt;
  last_error = last;
  last_interval = interval;
}
retry_loop c s (suc rounds) attempt interval last =
    let again =
      retry_loop c s rounds (attempt + 1) (next_interval c s attempt interval) (s.call attempt) in
    if ltb 0 interval && s.is_cancelled attempt
    then record { attempts = attempt; last_error = s.context_error; last_interval = interval }
    else if is_nil (s.call attempt)
    then record { attempts = attempt + 1; last_error = nil_error; last_interval = interval }
    else if is_retryable_error (s.call attempt)
    then again
    else record { attempts = attempt + 1; last_error = s.call attempt; last_interval = interval }

-- RetryWithBackoff
unfoldable pub retry_with_backoff : RetryConfig → Surroundings → RetryResult
unfolding retry_loop
retry_with_backoff c s = retry_loop c s (max_attempts c.max_retries) 0 0 nil_error

-- CalculateRequeueAfter
unfoldable pub calculate_requeue_after : RetryConfig → RetryResult → ℕ
calculate_requeue_after c r =
    if is_nil r.last_error
    then 300 * second
    else (let grown =
          if r.last_interval == 0 then c.initial_interval else c.scale r.last_interval in
        let capped = if ltb c.max_interval grown then c.max_interval else grown in
        if ltb capped c.initial_interval then c.initial_interval else capped)
