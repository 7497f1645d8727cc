-- ===== src/Retry/Runs.antt =====
-- retry.go: how a run of RetryWithBackoff ends.
use native.Mathlib.Nat.{add-zero, zero-add}
use db_provision_operator.Base.{
  arith, false, suc, true, zero, ℕ, ◌+◌, ◌<◌, ◌≡◌, refl, ◌≢◌, ◌≤◌, Bool-cases, inl, inr, ltb, ◌&&◌,
  ◌∙◌,
}
use db_provision_operator.Errors.{GoError, is_retryable_error, is_nil, nil_error, sentinel}
use db_provision_operator.Retry.{
  RetryConfig, Surroundings, retry_loop, next_interval, max_attempts, retry_with_backoff,
}
use db_provision_operator.Base.Int.{negsuc, pos, ℤ}

is_nil-eq : (e : GoError) → is_nil e ≡ true → e ≡ nil_error
is_nil-eq nil_error h = refl
is_nil-eq (sentinel x) h = cc
is_nil-eq _ h = cc

retryable-not-nil : (e : GoError) → is_retryable_error e ≡ true → is_nil e ≡ false
unfolding is_retryable_error
retryable-not-nil e h = ground arith

ne_of_not_nil : (e : GoError) → is_nil e ≡ false → e ≢ nil_error
ne_of_not_nil e h k = ground arith

shift : (start k : ℕ) → start + suc k ≡ start + 1 + k
shift start k = omega arith

module _ (c : RetryConfig) (s : Surroundings) where
  -- From attempt `start` on, the next `k` calls are made and fail with retryable errors, and no wait
  -- is cut off, that before the call behind them included.
  abbrev pub Goes : ℕ → ℕ → Type 0
  Goes start zero = s.is_cancelled start ≡ false
  Goes start (suc k) =
      (s.is_cancelled start ≡ false)
      × (is_retryable_error (s.call start) ≡ true)
      × Goes (start + 1) k

  loop_stop :
      (rounds k start n interval : ℕ) (last : GoError)
      → n ≡ start + k
      → k < rounds
      → Goes start k
      → is_retryable_error (s.call n) ≡ false
      → ((retry_loop c s rounds start interval last).attempts ≡ n + 1)
        × ((retry_loop c s rounds start interval last).last_error ≡ s.call n)
  unfolding retry_loop
  loop_stop zero k start n interval last e lt g stop = absurd (omega arith)
  loop_stop (suc rounds) zero start n interval last e lt g stop =
      let e' : n ≡ start = omega arith in
      let stop' : is_retryable_error (s.call start) ≡ false = rw (← e') stop in
      rw e' (ground (arith, is_nil-eq (s.call start)))
  loop_stop (suc rounds) (suc k) start n interval last e lt (live, again, g) stop = ground (
    arith,
    retryable-not-nil (s.call start),
    loop_stop rounds k (start + 1) n (next_interval c s start interval) (s.call start),
  )

  loop_exhaust :
      (k start n interval : ℕ) (last : GoError)
      → n ≡ start + k
      → Goes start k
      → is_retryable_error (s.call n) ≡ true
      → ((retry_loop c s (suc k) start interval last).attempts ≡ n + 1)
        × ((retry_loop c s (suc k) start interval last).last_error ≡ s.call n)
  unfolding retry_loop
  loop_exhaust zero start n interval last e live again =
      let e' : n ≡ start = omega arith in
      let again' : is_retryable_error (s.call start) ≡ true = rw (← e') again in
      rw e' (ground (arith, retryable-not-nil (s.call start)))
  loop_exhaust (suc k) start n interval last e (live, fails, g) again = ground (
    arith,
    retryable-not-nil (s.call start),
    loop_exhaust k (start + 1) n (next_interval c s start interval) (s.call start),
  )

  loop_attempts :
      (rounds start interval : ℕ) (last : GoError)
      → (start ≤ (retry_loop c s rounds start interval last).attempts)
        × ((retry_loop c s rounds start interval last).attempts ≤ start + rounds)
  unfolding retry_loop
  loop_attempts zero start interval last = omega arith
  loop_attempts (suc rounds) start interval last =
      ground
        (arith, loop_attempts rounds (start + 1) (next_interval c s start interval) (s.call start))

  -- Every call from `start` up to `n` has failed with a retryable error.
  abbrev pub Failed : ℕ → ℕ → Type 0
  Failed start zero = Unit
  Failed start (suc k) = (is_retryable_error (s.call start) ≡ true) × Failed (start + 1) k

  loop_success :
      (rounds start interval : ℕ) (last : GoError)
      → s.context_error ≢ nil_error
      → last ≢ nil_error
      → (retry_loop c s rounds start interval last).last_error ≡ nil_error
      → (k : ℕ) × (k < rounds)
        × Failed start k
        × (s.call (start + k) ≡ nil_error)
        × ((retry_loop c s rounds start interval last).attempts ≡ start + k + 1)
  unfolding retry_loop
  loop_success zero start interval last ctx ne e = absurd (ne e)
  loop_success (suc rounds) start interval last ctx ne e =
      elim (Bool-cases (ltb 0 interval && s.is_cancelled start)) [
        | inl cut ↦ absurd (ctx (rw cut at e))
        | inr live ↦ elim (Bool-cases (is_nil (s.call start))) [
          | inl done ↦ (
            0,
            omega arith,
            tt,
            rw add-zero (is_nil-eq (s.call start) done),
            rw (live, done) (omega arith),
          )
          | inr failed ↦ elim (Bool-cases (is_retryable_error (s.call start))) [
            | inl again ↦
                let (k, lt, f, hit, count) =
                  loop_success rounds (start + 1) (next_interval c s start interval) (s.call start)
                    ctx (ne_of_not_nil (s.call start) failed) (rw (live, failed, again) at e) in
                (
                  suc k,
                  omega arith,
                  (again, f),
                  rw (shift start k) hit,
                  rw (live, failed, again) (count ∙ omega arith),
                )
            | inr final ↦
                absurd (ne_of_not_nil (s.call start) failed (rw (live, failed, final) at e))
          ]
        ]
      ]

-- A call that succeeds, or fails for good, ends the run: if every call before it failed with a
-- retryable error and no wait was cut off, the run reports that many attempts and its outcome.
pub retry_with_backoff-stop :
    (c : RetryConfig) (s : Surroundings) (k : ℕ)
    → k < max_attempts c.max_retries
    → Goes c s 0 k
    → is_retryable_error (s.call k) ≡ false
    → ((retry_with_backoff c s).attempts ≡ k + 1) × ((retry_with_backoff c s).last_error ≡ s.call k)
unfolding retry_with_backoff
retry_with_backoff-stop c s k lt g stop =
    loop_stop c s (max_attempts c.max_retries) k 0 k 0 nil_error (omega arith) lt g stop

-- If all allowed calls fail with retryable errors and no wait is cut off, the run makes exactly as
-- many as it may and reports the last error.
pub retry_with_backoff-exhausted :
    (c : RetryConfig) (s : Surroundings) (k : ℕ)
    → max_attempts c.max_retries ≡ suc k
    → Goes c s 0 k
    → is_retryable_error (s.call k) ≡ true
    → ((retry_with_backoff c s).attempts ≡ max_attempts c.max_retries)
      × ((retry_with_backoff c s).last_error ≡ s.call k)
unfolding retry_with_backoff
retry_with_backoff-exhausted c s k m g again =
    let (count, err) = loop_exhaust c s k 0 k 0 nil_error (omega arith) g again in
    rw m (count ∙ omega arith, err)

max_attempts-suc : (n : ℤ) → (m : ℕ) × (max_attempts n ≡ suc m)
max_attempts-suc (pos n) = (n, omega arith)
max_attempts-suc (negsuc n) = (999, refl)

first_attempt :
    (c : RetryConfig) (s : Surroundings) (m : ℕ)
    → 1 ≤ (retry_loop c s (suc m) 0 0 nil_error).attempts
unfolding retry_loop
first_attempt c s m = ground (arith, loop_attempts c s m 1 (next_interval c s 0 0) (s.call 0))

-- Nothing of the first round reads the last error.
loop-last :
    (c : RetryConfig) (s : Surroundings) (m : ℕ) (e : GoError)
    → retry_loop c s (suc m) 0 0 nil_error ≡ retry_loop c s (suc m) 0 0 e
unfolding retry_loop
loop-last c s m e = refl

-- Whatever happens, at least one call is made and at most `MaxRetries + 1`, a negative
-- `MaxRetries` counting as 999.
pub retry_with_backoff_attempts :
    (c : RetryConfig) (s : Surroundings)
    → (1 ≤ (retry_with_backoff c s).attempts)
      × ((retry_with_backoff c s).attempts ≤ max_attempts c.max_retries)
unfolding retry_with_backoff
retry_with_backoff_attempts c s =
    let (m, e) = max_attempts-suc c.max_retries in
    let (low, high) = loop_attempts c s (max_attempts c.max_retries) 0 0 nil_error in
    (rw e (first_attempt c s m), omega arith)

-- If the context's error is not nil, a run that reports no error is one whose last call succeeded
-- after retryable failures only, within the attempts that are allowed.
pub retry_with_backoff-success :
    (c : RetryConfig) (s : Surroundings)
    → s.context_error ≢ nil_error
    → (retry_with_backoff c s).last_error ≡ nil_error
    → (k : ℕ) × (k < max_attempts c.max_retries)
      × Failed c s 0 k
      × (s.call k ≡ nil_error)
      × ((retry_with_backoff c s).attempts ≡ k + 1)
unfolding retry_with_backoff
retry_with_backoff-success c s ctx e =
    let (m, h) = max_attempts-suc c.max_retries in
    let (k, lt, f, hit, count) =
      loop_success c s (suc m) 0 0 s.context_error ctx ctx
        (rw (← loop-last c s m s.context_error) (rw h at e)) in
    (
      k,
      omega arith,
      f,
      rw zero-add at hit,
      rw (h, loop-last c s m s.context_error) (count ∙ omega arith),
    )
