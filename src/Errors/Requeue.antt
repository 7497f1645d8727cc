-- ===== src/Errors/Requeue.antt =====
-- reconcileutil/requeue.go: after how long a reconcile comes back, by the errors of the chain.
use db_provision_operator.Base.{
  Bool-cases, Text, arith, inl, inr, refl, true, false, Bool, ℕ, ◌≡◌, ◌⊎◌,
}
use db_provision_operator.Base.Int.{ℤ}
use db_provision_operator.Errors.{
  GoError, chain_any, classify_error, classify_requeue, connection_error, err_connection_failed,
  err_timeout, is_connection, is_connection_failed_error, is_nil, is_retryable_error,
  is_timeout_error, is_timeout_sentinel, nil_error, sentinel, timeout_error,
}
use db_provision_operator.Errors.Chain.{Cause, Cause-chain_any, chain_any-Found}
use db_provision_operator.Errors.Classes.{
  Cause-IsTested, HasPermanentCause, IsTested, IsTested-permanent, permanent-cause,
}

-- A server that cannot be reached, or does not answer in time.
pub data IsUnavailable : GoError → Type 0 where
  unconnected : IsUnavailable (sentinel err_connection_failed)
  connecting : (host : Text) (port : ℤ) (e : GoError) → IsUnavailable (connection_error host port e)
  late : IsUnavailable (sentinel err_timeout)
  timed_out : (op res after : Text) (e : GoError) → IsUnavailable (timeout_error op res after e)

abbrev pub IsUnreached : GoError → Type 0
IsUnreached e = (c : GoError) × Cause e c × IsUnavailable c

unconnected-IsUnavailable : (c : GoError) → is_connection_failed_error c ≡ true → IsUnavailable c
unconnected-IsUnavailable (sentinel err_connection_failed) h = unconnected
unconnected-IsUnavailable nil_error h = cc
unconnected-IsUnavailable _ h = cc

connecting-IsUnavailable : (c : GoError) → is_connection c ≡ true → IsUnavailable c
connecting-IsUnavailable (connection_error host port e) h = connecting host port e
connecting-IsUnavailable nil_error h = cc
connecting-IsUnavailable _ h = cc

late-IsUnavailable : (c : GoError) → is_timeout_sentinel c ≡ true → IsUnavailable c
late-IsUnavailable (sentinel err_timeout) h = late
late-IsUnavailable nil_error h = cc
late-IsUnavailable _ h = cc

timed_out-IsUnavailable : (c : GoError) → is_timeout_error c ≡ true → IsUnavailable c
timed_out-IsUnavailable (timeout_error op res after e) h = timed_out op res after e
timed_out-IsUnavailable nil_error h = cc
timed_out-IsUnavailable _ h = cc

-- one of the tests that the classification makes for it
abbrev IsMissed : GoError → Type 0
IsMissed e =
    (chain_any is_connection_failed_error e ≡ true)
    ⊎ ((chain_any is_connection e ≡ true)
        ⊎ ((chain_any is_timeout_sentinel e ≡ true) ⊎ (chain_any is_timeout_error e ≡ true)))

found :
    (p : GoError → Bool) (e : GoError)
    → ((c : GoError) → p c ≡ true → IsUnavailable c)
    → chain_any p e ≡ true
    → IsUnreached e
found p e k h = let (c, chain, hit) = chain_any-Found p e h in (c, chain, k c hit)

IsMissed-IsUnreached : (e : GoError) → IsMissed e → IsUnreached e
IsMissed-IsUnreached e (inl h) = found is_connection_failed_error e unconnected-IsUnavailable h
IsMissed-IsUnreached e (inr (inl h)) = found is_connection e connecting-IsUnavailable h
IsMissed-IsUnreached e (inr (inr (inl h))) = found is_timeout_sentinel e late-IsUnavailable h
IsMissed-IsUnreached e (inr (inr (inr h))) = found is_timeout_error e timed_out-IsUnavailable h

Cause-IsMissed : {e c : GoError} → Cause e c → IsUnavailable c → IsMissed e
Cause-IsMissed chain unconnected = inl (Cause-chain_any is_connection_failed_error chain refl)
Cause-IsMissed chain (connecting host port e) = inr (inl (Cause-chain_any is_connection chain refl))
Cause-IsMissed chain late = inr (inr (inl (Cause-chain_any is_timeout_sentinel chain refl)))
Cause-IsMissed chain (timed_out op res after e) =
    inr (inr (inr (Cause-chain_any is_timeout_error chain refl)))

-- The requeue time, by the tests.
waits_of_tests :
    (e : GoError)
    → is_nil e ≡ false
    → (IsTested e × ((classify_requeue e).0 ≡ 0))
      ⊎ (((IsTested e → ⊥)
            × (IsMissed e ⊎ (is_retryable_error e ≡ true))
            × ((classify_requeue e).0 ≡ 60))
          ⊎ ((IsTested e → ⊥)
              × (IsMissed e → ⊥)
              × (is_retryable_error e ≡ false)
              × ((classify_requeue e).0 ≡ 30)))
unfolding classify_requeue classify_error
waits_of_tests e n = ground arith

-- For good, 60 seconds where the server cannot be reached or the error may pass, or else 30 seconds.
abbrev pub Waits : GoError → ℕ → Type 0
Waits e seconds =
    (HasPermanentCause e × (seconds ≡ 0))
    ⊎ (((HasPermanentCause e → ⊥)
          × (IsUnreached e ⊎ (is_retryable_error e ≡ true))
          × (seconds ≡ 60))
        ⊎ ((HasPermanentCause e → ⊥)
            × (IsUnreached e → ⊥)
            × (is_retryable_error e ≡ false)
            × (seconds ≡ 30)))

untested : (e : GoError) → (IsTested e → ⊥) → HasPermanentCause e → ⊥
untested e not_tested (c, chain, p) = not_tested (Cause-IsTested chain p)

nil-Waits : Waits nil_error (classify_requeue nil_error).0
unfolding classify_requeue classify_error is_retryable_error chain_any
nil-Waits = inr (
    inr (
      untested nil_error (λ t. ground arith),
      λ u. let m = Cause-IsMissed u.1 u.2 in ground arith,
      refl,
      refl,
    ))

is_nil-eq : (e : GoError) → is_nil e ≡ true → e ≡ nil_error
is_nil-eq nil_error h = refl
is_nil-eq _ h = cc

reached :
    (e : GoError)
    → IsMissed e ⊎ (is_retryable_error e ≡ true)
    → IsUnreached e ⊎ (is_retryable_error e ≡ true)
reached e (inl m) = inl (IsMissed-IsUnreached e m)
reached e (inr r) = inr r

-- A requeue decision never hands an error to the controller. It is final exactly where some error of
-- the chain is permanent: a validation error, the unsupported engine or the resource that is there
-- already. Any other error comes back: after 60 seconds exactly where some error of the chain is a
-- failed connection or a timeout or the error counts as retryable, and after 30 seconds otherwise.
pub classify_requeue-Waits :
    (e : GoError) → ((classify_requeue e).1 ≡ nil_error) × Waits e (classify_requeue e).0
classify_requeue-Waits e = (
  unfold classify_requeue in ground arith,
  elim (Bool-cases (is_nil e)) [
    | inl n ↦ rw (is_nil-eq e n) nil-Waits
    | inr n ↦ elim (waits_of_tests e n) [
      | inl (t, k) ↦ inl (permanent-cause e (IsTested-permanent e n t), k)
      | inr (inl (t, m, k)) ↦ inr (inl (untested e t, reached e m, k))
      | inr (inr (t, m, r, k)) ↦ inr (inr (untested e t, λ u. m (Cause-IsMissed u.1 u.2), r, k))
    ]
  ],
)
