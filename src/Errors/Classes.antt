-- ===== src/Errors/Classes.antt =====
-- reconcileutil/requeue.go: which errors are permanent, and what wrapping does to the class.
use mathlib.Core.List.{map-append}
use db_provision_operator.Base.{
  Bool, Bool-cases, Text, inl, inr, ◌||◌, ◌≡◌, List, [], arith, contains, false, has_prefix, map,
  refl, some_of, true, ℕ, ◌++◌, ◌↔◌, ◌∷◌, ◌⊎◌, ◌≤◌, Option, if◌then◌else◌, none, some,
}
use db_provision_operator.Errors.{
  GoError, chain_any, classify_error, err_already_exists, err_unsupported_engine,
  is_already_exists_error, is_unsupported_engine, is_validation, permanent, sentinel,
  validation_error, ErrorClass, connection, has_transient_pattern, is_nil, nil_error, to_lower,
  transient, transient_patterns, is_connection, is_connection_failed_error, is_retryable_error,
  is_timeout_error, is_timeout_sentinel, as_retryable, error_text, or_pattern,
}
use db_provision_operator.Errors.Chain.{
  Cause, Cause-chain_any, chain_any-Found, here, in_connection, in_database, in_timeout, in_wrapped,
  Wraps, Wraps-chain_any, Wraps-is_nil, Wraps-as_retryable, Wraps-error_text,
}

-- What never succeeds on a retry: a validation error, an engine that is not supported, and a
-- resource that is there already.
pub data IsPermanent : GoError → Type 0 where
  invalid : (field message : Text) → IsPermanent (validation_error field message)
  unsupported : IsPermanent (sentinel err_unsupported_engine)
  exists : IsPermanent (sentinel err_already_exists)

validation-IsPermanent : (c : GoError) → is_validation c ≡ true → IsPermanent c
validation-IsPermanent (validation_error field message) h = invalid field message
validation-IsPermanent nil_error h = cc
validation-IsPermanent _ h = cc

unsupported-IsPermanent : (c : GoError) → is_unsupported_engine c ≡ true → IsPermanent c
unsupported-IsPermanent (sentinel err_unsupported_engine) h = unsupported
unsupported-IsPermanent nil_error h = cc
unsupported-IsPermanent _ h = cc

exists-IsPermanent : (c : GoError) → is_already_exists_error c ≡ true → IsPermanent c
exists-IsPermanent (sentinel err_already_exists) h = exists
exists-IsPermanent nil_error h = cc
exists-IsPermanent _ h = cc

abbrev pub IsTested : GoError → Type 0
IsTested e =
    (chain_any is_validation e ≡ true)
    ⊎ ((chain_any is_unsupported_engine e ≡ true) ⊎ (chain_any is_already_exists_error e ≡ true))

pub permanent-IsTested : (e : GoError) → classify_error e ≡ permanent → IsTested e
unfolding classify_error
permanent-IsTested e h = ground arith

pub IsTested-permanent :
    (e : GoError) → is_nil e ≡ false → IsTested e → classify_error e ≡ permanent
unfolding classify_error
IsTested-permanent e n h = ground arith

abbrev pub HasPermanentCause : GoError → Type 0
HasPermanentCause e = (c : GoError) × Cause e c × IsPermanent c

found :
    (p : GoError → Bool) (e : GoError)
    → ((c : GoError) → p c ≡ true → IsPermanent c)
    → chain_any p e ≡ true
    → HasPermanentCause e
found p e k h = let (c, chain, hit) = chain_any-Found p e h in (c, chain, k c hit)

pub permanent-cause : (e : GoError) → classify_error e ≡ permanent → HasPermanentCause e
permanent-cause e h = elim (permanent-IsTested e h) [
  | inl v ↦ found is_validation e validation-IsPermanent v
  | inr (inl u) ↦ found is_unsupported_engine e unsupported-IsPermanent u
  | inr (inr x) ↦ found is_already_exists_error e exists-IsPermanent x
]

nil-Cause : {e c : GoError} → is_nil e ≡ true → Cause e c → IsPermanent c → ⊥
nil-Cause h here (invalid f m) = cc
nil-Cause h here unsupported = cc
nil-Cause h here exists = cc
nil-Cause h (in_database op res chain) p = cc
nil-Cause h (in_connection host port chain) p = cc
nil-Cause h (in_timeout op res after chain) p = cc
nil-Cause h (in_wrapped prefix chain) p = cc

pub Cause-IsTested : {e c : GoError} → Cause e c → IsPermanent c → IsTested e
Cause-IsTested chain (invalid f m) = inl (Cause-chain_any is_validation chain refl)
Cause-IsTested chain unsupported = inr (inl (Cause-chain_any is_unsupported_engine chain refl))
Cause-IsTested chain exists = inr (inr (Cause-chain_any is_already_exists_error chain refl))

-- An error is permanent exactly when some error of its chain, itself included, is a validation
-- error, the unsupported engine or the resource that is there already.
pub classify_error-permanent_iff :
    (e : GoError) → (classify_error e ≡ permanent) ↔ ((c : GoError) × Cause e c × IsPermanent c)
classify_error-permanent_iff e = (
  permanent-cause e,
  λ h. elim (Bool-cases (is_nil e)) [
    | inl n ↦ absurd (nil-Cause n h.1 h.2)
    | inr n ↦ IsTested-permanent e n (Cause-IsTested h.1 h.2)
  ],
)

-- How long the class waits, as an order of the classes.
abbrev pub rank : ErrorClass → ℕ
rank transient = 0
rank connection = 1
rank permanent = 2

has_prefix-append : (s t p : Text) → has_prefix s p ≡ true → has_prefix (s ++ t) p ≡ true
has_prefix-append s t [] h = refl
has_prefix-append [] t (d ∷ p) h = cc
has_prefix-append (c ∷ s) t (d ∷ p) h = ground (arith, has_prefix-append s t p)

-- A longer message still contains the pattern.
contains-append : (x s p : Text) → contains s p ≡ true → contains (x ++ s) p ≡ true
contains-append [] s p h = h
contains-append (c ∷ x) s p h = rw (contains-append x s p h) (or-true _)
  where
    or-true : (b : Bool) → (b || true) ≡ true
    or-true true = refl
    or-true false = refl

some_of-contains :
    (x s : Text) (ps : List Text)
    → some_of (contains s) ps ≡ true
    → some_of (contains (x ++ s)) ps ≡ true
some_of-contains x s [] h = h
some_of-contains x s (p ∷ ps) h = ground (arith, contains-append x s p, some_of-contains x s ps)

has_transient_pattern-append :
    (x s : Text) → has_transient_pattern s ≡ true → has_transient_pattern (x ++ s) ≡ true
unfolding has_transient_pattern
has_transient_pattern-append x s h =
    rw (map-append to_lower x s)
      (some_of-contains (map to_lower x) (map to_lower s) transient_patterns h)

-- Each branch of the classification, by the facts that the wrapper keeps.
rank_mono :
    (w e : GoError)
    → is_nil w ≡ false
    → ((p : GoError → Bool) → chain_any p e ≡ true → chain_any p w ≡ true)
    → (is_retryable_error e ≡ true → is_retryable_error w ≡ true)
    → rank (classify_error e) ≤ rank (classify_error w)
unfolding classify_error
rank_mono w e n keeps retries = ground (
  arith,
  keeps is_validation,
  keeps is_unsupported_engine,
  keeps is_already_exists_error,
  keeps is_connection_failed_error,
  keeps is_connection,
  keeps is_timeout_sentinel,
  keeps is_timeout_error,
  retries,
)

or_pattern-append :
    (x s : Text) (o : Option Bool) → or_pattern o s ≡ true → or_pattern o (x ++ s) ≡ true
or_pattern-append x s none h = has_transient_pattern-append x s h
or_pattern-append x s (some v) h = h

else-true : (b v : Bool) → (if b then false else v) ≡ true → v ≡ true
else-true b v h = ground arith

Wraps-is_retryable_error :
    {w e : GoError} → Wraps w e → is_retryable_error e ≡ true → is_retryable_error w ≡ true
unfolding is_retryable_error
Wraps-is_retryable_error {w} {e} s h =
    let (prefix, text) = Wraps-error_text s in
    rw (Wraps-is_nil s, Wraps-as_retryable s, text)
      (or_pattern-append prefix (error_text e) (as_retryable e) (else-true (is_nil e) _ h))

-- Wrapping an error, in any of the four ways, never lowers its class: a permanent error stays
-- permanent, and one that waits as a connection error does not fall back to the short interval.
pub classify_error-Wraps :
    {w e : GoError} → Wraps w e → rank (classify_error e) ≤ rank (classify_error w)
classify_error-Wraps {w} {e} s =
    rank_mono w e (Wraps-is_nil s) (λ p. Wraps-chain_any p s) (Wraps-is_retryable_error s)
