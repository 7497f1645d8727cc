-- ===== src/Errors.antt =====
-- internal/service/errors.go, the error test of internal/util/retry.go and
-- internal/reconcileutil/requeue.go: the errors of the services and when a reconcile comes back.
pub mod Chain
pub mod Classes
pub mod Requeue
use db_provision_operator.Base.{
  ℕ, ◌+◌, Text, codes, List, [], ◌∷◌, ◌++◌, map, Bool, true, false, ◌&&◌, ◌||◌, Option, none, some,
  leb, ◌==◌, contains, some_of, if◌then◌else◌,
}
use db_provision_operator.Base.Int.{ℤ, print_int}

pub data Sentinel : Type 0 where
  err_not_found err_already_exists err_connection_failed err_not_ready : Sentinel
  err_unsupported_engine err_timeout : Sentinel

-- A Go `error`: the ones of the services with what they wrap, `fmt.Errorf("…: %w", err)`, an error
-- of another package, one that implements `RetryableError`, and nil.
pub data GoError : Type 0 where
  nil_error : GoError
  sentinel : Sentinel → GoError
  validation_error : Text → Text → GoError
  database_error : Text → Text → GoError → GoError
  connection_error : Text → ℤ → GoError → GoError
  timeout_error : Text → Text → Text → GoError → GoError
  wrapped : Text → GoError → GoError
  foreign : Text → GoError
  retryable : Bool → Text → GoError

abbrev pub sentinel_text : Sentinel → Text
sentinel_text err_not_found = codes "not found"
sentinel_text err_already_exists = codes "already exists"
sentinel_text err_connection_failed = codes "connection failed"
sentinel_text err_not_ready = codes "not ready"
sentinel_text err_unsupported_engine = codes "unsupported engine"
sentinel_text err_timeout = codes "operation timed out"

-- What each message says before the message of the wrapped error.
unfoldable pub database_prefix : Text → Text → Text
database_prefix op res =
    codes "database error during " ++ (op ++ (codes " on " ++ (res ++ codes ": ")))

unfoldable pub connection_prefix : Text → ℤ → Text
connection_prefix host port =
    codes "connection to " ++ (host ++ (codes ":" ++ (print_int port ++ codes " failed: ")))

unfoldable pub timeout_prefix : Text → Text → Text → Text
timeout_prefix op res after =
    codes "operation "
    ++ (op ++ (codes " on " ++ (res ++ (codes " timed out after " ++ (after ++ codes ": ")))))

-- `Error()`
unfoldable pub error_text : GoError → Text
unfolding database_prefix connection_prefix timeout_prefix
error_text nil_error = codes "<nil>"
error_text (sentinel s) = sentinel_text s
error_text (validation_error field message) =
    codes "validation error for " ++ (field ++ (codes ": " ++ message))
error_text (database_error op res e) = database_prefix op res ++ error_text e
error_text (connection_error host port e) = connection_prefix host port ++ error_text e
error_text (timeout_error op res after e) = timeout_prefix op res after ++ error_text e
error_text (wrapped prefix e) = prefix ++ error_text e
error_text (foreign message) = message
error_text (retryable v message) = message

-- The walk of errors.Is and errors.As along `Unwrap`.
unfoldable pub chain_any : (GoError → Bool) → GoError → Bool
chain_any p (database_error op res e) = p (database_error op res e) || chain_any p e
chain_any p (connection_error host port e) = p (connection_error host port e) || chain_any p e
chain_any p (timeout_error op res after e) = p (timeout_error op res after e) || chain_any p e
chain_any p (wrapped prefix e) = p (wrapped prefix e) || chain_any p e
chain_any p nil_error = p nil_error
chain_any p (sentinel s) = p (sentinel s)
chain_any p (validation_error field message) = p (validation_error field message)
chain_any p (foreign message) = p (foreign message)
chain_any p (retryable v message) = p (retryable v message)

abbrev pub is_unsupported_engine : GoError → Bool
is_unsupported_engine (sentinel err_unsupported_engine) = true
is_unsupported_engine _ = false

abbrev pub is_already_exists_error : GoError → Bool
is_already_exists_error (sentinel err_already_exists) = true
is_already_exists_error _ = false

abbrev pub is_connection_failed_error : GoError → Bool
is_connection_failed_error (sentinel err_connection_failed) = true
is_connection_failed_error _ = false

abbrev pub is_timeout_sentinel : GoError → Bool
is_timeout_sentinel (sentinel err_timeout) = true
is_timeout_sentinel _ = false

abbrev pub is_validation : GoError → Bool
is_validation (validation_error field message) = true
is_validation _ = false

abbrev pub is_connection : GoError → Bool
is_connection (connection_error host port e) = true
is_connection _ = false

abbrev pub is_timeout_error : GoError → Bool
is_timeout_error (timeout_error op res after e) = true
is_timeout_error _ = false

-- IsAlreadyExists, IsConnectionFailed, IsTimeout and IsValidationError
unfoldable pub is_already_exists : GoError → Bool
is_already_exists e = chain_any is_already_exists_error e

unfoldable pub is_connection_failed : GoError → Bool
is_connection_failed e = chain_any is_connection_failed_error e || chain_any is_connection e

unfoldable pub is_timeout : GoError → Bool
is_timeout e = chain_any is_timeout_sentinel e || chain_any is_timeout_error e

unfoldable pub is_validation_error : GoError → Bool
is_validation_error e = chain_any is_validation e

-- `errors.As(err, &retryable)`, and the answer of the error that it finds
unfoldable pub as_retryable : GoError → Option Bool
as_retryable (database_error op res e) = as_retryable e
as_retryable (connection_error host port e) = as_retryable e
as_retryable (timeout_error op res after e) = as_retryable e
as_retryable (wrapped prefix e) = as_retryable e
as_retryable (retryable v message) = some v
as_retryable _ = none

-- unicode.ToLower as far as it can make an ASCII letter: the ASCII letters, the Kelvin sign and the
-- dotted I. The patterns are ASCII, so no other character matters to them.
unfoldable pub to_lower : ℕ → ℕ
to_lower c =
    if leb b'A' c && leb c b'Z'
    then c + 32
    else if c == 0x212a
    then b'k'
    else if c == 0x130
    then b'i'
    else c

abbrev pub transient_patterns : List Text
transient_patterns = map codes (
    "connection refused" ∷ "connection reset" ∷ "no such host" ∷ "i/o timeout" ∷ "deadline exceeded"
    ∷ "temporary failure" ∷ "too many connections" ∷ "server is starting up"
    ∷ "the database system is starting up" ∷ "not currently accepting connections"
    ∷ "connection timed out" ∷ "network is unreachable" ∷ "no route to host" ∷ "broken pipe"
    ∷ "connection closed" ∷ "eof" ∷ "unavailable" ∷ "try again" ∷ [])

unfoldable pub has_transient_pattern : Text → Bool
unfolding to_lower
has_transient_pattern s = some_of (contains (map to_lower s)) transient_patterns

abbrev pub or_pattern : Option Bool → Text → Bool
or_pattern (some v) s = v
or_pattern none s = has_transient_pattern s

abbrev pub is_nil : GoError → Bool
is_nil nil_error = true
is_nil _ = false

-- util.IsRetryableError
unfoldable pub is_retryable_error : GoError → Bool
unfolding as_retryable error_text has_transient_pattern
is_retryable_error e = if is_nil e then false else or_pattern (as_retryable e) (error_text e)

pub data ErrorClass : Type 0 where
  transient connection permanent : ErrorClass

unfoldable pub classify_error : GoError → ErrorClass
unfolding is_validation_error is_already_exists is_connection_failed is_timeout
classify_error e =
    if is_nil e
    then transient
    else if is_validation_error e
    then permanent
    else if chain_any is_unsupported_engine e
    then permanent
    else if is_already_exists e
    then permanent
    else if is_connection_failed e
    then connection
    else if is_timeout e
    then connection
    else if is_retryable_error e
    then connection
    else transient

-- The seconds of `RequeueAfter` (0 is none) and the returned error.
unfoldable pub classify_requeue : GoError → ℕ × GoError
unfolding classify_error
classify_requeue e = elim (classify_error e) [
  | permanent ↦ (0, nil_error)
  | connection ↦ (60, nil_error)
  | transient ↦ (30, nil_error)
]
