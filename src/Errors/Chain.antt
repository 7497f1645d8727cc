-- ===== src/Errors/Chain.antt =====
-- The chain of wrapped errors as a relation, and the walks of errors.Is and errors.As along it.
use db_provision_operator.Base.{Bool, Text, false, inl, inr, refl, true, ◌++◌, ◌||◌, ◌≡◌, ◌⊎◌}
use db_provision_operator.Base.Int.{ℤ}
use db_provision_operator.Errors.{
  GoError, as_retryable, chain_any, connection_error, connection_prefix, database_error,
  database_prefix, error_text, foreign, is_nil, nil_error, retryable, sentinel, timeout_error,
  timeout_prefix, validation_error, wrapped,
}

-- `Cause e c`: unwrapping `e` some number of times gives `c`.
pub data Cause : GoError → GoError → Type 0 where
  here : {e : GoError} → Cause e e
  in_database : (op res : Text) {e c : GoError} → Cause e c → Cause (database_error op res e) c
  in_connection :
      (host : Text) (port : ℤ) {e c : GoError} → Cause e c → Cause (connection_error host port e) c
  in_timeout :
      (op res after : Text) {e c : GoError} → Cause e c → Cause (timeout_error op res after e) c
  in_wrapped : (prefix : Text) {e c : GoError} → Cause e c → Cause (wrapped prefix e) c

-- Some error of the chain passes the test.
abbrev pub Found : (GoError → Bool) → GoError → Type 0
Found p e = (c : GoError) × Cause e c × (p c ≡ true)

||-cases : (a b : Bool) → (a || b) ≡ true → (a ≡ true) ⊎ (b ≡ true)
||-cases true b h = inl refl
||-cases false b h = inr h

pub chain_any-Found : (p : GoError → Bool) (e : GoError) → chain_any p e ≡ true → Found p e
unfolding chain_any
chain_any-Found p (database_error op res e) h = elim (||-cases _ _ h) [
  | inl top ↦ (database_error op res e, here, top)
  | inr deep ↦ let (c, chain, hit) = chain_any-Found p e deep in (c, in_database op res chain, hit)
]
chain_any-Found p (connection_error host port e) h = elim (||-cases _ _ h) [
  | inl top ↦ (connection_error host port e, here, top)
  | inr deep ↦
      let (c, chain, hit) = chain_any-Found p e deep in (c, in_connection host port chain, hit)
]
chain_any-Found p (timeout_error op res after e) h = elim (||-cases _ _ h) [
  | inl top ↦ (timeout_error op res after e, here, top)
  | inr deep ↦
      let (c, chain, hit) = chain_any-Found p e deep in (c, in_timeout op res after chain, hit)
]
chain_any-Found p (wrapped prefix e) h = elim (||-cases _ _ h) [
  | inl top ↦ (wrapped prefix e, here, top)
  | inr deep ↦ let (c, chain, hit) = chain_any-Found p e deep in (c, in_wrapped prefix chain, hit)
]
chain_any-Found p nil_error h = (nil_error, here, h)
chain_any-Found p (sentinel s) h = (sentinel s, here, h)
chain_any-Found p (validation_error f m) h = (validation_error f m, here, h)
chain_any-Found p (foreign m) h = (foreign m, here, h)
chain_any-Found p (retryable v m) h = (retryable v m, here, h)

chain_any-top : (p : GoError → Bool) (e : GoError) → p e ≡ true → chain_any p e ≡ true
unfolding chain_any
chain_any-top p (database_error op res e) h = rw h refl
chain_any-top p (connection_error host port e) h = rw h refl
chain_any-top p (timeout_error op res after e) h = rw h refl
chain_any-top p (wrapped prefix e) h = rw h refl
chain_any-top p nil_error h = h
chain_any-top p (sentinel s) h = h
chain_any-top p (validation_error f m) h = h
chain_any-top p (foreign m) h = h
chain_any-top p (retryable v m) h = h

||-true : (b : Bool) → (b || true) ≡ true
||-true true = refl
||-true false = refl

pub Cause-chain_any :
    (p : GoError → Bool) {e c : GoError} → Cause e c → p c ≡ true → chain_any p e ≡ true
unfolding chain_any
Cause-chain_any p {e = e} here h = chain_any-top p e h
Cause-chain_any p (in_database op res chain) h = rw (Cause-chain_any p chain h) (||-true _)
Cause-chain_any p (in_connection host port chain) h = rw (Cause-chain_any p chain h) (||-true _)
Cause-chain_any p (in_timeout op res after chain) h = rw (Cause-chain_any p chain h) (||-true _)
Cause-chain_any p (in_wrapped prefix chain) h = rw (Cause-chain_any p chain h) (||-true _)

-- `Wraps w e`: `w` is one of the errors that wrap `e` directly.
pub data Wraps : GoError → GoError → Type 0 where
  by_database : (op res : Text) (e : GoError) → Wraps (database_error op res e) e
  by_connection : (host : Text) (port : ℤ) (e : GoError) → Wraps (connection_error host port e) e
  by_timeout : (op res after : Text) (e : GoError) → Wraps (timeout_error op res after e) e
  by_message : (prefix : Text) (e : GoError) → Wraps (wrapped prefix e) e

-- A wrapper keeps what the chain holds, the answer of a `RetryableError`, and the message.
pub Wraps-chain_any :
    (p : GoError → Bool) {w e : GoError} → Wraps w e → chain_any p e ≡ true → chain_any p w ≡ true
unfolding chain_any
Wraps-chain_any p (by_database op res e) h = rw h (||-true _)
Wraps-chain_any p (by_connection host port e) h = rw h (||-true _)
Wraps-chain_any p (by_timeout op res after e) h = rw h (||-true _)
Wraps-chain_any p (by_message prefix e) h = rw h (||-true _)

pub Wraps-as_retryable : {w e : GoError} → Wraps w e → as_retryable w ≡ as_retryable e
unfolding as_retryable
Wraps-as_retryable (by_database op res e) = refl
Wraps-as_retryable (by_connection host port e) = refl
Wraps-as_retryable (by_timeout op res after e) = refl
Wraps-as_retryable (by_message prefix e) = refl

pub Wraps-error_text :
    {w e : GoError} → Wraps w e → (prefix : Text) × (error_text w ≡ prefix ++ error_text e)
unfolding error_text
Wraps-error_text (by_database op res e) = (database_prefix op res, refl)
Wraps-error_text (by_connection host port e) = (connection_prefix host port, refl)
Wraps-error_text (by_timeout op res after e) = (timeout_prefix op res after, refl)
Wraps-error_text (by_message prefix e) = (prefix, refl)

pub Wraps-is_nil : {w e : GoError} → Wraps w e → is_nil w ≡ false
Wraps-is_nil (by_database op res e) = refl
Wraps-is_nil (by_connection host port e) = refl
Wraps-is_nil (by_timeout op res after e) = refl
Wraps-is_nil (by_message prefix e) = refl
