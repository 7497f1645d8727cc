-- ===== src/Base/Int.antt =====
-- Integers, and the decimal form that Go's %d prints.
use db_provision_operator.Base.Tests.{ltb, if◌then◌else◌}
use db_provision_operator.Base.Strings.{Text}
use Prim.Native.Nat.{ℕ, zero, suc, ◌+◌, ◌-◌, ◌/◌, ◌%◌, ◌^◌}
use mathlib.Core.List.{[], ◌∷◌}
use mathlib.Core.Bool.{Bool, true, false}

-- `negsuc n` is -(n + 1).
pub data ℤ : Type 0 where
  pos : ℕ → ℤ
  negsuc : ℕ → ℤ

-- The digits of `n`, most significant first; `suc n` rounds are enough, since each divides by ten.
unfoldable pub decimal_from : ℕ → ℕ → Text → Text
decimal_from zero n acc = acc
decimal_from (suc f) n acc =
    let rest = decimal_from f (n / 10) ((b'0' + n % 10) ∷ acc) in
    if ltb n 10 then (b'0' + n) ∷ acc else rest

unfoldable pub decimal : ℕ → Text
unfolding decimal_from
decimal n = decimal_from (suc n) n []

-- fmt.Sprintf("%d", n)
unfoldable pub print_int : ℤ → Text
unfolding decimal
print_int (pos n) = decimal n
print_int (negsuc n) = b'-' ∷ decimal (suc n)

abbrev pub is_zero : ℤ → Bool
is_zero (pos zero) = true
is_zero (pos (suc n)) = false
is_zero (negsuc n) = false

-- `a - b` of two natural numbers.
abbrev pub minus_nat : ℕ → ℕ → ℤ
minus_nat a b = if ltb a b then negsuc (b - suc a) else pos (a - b)

infixl 65 ◌+ℤ◌
abbrev pub ◌+ℤ◌ : ℤ → ℤ → ℤ
pos a +ℤ pos b = pos (a + b)
pos a +ℤ negsuc b = minus_nat a (suc b)
negsuc a +ℤ pos b = minus_nat b (suc a)
negsuc a +ℤ negsuc b = negsuc (suc (a + b))

abbrev pub negated : ℕ → ℤ
negated zero = pos zero
negated (suc n) = negsuc n

-- Go's quotient by a positive number, which rounds towards zero.
abbrev pub quotient : ℤ → ℕ → ℤ
quotient (pos a) n = pos (a / n)
quotient (negsuc a) n = negated (suc a / n)

-- The int64 of an integer.
abbrev pub wrap_int64 : ℤ → ℤ
wrap_int64 (pos a) = let r = a % 2 ^ 64 in if ltb r (2 ^ 63) then pos r else negsuc (2 ^ 64 - suc r)
wrap_int64 (negsuc a) =
    let r = a % 2 ^ 64 in if ltb r (2 ^ 63) then negsuc r else pos (2 ^ 64 - suc r)
