-- ===== src/Base/Counts.antt =====
-- Counting the elements of a list that pass a test, and the list of them.
use Prim.Native.Nat.{ℕ, zero, suc, ◌+◌, ◌≤◌}
use mathlib.Core.Path.{◌≡◌, refl}
use mathlib.Core.Bool.{Bool, true, ◌&&◌}
use mathlib.Core.List.{List, [], ◌∷◌, ◌++◌}
use native.Mathlib.Omega.{arith}
use db_provision_operator.Base.Tests.{if◌then◌else◌}
use db_provision_operator.Base.Lists.{length, take, drop}

module _ {ℓ} {A : Type ℓ} where
  abbrev pub filter : (A → Bool) → List A → List A
  filter p [] = []
  filter p (x ∷ xs) = let rest = filter p xs in if p x then x ∷ rest else rest

  abbrev pub count_if : (A → Bool) → List A → ℕ
  count_if p [] = 0
  count_if p (x ∷ xs) = if p x then suc (count_if p xs) else count_if p xs

  pub count_if-append :
      (p : A → Bool) (xs ys : List A) → count_if p (xs ++ ys) ≡ count_if p xs + count_if p ys
  count_if-append p [] ys = omega arith
  count_if-append p (x ∷ xs) ys = ground (arith, count_if-append p xs ys)

  pub count_if-take-drop :
      (p : A → Bool) (n : ℕ) (xs : List A)
      → count_if p (take n xs) + count_if p (drop n xs) ≡ count_if p xs
  count_if-take-drop p zero xs = omega arith
  count_if-take-drop p (suc n) [] = omega arith
  count_if-take-drop p (suc n) (x ∷ xs) = ground (arith, count_if-take-drop p n xs)

  pub count_if-filter :
      (p q : A → Bool) (xs : List A) → count_if q (filter p xs) ≡ count_if (λ x. p x && q x) xs
  count_if-filter p q [] = refl
  count_if-filter p q (x ∷ xs) = ground (arith, count_if-filter p q xs)

  pub length-filter : (p : A → Bool) (xs : List A) → length (filter p xs) ≡ count_if p xs
  length-filter p [] = refl
  length-filter p (x ∷ xs) = ground (arith, length-filter p xs)

  pub count_if-length : (p : A → Bool) (xs : List A) → count_if p xs ≤ length xs
  count_if-length p [] = omega arith
  count_if-length p (x ∷ xs) = ground (arith, count_if-length p xs)

  pub count_if-cons :
      (p : A → Bool) (x : A) (xs : List A)
      → count_if p (x ∷ xs) ≡ count_if p (x ∷ []) + count_if p xs
  count_if-cons p x xs = ground arith

  pub count_if-true : (xs : List A) → count_if (λ x. true) xs ≡ length xs
  count_if-true [] = refl
  count_if-true (x ∷ xs) = omega (arith, count_if-true xs)

  pub count_if-and_true :
      (p : A → Bool) (xs : List A) → count_if (λ x. p x && true) xs ≡ count_if p xs
  count_if-and_true p [] = refl
  count_if-and_true p (x ∷ xs) = ground (arith, count_if-and_true p xs)
