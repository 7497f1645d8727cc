-- ===== src/Base/Split.antt =====
-- strings.Split for a separator that is not empty, strings.HasSuffix, TrimPrefix and TrimSuffix.
use Prim.Native.Nat.{ℕ, zero, suc, ◌-◌}
use mathlib.Core.Path.{◌≡◌, refl, ap, ◌∙◌}
use mathlib.Core.Bool.{Bool, false}
use mathlib.Core.List.{List, [], ◌∷◌, ◌++◌, reverse}
use native.Mathlib.Omega.{arith}
use db_provision_operator.Base.Tests.{if◌then◌else◌}
use db_provision_operator.Base.Lists.{length, drop, take, All}
use db_provision_operator.Base.Strings.{Text, join, has_prefix, contains}

abbrev pub cons_head : ℕ → List Text → List Text
cons_head c [] = (c ∷ []) ∷ []
cons_head c (s ∷ ss) = (c ∷ s) ∷ ss

-- The first number counts what is left of a separator that has been found.
unfoldable pub split_from : Text → ℕ → Text → List Text
split_from sep n [] = [] ∷ []
split_from sep (suc n) (c ∷ s) = split_from sep n s
split_from sep zero (c ∷ s) =
    let tail = split_from sep zero s in
    let next = split_from sep (length sep - 1) s in
    if has_prefix (c ∷ s) sep then [] ∷ next else cons_head c tail

-- strings.Split
unfoldable pub split : Text → Text → List Text
unfolding split_from
split sep s = split_from sep zero s

-- strings.HasSuffix
unfoldable pub has_suffix : Text → Text → Bool
has_suffix s p = has_prefix (reverse s) (reverse p)

-- strings.TrimPrefix
unfoldable pub trim_prefix : Text → Text → Text
trim_prefix s p = if has_prefix s p then drop (length p) s else s

-- strings.TrimSuffix
unfoldable pub trim_suffix : Text → Text → Text
unfolding has_suffix
trim_suffix s p = if has_suffix s p then take (length s - length p) s else s

abbrev pub comma_space : Text
comma_space = b',' ∷ b' ' ∷ []

split_from-cons :
    (sep : Text) (c : ℕ) (s : Text)
    → has_prefix (c ∷ s) sep ≡ false
    → split_from sep zero (c ∷ s) ≡ cons_head c (split_from sep zero s)
unfolding split_from
split_from-cons sep c s h = rw h refl

-- Before a separator a text that does not contain it is taken whole.
split_from-before :
    (s rest : Text)
    → contains s comma_space ≡ false
    → split_from comma_space zero (s ++ (comma_space ++ rest))
      ≡ s ∷ split_from comma_space zero rest
split_from-before [] rest h = unfold split_from in refl
split_from-before (c ∷ []) rest h =
    split_from-cons comma_space c (comma_space ++ rest) (ground arith)
    ∙ ap (cons_head c) (split_from-before [] rest refl)
split_from-before (c ∷ d ∷ s) rest h =
    split_from-cons comma_space c (d ∷ s ++ (comma_space ++ rest)) (ground arith)
    ∙ ap (cons_head c) (split_from-before (d ∷ s) rest (ground arith))

split_from-last :
    (s : Text) → contains s comma_space ≡ false → split_from comma_space zero s ≡ s ∷ []
split_from-last [] h = unfold split_from in refl
split_from-last (c ∷ s) h =
    split_from-cons comma_space c s (ground arith)
    ∙ ap (cons_head c) (split_from-last s (ground arith))

-- Names that do not contain the separator are found again, as soon as there is one.
pub split-join :
    (x : Text) (xs : List Text)
    → All (λ s. contains s comma_space ≡ false) (x ∷ xs)
    → split comma_space (join comma_space (x ∷ xs)) ≡ x ∷ xs
unfolding split
split-join x [] (h, hs) = split_from-last x h
split-join x (y ∷ ys) (h, hs) =
    split_from-before x (join comma_space (y ∷ ys)) h ∙ ap (λ l. x ∷ l) (split-join y ys hs)
