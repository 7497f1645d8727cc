-- ===== src/Base/Strings.antt =====
-- Text as the list of its code points, for the code that walks or assembles it; and the equality
-- of native texts, for the code that only compares them.
use Prim.Native.Nat.{ℕ}
use Prim.Native.Char.{code}
use Prim.Native.String.{String, ◌++◌ as text_append}
use mathlib.Core.Bool.{Bool, true, false, ◌&&◌, ◌||◌}
use mathlib.Core.List.{List, [], ◌∷◌, ◌++◌}
use text.Mathlib.Text.{◌==◌ as text_eq}
use db_provision_operator.Base.Tests.{◌==◌, ==_iff, &&-left, &&-right, Bool-cases}
use mathlib.Core.Path.{◌≡◌, refl}
use mathlib.Core.Logic.{◌≢◌, inl, inr}
use native.Mathlib.Omega.{arith}
use text.Mathlib.TextEquality.{eq_iff}

abbrev pub Text : Type 0
Text = List ℕ

abbrev pub codes : String → Text
codes String.[] = []
codes (String.◌∷◌ c s) = code c ∷ codes s

abbrev pub space : ℕ
space = 32

-- Go's `==` on two strings.
abbrev pub str_eq : String → String → Bool
str_eq s t = text_eq s t

-- Go's `+` on two strings.
abbrev pub append : String → String → String
append s t = text_append s t

abbrev pub is_empty {ℓ} : {A : Type ℓ} → List A → Bool
is_empty [] = true
is_empty (x ∷ xs) = false

-- Go's `==` on two strings held as code points.
abbrev pub same_text : Text → Text → Bool
same_text [] [] = true
same_text (c ∷ s) (d ∷ t) = (c == d) && same_text s t
same_text _ _ = false

-- strings.Join
abbrev pub join : Text → List Text → Text
join sep [] = []
join sep (s ∷ []) = s
join sep (s ∷ t ∷ rest) = s ++ (sep ++ join sep (t ∷ rest))

-- strings.HasPrefix
abbrev pub has_prefix : Text → Text → Bool
has_prefix s [] = true
has_prefix [] (d ∷ p) = false
has_prefix (c ∷ s) (d ∷ p) = (c == d) && has_prefix s p

-- strings.Contains
abbrev pub contains : Text → Text → Bool
contains [] p = has_prefix [] p
contains (c ∷ s) p = has_prefix (c ∷ s) p || contains s p

pub str_eq_refl : (t : String) → str_eq t t ≡ true
str_eq_refl t = (eq_iff t t).1 refl

pub str_eq-eq : (s t : String) → str_eq s t ≡ true → s ≡ t
str_eq-eq s t h = (eq_iff s t).0 h

pub str_eq-ne : (s t : String) → s ≢ t → str_eq s t ≡ false
str_eq-ne s t ne = elim (Bool-cases (str_eq s t)) [
  | inl h ↦ absurd (ne (str_eq-eq s t h))
  | inr h ↦ h
]

pub same_text_refl : (s : Text) → same_text s s ≡ true
same_text_refl [] = refl
same_text_refl (c ∷ s) = ground (arith, same_text_refl s)

pub same_text-eq : (s t : Text) → same_text s t ≡ true → s ≡ t
same_text-eq [] [] h = refl
same_text-eq [] (d ∷ t) h = absurd (ground arith)
same_text-eq (c ∷ s) [] h = absurd (ground arith)
same_text-eq (c ∷ s) (d ∷ t) h =
    let e : c ≡ d = (==_iff c d).0 (&&-left (c == d) (same_text s t) h) in
    let e' : s ≡ t = same_text-eq s t (&&-right (c == d) (same_text s t) h) in cc
