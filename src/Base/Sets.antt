-- ===== src/Base/Sets.antt =====
-- Go's `map[string]bool` as the list of its keys, and sort.Strings. Texts are ordered by their
-- numbers, as Go orders strings by their bytes.
use mathlib.Core.Path.{◌≡◌, refl, sym, ◌∙◌}
use mathlib.Core.Logic.{inl, inr}
use mathlib.Core.Bool.{Bool, true, false, not, ◌&&◌, ◌||◌}
use mathlib.Core.List.{List, [], ◌∷◌}
use native.Mathlib.Omega.{arith}
use db_provision_operator.Base.Tests.{ltb, ◌==◌, if◌then◌else◌, Bool-cases}
use db_provision_operator.Base.Lists.{some_of}
use db_provision_operator.Base.Counts.{filter}
use db_provision_operator.Base.Strings.{Text, same_text, same_text_refl, same_text-eq}

-- the lookup `set[x]`
unfoldable pub member : Text → List Text → Bool
member x xs = some_of (same_text x) xs

-- each key once
unfoldable pub keys : List Text → List Text
keys [] = []
keys (x ∷ xs) = let rest = keys xs in if member x rest then rest else x ∷ rest

-- Go's `<` on two strings
unfoldable pub text_ltb : Text → Text → Bool
text_ltb s [] = false
text_ltb [] (d ∷ t) = true
text_ltb (c ∷ s) (d ∷ t) = let rest = text_ltb s t in if c == d then rest else ltb c d

unfoldable pub insert_text : Text → List Text → List Text
insert_text x [] = x ∷ []
insert_text x (y ∷ ys) =
    let rest = insert_text x ys in if text_ltb y x then y ∷ rest else x ∷ y ∷ ys

-- sort.Strings
unfoldable pub sort_strings : List Text → List Text
sort_strings [] = []
sort_strings (x ∷ xs) = insert_text x (sort_strings xs)

-- the elements that a set does not have
unfoldable pub outside : List Text → List Text → List Text
outside set xs = filter (λ x. not (member x set)) xs

pub same_text_sym : (s t : Text) → same_text s t ≡ same_text t s
same_text_sym s t = elim (Bool-cases (same_text s t)) [
  | inl h ↦ let e : s ≡ t = same_text-eq s t h in cc
  | inr h ↦ elim (Bool-cases (same_text t s)) [
    | inl k ↦ let e : t ≡ s = same_text-eq t s k in cc
    | inr k ↦ cc
  ]
]

pub member_cons : (y x : Text) (xs : List Text) → member y (x ∷ xs) ≡ (same_text y x || member y xs)
unfolding member
member_cons y x xs = refl

pub member_nil : (x : Text) → member x [] ≡ false
unfolding member
member_nil x = refl

pub member_self : (x : Text) (xs : List Text) → member x (x ∷ xs) ≡ true
member_self x xs = ground (arith, member_cons x x xs, same_text_refl x)

-- A key that is listed already changes nothing.
pub member_same :
    (y x : Text) (xs : List Text)
    → member x xs ≡ true
    → (same_text y x || member y xs) ≡ member y xs
member_same y x xs h = elim (Bool-cases (same_text y x)) [
  | inl s ↦ let e : y ≡ x = same_text-eq y x s in rw e (rw h (rw (same_text_refl x) refl))
  | inr s ↦ rw s refl
]

pub member-keys : (y : Text) (xs : List Text) → member y (keys xs) ≡ member y xs
unfolding keys
member-keys y [] = refl
member-keys y (x ∷ xs) = elim (Bool-cases (member x (keys xs))) [
  | inl h ↦
      rw h
        (sym (member_same y x (keys xs) h) ∙ (ground (arith, member-keys y xs, member_cons y x xs)))
  | inr h ↦ rw h (ground (arith, member-keys y xs, member_cons y x xs, member_cons y x (keys xs)))
]

pub member-insert_text :
    (y x : Text) (xs : List Text) → member y (insert_text x xs) ≡ (same_text y x || member y xs)
unfolding insert_text
member-insert_text y x [] = member_cons y x []
member-insert_text y x (z ∷ zs) = elim (Bool-cases (text_ltb z x)) [
  | inl h ↦ rw h (
      ground
        (arith, member_cons y z (insert_text x zs), member_cons y z zs, member-insert_text y x zs))
  | inr h ↦ rw h (member_cons y x (z ∷ zs))
]

pub member-sort_strings : (y : Text) (xs : List Text) → member y (sort_strings xs) ≡ member y xs
unfolding sort_strings
member-sort_strings y [] = refl
member-sort_strings y (x ∷ xs) =
    ground (
      arith,
      member-insert_text y x (sort_strings xs),
      member_cons y x xs,
      member-sort_strings y xs,
    )

pub member-outside :
    (y : Text) (set xs : List Text)
    → member y (outside set xs) ≡ (member y xs && not (member y set))
unfolding outside
member-outside y set [] = unfold member in refl
member-outside y set (x ∷ xs) = elim (Bool-cases (member x set)) [
  | inl h ↦ rw h (elim (Bool-cases (same_text y x)) [
    | inl s ↦
        let e : y ≡ x = same_text-eq y x s in
        let k : member y set ≡ true = rw e h in ground (arith, member-outside y set xs)
    | inr s ↦ ground (arith, member-outside y set xs, member_cons y x xs)
  ])
  | inr h ↦ rw h (elim (Bool-cases (same_text y x)) [
    | inl s ↦
        let e : y ≡ x = same_text-eq y x s in
        let k : member y set ≡ false = rw e h in
        ground
          (arith, member-outside y set xs, member_cons y x xs, member_cons y x (outside set xs))
    | inr s ↦
        ground
          (arith, member-outside y set xs, member_cons y x xs, member_cons y x (outside set xs))
  ])
]
