-- ===== src/Base/Canonical.antt =====
-- The sorted keys of a set: the one list that has its members in order.
use mathlib.Core.Path.{◌≡◌, refl, sym, ◌∙◌}
use mathlib.Core.Logic.{inl, inr}
use mathlib.Core.Bool.{true, false, not, ◌&&◌}
use mathlib.Core.List.{List, [], ◌∷◌}
use native.Mathlib.Omega.{arith}
use db_provision_operator.Base.Tests.{Bool-cases}
use db_provision_operator.Base.Lists.{All, All-map}
use db_provision_operator.Base.Strings.{Text, same_text, same_text_refl, same_text-eq}
use db_provision_operator.Base.Sets.{
  member, keys, text_ltb, insert_text, sort_strings, outside, member_cons, same_text_sym,
  member-keys, member-sort_strings, member-outside,
}

text_ltb_irrefl : (s : Text) → text_ltb s s ≡ false
unfolding text_ltb
text_ltb_irrefl [] = refl
text_ltb_irrefl (c ∷ s) = ground (arith, text_ltb_irrefl s)

text_ltb_trans : (s t u : Text) → text_ltb s t ≡ true → text_ltb t u ≡ true → text_ltb s u ≡ true
unfolding text_ltb
text_ltb_trans s [] u h k = absurd (ground arith)
text_ltb_trans s (d ∷ t) [] h k = absurd (ground arith)
text_ltb_trans [] (d ∷ t) (e ∷ u) h k = refl
text_ltb_trans (c ∷ s) (d ∷ t) (e ∷ u) h k = ground (arith, text_ltb_trans s t u)

text_ltb_total : (s t : Text) → text_ltb s t ≡ false → text_ltb t s ≡ false → s ≡ t
unfolding text_ltb
text_ltb_total [] [] h k = refl
text_ltb_total [] (d ∷ t) h k = absurd (ground arith)
text_ltb_total (c ∷ s) [] h k = absurd (ground arith)
text_ltb_total (c ∷ s) (d ∷ t) h k =
    let e : c ≡ d = ground arith in
    let r : s ≡ t = text_ltb_total s t (ground arith) (ground arith) in cc

abbrev pub Below : Text → List Text → Type 0
Below x ys = All (λ y. text_ltb x y ≡ true) ys

abbrev pub StrictlySorted : List Text → Type 0
StrictlySorted [] = Unit
StrictlySorted (x ∷ xs) = Below x xs × StrictlySorted xs

abbrev pub NoRepeat : List Text → Type 0
NoRepeat [] = Unit
NoRepeat (x ∷ xs) = (member x xs ≡ false) × NoRepeat xs

Below-member : (x y : Text) (ys : List Text) → Below x ys → member y ys ≡ true → text_ltb x y ≡ true
Below-member x y [] b h = absurd (unfold member in (ground arith))
Below-member x y (z ∷ zs) (b, bs) h = elim (Bool-cases (same_text y z)) [
  | inl s ↦ let e : y ≡ z = same_text-eq y z s in cc
  | inr s ↦ Below-member x y zs bs (ground (arith, member_cons y z zs))
]

Below-insert_text :
    (y x : Text) (zs : List Text) → text_ltb y x ≡ true → Below y zs → Below y (insert_text x zs)
unfolding insert_text
Below-insert_text y x [] h b = (h, tt)
Below-insert_text y x (z ∷ zs) h (b, bs) = elim (Bool-cases (text_ltb z x)) [
  | inl s ↦ rw s (b, Below-insert_text y x zs h bs)
  | inr s ↦ rw s (h, (b, bs))
]

insert_text-StrictlySorted :
    (x : Text) (ys : List Text)
    → member x ys ≡ false
    → StrictlySorted ys
    → StrictlySorted (insert_text x ys)
unfolding insert_text
insert_text-StrictlySorted x [] h s = (tt, tt)
insert_text-StrictlySorted x (y ∷ ys) h (b, s) = elim (Bool-cases (text_ltb y x)) [
  | inl l ↦ rw l (
    Below-insert_text y x ys l b,
    insert_text-StrictlySorted x ys (ground (arith, member_cons x y ys)) s,
  )
  | inr l ↦
      let k : text_ltb x y ≡ true = elim (Bool-cases (text_ltb x y)) [
        | inl k ↦ k
        | inr k ↦
            let e : x ≡ y = text_ltb_total x y k l in
            let t : same_text x y ≡ true = rw e (same_text_refl y) in
            absurd (ground (arith, member_cons x y ys))
      ] in
      rw l (
        (
          k,
          All-map (λ z. text_ltb y z ≡ true) (λ z. text_ltb x z ≡ true)
              (λ z q. text_ltb_trans x y z k q) ys b,
        ),
        (b, s),
      )
]

sort_strings-StrictlySorted : (xs : List Text) → NoRepeat xs → StrictlySorted (sort_strings xs)
unfolding sort_strings
sort_strings-StrictlySorted [] n = tt
sort_strings-StrictlySorted (x ∷ xs) (h, n) =
    insert_text-StrictlySorted x (sort_strings xs) (member-sort_strings x xs ∙ h)
      (sort_strings-StrictlySorted xs n)

keys-NoRepeat : (xs : List Text) → NoRepeat (keys xs)
unfolding keys
keys-NoRepeat [] = tt
keys-NoRepeat (x ∷ xs) = elim (Bool-cases (member x (keys xs))) [
  | inl h ↦ rw h (keys-NoRepeat xs)
  | inr h ↦ rw h (h, keys-NoRepeat xs)
]

outside-NoRepeat : (set xs : List Text) → NoRepeat xs → NoRepeat (outside set xs)
unfolding outside
outside-NoRepeat set [] n = tt
outside-NoRepeat set (x ∷ xs) (h, n) = elim (Bool-cases (member x set)) [
  | inl k ↦ rw k (outside-NoRepeat set xs n)
  | inr k ↦
      let m : member x (outside set xs) ≡ false = ground (arith, member-outside x set xs) in
      rw k (m, outside-NoRepeat set xs n)
]

SameMembers-head :
    (x y : Text) (xs ys : List Text)
    → StrictlySorted (x ∷ xs)
    → StrictlySorted (y ∷ ys)
    → ((z : Text) → member z (x ∷ xs) ≡ member z (y ∷ ys))
    → x ≡ y
SameMembers-head x y xs ys (b, s) (c, t) same = elim (Bool-cases (same_text x y)) [
  | inl e ↦ same_text-eq x y e
  | inr e ↦
      let in_ys : member x ys ≡ true =
        ground (arith, same x, member_cons x x xs, member_cons x y ys, same_text_refl x) in
      let in_xs : member y xs ≡ true = ground (
        arith,
        same y,
        member_cons y y ys,
        member_cons y x xs,
        same_text_refl y,
        same_text_sym x y,
      ) in
      let up : text_ltb x x ≡ true =
        text_ltb_trans x y x (Below-member x y xs b in_xs) (Below-member y x ys c in_ys) in
      absurd (ground (arith, text_ltb_irrefl x))
]

-- The head of a strictly sorted list is not in its tail.
head-NoRepeat : (x : Text) (xs : List Text) → Below x xs → member x xs ≡ false
head-NoRepeat x xs b = elim (Bool-cases (member x xs)) [
  | inl h ↦ absurd (ground (arith, Below-member x x xs b h, text_ltb_irrefl x))
  | inr h ↦ h
]

pub StrictlySorted-eq :
    (xs ys : List Text)
    → StrictlySorted xs
    → StrictlySorted ys
    → ((z : Text) → member z xs ≡ member z ys)
    → xs ≡ ys
StrictlySorted-eq [] [] s t same = refl
StrictlySorted-eq [] (y ∷ ys) s t same =
    absurd (unfold member in (ground (arith, same y, same_text_refl y)))
StrictlySorted-eq (x ∷ xs) [] s t same =
    absurd (unfold member in (ground (arith, same x, same_text_refl x)))
StrictlySorted-eq (x ∷ xs) (y ∷ ys) (b, s) (c, t) same =
    let e : x ≡ y = SameMembers-head x y xs ys (b, s) (c, t) same in
    let r : xs ≡ ys = StrictlySorted-eq xs ys s t (λ z. elim (Bool-cases (same_text z x)) [
      | inl h ↦
          let zx : z ≡ x = same_text-eq z x h in
          let left : member z xs ≡ false = rw zx (head-NoRepeat x xs b) in
          let right : member z ys ≡ false = rw zx (rw e (head-NoRepeat y ys c)) in left ∙ sym right
      | inr h ↦
          let h2 : same_text z y ≡ false = cc in
          ground (arith, same z, member_cons z x xs, member_cons z y ys)
    ]) in
    cc

-- Which keys of one set are outside another depends on their members alone.
pub sort_outside-eq :
    (es fs gs bs : List Text)
    → ((z : Text) → (member z es && not (member z gs)) ≡ (member z fs && not (member z bs)))
    → sort_strings (outside gs (keys es)) ≡ sort_strings (outside bs (keys fs))
sort_outside-eq es fs gs bs p =
    StrictlySorted-eq (sort_strings (outside gs (keys es))) (sort_strings (outside bs (keys fs)))
      (sort_strings-StrictlySorted (outside gs (keys es))
        (outside-NoRepeat gs (keys es) (keys-NoRepeat es)))
      (sort_strings-StrictlySorted (outside bs (keys fs))
        (outside-NoRepeat bs (keys fs) (keys-NoRepeat fs)))
      (λ z. rw (member-sort_strings z (outside gs (keys es))) (
        rw (member-sort_strings z (outside bs (keys fs))) (
          rw (member-outside z gs (keys es)) (
            rw (member-outside z bs (keys fs))
              (rw (member-keys z es) (rw (member-keys z fs) (p z)))))))
