-- ===== src/Drift/Memberships/Agreement.antt =====
-- internal/service/drift/{user,grant}.go: when a comparison of role memberships finds nothing, and
-- what it depends on.
use db_provision_operator.Base.{
  Text, codes, List, [], ◌∷◌, true, false, keys, sort_strings, outside, member, member-keys,
  member-outside, member-sort_strings, member_self, sort_outside-eq, ◌≡◌, ◌↔◌, refl, sym, ◌∙◌, inl,
  inr, arith, Bool-cases, member_nil, not, ◌&&◌,
}
use db_provision_operator.Drift.{Diff}
use db_provision_operator.Drift.Adapter.{GrantInfo}
use db_provision_operator.Drift.Memberships.{
  add_missing, add_extra, difference, compare_role_memberships, actual_roles,
  detect_role_membership_drift,
}

-- `xs` has no name but those of `ys`.
abbrev pub Within : List Text → List Text → Type 0
Within xs ys = (z : Text) → member z xs ≡ true → member z ys ≡ true

abbrev pub SameNames : List Text → List Text → Type 0
SameNames xs ys = (z : Text) → member z xs ≡ member z ys

no_members : (xs : List Text) → ((z : Text) → member z xs ≡ false) → xs ≡ []
no_members [] h = refl
no_members (x ∷ xs) h = absurd (ground (arith, h x, member_self x xs))

pub sort_outside-none :
    (from xs : List Text) → (sort_strings (outside from xs) ≡ []) ↔ Within xs from
sort_outside-none from xs = (
  λ e. λ z m. elim (Bool-cases (member z from)) [
    | inl h ↦ h
    | inr h ↦
        let k : member z (sort_strings (outside from xs)) ≡ true =
          member-sort_strings z (outside from xs)
          ∙ (member-outside z from xs ∙ (rw m (rw h refl))) in
        let k2 : member z [] ≡ true = rw (sym e) k in absurd (ground (arith, member_nil z))
  ],
  λ w. no_members (sort_strings (outside from xs)) (λ z. elim (Bool-cases (member z xs)) [
    | inl h ↦
        ground (arith, member-sort_strings z (outside from xs), member-outside z from xs, w z h)
    | inr h ↦ ground (arith, member-sort_strings z (outside from xs), member-outside z from xs)
  ]),
)

pub difference-none : (xs from : List Text) → (difference xs from ≡ []) ↔ Within xs from
unfolding difference
difference-none xs from = (
  λ e. λ z m. (sort_outside-none from (keys xs)).0 e z (member-keys z xs ∙ m),
  λ w. (sort_outside-none from (keys xs)).1 (λ z m. w z (sym (member-keys z xs) ∙ m)),
)

-- What a set has beyond another depends on the names alone.
pub difference-eq :
    (e f g h : List Text)
    → ((z : Text) → (member z e && not (member z g)) ≡ (member z f && not (member z h)))
    → difference e g ≡ difference f h
unfolding difference
difference-eq e f g h p = sort_outside-eq e f g h p

added_none :
    (m x : Text) (missing extra : List Text)
    → (add_extra x extra (add_missing m missing []) ≡ []) ↔ ((missing ≡ []) × (extra ≡ []))
added_none m x [] [] = (λ e. (refl, refl), λ h. refl)
added_none m x [] (n ∷ ns) = (λ e. absurd (cc), λ h. absurd (cc))
added_none m x (n ∷ ns) [] = (λ e. absurd (cc), λ h. absurd (cc))
added_none m x (n ∷ ns) (k ∷ ks) = (λ e. absurd (cc), λ h. absurd (cc))

pub Within-SameNames : (xs ys : List Text) → Within xs ys → Within ys xs → SameNames xs ys
Within-SameNames xs ys f g z = elim (Bool-cases (member z xs)) [
  | inl h ↦ h ∙ sym (f z h)
  | inr h ↦ elim (Bool-cases (member z ys)) [
    | inl k ↦ absurd (ground (arith, g z k))
    | inr k ↦ h ∙ sym k
  ]
]

-- The comparison of the memberships of a user or a role finds nothing exactly when the two lists
-- have the same names, in whatever order and however often each.
pub compare_role_memberships-none :
    (expected actual : List Text)
    → (compare_role_memberships expected actual [] ≡ []) ↔ SameNames expected actual
unfolding compare_role_memberships
compare_role_memberships-none expected actual =
    let iff =
      added_none (codes "inRoles.missing") (codes "inRoles.extra") (difference expected actual)
        (difference actual expected) in
    (
      λ e.
          let both = iff.0 e in
          Within-SameNames expected actual ((difference-none expected actual).0 both.0)
            ((difference-none actual expected).0 both.1),
      λ s. iff.1 (
        (difference-none expected actual).1 (λ z m. sym (s z) ∙ m),
        (difference-none actual expected).1 (λ z m. s z ∙ m),
      ),
    )

-- The comparison of a grant's roles finds nothing exactly when the roles that the database lists
-- for the grantee are those of the resource.
pub detect_role_membership_drift-none :
    (expected : List Text) (grants : List GrantInfo)
    → (detect_role_membership_drift expected grants [] ≡ [])
      ↔ SameNames expected (actual_roles grants)
unfolding detect_role_membership_drift
detect_role_membership_drift-none expected grants =
    let actual = actual_roles grants in
    let iff =
      added_none (codes "roles.missing") (codes "roles.extra")
        (sort_strings (outside actual expected)) (difference actual expected) in
    (
      λ e.
          let both = iff.0 e in
          Within-SameNames expected actual ((sort_outside-none actual expected).0 both.0)
            ((difference-none actual expected).0 both.1),
      λ s. iff.1 (
        (sort_outside-none actual expected).1 (λ z m. sym (s z) ∙ m),
        (difference-none actual expected).1 (λ z m. s z ∙ m),
      ),
    )

-- What the comparison reports depends on the names alone: neither the order in which the two sides
-- list them nor a repetition changes a byte of it.
pub compare_role_memberships_names :
    (e f g h : List Text) (diffs : List Diff)
    → SameNames e f
    → SameNames g h
    → compare_role_memberships e g diffs ≡ compare_role_memberships f h diffs
unfolding compare_role_memberships difference
compare_role_memberships_names e f g h diffs p q =
    rw (sort_outside-eq e f g h (λ z. rw (p z) (rw (q z) refl)))
      (rw (sort_outside-eq g h e f (λ z. rw (p z) (rw (q z) refl))) refl)
