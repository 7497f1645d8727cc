-- ===== src/Drift/Grants/Detected.antt =====
-- internal/service/drift/grant.go: when a detection of a PostgreSQL grant's drift finds nothing.
use db_provision_operator.Drift.Memberships.Agreement.{
  SameNames, detect_role_membership_drift-none, Within, Within-SameNames,
}
use db_provision_operator.Base.{
  Bool-cases, List, Option, Text, [], append-nil, arith, codes, inl, inr, map, member, member_cons,
  member_self, none, refl, same_text, same_text-eq, some, sym, true, ◌↔◌, ◌∙◌, ◌∷◌, ◌≡◌, member_nil,
  All,
}
use db_provision_operator.Drift.{Diff}
use db_provision_operator.Drift.Grants.{
  check_found, grant_field, privileges_outside, upper, PostgresGrant, PostgresGrantConfig,
  build_grant_key, check_object_grant, check_objects, detect_each,
  detect_postgres_direct_grant_drift, detect_postgres_grant_drift, last_privileges, lower,
  postgres_key,
}
use db_provision_operator.Drift.Memberships.{
  add_extra, add_missing, actual_roles, detect_role_membership_drift,
}
use db_provision_operator.Drift.Adapter.{GrantInfo}
use db_provision_operator.Drift.Memberships.Appending.{
  Appends, Appends-then, add_extra-Appends, add_extra-none, add_missing-Appends, add_missing-none,
  iff_pair, iff_then, then_none,
}

check_found-Appends :
    (kind name : Text) (expected : List Text) (found : Option (List Text))
    → Appends (check_found kind name expected found)
unfolding check_found
check_found-Appends kind name expected none diffs = refl
check_found-Appends kind name expected (some actual) diffs =
    Appends-then
      (add_extra (grant_field kind name (codes ".extra")) (privileges_outside expected actual))
      (add_missing (grant_field kind name (codes ".missing")) (privileges_outside actual expected))
      (add_extra-Appends (grant_field kind name (codes ".extra"))
        (privileges_outside expected actual))
      (add_missing-Appends (grant_field kind name (codes ".missing"))
        (privileges_outside actual expected))
      diffs

member-map :
    (f : Text → Text) (x : Text) (xs : List Text)
    → member x xs ≡ true
    → member (f x) (map f xs) ≡ true
member-map f x [] h = absurd (ground (arith, member_nil x))
member-map f x (y ∷ ys) h = elim (Bool-cases (same_text x y)) [
  | inl s ↦ let e : x ≡ y = same_text-eq x y s in rw e (member_self (f y) (map f ys))
  | inr s ↦
      ground (arith, member-map f x ys, member_cons x y ys, member_cons (f x) (f y) (map f ys))
]

-- The filter is empty exactly when the set has every privilege, in upper case.
privileges_outside-none :
    (set privileges : List Text)
    → (privileges_outside set privileges ≡ []) ↔ Within (map upper privileges) (map upper set)
unfolding privileges_outside
privileges_outside-none set [] = (λ e. λ z m. absurd (ground (arith, member_nil z)), λ w. refl)
privileges_outside-none set (p ∷ ps) =
    let ih = privileges_outside-none set ps in
    elim (Bool-cases (member (upper p) (map upper set))) [
      | inl h ↦ rw h (
        λ e. λ z m. elim (Bool-cases (same_text z (upper p))) [
          | inl s ↦ let q : z ≡ upper p = same_text-eq z (upper p) s in rw q h
          | inr s ↦ ih.0 e z (ground (arith, member_cons z (upper p) (map upper ps)))
        ],
        λ w. ih.1 (λ z m. w z (ground (arith, member_cons z (upper p) (map upper ps)))),
      )
      | inr h ↦ rw h (
        λ e. absurd (cc),
        λ w. absurd (ground (arith, w (upper p) (member_self (upper p) (map upper ps)))),
      )
    ]

-- The object has a row whose privileges are the given ones up to case.
abbrev pub Holds : List Text → Option (List Text) → Type 0
Holds expected none = ⊥
Holds expected (some actual) = SameNames (map upper expected) (map upper actual)

check_found-none :
    (kind name : Text) (expected : List Text) (found : Option (List Text))
    → (check_found kind name expected found [] ≡ []) ↔ Holds expected found
unfolding check_found
check_found-none kind name expected none = (λ e. absurd (cc), λ h. absurd h)
check_found-none kind name expected (some actual) =
    let more = grant_field kind name (codes ".extra") in
    let less = grant_field kind name (codes ".missing") in
    let both =
      then_none (add_extra more (privileges_outside expected actual))
        (add_missing less (privileges_outside actual expected))
        (add_extra-Appends more (privileges_outside expected actual)) in
    (
      λ e.
          Within-SameNames (map upper expected) (map upper actual)
            ((privileges_outside-none actual expected).0
              ((add_missing-none less (privileges_outside actual expected)).0 ((both.0 e).0)))
            ((privileges_outside-none expected actual).0
              ((add_extra-none more (privileges_outside expected actual)).0 ((both.0 e).1))),
      λ s. both.1 (
        (add_missing-none less (privileges_outside actual expected)).1
            ((privileges_outside-none actual expected).1 (λ z m. sym (s z) ∙ m)),
        (add_extra-none more (privileges_outside expected actual)).1
            ((privileges_outside-none expected actual).1 (λ z m. s z ∙ m)),
      ),
    )

-- The row of an object of a PostgreSQL grant holds the grant's privileges.
abbrev pub Granted : PostgresGrant → Text → List GrantInfo → Text → Type 0
Granted grant object_type actual_grants name = Holds grant.privileges (
    last_privileges postgres_key actual_grants
      (build_grant_key grant.database grant.schema object_type name))

abbrev pub AllGranted : List GrantInfo → PostgresGrant → Type 0
AllGranted actual_grants grant =
    (All (Granted grant (codes "TABLE") actual_grants) grant.tables
      × All (Granted grant (codes "SEQUENCE") actual_grants) grant.sequences)
    × All (Granted grant (codes "FUNCTION") actual_grants) grant.functions

module _ (grant : PostgresGrant) (object_type : Text) (actual_grants : List GrantInfo) where
  abbrev one : Text → List Diff → List Diff
  one name diffs =
      check_object_grant grant.database grant.schema object_type name grant.privileges actual_grants
        diffs

  one-Appends : (name : Text) → Appends (one name)
  unfolding check_object_grant
  one-Appends name = check_found-Appends (lower object_type) name grant.privileges (
      last_privileges postgres_key actual_grants
        (build_grant_key grant.database grant.schema object_type name))

  one-none : (name : Text) → (one name [] ≡ []) ↔ Granted grant object_type actual_grants name
  unfolding check_object_grant
  one-none name = check_found-none (lower object_type) name grant.privileges (
      last_privileges postgres_key actual_grants
        (build_grant_key grant.database grant.schema object_type name))

  check_objects-Appends :
      (names : List Text) → Appends (check_objects grant object_type actual_grants names)
  unfolding check_objects
  check_objects-Appends [] diffs = sym (append-nil diffs)
  check_objects-Appends (name ∷ names) diffs =
      Appends-then (check_objects grant object_type actual_grants names) (one name)
        (check_objects-Appends names) (one-Appends name) diffs

  check_objects-none :
      (names : List Text)
      → (check_objects grant object_type actual_grants names [] ≡ [])
        ↔ All (Granted grant object_type actual_grants) names
  unfolding check_objects
  check_objects-none [] = (λ e. tt, λ h. refl)
  check_objects-none (name ∷ names) =
      iff_then
        (then_none (check_objects grant object_type actual_grants names) (one name)
          (check_objects-Appends names))
        (iff_pair (one-none name) (check_objects-none names))

module _ (actual_grants : List GrantInfo) where
  direct-Appends :
      (g : PostgresGrant) → Appends (detect_postgres_direct_grant_drift g actual_grants)
  unfolding detect_postgres_direct_grant_drift
  direct-Appends g =
      Appends-then (check_objects g (codes "FUNCTION") actual_grants g.functions)
        (λ diffs.
          check_objects g (codes "SEQUENCE") actual_grants g.sequences
            (check_objects g (codes "TABLE") actual_grants g.tables diffs))
        (check_objects-Appends g (codes "FUNCTION") actual_grants g.functions)
        (Appends-then (check_objects g (codes "SEQUENCE") actual_grants g.sequences)
          (check_objects g (codes "TABLE") actual_grants g.tables)
          (check_objects-Appends g (codes "SEQUENCE") actual_grants g.sequences)
          (check_objects-Appends g (codes "TABLE") actual_grants g.tables))

  direct-none :
      (g : PostgresGrant)
      → (detect_postgres_direct_grant_drift g actual_grants [] ≡ []) ↔ AllGranted actual_grants g
  unfolding detect_postgres_direct_grant_drift
  direct-none g =
      let inner =
        iff_then
          (then_none (check_objects g (codes "SEQUENCE") actual_grants g.sequences)
            (check_objects g (codes "TABLE") actual_grants g.tables)
            (check_objects-Appends g (codes "SEQUENCE") actual_grants g.sequences))
          (iff_pair (check_objects-none g (codes "TABLE") actual_grants g.tables)
            (check_objects-none g (codes "SEQUENCE") actual_grants g.sequences)) in
      iff_then
        (then_none (check_objects g (codes "FUNCTION") actual_grants g.functions)
          (λ diffs.
            check_objects g (codes "SEQUENCE") actual_grants g.sequences
              (check_objects g (codes "TABLE") actual_grants g.tables diffs))
          (check_objects-Appends g (codes "FUNCTION") actual_grants g.functions))
        (iff_pair inner (check_objects-none g (codes "FUNCTION") actual_grants g.functions))

  detect_each-Appends :
      (gs : List PostgresGrant)
      → Appends (detect_each detect_postgres_direct_grant_drift gs actual_grants)
  unfolding detect_each
  detect_each-Appends [] diffs = sym (append-nil diffs)
  detect_each-Appends (g ∷ gs) diffs =
      Appends-then (detect_each detect_postgres_direct_grant_drift gs actual_grants)
        (detect_postgres_direct_grant_drift g actual_grants) (detect_each-Appends gs)
        (direct-Appends g) diffs

  detect_each-none :
      (gs : List PostgresGrant)
      → (detect_each detect_postgres_direct_grant_drift gs actual_grants [] ≡ [])
        ↔ All (AllGranted actual_grants) gs
  unfolding detect_each
  detect_each-none [] = (λ e. tt, λ h. refl)
  detect_each-none (g ∷ gs) =
      iff_then
        (then_none (detect_each detect_postgres_direct_grant_drift gs actual_grants)
          (detect_postgres_direct_grant_drift g actual_grants) (detect_each-Appends gs))
        (iff_pair (direct-none g) (detect_each-none gs))

  -- A detection finds no drift of a PostgreSQL grant exactly when the grantee's roles are those of
  -- the resource, and every table, sequence and function of its grants is listed and the last entry
  -- of its key has exactly the grant's privileges, up to case.
  pub detect_postgres_grant_drift-none :
      (c : PostgresGrantConfig)
      → (detect_postgres_grant_drift (some c) actual_grants [] ≡ [])
        ↔ (SameNames c.roles (actual_roles actual_grants) × All (AllGranted actual_grants) c.grants)
  unfolding detect_postgres_grant_drift
  detect_postgres_grant_drift-none c =
      iff_then
        (then_none (detect_each detect_postgres_direct_grant_drift c.grants actual_grants)
          (detect_role_membership_drift c.roles actual_grants) (detect_each-Appends c.grants))
        (iff_pair (detect_role_membership_drift-none c.roles actual_grants)
          (detect_each-none c.grants))
