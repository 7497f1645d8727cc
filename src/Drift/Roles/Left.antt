-- ===== src/Drift/Roles/Left.antt =====
-- internal/service/drift/role.go: which diffs of a role the detection behind a correction finds.
use mathlib.Core.Path.{subst}
use db_provision_operator.Base.{
  Bool, Bool-cases, List, Text, [], arith, codes, false, filter, if◌then◌else◌, inl, inr, not, refl,
  same_text, true, ◌||◌, ◌∷◌, ◌≡◌, ok, some, ℕ, ap, sym, ◌++◌, ◌∙◌,
}
use db_provision_operator.Drift.{
  Diff, DriftResult, correct_diffs, destructive_reason, new_correction_result,
}
use db_provision_operator.Drift.Adapter.{RoleInfo, DatabaseAdapter}
use db_provision_operator.Drift.Roles.{
  Attribute, PostgresRoleConfig, actual, attribute_diff, attribute_name, bypass_rls, create_db,
  create_role, inherit, login, replication, superuser, unequal, wanted, RoleSpec,
  detect_postgres_role_drift, detect_role_drift, correct_role_drift, grant_roles,
}
use db_provision_operator.Drift.Roles.Attributes.{
  attribute_diff_same, attribute_diffs, attributes, detected_split,
}
use db_provision_operator.Drift.Roles.Remaining.{
  due_among, is_due, TracksRole, run, after_attributes, allowed_diffs,
}
use db_provision_operator.Drift.Memberships.{add_extra, difference}
use db_provision_operator.Drift.Correction.{is_allowed, AllAnswered, apply_each, filter-append}
use db_provision_operator.Drift.Memberships.Granting.{
  compare_role_memberships_diffs, membership_diffs, memberships_left,
}
use db_provision_operator.Drift.Roles.Memberships.{
  SameAttributes, role_grants, run-extra, run-missing,
}
use db_provision_operator.Drift.Correction.Answered.{answered_parts, correct_diffs-settled}

-- A diff that a correction leaves: it was skipped, or asked for memberships to be taken away.
unfoldable pub is_left : Bool → Diff → Bool
is_left allow d = not (is_allowed allow d) || same_text d.field (codes "inRoles.extra")

due_among_all :
    (allow : Bool) (c : PostgresRoleConfig) (i : RoleInfo) (b : Attribute)
    → due_among allow c i attributes b ≡ is_due allow c i b
unfolding due_among
due_among_all allow c i login = ground arith
due_among_all allow c i inherit = ground arith
due_among_all allow c i create_db = ground arith
due_among_all allow c i create_role = ground arith
due_among_all allow c i superuser = ground arith
due_among_all allow c i replication = ground arith
due_among_all allow c i bypass_rls = ground arith

not_extra : (a : Attribute) → same_text (attribute_name a) (codes "inRoles.extra") ≡ false
not_extra login = refl
not_extra inherit = refl
not_extra create_db = refl
not_extra create_role = refl
not_extra superuser = refl
not_extra replication = refl
not_extra bypass_rls = refl

-- The state of the attributes behind a correction: those that were due are as wanted.
abbrev Corrected : Bool → PostgresRoleConfig → RoleInfo → RoleInfo → Type 0
Corrected allow c i j =
    (b : Attribute) → actual b j ≡ (if is_due allow c i b then wanted b c else actual b i)

left_attributes :
    (allow : Bool) (c : PostgresRoleConfig) (i j : RoleInfo) (rest : List Attribute)
    → Corrected allow c i j
    → attribute_diffs c j rest ≡ filter (is_left allow) (attribute_diffs c i rest)
unfolding attribute_diffs is_left
left_attributes allow c i j [] h = refl
left_attributes allow c i j (a ∷ rest) h =
    let ih = left_attributes allow c i j rest h in
    elim (Bool-cases (unequal (wanted a c) (actual a i))) [
      | inl u ↦ elim (Bool-cases (is_allowed allow (attribute_diff a c i))) [
        | inl k ↦
            let due : is_due allow c i a ≡ true = unfold is_due in (rw u (rw k refl)) in
            let now : actual a j ≡ wanted a c = ground (arith, h a) in
            let gone : unequal (wanted a c) (actual a j) ≡ false = rw now (ground arith) in
            rw u (rw gone (rw k (rw (not_extra a) ih)))
        | inr k ↦
            let due : is_due allow c i a ≡ false = unfold is_due in (rw u (rw k refl)) in
            let now : actual a j ≡ actual a i = ground (arith, h a) in
            let still : unequal (wanted a c) (actual a j) ≡ true = rw now u in
            rw u (rw still (rw k (let e = attribute_diff_same a c j i now in cc)))
      ]
      | inr u ↦
          let due : is_due allow c i a ≡ false = unfold is_due in (rw u refl) in
          let now : actual a j ≡ actual a i = ground (arith, h a) in
          let still : unequal (wanted a c) (actual a j) ≡ false = rw now u in rw u (rw still ih)
    ]

left_memberships :
    (allow : Bool) (missing extra : List Text)
    → filter (is_left allow) (membership_diffs missing extra)
      ≡ add_extra (codes "inRoles.extra") extra []
unfolding is_left is_allowed
left_memberships allow [] [] = refl
left_memberships false [] (k ∷ ks) = refl
left_memberships true [] (k ∷ ks) = refl
left_memberships allow (n ∷ ns) [] = refl
left_memberships false (n ∷ ns) (k ∷ ks) = refl
left_memberships true (n ∷ ns) (k ∷ ks) = refl

module _ {S : Type 0} (adapter : DatabaseAdapter S) (name : Text) (c : PostgresRoleConfig)
    (info : S → RoleInfo) (tracks : TracksRole adapter name info) (allow : Bool) where
  abbrev spec : RoleSpec
  spec = record { role_name = name; postgres = some c }

  detected :
      (now : ℕ) (s : S)
      → detect_role_drift adapter now spec s
        ≡ ok (record {
          resource_type = codes "role";
          resource_name = name;
          checked_at = now;
          diffs = detect_postgres_role_drift (some c) (info s) [];
        })
  unfolding detect_role_drift
  detected now s = rw (tracks.described s) refl

  -- The diffs that are found behind those of a detection, once they have been applied.
  left_diffs :
      (s : S)
      → AllAnswered
          (run adapter name c)
          (filter (is_allowed allow) (detect_postgres_role_drift (some c) (info s) []))
          s
      → detect_postgres_role_drift
          (some c)
          (info (
            apply_each
              (run adapter name c)
              (filter (is_allowed allow) (detect_postgres_role_drift (some c) (info s) []))
              s))
          []
        ≡ filter (is_left allow) (detect_postgres_role_drift (some c) (info s) [])
  left_diffs s h =
      let i = info s in
      let step = run adapter name c in
      let missing = difference c.in_roles i.in_roles in
      let extra = difference i.in_roles c.in_roles in
      let attrs = attribute_diffs c i attributes in
      let members = membership_diffs missing extra in
      let whole : detect_postgres_role_drift (some c) i [] ≡ attrs ++ members =
        detected_split c i
        ∙ ap (λ m. attrs ++ m) (compare_role_memberships_diffs c.in_roles i.in_roles) in
      let (h1, h2, there) =
        answered_parts allow step (detect_postgres_role_drift (some c) i []) attrs members s whole
          h in
      let t = apply_each step (allowed_diffs allow c i attributes) s in
      let (later, kept) = after_attributes adapter name c info tracks allow i attributes s h1 in
      let (u, (at_u, same, members_left)) =
        memberships_left step (grant_roles adapter name c.in_roles) (λ v. (info v).in_roles)
          c.in_roles (SameAttributes adapter name c info tracks)
          (role_grants adapter name c info tracks) (run-missing adapter name c info tracks)
          (run-extra adapter name c info tracks) allow i.in_roles t kept h2 in
      let fixed : Corrected allow c i (info u) =
        λ b. same b ∙ (later b ∙ (rw (due_among_all allow c i b) refl)) in
      subst
        (λ v.
          detect_postgres_role_drift (some c) (info v) []
          ≡ filter (is_left allow) (detect_postgres_role_drift (some c) i []))
        (at_u ∙ sym there)
        (detected_split c (info u)
          ∙ (rw (left_attributes allow c i (info u) attributes fixed) (
              rw members_left (
                sym (
                  ap (filter (is_left allow)) whole
                  ∙ (filter-append (is_left allow) attrs members
                      ∙ ap (λ ds. filter (is_left allow) attrs ++ ds)
                          (left_memberships allow missing extra)))))))

  -- Where ALTER ROLE sets exactly the attributes that it names and GRANT adds exactly the given
  -- memberships: if a correction of what a detection of a role's drift found notes no failure, the
  -- next detection finds exactly those of its diffs that a correction may not touch, and the diff of
  -- superfluous memberships, if there was one, also where destructive corrections are allowed.
  pub correct_role_drift-left :
      (now later : ℕ) (s : S) (drift : DriftResult)
      → detect_role_drift adapter now spec s ≡ ok drift
      → ((correct_role_drift adapter allow spec drift s).1).failed ≡ []
      → detect_role_drift adapter later spec ((correct_role_drift adapter allow spec drift s).0)
        ≡ ok (record {
          resource_type = codes "role";
          resource_name = name;
          checked_at = later;
          diffs = filter (is_left allow) drift.diffs;
        })
  unfolding correct_role_drift
  correct_role_drift-left now later s drift seen clean =
      let step = run adapter name c in
      let ds : drift.diffs ≡ detect_postgres_role_drift (some c) (info s) [] =
        let e = sym seen ∙ detected now s in cc in
      let out =
        correct_diffs allow destructive_reason step drift.diffs (s, new_correction_result name) in
      let (answered, end) =
        correct_diffs-settled allow destructive_reason step drift.diffs
          (detect_postgres_role_drift (some c) (info s) []) s name ds clean in
      let found : detect_postgres_role_drift (some c) (info (out.0)) []
          ≡ filter (is_left allow) drift.diffs =
        ap (λ t. detect_postgres_role_drift (some c) (info t) []) end
        ∙ (left_diffs s answered ∙ ap (filter (is_left allow)) (sym ds)) in
      detected later (out.0) ∙ (rw found refl)
