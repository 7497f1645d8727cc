-- ===== src/Drift/Users/Left.antt =====
-- internal/service/drift/user.go: which diffs of a user the detection behind a correction finds.
use mathlib.Core.Path.{subst}
use db_provision_operator.Base.{
  All, Bool, Bool-cases, List, Text, [], ap, arith, false, filter, if◌then◌else◌, inl, inr, member,
  member_nil, none, refl, some, some_of, sym, true, ◌||◌, ◌∙◌, ◌∷◌, ◌≡◌, codes, ok, ℕ, ◌++◌,
}
use db_provision_operator.Drift.{
  Diff, Reply, DriftResult, correct_diffs, destructive_reason, new_correction_result,
}
use db_provision_operator.Drift.Adapter.{DatabaseAdapter, UserInfo}
use db_provision_operator.Drift.Correction.{AllAnswered, apply_each, is_allowed}
use db_provision_operator.Drift.Memberships.Granting.{
  Grants, extra_diff, missing_diff, compare_role_memberships_diffs, membership_diffs,
  memberships_left,
}
use db_provision_operator.Drift.Roles.{grant_roles}
use db_provision_operator.Drift.Users.{
  PostgresUserConfig, UserSpec, apply_user_correction, update_user_attributes, update_user_roles,
  user_options, compare_user_attributes, detect_postgres_user_drift, detect_user_drift,
  correct_user_drift,
}
use db_provision_operator.Drift.Users.Overridden.{
  NamesAttribute, TracksUser, apply_user_options, attributes_of, wanted_attributes,
  compare_user_attributes-All, compare_wanted,
}
use db_provision_operator.Drift.Memberships.{add_extra, compare_role_memberships, difference}
use db_provision_operator.Drift.Memberships.Appending.{compare_role_memberships-Appends}
use db_provision_operator.Drift.Correction.Answered.{answered_parts, correct_diffs-settled}

either_same {ℓ} : {A : Type ℓ} (b : Bool) (x : A) → (if b then x else x) ≡ x
either_same true x = refl
either_same false x = refl

module _ {S : Type 0} (adapter : DatabaseAdapter S) (name : Text) (c : PostgresUserConfig)
    (info : S → UserInfo) (tracks : TracksUser adapter name info) where
  abbrev spec : UserSpec
  spec = record { username = name; postgres = some c }

  abbrev apply : Diff → S → Reply S
  apply d s = apply_user_correction adapter spec d s

  abbrev SameAttributes : S → S → Type 0
  SameAttributes s t = attributes_of (info t) ≡ attributes_of (info s)

  grant_keeps :
      (wants : List Text) (s : S)
      → (grant_roles adapter name wants s).1 ≡ none
      → SameAttributes s ((grant_roles adapter name wants s).0)
  grant_keeps [] s h = refl
  grant_keeps (r ∷ rs) s h = tracks.granted_attributes s (r ∷ rs) h

  grant_grows :
      (wants : List Text) (s : S)
      → (grant_roles adapter name wants s).1 ≡ none
      → (z : Text)
      → member z ((info ((grant_roles adapter name wants s).0)).in_roles)
        ≡ (member z ((info s).in_roles) || member z wants)
  grant_grows [] s h z = ground (arith, member_nil z)
  grant_grows (r ∷ rs) s h z = tracks.granted s (r ∷ rs) h z

  user_grants :
      Grants
        (grant_roles adapter name c.in_roles)
        (λ s. (info s).in_roles)
        c.in_roles
        SameAttributes
  user_grants = record {
    keeps_refl = λ s. refl;
    keeps_trans = λ s t u p q. q ∙ p;
    keeps = λ s h. grant_keeps c.in_roles s h;
    grows = λ s h z. grant_grows c.in_roles s h z;
  }

  apply-missing :
      (n : Text) (ns : List Text) (s : S)
      → apply (missing_diff n ns) s ≡ grant_roles adapter name c.in_roles s
  unfolding apply_user_correction update_user_roles
  apply-missing n ns s = refl

  apply-extra :
      (n : Text) (ns : List Text) (s : S)
      → apply (extra_diff n ns) s ≡ grant_roles adapter name c.in_roles s
  unfolding apply_user_correction update_user_roles
  apply-extra n ns s = refl

  apply-attribute :
      (d : Diff) (s : S)
      → NamesAttribute d
      → apply d s ≡ adapter.update_user name (user_options c) s
  unfolding apply_user_correction update_user_attributes
  apply-attribute d s h = rw h refl

  after_one :
      (d : Diff) (s : S)
      → NamesAttribute d
      → (apply d s).1 ≡ none
      → info ((apply d s).0) ≡ apply_user_options (user_options c) (info s)
  after_one d s n h =
      let e = apply-attribute d s n in
      rw e (tracks.updated s (user_options c) (sym (ap (λ y. y.1) e) ∙ h))

  -- Behind the diffs of attributes every attribute is as wanted, or none has changed if all were
  -- skipped.
  abbrev AttributesAfter : Bool → UserInfo → UserInfo → Type 0
  AttributesAfter some_applied i j =
      (attributes_of j ≡ (if some_applied then wanted_attributes c else attributes_of i))
      × (j.in_roles ≡ i.in_roles)

  after_attributes :
      (allow : Bool) (ds : List Diff) (s : S)
      → All NamesAttribute ds
      → AllAnswered apply (filter (is_allowed allow) ds) s
      → AttributesAfter
          (some_of (is_allowed allow) ds)
          (info s)
          (info (apply_each apply (filter (is_allowed allow) ds) s))
  unfolding apply_each
  after_attributes allow [] s n h = (refl, refl)
  after_attributes allow (d ∷ ds) s (n, ns) h = elim (Bool-cases (is_allowed allow d)) [
    | inl k ↦
        let h2 : AllAnswered apply (d ∷ filter (is_allowed allow) ds) s =
          subst
            (λ b.
              AllAnswered apply
                (if b then d ∷ filter (is_allowed allow) ds else filter (is_allowed allow) ds) s)
            k h in
        let t = (apply d s).0 in
        let q = after_one d s n (h2.0) in
        let (a, r) = after_attributes allow ds t ns (h2.1) in
        let now : attributes_of (info t) ≡ wanted_attributes c = ap attributes_of q in
        rw k (
          a ∙ (rw now (either_same (some_of (is_allowed allow) ds) (wanted_attributes c))),
          r ∙ ap (λ j. j.in_roles) q,
        )
    | inr k ↦
        let h2 : AllAnswered apply (filter (is_allowed allow) ds) s =
          subst
            (λ b.
              AllAnswered apply
                (if b then d ∷ filter (is_allowed allow) ds else filter (is_allowed allow) ds) s)
            k h in
        rw k (after_attributes allow ds s ns h2)
  ]

  compare_attributes_of :
      (i : UserInfo)
      → compare_user_attributes c i [] ≡ compare_user_attributes c (attributes_of i) []
  unfolding compare_user_attributes
  compare_attributes_of i = refl

  -- The attributes that differ behind those of a state that is as wanted, or as before.
  compared_attributes :
      (b : Bool) (i j : UserInfo)
      → attributes_of j ≡ (if b then wanted_attributes c else attributes_of i)
      → compare_user_attributes c j [] ≡ (if b then [] else compare_user_attributes c i [])
  compared_attributes true i j a =
      compare_attributes_of j ∙ (ap (λ k. compare_user_attributes c k []) a ∙ compare_wanted c)
  compared_attributes false i j a =
      compare_attributes_of j
      ∙ (ap (λ k. compare_user_attributes c k []) a ∙ sym (compare_attributes_of i))

  detected :
      (now : ℕ) (s : S)
      → detect_user_drift adapter now spec s
        ≡ ok (record {
          resource_type = codes "user";
          resource_name = name;
          checked_at = now;
          diffs = detect_postgres_user_drift (some c) (info s) [];
        })
  unfolding detect_user_drift
  detected now s = rw (tracks.described s) refl

  detected_split :
      (i : UserInfo)
      → detect_postgres_user_drift (some c) i []
        ≡ compare_user_attributes c i [] ++ compare_role_memberships c.in_roles i.in_roles []
  unfolding detect_postgres_user_drift
  detected_split i =
      compare_role_memberships-Appends c.in_roles i.in_roles (compare_user_attributes c i [])

  -- The diffs of a user that stay: all of the attributes or none of them, and the memberships that
  -- are too many.
  abbrev pub left_of : Bool → UserInfo → List Diff
  left_of allow i =
      let attrs = compare_user_attributes c i [] in
      (if some_of (is_allowed allow) attrs then [] else attrs)
      ++ add_extra (codes "inRoles.extra") (difference i.in_roles c.in_roles) []

  left_diffs :
      (allow : Bool) (s : S)
      → AllAnswered apply
          (filter (is_allowed allow) (detect_postgres_user_drift (some c) (info s) []))
          s
      → detect_postgres_user_drift
          (some c)
          (info (
            apply_each apply
              (filter (is_allowed allow) (detect_postgres_user_drift (some c) (info s) []))
              s))
          []
        ≡ left_of allow (info s)
  left_diffs allow s h =
      let i = info s in
      let missing = difference c.in_roles i.in_roles in
      let extra = difference i.in_roles c.in_roles in
      let attrs = compare_user_attributes c i [] in
      let members = membership_diffs missing extra in
      let whole : detect_postgres_user_drift (some c) i [] ≡ attrs ++ members =
        detected_split i
        ∙ ap (λ m. attrs ++ m) (compare_role_memberships_diffs c.in_roles i.in_roles) in
      let (h1, h2, there) =
        answered_parts allow apply (detect_postgres_user_drift (some c) i []) attrs members s whole
          h in
      let t = apply_each apply (filter (is_allowed allow) attrs) s in
      let (later, kept) = after_attributes allow attrs s (compare_user_attributes-All c i) h1 in
      let (u, (at_u, same, members_left)) =
        memberships_left apply (grant_roles adapter name c.in_roles) (λ v. (info v).in_roles)
          c.in_roles SameAttributes user_grants apply-missing apply-extra allow i.in_roles t kept
          h2 in
      let attrs_left =
        compared_attributes (some_of (is_allowed allow) attrs) i (info u) (same ∙ later) in
      ap (λ v. detect_postgres_user_drift (some c) (info v) []) (there ∙ sym at_u)
      ∙ (detected_split (info u) ∙ (rw attrs_left (rw members_left refl)))

  -- Where ALTER ROLE sets exactly the attributes that it names and GRANT adds exactly the given
  -- memberships: if a correction of what a detection of a user's drift found notes no failure, the
  -- next detection finds no missing membership, and those that were superfluous again. If the diff of
  -- some attribute was allowed, it finds no attribute that differs, not even one whose diff was
  -- skipped because it is destructive; if none was, it finds all of them again.
  pub correct_user_drift-left :
      (allow : Bool) (now later : ℕ) (s : S) (drift : DriftResult)
      → detect_user_drift adapter now spec s ≡ ok drift
      → ((correct_user_drift adapter allow spec drift s).1).failed ≡ []
      → detect_user_drift adapter later spec ((correct_user_drift adapter allow spec drift s).0)
        ≡ ok (record {
          resource_type = codes "user";
          resource_name = name;
          checked_at = later;
          diffs = left_of allow (info s);
        })
  unfolding correct_user_drift
  correct_user_drift-left allow now later s drift seen clean =
      let ds : drift.diffs ≡ detect_postgres_user_drift (some c) (info s) [] =
        let e = sym seen ∙ detected now s in cc in
      let out =
        correct_diffs allow destructive_reason apply drift.diffs (s, new_correction_result name) in
      let (answered, end) =
        correct_diffs-settled allow destructive_reason apply drift.diffs
          (detect_postgres_user_drift (some c) (info s) []) s name ds clean in
      let found : detect_postgres_user_drift (some c) (info (out.0)) [] ≡ left_of allow (info s) =
        ap (λ t. detect_postgres_user_drift (some c) (info t) []) end
        ∙ left_diffs allow s answered in
      detected later (out.0) ∙ (rw found refl)
