-- ===== src/Drift/Roles/Remaining.antt =====
-- internal/service/drift/role.go: what a correction of a role leaves for the next detection, over a
-- database whose ALTER ROLE sets the attributes that it names and whose GRANT adds memberships.
use mathlib.Core.Path.{subst}
use db_provision_operator.Base.{
  List, Text, member, none, ok, ◌||◌, ◌≡◌, Bool, Bool-cases, [], ap, false, filter, if◌then◌else◌,
  inl, inr, refl, some, sym, true, ◌&&◌, ◌∙◌, ◌∷◌, arith, ◌⊎◌,
}
use db_provision_operator.Drift.Adapter.{DatabaseAdapter, RoleInfo, UpdateRoleOptions}
use db_provision_operator.Drift.Roles.{
  Attribute, actual, PostgresRoleConfig, apply_role_correction, attribute_diff, attribute_options,
  unequal, update_role_attribute, wanted,
}
use db_provision_operator.Drift.Roles.Attributes.{
  apply_options, attribute_diffs, attribute_of-attribute_name, same_attribute, actual-apply_options,
}
use db_provision_operator.Drift.{Diff, Reply}
use db_provision_operator.Drift.Correction.{AllAnswered, apply_each, is_allowed}

-- What the correction relies on, for calls that report no error.
pub record TracksRole {S : Type 0} (adapter : DatabaseAdapter S) (name : Text) (info : S → RoleInfo)
    : Type 0 where
  pub described : (s : S) → adapter.get_role_info name s ≡ ok (info s)
  pub updated :
      (s : S) (o : UpdateRoleOptions)
      → (adapter.update_role name o s).1 ≡ none
      → info ((adapter.update_role name o s).0) ≡ apply_options o (info s)
  pub granted_attributes :
      (s : S) (roles : List Text)
      → (adapter.grant_role name roles s).1 ≡ none
      → (a : Attribute) → actual a (info ((adapter.grant_role name roles s).0)) ≡ actual a (info s)
  pub granted :
      (s : S) (roles : List Text)
      → (adapter.grant_role name roles s).1 ≡ none
      → (z : Text)
      → member z ((info ((adapter.grant_role name roles s).0)).in_roles)
        ≡ (member z ((info s).in_roles) || member z roles)

-- The attribute differs, and may be corrected.
unfoldable pub is_due : Bool → PostgresRoleConfig → RoleInfo → Attribute → Bool
is_due allow c i a = unequal (wanted a c) (actual a i) && is_allowed allow (attribute_diff a c i)

-- One of these attributes is the given one, and due.
unfoldable pub due_among : Bool → PostgresRoleConfig → RoleInfo → List Attribute → Attribute → Bool
due_among allow c i [] b = false
due_among allow c i (a ∷ rest) b =
    (same_attribute a b && is_due allow c i a) || due_among allow c i rest b

abbrev pub allowed_diffs : Bool → PostgresRoleConfig → RoleInfo → List Attribute → List Diff
allowed_diffs allow c i rest = filter (is_allowed allow) (attribute_diffs c i rest)

allowed_diffs-cases :
    (allow : Bool) (c : PostgresRoleConfig) (i : RoleInfo) (a : Attribute) (rest : List Attribute)
    → ((is_due allow c i a ≡ true)
        × (allowed_diffs allow c i (a ∷ rest)
            ≡ attribute_diff a c i ∷ allowed_diffs allow c i rest))
      ⊎ ((is_due allow c i a ≡ false)
          × (allowed_diffs allow c i (a ∷ rest) ≡ allowed_diffs allow c i rest))
unfolding is_due attribute_diffs
allowed_diffs-cases allow c i a rest = elim (Bool-cases (unequal (wanted a c) (actual a i))) [
  | inl u ↦ elim (Bool-cases (is_allowed allow (attribute_diff a c i))) [
    | inl k ↦ inl (rw u (rw k refl), rw u (rw k refl))
    | inr k ↦ inr (rw u (rw k refl), rw u (rw k refl))
  ]
  | inr u ↦ inr (rw u refl, rw u refl)
]

abbrev pub run : {S : Type 0} → DatabaseAdapter S → Text → PostgresRoleConfig → Diff → S → Reply S
run adapter name c d s =
    apply_role_correction adapter (record { role_name = name; postgres = some c }) d s

module _ {S : Type 0} (adapter : DatabaseAdapter S) (name : Text) (c : PostgresRoleConfig)
    (info : S → RoleInfo) (tracks : TracksRole adapter name info) (allow : Bool) where
  abbrev apply : Diff → S → Reply S
  apply d s = run adapter name c d s

  apply-attribute :
      (a : Attribute) (i : RoleInfo) (s : S)
      → apply (attribute_diff a c i) s ≡ adapter.update_role name (attribute_options a c) s
  unfolding apply_role_correction update_role_attribute
  apply-attribute a i s = rw (attribute_of-attribute_name a) refl

  abbrev pub AttributesAfter : RoleInfo → List Attribute → S → S → Type 0
  AttributesAfter i rest s t =
      ((b : Attribute)
        → actual b (info t)
          ≡ (if due_among allow c i rest b then wanted b c else actual b (info s)))
      × ((info t).in_roles ≡ (info s).in_roles)

  after_one :
      (a : Attribute) (i : RoleInfo) (s : S)
      → (apply (attribute_diff a c i) s).1 ≡ none
      → info ((apply (attribute_diff a c i) s).0) ≡ apply_options (attribute_options a c) (info s)
  after_one a i s h =
      let e = apply-attribute a i s in
      rw e (tracks.updated s (attribute_options a c) (sym (ap (λ y. y.1) e) ∙ h))

  pub after_attributes :
      (i : RoleInfo) (rest : List Attribute) (s : S)
      → AllAnswered apply (allowed_diffs allow c i rest) s
      → AttributesAfter i rest s (apply_each apply (allowed_diffs allow c i rest) s)
  unfolding apply_each due_among
  after_attributes i [] s h = unfold attribute_diffs in (λ b. refl, refl)
  after_attributes i (a ∷ rest) s h = elim (allowed_diffs-cases allow c i a rest) [
    | inl (u, e) ↦
        let h2 : AllAnswered apply (attribute_diff a c i ∷ allowed_diffs allow c i rest) s =
          subst (λ ds. AllAnswered apply ds s) e h in
        let t = (apply (attribute_diff a c i) s).0 in
        let (later, kept) = after_attributes i rest t (h2.1) in
        let q = after_one a i s (h2.0) in
        rw e (
          λ b. later b ∙ (rw q (rw (actual-apply_options a b c (info s)) (ground arith))),
          kept ∙ ap (λ j. j.in_roles) q,
        )
    | inr (u, e) ↦
        let h2 : AllAnswered apply (allowed_diffs allow c i rest) s =
          subst (λ ds. AllAnswered apply ds s) e h in
        let (later, kept) = after_attributes i rest s h2 in
        rw e (λ b. later b ∙ (ground arith), kept)
  ]
