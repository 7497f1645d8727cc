-- ===== src/Drift/Roles/Attributes.antt =====
-- internal/service/drift/role.go: what the correction of one attribute changes.
use db_provision_operator.Base.{
  Bool, Option, arith, if◌then◌else◌, none, refl, some, ℕ, ◌==◌, ◌≡◌, Bool-cases, List, [],
  append-nil, append_assoc, inl, inr, sym, ◌++◌, ◌∙◌, ◌∷◌,
}
use db_provision_operator.Drift.Adapter.{RoleInfo, UpdateRoleOptions}
use db_provision_operator.Drift.Roles.{
  Attribute, PostgresRoleConfig, actual, attribute_name, attribute_of, attribute_options,
  bypass_rls, create_db, create_role, inherit, login, replication, superuser, wanted,
  attribute_diff, compare_attribute, detect_postgres_role_drift, is_destructive, unequal,
}
use db_provision_operator.Drift.{Diff}
use db_provision_operator.Drift.Memberships.{compare_role_memberships}
use db_provision_operator.Drift.Memberships.Appending.{compare_role_memberships-Appends}

abbrev pub value_or : Option Bool → Bool → Bool
value_or none b = b
value_or (some a) b = a

-- ALTER ROLE with the attributes that the options name
abbrev pub apply_options : UpdateRoleOptions → RoleInfo → RoleInfo
apply_options o i = record {
  login = value_or o.login i.login;
  inherit = value_or o.inherit i.inherit;
  create_db = value_or o.create_db i.create_db;
  create_role = value_or o.create_role i.create_role;
  superuser = value_or o.superuser i.superuser;
  replication = value_or o.replication i.replication;
  bypass_rls = value_or o.bypass_rls i.bypass_rls;
  in_roles = i.in_roles;
}

abbrev pub index : Attribute → ℕ
index login = 0
index inherit = 1
index create_db = 2
index create_role = 3
index superuser = 4
index replication = 5
index bypass_rls = 6

abbrev pub same_attribute : Attribute → Attribute → Bool
same_attribute a b = index a == index b

pub actual-apply_options :
    (a b : Attribute) (c : PostgresRoleConfig) (i : RoleInfo)
    → actual b (apply_options (attribute_options a c) i)
      ≡ (if same_attribute a b then wanted b c else actual b i)
actual-apply_options a login c i = ground arith
actual-apply_options a inherit c i = ground arith
actual-apply_options a create_db c i = ground arith
actual-apply_options a create_role c i = ground arith
actual-apply_options a superuser c i = ground arith
actual-apply_options a replication c i = ground arith
actual-apply_options a bypass_rls c i = ground arith

pub attribute_of-attribute_name : (a : Attribute) → attribute_of (attribute_name a) ≡ some a
unfolding attribute_of
attribute_of-attribute_name login = refl
attribute_of-attribute_name inherit = refl
attribute_of-attribute_name create_db = refl
attribute_of-attribute_name create_role = refl
attribute_of-attribute_name superuser = refl
attribute_of-attribute_name replication = refl
attribute_of-attribute_name bypass_rls = refl

abbrev pub attributes : List Attribute
attributes = login ∷ inherit ∷ create_db ∷ create_role ∷ superuser ∷ replication ∷ bypass_rls ∷ []

unfoldable pub attribute_diffs : PostgresRoleConfig → RoleInfo → List Attribute → List Diff
attribute_diffs c i [] = []
attribute_diffs c i (a ∷ rest) =
    let others = attribute_diffs c i rest in
    if unequal (wanted a c) (actual a i) then attribute_diff a c i ∷ others else others

compare_attributes : PostgresRoleConfig → RoleInfo → List Attribute → List Diff → List Diff
compare_attributes c i [] diffs = diffs
compare_attributes c i (a ∷ rest) diffs =
    compare_attributes c i rest (compare_attribute a c i diffs)

compare_attributes_diffs :
    (c : PostgresRoleConfig) (i : RoleInfo) (rest : List Attribute) (diffs : List Diff)
    → compare_attributes c i rest diffs ≡ diffs ++ attribute_diffs c i rest
unfolding compare_attributes compare_attribute attribute_diffs
compare_attributes_diffs c i [] diffs = sym (append-nil diffs)
compare_attributes_diffs c i (a ∷ rest) diffs =
    elim (Bool-cases (unequal (wanted a c) (actual a i))) [
      | inl h ↦ rw h (
          compare_attributes_diffs c i rest (diffs ++ (attribute_diff a c i ∷ []))
          ∙ append_assoc diffs (attribute_diff a c i ∷ []) (attribute_diffs c i rest))
      | inr h ↦ rw h (compare_attributes_diffs c i rest diffs)
    ]

detected_fold :
    (c : PostgresRoleConfig) (i : RoleInfo)
    → detect_postgres_role_drift (some c) i []
      ≡ compare_role_memberships c.in_roles i.in_roles (compare_attributes c i attributes [])
unfolding detect_postgres_role_drift compare_attributes
detected_fold c i = refl

-- The attributes first, then the memberships.
pub detected_split :
    (c : PostgresRoleConfig) (i : RoleInfo)
    → detect_postgres_role_drift (some c) i []
      ≡ attribute_diffs c i attributes ++ compare_role_memberships c.in_roles i.in_roles []
detected_split c i =
    detected_fold c i
    ∙ (rw (compare_attributes_diffs c i attributes [])
        (compare_role_memberships-Appends c.in_roles i.in_roles (attribute_diffs c i attributes)))

destructive_same :
    (a : Attribute) (i j : RoleInfo)
    → actual a i ≡ actual a j
    → is_destructive a i ≡ is_destructive a j
destructive_same login i j h = h
destructive_same superuser i j h = refl
destructive_same replication i j h = h
destructive_same bypass_rls i j h = h
destructive_same inherit i j h = refl
destructive_same create_db i j h = refl
destructive_same create_role i j h = refl

pub attribute_diff_same :
    (a : Attribute) (c : PostgresRoleConfig) (i j : RoleInfo)
    → actual a i ≡ actual a j
    → attribute_diff a c i ≡ attribute_diff a c j
attribute_diff_same a c i j h = let d = destructive_same a i j h in cc
