-- ===== src/Drift/Roles.antt =====
-- internal/service/drift/role.go: the attributes and memberships of a role against those of the
-- resource. The comparison of a MySQL role compares nothing.
pub mod Attributes
pub mod Remaining
pub mod Memberships
pub mod Left
use db_provision_operator.Base.{
  Bool, List, Option, Result, Text, [], codes, err, false, has_prefix, if◌then◌else◌, none, not, ok,
  same_text, some, true, ℕ, ◌∷◌,
}
use db_provision_operator.Errors.{GoError, wrapped}
use db_provision_operator.Drift.{
  CorrectionResult, Diff, DriftResult, Reply, add_diff, correct_diffs, destructive_reason,
  new_correction_result, unsupported,
}
use db_provision_operator.Drift.Adapter.{DatabaseAdapter, RoleInfo, UpdateRoleOptions}
use db_provision_operator.Drift.Memberships.{compare_role_memberships}

pub record PostgresRoleConfig : Type 0 where
  pub login : Bool
  pub inherit : Bool
  pub create_db : Bool
  pub create_role : Bool
  pub superuser : Bool
  pub replication : Bool
  pub bypass_rls : Bool
  pub in_roles : List Text

pub record RoleSpec : Type 0 where
  pub role_name : Text
  pub postgres : Option PostgresRoleConfig

-- the attributes that detectPostgresRoleDrift compares one after the other
pub data Attribute : Type 0 where
  login inherit create_db create_role superuser replication bypass_rls : Attribute

abbrev pub attribute_name : Attribute → Text
attribute_name login = codes "login"
attribute_name inherit = codes "inherit"
attribute_name create_db = codes "createdb"
attribute_name create_role = codes "createrole"
attribute_name superuser = codes "superuser"
attribute_name replication = codes "replication"
attribute_name bypass_rls = codes "bypassrls"

abbrev pub wanted : Attribute → PostgresRoleConfig → Bool
wanted login c = c.login
wanted inherit c = c.inherit
wanted create_db c = c.create_db
wanted create_role c = c.create_role
wanted superuser c = c.superuser
wanted replication c = c.replication
wanted bypass_rls c = c.bypass_rls

abbrev pub actual : Attribute → RoleInfo → Bool
actual login i = i.login
actual inherit i = i.inherit
actual create_db i = i.create_db
actual create_role i = i.create_role
actual superuser i = i.superuser
actual replication i = i.replication
actual bypass_rls i = i.bypass_rls

-- the `Destructive` of an attribute's diff
abbrev pub is_destructive : Attribute → RoleInfo → Bool
is_destructive login i = i.login
is_destructive superuser i = true
is_destructive replication i = i.replication
is_destructive bypass_rls i = i.bypass_rls
is_destructive inherit i = false
is_destructive create_db i = false
is_destructive create_role i = false

-- strconv.FormatBool
abbrev pub format_bool : Bool → Text
format_bool true = codes "true"
format_bool false = codes "false"

-- Go's `!=` on two bools
abbrev pub unequal : Bool → Bool → Bool
unequal true b = not b
unequal false b = b

abbrev pub attribute_diff : Attribute → PostgresRoleConfig → RoleInfo → Diff
attribute_diff a c i = record {
  field = attribute_name a;
  expected = format_bool (wanted a c);
  actual = format_bool (actual a i);
  destructive = is_destructive a i;
  immutable = false;
}

-- the comparison of one attribute
unfoldable pub compare_attribute : Attribute → PostgresRoleConfig → RoleInfo → List Diff → List Diff
compare_attribute a c i diffs =
    if unequal (wanted a c) (actual a i) then add_diff diffs (attribute_diff a c i) else diffs

-- compareRoleRoleMemberships, which says the same as compareRoleMemberships of user.go
abbrev pub compare_role_role_memberships : List Text → List Text → List Diff → List Diff
compare_role_role_memberships expected actual diffs = compare_role_memberships expected actual diffs

-- detectPostgresRoleDrift
unfoldable pub detect_postgres_role_drift :
    Option PostgresRoleConfig → RoleInfo → List Diff → List Diff
detect_postgres_role_drift none i diffs = diffs
detect_postgres_role_drift (some c) i diffs = compare_role_role_memberships c.in_roles i.in_roles (
    compare_attribute bypass_rls c i (
      compare_attribute replication c i (
        compare_attribute superuser c i (
          compare_attribute create_role c i (
            compare_attribute create_db c i
              (compare_attribute inherit c i (compare_attribute login c i diffs)))))))

abbrev pub role_result : ℕ → RoleSpec → Result GoError RoleInfo → Result GoError DriftResult
role_result now spec (err e) = err (wrapped (codes "get role info: ") e)
role_result now spec (ok i) = ok (record {
  resource_type = codes "role";
  resource_name = spec.role_name;
  checked_at = now;
  diffs = detect_postgres_role_drift spec.postgres i [];
})

-- DetectRoleDrift
unfoldable pub detect_role_drift :
    {S : Type 0} → DatabaseAdapter S → ℕ → RoleSpec → S → Result GoError DriftResult
detect_role_drift adapter now spec s = role_result now spec (adapter.get_role_info spec.role_name s)

-- the options that set one attribute
abbrev pub attribute_options : Attribute → PostgresRoleConfig → UpdateRoleOptions
attribute_options a c = record {
  login = elim a [ login ↦ some c.login | _ ↦ none ];
  inherit = elim a [ inherit ↦ some c.inherit | _ ↦ none ];
  create_db = elim a [ create_db ↦ some c.create_db | _ ↦ none ];
  create_role = elim a [ create_role ↦ some c.create_role | _ ↦ none ];
  superuser = elim a [ superuser ↦ some c.superuser | _ ↦ none ];
  replication = elim a [ replication ↦ some c.replication | _ ↦ none ];
  bypass_rls = elim a [ bypass_rls ↦ some c.bypass_rls | _ ↦ none ];
}

-- the attribute that a field names, for the two switches
unfoldable pub attribute_of : Text → Option Attribute
attribute_of field =
    if same_text field (codes "login")
    then some login
    else if same_text field (codes "inherit")
    then some inherit
    else if same_text field (codes "createdb")
    then some create_db
    else if same_text field (codes "createrole")
    then some create_role
    else if same_text field (codes "superuser")
    then some superuser
    else if same_text field (codes "replication")
    then some replication
    else if same_text field (codes "bypassrls")
    then some bypass_rls
    else none

-- updateRoleAttribute
unfoldable pub update_role_attribute :
    {S : Type 0} → DatabaseAdapter S → Text → Option PostgresRoleConfig → Attribute → S → Reply S
update_role_attribute adapter name none a s = (s, none)
update_role_attribute adapter name (some c) a s = adapter.update_role name (attribute_options a c) s

abbrev pub grant_roles : {S : Type 0} → DatabaseAdapter S → Text → List Text → S → Reply S
grant_roles adapter name [] s = (s, none)
grant_roles adapter name (r ∷ rs) s = adapter.grant_role name (r ∷ rs) s

-- updateRoleRoles
unfoldable pub update_role_roles :
    {S : Type 0} → DatabaseAdapter S → Text → Option PostgresRoleConfig → S → Reply S
update_role_roles adapter name none s = (s, none)
update_role_roles adapter name (some c) s = grant_roles adapter name c.in_roles s

-- applyRoleCorrection, on the attribute that the field names
abbrev pub apply_named :
    {S : Type 0} → DatabaseAdapter S → RoleSpec → Diff → Option Attribute → S → Reply S
apply_named adapter spec d (some a) s =
    update_role_attribute adapter spec.role_name spec.postgres a s
apply_named adapter spec d none s =
    if has_prefix d.field (codes "inRoles")
    then update_role_roles adapter spec.role_name spec.postgres s
    else (s, some (unsupported d))

unfoldable pub apply_role_correction :
    {S : Type 0} → DatabaseAdapter S → RoleSpec → Diff → S → Reply S
apply_role_correction adapter spec d s = apply_named adapter spec d (attribute_of d.field) s

-- CorrectRoleDrift
unfoldable pub correct_role_drift :
    {S : Type 0} → DatabaseAdapter S → Bool → RoleSpec → DriftResult → S → S × CorrectionResult
correct_role_drift adapter allow_destructive spec drift s =
    correct_diffs allow_destructive destructive_reason (apply_role_correction adapter spec)
      drift.diffs (s, new_correction_result spec.role_name)
