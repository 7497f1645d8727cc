-- ===== src/Drift/Users.antt =====
-- internal/service/drift/user.go: the attributes and memberships of a user against those of the
-- resource. The comparison of a MySQL user compares nothing.
pub mod Overridden
pub mod Left
use db_provision_operator.Base.{
  Bool, List, Option, Result, Text, [], codes, err, false, has_prefix, if◌then◌else◌, map, none,
  not, ok, same_text, some, some_of, true, ℕ, ◌==◌, ◌∷◌,
}
use db_provision_operator.Base.Int.{negsuc, pos, print_int, ℤ}
use db_provision_operator.Errors.{GoError, wrapped}
use db_provision_operator.Drift.{
  CorrectionResult, Diff, DriftResult, Reply, add_diff, correct_diffs, destructive_reason,
  new_correction_result, unsupported,
}
use db_provision_operator.Drift.Adapter.{DatabaseAdapter, UpdateUserOptions, UserInfo}
use db_provision_operator.Drift.Memberships.{compare_role_memberships}
use db_provision_operator.Drift.Roles.{actual, format_bool, grant_roles, unequal}

pub record PostgresUserConfig : Type 0 where
  pub connection_limit : ℤ
  pub superuser : Bool
  pub create_db : Bool
  pub create_role : Bool
  pub inherit : Bool
  pub replication : Bool
  pub bypass_rls : Bool
  pub in_roles : List Text

pub record UserSpec : Type 0 where
  pub username : Text
  pub postgres : Option PostgresUserConfig

-- Go's `!=` on two integers
abbrev pub int_unequal : ℤ → ℤ → Bool
int_unequal (pos a) (pos b) = not (a == b)
int_unequal (negsuc a) (negsuc b) = not (a == b)
int_unequal (pos a) (negsuc b) = true
int_unequal (negsuc a) (pos b) = true

-- the comparison of an attribute, given whether it differs
abbrev pub compare_value : Bool → Text → Text → Text → Bool → List Diff → List Diff
compare_value differs field expected actual destructive diffs =
    if differs
    then add_diff diffs (record {
      field = field;
      expected = expected;
      actual = actual;
      destructive = destructive;
      immutable = false;
    })
    else diffs

abbrev pub compare_flag : Text → Bool → Bool → Bool → List Diff → List Diff
compare_flag field expected actual destructive diffs =
    compare_value (unequal expected actual) field (format_bool expected) (format_bool actual)
      destructive diffs

-- detectPostgresUserDrift up to the memberships
unfoldable pub compare_user_attributes : PostgresUserConfig → UserInfo → List Diff → List Diff
compare_user_attributes c i diffs =
    compare_flag (codes "bypassrls") c.bypass_rls i.bypass_rls i.bypass_rls (
      compare_flag (codes "replication") c.replication i.replication i.replication (
        compare_flag (codes "inherit") c.inherit i.inherit false (
          compare_flag (codes "createrole") c.create_role i.create_role false (
            compare_flag (codes "createdb") c.create_db i.create_db false (
              compare_flag (codes "superuser") c.superuser i.superuser true (
                compare_value (int_unequal c.connection_limit i.connection_limit)
                  (codes "connectionLimit") (print_int c.connection_limit)
                  (print_int i.connection_limit) false diffs))))))

-- detectPostgresUserDrift
unfoldable pub detect_postgres_user_drift :
    Option PostgresUserConfig → UserInfo → List Diff → List Diff
detect_postgres_user_drift none i diffs = diffs
detect_postgres_user_drift (some c) i diffs =
    compare_role_memberships c.in_roles i.in_roles (compare_user_attributes c i diffs)

abbrev pub user_result : ℕ → UserSpec → Result GoError UserInfo → Result GoError DriftResult
user_result now spec (err e) = err (wrapped (codes "get user info: ") e)
user_result now spec (ok i) = ok (record {
  resource_type = codes "user";
  resource_name = spec.username;
  checked_at = now;
  diffs = detect_postgres_user_drift spec.postgres i [];
})

-- DetectUserDrift
unfoldable pub detect_user_drift :
    {S : Type 0} → DatabaseAdapter S → ℕ → UserSpec → S → Result GoError DriftResult
detect_user_drift adapter now spec s = user_result now spec (adapter.get_user_info spec.username s)

-- the fields of the first case of applyUserCorrection
abbrev pub user_attributes : List Text
user_attributes = map codes (
    "connectionLimit" ∷ "superuser" ∷ "createdb" ∷ "createrole" ∷ "inherit" ∷ "replication"
    ∷ "bypassrls" ∷ [])

-- the options of updateUserAttributes, which name every attribute
abbrev pub user_options : PostgresUserConfig → UpdateUserOptions
user_options c = record {
  connection_limit = some c.connection_limit;
  superuser = some c.superuser;
  create_db = some c.create_db;
  create_role = some c.create_role;
  inherit = some c.inherit;
  replication = some c.replication;
  bypass_rls = some c.bypass_rls;
}

-- updateUserAttributes
unfoldable pub update_user_attributes :
    {S : Type 0} → DatabaseAdapter S → Text → Option PostgresUserConfig → S → Reply S
update_user_attributes adapter name none s = (s, none)
update_user_attributes adapter name (some c) s = adapter.update_user name (user_options c) s

-- updateUserRoles
unfoldable pub update_user_roles :
    {S : Type 0} → DatabaseAdapter S → Text → Option PostgresUserConfig → S → Reply S
update_user_roles adapter name none s = (s, none)
update_user_roles adapter name (some c) s = grant_roles adapter name c.in_roles s

-- applyUserCorrection
unfoldable pub apply_user_correction :
    {S : Type 0} → DatabaseAdapter S → UserSpec → Diff → S → Reply S
apply_user_correction adapter spec d s =
    if some_of (same_text d.field) user_attributes
    then update_user_attributes adapter spec.username spec.postgres s
    else if has_prefix d.field (codes "inRoles")
    then update_user_roles adapter spec.username spec.postgres s
    else (s, some (unsupported d))

-- CorrectUserDrift
unfoldable pub correct_user_drift :
    {S : Type 0} → DatabaseAdapter S → Bool → UserSpec → DriftResult → S → S × CorrectionResult
correct_user_drift adapter allow_destructive spec drift s =
    correct_diffs allow_destructive destructive_reason (apply_user_correction adapter spec)
      drift.diffs (s, new_correction_result spec.username)
