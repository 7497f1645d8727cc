-- ===== src/Tests/StateDriftRuns.antt =====
-- Runs of the detection and correction of the drift of a role, a user and a database, over a
-- database that is what it says of the one that is asked for.
use db_provision_operator.Base.{
  List, Text, [], codes, false, filter, insert_text, keys, member, none, ok, outside, refl, some,
  sort_strings, text_ltb, true, ◌++◌, ◌↔◌, ◌∷◌, ◌≡◌,
}
use db_provision_operator.Base.Int.{decimal, decimal_from, pos, print_int}
use db_provision_operator.Drift.{Diff, DriftResult, correct_diff, correct_diffs}
use db_provision_operator.Drift.Adapter.{
  DatabaseAdapter, DatabaseInfo, RoleInfo, UpdateDatabaseOptions, UserInfo, equal_fold, fold_case,
}
use db_provision_operator.Drift.Memberships.{compare_role_memberships, difference}
use db_provision_operator.Drift.Roles.{
  Attribute, PostgresRoleConfig, RoleSpec, actual, apply_role_correction, attribute_of, bypass_rls,
  compare_attribute, correct_role_drift, create_db, create_role, detect_postgres_role_drift,
  detect_role_drift, inherit, login, replication, superuser, update_role_attribute,
  update_role_roles,
}
use db_provision_operator.Drift.Roles.Attributes.{apply_options}
use db_provision_operator.Drift.Roles.Remaining.{TracksRole}
use db_provision_operator.Drift.Roles.Left.{correct_role_drift-left, is_left}
use db_provision_operator.Drift.Users.{
  PostgresUserConfig, UserSpec, apply_user_correction, compare_user_attributes, correct_user_drift,
  detect_postgres_user_drift, detect_user_drift, update_user_attributes, update_user_roles,
}
use db_provision_operator.Drift.Users.Overridden.{TracksUser, apply_user_options}
use db_provision_operator.Drift.Users.Left.{left_of, correct_user_drift-left}
use db_provision_operator.Drift.Databases.{
  DatabaseSpec, PostgresDatabaseConfig, compare_extensions, compare_owner, compare_schemas,
  compare_versions, derive_ownership_role_name, detect_postgres_database_drift, truncate_identifier,
  version_of,
}
use db_provision_operator.Drift.Databases.Fitting.{DatabaseFits}
use db_provision_operator.Drift.Databases.Compared.{detect_postgres_database_drift-none}
use db_provision_operator.Drift.Databases.Correct.{apply_database_correction, with_extensions}
use db_provision_operator.Drift.Databases.Named.{apply-version_field, version_field}
use db_provision_operator.Tests.DriftRuns.{idle_adapter, member-append}

abbrev role_state : DatabaseAdapter RoleInfo
role_state = record idle_adapter {
  get_role_info = λ name i. ok i;
  update_role = λ name o i. (apply_options o i, none);
  grant_role = λ name roles i. (record i { in_roles = i.in_roles ++ roles }, none);
}

abbrev role_name_of : Text
role_name_of = codes "app"

role_tracked : TracksRole role_state role_name_of (λ i. i)
role_tracked = record {
  described = λ s. refl;
  updated = λ s o e. refl;
  granted_attributes = λ s roles e a. kept a s (s.in_roles ++ roles);
  granted = λ s roles e z. member-append z s.in_roles roles;
}
  where
    kept :
        (a : Attribute) (i : RoleInfo) (rs : List Text)
        → actual a (record i { in_roles = rs }) ≡ actual a i
    kept login i rs = refl
    kept inherit i rs = refl
    kept create_db i rs = refl
    kept create_role i rs = refl
    kept superuser i rs = refl
    kept replication i rs = refl
    kept bypass_rls i rs = refl

abbrev role_config : PostgresRoleConfig
role_config = record {
  login = true;
  inherit = true;
  create_db = true;
  create_role = false;
  superuser = false;
  replication = false;
  bypass_rls = false;
  in_roles = codes "reader" ∷ [];
}

-- a superuser without CREATEDB and with a membership too many
abbrev drifted_role : RoleInfo
drifted_role = record {
  login = true;
  inherit = true;
  create_db = false;
  create_role = false;
  superuser = true;
  replication = false;
  bypass_rls = false;
  in_roles = codes "owner" ∷ [];
}

abbrev role_spec : RoleSpec
role_spec = record { role_name = role_name_of; postgres = some role_config }

abbrev role_drift : DriftResult
role_drift = record {
  resource_type = codes "role";
  resource_name = role_name_of;
  checked_at = 3;
  diffs = detect_postgres_role_drift (some role_config) drifted_role [];
}

role_seen : detect_role_drift role_state 3 role_spec drifted_role ≡ ok role_drift
unfolding detect_role_drift
role_seen = refl

role_clean : ((correct_role_drift role_state false role_spec role_drift drifted_role).1).failed ≡ []
unfolding correct_role_drift correct_diffs correct_diff detect_postgres_role_drift compare_attribute
    compare_role_memberships difference outside sort_strings insert_text text_ltb keys member
    apply_role_correction attribute_of update_role_attribute update_role_roles
role_clean = refl

correct_role_drift-left_example :
    detect_role_drift role_state 4 role_spec
      ((correct_role_drift role_state false role_spec role_drift drifted_role).0)
    ≡ ok (record {
      resource_type = codes "role";
      resource_name = role_name_of;
      checked_at = 4;
      diffs = filter (is_left false) role_drift.diffs;
    })
correct_role_drift-left_example =
    correct_role_drift-left role_state role_name_of role_config (λ i. i) role_tracked false 3 4
      drifted_role role_drift role_seen role_clean

abbrev user_state : DatabaseAdapter UserInfo
user_state = record idle_adapter {
  get_user_info = λ name i. ok i;
  update_user = λ name o i. (apply_user_options o i, none);
  grant_role = λ name roles i. (record i { in_roles = i.in_roles ++ roles }, none);
}

user_tracked : TracksUser user_state role_name_of (λ i. i)
user_tracked = record {
  described = λ s. refl;
  updated = λ s o e. refl;
  granted_attributes = λ s roles e. refl;
  granted = λ s roles e z. member-append z s.in_roles roles;
}

abbrev user_config : PostgresUserConfig
user_config = record {
  connection_limit = pos 10;
  superuser = false;
  create_db = true;
  create_role = false;
  inherit = true;
  replication = false;
  bypass_rls = false;
  in_roles = [];
}

abbrev drifted_user : UserInfo
drifted_user = record {
  connection_limit = pos 10;
  superuser = true;
  create_db = false;
  create_role = false;
  inherit = true;
  replication = false;
  bypass_rls = false;
  in_roles = [];
}

abbrev user_spec : UserSpec
user_spec = record { username = role_name_of; postgres = some user_config }

abbrev user_drift : DriftResult
user_drift = record {
  resource_type = codes "user";
  resource_name = role_name_of;
  checked_at = 3;
  diffs = detect_postgres_user_drift (some user_config) drifted_user [];
}

user_seen : detect_user_drift user_state 3 user_spec drifted_user ≡ ok user_drift
unfolding detect_user_drift
user_seen = refl

user_clean : ((correct_user_drift user_state false user_spec user_drift drifted_user).1).failed ≡ []
unfolding correct_user_drift correct_diffs correct_diff detect_postgres_user_drift
    compare_user_attributes compare_role_memberships difference outside sort_strings insert_text
    text_ltb keys member apply_user_correction update_user_attributes update_user_roles print_int
    decimal decimal_from
user_clean = refl

correct_user_drift-left_example :
    detect_user_drift user_state 4 user_spec
      ((correct_user_drift user_state false user_spec user_drift drifted_user).0)
    ≡ ok (record {
      resource_type = codes "user";
      resource_name = role_name_of;
      checked_at = 4;
      diffs = left_of user_state role_name_of user_config (λ i. i) user_tracked false drifted_user;
    })
correct_user_drift-left_example =
    correct_user_drift-left user_state role_name_of user_config (λ i. i) user_tracked false 3 4
      drifted_user user_drift user_seen user_clean

-- the superuser is one no more, although the correction of that was skipped
overridden :
    ((correct_user_drift user_state false user_spec user_drift drifted_user).0).superuser ≡ false
unfolding correct_user_drift correct_diffs correct_diff detect_postgres_user_drift
    compare_user_attributes compare_role_memberships difference outside sort_strings insert_text
    text_ltb keys member apply_user_correction update_user_attributes update_user_roles print_int
    decimal decimal_from
overridden = refl

abbrev database_config : PostgresDatabaseConfig
database_config = record {
  encoding = codes "UTF8";
  connection_limit = pos 0;
  extensions = record { name = codes "pgcrypto"; schema = []; version = codes "1.3" } ∷ [];
  schemas = [];
  ownership = none;
}

abbrev database_spec : DatabaseSpec
database_spec = record {
  name = codes "shop";
  owner = codes "app";
  postgres = some database_config;
  mysql = none;
}

abbrev database_info : DatabaseInfo
database_info = record {
  owner = codes "app";
  encoding = codes "utf8";
  collation = [];
  extensions = record { name = codes "pgcrypto"; version = codes "1.3" } ∷ [];
  schemas = [];
  connection_limit = none;
  charset = [];
}

detect_postgres_database_drift-none_example :
    (detect_postgres_database_drift database_spec database_info [] (some database_config) ≡ [])
    ↔ DatabaseFits database_spec database_config database_info
detect_postgres_database_drift-none_example =
    detect_postgres_database_drift-none database_spec database_config database_info

database-none :
    detect_postgres_database_drift database_spec database_info [] (some database_config) ≡ []
unfolding detect_postgres_database_drift compare_owner equal_fold fold_case compare_extensions
    compare_versions version_of compare_schemas difference outside sort_strings insert_text text_ltb
    keys member derive_ownership_role_name truncate_identifier print_int
database-none = refl

abbrev version_diff : Diff
version_diff = record {
  field = version_field (codes "pgcrypto");
  expected = codes "1.3";
  actual = codes "1.2";
  destructive = true;
  immutable = false;
}

abbrev database_state : DatabaseAdapter (List UpdateDatabaseOptions)
database_state = record idle_adapter { update_database = λ name o s. (s ++ (o ∷ []), none) }

apply-version_field_example :
    apply_database_correction database_state database_spec version_diff []
    ≡ database_state.update_database database_spec.name
        (with_extensions
          (record { name = codes "pgcrypto"; schema = []; version = codes "1.3" } ∷ []))
        []
apply-version_field_example =
    apply-version_field database_state database_spec (codes "pgcrypto") (codes "1.3") (codes "1.2")
      [] refl
