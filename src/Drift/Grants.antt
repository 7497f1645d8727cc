-- ===== src/Drift/Grants.antt =====
-- internal/service/drift/grant.go, the detection: the roles and the privileges of a grantee against
-- those of the resource. A `map[string][]string` built from a listing is read as the last entry
-- of a key; the case of letters outside ASCII is kept.
pub mod Detected
pub mod Correct
use db_provision_operator.Sql.Privilege.{to_upper, normalize}
use db_provision_operator.Errors.{GoError, to_lower, wrapped}
use db_provision_operator.Base.{
  List, Option, Result, Text, [], codes, comma_space, err, false, filter, if◌then◌else◌, is_empty,
  join, keys, map, member, none, not, ok, outside, same_text, some, some_of, sort_strings, ℕ, ◌&&◌,
  ◌++◌, ◌∷◌,
}
use db_provision_operator.Drift.{Diff, DriftResult, add_diff}
use db_provision_operator.Drift.Adapter.{DatabaseAdapter, GrantInfo, equal_fold}
use db_provision_operator.Drift.Memberships.{add_extra, add_missing, detect_role_membership_drift}

-- PostgresGrant
pub record PostgresGrant : Type 0 where
  pub database : Text
  pub schema : Text
  pub tables : List Text
  pub sequences : List Text
  pub functions : List Text
  pub privileges : List Text

-- MySQLGrant
pub record MySqlGrant : Type 0 where
  pub database : Text
  pub table : Text
  pub privileges : List Text

-- ClickHouseGrant
pub record ClickHouseGrant : Type 0 where
  pub level : Text
  pub database : Text
  pub table : Text
  pub privileges : List Text

-- PostgresGrantConfig, MySQLGrantConfig and ClickHouseGrantConfig
pub record PostgresGrantConfig : Type 0 where
  pub roles : List Text
  pub grants : List PostgresGrant

pub record MySqlGrantConfig : Type 0 where
  pub grants : List MySqlGrant

pub record ClickHouseGrantConfig : Type 0 where
  pub roles : List Text
  pub grants : List ClickHouseGrant

-- DatabaseGrantSpec
pub record GrantSpec : Type 0 where
  pub postgres : Option PostgresGrantConfig
  pub mysql : Option MySqlGrantConfig
  pub clickhouse : Option ClickHouseGrantConfig

abbrev pub upper : Text → Text
upper p = map to_upper p

abbrev pub lower : Text → Text
lower s = map to_lower s

abbrev pub schema_part : Text → List Text
schema_part [] = []
schema_part (c ∷ s) = (c ∷ s) ∷ []

-- buildGrantKey
unfoldable pub build_grant_key : Text → Text → Text → Text → Text
build_grant_key database schema object_type object_name =
    lower (join (codes ".") (database ∷ (schema_part schema ++ (object_type ∷ object_name ∷ []))))

abbrev pub or_else {ℓ} : {A : Type ℓ} → Option A → Option A → Option A
or_else none o = o
or_else (some a) o = some a

-- `actualGrantMap[key]`, where the key of a row may be none
unfoldable pub last_privileges :
    (GrantInfo → Option Text) → List GrantInfo → Text → Option (List Text)
last_privileges key_of [] key = none
last_privileges key_of (g ∷ gs) key =
    or_else (last_privileges key_of gs key) (elim (key_of g) [
      | none ↦ none
      | some k ↦ if same_text k key then some g.privileges else none
    ])

-- the keys of detectPostgresDirectGrantDrift, which skips role memberships
unfoldable pub postgres_key : GrantInfo → Option Text
postgres_key g =
    if equal_fold g.object_type (codes "ROLE")
    then none
    else some (build_grant_key g.database g.schema g.object_type g.object_name)

-- the keys of detectMySQLDirectGrantDrift
unfoldable pub mysql_key : GrantInfo → Option Text
mysql_key g = some (build_grant_key g.database [] g.object_type g.object_name)

-- the field of a diff on an object's grant
unfoldable pub grant_field : Text → Text → Text → Text
grant_field kind name suffix = codes "grants." ++ (kind ++ (codes "." ++ (name ++ suffix)))

-- the privileges that a set, compared in upper case, does not have
unfoldable pub privileges_outside : List Text → List Text → List Text
privileges_outside set privileges = filter (λ p. not (member (upper p) (map upper set))) privileges

-- no entry for the object
abbrev pub add_absent : Text → List Text → List Diff → List Diff
add_absent field privileges diffs = add_diff diffs (record {
  field = field;
  expected = join comma_space privileges;
  actual = [];
  destructive = false;
  immutable = false;
})

-- checkObjectGrant, on what the lookup of the object's key found
unfoldable pub check_found : Text → Text → List Text → Option (List Text) → List Diff → List Diff
check_found kind name expected none diffs = add_absent (grant_field kind name []) expected diffs
check_found kind name expected (some actual) diffs =
    add_extra (grant_field kind name (codes ".extra")) (privileges_outside expected actual) (
      add_missing (grant_field kind name (codes ".missing")) (privileges_outside actual expected)
        diffs)

-- checkObjectGrant
unfoldable pub check_object_grant :
    Text → Text → Text → Text → List Text → List GrantInfo → List Diff → List Diff
check_object_grant database schema object_type object_name expected actual_grants diffs =
    check_found (lower object_type) object_name expected
      (last_privileges postgres_key actual_grants
        (build_grant_key database schema object_type object_name))
      diffs

-- one of the three loops over the names of a grant's objects
unfoldable pub check_objects :
    PostgresGrant → Text → List GrantInfo → List Text → List Diff → List Diff
check_objects grant object_type actual_grants [] diffs = diffs
check_objects grant object_type actual_grants (name ∷ names) diffs =
    check_objects grant object_type actual_grants names (
      check_object_grant grant.database grant.schema object_type name grant.privileges actual_grants
        diffs)

-- detectPostgresDirectGrantDrift
unfoldable pub detect_postgres_direct_grant_drift :
    PostgresGrant → List GrantInfo → List Diff → List Diff
detect_postgres_direct_grant_drift grant actual_grants diffs =
    check_objects grant (codes "FUNCTION") actual_grants grant.functions (
      check_objects grant (codes "SEQUENCE") actual_grants grant.sequences
        (check_objects grant (codes "TABLE") actual_grants grant.tables diffs))

-- the table of a MySQL or ClickHouse grant, `*` for all of them
abbrev pub table_or_all : Text → Text
table_or_all [] = codes "*"
table_or_all (c ∷ s) = c ∷ s

-- detectMySQLDirectGrantDrift, on what the lookup found: privileges too many are no drift
unfoldable pub check_mysql_found : MySqlGrant → Option (List Text) → List Diff → List Diff
check_mysql_found grant none diffs =
    add_absent (grant_field grant.database (table_or_all grant.table) []) grant.privileges diffs
check_mysql_found grant (some actual) diffs =
    add_missing (grant_field grant.database (table_or_all grant.table) (codes ".missing"))
      (privileges_outside actual grant.privileges) diffs

unfoldable pub detect_mysql_direct_grant_drift : MySqlGrant → List GrantInfo → List Diff → List Diff
detect_mysql_direct_grant_drift grant actual_grants diffs =
    check_mysql_found grant
      (last_privileges mysql_key actual_grants
        (build_grant_key grant.database [] (codes "TABLE") (table_or_all grant.table)))
      diffs

-- the loop of detectClickHouseDirectGrantDrift over the rows of the grant's database
unfoldable pub check_clickhouse_rows : ClickHouseGrant → List GrantInfo → List Diff → List Diff
check_clickhouse_rows grant [] diffs = diffs
check_clickhouse_rows grant (g ∷ gs) diffs =
    let field = grant_field grant.database (table_or_all grant.table) (codes ".missing") in
    let missing =
      sort_strings (outside (map normalize g.privileges) (keys (map normalize grant.privileges))) in
    check_clickhouse_rows grant gs
      (if same_text g.database grant.database then add_missing field missing diffs else diffs)

-- detectClickHouseDirectGrantDrift
unfoldable pub detect_clickhouse_direct_grant_drift :
    ClickHouseGrant → List GrantInfo → List Diff → List Diff
detect_clickhouse_direct_grant_drift grant actual_grants diffs =
    let found = some_of (λ (g : GrantInfo). same_text g.database grant.database) actual_grants in
    let after = check_clickhouse_rows grant actual_grants diffs in
    if not found && not (is_empty grant.privileges)
    then add_absent (grant_field grant.database (table_or_all grant.table) (codes ".missing"))
        grant.privileges after
    else after

-- the loop over the grants of an engine's configuration
unfoldable pub detect_each {ℓ} :
    {A : Type ℓ}
    → (A → List GrantInfo → List Diff → List Diff)
    → List A
    → List GrantInfo
    → List Diff
    → List Diff
detect_each detect [] actual_grants diffs = diffs
detect_each detect (g ∷ gs) actual_grants diffs =
    detect_each detect gs actual_grants (detect g actual_grants diffs)

-- detectPostgresGrantDrift, detectMySQLGrantDrift and detectClickHouseGrantDrift
unfoldable pub detect_postgres_grant_drift :
    Option PostgresGrantConfig → List GrantInfo → List Diff → List Diff
detect_postgres_grant_drift none actual_grants diffs = diffs
detect_postgres_grant_drift (some c) actual_grants diffs =
    detect_each detect_postgres_direct_grant_drift c.grants actual_grants
      (detect_role_membership_drift c.roles actual_grants diffs)

unfoldable pub detect_mysql_grant_drift :
    Option MySqlGrantConfig → List GrantInfo → List Diff → List Diff
detect_mysql_grant_drift none actual_grants diffs = diffs
detect_mysql_grant_drift (some c) actual_grants diffs =
    detect_each detect_mysql_direct_grant_drift c.grants actual_grants diffs

unfoldable pub detect_clickhouse_grant_drift :
    Option ClickHouseGrantConfig → List GrantInfo → List Diff → List Diff
detect_clickhouse_grant_drift none actual_grants diffs = diffs
detect_clickhouse_grant_drift (some c) actual_grants diffs =
    detect_each detect_clickhouse_direct_grant_drift c.grants actual_grants
      (if is_empty c.roles then diffs else detect_role_membership_drift c.roles actual_grants diffs)

unfoldable pub grant_diffs : GrantSpec → List GrantInfo → List Diff
grant_diffs spec actual_grants = detect_clickhouse_grant_drift spec.clickhouse actual_grants (
    detect_mysql_grant_drift spec.mysql actual_grants
      (detect_postgres_grant_drift spec.postgres actual_grants []))

abbrev pub grant_result :
    ℕ → GrantSpec → Text → Result GoError (List GrantInfo) → Result GoError DriftResult
grant_result now spec grantee (err e) = err (wrapped (codes "get grants: ") e)
grant_result now spec grantee (ok actual_grants) = ok (record {
  resource_type = codes "grant";
  resource_name = grantee;
  checked_at = now;
  diffs = grant_diffs spec actual_grants;
})

-- DetectGrantDrift
unfoldable pub detect_grant_drift :
    {S : Type 0} → DatabaseAdapter S → ℕ → GrantSpec → Text → S → Result GoError DriftResult
detect_grant_drift adapter now spec grantee s =
    grant_result now spec grantee (adapter.get_grants grantee s)
