-- ===== src/Drift/Databases.antt =====
-- internal/service/drift/database.go: a database against its resource. Go's iteration over the map
-- of the expected extensions is in the order of their last entries here; a name holds one byte
-- for each of its numbers where it is cut to 63.
pub mod Fitting
pub mod Compared
pub mod Correct
pub mod Named
use db_provision_operator.Base.{
  Bool, List, Option, Result, Text, [], codes, err, false, if◌then◌else◌, is_empty, keys, length,
  ltb, map, none, not, ok, outside, same_text, some, sort_strings, take, true, ℕ, ◌&&◌, ◌++◌, ◌∷◌,
}
use db_provision_operator.Base.Int.{is_zero, print_int, ℤ}
use db_provision_operator.Errors.{GoError, wrapped}
use db_provision_operator.Drift.{Diff, DriftResult, add_diff}
use db_provision_operator.Drift.Adapter.{DatabaseAdapter, DatabaseInfo, ExtensionInfo, equal_fold}
use db_provision_operator.Drift.Memberships.{add_missing, difference}
use db_provision_operator.Drift.Users.{int_unequal}
use db_provision_operator.Drift.Grants.{or_else}

pub record PostgresExtension : Type 0 where
  pub name : Text
  pub schema : Text
  pub version : Text

pub record PostgresSchema : Type 0 where
  pub name : Text
  pub owner : Text

pub record OwnershipConfig : Type 0 where
  pub auto_ownership : Bool
  pub role_name : Text
  pub user_name : Text

pub record PostgresDatabaseConfig : Type 0 where
  pub encoding : Text
  pub connection_limit : ℤ
  pub extensions : List PostgresExtension
  pub schemas : List PostgresSchema
  pub ownership : Option OwnershipConfig

pub record MySqlDatabaseConfig : Type 0 where
  pub charset : Text
  pub collation : Text

pub record DatabaseSpec : Type 0 where
  pub name : Text
  pub owner : Text
  pub postgres : Option PostgresDatabaseConfig
  pub mysql : Option MySqlDatabaseConfig

-- `name[:63]` of a longer name
unfoldable pub truncate_identifier : Text → Text
truncate_identifier name = if ltb 63 (length name) then take 63 name else name

abbrev pub role_name_or : Text → Text → Text
role_name_or [] db_name = truncate_identifier (codes "db_" ++ (db_name ++ codes "_owner"))
role_name_or (c ∷ s) db_name = c ∷ s

-- deriveOwnershipRoleName
unfoldable pub derive_ownership_role_name : Option OwnershipConfig → Text → Text
derive_ownership_role_name none db_name = role_name_or [] db_name
derive_ownership_role_name (some o) db_name = role_name_or o.role_name db_name

abbrev pub has_auto_ownership : Option OwnershipConfig → Bool
has_auto_ownership none = false
has_auto_ownership (some o) = o.auto_ownership

abbrev pub add_if : Bool → Text → Text → Text → Bool → Bool → List Diff → List Diff
add_if differs field expected actual destructive immutable diffs =
    if differs
    then add_diff diffs (record {
      field = field;
      expected = expected;
      actual = actual;
      destructive = destructive;
      immutable = immutable;
    })
    else diffs

-- the comparison of the owner
unfoldable pub compare_owner :
    DatabaseSpec → PostgresDatabaseConfig → DatabaseInfo → List Diff → List Diff
compare_owner spec c i diffs =
    let derived = derive_ownership_role_name c.ownership spec.name in
    if has_auto_ownership c.ownership
    then add_if (not (same_text i.owner derived)) (codes "owner") derived i.owner false false diffs
    else add_if (not (is_empty spec.owner) && not (same_text i.owner spec.owner)) (codes "owner")
        spec.owner i.owner false false diffs

-- the comparison of a text that may be left open, up to case
abbrev pub compare_folded : Text → Text → Text → Bool → List Diff → List Diff
compare_folded field expected actual immutable diffs =
    add_if (not (is_empty expected) && not (equal_fold expected actual)) field expected actual false
      immutable diffs

-- the comparison of the connection limit, with what the engine reports
abbrev pub compare_connection_limit : ℤ → Option ℤ → List Diff → List Diff
compare_connection_limit expected none diffs = diffs
compare_connection_limit expected (some actual) diffs =
    add_if (not (is_zero expected) && int_unequal expected actual) (codes "connectionLimit")
      (print_int expected) (print_int actual) false false diffs

-- the version that a map built from these entries has for a name
unfoldable pub version_of {ℓ} : {A : Type ℓ} → (A → Text) → (A → Text) → List A → Text → Option Text
version_of name_of value_of [] n = none
version_of name_of value_of (x ∷ xs) n =
    or_else (version_of name_of value_of xs n)
      (if same_text (name_of x) n then some (value_of x) else none)

abbrev pub actual_version : List ExtensionInfo → Text → Option Text
actual_version actual n =
    version_of (λ (e : ExtensionInfo). e.name) (λ (e : ExtensionInfo). e.version) actual n

abbrev pub expected_version : List PostgresExtension → Text → Option Text
expected_version expected n =
    version_of (λ (e : PostgresExtension). e.name) (λ (e : PostgresExtension). e.version) expected n

-- the test of one name of the last loop of compareExtensions
abbrev pub compare_version : Text → Option Text → Option Text → List Diff → List Diff
compare_version n (some expected) (some actual) diffs =
    add_if (not (is_empty expected) && not (same_text actual expected))
      (codes "extensions." ++ (n ++ codes ".version")) expected actual true false diffs
compare_version n expected actual diffs = diffs

unfoldable pub compare_versions :
    List PostgresExtension → List ExtensionInfo → List Text → List Diff → List Diff
compare_versions expected actual [] diffs = diffs
compare_versions expected actual (n ∷ ns) diffs =
    compare_versions expected actual ns
      (compare_version n (expected_version expected n) (actual_version actual n) diffs)

abbrev pub extension_names : List PostgresExtension → List Text
extension_names expected = map (λ (e : PostgresExtension). e.name) expected

abbrev pub installed_names : List ExtensionInfo → List Text
installed_names actual = map (λ (e : ExtensionInfo). e.name) actual

-- compareExtensions
unfoldable pub compare_extensions :
    List PostgresExtension → List ExtensionInfo → List Diff → List Diff
compare_extensions expected actual diffs =
    compare_versions expected actual (keys (extension_names expected)) (
      add_missing (codes "extensions.missing")
        (difference (extension_names expected) (installed_names actual)) diffs)

abbrev pub schema_names : List PostgresSchema → List Text
schema_names expected = map (λ (e : PostgresSchema). e.name) expected

-- compareSchemas
unfoldable pub compare_schemas : List PostgresSchema → List Text → List Diff → List Diff
compare_schemas expected actual diffs =
    add_missing (codes "schemas.missing") (sort_strings (outside actual (schema_names expected)))
      diffs

-- detectPostgresDatabaseDrift
unfoldable pub detect_postgres_database_drift :
    DatabaseSpec → DatabaseInfo → List Diff → Option PostgresDatabaseConfig → List Diff
detect_postgres_database_drift spec i diffs none = diffs
detect_postgres_database_drift spec i diffs (some c) = compare_schemas c.schemas i.schemas (
    compare_extensions c.extensions i.extensions (
      compare_connection_limit c.connection_limit i.connection_limit (
        compare_folded (codes "encoding") c.encoding i.encoding true
          (compare_owner spec c i diffs))))

-- detectMySQLDatabaseDrift
unfoldable pub detect_mysql_database_drift :
    DatabaseInfo → List Diff → Option MySqlDatabaseConfig → List Diff
detect_mysql_database_drift i diffs none = diffs
detect_mysql_database_drift i diffs (some c) =
    compare_folded (codes "collation") c.collation i.collation false
      (compare_folded (codes "charset") c.charset i.charset false diffs)

abbrev pub database_result :
    ℕ → DatabaseSpec → Result GoError DatabaseInfo → Result GoError DriftResult
database_result now spec (err e) = err (wrapped (codes "get database info: ") e)
database_result now spec (ok i) = ok (record {
  resource_type = codes "database";
  resource_name = spec.name;
  checked_at = now;
  diffs =
      detect_mysql_database_drift i (detect_postgres_database_drift spec i [] spec.postgres)
        spec.mysql;
})

-- DetectDatabaseDrift
unfoldable pub detect_database_drift :
    {S : Type 0} → DatabaseAdapter S → ℕ → DatabaseSpec → S → Result GoError DriftResult
detect_database_drift adapter now spec s =
    database_result now spec (adapter.get_database_info spec.name s)
