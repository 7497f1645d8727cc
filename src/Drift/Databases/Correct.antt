-- ===== src/Drift/Databases/Correct.antt =====
-- internal/service/drift/database.go, the correction.
use db_provision_operator.Base.{
  Bool, List, Option, Text, [], codes, has_prefix, has_suffix, if◌then◌else◌, map, none, same_text,
  some, trim_prefix, trim_suffix, ◌&&◌, ◌||◌, ◌∷◌,
}
use db_provision_operator.Errors.{foreign}
use db_provision_operator.Drift.{
  CorrectionResult, Diff, DriftResult, Reply, correct_diffs, new_correction_result, unsupported,
}
use db_provision_operator.Drift.Adapter.{
  DatabaseAdapter, ExtensionOptions, SchemaOptions, UpdateDatabaseOptions,
}
use db_provision_operator.Drift.Databases.{
  DatabaseSpec, MySqlDatabaseConfig, PostgresDatabaseConfig, PostgresExtension, PostgresSchema,
}

-- correctDatabaseOwner
unfoldable pub correct_database_owner : {S : Type 0} → DatabaseAdapter S → Text → Text → S → Reply S
correct_database_owner adapter db_name new_owner s =
    adapter.transfer_database_ownership db_name new_owner s

-- installMissingExtensions, which names every extension of the resource
abbrev pub extension_options : PostgresExtension → ExtensionOptions
extension_options e = record { name = e.name; schema = e.schema; version = e.version }

abbrev pub with_extensions : List ExtensionOptions → UpdateDatabaseOptions
with_extensions es = record {
  extensions = es;
  schemas = [];
  connection_limit = none;
  charset = [];
  collation = [];
}

unfoldable pub install_missing_extensions :
    {S : Type 0} → DatabaseAdapter S → DatabaseSpec → Option PostgresDatabaseConfig → S → Reply S
install_missing_extensions adapter spec none s = (s, none)
install_missing_extensions adapter spec (some c) s =
    adapter.update_database spec.name (with_extensions (map extension_options c.extensions)) s

-- updateExtensionVersion
unfoldable pub update_extension_version :
    {S : Type 0} → DatabaseAdapter S → Text → Text → Text → S → Reply S
update_extension_version adapter db_name ext_name version s =
    adapter.update_database db_name
      (with_extensions (record { name = ext_name; schema = []; version = version } ∷ [])) s

-- createMissingSchemas
abbrev pub schema_options : PostgresSchema → SchemaOptions
schema_options e = record { name = e.name; owner = e.owner }

unfoldable pub create_missing_schemas :
    {S : Type 0} → DatabaseAdapter S → DatabaseSpec → Option PostgresDatabaseConfig → S → Reply S
create_missing_schemas adapter spec none s = (s, none)
create_missing_schemas adapter spec (some c) s =
    adapter.update_database spec.name
      (record {
        extensions = [];
        schemas = map schema_options c.schemas;
        connection_limit = none;
        charset = [];
        collation = [];
      })
      s

-- correctMySQLCharset
unfoldable pub correct_mysql_charset :
    {S : Type 0} → DatabaseAdapter S → DatabaseSpec → Option MySqlDatabaseConfig → S → Reply S
correct_mysql_charset adapter spec none s = (s, none)
correct_mysql_charset adapter spec (some c) s =
    adapter.update_database spec.name
      (record {
        extensions = [];
        schemas = [];
        connection_limit = none;
        charset = c.charset;
        collation = c.collation;
      })
      s

-- the case `connectionLimit`, which no detection makes for a resource without a PostgreSQL
-- configuration: there Go's nil pointer ends the run
abbrev pub set_connection_limit :
    {S : Type 0} → DatabaseAdapter S → DatabaseSpec → Option PostgresDatabaseConfig → S → Reply S
set_connection_limit adapter spec none s = (s, some (foreign (codes "nil pointer dereference")))
set_connection_limit adapter spec (some c) s =
    adapter.update_database spec.name
      (record {
        extensions = [];
        schemas = [];
        connection_limit = some c.connection_limit;
        charset = [];
        collation = [];
      })
      s

-- the name of the extension in the field of a version's diff
unfoldable pub extension_name : Text → Text
extension_name field = trim_prefix (trim_suffix field (codes ".version")) (codes "extensions.")

-- applyDatabaseCorrection
unfoldable pub apply_database_correction :
    {S : Type 0} → DatabaseAdapter S → DatabaseSpec → Diff → S → Reply S
apply_database_correction adapter spec d s =
    if same_text d.field (codes "owner")
    then correct_database_owner adapter spec.name d.expected s
    else if same_text d.field (codes "connectionLimit")
    then set_connection_limit adapter spec spec.postgres s
    else if has_prefix d.field (codes "extensions.missing")
    then install_missing_extensions adapter spec spec.postgres s
    else if has_prefix d.field (codes "extensions.") && has_suffix d.field (codes ".version")
    then update_extension_version adapter spec.name (extension_name d.field) d.expected s
    else if has_prefix d.field (codes "schemas.missing")
    then create_missing_schemas adapter spec spec.postgres s
    else if same_text d.field (codes "charset") || same_text d.field (codes "collation")
    then correct_mysql_charset adapter spec spec.mysql s
    else (s, some (unsupported d))

abbrev pub database_reason : Text
database_reason = codes "destructive correction not allowed (set annotation to enable)"

-- CorrectDatabaseDrift
unfoldable pub correct_database_drift :
    {S : Type 0} → DatabaseAdapter S → Bool → DatabaseSpec → DriftResult → S → S × CorrectionResult
correct_database_drift adapter allow_destructive spec drift s =
    correct_diffs allow_destructive database_reason (apply_database_correction adapter spec)
      drift.diffs (s, new_correction_result spec.name)
