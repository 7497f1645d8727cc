-- ===== src/Drift/Grants/Correct.antt =====
-- internal/service/drift/grant.go, the correction.
use db_provision_operator.Base.{
  Bool, List, Option, Text, [], codes, comma_space, contains, if◌then◌else◌, none, same_text, some,
  split, ◌++◌, ◌||◌, ◌∷◌,
}
use db_provision_operator.Errors.{GoError, foreign}
use db_provision_operator.Drift.{
  CorrectionResult, Diff, DriftResult, Reply, correct_diffs, destructive_reason,
  new_correction_result, unsupported,
}
use db_provision_operator.Drift.Adapter.{DatabaseAdapter, GrantOptions}
use db_provision_operator.Drift.Grants.{
  ClickHouseGrant, ClickHouseGrantConfig, GrantSpec, MySqlGrant, MySqlGrantConfig, PostgresGrant,
  PostgresGrantConfig, or_else, table_or_all,
}

-- strings.Contains on the names of a grant's objects: the first that the field contains
abbrev pub first_in_field : (Text → GrantOptions) → Text → List Text → Option GrantOptions
first_in_field options field [] = none
first_in_field options field (name ∷ names) =
    let rest = first_in_field options field names in
    if contains field name then some (options name) else rest

abbrev pub object_options :
    PostgresGrant → List Text → List Text → List Text → List Text → GrantOptions
object_options grant tables sequences functions privileges = record {
  database = grant.database;
  schema = grant.schema;
  tables = tables;
  sequences = sequences;
  functions = functions;
  privileges = privileges;
  level = [];
  table = [];
}

abbrev pub call_grant :
    {S : Type 0} → DatabaseAdapter S → Text → Option GrantOptions → S → Option (Reply S)
call_grant adapter grantee none s = none
call_grant adapter grantee (some o) s = some (adapter.grant grantee (o ∷ []) s)

-- one round of the loop of applyMissingPostgresGrant
unfoldable pub postgres_target : PostgresGrant → Text → List Text → Option GrantOptions
postgres_target grant field privileges =
    or_else
      (first_in_field (λ name. object_options grant (name ∷ []) [] [] privileges) field
        grant.tables)
      (or_else
        (first_in_field (λ name. object_options grant [] (name ∷ []) [] privileges) field
          grant.sequences)
        (first_in_field (λ name. object_options grant [] [] (name ∷ []) privileges) field
          grant.functions))

-- applyMissingPostgresGrant, `none` where it has found nothing
unfoldable pub apply_missing_postgres_grant :
    {S : Type 0}
    → DatabaseAdapter S
    → Text
    → List PostgresGrant
    → Diff
    → List Text
    → S
    → Option (Reply S)
apply_missing_postgres_grant adapter grantee [] d privileges s = none
apply_missing_postgres_grant adapter grantee (g ∷ gs) d privileges s =
    or_else (call_grant adapter grantee (postgres_target g d.field privileges) s)
      (apply_missing_postgres_grant adapter grantee gs d privileges s)

abbrev pub level_options : Text → Text → Text → List Text → GrantOptions
level_options level database table privileges = record {
  database = database;
  schema = [];
  tables = [];
  sequences = [];
  functions = [];
  privileges = privileges;
  level = level;
  table = table;
}

abbrev pub level_target : Text → Text → Text → Text → List Text → Option GrantOptions
level_target level database table field privileges =
    if contains field table || contains field database
    then some (level_options level database table privileges)
    else none

-- applyMissingMySQLGrant and applyMissingClickHouseGrant
unfoldable pub apply_missing_mysql_grant :
    {S : Type 0}
    → DatabaseAdapter S
    → Text
    → List MySqlGrant
    → Diff
    → List Text
    → S
    → Option (Reply S)
apply_missing_mysql_grant adapter grantee [] d privileges s = none
apply_missing_mysql_grant adapter grantee (g ∷ gs) d privileges s =
    or_else
      (call_grant adapter grantee
        (level_target [] g.database (table_or_all g.table) d.field privileges) s)
      (apply_missing_mysql_grant adapter grantee gs d privileges s)

unfoldable pub apply_missing_clickhouse_grant :
    {S : Type 0}
    → DatabaseAdapter S
    → Text
    → List ClickHouseGrant
    → Diff
    → List Text
    → S
    → Option (Reply S)
apply_missing_clickhouse_grant adapter grantee [] d privileges s = none
apply_missing_clickhouse_grant adapter grantee (g ∷ gs) d privileges s =
    or_else
      (call_grant adapter grantee
        (level_target g.level g.database (table_or_all g.table) d.field privileges) s)
      (apply_missing_clickhouse_grant adapter grantee gs d privileges s)

-- a configuration that the resource may not have
abbrev pub for_grants {ℓ κ} : {A : Type ℓ} {B : Type κ} → (A → Option B) → Option A → Option B
for_grants f none = none
for_grants f (some c) = f c

abbrev pub no_match : Diff → GoError
no_match d = foreign (codes "could not find matching grant for field: " ++ d.field)

abbrev pub reply_or {ℓ} : {S : Type ℓ} → Option (Reply S) → GoError → S → Reply S
reply_or none e s = (s, some e)
reply_or (some y) e s = y

-- applyMissingGrants
unfoldable pub apply_missing_grants :
    {S : Type 0} → DatabaseAdapter S → GrantSpec → Text → Diff → S → Reply S
apply_missing_grants adapter spec grantee d s =
    let privileges = split comma_space d.expected in
    reply_or
      (or_else
        (for_grants
          (λ (c : PostgresGrantConfig).
            apply_missing_postgres_grant adapter grantee c.grants d privileges s)
          spec.postgres)
        (or_else
          (for_grants
            (λ (c : MySqlGrantConfig).
              apply_missing_mysql_grant adapter grantee c.grants d privileges s)
            spec.mysql)
          (for_grants
            (λ (c : ClickHouseGrantConfig).
              apply_missing_clickhouse_grant adapter grantee c.grants d privileges s)
            spec.clickhouse)))
      (no_match d) s

-- revokeExtraGrants: the object is the third part of the field, and always taken for a table
abbrev pub revoke_parts : {S : Type 0} → DatabaseAdapter S → Text → Diff → List Text → S → Reply S
revoke_parts adapter grantee d (a ∷ b ∷ name ∷ parts) s =
    adapter.revoke grantee
      (record {
        database = [];
        schema = [];
        tables = name ∷ [];
        sequences = [];
        functions = [];
        privileges = split comma_space d.actual;
        level = [];
        table = [];
      }
        ∷ [])
      s
revoke_parts adapter grantee d _ s = (s, some (foreign (codes "invalid field format: " ++ d.field)))

unfoldable pub revoke_extra_grants : {S : Type 0} → DatabaseAdapter S → Text → Diff → S → Reply S
revoke_extra_grants adapter grantee d s =
    revoke_parts adapter grantee d (split (codes ".") d.field) s

-- applyGrantCorrection
unfoldable pub apply_grant_correction :
    {S : Type 0} → DatabaseAdapter S → GrantSpec → Text → Diff → S → Reply S
apply_grant_correction adapter spec grantee d s =
    if same_text d.field (codes "roles.missing")
    then adapter.grant_role grantee (split comma_space d.expected) s
    else if same_text d.field (codes "roles.extra")
    then adapter.revoke_role grantee (split comma_space d.actual) s
    else if contains d.field (codes ".missing")
    then apply_missing_grants adapter spec grantee d s
    else if contains d.field (codes ".extra")
    then revoke_extra_grants adapter grantee d s
    else (s, some (unsupported d))

-- CorrectGrantDrift
unfoldable pub correct_grant_drift :
    {S : Type 0}
    → DatabaseAdapter S
    → Bool
    → GrantSpec
    → Text
    → DriftResult
    → S
    → S × CorrectionResult
correct_grant_drift adapter allow_destructive spec grantee drift s =
    correct_diffs allow_destructive destructive_reason (apply_grant_correction adapter spec grantee)
      drift.diffs (s, new_correction_result grantee)
