-- ===== src/Tests/SqlRuns.antt =====
-- Statements of internal/adapter/sqlbuilder that are built and read back.
use db_provision_operator.Base.{
  Text, codes, List, [], ◌∷◌, ◌++◌, true, false, some, ◌≡◌, refl, none,
}
use db_provision_operator.Base.Int.{pos}
use db_provision_operator.Sql.Dialect.{pg, mysql, clickhouse, escape_identifier, escape_literal}
use db_provision_operator.Sql.Lexer.{lex, identifier, literal}
use db_provision_operator.Sql.Quoting.{lex-escape_identifier, lex-escape_literal, token_then}
use db_provision_operator.Sql.Statement.{tokens}
use db_provision_operator.Sql.Privilege.{
  valid_postgres_privileges, validate_privileges, valid_privileges, normalize_privileges,
  first_invalid, invalid_privilege,
}
use db_provision_operator.Sql.Grant as grants
use db_provision_operator.Sql.Grant.Outline as grant_outline
use db_provision_operator.Sql.Grant.Correct.{lex-build}
use db_provision_operator.Sql.Role as roles
use db_provision_operator.Sql.Role.Outline as role_outline
use db_provision_operator.Sql.Role.Correct.{lex-build_role}
use db_provision_operator.Sql.Database as databases
use db_provision_operator.Sql.Database.Correct as database_proofs
use db_provision_operator.Sql.Database.Correct.{lex-build_database}

abbrev grant_calls : List grants.Call
grant_calls =
    grants.on_action (grants.grant (codes " select " ∷ codes "INSERT" ∷ []))
    ∷ grants.on_target (grants.on_table (codes "pub\"lic") (codes "users"))
    ∷ grants.on_grantee (grants.to_name (codes "app; DROP"))
    ∷ []

abbrev grant_sql : Text
grant_sql = codes "GRANT SELECT, INSERT ON TABLE \"pub\"\"lic\".\"users\" TO \"app; DROP\""

grant_builds : grants.build (grants.run grant_calls (grants.new pg)) ≡ grants.ok grant_sql
unfolding grants.build grants.run grants.new validate_privileges valid_privileges escape_identifier
    normalize_privileges
grant_builds = refl

lex-build_example :
    lex pg grant_sql
    ≡ some (
        tokens (
          grant_outline.statement
            (grants.run grant_calls (grants.new pg)).action
            (grants.run grant_calls (grants.new pg))
            (grant_outline.outline pg grant_calls grant_outline.blank)))
lex-build_example = lex-build pg grant_calls grant_sql refl grant_builds

abbrev role_calls : List roles.RoleCall
role_calls =
    roles.add_option (roles.login true)
    ∷ roles.with_password (codes "it's\\")
    ∷ roles.in_roles (codes "readers" ∷ [])
    ∷ []

lex-build_role_example :
    lex pg (roles.build (roles.run role_calls (roles.new pg roles.create_role (codes "app") [])))
    ≡ some (
        tokens (
          role_outline.statement
            (roles.run role_calls (roles.new pg roles.create_role (codes "app") [])).action
            (roles.run role_calls (roles.new pg roles.create_role (codes "app") []))
            (role_outline.options role_calls [])))
lex-build_role_example = lex-build_role pg roles.create_role (codes "app") [] role_calls refl refl

abbrev shop : databases.DatabaseBuilder
shop = record {
  dialect = mysql;
  action = databases.create;
  name = codes "sh`op";
  owner = [];
  encoding = [];
  template = [];
  lc_collate = [];
  lc_ctype = [];
  tablespace = [];
  connection_limit = pos 0;
  is_template = false;
  charset = codes "utf8mb4";
  collation = [];
  if_exists = false;
  cascade = false;
}

lex-build_database_example :
    lex mysql (databases.build shop)
    ≡ some (tokens (database_proofs.statement databases.create shop))
lex-build_database_example = lex-build_database shop refl

lex-escape_identifier_example :
    lex pg (escape_identifier pg (codes "a\"b") ++ codes " x")
    ≡ token_then (identifier (codes "a\"b")) (lex pg (codes " x"))
lex-escape_identifier_example = lex-escape_identifier pg (codes "a\"b") (codes " x") refl refl

-- The backslash at the end of a ClickHouse name escapes the closing quote, so the name has no end.
unended : lex clickhouse (escape_identifier clickhouse (codes "a\\")) ≡ none
unfolding lex escape_identifier
unended = refl

lex-escape_literal_example :
    lex mysql (escape_literal mysql (codes "it's\\") ++ codes ";")
    ≡ token_then (literal (codes "it's\\")) (lex mysql (codes ";"))
lex-escape_literal_example = lex-escape_literal mysql (codes "it's\\") (codes ";") refl

abbrev mixed : List Text
mixed = codes "SELECT" ∷ codes "DROP ALL" ∷ codes "INSERT" ∷ []

mixed-fails :
    first_invalid mixed valid_postgres_privileges ≡ some (invalid_privilege (codes "DROP ALL"))
unfolding first_invalid
mixed-fails = refl
