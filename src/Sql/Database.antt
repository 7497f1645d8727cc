-- ===== src/Sql/Database.antt =====
-- internal/adapter/sqlbuilder/database.go: CREATE, ALTER and DROP DATABASE. The constructors set
-- one of three actions, so the empty text of `Build` for any other action does not arise.
pub mod Correct
use db_provision_operator.Base.{
  Text, codes, List, [], ◌∷◌, ◌++◌, Bool, true, false, is_empty, join, if◌then◌else◌,
}
use db_provision_operator.Base.Int.{ℤ, pos, negsuc, is_zero, print_int}
use db_provision_operator.Sql.Dialect.{
  Dialect, pg, mysql, clickhouse, escape_identifier, escape_literal,
}
use db_provision_operator.Sql.Options.{name_clause, name_option, string_option, with_options}

pub data DatabaseAction : Type 0 where
  create alter drop : DatabaseAction

pub record DatabaseBuilder : Type 0 where
  pub dialect : Dialect
  pub action : DatabaseAction
  pub name : Text
  pub owner : Text
  pub encoding : Text
  pub template : Text
  pub lc_collate : Text
  pub lc_ctype : Text
  pub tablespace : Text
  pub connection_limit : ℤ
  pub is_template : Bool
  pub charset : Text
  pub collation : Text
  pub if_exists : Bool
  pub cascade : Bool

-- PgCreateDatabase, MySQLDropDatabase and the four others
unfoldable pub new : Dialect → DatabaseAction → Text → DatabaseBuilder
new d a n = record {
  dialect = d;
  action = a;
  name = n;
  owner = [];
  encoding = [];
  template = [];
  lc_collate = [];
  lc_ctype = [];
  tablespace = [];
  connection_limit = pos 0;
  is_template = false;
  charset = [];
  collation = [];
  if_exists = false;
  cascade = false;
}

-- the option setters
pub data DatabaseOption : Type 0 where
  owner encoding template lc_collate lc_ctype tablespace charset collation : Text → DatabaseOption
  connection_limit : ℤ → DatabaseOption
  is_template : Bool → DatabaseOption
  if_exists cascade : DatabaseOption

unfoldable pub set_option : DatabaseOption → DatabaseBuilder → DatabaseBuilder
set_option (owner s) b = record b { owner = s }
set_option (encoding s) b = record b { encoding = s }
set_option (template s) b = record b { template = s }
set_option (lc_collate s) b = record b { lc_collate = s }
set_option (lc_ctype s) b = record b { lc_ctype = s }
set_option (tablespace s) b = record b { tablespace = s }
set_option (charset s) b = record b { charset = s }
set_option (collation s) b = record b { collation = s }
set_option (connection_limit n) b = record b { connection_limit = n }
set_option (is_template v) b = record b { is_template = v }
set_option if_exists b = record b { if_exists = true }
set_option cascade b = record b { cascade = true }

unfoldable pub mysql_clauses : DatabaseBuilder → Text
mysql_clauses b =
    name_clause b.dialect (codes " CHARACTER SET ") b.charset
    ++ name_clause b.dialect (codes " COLLATE ") b.collation

-- the options of a CREATE DATABASE for PostgreSQL, in the order of the source
unfoldable pub pg_options : DatabaseBuilder → List Text
pg_options b =
    name_option b.dialect (codes "OWNER = ") b.owner
    ++ (name_option b.dialect (codes "TEMPLATE = ") b.template
        ++ (string_option b.dialect (codes "ENCODING = ") b.encoding
            ++ (string_option b.dialect (codes "LC_COLLATE = ") b.lc_collate
                ++ (string_option b.dialect (codes "LC_CTYPE = ") b.lc_ctype
                    ++ (name_option b.dialect (codes "TABLESPACE = ") b.tablespace
                        ++ ((if is_zero b.connection_limit
                              then []
                              else (codes "CONNECTION LIMIT = " ++ print_int b.connection_limit)
                                ∷ [])
                            ++ (if b.is_template then codes "IS_TEMPLATE = TRUE" ∷ [] else [])))))))

unfoldable pub build_create : Dialect → DatabaseBuilder → Text
build_create mysql b =
    codes "CREATE DATABASE IF NOT EXISTS "
    ++ (escape_identifier b.dialect b.name ++ mysql_clauses b)
build_create pg b =
    codes "CREATE DATABASE " ++ (escape_identifier b.dialect b.name ++ with_options (pg_options b))
build_create clickhouse b =
    codes "CREATE DATABASE " ++ (escape_identifier b.dialect b.name ++ with_options (pg_options b))

-- the owner, or else the connection limit
unfoldable pub alter_clause : DatabaseBuilder → Text
alter_clause b =
    if is_empty b.owner
    then (if is_zero b.connection_limit
        then []
        else codes " CONNECTION LIMIT " ++ print_int b.connection_limit)
    else codes " OWNER TO " ++ escape_identifier b.dialect b.owner

unfoldable pub build_alter : Dialect → DatabaseBuilder → Text
build_alter mysql b =
    codes "ALTER DATABASE " ++ (escape_identifier b.dialect b.name ++ mysql_clauses b)
build_alter pg b = codes "ALTER DATABASE " ++ (escape_identifier b.dialect b.name ++ alter_clause b)
build_alter clickhouse b =
    codes "ALTER DATABASE " ++ (escape_identifier b.dialect b.name ++ alter_clause b)

unfoldable pub build_drop : DatabaseBuilder → Text
build_drop b =
    codes "DROP DATABASE "
    ++ ((if b.if_exists then codes "IF EXISTS " else [])
        ++ (escape_identifier b.dialect b.name ++ (if b.cascade then codes " CASCADE" else [])))

abbrev pub build_action : DatabaseAction → DatabaseBuilder → Text
build_action create b = build_create b.dialect b
build_action alter b = build_alter b.dialect b
build_action drop b = build_drop b

-- `Build`
unfoldable pub build : DatabaseBuilder → Text
build b = build_action b.action b
