-- ===== src/Sql/Privilege.antt =====
-- internal/adapter/sqlbuilder/privilege.go: the allowlists and the check against them.
pub mod Allowed
use db_provision_operator.Base.{
  ℕ, ◌-◌, Text, codes, List, [], ◌∷◌, Bool, ◌&&◌, ◌||◌, leb, ◌==◌, if◌then◌else◌, Option, none,
  some, map, some_of, same_text,
}
use db_provision_operator.Sql.Dialect.{Dialect, pg, mysql, clickhouse}
use mathlib.Core.List.{reverse}

-- The errors of the builders.
pub data BuildError : Type 0 where
  no_privileges : BuildError
  invalid_privilege : Text → BuildError
  no_target no_grantee no_role no_object_type : BuildError

abbrev pub valid_postgres_privileges : List Text
valid_postgres_privileges = map codes (
    "SELECT" ∷ "INSERT" ∷ "UPDATE" ∷ "DELETE" ∷ "TRUNCATE" ∷ "REFERENCES" ∷ "TRIGGER" ∷ "CREATE"
    ∷ "CONNECT" ∷ "TEMPORARY" ∷ "TEMP" ∷ "EXECUTE" ∷ "USAGE" ∷ "ALL" ∷ "ALL PRIVILEGES" ∷ [])

abbrev pub valid_mysql_privileges : List Text
valid_mysql_privileges = map codes (
    "ALL" ∷ "ALL PRIVILEGES" ∷ "ALTER" ∷ "ALTER ROUTINE" ∷ "CREATE" ∷ "CREATE ROUTINE"
    ∷ "CREATE TABLESPACE" ∷ "CREATE TEMPORARY TABLES" ∷ "CREATE USER" ∷ "CREATE VIEW" ∷ "DELETE"
    ∷ "DROP" ∷ "EVENT" ∷ "EXECUTE" ∷ "FILE" ∷ "GRANT OPTION" ∷ "INDEX" ∷ "INSERT" ∷ "LOCK TABLES"
    ∷ "PROCESS" ∷ "REFERENCES" ∷ "RELOAD" ∷ "REPLICATION CLIENT" ∷ "REPLICATION SLAVE" ∷ "SELECT"
    ∷ "SHOW DATABASES" ∷ "SHOW VIEW" ∷ "SHUTDOWN" ∷ "SUPER" ∷ "TRIGGER" ∷ "UPDATE" ∷ "USAGE" ∷ [])

abbrev pub valid_clickhouse_privileges : List Text
valid_clickhouse_privileges = map codes (
    "ALL" ∷ "SELECT" ∷ "INSERT" ∷ "ALTER" ∷ "CREATE" ∷ "DROP" ∷ "TRUNCATE" ∷ "SHOW" ∷ "OPTIMIZE"
    ∷ "CREATE DATABASE" ∷ "CREATE TABLE" ∷ "CREATE VIEW" ∷ "CREATE DICTIONARY"
    ∷ "CREATE TEMPORARY TABLE" ∷ "CREATE FUNCTION" ∷ "ALTER TABLE" ∷ "ALTER VIEW" ∷ "DROP DATABASE"
    ∷ "DROP TABLE" ∷ "DROP VIEW" ∷ "DROP DICTIONARY" ∷ "DROP FUNCTION" ∷ "SHOW DATABASES"
    ∷ "SHOW TABLES" ∷ "SHOW DICTIONARIES" ∷ "SHOW COLUMNS" ∷ "KILL QUERY" ∷ "SYSTEM" ∷ [])

-- the method of the interface
unfoldable pub valid_privileges : Dialect → List Text
valid_privileges pg = valid_postgres_privileges
valid_privileges mysql = valid_mysql_privileges
valid_privileges clickhouse = valid_clickhouse_privileges

-- unicode.IsSpace
unfoldable pub is_space : ℕ → Bool
is_space c =
    (leb 9 c && leb c 13)
    || c == 32
    || c == 0x85
    || c == 0xa0
    || c == 0x1680
    || (leb 0x2000 c && leb c 0x200a)
    || c == 0x2028
    || c == 0x2029
    || c == 0x202f
    || c == 0x205f
    || c == 0x3000

unfoldable pub trim_left : Text → Text
unfolding is_space
trim_left [] = []
trim_left (c ∷ s) = let rest = trim_left s in if is_space c then rest else c ∷ s

-- strings.TrimSpace
unfoldable pub trim_space : Text → Text
unfolding trim_left
trim_space s = reverse (trim_left (reverse (trim_left s)))

-- unicode.ToUpper as far as it can make an ASCII letter: the ASCII letters, the dotless i and the
-- long s. Any other character stays outside ASCII, so no allowlist reads it.
unfoldable pub to_upper : ℕ → ℕ
to_upper c =
    if leb b'a' c && leb c b'z'
    then c - 32
    else if c == 0x131
    then b'I'
    else if c == 0x17f
    then b'S'
    else c

-- strings.ToUpper(strings.TrimSpace(p))
unfoldable pub normalize : Text → Text
unfolding to_upper trim_space
normalize p = map to_upper (trim_space p)

unfoldable pub normalize_privileges : List Text → List Text
unfolding normalize
normalize_privileges privs = map normalize privs

-- the lookup `allowlist[upper]`
abbrev pub allows : List Text → Text → Bool
allows allowlist upper = some_of (same_text upper) allowlist

-- the loop of `ValidatePrivileges`
unfoldable pub first_invalid : List Text → List Text → Option BuildError
unfolding normalize
first_invalid [] allowlist = none
first_invalid (p ∷ ps) allowlist =
    let rest = first_invalid ps allowlist in
    if allows allowlist (normalize p) then rest else some (invalid_privilege p)

unfoldable pub validate_privileges : List Text → List Text → Option BuildError
unfolding first_invalid
validate_privileges [] allowlist = some no_privileges
validate_privileges (p ∷ ps) allowlist = first_invalid (p ∷ ps) allowlist
