-- ===== src/Sql/Role/Outline.antt =====
-- What a chain of calls on a `RoleBuilder` asks for, as the parts of a statement.
use db_provision_operator.Sql.Statement.{Parts, is_word, name, string, word}
use db_provision_operator.Base.{
  Bool, List, Text, [], codes, if◌then◌else◌, is_empty, true, ◌++◌, ◌∷◌,
}
use db_provision_operator.Base.Int.{print_int}
use db_provision_operator.Sql.Dialect.{Dialect, mysql}
use db_provision_operator.Sql.Options.{joined, optional_word, string_parts, with_parts}
use db_provision_operator.Sql.Role.{
  RoleAction, RoleBuilder, RoleCall, RoleOption, account_lock, account_unlock, action_text,
  add_option, alter_role, alter_user, auth_plugin, bypass_rls, connection_limit, create_db,
  create_role, create_role_opt, create_user, drop_role, drop_user, inherit, login, replication,
  require_none, require_ssl, require_x509, resource_option, superuser, valid_until,
}

abbrev pub flag_parts : Bool → Text → Parts
flag_parts v flag = if v then word flag ∷ [] else word (codes "NO" ++ flag) ∷ []

abbrev pub option_parts : RoleOption → Parts
option_parts (login v) = flag_parts v (codes "LOGIN")
option_parts (superuser v) = flag_parts v (codes "SUPERUSER")
option_parts (create_db v) = flag_parts v (codes "CREATEDB")
option_parts (create_role_opt v) = flag_parts v (codes "CREATEROLE")
option_parts (inherit v) = flag_parts v (codes "INHERIT")
option_parts (replication v) = flag_parts v (codes "REPLICATION")
option_parts (bypass_rls v) = flag_parts v (codes "BYPASSRLS")
option_parts (connection_limit n) = word (codes "CONNECTION LIMIT ") ∷ word (print_int n) ∷ []
option_parts (valid_until ts) = word (codes "VALID UNTIL ") ∷ string ts ∷ []
option_parts account_lock = word (codes "ACCOUNT LOCK") ∷ []
option_parts account_unlock = word (codes "ACCOUNT UNLOCK") ∷ []
option_parts require_ssl = word (codes "REQUIRE SSL") ∷ []
option_parts require_x509 = word (codes "REQUIRE X509") ∷ []
option_parts require_none = word (codes "REQUIRE NONE") ∷ []
option_parts (resource_option opt) = word opt ∷ []

-- The options that a chain of calls has added, as parts.
abbrev pub noted : RoleCall → List Parts → List Parts
noted (add_option o) ps = ps ++ option_parts o ∷ []
noted _ ps = ps

abbrev pub options : List RoleCall → List Parts → List Parts
options [] ps = ps
options (c ∷ cs) ps = options cs (noted c ps)

-- The two setters whose text is written as it is are given words without quotes.
abbrev pub is_raw_word : RoleCall → Bool
is_raw_word (add_option (resource_option opt)) = is_word opt
is_raw_word (auth_plugin plugin) = is_word plugin
is_raw_word _ = true

abbrev pub role_names : List Text → List Parts
role_names [] = []
role_names (r ∷ rs) = (name r ∷ []) ∷ role_names rs

abbrev pub in_roles_parts : List Text → List Parts
in_roles_parts [] = []
in_roles_parts (r ∷ rs) = (word (codes "IN ROLE ") ∷ joined (codes ", ") (role_names (r ∷ rs))) ∷ []

abbrev pub all_options : RoleBuilder → List Parts → List Parts
all_options b os = string_parts (codes "PASSWORD ") b.password ++ (os ++ in_roles_parts b.in_roles)

abbrev pub pg_statement : RoleBuilder → List Parts → Parts
pg_statement b os =
    word (action_text b.action) ∷ word (codes " ") ∷ name b.name ∷ with_parts (all_options b os)

abbrev pub plugin_parts : Text → Text → Parts
plugin_parts words plugin = if is_empty plugin then [] else word words ∷ word plugin ∷ []

abbrev pub identified_parts : RoleBuilder → Parts
identified_parts b =
    if is_empty b.password
    then plugin_parts (codes " IDENTIFIED WITH ") b.auth_plugin
    else word (codes " IDENTIFIED")
      ∷ (plugin_parts (codes " WITH ") b.auth_plugin
          ++ (word (codes " BY ") ∷ string b.password ∷ []))

abbrev pub mysql_parts : RoleAction → RoleBuilder → Parts
mysql_parts create_role b = word (codes "CREATE ROLE IF NOT EXISTS ") ∷ string b.name ∷ []
mysql_parts create_user b =
    word (codes "CREATE USER IF NOT EXISTS ")
    ∷ string b.name
    ∷ word (codes "@")
    ∷ string b.host
    ∷ identified_parts b
mysql_parts alter_user b =
    word (codes "ALTER USER ")
    ∷ string b.name
    ∷ word (codes "@")
    ∷ string b.host
    ∷ (if is_empty b.password then [] else word (codes " IDENTIFIED BY ") ∷ string b.password ∷ [])
mysql_parts _ b = []

abbrev pub spaced_parts : List Parts → Parts
spaced_parts [] = []
spaced_parts (p ∷ ps) = word (codes " ") ∷ joined (codes " ") (p ∷ ps)

abbrev pub create_or_alter : Dialect → RoleBuilder → List Parts → Parts
create_or_alter mysql b os = mysql_parts b.action b ++ spaced_parts os
create_or_alter _ b os = pg_statement b os

abbrev pub drop_statement : Text → Dialect → RoleBuilder → Parts → Parts
drop_statement verb mysql b account =
    word verb ∷ (optional_word (codes "IF EXISTS ") b.if_exists ++ account)
drop_statement verb _ b account =
    word verb ∷ (optional_word (codes "IF EXISTS ") b.if_exists ++ name b.name ∷ [])

-- The statement of a builder with the given options.
abbrev pub statement : RoleAction → RoleBuilder → List Parts → Parts
statement drop_role b os = drop_statement (codes "DROP ROLE ") b.dialect b (string b.name ∷ [])
statement drop_user b os =
    drop_statement (codes "DROP USER ") b.dialect b
      (string b.name ∷ word (codes "@") ∷ string b.host ∷ [])
statement alter_role b os =
    if is_empty b.set_param
    then create_or_alter b.dialect b os
    else word (codes "ALTER ROLE ")
      ∷ name b.name
      ∷ word (codes " SET ")
      ∷ name b.set_param
      ∷ word (codes " = ")
      ∷ string b.set_value
      ∷ []
statement _ b os = create_or_alter b.dialect b os
