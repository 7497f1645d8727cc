-- ===== src/Sql/Role.antt =====
-- internal/adapter/sqlbuilder/role.go: CREATE, ALTER and DROP of roles and users.
pub mod Outline
pub mod Noted
pub mod Clauses
pub mod Correct
use db_provision_operator.Base.{
  Text, codes, List, [], ◌∷◌, ◌++◌, map, Bool, true, false, not, ◌&&◌, is_empty, join,
  if◌then◌else◌,
}
use db_provision_operator.Base.Int.{ℤ, print_int}
use db_provision_operator.Sql.Dialect.{
  Dialect, pg, mysql, clickhouse, escape_identifier, escape_literal,
}
use db_provision_operator.Sql.Options.{string_option, with_options}

pub data RoleAction : Type 0 where
  create_role alter_role drop_role create_user alter_user drop_user : RoleAction

abbrev pub action_text : RoleAction → Text
action_text create_role = codes "CREATE ROLE"
action_text alter_role = codes "ALTER ROLE"
action_text drop_role = codes "DROP ROLE"
action_text create_user = codes "CREATE USER"
action_text alter_user = codes "ALTER USER"
action_text drop_user = codes "DROP USER"

pub record RoleBuilder : Type 0 where
  pub dialect : Dialect
  pub action : RoleAction
  pub name : Text
  pub role_opts : List Text
  pub password : Text
  pub in_roles : List Text
  pub set_param : Text
  pub set_value : Text
  pub host : Text
  pub auth_plugin : Text
  pub if_exists : Bool

-- PgCreateRole, MySQLCreateUser and the six others; those of a role pass no host
unfoldable pub new : Dialect → RoleAction → Text → Text → RoleBuilder
new d a n h = record {
  dialect = d;
  action = a;
  name = n;
  role_opts = [];
  password = [];
  in_roles = [];
  set_param = [];
  set_value = [];
  host = h;
  auth_plugin = [];
  if_exists = false;
}

-- the setters that append to `roleOpts`
pub data RoleOption : Type 0 where
  login superuser create_db create_role_opt inherit replication bypass_rls : Bool → RoleOption
  connection_limit : ℤ → RoleOption
  valid_until : Text → RoleOption
  account_lock account_unlock require_ssl require_x509 require_none : RoleOption
  resource_option : Text → RoleOption

-- a flag, with NO before it where it is off
abbrev pub flag_text : Bool → Text → Text
flag_text v flag = if v then flag else codes "NO" ++ flag

unfoldable pub option_text : Dialect → RoleOption → Text
option_text d (login v) = flag_text v (codes "LOGIN")
option_text d (superuser v) = flag_text v (codes "SUPERUSER")
option_text d (create_db v) = flag_text v (codes "CREATEDB")
option_text d (create_role_opt v) = flag_text v (codes "CREATEROLE")
option_text d (inherit v) = flag_text v (codes "INHERIT")
option_text d (replication v) = flag_text v (codes "REPLICATION")
option_text d (bypass_rls v) = flag_text v (codes "BYPASSRLS")
option_text d (connection_limit n) = codes "CONNECTION LIMIT " ++ print_int n
option_text d (valid_until ts) = codes "VALID UNTIL " ++ escape_literal d ts
option_text d account_lock = codes "ACCOUNT LOCK"
option_text d account_unlock = codes "ACCOUNT UNLOCK"
option_text d require_ssl = codes "REQUIRE SSL"
option_text d require_x509 = codes "REQUIRE X509"
option_text d require_none = codes "REQUIRE NONE"
option_text d (resource_option opt) = opt

-- every setter: `WithPassword` and `IdentifiedBy` store the same field
pub data RoleCall : Type 0 where
  add_option : RoleOption → RoleCall
  with_password auth_plugin : Text → RoleCall
  in_roles : List Text → RoleCall
  set_parameter : Text → Text → RoleCall
  if_exists : RoleCall

unfoldable pub apply : RoleCall → RoleBuilder → RoleBuilder
unfolding option_text
apply (add_option o) b = record b { role_opts = b.role_opts ++ option_text b.dialect o ∷ [] }
apply (with_password s) b = record b { password = s }
apply (auth_plugin s) b = record b { auth_plugin = s }
apply (in_roles rs) b = record b { in_roles = b.in_roles ++ rs }
apply (set_parameter p v) b = record b { set_param = p; set_value = v }
apply if_exists b = record b { if_exists = true }

unfoldable pub run : List RoleCall → RoleBuilder → RoleBuilder
unfolding apply
run [] b = b
run (c ∷ cs) b = run cs (apply c b)

-- the option `IN ROLE` of PostgreSQL, where roles are given
unfoldable pub in_roles_option : Dialect → List Text → List Text
in_roles_option d [] = []
in_roles_option d (r ∷ rs) =
    (codes "IN ROLE " ++ join (codes ", ") (map (escape_identifier d) (r ∷ rs))) ∷ []

unfoldable pub build_pg : RoleBuilder → Text
build_pg b =
    action_text b.action
    ++ (codes " "
        ++ (escape_identifier b.dialect b.name
            ++ with_options (
                string_option b.dialect (codes "PASSWORD ") b.password
                ++ (b.role_opts ++ in_roles_option b.dialect b.in_roles))))

-- `IDENTIFIED …` of a CREATE USER: the password, the plugin, both or neither
unfoldable pub identified_text : RoleBuilder → Text
identified_text b =
    if is_empty b.password
    then (if is_empty b.auth_plugin then [] else codes " IDENTIFIED WITH " ++ b.auth_plugin)
    else codes " IDENTIFIED"
      ++ ((if is_empty b.auth_plugin then [] else codes " WITH " ++ b.auth_plugin)
          ++ (codes " BY " ++ escape_literal b.dialect b.password))

-- the `switch b.action` of `buildMySQL`
unfoldable pub mysql_head : RoleAction → RoleBuilder → Text
mysql_head create_role b = codes "CREATE ROLE IF NOT EXISTS " ++ escape_literal b.dialect b.name
mysql_head create_user b =
    codes "CREATE USER IF NOT EXISTS "
    ++ (escape_literal b.dialect b.name
        ++ (codes "@" ++ (escape_literal b.dialect b.host ++ identified_text b)))
mysql_head alter_user b =
    codes "ALTER USER "
    ++ (escape_literal b.dialect b.name
        ++ (codes "@"
            ++ (escape_literal b.dialect b.host
                ++ (if is_empty b.password
                    then []
                    else codes " IDENTIFIED BY " ++ escape_literal b.dialect b.password))))
mysql_head _ b = []

abbrev pub spaced_options : List Text → Text
spaced_options [] = []
spaced_options (o ∷ os) = codes " " ++ join (codes " ") (o ∷ os)

unfoldable pub build_mysql : RoleBuilder → Text
build_mysql b = mysql_head b.action b ++ spaced_options b.role_opts

unfoldable pub build_create_or_alter : Dialect → RoleBuilder → Text
build_create_or_alter mysql b = build_mysql b
build_create_or_alter pg b = build_pg b
build_create_or_alter clickhouse b = build_pg b

abbrev pub if_exists_text : RoleBuilder → Text
if_exists_text b = if b.if_exists then codes "IF EXISTS " else []

unfoldable pub build_drop_role : Dialect → RoleBuilder → Text
build_drop_role mysql b =
    codes "DROP ROLE " ++ (if_exists_text b ++ escape_literal b.dialect b.name)
build_drop_role pg b =
    codes "DROP ROLE " ++ (if_exists_text b ++ escape_identifier b.dialect b.name)
build_drop_role clickhouse b =
    codes "DROP ROLE " ++ (if_exists_text b ++ escape_identifier b.dialect b.name)

unfoldable pub build_drop_user : Dialect → RoleBuilder → Text
build_drop_user mysql b =
    codes "DROP USER "
    ++ (if_exists_text b
        ++ (escape_literal b.dialect b.name ++ (codes "@" ++ escape_literal b.dialect b.host)))
build_drop_user pg b =
    codes "DROP USER " ++ (if_exists_text b ++ escape_identifier b.dialect b.name)
build_drop_user clickhouse b =
    codes "DROP USER " ++ (if_exists_text b ++ escape_identifier b.dialect b.name)

unfoldable pub build_alter_role_set : RoleBuilder → Text
build_alter_role_set b =
    codes "ALTER ROLE "
    ++ (escape_identifier b.dialect b.name
        ++ (codes " SET "
            ++ (escape_identifier b.dialect b.set_param
                ++ (codes " = " ++ escape_literal b.dialect b.set_value))))

abbrev pub build_action : RoleAction → RoleBuilder → Text
build_action drop_role b = build_drop_role b.dialect b
build_action drop_user b = build_drop_user b.dialect b
build_action alter_role b =
    if is_empty b.set_param then build_create_or_alter b.dialect b else build_alter_role_set b
build_action _ b = build_create_or_alter b.dialect b

-- `Build`
unfoldable pub build : RoleBuilder → Text
build b = build_action b.action b
