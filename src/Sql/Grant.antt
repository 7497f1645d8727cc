-- ===== src/Sql/Grant.antt =====
-- internal/adapter/sqlbuilder/grant.go: GRANT, REVOKE and ALTER DEFAULT PRIVILEGES. A method of
-- the builder is a constructor of one of the call types, and what it does to the builder is its
-- clause of the function beside that type; `Build` returns a text or an error.
pub mod Outline
pub mod Outlined
pub mod Correct
use db_provision_operator.Base.{
  Text, codes, List, [], ◌∷◌, ◌++◌, Bool, true, false, ◌&&◌, Option, none, some, is_empty,
  same_text, join, space, if◌then◌else◌,
}
use db_provision_operator.Sql.Dialect.{
  Dialect, pg, mysql, clickhouse, escape_identifier, escape_literal,
}
use db_provision_operator.Sql.Options.{name_clause}
use db_provision_operator.Sql.Privilege.{
  BuildError, no_target, no_grantee, no_role, no_object_type, valid_privileges, validate_privileges,
  normalize_privileges,
}

pub data GrantAction : Type 0 where
  action_grant action_revoke action_grant_role action_revoke_role action_alter_default_grant :
      GrantAction

pub record GrantBuilder : Type 0 where
  pub dialect : Dialect
  pub action : GrantAction
  pub privileges : List Text
  pub target : Text
  pub grantee : Text
  pub role : Text
  pub with_grant_option : Bool
  pub adp_for_role : Text
  pub adp_schema : Text
  pub adp_obj_type : Text
  pub sticky : Option BuildError

-- NewPg and NewMySQL, over the dialect that they set
unfoldable pub new : Dialect → GrantBuilder
new d = record {
  dialect = d;
  action = action_grant;
  privileges = [];
  target = [];
  grantee = [];
  role = [];
  with_grant_option = false;
  adp_for_role = [];
  adp_schema = [];
  adp_obj_type = [];
  sticky = none;
}

pub data ActionCall : Type 0 where
  grant revoke : List Text → ActionCall
  grant_role revoke_role : Text → ActionCall
  alter_default_privileges : Text → Text → ActionCall

-- `Grant` behind `AlterDefaultPrivileges` keeps the action
abbrev pub grant_action : GrantAction → GrantAction
grant_action action_alter_default_grant = action_alter_default_grant
grant_action _ = action_grant

unfoldable pub set_action : ActionCall → GrantBuilder → GrantBuilder
set_action (grant privs) b = record b { action = grant_action b.action; privileges = privs }
set_action (revoke privs) b = record b { action = action_revoke; privileges = privs }
set_action (grant_role r) b = record b { action = action_grant_role; role = r }
set_action (revoke_role r) b = record b { action = action_revoke_role; role = r }
set_action (alter_default_privileges for_role schema) b = record b {
  action = action_alter_default_grant;
  adp_for_role = for_role;
  adp_schema = schema;
}

pub data TargetCall : Type 0 where
  on_database on_schema : Text → TargetCall
  on_table on_sequence on_function : Text → Text → TargetCall
  on_all_tables_in_schema on_all_sequences_in_schema : Text → TargetCall
  on_global : TargetCall
  on_mysql_table on_procedure on_mysql_function : Text → Text → TargetCall

-- `ON KIND "schema"."object"`, or without the schema where it is empty
unfoldable pub object_target : Dialect → Text → Text → Text → Text
object_target d kind schema object =
    if is_empty schema
    then kind ++ escape_identifier d object
    else kind ++ (escape_identifier d schema ++ (b'.' ∷ escape_identifier d object))

-- `ON KIND db.object` of MySQL, whatever the database
unfoldable pub qualified_target : Dialect → Text → Text → Text → Text
qualified_target d kind db object =
    kind ++ (escape_identifier d db ++ (b'.' ∷ escape_identifier d object))

unfoldable pub database_target : Dialect → Text → Text
database_target mysql db = codes "ON " ++ (escape_identifier mysql db ++ codes ".*")
database_target pg db = codes "ON DATABASE " ++ escape_identifier pg db
database_target clickhouse db = codes "ON DATABASE " ++ escape_identifier clickhouse db

unfoldable pub target_text : Dialect → TargetCall → Text
unfolding object_target qualified_target database_target
target_text d (on_database db) = database_target d db
target_text d (on_schema schema) = codes "ON SCHEMA " ++ escape_identifier d schema
target_text d (on_table schema table) = object_target d (codes "ON TABLE ") schema table
target_text d (on_sequence schema seq) = object_target d (codes "ON SEQUENCE ") schema seq
target_text d (on_function schema fn) = object_target d (codes "ON FUNCTION ") schema fn
target_text d (on_all_tables_in_schema schema) =
    codes "ON ALL TABLES IN SCHEMA " ++ escape_identifier d schema
target_text d (on_all_sequences_in_schema schema) =
    codes "ON ALL SEQUENCES IN SCHEMA " ++ escape_identifier d schema
target_text d on_global = codes "ON *.*"
target_text d (on_mysql_table db table) = qualified_target d (codes "ON ") db table
target_text d (on_procedure db proc) = qualified_target d (codes "ON PROCEDURE ") db proc
target_text d (on_mysql_function db fn) = qualified_target d (codes "ON FUNCTION ") db fn

unfoldable pub set_target : TargetCall → GrantBuilder → GrantBuilder
unfolding target_text
set_target call b = record b { target = target_text b.dialect call }

pub data ObjectCall : Type 0 where
  on_tables on_sequences on_functions on_types on_schemas : ObjectCall

abbrev pub object_type : ObjectCall → Text
object_type on_tables = codes "TABLES"
object_type on_sequences = codes "SEQUENCES"
object_type on_functions = codes "FUNCTIONS"
object_type on_types = codes "TYPES"
object_type on_schemas = codes "SCHEMAS"

unfoldable pub set_object_type : ObjectCall → GrantBuilder → GrantBuilder
set_object_type call b = record b { adp_obj_type = object_type call }

-- `To` and `From`, `ToUser` and `FromUser`, `ToLiteral` and `FromLiteral` store the same text
pub data GranteeCall : Type 0 where
  to_name to_literal : Text → GranteeCall
  to_user : Text → Text → GranteeCall

unfoldable pub grantee_text : Dialect → GranteeCall → Text
grantee_text d (to_name g) = escape_identifier d g
grantee_text d (to_literal g) = escape_literal d g
grantee_text d (to_user user host) = escape_literal d user ++ (b'@' ∷ escape_literal d host)

unfoldable pub set_grantee : GranteeCall → GrantBuilder → GrantBuilder
unfolding grantee_text
set_grantee call b = record b { grantee = grantee_text b.dialect call }

pub data Built : Type 0 where
  ok : Text → Built
  err : BuildError → Built

-- the early returns on an error
abbrev pub checked : Option BuildError → Built → Built
checked none k = k
checked (some e) k = err e

abbrev pub required : Text → BuildError → Built → Built
required s e k = if is_empty s then err e else k

unfoldable pub grant_text : Text → Text → GrantBuilder → Text
grant_text verb preposition b =
    verb
    ++ (space
        ∷ (join (codes ", ") (normalize_privileges b.privileges)
            ++ (space
                ∷ (b.target
                    ++ (space
                        ∷ (preposition
                            ++ (space
                                ∷ (b.grantee
                                    ++ (if b.with_grant_option && same_text verb (codes "GRANT")
                                        then codes " WITH GRANT OPTION"
                                        else [])))))))))

unfoldable pub build_grant_revoke : Text → Text → GrantBuilder → Built
unfolding grant_text
build_grant_revoke verb preposition b =
    checked (validate_privileges b.privileges (valid_privileges b.dialect)) (
      required b.target no_target
        (required b.grantee no_grantee (ok (grant_text verb preposition b))))

unfoldable pub build_role_grant : Text → Text → GrantBuilder → Built
build_role_grant verb preposition b = required b.role no_role (
    required b.grantee no_grantee (
      ok (
        verb
        ++ (space
            ∷ (escape_identifier b.dialect b.role
                ++ (space ∷ (preposition ++ (space ∷ b.grantee))))))))

unfoldable pub alter_default_text : GrantBuilder → Text
alter_default_text b =
    codes "ALTER DEFAULT PRIVILEGES"
    ++ (name_clause b.dialect (codes " FOR ROLE ") b.adp_for_role
        ++ (name_clause b.dialect (codes " IN SCHEMA ") b.adp_schema
            ++ (codes " GRANT "
                ++ (join (codes ", ") (normalize_privileges b.privileges)
                    ++ (codes " ON " ++ (b.adp_obj_type ++ (codes " TO " ++ b.grantee)))))))

unfoldable pub build_alter_default_privileges : GrantBuilder → Built
unfolding alter_default_text
build_alter_default_privileges b =
    checked (validate_privileges b.privileges (valid_privileges b.dialect)) (
      required b.adp_obj_type no_object_type
        (required b.grantee no_grantee (ok (alter_default_text b))))

abbrev pub build_action : GrantAction → GrantBuilder → Built
build_action action_grant b = build_grant_revoke (codes "GRANT") (codes "TO") b
build_action action_revoke b = build_grant_revoke (codes "REVOKE") (codes "FROM") b
build_action action_grant_role b = build_role_grant (codes "GRANT") (codes "TO") b
build_action action_revoke_role b = build_role_grant (codes "REVOKE") (codes "FROM") b
build_action action_alter_default_grant b = build_alter_default_privileges b

-- `Build`
unfoldable pub build : GrantBuilder → Built
unfolding build_grant_revoke build_role_grant build_alter_default_privileges
build b = checked b.sticky (build_action b.action b)

-- A chain of calls on one builder.
pub data Call : Type 0 where
  on_action : ActionCall → Call
  on_target : TargetCall → Call
  on_object : ObjectCall → Call
  on_grantee : GranteeCall → Call
  with_grant_option : Call

unfoldable pub apply : Call → GrantBuilder → GrantBuilder
unfolding set_action set_target set_object_type set_grantee
apply (on_action c) b = set_action c b
apply (on_target c) b = set_target c b
apply (on_object c) b = set_object_type c b
apply (on_grantee c) b = set_grantee c b
apply with_grant_option b = record b { with_grant_option = true }

unfoldable pub run : List Call → GrantBuilder → GrantBuilder
unfolding apply
run [] b = b
run (c ∷ cs) b = run cs (apply c b)
