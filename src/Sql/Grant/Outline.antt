-- ===== src/Sql/Grant/Outline.antt =====
-- What a chain of calls on a `GrantBuilder` asks for, as the parts of a statement: written from the
-- SQL grammar of GRANT, REVOKE and ALTER DEFAULT PRIVILEGES, with no text assembled.
use db_provision_operator.Base.{
  Text, codes, List, [], ◌∷◌, ◌++◌, Bool, true, false, is_empty, join, if◌then◌else◌,
}
use db_provision_operator.Sql.Dialect.{Dialect, mysql}
use db_provision_operator.Sql.Privilege.{normalize_privileges}
use db_provision_operator.Sql.Statement.{Parts, word, name, string}
use db_provision_operator.Sql.Options.{clause_parts}
use db_provision_operator.Sql.Grant.{
  GrantAction, action_grant, action_revoke, action_grant_role, action_revoke_role,
  action_alter_default_grant, GrantBuilder, TargetCall, on_database, on_schema, on_table,
  on_sequence, on_function, on_all_tables_in_schema, on_all_sequences_in_schema, on_global,
  on_mysql_table, on_procedure, on_mysql_function, GranteeCall, to_name, to_literal, to_user, Call,
  on_target, on_grantee,
}

abbrev pub object_parts : Text → Text → Text → Parts
object_parts kind schema object =
    if is_empty schema
    then word kind ∷ name object ∷ []
    else word kind ∷ name schema ∷ word (codes ".") ∷ name object ∷ []

abbrev pub target_parts : Dialect → TargetCall → Parts
target_parts mysql (on_database db) = word (codes "ON ") ∷ name db ∷ word (codes ".*") ∷ []
target_parts _ (on_database db) = word (codes "ON DATABASE ") ∷ name db ∷ []
target_parts _ (on_schema s) = word (codes "ON SCHEMA ") ∷ name s ∷ []
target_parts _ (on_table s t) = object_parts (codes "ON TABLE ") s t
target_parts _ (on_sequence s t) = object_parts (codes "ON SEQUENCE ") s t
target_parts _ (on_function s t) = object_parts (codes "ON FUNCTION ") s t
target_parts _ (on_all_tables_in_schema s) = word (codes "ON ALL TABLES IN SCHEMA ") ∷ name s ∷ []
target_parts _ (on_all_sequences_in_schema s) =
    word (codes "ON ALL SEQUENCES IN SCHEMA ") ∷ name s ∷ []
target_parts _ on_global = word (codes "ON *.*") ∷ []
target_parts _ (on_mysql_table s t) = word (codes "ON ") ∷ name s ∷ word (codes ".") ∷ name t ∷ []
target_parts _ (on_procedure s t) =
    word (codes "ON PROCEDURE ") ∷ name s ∷ word (codes ".") ∷ name t ∷ []
target_parts _ (on_mysql_function s t) =
    word (codes "ON FUNCTION ") ∷ name s ∷ word (codes ".") ∷ name t ∷ []

abbrev pub grantee_parts : GranteeCall → Parts
grantee_parts (to_name g) = name g ∷ []
grantee_parts (to_literal g) = string g ∷ []
grantee_parts (to_user user host) = string user ∷ word (codes "@") ∷ string host ∷ []

-- The last target and the last grantee of a chain of calls.
pub record Outline : Type 0 where
  pub target : Parts
  pub grantee : Parts

abbrev pub blank : Outline
blank = record { target = []; grantee = [] }

abbrev pub note_call : Dialect → Call → Outline → Outline
note_call d (on_target c) o = record o { target = target_parts d c }
note_call d (on_grantee c) o = record o { grantee = grantee_parts c }
note_call d _ o = o

abbrev pub outline : Dialect → List Call → Outline → Outline
outline d [] o = o
outline d (c ∷ cs) o = outline d cs (note_call d c o)

abbrev pub option_parts : Bool → Parts
option_parts true = word (codes " WITH GRANT OPTION") ∷ []
option_parts false = []

abbrev pub privilege_list : GrantBuilder → Text
privilege_list b = join (codes ", ") (normalize_privileges b.privileges)

-- The statement of a builder, whose target and grantee are given as parts.
abbrev pub statement : GrantAction → GrantBuilder → Outline → Parts
statement action_grant b o =
    word (codes "GRANT ")
    ∷ word (privilege_list b)
    ∷ word (codes " ")
    ∷ (o.target ++ (word (codes " TO ") ∷ (o.grantee ++ option_parts b.with_grant_option)))
statement action_revoke b o =
    word (codes "REVOKE ")
    ∷ word (privilege_list b)
    ∷ word (codes " ")
    ∷ (o.target ++ (word (codes " FROM ") ∷ o.grantee))
statement action_grant_role b o =
    word (codes "GRANT ") ∷ name b.role ∷ word (codes " TO ") ∷ o.grantee
statement action_revoke_role b o =
    word (codes "REVOKE ") ∷ name b.role ∷ word (codes " FROM ") ∷ o.grantee
statement action_alter_default_grant b o =
    word (codes "ALTER DEFAULT PRIVILEGES")
    ∷ (clause_parts (codes " FOR ROLE ") b.adp_for_role
        ++ (clause_parts (codes " IN SCHEMA ") b.adp_schema
            ++ (word (codes " GRANT ")
                ∷ word (privilege_list b)
                ∷ word (codes " ON ")
                ∷ word b.adp_obj_type
                ∷ word (codes " TO ")
                ∷ o.grantee)))
