-- ===== src/Sql/Grant/Outlined.antt =====
-- grant.go: the target and the grantee that a chain of calls leaves, against their parts.
use db_provision_operator.Base.{
  Bool-cases, List, Text, [], append-nil, arith, codes, inl, inr, is_empty, none, refl, true, ◌∷◌,
  ◌≡◌, ◌⊎◌,
}
use db_provision_operator.Sql.Dialect.{Dialect, clickhouse, mysql, pg}
use db_provision_operator.Sql.Statement.{is_spaced, is_word, render}
use db_provision_operator.Sql.Grant.{
  Call, GrantBuilder, GranteeCall, ObjectCall, TargetCall, alter_default_privileges, apply, grant,
  grant_role, grantee_text, new, object_target, object_type, on_action, on_all_sequences_in_schema,
  on_all_tables_in_schema, on_database, on_function, on_global, on_grantee, on_mysql_function,
  on_mysql_table, on_object, on_procedure, on_schema, on_sequence, on_table, on_tables, on_target,
  revoke, revoke_role, run, target_text, to_literal, to_name, to_user, with_grant_option,
}
use db_provision_operator.Sql.Grant.Outline.{
  Outline, blank, grantee_parts, note_call, object_parts, outline, target_parts,
}

pub object-render :
    (d : Dialect) (kind schema object : Text)
    → object_target d kind schema object ≡ render d (object_parts kind schema object)
unfolding object_target
object-render d kind schema object = elim (Bool-cases (is_empty schema)) [
  | inl unqualified ↦ rw unqualified (simp append-nil)
  | inr qualified ↦ rw qualified (simp append-nil)
]

pub target-render : (d : Dialect) (c : TargetCall) → target_text d c ≡ render d (target_parts d c)
unfolding target_text
target-render mysql (on_database db) = refl
target-render pg (on_database db) = simp append-nil
target-render clickhouse (on_database db) = simp append-nil
target-render d (on_schema s) = simp append-nil
target-render d (on_table s t) = object-render d (codes "ON TABLE ") s t
target-render d (on_sequence s t) = object-render d (codes "ON SEQUENCE ") s t
target-render d (on_function s t) = object-render d (codes "ON FUNCTION ") s t
target-render d (on_all_tables_in_schema s) = simp append-nil
target-render d (on_all_sequences_in_schema s) = simp append-nil
target-render d on_global = refl
target-render d (on_mysql_table s t) = simp append-nil
target-render d (on_procedure s t) = simp append-nil
target-render d (on_mysql_function s t) = simp append-nil

pub grantee-render : (d : Dialect) (c : GranteeCall) → grantee_text d c ≡ render d (grantee_parts c)
unfolding grantee_text
grantee-render d (to_name g) = simp append-nil
grantee-render d (to_literal g) = simp append-nil
grantee-render d (to_user u h) = simp append-nil

pub object-spaced :
    (kind schema object : Text)
    → is_word kind ≡ true
    → is_spaced (object_parts kind schema object) ≡ true
object-spaced kind schema object h = ground arith

pub target-spaced : (d : Dialect) (c : TargetCall) → is_spaced (target_parts d c) ≡ true
target-spaced mysql (on_database db) = refl
target-spaced d (on_table s t) = object-spaced (codes "ON TABLE ") s t refl
target-spaced d (on_sequence s t) = object-spaced (codes "ON SEQUENCE ") s t refl
target-spaced d (on_function s t) = object-spaced (codes "ON FUNCTION ") s t refl
target-spaced _ _ = refl

pub grantee-spaced : (c : GranteeCall) → is_spaced (grantee_parts c) ≡ true
grantee-spaced (to_name g) = refl
grantee-spaced (to_literal g) = refl
grantee-spaced (to_user u h) = refl

-- The texts that a builder holds are those of the outline.
pub record IsOutlined (d : Dialect) (b : GrantBuilder) (o : Outline) : Type 0 where
  pub dialect : b.dialect ≡ d
  pub no_error : b.sticky ≡ none
  pub target : b.target ≡ render d o.target
  pub target_spaced : is_spaced o.target ≡ true
  pub grantee : b.grantee ≡ render d o.grantee
  pub grantee_spaced : is_spaced o.grantee ≡ true
  pub kind : (is_empty b.adp_obj_type ≡ true) ⊎ (is_word b.adp_obj_type ≡ true)

pub new-IsOutlined : (d : Dialect) → IsOutlined d (new d) blank
unfolding new
new-IsOutlined d = record {
  dialect = refl;
  no_error = refl;
  target = refl;
  target_spaced = refl;
  grantee = refl;
  grantee_spaced = refl;
  kind = inl refl;
}

pub object_type-word : (c : ObjectCall) → is_word (object_type c) ≡ true
object_type-word on_tables = refl
object_type-word _ = refl

pub apply-IsOutlined :
    (d : Dialect) (c : Call) (b : GrantBuilder) (o : Outline)
    → IsOutlined d b o
    → IsOutlined d (apply c b) (note_call d c o)
unfolding apply
apply-IsOutlined d (on_action (grant privs)) b o h = ground arith
apply-IsOutlined d (on_action (revoke privs)) b o h = ground arith
apply-IsOutlined d (on_action (grant_role r)) b o h = ground arith
apply-IsOutlined d (on_action (revoke_role r)) b o h = ground arith
apply-IsOutlined d (on_action (alter_default_privileges r s)) b o h = ground arith
apply-IsOutlined d (on_target c) b o h = record {
  dialect = h.dialect;
  no_error = h.no_error;
  target = rw h.dialect (target-render d c);
  target_spaced = target-spaced d c;
  grantee = h.grantee;
  grantee_spaced = h.grantee_spaced;
  kind = h.kind;
}
apply-IsOutlined d (on_object c) b o h = record {
  dialect = h.dialect;
  no_error = h.no_error;
  target = h.target;
  target_spaced = h.target_spaced;
  grantee = h.grantee;
  grantee_spaced = h.grantee_spaced;
  kind = inr (object_type-word c);
}
apply-IsOutlined d (on_grantee c) b o h = record {
  dialect = h.dialect;
  no_error = h.no_error;
  target = h.target;
  target_spaced = h.target_spaced;
  grantee = rw h.dialect (grantee-render d c);
  grantee_spaced = grantee-spaced c;
  kind = h.kind;
}
apply-IsOutlined d with_grant_option b o h = ground arith

pub run-IsOutlined :
    (d : Dialect) (cs : List Call) (b : GrantBuilder) (o : Outline)
    → IsOutlined d b o
    → IsOutlined d (run cs b) (outline d cs o)
unfolding run
run-IsOutlined d [] b o h = h
run-IsOutlined d (c ∷ cs) b o h =
    run-IsOutlined d cs (apply c b) (note_call d c o) (apply-IsOutlined d c b o h)
