-- ===== src/Sql/Grant/Correct.antt =====
-- grant.go: what a built statement is read back as.
use db_provision_operator.Base.{
  ◌≡◌, refl, ◌∙◌, inl, inr, Text, codes, List, [], ◌∷◌, ◌++◌, append-nil, Bool, true, false, ◌&&◌,
  is_empty, if◌then◌else◌, Option, none, some,
}
use db_provision_operator.Sql.Dialect.{Dialect}
use db_provision_operator.Sql.Lexer.{has_name_escapes, lex}
use db_provision_operator.Sql.Privilege.{BuildError, valid_privileges, validate_privileges}
use db_provision_operator.Sql.Privilege.Allowed.{privilege_list-word}
use db_provision_operator.Sql.Statement.{
  word, render, tokens, is_word, is_spaced, starts_bare, render-append, is_spaced-append,
  lex-render,
}
use db_provision_operator.Sql.Options.{clause-render, clause-spaced}
use db_provision_operator.Sql.Grant.{
  GrantAction, action_grant, action_revoke, action_grant_role, action_revoke_role,
  action_alter_default_grant, GrantBuilder, new, Call, grant_text, alter_default_text,
  build_grant_revoke, build_role_grant, build_alter_default_privileges, build_action, checked,
  required, Built, ok, build, run,
}
use db_provision_operator.Sql.Grant.Outline.{
  Outline, blank, outline, statement, option_parts, privilege_list,
}
use db_provision_operator.Sql.Grant.Outlined.{IsOutlined, new-IsOutlined, run-IsOutlined}

checked-ok :
    (e : Option BuildError) (k : Built) {t : Text} → checked e k ≡ ok t → (e ≡ none) × (k ≡ ok t)
checked-ok none k h = (refl, h)
checked-ok (some x) k h = cc

ok-injective : {s t : Text} → ok s ≡ ok t → t ≡ s
ok-injective h = cc

required-ok :
    (s : Text) (e : BuildError) (k : Built) {t : Text}
    → required s e k ≡ ok t
    → (is_empty s ≡ false) × (k ≡ ok t)
required-ok [] e k h = cc
required-ok (c ∷ s) e k h = (refl, h)

option-render :
    (d : Dialect) (v : Bool)
    → render d (option_parts v) ≡ (if v && true then codes " WITH GRANT OPTION" else [])
option-render d true = refl
option-render d false = refl

option-spaced :
    (v : Bool) → (is_spaced (option_parts v) ≡ true) × (starts_bare (option_parts v) ≡ true)
option-spaced true = (refl, refl)
option-spaced false = (refl, refl)

&&-false : (v : Bool) → (v && false) ≡ false
&&-false true = refl
&&-false false = refl

module _ (d : Dialect) (b : GrantBuilder) (o : Outline) (h : IsOutlined d b o) where
  -- The text of GRANT and of REVOKE, with the parts of the target and of the grantee.
  grant-render : grant_text (codes "GRANT") (codes "TO") b ≡ render d (statement action_grant b o)
  unfolding grant_text
  grant-render = rw (h.target, h.grantee) (simp (render-append, option-render))

  revoke-render :
      grant_text (codes "REVOKE") (codes "FROM") b ≡ render d (statement action_revoke b o)
  unfolding grant_text
  revoke-render = rw (h.target, h.grantee) (simp (render-append, &&-false, append-nil))

  alter-render : alter_default_text b ≡ render d (statement action_alter_default_grant b o)
  unfolding alter_default_text
  alter-render = rw (h.dialect, h.grantee) (simp (clause-render, render-append))

  privileges_valid :
      validate_privileges b.privileges (valid_privileges b.dialect) ≡ none
      → is_word (privilege_list b) ≡ true
  privileges_valid v = privilege_list-word b.dialect b.privileges v

  -- Each statement is spaced, since its privileges have passed the allowlist.
  grant-spaced : is_word (privilege_list b) ≡ true → is_spaced (statement action_grant b o) ≡ true
  grant-spaced v =
      let (opt, bare) = option-spaced b.with_grant_option in
      let tail =
        is_spaced-append o.grantee (option_parts b.with_grant_option) h.grantee_spaced opt bare in
      rw v (
        is_spaced-append o.target
          (word (codes " TO ") ∷ (o.grantee ++ option_parts b.with_grant_option)) h.target_spaced
          tail refl)

  revoke-spaced : is_word (privilege_list b) ≡ true → is_spaced (statement action_revoke b o) ≡ true
  revoke-spaced v = rw v (
      is_spaced-append o.target (word (codes " FROM ") ∷ o.grantee) h.target_spaced h.grantee_spaced
        refl)

  alter-spaced :
      is_word (privilege_list b) ≡ true
      → is_empty b.adp_obj_type ≡ false
      → is_spaced (statement action_alter_default_grant b o) ≡ true
  alter-spaced v k =
      let typed : is_word b.adp_obj_type ≡ true = elim h.kind [ inl e ↦ cc | inr w ↦ w ] in
      (clause-spaced (codes " FOR ROLE ") b.adp_for_role _ refl (
        clause-spaced (codes " IN SCHEMA ") b.adp_schema _ refl
          (rw (v, typed) h.grantee_spaced, refl))).0

  -- A statement that is built is the text of its parts, and they are spaced.
  abbrev Rendered : GrantAction → Text → Type 0
  Rendered a t = (t ≡ render d (statement a b o)) × (is_spaced (statement a b o) ≡ true)

  build_action-Rendered : (a : GrantAction) {t : Text} → build_action a b ≡ ok t → Rendered a t
  unfolding build_grant_revoke build_role_grant build_alter_default_privileges
  build_action-Rendered action_grant e =
      let (valid, e') = checked-ok _ _ e in
      let (has_target, e'') = required-ok b.target _ _ e' in
      let (has_grantee, done) = required-ok b.grantee _ _ e'' in
      (ok-injective done ∙ grant-render, grant-spaced (privileges_valid valid))
  build_action-Rendered action_revoke e =
      let (valid, e') = checked-ok _ _ e in
      let (has_target, e'') = required-ok b.target _ _ e' in
      let (has_grantee, done) = required-ok b.grantee _ _ e'' in
      (ok-injective done ∙ revoke-render, revoke-spaced (privileges_valid valid))
  build_action-Rendered action_grant_role e =
      let (has_role, e') = required-ok b.role _ _ e in
      let (has_grantee, done) = required-ok b.grantee _ _ e' in
      (ok-injective done ∙ rw (h.dialect, h.grantee) refl, h.grantee_spaced)
  build_action-Rendered action_revoke_role e =
      let (has_role, e') = required-ok b.role _ _ e in
      let (has_grantee, done) = required-ok b.grantee _ _ e' in
      (ok-injective done ∙ rw (h.dialect, h.grantee) refl, h.grantee_spaced)
  build_action-Rendered action_alter_default_grant e =
      let (valid, e') = checked-ok _ _ e in
      let (has_type, e'') = required-ok b.adp_obj_type _ _ e' in
      let (has_grantee, done) = required-ok b.grantee _ _ e'' in
      (ok-injective done ∙ alter-render, alter-spaced (privileges_valid valid) has_type)

-- Whatever calls have been made on a fresh builder of PostgreSQL or MySQL, the two that there are, in
-- whatever order: a statement that `Build` returns is split by the server into exactly the tokens of the calls' statement, where each name
-- or string that was passed in is one token with that very text.
pub lex-build :
    (d : Dialect) (cs : List Call) (sql : Text)
    → has_name_escapes d ≡ false
    → build (run cs (new d)) ≡ ok sql
    → lex d sql
      ≡ some (tokens (statement (run cs (new d)).action (run cs (new d)) (outline d cs blank)))
unfolding build
lex-build d cs sql k e =
    let b = run cs (new d) in
    let o = outline d cs blank in
    let h : IsOutlined d b o = run-IsOutlined d cs (new d) blank (new-IsOutlined d) in
    let (text, spaced) = build_action-Rendered d b o h b.action (checked-ok b.sticky _ e).1 in
    rw text (lex-render d (statement b.action b o) k spaced)
