-- ===== src/Sql/Role/Correct.antt =====
-- role.go: what a built statement is read back as.
use db_provision_operator.Base.{
  false, Bool-cases, List, Text, [], append-nil, arith, codes, every, if◌then◌else◌, inl, inr,
  is_empty, map, refl, true, ◌++◌, ◌∷◌, ◌≡◌, some,
}
use db_provision_operator.Sql.Dialect.{Dialect, clickhouse, escape_literal, mysql, pg}
use db_provision_operator.Sql.Statement.{
  Parts, is_spaced, is_spaced-append, is_word, render, render-append, string, word, lex-render,
  name, tokens,
}
use db_provision_operator.Sql.Options.{
  AreSpaced, append-AreSpaced, append_options, name-then, optional_word, string_option,
  string_option-render, string_parts-AreSpaced, with-render, with-spaced, with_parts, word-render,
}
use db_provision_operator.Sql.Role.{
  RoleAction, RoleBuilder, RoleCall, alter_user, build_create_or_alter, build_drop_role,
  build_mysql, build_pg, create_role, create_user, if_exists_text, in_roles_option, mysql_head, new,
  run, alter_role, build, build_action, build_alter_role_set, build_drop_user, drop_role, drop_user,
}
use db_provision_operator.Sql.Role.Outline.{
  all_options, create_or_alter, drop_statement, identified_parts, is_raw_word, mysql_parts, options,
  pg_statement, spaced_parts, statement,
}
use db_provision_operator.Sql.Lexer.{has_name_escapes, lex}
use db_provision_operator.Sql.Role.Noted.{IsNoted, new-IsNoted, run-IsNoted}
use db_provision_operator.Sql.Role.Clauses.{
  action-word, identified-render, identified-spaced, in_roles-AreSpaced, in_roles-render,
  spaced-render, spaced-spaced,
}

password-render :
    (d : Dialect) (words s : Text)
    → (if is_empty s then [] else words ++ escape_literal d s)
      ≡ render d (if is_empty s then [] else word words ∷ string s ∷ [])
password-render d words s = elim (Bool-cases (is_empty s)) [
  | inl left_out ↦ rw left_out refl
  | inr given ↦ rw given (simp append-nil)
]

module _ (d : Dialect) (b : RoleBuilder) (os : List Parts) (h : IsNoted d b os) where
  all_options-render :
      string_option d (codes "PASSWORD ") b.password
        ++ (b.role_opts ++ in_roles_option d b.in_roles)
      ≡ map (render d) (all_options b os)
  all_options-render =
      append_options d _ _ _ _ (string_option-render d (codes "PASSWORD ") b.password)
        (append_options d _ _ _ _ h.role_opts (in_roles-render d b.in_roles))

  all_options-AreSpaced : AreSpaced (all_options b os)
  all_options-AreSpaced =
      append-AreSpaced _ _ (string_parts-AreSpaced (codes "PASSWORD ") b.password refl)
        (append-AreSpaced os _ (record { each = h.spaced }) (in_roles-AreSpaced b.in_roles))

  pg-render : build_pg b ≡ render d (pg_statement b os)
  unfolding build_pg
  pg-render = rw h.dialect (rw (all_options-render, with-render) refl)

  pg-spaced : is_spaced (pg_statement b os) ≡ true
  pg-spaced = rw (action-word b.action) (
      name-then (with_parts (all_options b os))
        (with-spaced (all_options b os) all_options-AreSpaced.each))

  head-render : (a : RoleAction) → mysql_head a b ≡ render d (mysql_parts a b)
  unfolding mysql_head
  head-render create_role = rw h.dialect (simp append-nil)
  head-render create_user = rw (identified-render, h.dialect) refl
  head-render alter_user =
      rw h.dialect (rw (password-render d (codes " IDENTIFIED BY ") b.password) refl)
  head-render _ = refl

  head-spaced : (a : RoleAction) → is_spaced (mysql_parts a b) ≡ true
  head-spaced create_role = refl
  head-spaced create_user = name-then (identified_parts b) (identified-spaced b h.plugin)
  head-spaced alter_user = ground arith
  head-spaced _ = refl

  mysql-render : build_mysql b ≡ render d (mysql_parts b.action b ++ spaced_parts os)
  unfolding build_mysql
  mysql-render = rw (head-render b.action, h.role_opts, spaced-render, render-append) refl

  mysql-spaced : is_spaced (mysql_parts b.action b ++ spaced_parts os) ≡ true
  mysql-spaced =
      let (spaced, bare) = spaced-spaced os h.spaced in
      is_spaced-append (mysql_parts b.action b) (spaced_parts os) (head-spaced b.action) spaced bare

  create_or_alter-render :
      (e : Dialect) → build_create_or_alter e b ≡ render d (create_or_alter e b os)
  unfolding build_create_or_alter
  create_or_alter-render mysql = mysql-render
  create_or_alter-render pg = pg-render
  create_or_alter-render clickhouse = pg-render

  create_or_alter-spaced : (e : Dialect) → is_spaced (create_or_alter e b os) ≡ true
  create_or_alter-spaced mysql = mysql-spaced
  create_or_alter-spaced pg = pg-spaced
  create_or_alter-spaced clickhouse = pg-spaced

  exists-render : if_exists_text b ≡ render d (optional_word (codes "IF EXISTS ") b.if_exists)
  exists-render = word-render d (codes "IF EXISTS ") b.if_exists

  drop_role-render :
      (e : Dialect)
      → build_drop_role e b
        ≡ render d (drop_statement (codes "DROP ROLE ") e b (string b.name ∷ []))
  unfolding build_drop_role
  drop_role-render mysql = rw h.dialect (rw exists-render (simp (render-append, append-nil)))
  drop_role-render pg = rw h.dialect (rw exists-render (simp (render-append, append-nil)))
  drop_role-render clickhouse = rw h.dialect (rw exists-render (simp (render-append, append-nil)))

  drop_user-render :
      (e : Dialect)
      → build_drop_user e b
        ≡ render d (
            drop_statement
              (codes "DROP USER ")
              e
              b
              (string b.name ∷ word (codes "@") ∷ string b.host ∷ []))
  unfolding build_drop_user
  drop_user-render mysql = rw h.dialect (rw exists-render (simp (render-append, append-nil)))
  drop_user-render pg = rw h.dialect (rw exists-render (simp (render-append, append-nil)))
  drop_user-render clickhouse = rw h.dialect (rw exists-render (simp (render-append, append-nil)))

  drop-spaced :
      (verb : Text) (e : Dialect) (account : Parts)
      → is_word verb ≡ true
      → is_spaced account ≡ true
      → is_spaced (drop_statement verb e b account) ≡ true
  drop-spaced verb mysql account v a = ground arith
  drop-spaced verb pg account v a = ground arith
  drop-spaced verb clickhouse account v a = ground arith

  set-render :
      build_alter_role_set b
      ≡ render d (
          word (codes "ALTER ROLE ")
          ∷ name b.name
          ∷ word (codes " SET ")
          ∷ name b.set_param
          ∷ word (codes " = ")
          ∷ string b.set_value
          ∷ [])
  unfolding build_alter_role_set
  set-render = rw h.dialect (simp append-nil)

  alter_role-render : build_action alter_role b ≡ render d (statement alter_role b os)
  alter_role-render = elim (Bool-cases (is_empty b.set_param)) [
    | inl none_set ↦ rw none_set (rw (create_or_alter-render b.dialect) refl)
    | inr given ↦ rw given set-render
  ]

  alter_role-spaced : is_spaced (statement alter_role b os) ≡ true
  alter_role-spaced = elim (Bool-cases (is_empty b.set_param)) [
    | inl none_set ↦ rw none_set (create_or_alter-spaced b.dialect)
    | inr given ↦ rw given refl
  ]

  action-render : (a : RoleAction) → build_action a b ≡ render d (statement a b os)
  action-render drop_role = drop_role-render b.dialect
  action-render drop_user = drop_user-render b.dialect
  action-render alter_role = alter_role-render
  action-render _ = create_or_alter-render b.dialect

  action-spaced : (a : RoleAction) → is_spaced (statement a b os) ≡ true
  action-spaced drop_role = drop-spaced (codes "DROP ROLE ") b.dialect _ refl refl
  action-spaced drop_user = drop-spaced (codes "DROP USER ") b.dialect _ refl refl
  action-spaced alter_role = alter_role-spaced
  action-spaced _ = create_or_alter-spaced b.dialect

-- Whatever setters have been called on a fresh role builder of PostgreSQL or MySQL, the two that there
-- are, where the two raw ones were given
-- words without quotes: the server splits the statement into exactly the tokens of its parts, so a
-- name, a password, a host, a timestamp or a parameter value is one token with its own text.
pub lex-build_role :
    (d : Dialect) (a : RoleAction) (n h : Text) (cs : List RoleCall)
    → has_name_escapes d ≡ false
    → every is_raw_word cs ≡ true
    → lex d (build (run cs (new d a n h)))
      ≡ some
          (tokens (statement (run cs (new d a n h)).action (run cs (new d a n h)) (options cs [])))
unfolding build
lex-build_role d a n h cs k raw =
    let b = run cs (new d a n h) in
    let os = options cs [] in
    let noted : IsNoted d b os = run-IsNoted d cs (new d a n h) [] raw (new-IsNoted d a n h) in
    rw (action-render d b os noted b.action)
      (lex-render d (statement b.action b os) k (action-spaced d b os noted b.action))
