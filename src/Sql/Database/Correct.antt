-- ===== src/Sql/Database/Correct.antt =====
-- database.go: what a built statement is read back as.
use db_provision_operator.Base.{
  ◌≡◌, refl, inl, inr, Text, codes, List, [], ◌∷◌, ◌++◌, append-nil, map, Bool, true, false,
  Bool-cases, is_empty, if◌then◌else◌, some, arith,
}
use db_provision_operator.Base.Int.{ℤ, is_zero, print_int}
use db_provision_operator.Sql.Dialect.{Dialect, pg, mysql, clickhouse}
use db_provision_operator.Sql.Lexer.{has_name_escapes, lex}
use db_provision_operator.Sql.Statement.{
  Parts, word, name, render, tokens, is_word, is_spaced, starts_bare, render-append, lex-render,
}
use db_provision_operator.Sql.Options.{
  name_parts, string_parts, name_option-render, string_option-render, clause_parts, clause-render,
  clause-spaced, optional_word, word-render, with_parts, with-render, with-spaced, name-then,
  append_options, AreSpaced, append-AreSpaced, name_parts-AreSpaced, string_parts-AreSpaced,
  print_int-word,
}
use db_provision_operator.Sql.Database.{
  DatabaseAction, create, alter, drop, DatabaseBuilder, mysql_clauses, pg_options, build_create,
  alter_clause, build_alter, build_drop, build_action, build,
}

-- The statement of a builder as parts.
abbrev pub mysql_parts : DatabaseBuilder → Parts
mysql_parts b =
    clause_parts (codes " CHARACTER SET ") b.charset ++ clause_parts (codes " COLLATE ") b.collation

abbrev pub limit_parts : Text → ℤ → List Parts
limit_parts words n = if is_zero n then [] else (word words ∷ word (print_int n) ∷ []) ∷ []

abbrev pub flag_parts : Text → Bool → List Parts
flag_parts words v = if v then (word words ∷ []) ∷ [] else []

abbrev pub option_parts : DatabaseBuilder → List Parts
option_parts b =
    name_parts (codes "OWNER = ") b.owner
    ++ (name_parts (codes "TEMPLATE = ") b.template
        ++ (string_parts (codes "ENCODING = ") b.encoding
            ++ (string_parts (codes "LC_COLLATE = ") b.lc_collate
                ++ (string_parts (codes "LC_CTYPE = ") b.lc_ctype
                    ++ (name_parts (codes "TABLESPACE = ") b.tablespace
                        ++ (limit_parts (codes "CONNECTION LIMIT = ") b.connection_limit
                            ++ flag_parts (codes "IS_TEMPLATE = TRUE") b.is_template))))))

abbrev pub alter_parts : DatabaseBuilder → Parts
alter_parts b =
    if is_empty b.owner
    then (if is_zero b.connection_limit
        then []
        else word (codes " CONNECTION LIMIT ") ∷ word (print_int b.connection_limit) ∷ [])
    else word (codes " OWNER TO ") ∷ name b.owner ∷ []

abbrev pub create_statement : Dialect → DatabaseBuilder → Parts
create_statement mysql b =
    word (codes "CREATE DATABASE IF NOT EXISTS ") ∷ name b.name ∷ mysql_parts b
create_statement _ b = word (codes "CREATE DATABASE ") ∷ name b.name ∷ with_parts (option_parts b)

abbrev pub alter_statement : Dialect → DatabaseBuilder → Parts
alter_statement mysql b = word (codes "ALTER DATABASE ") ∷ name b.name ∷ mysql_parts b
alter_statement _ b = word (codes "ALTER DATABASE ") ∷ name b.name ∷ alter_parts b

abbrev pub statement : DatabaseAction → DatabaseBuilder → Parts
statement create b = create_statement b.dialect b
statement alter b = alter_statement b.dialect b
statement drop b =
    word (codes "DROP DATABASE ")
    ∷ (optional_word (codes "IF EXISTS ") b.if_exists
        ++ (name b.name ∷ optional_word (codes " CASCADE") b.cascade))

mysql-render : (b : DatabaseBuilder) → mysql_clauses b ≡ render b.dialect (mysql_parts b)
unfolding mysql_clauses
mysql-render b =
    rw
      (
        clause-render b.dialect (codes " CHARACTER SET ") b.charset,
        clause-render b.dialect (codes " COLLATE ") b.collation,
        render-append,
      )
      refl

limit-render :
    (d : Dialect) (words : Text) (n : ℤ)
    → (if is_zero n then [] else (words ++ print_int n) ∷ []) ≡ map (render d) (limit_parts words n)
limit-render d words n = elim (Bool-cases (is_zero n)) [
  | inl none_set ↦ rw none_set refl
  | inr limited ↦ rw limited (simp append-nil)
]

flag-render :
    (d : Dialect) (words : Text) (v : Bool)
    → (if v then words ∷ [] else []) ≡ map (render d) (flag_parts words v)
flag-render d words true = simp append-nil
flag-render d words false = refl

options-render : (b : DatabaseBuilder) → pg_options b ≡ map (render b.dialect) (option_parts b)
unfolding pg_options
options-render b = append_options d _ _ _ _ (name_option-render d (codes "OWNER = ") b.owner) (
    append_options d _ _ _ _ (name_option-render d (codes "TEMPLATE = ") b.template) (
      append_options d _ _ _ _ (string_option-render d (codes "ENCODING = ") b.encoding) (
        append_options d _ _ _ _ (string_option-render d (codes "LC_COLLATE = ") b.lc_collate) (
          append_options d _ _ _ _ (string_option-render d (codes "LC_CTYPE = ") b.lc_ctype) (
            append_options d _ _ _ _ (name_option-render d (codes "TABLESPACE = ") b.tablespace) (
              append_options d _ _ _ _
                (limit-render d (codes "CONNECTION LIMIT = ") b.connection_limit)
                (flag-render d (codes "IS_TEMPLATE = TRUE") b.is_template)))))))
  where
    d : Dialect
    d = b.dialect

create-render :
    (b : DatabaseBuilder) (d : Dialect) → build_create d b ≡ render b.dialect (create_statement d b)
unfolding build_create
create-render b mysql = rw mysql-render refl
create-render b pg = rw (options-render, with-render) refl
create-render b clickhouse = rw (options-render, with-render) refl

alter_clause-render : (b : DatabaseBuilder) → alter_clause b ≡ render b.dialect (alter_parts b)
unfolding alter_clause
alter_clause-render b = elim (Bool-cases (is_empty b.owner)) [
  | inl unowned ↦ rw unowned (elim (Bool-cases (is_zero b.connection_limit)) [
    | inl unlimited ↦ rw unlimited refl
    | inr limited ↦ rw limited (simp append-nil)
  ])
  | inr owned ↦ rw owned (simp append-nil)
]

alter-render :
    (b : DatabaseBuilder) (d : Dialect) → build_alter d b ≡ render b.dialect (alter_statement d b)
unfolding build_alter
alter-render b mysql = rw mysql-render refl
alter-render b pg = rw alter_clause-render refl
alter-render b clickhouse = rw alter_clause-render refl

drop-render : (b : DatabaseBuilder) → build_drop b ≡ render b.dialect (statement drop b)
unfolding build_drop
drop-render b = elim (Bool-cases b.if_exists) [
  | inl e ↦ rw e (rw (word-render b.dialect (codes " CASCADE") b.cascade) refl)
  | inr e ↦ rw e (rw (word-render b.dialect (codes " CASCADE") b.cascade) refl)
]

mysql-spaced :
    (b : DatabaseBuilder)
    → (is_spaced (mysql_parts b) ≡ true) × (starts_bare (mysql_parts b) ≡ true)
mysql-spaced b =
    clause-spaced (codes " CHARACTER SET ") b.charset (clause_parts (codes " COLLATE ") b.collation)
      refl (ground arith)

limit-AreSpaced : (words : Text) (n : ℤ) → is_word words ≡ true → AreSpaced (limit_parts words n)
limit-AreSpaced words n h = ground (arith, print_int-word n)

flag-AreSpaced : (words : Text) (v : Bool) → is_word words ≡ true → AreSpaced (flag_parts words v)
flag-AreSpaced words v h = ground arith

options-AreSpaced : (b : DatabaseBuilder) → AreSpaced (option_parts b)
options-AreSpaced b = append-AreSpaced _ _ (name_parts-AreSpaced (codes "OWNER = ") b.owner refl) (
    append-AreSpaced _ _ (name_parts-AreSpaced (codes "TEMPLATE = ") b.template refl) (
      append-AreSpaced _ _ (string_parts-AreSpaced (codes "ENCODING = ") b.encoding refl) (
        append-AreSpaced _ _ (string_parts-AreSpaced (codes "LC_COLLATE = ") b.lc_collate refl) (
          append-AreSpaced _ _ (string_parts-AreSpaced (codes "LC_CTYPE = ") b.lc_ctype refl) (
            append-AreSpaced _ _ (name_parts-AreSpaced (codes "TABLESPACE = ") b.tablespace refl) (
              append-AreSpaced _ _
                (limit-AreSpaced (codes "CONNECTION LIMIT = ") b.connection_limit refl)
                (flag-AreSpaced (codes "IS_TEMPLATE = TRUE") b.is_template refl)))))))

create-spaced : (b : DatabaseBuilder) (d : Dialect) → is_spaced (create_statement d b) ≡ true
create-spaced b mysql = name-then (mysql_parts b) (mysql-spaced b)
create-spaced b pg =
    name-then (with_parts (option_parts b)) (with-spaced _ (options-AreSpaced b).each)
create-spaced b clickhouse =
    name-then (with_parts (option_parts b)) (with-spaced _ (options-AreSpaced b).each)

alter_parts-spaced :
    (b : DatabaseBuilder)
    → (is_spaced (alter_parts b) ≡ true) × (starts_bare (alter_parts b) ≡ true)
alter_parts-spaced b = ground (arith, print_int-word b.connection_limit)

alter-spaced : (b : DatabaseBuilder) (d : Dialect) → is_spaced (alter_statement d b) ≡ true
alter-spaced b mysql = name-then (mysql_parts b) (mysql-spaced b)
alter-spaced b pg = name-then (alter_parts b) (alter_parts-spaced b)
alter-spaced b clickhouse = name-then (alter_parts b) (alter_parts-spaced b)

drop-spaced : (b : DatabaseBuilder) → is_spaced (statement drop b) ≡ true
drop-spaced b = ground arith

action-render :
    (a : DatabaseAction) (b : DatabaseBuilder) → build_action a b ≡ render b.dialect (statement a b)
action-render create b = create-render b b.dialect
action-render alter b = alter-render b b.dialect
action-render drop b = drop-render b

action-spaced : (a : DatabaseAction) (b : DatabaseBuilder) → is_spaced (statement a b) ≡ true
action-spaced create b = create-spaced b b.dialect
action-spaced alter b = alter-spaced b b.dialect
action-spaced drop b = drop-spaced b

-- The statement of any builder of PostgreSQL or MySQL, the two that there are, is split by the server into exactly the tokens of its parts: the
-- names, the owner, the encoding and the other settings are one token each, with their own text.
pub lex-build_database :
    (b : DatabaseBuilder)
    → has_name_escapes b.dialect ≡ false
    → lex b.dialect (build b) ≡ some (tokens (statement b.action b))
unfolding build
lex-build_database b k =
    rw (action-render b.action b)
      (lex-render b.dialect (statement b.action b) k (action-spaced b.action b))
