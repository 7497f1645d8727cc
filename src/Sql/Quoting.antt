-- ===== src/Sql/Quoting.antt =====
-- dialect.go against the lexer: a quoted text is read back as itself, and as one token.
use db_provision_operator.Base.{
  ℕ, ◌≡◌, refl, ap, ◌∙◌, inl, inr, Text, List, [], ◌∷◌, ◌++◌, append-nil, append_assoc, true, false,
  ◌&&◌, ◌==◌, ==_iff, &&-left, &&-right, Bool-cases, if◌then◌else◌, Option, none, some, some_of,
  arith, Bool,
}
use db_provision_operator.Sql.Dialect.{
  Dialect, pg, mysql, clickhouse, replace_all, escape_identifier, escape_backslashes,
  escape_literal,
}
use db_provision_operator.Sql.Lexer.{
  Token, identifier, literal, in_identifier, identifier_quote, in_literal, literal_quote,
  identifier_mark, has_escapes, has_name_escapes, lex_char, prepend, lex_from, lex,
}

pub prepend-nil : (o : Option (List Token)) → prepend [] o ≡ o
prepend-nil none = refl
prepend-nil (some ts) = refl

-- The text goes on after `s` where a token is open, one character further.
snoc : (acc s : Text) (c : ℕ) → (acc ++ c ∷ []) ++ s ≡ acc ++ c ∷ s
snoc acc s c = append_assoc acc (c ∷ []) s

doubled : (c q : ℕ) → c ≡ q → (c == q) ≡ true
doubled c q h = (==_iff c q).1 h

-- One step of the lexer inside an identifier.
open_identifier :
    (d : Dialect) (acc s : Text) (c : ℕ)
    → (c == identifier_mark d) ≡ false
    → (has_name_escapes d && c == 92) ≡ false
    → lex_from d (in_identifier acc) (c ∷ s) ≡ lex_from d (in_identifier (acc ++ c ∷ [])) s
unfolding lex_from
open_identifier d acc s c h k = rw (h, k, lex_char) (prepend-nil _)

double_identifier :
    (d : Dialect) (acc s : Text)
    → lex_from d (in_identifier acc) (identifier_mark d ∷ identifier_mark d ∷ s)
      ≡ lex_from d (in_identifier (acc ++ identifier_mark d ∷ [])) s
unfolding lex_from
double_identifier pg acc s = prepend-nil _ ∙ prepend-nil _
double_identifier mysql acc s = prepend-nil _ ∙ prepend-nil _
double_identifier clickhouse acc s = prepend-nil _ ∙ prepend-nil _

close_identifier :
    (d : Dialect) (acc s : Text)
    → lex_from d (in_identifier acc) (identifier_mark d ∷ s) ≡ lex_from d (identifier_quote acc) s
unfolding lex_from
close_identifier pg acc s = prepend-nil _
close_identifier mysql acc s = prepend-nil _
close_identifier clickhouse acc s = prepend-nil _

abbrev quoted_identifier : Dialect → Text → Text → Text
quoted_identifier d s rest =
    replace_all s (identifier_mark d) (identifier_mark d ∷ identifier_mark d ∷ [])
    ++ identifier_mark d ∷ rest

-- whether a backslash in the name would be read as an escape
abbrev pub is_escaping : Dialect → Text → Bool
is_escaping d s = has_name_escapes d && some_of (λ c. c == 92) s

-- No backslash of the name is one, nor one of its tail.
not_escaping :
    (d : Dialect) (c : ℕ) (s : Text)
    → is_escaping d (c ∷ s) ≡ false
    → ((has_name_escapes d && c == 92) ≡ false) × (is_escaping d s ≡ false)
not_escaping d c s h = elim (Bool-cases (has_name_escapes d)) [
  | inl e ↦ ground arith
  | inr e ↦ ground arith
]

lex-quoted_identifier :
    (d : Dialect) (s acc rest : Text)
    → is_escaping d s ≡ false
    → lex_from d (in_identifier acc) (quoted_identifier d s rest)
      ≡ lex_from d (identifier_quote (acc ++ s)) rest
unfolding replace_all
lex-quoted_identifier d [] acc rest safe = rw append-nil (close_identifier d acc rest)
lex-quoted_identifier d (c ∷ s) acc rest safe = elim (Bool-cases (c == identifier_mark d)) [
  | inl same ↦ rw same (
      double_identifier d acc _
      ∙ lex-quoted_identifier d s (acc ++ identifier_mark d ∷ []) rest (not_escaping d c s safe).1
      ∙ ap (λ t. lex_from d (identifier_quote t) rest)
          (rw ((==_iff c _).0 same) (snoc acc s (identifier_mark d))))
  | inr other ↦ rw other (
      open_identifier d acc _ c other (not_escaping d c s safe).0
      ∙ lex-quoted_identifier d s (acc ++ c ∷ []) rest (not_escaping d c s safe).1
      ∙ ap (λ t. lex_from d (identifier_quote t) rest) (snoc acc s c))
]

-- The same inside a string literal; only the other dialects than PostgreSQL's read backslashes.
open_literal :
    (d : Dialect) (acc s : Text) (c : ℕ)
    → (c == 39) ≡ false
    → (has_escapes d && c == 92) ≡ false
    → lex_from d (in_literal acc) (c ∷ s) ≡ lex_from d (in_literal (acc ++ c ∷ [])) s
unfolding lex_from
open_literal d acc s c h k = rw (h, k, lex_char) (prepend-nil _)

double_literal :
    (d : Dialect) (acc s : Text)
    → lex_from d (in_literal acc) (39 ∷ 39 ∷ s) ≡ lex_from d (in_literal (acc ++ 39 ∷ [])) s
unfolding lex_from
double_literal d acc s = prepend-nil _ ∙ prepend-nil _

double_backslash :
    (d : Dialect) (acc s : Text)
    → has_escapes d ≡ true
    → lex_from d (in_literal acc) (92 ∷ 92 ∷ s) ≡ lex_from d (in_literal (acc ++ 92 ∷ [])) s
unfolding lex_from
double_backslash d acc s h = rw (h, lex_char) (prepend-nil _ ∙ prepend-nil _)

close_literal :
    (d : Dialect) (acc s : Text)
    → lex_from d (in_literal acc) (39 ∷ s) ≡ lex_from d (literal_quote acc) s
unfolding lex_from
close_literal d acc s = prepend-nil _

-- What stands between the quotes of a literal.
pub literal_body : Dialect → Text → Text
literal_body pg s = replace_all s 39 (39 ∷ 39 ∷ [])
literal_body mysql s = escape_backslashes s
literal_body clickhouse s = escape_backslashes s

-- `escape_backslashes` one character at a time.
escape_backslashes-cons :
    (c : ℕ) (s : Text)
    → escape_backslashes (c ∷ s) ≡ (
        if c == 39
        then 39 ∷ 39 ∷ escape_backslashes s
        else if c == 92
        then 92 ∷ 92 ∷ escape_backslashes s
        else c ∷ escape_backslashes s)
unfolding escape_backslashes
escape_backslashes-cons c s = elim (Bool-cases (c == 39)) [
  | inl same ↦ rw same refl
  | inr other ↦ rw other (elim (Bool-cases (c == 92)) [ inl p ↦ rw p refl | inr p ↦ rw p refl ])
]

literal_body-cons :
    (d : Dialect) (c : ℕ) (s : Text)
    → literal_body d (c ∷ s) ≡ (
        if c == 39
        then 39 ∷ 39 ∷ literal_body d s
        else if has_escapes d && c == 92
        then 92 ∷ 92 ∷ literal_body d s
        else c ∷ literal_body d s)
unfolding literal_body replace_all
literal_body-cons pg c s = refl
literal_body-cons mysql c s = escape_backslashes-cons c s
literal_body-cons clickhouse c s = escape_backslashes-cons c s

literal_body-nil : (d : Dialect) → literal_body d [] ≡ []
unfolding literal_body escape_backslashes
literal_body-nil pg = refl
literal_body-nil mysql = refl
literal_body-nil clickhouse = refl

lex-literal_body :
    (d : Dialect) (s acc rest : Text)
    → lex_from d (in_literal acc) (literal_body d s ++ 39 ∷ rest)
      ≡ lex_from d (literal_quote (acc ++ s)) rest
lex-literal_body d [] acc rest = rw (literal_body-nil d, append-nil) (close_literal d acc rest)
lex-literal_body d (c ∷ s) acc rest = rw (literal_body-cons d c s) (elim (Bool-cases (c == 39)) [
  | inl quote ↦ rw quote (
      double_literal d acc _
      ∙ lex-literal_body d s (acc ++ 39 ∷ []) rest
      ∙ ap (λ t. lex_from d (literal_quote t) rest) (rw ((==_iff c 39).0 quote) (snoc acc s 39)))
  | inr other ↦ rw other (elim (Bool-cases (has_escapes d && c == 92)) [
    | inl slash ↦ rw slash (
        double_backslash d acc _ (&&-left (has_escapes d) (c == 92) slash)
        ∙ lex-literal_body d s (acc ++ 92 ∷ []) rest
        ∙ ap (λ t. lex_from d (literal_quote t) rest)
            (rw ((==_iff c 92).0 (&&-right (has_escapes d) (c == 92) slash)) (snoc acc s 92)))
    | inr simple ↦ rw simple (
        open_literal d acc _ c other simple
        ∙ lex-literal_body d s (acc ++ c ∷ []) rest
        ∙ ap (λ t. lex_from d (literal_quote t) rest) (snoc acc s c))
  ])
])

-- Behind the closing quote: the token ends unless the same quote follows.
abbrev pub Follows : ℕ → Text → Type 0
Follows q [] = Unit {0}
Follows q (c ∷ s) = (c == q) ≡ false

abbrev pub token_then : Token → Option (List Token) → Option (List Token)
token_then t o = prepend (t ∷ []) o

prepend-cons :
    (t : Token) (ts : List Token) (o : Option (List Token))
    → prepend (t ∷ ts) o ≡ token_then t (prepend ts o)
prepend-cons t ts none = refl
prepend-cons t ts (some us) = refl

end_identifier :
    (d : Dialect) (s rest : Text)
    → Follows (identifier_mark d) rest
    → lex_from d (identifier_quote s) rest ≡ token_then (identifier s) (lex d rest)
unfolding lex
end_identifier d s [] h = refl
end_identifier d s (c ∷ rest) h = rw (h, lex_char) (prepend-cons _ _ _)

end_literal :
    (d : Dialect) (s rest : Text)
    → Follows 39 rest
    → lex_from d (literal_quote s) rest ≡ token_then (literal s) (lex d rest)
unfolding lex
end_literal d s [] h = refl
end_literal d s (c ∷ rest) h = rw (h, lex_char) (prepend-cons _ _ _)

escape_identifier-quoted :
    (d : Dialect) (s rest : Text)
    → escape_identifier d s ++ rest ≡ identifier_mark d ∷ quoted_identifier d s rest
unfolding escape_identifier
escape_identifier-quoted pg s rest = simp append_assoc
escape_identifier-quoted mysql s rest = simp append_assoc
escape_identifier-quoted clickhouse s rest = simp append_assoc

escape_literal-quoted :
    (d : Dialect) (s rest : Text)
    → escape_literal d s ++ rest ≡ 39 ∷ (literal_body d s ++ 39 ∷ rest)
unfolding escape_literal literal_body
escape_literal-quoted pg s rest = simp append_assoc
escape_literal-quoted mysql s rest = simp append_assoc
escape_literal-quoted clickhouse s rest = simp append_assoc

start_identifier :
    (d : Dialect) (s : Text) → lex d (identifier_mark d ∷ s) ≡ lex_from d (in_identifier []) s
unfolding lex
start_identifier pg s = prepend-nil _
start_identifier mysql s = prepend-nil _
start_identifier clickhouse s = prepend-nil _

start_literal : (d : Dialect) (s : Text) → lex d (39 ∷ s) ≡ lex_from d (in_literal []) s
unfolding lex
start_literal pg s = prepend-nil _
start_literal mysql s = prepend-nil _
start_literal clickhouse s = prepend-nil _

-- In every dialect a quoted identifier, for ClickHouse one without a backslash, is read as one token
-- that holds exactly the given text, and what stands behind it is read as if it stood alone, unless
-- it begins with the closing quote.
pub lex-escape_identifier :
    (d : Dialect) (s rest : Text)
    → is_escaping d s ≡ false
    → Follows (identifier_mark d) rest
    → lex d (escape_identifier d s ++ rest) ≡ token_then (identifier s) (lex d rest)
lex-escape_identifier d s rest safe h =
    rw (escape_identifier-quoted d s rest)
      (start_identifier d _ ∙ lex-quoted_identifier d s [] rest safe ∙ end_identifier d s rest h)

-- In every dialect a quoted string literal is read as one token that holds exactly the given text,
-- and what stands behind it is read as if it stood alone, unless it begins with a single quote.
pub lex-escape_literal :
    (d : Dialect) (s rest : Text)
    → Follows 39 rest
    → lex d (escape_literal d s ++ rest) ≡ token_then (literal s) (lex d rest)
lex-escape_literal d s rest h =
    rw (escape_literal-quoted d s rest)
      (start_literal d _ ∙ lex-literal_body d s [] rest ∙ end_literal d s rest h)
