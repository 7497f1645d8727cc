-- ===== src/Sql/Lexer.antt =====
-- How a server splits a statement into tokens: an independent reading of the quoting rules, which
-- the builders are measured against. Inside quotes a doubled quote stands for one quote; MySQL and
-- ClickHouse also read a backslash in a string literal as an escape, and ClickHouse one in a quoted
-- identifier. Outside quotes each character is a token of its own.
use db_provision_operator.Base.{
  ℕ, Text, List, [], ◌∷◌, ◌++◌, Bool, true, false, ◌&&◌, ◌==◌, if◌then◌else◌, Option, none, some,
}
use db_provision_operator.Sql.Dialect.{Dialect, pg, mysql, clickhouse}

pub data Token : Type 0 where
  char : ℕ → Token
  identifier : Text → Token
  literal : Text → Token

-- Where the lexer stands: between tokens, inside a quoted token with the text read so far, behind a
-- quote that may be the last of its token, or behind a backslash.
pub data Mode : Type 0 where
  plain : Mode
  in_identifier identifier_quote identifier_escape : Text → Mode
  in_literal literal_quote literal_escape : Text → Mode

abbrev pub identifier_mark : Dialect → ℕ
identifier_mark pg = b'"'
identifier_mark mysql = b'`'
identifier_mark clickhouse = b'`'

abbrev pub has_escapes : Dialect → Bool
has_escapes pg = false
has_escapes mysql = true
has_escapes clickhouse = true

abbrev pub has_name_escapes : Dialect → Bool
has_name_escapes pg = false
has_name_escapes mysql = false
has_name_escapes clickhouse = true

-- What a backslash and this character stand for.
abbrev pub escaped : ℕ → ℕ
escaped c =
    if c == b'n'
    then 10
    else if c == b't'
    then 9
    else if c == b'r'
    then 13
    else if c == b'0'
    then 0
    else if c == b'b'
    then 8
    else c

abbrev pub start_token : Dialect → ℕ → List Token × Mode
start_token d c =
    if c == identifier_mark d
    then ([], in_identifier [])
    else if c == 39
    then ([], in_literal [])
    else (char c ∷ [], plain)

-- a token, and then what the next character begins
abbrev pub behind : Token → List Token × Mode → List Token × Mode
behind t (ts, m) = (t ∷ ts, m)

unfoldable pub lex_char : Dialect → Mode → ℕ → List Token × Mode
lex_char d plain c = start_token d c
lex_char d (in_identifier s) c =
    if c == identifier_mark d
    then ([], identifier_quote s)
    else if has_name_escapes d && c == 92
    then ([], identifier_escape s)
    else ([], in_identifier (s ++ c ∷ []))
lex_char d (identifier_quote s) c =
    if c == identifier_mark d
    then ([], in_identifier (s ++ c ∷ []))
    else behind (identifier s) (start_token d c)
lex_char d (identifier_escape s) c = ([], in_identifier (s ++ escaped c ∷ []))
lex_char d (in_literal s) c =
    if c == 39
    then ([], literal_quote s)
    else if has_escapes d && c == 92
    then ([], literal_escape s)
    else ([], in_literal (s ++ c ∷ []))
lex_char d (literal_quote s) c =
    if c == 39 then ([], in_literal (s ++ c ∷ [])) else behind (literal s) (start_token d c)
lex_char d (literal_escape s) c = ([], in_literal (s ++ escaped c ∷ []))

-- At the end of the text an open quote is an error.
abbrev pub lex_end : Mode → Option (List Token)
lex_end plain = some []
lex_end (identifier_quote s) = some (identifier s ∷ [])
lex_end (literal_quote s) = some (literal s ∷ [])
lex_end _ = none

abbrev pub prepend : List Token → Option (List Token) → Option (List Token)
prepend ts none = none
prepend ts (some us) = some (ts ++ us)

unfoldable pub lex_from : Dialect → Mode → Text → Option (List Token)
unfolding lex_char
lex_from d m [] = lex_end m
lex_from d m (c ∷ s) = prepend (lex_char d m c).0 (lex_from d (lex_char d m c).1 s)

unfoldable pub lex : Dialect → Text → Option (List Token)
unfolding lex_from
lex d s = lex_from d plain s
