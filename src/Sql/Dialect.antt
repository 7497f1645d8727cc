-- ===== src/Sql/Dialect.antt =====
-- internal/adapter/sqlbuilder/dialect.go: quoting of identifiers and literals. A text is the list
-- of its code points; the interface `Dialect` with its three implementations is a data type.
use db_provision_operator.Base.{ℕ, Text, [], ◌∷◌, ◌++◌, ◌==◌, if◌then◌else◌}

pub data Dialect : Type 0 where
  pg mysql clickhouse : Dialect

-- strings.ReplaceAll with a pattern of one character
unfoldable pub replace_all : Text → ℕ → Text → Text
replace_all [] old new = []
replace_all (c ∷ s) old new =
    let rest = replace_all s old new in if c == old then new ++ rest else c ∷ rest

abbrev pub double_quote : ℕ
double_quote = b'"'

abbrev pub single_quote : ℕ
single_quote = 39

abbrev pub backtick : ℕ
backtick = b'`'

abbrev pub backslash : ℕ
backslash = 92

unfoldable pub escape_identifier : Dialect → Text → Text
unfolding replace_all
escape_identifier pg s =
    double_quote
    ∷ (replace_all s double_quote (double_quote ∷ double_quote ∷ []) ++ double_quote ∷ [])
escape_identifier mysql s =
    backtick ∷ (replace_all s backtick (backtick ∷ backtick ∷ []) ++ backtick ∷ [])
escape_identifier clickhouse s =
    backtick ∷ (replace_all s backtick (backtick ∷ backtick ∷ []) ++ backtick ∷ [])

-- the two replacements of MySQL and ClickHouse, quotes first
unfoldable pub escape_backslashes : Text → Text
unfolding replace_all
escape_backslashes s =
    let escaped = replace_all s single_quote (single_quote ∷ single_quote ∷ []) in
    replace_all escaped backslash (backslash ∷ backslash ∷ [])

unfoldable pub escape_literal : Dialect → Text → Text
unfolding replace_all escape_backslashes
escape_literal pg s =
    single_quote
    ∷ (replace_all s single_quote (single_quote ∷ single_quote ∷ []) ++ single_quote ∷ [])
escape_literal mysql s = single_quote ∷ (escape_backslashes s ++ single_quote ∷ [])
escape_literal clickhouse s = single_quote ∷ (escape_backslashes s ++ single_quote ∷ [])
