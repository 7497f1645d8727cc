-- ===== src/Sql/Statement.antt =====
-- A statement as its parts: fixed words, quoted names and quoted strings. The builders write such
-- parts one behind the other; here it is shown how a server reads them back.
use db_provision_operator.Base.{
  ℕ, ◌≡◌, refl, ap, ◌∙◌, Text, List, [], ◌∷◌, ◌++◌, append_assoc, map, Bool, true, false, not, ◌&&◌,
  ◌==◌, every, &&-left, &&-right, some, arith,
}
use db_provision_operator.Sql.Dialect.{
  Dialect, pg, mysql, clickhouse, escape_identifier, escape_literal,
}
use db_provision_operator.Sql.Lexer.{
  Token, char, identifier, literal, identifier_mark, has_name_escapes, lex,
}
use db_provision_operator.Sql.Quoting.{
  Follows, token_then, lex-escape_identifier, lex-escape_literal,
}

pub data Part : Type 0 where
  word name string : Text → Part

abbrev pub Parts : Type 0
Parts = List Part

-- The text that the parts make.
abbrev pub render : Dialect → Parts → Text
render d [] = []
render d (word w ∷ ps) = w ++ render d ps
render d (name s ∷ ps) = escape_identifier d s ++ render d ps
render d (string s ∷ ps) = escape_literal d s ++ render d ps

-- What a server should read: each quoted part is one token, with the text that it was made of.
abbrev pub tokens : Parts → List Token
tokens [] = []
tokens (word w ∷ ps) = map char w ++ tokens ps
tokens (name s ∷ ps) = identifier s ∷ tokens ps
tokens (string s ∷ ps) = literal s ∷ tokens ps

-- No quote of any dialect: neither " nor ' nor `.
abbrev pub is_bare : ℕ → Bool
is_bare c = not (c == 34) && not (c == 39) && not (c == 96)

-- A word has characters, and no quote among them.
abbrev pub is_word : Text → Bool
is_word [] = false
is_word (c ∷ w) = every is_bare (c ∷ w)

abbrev pub starts_bare : Parts → Bool
starts_bare [] = true
starts_bare (word w ∷ ps) = true
starts_bare (name s ∷ ps) = false
starts_bare (string s ∷ ps) = false

-- Every word is one, and no two quoted parts touch.
abbrev pub is_spaced : Parts → Bool
is_spaced [] = true
is_spaced (word w ∷ ps) = is_word w && is_spaced ps
is_spaced (name s ∷ ps) = starts_bare ps && is_spaced ps
is_spaced (string s ∷ ps) = starts_bare ps && is_spaced ps

pub render-append : (d : Dialect) (ps qs : Parts) → render d (ps ++ qs) ≡ render d ps ++ render d qs
render-append d [] qs = refl
render-append d (word w ∷ ps) qs = simp (render-append d ps qs, append_assoc)
render-append d (name s ∷ ps) qs = simp (render-append d ps qs, append_assoc)
render-append d (string s ∷ ps) qs = simp (render-append d ps qs, append_assoc)

starts_bare-append :
    (ps qs : Parts) → starts_bare ps ≡ true → starts_bare qs ≡ true → starts_bare (ps ++ qs) ≡ true
starts_bare-append [] qs h k = k
starts_bare-append (word w ∷ ps) qs h k = refl
starts_bare-append (name s ∷ ps) qs h k = cc
starts_bare-append (string s ∷ ps) qs h k = cc

-- Parts may be followed by others that begin with a word.
pub is_spaced-append :
    (ps qs : Parts)
    → is_spaced ps ≡ true
    → is_spaced qs ≡ true
    → starts_bare qs ≡ true
    → is_spaced (ps ++ qs) ≡ true
is_spaced-append [] qs h k b = k
is_spaced-append (word w ∷ ps) qs h k b = ground (arith, is_spaced-append ps qs)
is_spaced-append (name s ∷ ps) qs h k b =
    ground (arith, is_spaced-append ps qs, starts_bare-append ps qs)
is_spaced-append (string s ∷ ps) qs h k b =
    ground (arith, is_spaced-append ps qs, starts_bare-append ps qs)

lex-bare :
    (d : Dialect) (c : ℕ) (s : Text)
    → is_bare c ≡ true
    → lex d (c ∷ s) ≡ token_then (char c) (lex d s)
unfolding lex
lex-bare pg c s h = ground arith
lex-bare mysql c s h = ground arith
lex-bare clickhouse c s h = ground arith

lex-word :
    (d : Dialect) (w s : Text) {ts : List Token}
    → every is_bare w ≡ true
    → lex d s ≡ some ts
    → lex d (w ++ s) ≡ some (map char w ++ ts)
lex-word d [] s h e = e
lex-word d (c ∷ w) s h e =
    lex-bare d c (w ++ s) (&&-left _ _ h)
    ∙ ap (token_then (char c)) (lex-word d w s (&&-right (is_bare c) _ h) e)

follows_bare : (d : Dialect) (c : ℕ) → is_bare c ≡ true → (c == identifier_mark d) ≡ false
follows_bare pg c h = ground arith
follows_bare mysql c h = ground arith
follows_bare clickhouse c h = ground arith

-- Behind a quoted part stands the end or a word, so its closing quote is not doubled.
render-Follows :
    (d : Dialect) (ps : Parts)
    → is_spaced ps ≡ true
    → starts_bare ps ≡ true
    → Follows (identifier_mark d) (render d ps) × Follows 39 (render d ps)
render-Follows d [] h b = (tt, tt)
render-Follows d (word [] ∷ ps) h b = cc
render-Follows d (word (c ∷ w) ∷ ps) h b = (follows_bare d c (ground arith), ground arith)
render-Follows d (name s ∷ ps) h b = cc
render-Follows d (string s ∷ ps) h b = cc

pub is_word-bare : (w : Text) → is_word w ≡ true → every is_bare w ≡ true
is_word-bare [] h = refl
is_word-bare (c ∷ w) h = h

-- Where a quoted name has no escapes, a spaced statement is read back part for part: no quoted text reaches beyond its own token.
pub lex-render :
    (d : Dialect) (ps : Parts)
    → has_name_escapes d ≡ false
    → is_spaced ps ≡ true
    → lex d (render d ps) ≡ some (tokens ps)
lex-render d [] k h = unfold lex in refl
lex-render d (word w ∷ ps) k h =
    lex-word d w (render d ps) (is_word-bare w (&&-left _ _ h))
      (lex-render d ps k (&&-right (is_word w) _ h))
lex-render d (name s ∷ ps) k h =
    let spaced = &&-right (starts_bare ps) (is_spaced ps) h in
    lex-escape_identifier d s (render d ps) (rw k refl)
      (render-Follows d ps spaced (&&-left _ _ h)).0
    ∙ ap (token_then (identifier s)) (lex-render d ps k spaced)
lex-render d (string s ∷ ps) k h =
    let spaced = &&-right (starts_bare ps) (is_spaced ps) h in
    lex-escape_literal d s (render d ps) (render-Follows d ps spaced (&&-left _ _ h)).1
    ∙ ap (token_then (literal s)) (lex-render d ps k spaced)
