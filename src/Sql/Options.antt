-- ===== src/Sql/Options.antt =====
-- Lists of options that a builder joins by a separator, as texts and as parts.
use db_provision_operator.Base.{
  sym, ap, codes, join, ◌∙◌, ◌&&◌, every-append, ℕ, zero, suc, ◌+◌, ◌/◌, ◌%◌, ◌<◌, ltb→lt, ◌≡◌,
  refl, inl, inr, Text, List, [], ◌∷◌, ◌++◌, append-nil, map, true, false, &&-left, &&-right,
  Bool-cases, ltb, every, is_empty, join, if◌then◌else◌, arith, Bool,
}
use mathlib.Core.Path.{ap₂}
use mathlib.Core.List.{map-append}
use db_provision_operator.Base.Int.{ℤ, pos, negsuc, decimal_from, decimal, print_int}
use db_provision_operator.Sql.Dialect.{Dialect, escape_identifier, escape_literal}
use db_provision_operator.Sql.Statement.{
  Parts, word, name, string, render, is_bare, is_word, is_word-bare, is_spaced, render-append,
  is_spaced-append, starts_bare,
}

-- `opts = append(opts, key + quoted value)` where the value is not empty
abbrev pub name_option : Dialect → Text → Text → List Text
name_option d key s = if is_empty s then [] else (key ++ escape_identifier d s) ∷ []

abbrev pub string_option : Dialect → Text → Text → List Text
string_option d key s = if is_empty s then [] else (key ++ escape_literal d s) ∷ []

abbrev pub name_parts : Text → Text → List Parts
name_parts key s = if is_empty s then [] else (word key ∷ name s ∷ []) ∷ []

abbrev pub string_parts : Text → Text → List Parts
string_parts key s = if is_empty s then [] else (word key ∷ string s ∷ []) ∷ []

pub name_option-render :
    (d : Dialect) (key s : Text) → name_option d key s ≡ map (render d) (name_parts key s)
name_option-render d key s = elim (Bool-cases (is_empty s)) [
  | inl left_out ↦ rw left_out refl
  | inr given ↦ rw given (simp append-nil)
]

pub string_option-render :
    (d : Dialect) (key s : Text) → string_option d key s ≡ map (render d) (string_parts key s)
string_option-render d key s = elim (Bool-cases (is_empty s)) [
  | inl left_out ↦ rw left_out refl
  | inr given ↦ rw given (simp append-nil)
]

-- The options one behind the other, with a word between two of them.
abbrev pub joined : Text → List Parts → Parts
joined sep [] = []
joined sep (p ∷ []) = p
joined sep (p ∷ q ∷ rest) = p ++ (word sep ∷ joined sep (q ∷ rest))

pub join-render :
    (d : Dialect) (sep : Text) (ps : List Parts)
    → join sep (map (render d) ps) ≡ render d (joined sep ps)
join-render d sep [] = refl
join-render d sep (p ∷ []) = refl
join-render d sep (p ∷ q ∷ rest) = simp (render-append, join-render d sep (q ∷ rest))

-- An option may stand between two words.
pub joined-spaced :
    (sep : Text) (ps : List Parts)
    → is_word sep ≡ true
    → every is_spaced ps ≡ true
    → is_spaced (joined sep ps) ≡ true
joined-spaced sep [] w h = refl
joined-spaced sep (p ∷ []) w h = &&-left (is_spaced p) _ h
joined-spaced sep (p ∷ q ∷ rest) w h =
    is_spaced-append p (word sep ∷ joined sep (q ∷ rest)) (&&-left (is_spaced p) _ h)
      (rw w (joined-spaced sep (q ∷ rest) w (&&-right (is_spaced p) _ h))) refl

bare-word : (t : Text) → every is_bare t ≡ true → is_empty t ≡ false → is_word t ≡ true
bare-word [] h e = cc
bare-word (c ∷ t) h e = h

-- A printed number is a word.
digit-bare : (r : ℕ) → r < 10 → is_bare (48 + r) ≡ true
digit-bare r h = ground arith

decimal_from-bare :
    (f n : ℕ) (acc : Text) → every is_bare acc ≡ true → every is_bare (decimal_from f n acc) ≡ true
unfolding decimal_from
decimal_from-bare zero n acc h = h
decimal_from-bare (suc f) n acc h = elim (Bool-cases (ltb n 10)) [
  | inl small ↦ rw (small, digit-bare n (ltb→lt n 10 small)) h
  | inr large ↦ rw large (
      decimal_from-bare f (n / 10) ((48 + n % 10) ∷ acc) (rw (digit-bare (n % 10) (omega arith)) h))
]

decimal_from-ne-nil : (f n c : ℕ) (acc : Text) → is_empty (decimal_from f n (c ∷ acc)) ≡ false
unfolding decimal_from
decimal_from-ne-nil zero n c acc = refl
decimal_from-ne-nil (suc f) n c acc =
    ground (arith, decimal_from-ne-nil f (n / 10) (48 + n % 10) (c ∷ acc))

decimal-word : (n : ℕ) → is_word (decimal n) ≡ true
unfolding decimal decimal_from
decimal-word n =
    bare-word (decimal n) (decimal_from-bare (suc n) n [] refl)
      (ground (arith, decimal_from-ne-nil n (n / 10) (48 + n % 10) []))

pub print_int-word : (n : ℤ) → is_word (print_int n) ≡ true
unfolding print_int
print_int-word (pos n) = decimal-word n
print_int-word (negsuc n) = is_word-bare (decimal (suc n)) (decimal-word (suc n))

-- Two lists of options, one behind the other.
pub append_options :
    (d : Dialect) (os os' : List Text) (ps ps' : List Parts)
    → os ≡ map (render d) ps
    → os' ≡ map (render d) ps'
    → os ++ os' ≡ map (render d) (ps ++ ps')
append_options d os os' ps ps' e e' = ap₂ (λ a b. a ++ b) e e' ∙ sym (map-append (render d) ps ps')

-- Every option is spaced.
pub record AreSpaced (ps : List Parts) : Type 0 where
  pub each : every is_spaced ps ≡ true

pub append-AreSpaced : (ps qs : List Parts) → AreSpaced ps → AreSpaced qs → AreSpaced (ps ++ qs)
append-AreSpaced ps qs h k = record { each = every-append is_spaced ps qs ∙ ap₂ ◌&&◌ h.each k.each }

pub name_parts-AreSpaced : (key s : Text) → is_word key ≡ true → AreSpaced (name_parts key s)
name_parts-AreSpaced key s h = ground arith

pub string_parts-AreSpaced : (key s : Text) → is_word key ≡ true → AreSpaced (string_parts key s)
string_parts-AreSpaced key s h = ground arith

-- `sb.WriteString(words); sb.WriteString(quoted)` where the value is not empty
unfoldable pub name_clause : Dialect → Text → Text → Text
name_clause d words s = if is_empty s then [] else words ++ escape_identifier d s

abbrev pub clause_parts : Text → Text → Parts
clause_parts words s = if is_empty s then [] else word words ∷ name s ∷ []

pub clause-render :
    (d : Dialect) (words s : Text) → name_clause d words s ≡ render d (clause_parts words s)
unfolding name_clause
clause-render d words s = elim (Bool-cases (is_empty s)) [
  | inl left_out ↦ rw left_out refl
  | inr given ↦ rw given (simp append-nil)
]

pub clause-spaced :
    (words s : Text) (ps : Parts)
    → is_word words ≡ true
    → (is_spaced ps ≡ true) × (starts_bare ps ≡ true)
    → (is_spaced (clause_parts words s ++ ps) ≡ true)
      × (starts_bare (clause_parts words s ++ ps) ≡ true)
clause-spaced words s ps h k = ground arith

-- Words that stand only where a flag is set.
abbrev pub optional_word : Text → Bool → Parts
optional_word words v = if v then word words ∷ [] else []

pub word-render :
    (d : Dialect) (words : Text) (v : Bool)
    → (if v then words else []) ≡ render d (optional_word words v)
word-render d words true = simp append-nil
word-render d words false = refl

-- `" WITH "` and the options joined by a space, or nothing
abbrev pub with_options : List Text → Text
with_options [] = []
with_options (o ∷ os) = codes " WITH " ++ join (codes " ") (o ∷ os)

abbrev pub with_parts : List Parts → Parts
with_parts [] = []
with_parts (p ∷ ps) = word (codes " WITH ") ∷ joined (codes " ") (p ∷ ps)

pub with-render :
    (d : Dialect) (ps : List Parts) → with_options (map (render d) ps) ≡ render d (with_parts ps)
with-render d [] = refl
with-render d (p ∷ ps) = ap (λ t. codes " WITH " ++ t) (join-render d (codes " ") (p ∷ ps))

pub with-spaced :
    (ps : List Parts)
    → every is_spaced ps ≡ true
    → (is_spaced (with_parts ps) ≡ true) × (starts_bare (with_parts ps) ≡ true)
with-spaced [] h = (refl, refl)
with-spaced (p ∷ ps) h = (joined-spaced (codes " ") (p ∷ ps) refl h, refl)

pub name-then :
    (ps : Parts)
    → (is_spaced ps ≡ true) × (starts_bare ps ≡ true)
    → (starts_bare ps && is_spaced ps) ≡ true
name-then ps h = ground arith
