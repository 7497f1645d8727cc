-- ===== src/Sql/Privilege/Allowed.antt =====
-- privilege.go: what has passed the check is on the allowlist, and is harmless text.
use mathlib.Core.Path.{subst}
use db_provision_operator.Base.{
  ◌≡◌, refl, sym, ap, ◌≢◌, ◌↔◌, inl, inr, Text, codes, List, [], ◌∷◌, ◌++◌, Bool, true, false,
  Bool-cases, every, every-append, same_text, join, none, some, arith, &&-left, &&-right,
}
use db_provision_operator.Sql.Dialect.{Dialect, pg, mysql, clickhouse}
use db_provision_operator.Sql.Statement.{is_bare, is_word, is_word-bare}
use db_provision_operator.Sql.Privilege.{
  BuildError, invalid_privilege, valid_privileges, normalize, normalize_privileges, allows,
  first_invalid, validate_privileges,
}

pub same_text-eq : (s t : Text) → same_text s t ≡ true → s ≡ t
same_text-eq [] [] h = refl
same_text-eq [] (d ∷ t) h = cc
same_text-eq (c ∷ s) [] h = cc
same_text-eq (c ∷ s) (d ∷ t) h = ground (arith, same_text-eq s t)

pub same_text_refl : (s : Text) → same_text s s ≡ true
same_text_refl [] = refl
same_text_refl (c ∷ s) = ground (arith, same_text_refl s)

-- A test that every entry passes is passed by what the list allows.
allows-every :
    (q : Text → Bool) (l : List Text) (u : Text) → every q l ≡ true → allows l u ≡ true → q u ≡ true
allows-every q [] u h a = cc
allows-every q (x ∷ l) u h a = elim (Bool-cases (same_text u x)) [
  | inl same ↦ subst (λ t. q t ≡ true) (sym (same_text-eq u x same)) (&&-left (q x) _ h)
  | inr other ↦ allows-every q l u (&&-right (q x) _ h) (rw other at a)
]

-- The allowlists hold words without quotes.
valid_privileges-words : (d : Dialect) → every is_word (valid_privileges d) ≡ true
unfolding valid_privileges
valid_privileges-words pg = refl
valid_privileges-words mysql = refl
valid_privileges-words clickhouse = refl

abbrev pub passes : List Text → Text → Bool
passes allowlist p = allows allowlist (normalize p)

pub first_invalid-none : (ps l : List Text) → first_invalid ps l ≡ none → every (passes l) ps ≡ true
unfolding first_invalid
first_invalid-none [] l h = refl
first_invalid-none (p ∷ ps) l h = ground (arith, first_invalid-none ps l)

pub first_invalid-passes :
    (ps l : List Text) → every (passes l) ps ≡ true → first_invalid ps l ≡ none
unfolding first_invalid
first_invalid-passes [] l h = refl
first_invalid-passes (p ∷ ps) l h = ground (arith, first_invalid-passes ps l)

-- Before the reported privilege every one passes, and it does not.
pub first_invalid-some :
    (ps l : List Text) {e : BuildError}
    → first_invalid ps l ≡ some e
    → (before : List Text) × (p : Text) × (after : List Text) × (ps ≡ before ++ p ∷ after)
      × (every (passes l) before ≡ true)
      × (passes l p ≡ false)
      × (e ≡ invalid_privilege p)
unfolding first_invalid
first_invalid-some [] l h = cc
first_invalid-some (p ∷ ps) l h = elim (Bool-cases (passes l p)) [
  | inl good ↦
      let (before, q, after, split, fine, bad, named) = first_invalid-some ps l (rw good at h) in
      (p ∷ before, q, after, ap (λ t. p ∷ t) split, rw good fine, bad, named)
  | inr bad ↦ ([], p, ps, refl, refl, bad, ground arith)
]

join_words :
    (p : Text) (ps : List Text)
    → every is_word (p ∷ ps) ≡ true
    → is_word (join (codes ", ") (p ∷ ps)) ≡ true
join_words p [] h = &&-left (is_word p) _ h
join_words [] (q ∷ ps) h = cc
join_words (c ∷ p) (q ∷ ps) h =
    rw (every-append is_bare (c ∷ p) (codes ", " ++ join (codes ", ") (q ∷ ps)))
      (ground (arith, is_word-bare (join (codes ", ") (q ∷ ps)), join_words q ps))

passed-words :
    (d : Dialect) (ps : List Text)
    → every (passes (valid_privileges d)) ps ≡ true
    → every is_word (normalize_privileges ps) ≡ true
unfolding normalize_privileges
passed-words d [] h = refl
passed-words d (p ∷ ps) h = ground (
  arith,
  allows-every is_word (valid_privileges d) (normalize p) (valid_privileges-words d),
  passed-words d ps,
)

-- The list of privileges that a statement names is one word.
pub privilege_list-word :
    (d : Dialect) (ps : List Text)
    → validate_privileges ps (valid_privileges d) ≡ none
    → is_word (join (codes ", ") (normalize_privileges ps)) ≡ true
unfolding validate_privileges normalize_privileges
privilege_list-word d [] h = cc
privilege_list-word d (p ∷ ps) h =
    join_words (normalize p) (normalize_privileges ps)
      (passed-words d (p ∷ ps) (first_invalid-none (p ∷ ps) (valid_privileges d) h))

-- The check passes exactly when there is a privilege and each, trimmed and in upper case, is on the
-- allowlist.
pub validate_privileges-none_iff :
    (ps l : List Text)
    → (validate_privileges ps l ≡ none) ↔ ((ps ≢ []) × (every (passes l) ps ≡ true))
unfolding validate_privileges
validate_privileges-none_iff [] l = (λ h. cc, λ h. absurd (h.0 refl))
validate_privileges-none_iff (p ∷ ps) l =
    (λ h. ((λ e. cc), first_invalid-none (p ∷ ps) l h), λ h. first_invalid-passes (p ∷ ps) l h.1)
