-- ===== src/Sql/Role/Clauses.antt =====
-- role.go: the clauses of a statement, each against its parts.
use mathlib.Core.Path.{ap₂}
use db_provision_operator.Base.{
  Bool-cases, List, Text, [], ap, append-nil, arith, codes, every, if◌then◌else◌, inl, inr,
  is_empty, join, map, refl, sym, true, ◌++◌, ◌∙◌, ◌∷◌, ◌≡◌, ◌⊎◌,
}
use db_provision_operator.Sql.Dialect.{Dialect, escape_identifier}
use db_provision_operator.Sql.Statement.{
  Parts, is_spaced, is_word, render, render-append, starts_bare, string, word,
}
use db_provision_operator.Sql.Options.{AreSpaced, join-render, joined-spaced}
use db_provision_operator.Sql.Role.{
  RoleAction, RoleBuilder, action_text, create_role, identified_text, in_roles_option,
  spaced_options,
}
use db_provision_operator.Sql.Role.Outline.{
  identified_parts, in_roles_parts, plugin_parts, role_names, spaced_parts,
}

pub names-render :
    (d : Dialect) (rs : List Text) → map (escape_identifier d) rs ≡ map (render d) (role_names rs)
names-render d [] = refl
names-render d (r ∷ rs) = ap₂ ◌∷◌ (sym (append-nil _)) (names-render d rs)

pub names-spaced : (rs : List Text) → every is_spaced (role_names rs) ≡ true
names-spaced [] = refl
names-spaced (r ∷ rs) = names-spaced rs

pub in_roles-render :
    (d : Dialect) (rs : List Text) → in_roles_option d rs ≡ map (render d) (in_roles_parts rs)
unfolding in_roles_option
in_roles-render d [] = refl
in_roles-render d (r ∷ rs) =
    ap (λ t. (codes "IN ROLE " ++ t) ∷ [])
      (ap (join (codes ", ")) (names-render d (r ∷ rs))
        ∙ join-render d (codes ", ") (role_names (r ∷ rs)))

pub in_roles-AreSpaced : (rs : List Text) → AreSpaced (in_roles_parts rs)
in_roles-AreSpaced [] = record { each = refl }
in_roles-AreSpaced (r ∷ rs) = record {
  each = rw (joined-spaced (codes ", ") (role_names (r ∷ rs)) refl (names-spaced (r ∷ rs))) refl;
}

pub action-word : (a : RoleAction) → is_word (action_text a) ≡ true
action-word create_role = refl
action-word _ = refl

pub spaced-render :
    (d : Dialect) (ps : List Parts)
    → spaced_options (map (render d) ps) ≡ render d (spaced_parts ps)
spaced-render d [] = refl
spaced-render d (p ∷ ps) = ap (λ t. codes " " ++ t) (join-render d (codes " ") (p ∷ ps))

pub spaced-spaced :
    (ps : List Parts)
    → every is_spaced ps ≡ true
    → (is_spaced (spaced_parts ps) ≡ true) × (starts_bare (spaced_parts ps) ≡ true)
spaced-spaced [] h = (refl, refl)
spaced-spaced (p ∷ ps) h = (joined-spaced (codes " ") (p ∷ ps) refl h, refl)

pub plugin-render :
    (d : Dialect) (words plugin : Text)
    → (if is_empty plugin then [] else words ++ plugin) ≡ render d (plugin_parts words plugin)
plugin-render d words plugin = elim (Bool-cases (is_empty plugin)) [
  | inl left_out ↦ rw left_out refl
  | inr given ↦ rw given (simp append-nil)
]

pub plugin-spaced :
    (words plugin : Text) (ps : Parts)
    → is_word words ≡ true
    → (is_empty plugin ≡ true) ⊎ (is_word plugin ≡ true)
    → (is_spaced ps ≡ true) × (starts_bare ps ≡ true)
    → (is_spaced (plugin_parts words plugin ++ ps) ≡ true)
      × (starts_bare (plugin_parts words plugin ++ ps) ≡ true)
plugin-spaced words plugin ps w p h = ground arith

pub identified-render :
    (b : RoleBuilder) → identified_text b ≡ render b.dialect (identified_parts b)
unfolding identified_text
identified-render b = elim (Bool-cases (is_empty b.password)) [
  | inl none_set ↦ rw none_set (plugin-render b.dialect (codes " IDENTIFIED WITH ") b.auth_plugin)
  | inr given ↦ rw given (
      rw (plugin-render b.dialect (codes " WITH ") b.auth_plugin)
        (simp (render-append, append-nil)))
]

pub identified-spaced :
    (b : RoleBuilder)
    → (is_empty b.auth_plugin ≡ true) ⊎ (is_word b.auth_plugin ≡ true)
    → (is_spaced (identified_parts b) ≡ true) × (starts_bare (identified_parts b) ≡ true)
identified-spaced b p = elim (Bool-cases (is_empty b.password)) [
  | inl none_set ↦ rw none_set (
      rw append-nil at
        (plugin-spaced (codes " IDENTIFIED WITH ") b.auth_plugin [] refl p (refl, refl)))
  | inr given ↦ rw given (
    (plugin-spaced (codes " WITH ") b.auth_plugin (word (codes " BY ") ∷ string b.password ∷ [])
        refl p (refl, refl)).0,
    refl,
  )
]
