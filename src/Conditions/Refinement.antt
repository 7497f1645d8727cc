-- ===== src/Conditions/Refinement.antt =====
-- internal/util/conditions.go: the list of conditions as a map from types to conditions.
use db_provision_operator.Base.{
  Bool-cases, List, Option, String, Text, [], ap, arith, if◌then◌else◌, inl, inr, none, refl, some,
  str_eq, str_eq-eq, str_eq_refl, sym, ℕ, ◌∙◌, ◌∷◌, ◌≡◌,
}
use db_provision_operator.Conditions.{
  Condition, differs, fresh, get_condition, remove_condition, set_condition,
}
use db_provision_operator.Conditions.Laws.{
  get_condition-remove_condition, get_condition-remove_condition_other,
  get_condition-set_condition_other,
}

-- SetCondition and RemoveCondition calls
pub data ConditionCall : Type 0 where
  set_call : ℕ → String → String → String → Text → ConditionCall
  remove_call : String → ConditionCall

unfoldable pub apply_call : ConditionCall → List Condition → List Condition
apply_call (set_call now t status reason message) cs = set_condition now cs t status reason message
apply_call (remove_call t) cs = remove_condition cs t

unfoldable pub apply_calls : List ConditionCall → List Condition → List Condition
apply_calls [] cs = cs
apply_calls (call ∷ calls) cs = apply_calls calls (apply_call call cs)

-- What the map promises.
abbrev pub ConditionMap : Type 0
ConditionMap = String → Option Condition

-- A new condition, the old one where it says the same, or a change that keeps the generation.
abbrev pub set_entry : ℕ → String → String → String → Text → Option Condition → Condition
set_entry now t status reason message none = fresh now t status reason message 0
set_entry now t status reason message (some c) =
    if differs c status reason message
    then fresh now t status reason message c.observed_generation
    else c

abbrev pub call_map : ConditionCall → ConditionMap → ConditionMap
call_map (set_call now t status reason message) m t' =
    if str_eq t t' then some (set_entry now t status reason message (m t)) else m t'
call_map (remove_call t) m t' = if str_eq t t' then none else m t'

unfoldable pub calls_map : List ConditionCall → ConditionMap → ConditionMap
calls_map [] m = m
calls_map (call ∷ calls) m = calls_map calls (call_map call m)

set_lookup :
    (now : ℕ) (cs : List Condition) (t status reason : String) (message : Text)
    → get_condition (set_condition now cs t status reason message) t
      ≡ some (set_entry now t status reason message (get_condition cs t))
unfolding get_condition set_condition
set_lookup now [] t status reason message = rw (str_eq_refl t) refl
set_lookup now (c ∷ cs) t status reason message = elim (Bool-cases (str_eq c.condition_type t)) [
  | inl same ↦ elim (Bool-cases (differs c status reason message)) [
    | inl new ↦ rw (same, new, str_eq_refl t) refl
    | inr old ↦ rw (same, old, same) refl
  ]
  | inr away ↦ rw (away, away) (set_lookup now cs t status reason message)
]

apply_call_lookup :
    (call : ConditionCall) (cs : List Condition) (t : String)
    → get_condition (apply_call call cs) t ≡ call_map call (get_condition cs) t
unfolding apply_call
apply_call_lookup (set_call now u status reason message) cs t = elim (Bool-cases (str_eq u t)) [
  | inl same ↦
      let e : u ≡ t = str_eq-eq u t same in
      rw same (
        ap (get_condition (set_condition now cs u status reason message)) (sym e)
        ∙ set_lookup now cs u status reason message)
  | inr away ↦ rw away (
      get_condition-set_condition_other now cs u t status reason message
        (λ e. absurd (ground (arith, e, str_eq_refl t))))
]
apply_call_lookup (remove_call u) cs t = elim (Bool-cases (str_eq u t)) [
  | inl same ↦
      let e : u ≡ t = str_eq-eq u t same in
      rw same (
        ap (get_condition (remove_condition cs u)) (sym e)
        ∙ (get_condition-remove_condition cs u).0)
  | inr away ↦
      rw away (
        get_condition-remove_condition_other cs u t
          (λ e. absurd (ground (arith, e, str_eq_refl t))))
]

call_map-same :
    (call : ConditionCall) (m n : ConditionMap) (t : String)
    → ((u : String) → m u ≡ n u)
    → call_map call m t ≡ call_map call n t
call_map-same (set_call now u status reason message) m n t h = rw (h u) (rw (h t) refl)
call_map-same (remove_call u) m n t h = rw (h t) refl

calls_map-same :
    (calls : List ConditionCall) (m n : ConditionMap) (t : String)
    → ((u : String) → m u ≡ n u)
    → calls_map calls m t ≡ calls_map calls n t
unfolding calls_map
calls_map-same [] m n t h = h t
calls_map-same (call ∷ calls) m n t h =
    calls_map-same calls (call_map call m) (call_map call n) t (λ u. call_map-same call m n u h)

-- A list of conditions behaves as a map from types to conditions: after any sequence of SetCondition
-- and RemoveCondition calls GetCondition finds of every type what the same calls leave in the map
-- that it read before. There a call changes the entry of its own type alone: a removal empties it,
-- and a setting leaves a condition that says the same as it is, time stamp included.
pub apply_calls_refines :
    (calls : List ConditionCall) (cs : List Condition) (t : String)
    → get_condition (apply_calls calls cs) t ≡ calls_map calls (get_condition cs) t
unfolding apply_calls calls_map
apply_calls_refines [] cs t = refl
apply_calls_refines (call ∷ calls) cs t =
    apply_calls_refines calls (apply_call call cs) t
    ∙ calls_map-same calls (get_condition (apply_call call cs)) (call_map call (get_condition cs)) t
        (apply_call_lookup call cs)
