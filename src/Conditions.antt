-- ===== src/Conditions.antt =====
-- internal/util/conditions.go: the conditions of a resource's status. The clock is a parameter, a
-- time is a number.
pub mod Laws
pub mod Refinement
use db_provision_operator.Base.{
  ℕ, List, [], ◌∷◌, Bool, true, false, not, ◌&&◌, ◌||◌, Option, none, some, String, Text, same_text,
  str_eq, if◌then◌else◌,
}

-- metav1.Condition
pub record Condition : Type 0 where
  pub condition_type : String
  pub status : String
  pub reason : String
  pub message : Text
  pub last_transition_time : ℕ
  pub observed_generation : ℕ

-- status, reason or message changed
unfoldable pub differs : Condition → String → String → Text → Bool
differs c status reason message =
    not (str_eq c.status status)
    || not (str_eq c.reason reason)
    || not (same_text c.message message)

abbrev pub fresh : ℕ → String → String → String → Text → ℕ → Condition
fresh now condition_type status reason message generation = record {
  condition_type = condition_type;
  status = status;
  reason = reason;
  message = message;
  last_transition_time = now;
  observed_generation = generation;
}

-- SetCondition
unfoldable pub set_condition : ℕ → List Condition → String → String → String → Text → List Condition
unfolding differs
set_condition now [] t status reason message = fresh now t status reason message 0 ∷ []
set_condition now (c ∷ cs) t status reason message =
    let rest = set_condition now cs t status reason message in
    if str_eq c.condition_type t
    then if differs c status reason message
      then fresh now t status reason message c.observed_generation ∷ cs
      else c ∷ cs
    else c ∷ rest

-- GetCondition
unfoldable pub get_condition : List Condition → String → Option Condition
get_condition [] t = none
get_condition (c ∷ cs) t =
    let rest = get_condition cs t in if str_eq c.condition_type t then some c else rest

abbrev pub has_status : Option Condition → String → Bool
has_status none s = false
has_status (some c) s = str_eq c.status s

abbrev pub condition_true : String
condition_true = "True"

abbrev pub condition_false : String
condition_false = "False"

-- IsConditionTrue, IsConditionFalse
unfoldable pub is_condition_true : List Condition → String → Bool
unfolding get_condition
is_condition_true cs t = has_status (get_condition cs t) condition_true

unfoldable pub is_condition_false : List Condition → String → Bool
unfolding get_condition
is_condition_false cs t = has_status (get_condition cs t) condition_false

-- RemoveCondition
unfoldable pub remove_condition : List Condition → String → List Condition
remove_condition [] t = []
remove_condition (c ∷ cs) t =
    let rest = remove_condition cs t in if not (str_eq c.condition_type t) then c ∷ rest else rest

-- SetReadyCondition, SetConnectedCondition, SetHealthyCondition and SetSyncedCondition
abbrev pub set_ready_condition : ℕ → List Condition → String → String → Text → List Condition
set_ready_condition now cs status reason message =
    set_condition now cs "Ready" status reason message

abbrev pub set_connected_condition : ℕ → List Condition → String → String → Text → List Condition
set_connected_condition now cs status reason message =
    set_condition now cs "Connected" status reason message

abbrev pub set_healthy_condition : ℕ → List Condition → String → String → Text → List Condition
set_healthy_condition now cs status reason message =
    set_condition now cs "Healthy" status reason message

abbrev pub set_synced_condition : ℕ → List Condition → String → String → Text → List Condition
set_synced_condition now cs status reason message =
    set_condition now cs "Synced" status reason message
