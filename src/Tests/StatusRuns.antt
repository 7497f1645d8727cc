-- ===== src/Tests/StatusRuns.antt =====
-- Runs of the conditions of a status.
use db_provision_operator.Base.{List, [], arith, codes, ◌∷◌, ◌≡◌}
use db_provision_operator.Conditions.{
  Condition, condition_false, condition_true, fresh, get_condition,
}
use db_provision_operator.Conditions.Laws.{IsUnique}
use db_provision_operator.Conditions.Refinement.{
  ConditionCall, apply_calls, apply_calls_refines, calls_map, remove_call, set_call,
}

abbrev ready : List Condition
ready = fresh 5 "Ready" condition_true "Active" (codes "ok") 2 ∷ []

ready-IsUnique : IsUnique ready
ready-IsUnique t = ground arith

abbrev two_calls : List ConditionCall
two_calls = set_call 9 "Ready" condition_false "Error" (codes "boom") ∷ remove_call "Synced" ∷ []

apply_calls_refines_example :
    get_condition (apply_calls two_calls ready) "Ready"
    ≡ calls_map two_calls (get_condition ready) "Ready"
apply_calls_refines_example = apply_calls_refines two_calls ready "Ready"
