-- ===== src/User/Deletion.antt =====
-- internal/features/user/controller.go: handleDeletion, with GetOwnedObjects and Delete of handler.go.
-- A stage is a function of what the call before it answered, and a time to come again is in seconds.
use db_provision_operator.Base.{
  Bool, List, Option, Result, String, Text, [], append, codes, err, false, if◌then◌else◌, join,
  length, map, none, not, ok, some, str_eq, true, ℕ, ◌&&◌, ◌++◌, ◌∷◌,
}
use db_provision_operator.Base.Int.{decimal}
use db_provision_operator.Annotations.{
  annotation_confirm_force_delete, get_label, has_force_delete_annotation,
  is_force_delete_confirmed, read,
}
use db_provision_operator.Conditions.{condition_false, set_ready_condition}
use db_provision_operator.Errors.{
  GoError, classify_requeue, error_text, foreign, nil_error, wrapped,
}
use db_provision_operator.Schedule.{Phase, phase_deleting, phase_failed, phase_pending_deletion}
use db_provision_operator.User.{Grant, OwnedObject, Ownership, User, UserWorld}
use db_provision_operator.User.Dependencies.{
  UserAction, cascade_listed, children_of, compute_deletion_hash, resource_write, status_write,
  user_delete,
}

pub record UserOutcome : Type 0 where
  pub left : User
  pub requeue_after : ℕ
  pub error : GoError
  pub actions : List UserAction

abbrev pub ended : User → ℕ → GoError → List UserAction → UserOutcome
ended u requeue e calls = record { left = u; requeue_after = requeue; error = e; actions = calls }

abbrev pub finalizer_database_user : String
finalizer_database_user = "dbops.dbprovision.io/user-protection"

-- the phase, the message and the Ready condition, with the write of the status
unfoldable pub stop :
    UserWorld → User → Phase → Text → String → Text → ℕ → GoError → List UserAction → UserOutcome
stop w u p message reason detail requeue e calls =
    let u' = record u {
      phase = p;
      message = message;
      conditions = set_ready_condition w.now u.conditions condition_false reason detail;
    } in
    ended u' requeue e (calls ++ (status_write u' ∷ []))

-- the deletion policy of the annotation, Delete without one
unfoldable pub deletion_policy : User → String
deletion_policy u = elim (get_label u.annotations "dbops.dbprovision.io/deletion-policy") [
  | none ↦ "Delete"
  | some policy ↦ policy
]

abbrev pub force_of : User → Bool
force_of u = has_force_delete_annotation u.annotations

unfoldable pub is_deletion_protected : User → Bool
is_deletion_protected u =
    str_eq (read u.annotations "dbops.dbprovision.io/deletion-protection") "true"
    && not (force_of u)

-- the end of a deletion: the finalizer is given up
unfoldable pub give_up : UserWorld → User → List UserAction → UserOutcome
give_up w u calls =
    let u' = record u { finalizers = w.remove_finalizer u.finalizers finalizer_database_user } in
    elim w.update [
      | some e ↦ ended u' 0 e (calls ++ (resource_write u' ∷ []))
      | none ↦ ended u' 0 nil_error (calls ++ (resource_write u' ∷ []))
    ]

-- what follows the handler's Delete
unfoldable pub after_delete :
    UserWorld → User → Bool → Option GoError → List UserAction → UserOutcome
unfolding give_up
after_delete w u force none calls = give_up w (record u { ownership_block = none }) calls
after_delete w u true (some e) calls = give_up w u calls
after_delete w u false (some e) calls = ended u 30 (wrapped (codes "delete: ") e) calls

unfoldable pub delete_and_end : UserWorld → User → Bool → List UserAction → UserOutcome
unfolding after_delete
delete_and_end w u force calls =
    after_delete w u force (w.delete_user force) (calls ++ (user_delete force ∷ []))

-- GetOwnedObjects, on the database's answer
unfoldable pub check_ownership : User → List OwnedObject → Ownership
check_ownership u [] = record {
  owns_objects = false;
  objects = [];
  blocks_deletion = false;
  resolution = "";
}
check_ownership u (o ∷ os) = record {
  owns_objects = true;
  objects = o ∷ os;
  blocks_deletion = true;
  resolution = append "REASSIGN OWNED BY " (
      append u.username (
        append " TO " (elim u.service_role [
          | none ↦ append u.username "_service"
          | some name ↦ if str_eq name "" then append u.username "_service" else name
        ])));
}

-- a deletion that the ownership of database objects blocks
unfoldable pub block_by_ownership : UserWorld → User → Ownership → List UserAction → UserOutcome
unfolding stop
block_by_ownership w u o calls =
    let n = decimal (length o.objects) in
    let u' = record u {
      ownership_block = some (record {
        blocked = true;
        last_checked_at = w.now;
        owned_objects = o.objects;
        block_resolution = o.resolution;
        block_message =
            codes "User owns "
            ++ (n ++ codes " database objects. Run the resolution command before deleting.");
      });
    } in
    stop w u' phase_failed
      (codes "Deletion blocked: user owns " ++ (n ++ codes " database objects")) "OwnershipBlocks"
      (codes "User owns " ++ (n ++ codes " objects, cannot delete")) 30
      (foreign (codes "deletion blocked: user owns database objects")) calls

-- the status of a user that owns nothing, which is written if a block was noted before
abbrev pub clear_block : User → User
clear_block u = record u { ownership_block = none }

unfoldable pub clear_calls : User → List UserAction
clear_calls u = elim u.ownership_block [
  | none ↦ []
  | some block ↦ status_write (clear_block u) ∷ []
]

unfoldable pub after_ownership : UserWorld → User → Ownership → List UserAction → UserOutcome
unfolding block_by_ownership delete_and_end clear_calls
after_ownership w u o calls =
    if o.blocks_deletion
    then block_by_ownership w u o calls
    else delete_and_end w (clear_block u) false (calls ++ clear_calls u)

-- what follows checkOwnershipBeforeDelete, whose failure does not block
unfoldable pub after_owned :
    UserWorld → User → Result GoError (List OwnedObject) → List UserAction → UserOutcome
unfolding check_ownership after_ownership delete_and_end
after_owned w u (err e) calls = delete_and_end w u false calls
after_owned w u (ok os) calls = after_ownership w u (check_ownership u os) calls

-- from the deletion policy on
unfoldable pub by_policy : UserWorld → User → List UserAction → UserOutcome
unfolding delete_and_end after_owned give_up deletion_policy
by_policy w u calls =
    let u' = record u { deletion_confirmation = none } in
    if str_eq (deletion_policy u) "Delete"
    then if force_of u
      then delete_and_end w u' true calls
      else after_owned w u' w.list_owned_objects calls
    else give_up w u' calls

-- handleError
unfoldable pub fail : UserWorld → User → GoError → Text → List UserAction → UserOutcome
unfolding stop classify_requeue
fail w u e operation calls =
    stop w u phase_failed (codes "Failed to " ++ (operation ++ (codes ": " ++ error_text e)))
      "ReconcileFailed" (error_text e) (classify_requeue e).0 (classify_requeue e).1 calls

-- what follows cascadeDeleteChildren
unfoldable pub after_cascade :
    UserWorld → User → List String → List UserAction × Result GoError (List String) → UserOutcome
unfolding fail by_policy stop compute_deletion_hash
after_cascade w u children (calls, err e) = fail w u e (codes "cascade delete children") calls
after_cascade w u children (calls, ok []) = by_policy w u calls
after_cascade w u children (calls, ok (r ∷ rs)) =
    let n = length (r ∷ rs) in
    let message = codes "Cascade-deleting: " ++ (decimal n ++ codes " child(ren) remaining") in
    let u' = record u {
      deletion_confirmation = some (record {
        required = false;
        hash = compute_deletion_hash w children;
        children = r ∷ rs;
        remaining_count = n;
        confirmation_message = message;
      });
    } in
    stop w u' phase_deleting message "CascadeDeleting" message 5 nil_error calls

-- a forced deletion that waits for its confirmation
unfoldable pub ask_confirmation : UserWorld → User → List String → UserOutcome
unfolding stop compute_deletion_hash
ask_confirmation w u children =
    let hash = compute_deletion_hash w children in
    let n = length children in
    let message =
      codes "Force-delete requires confirmation: "
      ++ (decimal n
          ++ (codes " child(ren) will be cascade-deleted. Set annotation "
              ++ (codes annotation_confirm_force_delete
                  ++ (b'=' ∷ (codes hash ++ codes " to confirm."))))) in
    let u' = record u {
      deletion_confirmation = some (record {
        required = true;
        hash = hash;
        children = children;
        remaining_count = n;
        confirmation_message = message;
      });
    } in
    stop w u' phase_pending_deletion message "PendingDeletionConfirmation" message 10 nil_error []

-- a deletion that the grants block
unfoldable pub block_by_grants : UserWorld → User → List String → UserOutcome
unfolding stop
block_by_grants w u children =
    let message =
      codes "cannot delete: "
      ++ (decimal (length children)
          ++ (codes " DatabaseGrant(s) still reference this user: "
              ++ (join (codes ", ") (map codes children)
                  ++ codes ". Delete grants first or use force-delete annotation"))) in
    stop w u phase_failed message "DependenciesExist" message 10 nil_error []

abbrev pub is_confirmed : UserWorld → User → List String → Bool
is_confirmed w u children =
    is_force_delete_confirmed (compute_deletion_hash w) u.annotations children

-- a user with children
unfoldable pub with_children : UserWorld → User → List String → UserOutcome
unfolding block_by_grants ask_confirmation after_cascade cascade_listed
with_children w u children =
    if not (force_of u)
    then block_by_grants w u children
    else if not (is_confirmed w u children)
    then ask_confirmation w u children
    else after_cascade w u children (cascade_listed w u w.list_for_cascade)

unfoldable pub by_children : UserWorld → User → List String → UserOutcome
unfolding with_children by_policy
by_children w u [] = by_policy w u []
by_children w u (c ∷ cs) = with_children w u (c ∷ cs)

-- what follows hasGrantDependencies, whose failure does not block
unfoldable pub after_dependencies : UserWorld → User → Result GoError (List Grant) → UserOutcome
unfolding by_children by_policy children_of
after_dependencies w u (err e) = by_policy w u []
after_dependencies w u (ok gs) = by_children w u (children_of u gs)

-- a deletion that the annotation forbids
unfoldable pub block_by_protection : UserWorld → User → UserOutcome
unfolding stop
block_by_protection w u =
    stop w u phase_failed (codes "Deletion blocked by deletion protection") "DeletionProtected"
      (codes "Deletion protection is enabled") 0 (foreign (codes "deletion protection enabled")) []

unfoldable pub unless_protected : UserWorld → User → UserOutcome
unfolding block_by_protection after_dependencies is_deletion_protected
unless_protected w u =
    if is_deletion_protected u
    then block_by_protection w u
    else after_dependencies w u w.list_for_dependencies

-- handleDeletion
unfoldable pub handle_user_deletion : UserWorld → User → UserOutcome
unfolding unless_protected
handle_user_deletion w u =
    if not (w.contains_finalizer u.finalizers finalizer_database_user)
    then ended u 0 nil_error []
    else unless_protected w u
