-- ===== src/User/Dependencies.antt =====
-- internal/features/user/controller.go: the grants that depend on a user, and their cascade; and
-- ComputeDeletionHash of internal/util/deletion_confirmation.go.
use db_provision_operator.Base.{
  Bool, List, Result, String, [], append, codes, err, false, filter, if◌then◌else◌, join, map, none,
  ok, some, str_eq, ◌&&◌, ◌++◌, ◌||◌, ◌∷◌,
}
use db_provision_operator.User.{Grant, User, UserWorld}
use db_provision_operator.Errors.{GoError, wrapped}
use db_provision_operator.Schedule.{deleted, not_deleted, not_found, DeleteOutcome}

-- whether a grant of the user's namespace references the user
unfoldable pub references : User → Grant → Bool
references u g = elim g.user_ref [
  | none ↦ false
  | some r ↦
      str_eq r.ref_name u.user_name
      && (str_eq r.ref_namespace "" || str_eq r.ref_namespace u.user_namespace)
]

abbrev pub child_name : Grant → String
child_name g = append "DatabaseGrant/" g.grant_name

-- the children of hasGrantDependencies
unfoldable pub children_of : User → List Grant → List String
unfolding references
children_of u gs = map child_name (filter (references u) gs)

-- ComputeDeletionHash
unfoldable pub compute_deletion_hash : UserWorld → List String → String
compute_deletion_hash w children = w.digest (join (10 ∷ []) (map codes (w.sort_strings children)))

-- one of the calls of a deletion that change something
pub data UserAction : Type 0 where
  grant_delete : Grant → UserAction
  user_delete : Bool → UserAction
  status_write : User → UserAction
  resource_write : User → UserAction

-- a child that was deleted before the others were, with what is left of it
unfoldable pub note_child :
    UserWorld
    → Grant
    → List UserAction × Result GoError (List String)
    → List UserAction × Result GoError (List String)
note_child w g (calls, ok names) =
    (grant_delete g ∷ calls, ok (if w.is_still_there g then child_name g ∷ names else names))
note_child w g (calls, err e) = (grant_delete g ∷ calls, err e)

abbrev pub delete_failed : Grant → GoError → List UserAction × Result GoError (List String)
delete_failed g e = (
  grant_delete g ∷ [],
  err (wrapped (codes "delete grant " ++ (codes g.grant_name ++ codes ": ")) e),
)

-- one round of the loop, by what Delete answers
unfoldable pub after_child :
    UserWorld
    → Grant
    → DeleteOutcome
    → List UserAction × Result GoError (List String)
    → List UserAction × Result GoError (List String)
unfolding note_child
after_child w g deleted rest = note_child w g rest
after_child w g not_found rest = note_child w g rest
after_child w g (not_deleted e) rest = delete_failed g e

-- the loop of cascadeDeleteChildren, which ends at the first Delete that fails
unfoldable pub cascade :
    UserWorld → User → List Grant → List UserAction × Result GoError (List String)
unfolding references after_child
cascade w u [] = ([], ok [])
cascade w u (g ∷ gs) =
    let rest = cascade w u gs in
    if references u g then after_child w g (w.delete_grant g) rest else rest

-- cascadeDeleteChildren, on its listing
unfoldable pub cascade_listed :
    UserWorld → User → Result GoError (List Grant) → List UserAction × Result GoError (List String)
unfolding cascade
cascade_listed w u (err e) = ([], err (wrapped (codes "list grants: ") e))
cascade_listed w u (ok gs) = cascade w u gs
