-- ===== src/User/Calls.antt =====
-- controller.go: which grants and which database user a deletion of a user may delete.
use db_provision_operator.Base.{
  All, All-append, Bool, List, Option, Option-cases, Result, String, [], err, false, if◌then◌else◌,
  inl, inr, none, not, ok, refl, some, str_eq, sym, true, ◌++◌, ◌∷◌, ◌≡◌, Bool-cases,
}
use db_provision_operator.Errors.{GoError, nil_error}
use db_provision_operator.User.{Grant, OwnedObject, User, UserWorld}
use db_provision_operator.User.Dependencies.{
  UserAction, cascade, cascade_listed, children_of, grant_delete, note_child, references,
  resource_write, status_write, user_delete, after_child,
}
use db_provision_operator.User.Deletion.{
  UserOutcome, after_cascade, after_delete, after_dependencies, after_owned, after_ownership,
  ask_confirmation, block_by_grants, block_by_ownership, block_by_protection, by_children,
  by_policy, check_ownership, clear_block, clear_calls, delete_and_end, deletion_policy, ended,
  fail, finalizer_database_user, force_of, give_up, handle_user_deletion, is_confirmed,
  is_deletion_protected, stop, unless_protected, with_children,
}
use db_provision_operator.User.Released.{NotOwning, not-false}
use db_provision_operator.Schedule.{DeleteOutcome, deleted, not_deleted, not_found}

module _ (P : UserAction → Type 0) (w : UserWorld) (of_status : (u : User) → P (status_write u))
    (of_resource : (u : User) → P (resource_write u)) where
  either-All :
      (b : Bool) (x y : UserOutcome)
      → (b ≡ true → All P x.actions)
      → (b ≡ false → All P y.actions)
      → All P (if b then x else y).actions
  either-All true x y h k = h refl
  either-All false x y h k = k refl

  give_up-All :
      (u : User) (calls : List UserAction) → All P calls → All P (give_up w u calls).actions
  unfolding give_up
  give_up-All u calls h = elim (Option-cases w.update) [
    | inl e ↦ rw e (All-append P calls _ h (of_resource _, tt))
    | inr (x, e) ↦ rw e (All-append P calls _ h (of_resource _, tt))
  ]

  after_delete-All :
      (u : User) (force : Bool) (o : Option GoError) (calls : List UserAction)
      → All P calls
      → All P (after_delete w u force o calls).actions
  unfolding after_delete
  after_delete-All u force none calls h = give_up-All (record u { ownership_block = none }) calls h
  after_delete-All u true (some e) calls h = give_up-All u calls h
  after_delete-All u false (some e) calls h = h

  delete-All :
      (u : User) (force : Bool) (calls : List UserAction)
      → All P calls
      → P (user_delete force)
      → All P (delete_and_end w u force calls).actions
  unfolding delete_and_end
  delete-All u force calls h d =
      after_delete-All u force (w.delete_user force) (calls ++ (user_delete force ∷ []))
        (All-append P calls (user_delete force ∷ []) h (d, tt))

  clear_calls-All : (u : User) → All P (clear_calls u)
  unfolding clear_calls
  clear_calls-All u = elim (Option-cases u.ownership_block) [
    | inl e ↦ rw e tt
    | inr (x, e) ↦ rw e (of_status _, tt)
  ]

  after_owned-All :
      (u : User) (r : Result GoError (List OwnedObject)) (calls : List UserAction)
      → All P calls
      → (NotOwning w r → P (user_delete false))
      → All P (after_owned w u r calls).actions
  unfolding after_owned after_ownership check_ownership block_by_ownership stop
  after_owned-All u (err e) calls h d = delete-All u false calls h (d (inr (e, refl)))
  after_owned-All u (ok []) calls h d =
      delete-All (clear_block u) false (calls ++ clear_calls u)
        (All-append P calls (clear_calls u) h (clear_calls-All u)) (d (inl refl))
  after_owned-All u (ok (o ∷ os)) calls h d = All-append P calls _ h (of_status _, tt)

  -- what the calls to the database need
  abbrev pub AllowsDrop : User → Type 0
  AllowsDrop u =
      str_eq (deletion_policy u) "Delete" ≡ true
      → (force_of u ≡ true → P (user_delete true))
        × (force_of u ≡ false → NotOwning w w.list_owned_objects → P (user_delete false))

  by_policy-All :
      (u : User) (calls : List UserAction)
      → All P calls
      → AllowsDrop u
      → All P (by_policy w u calls).actions
  unfolding by_policy
  by_policy-All u calls h d =
      let u' : User = record u { deletion_confirmation = none } in
      either-All (str_eq (deletion_policy u) "Delete")
        (if force_of u
          then delete_and_end w u' true calls
          else after_owned w u' w.list_owned_objects calls)
        (give_up w u' calls)
        (λ policy.
          either-All (force_of u) (delete_and_end w u' true calls)
            (after_owned w u' w.list_owned_objects calls)
            (λ force. delete-All u' true calls h ((d policy).0 force))
            (λ plain. after_owned-All u' w.list_owned_objects calls h ((d policy).1 plain)))
        (λ other. give_up-All u' calls h)

  note_child-All :
      (g : Grant) (r : List UserAction × Result GoError (List String))
      → P (grant_delete g)
      → All P r.0
      → All P (note_child w g r).0
  unfolding note_child
  note_child-All g (calls, ok names) p h = (p, h)
  note_child-All g (calls, err e) p h = (p, h)

  after_child-All :
      (g : Grant) (o : DeleteOutcome) (r : List UserAction × Result GoError (List String))
      → P (grant_delete g)
      → All P r.0
      → All P (after_child w g o r).0
  unfolding after_child
  after_child-All g deleted r p h = note_child-All g r p h
  after_child-All g not_found r p h = note_child-All g r p h
  after_child-All g (not_deleted e) r p h = (p, tt)

  cascade-All :
      (u : User) (gs : List Grant)
      → ((g : Grant) → references u g ≡ true → P (grant_delete g))
      → All P (cascade w u gs).0
  unfolding cascade
  cascade-All u [] d = tt
  cascade-All u (g ∷ gs) d = elim (Bool-cases (references u g)) [
    | inl refers ↦
        rw refers
          (after_child-All g (w.delete_grant g) (cascade w u gs) (d g refers) (cascade-All u gs d))
    | inr other ↦ rw other (cascade-All u gs d)
  ]

  cascade_listed-All :
      (u : User) (r : Result GoError (List Grant))
      → ((g : Grant) → references u g ≡ true → P (grant_delete g))
      → All P (cascade_listed w u r).0
  unfolding cascade_listed
  cascade_listed-All u (ok gs) d = cascade-All u gs d
  cascade_listed-All u (err e) d = tt

  after_cascade-All :
      (u : User) (children : List String) (r : List UserAction × Result GoError (List String))
      → All P r.0
      → AllowsDrop u
      → All P (after_cascade w u children r).actions
  unfolding after_cascade fail stop
  after_cascade-All u children (calls, err e) h d = All-append P calls _ h (of_status _, tt)
  after_cascade-All u children (calls, ok []) h d = by_policy-All u calls h d
  after_cascade-All u children (calls, ok (r ∷ rs)) h d = All-append P calls _ h (of_status _, tt)

  -- what the cascade needs
  abbrev pub AllowsCascade : User → List String → Type 0
  AllowsCascade u children =
      force_of u ≡ true
      → is_confirmed w u children ≡ true
      → (g : Grant) → references u g ≡ true
      → P (grant_delete g)

  with_children-All :
      (u : User) (children : List String)
      → AllowsCascade u children
      → AllowsDrop u
      → All P (with_children w u children).actions
  unfolding with_children block_by_grants ask_confirmation stop
  with_children-All u children c d =
      let done : UserOutcome = after_cascade w u children (cascade_listed w u w.list_for_cascade) in
      either-All (not (force_of u)) (block_by_grants w u children)
        (if not (is_confirmed w u children) then ask_confirmation w u children else done)
        (λ plain. (of_status _, tt))
        (λ force.
          either-All (not (is_confirmed w u children)) (ask_confirmation w u children) done
            (λ open_question. (of_status _, tt))
            (λ confirmed.
              after_cascade-All u children (cascade_listed w u w.list_for_cascade)
                (cascade_listed-All u w.list_for_cascade
                  (c (not-false w _ force) (not-false w _ confirmed)))
                d))

  by_children-All :
      (u : User) (children : List String)
      → AllowsCascade u children
      → AllowsDrop u
      → All P (by_children w u children).actions
  unfolding by_children
  by_children-All u [] c d = by_policy-All u [] tt d
  by_children-All u (x ∷ xs) c d = with_children-All u (x ∷ xs) c d

  after_dependencies-All :
      (u : User) (r : Result GoError (List Grant))
      → ((gs : List Grant) → r ≡ ok gs → AllowsCascade u (children_of u gs))
      → AllowsDrop u
      → All P (after_dependencies w u r).actions
  unfolding after_dependencies
  after_dependencies-All u (err e) c d = by_policy-All u [] tt d
  after_dependencies-All u (ok gs) c d = by_children-All u (children_of u gs) (c gs refl) d

-- What a deletion may call: the Delete of a grant that references the user, when it is forced and
-- confirmed with the hash of the grants that were found; and the drop of the database user.
abbrev pub MayUserCall : UserWorld → User → UserAction → Type 0
MayUserCall w u (grant_delete g) =
    (references u g ≡ true)
    × (force_of u ≡ true)
    × ((gs : List Grant) × (w.list_for_dependencies ≡ ok gs)
        × (is_confirmed w u (children_of u gs) ≡ true))
MayUserCall w u (user_delete force) =
    (str_eq (deletion_policy u) "Delete" ≡ true)
    × (force ≡ force_of u)
    × (is_deletion_protected u ≡ false)
    × (force ≡ false → NotOwning w w.list_owned_objects)
MayUserCall w u (status_write u') = Unit
MayUserCall w u (resource_write u') = Unit

-- Whatever the cluster answers, a deletion deletes a grant only if it references the user and the
-- deletion is forced and confirmed with the hash of the grants that were found; and it drops the
-- database user only under the policy Delete, of an unprotected user, with the user's own force
-- flag, and without force only if the database knows no object of the user or could not say.
pub handle_user_deletion-MayUserCall :
    (w : UserWorld) (u : User) → All (MayUserCall w u) (handle_user_deletion w u).actions
unfolding handle_user_deletion unless_protected block_by_protection stop
handle_user_deletion-MayUserCall w u =
    let P : UserAction → Type 0 = MayUserCall w u in
    either-All P w (λ x. tt) (λ x. tt)
      (not (w.contains_finalizer u.finalizers finalizer_database_user)) (ended u 0 nil_error [])
      (unless_protected w u) (λ missing. tt)
      (λ there.
        either-All P w (λ x. tt) (λ x. tt) (is_deletion_protected u) (block_by_protection w u)
          (after_dependencies w u w.list_for_dependencies) (λ blocked. (tt, tt))
          (λ open_way.
            after_dependencies-All P w (λ x. tt) (λ x. tt) u w.list_for_dependencies
              (λ gs e force confirmed g refers. (refers, force, (gs, e, confirmed)))
              (λ policy. (
                (λ force. (policy, sym force, open_way, λ f. cc)),
                (λ plain owning. (policy, sym plain, open_way, λ f. owning)),
              ))))
