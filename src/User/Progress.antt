-- ===== src/User/Progress.antt =====
-- controller.go: a deletion of a user that nothing stands in the way of.
use db_provision_operator.Base.{
  Bool, List, Option, Result, String, [], ap, err, false, if◌then◌else◌, inl, inr, none, not, ok,
  refl, some, str_eq, true, ◌++◌, ◌∷◌, ◌≡◌, ◌⊎◌,
}
use db_provision_operator.Errors.{GoError, nil_error}
use db_provision_operator.User.{Grant, OwnedObject, User, UserWorld}
use db_provision_operator.User.Dependencies.{UserAction, cascade_listed, children_of, user_delete}
use db_provision_operator.User.Deletion.{
  UserOutcome, after_cascade, after_delete, after_dependencies, after_owned, after_ownership,
  ask_confirmation, block_by_grants, block_by_protection, by_children, by_policy, check_ownership,
  clear_block, clear_calls, delete_and_end, deletion_policy, ended, finalizer_database_user,
  force_of, give_up, handle_user_deletion, is_confirmed, is_deletion_protected, unless_protected,
  with_children,
}
use db_provision_operator.User.Released.{AreChildrenGone, HasFinalizer, IsPolicyDone, NotOwning}

not_both : (b : Bool) → b ≡ true → not b ≡ true → ⊥
not_both true h k = cc
not_both false h k = cc

module _ (w : UserWorld)
    (removes : (fs : List String) (f : String)
      → w.contains_finalizer (w.remove_finalizer fs f) f ≡ false)
    (updates : w.update ≡ none) where
  abbrev pub IsGivenUp : UserOutcome → Type 0
  IsGivenUp o =
      (o.error ≡ nil_error)
      × (w.contains_finalizer o.left.finalizers finalizer_database_user ≡ false)

  either-IsGivenUp :
      (b : Bool) (x y : UserOutcome)
      → (b ≡ true → IsGivenUp x)
      → (b ≡ false → IsGivenUp y)
      → IsGivenUp (if b then x else y)
  either-IsGivenUp true x y h k = h refl
  either-IsGivenUp false x y h k = k refl

  give_up-IsGivenUp : (u : User) (calls : List UserAction) → IsGivenUp (give_up w u calls)
  unfolding give_up
  give_up-IsGivenUp u calls = rw updates (refl, removes u.finalizers finalizer_database_user)

  after_delete-IsGivenUp :
      (u : User) (force : Bool) (o : Option GoError) (calls : List UserAction)
      → (force ≡ true) ⊎ (o ≡ none)
      → IsGivenUp (after_delete w u force o calls)
  unfolding after_delete
  after_delete-IsGivenUp u force none calls h =
      give_up-IsGivenUp (record u { ownership_block = none }) calls
  after_delete-IsGivenUp u true (some e) calls h = give_up-IsGivenUp u calls
  after_delete-IsGivenUp u false (some e) calls (inl h) = cc
  after_delete-IsGivenUp u false (some e) calls (inr h) = cc

  delete-IsGivenUp :
      (u : User) (force : Bool) (calls : List UserAction)
      → (force ≡ true) ⊎ (w.delete_user force ≡ none)
      → IsGivenUp (delete_and_end w u force calls)
  unfolding delete_and_end
  delete-IsGivenUp u force calls h =
      after_delete-IsGivenUp u force (w.delete_user force) (calls ++ (user_delete force ∷ [])) h

  after_owned-IsGivenUp :
      (u : User) (r : Result GoError (List OwnedObject)) (calls : List UserAction)
      → w.delete_user false ≡ none
      → NotOwning w r
      → IsGivenUp (after_owned w u r calls)
  unfolding after_owned after_ownership check_ownership
  after_owned-IsGivenUp u (err e) calls gone h = delete-IsGivenUp u false calls (inr gone)
  after_owned-IsGivenUp u (ok []) calls gone h =
      delete-IsGivenUp (clear_block u) false (calls ++ clear_calls u) (inr gone)
  after_owned-IsGivenUp u (ok (o ∷ os)) calls gone (inl h) = cc
  after_owned-IsGivenUp u (ok (o ∷ os)) calls gone (inr (e, h)) = cc

  unforced :
      (u : User)
      → str_eq (deletion_policy u) "Delete" ≡ true
      → force_of u ≡ false
      → IsPolicyDone w u
      → (w.delete_user false ≡ none) × NotOwning w w.list_owned_objects
  unforced u policy plain (inl other) = cc
  unforced u policy plain (inr (inl force)) = cc
  unforced u policy plain (inr (inr gone)) = gone

  by_policy-IsGivenUp :
      (u : User) (calls : List UserAction) → IsPolicyDone w u → IsGivenUp (by_policy w u calls)
  unfolding by_policy
  by_policy-IsGivenUp u calls h =
      let u' : User = record u { deletion_confirmation = none } in
      either-IsGivenUp (str_eq (deletion_policy u) "Delete")
        (if force_of u
          then delete_and_end w u' true calls
          else after_owned w u' w.list_owned_objects calls)
        (give_up w u' calls)
        (λ policy.
          either-IsGivenUp (force_of u) (delete_and_end w u' true calls)
            (after_owned w u' w.list_owned_objects calls)
            (λ force. delete-IsGivenUp u' true calls (inl refl))
            (λ plain.
              let (gone, owning) = unforced u policy plain h in
              after_owned-IsGivenUp u' w.list_owned_objects calls gone owning))
        (λ other. give_up-IsGivenUp u' calls)

  after_cascade-IsGivenUp :
      (u : User) (children : List String) (r : List UserAction × Result GoError (List String))
      → r.1 ≡ ok []
      → IsPolicyDone w u
      → IsGivenUp (after_cascade w u children r)
  unfolding after_cascade
  after_cascade-IsGivenUp u children (calls, err e) h p = cc
  after_cascade-IsGivenUp u children (calls, ok []) h p = by_policy-IsGivenUp u calls p
  after_cascade-IsGivenUp u children (calls, ok (r ∷ rs)) h p = cc

  with_children-IsGivenUp :
      (u : User) (children : List String)
      → force_of u ≡ true
      → is_confirmed w u children ≡ true
      → (cascade_listed w u w.list_for_cascade).1 ≡ ok []
      → IsPolicyDone w u
      → IsGivenUp (with_children w u children)
  unfolding with_children
  with_children-IsGivenUp u children force confirmed gone p =
      let done : UserOutcome = after_cascade w u children (cascade_listed w u w.list_for_cascade) in
      either-IsGivenUp (not (force_of u)) (block_by_grants w u children)
        (if not (is_confirmed w u children) then ask_confirmation w u children else done)
        (λ plain. absurd (not_both (force_of u) force plain))
        (λ forced.
          either-IsGivenUp (not (is_confirmed w u children)) (ask_confirmation w u children) done
            (λ open_question. absurd (not_both (is_confirmed w u children) confirmed open_question))
            (λ closed.
              after_cascade-IsGivenUp u children (cascade_listed w u w.list_for_cascade) gone p))

  by_children-IsGivenUp :
      (u : User) (children : List String)
      → (children ≡ [])
        ⊎ ((force_of u ≡ true)
            × (is_confirmed w u children ≡ true)
            × ((cascade_listed w u w.list_for_cascade).1 ≡ ok []))
      → IsPolicyDone w u
      → IsGivenUp (by_children w u children)
  unfolding by_children
  by_children-IsGivenUp u [] h p = by_policy-IsGivenUp u [] p
  by_children-IsGivenUp u (c ∷ cs) (inl h) p = cc
  by_children-IsGivenUp u (c ∷ cs) (inr (force, confirmed, gone)) p =
      with_children-IsGivenUp u (c ∷ cs) force confirmed gone p

  abbrev listed : Result GoError (List Grant) → List Grant
  listed (ok gs) = gs
  listed (err e) = []

  after_dependencies-IsGivenUp :
      (u : User) (r : Result GoError (List Grant))
      → AreChildrenGone w u r
      → IsPolicyDone w u
      → IsGivenUp (after_dependencies w u r)
  unfolding after_dependencies
  after_dependencies-IsGivenUp u (err e) h p = by_policy-IsGivenUp u [] p
  after_dependencies-IsGivenUp u (ok gs) (inl (e, h)) p = cc
  after_dependencies-IsGivenUp u (ok gs) (inr (found, h, gone)) p =
      let same : gs ≡ found = ap listed h in
      by_children-IsGivenUp u (children_of u gs) (rw same gone) p

-- If removing a finalizer removes it and the update is accepted, a user that has the finalizer
-- loses it, and the deletion ends without an error, when the user is not protected or is forced,
-- no grant is left (none was found, the listing failed, or a confirmed cascade left none), and the
-- policy is not Delete, the deletion is forced, or the database has dropped a user of which it
-- knows no object or could not say.
pub handle_user_deletion-IsGivenUp :
    (w : UserWorld) (u : User)
    (removes : (fs : List String) (f : String)
      → w.contains_finalizer (w.remove_finalizer fs f) f ≡ false)
    (updates : w.update ≡ none)
    → HasFinalizer w u
    → is_deletion_protected u ≡ false
    → AreChildrenGone w u w.list_for_dependencies
    → IsPolicyDone w u
    → IsGivenUp w removes updates (handle_user_deletion w u)
unfolding handle_user_deletion unless_protected
handle_user_deletion-IsGivenUp w u removes updates has open_way gone p =
    either-IsGivenUp w removes updates
      (not (w.contains_finalizer u.finalizers finalizer_database_user)) (ended u 0 nil_error [])
      (unless_protected w u) (λ missing. absurd (not_both _ has missing))
      (λ there.
        either-IsGivenUp w removes updates (is_deletion_protected u) (block_by_protection w u)
          (after_dependencies w u w.list_for_dependencies) (λ blocked. cc)
          (λ unblocked.
            after_dependencies-IsGivenUp w removes updates u w.list_for_dependencies gone p))
