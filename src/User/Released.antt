-- ===== src/User/Released.antt =====
-- controller.go: when a deletion of a user gives up the finalizer.
use db_provision_operator.Base.{
  Bool, List, Option, Result, String, [], err, false, if◌then◌else◌, inl, inr, none, ok, refl, some,
  str_eq, true, ◌++◌, ◌∷◌, ◌≡◌, ◌⊎◌, not,
}
use db_provision_operator.Errors.{GoError, nil_error}
use db_provision_operator.User.{Grant, OwnedObject, User, UserWorld}
use db_provision_operator.User.Dependencies.{UserAction, cascade_listed, children_of}
use db_provision_operator.User.Deletion.{
  UserOutcome, after_cascade, after_delete, after_owned, after_ownership, block_by_ownership,
  by_policy, check_ownership, clear_block, clear_calls, delete_and_end, deletion_policy, fail,
  finalizer_database_user, force_of, give_up, is_confirmed, stop, with_children, after_dependencies,
  ask_confirmation, block_by_grants, block_by_protection, by_children, ended, handle_user_deletion,
  is_deletion_protected, unless_protected,
}

module _ (w : UserWorld) where
  abbrev pub HasFinalizer : User → Type 0
  HasFinalizer u = w.contains_finalizer u.finalizers finalizer_database_user ≡ true

  -- the database has no object of the user, or could not say
  abbrev pub NotOwning : Result GoError (List OwnedObject) → Type 0
  NotOwning r = (r ≡ ok []) ⊎ ((e : GoError) × (r ≡ err e))

  -- what the deletion policy asks for is done
  abbrev pub IsPolicyDone : User → Type 0
  IsPolicyDone u =
      (str_eq (deletion_policy u) "Delete" ≡ false)
      ⊎ ((force_of u ≡ true) ⊎ ((w.delete_user false ≡ none) × NotOwning w.list_owned_objects))

  -- no grant is left, or the cascade that was confirmed has left none
  abbrev pub AreChildrenGone : User → Result GoError (List Grant) → Type 0
  AreChildrenGone u r =
      ((e : GoError) × (r ≡ err e))
      ⊎ ((gs : List Grant) × (r ≡ ok gs)
          × ((children_of u gs ≡ [])
              ⊎ ((force_of u ≡ true)
                  × (is_confirmed w u (children_of u gs) ≡ true)
                  × ((cascade_listed w u w.list_for_cascade).1 ≡ ok []))))

  either-HasFinalizer :
      (P : Type 0) (b : Bool) (x y : UserOutcome)
      → (b ≡ true → HasFinalizer x.left ⊎ P)
      → (b ≡ false → HasFinalizer y.left ⊎ P)
      → HasFinalizer (if b then x else y).left ⊎ P
  either-HasFinalizer P true x y h k = h refl
  either-HasFinalizer P false x y h k = k refl

  after_delete-HasFinalizer :
      (u : User) (force : Bool) (o : Option GoError) (calls : List UserAction)
      → HasFinalizer u
      → HasFinalizer (after_delete w u force o calls).left ⊎ ((force ≡ true) ⊎ (o ≡ none))
  unfolding after_delete
  after_delete-HasFinalizer u force none calls has = inr (inr refl)
  after_delete-HasFinalizer u true (some e) calls has = inr (inl refl)
  after_delete-HasFinalizer u false (some e) calls has = inl has

  delete-HasFinalizer :
      (u : User) (calls : List UserAction)
      → HasFinalizer u
      → HasFinalizer (delete_and_end w u false calls).left ⊎ (w.delete_user false ≡ none)
  unfolding delete_and_end
  delete-HasFinalizer u calls has =
      elim (after_delete-HasFinalizer u false (w.delete_user false) _ has) [
        | inl kept ↦ inl kept
        | inr (inl f) ↦ cc
        | inr (inr gone) ↦ inr gone
      ]

  after_owned-HasFinalizer :
      (u : User) (r : Result GoError (List OwnedObject)) (calls : List UserAction)
      → HasFinalizer u
      → HasFinalizer (after_owned w u r calls).left ⊎ ((w.delete_user false ≡ none) × NotOwning r)
  unfolding after_owned after_ownership check_ownership block_by_ownership stop
  after_owned-HasFinalizer u (err e) calls has = elim (delete-HasFinalizer u calls has) [
    | inl kept ↦ inl kept
    | inr gone ↦ inr (gone, inr (e, refl))
  ]
  after_owned-HasFinalizer u (ok []) calls has =
      elim (delete-HasFinalizer (clear_block u) (calls ++ clear_calls u) has) [
        | inl kept ↦ inl kept
        | inr gone ↦ inr (gone, inl refl)
      ]
  after_owned-HasFinalizer u (ok (o ∷ os)) calls has = inl has

  by_policy-HasFinalizer :
      (u : User) (calls : List UserAction)
      → HasFinalizer u
      → HasFinalizer (by_policy w u calls).left ⊎ IsPolicyDone u
  unfolding by_policy
  by_policy-HasFinalizer u calls has =
      let u' : User = record u { deletion_confirmation = none } in
      either-HasFinalizer (IsPolicyDone u) (str_eq (deletion_policy u) "Delete")
        (if force_of u
          then delete_and_end w u' true calls
          else after_owned w u' w.list_owned_objects calls)
        (give_up w u' calls)
        (λ policy.
          either-HasFinalizer (IsPolicyDone u) (force_of u) (delete_and_end w u' true calls)
            (after_owned w u' w.list_owned_objects calls) (λ force. inr (inr (inl force)))
            (λ plain. elim (after_owned-HasFinalizer u' w.list_owned_objects calls has) [
              | inl kept ↦ inl kept
              | inr gone ↦ inr (inr (inr gone))
            ]))
        (λ other. inr (inl other))

  after_cascade-HasFinalizer :
      (u : User) (children : List String) (r : List UserAction × Result GoError (List String))
      → HasFinalizer u
      → HasFinalizer (after_cascade w u children r).left ⊎ ((r.1 ≡ ok []) × IsPolicyDone u)
  unfolding after_cascade fail stop
  after_cascade-HasFinalizer u children (calls, err e) has = inl has
  after_cascade-HasFinalizer u children (calls, ok []) has =
      elim (by_policy-HasFinalizer u calls has) [
        | inl kept ↦ inl kept
        | inr policy ↦ inr (refl, policy)
      ]
  after_cascade-HasFinalizer u children (calls, ok (r ∷ rs)) has = inl has

  -- what a release of a user with children has behind it
  abbrev pub IsConfirmedRelease : User → List String → Type 0
  IsConfirmedRelease u children =
      (force_of u ≡ true)
      × (is_confirmed w u children ≡ true)
      × ((cascade_listed w u w.list_for_cascade).1 ≡ ok [])
      × IsPolicyDone u

  pub not-false : (b : Bool) → not b ≡ false → b ≡ true
  not-false true h = refl
  not-false false h = cc

  with_children-HasFinalizer :
      (u : User) (children : List String)
      → HasFinalizer u
      → HasFinalizer (with_children w u children).left ⊎ IsConfirmedRelease u children
  unfolding with_children block_by_grants ask_confirmation stop
  with_children-HasFinalizer u children has =
      let done : UserOutcome = after_cascade w u children (cascade_listed w u w.list_for_cascade) in
      let P : Type 0 = IsConfirmedRelease u children in
      either-HasFinalizer P (not (force_of u)) (block_by_grants w u children)
        (if not (is_confirmed w u children) then ask_confirmation w u children else done)
        (λ plain. inl has)
        (λ force.
          either-HasFinalizer P (not (is_confirmed w u children)) (ask_confirmation w u children)
            done (λ open_question. inl has)
            (λ confirmed.
              elim (after_cascade-HasFinalizer u children (cascade_listed w u w.list_for_cascade)
                has) [
                  | inl kept ↦ inl kept
                  | inr (gone, policy) ↦
                      inr (not-false _ force, not-false _ confirmed, gone, policy)
                ]))

  by_children-HasFinalizer :
      (u : User) (children : List String)
      → HasFinalizer u
      → HasFinalizer (by_children w u children).left
        ⊎ (((children ≡ []) × IsPolicyDone u) ⊎ IsConfirmedRelease u children)
  unfolding by_children
  by_children-HasFinalizer u [] has = elim (by_policy-HasFinalizer u [] has) [
    | inl kept ↦ inl kept
    | inr policy ↦ inr (inl (refl, policy))
  ]
  by_children-HasFinalizer u (c ∷ cs) has = elim (with_children-HasFinalizer u (c ∷ cs) has) [
    | inl kept ↦ inl kept
    | inr released ↦ inr (inr released)
  ]

  after_dependencies-HasFinalizer :
      (u : User) (r : Result GoError (List Grant))
      → HasFinalizer u
      → HasFinalizer (after_dependencies w u r).left ⊎ (AreChildrenGone u r × IsPolicyDone u)
  unfolding after_dependencies
  after_dependencies-HasFinalizer u (err e) has = elim (by_policy-HasFinalizer u [] has) [
    | inl kept ↦ inl kept
    | inr policy ↦ inr (inl (e, refl), policy)
  ]
  after_dependencies-HasFinalizer u (ok gs) has =
      elim (by_children-HasFinalizer u (children_of u gs) has) [
        | inl kept ↦ inl kept
        | inr (inl (none_left, policy)) ↦ inr (inr (gs, refl, inl none_left), policy)
        | inr (inr (force, confirmed, gone, policy)) ↦
            inr (inr (gs, refl, inr (force, confirmed, gone)), policy)
      ]

-- A deletion of a user that has the finalizer keeps it, unless all of this holds: the user is not
-- protected or is forced; no grant is left, be it that none was found, the listing failed, or a
-- forced deletion was confirmed with the hash of the very grants that were found and the cascade
-- has left none; and, where the policy is Delete and it is not forced, the database has dropped
-- the user, of which it knows no object or could not say.
pub handle_user_deletion-HasFinalizer :
    (w : UserWorld) (u : User)
    → HasFinalizer w u
    → HasFinalizer w (handle_user_deletion w u).left
      ⊎ ((is_deletion_protected u ≡ false)
          × AreChildrenGone w u w.list_for_dependencies
          × IsPolicyDone w u)
unfolding handle_user_deletion unless_protected block_by_protection stop
handle_user_deletion-HasFinalizer w u has =
    let P : Type 0 =
      (is_deletion_protected u ≡ false)
      × AreChildrenGone w u w.list_for_dependencies
      × IsPolicyDone w u in
    either-HasFinalizer w P (not (w.contains_finalizer u.finalizers finalizer_database_user))
      (ended u 0 nil_error []) (unless_protected w u) (λ missing. inl has)
      (λ there.
        either-HasFinalizer w P (is_deletion_protected u) (block_by_protection w u)
          (after_dependencies w u w.list_for_dependencies) (λ blocked. inl has)
          (λ open_way. elim (after_dependencies-HasFinalizer w u w.list_for_dependencies has) [
            | inl kept ↦ inl kept
            | inr (gone, policy) ↦ inr (open_way, gone, policy)
          ]))
