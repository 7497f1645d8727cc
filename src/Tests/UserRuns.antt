-- ===== src/Tests/UserRuns.antt =====
-- Runs of the deletion of a user.
use db_provision_operator.Base.{
  All, Bool, List, String, [], arith, false, filter, inl, inr, none, not, ok, refl, some, some_of,
  str_eq, true, ◌∷◌, ◌≡◌, ◌⊎◌,
}
use db_provision_operator.Annotations.{
  read, annotation_confirm_force_delete, annotation_force_delete, has_force_delete_annotation,
  is_force_delete_confirmed,
}
use db_provision_operator.Errors.{nil_error}
use db_provision_operator.Schedule.{deleted, phase_ready}
use db_provision_operator.User.{Grant, User, UserWorld}
use db_provision_operator.User.Dependencies.{cascade_listed, children_of, compute_deletion_hash}
use db_provision_operator.User.Deletion.{
  finalizer_database_user, force_of, handle_user_deletion, is_confirmed, is_deletion_protected,
}
use db_provision_operator.User.Released.{
  AreChildrenGone, HasFinalizer, IsPolicyDone, handle_user_deletion-HasFinalizer,
}
use db_provision_operator.User.Calls.{MayUserCall, handle_user_deletion-MayUserCall}
use db_provision_operator.User.Progress.{handle_user_deletion-IsGivenUp}

abbrev reader_grant : Grant
reader_grant = record {
  grant_name = "reader";
  user_ref = some (record { ref_name = "app"; ref_namespace = "" });
}

abbrev has_name : List String → String → Bool
has_name fs f = some_of (λ g. str_eq g f) fs

abbrev drop_name : List String → String → List String
drop_name fs f = filter (λ g. not (str_eq g f)) fs

drop_name-gone : (fs : List String) (f : String) → has_name (drop_name fs f) f ≡ false
drop_name-gone [] f = refl
drop_name-gone (g ∷ fs) f = ground (arith, drop_name-gone fs f)

-- one grant, which its Delete removes at once
abbrev surroundings : UserWorld
surroundings = record {
  now = 7;
  list_for_dependencies = ok (reader_grant ∷ []);
  list_for_cascade = ok (reader_grant ∷ []);
  delete_grant = λ g. deleted;
  is_still_there = λ g. false;
  digest = λ text. "0badcafe";
  sort_strings = λ names. names;
  list_owned_objects = ok [];
  delete_user = λ force. none;
  update = none;
  contains_finalizer = has_name;
  remove_finalizer = drop_name;
}

-- a forced deletion that is confirmed
abbrev leaving : User
leaving = record {
  user_name = "app";
  user_namespace = "prod";
  username = "app";
  service_role = none;
  annotations =
      (annotation_force_delete, "true") ∷ (annotation_confirm_force_delete, "0badcafe") ∷ [];
  finalizers = finalizer_database_user ∷ [];
  phase = phase_ready;
  message = [];
  conditions = [];
  deletion_confirmation = none;
  ownership_block = none;
}

handle_user_deletion-HasFinalizer_example :
    HasFinalizer surroundings (handle_user_deletion surroundings leaving).left
    ⊎ ((is_deletion_protected leaving ≡ false)
        × AreChildrenGone surroundings leaving surroundings.list_for_dependencies
        × IsPolicyDone surroundings leaving)
handle_user_deletion-HasFinalizer_example =
    handle_user_deletion-HasFinalizer surroundings leaving refl

handle_user_deletion-MayUserCall_example :
    All (MayUserCall surroundings leaving) (handle_user_deletion surroundings leaving).actions
handle_user_deletion-MayUserCall_example = handle_user_deletion-MayUserCall surroundings leaving

leaving-unprotected : is_deletion_protected leaving ≡ false
unfolding is_deletion_protected read
leaving-unprotected = refl

leaving-forced : force_of leaving ≡ true
unfolding has_force_delete_annotation
leaving-forced = refl

leaving-confirmed :
    is_confirmed surroundings leaving (children_of leaving (reader_grant ∷ [])) ≡ true
unfolding is_force_delete_confirmed compute_deletion_hash
leaving-confirmed = refl

leaving-cascaded : (cascade_listed surroundings leaving surroundings.list_for_cascade).1 ≡ ok []
unfolding cascade_listed
leaving-cascaded = refl

handle_user_deletion-IsGivenUp_example :
    ((handle_user_deletion surroundings leaving).error ≡ nil_error)
    × (surroundings.contains_finalizer
          (handle_user_deletion surroundings leaving).left.finalizers
          finalizer_database_user
        ≡ false)
handle_user_deletion-IsGivenUp_example =
    handle_user_deletion-IsGivenUp surroundings leaving drop_name-gone refl refl leaving-unprotected
      (inr (reader_grant ∷ [], refl, inr (leaving-forced, leaving-confirmed, leaving-cascaded)))
      (inr (inl leaving-forced))
