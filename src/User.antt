-- ===== src/User.antt =====
-- internal/features/user: the user resource as its deletion reads and writes it, with the types of
-- api/v1alpha1, and what the deletion asks of the outside.
pub mod Dependencies
pub mod Deletion
pub mod Released
pub mod Calls
pub mod Progress
use db_provision_operator.Base.{Bool, List, Option, Result, String, Text, ℕ}
use db_provision_operator.Annotations.{Labels}
use db_provision_operator.Conditions.{Condition}
use db_provision_operator.Errors.{GoError}
use db_provision_operator.Schedule.{DeleteOutcome, Phase}

pub record ResourceRef : Type 0 where
  pub ref_name : String
  pub ref_namespace : String

-- DatabaseGrant, as far as the deletion of a user reads it
pub record Grant : Type 0 where
  pub grant_name : String
  pub user_ref : Option ResourceRef

-- DeletionConfirmation
pub record DeletionConfirmation : Type 0 where
  pub required : Bool
  pub hash : String
  pub children : List String
  pub remaining_count : ℕ
  pub confirmation_message : Text

pub record OwnedObject : Type 0 where
  pub schema : String
  pub object_name : String
  pub object_type : String

-- OwnershipBlockStatus
pub record OwnershipBlock : Type 0 where
  pub blocked : Bool
  pub last_checked_at : ℕ
  pub owned_objects : List OwnedObject
  pub block_resolution : String
  pub block_message : Text

-- OwnershipCheckResult
pub record Ownership : Type 0 where
  pub owns_objects : Bool
  pub objects : List OwnedObject
  pub blocks_deletion : Bool
  pub resolution : String

-- DatabaseUser
pub record User : Type 0 where
  pub user_name : String
  pub user_namespace : String
  pub username : String
  pub service_role : Option String
  pub annotations : Labels
  pub finalizers : List String
  pub phase : Phase
  pub message : Text
  pub conditions : List Condition
  pub deletion_confirmation : Option DeletionConfirmation
  pub ownership_block : Option OwnershipBlock

-- What a deletion finds outside: the clock, the answers of the API server to the two listings of
-- grants, to a Delete and the Get behind it, and to the updates (`none` is no error); the digest and
-- the sort of ComputeDeletionHash; the database's answers about owned objects and to Delete, with and
-- without force; and the finalizer functions of controller-runtime.
pub record UserWorld : Type 0 where
  pub now : ℕ
  pub list_for_dependencies : Result GoError (List Grant)
  pub list_for_cascade : Result GoError (List Grant)
  pub delete_grant : Grant → DeleteOutcome
  pub is_still_there : Grant → Bool
  pub digest : Text → String
  pub sort_strings : List String → List String
  pub list_owned_objects : Result GoError (List OwnedObject)
  pub delete_user : Bool → Option GoError
  pub update : Option GoError
  pub contains_finalizer : List String → String → Bool
  pub remove_finalizer : List String → String → List String
