-- ===== src/Annotations.antt =====
-- internal/util/finalizers.go and internal/util/deletion_confirmation.go: labels and annotations, and
-- what the annotations of a resource ask for. A map is an association list, in which a missing key
-- and the nil map read as the empty text.
pub mod Maps
use db_provision_operator.Base.{
  List, [], ◌∷◌, Bool, true, false, ◌||◌, Option, none, some, String, str_eq, if◌then◌else◌,
}

abbrev pub Labels : Type 0
Labels = List (String × String)

-- A map's `m[k] = v`.
unfoldable pub set_label : Labels → String → String → Labels
set_label [] k v = (k, v) ∷ []
set_label ((k', v') ∷ m) k v =
    let rest = set_label m k v in if str_eq k' k then (k, v) ∷ m else (k', v') ∷ rest

-- A map's `m[k]`, `none` where the key is missing.
unfoldable pub get_label : Labels → String → Option String
get_label [] k = none
get_label ((k', v') ∷ m) k = let rest = get_label m k in if str_eq k' k then some v' else rest

-- `m[k]` for a caller that does not ask whether the key is there
unfoldable pub read : Labels → String → String
unfolding get_label
read m k = elim (get_label m k) [ none ↦ "" | some v ↦ v ]

abbrev pub annotation_force_delete : String
annotation_force_delete = "dbops.dbprovision.io/force-delete"

abbrev pub annotation_skip_reconcile : String
annotation_skip_reconcile = "dbops.dbprovision.io/skip-reconcile"

abbrev pub annotation_pause_reconcile : String
annotation_pause_reconcile = "dbops.dbprovision.io/pause-reconcile"

abbrev pub annotation_confirm_force_delete : String
annotation_confirm_force_delete = "dbops.dbprovision.io/confirm-force-delete"

-- HasForceDeleteAnnotation
unfoldable pub has_force_delete_annotation : Labels → Bool
unfolding read
has_force_delete_annotation m = str_eq (read m annotation_force_delete) "true"

-- ShouldSkipReconcile
unfoldable pub should_skip_reconcile : Labels → Bool
unfolding read
should_skip_reconcile m =
    str_eq (read m annotation_skip_reconcile) "true"
    || str_eq (read m annotation_pause_reconcile) "true"

-- GetConfirmForceDeleteAnnotation
unfoldable pub get_confirm_force_delete_annotation : Labels → String
unfolding read
get_confirm_force_delete_annotation m = read m annotation_confirm_force_delete

-- IsForceDeleteConfirmed, with ComputeDeletionHash as an argument
unfoldable pub is_force_delete_confirmed : (List String → String) → Labels → List String → Bool
unfolding get_confirm_force_delete_annotation
is_force_delete_confirmed compute_deletion_hash m children =
    str_eq (get_confirm_force_delete_annotation m) (compute_deletion_hash children)
