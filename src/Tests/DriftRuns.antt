-- ===== src/Tests/DriftRuns.antt =====
-- Runs of the detection and correction of a grant's drift, over a database that is the list of the
-- roles of one grantee.
use db_provision_operator.Base.{
  All, Bool-cases, List, Text, [], ap, arith, codes, comma_space, contains, err, false, inl, inr,
  map, member, member_cons, member_nil, none, ok, outside, refl, same_text, same_text-eq, some,
  true, ◌++◌, ◌||◌, ◌∷◌, ◌≡◌, insert_text, keys, sort_strings, split, split_from, text_ltb, ◌↔◌,
  ◌≢◌, join,
}
use db_provision_operator.Errors.{foreign, to_lower}
use db_provision_operator.Annotations.{get_label, read}
use db_provision_operator.Drift.Adapter.{DatabaseAdapter, GrantInfo, equal_fold, fold_case}
use db_provision_operator.Drift.Memberships.{
  actual_roles, detect_role_membership_drift, difference, compare_role_memberships,
}
use db_provision_operator.Drift.Orchestrator.{
  Resource, Run, annotation_allow_destructive_drift, drift_mode_correct, get_effective_drift_policy,
  has_destructive_drift_annotation, perform_drift_detection, correct_drift, Detector,
  drift_mode_ignore, drift_corrected, drift_detected,
}
use db_provision_operator.Drift.Orchestrator.Recurring.{
  Separable, grant_detector, missing_diff, perform_drift_detection-recurs, roles_spec,
}
use db_provision_operator.Drift.Adapter.Postgres.{Pool, get_grants, with_listing}
use db_provision_operator.Drift.{
  correct_diff, correct_diffs, has_corrections, has_drift, to_api_status, CorrectionResult, Diff,
  DriftResult, Reply, destructive_reason, new_correction_result,
}
use db_provision_operator.Drift.Grants.{
  detect_clickhouse_grant_drift, detect_each, detect_grant_drift, detect_mysql_grant_drift,
  detect_postgres_grant_drift, grant_diffs, PostgresGrantConfig, build_grant_key, check_found,
  check_object_grant, check_objects, detect_postgres_direct_grant_drift, grant_field,
  last_privileges, postgres_key, privileges_outside,
}
use db_provision_operator.Drift.Grants.Correct.{apply_grant_correction, correct_grant_drift}
use db_provision_operator.Sql.Privilege.{to_upper}
use db_provision_operator.Drift.Correction.{Accounts, correct_diffs-Accounts}
use db_provision_operator.Drift.Grants.Detected.{AllGranted, detect_postgres_grant_drift-none}
use db_provision_operator.Drift.Memberships.Agreement.{SameNames, compare_role_memberships_names}
use db_provision_operator.Drift.Orchestrator.Runs.{
  AtMostOne, Says, perform_drift_detection-corrections, perform_drift_detection-status,
}

abbrev pub idle_adapter : {S : Type 0} → DatabaseAdapter S
idle_adapter = record {
  get_database_info = λ name s. err (foreign (codes "not asked for"));
  update_database = λ name o s. (s, none);
  transfer_database_ownership = λ name owner s. (s, none);
  get_user_info = λ name s. err (foreign (codes "not asked for"));
  update_user = λ name o s. (s, none);
  get_role_info = λ name s. err (foreign (codes "not asked for"));
  update_role = λ name o s. (s, none);
  get_grants = λ name s. err (foreign (codes "not asked for"));
  grant = λ name o s. (s, none);
  revoke = λ name o s. (s, none);
  grant_role = λ name roles s. (s, none);
  revoke_role = λ name roles s. (s, none);
}

abbrev role_row : Text → GrantInfo
role_row name = record {
  database = [];
  schema = [];
  object_type = codes "role";
  object_name = name;
  privileges = [];
}

abbrev member_rows : List Text → List GrantInfo
member_rows roles = map role_row roles

abbrev role_store : DatabaseAdapter (List Text)
role_store = record idle_adapter {
  get_grants = λ name s. ok (member_rows s);
  grant_role = λ name roles s. (s ++ roles, none);
  revoke_role = λ name roles s. (outside roles s, none);
}

rows_roles : (roles : List Text) → actual_roles (member_rows roles) ≡ roles
unfolding actual_roles equal_fold fold_case
rows_roles [] = refl
rows_roles (r ∷ rs) = ap (λ l. r ∷ l) (rows_roles rs)

pub member-append :
    (z : Text) (xs ys : List Text) → member z (xs ++ ys) ≡ (member z xs || member z ys)
member-append z [] ys = ground (arith, member_nil z)
member-append z (x ∷ xs) ys =
    ground (arith, member-append z xs ys, member_cons z x xs, member_cons z x (xs ++ ys))

abbrev grantee : Text
grantee = codes "app"

abbrev wanted_roles : List Text
wanted_roles = codes "reader" ∷ codes "writer" ∷ []

abbrev had_roles : List Text
had_roles = codes "owner" ∷ codes "reader" ∷ []

separable : (names : List Text) → All (λ z. contains z comma_space ≡ false) names → Separable names
separable [] h z m = absurd (ground (arith, member_nil z))
separable (n ∷ ns) (h, hs) z m = elim (Bool-cases (same_text z n)) [
  | inl s ↦ let e : z ≡ n = same_text-eq z n s in rw e h
  | inr s ↦ separable ns hs z (ground (arith, member_cons z n ns))
]

abbrev corrected_resource : Resource
corrected_resource = record {
  drift_policy = some (record { mode = drift_mode_correct; interval = codes "5m" });
  annotations = (annotation_allow_destructive_drift, "true") ∷ [];
  drift_status = none;
}

policy_corrects :
    (get_effective_drift_policy corrected_resource.drift_policy none (codes "8h0m0s")).mode
    ≡ drift_mode_correct
unfolding get_effective_drift_policy
policy_corrects = refl

annotation_allows : has_destructive_drift_annotation corrected_resource.annotations ≡ true
unfolding has_destructive_drift_annotation read get_label
annotation_allows = refl

abbrev run_of : List Text → Run (List Text)
run_of s =
    perform_drift_detection (grant_detector role_store (λ t. 7) (roles_spec wanted_roles) grantee)
      (codes "8h0m0s") corrected_resource none s

-- a server that has the database of the grantee, and that grants what it is asked for
abbrev shop_pool : Pool (List Text)
shop_pool = record {
  is_connected = λ s. true;
  query =
      λ name s. ok (ok (record { datname = codes "shop"; privileges = codes "CONNECT" ∷ [] }) ∷ []);
}

abbrev shop_listing : List GrantInfo
shop_listing =
    record {
      database = codes "shop";
      schema = [];
      object_type = codes "database";
      object_name = codes "shop";
      privileges = codes "CONNECT" ∷ [];
    }
    ∷ []

abbrev shop_run : List Text → Run (List Text)
shop_run s =
    perform_drift_detection
      (grant_detector (with_listing shop_pool role_store) (λ t. 7) (roles_spec wanted_roles)
        grantee)
      (codes "8h0m0s") corrected_resource none s

abbrev recurring : DriftResult
recurring = record {
  resource_type = codes "grant";
  resource_name = grantee;
  checked_at = 7;
  diffs = missing_diff (codes "reader") (codes "writer" ∷ []) ∷ [];
}

wanted-sorted : sort_strings wanted_roles ≡ codes "reader" ∷ codes "writer" ∷ []
unfolding sort_strings insert_text text_ltb
wanted-sorted = refl

perform_drift_detection-recurs_example :
    (shop_run had_roles ≡ record {
      state = had_roles ++ wanted_roles;
      status = some (record { detected = false; last_checked = 7; diffs = [] });
      events =
          drift_detected (codes "roles.missing" ∷ [])
          ∷ drift_corrected (codes "roles.missing" ∷ [])
          ∷ [];
      corrections = record { result = recurring; allow_destructive = true } ∷ [];
    })
    × (detect_grant_drift
          (with_listing shop_pool role_store)
          7
          (roles_spec wanted_roles)
          grantee
          (had_roles ++ wanted_roles)
        ≡ ok recurring)
unfolding has_destructive_drift_annotation read get_label
perform_drift_detection-recurs_example =
    perform_drift_detection-recurs shop_pool role_store (λ t. 7) grantee wanted_roles
      (codes "reader") (codes "writer" ∷ []) wanted-sorted (codes "8h0m0s") corrected_resource none
      policy_corrects had_roles (had_roles ++ wanted_roles) shop_listing shop_listing
      (separable wanted_roles (refl, (refl, tt))) (unfold get_grants in refl) refl
      (unfold get_grants in refl)

abbrev run_result : Run (List Text)
run_result = run_of had_roles

-- the run grants what is missing and revokes what is superfluous
settled_state : run_result.state ≡ codes "reader" ∷ codes "writer" ∷ []
unfolding perform_drift_detection correct_drift correct_diffs correct_diff correct_grant_drift
    apply_grant_correction detect_grant_drift grant_diffs detect_postgres_grant_drift
    detect_mysql_grant_drift detect_clickhouse_grant_drift detect_each detect_role_membership_drift
    difference actual_roles outside sort_strings insert_text text_ltb keys member split split_from
    has_drift has_corrections to_api_status equal_fold fold_case get_effective_drift_policy
    has_destructive_drift_annotation read get_label
settled_state = refl

abbrev apply_wanted : Diff → List Text → Reply (List Text)
apply_wanted d s = apply_grant_correction role_store (roles_spec wanted_roles) grantee d s

abbrev extra_diff : Text → List Text → Diff
extra_diff n ns = record {
  field = codes "roles.extra";
  expected = [];
  actual = join comma_space (n ∷ ns);
  destructive = true;
  immutable = false;
}

abbrev two_diffs : List Diff
two_diffs = missing_diff (codes "writer") [] ∷ extra_diff (codes "owner") [] ∷ []

abbrev fresh_start : List Text × CorrectionResult
fresh_start = (had_roles, new_correction_result grantee)

-- without the permission for destructive corrections
correct_diffs-Accounts_example :
    Accounts false destructive_reason apply_wanted two_diffs fresh_start
      (correct_diffs false destructive_reason apply_wanted two_diffs fresh_start)
correct_diffs-Accounts_example =
    correct_diffs-Accounts false destructive_reason apply_wanted two_diffs fresh_start

abbrev granted_resource : PostgresGrantConfig
granted_resource = record {
  roles = codes "reader" ∷ [];
  grants =
      record {
        database = codes "shop";
        schema = codes "public";
        tables = codes "orders" ∷ [];
        sequences = [];
        functions = [];
        privileges = codes "select" ∷ codes "INSERT" ∷ [];
      }
      ∷ [];
}

abbrev listing : List GrantInfo
listing =
    role_row (codes "reader")
    ∷ record {
      database = codes "shop";
      schema = codes "public";
      object_type = codes "table";
      object_name = codes "orders";
      privileges = codes "INSERT" ∷ codes "SELECT" ∷ [];
    }
    ∷ []

detect_postgres_grant_drift-none_example :
    (detect_postgres_grant_drift (some granted_resource) listing [] ≡ []) ↔ (
      SameNames granted_resource.roles (actual_roles listing)
      × All (AllGranted listing) granted_resource.grants)
detect_postgres_grant_drift-none_example = detect_postgres_grant_drift-none listing granted_resource

-- the privileges are compared up to case and order
listing-none : detect_postgres_grant_drift (some granted_resource) listing [] ≡ []
unfolding detect_postgres_grant_drift detect_each detect_role_membership_drift difference
    actual_roles outside sort_strings insert_text text_ltb keys member equal_fold fold_case
    detect_postgres_direct_grant_drift check_objects check_object_grant check_found last_privileges
    postgres_key build_grant_key to_lower privileges_outside to_upper grant_field
listing-none = refl

same_names :
    (z : Text)
    → member z (codes "a" ∷ codes "b" ∷ []) ≡ member z (codes "b" ∷ codes "a" ∷ codes "b" ∷ [])
same_names z = ground (
  arith,
  member_cons z (codes "a") (codes "b" ∷ []),
  member_cons z (codes "b") [],
  member_cons z (codes "b") (codes "a" ∷ codes "b" ∷ []),
  member_cons z (codes "a") (codes "b" ∷ []),
  member_nil z,
)

compare_role_memberships_names_example :
    compare_role_memberships (codes "a" ∷ codes "b" ∷ []) had_roles []
    ≡ compare_role_memberships (codes "b" ∷ codes "a" ∷ codes "b" ∷ []) had_roles []
compare_role_memberships_names_example =
    compare_role_memberships_names (codes "a" ∷ codes "b" ∷ [])
      (codes "b" ∷ codes "a" ∷ codes "b" ∷ []) had_roles had_roles [] same_names (λ z. refl)

abbrev detector_of : Detector (List Text)
detector_of = grant_detector role_store (λ t. 7) (roles_spec wanted_roles) grantee

perform_drift_detection-corrections_example :
    AtMostOne
      ((get_effective_drift_policy corrected_resource.drift_policy none (codes "8h0m0s")).mode)
      (has_destructive_drift_annotation corrected_resource.annotations)
      ((run_of had_roles).corrections)
    × ((get_effective_drift_policy corrected_resource.drift_policy none (codes "8h0m0s")).mode
          ≡ drift_mode_ignore
        → run_of had_roles
          ≡ record { state = had_roles; status = none; events = []; corrections = [] })
perform_drift_detection-corrections_example =
    perform_drift_detection-corrections detector_of (codes "8h0m0s") corrected_resource none
      had_roles

not_ignored :
    (get_effective_drift_policy corrected_resource.drift_policy none (codes "8h0m0s")).mode
    ≢ drift_mode_ignore
unfolding get_effective_drift_policy
not_ignored e = absurd (cc)

abbrev had_drift : DriftResult
had_drift = record {
  resource_type = codes "grant";
  resource_name = grantee;
  checked_at = 7;
  diffs = detect_role_membership_drift wanted_roles (member_rows had_roles) [];
}

had_detected :
    detector_of.detect_drift
      (has_destructive_drift_annotation corrected_resource.annotations)
      had_roles
    ≡ (had_roles, ok (some had_drift))
unfolding detect_grant_drift grant_diffs detect_postgres_grant_drift detect_mysql_grant_drift
    detect_clickhouse_grant_drift detect_each
had_detected = refl

perform_drift_detection-status_example :
    Says detector_of
      ((get_effective_drift_policy corrected_resource.drift_policy none (codes "8h0m0s")).mode)
      (has_destructive_drift_annotation corrected_resource.annotations)
      had_drift
      had_roles
      (run_of had_roles)
perform_drift_detection-status_example =
    perform_drift_detection-status detector_of (codes "8h0m0s") corrected_resource none had_roles
      had_roles had_drift not_ignored had_detected
