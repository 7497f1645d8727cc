-- ===== src/Drift/Orchestrator/Recurring.antt =====
-- internal/features/grant/{handler,repository}.go: the detector of a grant, once a connection to its
-- instance stands; and what a run in the mode `correct` does about the roles of a PostgreSQL grant.
use db_provision_operator.Base.{
  All, Bool, List, Option, Result, Text, [], arith, codes, comma_space, contains, err, false, join,
  keys, member, member_cons, member_self, none, ok, outside, refl, some, sort_strings, split,
  split-join, true, ℕ, ◌∷◌, ◌≡◌, ap,
}
use db_provision_operator.Errors.{GoError, wrapped}
use db_provision_operator.Drift.{
  Diff, DriftResult, add_corrected, correct_diff, correct_diffs, has_corrections, has_drift,
  new_correction_result,
}
use db_provision_operator.Drift.Adapter.{DatabaseAdapter, GrantInfo}
use db_provision_operator.Drift.Adapter.Postgres.{
  Pool, actual_roles-get_grants, get_grants, with_listing,
}
use db_provision_operator.Drift.Grants.{
  GrantSpec, detect_clickhouse_grant_drift, detect_each, detect_grant_drift,
  detect_mysql_grant_drift, detect_postgres_grant_drift, grant_diffs,
}
use db_provision_operator.Drift.Grants.Correct.{apply_grant_correction, correct_grant_drift}
use db_provision_operator.Drift.Memberships.{actual_roles, detect_role_membership_drift, difference}
use db_provision_operator.Drift.Orchestrator.{
  Detector, DriftPolicy, Resource, Run, cleared_status, correct_drift, drift_corrected,
  drift_detected, drift_mode_correct, get_effective_drift_policy, has_destructive_drift_annotation,
  perform_drift_detection,
}

abbrev pub wrap_detection : Result GoError DriftResult → Result GoError (Option DriftResult)
wrap_detection (err e) = err (wrapped (codes "detect drift: ") e)
wrap_detection (ok r) = ok (some r)

-- DetectDrift and CorrectDrift of the handler and the repository, by a clock on the database's state
abbrev pub grant_detector :
    {S : Type 0} → DatabaseAdapter S → (S → ℕ) → GrantSpec → Text → Detector S
grant_detector adapter clock spec grantee = record {
  detect_drift =
      λ allow s. (s, wrap_detection (detect_grant_drift adapter (clock s) spec grantee s));
  correct_drift = λ drift allow s.
      let out = correct_grant_drift adapter allow spec grantee drift s in
      (out.0, ok (some (out.1)));
}

-- a PostgreSQL grant that only asks for roles
abbrev pub roles_spec : List Text → GrantSpec
roles_spec roles = record {
  postgres = some (record { roles = roles; grants = [] });
  mysql = none;
  clickhouse = none;
}

abbrev pub missing_diff : Text → List Text → Diff
missing_diff n ns = record {
  field = codes "roles.missing";
  expected = join comma_space (n ∷ ns);
  actual = [];
  destructive = false;
  immutable = false;
}

-- No name holds the separator of the diff's list of names.
abbrev pub Separable : List Text → Type 0
Separable names = (z : Text) → member z names ≡ true → contains z comma_space ≡ false

All-members :
    (P : Text → Type 0) (xs : List Text) → ((z : Text) → member z xs ≡ true → P z) → All P xs
All-members P [] h = tt
All-members P (x ∷ xs) h =
    (h x (member_self x xs), All-members P xs (λ z m. h z (ground (arith, member_cons z x xs))))

Separable-split :
    (x : Text) (xs : List Text)
    → Separable (x ∷ xs)
    → split comma_space (join comma_space (x ∷ xs)) ≡ x ∷ xs
Separable-split x xs h =
    split-join x xs (All-members (λ z. contains z comma_space ≡ false) (x ∷ xs) h)

outside_nothing : (xs : List Text) → outside [] xs ≡ xs
unfolding outside member
outside_nothing [] = refl
outside_nothing (x ∷ xs) = ap (λ l. x ∷ l) (outside_nothing xs)

-- Where the listing has no roles, all that are asked for are missing, and none is superfluous.
all_missing :
    (m : Text) (ms roles : List Text) (gs : List GrantInfo)
    → actual_roles gs ≡ []
    → sort_strings roles ≡ m ∷ ms
    → detect_role_membership_drift roles gs [] ≡ missing_diff m ms ∷ []
unfolding detect_role_membership_drift difference
all_missing m ms roles gs e sorted =
    rw (e, outside_nothing roles, sorted) (unfold outside keys sort_strings in refl)

module _ {S : Type 0} (pool : Pool S) (base : DatabaseAdapter S) (clock : S → ℕ) (grantee : Text)
    (roles : List Text) (m : Text) (ms : List Text) (sorted : sort_strings roles ≡ m ∷ ms) where
  abbrev adapter : DatabaseAdapter S
  adapter = with_listing pool base

  abbrev drift_at : S → DriftResult
  drift_at s = record {
    resource_type = codes "grant";
    resource_name = grantee;
    checked_at = clock s;
    diffs = missing_diff m ms ∷ [];
  }

  detected :
      (s : S) (gs : List GrantInfo)
      → get_grants pool grantee s ≡ ok gs
      → detect_grant_drift adapter (clock s) (roles_spec roles) grantee s ≡ ok (drift_at s)
  unfolding detect_grant_drift grant_diffs detect_postgres_grant_drift detect_mysql_grant_drift
      detect_clickhouse_grant_drift detect_each
  detected s gs e =
      rw (e, all_missing m ms roles gs (actual_roles-get_grants pool grantee s gs e) sorted) refl

  corrected :
      (allow : Bool) (s t : S)
      → Separable (m ∷ ms)
      → base.grant_role grantee (m ∷ ms) s ≡ (t, none)
      → correct_grant_drift adapter allow (roles_spec roles) grantee (drift_at s) s
        ≡ (t, add_corrected (new_correction_result grantee) (missing_diff m ms))
  unfolding correct_grant_drift correct_diffs correct_diff apply_grant_correction
  corrected allow s t p e = rw (Separable-split m ms p, e) refl

  module _ (interval : Text) (r : Resource) (owner : Option (Option DriftPolicy))
      (corrects : (get_effective_drift_policy r.drift_policy owner interval).mode
        ≡ drift_mode_correct) where
    abbrev run_at : S → Run S
    run_at s =
        perform_drift_detection (grant_detector adapter clock (roles_spec roles) grantee) interval r
          owner s

    abbrev allow_of : Bool
    allow_of = has_destructive_drift_annotation r.annotations

    -- For a PostgreSQL grant that asks for roles only, at least one, none with a comma and a space in
    -- its name, and a policy to correct: if the server answers the listing of the grantee, which
    -- never has a row of a role, and grants the roles without an error, then a run asks for all of
    -- the roles to be granted, notes that they were missing and that they have been corrected, and
    -- says that the drift is gone; but if the listing answers again, a detection at once afterwards
    -- finds all of them missing once more.
    pub perform_drift_detection-recurs :
        (s t : S) (gs later : List GrantInfo)
        → Separable (m ∷ ms)
        → get_grants pool grantee s ≡ ok gs
        → base.grant_role grantee (m ∷ ms) s ≡ (t, none)
        → get_grants pool grantee t ≡ ok later
        → (run_at s ≡ record {
          state = t;
          status = some (cleared_status (drift_at s));
          events =
              drift_detected (codes "roles.missing" ∷ [])
              ∷ drift_corrected (codes "roles.missing" ∷ [])
              ∷ [];
          corrections = record { result = drift_at s; allow_destructive = allow_of } ∷ [];
        })
          × (detect_grant_drift adapter (clock t) (roles_spec roles) grantee t ≡ ok (drift_at t))
    unfolding perform_drift_detection correct_drift has_drift has_corrections
    perform_drift_detection-recurs s t gs later p e granted e2 = (
      rw (corrects, detected s gs e, detected s gs e, corrected allow_of s t p granted) refl,
      detected t later e2,
    )
