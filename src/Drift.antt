-- ===== src/Drift.antt =====
-- internal/service/drift/result.go, and the loop over the diffs that the corrections of
-- grant.go, role.go, user.go and database.go share.
pub mod Correction
pub mod Adapter
pub mod Memberships
pub mod Grants
pub mod Roles
pub mod Users
pub mod Databases
pub mod Orchestrator
use db_provision_operator.Base.{
  ℕ, Text, codes, List, [], ◌∷◌, ◌++◌, map, Bool, true, false, not, ◌&&◌, Option, none, some,
  is_empty, some_of, if◌then◌else◌,
}
use db_provision_operator.Errors.{GoError, foreign}

pub record Diff : Type 0 where
  pub field : Text
  pub expected : Text
  pub actual : Text
  pub destructive : Bool
  pub immutable : Bool

-- Result
pub record DriftResult : Type 0 where
  pub resource_type : Text
  pub resource_name : Text
  pub checked_at : ℕ
  pub diffs : List Diff

-- NewResult
abbrev pub new_result : ℕ → Text → Text → DriftResult
new_result now resource_type resource_name = record {
  resource_type = resource_type;
  resource_name = resource_name;
  checked_at = now;
  diffs = [];
}

-- HasDrift, HasDestructiveDrift and HasImmutableDrift
unfoldable pub has_drift : DriftResult → Bool
has_drift r = not (is_empty r.diffs)

unfoldable pub has_destructive_drift : DriftResult → Bool
has_destructive_drift r = some_of (λ (d : Diff). d.destructive) r.diffs

unfoldable pub has_immutable_drift : DriftResult → Bool
has_immutable_drift r = some_of (λ (d : Diff). d.immutable) r.diffs

-- AddDiff
abbrev pub add_diff : List Diff → Diff → List Diff
add_diff diffs d = diffs ++ (d ∷ [])

pub record DriftStatus : Type 0 where
  pub detected : Bool
  pub last_checked : ℕ
  pub diffs : List Diff

-- ToAPIStatus
unfoldable pub to_api_status : DriftResult → DriftStatus
unfolding has_drift
to_api_status r = record { detected = has_drift r; last_checked = r.checked_at; diffs = r.diffs }

pub record CorrectedDiff : Type 0 where
  pub diff : Diff

pub record SkippedDiff : Type 0 where
  pub diff : Diff
  pub reason : Text

pub record FailedDiff : Type 0 where
  pub diff : Diff
  pub error : GoError

pub record CorrectionResult : Type 0 where
  pub resource_name : Text
  pub corrected : List CorrectedDiff
  pub skipped : List SkippedDiff
  pub failed : List FailedDiff

-- NewCorrectionResult
abbrev pub new_correction_result : Text → CorrectionResult
new_correction_result resource_name = record {
  resource_name = resource_name;
  corrected = [];
  skipped = [];
  failed = [];
}

-- HasCorrections and HasFailures
unfoldable pub has_corrections : CorrectionResult → Bool
has_corrections r = not (is_empty r.corrected)

unfoldable pub has_failures : CorrectionResult → Bool
has_failures r = not (is_empty r.failed)

-- AddCorrected, AddSkipped and AddFailed
abbrev pub add_corrected : CorrectionResult → Diff → CorrectionResult
add_corrected r d = record {
  resource_name = r.resource_name;
  corrected = r.corrected ++ (record { diff = d } ∷ []);
  skipped = r.skipped;
  failed = r.failed;
}

abbrev pub add_skipped : CorrectionResult → Diff → Text → CorrectionResult
add_skipped r d reason = record {
  resource_name = r.resource_name;
  corrected = r.corrected;
  skipped = r.skipped ++ (record { diff = d; reason = reason } ∷ []);
  failed = r.failed;
}

abbrev pub add_failed : CorrectionResult → Diff → GoError → CorrectionResult
add_failed r d e = record {
  resource_name = r.resource_name;
  corrected = r.corrected;
  skipped = r.skipped;
  failed = r.failed ++ (record { diff = d; error = e } ∷ []);
}

abbrev pub immutable_reason : Text
immutable_reason = codes "immutable field, requires resource recreation"

abbrev pub destructive_reason : Text
destructive_reason = codes "destructive correction not allowed"

-- what the `default` of a switch over the fields answers
abbrev pub unsupported : Diff → GoError
unsupported d = foreign (codes "unsupported drift correction for field: " ++ d.field)

-- What a call of the database answers: the state behind it, and its error.
abbrev pub Reply {ℓ} : Type ℓ → Type ℓ
Reply S = S × Option GoError

-- the end of the loop's body, on what the correction of the diff answered
abbrev pub note_applied {ℓ} :
    {S : Type ℓ} → CorrectionResult → Diff → Reply S → S × CorrectionResult
note_applied r d (s, none) = (s, add_corrected r d)
note_applied r d (s, some e) = (s, add_failed r d e)

-- the loop's body: `AllowDestructive`, the reason of a skipped destructive diff, what applies one
unfoldable pub correct_diff {ℓ} :
    {S : Type ℓ}
    → Bool
    → Text
    → (Diff → S → Reply S)
    → Diff
    → S × CorrectionResult
    → S × CorrectionResult
correct_diff allow reason apply d (s, r) =
    if d.immutable
    then (s, add_skipped r d immutable_reason)
    else if d.destructive && not allow
    then (s, add_skipped r d reason)
    else note_applied r d (apply d s)

unfoldable pub correct_diffs {ℓ} :
    {S : Type ℓ}
    → Bool
    → Text
    → (Diff → S → Reply S)
    → List Diff
    → S × CorrectionResult
    → S × CorrectionResult
correct_diffs allow reason apply [] x = x
correct_diffs allow reason apply (d ∷ ds) x =
    correct_diffs allow reason apply ds (correct_diff allow reason apply d x)
