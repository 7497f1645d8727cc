-- ===== src/Drift/Orchestrator.antt =====
-- internal/controller/drift/orchestrator.go: the detection and correction of a resource's drift in a
-- reconcile, over any detector; and internal/util/drift.go. The detector is the one of the
-- resource's kind, with a state of its own.
pub mod Runs
pub mod Recurring
use db_provision_operator.Base.{
  Bool, List, Option, Result, String, Text, [], codes, err, false, if◌then◌else◌, is_empty, map,
  none, ok, same_text, some, str_eq, ◌++◌, ◌||◌, ◌∷◌,
}
use db_provision_operator.Base.Int.{ℤ}
use db_provision_operator.Errors.{GoError}
use db_provision_operator.Annotations.{Labels, read}
use db_provision_operator.Drift.{
  CorrectedDiff, CorrectionResult, Diff, DriftResult, DriftStatus, has_corrections, has_drift,
  to_api_status,
}

-- DriftPolicy
pub record DriftPolicy : Type 0 where
  pub mode : Text
  pub interval : Text

abbrev pub drift_mode_ignore : Text
drift_mode_ignore = codes "ignore"

abbrev pub drift_mode_detect : Text
drift_mode_detect = codes "detect"

abbrev pub drift_mode_correct : Text
drift_mode_correct = codes "correct"

abbrev pub annotation_allow_destructive_drift : String
annotation_allow_destructive_drift = "dbops.dbprovision.io/allow-destructive-drift"

-- DriftableResource
pub record Resource : Type 0 where
  pub drift_policy : Option DriftPolicy
  pub annotations : Labels
  pub drift_status : Option DriftStatus

-- Detector, whose results may be nil
pub record Detector (S : Type 0) : Type 0 where
  pub detect_drift : Bool → S → S × Result GoError (Option DriftResult)
  pub correct_drift : DriftResult → Bool → S → S × Result GoError (Option CorrectionResult)

pub data Event : Type 0 where
  drift_detected : List Text → Event
  drift_correction_failed : GoError → Event
  drift_corrected : List Text → Event

-- a correction that the detector is asked for
pub record CorrectionCall : Type 0 where
  pub result : DriftResult
  pub allow_destructive : Bool

-- What a run has done: the detector's state, the drift status, the events and the corrections.
pub record Run (S : Type 0) : Type 0 where
  pub state : S
  pub status : Option DriftStatus
  pub events : List Event
  pub corrections : List CorrectionCall

-- the policy of the instance, where there is an instance that has one
abbrev pub instance_policy : Option (Option DriftPolicy) → Text → DriftPolicy
instance_policy (some (some p)) interval = p
instance_policy (some none) interval = record { mode = drift_mode_detect; interval = interval }
instance_policy none interval = record { mode = drift_mode_detect; interval = interval }

-- getEffectiveDriftPolicy, with the text of the default interval
unfoldable pub get_effective_drift_policy :
    Option DriftPolicy → Option (Option DriftPolicy) → Text → DriftPolicy
get_effective_drift_policy (some p) owner interval = p
get_effective_drift_policy none owner interval = instance_policy owner interval

-- GetDriftPolicy of the three wrappers of an instance, for a wrapper around nil and one around an
-- instance
abbrev pub wrapped_policy : Option (Option DriftPolicy) → Option DriftPolicy
wrapped_policy none = none
wrapped_policy (some p) = p

-- hasDestructiveDriftAnnotation
unfoldable pub has_destructive_drift_annotation : Labels → Bool
has_destructive_drift_annotation m = str_eq (read m annotation_allow_destructive_drift) "true"

-- ParseDriftRequeueInterval, with time.ParseDuration as an argument
unfoldable pub parse_drift_requeue_interval : (Text → Option ℤ) → DriftPolicy → ℤ → ℤ
parse_drift_requeue_interval parse_duration p default_interval =
    if same_text p.mode drift_mode_ignore || is_empty p.interval
    then default_interval
    else value_of (parse_duration p.interval) default_interval
  where
    value_of : Option ℤ → ℤ → ℤ
    value_of none d = d
    value_of (some n) d = n

-- GetRequeueInterval, with what time.Duration's `String` gives for the default
unfoldable pub get_requeue_interval :
    (Text → Option ℤ) → (ℤ → Text) → ℤ → Resource → Option (Option DriftPolicy) → ℤ
get_requeue_interval parse_duration print_duration default_interval r owner =
    parse_drift_requeue_interval parse_duration
      (get_effective_drift_policy r.drift_policy owner (print_duration default_interval))
      default_interval

abbrev pub diff_fields : List Diff → List Text
diff_fields ds = map (λ (d : Diff). d.field) ds

-- the status that says that there is no drift any more
abbrev pub cleared_status : DriftResult → DriftStatus
cleared_status r = record { detected = false; last_checked = r.checked_at; diffs = [] }

module _ {S : Type 0} where
  -- the end of correctDrift, on what the correction answered
  abbrev pub note_corrections : DriftResult → Run S → S → CorrectionResult → Run S
  note_corrections drift run s c =
      if has_corrections c
      then record {
        state = s;
        status = some (cleared_status drift);
        events =
            run.events
            ++ (drift_corrected (map (λ (d : CorrectedDiff). d.diff.field) c.corrected) ∷ []);
        corrections = run.corrections;
      }
      else record {
        state = s;
        status = run.status;
        events = run.events;
        corrections = run.corrections;
      }

  abbrev pub after_correction :
      DriftResult → Run S → S × Result GoError (Option CorrectionResult) → Run S
  after_correction drift run (s, err e) = record {
    state = s;
    status = run.status;
    events = run.events ++ (drift_correction_failed e ∷ []);
    corrections = run.corrections;
  }
  after_correction drift run (s, ok none) = record {
    state = s;
    status = run.status;
    events = run.events;
    corrections = run.corrections;
  }
  after_correction drift run (s, ok (some c)) = note_corrections drift run s c

  -- correctDrift, on what the second detection answered
  abbrev pub correct_again :
      Detector S → DriftResult → Bool → Run S → S × Result GoError (Option DriftResult) → Run S
  correct_again detector drift allow run (s, err e) = record {
    state = s;
    status = run.status;
    events = run.events;
    corrections = run.corrections;
  }
  correct_again detector drift allow run (s, ok none) = record {
    state = s;
    status = run.status;
    events = run.events;
    corrections = run.corrections;
  }
  correct_again detector drift allow run (s, ok (some again)) =
      if has_drift again
      then after_correction drift
          (record {
            state = s;
            status = run.status;
            events = run.events;
            corrections =
                run.corrections ++ (record { result = again; allow_destructive = allow } ∷ []);
          })
          (detector.correct_drift again allow s)
      else record {
        state = s;
        status = run.status;
        events = run.events;
        corrections = run.corrections;
      }

  -- correctDrift
  unfoldable pub correct_drift : Detector S → DriftResult → Bool → Run S → Run S
  correct_drift detector drift allow run =
      correct_again detector drift allow run (detector.detect_drift allow run.state)

  -- PerformDriftDetection, on what the detection answered
  abbrev pub after_detection :
      Detector S
      → Text
      → Bool
      → Option DriftStatus
      → S × Result GoError (Option DriftResult)
      → Run S
  after_detection detector mode allow status (s, err e) = record {
    state = s;
    status = status;
    events = [];
    corrections = [];
  }
  after_detection detector mode allow status (s, ok none) = record {
    state = s;
    status = status;
    events = [];
    corrections = [];
  }
  after_detection detector mode allow status (s, ok (some drift)) =
      if has_drift drift
      then (let run : Run S = record {
        state = s;
        status = some (to_api_status drift);
        events = drift_detected (diff_fields drift.diffs) ∷ [];
        corrections = [];
      } in
          if same_text mode drift_mode_correct then correct_drift detector drift allow run else run)
      else record { state = s; status = some (to_api_status drift); events = []; corrections = [] }

  -- PerformDriftDetection
  unfoldable pub perform_drift_detection :
      Detector S → Text → Resource → Option (Option DriftPolicy) → S → Run S
  perform_drift_detection detector interval r owner s =
      let policy = get_effective_drift_policy r.drift_policy owner interval in
      let allow = has_destructive_drift_annotation r.annotations in
      if same_text policy.mode drift_mode_ignore
      then record { state = s; status = r.drift_status; events = []; corrections = [] }
      else after_detection detector policy.mode allow r.drift_status (detector.detect_drift allow s)
