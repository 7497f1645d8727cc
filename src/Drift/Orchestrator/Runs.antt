-- ===== src/Drift/Orchestrator/Runs.antt =====
-- internal/controller/drift/orchestrator.go: when a run corrects, and what it says of the drift.
use mathlib.Core.Path.{subst}
use db_provision_operator.Base.{
  sym, All, Bool, Bool-cases, List, Option, Result, Text, [], arith, err, inl, inr, length, none,
  ok, refl, some, true, ◌≡◌, ◌≤◌, same_text, same_text-eq, ◌++◌, ◌∷◌, ◌⊎◌, map, same_text_refl, ◌≢◌,
  false, if◌then◌else◌, is_empty, not,
}
use db_provision_operator.Errors.{GoError}
use db_provision_operator.Drift.{
  CorrectionResult, DriftResult, has_corrections, has_drift, DriftStatus, to_api_status,
  CorrectedDiff,
}
use db_provision_operator.Drift.Orchestrator.{
  CorrectionCall, Detector, Run, after_correction, correct_again, drift_mode_correct,
  after_detection, cleared_status, correct_drift, diff_fields, drift_corrected, drift_detected,
  DriftPolicy, Resource, drift_mode_ignore, get_effective_drift_policy,
  has_destructive_drift_annotation, perform_drift_detection, drift_correction_failed,
}

-- what a call that a run makes for a correction must have
abbrev pub MayCorrect : Text → Bool → CorrectionCall → Type 0
MayCorrect mode allow call =
    (mode ≡ drift_mode_correct)
    × ((has_drift call.result ≡ true) × (call.allow_destructive ≡ allow))

abbrev pub AtMostOne : Text → Bool → List CorrectionCall → Type 0
AtMostOne mode allow calls = (length calls ≤ 1) × All (MayCorrect mode allow) calls

module _ {S : Type 0} (detector : Detector S) (mode : Text) (allow : Bool) where
  after_correction_calls :
      (drift : DriftResult) (run : Run S) (y : S × Result GoError (Option CorrectionResult))
      → (after_correction drift run y).corrections ≡ run.corrections
  after_correction_calls drift run (s, err e) = refl
  after_correction_calls drift run (s, ok none) = refl
  after_correction_calls drift run (s, ok (some c)) = elim (Bool-cases (has_corrections c)) [
    | inl h ↦ rw h refl
    | inr h ↦ rw h refl
  ]

  correct_again_calls :
      (drift : DriftResult) (run : Run S) (y : S × Result GoError (Option DriftResult))
      → mode ≡ drift_mode_correct
      → run.corrections ≡ []
      → AtMostOne mode allow ((correct_again detector drift allow run y).corrections)
  correct_again_calls drift run (s, err e) m h = rw h (ground arith, tt)
  correct_again_calls drift run (s, ok none) m h = rw h (ground arith, tt)
  correct_again_calls drift run (s, ok (some again)) m h = elim (Bool-cases (has_drift again)) [
    | inl k ↦
        let asked : Run S = record {
          state = s;
          status = run.status;
          events = run.events;
          corrections =
              run.corrections ++ (record { result = again; allow_destructive = allow } ∷ []);
        } in
        rw k (
          rw (after_correction_calls drift asked (detector.correct_drift again allow s))
            (rw h (ground arith, ((m, (k, refl)), tt))))
    | inr k ↦ rw k (rw h (ground arith, tt))
  ]

  after_detection_calls :
      (status : Option DriftStatus) (y : S × Result GoError (Option DriftResult))
      → AtMostOne mode allow ((after_detection detector mode allow status y).corrections)
  unfolding correct_drift
  after_detection_calls status (s, err e) = (ground arith, tt)
  after_detection_calls status (s, ok none) = (ground arith, tt)
  after_detection_calls status (s, ok (some drift)) = elim (Bool-cases (has_drift drift)) [
    | inl k ↦ elim (Bool-cases (same_text mode drift_mode_correct)) [
      | inl m ↦
          let run : Run S = record {
            state = s;
            status = some (to_api_status drift);
            events = drift_detected (diff_fields drift.diffs) ∷ [];
            corrections = [];
          } in
          rw k (
            rw m (
              correct_again_calls drift run (detector.detect_drift allow s)
                (same_text-eq mode drift_mode_correct m) refl))
      | inr m ↦ rw k (rw m (ground arith, tt))
    ]
    | inr k ↦ rw k (ground arith, tt)
  ]

  abbrev pub Answer : Type 0
  Answer = S × Result GoError (Option CorrectionResult)

  -- A detection with nothing to correct: an error, no result, or a result without drift.
  abbrev pub HasNothing : Result GoError (Option DriftResult) → Type 0
  HasNothing (err e) = Unit {0}
  HasNothing (ok none) = Unit {0}
  HasNothing (ok (some again)) = has_drift again ≡ false

  -- A run that has ended without asking for a correction, and why.
  abbrev pub Stands : DriftResult → S → Run S → Type 0
  Stands drift s run =
      ((mode ≢ drift_mode_correct)
        ⊎ ((has_drift drift ≡ false) ⊎ HasNothing ((detector.detect_drift allow s).1)))
      × (run.corrections ≡ [])
      × (run.status ≡ some (to_api_status drift))
      × (run.events
          ≡ (if has_drift drift then drift_detected (diff_fields drift.diffs) ∷ [] else []))

  -- What a run says once a correction has answered: where that has corrected something, that the
  -- drift is gone, and which fields it has corrected; where not, still what was found.
  abbrev pub Tells : DriftResult → Run S → Answer → Type 0
  Tells drift run (t, err e) =
      (run.status ≡ some (to_api_status drift))
      × (run.events ≡ drift_detected (diff_fields drift.diffs) ∷ drift_correction_failed e ∷ [])
  Tells drift run (t, ok none) =
      (run.status ≡ some (to_api_status drift))
      × (run.events ≡ drift_detected (diff_fields drift.diffs) ∷ [])
  Tells drift run (t, ok (some c)) =
      ((c.corrected ≡ [])
        × ((run.status ≡ some (to_api_status drift))
            × (run.events ≡ drift_detected (diff_fields drift.diffs) ∷ [])))
      ⊎ ((c.corrected ≢ [])
          × ((run.status ≡ some (cleared_status drift))
              × (run.events
                  ≡ drift_detected (diff_fields drift.diffs)
                    ∷ drift_corrected (map (λ (d : CorrectedDiff). d.diff.field) c.corrected)
                    ∷ [])))

  -- A run that has asked for the correction of what a second detection found.
  abbrev pub Asks : DriftResult → S → Run S → Type 0
  Asks drift s run =
      (again : DriftResult) × (u : S) × (detector.detect_drift allow s ≡ (u, ok (some again)))
      × (run.corrections ≡ record { result = again; allow_destructive = allow } ∷ [])
      × (run.state ≡ (detector.correct_drift again allow u).0)
      × Tells drift run (detector.correct_drift again allow u)

  abbrev pub Says : DriftResult → S → Run S → Type 0
  Says drift s run = Stands drift s run ⊎ Asks drift s run

  has_corrections-cases :
      (c : CorrectionResult)
      → ((has_corrections c ≡ false) × (c.corrected ≡ []))
        ⊎ ((has_corrections c ≡ true) × (c.corrected ≢ []))
  unfolding has_corrections
  has_corrections-cases c = by_list c.corrected
    where
      by_list :
          (ds : List CorrectedDiff)
          → ((not (is_empty ds) ≡ false) × (ds ≡ [])) ⊎ ((not (is_empty ds) ≡ true) × (ds ≢ []))
      by_list [] = inl (refl, refl)
      by_list (d ∷ ds) = inr (refl, λ e. cc)

  abbrev found_run : DriftResult → S → Run S
  found_run drift s = record {
    state = s;
    status = some (to_api_status drift);
    events = drift_detected (diff_fields drift.diffs) ∷ [];
    corrections = [];
  }

  abbrev asked_run : DriftResult → S → DriftResult → Run S
  asked_run drift u again = record {
    state = u;
    status = some (to_api_status drift);
    events = drift_detected (diff_fields drift.diffs) ∷ [];
    corrections = record { result = again; allow_destructive = allow } ∷ [];
  }

  after_correction-Tells :
      (drift again : DriftResult) (u : S) (y : Answer)
      → ((after_correction drift (asked_run drift u again) y).state ≡ y.0)
        × Tells drift (after_correction drift (asked_run drift u again) y) y
  after_correction-Tells drift again u (s, err e) = (refl, (refl, refl))
  after_correction-Tells drift again u (s, ok none) = (refl, (refl, refl))
  after_correction-Tells drift again u (s, ok (some c)) = elim (has_corrections-cases c) [
    | inl (b, e) ↦ rw b (refl, inl (e, (refl, refl)))
    | inr (b, e) ↦ rw b (refl, inr (e, (refl, refl)))
  ]

  correct_again-Says :
      (drift : DriftResult) (s : S) (y : S × Result GoError (Option DriftResult))
      → has_drift drift ≡ true
      → detector.detect_drift allow s ≡ y
      → Says drift s (correct_again detector drift allow (found_run drift s) y)
  correct_again-Says drift s (u, err e) h k =
      inl (inr (inr (subst (λ y. HasNothing (y.1)) (sym k) tt)), refl, refl, rw h refl)
  correct_again-Says drift s (u, ok none) h k =
      inl (inr (inr (subst (λ y. HasNothing (y.1)) (sym k) tt)), refl, refl, rw h refl)
  correct_again-Says drift s (u, ok (some again)) h k = elim (Bool-cases (has_drift again)) [
    | inl b ↦
        let y = detector.correct_drift again allow u in
        let (left, tells) = after_correction-Tells drift again u y in
        rw b
          (inr (again, u, k, after_correction_calls drift (asked_run drift u again) y, left, tells))
    | inr b ↦
        let nothing : HasNothing ((detector.detect_drift allow s).1) =
          subst (λ y. HasNothing (y.1)) (sym k) b in
        rw b (inl (inr (inr nothing), refl, refl, rw h refl))
  ]

  -- PerformDriftDetection, once drift is found and once none is
  detection_found :
      (status : Option DriftStatus) (s : S) (drift : DriftResult)
      → has_drift drift ≡ true
      → after_detection detector mode allow status (s, ok (some drift)) ≡ (
          if same_text mode drift_mode_correct
          then correct_again detector drift allow
              (found_run drift s)
              (detector.detect_drift allow s)
          else found_run drift s)
  unfolding correct_drift
  detection_found status s drift k = rw k refl

  choice-Says :
      (drift : DriftResult) (s : S) (b : Bool) (x y : Run S)
      → Says drift s x
      → (b ≡ false → Says drift s y)
      → Says drift s (if b then x else y)
  choice-Says drift s true x y h k = h
  choice-Says drift s false x y h k = k refl

  after_detection-Says :
      (status : Option DriftStatus) (s : S) (drift : DriftResult)
      → Says drift s (after_detection detector mode allow status (s, ok (some drift)))
  after_detection-Says status s drift = elim (Bool-cases (has_drift drift)) [
    | inl k ↦ subst (Says drift s) (sym (detection_found status s drift k)) (
        choice-Says drift s (same_text mode drift_mode_correct)
          (correct_again detector drift allow (found_run drift s) (detector.detect_drift allow s))
          (found_run drift s) (correct_again-Says drift s (detector.detect_drift allow s) k refl)
          (λ m. inl (
            inl (λ e. absurd (ground (arith, same_text_refl drift_mode_correct))),
            refl,
            refl,
            rw k refl,
          )))
    | inr k ↦ rw k (inl (inr (inl refl), refl, refl, refl))
  ]

module _ {S : Type 0} (detector : Detector S) (interval : Text) (r : Resource)
    (owner : Option (Option DriftPolicy)) (s : S) where
  abbrev mode_of : Text
  mode_of = (get_effective_drift_policy r.drift_policy owner interval).mode

  abbrev allow_of : Bool
  allow_of = has_destructive_drift_annotation r.annotations

  -- A run asks for at most one correction, and only where the effective policy says so; of a result
  -- that has drift; and with the permission for destructive corrections that the resource's
  -- annotation gives. In the mode `ignore` it does nothing at all.
  pub perform_drift_detection-corrections :
      AtMostOne mode_of allow_of ((perform_drift_detection detector interval r owner s).corrections)
      × (mode_of ≡ drift_mode_ignore
          → perform_drift_detection detector interval r owner s
            ≡ record { state = s; status = r.drift_status; events = []; corrections = [] })
  unfolding perform_drift_detection
  perform_drift_detection-corrections = elim (Bool-cases (same_text mode_of drift_mode_ignore)) [
    | inl k ↦ rw k ((ground arith, tt), λ m. refl)
    | inr k ↦ rw k (
      after_detection_calls detector mode_of allow_of r.drift_status
          (detector.detect_drift allow_of s),
      λ m. absurd (ground (arith, same_text_refl drift_mode_ignore)),
    )
  ]

  -- When the detection of a run answers with a result: either the run asks for no correction, since
  -- the mode is another one, or there is no drift, or a second detection has an error, no result or
  -- no drift; then its status says what was found, and its one event, where that is drift, names the
  -- fields. Or it asks for the correction of what a second detection found, and leaves the state that
  -- this has left. Then the status says that the drift is gone exactly where the correction has
  -- corrected something, with an event of just the fields that it has corrected behind the one of the
  -- fields that were found; where it has not, the status says what was found, and the only further
  -- event is the correction's error, if it has one.
  pub perform_drift_detection-status :
      (t : S) (drift : DriftResult)
      → mode_of ≢ drift_mode_ignore
      → detector.detect_drift allow_of s ≡ (t, ok (some drift))
      → Says detector mode_of allow_of drift t (perform_drift_detection detector interval r owner s)
  unfolding perform_drift_detection
  perform_drift_detection-status t drift ne e =
      elim (Bool-cases (same_text mode_of drift_mode_ignore)) [
        | inl k ↦ absurd (ne (same_text-eq mode_of drift_mode_ignore k))
        | inr k ↦
            rw k (rw e (after_detection-Says detector mode_of allow_of r.drift_status t drift))
      ]
