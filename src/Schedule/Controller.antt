-- ===== src/Schedule/Controller.antt =====
-- internal/features/backupschedule/controller.go: one reconcile, as the schedule it leaves, what it
-- returns and the calls of the API server that change something, in order.
use db_provision_operator.Base.{
  err, ok, List, String, [], codes, if◌then◌else◌, ltb, map, none, not, some, ℕ, ◌&&◌, ◌++◌, ◌+◌,
  ◌∷◌, Result, Option, Bool,
}
use db_provision_operator.Base.Int.{pos}
use db_provision_operator.Annotations.{has_force_delete_annotation, should_skip_reconcile}
use db_provision_operator.Conditions.{condition_false, condition_true}
use db_provision_operator.Schedule.{
  Backup, BackupSchedule, World, for_concurrency, for_retention, for_status, phase_active,
  phase_failed, phase_paused, phase_pending, phase_running, phase_text, policy_replace,
  BackupStatistics, ConcurrencyPolicy, RetentionPolicy, policy_allow, policy_forbid, policy_other,
}
use db_provision_operator.Errors.{GoError, foreign, nil_error}
use db_provision_operator.Schedule.Repository.{
  backup_from_template, filter_backups_by_phase, list_backups_for_schedule,
}
use db_provision_operator.Schedule.Handler.{
  evaluate_schedule, handle_concurrency, retention_marks, trigger_backup, ConcurrencyResult,
  ScheduleEvaluation, TriggerResult,
}
use db_provision_operator.Schedule.Status.{
  get_recent_backups_list, update_last_backup_status, update_statistics,
}
use db_provision_operator.Schedule.Outcome.{
  Action, Outcome, create_call, delete_call, done, finalizer_database_backup_schedule, handle_error,
  requeue_after_error, requeue_until, set_phase_ready, status_call, update_call, with_status,
}

-- the calls that follow a listing, none where it fails
abbrev pub calls_after : (List Backup → List Action) → Result GoError (List Backup) → List Action
calls_after calls (err e) = []
calls_after calls (ok bs) = calls bs

-- the calls that a retention pass makes
unfoldable pub policy_calls : World → Option RetentionPolicy → List Action
unfolding retention_marks list_backups_for_schedule
policy_calls w none = []
policy_calls w (some r) =
    calls_after (λ bs. map delete_call (retention_marks w r bs))
      (list_backups_for_schedule w for_retention)

unfoldable pub retention_calls : World → BackupSchedule → List Action
unfolding policy_calls
retention_calls w s = policy_calls w s.spec.retention

-- the calls that the concurrency policy makes
unfoldable pub replace_calls : World → ConcurrencyPolicy → List Action
unfolding list_backups_for_schedule filter_backups_by_phase
replace_calls w policy_replace =
    calls_after (λ bs. map delete_call (filter_backups_by_phase bs phase_running))
      (list_backups_for_schedule w for_concurrency)
replace_calls w policy_allow = []
replace_calls w policy_forbid = []
replace_calls w policy_other = []

unfoldable pub concurrency_calls : World → BackupSchedule → List Action
unfolding replace_calls
concurrency_calls w s = replace_calls w s.spec.concurrency_policy

-- the status fields that are read off the backups
unfoldable pub refresh : World → BackupSchedule → BackupSchedule
unfolding get_recent_backups_list update_statistics update_last_backup_status
refresh w s = elim (list_backups_for_schedule w for_status) [
  | err e ↦ s
  | ok bs ↦ with_status s (record s.status {
    recent_backups = get_recent_backups_list w s bs;
    statistics = elim (update_statistics w s) [
      | err e ↦ s.status.statistics
      | ok stats ↦ some stats
    ];
    last_backup = update_last_backup_status s.status.last_backup bs;
  })
]

unfoldable pub refresh_calls : World → BackupSchedule → List Action
unfolding retention_calls list_backups_for_schedule
refresh_calls w s = calls_after (λ bs. retention_calls w s) (list_backups_for_schedule w for_status)

-- from the listing of the backups to the end
unfoldable pub finish : World → BackupSchedule → ℕ → List Action → Outcome
unfolding refresh refresh_calls set_phase_ready requeue_until
finish w s next actions =
    let s' =
      set_phase_ready w (refresh w s) phase_active condition_true "Active"
        (codes "Schedule is active") in
    let calls = actions ++ (refresh_calls w s ++ (status_call s' ∷ [])) in
    elim w.update_status [
      | some e ↦ done s' 0 e calls
      | none ↦ done s' (requeue_until w.later next) nil_error calls
    ]

-- the status of a schedule whose backup was triggered
unfoldable pub note_trigger : World → BackupSchedule → String → BackupSchedule
note_trigger w s name =
    let stats : BackupStatistics = elim s.status.statistics [
      | none ↦ record {
        total_backups = 0;
        successful_backups = 0;
        failed_backups = 0;
        average_duration_seconds = pos 0;
        average_size_bytes = pos 0;
        total_storage_bytes = pos 0;
      }
      | some stats ↦ stats
    ] in
    with_status s (record s.status {
      last_backup = some (record {
        backup_name = name;
        backup_status = phase_text phase_pending;
        backup_started_at = some w.now;
        backup_completed_at = none;
      });
      statistics = some (record stats { total_backups = stats.total_backups + 1 });
    })

-- what follows the trigger
unfoldable pub after_trigger :
    World → BackupSchedule → ℕ → List Action → Result GoError TriggerResult → Outcome
unfolding handle_error note_trigger finish
after_trigger w s next calls (err e) = handle_error w s e (codes "trigger backup") calls
after_trigger w s next calls (ok result) =
    finish w (note_trigger w s result.triggered_name) next calls

unfoldable pub trigger_and_finish : World → BackupSchedule → ℕ → List Action → Outcome
unfolding trigger_backup after_trigger
trigger_and_finish w s next calls =
    after_trigger w s next (calls ++ (create_call (backup_from_template w s) ∷ []))
      (trigger_backup w s)

-- what follows the concurrency policy
unfoldable pub after_concurrency :
    World → BackupSchedule → ℕ → Result GoError ConcurrencyResult → Outcome
unfolding handle_error trigger_and_finish concurrency_calls set_phase_ready
after_concurrency w s next (err e) = handle_error w s e (codes "handle concurrency") []
after_concurrency w s next (ok result) =
    if result.should_proceed
    then trigger_and_finish w s next (concurrency_calls w s)
    else (let s' =
          set_phase_ready w s phase_active condition_true "WaitingForCompletion"
            result.concurrency_message in
        done s' requeue_after_error nil_error (status_call s' ∷ []))

-- handlePaused
unfoldable pub handle_paused : World → BackupSchedule → Outcome
unfolding set_phase_ready
handle_paused w s =
    let s' =
      set_phase_ready w (with_status s (record s.status { next_backup_time = none })) phase_paused
        condition_true "Paused" (codes "Schedule is paused") in
    elim w.update_status [
      | some e ↦ done s' 0 e (status_call s' ∷ [])
      | none ↦ done s' 0 nil_error (status_call s' ∷ [])
    ]

-- what follows the evaluation of the schedule
unfoldable pub after_evaluation :
    World → BackupSchedule → Result GoError ScheduleEvaluation → Outcome
unfolding handle_error after_concurrency handle_concurrency trigger_and_finish finish
after_evaluation w s (err e) = handle_error w s e (codes "evaluate schedule") []
after_evaluation w s (ok evaluation) =
    let next = evaluation.next_time in
    let s' = with_status s (record s.status { next_backup_time = some next }) in
    if evaluation.backup_due
    then if ltb 0 evaluation.running_backups
      then after_concurrency w s' next (handle_concurrency w s')
      else trigger_and_finish w s' next []
    else finish w s' next []

-- reconcile
unfoldable pub reconcile : World → BackupSchedule → Outcome
unfolding handle_paused evaluate_schedule after_evaluation
reconcile w s =
    if s.spec.paused then handle_paused w s else after_evaluation w s (evaluate_schedule w s)

-- what follows an Update of the schedule
unfoldable pub after_update : BackupSchedule → Option GoError → Outcome → Outcome
after_update s (some e) next = done s 0 e (update_call s ∷ [])
after_update s none next =
    done next.left next.requeue_after next.error (update_call s ∷ next.actions)

abbrev pub without_finalizer : World → BackupSchedule → BackupSchedule
without_finalizer w s = record s {
  finalizers = w.remove_finalizer s.finalizers finalizer_database_backup_schedule;
}

abbrev pub with_finalizer : World → BackupSchedule → BackupSchedule
with_finalizer w s = record s {
  finalizers = w.add_finalizer s.finalizers finalizer_database_backup_schedule;
}

-- a deletion that is blocked by the schedule's protection
unfoldable pub block_deletion : World → BackupSchedule → Outcome
unfolding set_phase_ready
block_deletion w s =
    let s' =
      set_phase_ready w s phase_failed condition_false "DeletionProtected"
        (codes "Deletion protection is enabled") in
    done s' 0 (foreign (codes "deletion protection enabled")) (status_call s' ∷ [])

abbrev pub lacks_finalizer : World → BackupSchedule → Bool
lacks_finalizer w s = not (w.contains_finalizer s.finalizers finalizer_database_backup_schedule)

abbrev pub is_protected : BackupSchedule → Bool
is_protected s =
    s.spec.deletion_protection && not (has_force_delete_annotation s.schedule_annotations)

-- the end of a deletion: the finalizer is given up
unfoldable pub release : World → BackupSchedule → Outcome
unfolding after_update
release w s =
    after_update (without_finalizer w s) w.update (done (without_finalizer w s) 0 nil_error [])

-- handleDeletion
unfoldable pub handle_deletion : World → BackupSchedule → Outcome
unfolding block_deletion release
handle_deletion w s =
    if lacks_finalizer w s
    then done s 0 nil_error []
    else if is_protected s
    then block_deletion w s
    else release w s

-- a schedule that stays, which gets the finalizer first
unfoldable pub add_finalizer_and_reconcile : World → BackupSchedule → Outcome
unfolding reconcile after_update
add_finalizer_and_reconcile w s =
    if lacks_finalizer w s
    then after_update (with_finalizer w s) w.update (reconcile w (with_finalizer w s))
    else reconcile w s

-- Reconcile, from a schedule that was fetched
unfoldable pub reconcile_schedule : World → BackupSchedule → Outcome
unfolding handle_deletion add_finalizer_and_reconcile
reconcile_schedule w s =
    if should_skip_reconcile s.schedule_annotations
    then done s 0 nil_error []
    else if s.is_deleting
    then handle_deletion w s
    else add_finalizer_and_reconcile w s
