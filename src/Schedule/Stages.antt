-- ===== src/Schedule/Stages.antt =====
-- controller.go: what holds of every call that a stage of a reconcile makes.
use db_provision_operator.Base.{
  All, All-append, Bool-cases, List, Option-cases, Text, [], codes, inl, inr, ℕ, ◌∷◌, Result, err,
  ok, String, ltb, some, Bool, false, if◌then◌else◌, none, true, Option,
}
use db_provision_operator.Schedule.{BackupSchedule, ScheduleStatus, World, for_status, Backup}
use db_provision_operator.Errors.{GoError, nil_error}
use db_provision_operator.Schedule.Repository.{backup_from_template, list_backups_for_schedule}
use db_provision_operator.Schedule.Handler.{
  handle_concurrency, trigger_backup, ConcurrencyResult, ScheduleEvaluation, TriggerResult,
  evaluate_schedule,
}
use db_provision_operator.Schedule.Outcome.{
  Action, create_call, handle_error, status_call, with_status, Outcome, done, update_call,
}
use db_provision_operator.Schedule.Controller.{
  concurrency_calls, finish, handle_paused, note_trigger, refresh_calls, retention_calls,
  trigger_and_finish, after_concurrency, after_evaluation, after_trigger, calls_after, reconcile,
  handle_deletion, after_update, block_deletion, reconcile_schedule, with_finalizer,
  without_finalizer, add_finalizer_and_reconcile, is_protected, lacks_finalizer, release,
}
use db_provision_operator.Annotations.{should_skip_reconcile}

module _ (P : Action → Type 0) (w : World)
    (of_status : (s : BackupSchedule) → P (status_call s)) where
  handle_error-All :
      (s : BackupSchedule) (e : GoError) (operation : Text) (calls : List Action)
      → All P calls
      → All P (handle_error w s e operation calls).actions
  unfolding handle_error
  handle_error-All s e operation calls h = All-append P calls _ h (of_status _, tt)

  finish-All :
      (s : BackupSchedule) (next : ℕ) (calls : List Action)
      → All P calls
      → All P (refresh_calls w s)
      → All P (finish w s next calls).actions
  unfolding finish
  finish-All s next calls h k = elim (Option-cases w.update_status) [
    | inl e ↦ rw e (All-append P calls _ h (All-append P (refresh_calls w s) _ k (of_status _, tt)))
    | inr (x, e) ↦
        rw e (All-append P calls _ h (All-append P (refresh_calls w s) _ k (of_status _, tt)))
  ]

  pub calls_after-All :
      (calls : List Backup → List Action) (r : Result GoError (List Backup))
      → ((bs : List Backup) → All P (calls bs))
      → All P (calls_after calls r)
  calls_after-All calls (ok bs) h = h bs
  calls_after-All calls (err e) h = tt

  refresh_calls-All : (s : BackupSchedule) → All P (retention_calls w s) → All P (refresh_calls w s)
  unfolding refresh_calls
  refresh_calls-All s h =
      calls_after-All (λ bs. retention_calls w s) (list_backups_for_schedule w for_status) (λ bs. h)

  retention_calls-status :
      (s : BackupSchedule) (st : ScheduleStatus)
      → All P (retention_calls w s)
      → All P (retention_calls w (with_status s st))
  unfolding retention_calls
  retention_calls-status s st h = h

  retention_calls-note :
      (s : BackupSchedule) (name : String)
      → All P (retention_calls w s)
      → All P (retention_calls w (note_trigger w s name))
  unfolding retention_calls note_trigger
  retention_calls-note s name h = h

  concurrency_calls-status :
      (s : BackupSchedule) (st : ScheduleStatus)
      → All P (concurrency_calls w s)
      → All P (concurrency_calls w (with_status s st))
  unfolding concurrency_calls
  concurrency_calls-status s st h = h

  backup_from_template-status :
      (s : BackupSchedule) (st : ScheduleStatus)
      → P (create_call (backup_from_template w s))
      → P (create_call (backup_from_template w (with_status s st)))
  unfolding backup_from_template
  backup_from_template-status s st h = h

  after_trigger-All :
      (s : BackupSchedule) (next : ℕ) (calls : List Action) (r : Result GoError TriggerResult)
      → All P calls
      → All P (retention_calls w s)
      → All P (after_trigger w s next calls r).actions
  unfolding after_trigger
  after_trigger-All s next calls (ok result) h r =
      let s' : BackupSchedule = note_trigger w s result.triggered_name in
      finish-All s' next calls h
        (refresh_calls-All s' (retention_calls-note s result.triggered_name r))
  after_trigger-All s next calls (err e) h r = handle_error-All s e (codes "trigger backup") calls h

  trigger_and_finish-All :
      (s : BackupSchedule) (next : ℕ) (calls : List Action)
      → All P calls
      → P (create_call (backup_from_template w s))
      → All P (retention_calls w s)
      → All P (trigger_and_finish w s next calls).actions
  unfolding trigger_and_finish
  trigger_and_finish-All s next calls h c r =
      after_trigger-All s next _ (trigger_backup w s)
        (All-append P calls (create_call (backup_from_template w s) ∷ []) h (c, tt)) r

  after_concurrency-All :
      (s : BackupSchedule) (next : ℕ) (r : Result GoError ConcurrencyResult)
      → P (create_call (backup_from_template w s))
      → All P (retention_calls w s)
      → All P (concurrency_calls w s)
      → All P (after_concurrency w s next r).actions
  unfolding after_concurrency
  after_concurrency-All s next (err e) c r k =
      handle_error-All s e (codes "handle concurrency") [] tt
  after_concurrency-All s next (ok result) c r k = elim (Bool-cases result.should_proceed) [
    | inl go ↦ rw go (trigger_and_finish-All s next (concurrency_calls w s) k c r)
    | inr stay ↦ rw stay (of_status _, tt)
  ]

  after_evaluation-All :
      (s : BackupSchedule) (r : Result GoError ScheduleEvaluation)
      → P (create_call (backup_from_template w s))
      → All P (retention_calls w s)
      → All P (concurrency_calls w s)
      → All P (after_evaluation w s r).actions
  unfolding after_evaluation
  after_evaluation-All s (err e) c r k = handle_error-All s e (codes "evaluate schedule") [] tt
  after_evaluation-All s (ok evaluation) c r k =
      let st : ScheduleStatus = record s.status { next_backup_time = some evaluation.next_time } in
      let c' = backup_from_template-status s st c in
      let r' = retention_calls-status s st r in
      let k' = concurrency_calls-status s st k in
      elim (Bool-cases evaluation.backup_due) [
        | inr early ↦ rw early (
            finish-All (with_status s st) evaluation.next_time [] tt
              (refresh_calls-All (with_status s st) r'))
        | inl due ↦ elim (Bool-cases (ltb 0 evaluation.running_backups)) [
          | inl busy ↦
              rw (due, busy)
                (after_concurrency-All (with_status s st) evaluation.next_time
                  (handle_concurrency w (with_status s st)) c' r' k')
          | inr idle ↦
              rw (due, idle)
                (trigger_and_finish-All (with_status s st) evaluation.next_time [] tt c' r')
        ]
      ]

  handle_paused-All : (s : BackupSchedule) → All P (handle_paused w s).actions
  unfolding handle_paused
  handle_paused-All s = elim (Option-cases w.update_status) [
    | inl e ↦ rw e (of_status _, tt)
    | inr (x, e) ↦ rw e (of_status _, tt)
  ]

  pub either-All :
      (b : Bool) (x y : Outcome)
      → All P x.actions
      → All P y.actions
      → All P (if b then x else y).actions
  either-All true x y h k = h
  either-All false x y h k = k

  pub reconcile-All :
      (s : BackupSchedule)
      → P (create_call (backup_from_template w s))
      → All P (retention_calls w s)
      → All P (concurrency_calls w s)
      → All P (reconcile w s).actions
  unfolding reconcile
  reconcile-All s c r k =
      either-All s.spec.paused (handle_paused w s) (after_evaluation w s (evaluate_schedule w s))
        (handle_paused-All s) (after_evaluation-All s (evaluate_schedule w s) c r k)

module _ (P : Action → Type 0) (w : World) (of_status : (s : BackupSchedule) → P (status_call s))
    (of_update : (s : BackupSchedule) → P (update_call s)) where
  after_update-All :
      (s : BackupSchedule) (o : Option GoError) (next : Outcome)
      → All P next.actions
      → All P (after_update s o next).actions
  unfolding after_update
  after_update-All s (some e) next h = (of_update s, tt)
  after_update-All s none next h = (of_update s, h)

  block_deletion-All : (s : BackupSchedule) → All P (block_deletion w s).actions
  unfolding block_deletion
  block_deletion-All s = (of_status _, tt)

  release-All : (s : BackupSchedule) → All P (release w s).actions
  unfolding release
  release-All s =
      after_update-All (without_finalizer w s) w.update
        (done (without_finalizer w s) 0 nil_error []) tt

  pub handle_deletion-All : (s : BackupSchedule) → All P (handle_deletion w s).actions
  unfolding handle_deletion
  handle_deletion-All s =
      either-All P w of_status (lacks_finalizer w s) (done s 0 nil_error [])
        (if is_protected s then block_deletion w s else release w s) tt
        (either-All P w of_status (is_protected s) (block_deletion w s) (release w s)
          (block_deletion-All s) (release-All s))

  retention_calls-finalizer :
      (s : BackupSchedule)
      → All P (retention_calls w s)
      → All P (retention_calls w (with_finalizer w s))
  unfolding retention_calls
  retention_calls-finalizer s h = h

  concurrency_calls-finalizer :
      (s : BackupSchedule)
      → All P (concurrency_calls w s)
      → All P (concurrency_calls w (with_finalizer w s))
  unfolding concurrency_calls
  concurrency_calls-finalizer s h = h

  backup_from_template-finalizer :
      (s : BackupSchedule)
      → P (create_call (backup_from_template w s))
      → P (create_call (backup_from_template w (with_finalizer w s)))
  unfolding backup_from_template
  backup_from_template-finalizer s h = h

  add_finalizer-All :
      (s : BackupSchedule)
      → P (create_call (backup_from_template w s))
      → All P (retention_calls w s)
      → All P (concurrency_calls w s)
      → All P (add_finalizer_and_reconcile w s).actions
  unfolding add_finalizer_and_reconcile
  add_finalizer-All s c r k =
      let s' : BackupSchedule = with_finalizer w s in
      either-All P w of_status (lacks_finalizer w s) (after_update s' w.update (reconcile w s'))
        (reconcile w s)
        (after_update-All s' w.update (reconcile w s') (
          reconcile-All P w of_status s' (backup_from_template-finalizer s c)
            (retention_calls-finalizer s r) (concurrency_calls-finalizer s k)))
        (reconcile-All P w of_status s c r k)

  pub reconcile_schedule-All :
      (s : BackupSchedule)
      → P (create_call (backup_from_template w s))
      → All P (retention_calls w s)
      → All P (concurrency_calls w s)
      → All P (reconcile_schedule w s).actions
  unfolding reconcile_schedule
  reconcile_schedule-All s c r k =
      either-All P w of_status (should_skip_reconcile s.schedule_annotations)
        (done s 0 nil_error [])
        (if s.is_deleting then handle_deletion w s else add_finalizer_and_reconcile w s) tt
        (either-All P w of_status s.is_deleting (handle_deletion w s)
          (add_finalizer_and_reconcile w s) (handle_deletion-All s) (add_finalizer-All s c r k))
