-- ===== src/Schedule/Requeue.antt =====
-- controller.go: when a schedule comes back, and what its deletion protection does.
use db_provision_operator.Base.{
  Bool, Bool-cases, List, Option, Option-cases, Result, [], arith, err, false, if◌then◌else◌, inl,
  inr, ltb, none, ok, some, true, ℕ, ◌≤◌,
}
use db_provision_operator.Annotations.{should_skip_reconcile}
use db_provision_operator.Schedule.{BackupSchedule, ScheduleStatus, World}
use db_provision_operator.Errors.{GoError, nil_error}
use db_provision_operator.Schedule.Handler.{
  ConcurrencyResult, ScheduleEvaluation, TriggerResult, evaluate_schedule, handle_concurrency,
  trigger_backup,
}
use db_provision_operator.Schedule.Outcome.{
  Action, Outcome, done, handle_error, max_requeue_after, requeue_until, with_status,
}
use db_provision_operator.Schedule.Controller.{
  add_finalizer_and_reconcile, after_concurrency, after_evaluation, after_trigger, after_update,
  block_deletion, concurrency_calls, finish, handle_deletion, handle_paused, is_protected,
  lacks_finalizer, note_trigger, reconcile, reconcile_schedule, release, trigger_and_finish,
  with_finalizer, without_finalizer,
}

requeue_until-bound : (later next : ℕ) → requeue_until later next ≤ max_requeue_after
unfolding requeue_until
requeue_until-bound later next = ground arith

finish-requeue :
    (w : World) (s : BackupSchedule) (next : ℕ) (calls : List Action)
    → (finish w s next calls).requeue_after ≤ max_requeue_after
unfolding finish
finish-requeue w s next calls = elim (Option-cases w.update_status) [
  | inl e ↦ rw e (requeue_until-bound w.later next)
  | inr (x, e) ↦ rw e (omega arith)
]

after_trigger-requeue :
    (w : World) (s : BackupSchedule) (next : ℕ) (calls : List Action)
    (r : Result GoError TriggerResult)
    → (after_trigger w s next calls r).requeue_after ≤ max_requeue_after
unfolding after_trigger handle_error
after_trigger-requeue w s next calls (err e) = omega arith
after_trigger-requeue w s next calls (ok result) =
    finish-requeue w (note_trigger w s result.triggered_name) next calls

trigger_and_finish-requeue :
    (w : World) (s : BackupSchedule) (next : ℕ) (calls : List Action)
    → (trigger_and_finish w s next calls).requeue_after ≤ max_requeue_after
unfolding trigger_and_finish
trigger_and_finish-requeue w s next calls = after_trigger-requeue w s next _ (trigger_backup w s)

either-requeue :
    (b : Bool) (x y : Outcome)
    → x.requeue_after ≤ max_requeue_after
    → y.requeue_after ≤ max_requeue_after
    → (if b then x else y).requeue_after ≤ max_requeue_after
either-requeue true x y h k = h
either-requeue false x y h k = k

after_concurrency-requeue :
    (w : World) (s : BackupSchedule) (next : ℕ) (r : Result GoError ConcurrencyResult)
    → (after_concurrency w s next r).requeue_after ≤ max_requeue_after
unfolding after_concurrency handle_error
after_concurrency-requeue w s next (err e) = omega arith
after_concurrency-requeue w s next (ok result) = elim (Bool-cases result.should_proceed) [
  | inl go ↦ rw go (trigger_and_finish-requeue w s next (concurrency_calls w s))
  | inr stay ↦ rw stay (omega arith)
]

after_evaluation-requeue :
    (w : World) (s : BackupSchedule) (r : Result GoError ScheduleEvaluation)
    → (after_evaluation w s r).requeue_after ≤ max_requeue_after
unfolding after_evaluation handle_error
after_evaluation-requeue w s (err e) = omega arith
after_evaluation-requeue w s (ok evaluation) =
    let st : ScheduleStatus = record s.status { next_backup_time = some evaluation.next_time } in
    elim (Bool-cases evaluation.backup_due) [
      | inr early ↦ rw early (finish-requeue w (with_status s st) evaluation.next_time [])
      | inl due ↦ elim (Bool-cases (ltb 0 evaluation.running_backups)) [
        | inl busy ↦
            rw (due, busy)
              (after_concurrency-requeue w (with_status s st) evaluation.next_time
                (handle_concurrency w (with_status s st)))
        | inr idle ↦
            rw (due, idle) (trigger_and_finish-requeue w (with_status s st) evaluation.next_time [])
      ]
    ]

handle_paused-requeue :
    (w : World) (s : BackupSchedule) → (handle_paused w s).requeue_after ≤ max_requeue_after
unfolding handle_paused
handle_paused-requeue w s = elim (Option-cases w.update_status) [
  | inl e ↦ rw e (omega arith)
  | inr (x, e) ↦ rw e (omega arith)
]

reconcile-requeue :
    (w : World) (s : BackupSchedule) → (reconcile w s).requeue_after ≤ max_requeue_after
unfolding reconcile
reconcile-requeue w s =
    either-requeue s.spec.paused (handle_paused w s) (after_evaluation w s (evaluate_schedule w s))
      (handle_paused-requeue w s) (after_evaluation-requeue w s (evaluate_schedule w s))

after_update-requeue :
    (s : BackupSchedule) (o : Option GoError) (next : Outcome)
    → next.requeue_after ≤ max_requeue_after
    → (after_update s o next).requeue_after ≤ max_requeue_after
unfolding after_update
after_update-requeue s (some e) next h = omega arith
after_update-requeue s none next h = h

handle_deletion-requeue :
    (w : World) (s : BackupSchedule) → (handle_deletion w s).requeue_after ≤ max_requeue_after
unfolding handle_deletion block_deletion release
handle_deletion-requeue w s =
    either-requeue (lacks_finalizer w s) (done s 0 nil_error [])
      (if is_protected s then block_deletion w s else release w s) (omega arith)
      (either-requeue (is_protected s) (block_deletion w s) (release w s) (omega arith) (
        after_update-requeue (without_finalizer w s) w.update
          (done (without_finalizer w s) 0 nil_error []) (omega arith)))

add_finalizer-requeue :
    (w : World) (s : BackupSchedule)
    → (add_finalizer_and_reconcile w s).requeue_after ≤ max_requeue_after
unfolding add_finalizer_and_reconcile
add_finalizer-requeue w s =
    let s' : BackupSchedule = with_finalizer w s in
    either-requeue (lacks_finalizer w s) (after_update s' w.update (reconcile w s')) (reconcile w s)
      (after_update-requeue s' w.update (reconcile w s') (reconcile-requeue w s'))
      (reconcile-requeue w s)

-- No reconcile of a schedule waits for more than an hour.
pub reconcile_schedule-requeue :
    (w : World) (s : BackupSchedule) → (reconcile_schedule w s).requeue_after ≤ max_requeue_after
unfolding reconcile_schedule
reconcile_schedule-requeue w s =
    either-requeue (should_skip_reconcile s.schedule_annotations) (done s 0 nil_error [])
      (if s.is_deleting then handle_deletion w s else add_finalizer_and_reconcile w s) (omega arith)
      (either-requeue s.is_deleting (handle_deletion w s) (add_finalizer_and_reconcile w s)
        (handle_deletion-requeue w s) (add_finalizer-requeue w s))
