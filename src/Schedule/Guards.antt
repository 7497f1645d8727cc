-- ===== src/Schedule/Guards.antt =====
-- controller.go and repository.go: what stops a backup, and which backups are those of a schedule.
use db_provision_operator.Base.{
  List, [], false, ok, true, ◌<◌, ◌∷◌, ◌≡◌, ◌≢◌, ap, arith, ltb, refl, some, str_eq_refl, ◌∙◌,
  eq_iff, str_eq,
}
use db_provision_operator.Schedule.{
  Backup, BackupSchedule, World, for_concurrency, phase_running, policy_forbid, ScheduleStatus,
  ConcurrencyPolicy,
}
use db_provision_operator.Schedule.Repository.{
  backup_from_template, filter_backups_by_phase, is_selected, list_backups_for_schedule,
  schedule_label, scheduled_backup_label,
}
use db_provision_operator.Schedule.Handler.{
  ScheduleEvaluation, apply_policy, handle_concurrency, judge_running, ConcurrencyResult,
  judge_listed,
}
use db_provision_operator.Schedule.Outcome.{requeue_after_error, status_call, with_status}
use db_provision_operator.Schedule.Controller.{after_concurrency, after_evaluation}
use db_provision_operator.Annotations.{Labels, get_label, set_label}
use db_provision_operator.Annotations.Maps.{get_label-set_label, get_label-set_label_other}

handle_concurrency-forbid :
    (w : World) (s : BackupSchedule) (b : Backup) (bs rest : List Backup)
    → s.spec.concurrency_policy ≡ policy_forbid
    → list_backups_for_schedule w for_concurrency ≡ ok bs
    → filter_backups_by_phase bs phase_running ≡ b ∷ rest
    → (r : ConcurrencyResult) × (handle_concurrency w s ≡ ok r) × (r.should_proceed ≡ false)
unfolding handle_concurrency judge_listed judge_running apply_policy
handle_concurrency-forbid w s b bs rest forbid listed running =
    let policy : ConcurrencyPolicy = s.spec.concurrency_policy in
    (
      apply_policy w policy_forbid b (b ∷ rest),
      ap (judge_listed w policy) listed
          ∙ ap (λ l. ok (judge_running w policy l)) running
          ∙ ap (λ p. ok (judge_running w p (b ∷ rest))) forbid,
      refl,
    )

-- When the evaluation finds a backup due and others running, the policy is Forbid and the listing
-- behind it finds a running backup too, nothing is created or deleted, only the status is written,
-- and the schedule comes back after 30 seconds.
pub after_evaluation-forbid :
    (w : World) (s : BackupSchedule) (evaluation : ScheduleEvaluation) (b : Backup)
    (bs rest : List Backup)
    → s.spec.concurrency_policy ≡ policy_forbid
    → evaluation.backup_due ≡ true
    → 0 < evaluation.running_backups
    → list_backups_for_schedule w for_concurrency ≡ ok bs
    → filter_backups_by_phase bs phase_running ≡ b ∷ rest
    → ((after_evaluation w s (ok evaluation)).actions
        ≡ status_call (after_evaluation w s (ok evaluation)).left ∷ [])
      × ((after_evaluation w s (ok evaluation)).requeue_after ≡ requeue_after_error)
unfolding after_evaluation after_concurrency
after_evaluation-forbid w s evaluation b bs rest forbid due busy listed running =
    let st : ScheduleStatus = record s.status { next_backup_time = some evaluation.next_time } in
    let (r, e, stay) =
      handle_concurrency-forbid w (with_status s st) b bs rest forbid listed running in
    let early : ltb 0 evaluation.running_backups ≡ true = ground arith in
    rw (due, early, e, stay) (refl, refl)

labels-differ : scheduled_backup_label ≢ schedule_label
labels-differ h =
    let t : str_eq scheduled_backup_label schedule_label ≡ true =
      (eq_iff scheduled_backup_label schedule_label).1 h in
    cc

-- The listing of a schedule finds the backups that are made from its template, whatever labels the
-- template brings.
pub is_selected-backup_from_template :
    (w : World) (s : BackupSchedule) → is_selected s (backup_from_template w s) ≡ true
unfolding is_selected backup_from_template
is_selected-backup_from_template w s =
    let own : Labels = set_label s.spec.template_labels schedule_label s.schedule_name in
    let found : get_label (set_label own scheduled_backup_label "true") schedule_label
        ≡ some s.schedule_name =
      get_label-set_label_other own scheduled_backup_label schedule_label "true" labels-differ
      ∙ get_label-set_label s.spec.template_labels schedule_label s.schedule_name in
    simp (found, str_eq_refl s.schedule_namespace, str_eq_refl s.schedule_name) refl
