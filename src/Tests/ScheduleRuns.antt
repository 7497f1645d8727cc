-- ===== src/Tests/ScheduleRuns.antt =====
-- Runs of the backup schedules.
use db_provision_operator.Base.{
  All, Bool, List, String, [], arith, count_if, false, filter, length, none, not, ok, refl, some,
  some_of, str_eq, true, ℕ, ◌&&◌, ◌*◌, ◌+◌, ◌-◌, ◌∷◌, ◌≡◌, ◌≤◌, ◌||◌, inl, inr, ◌++◌,
}
use db_provision_operator.Schedule.{
  Backup, BackupSchedule, Phase, RetentionPolicy, ScheduleSpec, ScheduleStatus, World, deleted,
  for_concurrency, phase_active, phase_completed, phase_failed, phase_running, policy_forbid,
  same_phase,
}
use db_provision_operator.Schedule.Repository.{filter_backups_by_phase, list_backups_for_schedule}
use db_provision_operator.Schedule.Handler.{
  ScheduleEvaluation, evaluate_located, evaluate_schedule, get_timezone, retention_marks,
}
use db_provision_operator.Schedule.Status.{second}
use db_provision_operator.Schedule.Outcome.{
  finalizer_database_backup_schedule, max_requeue_after, requeue_after_error, status_call, Action,
}
use db_provision_operator.Schedule.Controller.{after_evaluation, reconcile_schedule}
use db_provision_operator.Schedule.Sorting.{sort_by_time, sort_by_time-SortsNewestFirst}
use db_provision_operator.Schedule.Retention.{
  All-retention_marks, Justified, length-retention_marks, retention_marks-count_if,
  retention_marks-keep_daily,
}
use db_provision_operator.Schedule.KeepDaily.{is_missed}
use db_provision_operator.Schedule.Reconciled.{MayCall, reconcile_schedule-MayCall}
use db_provision_operator.Schedule.Requeue.{reconcile_schedule-requeue}
use db_provision_operator.Schedule.First.{Reconciles-creates, reconciled, start}
use db_provision_operator.Schedule.Guards.{after_evaluation-forbid}
use db_provision_operator.Schedule.Created.{creates, reconcile_schedule-creates}

abbrev backup_at : String → ℕ → Phase → Backup
backup_at name time phase = record {
  name = name;
  namespace = "prod";
  labels = [];
  annotations = [];
  owners = [];
  database_ref = "shop";
  creation_timestamp = time;
  phase = phase;
  started_at = some time;
  completed_at = some (time + 60 * second);
  size_bytes = some 100;
}

abbrev nightly : List Backup
nightly =
    backup_at "a" 10 phase_completed
    ∷ backup_at "b" 30 phase_completed
    ∷ backup_at "c" 20 phase_completed
    ∷ backup_at "d" 40 phase_running
    ∷ backup_at "e" 5 phase_failed
    ∷ []

abbrev has_finalizer : List String → String → Bool
has_finalizer fs f = some_of (λ g. str_eq g f) fs

abbrev drop_finalizer : List String → String → List String
drop_finalizer fs f = filter (λ g. not (str_eq g f)) fs

abbrev cluster : World
cluster = record {
  now = 100;
  time_stamp = "20260101-000000";
  load_location = λ tz. none;
  parse_cron = λ cron. none;
  next_run = λ cron tz t. t + 24;
  days_ago = λ days. 15;
  list_backups = λ at. ok nightly;
  create_backup = λ b. none;
  delete_backup = λ b. deleted;
  update = none;
  update_status = none;
  later = 101;
  contains_finalizer = has_finalizer;
  add_finalizer = λ fs f. f ∷ fs;
  remove_finalizer = drop_finalizer;
  sort_newest = sort_by_time;
}

abbrev keep_two : RetentionPolicy
keep_two = record { keep_last = 2; keep_daily = 0 }

abbrev keep_both : RetentionPolicy
keep_both = record { keep_last = 2; keep_daily = 7 }

abbrev plan : ScheduleSpec
plan = record {
  schedule = "0 0 * * *";
  timezone = "UTC";
  paused = false;
  concurrency_policy = policy_forbid;
  template_labels = [];
  template_annotations = [];
  template_database_ref = "shop";
  retention = some keep_both;
  successful_backups_history_limit = 1;
  failed_backups_history_limit = 0;
  deletion_protection = true;
}

abbrev unseen : ScheduleStatus
unseen = record {
  status_phase = phase_active;
  last_backup = none;
  next_backup_time = none;
  statistics = none;
  recent_backups = [];
  conditions = [];
}

abbrev shop_schedule : BackupSchedule
shop_schedule = record {
  schedule_name = "shop";
  schedule_namespace = "prod";
  api_version = "dbops.dbprovision.io/v1alpha1";
  kind = "DatabaseBackupSchedule";
  uid = "1";
  is_deleting = false;
  finalizers = finalizer_database_backup_schedule ∷ [];
  schedule_annotations = [];
  spec = plan;
  status = unseen;
}

All-retention_marks_example :
    All (Justified cluster keep_both nightly) (retention_marks cluster keep_both nightly)
All-retention_marks_example =
    All-retention_marks cluster keep_both nightly sort_by_time-SortsNewestFirst

retention_marks-count_if_example :
    count_if (λ b. str_eq b.name "c") (retention_marks cluster keep_both nightly)
    ≤ count_if (λ b. same_phase b.phase phase_completed && str_eq b.name "c") nightly
retention_marks-count_if_example =
    retention_marks-count_if cluster keep_both nightly (λ b. str_eq b.name "c")
      sort_by_time-SortsNewestFirst

length-retention_marks_example :
    length (retention_marks cluster keep_two nightly)
    ≡ count_if (λ b. same_phase b.phase phase_completed) nightly - keep_two.keep_last
length-retention_marks_example =
    length-retention_marks cluster keep_two nightly sort_by_time-SortsNewestFirst (omega arith) refl

retention_marks-keep_daily_example :
    count_if
      (λ b.
        same_phase b.phase phase_completed
        && is_missed (cluster.days_ago 7) (retention_marks cluster keep_both nightly) b)
      nightly
    ≡ 0
retention_marks-keep_daily_example =
    retention_marks-keep_daily cluster keep_both nightly sort_by_time-SortsNewestFirst (omega arith)

reconcile_schedule-MayCall_example :
    All (MayCall cluster shop_schedule) (reconcile_schedule cluster shop_schedule).actions
reconcile_schedule-MayCall_example =
    reconcile_schedule-MayCall cluster shop_schedule sort_by_time-SortsNewestFirst

abbrev due_now : ScheduleEvaluation
due_now = record {
  backup_due = true;
  next_time = 124;
  last_backup_time = some 1;
  running_backups = 1;
}

nightly-listed : list_backups_for_schedule cluster for_concurrency ≡ ok nightly
unfolding list_backups_for_schedule
nightly-listed = refl

nightly-running :
    filter_backups_by_phase nightly phase_running ≡ backup_at "d" 40 phase_running ∷ []
unfolding filter_backups_by_phase
nightly-running = refl

after_evaluation-forbid_example :
    ((after_evaluation cluster shop_schedule (ok due_now)).actions
      ≡ status_call (after_evaluation cluster shop_schedule (ok due_now)).left ∷ [])
    × ((after_evaluation cluster shop_schedule (ok due_now)).requeue_after ≡ requeue_after_error)
after_evaluation-forbid_example =
    after_evaluation-forbid cluster shop_schedule due_now (backup_at "d" 40 phase_running) nightly
      [] refl refl (omega arith) nightly-listed nightly-running

abbrev oldest : Backup
oldest = backup_at "a" 10 phase_completed

abbrev newer : List Backup
newer = backup_at "b" 30 phase_completed ∷ backup_at "c" 20 phase_completed ∷ []

reconcile_schedule-requeue_example :
    (reconcile_schedule cluster shop_schedule).requeue_after ≤ max_requeue_after
reconcile_schedule-requeue_example = reconcile_schedule-requeue cluster shop_schedule

abbrev never_due : ScheduleEvaluation
never_due = record {
  backup_due = false;
  next_time = 124;
  last_backup_time = none;
  running_backups = 1;
}

shop-evaluates : evaluate_schedule cluster shop_schedule ≡ ok never_due
unfolding evaluate_schedule get_timezone evaluate_located
shop-evaluates = refl

abbrev next_year : World
next_year = record cluster { now = 40000000 * second; later = 40000000 * second }

-- Two reconciles of the schedule, the second a long time after the first.
abbrev two_reconciles : List Action
two_reconciles =
    (reconcile_schedule cluster shop_schedule).actions
    ++ ((reconcile_schedule next_year (reconcile_schedule cluster shop_schedule).left).actions
        ++ [])

Reconciles-creates_example :
    (creates two_reconciles ≡ 0)
    × ((reconcile_schedule cluster shop_schedule).left.status.last_backup ≡ none)
Reconciles-creates_example =
    Reconciles-creates {s = shop_schedule} {u = (reconcile_schedule cluster shop_schedule).left}
      {calls = two_reconciles}
      (reconciled {t = (reconcile_schedule cluster shop_schedule).left} cluster (inr refl)
        (reconciled next_year (inl refl) start))
      refl

reconcile_schedule-creates_example :
    (creates (reconcile_schedule cluster shop_schedule).actions ≤ 1)
    × ((shop_schedule.is_deleting || shop_schedule.spec.paused) ≡ true
        → creates (reconcile_schedule cluster shop_schedule).actions ≡ 0)
reconcile_schedule-creates_example = reconcile_schedule-creates cluster shop_schedule
