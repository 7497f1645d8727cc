-- ===== src/Schedule/Handler.antt =====
-- internal/features/backupschedule/handler.go. Logging, metrics and the event bus are left out.
use db_provision_operator.Base.{
  ℕ, List, [], ◌∷◌, ◌++◌, Bool, true, false, not, ◌&&◌, ◌||◌, Option, none, some, String, Text,
  codes, Result, ok, err, ltb, leb, if◌then◌else◌, str_eq, length, drop, some_of,
}
use db_provision_operator.Base.Int.{decimal}
use db_provision_operator.Errors.{GoError, wrapped}
use db_provision_operator.Schedule.{
  Backup, BackupSchedule, ConcurrencyPolicy, RetentionPolicy, ScheduleStatus, World,
  for_concurrency, for_evaluation, for_retention, phase_running, policy_allow, policy_forbid,
  policy_other, policy_replace,
}
use db_provision_operator.Schedule.Repository.{
  create_backup_from_template, delete_backups, filter_backups_by_phase,
  get_completed_backups_sorted_by_time, list_backups_for_schedule,
}

pub record TriggerResult : Type 0 where
  pub triggered : Bool
  pub triggered_name : String
  pub trigger_message : Text

pub record ScheduleEvaluation : Type 0 where
  pub backup_due : Bool
  pub next_time : ℕ
  pub last_backup_time : Option ℕ
  pub running_backups : ℕ

pub record RetentionResult : Type 0 where
  pub deleted_count : ℕ
  pub deleted_names : List String
  pub retention_message : Text

pub record ConcurrencyResult : Type 0 where
  pub should_proceed : Bool
  pub cancelled_count : ℕ
  pub cancelled_names : List String
  pub concurrency_message : Text

-- TriggerBackup
unfoldable pub trigger_backup : World → BackupSchedule → Result GoError TriggerResult
unfolding create_backup_from_template
trigger_backup w s = elim (create_backup_from_template w s) [
  | err e ↦ err e
  | ok b ↦ ok (record {
    triggered = true;
    triggered_name = b.name;
    trigger_message = codes "Backup triggered successfully";
  })
]

-- getTimezone
unfoldable pub get_timezone : World → String → Result GoError String
get_timezone w tz =
    if str_eq tz "" || str_eq tz "UTC"
    then ok "UTC"
    else elim (w.load_location tz) [ none ↦ ok tz | some e ↦ err e ]

-- the `StartedAt` of the last backup in the status
unfoldable pub last_started : ScheduleStatus → Option ℕ
last_started st = elim st.last_backup [ none ↦ none | some info ↦ info.backup_started_at ]

-- whether a backup is due, by the time of the last one
unfoldable pub is_due : World → String → String → Option ℕ → Bool
is_due w cron tz none = false
is_due w cron tz (some t) = leb (w.next_run cron tz t) w.now

-- the evaluation, once the backups are listed
unfoldable pub evaluate_listed :
    World
    → BackupSchedule
    → String
    → Result GoError (List Backup)
    → Result GoError ScheduleEvaluation
unfolding last_started is_due filter_backups_by_phase
evaluate_listed w s tz (err e) = err (wrapped (codes "list backups: ") e)
evaluate_listed w s tz (ok bs) = ok (record {
  backup_due = is_due w s.spec.schedule tz (last_started s.status);
  next_time = w.next_run s.spec.schedule tz w.now;
  last_backup_time = last_started s.status;
  running_backups = length (filter_backups_by_phase bs phase_running);
})

-- the evaluation, once the cron expression is parsed
unfoldable pub evaluate_parsed :
    World → BackupSchedule → String → Option GoError → Result GoError ScheduleEvaluation
unfolding evaluate_listed list_backups_for_schedule
evaluate_parsed w s tz (some e) = err (wrapped (codes "invalid cron schedule: ") e)
evaluate_parsed w s tz none = evaluate_listed w s tz (list_backups_for_schedule w for_evaluation)

-- the evaluation, once the time zone is found
unfoldable pub evaluate_located :
    World → BackupSchedule → Result GoError String → Result GoError ScheduleEvaluation
unfolding evaluate_parsed
evaluate_located w s (err e) = err (wrapped (codes "invalid timezone: ") e)
evaluate_located w s (ok tz) = evaluate_parsed w s tz (w.parse_cron s.spec.schedule)

-- EvaluateSchedule
unfoldable pub evaluate_schedule : World → BackupSchedule → Result GoError ScheduleEvaluation
unfolding get_timezone evaluate_located
evaluate_schedule w s = evaluate_located w s (get_timezone w s.spec.timezone)

-- the excess over KeepLast
unfoldable pub keep_last_marks : ℕ → List Backup → List Backup
keep_last_marks n completed = if ltb 0 n && ltb n (length completed) then drop n completed else []

unfoldable pub is_marked : String → List Backup → Bool
is_marked name marks = some_of (λ d. str_eq d.name name) marks

-- the loop of KeepDaily over the completed backups
unfoldable pub keep_daily_marks : ℕ → List Backup → List Backup → List Backup
unfolding is_marked
keep_daily_marks cutoff marks [] = marks
keep_daily_marks cutoff marks (b ∷ bs) =
    keep_daily_marks cutoff
      (if ltb b.creation_timestamp cutoff && not (is_marked b.name marks)
        then marks ++ (b ∷ [])
        else marks)
      bs

-- the backups that EnforceRetention marks for deletion
unfoldable pub retention_marks : World → RetentionPolicy → List Backup → List Backup
unfolding keep_last_marks keep_daily_marks get_completed_backups_sorted_by_time
retention_marks w r bs =
    let completed = get_completed_backups_sorted_by_time w bs in
    let excess = keep_last_marks r.keep_last completed in
    if ltb 0 r.keep_daily
    then keep_daily_marks (w.days_ago r.keep_daily) excess completed
    else excess

-- EnforceRetention
unfoldable pub enforce_retention : World → BackupSchedule → Result GoError RetentionResult
unfolding retention_marks delete_backups list_backups_for_schedule
enforce_retention w s = elim s.spec.retention [
  | none ↦ ok (record {
    deleted_count = 0;
    deleted_names = [];
    retention_message = codes "No retention policy configured";
  })
  | some r ↦ elim (list_backups_for_schedule w for_retention) [
    | err e ↦ err (wrapped (codes "list backups: ") e)
    | ok bs ↦
        let names = delete_backups w (retention_marks w r bs) in
        ok (record {
          deleted_count = length names;
          deleted_names = names;
          retention_message =
              codes "Deleted "
              ++ (decimal (length names) ++ codes " backups due to retention policy");
        })
  ]
]

abbrev pub proceed : Text → ConcurrencyResult
proceed message = record {
  should_proceed = true;
  cancelled_count = 0;
  cancelled_names = [];
  concurrency_message = message;
}

-- what the policy says of running backups
unfoldable pub apply_policy : World → ConcurrencyPolicy → Backup → List Backup → ConcurrencyResult
unfolding delete_backups
apply_policy w policy_forbid b running = record {
  should_proceed = false;
  cancelled_count = 0;
  cancelled_names = [];
  concurrency_message =
      codes "Backup " ++ (codes b.name ++ codes " is still running (Forbid policy)");
}
apply_policy w policy_replace b running = record {
  should_proceed = true;
  cancelled_count = length (delete_backups w running);
  cancelled_names = delete_backups w running;
  concurrency_message =
      codes "Cancelled "
      ++ (decimal (length (delete_backups w running)) ++ codes " running backups (Replace policy)");
}
apply_policy w policy_allow b running = proceed (codes "Allowing concurrent backup (Allow policy)")
apply_policy w policy_other b running = proceed (codes "Allowing concurrent backup (Allow policy)")

unfoldable pub judge_running : World → ConcurrencyPolicy → List Backup → ConcurrencyResult
unfolding apply_policy
judge_running w policy [] = proceed (codes "No running backups")
judge_running w policy (b ∷ bs) = apply_policy w policy b (b ∷ bs)

unfoldable pub judge_listed :
    World → ConcurrencyPolicy → Result GoError (List Backup) → Result GoError ConcurrencyResult
unfolding judge_running filter_backups_by_phase
judge_listed w policy (err e) = err (wrapped (codes "list backups: ") e)
judge_listed w policy (ok bs) =
    ok (judge_running w policy (filter_backups_by_phase bs phase_running))

-- HandleConcurrency
unfoldable pub handle_concurrency : World → BackupSchedule → Result GoError ConcurrencyResult
unfolding judge_listed list_backups_for_schedule
handle_concurrency w s =
    judge_listed w s.spec.concurrency_policy (list_backups_for_schedule w for_concurrency)
