-- ===== src/Schedule/Status.antt =====
-- internal/features/backupschedule/handler.go: what the handler writes into a schedule's status.
use db_provision_operator.Base.{
  ℕ, List, [], ◌∷◌, ◌+◌, Option, none, some, codes, Result, ok, err, ltb, ◌==◌, if◌then◌else◌, ◌&&◌,
  ◌||◌,
}
use db_provision_operator.Base.Int.{ℤ, pos, ◌+ℤ◌, quotient, minus_nat, wrap_int64}
use db_provision_operator.Errors.{GoError, wrapped}
use db_provision_operator.Schedule.{
  Backup, BackupSchedule, BackupStatistics, RecentBackupInfo, ScheduledBackupInfo, World,
  for_statistics, phase_completed, phase_failed, phase_pending, phase_running, phase_text,
  same_phase,
}
use db_provision_operator.Schedule.Repository.{
  get_backups_sorted_by_time, get_latest_backup, list_backups_for_schedule,
}

-- the counters and sums of UpdateStatistics
pub record Tally : Type 0 where
  pub successes : ℕ
  pub failures : ℕ
  pub total_duration : ℤ
  pub total_size : ℤ

abbrev pub second : ℕ
second = 1000000000

-- `CompletedAt.Sub(StartedAt)` in whole seconds, 0 unless both are set
unfoldable pub duration_seconds : Backup → ℤ
duration_seconds b = elim b.started_at [
  | none ↦ pos 0
  | some s ↦ elim b.completed_at [ none ↦ pos 0 | some c ↦ quotient (minus_nat c s) second ]
]

unfoldable pub size_of : Backup → ℤ
size_of b = elim b.size_bytes [ none ↦ pos 0 | some n ↦ pos n ]

-- the body of the loop
unfoldable pub tally_backup : Tally → Backup → Tally
unfolding duration_seconds size_of
tally_backup t b =
    if same_phase b.phase phase_completed
    then record {
      successes = t.successes + 1;
      failures = t.failures;
      total_duration = wrap_int64 (t.total_duration +ℤ duration_seconds b);
      total_size = wrap_int64 (t.total_size +ℤ size_of b);
    }
    else if same_phase b.phase phase_failed
    then record {
      successes = t.successes;
      failures = t.failures + 1;
      total_duration = t.total_duration;
      total_size = t.total_size;
    }
    else t

unfoldable pub tally_backups : Tally → List Backup → Tally
unfolding tally_backup
tally_backups t [] = t
tally_backups t (b ∷ bs) = tally_backups (tally_backup t b) bs

abbrev pub no_tally : Tally
no_tally = record { successes = 0; failures = 0; total_duration = pos 0; total_size = pos 0 }

unfoldable pub average : ℤ → ℕ → ℤ
average total n = if ltb 0 n then quotient total n else pos 0

-- the statistics of some backups
unfoldable pub statistics_of : List Backup → BackupStatistics
unfolding tally_backups average
statistics_of bs =
    let t : Tally = tally_backups no_tally bs in
    record {
      total_backups = t.successes + t.failures;
      successful_backups = t.successes;
      failed_backups = t.failures;
      average_duration_seconds = average t.total_duration t.successes;
      average_size_bytes = average t.total_size t.successes;
      total_storage_bytes = t.total_size;
    }

-- UpdateStatistics
unfoldable pub update_statistics : World → BackupSchedule → Result GoError BackupStatistics
unfolding statistics_of list_backups_for_schedule
update_statistics w s = elim (list_backups_for_schedule w for_statistics) [
  | err e ↦ err (wrapped (codes "list backups: ") e)
  | ok bs ↦ ok (statistics_of bs)
]

abbrev pub default_limit : ℕ → ℕ → ℕ
default_limit limit default = if limit == 0 then default else limit

abbrev pub info_of : Backup → RecentBackupInfo
info_of b = record { recent_name = b.name; recent_status = phase_text b.phase }

-- the loop of GetRecentBackupsList, with the two counts so far
unfoldable pub recent_from : ℕ → ℕ → ℕ → ℕ → List Backup → List RecentBackupInfo
recent_from success_limit failed_limit successes failures [] = []
recent_from success_limit failed_limit successes failures (b ∷ bs) =
    let success = same_phase b.phase phase_completed && ltb successes success_limit in
    let failure = same_phase b.phase phase_failed && ltb failures failed_limit in
    let rest =
      recent_from success_limit failed_limit (if success then successes + 1 else successes)
        (if failure then failures + 1 else failures) bs in
    if success || failure || same_phase b.phase phase_running || same_phase b.phase phase_pending
    then info_of b ∷ rest
    else rest

-- GetRecentBackupsList
unfoldable pub get_recent_backups_list :
    World → BackupSchedule → List Backup → List RecentBackupInfo
unfolding recent_from get_backups_sorted_by_time
get_recent_backups_list w s bs =
    recent_from (default_limit s.spec.successful_backups_history_limit 5)
      (default_limit s.spec.failed_backups_history_limit 3) 0 0 (get_backups_sorted_by_time w bs)

abbrev pub set_last : Option ScheduledBackupInfo → Backup → Option ScheduledBackupInfo
set_last none latest = none
set_last (some info) latest = some (record {
  backup_name = info.backup_name;
  backup_status = phase_text latest.phase;
  backup_started_at = info.backup_started_at;
  backup_completed_at = elim latest.completed_at [
    | none ↦ info.backup_completed_at
    | some t ↦ some t
  ];
})

-- UpdateLastBackupStatus, on the status' LastBackup
unfoldable pub update_last_backup_status :
    Option ScheduledBackupInfo → List Backup → Option ScheduledBackupInfo
unfolding get_latest_backup
update_last_backup_status info bs = elim (get_latest_backup bs) [
  | none ↦ info
  | some latest ↦ set_last info latest
]
