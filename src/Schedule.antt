-- ===== src/Schedule.antt =====
-- internal/features/backupschedule with the types of api/v1alpha1/databasebackupschedule_types.go:
-- the resources, and what the component asks of the outside. A time is a number of nanoseconds, a
-- map an association list of text.
pub mod Repository
pub mod Handler
pub mod Status
pub mod Outcome
pub mod Controller
pub mod Sorting
pub mod Passes
pub mod KeepDaily
pub mod Retention
pub mod History
pub mod Statistics
pub mod Stages
pub mod Reconciled
pub mod Requeue
pub mod Created
pub mod First
pub mod Guards
use db_provision_operator.Base.{
  ℕ, List, [], ◌∷◌, Bool, true, false, Option, none, some, String, Text, codes, Result, ◌==◌,
}
use db_provision_operator.Base.Int.{ℤ}
use db_provision_operator.Errors.{GoError}
use db_provision_operator.Conditions.{Condition}
use db_provision_operator.Annotations.{Labels}

-- Phase, which a resource that no controller has seen yet does not have
pub data Phase : Type 0 where
  phase_unset phase_pending phase_creating phase_ready phase_failed phase_deleting : Phase
  phase_pending_deletion phase_running phase_completed phase_paused phase_active : Phase

abbrev pub phase_text : Phase → String
phase_text phase_unset = ""
phase_text phase_pending = "Pending"
phase_text phase_creating = "Creating"
phase_text phase_ready = "Ready"
phase_text phase_failed = "Failed"
phase_text phase_deleting = "Deleting"
phase_text phase_pending_deletion = "PendingDeletion"
phase_text phase_running = "Running"
phase_text phase_completed = "Completed"
phase_text phase_paused = "Paused"
phase_text phase_active = "Active"

abbrev pub phase_number : Phase → ℕ
phase_number phase_unset = 0
phase_number phase_pending = 1
phase_number phase_creating = 2
phase_number phase_ready = 3
phase_number phase_failed = 4
phase_number phase_deleting = 5
phase_number phase_pending_deletion = 6
phase_number phase_running = 7
phase_number phase_completed = 8
phase_number phase_paused = 9
phase_number phase_active = 10

-- Go's `==` on two phases.
abbrev pub same_phase : Phase → Phase → Bool
same_phase p q = phase_number p == phase_number q

-- metav1.OwnerReference
pub record OwnerReference : Type 0 where
  pub owner_api_version : String
  pub owner_kind : String
  pub owner_name : String
  pub owner_uid : String
  pub is_controller : Bool
  pub blocks_owner_deletion : Bool

-- DatabaseBackup, as far as the schedules read and write it
pub record Backup : Type 0 where
  pub name : String
  pub namespace : String
  pub labels : Labels
  pub annotations : Labels
  pub owners : List OwnerReference
  pub database_ref : String
  pub creation_timestamp : ℕ
  pub phase : Phase
  pub started_at : Option ℕ
  pub completed_at : Option ℕ
  pub size_bytes : Option ℕ

pub data ConcurrencyPolicy : Type 0 where
  policy_allow policy_forbid policy_replace policy_other : ConcurrencyPolicy

-- RetentionPolicy, of which the handler reads two fields
pub record RetentionPolicy : Type 0 where
  pub keep_last : ℕ
  pub keep_daily : ℕ

-- DatabaseBackupScheduleSpec
pub record ScheduleSpec : Type 0 where
  pub schedule : String
  pub timezone : String
  pub paused : Bool
  pub concurrency_policy : ConcurrencyPolicy
  pub template_labels : Labels
  pub template_annotations : Labels
  pub template_database_ref : String
  pub retention : Option RetentionPolicy
  pub successful_backups_history_limit : ℕ
  pub failed_backups_history_limit : ℕ
  pub deletion_protection : Bool

pub record ScheduledBackupInfo : Type 0 where
  pub backup_name : String
  pub backup_status : String
  pub backup_started_at : Option ℕ
  pub backup_completed_at : Option ℕ

pub record BackupStatistics : Type 0 where
  pub total_backups : ℕ
  pub successful_backups : ℕ
  pub failed_backups : ℕ
  pub average_duration_seconds : ℤ
  pub average_size_bytes : ℤ
  pub total_storage_bytes : ℤ

pub record RecentBackupInfo : Type 0 where
  pub recent_name : String
  pub recent_status : String

-- DatabaseBackupScheduleStatus
pub record ScheduleStatus : Type 0 where
  pub status_phase : Phase
  pub last_backup : Option ScheduledBackupInfo
  pub next_backup_time : Option ℕ
  pub statistics : Option BackupStatistics
  pub recent_backups : List RecentBackupInfo
  pub conditions : List Condition

-- DatabaseBackupSchedule
pub record BackupSchedule : Type 0 where
  pub schedule_name : String
  pub schedule_namespace : String
  pub api_version : String
  pub kind : String
  pub uid : String
  pub is_deleting : Bool
  pub finalizers : List String
  pub schedule_annotations : Labels
  pub spec : ScheduleSpec
  pub status : ScheduleStatus

-- The listings of one reconcile, which the API server answers one by one.
pub data Listing : Type 0 where
  for_evaluation for_concurrency for_status for_retention for_statistics : Listing

pub data DeleteOutcome : Type 0 where
  deleted not_found : DeleteOutcome
  not_deleted : GoError → DeleteOutcome

-- What one reconcile finds outside: the clock (`later` when it ends) and its readings, the cron
-- parser and the time zones, the answers of the API server (`none` is no error), the finalizer
-- functions of controller-runtime, and `sort.Slice` by newest first.
pub record World : Type 0 where
  pub now : ℕ
  pub time_stamp : String
  pub load_location : String → Option GoError
  pub parse_cron : String → Option GoError
  pub next_run : String → String → ℕ → ℕ
  pub days_ago : ℕ → ℕ
  pub list_backups : Listing → Result GoError (List Backup)
  pub create_backup : Backup → Option GoError
  pub delete_backup : Backup → DeleteOutcome
  pub update : Option GoError
  pub update_status : Option GoError
  pub later : ℕ
  pub contains_finalizer : List String → String → Bool
  pub add_finalizer : List String → String → List String
  pub remove_finalizer : List String → String → List String
  pub sort_newest : List Backup → List Backup
