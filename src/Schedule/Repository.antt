-- ===== src/Schedule/Repository.antt =====
-- internal/features/backupschedule/repository.go.
use db_provision_operator.Base.{
  List, [], ◌∷◌, Bool, true, false, Option, none, some, String, codes, Result, ok, err, ltb,
  if◌then◌else◌, filter, str_eq, ◌++◌, ◌&&◌, append,
}
use db_provision_operator.Errors.{GoError, wrapped}
use db_provision_operator.Schedule.{
  Backup, BackupSchedule, Listing, Phase, World, deleted, not_deleted, not_found, phase_completed,
  phase_unset, same_phase,
}
use db_provision_operator.Annotations.{get_label, set_label}

abbrev pub schedule_label : String
schedule_label = "dbops.dbprovision.io/schedule"

abbrev pub scheduled_backup_label : String
scheduled_backup_label = "dbops.dbprovision.io/scheduled-backup"

-- The selector of ListBackupsForSchedule: the namespace and the label it asks for
unfoldable pub is_selected : BackupSchedule → Backup → Bool
unfolding get_label
is_selected s b =
    str_eq b.namespace s.schedule_namespace
    && elim (get_label b.labels schedule_label) [ none ↦ false | some v ↦ str_eq v s.schedule_name ]

-- ListBackupsForSchedule
unfoldable pub list_backups_for_schedule : World → Listing → Result GoError (List Backup)
list_backups_for_schedule w at = elim (w.list_backups at) [
  | ok bs ↦ ok bs
  | err e ↦ err (wrapped (codes "list backups: ") e)
]

-- FilterBackupsByPhase
unfoldable pub filter_backups_by_phase : List Backup → Phase → List Backup
filter_backups_by_phase bs p = filter (λ b. same_phase b.phase p) bs

-- The backup that CreateBackupFromTemplate makes
unfoldable pub backup_from_template : World → BackupSchedule → Backup
unfolding set_label
backup_from_template w s = record {
  name = append s.schedule_name (append "-" w.time_stamp);
  namespace = s.schedule_namespace;
  labels =
      set_label (set_label s.spec.template_labels schedule_label s.schedule_name)
        scheduled_backup_label "true";
  annotations = s.spec.template_annotations;
  owners =
      (record {
        owner_api_version = s.api_version;
        owner_kind = s.kind;
        owner_name = s.schedule_name;
        owner_uid = s.uid;
        is_controller = true;
        blocks_owner_deletion = true;
      })
      ∷ [];
  database_ref = s.spec.template_database_ref;
  creation_timestamp = w.now;
  phase = phase_unset;
  started_at = none;
  completed_at = none;
  size_bytes = none;
}

-- CreateBackupFromTemplate
unfoldable pub create_backup_from_template : World → BackupSchedule → Result GoError Backup
unfolding backup_from_template
create_backup_from_template w s = elim (w.create_backup (backup_from_template w s)) [
  | none ↦ ok (backup_from_template w s)
  | some e ↦ err (wrapped (codes "create backup: ") e)
]

-- DeleteBackup
unfoldable pub delete_backup : World → Backup → Option GoError
delete_backup w b = elim (w.delete_backup b) [
  | deleted ↦ none
  | not_found ↦ none
  | not_deleted e ↦ some (wrapped (codes "delete backup " ++ (codes b.name ++ codes ": ")) e)
]

-- DeleteBackups, whose error is nil on every path
unfoldable pub delete_backups : World → List Backup → List String
unfolding delete_backup
delete_backups w [] = []
delete_backups w (b ∷ bs) =
    let rest = delete_backups w bs in
    elim (delete_backup w b) [ some e ↦ rest | none ↦ b.name ∷ rest ]

-- GetCompletedBackupsSortedByTime
unfoldable pub get_completed_backups_sorted_by_time : World → List Backup → List Backup
unfolding filter_backups_by_phase
get_completed_backups_sorted_by_time w bs =
    w.sort_newest (filter_backups_by_phase bs phase_completed)

-- GetBackupsSortedByTime
unfoldable pub get_backups_sorted_by_time : World → List Backup → List Backup
get_backups_sorted_by_time w bs = w.sort_newest bs

-- The loop of GetLatestBackup, with the latest so far
unfoldable pub latest_from : Option Backup → List Backup → Option Backup
latest_from latest [] = latest
latest_from none (b ∷ bs) = latest_from (some b) bs
latest_from (some l) (b ∷ bs) =
    latest_from (some (if ltb l.creation_timestamp b.creation_timestamp then b else l)) bs

-- GetLatestBackup
unfoldable pub get_latest_backup : List Backup → Option Backup
unfolding latest_from
get_latest_backup bs = latest_from none bs
