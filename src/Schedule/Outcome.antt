-- ===== src/Schedule/Outcome.antt =====
-- internal/features/backupschedule/controller.go: what a reconcile returns, its intervals, and the path
-- of an error.
use db_provision_operator.Base.{
  List, String, Text, [], codes, if◌then◌else◌, ltb, ℕ, ◌*◌, ◌++◌, ◌-◌, ◌∷◌,
}
use db_provision_operator.Conditions.{condition_false, set_ready_condition}
use db_provision_operator.Schedule.{
  Backup, BackupSchedule, Phase, ScheduleStatus, World, phase_active,
}
use db_provision_operator.Errors.{GoError, error_text}

abbrev pub second : ℕ
second = 1000000000

abbrev pub requeue_after_error : ℕ
requeue_after_error = 30 * second

abbrev pub max_requeue_after : ℕ
max_requeue_after = 3600 * second

abbrev pub min_requeue_after : ℕ
min_requeue_after = 10 * second

abbrev pub finalizer_database_backup_schedule : String
finalizer_database_backup_schedule = "dbops.dbprovision.io/schedule-protection"

pub data Action : Type 0 where
  create_call : Backup → Action
  delete_call : Backup → Action
  update_call : BackupSchedule → Action
  status_call : BackupSchedule → Action

-- `left` is the schedule as the code holds it at the end, also where an update of it was refused;
-- `requeue_after` is in nanoseconds, and 0 where the result asks for no requeue.
pub record Outcome : Type 0 where
  pub left : BackupSchedule
  pub requeue_after : ℕ
  pub error : GoError
  pub actions : List Action

abbrev pub done : BackupSchedule → ℕ → GoError → List Action → Outcome
done s requeue e actions = record {
  left = s;
  requeue_after = requeue;
  error = e;
  actions = actions;
}

abbrev pub with_status : BackupSchedule → ScheduleStatus → BackupSchedule
with_status s st = record s { status = st }

-- the phase and the Ready condition, which every path sets together
unfoldable pub set_phase_ready :
    World → BackupSchedule → Phase → String → String → Text → BackupSchedule
set_phase_ready w s p status reason message = with_status s (record s.status {
  status_phase = p;
  conditions = set_ready_condition w.now s.status.conditions status reason message;
})

-- handleError
unfoldable pub handle_error : World → BackupSchedule → GoError → Text → List Action → Outcome
unfolding set_phase_ready
handle_error w s e operation actions =
    let s' =
      set_phase_ready w s phase_active condition_false "Error"
        (codes "Failed to " ++ (operation ++ (codes ": " ++ error_text e))) in
    done s' requeue_after_error e (actions ++ (status_call s' ∷ []))

-- the requeue time of a reconcile that went through
unfoldable pub requeue_until : ℕ → ℕ → ℕ
requeue_until later next =
    if ltb next later
    then min_requeue_after
    else if ltb max_requeue_after (next - later)
    then max_requeue_after
    else next - later
