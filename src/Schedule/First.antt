-- ===== src/Schedule/First.antt =====
-- controller.go: what becomes of a schedule that has never had a backup.
use db_provision_operator.Base.{
  Bool, List, Option, Option-cases, Result, String, [], err, false, if◌then◌else◌, inl, inr, none,
  ok, refl, some, true, ℕ, ◌++◌, ◌≡◌, ◌⊎◌, count_if-append, arith,
}
use db_provision_operator.Errors.{GoError, nil_error}
use db_provision_operator.Annotations.{should_skip_reconcile}
use db_provision_operator.Schedule.{
  Backup, BackupSchedule, ScheduleStatus, World, for_evaluation, for_status,
}
use db_provision_operator.Schedule.Repository.{get_latest_backup, list_backups_for_schedule}
use db_provision_operator.Schedule.Status.{update_last_backup_status}
use db_provision_operator.Schedule.Handler.{
  ScheduleEvaluation, evaluate_listed, evaluate_located, evaluate_parsed, evaluate_schedule,
  get_timezone, is_due, last_started,
}
use db_provision_operator.Schedule.Outcome.{
  Action, Outcome, done, handle_error, set_phase_ready, with_status,
}
use db_provision_operator.Schedule.Controller.{
  add_finalizer_and_reconcile, after_evaluation, after_update, block_deletion, finish,
  handle_deletion, handle_paused, is_protected, lacks_finalizer, reconcile, reconcile_schedule,
  refresh, release, with_finalizer, without_finalizer,
}
use db_provision_operator.Schedule.Created.{
  creates, creates-finish, is_create, creates-handle_paused,
}

abbrev IsNew : BackupSchedule → Type 0
IsNew s = s.status.last_backup ≡ none

-- The evaluation of a new schedule never finds a backup due.
abbrev NotDue : Result GoError ScheduleEvaluation → Type 0
NotDue (err e) = Unit {0}
NotDue (ok evaluation) = evaluation.backup_due ≡ false

evaluate_listed-NotDue :
    (w : World) (s : BackupSchedule) (tz : String) (r : Result GoError (List Backup))
    → IsNew s
    → NotDue (evaluate_listed w s tz r)
unfolding evaluate_listed is_due last_started
evaluate_listed-NotDue w s tz (err e) new = tt
evaluate_listed-NotDue w s tz (ok bs) new = rw new refl

evaluate_parsed-NotDue :
    (w : World) (s : BackupSchedule) (tz : String) (o : Option GoError)
    → IsNew s
    → NotDue (evaluate_parsed w s tz o)
unfolding evaluate_parsed
evaluate_parsed-NotDue w s tz (some e) new = tt
evaluate_parsed-NotDue w s tz none new =
    evaluate_listed-NotDue w s tz (list_backups_for_schedule w for_evaluation) new

evaluate_located-NotDue :
    (w : World) (s : BackupSchedule) (r : Result GoError String)
    → IsNew s
    → NotDue (evaluate_located w s r)
unfolding evaluate_located
evaluate_located-NotDue w s (err e) new = tt
evaluate_located-NotDue w s (ok tz) new =
    evaluate_parsed-NotDue w s tz (w.parse_cron s.spec.schedule) new

evaluate_schedule-NotDue :
    (w : World) (s : BackupSchedule) → IsNew s → NotDue (evaluate_schedule w s)
unfolding evaluate_schedule
evaluate_schedule-NotDue w s new = evaluate_located-NotDue w s (get_timezone w s.spec.timezone) new

-- An outcome that asks for no backup and leaves a new schedule.
abbrev pub IsIdle : Outcome → Type 0
IsIdle o = (creates o.actions ≡ 0) × IsNew o.left

update_last_backup_status-none : (bs : List Backup) → update_last_backup_status none bs ≡ none
unfolding update_last_backup_status
update_last_backup_status-none bs = elim (Option-cases (get_latest_backup bs)) [
  | inl e ↦ rw (e, update_last_backup_status) refl
  | inr (latest, e) ↦ rw (e, update_last_backup_status) refl
]

listed-IsNew :
    (w : World) (s : BackupSchedule) (r : Result GoError (List Backup))
    → list_backups_for_schedule w for_status ≡ r
    → IsNew s
    → IsNew (refresh w s)
unfolding refresh
listed-IsNew w s (err x) e new = rw (e, refresh) new
listed-IsNew w s (ok bs) e new = rw (e, refresh, new) (update_last_backup_status-none bs)

refresh-IsNew : (w : World) (s : BackupSchedule) → IsNew s → IsNew (refresh w s)
refresh-IsNew w s new = listed-IsNew w s (list_backups_for_schedule w for_status) refl new

finish-IsIdle : (w : World) (s : BackupSchedule) (next : ℕ) → IsNew s → IsIdle (finish w s next [])
unfolding finish set_phase_ready
finish-IsIdle w s next new = (
  creates-finish w s next [],
  elim (Option-cases w.update_status) [
    | inl e ↦ rw e (refresh-IsNew w s new)
    | inr (x, e) ↦ rw e (refresh-IsNew w s new)
  ],
)

after_evaluation-IsIdle :
    (w : World) (s : BackupSchedule) (r : Result GoError ScheduleEvaluation)
    → IsNew s
    → NotDue r
    → IsIdle (after_evaluation w s r)
unfolding after_evaluation handle_error set_phase_ready
after_evaluation-IsIdle w s (err e) new early = (refl, new)
after_evaluation-IsIdle w s (ok evaluation) new early =
    let st : ScheduleStatus = record s.status { next_backup_time = some evaluation.next_time } in
    rw early (finish-IsIdle w (with_status s st) evaluation.next_time new)

either-IsIdle : (b : Bool) (x y : Outcome) → IsIdle x → IsIdle y → IsIdle (if b then x else y)
either-IsIdle true x y h k = h
either-IsIdle false x y h k = k

handle_paused-IsIdle : (w : World) (s : BackupSchedule) → IsNew s → IsIdle (handle_paused w s)
unfolding handle_paused set_phase_ready
handle_paused-IsIdle w s new = (
  creates-handle_paused w s,
  elim (Option-cases w.update_status) [ inl e ↦ rw e new | inr (x, e) ↦ rw e new ],
)

reconcile-IsIdle : (w : World) (s : BackupSchedule) → IsNew s → IsIdle (reconcile w s)
unfolding reconcile
reconcile-IsIdle w s new =
    either-IsIdle s.spec.paused (handle_paused w s) (after_evaluation w s (evaluate_schedule w s))
      (handle_paused-IsIdle w s new)
      (after_evaluation-IsIdle w s (evaluate_schedule w s) new (evaluate_schedule-NotDue w s new))

after_update-IsIdle :
    (s : BackupSchedule) (o : Option GoError) (next : Outcome)
    → IsNew s
    → IsIdle next
    → IsIdle (after_update s o next)
unfolding after_update
after_update-IsIdle s none next new h = h
after_update-IsIdle s (some e) next new h = (refl, new)

handle_deletion-IsIdle : (w : World) (s : BackupSchedule) → IsNew s → IsIdle (handle_deletion w s)
unfolding handle_deletion block_deletion release set_phase_ready
handle_deletion-IsIdle w s new =
    let given_up : BackupSchedule = without_finalizer w s in
    either-IsIdle (lacks_finalizer w s) (done s 0 nil_error [])
      (if is_protected s then block_deletion w s else release w s) (refl, new)
      (either-IsIdle (is_protected s) (block_deletion w s) (release w s) (refl, new)
        (after_update-IsIdle given_up w.update (done given_up 0 nil_error []) new (refl, new)))

add_finalizer-IsIdle :
    (w : World) (s : BackupSchedule) → IsNew s → IsIdle (add_finalizer_and_reconcile w s)
unfolding add_finalizer_and_reconcile
add_finalizer-IsIdle w s new =
    let s' : BackupSchedule = with_finalizer w s in
    either-IsIdle (lacks_finalizer w s) (after_update s' w.update (reconcile w s')) (reconcile w s)
      (after_update-IsIdle s' w.update (reconcile w s') new (reconcile-IsIdle w s' new))
      (reconcile-IsIdle w s new)

reconcile_schedule-IsIdle :
    (w : World) (s : BackupSchedule) → IsNew s → IsIdle (reconcile_schedule w s)
unfolding reconcile_schedule
reconcile_schedule-IsIdle w s new =
    either-IsIdle (should_skip_reconcile s.schedule_annotations) (done s 0 nil_error [])
      (if s.is_deleting then handle_deletion w s else add_finalizer_and_reconcile w s) (refl, new)
      (either-IsIdle s.is_deleting (handle_deletion w s) (add_finalizer_and_reconcile w s)
        (handle_deletion-IsIdle w s new) (add_finalizer-IsIdle w s new))

-- Reconciles one after another, each of a schedule with the status that the one before has left, or
-- with the one before that where the cluster has refused the write; its specification and its
-- annotations may change in between. `calls` is what they have asked of the cluster, in order.
pub data Reconciles : BackupSchedule → List Action → BackupSchedule → Type 0 where
  start : {s : BackupSchedule} → Reconciles s [] s
  reconciled :
      {s t u : BackupSchedule} {calls : List Action} (w : World)
      → (t.status ≡ s.status) ⊎ (t.status ≡ (reconcile_schedule w s).left.status)
      → Reconciles t calls u
      → Reconciles s ((reconcile_schedule w s).actions ++ calls) u

carried-IsNew :
    (w : World) (s t : BackupSchedule)
    → IsNew s
    → (t.status ≡ s.status) ⊎ (t.status ≡ (reconcile_schedule w s).left.status)
    → IsNew t
carried-IsNew w s t new (inl e) = rw e new
carried-IsNew w s t new (inr e) = rw e (reconcile_schedule-IsIdle w s new).1

-- A schedule without a last backup in its status stays without one: however often it is reconciled,
-- with whatever answers of the clock and of the cluster, whichever status writes are refused, and
-- however its specification and annotations change in between, it never asks for a backup.
pub Reconciles-creates :
    {s u : BackupSchedule} {calls : List Action}
    → Reconciles s calls u
    → s.status.last_backup ≡ none
    → (creates calls ≡ 0) × (u.status.last_backup ≡ none)
Reconciles-creates start new = (refl, new)
Reconciles-creates (reconciled {s = s} {t = t} {calls = calls} w e rest) new =
    let (none_made, still) = Reconciles-creates rest (carried-IsNew w s t new e) in
    let idle = (reconcile_schedule-IsIdle w s new).0 in
    (
      omega (
        arith,
        idle,
        none_made,
        count_if-append is_create (reconcile_schedule w s).actions calls,
      ),
      still,
    )
