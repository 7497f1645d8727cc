-- ===== src/Schedule/Created.antt =====
-- controller.go: how many backups a reconcile of a schedule asks for.
use db_provision_operator.Base.{
  All, Bool, Bool-cases, List, Option, Option-cases, Result, [], arith, count_if, count_if-append,
  err, false, if◌then◌else◌, inl, inr, ltb, map, none, ok, refl, some, true, ℕ, ◌++◌, ◌+◌, ◌||◌,
  ◌∙◌, ◌∷◌, ◌≡◌, ◌≤◌,
}
use db_provision_operator.Annotations.{should_skip_reconcile}
use db_provision_operator.Schedule.{
  Backup, BackupSchedule, ConcurrencyPolicy, RetentionPolicy, ScheduleStatus, World,
  for_concurrency, for_retention, for_status, phase_running, policy_allow, policy_forbid,
  policy_other, policy_replace,
}
use db_provision_operator.Errors.{GoError, nil_error}
use db_provision_operator.Schedule.Repository.{
  backup_from_template, filter_backups_by_phase, list_backups_for_schedule,
}
use db_provision_operator.Schedule.Handler.{
  ConcurrencyResult, ScheduleEvaluation, TriggerResult, evaluate_schedule, handle_concurrency,
  retention_marks, trigger_backup,
}
use db_provision_operator.Schedule.Outcome.{
  Action, Outcome, create_call, delete_call, done, handle_error, status_call, update_call,
  with_status,
}
use db_provision_operator.Schedule.Controller.{
  add_finalizer_and_reconcile, after_concurrency, after_evaluation, after_trigger, after_update,
  calls_after, concurrency_calls, finish, handle_deletion, handle_paused, lacks_finalizer,
  note_trigger, policy_calls, reconcile, reconcile_schedule, refresh_calls, replace_calls,
  retention_calls, trigger_and_finish, with_finalizer,
}
use db_provision_operator.Schedule.Stages.{handle_deletion-All}

abbrev pub is_create : Action → Bool
is_create (create_call b) = true
is_create (delete_call b) = false
is_create (update_call s) = false
is_create (status_call s) = false

abbrev pub creates : List Action → ℕ
creates calls = count_if is_create calls

creates-deletes : (bs : List Backup) → creates (map delete_call bs) ≡ 0
creates-deletes [] = refl
creates-deletes (b ∷ bs) = creates-deletes bs

creates-calls_after :
    (f : List Backup → List Action) (r : Result GoError (List Backup))
    → ((bs : List Backup) → creates (f bs) ≡ 0)
    → creates (calls_after f r) ≡ 0
creates-calls_after f (ok bs) h = h bs
creates-calls_after f (err e) h = refl

creates-policy_calls : (w : World) (o : Option RetentionPolicy) → creates (policy_calls w o) ≡ 0
unfolding policy_calls
creates-policy_calls w none = refl
creates-policy_calls w (some r) =
    creates-calls_after (λ bs. map delete_call (retention_marks w r bs))
      (list_backups_for_schedule w for_retention) (λ bs. creates-deletes (retention_marks w r bs))

creates-replace_calls : (w : World) (p : ConcurrencyPolicy) → creates (replace_calls w p) ≡ 0
unfolding replace_calls
creates-replace_calls w policy_replace =
    creates-calls_after (λ bs. map delete_call (filter_backups_by_phase bs phase_running))
      (list_backups_for_schedule w for_concurrency)
      (λ bs. creates-deletes (filter_backups_by_phase bs phase_running))
creates-replace_calls w policy_allow = refl
creates-replace_calls w policy_forbid = refl
creates-replace_calls w policy_other = refl

creates-refresh_calls : (w : World) (s : BackupSchedule) → creates (refresh_calls w s) ≡ 0
unfolding refresh_calls retention_calls
creates-refresh_calls w s =
    creates-calls_after (λ bs. policy_calls w s.spec.retention)
      (list_backups_for_schedule w for_status) (λ bs. creates-policy_calls w s.spec.retention)

-- A status write at the end of a list of calls creates nothing.
creates-and_status :
    (calls : List Action) (s : BackupSchedule)
    → creates (calls ++ (status_call s ∷ [])) ≡ creates calls
creates-and_status calls s = omega (arith, count_if-append is_create calls (status_call s ∷ []))

creates-ended :
    (w : World) (s : BackupSchedule) (calls : List Action) (s' : BackupSchedule)
    → creates (calls ++ (refresh_calls w s ++ (status_call s' ∷ []))) ≡ creates calls
creates-ended w s calls s' = omega (
  arith,
  count_if-append is_create calls (refresh_calls w s ++ (status_call s' ∷ [])),
  creates-and_status (refresh_calls w s) s',
  creates-refresh_calls w s,
)

pub creates-finish :
    (w : World) (s : BackupSchedule) (next : ℕ) (calls : List Action)
    → creates (finish w s next calls).actions ≡ creates calls
unfolding finish
creates-finish w s next calls = elim (Option-cases w.update_status) [
  | inl e ↦ rw e (creates-ended w s calls _)
  | inr (x, e) ↦ rw e (creates-ended w s calls _)
]

creates-after_trigger :
    (w : World) (s : BackupSchedule) (next : ℕ) (calls : List Action)
    (r : Result GoError TriggerResult)
    → creates (after_trigger w s next calls r).actions ≡ creates calls
unfolding after_trigger handle_error
creates-after_trigger w s next calls (err e) = creates-and_status calls _
creates-after_trigger w s next calls (ok result) =
    creates-finish w (note_trigger w s result.triggered_name) next calls

creates-trigger :
    (w : World) (s : BackupSchedule) (next : ℕ) (calls : List Action)
    → creates (trigger_and_finish w s next calls).actions ≡ creates calls + 1
unfolding trigger_and_finish
creates-trigger w s next calls =
    creates-after_trigger w s next (calls ++ (create_call (backup_from_template w s) ∷ []))
      (trigger_backup w s)
    ∙ count_if-append is_create calls (create_call (backup_from_template w s) ∷ [])

creates-after_concurrency :
    (w : World) (s : BackupSchedule) (next : ℕ) (r : Result GoError ConcurrencyResult)
    → creates (after_concurrency w s next r).actions ≤ 1
unfolding after_concurrency handle_error concurrency_calls
creates-after_concurrency w s next (err e) = omega arith
creates-after_concurrency w s next (ok result) = elim (Bool-cases result.should_proceed) [
  | inl go ↦ rw go (
      omega (
        arith,
        creates-trigger w s next (replace_calls w s.spec.concurrency_policy),
        creates-replace_calls w s.spec.concurrency_policy,
      ))
  | inr stay ↦ rw stay (omega arith)
]

creates-after_evaluation :
    (w : World) (s : BackupSchedule) (r : Result GoError ScheduleEvaluation)
    → creates (after_evaluation w s r).actions ≤ 1
unfolding after_evaluation handle_error
creates-after_evaluation w s (err e) = omega arith
creates-after_evaluation w s (ok evaluation) =
    let st : ScheduleStatus = record s.status { next_backup_time = some evaluation.next_time } in
    let s' : BackupSchedule = with_status s st in
    elim (Bool-cases evaluation.backup_due) [
      | inr early ↦ rw early (omega (arith, creates-finish w s' evaluation.next_time []))
      | inl due ↦ elim (Bool-cases (ltb 0 evaluation.running_backups)) [
        | inl busy ↦
            rw (due, busy)
              (creates-after_concurrency w s' evaluation.next_time (handle_concurrency w s'))
        | inr idle ↦ rw (due, idle) (omega (arith, creates-trigger w s' evaluation.next_time []))
      ]
    ]

pub creates-handle_paused :
    (w : World) (s : BackupSchedule) → creates (handle_paused w s).actions ≡ 0
unfolding handle_paused
creates-handle_paused w s = elim (Option-cases w.update_status) [
  | inl e ↦ rw e refl
  | inr (x, e) ↦ rw e refl
]

-- A bound on the creations of an outcome, `paused` or not.
abbrev CreatesFew : Bool → Outcome → Type 0
CreatesFew paused o = (creates o.actions ≤ 1) × (paused ≡ true → creates o.actions ≡ 0)

choice-CreatesFew :
    (paused : Bool) (x y : Outcome)
    → creates x.actions ≡ 0
    → creates y.actions ≤ 1
    → CreatesFew paused (if paused then x else y)
choice-CreatesFew true x y h k = (omega arith, λ p. h)
choice-CreatesFew false x y h k = (k, λ p. cc)

reconcile-CreatesFew : (w : World) (s : BackupSchedule) → CreatesFew s.spec.paused (reconcile w s)
unfolding reconcile
reconcile-CreatesFew w s =
    choice-CreatesFew s.spec.paused (handle_paused w s)
      (after_evaluation w s (evaluate_schedule w s)) (creates-handle_paused w s)
      (creates-after_evaluation w s (evaluate_schedule w s))

after_update-CreatesFew :
    (paused : Bool) (s : BackupSchedule) (o : Option GoError) (next : Outcome)
    → CreatesFew paused next
    → CreatesFew paused (after_update s o next)
unfolding after_update
after_update-CreatesFew paused s none next h = h
after_update-CreatesFew paused s (some e) next h = (omega arith, λ p. refl)

either-CreatesFew :
    (paused b : Bool) (x y : Outcome)
    → CreatesFew paused x
    → CreatesFew paused y
    → CreatesFew paused (if b then x else y)
either-CreatesFew paused true x y h k = h
either-CreatesFew paused false x y h k = k

add_finalizer-CreatesFew :
    (w : World) (s : BackupSchedule) → CreatesFew s.spec.paused (add_finalizer_and_reconcile w s)
unfolding add_finalizer_and_reconcile
add_finalizer-CreatesFew w s =
    let s' : BackupSchedule = with_finalizer w s in
    either-CreatesFew s.spec.paused (lacks_finalizer w s)
      (after_update s' w.update (reconcile w s')) (reconcile w s)
      (after_update-CreatesFew s.spec.paused s' w.update (reconcile w s')
        (reconcile-CreatesFew w s'))
      (reconcile-CreatesFew w s)

creates-none : (calls : List Action) → All (λ a. is_create a ≡ false) calls → creates calls ≡ 0
creates-none [] h = refl
creates-none (a ∷ calls) (n, h) = rw n (creates-none calls h)

pub creates-handle_deletion :
    (w : World) (s : BackupSchedule) → creates (handle_deletion w s).actions ≡ 0
creates-handle_deletion w s =
    creates-none (handle_deletion w s).actions
      (handle_deletion-All (λ a. is_create a ≡ false) w (λ x. refl) (λ x. refl) s)

deleting-choice :
    (deleting paused : Bool) (x y : Outcome)
    → creates x.actions ≡ 0
    → CreatesFew paused y
    → CreatesFew (deleting || paused) (if deleting then x else y)
deleting-choice true paused x y h k = (omega arith, λ p. h)
deleting-choice false paused x y h k = k

deleting-CreatesFew :
    (w : World) (s : BackupSchedule)
    → CreatesFew
        (s.is_deleting || s.spec.paused)
        (if s.is_deleting then handle_deletion w s else add_finalizer_and_reconcile w s)
deleting-CreatesFew w s =
    deleting-choice s.is_deleting s.spec.paused (handle_deletion w s)
      (add_finalizer_and_reconcile w s) (creates-handle_deletion w s) (add_finalizer-CreatesFew w s)

-- A reconcile asks for at most one backup, and for none of a schedule that is deleted or paused.
pub reconcile_schedule-creates :
    (w : World) (s : BackupSchedule)
    → (creates (reconcile_schedule w s).actions ≤ 1)
      × ((s.is_deleting || s.spec.paused) ≡ true → creates (reconcile_schedule w s).actions ≡ 0)
unfolding reconcile_schedule
reconcile_schedule-creates w s =
    either-CreatesFew (s.is_deleting || s.spec.paused)
      (should_skip_reconcile s.schedule_annotations) (done s 0 nil_error [])
      (if s.is_deleting then handle_deletion w s else add_finalizer_and_reconcile w s)
      (omega arith, λ p. refl) (deleting-CreatesFew w s)
