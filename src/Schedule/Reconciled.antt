-- ===== src/Schedule/Reconciled.antt =====
-- controller.go: what a reconcile of a schedule may do, on every path.
use db_provision_operator.Base.{
  All, Bool, Bool-cases, List, [], arith, count_if, filter, inl, inr, map, none, not, refl, true,
  ◌&&◌, ◌∷◌, ◌≡◌, ◌≢◌, ◌⊎◌, Option, Result, err, ok, some, sym, ◌∙◌,
}
use db_provision_operator.Schedule.{
  Backup, BackupSchedule, RetentionPolicy, World, phase_completed, phase_running, policy_replace,
  same_phase, ConcurrencyPolicy, for_concurrency, for_retention, policy_allow, policy_forbid,
  policy_other,
}
use db_provision_operator.Schedule.Repository.{
  backup_from_template, filter_backups_by_phase, list_backups_for_schedule,
}
use db_provision_operator.Schedule.Handler.{retention_marks}
use db_provision_operator.Schedule.Outcome.{
  Action, create_call, delete_call, status_call, update_call,
}
use db_provision_operator.Schedule.Controller.{
  calls_after, concurrency_calls, policy_calls, reconcile_schedule, replace_calls, retention_calls,
}
use db_provision_operator.Schedule.Sorting.{SortsNewestFirst}
use db_provision_operator.Schedule.Retention.{retention_marks-count_if}
use db_provision_operator.Errors.{GoError}
use db_provision_operator.Schedule.Stages.{reconcile_schedule-All}

-- What a schedule may delete: a completed backup under a retention policy, or a running one when
-- its policy is Replace.
abbrev pub MayDelete : BackupSchedule → Backup → Type 0
MayDelete s b =
    ((s.spec.retention ≢ none) × (same_phase b.phase phase_completed ≡ true))
    ⊎ ((s.spec.concurrency_policy ≡ policy_replace) × (same_phase b.phase phase_running ≡ true))

abbrev pub MayCall : World → BackupSchedule → Action → Type 0
MayCall w s (create_call b) = b ≡ backup_from_template w s
MayCall w s (delete_call b) = MayDelete s b
MayCall w s (update_call s') = Unit
MayCall w s (status_call s') = Unit

All-of_count :
    (p : Backup → Bool) (bs : List Backup)
    → count_if (λ b. not (p b)) bs ≡ 0
    → All (λ b. p b ≡ true) bs
All-of_count p [] h = tt
All-of_count p (b ∷ bs) h = elim (Bool-cases (p b)) [
  | inl hit ↦ (hit, All-of_count p bs (rw hit at h))
  | inr miss ↦ absurd (ground arith)
]

count_if-never : (p : Backup → Bool) (bs : List Backup) → count_if (λ b. p b && not (p b)) bs ≡ 0
count_if-never p [] = refl
count_if-never p (b ∷ bs) = ground (arith, count_if-never p bs)

-- Every mark is a completed backup.
completed-marks :
    (w : World) (r : RetentionPolicy) (bs : List Backup)
    → SortsNewestFirst w.sort_newest
    → All (λ b. same_phase b.phase phase_completed ≡ true) (retention_marks w r bs)
completed-marks w r bs sorts =
    All-of_count (λ b. same_phase b.phase phase_completed) (retention_marks w r bs)
      (omega (
        arith,
        retention_marks-count_if w r bs (λ b. not (same_phase b.phase phase_completed)) sorts,
        count_if-never (λ b. same_phase b.phase phase_completed) bs,
      ))

All-filter : (p : Backup → Bool) (bs : List Backup) → All (λ b. p b ≡ true) (filter p bs)
All-filter p [] = tt
All-filter p (b ∷ bs) = elim (Bool-cases (p b)) [
  | inl hit ↦ rw hit (hit, All-filter p bs)
  | inr miss ↦ rw miss (All-filter p bs)
]

some-not-none : (r : RetentionPolicy) → some r ≢ none
some-not-none r h = cc

All-deletes :
    (w : World) (s : BackupSchedule) (P : Backup → Type 0)
    → ((b : Backup) → P b → MayDelete s b)
    → (bs : List Backup) → All P bs
    → All (MayCall w s) (map delete_call bs)
All-deletes w s P f [] h = tt
All-deletes w s P f (b ∷ bs) (p, h) = (f b p, All-deletes w s P f bs h)

calls_after-MayCall :
    (w : World) (s : BackupSchedule) (P : Backup → Type 0) (f : List Backup → List Backup)
    (r : Result GoError (List Backup))
    → ((b : Backup) → P b → MayDelete s b)
    → ((bs : List Backup) → All P (f bs))
    → All (MayCall w s) (calls_after (λ bs. map delete_call (f bs)) r)
calls_after-MayCall w s P f (ok bs) may h = All-deletes w s P may (f bs) (h bs)
calls_after-MayCall w s P f (err e) may h = tt

policy_calls-MayCall :
    (w : World) (s : BackupSchedule) (o : Option RetentionPolicy)
    → SortsNewestFirst w.sort_newest
    → s.spec.retention ≡ o
    → All (MayCall w s) (policy_calls w o)
unfolding policy_calls
policy_calls-MayCall w s none sorts e = tt
policy_calls-MayCall w s (some r) sorts e =
    calls_after-MayCall w s (λ b. same_phase b.phase phase_completed ≡ true) (retention_marks w r)
      (list_backups_for_schedule w for_retention)
      (λ b h. inl ((λ off. some-not-none r (sym e ∙ off)), h)) (λ bs. completed-marks w r bs sorts)

replace_calls-MayCall :
    (w : World) (s : BackupSchedule) (policy : ConcurrencyPolicy)
    → s.spec.concurrency_policy ≡ policy
    → All (MayCall w s) (replace_calls w policy)
unfolding replace_calls filter_backups_by_phase
replace_calls-MayCall w s policy_replace e =
    calls_after-MayCall w s (λ b. same_phase b.phase phase_running ≡ true)
      (λ bs. filter (λ b. same_phase b.phase phase_running) bs)
      (list_backups_for_schedule w for_concurrency) (λ b h. inr (e, h))
      (λ bs. All-filter (λ b. same_phase b.phase phase_running) bs)
replace_calls-MayCall w s policy_allow e = tt
replace_calls-MayCall w s policy_forbid e = tt
replace_calls-MayCall w s policy_other e = tt

retention-MayCall :
    (w : World) (s : BackupSchedule)
    → SortsNewestFirst w.sort_newest
    → All (MayCall w s) (retention_calls w s)
unfolding retention_calls
retention-MayCall w s sorts = policy_calls-MayCall w s s.spec.retention sorts refl

concurrency-MayCall : (w : World) (s : BackupSchedule) → All (MayCall w s) (concurrency_calls w s)
unfolding concurrency_calls
concurrency-MayCall w s = replace_calls-MayCall w s s.spec.concurrency_policy refl

-- For any sort by newest first and whatever a reconcile finds, it creates no backup but the one of
-- the schedule's template, and it deletes only completed backups, when a retention policy is set,
-- and running ones, when the concurrency policy is Replace.
pub reconcile_schedule-MayCall :
    (w : World) (s : BackupSchedule)
    → SortsNewestFirst w.sort_newest
    → All (MayCall w s) (reconcile_schedule w s).actions
reconcile_schedule-MayCall w s sorts =
    reconcile_schedule-All (MayCall w s) w (λ s'. tt) (λ s'. tt) s refl
      (retention-MayCall w s sorts) (concurrency-MayCall w s)
