-- ===== src/Schedule/History.antt =====
-- handler.go: the recent backups in a schedule's status, and its latest backup.
use Prim.Native.Nat.{zero-le}
use db_provision_operator.Base.{
  Bool, List, String, [], arith, count_if, if◌then◌else◌, ltb, refl, str_eq, ℕ, ◌&&◌, ◌+◌, ◌∙◌, ◌∷◌,
  ◌≡◌, ◌≤◌, All, Bool-cases, inl, inr, ltb→lt, some, ◌⊎◌,
}
use db_provision_operator.Schedule.{
  Backup, BackupSchedule, Phase, RecentBackupInfo, World, phase_active, phase_completed,
  phase_creating, phase_deleting, phase_failed, phase_paused, phase_pending, phase_pending_deletion,
  phase_ready, phase_running, phase_text, phase_unset, same_phase,
}
use db_provision_operator.Schedule.Repository.{
  get_backups_sorted_by_time, get_latest_backup, latest_from,
}
use db_provision_operator.Schedule.Status.{default_limit, get_recent_backups_list, recent_from}
use db_provision_operator.Schedule.Sorting.{SortsNewestFirst}

abbrev pub capped : ℕ → ℕ → ℕ
capped limit n = if ltb limit n then limit else n

abbrev pub has_text : String → RecentBackupInfo → Bool
has_text text info = str_eq info.recent_status text

is_completed-text : (p : Phase) → str_eq (phase_text p) "Completed" ≡ same_phase p phase_completed
is_completed-text phase_unset = refl
is_completed-text phase_pending = refl
is_completed-text phase_creating = refl
is_completed-text phase_ready = refl
is_completed-text phase_failed = refl
is_completed-text phase_deleting = refl
is_completed-text phase_pending_deletion = refl
is_completed-text phase_running = refl
is_completed-text phase_completed = refl
is_completed-text phase_paused = refl
is_completed-text phase_active = refl

is_failed-text : (p : Phase) → str_eq (phase_text p) "Failed" ≡ same_phase p phase_failed
is_failed-text phase_unset = refl
is_failed-text phase_pending = refl
is_failed-text phase_creating = refl
is_failed-text phase_ready = refl
is_failed-text phase_failed = refl
is_failed-text phase_deleting = refl
is_failed-text phase_pending_deletion = refl
is_failed-text phase_running = refl
is_failed-text phase_completed = refl
is_failed-text phase_paused = refl
is_failed-text phase_active = refl

is_running-text : (p : Phase) → str_eq (phase_text p) "Running" ≡ same_phase p phase_running
is_running-text phase_unset = refl
is_running-text phase_pending = refl
is_running-text phase_creating = refl
is_running-text phase_ready = refl
is_running-text phase_failed = refl
is_running-text phase_deleting = refl
is_running-text phase_pending_deletion = refl
is_running-text phase_running = refl
is_running-text phase_completed = refl
is_running-text phase_paused = refl
is_running-text phase_active = refl

recent-completed :
    (sl fl s f : ℕ) (bs : List Backup)
    → s ≤ sl
    → s + count_if (has_text "Completed") (recent_from sl fl s f bs)
      ≡ capped sl (s + count_if (λ b. same_phase b.phase phase_completed) bs)
unfolding recent_from
recent-completed sl fl s f [] h = ground arith
recent-completed sl fl s f (b ∷ bs) h =
    let p : Phase = b.phase in
    let t = is_completed-text b.phase in
    let success : Bool = same_phase b.phase phase_completed && ltb s sl in
    let failure : Bool = same_phase b.phase phase_failed && ltb f fl in
    ground (
      arith,
      t,
      recent-completed sl fl (if success then s + 1 else s) (if failure then f + 1 else f) bs,
    )

recent-failed :
    (sl fl s f : ℕ) (bs : List Backup)
    → f ≤ fl
    → f + count_if (has_text "Failed") (recent_from sl fl s f bs)
      ≡ capped fl (f + count_if (λ b. same_phase b.phase phase_failed) bs)
unfolding recent_from
recent-failed sl fl s f [] h = ground arith
recent-failed sl fl s f (b ∷ bs) h =
    let t = is_failed-text b.phase in
    let success : Bool = same_phase b.phase phase_completed && ltb s sl in
    let failure : Bool = same_phase b.phase phase_failed && ltb f fl in
    ground (
      arith,
      t,
      recent-failed sl fl (if success then s + 1 else s) (if failure then f + 1 else f) bs,
    )

recent-running :
    (sl fl s f : ℕ) (bs : List Backup)
    → count_if (has_text "Running") (recent_from sl fl s f bs)
      ≡ count_if (λ b. same_phase b.phase phase_running) bs
unfolding recent_from
recent-running sl fl s f [] = refl
recent-running sl fl s f (b ∷ bs) =
    let t = is_running-text b.phase in
    let success : Bool = same_phase b.phase phase_completed && ltb s sl in
    let failure : Bool = same_phase b.phase phase_failed && ltb f fl in
    ground (
      arith,
      t,
      recent-running sl fl (if success then s + 1 else s) (if failure then f + 1 else f) bs,
    )

from_zero : (limit x c c' : ℕ) → 0 + x ≡ capped limit (0 + c) → c ≡ c' → x ≡ capped limit c'
from_zero limit x c c' h e = ground arith

-- For any sort by newest first, the list of recent backups has as many completed and failed ones
-- as there are, up to the limits (5 and 3 where they are 0), and all that are running.
pub get_recent_backups_list_counts :
    (w : World) (s : BackupSchedule) (bs : List Backup)
    → SortsNewestFirst w.sort_newest
    → (count_if (has_text "Completed") (get_recent_backups_list w s bs)
        ≡ capped
            (default_limit s.spec.successful_backups_history_limit 5)
            (count_if (λ b. same_phase b.phase phase_completed) bs))
      × (count_if (has_text "Failed") (get_recent_backups_list w s bs)
          ≡ capped
              (default_limit s.spec.failed_backups_history_limit 3)
              (count_if (λ b. same_phase b.phase phase_failed) bs))
      × (count_if (has_text "Running") (get_recent_backups_list w s bs)
          ≡ count_if (λ b. same_phase b.phase phase_running) bs)
unfolding get_recent_backups_list get_backups_sorted_by_time
get_recent_backups_list_counts w s bs sorts =
    let sl : ℕ = default_limit s.spec.successful_backups_history_limit 5 in
    let fl : ℕ = default_limit s.spec.failed_backups_history_limit 3 in
    let sorted : List Backup = w.sort_newest bs in
    (
      from_zero sl _ _ _ (recent-completed sl fl 0 0 sorted zero-le)
          (sorts.kept (λ b. same_phase b.phase phase_completed) bs),
      from_zero fl _ _ _ (recent-failed sl fl 0 0 sorted zero-le)
          (sorts.kept (λ b. same_phase b.phase phase_failed) bs),
      recent-running sl fl 0 0 sorted ∙ sorts.kept (λ b. same_phase b.phase phase_running) bs,
    )

abbrev pub IsIn : Backup → List Backup → Type 0
IsIn x [] = ⊥
IsIn x (b ∷ bs) = (x ≡ b) ⊎ IsIn x bs

latest_from-newest :
    (l : Backup) (bs : List Backup)
    → (m : Backup) × (latest_from (some l) bs ≡ some m)
      × (l.creation_timestamp ≤ m.creation_timestamp)
      × All (λ b. b.creation_timestamp ≤ m.creation_timestamp) bs
      × ((m ≡ l) ⊎ IsIn m bs)
unfolding latest_from
latest_from-newest l [] = (l, refl, omega arith, tt, inl refl)
latest_from-newest l (b ∷ bs) = elim (Bool-cases (ltb l.creation_timestamp b.creation_timestamp)) [
  | inl newer ↦
      let (m, e, le, h, from) = latest_from-newest b bs in
      let lt = ltb→lt l.creation_timestamp b.creation_timestamp newer in
      (
        m,
        rw newer e,
        omega arith,
        (le, h),
        elim from [ inl same ↦ inr (inl same) | inr there ↦ inr (inr there) ],
      )
  | inr older ↦
      let (m, e, le, h, from) = latest_from-newest l bs in
      let ge : b.creation_timestamp ≤ l.creation_timestamp = ground arith in
      (
        m,
        rw older e,
        le,
        (omega arith, h),
        elim from [ inl same ↦ inl same | inr there ↦ inr (inr there) ],
      )
]

-- Unless there is no backup at all, GetLatestBackup gives one of the backups, and none is newer.
pub get_latest_backup-newest :
    (b : Backup) (bs : List Backup)
    → (m : Backup) × (get_latest_backup (b ∷ bs) ≡ some m)
      × All (λ x. x.creation_timestamp ≤ m.creation_timestamp) (b ∷ bs)
      × IsIn m (b ∷ bs)
unfolding get_latest_backup latest_from
get_latest_backup-newest b bs =
    let (m, e, le, h, from) = latest_from-newest b bs in (m, e, (le, h), from)
