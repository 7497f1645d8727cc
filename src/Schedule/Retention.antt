-- ===== src/Schedule/Retention.antt =====
-- handler.go: the retention pass as a whole, on any listing, for any sort by newest first.
use db_provision_operator.Base.{
  All, Bool, Bool-cases, List, arith, count_if, count_if-filter, filter, inl, inr, leb, ltb, ltb→lt,
  ◌&&◌, ◌+◌, ◌<◌, ◌∙◌, ◌≡◌, ◌≤◌, ◌⊎◌, All-map, [], count_if-and_true, count_if-true, drop, length,
  refl, sym, true, ℕ, ◌-◌,
}
use db_provision_operator.Schedule.{Backup, RetentionPolicy, World, phase_completed, same_phase}
use db_provision_operator.Schedule.Repository.{
  filter_backups_by_phase, get_completed_backups_sorted_by_time,
}
use db_provision_operator.Schedule.Handler.{keep_last_marks, retention_marks, keep_daily_marks}
use db_provision_operator.Schedule.Sorting.{NewestFirst, SortsNewestFirst}
use db_provision_operator.Schedule.Passes.{excess-count, marks-count, length-excess}
use db_provision_operator.Schedule.KeepDaily.{
  All-daily, All-drop_newer, All-excess, count_if-missed, daily_complete, is_missed, no_newer,
}

-- The listing's completed backups, as the pass sees them.
completed-count :
    (w : World) (sorts : SortsNewestFirst w.sort_newest) (p : Backup → Bool) (bs : List Backup)
    → count_if p (get_completed_backups_sorted_by_time w bs)
      ≡ count_if (λ b. same_phase b.phase phase_completed && p b) bs
unfolding get_completed_backups_sorted_by_time filter_backups_by_phase
completed-count w sorts p bs =
    let ours : List Backup = filter (λ b. same_phase b.phase phase_completed) bs in
    sorts.kept p ours ∙ count_if-filter (λ b. same_phase b.phase phase_completed) p bs

completed-sorted :
    (w : World) (sorts : SortsNewestFirst w.sort_newest) (bs : List Backup)
    → NewestFirst (get_completed_backups_sorted_by_time w bs)
unfolding get_completed_backups_sorted_by_time filter_backups_by_phase
completed-sorted w sorts bs = sorts.ordered (filter (λ b. same_phase b.phase phase_completed) bs)

-- For any sort by newest first, a retention pass deletes completed backups of the listing only,
-- and each at most as often as it is listed: by any test, no more marked backups pass than
-- completed ones of the listing.
pub retention_marks-count_if :
    (w : World) (r : RetentionPolicy) (bs : List Backup) (p : Backup → Bool)
    → SortsNewestFirst w.sort_newest
    → count_if p (retention_marks w r bs)
      ≤ count_if (λ b. same_phase b.phase phase_completed && p b) bs
unfolding retention_marks
retention_marks-count_if w r bs p sorts =
    let completed : List Backup = get_completed_backups_sorted_by_time w bs in
    let all : count_if p completed ≡ count_if (λ b. same_phase b.phase phase_completed && p b) bs =
      completed-count w sorts p bs in
    elim (Bool-cases (ltb 0 r.keep_daily)) [
      | inl daily ↦
          rw daily
            (omega (arith, marks-count (w.days_ago r.keep_daily) r.keep_last p completed, all))
      | inr off ↦ rw off (omega (arith, excess-count r.keep_last p completed, all))
    ]

-- why a backup may be deleted: enough newer ones, or its age
abbrev pub Justified : World → RetentionPolicy → List Backup → Backup → Type 0
Justified w r bs b =
    ((0 < r.keep_last)
      × (r.keep_last + 1
          ≤ count_if
              (λ x.
                same_phase x.phase phase_completed && leb b.creation_timestamp x.creation_timestamp)
              bs))
    ⊎ ((0 < r.keep_daily) × (b.creation_timestamp < w.days_ago r.keep_daily))

justify_excess :
    (w : World) (r : RetentionPolicy) (bs : List Backup) (sorts : SortsNewestFirst w.sort_newest)
    → 0 < r.keep_last
    → All (Justified w r bs) (drop r.keep_last (get_completed_backups_sorted_by_time w bs))
justify_excess w r bs sorts above =
    let completed : List Backup = get_completed_backups_sorted_by_time w bs in
    All-map (λ b. r.keep_last + 1 ≤ count_if (no_newer b) completed) (Justified w r bs)
      (λ b h. inl (above, omega (arith, h, completed-count w sorts (no_newer b) bs)))
      (drop r.keep_last completed)
      (All-drop_newer r.keep_last completed (completed-sorted w sorts bs))

-- For any sort by newest first, each backup that is marked is either one of more than KeepLast
-- completed backups that are as new as it is, itself counted, with KeepLast set, or older than
-- KeepDaily days, with KeepDaily set.
pub All-retention_marks :
    (w : World) (r : RetentionPolicy) (bs : List Backup)
    → SortsNewestFirst w.sort_newest
    → All (Justified w r bs) (retention_marks w r bs)
unfolding retention_marks
All-retention_marks w r bs sorts =
    let completed : List Backup = get_completed_backups_sorted_by_time w bs in
    let excess : List Backup = keep_last_marks r.keep_last completed in
    let by_count : All (Justified w r bs) excess =
      All-excess (Justified w r bs) r.keep_last completed
        (λ above. justify_excess w r bs sorts above) in
    elim (Bool-cases (ltb 0 r.keep_daily)) [
      | inl daily ↦ rw daily (
          All-daily (Justified w r bs) (w.days_ago r.keep_daily) excess completed
            (λ b lt. inr (ltb→lt 0 r.keep_daily daily, lt)) by_count)
      | inr off ↦ rw off by_count
    ]

-- For any sort by newest first, with KeepLast alone set, all but KeepLast of the completed backups
-- are marked, and none when there are no more than that.
pub length-retention_marks :
    (w : World) (r : RetentionPolicy) (bs : List Backup)
    → SortsNewestFirst w.sort_newest
    → 0 < r.keep_last
    → r.keep_daily ≡ 0
    → length (retention_marks w r bs)
      ≡ count_if (λ b. same_phase b.phase phase_completed) bs - r.keep_last
unfolding retention_marks
length-retention_marks w r bs sorts above off =
    let completed : List Backup = get_completed_backups_sorted_by_time w bs in
    rw off (
      omega (
        arith,
        length-excess r.keep_last completed above,
        completed-count w sorts (λ b. true) bs,
        count_if-true completed,
        count_if-and_true (λ b. same_phase b.phase phase_completed) bs,
      ))

-- For any sort by newest first, with KeepDaily set, no completed backup that is older than that
-- many days is left without a mark of its name, whatever KeepLast is.
pub retention_marks-keep_daily :
    (w : World) (r : RetentionPolicy) (bs : List Backup)
    → SortsNewestFirst w.sort_newest
    → 0 < r.keep_daily
    → count_if
        (λ b.
          same_phase b.phase phase_completed
          && is_missed (w.days_ago r.keep_daily) (retention_marks w r bs) b)
        bs
      ≡ 0
unfolding retention_marks
retention_marks-keep_daily w r bs sorts above =
    let completed : List Backup = get_completed_backups_sorted_by_time w bs in
    let cutoff : ℕ = w.days_ago r.keep_daily in
    let marks : List Backup =
      keep_daily_marks cutoff (keep_last_marks r.keep_last completed) completed in
    let on : ltb 0 r.keep_daily ≡ true = ground arith in
    rw on (
      sym (completed-count w sorts (is_missed cutoff marks) bs)
      ∙ count_if-missed cutoff marks completed
          (daily_complete cutoff (keep_last_marks r.keep_last completed) completed))

-- A policy with neither limit deletes nothing.
pub retention_marks-none :
    (w : World) (r : RetentionPolicy) (bs : List Backup)
    → r.keep_last ≡ 0
    → r.keep_daily ≡ 0
    → retention_marks w r bs ≡ []
unfolding retention_marks keep_last_marks
retention_marks-none w r bs a b = rw (a, b) refl
