-- ===== src/Schedule/Statistics.antt =====
-- handler.go: the counts and sums of UpdateStatistics.
-- The sum of a measure over the completed backups, as integers without a bound.
use native.Mathlib.Nat.{add-zero, zero-add, add_assoc}
use db_provision_operator.Base.{
  List, Option-cases, [], arith, count_if, false, if◌then◌else◌, inl, inr, ltb, none, refl, some,
  true, ℕ, ◌%◌, ◌+◌, ◌<◌, ◌^◌, ◌∷◌, ◌≡◌, Bool-cases, length, ◌/◌, ◌∙◌, ◌≤◌, ap,
}
use db_provision_operator.Base.Int.{pos, wrap_int64}
use db_provision_operator.Schedule.{Backup, phase_completed, phase_failed, same_phase}
use db_provision_operator.Schedule.Status.{
  Tally, size_of, tally_backups, tally_backup, average, no_tally, statistics_of,
}

abbrev pub sum_completed : (Backup → ℕ) → List Backup → ℕ
sum_completed f [] = 0
sum_completed f (b ∷ bs) =
    if same_phase b.phase phase_completed then f b + sum_completed f bs else sum_completed f bs

-- a backup's size, 0 where it is not known
abbrev pub size_number : Backup → ℕ
size_number b = elim b.size_bytes [ none ↦ 0 | some n ↦ n ]

size_of-pos : (b : Backup) → size_of b ≡ pos (size_number b)
unfolding size_of
size_of-pos b = elim (Option-cases b.size_bytes) [ inl h ↦ rw h refl | inr (n, h) ↦ rw h refl ]

wrap_int64-small : (n : ℕ) → n < 2 ^ 63 → wrap_int64 (pos n) ≡ pos n
wrap_int64-small n h =
    let m : n % 2 ^ 64 ≡ n = omega arith in
    let lt : ltb n (2 ^ 63) ≡ true = ground (arith, h) in rw (m, lt) refl

tally-counts :
    (t : Tally) (bs : List Backup)
    → ((tally_backups t bs).successes
        ≡ t.successes + count_if (λ b. same_phase b.phase phase_completed) bs)
      × ((tally_backups t bs).failures
          ≡ t.failures + count_if (λ b. same_phase b.phase phase_failed) bs)
unfolding tally_backups tally_backup
tally-counts t [] = (omega arith, omega arith)
tally-counts t (b ∷ bs) = ground (arith, tally-counts (tally_backup t b) bs)

completed-size :
    (t : Tally) (n : ℕ) (b : Backup)
    → same_phase b.phase phase_completed ≡ true
    → t.total_size ≡ pos n
    → n + size_number b < 2 ^ 63
    → (tally_backup t b).total_size ≡ pos (n + size_number b)
unfolding tally_backup
completed-size t n b done e h = rw (done, e, size_of-pos b) (wrap_int64-small (n + size_number b) h)

other-size :
    (t : Tally) (b : Backup)
    → same_phase b.phase phase_completed ≡ false
    → (tally_backup t b).total_size ≡ t.total_size
unfolding tally_backup
other-size t b other = elim (Bool-cases (same_phase b.phase phase_failed)) [
  | inl failed ↦ rw (other, failed) refl
  | inr none_of_both ↦ rw (other, none_of_both) refl
]

sum_completed-done :
    (f : Backup → ℕ) (b : Backup) (bs : List Backup)
    → same_phase b.phase phase_completed ≡ true
    → sum_completed f (b ∷ bs) ≡ f b + sum_completed f bs
sum_completed-done f b bs done = rw done refl

tally-size :
    (t : Tally) (n : ℕ) (bs : List Backup)
    → t.total_size ≡ pos n
    → n + sum_completed size_number bs < 2 ^ 63
    → (tally_backups t bs).total_size ≡ pos (n + sum_completed size_number bs)
unfolding tally_backups
tally-size t n [] e h = rw add-zero e
tally-size t n (b ∷ bs) e h = elim (Bool-cases (same_phase b.phase phase_completed)) [
  | inl done ↦
      let sum = sum_completed-done size_number b bs done in
      let e' = completed-size t n b done e (omega (arith, sum, h)) in
      rw (done, ← add_assoc)
        (tally-size (tally_backup t b) (n + size_number b) bs e' (omega (arith, sum, h)))
  | inr other ↦
      rw other (tally-size (tally_backup t b) n bs (other-size t b other ∙ e) (rw other at h))
]

disjoint-count :
    (bs : List Backup)
    → count_if (λ b. same_phase b.phase phase_completed) bs
        + count_if (λ b. same_phase b.phase phase_failed) bs
      ≤ length bs
disjoint-count [] = omega arith
disjoint-count (b ∷ bs) = ground (arith, disjoint-count bs)

-- The counts are those of the completed and the failed backups, the total is their sum and no more
-- than the listing, and while the sizes add up to less than 2^63 the sum is exact and the average its
-- quotient.
pub statistics_of_counts :
    (bs : List Backup)
    → sum_completed size_number bs < 2 ^ 63
    → ((statistics_of bs).successful_backups
        ≡ count_if (λ b. same_phase b.phase phase_completed) bs)
      × ((statistics_of bs).failed_backups ≡ count_if (λ b. same_phase b.phase phase_failed) bs)
      × ((statistics_of bs).total_backups
          ≡ (statistics_of bs).successful_backups + (statistics_of bs).failed_backups)
      × ((statistics_of bs).total_backups ≤ length bs)
      × ((statistics_of bs).total_storage_bytes ≡ pos (sum_completed size_number bs))
      × ((statistics_of bs).average_size_bytes ≡ (
          if ltb 0 (count_if (λ b. same_phase b.phase phase_completed) bs)
          then pos
              (sum_completed size_number bs / count_if (λ b. same_phase b.phase phase_completed) bs)
          else pos 0))
unfolding statistics_of average
statistics_of_counts bs h =
    let (good, bad) = tally-counts no_tally bs in
    let done : ℕ = count_if (λ b. same_phase b.phase phase_completed) bs in
    let failed : ℕ = count_if (λ b. same_phase b.phase phase_failed) bs in
    let successes : (tally_backups no_tally bs).successes ≡ done = good ∙ zero-add done in
    let failures : (tally_backups no_tally bs).failures ≡ failed = bad ∙ zero-add failed in
    let size : (tally_backups no_tally bs).total_size ≡ pos (sum_completed size_number bs) =
      tally-size no_tally 0 bs refl (omega (arith, h))
      ∙ ap pos (zero-add (sum_completed size_number bs)) in
    (
      successes,
      failures,
      refl,
      omega (arith, successes, failures, disjoint-count bs),
      size,
      rw (successes, size) refl,
    )
