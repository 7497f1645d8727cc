-- ===== src/Schedule/KeepDaily.antt =====
-- handler.go: what holds of each backup that EnforceRetention marks, and of each that it leaves.
-- What every mark of KeepLast has, and every old backup has, every mark has.
use db_provision_operator.Base.{
  &&-left, All, All-append, All-drop, All-map, Bool, Bool-cases, List, [], arith, count_if, drop,
  false, if◌then◌else◌, inl, inr, leb, ltb, ltb→lt, not, refl, str_eq_refl, suc, true, zero, ℕ,
  ◌&&◌, ◌++◌, ◌+◌, ◌<◌, ◌∷◌, ◌≡◌, ◌≤◌, length,
}
use db_provision_operator.Schedule.{Backup}
use db_provision_operator.Schedule.Handler.{is_marked, keep_daily_marks, keep_last_marks}
use db_provision_operator.Schedule.Sorting.{NewestFirst}
use db_provision_operator.Schedule.Passes.{is_marked-daily}

pub All-daily :
    (P : Backup → Type 0) (cutoff : ℕ) (marks bs : List Backup)
    → ((b : Backup) → b.creation_timestamp < cutoff → P b)
    → All P marks
    → All P (keep_daily_marks cutoff marks bs)
unfolding keep_daily_marks
All-daily P cutoff marks [] old h = h
All-daily P cutoff marks (b ∷ bs) old h =
    elim (Bool-cases (ltb b.creation_timestamp cutoff && not (is_marked b.name marks))) [
      | inl new ↦
          let lt : b.creation_timestamp < cutoff =
            ltb→lt b.creation_timestamp cutoff
              (&&-left (ltb b.creation_timestamp cutoff) (not (is_marked b.name marks)) new) in
          rw new (
            All-daily P cutoff (marks ++ (b ∷ [])) bs old
              (All-append P marks (b ∷ []) h (old b lt, tt)))
      | inr kept ↦ rw kept (All-daily P cutoff marks bs old h)
    ]

-- `b` is no newer than `x`.
abbrev pub no_newer : Backup → Backup → Bool
no_newer b x = leb b.creation_timestamp x.creation_timestamp

-- Every backup is as new as itself.
All-itself : (bs : List Backup) → All (λ b. 1 ≤ count_if (no_newer b) bs) bs
All-itself [] = tt
All-itself (b ∷ bs) = (
  ground arith,
  All-map (λ x. 1 ≤ count_if (no_newer x) bs) (λ x. 1 ≤ count_if (no_newer x) (b ∷ bs))
      (λ x h. ground (arith, h)) bs (All-itself bs),
)

All-both :
    (P Q R : Backup → Type 0) (f : (b : Backup) → P b → Q b → R b) (bs : List Backup)
    → All P bs
    → All Q bs
    → All R bs
All-both P Q R f [] h k = tt
All-both P Q R f (b ∷ bs) (p, h) (q, k) = (f b p q, All-both P Q R f bs h k)

-- Behind the first `n` backups of a sorted list, each has `n` others that are as new.
pub All-drop_newer :
    (n : ℕ) (bs : List Backup)
    → NewestFirst bs
    → All (λ b. n + 1 ≤ count_if (no_newer b) bs) (drop n bs)
All-drop_newer zero bs h =
    All-map (λ b. 1 ≤ count_if (no_newer b) bs) (λ b. 0 + 1 ≤ count_if (no_newer b) bs)
      (λ b k. omega arith) bs (All-itself bs)
All-drop_newer (suc n) [] h = tt
All-drop_newer (suc n) (x ∷ xs) (below, h) =
    All-both (λ b. b.creation_timestamp ≤ x.creation_timestamp)
      (λ b. n + 1 ≤ count_if (no_newer b) xs) (λ b. suc n + 1 ≤ count_if (no_newer b) (x ∷ xs))
      (λ b p q. ground (arith, p, q)) (drop n xs)
      (All-drop (λ b. b.creation_timestamp ≤ x.creation_timestamp) n xs below)
      (All-drop_newer n xs h)

is_marked-last : (b : Backup) (marks : List Backup) → is_marked b.name (marks ++ (b ∷ [])) ≡ true
unfolding is_marked
is_marked-last b [] = rw (str_eq_refl b.name) refl
is_marked-last b (d ∷ marks) = ground (arith, is_marked-last b marks)

-- `marks` after the walk has looked at `b`
abbrev step : ℕ → List Backup → Backup → List Backup
step cutoff marks b =
    if ltb b.creation_timestamp cutoff && not (is_marked b.name marks)
    then marks ++ (b ∷ [])
    else marks

is_marked-step :
    (cutoff : ℕ) (marks : List Backup) (b : Backup)
    → b.creation_timestamp < cutoff
    → is_marked b.name (step cutoff marks b) ≡ true
is_marked-step cutoff marks b lt = elim (Bool-cases (is_marked b.name marks)) [
  | inl marked ↦
      let off : (ltb b.creation_timestamp cutoff && not (is_marked b.name marks)) ≡ false =
        ground (arith, marked) in
      rw off marked
  | inr free ↦
      let on : (ltb b.creation_timestamp cutoff && not (is_marked b.name marks)) ≡ true =
        ground (arith, free) in
      rw on (is_marked-last b marks)
]

-- No old backup is left without a mark of its name.
pub daily_complete :
    (cutoff : ℕ) (marks bs : List Backup)
    → All
        (λ b.
          b.creation_timestamp < cutoff
          → is_marked b.name (keep_daily_marks cutoff marks bs) ≡ true)
        bs
unfolding keep_daily_marks
daily_complete cutoff marks [] = tt
daily_complete cutoff marks (b ∷ bs) = (
  (λ lt. is_marked-daily cutoff b.name (step cutoff marks b) bs (is_marked-step cutoff marks b lt)),
  daily_complete cutoff (step cutoff marks b) bs,
)

pub All-excess :
    (P : Backup → Type 0) (n : ℕ) (completed : List Backup)
    → (0 < n → All P (drop n completed))
    → All P (keep_last_marks n completed)
unfolding keep_last_marks
All-excess P n completed h = elim (Bool-cases (ltb 0 n && ltb n (length completed))) [
  | inl over ↦ rw over (h (ltb→lt 0 n (&&-left (ltb 0 n) (ltb n (length completed)) over)))
  | inr none_over ↦ rw none_over tt
]

-- an old backup whose name is not marked
abbrev pub is_missed : ℕ → List Backup → Backup → Bool
is_missed cutoff marks b = ltb b.creation_timestamp cutoff && not (is_marked b.name marks)

pub count_if-missed :
    (cutoff : ℕ) (marks bs : List Backup)
    → All (λ b. b.creation_timestamp < cutoff → is_marked b.name marks ≡ true) bs
    → count_if (is_missed cutoff marks) bs ≡ 0
count_if-missed cutoff marks [] h = refl
count_if-missed cutoff marks (b ∷ bs) (m, h) = elim (Bool-cases (ltb b.creation_timestamp cutoff)) [
  | inl old ↦
      let marked : is_marked b.name marks ≡ true = m (ltb→lt b.creation_timestamp cutoff old) in
      rw (old, marked) (count_if-missed cutoff marks bs h)
  | inr young ↦ rw young (count_if-missed cutoff marks bs h)
]
