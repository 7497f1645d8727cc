-- ===== src/Schedule/Passes.antt =====
-- handler.go: the two passes of EnforceRetention over completed backups that are sorted.
use db_provision_operator.Base.{
  All, Bool, Bool-cases, List, String, [], arith, if◌then◌else◌, inl, inr, ltb, not, refl, true, ℕ,
  ◌&&◌, ◌++◌, ◌+◌, ◌∷◌, ◌≡◌, ◌≤◌, All-map, ap, count_if, count_if-append, count_if-cons,
  count_if-take-drop, drop, false, length, str_eq_refl, sym, take, take-drop, ◌∙◌, length-drop, ◌-◌,
  ◌<◌,
}
use db_provision_operator.Schedule.{Backup}
use db_provision_operator.Schedule.Handler.{is_marked, keep_daily_marks, keep_last_marks}

-- Of each kind of backup, the pass over KeepDaily adds no more than it walks over.
daily-count :
    (cutoff : ℕ) (p : Backup → Bool) (marks bs : List Backup)
    → count_if p (keep_daily_marks cutoff marks bs) ≤ count_if p marks + count_if p bs
unfolding keep_daily_marks
daily-count cutoff p marks [] = omega arith
daily-count cutoff p marks (b ∷ bs) =
    elim (Bool-cases (ltb b.creation_timestamp cutoff && not (is_marked b.name marks))) [
      | inl new ↦ rw new (
          omega (
            arith,
            daily-count cutoff p (marks ++ (b ∷ [])) bs,
            count_if-append p marks (b ∷ []),
            count_if-cons p b bs,
          ))
      | inr old ↦ rw old (omega (arith, daily-count cutoff p marks bs, count_if-cons p b bs))
    ]

daily-append :
    (cutoff : ℕ) (marks xs ys : List Backup)
    → keep_daily_marks cutoff marks (xs ++ ys)
      ≡ keep_daily_marks cutoff (keep_daily_marks cutoff marks xs) ys
unfolding keep_daily_marks
daily-append cutoff marks [] ys = refl
daily-append cutoff marks (b ∷ bs) ys =
    daily-append cutoff
      (if ltb b.creation_timestamp cutoff && not (is_marked b.name marks)
        then marks ++ (b ∷ [])
        else marks)
      bs ys

is_marked-append :
    (name : String) (marks more : List Backup)
    → is_marked name marks ≡ true
    → is_marked name (marks ++ more) ≡ true
unfolding is_marked
is_marked-append name (d ∷ marks) more h = ground (arith, is_marked-append name marks more)
is_marked-append name [] more h = absurd (ground arith)

pub is_marked-daily :
    (cutoff : ℕ) (name : String) (marks bs : List Backup)
    → is_marked name marks ≡ true
    → is_marked name (keep_daily_marks cutoff marks bs) ≡ true
unfolding keep_daily_marks
is_marked-daily cutoff name marks [] h = h
is_marked-daily cutoff name marks (b ∷ bs) h =
    elim (Bool-cases (ltb b.creation_timestamp cutoff && not (is_marked b.name marks))) [
      | inl new ↦ rw new (
          is_marked-daily cutoff name (marks ++ (b ∷ [])) bs
            (is_marked-append name marks (b ∷ []) h))
      | inr old ↦ rw old (is_marked-daily cutoff name marks bs h)
    ]

-- Backups that are marked already are not marked again.
daily-marked :
    (cutoff : ℕ) (marks bs : List Backup)
    → All (λ b. is_marked b.name marks ≡ true) bs
    → keep_daily_marks cutoff marks bs ≡ marks
unfolding keep_daily_marks
daily-marked cutoff marks [] h = refl
daily-marked cutoff marks (b ∷ bs) (m, h) =
    let off : (ltb b.creation_timestamp cutoff && not (is_marked b.name marks)) ≡ false =
      ground (arith, m) in
    rw off (daily-marked cutoff marks bs h)

All-is_marked : (bs : List Backup) → All (λ b. is_marked b.name bs ≡ true) bs
unfolding is_marked
All-is_marked [] = tt
All-is_marked (b ∷ bs) = (
  rw (str_eq_refl b.name) refl,
  All-map (λ x. is_marked x.name bs ≡ true) (λ x. is_marked x.name (b ∷ bs) ≡ true)
      (λ x h. ground (arith, h)) bs (All-is_marked bs),
)

-- What is in excess is marked before the pass over KeepDaily, which then adds only backups that
-- KeepLast keeps.
split-count :
    (cutoff n : ℕ) (p : Backup → Bool) (completed : List Backup)
    → count_if p (keep_daily_marks cutoff (drop n completed) completed) ≤ count_if p completed
split-count cutoff n p completed =
    let kept : List Backup = take n completed in
    let excess : List Backup = drop n completed in
    let first : List Backup = keep_daily_marks cutoff excess kept in
    let still : All (λ b. is_marked b.name first ≡ true) excess =
      All-map (λ b. is_marked b.name excess ≡ true) (λ b. is_marked b.name first ≡ true)
        (λ b h. is_marked-daily cutoff b.name excess kept h) excess (All-is_marked excess) in
    let whole : keep_daily_marks cutoff excess completed ≡ first =
      ap (keep_daily_marks cutoff excess) (sym (take-drop n completed))
      ∙ daily-append cutoff excess kept excess
      ∙ daily-marked cutoff first excess still in
    rw whole (omega (arith, daily-count cutoff p excess kept, count_if-take-drop p n completed))

-- the excess and, when KeepDaily is set, the pass over the rest
pub marks-count :
    (cutoff n : ℕ) (p : Backup → Bool) (completed : List Backup)
    → count_if p (keep_daily_marks cutoff (keep_last_marks n completed) completed)
      ≤ count_if p completed
unfolding keep_last_marks
marks-count cutoff n p completed = elim (Bool-cases (ltb 0 n && ltb n (length completed))) [
  | inr none_over ↦ rw none_over (omega (arith, daily-count cutoff p [] completed))
  | inl over ↦ rw over (split-count cutoff n p completed)
]

pub excess-count :
    (n : ℕ) (p : Backup → Bool) (completed : List Backup)
    → count_if p (keep_last_marks n completed) ≤ count_if p completed
unfolding keep_last_marks
excess-count n p completed = elim (Bool-cases (ltb 0 n && ltb n (length completed))) [
  | inr none_over ↦ rw none_over (omega arith)
  | inl over ↦ rw over (omega (arith, count_if-take-drop p n completed))
]

pub length-excess :
    (n : ℕ) (completed : List Backup)
    → 0 < n
    → length (keep_last_marks n completed) ≡ length completed - n
unfolding keep_last_marks
length-excess n completed h = elim (Bool-cases (ltb n (length completed))) [
  | inl over ↦
      let both : (ltb 0 n && ltb n (length completed)) ≡ true = ground arith in
      rw both (length-drop n completed)
  | inr within ↦
      let off : (ltb 0 n && ltb n (length completed)) ≡ false = ground arith in
      rw off (ground arith)
]
