-- ===== src/Schedule/Sorting.antt =====
-- repository.go: what the component relies on when it sorts backups by newest first, and an order
-- that has it.
use db_provision_operator.Base.{
  List, [], ◌∷◌, Bool, ◌≤◌, ◌≡◌, refl, All, All-map, count_if, if◌then◌else◌, ltb, arith, inl, inr,
  Bool-cases,
}
use db_provision_operator.Schedule.{Backup}

abbrev pub NewestFirst : List Backup → Type 0
NewestFirst [] = Unit
NewestFirst (b ∷ bs) = All (λ c. c.creation_timestamp ≤ b.creation_timestamp) bs × NewestFirst bs

-- `sort.Slice` orders the backups and keeps each as often as it was there.
pub record SortsNewestFirst (sort : List Backup → List Backup) : Type 0 where
  pub ordered : (bs : List Backup) → NewestFirst (sort bs)
  pub kept : (p : Backup → Bool) (bs : List Backup) → count_if p (sort bs) ≡ count_if p bs

abbrev pub insert_by_time : Backup → List Backup → List Backup
insert_by_time b [] = b ∷ []
insert_by_time b (c ∷ cs) =
    let rest = insert_by_time b cs in
    if ltb b.creation_timestamp c.creation_timestamp then c ∷ rest else b ∷ c ∷ cs

abbrev pub sort_by_time : List Backup → List Backup
sort_by_time [] = []
sort_by_time (b ∷ bs) = insert_by_time b (sort_by_time bs)

All-insert_by_time :
    (P : Backup → Type 0) (b : Backup) (cs : List Backup)
    → P b
    → All P cs
    → All P (insert_by_time b cs)
All-insert_by_time P b [] p h = (p, tt)
All-insert_by_time P b (c ∷ cs) p (q, h) =
    elim (Bool-cases (ltb b.creation_timestamp c.creation_timestamp)) [
      | inl lt ↦ rw lt (q, All-insert_by_time P b cs p h)
      | inr ge ↦ rw ge (p, (q, h))
    ]

insert_by_time-NewestFirst :
    (b : Backup) (cs : List Backup) → NewestFirst cs → NewestFirst (insert_by_time b cs)
insert_by_time-NewestFirst b [] h = (tt, tt)
insert_by_time-NewestFirst b (c ∷ cs) (below, h) =
    elim (Bool-cases (ltb b.creation_timestamp c.creation_timestamp)) [
      | inl lt ↦ rw lt (
        All-insert_by_time (λ x. x.creation_timestamp ≤ c.creation_timestamp) b cs (ground arith)
            below,
        insert_by_time-NewestFirst b cs h,
      )
      | inr ge ↦
          let c_le_b : c.creation_timestamp ≤ b.creation_timestamp = ground arith in
          rw ge (
            (
              c_le_b,
              All-map (λ x. x.creation_timestamp ≤ c.creation_timestamp)
                  (λ x. x.creation_timestamp ≤ b.creation_timestamp) (λ x p. omega arith) cs below,
            ),
            (below, h),
          )
    ]

count_if-insert_by_time :
    (p : Backup → Bool) (b : Backup) (cs : List Backup)
    → count_if p (insert_by_time b cs) ≡ count_if p (b ∷ cs)
count_if-insert_by_time p b [] = refl
count_if-insert_by_time p b (c ∷ cs) = ground (arith, count_if-insert_by_time p b cs)

sort_by_time-NewestFirst : (bs : List Backup) → NewestFirst (sort_by_time bs)
sort_by_time-NewestFirst [] = tt
sort_by_time-NewestFirst (b ∷ bs) =
    insert_by_time-NewestFirst b (sort_by_time bs) (sort_by_time-NewestFirst bs)

count_if-sort_by_time :
    (p : Backup → Bool) (bs : List Backup) → count_if p (sort_by_time bs) ≡ count_if p bs
count_if-sort_by_time p [] = refl
count_if-sort_by_time p (b ∷ bs) =
    ground (arith, count_if-insert_by_time p b (sort_by_time bs), count_if-sort_by_time p bs)

pub sort_by_time-SortsNewestFirst : SortsNewestFirst sort_by_time
sort_by_time-SortsNewestFirst = record {
  ordered = sort_by_time-NewestFirst;
  kept = count_if-sort_by_time;
}
