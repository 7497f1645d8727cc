-- ===== src/Drift/Correction.antt =====
-- The loop of internal/service/drift/{grant,role,user,database}.go over the diffs of a detection:
-- which of them reach the database, and where each is noted.
pub mod Answered
use db_provision_operator.Base.{
  ℕ, ◌+◌, Text, List, [], ◌∷◌, ◌++◌, map, Bool, true, false, not, ◌&&◌, ◌||◌, none, some, ◌≡◌, refl,
  sym, ap, ◌∙◌, inl, inr, arith, Bool-cases, filter, count_if, count_if-append, append_assoc,
  append-nil, ◌⊎◌, ◌≢◌, All,
}
use db_provision_operator.Drift.{
  Diff, CorrectedDiff, SkippedDiff, FailedDiff, CorrectionResult, Reply, correct_diff,
  correct_diffs, note_applied, add_corrected, add_failed, add_skipped, immutable_reason,
}
use db_provision_operator.Errors.{GoError}

-- what a correction may touch: nothing immutable, and destructive diffs only where that is allowed
unfoldable pub is_allowed : Bool → Diff → Bool
is_allowed allow d = not d.immutable && (not d.destructive || allow)

-- the diffs one after the other, whatever each of them answers
unfoldable pub apply_each {ℓ} : {S : Type ℓ} → (Diff → S → Reply S) → List Diff → S → S
apply_each apply [] s = s
apply_each apply (d ∷ ds) s = apply_each apply ds ((apply d s).0)

abbrev pub corrected_diffs : CorrectionResult → List Diff
corrected_diffs r = map (λ (c : CorrectedDiff). c.diff) r.corrected

abbrev pub skipped_diffs : CorrectionResult → List Diff
skipped_diffs r = map (λ (c : SkippedDiff). c.diff) r.skipped

abbrev pub failed_diffs : CorrectionResult → List Diff
failed_diffs r = map (λ (c : FailedDiff). c.diff) r.failed

map-append {ℓ κ} :
    {A : Type ℓ} {B : Type κ} (f : A → B) (xs ys : List A) → map f (xs ++ ys) ≡ map f xs ++ map f ys
map-append f [] ys = refl
map-append f (x ∷ xs) ys = ap (λ l. f x ∷ l) (map-append f xs ys)

-- How many diffs of a kind are noted as corrected or as failed.
abbrev pub attempted : (Diff → Bool) → CorrectionResult → ℕ
attempted p r = count_if p (corrected_diffs r) + count_if p (failed_diffs r)

attempted-add_corrected :
    (p : Diff → Bool) (r : CorrectionResult) (d : Diff)
    → attempted p (add_corrected r d) ≡ attempted p r + count_if p (d ∷ [])
attempted-add_corrected p r d =
    rw (map-append (λ (c : CorrectedDiff). c.diff) r.corrected (record { diff = d } ∷ []))
      (omega (arith, count_if-append p (corrected_diffs r) (d ∷ [])))

attempted-add_failed :
    (p : Diff → Bool) (r : CorrectionResult) (d : Diff) (e : GoError)
    → attempted p (add_failed r d e) ≡ attempted p r + count_if p (d ∷ [])
attempted-add_failed p r d e =
    rw (map-append (λ (c : FailedDiff). c.diff) r.failed (record { diff = d; error = e } ∷ []))
      (omega (arith, count_if-append p (failed_diffs r) (d ∷ [])))

pub filter-append {ℓ} :
    {A : Type ℓ} (p : A → Bool) (xs ys : List A) → filter p (xs ++ ys) ≡ filter p xs ++ filter p ys
filter-append p [] ys = refl
filter-append p (x ∷ xs) ys = elim (Bool-cases (p x)) [
  | inl h ↦ rw h (ap (λ l. x ∷ l) (filter-append p xs ys))
  | inr h ↦ rw h (filter-append p xs ys)
]

-- Every diff of a list, applied after the ones before it, is answered without an error.
abbrev pub AllAnswered {ℓ} : {S : Type ℓ} → (Diff → S → Reply S) → List Diff → S → Type 0
AllAnswered apply [] s = Unit
AllAnswered apply (d ∷ ds) s = ((apply d s).1 ≡ none) × AllAnswered apply ds ((apply d s).0)

pub apply_each-append {ℓ} :
    {S : Type ℓ} (apply : Diff → S → Reply S) (ds es : List Diff) (s : S)
    → apply_each apply (ds ++ es) s ≡ apply_each apply es (apply_each apply ds s)
unfolding apply_each
apply_each-append apply [] es s = refl
apply_each-append apply (d ∷ ds) es s = apply_each-append apply ds es ((apply d s).0)

module _ {ℓ} {S : Type ℓ} (allow : Bool) (reason : Text) (apply : Diff → S → Reply S) where
  -- From one state and result to a later one, over these diffs.
  abbrev pub Accounts : List Diff → S × CorrectionResult → S × CorrectionResult → Type ℓ
  Accounts ds x y =
      (y.0 ≡ apply_each apply (filter (is_allowed allow) ds) (x.0))
      × ((skipped_diffs (y.1) ≡ skipped_diffs (x.1) ++ filter (λ d. not (is_allowed allow d)) ds)
          × ((p : Diff → Bool)
              → attempted p (y.1) ≡ attempted p (x.1) + count_if p (filter (is_allowed allow) ds)))

  pub correct_diff-cases :
      (d : Diff) (s : S) (r : CorrectionResult)
      → ((is_allowed allow d ≡ true)
          × (correct_diff allow reason apply d (s, r) ≡ note_applied r d (apply d s)))
        ⊎ ((is_allowed allow d ≡ false)
            × ((why : Text) × (correct_diff allow reason apply d (s, r)
                  ≡ (s, add_skipped r d why))))
  unfolding correct_diff is_allowed
  correct_diff-cases d s r = elim (Bool-cases d.immutable) [
    | inl h ↦ inr (ground arith, (immutable_reason, rw h refl))
    | inr h ↦ elim (Bool-cases (d.destructive && not allow)) [
      | inl k ↦ inr (ground arith, (reason, rw h (rw k refl)))
      | inr k ↦ inl (ground arith, rw h (rw k refl))
    ]
  ]

  note_applied-Accounts :
      (d : Diff) (s : S) (r : CorrectionResult) (y : Reply S)
      → apply d s ≡ y
      → is_allowed allow d ≡ true
      → Accounts (d ∷ []) (s, r) (note_applied r d y)
  unfolding apply_each
  note_applied-Accounts d s r (t, none) e h =
      rw h (rw e (refl, (sym (append-nil (skipped_diffs r)), λ p. attempted-add_corrected p r d)))
  note_applied-Accounts d s r (t, some x) e h =
      rw h (rw e (refl, (sym (append-nil (skipped_diffs r)), λ p. attempted-add_failed p r d x)))

  add_skipped-Accounts :
      (d : Diff) (s : S) (r : CorrectionResult) (why : Text)
      → is_allowed allow d ≡ false
      → Accounts (d ∷ []) (s, r) (s, add_skipped r d why)
  unfolding apply_each
  add_skipped-Accounts d s r why h = rw h (
    refl,
    (
      map-append (λ (c : SkippedDiff). c.diff) r.skipped (record { diff = d; reason = why } ∷ []),
      λ p. omega arith,
    ),
  )

  pub correct_diff-Accounts :
      (d : Diff) (x : S × CorrectionResult)
      → Accounts (d ∷ []) x (correct_diff allow reason apply d x)
  correct_diff-Accounts d (s, r) = elim (correct_diff-cases d s r) [
    | inl (h, e) ↦ rw e (note_applied-Accounts d s r (apply d s) refl h)
    | inr (h, (why, e)) ↦ rw e (add_skipped-Accounts d s r why h)
  ]

  Accounts-append :
      (ds es : List Diff) (x y z : S × CorrectionResult)
      → Accounts ds x y
      → Accounts es y z
      → Accounts (ds ++ es) x z
  Accounts-append ds es x y z (a, (b, c)) (a2, (b2, c2)) = (
    rw (filter-append (is_allowed allow) ds es) (
        a2
        ∙ (rw a (
            sym (
              apply_each-append apply (filter (is_allowed allow) ds) (filter (is_allowed allow) es)
                (x.0))))),
    (
      rw (filter-append (λ d. not (is_allowed allow d)) ds es) (
          rw b2 (
            rw b (
              append_assoc (skipped_diffs (x.1)) (filter (λ d. not (is_allowed allow d)) ds)
                (filter (λ d. not (is_allowed allow d)) es)))),
      λ p. rw (filter-append (is_allowed allow) ds es) (
          omega (
            arith,
            c p,
            c2 p,
            count_if-append p (filter (is_allowed allow) ds) (filter (is_allowed allow) es),
          )),
    ),
  )

  -- Over any list of diffs: the database is the one behind exactly the allowed diffs, applied one
  -- after the other; the skipped diffs grow by exactly the others, in order; and of any kind of
  -- diff as many are noted as corrected or failed as there are allowed ones.
  pub correct_diffs-Accounts :
      (ds : List Diff) (x : S × CorrectionResult)
      → Accounts ds x (correct_diffs allow reason apply ds x)
  unfolding correct_diffs
  correct_diffs-Accounts [] x =
      unfold apply_each in (refl, (sym (append-nil (skipped_diffs (x.1))), λ p. omega arith))
  correct_diffs-Accounts (d ∷ ds) x =
      let one = correct_diff allow reason apply d x in
      Accounts-append (d ∷ []) ds x one (correct_diffs allow reason apply ds one)
        (correct_diff-Accounts d x) (correct_diffs-Accounts ds one)
