-- ===== src/Drift/Correction/Answered.antt =====
-- The loop of internal/service/drift/{grant,role,user,database}.go over the diffs of a detection:
-- what the database has answered where no failure is noted.
use mathlib.Core.Path.{subst}
use db_provision_operator.Base.{
  Bool, List, Text, [], ap, filter, inl, inr, none, refl, some, sym, ◌++◌, ◌∙◌, ◌∷◌, ◌≡◌, ◌≢◌,
}
use db_provision_operator.Drift.{
  CorrectionResult, Diff, FailedDiff, Reply, correct_diff, correct_diffs, note_applied,
  new_correction_result,
}
use db_provision_operator.Drift.Correction.{
  AllAnswered, apply_each, correct_diff-Accounts, correct_diff-cases, filter-append, is_allowed,
  apply_each-append, correct_diffs-Accounts,
}

module _ {ℓ} {S : Type ℓ} (allow : Bool) (reason : Text) (apply : Diff → S → Reply S) where
  nil_append : (xs : List FailedDiff) (x : FailedDiff) → (xs ++ (x ∷ [])) ≢ []
  nil_append [] x e = absurd (cc)
  nil_append (y ∷ ys) x e = absurd (cc)

  note_applied-answered :
      (d : Diff) (r : CorrectionResult) (y : Reply S)
      → ((note_applied r d y).1).failed ≡ []
      → (y.1 ≡ none) × (r.failed ≡ [])
  note_applied-answered d r (t, none) h = (refl, h)
  note_applied-answered d r (t, some e) h =
      absurd (nil_append r.failed (record { diff = d; error = e }) h)

  one_answered :
      (d : Diff) (x : S × CorrectionResult)
      → ((correct_diff allow reason apply d x).1).failed ≡ []
      → AllAnswered apply (filter (is_allowed allow) (d ∷ [])) (x.0) × ((x.1).failed ≡ [])
  one_answered d (s, r) h = elim (correct_diff-cases allow reason apply d s r) [
    | inl (k, e) ↦
        let q = note_applied-answered d r (apply d s) (rw (sym e) h) in rw k ((q.0, tt), q.1)
    | inr (k, (why, e)) ↦ rw k (tt, sym (ap (λ y. (y.1).failed) e) ∙ h)
  ]

  AllAnswered-append :
      (ds es : List Diff) (s : S)
      → AllAnswered apply ds s
      → AllAnswered apply es (apply_each apply ds s)
      → AllAnswered apply (ds ++ es) s
  unfolding apply_each
  AllAnswered-append [] es s h k = k
  AllAnswered-append (d ∷ ds) es s (a, h) k = (a, AllAnswered-append ds es ((apply d s).0) h k)

  -- A correction that notes no failure has had every allowed diff answered without an error.
  pub correct_diffs-AllAnswered :
      (ds : List Diff) (x : S × CorrectionResult)
      → ((correct_diffs allow reason apply ds x).1).failed ≡ []
      → AllAnswered apply (filter (is_allowed allow) ds) (x.0) × ((x.1).failed ≡ [])
  unfolding correct_diffs
  correct_diffs-AllAnswered [] x h = (tt, h)
  correct_diffs-AllAnswered (d ∷ ds) x h =
      let one = correct_diff allow reason apply d x in
      let (rest, clean) = correct_diffs-AllAnswered ds one h in
      let (head, before) = one_answered d x clean in
      let there = (correct_diff-Accounts allow reason apply d x).0 in
      let rest2 : AllAnswered apply (filter (is_allowed allow) ds)
          (apply_each apply (filter (is_allowed allow) (d ∷ [])) (x.0)) =
        rw (sym there) rest in
      (
        rw (filter-append (is_allowed allow) (d ∷ []) ds) (
            AllAnswered-append (filter (is_allowed allow) (d ∷ [])) (filter (is_allowed allow) ds)
              (x.0) head rest2),
        before,
      )

pub AllAnswered-before {ℓ} :
    {S : Type ℓ} (apply : Diff → S → Reply S) (ds es : List Diff) (s : S)
    → AllAnswered apply (ds ++ es) s
    → AllAnswered apply ds s × AllAnswered apply es (apply_each apply ds s)
unfolding apply_each
AllAnswered-before apply [] es s h = (tt, h)
AllAnswered-before apply (d ∷ ds) es s (a, h) =
    let (k, l) = AllAnswered-before apply ds es ((apply d s).0) h in ((a, k), l)

-- The diffs of a detection in two parts, the second applied behind the first.
pub answered_parts {ℓ} :
    {S : Type ℓ} (allow : Bool) (apply : Diff → S → Reply S) (found first second : List Diff)
    (s : S)
    → found ≡ first ++ second
    → AllAnswered apply (filter (is_allowed allow) found) s
    → AllAnswered apply (filter (is_allowed allow) first) s
      × AllAnswered apply
          (filter (is_allowed allow) second)
          (apply_each apply (filter (is_allowed allow) first) s)
      × (apply_each apply (filter (is_allowed allow) found) s
          ≡ apply_each apply
              (filter (is_allowed allow) second)
              (apply_each apply (filter (is_allowed allow) first) s))
answered_parts allow apply found first second s e h =
    let one = filter (is_allowed allow) first in
    let two = filter (is_allowed allow) second in
    let cut : filter (is_allowed allow) found ≡ one ++ two =
      ap (filter (is_allowed allow)) e ∙ filter-append (is_allowed allow) first second in
    let (h1, h2) =
      AllAnswered-before apply one two s (subst (λ ds. AllAnswered apply ds s) cut h) in
    (h1, h2, ap (λ ds. apply_each apply ds s) cut ∙ apply_each-append apply one two s)

-- A correction without failures, of diffs that are known: they have all been answered, and the
-- database is the one behind them.
pub correct_diffs-settled {ℓ} :
    {S : Type ℓ} (allow : Bool) (reason : Text) (apply : Diff → S → Reply S) (ds found : List Diff)
    (s : S) (name : Text)
    → ds ≡ found
    → ((correct_diffs allow reason apply ds (s, new_correction_result name)).1).failed ≡ []
    → AllAnswered apply (filter (is_allowed allow) found) s
      × ((correct_diffs allow reason apply ds (s, new_correction_result name)).0
          ≡ apply_each apply (filter (is_allowed allow) found) s)
correct_diffs-settled {S = S} allow reason apply ds found s name e clean =
    let start : S × CorrectionResult = (s, new_correction_result name) in
    let (answered, empty) = correct_diffs-AllAnswered allow reason apply ds start clean in
    (
      subst (λ l. AllAnswered apply (filter (is_allowed allow) l) s) e answered,
      (correct_diffs-Accounts allow reason apply ds start).0
          ∙ ap (λ l. apply_each apply (filter (is_allowed allow) l) s) e,
    )
