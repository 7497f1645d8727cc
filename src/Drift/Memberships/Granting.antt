-- ===== src/Drift/Memberships/Granting.antt =====
-- internal/service/drift/{role,user}.go: what the correction of memberships changes. Missing and
-- superfluous memberships are corrected alike, by granting the roles of the resource.
use mathlib.Core.Path.{subst}
use db_provision_operator.Base.{
  Bool, List, Text, [], ap, arith, codes, comma_space, false, filter, inl, inr, join, member, none,
  refl, sym, true, ◌||◌, ◌∙◌, ◌∷◌, ◌≡◌, ◌⊎◌,
}
use db_provision_operator.Drift.{Diff, Reply}
use db_provision_operator.Drift.Memberships.{
  add_extra, add_missing, compare_role_memberships, difference,
}
use db_provision_operator.Drift.Memberships.Agreement.{difference-eq, difference-none}
use db_provision_operator.Drift.Correction.{AllAnswered, apply_each, is_allowed}

abbrev pub missing_diff : Text → List Text → Diff
missing_diff n ns = record {
  field = codes "inRoles.missing";
  expected = join comma_space (n ∷ ns);
  actual = [];
  destructive = false;
  immutable = false;
}

abbrev pub extra_diff : Text → List Text → Diff
extra_diff n ns = record {
  field = codes "inRoles.extra";
  expected = [];
  actual = join comma_space (n ∷ ns);
  destructive = true;
  immutable = false;
}

abbrev pub membership_diffs : List Text → List Text → List Diff
membership_diffs missing extra =
    add_extra (codes "inRoles.extra") extra (add_missing (codes "inRoles.missing") missing [])

pub compare_role_memberships_diffs :
    (wants has : List Text)
    → compare_role_memberships wants has []
      ≡ membership_diffs (difference wants has) (difference has wants)
unfolding compare_role_memberships
compare_role_memberships_diffs wants has = refl

-- The memberships have grown by the roles of the resource, or stayed as they were where none was
-- missing.
abbrev pub Grown : List Text → List Text → List Text → List Text → Type 0
Grown wants missing before after =
    ((z : Text) → member z after ≡ (member z before || member z wants))
    ⊎ ((missing ≡ []) × (after ≡ before))

-- What the next comparison of the memberships finds: nothing is missing, and the superfluous ones
-- are those that there were.
pub compared_after :
    (wants before after : List Text)
    → Grown wants (difference wants before) before after
    → compare_role_memberships wants after []
      ≡ add_extra (codes "inRoles.extra") (difference before wants) []
unfolding compare_role_memberships
compared_after wants before after (inl m) =
    let same = difference-eq after before wants wants (λ z. rw (m z) (ground arith)) in
    let no_more = (difference-none wants after).1 (λ z h. m z ∙ (ground arith)) in
    rw same (rw no_more refl)
compared_after wants before after (inr (e, k)) = rw k (rw e refl)

-- A grant of the resource's roles keeps what is to be kept and adds them to the memberships.
pub record Grants {S : Type 0} (grant : S → Reply S) (roles_of : S → List Text) (wants : List Text)
    (Keeps : S → S → Type 0) : Type 0 where
  pub keeps_refl : (s : S) → Keeps s s
  pub keeps_trans : (s t u : S) → Keeps s t → Keeps t u → Keeps s u
  pub keeps : (s : S) → (grant s).1 ≡ none → Keeps s ((grant s).0)
  pub grows :
      (s : S)
      → (grant s).1 ≡ none
      → (z : Text) → member z (roles_of ((grant s).0)) ≡ (member z (roles_of s) || member z wants)

module _ {S : Type 0} (run : Diff → S → Reply S) (grant : S → Reply S) (roles_of : S → List Text)
    (wants : List Text) (Keeps : S → S → Type 0) (grants : Grants grant roles_of wants Keeps)
    (run-missing : (n : Text) (ns : List Text) (s : S) → run (missing_diff n ns) s ≡ grant s)
    (run-extra : (n : Text) (ns : List Text) (s : S) → run (extra_diff n ns) s ≡ grant s) where
  abbrev Stepped : S → S → Type 0
  Stepped s t =
      Keeps s t × ((z : Text) → member z (roles_of t) ≡ (member z (roles_of s) || member z wants))

  Stepped-then : (s t u : S) → Stepped s t → Stepped t u → Stepped s u
  Stepped-then s t u (a, m) (b, n) =
      (grants.keeps_trans s t u a b, λ z. n z ∙ (rw (m z) (ground arith)))

  stepped : (s : S) (y : Reply S) → y ≡ grant s → y.1 ≡ none → Stepped s (y.0)
  stepped s y e h =
      let clean = sym (ap (λ w. w.1) e) ∙ h in rw e (grants.keeps s clean, grants.grows s clean)

  pub after_memberships :
      (allow : Bool) (missing extra : List Text) (s : S)
      → AllAnswered run (filter (is_allowed allow) (membership_diffs missing extra)) s
      → Keeps s (apply_each run (filter (is_allowed allow) (membership_diffs missing extra)) s)
        × Grown wants missing (roles_of s) (
            roles_of
              (apply_each run (filter (is_allowed allow) (membership_diffs missing extra)) s))
  unfolding is_allowed apply_each
  after_memberships allow [] [] s h = (grants.keeps_refl s, inr (refl, refl))
  after_memberships false [] (k ∷ ks) s h = (grants.keeps_refl s, inr (refl, refl))
  after_memberships true [] (k ∷ ks) s h =
      let (a, m) = stepped s (run (extra_diff k ks) s) (run-extra k ks s) (h.0) in (a, inl m)
  after_memberships allow (n ∷ ns) [] s h =
      let (a, m) = stepped s (run (missing_diff n ns) s) (run-missing n ns s) (h.0) in (a, inl m)
  after_memberships false (n ∷ ns) (k ∷ ks) s h =
      let (a, m) = stepped s (run (missing_diff n ns) s) (run-missing n ns s) (h.0) in (a, inl m)
  after_memberships true (n ∷ ns) (k ∷ ks) s h =
      let t = (run (missing_diff n ns) s).0 in
      let one = stepped s (run (missing_diff n ns) s) (run-missing n ns s) (h.0) in
      let two = stepped t (run (extra_diff k ks) t) (run-extra k ks t) ((h.1).0) in
      let (a, m) = Stepped-then s t ((run (extra_diff k ks) t).0) one two in (a, inl m)

  -- What is kept behind the correction of the diffs of a comparison, and what the next one finds.
  pub memberships_left :
      (allow : Bool) (before : List Text) (t : S)
      → roles_of t ≡ before
      → AllAnswered run
          (filter
            (is_allowed allow)
            (membership_diffs (difference wants before) (difference before wants)))
          t
      → (u : S) × ((u
            ≡ apply_each run
                (filter
                  (is_allowed allow)
                  (membership_diffs (difference wants before) (difference before wants)))
                t)
          × Keeps t u
          × (compare_role_memberships wants (roles_of u) []
              ≡ add_extra (codes "inRoles.extra") (difference before wants) []))
  memberships_left allow before t e h =
      let u =
        apply_each run
          (filter (is_allowed allow)
            (membership_diffs (difference wants before) (difference before wants)))
          t in
      let (same, grown) =
        after_memberships allow (difference wants before) (difference before wants) t h in
      (
        u,
        (
          refl,
          same,
          compared_after wants before (roles_of u)
              (subst (λ rs. Grown wants (difference wants before) rs (roles_of u)) e grown),
        ),
      )
