-- ===== src/Drift/Memberships.antt =====
-- The comparison of role memberships, compareRoleMemberships of internal/service/drift/user.go and
-- detectRoleMembershipDrift of grant.go.
pub mod Appending
pub mod Agreement
pub mod Granting
use db_provision_operator.Base.{
  Text, codes, List, [], ◌∷◌, ◌++◌, map, Bool, true, false, join, keys, sort_strings, outside,
  filter, comma_space,
}
use db_provision_operator.Drift.{Diff, add_diff}
use db_provision_operator.Drift.Adapter.{GrantInfo, equal_fold}

-- what is appended when names are missing
abbrev pub add_missing : Text → List Text → List Diff → List Diff
add_missing field [] diffs = diffs
add_missing field (n ∷ ns) diffs = add_diff diffs (record {
  field = field;
  expected = join comma_space (n ∷ ns);
  actual = [];
  destructive = false;
  immutable = false;
})

-- what is appended when there are names too many, which only a destructive correction removes
abbrev pub add_extra : Text → List Text → List Diff → List Diff
add_extra field [] diffs = diffs
add_extra field (n ∷ ns) diffs = add_diff diffs (record {
  field = field;
  expected = [];
  actual = join comma_space (n ∷ ns);
  destructive = true;
  immutable = false;
})

-- the keys of one set that are not in the other, sorted
unfoldable pub difference : List Text → List Text → List Text
difference of from = sort_strings (outside from (keys of))

-- compareRoleMemberships
unfoldable pub compare_role_memberships : List Text → List Text → List Diff → List Diff
compare_role_memberships expected actual diffs =
    add_extra (codes "inRoles.extra") (difference actual expected)
      (add_missing (codes "inRoles.missing") (difference expected actual) diffs)

-- the loop that builds `actualRoles`
unfoldable pub actual_roles : List GrantInfo → List Text
actual_roles grants =
    map (λ (g : GrantInfo). g.object_name)
      (filter (λ (g : GrantInfo). equal_fold g.object_type (codes "ROLE")) grants)

-- detectRoleMembershipDrift, whose loop over the expected roles keeps a role that is listed twice
unfoldable pub detect_role_membership_drift : List Text → List GrantInfo → List Diff → List Diff
detect_role_membership_drift expected grants diffs =
    add_extra (codes "roles.extra") (difference (actual_roles grants) expected) (
      add_missing (codes "roles.missing") (sort_strings (outside (actual_roles grants) expected))
        diffs)
