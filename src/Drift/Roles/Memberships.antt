-- ===== src/Drift/Roles/Memberships.antt =====
-- internal/service/drift/role.go: the correction of a role's memberships, which grants the roles of
-- the resource and keeps the attributes.
use db_provision_operator.Base.{
  List, Text, [], arith, member, member_nil, none, refl, ◌||◌, ◌∙◌, ◌∷◌, ◌≡◌,
}
use db_provision_operator.Drift.Adapter.{DatabaseAdapter, RoleInfo}
use db_provision_operator.Drift.Roles.{
  Attribute, PostgresRoleConfig, actual, apply_role_correction, attribute_of, grant_roles,
  update_role_roles,
}
use db_provision_operator.Drift.Roles.Remaining.{TracksRole, run}
use db_provision_operator.Drift.Memberships.Granting.{Grants, extra_diff, missing_diff}

module _ {S : Type 0} (adapter : DatabaseAdapter S) (name : Text) (c : PostgresRoleConfig)
    (info : S → RoleInfo) (tracks : TracksRole adapter name info) where
  abbrev pub SameAttributes : S → S → Type 0
  SameAttributes s t = (a : Attribute) → actual a (info t) ≡ actual a (info s)

  grant_keeps :
      (wants : List Text) (s : S)
      → (grant_roles adapter name wants s).1 ≡ none
      → SameAttributes s ((grant_roles adapter name wants s).0)
  grant_keeps [] s h = λ a. refl
  grant_keeps (r ∷ rs) s h = tracks.granted_attributes s (r ∷ rs) h

  grant_grows :
      (wants : List Text) (s : S)
      → (grant_roles adapter name wants s).1 ≡ none
      → (z : Text)
      → member z ((info ((grant_roles adapter name wants s).0)).in_roles)
        ≡ (member z ((info s).in_roles) || member z wants)
  grant_grows [] s h z = ground (arith, member_nil z)
  grant_grows (r ∷ rs) s h z = tracks.granted s (r ∷ rs) h z

  pub role_grants :
      Grants
        (grant_roles adapter name c.in_roles)
        (λ s. (info s).in_roles)
        c.in_roles
        SameAttributes
  role_grants = record {
    keeps_refl = λ s a. refl;
    keeps_trans = λ s t u p q a. q a ∙ p a;
    keeps = λ s h. grant_keeps c.in_roles s h;
    grows = λ s h z. grant_grows c.in_roles s h z;
  }

  pub run-missing :
      (n : Text) (ns : List Text) (s : S)
      → run adapter name c (missing_diff n ns) s ≡ grant_roles adapter name c.in_roles s
  unfolding apply_role_correction attribute_of update_role_roles
  run-missing n ns s = refl

  pub run-extra :
      (n : Text) (ns : List Text) (s : S)
      → run adapter name c (extra_diff n ns) s ≡ grant_roles adapter name c.in_roles s
  unfolding apply_role_correction attribute_of update_role_roles
  run-extra n ns s = refl
