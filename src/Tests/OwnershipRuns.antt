-- ===== src/Tests/OwnershipRuns.antt =====
-- The ownership service over a database that lists its roles and the default privileges set so far.
use db_provision_operator.Base.{
  All, Bool, List, Text, [], arith, codes, comma_space, join, keys, member, none, ok, refl,
  same_text, same_text_refl, some, some_of, true, ◌&&◌, ◌∷◌, ◌≡◌, ◌≤◌, length, ◌↔◌,
}
use db_provision_operator.Errors.{foreign, wrapped}
use db_provision_operator.Drift.Databases.{truncate_identifier}
use db_provision_operator.Ownership.{
  DefaultPrivilegeGrantOptions, OwnershipAdapter, derive_role_name, derive_user_name,
  drop_ownership_resources, ensure_owner_role, ensure_owner_user, priv_defs, set_default_privileges,
  transfer_ownership,
}
use db_provision_operator.Ownership.Names.{derive_role_name-clash}
use db_provision_operator.Ownership.Privileges.{
  BothWays, TracksPrivileges, set_default_privileges-both,
}

abbrev Rows : Type 0
Rows = List (Text × DefaultPrivilegeGrantOptions)

record Server : Type 0 where
  roles : List Text
  rows : Rows

abbrev rows_of : Text → List DefaultPrivilegeGrantOptions → Rows → Rows
rows_of grantee [] rows = rows
rows_of grantee (o ∷ os) rows = (grantee, o) ∷ rows_of grantee os rows

abbrev same_options : DefaultPrivilegeGrantOptions → DefaultPrivilegeGrantOptions → Bool
same_options o p =
    same_text o.database p.database
    && (same_text o.schema p.schema
        && (same_text o.granted_by p.granted_by
            && (same_text o.object_type p.object_type
                && same_text (join comma_space o.privileges) (join comma_space p.privileges))))

abbrev is_row : Text → DefaultPrivilegeGrantOptions → Text × DefaultPrivilegeGrantOptions → Bool
is_row grantee o x = same_text (x.0) grantee && same_options (x.1) o

abbrev holds : Text → DefaultPrivilegeGrantOptions → Server → Bool
holds grantee o s = some_of (is_row grantee o) s.rows

abbrev server : OwnershipAdapter Server
server = record {
  role_exists = λ name s. ok (member name s.roles);
  create_role = λ o s. (record { roles = o.role_name ∷ s.roles; rows = s.rows }, none);
  drop_role = λ name s. (s, none);
  grant_role = λ grantee names s. (s, none);
  transfer_database_ownership = λ db_name role s. (s, none);
  set_default_privileges =
      λ grantee os s. (record { roles = s.roles; rows = rows_of grantee os s.rows }, none);
}

rows_of-keeps :
    (grantee : Text) (os : List DefaultPrivilegeGrantOptions) (rows : Rows) (other : Text)
    (o : DefaultPrivilegeGrantOptions)
    → some_of (is_row other o) rows ≡ true
    → some_of (is_row other o) (rows_of grantee os rows) ≡ true
rows_of-keeps grantee [] rows other o h = h
rows_of-keeps grantee (p ∷ os) rows other o h =
    ground (arith, rows_of-keeps grantee os rows other o h)

server_tracks : TracksPrivileges server holds
server_tracks = record {
  sets = λ grantee o s h. rw (same_text_refl grantee) (
      rw (same_text_refl o.database) (
        rw (same_text_refl o.schema) (
          rw (same_text_refl o.granted_by) (
            rw (same_text_refl o.object_type)
              (rw (same_text_refl (join comma_space o.privileges)) refl)))));
  keeps = λ grantee os s other o h. rows_of-keeps grantee os s.rows other o h;
}

abbrev empty_server : Server
empty_server = record { roles = []; rows = [] }

set_default_privileges-both_example :
    All
      (λ dp.
        BothWays server holds server_tracks
          (codes "shop")
          (codes "owner")
          (codes "app")
          (codes "sales")
          dp
          ((set_default_privileges server
            (λ xs. xs)
            (codes "shop")
            (codes "owner")
            (codes "app")
            (codes "sales" ∷ [])
            empty_server).0))
      priv_defs
set_default_privileges-both_example =
    set_default_privileges-both server holds server_tracks (codes "shop") (codes "owner")
      (codes "app") (λ xs. xs) (codes "sales" ∷ []) empty_server (λ xs z. refl)
      (unfold set_default_privileges keys member in refl) (codes "sales") (unfold member in refl)

abbrev long_name : Text
long_name = codes "warehouse_of_the_northern_and_the_southern_branch_of_the_shop"

derive_role_name-clash_example :
    (derive_role_name none long_name ≡ derive_user_name none long_name) ↔ (59 ≤ length long_name)
derive_role_name-clash_example = derive_role_name-clash none long_name refl refl

ensured :
    (ensure_owner_user server
      (codes "db_shop_app")
      (codes "db_shop_owner")
      ((ensure_owner_role server (codes "db_shop_owner") empty_server).0))
    ≡ (record { roles = codes "db_shop_app" ∷ codes "db_shop_owner" ∷ []; rows = [] }, none)
unfolding ensure_owner_user ensure_owner_role member
ensured = refl

-- The two names of a database with a long name are the same, and those of another one are not.
clashing : derive_role_name none long_name ≡ derive_user_name none long_name
unfolding derive_role_name derive_user_name truncate_identifier
clashing = refl

named :
    derive_user_name
      (some (record { auto_ownership = true; role_name = []; user_name = codes "joe" }))
      (codes "shop")
    ≡ codes "joe"
unfolding derive_user_name
named = refl

transferred :
    transfer_ownership
      (record {
        role_exists = server.role_exists;
        create_role = server.create_role;
        drop_role = server.drop_role;
        grant_role = server.grant_role;
        transfer_database_ownership = λ db_name role s. (s, some (foreign (codes "denied")));
        set_default_privileges = server.set_default_privileges;
      })
      (codes "shop")
      (codes "owner")
      empty_server
    ≡ (empty_server, some (wrapped (codes "transfer ownership: ") (foreign (codes "denied"))))
unfolding transfer_ownership
transferred = refl

dropped :
    drop_ownership_resources server (codes "owner") (codes "app") empty_server
    ≡ (empty_server, none)
unfolding drop_ownership_resources
dropped = refl
