-- ===== src/Ownership.antt =====
-- internal/service/ownership.go: the names of the role that owns a database and of its login user,
-- and what the service asks of the database to have and to drop them.
pub mod Names
pub mod Privileges
use db_provision_operator.Base.{
  List, Option, Result, Text, [], codes, err, false, is_empty, keys, none, ok, some, true, ◌++◌,
  ◌∷◌, Bool, if◌then◌else◌,
}
use db_provision_operator.Errors.{GoError, wrapped}
use db_provision_operator.Drift.{Reply}
use db_provision_operator.Drift.Databases.{OwnershipConfig, truncate_identifier}

abbrev pub configured_role : Option OwnershipConfig → Text
configured_role none = []
configured_role (some o) = o.role_name

abbrev pub configured_user : Option OwnershipConfig → Text
configured_user none = []
configured_user (some o) = o.user_name

-- DeriveRoleName
unfoldable pub derive_role_name : Option OwnershipConfig → Text → Text
derive_role_name cfg db_name =
    if is_empty (configured_role cfg)
    then truncate_identifier (codes "db_" ++ (db_name ++ codes "_owner"))
    else configured_role cfg

-- DeriveUserName
unfoldable pub derive_user_name : Option OwnershipConfig → Text → Text
derive_user_name cfg db_name =
    if is_empty (configured_user cfg)
    then truncate_identifier (codes "db_" ++ (db_name ++ codes "_app"))
    else configured_user cfg

pub record DefaultPrivilegeGrantOptions : Type 0 where
  pub database : Text
  pub schema : Text
  pub granted_by : Text
  pub object_type : Text
  pub privileges : List Text

-- the options of a new role that this code sets; the other ones are left at false
pub record CreateRoleOptions : Type 0 where
  pub role_name : Text
  pub login : Bool
  pub inherit : Bool

pub record OwnershipAdapter (S : Type 0) : Type 0 where
  pub role_exists : Text → S → Result GoError Bool
  pub create_role : CreateRoleOptions → S → Reply S
  pub drop_role : Text → S → Reply S
  pub grant_role : Text → List Text → S → Reply S
  pub transfer_database_ownership : Text → Text → S → Reply S
  pub set_default_privileges : Text → List DefaultPrivilegeGrantOptions → S → Reply S

-- `if err != nil { return fmt.Errorf("…: %w", err) }`
abbrev pub wrap_error : {S : Type 0} → Text → Reply S → Reply S
wrap_error prefix (s, none) = (s, none)
wrap_error prefix (s, some e) = (s, some (wrapped prefix e))

-- the next call, unless an error has been returned
abbrev pub and_then : {S : Type 0} → Reply S → (S → Reply S) → Reply S
and_then (s, none) next = next s
and_then (s, some e) next = (s, some e)

-- a loop whose body may return an error
abbrev pub for_each : {A S : Type 0} → (A → S → Reply S) → List A → S → Reply S
for_each body [] s = (s, none)
for_each body (x ∷ xs) s = and_then (body x s) (λ t. for_each body xs t)

-- defaultPriv
pub record DefaultPriv : Type 0 where
  pub object_type : Text
  pub privileges : List Text

abbrev pub priv_defs : List DefaultPriv
priv_defs =
    record {
      object_type = codes "tables";
      privileges = codes "SELECT" ∷ codes "INSERT" ∷ codes "UPDATE" ∷ codes "DELETE" ∷ [];
    }
    ∷ record { object_type = codes "sequences"; privileges = codes "USAGE" ∷ codes "SELECT" ∷ [] }
    ∷ record { object_type = codes "functions"; privileges = codes "EXECUTE" ∷ [] }
    ∷ []

abbrev pub default_options : Text → Text → Text → DefaultPriv → DefaultPrivilegeGrantOptions
default_options db_name granted_by schema dp = record {
  database = db_name;
  schema = schema;
  granted_by = granted_by;
  object_type = dp.object_type;
  privileges = dp.privileges;
}

abbrev pub privileges_prefix : Text → Text → DefaultPriv → Text
privileges_prefix direction schema dp =
    codes "set "
    ++ (direction
        ++ (codes " default privileges for "
            ++ (dp.object_type ++ (codes " in " ++ (schema ++ codes ": ")))))

module _ {S : Type 0} (adapter : OwnershipAdapter S) where
  abbrev pub create_unless : Bool → Text → Bool → Text → S → Reply S
  create_unless true name login prefix s = (s, none)
  create_unless false name login prefix s =
      wrap_error prefix
        (adapter.create_role (record { role_name = name; login = login; inherit = true }) s)

  -- EnsureOwnerRole, on what RoleExists answered
  abbrev pub ensure_role_after : Result GoError Bool → Text → S → Reply S
  ensure_role_after (err e) role_name s = (s, some (wrapped (codes "check role existence: ") e))
  ensure_role_after (ok exists) role_name s =
      create_unless exists role_name false (codes "create owner role: ") s

  -- EnsureOwnerRole
  unfoldable pub ensure_owner_role : Text → S → Reply S
  ensure_owner_role role_name s = ensure_role_after (adapter.role_exists role_name s) role_name s

  -- EnsureOwnerUser, on what RoleExists answered
  abbrev pub ensure_user_after : Result GoError Bool → Text → Text → S → Reply S
  ensure_user_after (err e) user_name role_name s =
      (s, some (wrapped (codes "check user existence: ") e))
  ensure_user_after (ok exists) user_name role_name s =
      and_then (create_unless exists user_name true (codes "create owner user: ") s) (λ t.
        wrap_error (codes "grant role to user: ") (adapter.grant_role user_name (role_name ∷ []) t))

  -- EnsureOwnerUser
  unfoldable pub ensure_owner_user : Text → Text → S → Reply S
  ensure_owner_user user_name role_name s =
      ensure_user_after (adapter.role_exists user_name s) user_name role_name s

  -- TransferOwnership
  unfoldable pub transfer_ownership : Text → Text → S → Reply S
  transfer_ownership db_name role_name s =
      wrap_error (codes "transfer ownership: ")
        (adapter.transfer_database_ownership db_name role_name s)

  -- SetDefaultPrivileges for a type of objects in a schema, one way and both ways
  abbrev pub set_one_way : Text → Text → Text → Text → Text → DefaultPriv → S → Reply S
  set_one_way direction db_name granted_by grantee schema dp s =
      wrap_error (privileges_prefix direction schema dp) (
        adapter.set_default_privileges grantee (default_options db_name granted_by schema dp ∷ [])
          s)

  abbrev pub set_both : Text → Text → Text → Text → DefaultPriv → S → Reply S
  set_both db_name owner_role app_user schema dp s =
      and_then (set_one_way (codes "forward") db_name owner_role app_user schema dp s)
        (λ t. set_one_way (codes "reverse") db_name app_user owner_role schema dp t)

  -- SetDefaultPrivileges; Go iterates over the map of the schemas in an unknown order
  unfoldable pub set_default_privileges :
      (List Text → List Text) → Text → Text → Text → List Text → S → Reply S
  set_default_privileges map_order db_name owner_role app_user schemas s =
      for_each (λ schema t. for_each (set_both db_name owner_role app_user schema) priv_defs t)
        (map_order (keys (codes "public" ∷ schemas))) s

  -- DropOwnershipResources, behind the drop of the user
  abbrev pub drop_owner_role : Text → S → Reply S
  drop_owner_role [] s = (s, none)
  drop_owner_role (c ∷ role_name) s =
      wrap_error (codes "drop owner role: ") (adapter.drop_role (c ∷ role_name) s)

  -- DropOwnershipResources
  unfoldable pub drop_ownership_resources : Text → Text → S → Reply S
  drop_ownership_resources role_name [] s = drop_owner_role role_name s
  drop_ownership_resources role_name (c ∷ user_name) s =
      drop_owner_role role_name ((adapter.drop_role (c ∷ user_name) s).0)
