-- ===== src/Drift/Adapter.antt =====
-- internal/adapter/types/types.go and internal/adapter/interface.go: what the drift code asks of a
-- database, over an unknown state of it, with the fields that this code reads or sets.
pub mod Postgres
use db_provision_operator.Base.{
  ℕ, Text, List, [], Bool, Option, none, Result, map, same_text, ◌==◌, leb, ◌+◌, ◌&&◌,
  if◌then◌else◌,
}
use db_provision_operator.Base.Int.{ℤ}
use db_provision_operator.Errors.{GoError}
use db_provision_operator.Drift.{Reply}

pub record GrantInfo : Type 0 where
  pub database : Text
  pub schema : Text
  pub object_type : Text
  pub object_name : Text
  pub privileges : List Text

pub record GrantOptions : Type 0 where
  pub database : Text
  pub schema : Text
  pub tables : List Text
  pub sequences : List Text
  pub functions : List Text
  pub privileges : List Text
  pub level : Text
  pub table : Text

abbrev pub no_grant_options : GrantOptions
no_grant_options = record {
  database = [];
  schema = [];
  tables = [];
  sequences = [];
  functions = [];
  privileges = [];
  level = [];
  table = [];
}

pub record RoleInfo : Type 0 where
  pub login : Bool
  pub inherit : Bool
  pub create_db : Bool
  pub create_role : Bool
  pub superuser : Bool
  pub replication : Bool
  pub bypass_rls : Bool
  pub in_roles : List Text

-- A nil pointer, `none`, leaves the attribute as it is.
pub record UpdateRoleOptions : Type 0 where
  pub login : Option Bool
  pub inherit : Option Bool
  pub create_db : Option Bool
  pub create_role : Option Bool
  pub superuser : Option Bool
  pub replication : Option Bool
  pub bypass_rls : Option Bool

abbrev pub no_role_options : UpdateRoleOptions
no_role_options = record {
  login = none;
  inherit = none;
  create_db = none;
  create_role = none;
  superuser = none;
  replication = none;
  bypass_rls = none;
}

pub record UserInfo : Type 0 where
  pub connection_limit : ℤ
  pub superuser : Bool
  pub create_db : Bool
  pub create_role : Bool
  pub inherit : Bool
  pub replication : Bool
  pub bypass_rls : Bool
  pub in_roles : List Text

pub record UpdateUserOptions : Type 0 where
  pub connection_limit : Option ℤ
  pub superuser : Option Bool
  pub create_db : Option Bool
  pub create_role : Option Bool
  pub inherit : Option Bool
  pub replication : Option Bool
  pub bypass_rls : Option Bool

pub record ExtensionInfo : Type 0 where
  pub name : Text
  pub version : Text

pub record DatabaseInfo : Type 0 where
  pub owner : Text
  pub encoding : Text
  pub collation : Text
  pub extensions : List ExtensionInfo
  pub schemas : List Text
  pub connection_limit : Option ℤ
  pub charset : Text

pub record ExtensionOptions : Type 0 where
  pub name : Text
  pub schema : Text
  pub version : Text

pub record SchemaOptions : Type 0 where
  pub name : Text
  pub owner : Text

pub record UpdateDatabaseOptions : Type 0 where
  pub extensions : List ExtensionOptions
  pub schemas : List SchemaOptions
  pub connection_limit : Option ℤ
  pub charset : Text
  pub collation : Text

abbrev pub no_database_options : UpdateDatabaseOptions
no_database_options = record {
  extensions = [];
  schemas = [];
  connection_limit = none;
  charset = [];
  collation = [];
}

pub record DatabaseAdapter (S : Type 0) : Type 0 where
  pub get_database_info : Text → S → Result GoError DatabaseInfo
  pub update_database : Text → UpdateDatabaseOptions → S → Reply S
  pub transfer_database_ownership : Text → Text → S → Reply S
  pub get_user_info : Text → S → Result GoError UserInfo
  pub update_user : Text → UpdateUserOptions → S → Reply S
  pub get_role_info : Text → S → Result GoError RoleInfo
  pub update_role : Text → UpdateRoleOptions → S → Reply S
  pub get_grants : Text → S → Result GoError (List GrantInfo)
  pub grant : Text → List GrantOptions → S → Reply S
  pub revoke : Text → List GrantOptions → S → Reply S
  pub grant_role : Text → List Text → S → Reply S
  pub revoke_role : Text → List Text → S → Reply S

-- unicode.SimpleFold as far as it relates a character to an ASCII letter
unfoldable pub fold_case : ℕ → ℕ
fold_case c =
    if leb b'A' c && leb c b'Z'
    then c + 32
    else if c == 0x212a
    then b'k'
    else if c == 0x17f
    then b's'
    else c

-- strings.EqualFold
unfoldable pub equal_fold : Text → Text → Bool
unfolding fold_case
equal_fold s t = same_text (map fold_case s) (map fold_case t)
