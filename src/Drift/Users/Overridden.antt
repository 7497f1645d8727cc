-- ===== src/Drift/Users/Overridden.antt =====
-- internal/service/drift/user.go: what a correction of a user leaves for the next detection. One
-- ALTER ROLE sets every attribute, whichever diff it is made for.
use db_provision_operator.Base.{
  All, All-append, Bool, List, Option, Text, [], arith, codes, false, member, none, ok, refl,
  same_text, some, some_of, true, ◌||◌, ◌∷◌, ◌≡◌,
}
use db_provision_operator.Base.Int.{negsuc, pos, print_int, ℤ}
use db_provision_operator.Drift.{Diff}
use db_provision_operator.Drift.Adapter.{DatabaseAdapter, UpdateUserOptions, UserInfo}
use db_provision_operator.Drift.Roles.{format_bool, unequal}
use db_provision_operator.Drift.Users.{
  PostgresUserConfig, compare_flag, compare_user_attributes, compare_value, int_unequal,
  user_attributes,
}

-- The attributes of a user without the memberships.
abbrev pub attributes_of : UserInfo → UserInfo
attributes_of i = record {
  connection_limit = i.connection_limit;
  superuser = i.superuser;
  create_db = i.create_db;
  create_role = i.create_role;
  inherit = i.inherit;
  replication = i.replication;
  bypass_rls = i.bypass_rls;
  in_roles = [];
}

abbrev pub wanted_attributes : PostgresUserConfig → UserInfo
wanted_attributes c = record {
  connection_limit = c.connection_limit;
  superuser = c.superuser;
  create_db = c.create_db;
  create_role = c.create_role;
  inherit = c.inherit;
  replication = c.replication;
  bypass_rls = c.bypass_rls;
  in_roles = [];
}

abbrev pub or_kept {ℓ} : {A : Type ℓ} → Option A → A → A
or_kept none a = a
or_kept (some b) a = b

-- ALTER ROLE with the attributes that the options name
abbrev pub apply_user_options : UpdateUserOptions → UserInfo → UserInfo
apply_user_options o i = record {
  connection_limit = or_kept o.connection_limit i.connection_limit;
  superuser = or_kept o.superuser i.superuser;
  create_db = or_kept o.create_db i.create_db;
  create_role = or_kept o.create_role i.create_role;
  inherit = or_kept o.inherit i.inherit;
  replication = or_kept o.replication i.replication;
  bypass_rls = or_kept o.bypass_rls i.bypass_rls;
  in_roles = i.in_roles;
}

-- What the correction relies on, for calls that report no error.
pub record TracksUser {S : Type 0} (adapter : DatabaseAdapter S) (name : Text) (info : S → UserInfo)
    : Type 0 where
  pub described : (s : S) → adapter.get_user_info name s ≡ ok (info s)
  pub updated :
      (s : S) (o : UpdateUserOptions)
      → (adapter.update_user name o s).1 ≡ none
      → info ((adapter.update_user name o s).0) ≡ apply_user_options o (info s)
  pub granted_attributes :
      (s : S) (roles : List Text)
      → (adapter.grant_role name roles s).1 ≡ none
      → attributes_of (info ((adapter.grant_role name roles s).0)) ≡ attributes_of (info s)
  pub granted :
      (s : S) (roles : List Text)
      → (adapter.grant_role name roles s).1 ≡ none
      → (z : Text)
      → member z ((info ((adapter.grant_role name roles s).0)).in_roles)
        ≡ (member z ((info s).in_roles) || member z roles)

abbrev pub NamesAttribute : Diff → Type 0
NamesAttribute d = some_of (same_text d.field) user_attributes ≡ true

compare_value-All :
    (differs : Bool) (field expected found : Text) (destructive : Bool) (diffs : List Diff)
    → some_of (same_text field) user_attributes ≡ true
    → All NamesAttribute diffs
    → All NamesAttribute (compare_value differs field expected found destructive diffs)
compare_value-All false field expected found destructive diffs n h = h
compare_value-All true field expected found destructive diffs n h =
    All-append NamesAttribute diffs
      (record {
        field = field;
        expected = expected;
        actual = found;
        destructive = destructive;
        immutable = false;
      }
        ∷ [])
      h (n, tt)

pub compare_user_attributes-All :
    (c : PostgresUserConfig) (i : UserInfo) → All NamesAttribute (compare_user_attributes c i [])
unfolding compare_user_attributes
compare_user_attributes-All c i =
    flag (codes "bypassrls") c.bypass_rls i.bypass_rls i.bypass_rls _ refl (
      flag (codes "replication") c.replication i.replication i.replication _ refl (
        flag (codes "inherit") c.inherit i.inherit false _ refl (
          flag (codes "createrole") c.create_role i.create_role false _ refl (
            flag (codes "createdb") c.create_db i.create_db false _ refl (
              flag (codes "superuser") c.superuser i.superuser true _ refl (
                compare_value-All (int_unequal c.connection_limit i.connection_limit)
                  (codes "connectionLimit") (print_int c.connection_limit)
                  (print_int i.connection_limit) false [] refl tt))))))
  where
    flag :
        (field : Text) (x y destructive : Bool) (diffs : List Diff)
        → some_of (same_text field) user_attributes ≡ true
        → All NamesAttribute diffs
        → All NamesAttribute (compare_flag field x y destructive diffs)
    flag field x y destructive diffs n h =
        compare_value-All (unequal x y) field (format_bool x) (format_bool y) destructive diffs n h

unequal_self : (b : Bool) → unequal b b ≡ false
unequal_self true = refl
unequal_self false = refl

int_unequal_self : (n : ℤ) → int_unequal n n ≡ false
int_unequal_self (pos a) = ground arith
int_unequal_self (negsuc a) = ground arith

-- Attributes that are as wanted do not differ.
pub compare_wanted :
    (c : PostgresUserConfig) → compare_user_attributes c (wanted_attributes c) [] ≡ []
unfolding compare_user_attributes
compare_wanted c = rw (int_unequal_self c.connection_limit) (
    rw (unequal_self c.superuser) (
      rw (unequal_self c.create_db) (
        rw (unequal_self c.create_role) (
          rw (unequal_self c.inherit)
            (rw (unequal_self c.replication) (rw (unequal_self c.bypass_rls) refl))))))
