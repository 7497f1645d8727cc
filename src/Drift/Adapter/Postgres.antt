-- ===== src/Drift/Adapter/Postgres.antt =====
-- GetGrants of internal/adapter/postgres/grant.go and getPool of adapter.go, over what the pool and
-- the query answer: the rows, each of which may fail to be scanned.
use mathlib.Core.Path.{subst}
use db_provision_operator.Base.{
  Bool-cases, inl, inr, Bool, List, Result, Text, [], codes, err, ok, ◌∷◌, ◌≡◌, if◌then◌else◌, refl,
}
use db_provision_operator.Errors.{GoError, foreign, wrapped}
use db_provision_operator.Drift.Adapter.{DatabaseAdapter, GrantInfo, equal_fold, fold_case}
use db_provision_operator.Drift.Memberships.{actual_roles}

pub record PrivilegeRow : Type 0 where
  pub datname : Text
  pub privileges : List Text

-- whether there is a pool, and what its Query answers for a grantee
pub record Pool (S : Type 0) : Type 0 where
  pub is_connected : S → Bool
  pub query : Text → S → Result GoError (List (Result GoError PrivilegeRow))

abbrev pub grant_of_row : PrivilegeRow → GrantInfo
grant_of_row row = record {
  database = row.datname;
  schema = [];
  object_type = codes "database";
  object_name = row.datname;
  privileges = row.privileges;
}

abbrev pub append_grant :
    GrantInfo → Result GoError (List GrantInfo) → Result GoError (List GrantInfo)
append_grant g (err e) = err e
append_grant g (ok gs) = ok (g ∷ gs)

-- the loop over the rows
abbrev pub scan_rows : List (Result GoError PrivilegeRow) → Result GoError (List GrantInfo)
scan_rows [] = ok []
scan_rows (err e ∷ rows) = err e
scan_rows (ok row ∷ rows) = append_grant (grant_of_row row) (scan_rows rows)

abbrev pub scan_answer :
    Result GoError (List (Result GoError PrivilegeRow)) → Result GoError (List GrantInfo)
scan_answer (err e) = err (wrapped (codes "failed to get database grants: ") e)
scan_answer (ok rows) = scan_rows rows

-- GetGrants
unfoldable pub get_grants : {S : Type 0} → Pool S → Text → S → Result GoError (List GrantInfo)
get_grants pool grantee s =
    if pool.is_connected s
    then scan_answer (pool.query grantee s)
    else err (foreign (codes "not connected"))

-- an adapter that lists grants in this way
abbrev pub with_listing : {S : Type 0} → Pool S → DatabaseAdapter S → DatabaseAdapter S
with_listing pool adapter = record adapter { get_grants = get_grants pool }

-- No row of the listing is one of a role.
abbrev NoRoles : Result GoError (List GrantInfo) → Type 0
NoRoles (err e) = Unit {0}
NoRoles (ok gs) = actual_roles gs ≡ []

append_grant-NoRoles :
    (row : PrivilegeRow) (r : Result GoError (List GrantInfo))
    → NoRoles r
    → NoRoles (append_grant (grant_of_row row) r)
unfolding actual_roles equal_fold fold_case
append_grant-NoRoles row (err e) h = tt
append_grant-NoRoles row (ok gs) h = h

scan_rows-NoRoles : (rows : List (Result GoError PrivilegeRow)) → NoRoles (scan_rows rows)
scan_rows-NoRoles [] = unfold actual_roles in refl
scan_rows-NoRoles (err e ∷ rows) = tt
scan_rows-NoRoles (ok row ∷ rows) =
    append_grant-NoRoles row (scan_rows rows) (scan_rows-NoRoles rows)

scan_answer-NoRoles :
    (r : Result GoError (List (Result GoError PrivilegeRow))) → NoRoles (scan_answer r)
scan_answer-NoRoles (err e) = tt
scan_answer-NoRoles (ok rows) = scan_rows-NoRoles rows

get_grants-NoRoles :
    {S : Type 0} (pool : Pool S) (grantee : Text) (s : S) → NoRoles (get_grants pool grantee s)
unfolding get_grants
get_grants-NoRoles pool grantee s = elim (Bool-cases (pool.is_connected s)) [
  | inl c ↦ rw c (scan_answer-NoRoles (pool.query grantee s))
  | inr c ↦ rw c tt
]

-- The listing of PostgreSQL holds no role that the grantee is a member of.
pub actual_roles-get_grants :
    {S : Type 0} (pool : Pool S) (grantee : Text) (s : S) (gs : List GrantInfo)
    → get_grants pool grantee s ≡ ok gs
    → actual_roles gs ≡ []
actual_roles-get_grants pool grantee s gs e = subst NoRoles e (get_grants-NoRoles pool grantee s)
