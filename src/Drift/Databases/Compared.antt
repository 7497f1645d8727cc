-- ===== src/Drift/Databases/Compared.antt =====
-- internal/service/drift/database.go: when a detection of a PostgreSQL database's drift finds
-- nothing.
use db_provision_operator.Base.{
  All, List, Option, Text, [], append-nil, false, inl, inr, is_empty, keys, none, not, refl,
  same_text, some, sym, true, ◌&&◌, ◌↔◌, ◌∷◌, ◌≡◌, Bool-cases, codes, outside, sort_strings, ◌++◌,
}
use db_provision_operator.Base.Int.{ℤ, is_zero, print_int}
use db_provision_operator.Drift.Adapter.{DatabaseInfo, ExtensionInfo, equal_fold}
use db_provision_operator.Drift.Databases.{
  DatabaseSpec, PostgresDatabaseConfig, PostgresExtension, actual_version,
  derive_ownership_role_name, expected_version, extension_names, has_auto_ownership,
  installed_names, schema_names, PostgresSchema, compare_connection_limit, compare_extensions,
  compare_owner, compare_schemas, compare_version, compare_versions, detect_postgres_database_drift,
  compare_folded,
}
use db_provision_operator.Drift.Users.{int_unequal}
use db_provision_operator.Drift.Memberships.Agreement.{Within, difference-none, sort_outside-none}
use db_provision_operator.Drift.Memberships.Appending.{
  Appends, Appends-then, add_missing-Appends, add_missing-none, iff_pair, iff_then, then_none,
}
use db_provision_operator.Drift.{Diff}
use db_provision_operator.Drift.Memberships.{add_missing, difference}
use db_provision_operator.Drift.Databases.Fitting.{
  DatabaseFits, LimitFits, OwnerFits, VersionFits, VersionsFit, add_if-Appends, add_if-none,
  limit_test, not_same, open_or, open_or_test, same_text_iff,
}

-- Each comparison finds nothing exactly when its part of the database fits.
compare_owner-none :
    (spec : DatabaseSpec) (c : PostgresDatabaseConfig) (i : DatabaseInfo)
    → (compare_owner spec c i [] ≡ []) ↔ OwnerFits spec c i
unfolding compare_owner
compare_owner-none spec c i =
    let derived = derive_ownership_role_name c.ownership spec.name in
    elim (Bool-cases (has_auto_ownership c.ownership)) [
      | inl h ↦ rw h (
          iff_then
            (add_if-none (not (same_text i.owner derived)) (codes "owner") derived i.owner false
              false)
            (not_same i.owner derived))
      | inr h ↦ rw h (
          iff_then
            (add_if-none (not (is_empty spec.owner) && not (same_text i.owner spec.owner))
              (codes "owner") spec.owner i.owner false false)
            (iff_then (open_or_test spec.owner (same_text i.owner spec.owner))
              (open_or spec.owner (same_text_iff i.owner spec.owner))))
    ]

compare_limit-none : (m : ℤ) (n : Option ℤ) → (compare_connection_limit m n [] ≡ []) ↔ LimitFits m n
compare_limit-none m none = (λ h. tt, λ h. refl)
compare_limit-none m (some n) =
    iff_then
      (add_if-none (not (is_zero m) && int_unequal m n) (codes "connectionLimit") (print_int m)
        (print_int n) false false)
      (limit_test m n)

compare_limit-Appends : (m : ℤ) (n : Option ℤ) → Appends (compare_connection_limit m n)
compare_limit-Appends m none diffs = sym (append-nil diffs)
compare_limit-Appends m (some n) diffs =
    add_if-Appends (not (is_zero m) && int_unequal m n) (codes "connectionLimit") (print_int m)
      (print_int n) false false diffs

compare_version-none :
    (n : Text) (e a : Option Text) → (compare_version n e a [] ≡ []) ↔ VersionFits e a
compare_version-none n none a = (λ h. tt, λ h. refl)
compare_version-none n (some e) none = (λ h. tt, λ h. refl)
compare_version-none n (some e) (some a) =
    iff_then
      (add_if-none (not (is_empty e) && not (same_text a e))
        (codes "extensions." ++ (n ++ codes ".version")) e a true false)
      (iff_then (open_or_test e (same_text a e)) (open_or e (same_text_iff a e)))

compare_version-Appends : (n : Text) (e a : Option Text) → Appends (compare_version n e a)
compare_version-Appends n none a diffs = sym (append-nil diffs)
compare_version-Appends n (some e) none diffs = sym (append-nil diffs)
compare_version-Appends n (some e) (some a) diffs =
    add_if-Appends (not (is_empty e) && not (same_text a e))
      (codes "extensions." ++ (n ++ codes ".version")) e a true false diffs

module _ (expected : List PostgresExtension) (actual : List ExtensionInfo) where
  abbrev version_check : Text → List Diff → List Diff
  version_check n diffs =
      compare_version n (expected_version expected n) (actual_version actual n) diffs

  compare_versions-Appends : (ns : List Text) → Appends (compare_versions expected actual ns)
  unfolding compare_versions
  compare_versions-Appends [] diffs = sym (append-nil diffs)
  compare_versions-Appends (n ∷ ns) diffs =
      Appends-then (compare_versions expected actual ns) (version_check n)
        (compare_versions-Appends ns)
        (compare_version-Appends n (expected_version expected n) (actual_version actual n)) diffs

  compare_versions-none :
      (ns : List Text)
      → (compare_versions expected actual ns [] ≡ [])
        ↔ All (λ n. VersionFits (expected_version expected n) (actual_version actual n)) ns
  unfolding compare_versions
  compare_versions-none [] = (λ h. tt, λ h. refl)
  compare_versions-none (n ∷ ns) =
      iff_then
        (then_none (compare_versions expected actual ns) (version_check n)
          (compare_versions-Appends ns))
        (iff_pair (compare_version-none n (expected_version expected n) (actual_version actual n))
          (compare_versions-none ns))

  compare_extensions-Appends : Appends (compare_extensions expected actual)
  unfolding compare_extensions
  compare_extensions-Appends =
      Appends-then (compare_versions expected actual (keys (extension_names expected)))
        (add_missing (codes "extensions.missing")
          (difference (extension_names expected) (installed_names actual)))
        (compare_versions-Appends (keys (extension_names expected)))
        (add_missing-Appends (codes "extensions.missing")
          (difference (extension_names expected) (installed_names actual)))

  compare_extensions-none :
      (compare_extensions expected actual [] ≡ [])
      ↔ (Within (extension_names expected) (installed_names actual) × VersionsFit expected actual)
  unfolding compare_extensions
  compare_extensions-none =
      let names = difference (extension_names expected) (installed_names actual) in
      iff_then
        (then_none (compare_versions expected actual (keys (extension_names expected)))
          (add_missing (codes "extensions.missing") names)
          (compare_versions-Appends (keys (extension_names expected))))
        (iff_pair
          (iff_then (add_missing-none (codes "extensions.missing") names)
            (difference-none (extension_names expected) (installed_names actual)))
          (compare_versions-none (keys (extension_names expected))))

compare_schemas-none :
    (expected : List PostgresSchema) (actual : List Text)
    → (compare_schemas expected actual [] ≡ []) ↔ Within (schema_names expected) actual
unfolding compare_schemas
compare_schemas-none expected actual =
    iff_then
      (add_missing-none (codes "schemas.missing")
        (sort_strings (outside actual (schema_names expected))))
      (sort_outside-none actual (schema_names expected))

compare_schemas-Appends :
    (expected : List PostgresSchema) (actual : List Text)
    → Appends (compare_schemas expected actual)
unfolding compare_schemas
compare_schemas-Appends expected actual =
    add_missing-Appends (codes "schemas.missing")
      (sort_strings (outside actual (schema_names expected)))

-- A detection finds no drift of a PostgreSQL database exactly when all of this holds: its owner is
-- the derived role where ownership is automatic, or else the one of the resource, if that names
-- one; its encoding is that of the resource up to case, its connection limit the same, where the
-- resource gives them and the engine reports a limit; every extension of the resource is installed,
-- in the version that the resource gives, if it gives one; and every schema exists.
pub detect_postgres_database_drift-none :
    (spec : DatabaseSpec) (c : PostgresDatabaseConfig) (i : DatabaseInfo)
    → (detect_postgres_database_drift spec i [] (some c) ≡ []) ↔ DatabaseFits spec c i
unfolding detect_postgres_database_drift
detect_postgres_database_drift-none spec c i =
    let encoding = compare_folded (codes "encoding") c.encoding i.encoding true in
    let limit = compare_connection_limit c.connection_limit i.connection_limit in
    let extensions = compare_extensions c.extensions i.extensions in
    let schemas = compare_schemas c.schemas i.schemas in
    let differs = not (is_empty c.encoding) && not (equal_fold c.encoding i.encoding) in
    let encoding_none =
      iff_then (add_if-none differs (codes "encoding") c.encoding i.encoding false true)
        (open_or_test c.encoding (equal_fold c.encoding i.encoding)) in
    let one =
      iff_then
        (then_none encoding (compare_owner spec c i)
          (add_if-Appends differs (codes "encoding") c.encoding i.encoding false true))
        (iff_pair (compare_owner-none spec c i) encoding_none) in
    let two =
      iff_then
        (then_none limit (λ diffs. encoding (compare_owner spec c i diffs))
          (compare_limit-Appends c.connection_limit i.connection_limit))
        (iff_pair one (compare_limit-none c.connection_limit i.connection_limit)) in
    let three =
      iff_then
        (then_none extensions (λ diffs. limit (encoding (compare_owner spec c i diffs)))
          (compare_extensions-Appends c.extensions i.extensions))
        (iff_pair two (compare_extensions-none c.extensions i.extensions)) in
    iff_then
      (then_none schemas (λ diffs. extensions (limit (encoding (compare_owner spec c i diffs))))
        (compare_schemas-Appends c.schemas i.schemas))
      (iff_pair three (compare_schemas-none c.schemas i.schemas))
