-- ===== src/Drift/Databases/Named.antt =====
-- internal/service/drift/database.go: the extension that the diff of a version names is the one
-- that its correction updates.
use mathlib.Core.List.{reverse, reverse-append}
use db_provision_operator.Base.{
  Text, [], ap, arith, drop, has_prefix, has_suffix, length, refl, take, trim_prefix, trim_suffix,
  true, ◌++◌, ◌∷◌, ◌≡◌, append_assoc, codes, false, length-append, sym, ◌-◌,
}
use db_provision_operator.Drift.Adapter.{DatabaseAdapter}
use db_provision_operator.Drift.Databases.{DatabaseSpec}
use db_provision_operator.Drift.Databases.Correct.{
  apply_database_correction, extension_name, update_extension_version, with_extensions,
}

has_prefix-append : (s t : Text) → has_prefix (s ++ t) s ≡ true
has_prefix-append [] t = refl
has_prefix-append (c ∷ s) t = ground (arith, has_prefix-append s t)

drop-append : (s t : Text) → drop (length s) (s ++ t) ≡ t
drop-append [] t = refl
drop-append (c ∷ s) t = drop-append s t

take-append : (s t : Text) → take (length s) (s ++ t) ≡ s
take-append [] t = refl
take-append (c ∷ s) t = ap (λ l. c ∷ l) (take-append s t)

has_suffix-append : (s t : Text) → has_suffix (s ++ t) t ≡ true
unfolding has_suffix
has_suffix-append s t = rw (reverse-append s t) (has_prefix-append (reverse t) (reverse s))

trim_suffix-append : (s t : Text) → trim_suffix (s ++ t) t ≡ s
unfolding trim_suffix
trim_suffix-append s t = rw (has_suffix-append s t) (
    let n : length (s ++ t) - length t ≡ length s = omega (arith, length-append s t) in
    rw n (take-append s t))

trim_prefix-append : (s t : Text) → trim_prefix (s ++ t) s ≡ t
unfolding trim_prefix
trim_prefix-append s t = rw (has_prefix-append s t) (drop-append s t)

abbrev pub version_field : Text → Text
version_field name = codes "extensions." ++ (name ++ codes ".version")

extension_name-version_field : (name : Text) → extension_name (version_field name) ≡ name
unfolding extension_name
extension_name-version_field name =
    rw (sym (append_assoc (codes "extensions.") name (codes ".version"))) (
      rw (trim_suffix-append (codes "extensions." ++ name) (codes ".version"))
        (trim_prefix-append (codes "extensions.") name))

version_field-has_suffix : (name : Text) → has_suffix (version_field name) (codes ".version") ≡ true
version_field-has_suffix name =
    rw (sym (append_assoc (codes "extensions.") name (codes ".version")))
      (has_suffix-append (codes "extensions." ++ name) (codes ".version"))

-- The correction of the diff of an extension's version, as the detection makes it, asks for exactly
-- that version of exactly that extension, whatever its name, unless the name and what follows it
-- in the field begin with `missing`.
pub apply-version_field :
    {S : Type 0} (adapter : DatabaseAdapter S) (spec : DatabaseSpec) (name expected actual : Text)
    (s : S)
    → has_prefix (name ++ codes ".version") (codes "missing") ≡ false
    → apply_database_correction adapter spec
        (record {
          field = version_field name;
          expected = expected;
          actual = actual;
          destructive = true;
          immutable = false;
        })
        s
      ≡ adapter.update_database spec.name
          (with_extensions (record { name = name; schema = []; version = expected } ∷ []))
          s
unfolding apply_database_correction update_extension_version
apply-version_field adapter spec name expected actual s h =
    rw h (rw (version_field-has_suffix name) (rw (extension_name-version_field name) refl))
