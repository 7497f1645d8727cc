-- ===== src/Drift/Databases/Fitting.antt =====
-- internal/service/drift/database.go: what it means that a database fits its resource, and the tests of
-- its comparisons.
use db_provision_operator.Base.{
  All, Bool, List, Option, Text, [], ap, append-nil, arith, false, if◌then◌else◌, inl, inr,
  is_empty, keys, none, not, refl, same_text, same_text-eq, same_text_refl, some, suc, sym, true,
  zero, ◌&&◌, ◌↔◌, ◌∷◌, ◌≡◌, ◌⊎◌,
}
use db_provision_operator.Base.Int.{is_zero, negsuc, pos, ℤ}
use db_provision_operator.Drift.Adapter.{DatabaseInfo, ExtensionInfo, equal_fold}
use db_provision_operator.Drift.Databases.{
  DatabaseSpec, PostgresDatabaseConfig, PostgresExtension, actual_version, add_if,
  derive_ownership_role_name, expected_version, extension_names, has_auto_ownership,
  installed_names, schema_names,
}
use db_provision_operator.Drift.Users.{int_unequal}
use db_provision_operator.Drift.Memberships.Agreement.{Within}
use db_provision_operator.Drift.Memberships.Appending.{Appends}

-- A text that the resource leaves open, or the given one.
abbrev pub OpenOr : Text → Type 0 → Type 0
OpenOr expected P = (expected ≡ []) ⊎ P

abbrev pub OwnerFits : DatabaseSpec → PostgresDatabaseConfig → DatabaseInfo → Type 0
OwnerFits spec c i =
    if has_auto_ownership c.ownership
    then i.owner ≡ derive_ownership_role_name c.ownership spec.name
    else OpenOr spec.owner (i.owner ≡ spec.owner)

-- Zero leaves the limit open, and so does an engine that reports none.
abbrev pub LimitFits : ℤ → Option ℤ → Type 0
LimitFits expected none = Unit
LimitFits expected (some actual) = (expected ≡ pos 0) ⊎ (expected ≡ actual)

abbrev pub VersionFits : Option Text → Option Text → Type 0
VersionFits (some expected) (some actual) = OpenOr expected (actual ≡ expected)
VersionFits expected actual = Unit

abbrev pub VersionsFit : List PostgresExtension → List ExtensionInfo → Type 0
VersionsFit expected actual =
    All (λ n. VersionFits (expected_version expected n) (actual_version actual n))
      (keys (extension_names expected))

abbrev pub DatabaseFits : DatabaseSpec → PostgresDatabaseConfig → DatabaseInfo → Type 0
DatabaseFits spec c i =
    (((OwnerFits spec c i × OpenOr c.encoding (equal_fold c.encoding i.encoding ≡ true))
        × LimitFits c.connection_limit i.connection_limit)
      × (Within (extension_names c.extensions) (installed_names i.extensions)
          × VersionsFit c.extensions i.extensions))
    × Within (schema_names c.schemas) i.schemas

pub add_if-Appends : (b : Bool) (f e a : Text) (d i : Bool) → Appends (add_if b f e a d i)
add_if-Appends true f e a d i diffs = refl
add_if-Appends false f e a d i diffs = sym (append-nil diffs)

pub add_if-none :
    (b : Bool) (f e a : Text) (d i : Bool) → (add_if b f e a d i [] ≡ []) ↔ (b ≡ false)
add_if-none true f e a d i = (λ h. absurd (cc), λ h. absurd (cc))
add_if-none false f e a d i = (λ h. refl, λ h. refl)

pub not_same : (s t : Text) → (not (same_text s t) ≡ false) ↔ (s ≡ t)
not_same s t = (λ h. same_text-eq s t (ground arith), λ h. rw h (rw (same_text_refl t) refl))

pub open_or_test :
    (e : Text) (b : Bool) → ((not (is_empty e) && not b) ≡ false) ↔ OpenOr e (b ≡ true)
open_or_test [] b = (λ h. inl refl, λ h. refl)
open_or_test (x ∷ e) true = (λ h. inr refl, λ h. refl)
open_or_test (x ∷ e) false =
    (λ h. absurd (cc), λ h. elim h [ inl k ↦ absurd (cc) | inr k ↦ absurd (cc) ])

pub int_unequal_iff : (m n : ℤ) → (int_unequal m n ≡ false) ↔ (m ≡ n)
int_unequal_iff (pos a) (pos b) =
    (λ h. let e : a ≡ b = ground arith in ap pos e, λ h. let e : a ≡ b = cc in ground arith)
int_unequal_iff (negsuc a) (negsuc b) =
    (λ h. let e : a ≡ b = ground arith in ap negsuc e, λ h. let e : a ≡ b = cc in ground arith)
int_unequal_iff (pos a) (negsuc b) = (λ h. absurd (cc), λ h. absurd (cc))
int_unequal_iff (negsuc a) (pos b) = (λ h. absurd (cc), λ h. absurd (cc))

pub limit_test :
    (m n : ℤ) → ((not (is_zero m) && int_unequal m n) ≡ false) ↔ ((m ≡ pos 0) ⊎ (m ≡ n))
limit_test (pos zero) n = (λ h. inl refl, λ h. refl)
limit_test (pos (suc a)) n = (
  λ h. inr ((int_unequal_iff (pos (suc a)) n).0 h),
  λ h. elim h [ inl k ↦ absurd (cc) | inr k ↦ (int_unequal_iff (pos (suc a)) n).1 k ],
)
limit_test (negsuc a) n = (
  λ h. inr ((int_unequal_iff (negsuc a) n).0 h),
  λ h. elim h [ inl k ↦ absurd (cc) | inr k ↦ (int_unequal_iff (negsuc a) n).1 k ],
)

pub open_or {ℓ} : {P Q : Type ℓ} (e : Text) → (P ↔ Q) → ((e ≡ []) ⊎ P) ↔ ((e ≡ []) ⊎ Q)
open_or e f = (
  λ h. elim h [ inl k ↦ inl k | inr k ↦ inr (f.0 k) ],
  λ h. elim h [ inl k ↦ inl k | inr k ↦ inr (f.1 k) ],
)

pub same_text_iff : (s t : Text) → (same_text s t ≡ true) ↔ (s ≡ t)
same_text_iff s t = (λ h. same_text-eq s t h, λ h. rw h (same_text_refl t))
