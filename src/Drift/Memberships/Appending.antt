-- ===== src/Drift/Memberships/Appending.antt =====
-- internal/service/drift: checks that append what they find, one after the other.
use db_provision_operator.Base.{
  List, Text, [], append-nil, append_assoc, refl, sym, ◌++◌, ◌↔◌, ◌∙◌, ◌∷◌, ◌≡◌, codes,
}
use db_provision_operator.Drift.{Diff}
use db_provision_operator.Drift.Memberships.{
  add_extra, add_missing, compare_role_memberships, difference,
}

pub iff_then {ℓ κ μ} : {A : Type ℓ} {B : Type κ} {C : Type μ} → (A ↔ B) → (B ↔ C) → (A ↔ C)
iff_then f g = (λ a. g.0 (f.0 a), λ c. f.1 (g.1 c))

pub iff_pair {ℓ κ μ ν} :
    {A : Type ℓ} {B : Type κ} {C : Type μ} {D : Type ν} → (A ↔ B) → (C ↔ D) → ((A × C) ↔ (B × D))
iff_pair f g = (λ (a, c). (f.0 a, g.0 c), λ (b, d). (f.1 b, g.1 d))

-- A check that only ever appends to the diffs.
abbrev pub Appends : (List Diff → List Diff) → Type 0
Appends f = (diffs : List Diff) → f diffs ≡ diffs ++ f []

pub append_none : (xs ys : List Diff) → (xs ++ ys ≡ []) ↔ ((xs ≡ []) × (ys ≡ []))
append_none [] ys = (λ e. (refl, e), λ h. h.1)
append_none (x ∷ xs) ys = (λ e. absurd (cc), λ h. absurd (let e = h.0 in cc))

pub Appends-then :
    (f g : List Diff → List Diff) → Appends f → Appends g → Appends (λ diffs. f (g diffs))
Appends-then f g hf hg diffs =
    hf (g diffs) ∙ (rw (hg diffs) (rw (hf (g [])) (append_assoc diffs (g []) (f []))))

pub then_none :
    (f g : List Diff → List Diff) → Appends f → (f (g []) ≡ []) ↔ ((g [] ≡ []) × (f [] ≡ []))
then_none f g hf = (
  λ e. (append_none (g []) (f [])).0 (sym (hf (g [])) ∙ e),
  λ h. hf (g []) ∙ (append_none (g []) (f [])).1 h,
)

pub add_missing-Appends : (field : Text) (names : List Text) → Appends (add_missing field names)
add_missing-Appends field [] diffs = sym (append-nil diffs)
add_missing-Appends field (n ∷ ns) diffs = refl

pub add_extra-Appends : (field : Text) (names : List Text) → Appends (add_extra field names)
add_extra-Appends field [] diffs = sym (append-nil diffs)
add_extra-Appends field (n ∷ ns) diffs = refl

pub add_missing-none :
    (field : Text) (names : List Text) → (add_missing field names [] ≡ []) ↔ (names ≡ [])
add_missing-none field [] = (λ e. refl, λ e. refl)
add_missing-none field (n ∷ ns) = (λ e. absurd (cc), λ e. absurd (cc))

pub add_extra-none :
    (field : Text) (names : List Text) → (add_extra field names [] ≡ []) ↔ (names ≡ [])
add_extra-none field [] = (λ e. refl, λ e. refl)
add_extra-none field (n ∷ ns) = (λ e. absurd (cc), λ e. absurd (cc))

pub compare_role_memberships-Appends :
    (expected actual : List Text) → Appends (compare_role_memberships expected actual)
unfolding compare_role_memberships
compare_role_memberships-Appends expected actual =
    Appends-then (add_extra (codes "inRoles.extra") (difference actual expected))
      (add_missing (codes "inRoles.missing") (difference expected actual))
      (add_extra-Appends (codes "inRoles.extra") (difference actual expected))
      (add_missing-Appends (codes "inRoles.missing") (difference expected actual))
