-- ===== src/Annotations/Maps.antt =====
-- finalizers.go: a map reads back what was written last.
use db_provision_operator.Base.{
  [], ◌∷◌, false, some, String, str_eq, ◌≡◌, refl, ◌≢◌, inl, inr, Bool-cases, str_eq_refl,
  str_eq-eq, str_eq-ne,
}
use db_provision_operator.Annotations.{Labels, get_label, set_label}

pub get_label-set_label : (m : Labels) (k v : String) → get_label (set_label m k v) k ≡ some v
unfolding get_label set_label
get_label-set_label [] k v = rw (str_eq_refl k) refl
get_label-set_label ((k', v') ∷ m) k v = elim (Bool-cases (str_eq k' k)) [
  | inl same ↦ rw (same, str_eq_refl k) refl
  | inr away ↦ rw (away, away) (get_label-set_label m k v)
]

pub get_label-set_label_other :
    (m : Labels) (k j v : String) → k ≢ j → get_label (set_label m k v) j ≡ get_label m j
unfolding get_label set_label
get_label-set_label_other [] k j v ne = rw (str_eq-ne k j ne) refl
get_label-set_label_other ((k', v') ∷ m) k j v ne = elim (Bool-cases (str_eq k' k)) [
  | inl same ↦
      let e : k' ≡ k = str_eq-eq k' k same in
      let off : str_eq k' j ≡ false = rw e (str_eq-ne k j ne) in
      rw (same, off, str_eq-ne k j ne) refl
  | inr away ↦ rw (away, get_label-set_label_other m k j v ne) refl
]
