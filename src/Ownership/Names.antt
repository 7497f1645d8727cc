-- ===== src/Ownership/Names.antt =====
-- DeriveRoleName and DeriveUserName of internal/service/ownership.go: when the names are told apart.
use db_provision_operator.Base.{
  Option, Text, [], arith, codes, suc, zero, ◌++◌, ◌+◌, ◌<◌, ◌∙◌, ◌∷◌, ◌≡◌, ◌≤◌, ◌↔◌, ap,
  append_assoc, length, length-append, ltb, refl, sym, take, ℕ, Bool-cases, inl, inr,
}
use db_provision_operator.Drift.Databases.{OwnershipConfig, truncate_identifier}
use db_provision_operator.Ownership.{
  configured_role, configured_user, derive_role_name, derive_user_name,
}

take_whole : (n : ℕ) (s : Text) → length s ≤ n → take n s ≡ s
take_whole zero [] h = refl
take_whole zero (c ∷ s) h = absurd (omega (arith, h))
take_whole (suc n) [] h = refl
take_whole (suc n) (c ∷ s) h = rw (take_whole n s (omega (arith, h))) refl

truncate_take : (s : Text) → truncate_identifier s ≡ take 63 s
unfolding truncate_identifier
truncate_take s = elim (Bool-cases (ltb 63 (length s))) [
  | inl h ↦ rw h refl
  | inr h ↦ rw h (sym (take_whole 63 s (ground (arith, h))))
]

-- What is cut off does not count.
take_common : (n : ℕ) (p s t : Text) → n ≤ length p → take n (p ++ s) ≡ take n (p ++ t)
take_common zero p s t h = refl
take_common (suc n) [] s t h = absurd (omega (arith, h))
take_common (suc n) (c ∷ p) s t h = rw (take_common n p s t (omega (arith, h))) refl

tail_eq : (c : ℕ) (s t : Text) → (c ∷ s) ≡ c ∷ t → s ≡ t
tail_eq c s t h = cc

take_differ :
    (n : ℕ) (p : Text) (c d : ℕ) (s t : Text)
    → length p < n
    → take n (p ++ (c ∷ s)) ≡ take n (p ++ (d ∷ t))
    → c ≡ d
take_differ zero p c d s t h e = absurd (omega (arith, h))
take_differ (suc n) [] c d s t h e = cc
take_differ (suc n) (x ∷ p) c d s t h e =
    take_differ n p c d s t (omega (arith, h))
      (tail_eq x (take n (p ++ (c ∷ s))) (take n (p ++ (d ∷ t))) e)

abbrev shared : Text → Text
shared db_name = codes "db_" ++ (db_name ++ codes "_")

length-shared : (db_name : Text) → length (shared db_name) ≡ length db_name + 4
length-shared db_name = omega (arith, length-append db_name (codes "_"))

derived_name :
    (db_name rest : Text)
    → truncate_identifier (codes "db_" ++ (db_name ++ (codes "_" ++ rest)))
      ≡ take 63 (shared db_name ++ rest)
derived_name db_name rest =
    truncate_take (codes "db_" ++ (db_name ++ (codes "_" ++ rest)))
    ∙ ap (λ s. take 63 (codes "db_" ++ s)) (sym (append_assoc db_name (codes "_") rest))

-- Where the resource names neither, the role and the user of a database get one and the same name
-- exactly when the database's name is of 59 characters or more.
pub derive_role_name-clash :
    (cfg : Option OwnershipConfig) (db_name : Text)
    → configured_role cfg ≡ []
    → configured_user cfg ≡ []
    → (derive_role_name cfg db_name ≡ derive_user_name cfg db_name) ↔ (59 ≤ length db_name)
unfolding derive_role_name derive_user_name
derive_role_name-clash cfg db_name r u =
    let role : derive_role_name cfg db_name ≡ take 63 (shared db_name ++ codes "owner") =
      rw r (derived_name db_name (codes "owner")) in
    let user : derive_user_name cfg db_name ≡ take 63 (shared db_name ++ codes "app") =
      rw u (derived_name db_name (codes "app")) in
    let long = length-shared db_name in
    (
      λ e. elim (Bool-cases (ltb (length db_name) 59)) [
        | inl h ↦
            let o_a =
              take_differ 63 (shared db_name) b'o' b'a' (codes "wner") (codes "pp")
                (ground (arith, h, long)) (sym role ∙ (e ∙ user)) in
            absurd (omega (arith, o_a))
        | inr h ↦ ground (arith, h)
      ],
      λ h.
          role
          ∙ (take_common 63 (shared db_name) (codes "owner") (codes "app") (omega (arith, h, long))
              ∙ sym user),
    )
