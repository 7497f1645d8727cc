-- ===== src/Ownership/Privileges.antt =====
-- SetDefaultPrivileges of internal/service/ownership.go: what a call that reports no error leaves.
use mathlib.Core.Path.{subst}
use db_provision_operator.Base.{
  All, All-map, List, sym, member_nil, Text, [], codes, keys, member, none, some, true, ◌∷◌, ◌≡◌,
  Bool, refl, same_text, member_cons, member-keys, ◌∙◌, arith, inl, inr, Bool-cases, same_text-eq,
}
use db_provision_operator.Drift.{Reply}
use db_provision_operator.Ownership.{
  DefaultPriv, DefaultPrivilegeGrantOptions, OwnershipAdapter, and_then, default_options, for_each,
  priv_defs, privileges_prefix, set_both, set_default_privileges, set_one_way, wrap_error,
}

-- What is relied on: default privileges that are set without an error hold, and those that hold stay
-- when others are set.
pub record TracksPrivileges {S : Type 0} (adapter : OwnershipAdapter S)
    (holds : Text → DefaultPrivilegeGrantOptions → S → Bool) : Type 0 where
  pub sets :
      (grantee : Text) (o : DefaultPrivilegeGrantOptions) (s : S)
      → (adapter.set_default_privileges grantee (o ∷ []) s).1 ≡ none
      → holds grantee o ((adapter.set_default_privileges grantee (o ∷ []) s).0) ≡ true
  pub keeps :
      (grantee : Text) (os : List DefaultPrivilegeGrantOptions) (s : S) (other : Text)
      (o : DefaultPrivilegeGrantOptions)
      → holds other o s ≡ true
      → holds other o ((adapter.set_default_privileges grantee os s).0) ≡ true

module _ {S : Type 0} where
  wrap_error-state : (prefix : Text) (y : Reply S) → (wrap_error prefix y).0 ≡ y.0
  wrap_error-state prefix (s, none) = refl
  wrap_error-state prefix (s, some e) = refl

  wrap_error-none : (prefix : Text) (y : Reply S) → (wrap_error prefix y).1 ≡ none → y.1 ≡ none
  wrap_error-none prefix (s, none) h = refl
  wrap_error-none prefix (s, some e) h = absurd (cc)

  and_then-keeps :
      (P : S → Type 0) (y : Reply S) (next : S → Reply S)
      → P (y.0)
      → ((t : S) → P t → P ((next t).0))
      → P ((and_then y next).0)
  and_then-keeps P (s, none) next h k = k s h
  and_then-keeps P (s, some e) next h k = h

  and_then-none :
      (y : Reply S) (next : S → Reply S)
      → (and_then y next).1 ≡ none
      → (y.1 ≡ none) × (((next (y.0)).1 ≡ none) × ((and_then y next).0 ≡ (next (y.0)).0))
  and_then-none (s, none) next h = (refl, (h, refl))
  and_then-none (s, some e) next h = absurd (cc)

  for_each-keeps :
      {A : Type 0} (P : S → Type 0) (body : A → S → Reply S) (xs : List A) (s : S)
      → ((x : A) (t : S) → P t → P ((body x t).0))
      → P s
      → P ((for_each body xs s).0)
  for_each-keeps P body [] s k h = h
  for_each-keeps P body (x ∷ xs) s k h =
      and_then-keeps P (body x s) (λ t. for_each body xs t) (k x s h)
        (λ t q. for_each-keeps P body xs t k q)

  -- What each round sets, and every round keeps, holds behind a loop without an error.
  All-for_each :
      {A : Type 0} (P : A → S → Type 0) (body : A → S → Reply S) (xs : List A) (s : S)
      → ((x y : A) (t : S) → P y t → P y ((body x t).0))
      → ((x : A) (t : S) → (body x t).1 ≡ none → P x ((body x t).0))
      → (for_each body xs s).1 ≡ none
      → All (λ x. P x ((for_each body xs s).0)) xs
  All-for_each P body [] s k set h = tt
  All-for_each P body (x ∷ xs) s k set h =
      let (one, (rest, e)) = and_then-none (body x s) (λ t. for_each body xs t) h in
      subst (λ t. All (λ y. P y t) (x ∷ xs)) (sym e)
        (
          for_each-keeps (P x) body xs ((body x s).0) (λ y t. k y x t) (set x s one),
          All-for_each P body xs ((body x s).0) k set rest,
        )

All-member : (P : Text → Type 0) (z : Text) (xs : List Text) → All P xs → member z xs ≡ true → P z
All-member P z [] h m = absurd (ground (arith, member_nil z))
All-member P z (x ∷ xs) (p, h) m = elim (Bool-cases (same_text z x)) [
  | inl e ↦ subst P (sym (same_text-eq z x e)) p
  | inr e ↦ All-member P z xs h (ground (arith, member_cons z x xs))
]

module _ {S : Type 0} (adapter : OwnershipAdapter S)
    (holds : Text → DefaultPrivilegeGrantOptions → S → Bool)
    (tracks : TracksPrivileges adapter holds) (db_name owner_role app_user : Text) where
  -- What the owner makes in the schema is for the user, and what the user makes is for the owner.
  abbrev pub BothWays : Text → DefaultPriv → S → Type 0
  BothWays schema dp s =
      (holds app_user (default_options db_name owner_role schema dp) s ≡ true)
      × (holds owner_role (default_options db_name app_user schema dp) s ≡ true)

  way_sets :
      (direction by grantee schema : Text) (dp : DefaultPriv) (s : S)
      → (set_one_way adapter direction db_name by grantee schema dp s).1 ≡ none
      → holds grantee
          (default_options db_name by schema dp)
          ((set_one_way adapter direction db_name by grantee schema dp s).0)
        ≡ true
  way_sets direction by grantee schema dp s h =
      let o = default_options db_name by schema dp in
      let y = adapter.set_default_privileges grantee (o ∷ []) s in
      let prefix = privileges_prefix direction schema dp in
      rw (wrap_error-state prefix y) (tracks.sets grantee o s (wrap_error-none prefix y h))

  way_keeps :
      (direction by grantee schema : Text) (dp : DefaultPriv) (s : S) (other : Text)
      (p : DefaultPrivilegeGrantOptions)
      → holds other p s ≡ true
      → holds other p ((set_one_way adapter direction db_name by grantee schema dp s).0) ≡ true
  way_keeps direction by grantee schema dp s other p h =
      let os = default_options db_name by schema dp ∷ [] in
      rw
        (wrap_error-state (privileges_prefix direction schema dp)
          (adapter.set_default_privileges grantee os s))
        (tracks.keeps grantee os s other p h)

  abbrev forward : Text → DefaultPriv → S → Reply S
  forward schema dp s =
      set_one_way adapter (codes "forward") db_name owner_role app_user schema dp s

  abbrev reverse : Text → DefaultPriv → S → Reply S
  reverse schema dp s =
      set_one_way adapter (codes "reverse") db_name app_user owner_role schema dp s

  both_keeps :
      (schema : Text) (dp : DefaultPriv) (s : S) (other : Text) (p : DefaultPrivilegeGrantOptions)
      → holds other p s ≡ true
      → holds other p ((set_both adapter db_name owner_role app_user schema dp s).0) ≡ true
  both_keeps schema dp s other p h =
      and_then-keeps (λ t. holds other p t ≡ true) (forward schema dp s) (reverse schema dp)
        (way_keeps (codes "forward") owner_role app_user schema dp s other p h)
        (λ t q. way_keeps (codes "reverse") app_user owner_role schema dp t other p q)

  pair_keeps :
      (schema : Text) (dp : DefaultPriv) (s : S) (other : Text) (dq : DefaultPriv)
      → BothWays other dq s
      → BothWays other dq ((set_both adapter db_name owner_role app_user schema dp s).0)
  pair_keeps schema dp s other dq (h, k) = (
    both_keeps schema dp s app_user (default_options db_name owner_role other dq) h,
    both_keeps schema dp s owner_role (default_options db_name app_user other dq) k,
  )

  both_sets :
      (schema : Text) (dp : DefaultPriv) (s : S)
      → (set_both adapter db_name owner_role app_user schema dp s).1 ≡ none
      → BothWays schema dp ((set_both adapter db_name owner_role app_user schema dp s).0)
  both_sets schema dp s h =
      let (one, (two, e)) = and_then-none (forward schema dp s) (reverse schema dp) h in
      let t = (forward schema dp s).0 in
      subst (λ u. BothWays schema dp u) (sym e)
        (
          way_keeps (codes "reverse") app_user owner_role schema dp t app_user
              (default_options db_name owner_role schema dp)
              (way_sets (codes "forward") owner_role app_user schema dp s one),
          way_sets (codes "reverse") app_user owner_role schema dp t two,
        )

  abbrev body : Text → S → Reply S
  body schema t = for_each (set_both adapter db_name owner_role app_user schema) priv_defs t

  abbrev InSchema : Text → S → Type 0
  InSchema schema t = All (λ dp. BothWays schema dp t) priv_defs

  body_keeps :
      (schema other : Text) (dq : DefaultPriv) (s : S)
      → BothWays other dq s
      → BothWays other dq ((body schema s).0)
  body_keeps schema other dq s h =
      for_each-keeps (λ t. BothWays other dq t)
        (set_both adapter db_name owner_role app_user schema) priv_defs s
        (λ dp t q. pair_keeps schema dp t other dq q) h

  schema_keeps :
      (schema other : Text) (s : S) → InSchema other s → InSchema other ((body schema s).0)
  schema_keeps schema other s h =
      All-map (λ dq. BothWays other dq s) (λ dq. BothWays other dq ((body schema s).0))
        (λ dq q. body_keeps schema other dq s q) priv_defs h

  schema_sets :
      (schema : Text) (s : S) → (body schema s).1 ≡ none → InSchema schema ((body schema s).0)
  schema_sets schema s h =
      All-for_each (λ dp t. BothWays schema dp t)
        (set_both adapter db_name owner_role app_user schema) priv_defs s
        (λ dp dq t q. pair_keeps schema dp t schema dq q) (λ dp t q. both_sets schema dp t q) h

  -- If the database has the default privileges that it is told of without an error, and keeps those
  -- that it has, then a call of SetDefaultPrivileges that reports no error leaves, in whatever order
  -- Go goes through the schemas: in the schema `public` and in every schema given, for tables,
  -- sequences and functions alike, the user has its privileges on what the owner's role makes, and
  -- the owner's role on what the user makes.
  pub set_default_privileges-both :
      (map_order : List Text → List Text) (schemas : List Text) (s : S)
      → ((xs : List Text) (z : Text) → member z (map_order xs) ≡ member z xs)
      → (set_default_privileges adapter map_order db_name owner_role app_user schemas s).1 ≡ none
      → (schema : Text) → member schema (codes "public" ∷ schemas) ≡ true
      → All
          (λ dp.
            BothWays schema dp
              ((set_default_privileges adapter map_order db_name owner_role app_user schemas s).0))
          priv_defs
  unfolding set_default_privileges
  set_default_privileges-both map_order schemas s same h schema m =
      let every = map_order (keys (codes "public" ∷ schemas)) in
      All-member (λ z. InSchema z ((for_each body every s).0)) schema every
        (All-for_each InSchema body every s (λ x y t q. schema_keeps x y t q)
          (λ x t q. schema_sets x t q) h)
        (same (keys (codes "public" ∷ schemas)) schema
          ∙ (member-keys schema (codes "public" ∷ schemas) ∙ m))
