-- ===== src/Conditions/Laws.antt =====
-- conditions.go: what setting and removing a condition does to what is read back.
use db_provision_operator.Base.{
  arith, ℕ, ◌≤◌, List, [], ◌∷◌, Bool, true, false, not, ◌||◌, none, some, String, str_eq,
  if◌then◌else◌, ◌≡◌, refl, suc, ◌≢◌, inl, inr, ◌⊎◌, Bool-cases, Text, same_text, same_text-eq,
  same_text_refl, str_eq-eq, str_eq-ne, str_eq_refl,
}
use db_provision_operator.Conditions.{
  Condition, differs, fresh, get_condition, is_condition_false, is_condition_true, remove_condition,
  set_condition,
}

-- A condition says what was set.
abbrev pub Says : Condition → String → String → String → Text → Type 0
Says c t status reason message =
    (c.condition_type ≡ t) × (c.status ≡ status) × (c.reason ≡ reason) × (c.message ≡ message)

no-change :
    (a b c : Bool) → (not a || not b || not c) ≡ false → (a ≡ true) × (b ≡ true) × (c ≡ true)
no-change a b c h = ground arith

differs-Says :
    (c : Condition) (t status reason : String) (message : Text)
    → c.condition_type ≡ t
    → differs c status reason message ≡ false
    → Says c t status reason message
unfolding differs
differs-Says c t status reason message e h =
    let (a, b, d) =
      no-change (str_eq c.status status) (str_eq c.reason reason) (same_text c.message message) h in
    (e, str_eq-eq c.status status a, str_eq-eq c.reason reason b, same_text-eq c.message message d)

fresh-differs :
    (now generation : ℕ) (t status reason : String) (message : Text)
    → differs (fresh now t status reason message generation) status reason message ≡ false
unfolding differs
fresh-differs now generation t status reason message =
    rw (str_eq_refl status, str_eq_refl reason, same_text_refl message) refl

-- What a later reader of a condition finds after SetCondition: it says what was set; a condition
-- that said so before is left as it was, and any other gets the time of the call.
pub get_condition-set_condition :
    (now : ℕ) (cs : List Condition) (t status reason : String) (message : Text)
    → (c : Condition) × (get_condition (set_condition now cs t status reason message) t ≡ some c)
      × Says c t status reason message
      × ((c.last_transition_time ≡ now) ⊎ (get_condition cs t ≡ some c))
unfolding get_condition set_condition
get_condition-set_condition now [] t status reason message = (
  fresh now t status reason message 0,
  rw (str_eq_refl t) refl,
  (refl, refl, refl, refl),
  inl refl,
)
get_condition-set_condition now (c ∷ cs) t status reason message =
    elim (Bool-cases (str_eq c.condition_type t)) [
      | inl same ↦ elim (Bool-cases (differs c status reason message)) [
        | inl new ↦ (
          fresh now t status reason message c.observed_generation,
          rw (same, new, str_eq_refl t) refl,
          (refl, refl, refl, refl),
          inl refl,
        )
        | inr old ↦ (
          c,
          rw (same, old, same) refl,
          differs-Says c t status reason message (str_eq-eq c.condition_type t same) old,
          inr (rw same refl),
        )
      ]
      | inr away ↦
          let (d, got, says, when) = get_condition-set_condition now cs t status reason message in
          (d, rw (away, away) got, says, rw away when)
    ]

-- Setting a condition leaves what is read of every other type as it was.
pub get_condition-set_condition_other :
    (now : ℕ) (cs : List Condition) (t t' status reason : String) (message : Text)
    → t ≢ t'
    → get_condition (set_condition now cs t status reason message) t' ≡ get_condition cs t'
unfolding get_condition set_condition
get_condition-set_condition_other now [] t t' status reason message ne = rw (str_eq-ne t t' ne) refl
get_condition-set_condition_other now (c ∷ cs) t t' status reason message ne =
    elim (Bool-cases (str_eq c.condition_type t)) [
      | inl same ↦
          let e : c.condition_type ≡ t = str_eq-eq c.condition_type t same in
          let off : str_eq c.condition_type t' ≡ false = rw e (str_eq-ne t t' ne) in
          elim (Bool-cases (differs c status reason message)) [
            | inl new ↦ rw (same, new, off, str_eq-ne t t' ne) refl
            | inr old ↦ rw (same, old, off) refl
          ]
      | inr away ↦
          rw (away, get_condition-set_condition_other now cs t t' status reason message ne) refl
    ]

-- Setting a condition again, at whatever time, changes nothing: the first time stamp stands.
pub set_condition-set_condition :
    (now later : ℕ) (cs : List Condition) (t status reason : String) (message : Text)
    → set_condition later (set_condition now cs t status reason message) t status reason message
      ≡ set_condition now cs t status reason message
unfolding set_condition
set_condition-set_condition now later [] t status reason message =
    rw (str_eq_refl t, fresh-differs now 0 t status reason message) refl
set_condition-set_condition now later (c ∷ cs) t status reason message =
    elim (Bool-cases (str_eq c.condition_type t)) [
      | inl same ↦ elim (Bool-cases (differs c status reason message)) [
        | inl new ↦
            rw
              (
                same,
                new,
                str_eq_refl t,
                fresh-differs now c.observed_generation t status reason message,
              )
              refl
        | inr old ↦ rw (same, old, same, old) refl
      ]
      | inr away ↦
          rw (away, away, set_condition-set_condition now later cs t status reason message) refl
    ]

get-removed : (cs : List Condition) (t : String) → get_condition (remove_condition cs t) t ≡ none
unfolding get_condition remove_condition
get-removed [] t = refl
get-removed (c ∷ cs) t = elim (Bool-cases (str_eq c.condition_type t)) [
  | inl same ↦ rw same (get-removed cs t)
  | inr away ↦ rw (away, away) (get-removed cs t)
]

-- Once a type is removed it is not found, and so neither true nor false.
pub get_condition-remove_condition :
    (cs : List Condition) (t : String)
    → (get_condition (remove_condition cs t) t ≡ none)
      × (is_condition_true (remove_condition cs t) t ≡ false)
      × (is_condition_false (remove_condition cs t) t ≡ false)
unfolding is_condition_true is_condition_false
get_condition-remove_condition cs t =
    let gone = get-removed cs t in (gone, rw gone refl, rw gone refl)

-- Removing a condition leaves what is read of every other type as it was.
pub get_condition-remove_condition_other :
    (cs : List Condition) (t t' : String)
    → t ≢ t'
    → get_condition (remove_condition cs t) t' ≡ get_condition cs t'
unfolding get_condition remove_condition
get_condition-remove_condition_other [] t t' ne = refl
get_condition-remove_condition_other (c ∷ cs) t t' ne =
    elim (Bool-cases (str_eq c.condition_type t)) [
      | inl same ↦
          let e : c.condition_type ≡ t = str_eq-eq c.condition_type t same in
          let off : str_eq c.condition_type t' ≡ false = rw e (str_eq-ne t t' ne) in
          rw (same, off) (get_condition-remove_condition_other cs t t' ne)
      | inr away ↦ rw (away, get_condition-remove_condition_other cs t t' ne) refl
    ]

-- How many conditions have a type.
abbrev pub count : List Condition → String → ℕ
count [] t = 0
count (c ∷ cs) t = if str_eq c.condition_type t then suc (count cs t) else count cs t

-- No type has two conditions.
abbrev pub IsUnique : List Condition → Type 0
IsUnique cs = (t : String) → count cs t ≤ 1

count-set_condition :
    (now : ℕ) (cs : List Condition) (t status reason : String) (message : Text) (t' : String)
    → ((count (set_condition now cs t status reason message) t' ≡ count cs t'))
      ⊎ ((t ≡ t')
          × (count cs t' ≡ 0)
          × (count (set_condition now cs t status reason message) t' ≡ 1))
unfolding set_condition
count-set_condition now [] t status reason message t' = elim (Bool-cases (str_eq t t')) [
  | inl same ↦ inr (str_eq-eq t t' same, refl, rw same refl)
  | inr away ↦ inl (rw away refl)
]
count-set_condition now (c ∷ cs) t status reason message t' =
    elim (Bool-cases (str_eq c.condition_type t)) [
      | inl same ↦
          let e : c.condition_type ≡ t = str_eq-eq c.condition_type t same in
          elim (Bool-cases (differs c status reason message)) [
            | inl new ↦ inl (rw (same, new, e) refl)
            | inr old ↦ inl (rw (same, old) refl)
          ]
      | inr away ↦ elim (count-set_condition now cs t status reason message t') [
        | inl kept ↦ inl (rw (away, kept) refl)
        | inr (e, none_before, one) ↦
            let off : str_eq c.condition_type t' ≡ false = rw (← e) away in
            inr (e, rw (off, none_before) refl, rw (away, off, one) refl)
      ]
    ]

-- Setting a condition keeps every type unique.
pub set_condition-IsUnique :
    (now : ℕ) (cs : List Condition) (t status reason : String) (message : Text)
    → IsUnique cs
    → IsUnique (set_condition now cs t status reason message)
set_condition-IsUnique now cs t status reason message u t' =
    elim (count-set_condition now cs t status reason message t') [
      | inl same ↦ rw same (u t')
      | inr (e, none_before, one) ↦ rw one (omega arith)
    ]

count-remove_condition :
    (cs : List Condition) (t t' : String) → count (remove_condition cs t) t' ≤ count cs t'
unfolding remove_condition
count-remove_condition [] t t' = omega arith
count-remove_condition (c ∷ cs) t t' = ground (arith, count-remove_condition cs t t')
