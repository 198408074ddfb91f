-- ===== src/Wire/Issues.antt =====
-- What `telemetry_numeric_issues` finds and `gpu_from_telemetry` puts to None (telemetry.py,
-- cluster.py).
use constella.Prelude.{
  or_true, ℕ, zero, suc, ◌≡◌, refl, true, false, ◌||◌, Option, none, some, List, [], ◌∷◌, Text,
  text_eq, text_eq→eq, text_eq_refl, any, get_elem?, ap, subst, ◌∙◌, sym, Bool-cases, inl, inr,
  if◌then◌else◌, or_left, or_right, none_not_some, eq_of_some,
}
use constella.Prelude.Dicts.{Dict, lookup}
use constella.Telemetry.Rules.{Value, NumericRule, accepts, numeric_issues}
use constella.Wire.Json.{
  Json, null, Fields, blank, entry, field, set_field, get, or_null, value_of, values_of,
}
use constella.Wire.Decode.{nulled}

pub field-set_field :
    (j k : Text) (v : Json) (d : Fields)
    → field k (set_field j v d) ≡ (if text_eq j k then some v else field k d)
unfolding field set_field
field-set_field j k v blank = refl
field-set_field j k v (entry i w d) = elim (Bool-cases (text_eq i j)) [
  | inl same ↦
      let i_is : i ≡ j = text_eq→eq i j same in
      elim (Bool-cases (text_eq i k)) [
        | inl here ↦
            let j_here : text_eq j k ≡ true = rw (← i_is) here in rw (same, here, j_here) refl
        | inr there ↦
            let j_there : text_eq j k ≡ false = rw (← i_is) there in rw (same, there, j_there) refl
      ]
  | inr other ↦ elim (Bool-cases (text_eq i k)) [
    | inl here ↦
        let j_there : text_eq j k ≡ false = not_both i j k other here in
        rw (other, here, j_there) refl
    | inr there ↦ rw (other, there, field-set_field j k v d) refl
  ]
]
  where
    not_both : (a b c : Text) → text_eq a b ≡ false → text_eq a c ≡ true → text_eq b c ≡ false
    not_both a b c ne e = elim (Bool-cases (text_eq b c)) [
      | inl same ↦
          let a_is : a ≡ c = text_eq→eq a c e in
          let b_is : b ≡ c = text_eq→eq b c same in
          let e' : text_eq a b ≡ true = rw (a_is, b_is) (text_eq_refl c) in absurd (cc)
      | inr apart ↦ apart
    ]

-- A value is as it was sent, or None.
pub get-nulled :
    (k : Text) (names : List Text) (d : Fields)
    → get k (nulled names d) ≡ (if any (λ n. text_eq n k) names then null else get k d)
unfolding nulled
get-nulled k [] d = refl
get-nulled k (name ∷ names) d = elim (Bool-cases (any (λ n. text_eq n k) names)) [
  | inl later ↦
      get-nulled k names (set_field name null d) ∙ rw (later, or_true (text_eq name k)) refl
  | inr never ↦ elim (Bool-cases (text_eq name k)) [
    | inl here ↦
        get-nulled k names (set_field name null d)
        ∙ rw (never, here, field-set_field name k null d, here) refl
    | inr there ↦
        get-nulled k names (set_field name null d)
        ∙ rw (never, there, field-set_field name k null d, there) refl
  ]
]

pub lookup-values_of :
    (k : Text) (d : Fields) (v : Json)
    → field k d ≡ some v
    → lookup k (values_of d) ≡ some (value_of v)
unfolding lookup values_of field
lookup-values_of k blank v h = cc
lookup-values_of k (entry j w d) v h = elim (Bool-cases (text_eq j k)) [
  | inl here ↦
      let h' : some w ≡ some v = simp here at h in
      rw here (ap (λ o. some (value_of (or_null o))) h')
  | inr there ↦
      let h' : field k d ≡ some v = simp there at h in rw there (lookup-values_of k d v h')
]

abbrev found : Text → NumericRule → List Text → Option Value → List Text
found name rule rest none = rest
found name rule rest (some v) = if accepts rule v then rest else name ∷ rest

numeric_issues-cons :
    (values : Dict Value) (name : Text) (rule : NumericRule) (rules : Dict NumericRule)
    (o : Option Value)
    → lookup name values ≡ o
    → numeric_issues values ((name, rule) ∷ rules) ≡ found name rule (numeric_issues values rules) o
unfolding numeric_issues
numeric_issues-cons values name rule rules none h =
    let rest = numeric_issues values rules in
    ap
      (λ (o : Option Value). elim o [
        | none ↦ rest
        | some w ↦ if accepts rule w then rest else name ∷ rest
      ])
      h
numeric_issues-cons values name rule rules (some v) h =
    let rest = numeric_issues values rules in
    ap
      (λ (o : Option Value). elim o [
        | none ↦ rest
        | some w ↦ if accepts rule w then rest else name ∷ rest
      ])
      h

free_behind :
    (k name : Text) (rule : NumericRule) (rest : List Text) (o : Option Value)
    → any (λ n. text_eq n k) (found name rule rest o) ≡ false
    → any (λ n. text_eq n k) rest ≡ false
free_behind k name rule rest none h = h
free_behind k name rule rest (some v) h = elim (Bool-cases (accepts rule v)) [
  | inl ok ↦ simp ok at h
  | inr bad ↦
      let h' : (text_eq name k || any (λ n. text_eq n k) rest) ≡ false = simp bad at h in
      or_right (text_eq name k) _ h'
]

free_here :
    (name : Text) (rule : NumericRule) (rest : List Text) (v : Value)
    → any (λ n. text_eq n name) (found name rule rest (some v)) ≡ false
    → accepts rule v ≡ true
free_here name rule rest v h = elim (Bool-cases (accepts rule v)) [
  | inl ok ↦ ok
  | inr bad ↦
      let h' : (text_eq name name || any (λ n. text_eq n name) rest) ≡ false = simp bad at h in
      let e : text_eq name name ≡ true = text_eq_refl name in
      let e' : text_eq name name ≡ false = or_left _ _ h' in absurd (cc)
]

-- A name that is no issue has an accepted value, if it has any.
pub issue_free :
    (values : Dict Value) (rules : Dict NumericRule) (i : ℕ) (k : Text) (rule : NumericRule)
    (v : Value)
    → get_elem? rules i ≡ some (k, rule)
    → any (λ n. text_eq n k) (numeric_issues values rules) ≡ false
    → lookup k values ≡ some v
    → accepts rule v ≡ true
issue_free values [] i k rule v at_i free here = absurd (none_not_some _ at_i)
issue_free values ((name, r) ∷ rules) zero k rule v at_i free here =
    let same : (name, r) ≡ (k, rule) = eq_of_some at_i in
    subst
      (λ (e : Text × NumericRule).
        any (λ n. text_eq n e.0) (numeric_issues values ((name, r) ∷ rules)) ≡ false
        → lookup e.0 values ≡ some v
        → accepts e.1 v ≡ true)
      same
      (λ f h. free_here name r (numeric_issues values rules) v (
        ap (any (λ n. text_eq n name)) (sym (numeric_issues-cons values name r rules (some v) h))
        ∙ f))
      free here
issue_free values ((name, r) ∷ rules) (suc i) k rule v at_i free here =
    issue_free values rules i k rule v at_i
      (free_behind k name r (numeric_issues values rules) (lookup name values) (
        ap (any (λ n. text_eq n k))
          (sym (numeric_issues-cons values name r rules (lookup name values) refl))
        ∙ free))
      here
