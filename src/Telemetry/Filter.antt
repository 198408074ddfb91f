-- ===== src/Telemetry/Filter.antt =====
-- What `filter_readings` keeps (telemetry.py).
use constella.Prelude.{
  or_right, or_left, ◌≡◌, refl, ap, subst, ◌∙◌, Bool, true, false, not, ◌||◌, Option, none, some,
  List, [], ◌∷◌, Text, text_eq, text_eq→eq, any, if◌then◌else◌, inl, inr, Bool-cases,
}
use constella.Prelude.Dicts.{Dict, lookup, erase, lookup-erase}
use constella.Telemetry.Rules.{
  Value, NumericRule, is_good, invalid_names, erase_all, without, filter_readings,
}

abbrev pub has_name : Text → List Text → Bool
has_name k names = any (λ name. text_eq name k) names

abbrev pub has_key : Text → Dict Value → Bool
has_key k metrics = any (λ (entry : Text × Value). text_eq entry.0 k) metrics

-- A dict has each key once.
unfoldable pub AreDistinct : Dict Value → Type 0
AreDistinct [] = Unit
AreDistinct ((name, v) ∷ metrics) = (has_key name metrics ≡ false) × AreDistinct metrics

-- A reading that its rule accepts.
abbrev pub good_only : Dict NumericRule → Text → Option Value → Option Value
good_only rules k none = none
good_only rules k (some v) = if is_good rules k v then some v else none

-- Whether there is a reading that its rule refuses.
abbrev pub is_bad : Dict NumericRule → Text → Option Value → Bool
is_bad rules k none = false
is_bad rules k (some v) = not (is_good rules k v)

erased :
    (p q : Bool) (o : Option Value)
    → (if q then none else (if p then none else o)) ≡ (if p || q then none else o)
erased true true o = refl
erased true false o = refl
erased false q o = refl

without-eq :
    (names : List Text) (metrics : Dict Value)
    → ((without names metrics).0 ≡ erase_all names metrics) × ((without names metrics).1 ≡ names)
unfolding erase_all
without-eq [] metrics = (refl, refl)
without-eq (name ∷ names) metrics = (refl, refl)

kept :
    (rules : Dict NumericRule) (k : Text) (o : Option Value)
    → (if is_bad rules k o then none else o) ≡ good_only rules k o
kept rules k none = refl
kept rules k (some v) = elim (Bool-cases (is_good rules k v)) [
  | inl good ↦ simp (good, good) refl
  | inr bad ↦ simp (bad, bad) refl
]

lookup-erase_all :
    (k : Text) (names : List Text) (metrics : Dict Value)
    → lookup k (erase_all names metrics) ≡ (if has_name k names then none else lookup k metrics)
unfolding erase_all
lookup-erase_all k [] metrics = refl
lookup-erase_all k (name ∷ names) metrics =
    lookup-erase_all k names (erase name metrics)
    ∙ rw (lookup-erase name k metrics)
        (erased (text_eq name k) (has_name k names) (lookup k metrics))

no_key :
    (rules : Dict NumericRule) (k : Text) (metrics : Dict Value)
    → has_key k metrics ≡ false
    → has_name k (invalid_names rules metrics) ≡ false
unfolding invalid_names
no_key rules k [] h = refl
no_key rules k ((name, v) ∷ metrics) h = elim (Bool-cases (is_good rules name v)) [
  | inl good ↦ simp good (no_key rules k metrics (or_right (text_eq name k) _ h))
  | inr bad ↦
      simp (bad, or_left (text_eq name k) _ h)
        (no_key rules k metrics (or_right (text_eq name k) _ h))
]

has_name-invalid_names :
    (rules : Dict NumericRule) (k : Text) (metrics : Dict Value)
    → AreDistinct metrics
    → has_name k (invalid_names rules metrics) ≡ is_bad rules k (lookup k metrics)
unfolding invalid_names lookup AreDistinct
has_name-invalid_names rules k [] ok = refl
has_name-invalid_names rules k ((name, v) ∷ metrics) ok = elim (Bool-cases (text_eq name k)) [
  | inl same ↦ elim (Bool-cases (is_good rules name v)) [
    | inl good ↦
        let good_k = subst (λ n. is_good rules n v ≡ true) (text_eq→eq name k same) good in
        let gone = subst (λ n. has_key n metrics ≡ false) (text_eq→eq name k same) ok.0 in
        simp (same, good, good_k) (no_key rules k metrics gone)
    | inr bad ↦
        let bad_k = subst (λ n. is_good rules n v ≡ false) (text_eq→eq name k same) bad in
        simp (same, bad, bad_k, same) refl
  ]
  | inr other ↦ elim (Bool-cases (is_good rules name v)) [
    | inl good ↦ simp (other, good) (has_name-invalid_names rules k metrics ok.1)
    | inr bad ↦ simp (other, bad, other) (has_name-invalid_names rules k metrics ok.1)
  ]
]

-- Of a dict of readings, `filter_readings` keeps under each name the reading that was there when its
-- rule accepts it, and nothing when it does not; and it lists a name exactly when the reading under it
-- was refused.
pub filter_readings-good :
    (rules : Dict NumericRule) (metrics : Dict Value)
    → AreDistinct metrics
    → (k : Text)
    → (lookup k (filter_readings rules metrics).0 ≡ good_only rules k (lookup k metrics))
      × (has_name k (filter_readings rules metrics).1 ≡ is_bad rules k (lookup k metrics))
unfolding filter_readings
filter_readings-good rules metrics ok k =
    let names = invalid_names rules metrics in
    let listed = has_name-invalid_names rules k metrics ok in
    (
      ap (lookup k) (without-eq names metrics).0
          ∙ lookup-erase_all k names metrics
          ∙ ap (λ b. if b then none else lookup k metrics) listed
          ∙ kept rules k (lookup k metrics),
      ap (has_name k) (without-eq names metrics).1 ∙ listed,
    )
