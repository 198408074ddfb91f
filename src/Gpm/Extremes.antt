-- ===== src/Gpm/Extremes.antt =====
-- What a downsampled timeline keeps (performance_highres.py, `_downsample_minmax`).
use constella.Prelude.{
  ◌≡◌, refl, Bool, true, false, ◌||◌, Option, none, some, List, [], ◌∷◌, keep, any, arith, inl, inr,
  Bool-cases, All, if◌then◌else◌, ap, subst, sym,
}
use constella.Telemetry.Rules.{Number, at_most}
use constella.Gpm.Ring.{is_given}
use constella.Gpm.Cells.{Stamped}
use constella.Gpm.Downsample.{has_value, value_at_most, chosen, bucket_points, least, greatest}

at_most_trans : (a b c : Number) → at_most a b ≡ true → at_most b c ≡ true → at_most a c ≡ true
at_most_trans a b c h k = ground arith

at_most_total : (a b : Number) → at_most a b ≡ false → at_most b a ≡ true
at_most_total a b h = ground arith

at_most_refl : (a : Number) → at_most a a ≡ true
at_most_refl a = ground arith

pub value_trans :
    (a b c : Option Number)
    → value_at_most a b ≡ true
    → value_at_most b c ≡ true
    → value_at_most a c ≡ true
value_trans (some a) (some b) (some c) h k = at_most_trans a b c h k
value_trans (some a) (some b) none h k = k
value_trans (some a) none c h k = cc
value_trans none b c h k = cc

pub value_refl : (a : Option Number) → is_given a ≡ true → value_at_most a a ≡ true
value_refl none h = cc
value_refl (some a) h = at_most_refl a

value_total :
    (a b : Option Number)
    → is_given a ≡ true
    → is_given b ≡ true
    → value_at_most a b ≡ false
    → value_at_most b a ≡ true
value_total none b h k e = cc
value_total (some a) none h k e = cc
value_total (some a) (some b) h k e = at_most_total a b e

-- A point with a value no greater, and one with a value no less.
abbrev pub below : Option Number → Stamped → Bool
below v p = value_at_most p.value v

abbrev pub above : Option Number → Stamped → Bool
above v p = value_at_most v p.value

-- The points reach as low and as high as the sample, if it has a value.
abbrev pub IsCovered : List Stamped → Stamped → Type 0
IsCovered points s =
    has_value s ≡ true → (any (below s.value) points ≡ true) × (any (above s.value) points ≡ true)

pub or_of_right : (b c : Bool) → c ≡ true → (b || c) ≡ true
or_of_right true c h = refl
or_of_right false c h = h

pub or_of_left : (b c : Bool) → b ≡ true → (b || c) ≡ true
or_of_left b c h = rw h refl

abbrev IsLeast : Stamped → Stamped → List Stamped → Type 0
IsLeast m s ss =
    (value_at_most m.value s.value ≡ true) × All (λ t. value_at_most m.value t.value ≡ true) ss

abbrev IsGreatest : Stamped → Stamped → List Stamped → Type 0
IsGreatest m s ss =
    (value_at_most s.value m.value ≡ true) × All (λ t. value_at_most t.value m.value ≡ true) ss

least_step :
    (low s : Stamped) (ss : List Stamped) (b : Bool)
    → value_at_most low.value s.value ≡ b
    → least low (s ∷ ss) ≡ least (if b then low else s) ss
unfolding least
least_step low s ss b e = ap (λ (c : Bool). least (if c then low else s) ss) e

greatest_step :
    (high s : Stamped) (ss : List Stamped) (b : Bool)
    → value_at_most s.value high.value ≡ b
    → greatest high (s ∷ ss) ≡ greatest (if b then high else s) ss
unfolding greatest
greatest_step high s ss b e = ap (λ (c : Bool). greatest (if c then high else s) ss) e

least_lem :
    (low : Stamped) (ss : List Stamped)
    → has_value low ≡ true
    → All (λ s. has_value s ≡ true) ss
    → IsLeast (least low ss) low ss
unfolding least
least_lem low [] given all = (value_refl low.value given, tt)
least_lem low (s ∷ ss) given all = elim (Bool-cases (value_at_most low.value s.value)) [
  | inl keeps ↦
      let (here, rest) = least_lem low ss given all.1 in
      subst (λ m. IsLeast m low (s ∷ ss)) (sym (least_step low s ss true keeps))
        (here, (value_trans _ low.value s.value here keeps, rest))
  | inr moves ↦
      let (here, rest) = least_lem s ss all.0 all.1 in
      subst (λ m. IsLeast m low (s ∷ ss)) (sym (least_step low s ss false moves))
        (
          value_trans _ s.value low.value here (value_total low.value s.value given all.0 moves),
          (here, rest),
        )
]

greatest_lem :
    (high : Stamped) (ss : List Stamped)
    → has_value high ≡ true
    → All (λ s. has_value s ≡ true) ss
    → IsGreatest (greatest high ss) high ss
unfolding greatest
greatest_lem high [] given all = (value_refl high.value given, tt)
greatest_lem high (s ∷ ss) given all = elim (Bool-cases (value_at_most s.value high.value)) [
  | inl keeps ↦
      let (here, rest) = greatest_lem high ss given all.1 in
      subst (λ m. IsGreatest m high (s ∷ ss)) (sym (greatest_step high s ss true keeps))
        (here, (value_trans s.value high.value _ keeps here, rest))
  | inr moves ↦
      let (here, rest) = greatest_lem s ss all.0 all.1 in
      subst (λ m. IsGreatest m high (s ∷ ss)) (sym (greatest_step high s ss false moves))
        (
          value_trans high.value s.value _ (value_total s.value high.value all.0 given moves) here,
          (here, rest),
        )
]

All-keep : (ss : List Stamped) → All (λ s. has_value s ≡ true) (keep has_value ss)
All-keep [] = tt
All-keep (s ∷ ss) = elim (Bool-cases (has_value s)) [
  | inl given ↦ rw given (given, All-keep ss)
  | inr missing ↦ rw missing (All-keep ss)
]

All-kept :
    (P : Stamped → Type 0) (ss : List Stamped)
    → All P (keep has_value ss)
    → All (λ s. has_value s ≡ true → P s) ss
All-kept P [] h = tt
All-kept P (s ∷ ss) h = elim (Bool-cases (has_value s)) [
  | inl given ↦
      let h' : P s × All P (keep has_value ss) = simp given at h in
      ((λ e. h'.0), All-kept P ss h'.1)
  | inr missing ↦
      let h' : All P (keep has_value ss) = simp missing at h in
      ((λ (e : has_value s ≡ true). absurd (cc)), All-kept P ss h')
]

chosen_covers :
    (bucket valid : List Stamped)
    → All (λ s. has_value s ≡ true) valid
    → All
        (λ s.
          (any (below s.value) (chosen bucket valid) ≡ true)
          × (any (above s.value) (chosen bucket valid) ≡ true))
        valid
chosen_covers bucket [] all = tt
chosen_covers bucket (v ∷ valid) all =
    let (low, lows) = least_lem v valid all.0 all.1 in
    let (high, highs) = greatest_lem v valid all.0 all.1 in
    ((or_of_left _ _ low, or_of_right _ _ (or_of_left _ _ high)), each valid lows highs)
  where
    each :
        (ss : List Stamped)
        → All (λ s. value_at_most (least v valid).value s.value ≡ true) ss
        → All (λ s. value_at_most s.value (greatest v valid).value ≡ true) ss
        → All
            (λ s.
              (any (below s.value) (chosen bucket (v ∷ valid)) ≡ true)
              × (any (above s.value) (chosen bucket (v ∷ valid)) ≡ true))
            ss
    each [] lows highs = tt
    each (s ∷ ss) lows highs =
        ((or_of_left _ _ lows.0, or_of_right _ _ (or_of_left _ _ highs.0)), each ss lows.1 highs.1)

pub bucket_covers : (bucket : List Stamped) → All (IsCovered (bucket_points bucket)) bucket
bucket_covers bucket =
    All-kept _ bucket (chosen_covers bucket (keep has_value bucket) (All-keep bucket))
