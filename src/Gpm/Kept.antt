-- ===== src/Gpm/Kept.antt =====
-- A downsampled timeline keeps the extremes (performance_highres.py,
-- `_downsample_minmax`).
use constella.Prelude.{
  any-append, ℕ, zero, suc, ◌≤◌, ◌<◌, ◌≡◌, refl, Bool, true, ◌||◌, ◌⊎◌, Option, none, some, List,
  [], ◌∷◌, ◌++◌, leb, ◌==◌, length, length-drop, take, drop, any, arith, inl, inr, Bool-cases, All,
  All-map, and_both, subst, sym, ◌∙◌,
}
use constella.Telemetry.Rules.{Number, at_most}
use constella.Prelude.Sorting.{any-sort_by}
use constella.Gpm.Ring.{is_given}
use constella.Gpm.Cells.{Stamped}
use constella.Gpm.Downsample.{
  value_at_most, bucket_points, buckets_points, stamped_eq, value_eq, distinct, is_earlier,
  sort_by_time, downsample_minmax, last_of, bucket_size,
}
use constella.Gpm.Extremes.{
  below, above, IsCovered, or_of_right, or_of_left, bucket_covers, value_trans, value_refl,
}

pub All-take-drop :
    (P : Stamped → Type 0) (n : ℕ) (ss : List Stamped)
    → All P (take n ss)
    → All P (drop n ss)
    → All P ss
All-take-drop P zero ss h k = k
All-take-drop P (suc n) [] h k = tt
All-take-drop P (suc n) (s ∷ ss) h k = (h.0, All-take-drop P n ss h.1 k)

IsCovered-left : (xs ys : List Stamped) (s : Stamped) → IsCovered xs s → IsCovered (xs ++ ys) s
IsCovered-left xs ys s h given =
    let (low, high) = h given in
    (
      any-append (below s.value) xs ys ∙ or_of_left _ _ low,
      any-append (above s.value) xs ys ∙ or_of_left _ _ high,
    )

IsCovered-right : (xs ys : List Stamped) (s : Stamped) → IsCovered ys s → IsCovered (xs ++ ys) s
IsCovered-right xs ys s h given =
    let (low, high) = h given in
    (
      any-append (below s.value) xs ys ∙ or_of_right _ _ low,
      any-append (above s.value) xs ys ∙ or_of_right _ _ high,
    )

buckets_cover :
    (rounds size : ℕ) (timeline : List Stamped)
    → 0 < size
    → length timeline ≤ rounds
    → All (IsCovered (buckets_points rounds size timeline)) timeline
unfolding buckets_points
buckets_cover zero size [] some_size enough = tt
buckets_cover zero size (s ∷ timeline) some_size enough = absurd (omega arith)
buckets_cover (suc rounds) size [] some_size enough = tt
buckets_cover (suc rounds) size (s ∷ timeline) some_size enough =
    let now = take size (s ∷ timeline) in
    let rest = drop size (s ∷ timeline) in
    All-take-drop _ size (s ∷ timeline)
      (All-map _ _ now (IsCovered-left (bucket_points now) (buckets_points rounds size rest))
        (bucket_covers now))
      (All-map _ _ rest (IsCovered-right (bucket_points now) (buckets_points rounds size rest))
        (buckets_cover rounds size rest some_size (omega (arith, length-drop size (s ∷ timeline)))))

-- The test does not tell equal points apart.
abbrev Respects : (Stamped → Bool) → Type 0
Respects q = (s t : Stamped) → stamped_eq s t ≡ true → q s ≡ true → q t ≡ true

value_eq-le :
    (a b : Option Number)
    → value_eq a b ≡ true
    → (c : Number)
    → (value_at_most a (some c) ≡ true → value_at_most b (some c) ≡ true)
      × (value_at_most (some c) a ≡ true → value_at_most (some c) b ≡ true)
value_eq-le none none e c = ((λ h. h), (λ h. h))
value_eq-le none (some b) e c = cc
value_eq-le (some a) none e c = cc
value_eq-le (some a) (some b) e c =
    let (there, back) = and_both (at_most a b) (at_most b a) e in
    (
      (λ h. value_trans (some b) (some a) (some c) back h),
      (λ h. value_trans (some c) (some a) (some b) h there),
    )

below-Respects : (c : Number) → Respects (below (some c))
below-Respects c s t e h =
    (value_eq-le s.value t.value (and_both (s.at_time == t.at_time) _ e).1 c).0 h

above-Respects : (c : Number) → Respects (above (some c))
above-Respects c s t e h =
    (value_eq-le s.value t.value (and_both (s.at_time == t.at_time) _ e).1 c).1 h

any-seen :
    (q : Stamped → Bool) (s : Stamped) (seen : List Stamped)
    → Respects q
    → q s ≡ true
    → any (stamped_eq s) seen ≡ true
    → any q seen ≡ true
any-seen q s [] ok h e = cc
any-seen q s (t ∷ seen) ok h e = elim (Bool-cases (stamped_eq s t)) [
  | inl same ↦ or_of_left _ _ (ok s t same h)
  | inr other ↦
      let e' : any (stamped_eq s) seen ≡ true = simp other at e in
      or_of_right _ _ (any-seen q s seen ok h e')
]

any-distinct :
    (q : Stamped → Bool) (seen ss : List Stamped)
    → Respects q
    → any q ss ≡ true
    → (any q seen || any q (distinct seen ss)) ≡ true
unfolding distinct
any-distinct q seen [] ok h = cc
any-distinct q seen (s ∷ ss) ok h = elim (Bool-cases (any (stamped_eq s) seen)) [
  | inl twice ↦ elim (Bool-cases (q s)) [
    | inl here ↦ or_of_left _ _ (any-seen q s seen ok here twice)
    | inr there ↦
        let later : any q ss ≡ true = simp there at h in
        let rest = any-distinct q (s ∷ seen) ss ok later in
        let rest' : (any q seen || any q (distinct (s ∷ seen) ss)) ≡ true = simp there at rest in
        rw twice rest'
  ]
  | inr once ↦ elim (Bool-cases (q s)) [
    | inl here ↦ rw once (or_of_right _ _ (or_of_left _ _ here))
    | inr there ↦
        let later : any q ss ≡ true = simp there at h in
        let rest = any-distinct q (s ∷ seen) ss ok later in
        let rest' : (any q seen || any q (distinct (s ∷ seen) ss)) ≡ true = simp there at rest in
        rw (once, there) rest'
  ]
]

any-tidied :
    (q : Stamped → Bool) (points : List Stamped)
    → Respects q
    → any q points ≡ true
    → any q (sort_by_time (distinct [] points)) ≡ true
any-tidied q points ok h =
    any-sort_by is_earlier q (distinct [] points) ∙ any-distinct q [] points ok h

IsCovered-tidied :
    (points : List Stamped) (s : Stamped)
    → IsCovered points s
    → IsCovered (sort_by_time (distinct [] points)) s
IsCovered-tidied points s h given = tidied s.value given (h given).0 (h given).1
  where
    tidied :
        (v : Option Number)
        → is_given v ≡ true
        → any (below v) points ≡ true
        → any (above v) points ≡ true
        → (any (below v) (sort_by_time (distinct [] points)) ≡ true)
          × (any (above v) (sort_by_time (distinct [] points)) ≡ true)
    tidied none given low high = cc
    tidied (some c) given low high = (
      any-tidied (below (some c)) points (below-Respects c) low,
      any-tidied (above (some c)) points (above-Respects c) high,
    )

covers_itself : (s : Stamped) (ss : List Stamped) → IsCovered (s ∷ ss) s
covers_itself s ss given =
    (or_of_left _ _ (value_refl s.value given), or_of_left _ _ (value_refl s.value given))

All-IsCovered : (ss : List Stamped) → All (IsCovered ss) ss
All-IsCovered [] = tt
All-IsCovered (s ∷ ss) =
    (covers_itself s ss, All-map _ _ ss (λ t. IsCovered-right (s ∷ []) ss t) (All-IsCovered ss))

-- What is sorted when the timeline is too long.
abbrev pub collected : Stamped → List Stamped → ℕ → List Stamped
collected s timeline max_points =
    let total = length (s ∷ timeline) in
    s ∷ last_of s timeline ∷ buckets_points total (bucket_size total max_points) (s ∷ timeline)

pub downsample_minmax-cases :
    (s : Stamped) (timeline : List Stamped) (max_points : ℕ)
    → (downsample_minmax (s ∷ timeline) max_points ≡ s ∷ timeline)
      ⊎ (downsample_minmax (s ∷ timeline) max_points
          ≡ sort_by_time (distinct [] (collected s timeline max_points)))
unfolding downsample_minmax
downsample_minmax-cases s timeline max_points =
    elim (Bool-cases (leb (length (s ∷ timeline)) max_points)) [
      | inl small ↦ inl (rw small refl)
      | inr large ↦ inr (rw large refl)
    ]

-- Downsampling loses no peak and no valley: for each sample of a timeline that has a value, there is
-- a point whose value is no greater and a point whose value is no less.
pub downsample_minmax-covers :
    (timeline : List Stamped) (max_points : ℕ)
    → All (IsCovered (downsample_minmax timeline max_points)) timeline
unfolding downsample_minmax
downsample_minmax-covers [] max_points = tt
downsample_minmax-covers (s ∷ timeline) max_points =
    let points = collected s timeline max_points in
    let total = length (s ∷ timeline) in
    let ends = s ∷ last_of s timeline ∷ [] in
    elim (downsample_minmax-cases s timeline max_points) [
      | inl whole ↦
          subst (λ out. All (IsCovered out) (s ∷ timeline)) (sym whole)
            (All-IsCovered (s ∷ timeline))
      | inr tidied ↦
          subst (λ out. All (IsCovered out) (s ∷ timeline)) (sym tidied)
            (All-map _ _ (s ∷ timeline)
              (λ t h. IsCovered-tidied points t (IsCovered-right ends _ t h))
              (buckets_cover total (bucket_size total max_points) (s ∷ timeline) (omega arith)
                (omega arith)))
    ]
