-- ===== src/Gpm/Sizes.antt =====
-- How many points a downsampled timeline has (performance_highres.py, `_downsample_minmax`).
use constella.Prelude.{
  ℕ, zero, suc, ◌+◌, ◌-◌, ◌*◌, ◌/◌, max, ◌≤◌, ◌<◌, ◌≡◌, List, [], ◌∷◌, leb, ◌==◌, length,
  length-append, length-drop, take, drop, keep, any, arith, inl, inr, Bool-cases, subst,
}
use constella.Prelude.Sorting.{length-sort_by}
use constella.Gpm.Cells.{Stamped}
use constella.Gpm.Downsample.{
  has_value, first_missing, chosen, bucket_points, buckets_points, stamped_eq, distinct, is_earlier,
  bucket_count, bucket_size, downsample_minmax, last_of,
}

length-distinct : (seen ss : List Stamped) → length (distinct seen ss) ≤ length ss
unfolding distinct
length-distinct seen [] = omega arith
length-distinct seen (s ∷ ss) = elim (Bool-cases (any (stamped_eq s) seen)) [
  | inl twice ↦ rw twice (omega (arith, length-distinct (s ∷ seen) ss))
  | inr once ↦ rw once (omega (arith, length-distinct (s ∷ seen) ss))
]

length-first_missing : (ss : List Stamped) → length (first_missing ss) ≤ 1
length-first_missing [] = omega arith
length-first_missing (s ∷ ss) = elim (Bool-cases (has_value s)) [
  | inl given ↦ rw given (length-first_missing ss)
  | inr missing ↦ rw missing (omega arith)
]

length-chosen : (bucket valid : List Stamped) → length (chosen bucket valid) ≤ 3
length-chosen [] [] = omega arith
length-chosen (s ∷ ss) [] = omega arith
length-chosen bucket (v ∷ valid) = elim (Bool-cases (length (v ∷ valid) == length bucket)) [
  | inl all ↦ rw all (omega arith)
  | inr some_missing ↦ rw some_missing (omega (arith, length-first_missing bucket))
]

-- As many buckets of `size` samples as are enough for the timeline.
length-buckets_points :
    (rounds size : ℕ) (timeline : List Stamped) (buckets : ℕ)
    → 0 < size
    → length timeline ≤ buckets * size
    → length (buckets_points rounds size timeline) ≤ 3 * buckets
unfolding buckets_points
length-buckets_points zero size timeline buckets some_size fits = omega arith
length-buckets_points (suc rounds) size [] buckets some_size fits = omega arith
length-buckets_points (suc rounds) size (s ∷ timeline) zero some_size fits = absurd (omega arith)
length-buckets_points (suc rounds) size (s ∷ timeline) (suc buckets) some_size fits = omega (
  arith,
  length-append (bucket_points (take size (s ∷ timeline)))
      (buckets_points rounds size (drop size (s ∷ timeline))),
  length-chosen (take size (s ∷ timeline)) (keep has_value (take size (s ∷ timeline))),
  length-buckets_points rounds size (drop size (s ∷ timeline)) buckets some_size
      (omega (arith, length-drop size (s ∷ timeline))),
)

-- A count of buckets times their size is enough: n ≤ b * ⌈n / b⌉.
ceiling : (n b : ℕ) → 0 < b → n ≤ b * ((n + (b - 1)) / b)
ceiling n b room = omega arith

enough : (n b : ℕ) → 0 < b → n ≤ b * max 1 ((n + (b - 1)) / b)
enough n b room = elim (Bool-cases (leb 1 ((n + (b - 1)) / b))) [
  | inl some_rounds ↦
      let same : max 1 ((n + (b - 1)) / b) ≡ (n + (b - 1)) / b = ground arith in
      rw same (ceiling n b room)
  | inr no_round ↦
      let zero_rounds : (n + (b - 1)) / b ≡ 0 = ground arith in
      let nothing : n ≤ b * 0 = subst (λ (q : ℕ). n ≤ b * q) zero_rounds (ceiling n b room) in
      omega arith
]

-- A downsampled timeline has at most `max_points` points, and at most five where `max_points` is less
-- than that.
pub length-downsample_minmax :
    (timeline : List Stamped) (max_points : ℕ)
    → length (downsample_minmax timeline max_points) ≤ max 5 max_points
unfolding downsample_minmax
length-downsample_minmax [] max_points = omega arith
length-downsample_minmax (s ∷ timeline) max_points =
    let total = length (s ∷ timeline) in
    let size = bucket_size total max_points in
    let count = bucket_count max_points in
    let points = s ∷ last_of s timeline ∷ buckets_points total size (s ∷ timeline) in
    elim (Bool-cases (leb total max_points)) [
      | inl small ↦ rw small (ground arith)
      | inr large ↦
          rw (large, length-sort_by is_earlier (distinct [] points))
            (omega (
              arith,
              length-distinct [] points,
              length-buckets_points total size (s ∷ timeline) count (omega arith)
                  (enough total count (omega arith)),
            ))
    ]
