-- ===== src/Gpm/Chosen.antt =====
-- The points of a downsampled timeline are samples of it (performance_highres.py,
-- `_downsample_minmax`).
use constella.Prelude.{
  ℕ, zero, suc, ◌≡◌, refl, Bool, false, Option, none, some, List, [], ◌∷◌, ◌==◌, length, take, drop,
  keep, any, inl, inr, Bool-cases, All, All-append, if◌then◌else◌, ap, subst, sym,
}
use constella.Telemetry.Rules.{Number}
use constella.Prelude.Sorting.{All-sort_by}
use constella.Gpm.Ring.{is_given}
use constella.Gpm.Cells.{Stamped}
use constella.Gpm.Downsample.{
  has_value, value_at_most, first_missing, chosen, bucket_points, buckets_points, stamped_eq,
  distinct, is_earlier, downsample_minmax, last_of, least, greatest,
}
use constella.Gpm.Kept.{collected, downsample_minmax-cases}

blank_of : (v : Option Number) → is_given v ≡ false → v ≡ none
blank_of none h = refl
blank_of (some v) h = cc

head_missing :
    (s : Stamped) (ss : List Stamped)
    → keep has_value (s ∷ ss) ≡ []
    → (has_value s ≡ false) × (keep has_value ss ≡ [])
head_missing s ss h = elim (Bool-cases (has_value s)) [
  | inl given ↦ let h' : s ∷ keep has_value ss ≡ [] = simp given at h in absurd (cc)
  | inr missing ↦ (missing, simp missing at h)
]

last_of-missing :
    (s : Stamped) (ss : List Stamped) → keep has_value (s ∷ ss) ≡ [] → (last_of s ss).value ≡ none
unfolding last_of
last_of-missing s [] h = blank_of s.value (head_missing s [] h).0
last_of-missing s (t ∷ ss) h = last_of-missing t ss (head_missing s (t ∷ ss) h).1

blank_lem : (s : Stamped) → s.value ≡ none → s ≡ record { at_time = s.at_time; value = none }
blank_lem s e = ap (λ v. record { at_time = s.at_time; value = v }) e

module _ (P : Stamped → Type 0) where
  All-distinct : (seen ss : List Stamped) → All P ss → All P (distinct seen ss)
  unfolding distinct
  All-distinct seen [] hs = tt
  All-distinct seen (s ∷ ss) hs = elim (Bool-cases (any (stamped_eq s) seen)) [
    | inl twice ↦ rw twice (All-distinct (s ∷ seen) ss hs.1)
    | inr once ↦ rw once (hs.0, All-distinct (s ∷ seen) ss hs.1)
  ]

  All-taken : (n : ℕ) (ss : List Stamped) → All P ss → All P (take n ss)
  All-taken zero ss hs = tt
  All-taken (suc n) [] hs = tt
  All-taken (suc n) (s ∷ ss) hs = (hs.0, All-taken n ss hs.1)

  All-dropped : (n : ℕ) (ss : List Stamped) → All P ss → All P (drop n ss)
  All-dropped zero ss hs = hs
  All-dropped (suc n) [] hs = tt
  All-dropped (suc n) (s ∷ ss) hs = All-dropped n ss hs.1

  All-valid : (ss : List Stamped) → All P ss → All P (keep has_value ss)
  All-valid [] hs = tt
  All-valid (s ∷ ss) hs = elim (Bool-cases (has_value s)) [
    | inl given ↦ rw given (hs.0, All-valid ss hs.1)
    | inr missing ↦ rw missing (All-valid ss hs.1)
  ]

  least-chosen : (s : Stamped) (ss : List Stamped) → P s → All P ss → P (least s ss)
  unfolding least
  least-chosen s [] h hs = h
  least-chosen s (t ∷ ts) h hs = elim (Bool-cases (value_at_most s.value t.value)) [
    | inl keeps ↦
        subst P (ap (λ (c : Bool). least (if c then s else t) ts) (sym keeps))
          (least-chosen s ts h hs.1)
    | inr moves ↦
        subst P (ap (λ (c : Bool). least (if c then s else t) ts) (sym moves))
          (least-chosen t ts hs.0 hs.1)
  ]

  greatest-chosen : (s : Stamped) (ss : List Stamped) → P s → All P ss → P (greatest s ss)
  unfolding greatest
  greatest-chosen s [] h hs = h
  greatest-chosen s (t ∷ ts) h hs = elim (Bool-cases (value_at_most t.value s.value)) [
    | inl keeps ↦
        subst P (ap (λ (c : Bool). greatest (if c then s else t) ts) (sym keeps))
          (greatest-chosen s ts h hs.1)
    | inr moves ↦
        subst P (ap (λ (c : Bool). greatest (if c then s else t) ts) (sym moves))
          (greatest-chosen t ts hs.0 hs.1)
  ]

  first_missing-chosen : (ss : List Stamped) → All P ss → All P (first_missing ss)
  first_missing-chosen [] hs = tt
  first_missing-chosen (s ∷ ss) hs = elim (Bool-cases (has_value s)) [
    | inl given ↦ rw given (first_missing-chosen ss hs.1)
    | inr missing ↦ rw missing (hs.0, tt)
  ]

  last_of-chosen : (s : Stamped) (ss : List Stamped) → P s → All P ss → P (last_of s ss)
  unfolding last_of
  last_of-chosen s [] h hs = h
  last_of-chosen s (t ∷ ts) h hs = last_of-chosen t ts hs.0 hs.1

  All-chosen :
      (bucket valid : List Stamped)
      → keep has_value bucket ≡ valid
      → All P bucket
      → All P valid
      → All P (chosen bucket valid)
  All-chosen [] [] e hs vs = tt
  All-chosen (s ∷ ss) [] e hs vs = (
    subst P (blank_lem (last_of s ss) (last_of-missing s ss e)) (last_of-chosen s ss hs.0 hs.1),
    tt,
  )
  All-chosen bucket (v ∷ valid) e hs vs = (
    least-chosen v valid vs.0 vs.1,
    (
      greatest-chosen v valid vs.0 vs.1,
      elim (Bool-cases (length (v ∷ valid) == length bucket)) [
        | inl all ↦ rw all tt
        | inr some_missing ↦ rw some_missing (first_missing-chosen bucket hs)
      ],
    ),
  )

  All-buckets :
      (rounds size : ℕ) (timeline : List Stamped)
      → All P timeline
      → All P (buckets_points rounds size timeline)
  unfolding buckets_points
  All-buckets zero size timeline hs = tt
  All-buckets (suc rounds) size [] hs = tt
  All-buckets (suc rounds) size (s ∷ timeline) hs =
      let now = take size (s ∷ timeline) in
      let taken = All-taken size (s ∷ timeline) hs in
      All-append P (bucket_points now) _
        (All-chosen now (keep has_value now) refl taken (All-valid now taken))
        (All-buckets rounds size (drop size (s ∷ timeline)) (All-dropped size (s ∷ timeline) hs))

-- What holds of every sample of a timeline holds of every point that downsampling makes of it: the
-- points are samples, with their own times and values.
pub All-downsample_minmax :
    (P : Stamped → Type 0) (timeline : List Stamped) (max_points : ℕ)
    → All P timeline
    → All P (downsample_minmax timeline max_points)
unfolding downsample_minmax
All-downsample_minmax P [] max_points hs = tt
All-downsample_minmax P (s ∷ timeline) max_points hs =
    elim (downsample_minmax-cases s timeline max_points) [
      | inl whole ↦ subst (All P) (sym whole) hs
      | inr tidied ↦ subst (All P) (sym tidied) (
          All-sort_by is_earlier P _ (
            All-distinct P [] (collected s timeline max_points)
              (hs.0, (last_of-chosen P s timeline hs.0 hs.1, All-buckets P _ _ (s ∷ timeline) hs))))
    ]
