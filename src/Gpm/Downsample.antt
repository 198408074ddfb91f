-- ===== src/Gpm/Downsample.antt =====
-- `_downsample_minmax` (performance_highres.py). A set is the list of its elements in the order in which
-- they came; the code's has no order, which shows where two different points have one time.
use constella.Prelude.{
  ℕ, zero, suc, ◌+◌, ◌-◌, ◌/◌, max, Bool, true, false, ◌&&◌, Option, none, some, List, [], ◌∷◌,
  ◌++◌, leb, ◌==◌, length, take, drop, keep, any, if◌then◌else◌,
}
use constella.Telemetry.Rules.{Number, at_most}
use constella.Prelude.Sorting.{sort_by}
use constella.Gpm.Cells.{Stamped}
use constella.Gpm.Ring.{is_given}

abbrev pub has_value : Stamped → Bool
has_value s = is_given s.value

abbrev pub value_at_most : Option Number → Option Number → Bool
value_at_most (some a) (some b) = at_most a b
value_at_most (some a) none = false
value_at_most none b = false

-- `min(valid, key=itemgetter(1))`: the first of the least; `low` is the best so far.
unfoldable pub least : Stamped → List Stamped → Stamped
least low [] = low
least low (s ∷ ss) = least (if value_at_most low.value s.value then low else s) ss

-- `max(valid, key=itemgetter(1))`
unfoldable pub greatest : Stamped → List Stamped → Stamped
greatest high [] = high
greatest high (s ∷ ss) = greatest (if value_at_most s.value high.value then high else s) ss

unfoldable pub last_of : Stamped → List Stamped → Stamped
last_of s [] = s
last_of s (t ∷ ss) = last_of t ss

-- `next(item for item in bucket if item[1] is None)`, as a list of at most one.
abbrev pub first_missing : List Stamped → List Stamped
first_missing [] = []
first_missing (s ∷ ss) = if has_value s then first_missing ss else s ∷ []

-- The points of a bucket; `valid` are those of its samples that have a value. The first missing one is
-- there exactly if not all are valid.
abbrev pub chosen : List Stamped → List Stamped → List Stamped
chosen [] [] = []
chosen (s ∷ ss) [] = record { at_time = (last_of s ss).at_time; value = none } ∷ []
chosen bucket (v ∷ valid) =
    least v valid
    ∷ greatest v valid
    ∷ (if length (v ∷ valid) == length bucket then [] else first_missing bucket)

abbrev pub bucket_points : List Stamped → List Stamped
bucket_points bucket = chosen bucket (keep has_value bucket)

-- The loop over the buckets: each round takes `size` samples off, so that as many rounds as samples
-- are enough.
unfoldable pub buckets_points : ℕ → ℕ → List Stamped → List Stamped
buckets_points zero size timeline = []
buckets_points (suc rounds) size [] = []
buckets_points (suc rounds) size (s ∷ timeline) =
    bucket_points (take size (s ∷ timeline))
    ++ buckets_points rounds size (drop size (s ∷ timeline))

abbrev pub value_eq : Option Number → Option Number → Bool
value_eq none none = true
value_eq none (some b) = false
value_eq (some a) none = false
value_eq (some a) (some b) = at_most a b && at_most b a

abbrev pub stamped_eq : Stamped → Stamped → Bool
stamped_eq s t = (s.at_time == t.at_time) && value_eq s.value t.value

-- `set(points)`; `seen` are the points before.
unfoldable pub distinct : List Stamped → List Stamped → List Stamped
distinct seen [] = []
distinct seen (s ∷ ss) =
    let rest = distinct (s ∷ seen) ss in if any (stamped_eq s) seen then rest else s ∷ rest

-- `sorted(…, key=lambda item: item[0])`
abbrev pub is_earlier : Stamped → Stamped → Bool
is_earlier s t = leb s.at_time t.at_time

abbrev pub sort_by_time : List Stamped → List Stamped
sort_by_time points = sort_by is_earlier points

abbrev pub bucket_count : ℕ → ℕ
bucket_count max_points = max 1 ((max_points - 2) / 3)

-- `math.ceil(len(timeline) / bucket_count)`
abbrev pub bucket_size : ℕ → ℕ → ℕ
bucket_size total max_points =
    max 1 ((total + (bucket_count max_points - 1)) / bucket_count max_points)

unfoldable pub downsample_minmax : List Stamped → ℕ → List Stamped
downsample_minmax [] max_points = []
downsample_minmax (s ∷ timeline) max_points =
    let total = length (s ∷ timeline) in
    if leb total max_points
    then s ∷ timeline
    else sort_by_time (
        distinct [] (
          s
          ∷ last_of s timeline
          ∷ buckets_points total (bucket_size total max_points) (s ∷ timeline)))
