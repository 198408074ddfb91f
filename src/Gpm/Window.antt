-- ===== src/Gpm/Window.antt =====
-- `NvidiaGpmSampleRing._window` and `metric_series_many` (performance_highres.py), with `bisect_left`
-- and `bisect_right` of the standard library.
use constella.Prelude.{
  ℕ, zero, suc, ◌+◌, ◌-◌, ◌/◌, Bool, not, none, some, List, [], ◌∷◌, ◌++◌, map, ltb, leb, ◌==◌,
  get_or, take, drop, if◌then◌else◌,
}
use constella.Telemetry.Rules.{Number, whole}
use constella.Gpm.Ring.{Ring, index_of, time_at}
use constella.Gpm.Cells.{Stamped, reading_under}

-- The loop of both bisections, `lo < hi`: `goes_right` is the test that moves `lo` past the middle.
unfoldable pub bisect : (ℕ → Bool) → ℕ → ℕ → ℕ → ℕ
bisect goes_right zero lo hi = lo
bisect goes_right (suc fuel) lo hi =
    let mid = (lo + hi) / 2 in
    let right = goes_right mid in
    let rest = bisect goes_right fuel (if right then suc mid else lo) (if right then hi else mid) in
    if ltb lo hi then rest else lo

-- `bisect_left(range(count), since, key=_time_at)`
unfoldable pub bisect_left : Ring → ℕ → ℕ
bisect_left r since = bisect (λ o. ltb (time_at r o) since) r.count 0 r.count

-- `bisect_right(range(count), until, lo=start, key=_time_at)`
unfoldable pub bisect_right : Ring → ℕ → ℕ → ℕ
bisect_right r until start = bisect (λ o. not (ltb until (time_at r o))) r.count start r.count

-- The scan of a ring whose clock went back: the indices of the `left` offsets from `offset` on.
unfoldable pub scanned : Ring → ℕ → ℕ → ℕ → ℕ → List ℕ
scanned r since until zero offset = []
scanned r since until (suc left) offset =
    let index = index_of r offset in
    let rest = scanned r since until left (suc offset) in
    if ltb until (time_at r offset)
    then []
    else if leb since (time_at r offset)
    then index ∷ rest
    else rest

-- The slices of one array between two offsets; `d` stands for a read out of bounds.
unfoldable pub slices {ℓ} : {A : Type ℓ} → Ring → ℕ → ℕ → List A → List A
slices r start end xs =
    let first = index_of r start in
    let last = first + end - start in
    if start == end
    then []
    else if leb last r.capacity
    then take (last - first) (drop first xs)
    else drop first xs ++ take (last - r.capacity) xs

-- What `_window` makes of one array: it makes the same of each.
unfoldable pub window_of {ℓ} : {A : Type ℓ} → Ring → ℕ → ℕ → A → List A → List A
window_of r since until d xs =
    let start = bisect_left r since in
    if r.time_ordered
    then slices r start (bisect_right r until start) xs
    else map (λ i. get_or xs i d) (scanned r since until r.count 0)

-- `zip`
unfoldable pub timeline_of : ℕ → List ℕ → List Number → List ℕ → List Stamped
timeline_of k (stamp ∷ timestamps) (v ∷ samples) (mask ∷ masks) =
    record { at_time = stamp; value = reading_under mask k v }
    ∷ timeline_of k timestamps samples masks
timeline_of k (stamp ∷ timestamps) (v ∷ samples) [] = []
timeline_of k (stamp ∷ timestamps) [] masks = []
timeline_of k [] samples masks = []

-- The timeline of the metric k that `metric_series_many` downsamples.
unfoldable pub timeline : Ring → ℕ → ℕ → ℕ → List Stamped
timeline r k since until =
    timeline_of k (window_of r since until 0 r.timestamps)
      (window_of r since until (whole 0) (get_or r.values k []))
      (window_of r since until 0 r.valid_masks)

-- The values that `metric_series_many` sums up: those whose bit is set.
unfoldable pub given_values : List Stamped → List Number
given_values [] = []
given_values (s ∷ ss) =
    let rest = given_values ss in elim s.value [ none ↦ rest | some v ↦ v ∷ rest ]
