-- ===== src/Gpm/Series.antt =====
-- The window that bisection finds is what the scan finds (performance_highres.py, `_window`,
-- `metric_series_many`).
use constella.Prelude.{
  ℕ, zero, suc, ◌+◌, ◌-◌, ◌≤◌, ◌<◌, ◌≡◌, refl, true, not, List, [], ◌∷◌, ltb, leb, arith, inl, inr,
  Bool-cases, get_or, length, map, if◌then◌else◌, ap, sym, ◌∙◌, recent,
}
use constella.Prelude.Tables.{tabulate, map-tabulate}
use constella.Telemetry.Rules.{whole}
use constella.Gpm.Ring.{Ring, Performance, new, metric_count, index_of, time_at}
use constella.Gpm.Cells.{Stamped, cell, length-nth}
use constella.Gpm.Contents.{nth}
use constella.Gpm.Runs.{
  IsOrdered, IsLive, IsLive-new, append_all, append_all-IsLive, stamps, contents-samples,
}
use constella.Gpm.Window.{bisect_left, bisect_right, scanned, window_of, timeline_of, timeline}
use constella.Gpm.Bisect.{IsFalling, bisect-Splits}
use constella.Gpm.Slices.{slices-tabulate}
use constella.Gpm.Scan.{IsWindow, scanned-before}

time_at-le_suc :
    (r : Ring)
    → ((o : ℕ) → suc o < r.count → time_at r o ≤ time_at r (suc o))
    → (i j : ℕ) → i ≤ j
    → j < r.count
    → time_at r i ≤ time_at r j
time_at-le_suc r step i zero before inside = let same : i ≡ 0 = omega arith in rw same (omega arith)
time_at-le_suc r step i (suc j) before inside = elim (Bool-cases (ltb i (suc j))) [
  | inl less ↦ omega (arith, step j inside, time_at-le_suc r step i j (ground arith) (omega arith))
  | inr same ↦ let same' : i ≡ suc j = ground arith in rw same' (omega arith)
]

left-IsFalling :
    (r : Ring) (since : ℕ)
    → ((i j : ℕ) → i ≤ j → j < r.count → time_at r i ≤ time_at r j)
    → IsFalling (λ o. ltb (time_at r o) since) r.count
left-IsFalling r since mono i j before inside h = ground (arith, mono i j before inside)

right-IsFalling :
    (r : Ring) (until : ℕ)
    → ((i j : ℕ) → i ≤ j → j < r.count → time_at r i ≤ time_at r j)
    → IsFalling (λ o. not (ltb until (time_at r o))) r.count
right-IsFalling r until mono i j before inside h = ground (arith, mono i j before inside)

IsWindow-bisect :
    (r : Ring) (since until : ℕ)
    → IsOrdered r
    → r.time_ordered ≡ true
    → IsWindow r since until (bisect_left r since) (bisect_right r until (bisect_left r since))
unfolding bisect_left bisect_right IsOrdered
IsWindow-bisect r since until ordered set =
    let mono = time_at-le_suc r (ordered set) in
    let left =
      bisect-Splits _ r.count 0 r.count (left-IsFalling r since mono) (omega arith) (omega arith) in
    let right =
      bisect-Splits _ r.count _ r.count (right-IsFalling r until mono) left.to (omega arith) in
    record {
      order = right.from;
      fits = right.to;
      early = (λ o less. ground (arith, left.below o (omega arith) less));
      begun = (λ o above less. ground (arith, left.above o above less));
      inside = (λ o above less. ground (arith, right.below o above less));
      late = (λ o above less. ground (arith, right.above o above less));
    }

window_of-scanned {ℓ} :
    {A : Type ℓ} (n : ℕ) (r : Ring) (since until : ℕ) (d : A) (xs : List A)
    → IsLive n r
    → length xs ≡ r.capacity
    → window_of r since until d xs ≡ map (λ i. get_or xs i d) (scanned r since until r.count 0)
unfolding window_of
window_of-scanned n r since until d xs live full = elim (Bool-cases r.time_ordered) [
  | inr unset ↦ simp unset refl
  | inl set ↦
      let start = bisect_left r since in
      let end = bisect_right r until start in
      let w : IsWindow r since until start end = IsWindow-bisect r since until live.ordered set in
      let found : scanned r since until r.count 0
          ≡ tabulate (end - start) (λ i. index_of r (start + i)) =
        scanned-before r since until start end w r.count 0 (omega arith) (omega arith) in
      simp set (
        slices-tabulate r start end xs d live.is_ring full w.order w.fits
        ∙ sym (map-tabulate (λ i. get_or xs i d) (end - start) (λ i. index_of r (start + i)))
        ∙ ap (map (λ i. get_or xs i d)) (sym found))
]

timeline_of-map :
    (r : Ring) (k : ℕ) (indices : List ℕ)
    → timeline_of k
        (map (λ i. get_or r.timestamps i 0) indices)
        (map (λ i. get_or (get_or r.values k []) i (whole 0)) indices)
        (map (λ i. get_or r.valid_masks i 0) indices)
      ≡ map (cell r k) indices
unfolding timeline_of
timeline_of-map r k [] = refl
timeline_of-map r k (i ∷ indices) = ap (λ ss. cell r k i ∷ ss) (timeline_of-map r k indices)

timeline-cells :
    (n : ℕ) (r : Ring) (k since until : ℕ)
    → IsLive n r
    → k < metric_count
    → timeline r k since until ≡ map (cell r k) (scanned r since until r.count 0)
unfolding timeline
timeline-cells n r k since until live inside =
    let ok = live.is_ring in
    rw
      (
        window_of-scanned n r since until 0 r.timestamps live ok.times_length,
        window_of-scanned n r since until (whole 0) (get_or r.values k []) live
            (length-nth r.capacity k r.values ok.values_length (omega (arith, ok.arrays))),
        window_of-scanned n r since until 0 r.valid_masks live ok.masks_length,
      )
      (timeline_of-map r k (scanned r since until r.count 0))

-- The samples of a time range: from the first that is not too early, up to the first that is too late.
unfoldable pub range_of : ℕ → ℕ → List Stamped → List Stamped
range_of since until [] = []
range_of since until (s ∷ ss) =
    let rest = range_of since until ss in
    if ltb until s.at_time then [] else if leb since s.at_time then s ∷ rest else rest

scanned-range_of :
    (r : Ring) (k since until left offset : ℕ) (f : ℕ → ℕ)
    → ((i : ℕ) → f i ≡ offset + i)
    → map (cell r k) (scanned r since until left offset)
      ≡ range_of since until (tabulate left (λ i. nth r k (f i)))
unfolding scanned range_of
scanned-range_of r k since until zero offset f h = refl
scanned-range_of r k since until (suc left) offset f h =
    let here : f 0 ≡ offset = omega (arith, h 0) in
    let rest =
      scanned-range_of r k since until left (suc offset) (λ i. f (suc i))
        (λ i. omega (arith, h (suc i))) in
    elim (Bool-cases (ltb until (time_at r offset))) [
      | inl over ↦ rw (here, over) refl
      | inr in_time ↦ elim (Bool-cases (leb since (time_at r offset))) [
        | inl inside ↦ rw (here, in_time, inside) (ap (λ ss. nth r k offset ∷ ss) rest)
        | inr early ↦ rw (here, in_time, early) rest
      ]
    ]

-- Whatever samples came in, the timeline of a metric over a time range, cut out of the arrays by
-- bisection while the clock has not gone back and by a scan after it has, is the list of those of the
-- last n samples that the range takes: from the oldest one on, those not before `since`, up to the
-- first that is after `until`.
pub timeline-range_of :
    (n k since until : ℕ) (samples : List (ℕ × Performance))
    → 0 < n
    → k < metric_count
    → timeline (append_all samples (new n)) k since until
      ≡ range_of since until (recent n (stamps k samples))
timeline-range_of n k since until samples room inside =
    let r = append_all samples (new n) in
    let live = append_all-IsLive n samples (new n) (IsLive-new n room) in
    timeline-cells n r k since until live inside
    ∙ scanned-range_of r k since until r.count 0 (λ i. i) (λ i. omega arith)
    ∙ ap (range_of since until) (contents-samples n k samples room inside)
