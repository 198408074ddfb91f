-- ===== src/Gpm/Scan.antt =====
-- A window by bisection against the scan of all offsets (performance_highres.py, `_window`).
use constella.Prelude.{
  ℕ, zero, suc, ◌+◌, ◌-◌, ◌≤◌, ◌<◌, ◌≡◌, refl, true, false, ◌∷◌, ltb, leb, arith, inl, inr,
  Bool-cases, ap, ◌∙◌,
}
use constella.Prelude.Tables.{tabulate}
use constella.Gpm.Ring.{Ring, index_of, time_at}
use constella.Gpm.Window.{scanned}

-- The times from `start` on lie at or after `since`, and those before `end` at or before `until`.
pub record IsWindow (r : Ring) (since until start end : ℕ) : Type 0 where
  pub order : start ≤ end
  pub fits : end ≤ r.count
  pub early : (o : ℕ) → o < start → time_at r o < since
  pub begun : (o : ℕ) → start ≤ o → o < r.count → since ≤ time_at r o
  pub inside : (o : ℕ) → start ≤ o → o < end → time_at r o ≤ until
  pub late : (o : ℕ) → end ≤ o → o < r.count → until < time_at r o

module _ (r : Ring) (since until start end : ℕ) (w : IsWindow r since until start end) where
  scanned-from_start :
      (left offset : ℕ) (g : ℕ → ℕ)
      → offset + left ≡ r.count
      → start ≤ offset
      → ((i : ℕ) → index_of r (offset + i) ≡ g i)
      → scanned r since until left offset ≡ tabulate (end - offset) g
  unfolding scanned
  scanned-from_start zero offset g sum from h =
      let none_left : end - offset ≡ 0 = omega (arith, w.fits) in rw none_left refl
  scanned-from_start (suc left) offset g sum from h = elim (Bool-cases (ltb offset end)) [
    | inl held ↦
        let held' : offset < end = ground arith in
        let in_time : ltb until (time_at r offset) ≡ false =
          ground (arith, w.inside offset from held') in
        let on_time : leb since (time_at r offset) ≡ true =
          ground (arith, w.begun offset from (omega arith)) in
        let here : index_of r offset ≡ g 0 = ap (index_of r) (omega arith) ∙ h 0 in
        let one_more : end - offset ≡ suc (end - suc offset) = omega arith in
        rw (in_time, on_time, one_more, here)
          (ap (λ is. g 0 ∷ is)
            (scanned-from_start left (suc offset) (λ i. g (suc i)) (omega arith) (omega arith)
              (λ i. ap (index_of r) (omega arith) ∙ h (suc i))))
    | inr behind ↦
        let behind' : end ≤ offset = ground arith in
        let over : ltb until (time_at r offset) ≡ true =
          ground (arith, w.late offset behind' (omega arith)) in
        let none_left : end - offset ≡ 0 = omega arith in rw (over, none_left) refl
  ]

  pub scanned-before :
      (left offset : ℕ)
      → offset + left ≡ r.count
      → offset ≤ start
      → scanned r since until left offset ≡ tabulate (end - start) (λ i. index_of r (start + i))
  unfolding scanned
  scanned-before zero offset sum before =
      let none_left : end - start ≡ 0 = omega (arith, w.fits) in rw none_left refl
  scanned-before (suc left) offset sum before = elim (Bool-cases (ltb offset start)) [
    | inl earlier ↦
        let earlier' : offset < start = ground arith in
        let too_early : time_at r offset < since = w.early offset earlier' in
        let skipped : leb since (time_at r offset) ≡ false = ground arith in
        elim (Bool-cases (ltb until (time_at r offset))) [
          | inl over ↦
              let none_left : end - start ≡ 0 = ground (arith, none_inside (ground arith)) in
              rw (over, none_left) refl
          | inr in_time ↦
              rw (in_time, skipped) (scanned-before left (suc offset) (omega arith) earlier')
        ]
    | inr at_start ↦
        let same : offset ≡ start = ground arith in
        rw (← same) (
          scanned-from_start (suc left) offset (λ i. index_of r (offset + i)) sum (omega arith)
            (λ i. refl))
  ]
    where
      none_inside : until < since → end - start ≡ 0
      none_inside late = elim (Bool-cases (ltb start end)) [
        | inl held ↦
            let held' : start < end = ground arith in
            omega (
              arith,
              w.begun start (omega arith) (omega (arith, w.fits)),
              w.inside start (omega arith) held',
            )
        | inr empty ↦ ground arith
      ]
