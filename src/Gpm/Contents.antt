-- ===== src/Gpm/Contents.antt =====
-- The ring against the list of the samples that came in (performance_highres.py, `append`).
use constella.Prelude.{
  ℕ, zero, suc, ◌-◌, ◌<◌, min, ◌≡◌, refl, Option, List, [], ◌∷◌, ◌++◌, ltb, arith, inl, inr,
  Bool-cases, length-set, length-replicate, length, replicate, All, recent, ◌∙◌,
}
use native.Mathlib.Nat.{mod-lt, mod-eq_of_lt}
use constella.Prelude.Tables.{tabulate, tabulate-grow, tabulate-shift}
use constella.Telemetry.Rules.{Number, whole}
use constella.Gpm.Ring.{Ring, new, metric_count, index_of, written}
use constella.Gpm.Slots.{slot-before, slot-partial, slot-full_old, slot-full_new}
use constella.Gpm.Cells.{
  IsRing, Stamped, cell, stamped, length-write_values, All-write_values, cell-written_self,
  cell-written_other,
}

pub IsRing-written :
    (r : Ring) (at : ℕ) (readings : List (Option Number))
    → IsRing r
    → IsRing (written at readings r)
unfolding written
IsRing-written r at readings ok = record {
  some_room = ok.some_room;
  count_fits = omega arith;
  write_fits = mod-lt _ ok.some_room;
  partial = (λ less.
      mod-eq_of_lt (omega (arith, ok.partial (omega arith)))
      ∙ omega (arith, ok.partial (omega arith)));
  times_length = length-set _ _ _ ∙ ok.times_length;
  masks_length = length-set _ _ _ ∙ ok.masks_length;
  arrays = length-write_values _ _ _ ∙ ok.arrays;
  values_length = All-write_values _ _ _ _ ok.values_length;
}

All-replicate :
    (n m : ℕ) (xs : List Number)
    → length xs ≡ n
    → All (λ (ys : List Number). length ys ≡ n) (replicate m xs)
All-replicate n zero xs e = tt
All-replicate n (suc m) xs e = (e, All-replicate n m xs e)

pub IsRing-new : (n : ℕ) → 0 < n → IsRing (new n)
IsRing-new n room = record {
  some_room = room;
  count_fits = omega arith;
  write_fits = room;
  partial = (λ less. refl);
  times_length = length-replicate n 0;
  masks_length = length-replicate n 0;
  arrays = refl;
  values_length =
      All-replicate n metric_count (replicate n (whole 0)) (length-replicate n (whole 0));
}

-- The sample of the metric k at an offset from the oldest.
abbrev pub nth : Ring → ℕ → ℕ → Stamped
nth r k offset = cell r k (index_of r offset)

-- What the ring holds of a metric, oldest first.
abbrev pub contents : Ring → ℕ → List Stamped
contents r k = tabulate r.count (nth r k)

module _ (r : Ring) (at k : ℕ) (readings : List (Option Number)) (ok : IsRing r)
    (inside : k < metric_count) where
  pub nth-partial_old :
      (o : ℕ) → r.count < r.capacity → o < r.count → nth (written at readings r) k o ≡ nth r k o
  unfolding written
  nth-partial_old o less before =
      let filled : r.write_index ≡ r.count = ok.partial less in
      rw
        (
          slot-partial r.capacity r.write_index r.count o filled less (omega arith),
          slot-before r.capacity r.write_index r.count o less,
        )
        (unfold written in cell-written_other r at k readings o ok inside (λ e. omega arith))

  pub nth-partial_new :
      r.count < r.capacity → nth (written at readings r) k r.count ≡ stamped k at readings
  unfolding written
  nth-partial_new less =
      let filled : r.write_index ≡ r.count = ok.partial less in
      rw (slot-partial r.capacity r.write_index r.count r.count filled less (omega arith), ← filled)
        (cell-written_self r at k readings ok inside)

  pub nth-full_old :
      (o : ℕ)
      → r.count ≡ r.capacity
      → suc o < r.capacity
      → nth (written at readings r) k o ≡ nth r k (suc o)
  unfolding written
  nth-full_old o full less =
      let (same, other) =
        slot-full_old r.capacity r.write_index r.count o ok.write_fits full less in
      rw same (cell-written_other r at k readings _ ok inside other)

  pub nth-full_new :
      (o : ℕ)
      → r.count ≡ r.capacity
      → suc o ≡ r.capacity
      → nth (written at readings r) k o ≡ stamped k at readings
  unfolding written
  nth-full_new o full last =
      rw (slot-full_new r.capacity r.write_index r.count o ok.write_fits full last)
        (cell-written_self r at k readings ok inside)

  -- A step of the ring is a step of a list that keeps its last elements.
  pub contents-written :
      contents (written at readings r) k
      ≡ recent r.capacity (contents r k ++ stamped k at readings ∷ [])
  unfolding written
  contents-written = elim (Bool-cases (ltb r.count r.capacity)) [
    | inl less ↦
        tabulate-grow r.count (min r.capacity (suc r.count)) r.capacity (nth r k)
          (nth (written at readings r) k) (stamped k at readings) (ground arith) (ground arith)
          (λ o before. nth-partial_old o (ground arith) before) (nth-partial_new (ground arith))
    | inr more ↦
        let room = ok.some_room in
        let fits = ok.count_fits in
        let full : r.count ≡ r.capacity = ground arith in
        tabulate-shift (r.capacity - 1) r.count (min r.capacity (suc r.count)) r.capacity (nth r k)
          (nth (written at readings r) k) (stamped k at readings) (omega arith) (omega arith)
          (omega arith) (λ o before. nth-full_old o full (omega arith))
          (nth-full_new (r.capacity - 1) full (omega arith))
  ]
