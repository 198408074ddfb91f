-- ===== src/Gpm/Cells.antt =====
-- What a sample writes, and where (performance_highres.py, `append`).
use constella.Prelude.{
  ℕ, zero, suc, ◌≤◌, ◌<◌, ◌≡◌, ◌≢◌, refl, Option, none, some, List, [], ◌∷◌, arith, get_or,
  get_or-set_self, get_or-set_ne, length-set, length, All, if◌then◌else◌, ap, ◌∙◌,
}
use constella.Telemetry.Rules.{Number, whole}
use constella.Gpm.Ring.{
  Ring, metric_count, set_given, write_values, is_given, mask_from, has_bit, written,
}
use constella.Gpm.Bits.{has_bit-mask_from}

-- The arrays have the ring's capacity, and until they are full they are filled from the start.
pub record IsRing (r : Ring) : Type 0 where
  pub some_room : 0 < r.capacity
  pub count_fits : r.count ≤ r.capacity
  pub write_fits : r.write_index < r.capacity
  pub partial : r.count < r.capacity → r.write_index ≡ r.count
  pub times_length : length r.timestamps ≡ r.capacity
  pub masks_length : length r.valid_masks ≡ r.capacity
  pub arrays : length r.values ≡ metric_count
  pub values_length : All (λ (xs : List Number). length xs ≡ r.capacity) r.values

-- A metric's sample: its time, and its reading where it has one.
pub record Stamped : Type 0 where
  pub at_time : ℕ
  pub value : Option Number

abbrev pub reading_under : ℕ → ℕ → Number → Option Number
reading_under mask bit v = if has_bit mask bit then some v else none

-- The sample of the metric k at an index.
abbrev pub cell : Ring → ℕ → ℕ → Stamped
cell r k index = record {
  at_time = get_or r.timestamps index 0;
  value =
      reading_under (get_or r.valid_masks index 0) k
        (get_or (get_or r.values k []) index (whole 0));
}

abbrev pub stamped : ℕ → ℕ → List (Option Number) → Stamped
stamped k at readings = record { at_time = at; value = get_or readings k none }

get_or-write_values :
    (k index : ℕ) (readings : List (Option Number)) (arrays : List (List Number))
    → k < length arrays
    → get_or (write_values index readings arrays) k []
      ≡ set_given (get_or arrays k []) index (get_or readings k none)
unfolding write_values
get_or-write_values k index [] [] inside = absurd (omega arith)
get_or-write_values k index [] (xs ∷ arrays) inside = refl
get_or-write_values k index (g ∷ readings) [] inside = absurd (omega arith)
get_or-write_values zero index (g ∷ readings) (xs ∷ arrays) inside = refl
get_or-write_values (suc k) index (g ∷ readings) (xs ∷ arrays) inside =
    get_or-write_values k index readings arrays (omega arith)

length-set_given :
    (xs : List Number) (index : ℕ) (g : Option Number) → length (set_given xs index g) ≡ length xs
length-set_given xs index none = refl
length-set_given xs index (some v) = length-set xs index v

pub length-write_values :
    (index : ℕ) (readings : List (Option Number)) (arrays : List (List Number))
    → length (write_values index readings arrays) ≡ length arrays
unfolding write_values
length-write_values index [] arrays = refl
length-write_values index (g ∷ readings) [] = refl
length-write_values index (g ∷ readings) (xs ∷ arrays) =
    ap suc (length-write_values index readings arrays)

pub All-write_values :
    (n index : ℕ) (readings : List (Option Number)) (arrays : List (List Number))
    → All (λ (xs : List Number). length xs ≡ n) arrays
    → All (λ (xs : List Number). length xs ≡ n) (write_values index readings arrays)
unfolding write_values
All-write_values n index [] arrays ok = ok
All-write_values n index (g ∷ readings) [] ok = ok
All-write_values n index (g ∷ readings) (xs ∷ arrays) ok =
    (length-set_given xs index g ∙ ok.0, All-write_values n index readings arrays ok.1)

pub length-nth :
    (n k : ℕ) (arrays : List (List Number))
    → All (λ (xs : List Number). length xs ≡ n) arrays
    → k < length arrays
    → length (get_or arrays k []) ≡ n
length-nth n k [] ok inside = absurd (omega arith)
length-nth n zero (xs ∷ arrays) ok inside = ok.0
length-nth n (suc k) (xs ∷ arrays) ok inside = length-nth n k arrays ok.1 (omega arith)

reading_self :
    (xs : List Number) (index mask k : ℕ) (g : Option Number)
    → index < length xs
    → has_bit mask k ≡ is_given g
    → reading_under mask k (get_or (set_given xs index g) index (whole 0)) ≡ g
reading_self xs index mask k none inside bit = rw bit refl
reading_self xs index mask k (some v) inside bit =
    rw (bit, get_or-set_self xs index v (whole 0) inside) refl

get_or-set_given :
    (xs : List Number) (w i : ℕ) (g : Option Number)
    → w ≢ i
    → get_or (set_given xs w g) i (whole 0) ≡ get_or xs i (whole 0)
get_or-set_given xs w i none ne = refl
get_or-set_given xs w i (some v) ne = get_or-set_ne xs w i v (whole 0) ne

-- The slot that is written has the new sample; the others have theirs.
pub cell-written_self :
    (r : Ring) (at k : ℕ) (readings : List (Option Number))
    → IsRing r
    → k < metric_count
    → cell (written at readings r) k r.write_index ≡ stamped k at readings
unfolding written
cell-written_self r at k readings ok inside =
    let w = r.write_index in
    rw
      (
        get_or-set_self r.timestamps w at 0 (omega (arith, ok.write_fits, ok.times_length)),
        get_or-set_self r.valid_masks w (mask_from 0 0 readings) 0
            (omega (arith, ok.write_fits, ok.masks_length)),
        get_or-write_values k w readings r.values (omega (arith, ok.arrays)),
        reading_self (get_or r.values k []) w (mask_from 0 0 readings) k (get_or readings k none)
            (omega (
              arith,
              ok.write_fits,
              length-nth r.capacity k r.values ok.values_length (omega (arith, ok.arrays)),
            ))
            (has_bit-mask_from readings k),
      )
      refl

pub cell-written_other :
    (r : Ring) (at k : ℕ) (readings : List (Option Number)) (i : ℕ)
    → IsRing r
    → k < metric_count
    → r.write_index ≢ i
    → cell (written at readings r) k i ≡ cell r k i
unfolding written
cell-written_other r at k readings i ok inside ne =
    let w = r.write_index in
    rw
      (
        get_or-set_ne r.timestamps w i at 0 ne,
        get_or-set_ne r.valid_masks w i (mask_from 0 0 readings) 0 ne,
        get_or-write_values k w readings r.values (omega (arith, ok.arrays)),
        get_or-set_given (get_or r.values k []) w i (get_or readings k none) ne,
      )
      refl
