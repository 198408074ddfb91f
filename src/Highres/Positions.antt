-- ===== src/Highres/Positions.antt =====
-- Where the ring's samples stand (highres.py, `append`, `_chronological_index`).
use constella.Prelude.{
  ℕ, suc, ◌≤◌, ◌<◌, min, ◌≡◌, ◌≢◌, refl, false, List, length, get_or, set, ltb, arith, inl, inr,
  Bool-cases, get_or-set_self, get_or-set_ne, length-set, length-replicate, ◌∙◌,
}
use native.Mathlib.Nat.{mod-lt, mod-eq_of_lt}
use constella.Prelude.Modulus.{wrap-last, wrap-shift, wrap-other, wrap-new}
use constella.Highres.Ring.{Reading, Ring, Point, new, written, chronological_index, point_at}

-- The arrays have the ring's capacity, and until they are full they are filled from the start.
pub record IsRing (r : Ring) : Type 0 where
  pub some_room : 0 < r.capacity
  pub count_fits : r.count ≤ r.capacity
  pub write_fits : r.write_index < r.capacity
  pub partial : r.count < r.capacity → r.write_index ≡ r.count
  pub timestamps_length : length r.timestamps ≡ r.capacity
  pub gpu_length : length r.gpu_utilization ≡ r.capacity
  pub mem_length : length r.mem_utilization ≡ r.capacity
  pub used_length : length r.memory_used_mb ≡ r.capacity
  pub total_length : length r.memory_total_mb ≡ r.capacity
  pub power_length : length r.power_watts ≡ r.capacity
  pub temperature_length : length r.temperature_c ≡ r.capacity

abbrev pub point_of : ℕ → Reading → Point
point_of at g = record {
  sampled_at = at;
  bucket_start = at;
  utilization_gpu = g.utilization_gpu;
  utilization_mem = g.utilization_mem;
  memory_used_mb = g.memory_used_mb;
  memory_total_mb = g.memory_total_mb;
  power_watts = g.power_watts;
  temperature_c = g.temperature_c;
  avg_gpu_utilization = g.utilization_gpu;
  avg_memory_used_mb = g.memory_used_mb;
  avg_power_watts = g.power_watts;
  avg_temperature_c = g.temperature_c;
}

get_or-written : (xs : List ℕ) (n i v : ℕ) → length xs ≡ n → i < n → get_or (set xs i v) i 0 ≡ v
get_or-written xs n i v full inside = get_or-set_self xs i v 0 (rw full inside)

-- The slot that is written has the new sample; the others have theirs.
pub point_at-written_self :
    (r : Ring) (at : ℕ) (g : Reading)
    → IsRing r
    → point_at (written at g r) r.write_index ≡ point_of at g
point_at-written_self r at g ok =
    let i = r.write_index in
    let n = r.capacity in
    let inside = ok.write_fits in
    rw
      (
        get_or-written r.timestamps n i at ok.timestamps_length inside,
        get_or-written r.gpu_utilization n i g.utilization_gpu ok.gpu_length inside,
        get_or-written r.mem_utilization n i g.utilization_mem ok.mem_length inside,
        get_or-written r.memory_used_mb n i g.memory_used_mb ok.used_length inside,
        get_or-written r.memory_total_mb n i g.memory_total_mb ok.total_length inside,
        get_or-written r.power_watts n i g.power_watts ok.power_length inside,
        get_or-written r.temperature_c n i g.temperature_c ok.temperature_length inside,
      )
      refl

pub point_at-written_other :
    (r : Ring) (at : ℕ) (g : Reading) (i : ℕ)
    → r.write_index ≢ i
    → point_at (written at g r) i ≡ point_at r i
point_at-written_other r at g i ne =
    let w = r.write_index in
    rw
      (
        get_or-set_ne r.timestamps w i at 0 ne,
        get_or-set_ne r.gpu_utilization w i g.utilization_gpu 0 ne,
        get_or-set_ne r.mem_utilization w i g.utilization_mem 0 ne,
        get_or-set_ne r.memory_used_mb w i g.memory_used_mb 0 ne,
        get_or-set_ne r.memory_total_mb w i g.memory_total_mb 0 ne,
        get_or-set_ne r.power_watts w i g.power_watts 0 ne,
        get_or-set_ne r.temperature_c w i g.temperature_c 0 ne,
      )
      refl

pub IsRing-written : (r : Ring) (at : ℕ) (g : Reading) → IsRing r → IsRing (written at g r)
IsRing-written r at g ok = record {
  some_room = ok.some_room;
  count_fits = omega arith;
  write_fits = mod-lt _ ok.some_room;
  partial = (λ less.
      mod-eq_of_lt (omega (arith, ok.partial (omega arith)))
      ∙ omega (arith, ok.partial (omega arith)));
  timestamps_length = length-set _ _ _ ∙ ok.timestamps_length;
  gpu_length = length-set _ _ _ ∙ ok.gpu_length;
  mem_length = length-set _ _ _ ∙ ok.mem_length;
  used_length = length-set _ _ _ ∙ ok.used_length;
  total_length = length-set _ _ _ ∙ ok.total_length;
  power_length = length-set _ _ _ ∙ ok.power_length;
  temperature_length = length-set _ _ _ ∙ ok.temperature_length;
}

pub IsRing-new : (n : ℕ) → 0 < n → IsRing (new n)
IsRing-new n room = record {
  some_room = room;
  count_fits = omega arith;
  write_fits = room;
  partial = (λ less. refl);
  timestamps_length = length-replicate n 0;
  gpu_length = length-replicate n 0;
  mem_length = length-replicate n 0;
  used_length = length-replicate n 0;
  total_length = length-replicate n 0;
  power_length = length-replicate n 0;
  temperature_length = length-replicate n 0;
}

-- While the arrays fill up, the offset is the index.
pub index-partial :
    (r : Ring) (at : ℕ) (g : Reading) (o : ℕ)
    → IsRing r
    → r.count < r.capacity
    → o ≤ r.count
    → chronological_index (written at g r) o ≡ o
unfolding chronological_index
index-partial r at g o ok less before =
    let filled : r.write_index ≡ r.count = ok.partial less in
    elim (Bool-cases (ltb (min r.capacity (suc r.count)) r.capacity)) [
      | inl still ↦ rw still refl
      | inr full ↦ rw full (wrap-last r.write_index o r.capacity (ground arith) (omega arith))
    ]

-- Once they are full, every sample moves up by one offset, and the new one is at the last.
pub index-full_old :
    (r : Ring) (at : ℕ) (g : Reading) (o : ℕ)
    → IsRing r
    → r.count ≡ r.capacity
    → suc o < r.capacity
    → (chronological_index (written at g r) o ≡ chronological_index r (suc o))
      × (r.write_index ≢ chronological_index r (suc o))
unfolding chronological_index
index-full_old r at g o ok full inside =
    let no_room : ltb (min r.capacity (suc r.count)) r.capacity ≡ false = ground arith in
    let no_room' : ltb r.count r.capacity ≡ false = ground arith in
    rw (no_room, no_room')
      (
        wrap-shift r.write_index o r.capacity ok.write_fits inside,
        wrap-other r.write_index o r.capacity ok.write_fits inside,
      )

pub index-full_new :
    (r : Ring) (at : ℕ) (g : Reading) (o : ℕ)
    → IsRing r
    → r.count ≡ r.capacity
    → suc o ≡ r.capacity
    → chronological_index (written at g r) o ≡ r.write_index
unfolding chronological_index
index-full_new r at g o ok full last =
    let no_room : ltb (min r.capacity (suc r.count)) r.capacity ≡ false = ground arith in
    rw no_room (wrap-new r.write_index o r.capacity ok.write_fits last)
