-- ===== src/Highres/Ring.antt =====
-- `GpuSampleRing` (highres.py): seven arrays of one capacity, a write index and a count. Times are
-- whole microseconds and readings whole numbers that single precision holds, so that the arrays and
-- `round(…, 1)` keep them. The capacity is not zero: the code's `%` fails there.
use constella.Prelude.{
  ℕ, zero, suc, ◌+◌, ◌-◌, ◌/◌, ◌%◌, min, Bool, Option, none, some, List, [], ◌∷◌, ltb, leb, ◌==◌,
  get_or, set, replicate, if◌then◌else◌,
}

pub record Reading : Type 0 where
  pub valid : Bool
  pub utilization_gpu : ℕ
  pub utilization_mem : ℕ
  pub memory_used_mb : ℕ
  pub memory_total_mb : ℕ
  pub power_watts : ℕ
  pub temperature_c : ℕ

pub record Ring : Type 0 where
  pub capacity : ℕ
  pub timestamps : List ℕ
  pub gpu_utilization : List ℕ
  pub mem_utilization : List ℕ
  pub memory_used_mb : List ℕ
  pub memory_total_mb : List ℕ
  pub power_watts : List ℕ
  pub temperature_c : List ℕ
  pub write_index : ℕ
  pub count : ℕ

-- `__post_init__`
abbrev pub new : ℕ → Ring
new capacity = record {
  capacity = capacity;
  timestamps = replicate capacity 0;
  gpu_utilization = replicate capacity 0;
  mem_utilization = replicate capacity 0;
  memory_used_mb = replicate capacity 0;
  memory_total_mb = replicate capacity 0;
  power_watts = replicate capacity 0;
  temperature_c = replicate capacity 0;
  write_index = 0;
  count = 0;
}

-- The writes of `append`.
abbrev pub written : ℕ → Reading → Ring → Ring
written at gpu r = record r {
  timestamps = set r.timestamps r.write_index at;
  gpu_utilization = set r.gpu_utilization r.write_index gpu.utilization_gpu;
  mem_utilization = set r.mem_utilization r.write_index gpu.utilization_mem;
  memory_used_mb = set r.memory_used_mb r.write_index gpu.memory_used_mb;
  memory_total_mb = set r.memory_total_mb r.write_index gpu.memory_total_mb;
  power_watts = set r.power_watts r.write_index gpu.power_watts;
  temperature_c = set r.temperature_c r.write_index gpu.temperature_c;
  write_index = suc (r.write_index) % r.capacity;
  count = min r.capacity (suc (r.count));
}

unfoldable pub append : ℕ → Reading → Ring → Ring
append at gpu r = if gpu.valid then written at gpu r else r

-- `_chronological_index`
unfoldable pub chronological_index : Ring → ℕ → ℕ
chronological_index r offset =
    if ltb r.count r.capacity then offset else (r.write_index + offset) % r.capacity

abbrev pub time_at : Ring → ℕ → ℕ
time_at r offset = get_or r.timestamps (chronological_index r offset) 0

unfoldable pub oldest_at : Ring → Option ℕ
oldest_at r = if r.count == 0 then none else some (time_at r 0)

unfoldable pub newest_at : Ring → Option ℕ
newest_at r = if r.count == 0 then none else some (time_at r (r.count - 1))

-- The dict that `points` makes of a sample.
pub record Point : Type 0 where
  pub sampled_at : ℕ
  pub bucket_start : ℕ
  pub utilization_gpu : ℕ
  pub utilization_mem : ℕ
  pub memory_used_mb : ℕ
  pub memory_total_mb : ℕ
  pub power_watts : ℕ
  pub temperature_c : ℕ
  pub avg_gpu_utilization : ℕ
  pub avg_memory_used_mb : ℕ
  pub avg_power_watts : ℕ
  pub avg_temperature_c : ℕ

abbrev pub point_at : Ring → ℕ → Point
point_at r index = record {
  sampled_at = get_or r.timestamps index 0;
  bucket_start = get_or r.timestamps index 0;
  utilization_gpu = get_or r.gpu_utilization index 0;
  utilization_mem = get_or r.mem_utilization index 0;
  memory_used_mb = get_or r.memory_used_mb index 0;
  memory_total_mb = get_or r.memory_total_mb index 0;
  power_watts = get_or r.power_watts index 0;
  temperature_c = get_or r.temperature_c index 0;
  avg_gpu_utilization = get_or r.gpu_utilization index 0;
  avg_memory_used_mb = get_or r.memory_used_mb index 0;
  avg_power_watts = get_or r.power_watts index 0;
  avg_temperature_c = get_or r.temperature_c index 0;
}

-- The loop of `points`, of the `left` offsets from `offset` on.
unfoldable pub points_from : Ring → ℕ → ℕ → ℕ → ℕ → List Point
points_from r since until zero offset = []
points_from r since until (suc left) offset =
    let index = chronological_index r offset in
    let at = get_or r.timestamps index 0 in
    let rest = points_from r since until left (suc offset) in
    if ltb at since then rest else if ltb until at then [] else point_at r index ∷ rest

abbrev pub points : Ring → ℕ → ℕ → List Point
points r since until = points_from r since until r.count 0

-- `observed_interval_seconds`, in whole microseconds.
unfoldable pub observed_interval : Ring → Option ℕ
unfolding oldest_at newest_at
observed_interval r =
    if ltb r.count 2
    then none
    else if leb (time_at r (r.count - 1)) (time_at r 0)
    then none
    else some ((time_at r (r.count - 1) - time_at r 0) / (r.count - 1))
