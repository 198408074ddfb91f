-- ===== src/Gpm/Ring.antt =====
-- `NvidiaGpmSampleRing` (performance_highres.py): an array of times, one of readings for each metric,
-- in the order of NVIDIA_GPM_METRICS, and one of masks whose bits say which readings were given. Times
-- are whole microseconds and readings numbers that single precision holds. The capacity is not zero:
-- the code's `%` fails there.
use constella.Prelude.{
  ℕ, zero, suc, ◌+◌, ◌-◌, ◌/◌, ◌%◌, ◌^◌, min, Bool, true, false, Option, none, some, List, [], ◌∷◌,
  map, Text, text, text_eq, ltb, ◌==◌, get_or, set, replicate, if◌then◌else◌, length,
}
use constella.Prelude.Dicts.{Dict, lookup}
use constella.Telemetry.Rules.{
  Number, Value, missing, number, infinite, not_a_number, other, NumericRule, accepts, percent,
  default_rule, whole, float32_max,
}

-- NVIDIA_GPM_METRICS with NVIDIA_GPM_RULES.
abbrev pub per_second : NumericRule
per_second = record default_rule { maximum = whole float32_max }

abbrev pub gpm_metrics : List (Text × NumericRule)
gpm_metrics =
    (text "nvidia.gpm.sm_active", percent)
    ∷ (text "nvidia.gpm.sm_occupancy", percent)
    ∷ (text "nvidia.gpm.tensor_active", percent)
    ∷ (text "nvidia.gpm.dram_bw_active", percent)
    ∷ (text "nvidia.gpm.fp16_non_tensor_active", percent)
    ∷ (text "nvidia.gpm.fp32_non_tensor_active", percent)
    ∷ (text "nvidia.gpm.fp64_non_tensor_active", percent)
    ∷ (text "nvidia.gpm.pcie_tx_per_second", per_second)
    ∷ (text "nvidia.gpm.pcie_rx_per_second", per_second)
    ∷ (text "nvidia.gpm.nvlink_tx_per_second", per_second)
    ∷ (text "nvidia.gpm.nvlink_rx_per_second", per_second)
    ∷ []

abbrev pub metric_count : ℕ
metric_count = length gpm_metrics

-- A sample's dict. `metrics` is `none` where its entry is missing or no dict.
pub record Performance : Type 0 where
  pub profile : Text
  pub status : Text
  pub metrics : Option (Dict Value)

pub record Ring : Type 0 where
  pub capacity : ℕ
  pub timestamps : List ℕ
  pub values : List (List Number)
  pub valid_masks : List ℕ
  pub write_index : ℕ
  pub count : ℕ
  pub time_ordered : Bool

-- `__post_init__`
abbrev pub new : ℕ → Ring
new capacity = record {
  capacity = capacity;
  timestamps = replicate capacity 0;
  values = replicate metric_count (replicate capacity (whole 0));
  valid_masks = replicate capacity 0;
  write_index = 0;
  count = 0;
  time_ordered = true;
}

-- `_index`, on the ring's capacity, write index and count.
unfoldable pub slot : ℕ → ℕ → ℕ → ℕ → ℕ
slot capacity write_index count offset =
    if ltb count capacity then offset else (write_index + offset) % capacity

abbrev pub index_of : Ring → ℕ → ℕ
index_of r offset = slot r.capacity r.write_index r.count offset

abbrev pub time_at : Ring → ℕ → ℕ
time_at r offset = get_or r.timestamps (index_of r offset) 0

unfoldable pub oldest_at : Ring → Option ℕ
oldest_at r = if r.count == 0 then none else some (time_at r 0)

unfoldable pub newest_at : Ring → Option ℕ
newest_at r = if r.count == 0 then none else some (time_at r (r.count - 1))

abbrev pub number_of : Value → Option Number
number_of missing = none
number_of (number n) = some n
number_of (infinite negative) = none
number_of not_a_number = none
number_of other = none

abbrev pub or_missing : Option Value → Value
or_missing none = missing
or_missing (some v) = v

abbrev pub or_empty : Option (Dict Value) → Dict Value
or_empty none = []
or_empty (some d) = d

-- The value of `metrics.get(metric)` where the metric's rule accepts it.
unfoldable pub accepted : Dict Value → Text × NumericRule → Option Number
accepted metrics (name, rule) =
    let v = or_missing (lookup name metrics) in if accepts rule v then number_of v else none

-- What the loop over the metrics finds, where it runs.
unfoldable pub readings_of : Performance → List (Option Number)
readings_of p =
    if text_eq p.status (text "available")
    then map (accepted (or_empty p.metrics)) gpm_metrics
    else []

abbrev pub set_given : List Number → ℕ → Option Number → List Number
set_given xs index none = xs
set_given xs index (some v) = set xs index v

-- `self.values[metric][index] = float(value)`, for each metric that has one.
unfoldable pub write_values : ℕ → List (Option Number) → List (List Number) → List (List Number)
write_values index [] arrays = arrays
write_values index (given ∷ readings) [] = []
write_values index (given ∷ readings) (xs ∷ arrays) =
    set_given xs index given ∷ write_values index readings arrays

abbrev pub is_given : Option Number → Bool
is_given none = false
is_given (some v) = true

-- `mask |= 1 << bit`, for each metric that has one. No bit is set twice, so that `|=` adds.
unfoldable pub mask_from : ℕ → ℕ → List (Option Number) → ℕ
mask_from bit mask [] = mask
mask_from bit mask (given ∷ readings) =
    mask_from (suc bit) (if is_given given then mask + 2 ^ bit else mask) readings

-- `append` after the loop: the sample is at the write index, which moves on.
unfoldable pub written : ℕ → List (Option Number) → Ring → Ring
written sampled_at readings r = record r {
  timestamps = set r.timestamps r.write_index sampled_at;
  values = write_values r.write_index readings r.values;
  valid_masks = set r.valid_masks r.write_index (mask_from 0 0 readings);
  write_index = suc (r.write_index) % r.capacity;
  count = min r.capacity (suc (r.count));
}

-- Its first test: the clock went back.
abbrev pub goes_back : ℕ → Ring → Bool
goes_back sampled_at r = if r.count == 0 then false else ltb sampled_at (time_at r (r.count - 1))

abbrev pub marked : ℕ → Ring → Ring
marked sampled_at r = record r {
  time_ordered = (if goes_back sampled_at r then false else r.time_ordered);
}

unfoldable pub append : ℕ → Performance → Ring → Ring
append sampled_at p r = written sampled_at (readings_of p) (marked sampled_at r)

-- `mask & (1 << bit)` is not zero.
unfoldable pub has_bit : ℕ → ℕ → Bool
has_bit mask zero = mask % 2 == 1
has_bit mask (suc bit) = has_bit (mask / 2) bit
