-- ===== src/Wire/Typed.antt =====
-- The readings of a decoded device are in range, whatever was sent (cluster.py, `gpu_from_telemetry`).
use constella.Prelude.{
  Bool, ℕ, ◌≡◌, refl, true, false, not, ◌&&◌, Option, none, some, List, Text, text, ap, subst, sym,
  Bool-cases, and_both, inl, inr, if◌then◌else◌,
}
use constella.Prelude.Dicts.{Dict, insert}
use constella.Telemetry.Rules.{
  Number, Value, number, accepts, at_most, whole, minus, percent, count_rule, default_rule,
  numeric_issues, gpu_metric_rules,
}
use constella.Wire.Json.{Json, Fields, values_of}
use constella.Wire.Data.{GpuInfo}
use constella.Wire.Decode.{nulled, fields_of}
use constella.Wire.Devices.{
  gpu_from_dict, over_capacity, within_capacity, index_accepted, decoded, bare_gpu, gpu_from_fields,
  gpu_from_telemetry,
}
use constella.Wire.Ranges.{float_or_zero-ok, int_or_zero-ok}

-- The readings are what their rules accept.
pub record HasReadings (g : GpuInfo) : Type 0 where
  pub gpu : accepts percent (number g.utilization_gpu) ≡ true
  pub mem : accepts percent (number g.utilization_mem) ≡ true
  pub total : accepts count_rule (number g.memory_total_mb) ≡ true
  pub used : accepts count_rule (number g.memory_used_mb) ≡ true
  pub free : accepts count_rule (number g.memory_free_mb) ≡ true
  pub temperature :
      accepts (record default_rule { minimum = minus 273150000 }) (number g.temperature_c) ≡ true
  pub power : accepts default_rule (number g.power_watts) ≡ true
  pub limit : accepts default_rule (number g.power_limit_watts) ≡ true

-- Where there is a capacity, no more memory is in use.
abbrev pub IsInRange : GpuInfo → Type 0
IsInRange g =
    HasReadings g
    × (at_most g.memory_total_mb (whole 0) ≡ false
        → at_most g.memory_used_mb g.memory_total_mb ≡ true)

within : (a b : Bool) → (not a && not b) ≡ false → a ≡ false → b ≡ true
within true b h off = cc
within false true h off = refl
within false false h off = cc

IsInRange-within_capacity : (g : GpuInfo) → HasReadings g → IsInRange (within_capacity g)
unfolding accepts
IsInRange-within_capacity g h = elim (Bool-cases (over_capacity g)) [
  | inr fits ↦
      subst IsInRange (sym (ap (λ b. if b then emptied g else g) fits)) (h, within _ _ fits)
  | inl over ↦
      subst IsInRange (sym (ap (λ b. if b then emptied g else g) over))
        (of_emptied, (λ off. not_negative))
]
  where
    emptied : GpuInfo → GpuInfo
    emptied x = record x {
      memory_used_mb = whole 0;
      telemetry_errors =
          insert (text "memory_used_mb") (text "Memory usage exceeds capacity; sample omitted")
            x.telemetry_errors;
    }

    not_negative : at_most (whole 0) g.memory_total_mb ≡ true
    not_negative = (and_both _ _ (and_both _ _ h.total).0).0

    of_emptied : HasReadings (emptied g)
    of_emptied = record {
      gpu = h.gpu;
      mem = h.mem;
      total = h.total;
      used = refl;
      free = h.free;
      temperature = h.temperature;
      power = h.power;
      limit = h.limit;
    }

IsInRange-bare_gpu :
    (index : Number) (node_id uuid name message : Text)
    → IsInRange (bare_gpu index node_id uuid name message)
unfolding accepts
IsInRange-bare_gpu index node_id uuid name message = (
  record {
    gpu = refl;
    mem = refl;
    total = refl;
    used = refl;
    free = refl;
    temperature = refl;
    power = refl;
    limit = refl;
  },
  (λ off. refl),
)

module _ (print : Json → Text) (parse : Text → Option Value) where
  HasReadings-gpu_from_dict :
      (node_id : Text) (d : Fields) (last : Option GpuInfo) (errors : Dict Text) (index : Number)
      → HasReadings
          (record (gpu_from_dict print parse node_id
            (nulled (numeric_issues (values_of d) gpu_metric_rules) d)
            last
            errors) { index = index })
  unfolding gpu_from_dict
  HasReadings-gpu_from_dict node_id d last errors index = record {
    gpu = int_or_zero-ok d gpu_metric_rules 0 (text "utilization_gpu") percent refl (refl, refl);
    mem = int_or_zero-ok d gpu_metric_rules 1 (text "utilization_mem") percent refl (refl, refl);
    total =
        int_or_zero-ok d gpu_metric_rules 2 (text "memory_total_mb") count_rule refl (refl, refl);
    used = int_or_zero-ok d gpu_metric_rules 3 (text "memory_used_mb") count_rule refl (refl, refl);
    free = int_or_zero-ok d gpu_metric_rules 4 (text "memory_free_mb") count_rule refl (refl, refl);
    temperature =
        int_or_zero-ok d gpu_metric_rules 5 (text "temperature_c")
          (record default_rule { minimum = minus 273150000 }) refl (refl, refl);
    power =
        float_or_zero-ok d gpu_metric_rules 6 (text "power_watts") default_rule refl (refl, refl);
    limit =
        float_or_zero-ok d gpu_metric_rules 7 (text "power_limit_watts") default_rule refl
          (refl, refl);
  }

  IsInRange-decoded :
      (node_id : Text) (d : Fields) (errors : Dict Text) (fallback : ℕ) (previous : List GpuInfo)
      → IsInRange (
          decoded print parse node_id
            (nulled (numeric_issues (values_of d) gpu_metric_rules) d)
            errors
            fallback
            previous)
  unfolding decoded
  IsInRange-decoded node_id d errors fallback previous =
      let clean = nulled (numeric_issues (values_of d) gpu_metric_rules) d in
      elim (Bool-cases (index_accepted clean fallback)) [
        | inl ok ↦
            rw ok (IsInRange-within_capacity _ (HasReadings-gpu_from_dict node_id d _ errors _))
        | inr bad ↦ rw bad (IsInRange-bare_gpu _ node_id _ _ _)
      ]

  -- Whatever JSON value stands for a device in a message, the decoder makes a device of it whose
  -- readings are numbers in the range of their rules: utilizations of at most 100, memory and power
  -- not negative, whole numbers where counts are; and where its capacity is above 0, no more memory
  -- is in use than that.
  pub gpu_from_telemetry-IsInRange :
      (node_id : Text) (j : Json) (fallback : ℕ) (previous : List GpuInfo)
      → IsInRange (gpu_from_telemetry print parse node_id j fallback previous)
  unfolding gpu_from_telemetry
  gpu_from_telemetry-IsInRange node_id j fallback previous = by_fields (fields_of j)
    where
      by_fields :
          (o : Option Fields) → IsInRange (gpu_from_fields print parse node_id o fallback previous)
      by_fields none = IsInRange-bare_gpu _ node_id _ _ _
      by_fields (some d) = IsInRange-decoded node_id d _ fallback previous
