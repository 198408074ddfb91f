-- ===== src/Wire/Devices.antt =====
-- The decoder of a device, continued (cluster.py: _gpu_from_dict,
-- gpu_from_telemetry, and the loop of node_snapshot_from_agent_sample).
use constella.Prelude.{
  ℕ, suc, Bool, not, ◌&&◌, ◌||◌, Option, none, some, List, [], ◌∷◌, ◌++◌, Text, text, text_eq,
  truthy, if◌then◌else◌,
}
use constella.Prelude.Dicts.{Dict, insert}
use constella.Telemetry.Rules.{
  Number, Value, accepts, at_most, whole, count_rule, gpu_metric_rules, numeric_issues,
}
use constella.Wire.Json.{
  Json, null, num, Fields, field, get, has, value_of, values_of, float_or_zero, int_or_zero, str_of,
  str_or, is_null,
}
use constella.Wire.Data.{AcceleratorPerformance, GpuInfo}
use constella.Wire.Decode.{
  items, fields_of, each, note, opt_int, or_else, nulled, noted, printed_fields, process_entry,
  owner_entry,
}
use constella.Wire.Performances.{performance_from_dict}

abbrev pub same_number : Number → Number → Bool
same_number a b = at_most a b && at_most b a

-- `previous_gpus.get((uuid, index))`: the last of that key.
unfoldable pub previous_of : Text → Number → List GpuInfo → Option GpuInfo
previous_of uuid index [] = none
previous_of uuid index (g ∷ gs) =
    let later = previous_of uuid index gs in
    elim later [
      | some p ↦ some p
      | none ↦ if text_eq g.uuid uuid && same_number g.index index then some g else none
    ]

-- The supported metrics are sent once: where they are missing, those of the sample before stay.
abbrev pub inherited :
    Option Fields → Option GpuInfo → Option AcceleratorPerformance → Option AcceleratorPerformance
inherited raw previous none = none
inherited none previous (some p) = some p
inherited (some d) none (some p) = some p
inherited (some d) (some g) (some p) = from_last (has (text "supported_metrics") d) p g.performance
  where
    from_last :
        Bool
        → AcceleratorPerformance
        → Option AcceleratorPerformance
        → Option AcceleratorPerformance
    from_last sent p none = some p
    from_last sent p (some q) =
        if not sent && text_eq q.profile p.profile
        then some (record p { supported_metrics = q.supported_metrics })
        else some p

-- A device that could not be decoded.
abbrev pub bare_gpu : Number → Text → Text → Text → Text → GpuInfo
bare_gpu index node_id uuid name message = record {
  index = index;
  node_id = node_id;
  gpu_id = none;
  device_type = text "nvidia";
  card_id = none;
  die_id = none;
  uuid = uuid;
  name = name;
  pci_bus_id = null;
  utilization_gpu = whole 0;
  utilization_mem = whole 0;
  memory_total_mb = whole 0;
  memory_used_mb = whole 0;
  memory_free_mb = whole 0;
  temperature_c = whole 0;
  power_watts = whole 0;
  power_limit_watts = whole 0;
  clock_sm_mhz = null;
  clock_mem_mhz = null;
  max_clock_sm_mhz = null;
  max_clock_mem_mhz = null;
  pstate = null;
  compute_mode = null;
  mig_mode = null;
  ecc_mode = null;
  performance = none;
  processes = [];
  other_users = [];
  error = Json.str message;
  telemetry_errors = [];
}

abbrev pub over_capacity : GpuInfo → Bool
over_capacity g =
    not (at_most g.memory_total_mb (whole 0)) && not (at_most g.memory_used_mb g.memory_total_mb)

abbrev pub within_capacity : GpuInfo → GpuInfo
within_capacity g =
    if over_capacity g
    then record g {
      memory_used_mb = whole 0;
      telemetry_errors =
          insert (text "memory_used_mb") (text "Memory usage exceeds capacity; sample omitted")
            g.telemetry_errors;
    }
    else g

-- `data.get("index", data.get("gpu_index", fallback_index))`
abbrev pub raw_index : Fields → ℕ → Json
raw_index d fallback =
    or_else (field (text "index") d) (or_else (field (text "gpu_index") d) (num (whole fallback)))

abbrev pub index_accepted : Fields → ℕ → Bool
index_accepted d fallback =
    accepts count_rule (value_of (raw_index d fallback))
    && (is_null (get (text "die_id") d) || accepts count_rule (value_of (get (text "die_id") d)))

module _ (print : Json → Text) (parse : Text → Option Value) where
  -- `gpu_global_id`
  unfoldable pub global_id : Text → Text → Number → Text
  global_id node_id uuid index =
      if truthy uuid && not (text_eq uuid (text "unknown"))
      then node_id ++ (text ":" ++ uuid)
      else node_id ++ (text ":index:" ++ print (num index))

  abbrev pub opt_text : Json → Option Text
  opt_text j = if is_null j then none else some (str_of print j)

  unfoldable pub gpu_from_dict : Text → Fields → Option GpuInfo → Dict Text → GpuInfo
  gpu_from_dict node_id d previous errors =
      let raw_processes = items (field (text "processes") d) in
      let processes = each (process_entry print parse) raw_processes.0 in
      let raw_owners = items (field (text "other_users") d) in
      let owners = each (owner_entry print parse) raw_owners.0 in
      let raw_performance = get (text "performance") d in
      record {
        index = int_or_zero (get (text "index") d);
        node_id = node_id;
        gpu_id = some (
            global_id node_id (str_or print (get (text "uuid") d) (text "unknown"))
              (int_or_zero (get (text "index") d)));
        device_type = str_or print (get (text "device_type") d) (text "nvidia");
        card_id = opt_text (get (text "card_id") d);
        die_id = opt_int (get (text "die_id") d);
        uuid = str_or print (get (text "uuid") d) (text "unknown");
        name = str_or print (get (text "name") d) (text "unknown");
        pci_bus_id = get (text "pci_bus_id") d;
        utilization_gpu = int_or_zero (get (text "utilization_gpu") d);
        utilization_mem = int_or_zero (get (text "utilization_mem") d);
        memory_total_mb = int_or_zero (get (text "memory_total_mb") d);
        memory_used_mb = int_or_zero (get (text "memory_used_mb") d);
        memory_free_mb = int_or_zero (get (text "memory_free_mb") d);
        temperature_c = int_or_zero (get (text "temperature_c") d);
        power_watts = float_or_zero (get (text "power_watts") d);
        power_limit_watts = float_or_zero (get (text "power_limit_watts") d);
        clock_sm_mhz = get (text "clock_sm_mhz") d;
        clock_mem_mhz = get (text "clock_mem_mhz") d;
        max_clock_sm_mhz = get (text "max_clock_sm_mhz") d;
        max_clock_mem_mhz = get (text "max_clock_mem_mhz") d;
        pstate = get (text "pstate") d;
        compute_mode = get (text "compute_mode") d;
        mig_mode = get (text "mig_mode") d;
        ecc_mode = get (text "ecc_mode") d;
        performance =
            inherited (fields_of raw_performance) previous
              (performance_from_dict print parse raw_performance);
        processes = processes.0;
        other_users = owners.0;
        error = get (text "error") d;
        telemetry_errors =
            note owners.1 (text "other_users")
              (text "Invalid process owner reading; affected entries omitted")
              (note raw_owners.1 (text "other_users")
                (text "Invalid process owner list; entries omitted")
                (note processes.1 (text "processes")
                  (text "Invalid process reading; affected entries omitted")
                  (note raw_processes.1 (text "processes")
                    (text "Invalid process list; entries omitted") errors)));
      }

  unfoldable pub decoded : Text → Fields → Dict Text → ℕ → List GpuInfo → GpuInfo
  decoded node_id d errors fallback previous =
      let uuid = str_or print (get (text "uuid") d) (text "unknown") in
      let index = int_or_zero (raw_index d fallback) in
      let gpu = gpu_from_dict node_id d (previous_of uuid index previous) errors in
      if index_accepted d fallback
      then within_capacity (record gpu { index = index })
      else bare_gpu (whole fallback) node_id uuid
          (str_or print (get (text "name") d) (text "unknown"))
          (text "Invalid GPU snapshot; sample isolated")

  abbrev pub sent_errors : Option Fields → Dict Text
  sent_errors none = []
  sent_errors (some d) = printed_fields print parse d

  abbrev pub gpu_from_fields : Text → Option Fields → ℕ → List GpuInfo → GpuInfo
  gpu_from_fields node_id none fallback previous =
      bare_gpu (whole fallback) node_id (text "unknown") (text "unknown")
        (text "Invalid GPU snapshot")
  gpu_from_fields node_id (some d) fallback previous =
      let issues = numeric_issues (values_of d) gpu_metric_rules in
      decoded node_id (nulled issues d)
        (noted issues (sent_errors (fields_of (get (text "telemetry_errors") d)))) fallback previous

  unfoldable pub gpu_from_telemetry : Text → Json → ℕ → List GpuInfo → GpuInfo
  gpu_from_telemetry node_id j fallback previous =
      gpu_from_fields node_id (fields_of j) fallback previous

  -- The devices of a sample as they are decoded; `index` is the place of the first in the list.
  unfoldable pub decoded_gpus : Text → List Json → ℕ → List GpuInfo → List GpuInfo
  decoded_gpus node_id [] index previous = []
  decoded_gpus node_id (j ∷ js) index previous =
      gpu_from_telemetry node_id j index previous ∷ decoded_gpus node_id js (suc index) previous
