-- ===== src/Wire/Encode.antt =====
-- `GpuInfo.to_dict` (schema.py), which an agent sends. The two percentages at its end, which the
-- decoder does not read, are arguments.
use constella.Prelude.{Option, none, some, List, [], ◌∷◌, Text, text}
use constella.Prelude.Dicts.{Dict}
use constella.Telemetry.Rules.{Number, Value, missing, number, infinite, not_a_number, other}
use constella.Wire.Json.{
  Json, null, num, inf, nan, str, list, object, Items, end, item, Fields, blank, entry,
}
use constella.Wire.Data.{GpuProcess, OtherUserMemory, AcceleratorPerformance, GpuInfo}

abbrev pub json_of : Value → Json
json_of missing = null
json_of (number n) = num n
json_of (infinite negative) = inf negative
json_of not_a_number = nan
json_of other = null

abbrev pub opt_json : Option Text → Json
opt_json none = null
opt_json (some t) = str t

abbrev pub opt_num : Option Number → Json
opt_num none = null
opt_num (some n) = num n

abbrev pub opt_value : Option Value → Json
opt_value none = null
opt_value (some v) = json_of v

unfoldable pub texts_json : List Text → Items
texts_json [] = end
texts_json (t ∷ ts) = item (str t) (texts_json ts)

unfoldable pub values_json : Dict Value → Fields
values_json [] = blank
values_json ((k, v) ∷ d) = entry k (json_of v) (values_json d)

unfoldable pub errors_json : Dict Text → Fields
errors_json [] = blank
errors_json ((k, t) ∷ d) = entry k (str t) (errors_json d)

abbrev pub process_fields : GpuProcess → Fields
process_fields p = entry (text "pid") (num p.pid) (
    entry (text "name") (str p.name) (
      entry (text "gpu_memory_mb") (num p.gpu_memory_mb) (
        entry (text "ppid") p.ppid (
          entry (text "user") p.user (
            entry (text "task_name") p.task_name (
              entry (text "exe") p.exe (
                entry (text "cmdline") p.cmdline (
                  entry (text "cmdline_hash") p.cmdline_hash (
                    entry (text "kind") (str p.kind) (
                      entry (text "runtime_seconds") p.runtime_seconds (
                        entry (text "process_start_time") p.process_start_time (
                          entry (text "parent_start_time") p.parent_start_time (
                            entry (text "detail_status") (str p.detail_status) (
                              entry (text "detail_error") p.detail_error
                                (entry (text "user_uid") p.user_uid blank)))))))))))))))

abbrev pub process_json : GpuProcess → Json
process_json p = object (process_fields p)

abbrev pub owner_json : OtherUserMemory → Json
owner_json o = object (
    entry (text "user") (str o.user) (
      entry (text "process_count") (num o.process_count) (
        entry (text "total_memory_mb") (num o.total_memory_mb)
          (entry (text "runtime_seconds") o.runtime_seconds blank))))

unfoldable pub processes_json : List GpuProcess → Items
processes_json [] = end
processes_json (p ∷ ps) = item (process_json p) (processes_json ps)

unfoldable pub owners_json : List OtherUserMemory → Items
owners_json [] = end
owners_json (o ∷ os) = item (owner_json o) (owners_json os)

abbrev pub performance_fields : AcceleratorPerformance → Fields
performance_fields p = entry (text "profile") (str p.profile) (
    entry (text "status") (str p.status) (
      entry (text "sampled_at") (json_of p.sampled_at) (
        entry (text "interval_ms") (opt_value p.interval_ms) (
          entry (text "metrics") (object (values_json p.metrics)) (
            entry (text "supported_metrics") (list (texts_json p.supported_metrics)) (
              entry (text "error") (opt_json p.error)
                (entry (text "invalid_metrics") (list (texts_json p.invalid_metrics)) blank)))))))

abbrev pub performance_json : Option AcceleratorPerformance → Json
performance_json none = null
performance_json (some p) = object (performance_fields p)

abbrev pub metrics_tail : Json → Json → Json → GpuInfo → Fields
metrics_tail performance memory_percent power_percent g =
    entry (text "temperature_c") (num g.temperature_c) (
      entry (text "power_watts") (num g.power_watts) (
        entry (text "power_limit_watts") (num g.power_limit_watts) (
          entry (text "clock_sm_mhz") g.clock_sm_mhz (
            entry (text "clock_mem_mhz") g.clock_mem_mhz (
              entry (text "max_clock_sm_mhz") g.max_clock_sm_mhz (
                entry (text "max_clock_mem_mhz") g.max_clock_mem_mhz (
                  entry (text "pstate") g.pstate (
                    entry (text "compute_mode") g.compute_mode (
                      entry (text "mig_mode") g.mig_mode (
                        entry (text "ecc_mode") g.ecc_mode (
                          entry (text "performance") performance (
                            entry (text "processes") (list (processes_json g.processes)) (
                              entry (text "other_users") (list (owners_json g.other_users)) (
                                entry (text "error") g.error (
                                  entry (text "telemetry_errors")
                                    (object (errors_json g.telemetry_errors))
                                    (entry (text "memory_percent") memory_percent (
                                      entry (text "power_percent") power_percent
                                        blank)))))))))))))))))

-- The dict with a given value for the performance.
abbrev pub gpu_fields_with : Json → Json → Json → GpuInfo → Fields
gpu_fields_with performance memory_percent power_percent g =
    (entry (text "index") (num g.index) (
      entry (text "node_id") (str g.node_id) (
        entry (text "gpu_id") (opt_json g.gpu_id) (
          entry (text "device_type") (str g.device_type) (
            entry (text "card_id") (opt_json g.card_id) (
              entry (text "die_id") (opt_num g.die_id) (
                entry (text "uuid") (str g.uuid) (
                  entry (text "name") (str g.name) (
                    entry (text "pci_bus_id") g.pci_bus_id (
                      entry (text "utilization_gpu") (num g.utilization_gpu) (
                        entry (text "utilization_mem") (num g.utilization_mem) (
                          entry (text "memory_total_mb") (num g.memory_total_mb) (
                            entry (text "memory_used_mb") (num g.memory_used_mb) (
                              entry (text "memory_free_mb") (num g.memory_free_mb) (
                                metrics_tail performance memory_percent power_percent
                                  g)))))))))))))))

abbrev pub gpu_fields : Json → Json → GpuInfo → Fields
gpu_fields memory_percent power_percent g =
    gpu_fields_with (performance_json g.performance) memory_percent power_percent g

unfoldable pub to_dict : Json → Json → GpuInfo → Json
to_dict memory_percent power_percent g = object (gpu_fields memory_percent power_percent g)
