-- ===== src/Wire/Data.antt =====
-- The dataclasses of a device (schema.py: GpuProcess, OtherUserMemory, AcceleratorPerformance, GpuInfo).
-- A field that the decoder takes over as it comes is a JSON value.
use constella.Prelude.{
  Bool, true, false, not, ◌&&◌, Option, none, some, List, [], ◌∷◌, ◌++◌, Text, text, text_eq, any,
  if◌then◌else◌,
}
use constella.Prelude.Dicts.{Dict}
use constella.Telemetry.Rules.{
  Number, Value, missing, number, infinite, not_a_number, other, NumericRule, filter_readings,
}
use constella.Gpm.Ring.{gpm_metrics}
use constella.Gpm.Cache.{gpm_profile}
use constella.Wire.Json.{Json}

pub record GpuProcess : Type 0 where
  pub pid : Number
  pub name : Text
  pub gpu_memory_mb : Number
  pub ppid : Json
  pub user : Json
  pub task_name : Json
  pub exe : Json
  pub cmdline : Json
  pub cmdline_hash : Json
  pub kind : Text
  pub runtime_seconds : Json
  pub process_start_time : Json
  pub parent_start_time : Json
  pub detail_status : Text
  pub detail_error : Json
  pub user_uid : Json

pub record OtherUserMemory : Type 0 where
  pub user : Text
  pub process_count : Number
  pub total_memory_mb : Number
  pub runtime_seconds : Json

-- The times are values: a float may be infinite or no number.
pub record AcceleratorPerformance : Type 0 where
  pub profile : Text
  pub status : Text
  pub sampled_at : Value
  pub interval_ms : Option Value
  pub metrics : Dict Value
  pub supported_metrics : List Text
  pub error : Option Text
  pub invalid_metrics : List Text

abbrev pub performance_statuses : List Text
performance_statuses = text "warming" ∷ text "available" ∷ text "unsupported" ∷ text "error" ∷ []

-- `finite_number`
abbrev pub finite_number : Value → Bool
finite_number missing = false
finite_number (number n) = true
finite_number (infinite negative) = false
finite_number not_a_number = false
finite_number other = false

-- `list(dict.fromkeys(ts))`; `seen` are the texts before.
unfoldable pub distinct_texts : List Text → List Text → List Text
distinct_texts seen [] = []
distinct_texts seen (t ∷ ts) =
    let rest = distinct_texts (t ∷ seen) ts in if any (text_eq t) seen then rest else t ∷ rest

abbrev pub rules_of : Text → Dict NumericRule
rules_of profile = if text_eq profile gpm_profile then gpm_metrics else []

abbrev pub is_empty {ℓ} : {A : Type ℓ} → List A → Bool
is_empty [] = true
is_empty (x ∷ xs) = false

abbrev pub finite_interval : Option Value → Option Value
finite_interval none = none
finite_interval (some v) = if finite_number v then some v else none

abbrev pub filtered : AcceleratorPerformance → Dict Value × List Text → AcceleratorPerformance
filtered p (metrics, invalid) =
    let all_invalid = distinct_texts [] (p.invalid_metrics ++ invalid) in
    record p {
      metrics = metrics;
      invalid_metrics = all_invalid;
      status =
          (if not (is_empty all_invalid) && is_empty metrics && text_eq p.status (text "available")
            then text "error"
            else p.status);
      interval_ms = finite_interval p.interval_ms;
    }

-- `__post_init__`; `none` is a ValueError.
unfoldable pub post_init : AcceleratorPerformance → Option AcceleratorPerformance
post_init p =
    if any (text_eq p.status) performance_statuses && finite_number p.sampled_at
    then some (filtered p (filter_readings (rules_of p.profile) p.metrics))
    else none

pub record GpuInfo : Type 0 where
  pub index : Number
  pub node_id : Text
  pub gpu_id : Option Text
  pub device_type : Text
  pub card_id : Option Text
  pub die_id : Option Number
  pub uuid : Text
  pub name : Text
  pub pci_bus_id : Json
  pub utilization_gpu : Number
  pub utilization_mem : Number
  pub memory_total_mb : Number
  pub memory_used_mb : Number
  pub memory_free_mb : Number
  pub temperature_c : Number
  pub power_watts : Number
  pub power_limit_watts : Number
  pub clock_sm_mhz : Json
  pub clock_mem_mhz : Json
  pub max_clock_sm_mhz : Json
  pub max_clock_mem_mhz : Json
  pub pstate : Json
  pub compute_mode : Json
  pub mig_mode : Json
  pub ecc_mode : Json
  pub performance : Option AcceleratorPerformance
  pub processes : List GpuProcess
  pub other_users : List OtherUserMemory
  pub error : Json
  pub telemetry_errors : Dict Text
