-- ===== src/Wire/Tests.antt =====
-- The theorems on devices as JSON at concrete inputs.
use constella.Prelude.{
  ◌≡◌, refl, true, false, if◌then◌else◌, Option, none, some, [], ◌∷◌, Text, text, text_eq,
}
use constella.Telemetry.Rules.{Value, number, whole}
use constella.Wire.Json.{
  item, end, Json, Fields, bool, list, nan, null, num, inf, str, object, blank, entry,
}
use constella.Wire.Data.{GpuProcess, OtherUserMemory, AcceleratorPerformance, GpuInfo}
use constella.Wire.Devices.{gpu_from_telemetry}
use constella.Wire.Filter.{
  filter_all, kept_processes, is_excluded_process, filter_gpu_processes, name_from,
}
use constella.Wire.Desktop.{stumbles, is_desktop}
use constella.Wire.Typed.{IsInRange, gpu_from_telemetry-IsInRange}

abbrev print : Json → Text
print j = text "?"

abbrev parse : Text → Option Value
parse t = none

abbrev none_sent : GpuInfo → Json
none_sent g = null

abbrev only_name : Fields
only_name = entry (text "name") (str (text "H100")) blank

abbrev process : GpuProcess
process = record {
  pid = whole 4711;
  name = text "python";
  gpu_memory_mb = whole 1024;
  ppid = num (whole 1);
  user = str (text "ada");
  task_name = null;
  exe = null;
  cmdline = null;
  cmdline_hash = null;
  kind = text "compute";
  runtime_seconds = num (whole 60);
  process_start_time = num (record { negative = false; millionths = 1700000000500000 });
  parent_start_time = null;
  detail_status = text "ok";
  detail_error = null;
  user_uid = num (whole 1000);
}

abbrev owner : OtherUserMemory
owner = record {
  user = text "bob";
  process_count = whole 2;
  total_memory_mb = whole 0;
  runtime_seconds = null;
}

abbrev performance : AcceleratorPerformance
performance = record {
  profile = text "nvidia.gpm.v1";
  status = text "available";
  sampled_at = number (whole 1700000000);
  interval_ms = none;
  metrics = (text "nvidia.gpm.sm_active", number (whole 40)) ∷ [];
  supported_metrics = text "nvidia.gpm.sm_active" ∷ [];
  error = none;
  invalid_metrics = [];
}

abbrev gpu : GpuInfo
gpu = record {
  index = whole 3;
  node_id = text "agent";
  gpu_id = none;
  device_type = text "nvidia";
  card_id = none;
  die_id = some (whole 0);
  uuid = text "GPU-3";
  name = text "H100";
  pci_bus_id = null;
  utilization_gpu = whole 55;
  utilization_mem = whole 0;
  memory_total_mb = whole 81920;
  memory_used_mb = whole 1024;
  memory_free_mb = whole 80896;
  temperature_c = whole 61;
  power_watts = record { negative = false; millionths = 350500000 };
  power_limit_watts = whole 700;
  clock_sm_mhz = num (whole 1980);
  clock_mem_mhz = null;
  max_clock_sm_mhz = null;
  max_clock_mem_mhz = null;
  pstate = str (text "P0");
  compute_mode = null;
  mig_mode = null;
  ecc_mode = null;
  performance = some performance;
  processes = process ∷ [];
  other_users = owner ∷ [];
  error = null;
  telemetry_errors = (text "clock_mem_mhz", text "unsupported") ∷ [];
}

-- A compositor is no work of a user, a script with the name of one is.
abbrev xorg : GpuProcess
xorg = record process { exe = str (text "/usr/lib/xorg/Xorg") }

abbrev script : GpuProcess
script = record process { cmdline = str (text "python /home/ada/Xorg") }

desktop_only : (is_desktop xorg ≡ true) × (is_desktop script ≡ false)
unfolding name_from text_eq
desktop_only = (refl, refl)

-- The user of a process is a list: the filter raises, and nothing of the sample is taken.
abbrev listed_user : GpuProcess
listed_user = record process { user = list (item (str (text "ada")) end) }

sample_rejected :
    (stumbles listed_user ≡ true)
    × (filter_all (gpu ∷ record gpu { processes = listed_user ∷ [] } ∷ []) ≡ none)
unfolding name_from text_eq filter_all filter_gpu_processes kept_processes is_excluded_process
sample_rejected = (refl, refl)

gpu_from_telemetry-IsInRange_example : IsInRange (
    gpu_from_telemetry print parse
      (text "alpha")
      (object (entry (text "utilization_gpu") (inf false) blank))
      0
      [])
gpu_from_telemetry-IsInRange_example =
    gpu_from_telemetry-IsInRange print parse (text "alpha")
      (object (entry (text "utilization_gpu") (inf false) blank)) 0 []

-- A text for each number.
abbrev print_num : Json → Text
print_num null = text "None"
print_num (bool b) = text "?"
print_num (num n) = (if n.negative then 1 else 0) ∷ n.millionths ∷ []
print_num (inf negative) = text "inf"
print_num nan = text "nan"
print_num (str t) = t
print_num (list js) = text "?"
print_num (object d) = text "?"
