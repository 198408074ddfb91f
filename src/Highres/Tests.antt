-- ===== src/Highres/Tests.antt =====
-- The ring's theorems at concrete inputs.
use constella.Prelude.{
  ℕ, ◌+◌, ◌≡◌, Bool, true, false, Option, none, some, Text, text, text_eq, List, [], ◌∷◌, keep,
  recent, arith,
}
use constella.Highres.Ring.{Reading, new, points}
use constella.Highres.Contents.{append_all, valid_points}
use constella.Highres.Points.{within, IsSorted, points-recent}
use constella.Highres.Cache.{Gpu, Sample, Device, new_cache, series_for, add_all}
use constella.Highres.Devices.{readings_in, readings_of, series_for-recent}

abbrev reading : Bool → ℕ → Reading
reading valid load = record {
  valid = valid;
  utilization_gpu = load;
  utilization_mem = 1;
  memory_used_mb = 512;
  memory_total_mb = 1024;
  power_watts = 200;
  temperature_c = 50;
}

abbrev samples : List (ℕ × Reading)
samples =
    (10, reading true 1)
    ∷ (20, reading true 2)
    ∷ (25, reading false 0)
    ∷ (30, reading true 3)
    ∷ (40, reading true 4)
    ∷ []

samples-IsSorted : IsSorted (valid_points samples)
unfolding IsSorted valid_points
samples-IsSorted = omega arith

points-recent_example :
    points (append_all samples (new 3)) 15 30
    ≡ keep (within 15 30) (recent 3 (valid_points samples))
points-recent_example = points-recent 3 15 30 samples (omega arith) samples-IsSorted

abbrev gpu : Text → ℕ → Gpu
gpu uuid load = record { uuid = uuid; reading = reading true load }

abbrev sample : Text → Option ℕ → ℕ → Sample
sample node at load = record {
  node_id = node;
  sampled_at = at;
  gpus = some (gpu (text "gpu-0") load ∷ gpu (text "gpu-1") (load + 1) ∷ []);
}

abbrev messages : List Sample
messages =
    sample (text "alpha") (some 10) 1
    ∷ sample (text "beta") (some 5) 2
    ∷ sample (text "alpha") none 3
    ∷ sample (text "alpha") (some 20) 4
    ∷ []

abbrev device : Device
device = record { node_id = text "alpha"; uuid = text "gpu-1" }

messages-IsSorted : IsSorted (valid_points (readings_of device messages))
unfolding IsSorted valid_points readings_of readings_in text_eq
messages-IsSorted = omega arith

series_for-recent_example :
    series_for device 0 30 (add_all messages (new_cache 4))
    ≡ keep (within 0 30) (recent 4 (valid_points (readings_of device messages)))
series_for-recent_example = series_for-recent device 4 0 30 messages (omega arith) messages-IsSorted
