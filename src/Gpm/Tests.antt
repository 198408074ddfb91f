-- ===== src/Gpm/Tests.antt =====
-- The theorems on the counters' rings at concrete inputs.
use constella.Prelude.{
  ℕ, ◌≤◌, ◌≡◌, refl, true, false, none, some, Text, text, List, [], ◌∷◌, recent, length, All, max,
  ltb, arith,
}
use constella.Telemetry.Rules.{number, infinite, whole}
use constella.Gpm.Ring.{Performance, new}
use constella.Gpm.Cells.{Stamped}
use constella.Gpm.Runs.{append_all, stamps}
use constella.Gpm.Window.{timeline, bisect}
use constella.Gpm.Series.{range_of, timeline-range_of}
use constella.Gpm.Downsample.{downsample_minmax}
use constella.Gpm.Sizes.{length-downsample_minmax}
use constella.Gpm.Extremes.{IsCovered}
use constella.Gpm.Kept.{downsample_minmax-covers}
use constella.Gpm.Chosen.{All-downsample_minmax}
use constella.Gpm.Keyed.{GpuKey}
use constella.Gpm.Cache.{Sampled, Query, new_cache, query}
use constella.Gpm.Held.{append_samples}
use constella.Gpm.Answers.{Answers, IsComplete, query-IsComplete}

abbrev performance : ℕ → Performance
performance active = record {
  profile = text "nvidia.gpm.v1";
  status = text "available";
  metrics = some (
      (text "nvidia.gpm.sm_active", number (whole active))
      ∷ (text "nvidia.gpm.tensor_active", infinite false)
      ∷ []);
}

abbrev silent : Performance
silent = record { profile = text "nvidia.gpm.v1"; status = text "warming"; metrics = none }

-- Five samples: the first is overwritten, the third has no readings.
abbrev samples : List (ℕ × Performance)
samples =
    (10, performance 40)
    ∷ (20, performance 50)
    ∷ (30, silent)
    ∷ (40, performance 101)
    ∷ (50, performance 60)
    ∷ []

timeline-range_of_example :
    timeline (append_all samples (new 4)) 0 20 40 ≡ range_of 20 40 (recent 4 (stamps 0 samples))
timeline-range_of_example = timeline-range_of 4 0 20 40 samples (omega arith) (omega arith)

bisect_runs : bisect (λ o. ltb o 5) 3 0 7 ≡ 5
unfolding bisect
bisect_runs = refl

abbrev stamp : ℕ → ℕ → Stamped
stamp at v = record { at_time = at; value = some (whole v) }

abbrev blank : ℕ → Stamped
blank at = record { at_time = at; value = none }

abbrev long : List Stamped
long = stamp 1 5 ∷ stamp 2 9 ∷ blank 3 ∷ stamp 4 1 ∷ stamp 5 7 ∷ stamp 6 7 ∷ stamp 7 8 ∷ []

length-downsample_minmax_example : length (downsample_minmax long 6) ≤ max 5 6
length-downsample_minmax_example = length-downsample_minmax long 6

downsample_minmax-covers_example : All (IsCovered (downsample_minmax long 6)) long
downsample_minmax-covers_example = downsample_minmax-covers long 6

All-downsample_minmax_example : All (λ s. s.at_time ≤ 7) (downsample_minmax long 6)
All-downsample_minmax_example = All-downsample_minmax (λ s. s.at_time ≤ 7) long 6 (omega arith)

abbrev gpu : Text → GpuKey
gpu uuid = record { node_id = text "alpha"; gpu_uuid = uuid }

abbrev sampled : Text → ℕ → Sampled
sampled uuid at = record {
  key = gpu uuid;
  gpu_index = 0;
  name = text "H100";
  sampled_at = at;
  performance = some (performance 40);
}

abbrev calls : List Sampled
calls = sampled (text "gpu-0") 10 ∷ sampled (text "gpu-1") 11 ∷ sampled (text "gpu-0") 20 ∷ []

abbrev asked : Query
asked = record {
  node_id = text "alpha";
  gpu_uuids = text "gpu-0" ∷ [];
  metrics = 0 ∷ 12 ∷ [];
  since = 0;
  until = 15;
  max_points = 100;
  summary_only = false;
}

query-IsComplete_example :
    Answers (IsComplete 4 asked calls) (query asked (append_samples calls (new_cache 4 true)))
query-IsComplete_example = query-IsComplete 4 asked calls (omega arith)
