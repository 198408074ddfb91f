-- ===== src/Gpm/Cache.antt =====
-- `NvidiaGpmHighresCache` (performance_highres.py). Of the series of a metric the counts and the points
-- are there; the averages, the extremes and the percentile of `_summary`, which it rounds, are not.
use constella.Prelude.{
  ℕ, ◌+◌, ◌*◌, ◌==◌, ltb, Bool, true, false, ◌&&◌, ◌||◌, Option, none, some, List, [], ◌∷◌, Text,
  text, text_eq, truthy, keep, any, map, length, if◌then◌else◌,
}
use constella.Prelude.Sorting.{sort_by}
use constella.Gpm.Ring.{Performance, Ring, new, append, metric_count}
use constella.Gpm.Cells.{Stamped}
use constella.Gpm.Window.{timeline, given_values}
use constella.Gpm.Downsample.{downsample_minmax}
use constella.Prelude.Keyed.{find, alter}
use constella.Gpm.Keyed.{GpuKey, gpu_keys}

pub record Device : Type 0 where
  pub gpu_index : ℕ
  pub name : Text
  pub status : Text

pub record Cache : Type 0 where
  pub capacity : ℕ
  pub enabled : Bool
  pub rings : List (GpuKey × Ring)
  pub devices : List (GpuKey × Device)

abbrev pub new_cache : ℕ → Bool → Cache
new_cache capacity enabled = record {
  capacity = capacity;
  enabled = enabled;
  rings = [];
  devices = [];
}

-- The arguments of `append`; `performance` is `none` for None and for the empty dict.
pub record Sampled : Type 0 where
  pub key : GpuKey
  pub gpu_index : ℕ
  pub name : Text
  pub sampled_at : ℕ
  pub performance : Option Performance

abbrev pub or_new : ℕ → Option Ring → Ring
or_new capacity none = new capacity
or_new capacity (some r) = r

abbrev pub or_error : Text → Text
or_error status = if truthy status then status else text "error"

abbrev pub kept : Sampled → Performance → Cache → Cache
kept s p c = record c {
  rings = alter s.key (λ r. append s.sampled_at p (or_new c.capacity r)) c.rings;
  devices =
      alter s.key
        (λ old. record { gpu_index = s.gpu_index; name = s.name; status = or_error p.status })
        c.devices;
}

abbrev pub gpm_profile : Text
gpm_profile = text "nvidia.gpm.v1"

abbrev pub keep_if : Bool → Sampled → Option Performance → Cache → Cache
keep_if enabled s none c = c
keep_if enabled s (some p) c = if enabled && text_eq p.profile gpm_profile then kept s p c else c

unfoldable pub append_sample : Sampled → Cache → Cache
append_sample s c = keep_if c.enabled s s.performance c

-- A metric of `metric_series_many`.
pub record MetricSeries : Type 0 where
  pub sample_count : ℕ
  pub expected_count : ℕ
  pub points : List Stamped

unfoldable pub metric_series : ℕ → Bool → List Stamped → MetricSeries
metric_series max_points summary_only samples = record {
  sample_count = length (given_values samples);
  expected_count = length samples;
  points = (if summary_only then [] else downsample_minmax samples max_points);
}

-- The arguments of `query`. The metrics are numbers of NVIDIA_GPM_METRICS; the empty lists stand for
-- None too.
pub record Query : Type 0 where
  pub node_id : Text
  pub gpu_uuids : List Text
  pub metrics : List ℕ
  pub since : ℕ
  pub until : ℕ
  pub max_points : ℕ
  pub summary_only : Bool

abbrev pub all_metrics : List ℕ
all_metrics = 0 ∷ 1 ∷ 2 ∷ 3 ∷ 4 ∷ 5 ∷ 6 ∷ 7 ∷ 8 ∷ 9 ∷ 10 ∷ []

abbrev pub or_all : List ℕ → List ℕ
or_all [] = all_metrics
or_all (k ∷ ks) = k ∷ ks

abbrev pub selected_metrics : Query → List ℕ
selected_metrics q = keep (λ k. ltb k metric_count) (or_all q.metrics)

abbrev pub any_uuid : List Text → Bool
any_uuid [] = true
any_uuid (u ∷ us) = false

abbrev pub is_asked : Query → GpuKey → Bool
is_asked q key =
    text_eq key.node_id q.node_id
    && (any_uuid q.gpu_uuids || any (text_eq key.gpu_uuid) q.gpu_uuids)

pub record Series : Type 0 where
  pub key : GpuKey
  pub device : Device
  pub metrics : List (ℕ × MetricSeries)

-- `ring.metric_series_many(selected_metrics, …)`, from the timelines of the metrics.
abbrev pub named_series : Query → (ℕ → List Stamped) → ℕ → ℕ × MetricSeries
named_series q samples k = (k, metric_series q.max_points q.summary_only (samples k))

unfoldable pub metrics_of : Query → Ring → List (ℕ × MetricSeries)
metrics_of q r = map (named_series q (λ k. timeline r k q.since q.until)) (selected_metrics q)

-- One round of the loop; `none` is the KeyError of `self.devices[key]`.
abbrev pub add_series :
    Query → GpuKey → Ring → Option Device → Option (List Series) → Option (List Series)
add_series q key r none rest = none
add_series q key r (some d) none = none
add_series q key r (some d) (some rest) =
    some (record { key = key; device = d; metrics = metrics_of q r } ∷ rest)

unfoldable pub collect :
    Query → List (GpuKey × Device) → List (GpuKey × Ring) → Option (List Series)
collect q devices [] = some []
collect q devices ((key, r) ∷ rings) =
    let rest = collect q devices rings in
    let more = add_series q key r (find key devices) rest in if is_asked q key then more else rest

unfoldable pub text_le : Text → Text → Bool
text_le [] t = true
text_le (x ∷ s) [] = false
text_le (x ∷ s) (y ∷ t) = let rest = text_le s t in ltb x y || ((x == y) && rest)

-- `(item["gpu_index"], item["gpu_uuid"])`, in order.
abbrev pub series_le : Series → Series → Bool
series_le a b =
    ltb a.device.gpu_index b.device.gpu_index
    || ((a.device.gpu_index == b.device.gpu_index) && text_le a.key.gpu_uuid b.key.gpu_uuid)

abbrev pub sort_series : List Series → List Series
sort_series series = sort_by series_le series

abbrev pub sorted_series : Option (List Series) → Option (List Series)
sorted_series none = none
sorted_series (some series) = some (sort_series series)

-- The entry `series` of the answer.
unfoldable pub query : Query → Cache → Option (List Series)
query q c = if c.enabled then sorted_series (collect q c.devices c.rings) else some []

unfoldable pub counts_of : List (GpuKey × Ring) → ℕ
counts_of [] = 0
counts_of ((key, r) ∷ rings) = r.count + counts_of rings

-- `status`: `bytes_per_point` counts a time, the readings and a mask.
pub record CacheStatus : Type 0 where
  pub enabled : Bool
  pub ring_count : ℕ
  pub capacity_per_gpu : ℕ
  pub valid_point_count : ℕ
  pub approx_bytes : ℕ
  pub allocated_bytes : ℕ

abbrev pub bytes_per_point : ℕ
bytes_per_point = 8 + metric_count * 4 + 2

unfoldable pub status_of : Cache → CacheStatus
status_of c = record {
  enabled = c.enabled;
  ring_count = length c.rings;
  capacity_per_gpu = c.capacity;
  valid_point_count = counts_of c.rings;
  approx_bytes = counts_of c.rings * bytes_per_point;
  allocated_bytes = length c.rings * c.capacity * bytes_per_point;
}
