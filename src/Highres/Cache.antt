-- ===== src/Highres/Cache.antt =====
-- `HighresGpuCache` (highres.py): a ring for each device. The GPM rings that it feeds as well
-- (`self.performance`) are another object and not modelled; `capacity` is
-- `ceil(retention_seconds / min_interval_seconds)`, which is at least one.
use constella.Prelude.{
  ◌≡◌, refl, true, and_both, text_eq→eq, text_eq_refl, ℕ, ◌+◌, Bool, ◌&&◌, Option, none, some, List,
  [], ◌∷◌, Text, text_eq, truthy, if◌then◌else◌,
}
use constella.Prelude.Keyed.{Keys, find, alter}
use constella.Highres.Ring.{Reading, Ring, Point, new, append, points}

-- `(node_id, gpu.uuid)`
pub record Device : Type 0 where
  pub node_id : Text
  pub uuid : Text

abbrev pub device_eq : Device → Device → Bool
device_eq a b = text_eq a.node_id b.node_id && text_eq a.uuid b.uuid

pub device_eq→eq : (a b : Device) → device_eq a b ≡ true → a ≡ b
device_eq→eq a b h =
    let (one, two) = and_both (text_eq a.node_id b.node_id) (text_eq a.uuid b.uuid) h in
    rw (text_eq→eq a.node_id b.node_id one, text_eq→eq a.uuid b.uuid two) refl

pub device_eq_refl : (d : Device) → device_eq d d ≡ true
device_eq_refl d = rw (text_eq_refl d.node_id, text_eq_refl d.uuid) refl

instance abbrev pub device_keys : Keys Device
device_keys = record { same = device_eq; sound = device_eq→eq; reflexive = device_eq_refl }

-- A reading of one device, as `gpu_from_telemetry` decodes it.
pub record Gpu : Type 0 where
  pub uuid : Text
  pub reading : Reading

pub record Cache : Type 0 where
  pub capacity : ℕ
  pub rings : List (Device × Ring)
  pub sample_count : ℕ
  pub dropped_samples : ℕ
  pub last_sample_at : Option ℕ

abbrev pub new_cache : ℕ → Cache
new_cache capacity = record {
  capacity = capacity;
  rings = [];
  sample_count = 0;
  dropped_samples = 0;
  last_sample_at = none;
}

abbrev pub ring_of : Device → List (Device × Ring) → Option Ring
ring_of d rings = find d rings

-- A missing ring is an empty one.
abbrev pub or_new : ℕ → Option Ring → Ring
or_new n none = new n
or_new n (some r) = r

-- The ring of the device, which is made when it is missing, takes the sample.
abbrev pub append_to : Device → ℕ → ℕ → Reading → List (Device × Ring) → List (Device × Ring)
append_to d capacity at g rings = alter d (λ o. append at g (or_new capacity o)) rings

-- The loop of `add_snapshot` and of `add_sample_message`.
unfoldable pub add_gpus : Text → ℕ → List Gpu → Cache → Cache
add_gpus node at [] c = c
add_gpus node at (g ∷ gpus) c = add_gpus node at gpus (record c {
  rings = append_to (record { node_id = node; uuid = g.uuid }) c.capacity at g.reading c.rings;
  sample_count = c.sample_count + 1;
})

unfoldable pub add_snapshot : Text → ℕ → List Gpu → Cache → Cache
add_snapshot node at gpus c = record (add_gpus node at gpus c) { last_sample_at = some at }

pub record Sample : Type 0 where
  pub node_id : Text
  -- `none` where `SAMPLE_TIME` refuses it.
  pub sampled_at : Option ℕ
  -- `none` where it is not a list.
  pub gpus : Option (List Gpu)

abbrev pub dropped : Cache → Cache
dropped c = record c { dropped_samples = c.dropped_samples + 1 }

abbrev pub add_decoded : Text → Option ℕ → Option (List Gpu) → Cache → Cache
add_decoded node none gpus c = dropped c
add_decoded node (some at) none c = dropped c
add_decoded node (some at) (some gpus) c = add_snapshot node at gpus c

unfoldable pub add_sample_message : Sample → Cache → Cache
add_sample_message m c =
    if truthy m.node_id then add_decoded m.node_id m.sampled_at m.gpus c else dropped c

abbrev pub points_of : Option Ring → ℕ → ℕ → List Point
points_of none since until = []
points_of (some r) since until = points r since until

-- The points of `series_for`, which also gives the ring.
unfoldable pub series_for : Device → ℕ → ℕ → Cache → List Point
series_for d since until c = points_of (ring_of d c.rings) since until

unfoldable pub add_all : List Sample → Cache → Cache
add_all [] c = c
add_all (m ∷ messages) c = add_all messages (add_sample_message m c)
