-- ===== src/Gpm/Keyed.antt =====
-- The keys of `rings` and `devices`: a node's id and a GPU's uuid (performance_highres.py).
use constella.Prelude.{
  ◌≡◌, refl, Bool, true, ◌&&◌, Text, text_eq, text_eq→eq, text_eq_refl, and_both,
}
use constella.Prelude.Keyed.{Keys}

pub record GpuKey : Type 0 where
  pub node_id : Text
  pub gpu_uuid : Text

abbrev pub key_eq : GpuKey → GpuKey → Bool
key_eq a b = text_eq a.node_id b.node_id && text_eq a.gpu_uuid b.gpu_uuid

pub key_eq→eq : (a b : GpuKey) → key_eq a b ≡ true → a ≡ b
key_eq→eq a b h =
    let (one, two) = and_both (text_eq a.node_id b.node_id) (text_eq a.gpu_uuid b.gpu_uuid) h in
    rw (text_eq→eq a.node_id b.node_id one, text_eq→eq a.gpu_uuid b.gpu_uuid two) refl

pub key_eq_refl : (a : GpuKey) → key_eq a a ≡ true
key_eq_refl a = rw (text_eq_refl a.node_id, text_eq_refl a.gpu_uuid) refl

instance abbrev pub gpu_keys : Keys GpuKey
gpu_keys = record { same = key_eq; sound = key_eq→eq; reflexive = key_eq_refl }
