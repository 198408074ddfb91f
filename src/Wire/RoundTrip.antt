-- ===== src/Wire/RoundTrip.antt =====
-- What an agent sends is what the manager decodes (schema.py, `to_dict`; cluster.py,
-- `gpu_from_telemetry`).
use constella.Prelude.{ℕ, suc, ◌≡◌, refl, Option, List, [], ◌∷◌, ◌++◌, Text, ap}
use constella.Telemetry.Rules.{Value}
use constella.Wire.Json.{Json}
use constella.Wire.Data.{GpuInfo}
use constella.Wire.Devices.{gpu_from_telemetry, previous_of, decoded_gpus}
use constella.Wire.Encode.{performance_json, to_dict}
use constella.Wire.Sound.{IsSound}
use constella.Wire.Received.{received, inherited-json, gpu_from_telemetry-fields}

-- The place behind the items.
abbrev pub place : ℕ → List Json → ℕ
place index [] = index
place index (j ∷ js) = place (suc index) js

module _ (print : Json → Text) (parse : Text → Option Value) where
  pub gpu_from_telemetry-to_dict :
      (mp pp : Json) (g : GpuInfo) (node_id : Text) (fallback : ℕ) (previous : List GpuInfo)
      → IsSound g
      → gpu_from_telemetry print parse node_id (to_dict mp pp g) fallback previous
        ≡ received print parse node_id g
  unfolding to_dict
  gpu_from_telemetry-to_dict mp pp g node_id fallback previous h =
      gpu_from_telemetry-fields print parse (performance_json g.performance) mp pp g node_id
        fallback previous h
        (inherited-json print parse g.performance (previous_of g.uuid g.index previous)
          h.performance)

  pub decoded_gpus-append :
      (node_id : Text) (xs ys : List Json) (index : ℕ) (previous : List GpuInfo)
      → decoded_gpus print parse node_id (xs ++ ys) index previous
        ≡ decoded_gpus print parse node_id xs index previous
          ++ decoded_gpus print parse node_id ys (place index xs) previous
  unfolding decoded_gpus
  decoded_gpus-append node_id [] ys index previous = refl
  decoded_gpus-append node_id (x ∷ xs) ys index previous =
      ap (λ gs. gpu_from_telemetry print parse node_id x index previous ∷ gs)
        (decoded_gpus-append node_id xs ys (suc index) previous)
