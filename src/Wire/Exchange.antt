-- ===== src/Wire/Exchange.antt =====
-- The samples of one connection: what the agent leaves out the manager has (agent.py,
-- `SupportedMetricsDelta`, `snapshot_to_agent_payload`; cluster.py, `node_snapshot_from_agent_sample`).
use constella.Prelude.{◌≡◌, Option, none, some, List, [], ◌∷◌, map, Text}
use constella.Telemetry.Rules.{Number, Value}
use constella.Wire.Json.{Json, num}
use constella.Wire.Data.{GpuInfo}
use constella.Wire.Filter.{gpus_from}
use constella.Wire.Tracked.{shown}
use constella.Wire.Delta.{SupportedMetricsDelta, Sent, apply}
use constella.Wire.Delta.{delta_keys}
use constella.Wire.Sources.{payload}
use constella.Wire.Kept.{IsShared}

-- A sample that is rejected leaves the one before.
abbrev pub or_kept : Option (List GpuInfo) → List GpuInfo → List GpuInfo
or_kept none last = last
or_kept (some gs) last = gs

module _ (print : Json → Text) (parse : Text → Option Value) (mp pp : GpuInfo → Json)
    (node_id : Text) where
  -- The samples as the manager decodes them, each with the devices of the one before at hand.
  unfoldable pub decodings :
      List (List GpuInfo) → SupportedMetricsDelta → List GpuInfo → List (Option (List GpuInfo))
  decodings [] delta last = []
  decodings (gs ∷ samples) delta last =
      let (delta', sent) = apply print (payload print parse mp pp gs) delta in
      let got = gpus_from print parse node_id sent last in
      got ∷ decodings samples delta' (or_kept got last)

  abbrev all_received : List GpuInfo → List GpuInfo
  all_received gs = map (shown print parse node_id) gs

  abbrev AllShared :
      ((m n : Number) → print (num m) ≡ print (num n) → m ≡ n) → Sent → List GpuInfo → Type 0
  AllShared print_one d last = (g : GpuInfo) → IsShared print parse mp pp print_one node_id last d g
