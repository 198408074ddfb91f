-- ===== src/Cluster/Data.antt =====
-- The state of `ClusterState` and what it receives (cluster.py: AgentHello, NodeRuntime,
-- HistoryAccumulator, ClusterState; schema.py: the parts of NodeSnapshot and GpuInfo that the state
-- reads). Times and intervals are whole microseconds; readings are whole numbers of their units.
-- A connection is the identity of the object that app.py makes for it.
use constella.Prelude.{ℕ, Bool, Option, List, Text}
use constella.Prelude.Dicts.{Dict}

pub data Status : Type 0 where
  online stale offline error : Status

-- A reading of one device: `valid` is `basic_metrics_valid`.
pub record Gpu : Type 0 where
  pub gpu_id : Text
  pub valid : Bool
  pub utilization : ℕ
  pub memory_percent : ℕ
  pub power_percent : ℕ
  pub temperature : ℕ

-- The four series of a device, oldest first.
pub record Series : Type 0 where
  pub gpu : List ℕ
  pub memory : List ℕ
  pub power : List ℕ
  pub temperature : List ℕ

pub record Snapshot : Type 0 where
  pub node_id : Text
  pub hostname : Text
  pub seq : ℕ
  pub sampled_at : ℕ
  pub received_at : ℕ
  pub refresh_interval : ℕ
  pub process_interval : ℕ
  pub status : Status
  pub gpus : List Gpu
  pub error : Option Text
  pub agent_version : Option Text
  pub profiles : List Text
  pub history : Dict Series

pub record Hello : Type 0 where
  pub node_id : Text
  pub hostname : Text
  pub agent_version : Option Text
  pub profiles : List Text

pub record Runtime : Type 0 where
  pub node_id : Text
  pub hostname : Text
  pub snapshot : Snapshot
  pub last_seq : ℕ
  pub connected : Bool
  pub last_seen_at : ℕ
  pub agent_version : Option Text
  pub connection_id : Option ℕ
  pub profiles : List Text

-- A decoded sample: what `node_snapshot_from_agent_sample` takes from a message that it accepts.
pub record Body : Type 0 where
  pub hostname : Option Text
  pub snapshot_seq : ℕ
  pub sampled_at : ℕ
  pub refresh_interval : ℕ
  pub process_interval : ℕ
  pub healthy : Bool
  pub gpus : List Gpu
  pub error : Option Text

-- `seq` is `none` where `COUNT` refuses it, `body` where the decoder raises.
pub record Message : Type 0 where
  pub node_id : Text
  pub seq : Option ℕ
  pub body : Option Body

pub record Config : Type 0 where
  pub stale_after : Option ℕ
  pub offline_after : Option ℕ
  pub history_size : ℕ

pub record Cluster : Type 0 where
  pub config : Config
  pub latest_by_node : Dict Runtime
  pub history : Dict Series
  pub seq : ℕ
  pub event : Bool
