-- ===== src/Cluster/Events.antt =====
-- What the agents' connections and the readers do to the cluster state, one event at a time (app.py,
-- `agent_ws`, and the callers of `ClusterState.snapshot`).
use constella.Prelude.{ℕ, Option, List, [], ◌∷◌, Text}
use constella.Cluster.Data.{Hello, Message, Cluster}
use constella.Cluster.State.{
  register_hello, ingest_sample, ingest_heartbeat, reject_sample, disconnect,
}
use constella.Cluster.Views.{snapshot}

pub data Event : Type 0 where
  hello : Hello → ℕ → Option ℕ → Event
  sample : Message → ℕ → Option ℕ → Event
  heartbeat : Text → Option ℕ → ℕ → Option ℕ → Event
  reject : Text → Option ℕ → Event
  leave : Text → Option ℕ → Option ℕ → Event
  look : ℕ → Event

unfoldable pub step : Event → Cluster → Cluster
step (hello h now c) s = register_hello h now c s
step (sample m now c) s = (ingest_sample m now c s).1
step (heartbeat k seq now c) s = ingest_heartbeat k seq now c s
step (reject k c) s = reject_sample k c s
step (leave k now c) s = disconnect k now c s
step (look now) s = (snapshot now s).1

unfoldable pub run : List Event → Cluster → Cluster
run [] s = s
run (e ∷ events) s = run events (step e s)
