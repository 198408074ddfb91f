-- ===== src/Cluster/Tests.antt =====
-- The cluster's theorems at concrete inputs.
use constella.Prelude.{
  max, All, ℕ, ◌+◌, ◌*◌, ◌≤◌, ◌<◌, ◌≡◌, ◌≢◌, refl, Bool, true, false, none, some, Option, List, [],
  ◌∷◌, Text, text, text_eq, arith,
}
use constella.Prelude.Dicts.{lookup, insert}
use constella.Cluster.Data.{Gpu, Hello, Body, Message, Config, Cluster, Runtime}
use constella.Cluster.History.{series_for, update_history}
use constella.Cluster.State.{
  find_node, register_hello, ingest_sample, runtime_after, second, same_connection, accepted,
  refused,
}
use constella.Cluster.Views.{status_of}
use constella.Cluster.Events.{Event, hello, heartbeat, reject, leave, look, run}
use constella.Cluster.Fencing.{other_connection}
use constella.Cluster.Held.{is_other, is_foreign, IsHeld}
use constella.Cluster.Replay.{replay_refused}
use constella.Cluster.Series.{series_of, valid_run, series-recent}
use constella.Cluster.Liveness.{stage, status_of-stages}
use constella.Cluster.Version.{run_unnoticed}

abbrev config : Config
config = record { stale_after = none; offline_after = none; history_size = 2 }

abbrev blank : Cluster
blank = record { config = config; latest_by_node = []; history = []; seq = 0; event = false }

abbrev alpha : Text
alpha = text "alpha"

abbrev greeting : Hello
greeting = record {
  node_id = alpha;
  hostname = text "alpha.example";
  agent_version = some (text "0.9");
  profiles = [];
}

abbrev reading : Bool → ℕ → Gpu
reading valid load = record {
  gpu_id = text "alpha:0";
  valid = valid;
  utilization = load;
  memory_percent = 10;
  power_percent = 20;
  temperature = 40;
}

abbrev body : Body
body = record {
  hostname = none;
  snapshot_seq = 0;
  sampled_at = 1000;
  refresh_interval = second;
  process_interval = 5 * second;
  healthy = true;
  gpus = reading true 50 ∷ [];
  error = none;
}

abbrev message : ℕ → Message
message seq = record { node_id = alpha; seq = some seq; body = some body }

-- alpha says hello on connection 1.
abbrev started : Cluster
started = register_hello greeting second (some 1) blank

abbrev alpha_runtime : Runtime
alpha_runtime = runtime_after none greeting second (some 1)

started-alpha : find_node alpha started ≡ some alpha_runtime
unfolding register_hello lookup insert text_eq
started-alpha = refl

abbrev foreign_events : List Event
foreign_events =
    heartbeat alpha (some 9) 2000 (some 2)
    ∷ look 2500
    ∷ leave alpha (some 3000) (some 2)
    ∷ hello (record greeting { node_id = text "beta" }) 4000 (some 3)
    ∷ []

foreign-is_foreign : All (λ e. is_foreign alpha 1 e ≡ true) foreign_events
unfolding text_eq
foreign-is_foreign = (refl, (refl, (refl, (refl, tt))))

other_connection_example :
    IsHeld alpha 1 alpha_runtime (run foreign_events started)
    × ((m : Message) (now : ℕ) (d : Option ℕ)
        → m.node_id ≡ alpha
        → is_other 1 d ≡ true
        → (ingest_sample m now d (run foreign_events started)).0 ≢ accepted)
other_connection_example =
    other_connection alpha 1 alpha_runtime foreign_events started started-alpha refl
      foreign-is_foreign

accepted_first : (ingest_sample (message 5) 1000 (some 1) started).0 ≡ accepted
unfolding ingest_sample register_hello lookup text_eq insert same_connection
accepted_first = refl

abbrev quiet_events : List Event
quiet_events = heartbeat alpha (some 7) 2000 (some 1) ∷ look 3000 ∷ leave alpha none (some 1) ∷ []

replay_refused_example :
    ingest_sample
      (message 4)
      5000
      (some 1)
      (run quiet_events (ingest_sample (message 5) 1000 (some 1) started).1)
    ≡ (refused, run quiet_events (ingest_sample (message 5) 1000 (some 1) started).1)
replay_refused_example =
    replay_refused (message 5) (message 4) 5 4 1000 5000 (some 1) (some 1) quiet_events started refl
      accepted_first (refl, (refl, (refl, tt))) refl refl (omega arith)

series-recent_example :
    series_for (text "alpha:0") (
      update_history 2 (reading true 5 ∷ reading false 0 ∷ reading true 6 ∷ reading true 7 ∷ []) [])
    ≡ series_of 2 (
        valid_run
          (text "alpha:0")
          []
          (reading true 5 ∷ reading false 0 ∷ reading true 6 ∷ reading true 7 ∷ []))
series-recent_example =
    series-recent 2 (text "alpha:0")
      (reading true 5 ∷ reading false 0 ∷ reading true 6 ∷ reading true 7 ∷ [])

status_of-stages_example :
    (stage (status_of config alpha_runtime 10000000)
      ≤ stage (status_of config alpha_runtime 20000000))
    × (alpha_runtime.connected ≡ false → stage (status_of config alpha_runtime 10000000) ≡ 2)
    × (config.stale_after ≡ none
        → config.offline_after ≡ none
        → alpha_runtime.connected ≡ true
        → (10000000
              ≤ alpha_runtime.last_seen_at
                + max (3 * max alpha_runtime.snapshot.refresh_interval 100000) 5000000
            → stage (status_of config alpha_runtime 10000000) ≡ 0)
          × (alpha_runtime.last_seen_at
                  + max (3 * max alpha_runtime.snapshot.refresh_interval 100000) 5000000
                < 10000000
              → 10000000
                ≤ alpha_runtime.last_seen_at
                  + max (10 * max alpha_runtime.snapshot.refresh_interval 100000) 30000000
              → stage (status_of config alpha_runtime 10000000) ≡ 1)
          × (alpha_runtime.last_seen_at
                  + max (10 * max alpha_runtime.snapshot.refresh_interval 100000) 30000000
                < 10000000
              → stage (status_of config alpha_runtime 10000000) ≡ 2))
status_of-stages_example = status_of-stages config alpha_runtime 10000000 20000000 (omega arith)

run_unnoticed_example :
    (started.seq ≤ (run (hello greeting 7 (some 2) ∷ reject alpha (some 1) ∷ []) started).seq)
    × ((run (hello greeting 7 (some 2) ∷ reject alpha (some 1) ∷ []) started).seq ≡ started.seq
        → run (hello greeting 7 (some 2) ∷ reject alpha (some 1) ∷ []) started ≡ started)
run_unnoticed_example =
    run_unnoticed (hello greeting 7 (some 2) ∷ reject alpha (some 1) ∷ []) started
      (refl, (refl, tt))
