-- ===== src/Cluster/State.antt =====
-- The methods of `ClusterState` (cluster.py). A method that writes `self` returns the new state. The
-- clock's reading is an argument, `now`. A message comes decoded: the JSON decoder is not modelled.
use constella.Prelude.{
  ℕ, ◌+◌, ◌*◌, Bool, true, false, Option, none, some, [], Text, text, text_eq, strip, truthy, leb,
  ◌==◌, max, if◌then◌else◌,
}
use constella.Prelude.Dicts.{lookup, insert}
use constella.Cluster.Data.{online, error, Snapshot, Hello, Runtime, Body, Message, Cluster}
use constella.Cluster.History.{update_history, payload_for_node}

-- `connection_id is None or runtime.connection_id is None or connection_id is runtime.connection_id`
unfoldable pub same_connection : Option ℕ → Option ℕ → Bool
same_connection held none = true
same_connection none (some c) = true
same_connection (some d) (some c) = c == d

abbrev pub connection_matches : Runtime → Option ℕ → Bool
connection_matches r connection = same_connection r.connection_id connection

abbrev pub bump : Cluster → Cluster
bump s = record s { seq = s.seq + 1; event = true }

-- `if runtime is None: return`
abbrev pub with_known : Option Runtime → Cluster → (Runtime → Cluster) → Cluster
with_known none s f = s
with_known (some r) s f = f r

-- `if not self._connection_matches(runtime, connection_id): return`
abbrev pub if_matching : Runtime → Option ℕ → Cluster → Cluster → Cluster
if_matching r connection s s' = if connection_matches r connection then s' else s

abbrev pub find_node : Text → Cluster → Option Runtime
find_node k s = lookup k s.latest_by_node

-- `a or b`
abbrev pub or_else : Option Text → Option Text → Option Text
or_else none o = o
or_else (some t) o = if truthy t then some t else o

abbrev pub second : ℕ
second = 1000 * 1000

abbrev pub first_runtime : Hello → ℕ → Option ℕ → Runtime
first_runtime hello now connection = record {
  node_id = hello.node_id;
  hostname = hello.hostname;
  snapshot = record {
    node_id = hello.node_id;
    hostname = hello.hostname;
    seq = 0;
    sampled_at = now;
    received_at = now;
    refresh_interval = second;
    process_interval = 5 * second;
    status = online;
    gpus = [];
    error = none;
    agent_version = hello.agent_version;
    profiles = hello.profiles;
    history = [];
  };
  last_seq = 0;
  connected = true;
  last_seen_at = now;
  agent_version = hello.agent_version;
  connection_id = connection;
  profiles = hello.profiles;
}

abbrev pub greeted : Hello → ℕ → Option ℕ → Runtime → Runtime
greeted hello now connection r =
    let version = or_else hello.agent_version r.agent_version in
    record r {
      hostname = hello.hostname;
      connected = true;
      last_seen_at = now;
      last_seq = 0;
      connection_id = connection;
      agent_version = version;
      profiles = hello.profiles;
      snapshot = record (r.snapshot) {
        hostname = hello.hostname;
        agent_version = version;
        profiles = hello.profiles;
      };
    }

abbrev pub update_node : Text → Runtime → Cluster → Cluster
update_node k r s = record s { latest_by_node = insert k r s.latest_by_node }

abbrev pub runtime_after : Option Runtime → Hello → ℕ → Option ℕ → Runtime
runtime_after none hello now connection = first_runtime hello now connection
runtime_after (some r) hello now connection = greeted hello now connection r

unfoldable pub register_hello : Hello → ℕ → Option ℕ → Cluster → Cluster
register_hello hello now connection s =
    bump
      (update_node hello.node_id (runtime_after (find_node hello.node_id s) hello now connection) s)

abbrev or_text : Option Text → Text → Text
or_text none u = u
or_text (some t) u = if truthy t then t else u

abbrev or_count : ℕ → ℕ → ℕ
or_count a b = if a == 0 then b else a

-- `node_snapshot_from_agent_sample`, of a decoded sample; `known` is the runtime that is there. The
-- snapshot has the id without the spaces around it, the table has it as the message gives it.
unfoldable pub snapshot_of : Text → ℕ → Body → ℕ → Option Runtime → Snapshot
snapshot_of node_id seq b now known = record {
  node_id = strip node_id;
  hostname =
      or_text b.hostname
        (or_text (elim known [ none ↦ none | some r ↦ some r.hostname ]) (strip node_id));
  seq = or_count seq b.snapshot_seq;
  sampled_at = b.sampled_at;
  received_at = now;
  refresh_interval = b.refresh_interval;
  process_interval = b.process_interval;
  status = if b.healthy then online else error;
  gpus = b.gpus;
  error = b.error;
  agent_version = elim known [ none ↦ none | some r ↦ r.agent_version ];
  profiles = elim known [ none ↦ [] | some r ↦ r.profiles ];
  history = [];
}

pub data Reply : Type 0 where
  accepted refused invalid : Reply

abbrev pub sampled_runtime : Text → Snapshot → ℕ → ℕ → Option ℕ → Runtime
sampled_runtime node_id snapshot seq now connection = record {
  node_id = node_id;
  hostname = snapshot.hostname;
  snapshot = snapshot;
  last_seq = seq;
  connected = true;
  last_seen_at = now;
  agent_version = snapshot.agent_version;
  connection_id = connection;
  profiles = snapshot.profiles;
}

-- The end of `ingest_sample`, for a sample that is neither fenced off nor old.
unfoldable pub store_sample : Text → ℕ → Body → ℕ → Option ℕ → Cluster → Cluster
unfolding snapshot_of
store_sample node_id seq b now connection s =
    let history = update_history s.config.history_size b.gpus s.history in
    let snapshot = record (snapshot_of node_id seq b now (find_node node_id s)) {
      history = payload_for_node b.gpus history;
    } in
    bump (
      update_node node_id (sampled_runtime node_id snapshot seq now connection)
        (record s { history = history }))

-- Whether a known runtime turns the sample away: another connection, or a sequence number that is
-- not new.
abbrev pub turns_away : Option Runtime → ℕ → Option ℕ → Bool
turns_away none seq connection = false
turns_away (some r) seq connection =
    if connection_matches r connection then leb seq r.last_seq else true

abbrev pub ingest_body : Text → ℕ → Option Body → ℕ → Option ℕ → Cluster → Reply × Cluster
ingest_body k seq none now connection s = (invalid, s)
ingest_body k seq (some b) now connection s = (accepted, store_sample k seq b now connection s)

abbrev pub ingest_counted :
    Text → Option ℕ → Option Body → Option Runtime → ℕ → Option ℕ → Cluster → Reply × Cluster
ingest_counted k none body known now connection s = (invalid, s)
ingest_counted k (some seq) body known now connection s =
    if turns_away known seq connection
    then (refused, s)
    else ingest_body k seq body now connection s

-- `ingest_sample`: `accepted` is True, `refused` is False, `invalid` is ValueError.
unfoldable pub ingest_sample : Message → ℕ → Option ℕ → Cluster → Reply × Cluster
ingest_sample m now connection s =
    if truthy m.node_id
    then ingest_counted m.node_id m.seq m.body (find_node m.node_id s) now connection s
    else (invalid, s)

abbrev pub beat : Option ℕ → ℕ → Runtime → Runtime
beat seq now r = record r {
  connected = true;
  last_seen_at = now;
  last_seq = elim seq [ none ↦ r.last_seq | some n ↦ max r.last_seq n ];
}

-- `hello` of a node that only sends heartbeats.
abbrev pub bare_hello : Text → Hello
bare_hello node_id = record {
  node_id = node_id;
  hostname = node_id;
  agent_version = none;
  profiles = [];
}

abbrev pub beat_known : Text → Option ℕ → ℕ → Option ℕ → Cluster → Cluster
beat_known k seq now connection s =
    with_known (find_node k s) s
      (λ r. if_matching r connection s (bump (update_node k (beat seq now r) s)))

-- A node that is not known yet is registered first.
abbrev pub greeted_first : Option Runtime → Text → ℕ → Option ℕ → Cluster → Cluster
greeted_first none k now connection s = register_hello (bare_hello k) now connection s
greeted_first (some r) k now connection s = s

unfoldable pub ingest_heartbeat : Text → Option ℕ → ℕ → Option ℕ → Cluster → Cluster
ingest_heartbeat k seq now connection s =
    beat_known k seq now connection (greeted_first (find_node k s) k now connection s)

abbrev sample_error : Text
sample_error = text "Invalid sample metadata; showing last valid readings"

abbrev pub has_sample_error : Runtime → Bool
has_sample_error r = elim r.snapshot.error [ none ↦ false | some t ↦ text_eq t sample_error ]

abbrev pub with_error : Runtime → Runtime
with_error r = record r { snapshot = record (r.snapshot) { error = some sample_error } }

unfoldable pub reject_sample : Text → Option ℕ → Cluster → Cluster
reject_sample k connection s = with_known (find_node k s) s (λ r.
    if_matching r connection s
      (if has_sample_error r then s else bump (update_node k (with_error r) s)))

abbrev pub parted : Option ℕ → Runtime → Runtime
parted now r = record r {
  connected = false;
  last_seen_at = elim now [ none ↦ r.last_seen_at | some t ↦ t ];
}

-- `now` is `none` where the caller gives no time, and the node keeps its last one.
unfoldable pub disconnect : Text → Option ℕ → Option ℕ → Cluster → Cluster
disconnect k now connection s =
    with_known (find_node k s) s
      (λ r. if_matching r connection s (bump (update_node k (parted now r) s)))
