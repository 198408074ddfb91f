-- ===== src/Rpc/Broker.antt =====
-- The methods of `AgentRpcBroker` (agent_rpc.py).
-- Acknowledgements that app.py puts in the same queue are not modelled.
use constella.Prelude.{
  ℕ, zero, suc, Bool, true, false, not, ◌&&◌, Option, none, some, List, [], ◌∷◌, ◌++◌, Text, text,
  text_eq, truthy, leb, ◌==◌, length, get_elem?, drop, if◌then◌else◌,
}
use constella.Prelude.Dicts.{Dict, lookup, insert, erase}
use constella.Rpc.Data.{
  Capability, flag, described, Request, Connection, Key, Message, RpcError, agent_unavailable,
  agent_capability, Outcome, waiting, answered, failed, cancelled, Future, Broker, pending_of,
  put_pending, pop_pending, is_waiting,
}

-- `set_result`: the outcome is written, whatever was there.
unfoldable pub set_outcome : ℕ → Outcome → List Future → List Future
set_outcome i o [] = []
set_outcome zero o (f ∷ fs) = record f { outcome = o } ∷ fs
set_outcome (suc i) o (f ∷ fs) = f ∷ set_outcome i o fs

-- `if not future.done(): future.set_exception(…)`
unfoldable pub settle : ℕ → Outcome → List Future → List Future
settle i o [] = []
settle zero o (f ∷ fs) = (if is_waiting f.outcome then record f { outcome = o } else f) ∷ fs
settle (suc i) o (f ∷ fs) = f ∷ settle i o fs

-- `_fail_pending`
unfoldable pub fail_pending : Text → RpcError → List (Key × ℕ) → List Future → List Future
fail_pending node e [] fs = fs
fail_pending node e ((k, i) ∷ p) fs =
    fail_pending node e p (if text_eq k.node_id node then settle i (failed e) fs else fs)

abbrev pub replaces : Option Connection → ℕ → Bool
replaces none c = false
replaces (some previous) c = not (previous.connection_id == c)

-- The queue that `register` is given is new.
unfoldable pub register : Text → Connection → Broker → Broker
register node c b = record b {
  futures =
      if replaces (lookup node b.connections) c.connection_id
      then fail_pending node agent_unavailable b.pending b.futures
      else b.futures;
  connections = insert node c b.connections;
}

abbrev pub holds_connection : Option Connection → ℕ → Bool
holds_connection none c = false
holds_connection (some connection) c = connection.connection_id == c

unfoldable pub unregister : Text → ℕ → Broker → Broker
unregister node c b =
    if holds_connection (lookup node b.connections) c
    then record b {
      connections = erase node b.connections;
      futures = fail_pending node agent_unavailable b.pending b.futures;
    }
    else b

-- `connection.capabilities.get(capability) is True`
abbrev pub is_true : Option Capability → Bool
is_true none = false
is_true (some (flag b)) = b
is_true (some (described t)) = false

-- `asyncio.Queue.full`: a size of zero is no bound.
abbrev pub queue_full : Connection → Bool
queue_full c = not (c.queue_size == 0) && leb c.queue_size (length c.send_queue)

pub record Call : Type 0 where
  pub node_id : Text
  pub capability : Text
  pub request_type : Text
  pub response_type : Text
  pub payload : Dict Text

abbrev pub key_of_call : Call → Text → Key
key_of_call call request_id = record {
  node_id = call.node_id;
  request_id = request_id;
  response_type = call.response_type;
}

abbrev pub request_of : Call → Text → Request
request_of call request_id = record {
  type = call.request_type;
  request_id = request_id;
  node_id = call.node_id;
  payload = call.payload;
}

-- `put_nowait`, and the future that the task then awaits.
abbrev pub sent : Call → Text → Connection → Broker → Broker
sent call request_id c b =
    let key = key_of_call call request_id in
    record b {
      connections =
          insert call.node_id
            (record c { send_queue = c.send_queue ++ request_of call request_id ∷ [] })
            b.connections;
      pending = put_pending key (length b.futures) b.pending;
      futures =
          b.futures ++ (record { key = key; sent_on = c.connection_id; outcome = waiting } ∷ []);
    }

-- `QueueFull`: the key is taken out of `_pending` again, and nothing refers to the future.
abbrev pub withdrawn : Call → Text → Broker → Broker
withdrawn call request_id b =
    let key = key_of_call call request_id in
    record b { pending = pop_pending key (put_pending key (length b.futures) b.pending) }

-- What `_request` raises before it waits, if it does.
pub data Started : Type 0 where
  awaits : ℕ → Started
  refuses : RpcError → Started

abbrev pub start_on : Call → Text → Option Connection → Broker → Started × Broker
start_on call request_id none b = (refuses agent_unavailable, b)
start_on call request_id (some c) b =
    if not (is_true (lookup call.capability c.capabilities))
    then (refuses agent_capability, b)
    else if queue_full c
    then (refuses agent_unavailable, withdrawn call request_id b)
    else (awaits (length b.futures), sent call request_id c b)

-- `_request` up to its `await`; `uuid.uuid4().hex` is an argument.
unfoldable pub start : Call → Text → Broker → Started × Broker
start call request_id b = start_on call request_id (lookup call.node_id b.connections) b

-- app.py takes the next request from the queue to send it.
abbrev pub drained : Text → Option Connection → Broker → Broker
drained node none b = b
drained node (some c) b = record b {
  connections = insert node (record c { send_queue = drop 1 c.send_queue }) b.connections;
}

unfoldable pub send_next : Text → Broker → Broker
send_next node b = drained node (lookup node b.connections) b

abbrev pub account_lookup : Text → Text → Call
account_lookup node username = record {
  node_id = node;
  capability = text "account_lookup_v1";
  request_type = text "account_lookup_request";
  response_type = text "account_lookup_response";
  payload = (text "username", username) ∷ [];
}

abbrev pub restart : Text → Call
restart node = record {
  node_id = node;
  capability = text "agent_restart_v1";
  request_type = text "agent_restart_request";
  response_type = text "agent_restart_response";
  payload = [];
}

abbrev pub key_of_message : Message → Key
key_of_message m = record { node_id = m.node_id; request_id = m.request_id; response_type = m.type }

abbrev pub if_open : ℕ → Option Future → Option ℕ
if_open i none = none
if_open i (some f) = if is_waiting f.outcome then some i else none

-- `future is None or future.done()`
abbrev pub open_at : Option ℕ → List Future → Option ℕ
open_at none fs = none
open_at (some i) fs = if_open i (get_elem? fs i)

abbrev pub set_result : Option ℕ → Message → Broker → Bool × Broker
set_result none m b = (false, b)
set_result (some i) m b = (true, record b { futures = set_outcome i (answered m) b.futures })

-- `_resolve_response`
unfoldable pub resolve_response : Message → ℕ → Broker → Bool × Broker
resolve_response m c b =
    if truthy m.node_id
      && truthy m.request_id
      && holds_connection (lookup m.node_id b.connections) c
    then set_result (open_at (pending_of (key_of_message m) b.pending) b.futures) m b
    else (false, b)

unfoldable pub resolve_account_lookup : Message → ℕ → Broker → Bool × Broker
resolve_account_lookup m c b =
    if text_eq m.type (text "account_lookup_response") then resolve_response m c b else (false, b)

unfoldable pub resolve_restart : Message → ℕ → Broker → Bool × Broker
resolve_restart m c b =
    if text_eq m.type (text "agent_restart_response") then resolve_response m c b else (false, b)

-- `asyncio.wait_for`, when the time is up: the future is cancelled.
unfoldable pub time_out : ℕ → Broker → Broker
time_out i b = record b { futures = settle i cancelled b.futures }

-- The awaiting task goes on once its future is done: `finally` takes the key out.
abbrev pub finish_with : Option Future → Broker → Broker
finish_with none b = b
finish_with (some f) b =
    if is_waiting f.outcome then b else record b { pending = pop_pending f.key b.pending }

unfoldable pub finish : ℕ → Broker → Broker
finish i b = finish_with (get_elem? b.futures i) b
