-- ===== src/Rpc/Events.antt =====
-- What happens to the broker, one event at a time: the agents' connections, the requests and their
-- answers, and the tasks that wait (agent_rpc.py; app.py calls the methods).
use constella.Prelude.{ℕ, List, [], ◌∷◌, Text}
use constella.Rpc.Broker.{
  Call, register, unregister, start, send_next, resolve_account_lookup, resolve_restart, send_next,
  time_out, finish,
}
use constella.Rpc.Data.{Connection, Message, Broker}

pub data Event : Type 0 where
  joins : Text → Connection → Event
  leaves : Text → ℕ → Event
  asks : Call → Text → Event
  sends : Text → Event
  replies_lookup : Message → ℕ → Event
  replies_restart : Message → ℕ → Event
  expires : ℕ → Event
  resumes : ℕ → Event

unfoldable pub step : Event → Broker → Broker
step (joins node c) b = register node c b
step (leaves node c) b = unregister node c b
step (asks call request_id) b = (start call request_id b).1
step (sends node) b = send_next node b
step (replies_lookup m c) b = (resolve_account_lookup m c b).1
step (replies_restart m c) b = (resolve_restart m c b).1
step (expires i) b = time_out i b
step (resumes i) b = finish i b

unfoldable pub run : List Event → Broker → Broker
run [] b = b
run (e ∷ events) b = run events (step e b)
