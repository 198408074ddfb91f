-- ===== src/Rpc/Data.antt =====
-- What `AgentRpcBroker` (agent_rpc.py) keeps. A future is its place in `futures`, since the task that
-- awaits it keeps it when `_pending` has lost it. A connection id and a queue belong to one
-- connection; the queue holds what has not been sent yet. A message's other fields are texts.
use constella.Prelude.{
  ◌≡◌, refl, all_three, text_eq→eq, text_eq_refl, ℕ, Bool, true, false, ◌&&◌, Option, List, Text,
  text_eq,
}
use constella.Prelude.Keyed.{Keys, find, alter, pop}
use constella.Prelude.Dicts.{Dict}

-- A value of the capabilities that an agent reports.
pub data Capability : Type 0 where
  flag : Bool → Capability
  described : Text → Capability

pub record Request : Type 0 where
  pub type : Text
  pub request_id : Text
  pub node_id : Text
  pub payload : Dict Text

pub record Connection : Type 0 where
  pub connection_id : ℕ
  pub send_queue : List Request
  pub queue_size : ℕ
  pub capabilities : Dict Capability

pub record Key : Type 0 where
  pub node_id : Text
  pub request_id : Text
  pub response_type : Text

pub record Message : Type 0 where
  pub type : Text
  pub node_id : Text
  pub request_id : Text
  pub content : Dict Text

pub data RpcError : Type 0 where
  agent_unavailable agent_capability agent_rpc_timeout : RpcError

pub data Outcome : Type 0 where
  waiting : Outcome
  answered : Message → Outcome
  failed : RpcError → Outcome
  cancelled : Outcome

-- `sent_on` is the connection whose queue took the request. The code does not keep it and no
-- operation reads it.
pub record Future : Type 0 where
  pub key : Key
  pub sent_on : ℕ
  pub outcome : Outcome

pub record Broker : Type 0 where
  pub connections : Dict Connection
  pub pending : List (Key × ℕ)
  pub futures : List Future

abbrev pub key_eq : Key → Key → Bool
key_eq a b =
    text_eq a.node_id b.node_id
    && text_eq a.request_id b.request_id
    && text_eq a.response_type b.response_type

pub key_eq→eq : (a b : Key) → key_eq a b ≡ true → a ≡ b
key_eq→eq a b h =
    let (one, two, three) = all_three (text_eq a.node_id b.node_id) _ _ h in
    rw
      (
        text_eq→eq a.node_id b.node_id one,
        text_eq→eq a.request_id b.request_id two,
        text_eq→eq a.response_type b.response_type three,
      )
      refl

pub key_eq_refl : (k : Key) → key_eq k k ≡ true
key_eq_refl k =
    rw (text_eq_refl k.node_id, text_eq_refl k.request_id, text_eq_refl k.response_type) refl

instance abbrev pub pending_keys : Keys Key
pending_keys = record { same = key_eq; sound = key_eq→eq; reflexive = key_eq_refl }

abbrev pub pending_of : Key → List (Key × ℕ) → Option ℕ
pending_of k p = find k p

abbrev pub put_pending : Key → ℕ → List (Key × ℕ) → List (Key × ℕ)
put_pending k i p = alter k (λ o. i) p

abbrev pub pop_pending : Key → List (Key × ℕ) → List (Key × ℕ)
pop_pending k p = pop k p

-- `not future.done()`
abbrev pub is_waiting : Outcome → Bool
is_waiting waiting = true
is_waiting (answered m) = false
is_waiting (failed e) = false
is_waiting cancelled = false
