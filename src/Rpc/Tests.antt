-- ===== src/Rpc/Tests.antt =====
-- The broker's theorems at concrete inputs.
use constella.Prelude.{ℕ, ◌≡◌, refl, true, false, List, [], ◌∷◌, Text, text, text_eq}
use constella.Prelude.Dicts.{lookup, insert}
use constella.Prelude.Keyed.{find, alter}
use constella.Rpc.Broker.{
  account_lookup, register, start, resolve_account_lookup, resolve_restart, settle, fail_pending,
}
use constella.Rpc.Data.{
  pending_keys, flag, Connection, Message, Broker, Future, failed, agent_unavailable,
}
use constella.Rpc.Events.{Event, joins, asks, replies_lookup, expires, resumes, step, run}
use constella.Rpc.Futures.{IsAt}
use constella.Rpc.Owned.{IsOwned}
use constella.Rpc.Answers.{Answers, resolve-Answers}
use constella.Rpc.Runs.{AreFresh, run-IsOwned, run_done}

abbrev nothing : Broker
nothing = record { connections = []; pending = []; futures = [] }

nothing-IsOwned : IsOwned nothing
unfolding find
nothing-IsOwned = record {
  served = (λ i f here wait. cc);
  unique = (λ i j f g here there same. cc);
  named = (λ k i found. cc);
}

abbrev alpha : Text
alpha = text "alpha"

abbrev link : ℕ → Connection
link id = record {
  connection_id = id;
  send_queue = [];
  queue_size = 8;
  capabilities = (text "account_lookup_v1", flag true) ∷ [];
}

abbrev events : List Event
events = joins alpha (link 1) ∷ asks (account_lookup alpha (text "ann")) (text "r1") ∷ []

events-AreFresh : AreFresh events nothing
unfolding AreFresh step register lookup insert text_eq
events-AreFresh = (tt, (refl, tt))

run-IsOwned_example : IsOwned (run events nothing)
run-IsOwned_example = run-IsOwned events nothing events-AreFresh nothing-IsOwned

asked-IsOwned : IsOwned (run events nothing)
asked-IsOwned = run-IsOwned events nothing events-AreFresh nothing-IsOwned

abbrev answer : Message
answer = record {
  type = text "account_lookup_response";
  node_id = alpha;
  request_id = text "r1";
  content = (text "uid", text "1000") ∷ [];
}

resolve-Answers_example :
    ((resolve_account_lookup answer 1 (run events nothing)).0 ≡ true
      → Answers answer 1
          (run events nothing)
          (resolve_account_lookup answer 1 (run events nothing)).1)
    × ((resolve_account_lookup answer 1 (run events nothing)).0 ≡ false
        → (resolve_account_lookup answer 1 (run events nothing)).1 ≡ run events nothing)
    × ((resolve_restart answer 1 (run events nothing)).0 ≡ true
        → Answers answer 1 (run events nothing) (resolve_restart answer 1 (run events nothing)).1)
    × ((resolve_restart answer 1 (run events nothing)).0 ≡ false
        → (resolve_restart answer 1 (run events nothing)).1 ≡ run events nothing)
resolve-Answers_example = resolve-Answers answer 1 (run events nothing) asked-IsOwned

-- The agent goes before it answers.
abbrev gone : Broker
gone = run (joins alpha (link 2) ∷ []) (run events nothing)

abbrev lost : Future
lost = record {
  key = record {
    node_id = alpha;
    request_id = text "r1";
    response_type = text "account_lookup_response";
  };
  sent_on = 1;
  outcome = failed agent_unavailable;
}

lost_here : IsAt 0 lost gone.futures
unfolding run step register start lookup insert text_eq alter fail_pending settle
lost_here = refl

run_done_example :
    IsAt 0 lost (run (replies_lookup answer 2 ∷ expires 0 ∷ resumes 0 ∷ []) gone).futures
run_done_example =
    run_done (replies_lookup answer 2 ∷ expires 0 ∷ resumes 0 ∷ []) gone 0 lost lost_here refl
