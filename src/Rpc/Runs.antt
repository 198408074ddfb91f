-- ===== src/Rpc/Runs.antt =====
-- Whole runs of the broker (agent_rpc.py).
use constella.Prelude.{
  subst, sym, ℕ, ◌≡◌, refl, Bool, true, false, ◌&&◌, Option, none, some, List, [], ◌∷◌, Text, text,
  text_eq, truthy, get_elem?, inl, inr, Bool-cases, Option-cases, if◌then◌else◌,
}
use constella.Prelude.Dicts.{lookup}
use constella.Rpc.Broker.{
  Call, replaces, holds_connection, resolve_account_lookup, resolve_restart, start, start_on,
  is_true, queue_full, send_next, register, unregister, time_out, finish, fail_pending, set_result,
  resolve_response, open_at, key_of_message,
}
use constella.Rpc.Data.{
  Connection, Message, Future, Broker, is_waiting, agent_unavailable, cancelled, answered,
  pending_of,
}
use constella.Rpc.Events.{
  Event, joins, leaves, asks, sends, replies_lookup, replies_restart, expires, resumes, step, run,
}
use constella.Rpc.Futures.{set_outcome-settle, IsAt, Settles-settle, Settles-fail_pending}
use constella.Rpc.Owned.{IsOwned, IsOwned-register, IsOwned-unregister}
use constella.Rpc.Requests.{IsOwned-start}
use constella.Rpc.Ends.{
  IsFresh, IsOwned-send_next, IsOwned-time_out, IsOwned-finish, IsAt-append_old,
}
use constella.Rpc.Answers.{Judged-IsOwned, resolve-Answers}

abbrev pub IsFreshEvent : Event → Broker → Type 0
IsFreshEvent (joins node c) b = Unit
IsFreshEvent (leaves node c) b = Unit
IsFreshEvent (asks call id) b = IsFresh id b
IsFreshEvent (sends node) b = Unit
IsFreshEvent (replies_lookup m c) b = Unit
IsFreshEvent (replies_restart m c) b = Unit
IsFreshEvent (expires i) b = Unit
IsFreshEvent (resumes i) b = Unit

-- No request takes an id that an earlier one has.
unfoldable pub AreFresh : List Event → Broker → Type 0
AreFresh [] b = Unit
AreFresh (e ∷ events) b = IsFreshEvent e b × AreFresh events (step e b)

IsOwned-step : (e : Event) (b : Broker) → IsFreshEvent e b → IsOwned b → IsOwned (step e b)
unfolding step
IsOwned-step (joins node c) b fresh ok = IsOwned-register node c b ok
IsOwned-step (leaves node c) b fresh ok = IsOwned-unregister node c b ok
IsOwned-step (asks call id) b fresh ok = IsOwned-start call id b fresh ok
IsOwned-step (sends node) b fresh ok = IsOwned-send_next node b ok
IsOwned-step (replies_lookup m c) b fresh ok =
    let judged = resolve-Answers m c b ok in Judged-IsOwned m c b _ (judged.0, judged.1) ok
IsOwned-step (replies_restart m c) b fresh ok =
    let judged = resolve-Answers m c b ok in Judged-IsOwned m c b _ (judged.2, judged.3) ok
IsOwned-step (expires i) b fresh ok = IsOwned-time_out i b ok
IsOwned-step (resumes i) b fresh ok = IsOwned-finish i b ok

-- Over any run in which request ids are not used twice: where every waiting request was sent on the
-- connection that its node has, and its pending key leads to it and to no other, this is so after
-- the run. So no request waits for a connection that was replaced or has ended.
pub run-IsOwned :
    (events : List Event) (b : Broker) → AreFresh events b → IsOwned b → IsOwned (run events b)
unfolding run AreFresh
run-IsOwned [] b fresh ok = ok
run-IsOwned (e ∷ events) b fresh ok =
    run-IsOwned events (step e b) fresh.1 (IsOwned-step e b fresh.0 ok)

if_futures :
    (p : Bool) (b b' : Broker) (i : ℕ) (f : Future)
    → IsAt i f b.futures
    → IsAt i f b'.futures
    → IsAt i f (if p then b' else b).futures
if_futures true b b' i f before after = after
if_futures false b b' i f before after = before

done_failed :
    (node : Text) (b : Broker) (i : ℕ) (f : Future)
    → IsAt i f b.futures
    → is_waiting f.outcome ≡ false
    → IsAt i f (fail_pending node agent_unavailable b.pending b.futures)
done_failed node b i f here done =
    (Settles-fail_pending node agent_unavailable b.pending b.futures).done i f here done

done_register :
    (node : Text) (c : Connection) (b : Broker) (i : ℕ) (f : Future)
    → IsAt i f b.futures
    → is_waiting f.outcome ≡ false
    → IsAt i f (register node c b).futures
unfolding register
done_register node c b i f here done =
    elim (Bool-cases (replaces (lookup node b.connections) c.connection_id)) [
      | inl replaced ↦ simp replaced (done_failed node b i f here done)
      | inr kept ↦ simp kept here
    ]

done_unregister :
    (node : Text) (c : ℕ) (b : Broker) (i : ℕ) (f : Future)
    → IsAt i f b.futures
    → is_waiting f.outcome ≡ false
    → IsAt i f (unregister node c b).futures
unfolding unregister
done_unregister node c b i f here done =
    if_futures (holds_connection (lookup node b.connections) c) b _ i f here
      (done_failed node b i f here done)

done_start :
    (call : Call) (id : Text) (b : Broker) (i : ℕ) (f : Future)
    → IsAt i f b.futures
    → IsAt i f (start call id b).1.futures
unfolding start
done_start call id b i f here = elim (Option-cases (lookup call.node_id b.connections)) [
  | inl missing ↦ simp missing here
  | inr (c, found) ↦ elim (Bool-cases (is_true (lookup call.capability c.capabilities))) [
    | inr unable ↦ simp (found, start_on, unable) here
    | inl able ↦ elim (Bool-cases (queue_full c)) [
      | inl full ↦ simp (found, start_on, able, full) here
      | inr room ↦ simp (found, start_on, able, room) (IsAt-append_old b.futures _ i f here)
    ]
  ]
]

done_send_next :
    (node : Text) (b : Broker) (i : ℕ) (f : Future)
    → IsAt i f b.futures
    → IsAt i f (send_next node b).futures
unfolding send_next
done_send_next node b i f here = elim (Option-cases (lookup node b.connections)) [
  | inl missing ↦ simp missing here
  | inr (c, found) ↦ simp found here
]

done_finish :
    (h : ℕ) (b : Broker) (i : ℕ) (f : Future) → IsAt i f b.futures → IsAt i f (finish h b).futures
unfolding finish
done_finish h b i f here = elim (Option-cases (get_elem? b.futures h)) [
  | inl missing ↦ simp missing here
  | inr (g, there) ↦ elim (Bool-cases (is_waiting g.outcome)) [
    | inl wait ↦ simp (there, wait) here
    | inr done ↦ simp (there, done) here
  ]
]

done_place :
    (o : Option ℕ) (m : Message) (b : Broker) (i : ℕ) (f : Future)
    → IsAt i f b.futures
    → is_waiting f.outcome ≡ false
    → IsAt i f (set_result (open_at o b.futures) m b).1.futures
done_place none m b i f here done = here
done_place (some h) m b i f here done = elim (Option-cases (get_elem? b.futures h)) [
  | inl gone ↦ simp gone here
  | inr (g, there) ↦ elim (Bool-cases (is_waiting g.outcome)) [
    | inr over ↦ simp (there, over) here
    | inl wait ↦
        simp (there, wait)
          (subst (IsAt i f) (sym (set_outcome-settle h (answered m) g b.futures there wait))
            ((Settles-settle h (answered m) b.futures refl).done i f here done))
  ]
]

if_answer :
    (p : Bool) (b : Broker) (x : Bool × Broker) (i : ℕ) (f : Future)
    → IsAt i f b.futures
    → IsAt i f x.1.futures
    → IsAt i f (if p then x else (false, b)).1.futures
if_answer true b x i f before after = after
if_answer false b x i f before after = before

done_response :
    (m : Message) (c : ℕ) (b : Broker) (i : ℕ) (f : Future)
    → IsAt i f b.futures
    → is_waiting f.outcome ≡ false
    → IsAt i f (resolve_response m c b).1.futures
unfolding resolve_response
done_response m c b i f here done =
    let place = open_at (pending_of (key_of_message m) b.pending) b.futures in
    if_answer
      (truthy m.node_id
        && truthy m.request_id
        && holds_connection (lookup m.node_id b.connections) c)
      b (set_result place m b) i f here
      (done_place (pending_of (key_of_message m) b.pending) m b i f here done)

done_step :
    (e : Event) (b : Broker) (i : ℕ) (f : Future)
    → IsAt i f b.futures
    → is_waiting f.outcome ≡ false
    → IsAt i f (step e b).futures
unfolding step resolve_account_lookup resolve_restart time_out
done_step (joins node c) b i f here done = done_register node c b i f here done
done_step (leaves node c) b i f here done = done_unregister node c b i f here done
done_step (asks call id) b i f here done = done_start call id b i f here
done_step (sends node) b i f here done = done_send_next node b i f here
done_step (replies_lookup m c) b i f here done =
    if_answer (text_eq m.type (text "account_lookup_response")) b (resolve_response m c b) i f here
      (done_response m c b i f here done)
done_step (replies_restart m c) b i f here done =
    if_answer (text_eq m.type (text "agent_restart_response")) b (resolve_response m c b) i f here
      (done_response m c b i f here done)
done_step (expires h) b i f here done =
    (Settles-settle h cancelled b.futures refl).done i f here done
done_step (resumes h) b i f here done = done_finish h b i f here

-- A request that has its result, or its error, keeps it: no later answer, no connection that goes and
-- no timeout changes it, in any run.
pub run_done :
    (events : List Event) (b : Broker) (i : ℕ) (f : Future)
    → IsAt i f b.futures
    → is_waiting f.outcome ≡ false
    → IsAt i f (run events b).futures
unfolding run
run_done [] b i f here done = here
run_done (e ∷ events) b i f here done =
    run_done events (step e b) i f (done_step e b i f here done) done
