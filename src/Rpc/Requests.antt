-- ===== src/Rpc/Requests.antt =====
-- Requests keep to their connections from start to end (agent_rpc.py, `_request`).
use constella.Prelude.{
  true_not_false, ℕ, ◌≡◌, refl, sym, ap, subst, ◌∙◌, true, false, some, [], ◌∷◌, ◌++◌, Text, length,
  inl, inr, Bool-cases, Option-cases, eq_of_some,
}
use constella.Prelude.Dicts.{lookup, insert, lookup-insert_self}
use constella.Rpc.Broker.{
  Call, key_of_call, sent, withdrawn, start, is_true, queue_full, start_on, request_of,
}
use constella.Rpc.Data.{
  key_eq→eq, key_eq_refl, pending_keys, Key, Connection, Future, waiting, Broker, key_eq,
  is_waiting, pending_of, put_pending,
}
use constella.Rpc.Futures.{IsAt}
use constella.Prelude.Keyed.{find-alter_self, find-alter_other, find-pop_other}
use constella.Rpc.Owned.{IsOwned, IsServed, IsOwned-insert, sent_on-connection}
use constella.Rpc.Ends.{
  IsFresh, other_key, put_pop_found, IsAt-append_old, IsAt-append_new, IsAt-append,
}

IsOwned-withdrawn :
    (call : Call) (id : Text) (b : Broker)
    → IsFresh id b
    → IsOwned b
    → IsOwned (withdrawn call id b)
IsOwned-withdrawn call id b fresh ok =
    let k = key_of_call call id in
    record {
      served = (λ i f here wait.
          let (c, at_node, own, key) = ok.served i f here wait in
          let other = other_key call id b i f fresh here in
          (
            c,
            at_node,
            own,
            find-pop_other k f.key _ other
                ∙ find-alter_other k f.key (λ o. length b.futures) b.pending other
                ∙ key,
          ));
      unique = ok.unique;
      named = (λ j i found. ok.named j i (put_pop_found k j i (length b.futures) b.pending found));
    }

-- The new future.
abbrev future_of : Call → Text → Connection → Future
future_of call id c = record {
  key = key_of_call call id;
  sent_on = c.connection_id;
  outcome = waiting;
}

abbrev added : Call → Text → Connection → Broker → Broker
added call id c b = record b {
  pending = put_pending (key_of_call call id) (length b.futures) b.pending;
  futures = b.futures ++ future_of call id c ∷ [];
}

added-IsServed :
    (call : Call) (id : Text) (c : Connection) (b : Broker)
    → IsFresh id b
    → lookup call.node_id b.connections ≡ some c
    → IsOwned b
    → (i : ℕ) (f : Future) → IsAt i f (added call id c b).futures
    → is_waiting f.outcome ≡ true
    → IsServed (added call id c b) i f
added-IsServed call id c b fresh found ok i f here wait =
    elim (IsAt-append b.futures (future_of call id c) i f here) [
      | inl old ↦
          let (d, at_node, own, key) = ok.served i f old wait in
          (
            d,
            at_node,
            own,
            find-alter_other (key_of_call call id) f.key (λ o. length b.futures) b.pending
                  (other_key call id b i f fresh old)
                ∙ key,
          )
      | inr (place, new) ↦ subst (IsServed (added call id c b) i) new (
        c,
        found,
        refl,
        find-alter_self (key_of_call call id) (λ o. length b.futures) b.pending
            ∙ ap (λ h. some h) (sym place),
      )
    ]

new_key :
    (call : Call) (id : Text) (c : Connection) (b : Broker) (i : ℕ) (f g : Future)
    → IsFresh id b
    → IsAt i f b.futures
    → future_of call id c ≡ g
    → g.key ≡ f.key
    → ⊥
new_key call id c b i f g fresh old new same =
    let keys : key_of_call call id ≡ f.key = ap (λ (x : Future). x.key) new ∙ same in
    true_not_false (
      sym (key_eq_refl f.key)
      ∙ subst (λ k. key_eq k f.key ≡ false) keys (other_key call id b i f fresh old))

added_unique :
    (call : Call) (id : Text) (c : Connection) (b : Broker)
    → IsFresh id b
    → IsOwned b
    → (i j : ℕ) (f g : Future) → IsAt i f (added call id c b).futures
    → IsAt j g (added call id c b).futures
    → f.key ≡ g.key
    → i ≡ j
added_unique call id c b fresh ok i j f g here there same =
    elim (IsAt-append b.futures (future_of call id c) i f here) [
      | inl old ↦ elim (IsAt-append b.futures (future_of call id c) j g there) [
        | inl old' ↦ ok.unique i j f g old old' same
        | inr (place, new) ↦ absurd (new_key call id c b i f g fresh old new (sym same))
      ]
      | inr (place, new) ↦ elim (IsAt-append b.futures (future_of call id c) j g there) [
        | inl old' ↦ absurd (new_key call id c b j g f fresh old' new same)
        | inr (place', new') ↦ place ∙ sym place'
      ]
    ]

added-named :
    (call : Call) (id : Text) (c : Connection) (b : Broker)
    → IsOwned b
    → (k : Key) (i : ℕ) → pending_of k (added call id c b).pending ≡ some i
    → (f : Future) × (IsAt i f (added call id c b).futures) × (f.key ≡ k)
added-named call id c b ok k i found = elim (Bool-cases (key_eq (key_of_call call id) k)) [
  | inl same ↦
      let keys = key_eq→eq (key_of_call call id) k same in
      let place : length b.futures ≡ i = eq_of_some (
        sym (
          subst (λ x. pending_of x (added call id c b).pending ≡ some (length b.futures)) keys
            (find-alter_self (key_of_call call id) (λ o. length b.futures) b.pending))
        ∙ found) in
      (
        future_of call id c,
        subst (λ h. IsAt h (future_of call id c) (added call id c b).futures) place
            (IsAt-append_new b.futures (future_of call id c)),
        keys,
      )
  | inr other ↦
      let (f, here, same) = ok.named k i (
        sym (find-alter_other (key_of_call call id) k (λ o. length b.futures) b.pending other)
        ∙ found) in
      (f, IsAt-append_old b.futures (future_of call id c) i f here, same)
]

IsOwned-sent :
    (call : Call) (id : Text) (c : Connection) (b : Broker)
    → IsFresh id b
    → lookup call.node_id b.connections ≡ some c
    → IsOwned b
    → IsOwned (sent call id c b)
IsOwned-sent call id c b fresh found ok =
    let queued = record c { send_queue = c.send_queue ++ request_of call id ∷ [] } in
    let b' = record b { connections = insert call.node_id queued b.connections } in
    let ok' =
      IsOwned-insert call.node_id queued b (sent_on-connection call.node_id c b ok found) ok in
    let found' = lookup-insert_self call.node_id queued b.connections in
    record {
      served = added-IsServed call id queued b' fresh found' ok';
      unique = added_unique call id queued b' fresh ok';
      named = added-named call id queued b' ok';
    }

pub IsOwned-start :
    (call : Call) (id : Text) (b : Broker) → IsFresh id b → IsOwned b → IsOwned (start call id b).1
unfolding start
IsOwned-start call id b fresh ok = elim (Option-cases (lookup call.node_id b.connections)) [
  | inl missing ↦ simp missing ok
  | inr (c, found) ↦ elim (Bool-cases (is_true (lookup call.capability c.capabilities))) [
    | inr unable ↦ simp (found, start_on, unable) ok
    | inl able ↦ elim (Bool-cases (queue_full c)) [
      | inl full ↦ simp (found, start_on, able, full) (IsOwned-withdrawn call id b fresh ok)
      | inr room ↦ simp (found, start_on, able, room) (IsOwned-sent call id c b fresh found ok)
    ]
  ]
]
