-- ===== src/Rpc/Owned.antt =====
-- Which connection a waiting request belongs to (agent_rpc.py).
use constella.Prelude.{
  true_not_false, ℕ, ◌≡◌, refl, sym, ap, subst, ◌∙◌, true, false, some, List, Text, text_eq,
  text_eq→eq, text_eq-sym, arith, inl, inr, Bool-cases, eq_of_some,
}
use constella.Prelude.Dicts.{lookup, insert, erase, lookup-insert, lookup-erase}
use constella.Rpc.Broker.{fail_pending, replaces, holds_connection, register, unregister}
use constella.Rpc.Data.{
  Key, Connection, Future, Broker, RpcError, agent_unavailable, is_waiting, pending_of,
}
use constella.Rpc.Futures.{IsAt, Settles, Settles-fail_pending, fail_pending-fails}

-- The node's present connection is the one the request went out on, and its key leads to it.
abbrev pub IsServed : Broker → ℕ → Future → Type 0
IsServed b i f =
    (c : Connection) × (lookup f.key.node_id b.connections ≡ some c)
    × (c.connection_id ≡ f.sent_on)
    × (pending_of f.key b.pending ≡ some i)

pub record IsOwned (b : Broker) : Type 0 where
  pub served :
      (i : ℕ) (f : Future) → IsAt i f b.futures → is_waiting f.outcome ≡ true → IsServed b i f
  pub unique :
      (i j : ℕ) (f g : Future) → IsAt i f b.futures → IsAt j g b.futures → f.key ≡ g.key → i ≡ j
  pub named :
      (k : Key) (i : ℕ)
      → pending_of k b.pending ≡ some i
      → (f : Future) × (IsAt i f b.futures) × (f.key ≡ k)

pub IsOwned-Settles :
    (b : Broker) (fs : List Future)
    → Settles b.futures fs
    → IsOwned b
    → IsOwned (record b { futures = fs })
IsOwned-Settles b fs step ok = record {
  served = (λ i f here wait. ok.served i f (step.still_open i f here wait) wait);
  unique = (λ i j f g here there same.
      let (f', here', e) = step.known i f here in
      let (g', there', e') = step.known j g there in
      ok.unique i j f' g' here' there' (e ∙ same ∙ sym e'));
  named = (λ k i found.
      let (f, here, e) = ok.named k i found in
      let (g, there, e') = step.kept i f here in (g, there, e' ∙ e));
}

-- Writing a connection keeps the requests that wait when they are of its id.
pub IsOwned-insert :
    (node : Text) (c : Connection) (b : Broker)
    → ((i : ℕ) (f : Future)
        → IsAt i f b.futures
        → is_waiting f.outcome ≡ true
        → text_eq node f.key.node_id ≡ true
        → c.connection_id ≡ f.sent_on)
    → IsOwned b
    → IsOwned (record b { connections = insert node c b.connections })
IsOwned-insert node c b theirs ok = record {
  served = (λ i f here wait.
      let (d, at_node, own, key) = ok.served i f here wait in
      elim (Bool-cases (text_eq node f.key.node_id)) [
        | inl same ↦ (
          c,
          rw (lookup-insert node f.key.node_id c b.connections, same) refl,
          theirs i f here wait same,
          key,
        )
        | inr other ↦
            (d, rw (lookup-insert node f.key.node_id c b.connections, other) at_node, own, key)
      ]);
  unique = ok.unique;
  named = ok.named;
}

-- A waiting request of a node with this connection was sent on it.
pub sent_on-connection :
    (node : Text) (c : Connection) (b : Broker)
    → IsOwned b
    → lookup node b.connections ≡ some c
    → (i : ℕ) (f : Future) → IsAt i f b.futures
    → is_waiting f.outcome ≡ true
    → text_eq node f.key.node_id ≡ true
    → c.connection_id ≡ f.sent_on
sent_on-connection node c b ok found i f here wait same =
    let (d, at_node, own, key) = ok.served i f here wait in
    let c_is : c ≡ d = eq_of_some (sym found ∙ rw (text_eq→eq node f.key.node_id same) at_node) in
    ap (λ (x : Connection). x.connection_id) c_is ∙ own

nobody_waits :
    (node : Text) (e : RpcError) (b : Broker)
    → IsOwned b
    → (i : ℕ) (f : Future) → IsAt i f (fail_pending node e b.pending b.futures)
    → is_waiting f.outcome ≡ true
    → text_eq node f.key.node_id ≡ true
    → ⊥
nobody_waits node e b ok i f here wait same =
    let before = (Settles-fail_pending node e b.pending b.futures).still_open i f here wait in
    let (d, at_node, own, key) = ok.served i f before wait in
    let gone =
      fail_pending-fails node e b.pending b.futures f.key i f key
        (text_eq-sym f.key.node_id node ∙ same) here in
    true_not_false (sym wait ∙ gone)

IsOwned-erase :
    (node : Text) (b : Broker)
    → ((i : ℕ) (f : Future)
        → IsAt i f b.futures
        → is_waiting f.outcome ≡ true
        → text_eq node f.key.node_id ≡ true
        → ⊥)
    → IsOwned b
    → IsOwned (record b { connections = erase node b.connections })
IsOwned-erase node b nobody ok = record {
  served = (λ i f here wait.
      let (d, at_node, own, key) = ok.served i f here wait in
      elim (Bool-cases (text_eq node f.key.node_id)) [
        | inl same ↦ absurd (nobody i f here wait same)
        | inr other ↦
            (d, rw (lookup-erase node f.key.node_id b.connections, other) at_node, own, key)
      ]);
  unique = ok.unique;
  named = ok.named;
}

not_replaced : (d : Connection) (c : ℕ) → replaces (some d) c ≡ false → d.connection_id ≡ c
not_replaced d c h = ground arith

kept_id :
    (node : Text) (c : Connection) (b : Broker)
    → IsOwned b
    → replaces (lookup node b.connections) c.connection_id ≡ false
    → (i : ℕ) (f : Future) → IsAt i f b.futures
    → is_waiting f.outcome ≡ true
    → text_eq node f.key.node_id ≡ true
    → c.connection_id ≡ f.sent_on
kept_id node c b ok kept i f here wait same =
    let (d, at_node, own, key) = ok.served i f here wait in
    let found : lookup node b.connections ≡ some d =
      rw (text_eq→eq node f.key.node_id same) at_node in
    sym
      (not_replaced d c.connection_id (subst (λ o. replaces o c.connection_id ≡ false) found kept))
    ∙ own

pub IsOwned-register :
    (node : Text) (c : Connection) (b : Broker) → IsOwned b → IsOwned (register node c b)
unfolding register
IsOwned-register node c b ok =
    elim (Bool-cases (replaces (lookup node b.connections) c.connection_id)) [
      | inl replaced ↦ simp replaced (
          IsOwned-insert node c
            (record b { futures = fail_pending node agent_unavailable b.pending b.futures })
            (λ i f here wait same.
              absurd (nobody_waits node agent_unavailable b ok i f here wait same))
            (IsOwned-Settles b _ (Settles-fail_pending node agent_unavailable b.pending b.futures)
              ok))
      | inr kept ↦ simp kept (
          IsOwned-insert node c b
            (λ i f here wait same. kept_id node c b ok kept i f here wait same) ok)
    ]

pub IsOwned-unregister :
    (node : Text) (c : ℕ) (b : Broker) → IsOwned b → IsOwned (unregister node c b)
unfolding unregister
IsOwned-unregister node c b ok =
    elim (Bool-cases (holds_connection (lookup node b.connections) c)) [
      | inl own ↦ simp own (
          IsOwned-erase node _
            (λ i f here wait same. nobody_waits node agent_unavailable b ok i f here wait same)
            (IsOwned-Settles b _ (Settles-fail_pending node agent_unavailable b.pending b.futures)
              ok))
      | inr other ↦ simp other ok
    ]
