-- ===== src/Rpc/Answers.antt =====
-- Answers to requests, and whole runs of the broker (agent_rpc.py, `_resolve_response`).
use constella.Prelude.{
  all_three, true_not_false, ℕ, ◌≡◌, refl, sym, ap, subst, ◌∙◌, Bool, true, false, ◌&&◌, some, Text,
  text, text_eq, truthy, get_elem?, arith, inl, inr, Bool-cases, Option-cases, eq_of_some,
  if◌then◌else◌,
}
use constella.Prelude.Dicts.{lookup}
use constella.Rpc.Broker.{
  settle, set_outcome, holds_connection, open_at, set_result, key_of_message, resolve_response,
  resolve_account_lookup, resolve_restart,
}
use constella.Rpc.Data.{Connection, Message, Future, answered, Broker, is_waiting, pending_of}
use constella.Rpc.Futures.{set_outcome-settle, IsAt, Settles-settle}
use constella.Rpc.Owned.{IsOwned, IsOwned-Settles}

-- What an accepted answer does: it settles the waiting request that it names, which was sent on the
-- connection that the answer came from, and changes nothing else.
abbrev pub Answers : Message → ℕ → Broker → Broker → Type 0
Answers m c b b' =
    (i : ℕ) × (f : Future) × IsAt i f b.futures
    × (is_waiting f.outcome ≡ true)
    × (f.key ≡ key_of_message m)
    × (f.sent_on ≡ c)
    × (b' ≡ record b { futures = settle i (answered m) b.futures })

holds_id :
    (node : Text) (c : ℕ) (b : Broker) (d : Connection)
    → holds_connection (lookup node b.connections) c ≡ true
    → lookup node b.connections ≡ some d
    → d.connection_id ≡ c
holds_id node c b d h found =
    let it : holds_connection (some d) c ≡ true = rw found at h in ground arith

-- An answer to a request of the present connection.
found_answer :
    (m : Message) (c i : ℕ) (f : Future) (b : Broker)
    → IsOwned b
    → holds_connection (lookup m.node_id b.connections) c ≡ true
    → pending_of (key_of_message m) b.pending ≡ some i
    → IsAt i f b.futures
    → is_waiting f.outcome ≡ true
    → Answers m c b (record b { futures = set_outcome i (answered m) b.futures })
found_answer m c i f b ok held found here wait =
    let (g, there, key) = ok.named (key_of_message m) i found in
    let it : g ≡ f = eq_of_some (sym there ∙ here) in
    let keys : f.key ≡ key_of_message m = ap (λ (x : Future). x.key) (sym it) ∙ key in
    let (d, at_node, own, place) = ok.served i f here wait in
    let node : f.key.node_id ≡ m.node_id = ap (λ k. k.node_id) keys in
    (
      i,
      f,
      here,
      wait,
      keys,
      sym own ∙ holds_id m.node_id c b d held (rw (sym node) at_node),
      ap (λ fs. record b { futures = fs })
          (set_outcome-settle i (answered m) f b.futures here wait),
    )

abbrev pub Judged : Message → ℕ → Broker → Bool × Broker → Type 0
Judged m c b x = (x.0 ≡ true → Answers m c b x.1) × (x.0 ≡ false → x.1 ≡ b)

untaken : (m : Message) (c : ℕ) (b : Broker) → Judged m c b (false, b)
untaken m c b = ((λ bad. absurd (true_not_false (sym bad))), (λ e. refl))

taken : (m : Message) (c : ℕ) (b b' : Broker) → Answers m c b b' → Judged m c b (true, b')
taken m c b b' done = ((λ e. done), (λ bad. absurd (true_not_false bad)))

Judged-place :
    (m : Message) (c : ℕ) (b : Broker)
    → IsOwned b
    → holds_connection (lookup m.node_id b.connections) c ≡ true
    → Judged m c b (set_result (open_at (pending_of (key_of_message m) b.pending) b.futures) m b)
Judged-place m c b ok held = elim (Option-cases (pending_of (key_of_message m) b.pending)) [
  | inl missing ↦ simp missing (untaken m c b)
  | inr (i, found) ↦ elim (Option-cases (get_elem? b.futures i)) [
    | inl gone ↦ simp (found, gone) (untaken m c b)
    | inr (f, here) ↦ elim (Bool-cases (is_waiting f.outcome)) [
      | inl wait ↦
          simp (found, here, wait) (taken m c b _ (found_answer m c i f b ok held found here wait))
      | inr done ↦ simp (found, here, done) (untaken m c b)
    ]
  ]
]

Judged-response :
    (m : Message) (c : ℕ) (b : Broker) → IsOwned b → Judged m c b (resolve_response m c b)
unfolding resolve_response
Judged-response m c b ok =
    elim (Bool-cases (
      truthy m.node_id
      && truthy m.request_id
      && holds_connection (lookup m.node_id b.connections) c)) [
        | inl fits ↦
            simp fits
              (Judged-place m c b ok (all_three (truthy m.node_id) (truthy m.request_id) _ fits).2)
        | inr unfit ↦ simp unfit (untaken m c b)
      ]

Judged-if :
    (p : Bool) (m : Message) (c : ℕ) (b : Broker) (x : Bool × Broker)
    → Judged m c b x
    → Judged m c b (if p then x else (false, b))
Judged-if true m c b x h = h
Judged-if false m c b x h = untaken m c b

-- In a broker whose waiting requests are of their nodes' present connections: when an answer to a
-- lookup or to a restart is taken, it came from the connection that the request was sent on, it names
-- a request that waits, and that request's result is all that changes; when it is not taken, nothing
-- changes.
pub resolve-Answers :
    (m : Message) (c : ℕ) (b : Broker)
    → IsOwned b
    → ((resolve_account_lookup m c b).0 ≡ true → Answers m c b (resolve_account_lookup m c b).1)
      × ((resolve_account_lookup m c b).0 ≡ false → (resolve_account_lookup m c b).1 ≡ b)
      × ((resolve_restart m c b).0 ≡ true → Answers m c b (resolve_restart m c b).1)
      × ((resolve_restart m c b).0 ≡ false → (resolve_restart m c b).1 ≡ b)
unfolding resolve_account_lookup resolve_restart
resolve-Answers m c b ok =
    let by_lookup =
      Judged-if (text_eq m.type (text "account_lookup_response")) m c b _
        (Judged-response m c b ok) in
    let by_restart =
      Judged-if (text_eq m.type (text "agent_restart_response")) m c b _
        (Judged-response m c b ok) in
    (by_lookup.0, by_lookup.1, by_restart.0, by_restart.1)

pub Judged-IsOwned :
    (m : Message) (c : ℕ) (b : Broker) (x : Bool × Broker)
    → Judged m c b x
    → IsOwned b
    → IsOwned x.1
Judged-IsOwned m c b (true, b') judged ok =
    let (i, f, here, wait, keys, own, same) = judged.0 refl in
    subst IsOwned (sym same) (IsOwned-Settles b _ (Settles-settle i (answered m) b.futures refl) ok)
Judged-IsOwned m c b (false, b') judged ok = subst IsOwned (sym (judged.1 refl)) ok
