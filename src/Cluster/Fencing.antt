-- ===== src/Cluster/Fencing.antt =====
-- A connection that has been replaced cannot touch the node any more (cluster.py,
-- `_connection_matches` and its callers).
use constella.Prelude.{
  ℕ, ◌≡◌, ◌≢◌, refl, Bool, true, false, not, ◌||◌, some, Text, text_eq, Option, truthy, Bool-cases,
  inl, inr, Option-cases, true_not_false, sym, ◌∙◌, subst, All, List, [], ◌∷◌,
}
use constella.Prelude.Dicts.{lookup-insert}
use constella.Cluster.Data.{Runtime, Message, Cluster, Body}
use constella.Cluster.State.{
  connection_matches, find_node, ingest_sample, accepted, register_hello, store_sample, turns_away,
}
use constella.Cluster.Views.{snapshot, refreshed}
use constella.Cluster.Events.{Event, hello, sample, heartbeat, reject, leave, look, step, run}
use constella.Cluster.Marks.{find_same, lookup-map}
use constella.Cluster.Held.{
  is_other, is_foreign, IsHeld, fenced, other_over, IsHeld-write, IsHeld-heartbeat, IsHeld-reject,
  IsHeld-leave,
}

-- A sample over another connection is turned away.
turned-other :
    (j k : Text) (seq c : ℕ) (d : Option ℕ) (r : Runtime) (s : Cluster)
    → IsHeld k c r s
    → is_other c d ≡ true
    → text_eq j k ≡ true
    → turns_away (find_node j s) seq d ≡ true
turned-other j k seq c d r s (q, known, kept) other same =
    let found : find_node j s ≡ some q = find_same j k s same ∙ known in
    let off : connection_matches q d ≡ false = fenced q c d kept.own other in rw (found, off) refl

IsHeld-store :
    (j k : Text) (seq : ℕ) (b : Body) (now c : ℕ) (d : Option ℕ) (r : Runtime) (s : Cluster)
    → text_eq j k ≡ false
    → IsHeld k c r s
    → IsHeld k c r (store_sample j seq b now d s)
unfolding store_sample
IsHeld-store j k seq b now c d r s other (p, known, rest) =
    (p, rw (lookup-insert j k _ s.latest_by_node, other) known, rest)

IsHeld-sample :
    (m : Message) (k : Text) (now c : ℕ) (d : Option ℕ) (r : Runtime) (s : Cluster)
    → (not (text_eq m.node_id k) || is_other c d) ≡ true
    → IsHeld k c r s
    → IsHeld k c r (ingest_sample m now d s).1
unfolding ingest_sample
IsHeld-sample m k now c d r s foreign held = elim (Bool-cases (truthy m.node_id)) [
  | inr blank ↦ rw blank held
  | inl named ↦ elim (Option-cases m.seq) [
    | inl missing ↦ rw (named, missing) held
    | inr (seq, given) ↦ elim (Bool-cases (turns_away (find_node m.node_id s) seq d)) [
      | inl away ↦ rw (named, given, away) held
      | inr new ↦ elim (Option-cases m.body) [
        | inl broken ↦ rw (named, given, new, broken) held
        | inr (b, good) ↦ elim (Bool-cases (text_eq m.node_id k)) [
          | inl same ↦
              let away =
                turned-other m.node_id k seq c d r s held
                  (other_over (text_eq m.node_id k) _ foreign same) same in
              absurd (true_not_false (sym away ∙ new))
          | inr other ↦
              rw (named, given, new, good) (IsHeld-store m.node_id k seq b now c d r s other held)
        ]
      ]
    ]
  ]
]

IsHeld-look :
    (k : Text) (now c : ℕ) (r : Runtime) (s : Cluster)
    → IsHeld k c r s
    → IsHeld k c r (snapshot now s).1
unfolding snapshot refreshed
IsHeld-look k now c r s (q, known, kept) = (
  refreshed s.config now q,
  lookup-map s.config now k s.latest_by_node q known,
  record {
    own = kept.own;
    connected = kept.connected;
    last_seq = kept.last_seq;
    last_seen_at = kept.last_seen_at;
    gpus = kept.gpus;
    error = kept.error;
  },
)

not_same : (b : Bool) → not b ≡ true → b ≡ false
not_same true h = cc
not_same false h = refl

IsHeld-step :
    (k : Text) (c : ℕ) (r : Runtime) (e : Event) (s : Cluster)
    → is_foreign k c e ≡ true
    → IsHeld k c r s
    → IsHeld k c r (step e s)
unfolding step register_hello
IsHeld-step k c r (hello h now d) s foreign held =
    IsHeld-write h.node_id k c r _ s (not_same (text_eq h.node_id k) foreign) held
IsHeld-step k c r (sample m now d) s foreign held = IsHeld-sample m k now c d r s foreign held
IsHeld-step k c r (heartbeat j seq now d) s foreign held =
    IsHeld-heartbeat j k seq now c d r s foreign held
IsHeld-step k c r (reject j d) s foreign held = IsHeld-reject j k c d r s foreign held
IsHeld-step k c r (leave j now d) s foreign held = IsHeld-leave j k now c d r s foreign held
IsHeld-step k c r (look now) s foreign held = IsHeld-look k now c r s held

IsHeld-run :
    (k : Text) (c : ℕ) (r : Runtime) (events : List Event) (s : Cluster)
    → All (λ e. is_foreign k c e ≡ true) events
    → IsHeld k c r s
    → IsHeld k c r (run events s)
unfolding run
IsHeld-run k c r [] s foreign held = held
IsHeld-run k c r (e ∷ events) s foreign held =
    IsHeld-run k c r events (step e s) foreign.1 (IsHeld-step k c r e s foreign.0 held)

not_accepted :
    (m : Message) (now c : ℕ) (d : Option ℕ) (r : Runtime) (s : Cluster)
    → IsHeld m.node_id c r s
    → is_other c d ≡ true
    → (ingest_sample m now d s).0 ≢ accepted
unfolding ingest_sample
not_accepted m now c d r s (q, known, kept) other =
    let off : connection_matches q d ≡ false = fenced q c d kept.own other in
    elim (Bool-cases (truthy m.node_id)) [
      | inr blank ↦ rw blank (λ bad. cc)
      | inl named ↦ elim (Option-cases m.seq) [
        | inl missing ↦ rw (named, missing) (λ bad. cc)
        | inr (seq, given) ↦ rw (named, given, known, off) (λ bad. cc)
      ]
    ]

-- A node that connection c holds is still held by c after any events of other nodes, hellos included,
-- and of this node over other connections, hellos excepted: samples, heartbeats, rejected messages,
-- ends of connections, and reads. Whether it is connected, its last sequence number, the time it was
-- last seen, its devices and its error are what they were, and a sample of it over another connection
-- is then not accepted.
pub other_connection :
    (k : Text) (c : ℕ) (r : Runtime) (events : List Event) (s : Cluster)
    → find_node k s ≡ some r
    → r.connection_id ≡ some c
    → All (λ e. is_foreign k c e ≡ true) events
    → IsHeld k c r (run events s)
      × ((m : Message) (now : ℕ) (d : Option ℕ)
          → m.node_id ≡ k
          → is_other c d ≡ true
          → (ingest_sample m now d (run events s)).0 ≢ accepted)
other_connection k c r events s known own foreign =
    let held = IsHeld-run k c r events s foreign (
      r,
      known,
      record {
        own = own;
        connected = refl;
        last_seq = refl;
        last_seen_at = refl;
        gpus = refl;
        error = refl;
      },
    ) in
    (
      held,
      (λ m now d same other.
          not_accepted m now c d r _ (subst (λ n. IsHeld n c r (run events s)) (sym same) held)
            other),
    )
