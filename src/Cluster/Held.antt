-- ===== src/Cluster/Held.antt =====
-- What heartbeats, rejected messages and ends of connections leave of a node that another connection
-- holds (cluster.py).
use constella.Prelude.{
  ℕ, ◌≡◌, Bool, true, false, not, ◌||◌, ◌==◌, none, some, Text, text_eq, Option, arith, Bool-cases,
  inl, inr, Option-cases, none_not_some, sym, ◌∙◌,
}
use constella.Prelude.Dicts.{lookup-insert}
use constella.Cluster.Data.{Runtime, Cluster}
use constella.Cluster.State.{
  same_connection, connection_matches, find_node, ingest_heartbeat, reject_sample, disconnect,
  register_hello, bump, greeted_first, beat, with_error, has_sample_error, parted, with_known,
  if_matching, update_node,
}
use constella.Cluster.Events.{Event, hello, sample, heartbeat, reject, leave, look}
use constella.Cluster.Marks.{find_same}

-- A connection is given, and it is not c.
abbrev pub is_other : ℕ → Option ℕ → Bool
is_other c none = false
is_other c (some d) = not (c == d)

-- The event is of another node, or it is no hello and comes over another connection.
abbrev pub is_foreign : Text → ℕ → Event → Bool
is_foreign k c (hello h now d) = not (text_eq h.node_id k)
is_foreign k c (sample m now d) = not (text_eq m.node_id k) || is_other c d
is_foreign k c (heartbeat j seq now d) = not (text_eq j k) || is_other c d
is_foreign k c (reject j d) = not (text_eq j k) || is_other c d
is_foreign k c (leave j now d) = not (text_eq j k) || is_other c d
is_foreign k c (look now) = true

-- Held by c, and with what r has: only a reader's refresh of the status has touched it.
pub record IsKept (c : ℕ) (r q : Runtime) : Type 0 where
  pub own : q.connection_id ≡ some c
  pub connected : q.connected ≡ r.connected
  pub last_seq : q.last_seq ≡ r.last_seq
  pub last_seen_at : q.last_seen_at ≡ r.last_seen_at
  pub gpus : q.snapshot.gpus ≡ r.snapshot.gpus
  pub error : q.snapshot.error ≡ r.snapshot.error

abbrev pub IsHeld : Text → ℕ → Runtime → Cluster → Type 0
IsHeld k c r s = (q : Runtime) × (find_node k s ≡ some q) × IsKept c r q

pub fenced :
    (q : Runtime) (c : ℕ) (d : Option ℕ)
    → q.connection_id ≡ some c
    → is_other c d ≡ true
    → connection_matches q d ≡ false
unfolding same_connection
fenced q c none e other = absurd (cc)
fenced q c (some d) e other = rw e (ground arith)

pub other_over : (a b : Bool) → (not a || b) ≡ true → a ≡ true → b ≡ true
other_over true b h same = h
other_over false b h same = cc

pub IsHeld-write :
    (j k : Text) (c : ℕ) (r q : Runtime) (s : Cluster)
    → text_eq j k ≡ false
    → IsHeld k c r s
    → IsHeld k c r (update_node j q s)
IsHeld-write j k c r q s other (p, known, rest) =
    (p, rw (lookup-insert j k q s.latest_by_node, other) known, rest)

IsHeld-update :
    (j k : Text) (c : ℕ) (d : Option ℕ) (r : Runtime) (f : Runtime → Cluster) (s : Cluster)
    → (not (text_eq j k) || is_other c d) ≡ true
    → IsHeld k c r s
    → ((q : Runtime) → text_eq j k ≡ false → IsHeld k c r (f q))
    → IsHeld k c r (with_known (find_node j s) s (λ q. if_matching q d s (f q)))
IsHeld-update j k c d r f s foreign held keeps = elim (Bool-cases (text_eq j k)) [
  | inl same ↦
      let (q, known, kept) = held in
      let off : connection_matches q d ≡ false =
        fenced q c d kept.own (other_over (text_eq j k) _ foreign same) in
      let found : find_node j s ≡ some q = find_same j k s same ∙ known in rw (found, off) held
  | inr other ↦ elim (Option-cases (find_node j s)) [
    | inl missing ↦ rw missing held
    | inr (q, known) ↦ elim (Bool-cases (connection_matches q d)) [
      | inl own ↦ rw (known, own) (keeps q other)
      | inr off ↦ rw (known, off) held
    ]
  ]
]

unknown-other :
    (j k : Text) (c : ℕ) (r : Runtime) (s : Cluster)
    → IsHeld k c r s
    → find_node j s ≡ none
    → text_eq j k ≡ false
unknown-other j k c r s (q, known, rest) missing = elim (Bool-cases (text_eq j k)) [
  | inr other ↦ other
  | inl same ↦ absurd (none_not_some q (sym missing ∙ find_same j k s same ∙ known))
]

IsHeld-greeted :
    (j k : Text) (now c : ℕ) (d : Option ℕ) (r : Runtime) (s : Cluster)
    → IsHeld k c r s
    → IsHeld k c r (greeted_first (find_node j s) j now d s)
unfolding register_hello
IsHeld-greeted j k now c d r s held = elim (Option-cases (find_node j s)) [
  | inl missing ↦ rw missing (IsHeld-write j k c r _ s (unknown-other j k c r s held missing) held)
  | inr (q, known) ↦ rw known held
]

pub IsHeld-heartbeat :
    (j k : Text) (seq : Option ℕ) (now c : ℕ) (d : Option ℕ) (r : Runtime) (s : Cluster)
    → (not (text_eq j k) || is_other c d) ≡ true
    → IsHeld k c r s
    → IsHeld k c r (ingest_heartbeat j seq now d s)
unfolding ingest_heartbeat
IsHeld-heartbeat j k seq now c d r s foreign held =
    let first = greeted_first (find_node j s) j now d s in
    let greeted = IsHeld-greeted j k now c d r s held in
    IsHeld-update j k c d r (λ q. bump (update_node j (beat seq now q) first)) first foreign greeted
      (λ q other. IsHeld-write j k c r (beat seq now q) first other greeted)

pub IsHeld-reject :
    (j k : Text) (c : ℕ) (d : Option ℕ) (r : Runtime) (s : Cluster)
    → (not (text_eq j k) || is_other c d) ≡ true
    → IsHeld k c r s
    → IsHeld k c r (reject_sample j d s)
unfolding reject_sample
IsHeld-reject j k c d r s foreign held = IsHeld-update j k c d r _ s foreign held (λ q other.
    elim (Bool-cases (has_sample_error q)) [
      | inl already ↦ rw already held
      | inr new ↦ rw new (IsHeld-write j k c r (with_error q) s other held)
    ])

pub IsHeld-leave :
    (j k : Text) (now : Option ℕ) (c : ℕ) (d : Option ℕ) (r : Runtime) (s : Cluster)
    → (not (text_eq j k) || is_other c d) ≡ true
    → IsHeld k c r s
    → IsHeld k c r (disconnect j now d s)
unfolding disconnect
IsHeld-leave j k now c d r s foreign held =
    IsHeld-update j k c d r _ s foreign held
      (λ q other. IsHeld-write j k c r (parted now q) s other held)
