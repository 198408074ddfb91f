-- ===== src/Cluster/Marks.antt =====
-- What messages other than samples do to a node's last sequence number (cluster.py).
use constella.Prelude.{
  none_not_some, ℕ, ◌≤◌, ◌<◌, ◌≡◌, refl, sym, Bool, true, false, none, some, Text, text_eq,
  text_eq→eq, Option, arith, Bool-cases, inl, inr, Option-cases, subst, [], ◌∷◌, map, if◌then◌else◌,
  eq_of_some, ◌∙◌,
}
use constella.Prelude.Dicts.{Dict, lookup, lookup-insert, insert}
use constella.Cluster.Data.{Runtime, Cluster, Hello, Config}
use constella.Cluster.State.{
  connection_matches, find_node, turns_away, register_hello, ingest_heartbeat, reject_sample,
  disconnect, runtime_after, beat, beat_known, bare_hello, parted, with_error, has_sample_error,
  with_known, if_matching,
}
use constella.Cluster.Views.{refreshed, refresh_entry}
use constella.Cluster.Events.{Event, hello, sample, heartbeat, reject, leave, look}

-- The node is known, and its last sequence number is at least n.
abbrev pub HasReached : Text → ℕ → Cluster → Type 0
HasReached k n s = (r : Runtime) × (find_node k s ≡ some r) × (n ≤ r.last_seq)

abbrev pub greets : Text → Event → Bool
greets k (hello h now c) = text_eq h.node_id k
greets k (sample m now c) = false
greets k (heartbeat j seq now c) = false
greets k (reject j c) = false
greets k (leave j now c) = false
greets k (look now) = false

-- A write of one node's runtime keeps the mark when it keeps it for that node.
pub HasReached-write :
    (j k : Text) (n : ℕ) (r : Runtime) (s : Cluster)
    → HasReached k n s
    → (text_eq j k ≡ true → n ≤ r.last_seq)
    → (q : Runtime) × (lookup k (insert j r s.latest_by_node) ≡ some q) × (n ≤ q.last_seq)
HasReached-write j k n r s (q, known, above) keeps = elim (Bool-cases (text_eq j k)) [
  | inl same ↦ (r, rw (lookup-insert j k r s.latest_by_node, same) refl, keeps same)
  | inr other ↦ (q, rw (lookup-insert j k r s.latest_by_node, other) known, above)
]

pub find_same : (j k : Text) (s : Cluster) → text_eq j k ≡ true → find_node j s ≡ find_node k s
find_same j k s same = rw (text_eq→eq j k same)

pub unknown_other :
    (j k : Text) (n : ℕ) (s : Cluster)
    → HasReached k n s
    → find_node j s ≡ none
    → text_eq j k ≡ false
unknown_other j k n s (q, known, above) missing = elim (Bool-cases (text_eq j k)) [
  | inr other ↦ other
  | inl same ↦ absurd (none_not_some q (sym missing ∙ find_same j k s same ∙ known))
]

-- A sample that a known node does not turn away has a new sequence number.
pub turns_away-newer :
    (r : Runtime) (seq : ℕ) (c : Option ℕ) → turns_away (some r) seq c ≡ false → r.last_seq < seq
turns_away-newer r seq c h = ground arith

pub above_same :
    (j k : Text) (n : ℕ) (r : Runtime) (s : Cluster)
    → HasReached k n s
    → find_node j s ≡ some r
    → text_eq j k ≡ true
    → n ≤ r.last_seq
above_same j k n r s (q, known, above) found same =
    subst (λ (x : Runtime). n ≤ x.last_seq)
      (eq_of_some (sym known ∙ sym (find_same j k s same) ∙ found)) above

-- An update of a known node's runtime, guarded by its connection.
pub HasReached-update :
    (j k : Text) (n : ℕ) (c : Option ℕ) (f : Runtime → Cluster) (s : Cluster)
    → HasReached k n s
    → ((r : Runtime) → find_node j s ≡ some r → HasReached k n (f r))
    → HasReached k n (with_known (find_node j s) s (λ r. if_matching r c s (f r)))
HasReached-update j k n c f s reached keeps = elim (Option-cases (find_node j s)) [
  | inl missing ↦ rw missing reached
  | inr (r, known) ↦ elim (Bool-cases (connection_matches r c)) [
    | inl own ↦ rw (known, own) (keeps r known)
    | inr foreign ↦ rw (known, foreign) reached
  ]
]

pub lookup-map :
    (c : Config) (now : ℕ) (k : Text) (d : Dict Runtime) (r : Runtime)
    → lookup k d ≡ some r
    → lookup k (map (refresh_entry c now) d) ≡ some (refreshed c now r)
unfolding lookup
lookup-map c now k [] r h = cc
lookup-map c now k ((j, q) ∷ d) r h = elim (Bool-cases (text_eq j k)) [
  | inl same ↦
      rw (same, eq_of_some (subst (λ b. (if b then some q else lookup k d) ≡ some r) same h)) refl
  | inr other ↦
      rw
        (
          other,
          lookup-map c now k d r (subst (λ b. (if b then some q else lookup k d) ≡ some r) other h),
        )
        refl
]

pub reached_hello :
    (h : Hello) (k : Text) (now n : ℕ) (c : Option ℕ) (s : Cluster)
    → text_eq h.node_id k ≡ false
    → HasReached k n s
    → HasReached k n (register_hello h now c s)
unfolding register_hello
reached_hello h k now n c s other reached =
    HasReached-write h.node_id k n (runtime_after (find_node h.node_id s) h now c) s reached
      (λ same. absurd cc)

pub beat-grows :
    (seq : Option ℕ) (now n : ℕ) (r : Runtime) → n ≤ r.last_seq → n ≤ (beat seq now r).last_seq
beat-grows none now n r h = h
beat-grows (some m) now n r h = omega arith

pub reached_beat :
    (j k : Text) (seq : Option ℕ) (now n : ℕ) (c : Option ℕ) (s : Cluster)
    → HasReached k n s
    → HasReached k n (beat_known j seq now c s)
reached_beat j k seq now n c s reached = HasReached-update j k n c _ s reached (λ r known.
    HasReached-write j k n (beat seq now r) s reached
      (λ same. beat-grows seq now n r (above_same j k n r s reached known same)))

pub reached_heartbeat :
    (j k : Text) (seq : Option ℕ) (now n : ℕ) (c : Option ℕ) (s : Cluster)
    → HasReached k n s
    → HasReached k n (ingest_heartbeat j seq now c s)
unfolding ingest_heartbeat
reached_heartbeat j k seq now n c s reached =
    reached_beat j k seq now n c _ (elim (Option-cases (find_node j s)) [
      | inl missing ↦
          rw missing (
            reached_hello (bare_hello j) k now n c s (unknown_other j k n s reached missing)
              reached)
      | inr (r, known) ↦ rw known reached
    ])

pub reached_reject :
    (j k : Text) (n : ℕ) (c : Option ℕ) (s : Cluster)
    → HasReached k n s
    → HasReached k n (reject_sample j c s)
unfolding reject_sample
reached_reject j k n c s reached = HasReached-update j k n c _ s reached (λ r known.
    elim (Bool-cases (has_sample_error r)) [
      | inl already ↦ rw already reached
      | inr new ↦
          rw new
            (HasReached-write j k n (with_error r) s reached (above_same j k n r s reached known))
    ])

pub reached_leave :
    (j k : Text) (n : ℕ) (now c : Option ℕ) (s : Cluster)
    → HasReached k n s
    → HasReached k n (disconnect j now c s)
unfolding disconnect
reached_leave j k n now c s reached = HasReached-update j k n c _ s reached (λ r known.
    HasReached-write j k n (parted now r) s reached (above_same j k n r s reached known))
