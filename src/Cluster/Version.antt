-- ===== src/Cluster/Version.antt =====
-- The state's sequence number, by which a client sees that there is something new (cluster.py,
-- `_bump` and its callers, `wait_changed`).
use constella.Prelude.{
  ℕ, ◌+◌, ◌≤◌, ◌≡◌, refl, Bool, true, false, Option, Text, List, [], ◌∷◌, arith, All, Bool-cases,
  Option-cases, inl, inr, ◌⊎◌, truthy, subst,
}
use constella.Cluster.Data.{Runtime, Cluster, Message, Hello}
use constella.Cluster.State.{
  connection_matches, find_node, turns_away, register_hello, ingest_sample, ingest_heartbeat,
  reject_sample, disconnect, store_sample, has_sample_error, with_known, if_matching, greeted_first,
  bare_hello,
}
use constella.Cluster.Events.{Event, hello, sample, heartbeat, reject, leave, look, step, run}

-- Nothing changed, or the sequence number grew.
abbrev pub IsAnnounced : Cluster → Cluster → Type 0
IsAnnounced s s' = (s' ≡ s) ⊎ (s.seq + 1 ≤ s'.seq)

abbrev pub looks : Event → Bool
looks (look now) = true
looks (hello h now c) = false
looks (sample m now c) = false
looks (heartbeat k seq now c) = false
looks (reject k c) = false
looks (leave k now c) = false

IsAnnounced-update :
    (k : Text) (c : Option ℕ) (f : Runtime → Cluster) (s : Cluster)
    → ((r : Runtime) → IsAnnounced s (f r))
    → IsAnnounced s (with_known (find_node k s) s (λ r. if_matching r c s (f r)))
IsAnnounced-update k c f s each = elim (Option-cases (find_node k s)) [
  | inl missing ↦ inl (rw missing refl)
  | inr (r, known) ↦ elim (Bool-cases (connection_matches r c)) [
    | inl own ↦ rw (known, own) (each r)
    | inr foreign ↦ inl (rw (known, foreign) refl)
  ]
]

IsAnnounced-hello :
    (h : Hello) (now : ℕ) (c : Option ℕ) (s : Cluster) → IsAnnounced s (register_hello h now c s)
unfolding register_hello
IsAnnounced-hello h now c s = inr (omega arith)

IsAnnounced-trans : (s s' s'' : Cluster) → IsAnnounced s s' → IsAnnounced s' s'' → IsAnnounced s s''
IsAnnounced-trans s s' s'' (inl same) after = subst (λ x. IsAnnounced x s'') same after
IsAnnounced-trans s s' s'' (inr more) (inl same) = rw same (inr more)
IsAnnounced-trans s s' s'' (inr more) (inr more') = inr (omega arith)

IsAnnounced-heartbeat :
    (k : Text) (seq : Option ℕ) (now : ℕ) (c : Option ℕ) (s : Cluster)
    → IsAnnounced s (ingest_heartbeat k seq now c s)
unfolding ingest_heartbeat
IsAnnounced-heartbeat k seq now c s =
    IsAnnounced-trans s (greeted_first (find_node k s) k now c s) _
      (elim (Option-cases (find_node k s)) [
        | inl missing ↦ rw missing (IsAnnounced-hello (bare_hello k) now c s)
        | inr (r, known) ↦ inl (rw known refl)
      ])
      (IsAnnounced-update k c _ _ (λ r. inr (omega arith)))

IsAnnounced-reject : (k : Text) (c : Option ℕ) (s : Cluster) → IsAnnounced s (reject_sample k c s)
unfolding reject_sample
IsAnnounced-reject k c s = IsAnnounced-update k c _ s (λ r. elim (Bool-cases (has_sample_error r)) [
  | inl already ↦ inl (rw already refl)
  | inr new ↦ rw new (inr (omega arith))
])

IsAnnounced-leave :
    (k : Text) (now c : Option ℕ) (s : Cluster) → IsAnnounced s (disconnect k now c s)
unfolding disconnect
IsAnnounced-leave k now c s = IsAnnounced-update k c _ s (λ r. inr (omega arith))

IsAnnounced-sample :
    (m : Message) (now : ℕ) (c : Option ℕ) (s : Cluster)
    → IsAnnounced s ((ingest_sample m now c s).1)
unfolding ingest_sample store_sample
IsAnnounced-sample m now c s = elim (Bool-cases (truthy m.node_id)) [
  | inr blank ↦ inl (rw blank refl)
  | inl named ↦ elim (Option-cases m.seq) [
    | inl missing ↦ inl (rw (named, missing) refl)
    | inr (seq, given) ↦ elim (Bool-cases (turns_away (find_node m.node_id s) seq c)) [
      | inl away ↦ inl (rw (named, given, away) refl)
      | inr new ↦ elim (Option-cases m.body) [
        | inl broken ↦ inl (rw (named, given, new, broken) refl)
        | inr (b, good) ↦ inr (rw (named, given, new, good) (omega arith))
      ]
    ]
  ]
]

IsAnnounced-step : (e : Event) (s : Cluster) → looks e ≡ false → IsAnnounced s (step e s)
unfolding step
IsAnnounced-step (hello h now c) s writes = IsAnnounced-hello h now c s
IsAnnounced-step (sample m now c) s writes = IsAnnounced-sample m now c s
IsAnnounced-step (heartbeat k seq now c) s writes = IsAnnounced-heartbeat k seq now c s
IsAnnounced-step (reject k c) s writes = IsAnnounced-reject k c s
IsAnnounced-step (leave k now c) s writes = IsAnnounced-leave k now c s
IsAnnounced-step (look now) s writes = absurd cc

IsAnnounced-run :
    (events : List Event) (s : Cluster)
    → All (λ e. looks e ≡ false) events
    → IsAnnounced s (run events s)
unfolding run
IsAnnounced-run [] s writes = inl refl
IsAnnounced-run (e ∷ events) s writes =
    IsAnnounced-trans s (step e s) _ (IsAnnounced-step e s writes.0)
      (IsAnnounced-run events _ writes.1)

unnoticed : (s s' : Cluster) → IsAnnounced s s' → (s.seq ≤ s'.seq) × (s'.seq ≡ s.seq → s' ≡ s)
unnoticed s s' (inl same) = (rw same (omega arith), (λ e. same))
unnoticed s s' (inr more) = (omega arith, (λ e. absurd (omega arith)))

-- After any messages of any agents, the sequence number has not gone down, and where it is what it
-- was, the whole state is what it was: no update goes by without a client's seeing it.
pub run_unnoticed :
    (events : List Event) (s : Cluster)
    → All (λ e. looks e ≡ false) events
    → (s.seq ≤ (run events s).seq) × ((run events s).seq ≡ s.seq → run events s ≡ s)
run_unnoticed events s writes = unnoticed s _ (IsAnnounced-run events s writes)
