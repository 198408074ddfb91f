-- ===== src/Cluster/Replay.antt =====
-- Sequence numbers (cluster.py, `ingest_sample`, `ingest_heartbeat`): until a node says hello again,
-- its last sequence number only grows, and what is not above it is refused.
use constella.Prelude.{
  ℕ, ◌≤◌, ◌≡◌, ◌≢◌, true, false, some, Text, text_eq, Option, arith, truthy, Bool-cases, inl, inr,
  Option-cases, subst, All, List, [], ◌∷◌, ◌∙◌,
}
use constella.Prelude.Dicts.{lookup-insert_self}
use constella.Cluster.Data.{Runtime, Message, Cluster, Body, Config}
use constella.Cluster.State.{
  find_node, turns_away, ingest_sample, store_sample, accepted, refused, invalid,
}
use constella.Cluster.Views.{snapshot, refreshed}
use constella.Cluster.Events.{Event, hello, sample, heartbeat, reject, leave, look, step, run}
use constella.Cluster.Marks.{
  HasReached, greets, HasReached-write, find_same, turns_away-newer, lookup-map, reached_hello,
  reached_heartbeat, reached_reject, reached_leave,
}

reached_store :
    (k : Text) (n seq : ℕ) (m : Message) (b : Body) (now : ℕ) (c : Option ℕ) (s : Cluster)
    → HasReached k n s
    → (text_eq m.node_id k ≡ true → n ≤ seq)
    → HasReached k n (store_sample m.node_id seq b now c s)
unfolding store_sample
reached_store k n seq m b now c s reached above = HasReached-write m.node_id k n _ s reached above

sample-newer :
    (m : Message) (k : Text) (n seq : ℕ) (c : Option ℕ) (s : Cluster)
    → HasReached k n s
    → turns_away (find_node m.node_id s) seq c ≡ false
    → text_eq m.node_id k ≡ true
    → n ≤ seq
sample-newer m k n seq c s (r, known, above) new same =
    let newer =
      turns_away-newer r seq c
        (subst (λ o. turns_away o seq c ≡ false) (find_same m.node_id k s same ∙ known) new) in
    omega arith

reached_sample :
    (m : Message) (k : Text) (now n : ℕ) (c : Option ℕ) (s : Cluster)
    → HasReached k n s
    → HasReached k n ((ingest_sample m now c s).1)
unfolding ingest_sample
reached_sample m k now n c s reached = elim (Bool-cases (truthy m.node_id)) [
  | inr blank ↦ rw blank reached
  | inl named ↦ elim (Option-cases m.seq) [
    | inl missing ↦ rw (named, missing) reached
    | inr (seq, given) ↦ elim (Bool-cases (turns_away (find_node m.node_id s) seq c)) [
      | inl away ↦ rw (named, given, away) reached
      | inr new ↦ elim (Option-cases m.body) [
        | inl broken ↦ rw (named, given, new, broken) reached
        | inr (b, good) ↦
            rw (named, given, new, good)
              (reached_store k n seq m b now c s reached
                (λ same. sample-newer m k n seq c s reached new same))
      ]
    ]
  ]
]

refreshed-above :
    (c : Config) (now n : ℕ) (r : Runtime) → n ≤ r.last_seq → n ≤ (refreshed c now r).last_seq
unfolding refreshed
refreshed-above c now n r above = above

reached_look :
    (k : Text) (now n : ℕ) (s : Cluster) → HasReached k n s → HasReached k n ((snapshot now s).1)
unfolding snapshot
reached_look k now n s (r, known, above) = (
  refreshed s.config now r,
  lookup-map s.config now k s.latest_by_node r known,
  refreshed-above s.config now n r above,
)

reached_step :
    (k : Text) (n : ℕ) (e : Event) (s : Cluster)
    → greets k e ≡ false
    → HasReached k n s
    → HasReached k n (step e s)
unfolding step
reached_step k n (hello h now c) s quiet reached = reached_hello h k now n c s quiet reached
reached_step k n (sample m now c) s quiet reached = reached_sample m k now n c s reached
reached_step k n (heartbeat j seq now c) s quiet reached =
    reached_heartbeat j k seq now n c s reached
reached_step k n (reject j c) s quiet reached = reached_reject j k n c s reached
reached_step k n (leave j now c) s quiet reached = reached_leave j k n now c s reached
reached_step k n (look now) s quiet reached = reached_look k now n s reached

reached_run :
    (k : Text) (n : ℕ) (events : List Event) (s : Cluster)
    → All (λ e. greets k e ≡ false) events
    → HasReached k n s
    → HasReached k n (run events s)
unfolding run
reached_run k n [] s quiet reached = reached
reached_run k n (e ∷ events) s quiet reached =
    reached_run k n events (step e s) quiet.1 (reached_step k n e s quiet.0 reached)

invalid_not_accepted : invalid ≢ accepted
invalid_not_accepted bad = cc

refused_not_accepted : refused ≢ accepted
refused_not_accepted bad = cc

accepted_named :
    (m : Message) (now : ℕ) (c : Option ℕ) (s : Cluster)
    → (ingest_sample m now c s).0 ≡ accepted
    → truthy m.node_id ≡ true
unfolding ingest_sample
accepted_named m now c s ok = elim (Bool-cases (truthy m.node_id)) [
  | inl named ↦ named
  | inr blank ↦ absurd (invalid_not_accepted (rw blank at ok))
]

store-reached :
    (k : Text) (n : ℕ) (b : Body) (now : ℕ) (c : Option ℕ) (s : Cluster)
    → HasReached k n (store_sample k n b now c s)
unfolding store_sample
store-reached k n b now c s = (_, lookup-insert_self k _ _, omega arith)

accepted_reached :
    (m : Message) (n now : ℕ) (c : Option ℕ) (s : Cluster)
    → m.seq ≡ some n
    → (ingest_sample m now c s).0 ≡ accepted
    → HasReached m.node_id n ((ingest_sample m now c s).1)
unfolding ingest_sample
accepted_reached m n now c s given ok = elim (Bool-cases (turns_away (find_node m.node_id s) n c)) [
  | inl away ↦ absurd (refused_not_accepted (rw (accepted_named m now c s ok, given, away) at ok))
  | inr new ↦ elim (Option-cases m.body) [
    | inl broken ↦
        absurd (invalid_not_accepted (rw (accepted_named m now c s ok, given, new, broken) at ok))
    | inr (b, good) ↦
        rw (accepted_named m now c s ok, given, new, good) (store-reached m.node_id n b now c s)
  ]
]

turned_away :
    (m : Message) (n l now : ℕ) (c : Option ℕ) (s : Cluster)
    → truthy m.node_id ≡ true
    → m.seq ≡ some l
    → l ≤ n
    → HasReached m.node_id n s
    → ingest_sample m now c s ≡ (refused, s)
unfolding ingest_sample
turned_away m n l now c s named given old (r, known, above) =
    let away : turns_away (some r) l c ≡ true = ground arith in rw (named, given, known, away)

-- After a sample of a node with sequence number n is accepted, and whatever happens until the node
-- says hello again, a sample of that node whose number is at most n is refused and changes nothing.
pub replay_refused :
    (m later : Message) (n l now then_ : ℕ) (c d : Option ℕ) (events : List Event) (s : Cluster)
    → m.seq ≡ some n
    → (ingest_sample m now c s).0 ≡ accepted
    → All (λ e. greets m.node_id e ≡ false) events
    → later.node_id ≡ m.node_id
    → later.seq ≡ some l
    → l ≤ n
    → ingest_sample later then_ d (run events (ingest_sample m now c s).1)
      ≡ (refused, run events (ingest_sample m now c s).1)
replay_refused m later n l now then_ c d events s given ok quiet same given_later old =
    turned_away later n l then_ d _ (rw same (accepted_named m now c s ok)) given_later old
      (rw same (reached_run m.node_id n events _ quiet (accepted_reached m n now c s given ok)))
