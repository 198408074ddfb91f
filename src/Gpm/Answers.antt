-- ===== src/Gpm/Answers.antt =====
-- What the cache answers after any samples (performance_highres.py, `NvidiaGpmHighresCache`).
use constella.Prelude.{
  ℕ, ◌<◌, ◌≡◌, ◌≢◌, refl, true, false, Option, none, some, List, [], ◌∷◌, keep, map, any, recent,
  All, Bool-cases, inl, inr, ap, sym, ◌∙◌, ltb, none_not_some, eq_of_some, ltb→lt,
}
use constella.Prelude.Sorting.{All-sort_by, any-sort_by}
use constella.Gpm.Ring.{Performance, Ring, new, metric_count}
use constella.Gpm.Runs.{append_all, stamps}
use constella.Gpm.Window.{timeline}
use constella.Gpm.Series.{range_of, timeline-range_of}
use constella.Prelude.Keyed.{find, entries-find}
use constella.Gpm.Keyed.{GpuKey, key_eq, key_eq→eq, gpu_keys}
use constella.Gpm.Held.{
  append_samples, samples_of, made, is_there, Holds, Holds-new, Holds-ext, Holds-append_samples,
}
use constella.Gpm.Cache.{
  Cache, new_cache, Sampled, named_series, Query, selected_metrics, is_asked, Series, metrics_of,
  add_series, collect, series_le, sorted_series, query, or_all, Device,
}

-- A series of the answer to a query: of a GPU that was asked for, with the samples of that GPU.
abbrev pub IsAnswer : ℕ → Query → List Sampled → Series → Type 0
IsAnswer n q ss a =
    (is_asked q a.key ≡ true)
    × (a.metrics
        ≡ map
            (named_series q
              (λ k. range_of q.since q.until (recent n (stamps k (samples_of a.key ss)))))
            (selected_metrics q))

-- A list of series that is there, and has the property.
abbrev pub Answers : (List Series → Type 0) → Option (List Series) → Type 0
Answers P none = ⊥
Answers P (some series) = P series

pub stamps-metrics :
    (n : ℕ) (q : Query) (samples : List (ℕ × Performance)) (ks : List ℕ)
    → 0 < n
    → map
        (named_series q (λ k. timeline (append_all samples (new n)) k q.since q.until))
        (keep (λ k. ltb k metric_count) ks)
      ≡ map
          (named_series q (λ k. range_of q.since q.until (recent n (stamps k samples))))
          (keep (λ k. ltb k metric_count) ks)
stamps-metrics n q samples [] room = refl
stamps-metrics n q samples (k ∷ ks) room = elim (Bool-cases (ltb k metric_count)) [
  | inl known ↦
      rw
        (
          known,
          timeline-range_of n k q.since q.until samples room (ltb→lt k metric_count known),
          stamps-metrics n q samples ks room,
        )
        refl
  | inr unknown ↦ rw unknown (stamps-metrics n q samples ks room)
]

abbrev or_device : Option Device → Device
or_device none = record { gpu_index = 0; name = []; status = [] }
or_device (some d) = d

made-ring :
    (n : ℕ) (xs : List (ℕ × Performance)) (r : Ring)
    → made n xs ≡ some r
    → r ≡ append_all xs (new n)
made-ring n [] r h = absurd (none_not_some r h)
made-ring n (x ∷ xs) r h = sym (eq_of_some h)

made-there : (n : ℕ) (xs : List (ℕ × Performance)) → xs ≢ [] → is_there (made n xs) ≡ true
made-there n [] h = absurd (h refl)
made-there n (x ∷ xs) h = refl

-- What a part of the rings answers.
abbrev Partly : ℕ → Query → List Sampled → List (GpuKey × Ring) → List Series → Type 0
Partly n q ss rings series =
    All (IsAnswer n q ss) series
    × ((k : GpuKey)
        → is_asked q k ≡ true
        → is_there (find k rings) ≡ true
        → any (λ a. key_eq a.key k) series ≡ true)

add_series-Answers :
    (n : ℕ) (q : Query) (ss : List Sampled) (key : GpuKey) (r : Ring) (rings : List (GpuKey × Ring))
    (o : Option Device) (rest : Option (List Series))
    → is_there o ≡ true
    → IsAnswer n q ss (record { key = key; device = or_device o; metrics = metrics_of q r })
    → Answers (Partly n q ss rings) rest
    → Answers (Partly n q ss ((key, r) ∷ rings)) (add_series q key r o rest)
unfolding find
add_series-Answers n q ss key r rings none rest there answer partly = cc
add_series-Answers n q ss key r rings (some d) none there answer partly = absurd partly
add_series-Answers n q ss key r rings (some d) (some rest) there answer (right, all) = (
  (answer, right),
  (λ k asked held. elim (Bool-cases (key_eq key k)) [
    | inl same ↦ rw same refl
    | inr other ↦
        let held' : is_there (find k rings) ≡ true = simp other at held in
        rw other (all k asked held')
  ]),
)

skip-Answers :
    (n : ℕ) (q : Query) (ss : List Sampled) (key : GpuKey) (r : Ring) (rings : List (GpuKey × Ring))
    (rest : Option (List Series))
    → is_asked q key ≡ false
    → Answers (Partly n q ss rings) rest
    → Answers (Partly n q ss ((key, r) ∷ rings)) rest
unfolding find
skip-Answers n q ss key r rings none skipped partly = partly
skip-Answers n q ss key r rings (some rest) skipped (right, all) = (
  right,
  (λ k asked held. elim (Bool-cases (key_eq key k)) [
    | inl same ↦ let a : is_asked q key ≡ true = rw (key_eq→eq key k same) asked in absurd (cc)
    | inr other ↦
        let held' : is_there (find k rings) ≡ true = simp other at held in all k asked held'
  ]),
)

module _ (n : ℕ) (q : Query) (ss : List Sampled) (c : Cache) (room : 0 < n)
    (h : Holds n (λ k. samples_of k ss) c) where
  IsAnswer-of :
      (key : GpuKey) (r : Ring) (d : Device)
      → is_asked q key ≡ true
      → find key c.rings ≡ some r
      → IsAnswer n q ss (record { key = key; device = d; metrics = metrics_of q r })
  unfolding metrics_of
  IsAnswer-of key r d asked held = (
    asked,
    ap (λ (m : Ring). map (named_series q (λ k. timeline m k q.since q.until)) (selected_metrics q))
          (made-ring n (samples_of key ss) r (sym (h.rings key) ∙ held))
        ∙ stamps-metrics n q (samples_of key ss) (or_all q.metrics) room,
  )

  collect-Answers :
      (rings : List (GpuKey × Ring))
      → All (λ (e : GpuKey × Ring). find e.0 c.rings ≡ some e.1) rings
      → Answers (Partly n q ss rings) (collect q c.devices rings)
  unfolding collect find
  collect-Answers [] held = (tt, (λ k asked there. cc))
  collect-Answers ((key, r) ∷ rings) (here, held) = elim (Bool-cases (is_asked q key)) [
    | inl asked ↦ rw asked (
        add_series-Answers n q ss key r rings (find key c.devices) (collect q c.devices rings)
          (h.devices key ∙ ap is_there here)
          (IsAnswer-of key r (or_device (find key c.devices)) asked here)
          (collect-Answers rings held))
    | inr skipped ↦ rw skipped (
        skip-Answers n q ss key r rings (collect q c.devices rings) skipped
          (collect-Answers rings held))
  ]

sorted-Answers :
    (n : ℕ) (q : Query) (ss : List Sampled) (rings : List (GpuKey × Ring))
    (o : Option (List Series))
    → Answers (Partly n q ss rings) o
    → Answers (Partly n q ss rings) (sorted_series o)
sorted-Answers n q ss rings none h = h
sorted-Answers n q ss rings (some series) (right, all) = (
  All-sort_by series_le _ series right,
  (λ k asked held. any-sort_by series_le (λ a. key_eq a.key k) series ∙ all k asked held),
)

-- What a query finds: each series is of a GPU of the node, and one of those named if any are, and has
-- for each metric what the last n samples of that GPU are in the time range; and every such GPU that
-- has a sample has a series.
abbrev pub IsComplete : ℕ → Query → List Sampled → List Series → Type 0
IsComplete n q ss series =
    All (IsAnswer n q ss) series
    × ((k : GpuKey)
        → is_asked q k ≡ true
        → samples_of k ss ≢ []
        → any (λ a. key_eq a.key k) series ≡ true)

weaken :
    (n : ℕ) (q : Query) (ss : List Sampled) (c : Cache) (o : Option (List Series))
    → Holds n (λ k. samples_of k ss) c
    → Answers (Partly n q ss c.rings) o
    → Answers (IsComplete n q ss) o
weaken n q ss c none h partly = partly
weaken n q ss c (some series) h (right, all) = (
  right,
  (λ k asked given. all k asked (ap is_there (h.rings k) ∙ made-there n (samples_of k ss) given)),
)

-- After any samples of any GPUs, a query of an enabled cache fails on no key. Each of its series is of
-- a GPU that was asked for, and has for each metric asked for what the last n samples of that GPU
-- alone are in the time range; and each GPU that was asked for and has a sample has a series.
pub query-IsComplete :
    (n : ℕ) (q : Query) (ss : List Sampled)
    → 0 < n
    → Answers (IsComplete n q ss) (query q (append_samples ss (new_cache n true)))
unfolding query
query-IsComplete n q ss room =
    let c = append_samples ss (new_cache n true) in
    let h = Holds-append_samples n (λ k. []) ss (new_cache n true) (Holds-new n) in
    let h' : Holds n (λ k. samples_of k ss) c = Holds-ext n _ _ c (λ k. refl) h in
    simp h'.on (
      weaken n q ss c _ h' (
        sorted-Answers n q ss c.rings _
          (collect-Answers n q ss c room h' c.rings (entries-find c.rings h'.distinct))))
