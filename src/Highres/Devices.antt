-- ===== src/Highres/Devices.antt =====
-- What the cache keeps of each device (highres.py, `add_sample_message`, `series_for`).
use constella.Prelude.{
  append_assoc, append-nil, ℕ, ◌+◌, ◌<◌, ◌≡◌, refl, sym, ap, subst, ◌∙◌, true, false, Option, none,
  some, List, [], ◌∷◌, ◌++◌, Text, truthy, keep, recent, if◌then◌else◌, Bool-cases, inl, inr,
}
use constella.Highres.Ring.{Reading, Ring, new, append, points, points_from}
use constella.Highres.Contents.{append_all, valid_points}
use constella.Highres.Points.{within, IsSorted, points-recent}
use constella.Prelude.Keyed.{find, find-alter_same, find-alter_other}
use constella.Highres.Cache.{
  Device, device_eq, device_keys, or_new, Gpu, Cache, new_cache, ring_of, append_to, add_gpus,
  add_snapshot, Sample, add_decoded, add_sample_message, points_of, series_for, add_all,
}

-- The readings of a device in the messages that are taken, in order.
unfoldable pub readings_in : Device → Text → ℕ → List Gpu → List (ℕ × Reading)
readings_in d node at [] = []
readings_in d node at (g ∷ gpus) =
    let rest = readings_in d node at gpus in
    if device_eq (record { node_id = node; uuid = g.uuid }) d then (at, g.reading) ∷ rest else rest

abbrev decoded_readings : Device → Text → Option ℕ → Option (List Gpu) → List (ℕ × Reading)
decoded_readings d node none gpus = []
decoded_readings d node (some at) none = []
decoded_readings d node (some at) (some gpus) = readings_in d node at gpus

unfoldable pub readings_of : Device → List Sample → List (ℕ × Reading)
readings_of d [] = []
readings_of d (m ∷ messages) =
    (if truthy m.node_id then decoded_readings d m.node_id m.sampled_at m.gpus else [])
    ++ readings_of d messages

append_all-append :
    (xs ys : List (ℕ × Reading)) (r : Ring)
    → append_all (xs ++ ys) r ≡ append_all ys (append_all xs r)
unfolding append_all
append_all-append [] ys r = refl
append_all-append ((at, g) ∷ xs) ys r = append_all-append xs ys (append at g r)

-- The ring of the device holds the readings so far.
abbrev Holds : Device → ℕ → List (ℕ × Reading) → Cache → Type 0
Holds d n before c = (c.capacity ≡ n) × (or_new n (ring_of d c.rings) ≡ append_all before (new n))

-- The cache after one round of the loop.
abbrev added : Text → ℕ → Gpu → Cache → Cache
added node at g c = record c {
  rings = append_to (record { node_id = node; uuid = g.uuid }) c.capacity at g.reading c.rings;
  sample_count = c.sample_count + 1;
}

Holds-mine :
    (d : Device) (n : ℕ) (node : Text) (at : ℕ) (g : Gpu) (before : List (ℕ × Reading)) (c : Cache)
    → device_eq (record { node_id = node; uuid = g.uuid }) d ≡ true
    → Holds d n before c
    → Holds d n (before ++ (at, g.reading) ∷ []) (added node at g c)
unfolding append_all
Holds-mine d n node at g before c same (size, holds) = (
  size,
  ap (or_new n) (find-alter_same _ d (λ o. append at g.reading (or_new c.capacity o)) c.rings same)
      ∙ ap (λ m. append at g.reading (or_new m (ring_of d c.rings))) size
      ∙ ap (append at g.reading) holds
      ∙ sym (append_all-append before ((at, g.reading) ∷ []) (new n)),
)

Holds-other :
    (d : Device) (n : ℕ) (node : Text) (at : ℕ) (g : Gpu) (before : List (ℕ × Reading)) (c : Cache)
    → device_eq (record { node_id = node; uuid = g.uuid }) d ≡ false
    → Holds d n before c
    → Holds d n before (added node at g c)
Holds-other d n node at g before c other (size, holds) = (
  size,
  ap (or_new n)
        (find-alter_other _ d (λ o. append at g.reading (or_new c.capacity o)) c.rings other)
      ∙ holds,
)

Holds-add_gpus :
    (d : Device) (n : ℕ) (node : Text) (at : ℕ) (gpus : List Gpu) (before : List (ℕ × Reading))
    (c : Cache)
    → Holds d n before c
    → Holds d n (before ++ readings_in d node at gpus) (add_gpus node at gpus c)
unfolding add_gpus readings_in
Holds-add_gpus d n node at [] before c h = rw (append-nil before) h
Holds-add_gpus d n node at (g ∷ gpus) before c h =
    elim (Bool-cases (device_eq (record { node_id = node; uuid = g.uuid }) d)) [
      | inl same ↦ simp same (
          subst
            (λ (log : List (ℕ × Reading)).
              Holds d n log (add_gpus node at gpus (added node at g c)))
            (append_assoc before ((at, g.reading) ∷ []) (readings_in d node at gpus))
            (Holds-add_gpus d n node at gpus (before ++ (at, g.reading) ∷ []) (added node at g c)
              (Holds-mine d n node at g before c same h)))
      | inr other ↦ simp other (
          Holds-add_gpus d n node at gpus before (added node at g c)
            (Holds-other d n node at g before c other h))
    ]

Holds-decoded :
    (d : Device) (n : ℕ) (node : Text) (at : Option ℕ) (gpus : Option (List Gpu))
    (before : List (ℕ × Reading)) (c : Cache)
    → Holds d n before c
    → Holds d n (before ++ decoded_readings d node at gpus) (add_decoded node at gpus c)
unfolding add_snapshot
Holds-decoded d n node none gpus before c h = rw (append-nil before) h
Holds-decoded d n node (some at) none before c h = rw (append-nil before) h
Holds-decoded d n node (some at) (some gpus) before c h = Holds-add_gpus d n node at gpus before c h

abbrev sample_readings : Device → Sample → List (ℕ × Reading)
sample_readings d m =
    if truthy m.node_id then decoded_readings d m.node_id m.sampled_at m.gpus else []

Holds-sample :
    (d : Device) (n : ℕ) (m : Sample) (before : List (ℕ × Reading)) (c : Cache)
    → Holds d n before c
    → Holds d n (before ++ sample_readings d m) (add_sample_message m c)
unfolding add_sample_message
Holds-sample d n m before c h = elim (Bool-cases (truthy m.node_id)) [
  | inl named ↦ simp named (Holds-decoded d n m.node_id m.sampled_at m.gpus before c h)
  | inr blank ↦ simp (blank, append-nil before) h
]

Holds-all :
    (d : Device) (n : ℕ) (messages : List Sample) (before : List (ℕ × Reading)) (c : Cache)
    → Holds d n before c
    → Holds d n (before ++ readings_of d messages) (add_all messages c)
unfolding add_all readings_of
Holds-all d n [] before c h = rw (append-nil before) h
Holds-all d n (m ∷ messages) before c h =
    subst (λ (log : List (ℕ × Reading)). Holds d n log (add_all messages (add_sample_message m c)))
      (append_assoc before (sample_readings d m) (readings_of d messages))
      (Holds-all d n messages (before ++ sample_readings d m) (add_sample_message m c)
        (Holds-sample d n m before c h))

points_of-or_new :
    (n since until : ℕ) (o : Option Ring)
    → points_of o since until ≡ points (or_new n o) since until
unfolding points_from
points_of-or_new n since until none = refl
points_of-or_new n since until (some r) = refl

-- Whatever messages come in, of whatever devices: the series of a device over a time range is the
-- last `capacity` valid readings of that device in the messages that were taken, those that lie in
-- the range, oldest first, as long as its readings came in order of time. No message of another
-- device, and no message that was dropped, shows in it.
pub series_for-recent :
    (d : Device) (n since until : ℕ) (messages : List Sample)
    → 0 < n
    → IsSorted (valid_points (readings_of d messages))
    → series_for d since until (add_all messages (new_cache n))
      ≡ keep (within since until) (recent n (valid_points (readings_of d messages)))
unfolding series_for find append_all
series_for-recent d n since until messages room sorted_ =
    let c = add_all messages (new_cache n) in
    let holds = Holds-all d n messages [] (new_cache n) (refl, refl) in
    points_of-or_new n since until (ring_of d c.rings)
    ∙ ap (λ r. points r since until) holds.1
    ∙ points-recent n since until (readings_of d messages) room sorted_
