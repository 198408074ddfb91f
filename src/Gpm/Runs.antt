-- ===== src/Gpm/Runs.antt =====
-- What a ring holds after any samples, and what its flag says (performance_highres.py, `append`).
use constella.Prelude.{
  ℕ, suc, ◌-◌, ◌≤◌, ◌<◌, ◌≡◌, refl, Bool, true, false, Option, List, [], ◌∷◌, ◌++◌, ltb, ◌==◌,
  arith, inl, inr, Bool-cases, recent, recent-empty, recent-append, append-nil, append_assoc,
  if◌then◌else◌, sym, ap, ◌∙◌,
}
use constella.Telemetry.Rules.{Number}
use constella.Gpm.Ring.{
  Ring, Performance, new, metric_count, time_at, goes_back, written, marked, append, readings_of,
}
use constella.Gpm.Cells.{IsRing, Stamped, stamped}
use constella.Gpm.Contents.{
  contents, IsRing-written, IsRing-new, contents-written, nth-partial_old, nth-partial_new,
  nth-full_old, nth-full_new,
}

-- The calls of `append`, in order.
unfoldable pub append_all : List (ℕ × Performance) → Ring → Ring
append_all [] r = r
append_all ((at, p) ∷ samples) r = append_all samples (append at p r)

-- What the calls say of the metric k.
unfoldable pub stamps : ℕ → List (ℕ × Performance) → List Stamped
stamps k [] = []
stamps k ((at, p) ∷ samples) = stamped k at (readings_of p) ∷ stamps k samples

-- While the flag is set, no sample is older than the one before it.
unfoldable pub IsOrdered : Ring → Type 0
IsOrdered r = r.time_ordered ≡ true → (o : ℕ) → suc o < r.count → time_at r o ≤ time_at r (suc o)

-- Of a ring that was made with n places and has taken samples.
pub record IsLive (n : ℕ) (r : Ring) : Type 0 where
  pub is_ring : IsRing r
  pub size : r.capacity ≡ n
  pub ordered : IsOrdered r

IsRing-marked : (r : Ring) (at : ℕ) → IsRing r → IsRing (marked at r)
IsRing-marked r at ok = record {
  some_room = ok.some_room;
  count_fits = ok.count_fits;
  write_fits = ok.write_fits;
  partial = ok.partial;
  times_length = ok.times_length;
  masks_length = ok.masks_length;
  arrays = ok.arrays;
  values_length = ok.values_length;
}

flag_kept :
    (b ordered : Bool) → (if b then false else ordered) ≡ true → (b ≡ false) × (ordered ≡ true)
flag_kept true ordered h = cc
flag_kept false ordered h = (refl, h)

-- Where the clock did not go back, the newest sample is no later than the next.
newest-le : (r : Ring) (at o : ℕ) → goes_back at r ≡ false → suc o ≡ r.count → time_at r o ≤ at
newest-le r at o h last =
    let some_held : (r.count == 0) ≡ false = ground arith in
    let here : r.count - 1 ≡ o = omega arith in
    let later : ltb at (time_at r (r.count - 1)) ≡ false = simp some_held at h in
    let later' : ltb at (time_at r o) ≡ false = ap (λ i. ltb at (time_at r i)) (sym here) ∙ later in
    ground (arith, later')

abbrev at_of : Stamped → ℕ
at_of s = s.at_time

abbrev some_metric : 0 < metric_count
some_metric = omega arith

IsOrdered-written :
    (r : Ring) (at : ℕ) (readings : List (Option Number))
    → IsRing r
    → ((o : ℕ) → suc o < r.count → time_at r o ≤ time_at r (suc o))
    → goes_back at r ≡ false
    → (o : ℕ) → suc o < (written at readings r).count
    → time_at (written at readings r) o ≤ time_at (written at readings r) (suc o)
unfolding written
IsOrdered-written r at readings ok before forward o inside =
    elim (Bool-cases (ltb r.count r.capacity)) [
      | inl less ↦
          let room : r.count < r.capacity = ground arith in
          let old : time_at (written at readings r) o ≡ time_at r o =
            ap at_of (nth-partial_old r at 0 readings ok some_metric o room (omega arith)) in
          elim (Bool-cases (ltb (suc o) r.count)) [
            | inl held ↦
                let held' : suc o < r.count = ground arith in
                let next : time_at (written at readings r) (suc o) ≡ time_at r (suc o) =
                  ap at_of (nth-partial_old r at 0 readings ok some_metric (suc o) room held') in
                omega (arith, old, next, before o held')
            | inr last ↦
                let here : suc o ≡ r.count = ground arith in
                let next : time_at (written at readings r) (suc o) ≡ at =
                  ap (time_at (written at readings r)) here
                  ∙ ap at_of (nth-partial_new r at 0 readings ok some_metric room) in
                omega (arith, old, next, newest-le r at o forward here)
          ]
      | inr more ↦
          let fits = ok.count_fits in
          let full : r.count ≡ r.capacity = ground arith in
          let old : time_at (written at readings r) o ≡ time_at r (suc o) =
            ap at_of (nth-full_old r at 0 readings ok some_metric o full (omega arith)) in
          elim (Bool-cases (ltb (suc (suc o)) r.count)) [
            | inl held ↦
                let held' : suc (suc o) < r.count = ground arith in
                let next : time_at (written at readings r) (suc o) ≡ time_at r (suc (suc o)) =
                  ap at_of
                    (nth-full_old r at 0 readings ok some_metric (suc o) full (omega arith)) in
                omega (arith, old, next, before (suc o) held')
            | inr last ↦
                let here : suc (suc o) ≡ r.count = ground arith in
                let next : time_at (written at readings r) (suc o) ≡ at =
                  ap at_of
                    (nth-full_new r at 0 readings ok some_metric (suc o) full (omega arith)) in
                omega (arith, old, next, newest-le r at (suc o) forward here)
          ]
    ]

IsOrdered-append :
    (r : Ring) (at : ℕ) (p : Performance) → IsRing r → IsOrdered r → IsOrdered (append at p r)
unfolding append IsOrdered
IsOrdered-append r at p ok ordered set o inside =
    let (forward, was_set) = flag_kept (goes_back at r) r.time_ordered (unfold written in set) in
    IsOrdered-written (marked at r) at (readings_of p) (IsRing-marked r at ok) (ordered was_set)
      forward o inside

IsLive-append :
    (n : ℕ) (r : Ring) (at : ℕ) (p : Performance) → IsLive n r → IsLive n (append at p r)
unfolding append
IsLive-append n r at p live = record {
  is_ring = IsRing-written (marked at r) at (readings_of p) (IsRing-marked r at live.is_ring);
  size = unfold written in live.size;
  ordered = IsOrdered-append r at p live.is_ring live.ordered;
}

pub IsLive-new : (n : ℕ) → 0 < n → IsLive n (new n)
unfolding IsOrdered
IsLive-new n room = record {
  is_ring = IsRing-new n room;
  size = refl;
  ordered = (λ set o inside. absurd (omega arith));
}

pub append_all-IsLive :
    (n : ℕ) (samples : List (ℕ × Performance)) (r : Ring)
    → IsLive n r
    → IsLive n (append_all samples r)
unfolding append_all
append_all-IsLive n [] r live = live
append_all-IsLive n ((at, p) ∷ samples) r live =
    append_all-IsLive n samples (append at p r) (IsLive-append n r at p live)

contents-append :
    (n k : ℕ) (r : Ring) (at : ℕ) (p : Performance) (before : List Stamped)
    → IsLive n r
    → k < metric_count
    → contents r k ≡ recent n before
    → contents (append at p r) k ≡ recent n (before ++ stamped k at (readings_of p) ∷ [])
unfolding append
contents-append n k r at p before live inside holds =
    let s = stamped k at (readings_of p) in
    contents-written (marked at r) at k (readings_of p) (IsRing-marked r at live.is_ring) inside
    ∙ ap (λ c. recent c (contents r k ++ s ∷ [])) live.size
    ∙ ap (λ ss. recent n (ss ++ s ∷ [])) holds
    ∙ recent-append n before s

contents_run :
    (n k : ℕ) (samples : List (ℕ × Performance)) (r : Ring) (before : List Stamped)
    → IsLive n r
    → k < metric_count
    → contents r k ≡ recent n before
    → contents (append_all samples r) k ≡ recent n (before ++ stamps k samples)
unfolding append_all stamps
contents_run n k [] r before live inside holds = rw (append-nil before) holds
contents_run n k ((at, p) ∷ samples) r before live inside holds =
    let s = stamped k at (readings_of p) in
    contents_run n k samples (append at p r) (before ++ s ∷ []) (IsLive-append n r at p live) inside
      (contents-append n k r at p before live inside holds)
    ∙ ap (recent n) (append_assoc before (s ∷ []) (stamps k samples))

-- Whatever samples come in, a ring of n places holds of every metric the last n samples, oldest
-- first: each with its time, and with its reading exactly if the sample was available and the
-- metric's rule accepted the value.
pub contents-samples :
    (n k : ℕ) (samples : List (ℕ × Performance))
    → 0 < n
    → k < metric_count
    → contents (append_all samples (new n)) k ≡ recent n (stamps k samples)
contents-samples n k samples room inside =
    contents_run n k samples (new n) [] (IsLive-new n room) inside (sym (recent-empty n))
