-- ===== src/Highres/Points.antt =====
-- What `points` reports of a time range (highres.py, `points`).
use constella.Prelude.{
  and_false, ℕ, zero, suc, ◌+◌, ◌≤◌, ◌<◌, ◌≡◌, refl, Bool, true, false, ◌&&◌, List, [], ◌∷◌, ltb,
  leb, keep, All, recent, drop, arith, inl, inr, Bool-cases, ◌∙◌, ap, sym, if◌then◌else◌,
}
use constella.Highres.Ring.{Reading, Ring, Point, new, points, points_from}
use constella.Prelude.Tables.{tabulate}
use constella.Highres.Contents.{nth, append_all, valid_points, contents-recent}

abbrev pub within : ℕ → ℕ → Point → Bool
within since until p = leb since p.sampled_at && leb p.sampled_at until

-- No sample is older than one before it.
unfoldable pub IsSorted : List Point → Type 0
IsSorted [] = Unit
IsSorted (p ∷ ps) = All (λ q. p.sampled_at ≤ q.sampled_at) ps × IsSorted ps

-- The loop of `points` on a list.
unfoldable window : ℕ → ℕ → List Point → List Point
window since until [] = []
window since until (p ∷ ps) =
    let rest = window since until ps in
    if ltb p.sampled_at since then rest else if ltb until p.sampled_at then [] else p ∷ rest

points_from-window :
    (r : Ring) (since until left offset : ℕ) (f : ℕ → ℕ)
    → ((i : ℕ) → f i ≡ offset + i)
    → points_from r since until left offset ≡ window since until (tabulate left (λ i. nth r (f i)))
unfolding points_from window
points_from-window r since until zero offset f h = refl
points_from-window r since until (suc left) offset f h =
    let here : f 0 ≡ offset = omega (arith, h 0) in
    rw
      (
        here,
        points_from-window r since until left (suc offset) (λ i. f (suc i))
            (λ i. omega (arith, h (suc i))),
      )
      refl

keep-later :
    (since until t : ℕ) (ps : List Point)
    → until < t
    → All (λ q. t ≤ q.sampled_at) ps
    → keep (within since until) ps ≡ []
keep-later since until t [] late h = refl
keep-later since until t (p ∷ ps) late h =
    let out : leb p.sampled_at until ≡ false = ground arith in
    rw (out, and_false (leb since p.sampled_at)) (keep-later since until t ps late h.1)

window-keep :
    (since until : ℕ) (ps : List Point)
    → IsSorted ps
    → window since until ps ≡ keep (within since until) ps
unfolding IsSorted window
window-keep since until [] ok = refl
window-keep since until (p ∷ ps) ok = elim (Bool-cases (ltb p.sampled_at since)) [
  | inl early ↦
      let out : leb since p.sampled_at ≡ false = ground arith in
      rw (early, out) (window-keep since until ps ok.1)
  | inr begun ↦
      let in_time : leb since p.sampled_at ≡ true = ground arith in
      elim (Bool-cases (ltb until p.sampled_at)) [
        | inl late ↦
            let over : leb p.sampled_at until ≡ false = ground arith in
            rw (begun, late, in_time, over)
              (sym (keep-later since until p.sampled_at ps (ground arith) ok.0))
        | inr inside ↦
            let before : leb p.sampled_at until ≡ true = ground arith in
            rw (begun, inside, in_time, before)
              (ap (λ qs. p ∷ qs) (window-keep since until ps ok.1))
      ]
]

IsSorted-drop : (n : ℕ) (ps : List Point) → IsSorted ps → IsSorted (drop n ps)
unfolding IsSorted
IsSorted-drop zero ps ok = ok
IsSorted-drop (suc n) [] ok = ok
IsSorted-drop (suc n) (p ∷ ps) ok = IsSorted-drop n ps ok.1

-- When samples come in no earlier than those before them, the points that a ring of n places reports
-- of a time range are the last n valid samples that lie in it, the bounds included, oldest first.
pub points-recent :
    (n since until : ℕ) (samples : List (ℕ × Reading))
    → 0 < n
    → IsSorted (valid_points samples)
    → points (append_all samples (new n)) since until
      ≡ keep (within since until) (recent n (valid_points samples))
points-recent n since until samples room ok =
    points_from-window (append_all samples (new n)) since until _ 0 (λ i. i) (λ i. omega arith)
    ∙ ap (window since until) (contents-recent n samples room)
    ∙ window-keep since until (recent n (valid_points samples))
        (IsSorted-drop _ (valid_points samples) ok)
