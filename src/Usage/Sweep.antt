-- ===== src/Usage/Sweep.antt =====
-- The sweep of `segments` over events in order of time: which segment is on at a time
-- (packages/lab/src/constella_lab/activity_usage.py).
use constella.Prelude.{
  ℕ, ◌≤◌, ◌≡◌, refl, true, List, [], ◌∷◌, ◌++◌, leb, All, arith, append-nil, inl, inr, Bool-cases,
  if◌then◌else◌, ap, ◌∙◌, sym,
}
use constella.Prelude.Integers.{ℤ, pos, ◌+ℤ◌, int_eq}
use constella.Usage.Spans.{covers}
use constella.Usage.Segments.{Segment, emit, sweep, segments_turned}
use constella.Usage.Emit.{
  counts_at, nonzero, AreTimed, after, after-none, AreDone, counts_at-done, between, emit-done,
  counts_at-emit,
}

-- What is on from `previous` on, where nothing is active after the last event.
counts_at-sweep :
    (t previous : ℕ) (active : ℤ) (result : List Segment) (events : List (ℕ × ℤ))
    → AreDone previous result
    → All (λ (f : ℕ × ℤ). previous ≤ f.0) events
    → AreTimed events
    → after (λ n. true) active events ≡ pos 0
    → counts_at t (sweep active previous result events) ≡ (
        if leb previous t then nonzero (after (λ n. leb n t) active events) else counts_at t result)
unfolding sweep
counts_at-sweep t previous active result [] done later order end_ =
    elim (Bool-cases (leb previous t)) [
      | inl on ↦
          rw on (counts_at-done t previous result done (ground arith) ∙ sym (ap nonzero end_))
      | inr off ↦ rw off refl
    ]
counts_at-sweep t previous active result ((at, d) ∷ events) done later order end_ =
    let first : previous ≤ at = later.0 in
    let next = emit previous at active result in
    let ih =
      counts_at-sweep t at (active +ℤ d) next events
        (emit-done previous at active result first done) order.0 order.1 end_ in
    elim (Bool-cases (leb at t)) [
      | inl past ↦ let from : leb previous t ≡ true = ground arith in ih ∙ rw (past, from) refl
      | inr now ↦
          let short : between previous at t ≡ leb previous t = ground arith in
          let still = after-none t at active events (ground arith) order.0 in
          ih ∙ rw now (counts_at-emit t previous at active result done ∙ rw (short, still) refl)
    ]

abbrev ints_turned : List ℤ → List ℤ
ints_turned [] = []
ints_turned (z ∷ zs) = ints_turned zs ++ z ∷ []

counts_at-snoc :
    (t : ℕ) (result : List Segment) (s : Segment)
    → counts_at t (result ++ s ∷ []) ≡ counts_at t result ++ counts_at t (s ∷ [])
unfolding counts_at
counts_at-snoc t [] s = refl
counts_at-snoc t (r ∷ result) s = elim (Bool-cases (covers t r.span)) [
  | inl on ↦ rw on (ap (λ zs. r.count ∷ zs) (counts_at-snoc t result s))
  | inr off ↦ rw off (counts_at-snoc t result s)
]

counts_at-turned :
    (t : ℕ) (result : List Segment)
    → counts_at t (segments_turned result) ≡ ints_turned (counts_at t result)
unfolding counts_at
counts_at-turned t [] = refl
counts_at-turned t (s ∷ result) =
    counts_at-snoc t (segments_turned result) s
    ∙ ap (λ zs. zs ++ counts_at t (s ∷ [])) (counts_at-turned t result)
    ∙ by_first
  where
    by_first :
        ints_turned (counts_at t result) ++ (if covers t s.span then s.count ∷ [] else [])
        ≡ ints_turned (if covers t s.span then s.count ∷ counts_at t result else counts_at t result)
    by_first = elim (Bool-cases (covers t s.span)) [
      | inl on ↦ rw on refl
      | inr off ↦ rw off (append-nil (ints_turned (counts_at t result)))
    ]

nonzero-turned : (z : ℤ) → ints_turned (nonzero z) ≡ nonzero z
nonzero-turned z = elim (Bool-cases (int_eq z (pos 0))) [
  | inl nil ↦ rw nil refl
  | inr some_on ↦ rw some_on refl
]

-- Of events in order, the first of which may come before `start`.
pub counts_at-swept :
    (t start : ℕ) (events : List (ℕ × ℤ))
    → AreTimed events
    → after (λ n. true) (pos 0) events ≡ pos 0
    → counts_at t (segments_turned (sweep (pos 0) start [] events))
      ≡ nonzero (after (λ n. leb n t) (pos 0) events)
unfolding sweep counts_at
counts_at-swept t start [] order end_ = refl
counts_at-swept t start ((at, d) ∷ events) order end_ =
    counts_at-turned t (sweep (pos 0 +ℤ d) at [] events)
    ∙ ap ints_turned (counts_at-sweep t at (pos 0 +ℤ d) [] events tt order.0 order.1 end_ ∙ level)
    ∙ nonzero-turned (after (λ n. leb n t) (pos 0) ((at, d) ∷ events))
  where
    level :
        (if leb at t then nonzero (after (λ n. leb n t) (pos 0 +ℤ d) events) else [])
        ≡ nonzero (after (λ n. leb n t) (if leb at t then pos 0 +ℤ d else pos 0) events)
    level = elim (Bool-cases (leb at t)) [
      | inl past ↦ rw past refl
      | inr now ↦ rw now (sym (ap nonzero (after-none t at (pos 0) events (ground arith) order.0)))
    ]
