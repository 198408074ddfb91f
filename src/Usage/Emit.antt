-- ===== src/Usage/Emit.antt =====
-- The segments that `emit` adds one by one, and which of them are on at a time
-- (packages/lab/src/constella_lab/activity_usage.py).
use constella.Prelude.{
  and_false, ℕ, ◌+◌, ◌≤◌, ◌<◌, ◌≡◌, refl, Bool, true, false, not, ◌&&◌, List, [], ◌∷◌, leb, ltb,
  ◌==◌, All, All-map, arith, inl, inr, Bool-cases, if◌then◌else◌, and_both,
}
use constella.Prelude.Integers.{ℤ, pos, ◌+ℤ◌, int_eq, int_eq→eq, above, below, add-balance}
use constella.Prelude.Sorting.{AreInOrder, AreInOrder-sort_by}
use constella.Usage.Spans.{covers}
use constella.Usage.Segments.{Segment, append_segment, emit, event_before, sorted_events}
use constella.Usage.Events.{ups, downs}

-- The counts of the segments that are on at a time.
unfoldable pub counts_at : ℕ → List Segment → List ℤ
counts_at t [] = []
counts_at t (s ∷ result) =
    let rest = counts_at t result in if covers t s.span then s.count ∷ rest else rest

-- The count alone, and nothing where it is 0.
abbrev pub nonzero : ℤ → List ℤ
nonzero z = if int_eq z (pos 0) then [] else z ∷ []

abbrev pub AreTimed : List (ℕ × ℤ) → Type 0
AreTimed events = AreInOrder (λ (e : ℕ × ℤ). e.0) events

pub AreTimed-sorted_events : (events : List (ℕ × ℤ)) → AreTimed (sorted_events events)
AreTimed-sorted_events events =
    AreInOrder-sort_by event_before (λ (e : ℕ × ℤ). e.0) (λ e f h. ground arith)
      (λ e f h. ground arith) events

-- What is active after the events whose times pass the test.
abbrev pub after : (ℕ → Bool) → ℤ → List (ℕ × ℤ) → ℤ
after p active [] = active
after p active ((at, d) ∷ events) = after p (if p at then active +ℤ d else active) events

pub after-balance :
    (p : ℕ → Bool) (active : ℤ) (events : List (ℕ × ℤ))
    → above (after p active events) + (below active + downs p events)
      ≡ below (after p active events) + (above active + ups p events)
after-balance p active [] = omega arith
after-balance p active ((at, d) ∷ events) = elim (Bool-cases (p at)) [
  | inl on ↦ rw on (omega (arith, after-balance p (active +ℤ d) events, add-balance active d))
  | inr off ↦ rw off (omega (arith, after-balance p active events))
]

pub after-none :
    (t at : ℕ) (active : ℤ) (events : List (ℕ × ℤ))
    → t < at
    → All (λ (f : ℕ × ℤ). at ≤ f.0) events
    → after (λ n. leb n t) active events ≡ active
after-none t at active [] h later = refl
after-none t at active ((n, d) ∷ events) h later =
    let first : at ≤ n = later.0 in
    let off : leb n t ≡ false = ground arith in rw off (after-none t at active events h later.1)

-- The segments so far end no later than the last event.
abbrev pub AreDone : ℕ → List Segment → Type 0
AreDone n result = All (λ (s : Segment). (s.span.start < s.span.end) × (s.span.end ≤ n)) result

pub counts_at-done :
    (t n : ℕ) (result : List Segment) → AreDone n result → n ≤ t → counts_at t result ≡ []
unfolding counts_at
counts_at-done t n [] done h = refl
counts_at-done t n (s ∷ result) done h =
    let ended : s.span.end ≤ n = done.0.1 in
    let off : covers t s.span ≡ false = ground arith in rw off (counts_at-done t n result done.1 h)

AreDone-later : (m n : ℕ) (result : List Segment) → m ≤ n → AreDone m result → AreDone n result
AreDone-later m n result h done =
    All-map _ (λ (s : Segment). (s.span.start < s.span.end) × (s.span.end ≤ n)) result
      (λ s d. (d.0, omega (arith, d.1, h))) done

AreDone-append :
    (previous at : ℕ) (active : ℤ) (result : List Segment)
    → previous < at
    → AreDone previous result
    → AreDone at (append_segment previous at active result)
AreDone-append previous at active [] h done = ((h, omega arith), tt)
AreDone-append previous at active (last ∷ result) h done =
    elim (Bool-cases ((last.span.end == previous) && int_eq last.count active)) [
      | inl joined ↦
          let start : last.span.start < last.span.end = done.0.0 in
          let end_ : last.span.end ≤ previous = done.0.1 in
          rw joined
            ((omega arith, omega arith), AreDone-later previous at result (omega arith) done.1)
      | inr apart ↦
          rw apart ((h, omega arith), AreDone-later previous at (last ∷ result) (omega arith) done)
    ]

abbrev pub between : ℕ → ℕ → ℕ → Bool
between previous at t = leb previous t && ltb t at

counts_at-new :
    (t previous at : ℕ) (active : ℤ) (result : List Segment)
    → AreDone previous result
    → counts_at t (record { span = record { start = previous; end = at }; count = active } ∷ result)
      ≡ (if between previous at t then active ∷ [] else counts_at t result)
unfolding counts_at
counts_at-new t previous at active result done = elim (Bool-cases (between previous at t)) [
  | inl on ↦
      let (from, to) = and_both (leb previous t) (ltb t at) on in
      rw (on, counts_at-done t previous result done (ground arith)) refl
  | inr off ↦ rw off refl
]

counts_at-append :
    (t previous at : ℕ) (active : ℤ) (result : List Segment)
    → previous < at
    → AreDone previous result
    → counts_at t (append_segment previous at active result)
      ≡ (if between previous at t then active ∷ [] else counts_at t result)
unfolding counts_at
counts_at-append t previous at active [] h done = counts_at-new t previous at active [] tt
counts_at-append t previous at active (last ∷ result) h done =
    elim (Bool-cases ((last.span.end == previous) && int_eq last.count active)) [
      | inl joined ↦
          let (touches, same) =
            and_both (last.span.end == previous) (int_eq last.count active) joined in
          let start : last.span.start < last.span.end = done.0.0 in
          let here : last.span.end ≡ previous = ground arith in
          rw joined (longer here start (int_eq→eq last.count active same))
      | inr apart ↦ rw apart (counts_at-new t previous at active (last ∷ result) done)
    ]
  where
    longer :
        last.span.end ≡ previous
        → last.span.start < last.span.end
        → last.count ≡ active
        → (if between last.span.start at t
            then last.count ∷ counts_at t result
            else counts_at t result)
          ≡ (if between previous at t
              then active ∷ []
              else (if covers t last.span
                  then last.count ∷ counts_at t result
                  else counts_at t result))
    longer here start same = elim (Bool-cases (between previous at t)) [
      | inl on ↦
          let (from, to) = and_both (leb previous t) (ltb t at) on in
          let from' : leb last.span.start t ≡ true = ground arith in
          rw (on, from', to, same, counts_at-done t previous result done.1 (ground arith)) refl
      | inr off ↦
          let same_on : between last.span.start at t ≡ covers t last.span = ground arith in
          rw (off, same_on) refl
    ]

pub emit-done :
    (previous at : ℕ) (active : ℤ) (result : List Segment)
    → previous ≤ at
    → AreDone previous result
    → AreDone at (emit previous at active result)
emit-done previous at active result h done =
    elim (Bool-cases (not (int_eq active (pos 0)) && ltb previous at)) [
      | inl new ↦
          let (some_on, later) = and_both (not (int_eq active (pos 0))) (ltb previous at) new in
          rw new (AreDone-append previous at active result (ground arith) done)
      | inr old ↦ rw old (AreDone-later previous at result h done)
    ]

pub counts_at-emit :
    (t previous at : ℕ) (active : ℤ) (result : List Segment)
    → AreDone previous result
    → counts_at t (emit previous at active result)
      ≡ (if between previous at t then nonzero active else counts_at t result)
counts_at-emit t previous at active result done = elim (Bool-cases (ltb previous at)) [
  | inl later ↦ elim (Bool-cases (int_eq active (pos 0))) [
    | inl nil ↦ elim (Bool-cases (between previous at t)) [
      | inl on ↦
          let (from, to) = and_both (leb previous t) (ltb t at) on in
          rw (nil, on) (counts_at-done t previous result done (ground arith))
      | inr off ↦ rw (nil, off) refl
    ]
    | inr some_on ↦
        rw (some_on, later) (counts_at-append t previous at active result (ground arith) done)
  ]
  | inr same ↦
      let off : between previous at t ≡ false = ground arith in
      let never : (not (int_eq active (pos 0)) && ltb previous at) ≡ false =
        rw same (and_false (not (int_eq active (pos 0)))) in
      rw (never, off) refl
]
