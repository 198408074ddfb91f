-- ===== src/Usage/Events.antt =====
-- What the events of `segments` add up to (packages/lab/src/constella_lab/activity_usage.py).
use constella.Prelude.{
  Text, ℕ, ◌+◌, ◌<◌, ◌≡◌, refl, Bool, true, false, List, [], ◌∷◌, leb, ltb, ◌==◌, any, tally, All,
  arith, inl, inr, Bool-cases, if◌then◌else◌, ap, ◌∙◌,
}
use constella.Prelude.Dicts.{Dict}
use constella.Prelude.Integers.{ℤ, pos, negsuc, ◌+ℤ◌, above, below, add-balance}
use constella.Prelude.Sorting.{weigh}
use constella.Usage.Spans.{Span, union, covers}
use constella.Usage.Union.{AreDisjoint, union-covers}
use constella.Usage.Segments.{bump, add_spans, add_cards}

-- Over the entries of a dict.
abbrev pub total : {V : Type 0} → (V → ℕ) → Dict V → ℕ
total n d = weigh (λ (e : Text × _). n e.1) d

module _ (p : ℕ → Bool) where
  -- What the events whose times pass the test add and take away.
  abbrev pub ups : List (ℕ × ℤ) → ℕ
  ups events = weigh (λ e. if p e.0 then above e.1 else 0) events

  abbrev pub downs : List (ℕ × ℤ) → ℕ
  downs events = weigh (λ e. if p e.0 then below e.1 else 0) events

  -- The sum of two, each of it weighed by the test.
  weighed :
      (b : Bool) (z w : ℤ)
      → (if b then above (z +ℤ w) else 0)
          + ((if b then below z else 0) + (if b then below w else 0))
        ≡ (if b then below (z +ℤ w) else 0)
          + ((if b then above z else 0) + (if b then above w else 0))
  weighed true z w = add-balance z w
  weighed false z w = refl

  sums-bump :
      (at : ℕ) (d : ℤ) (events : List (ℕ × ℤ))
      → ups (bump at d events) + (downs events + (if p at then below d else 0))
        ≡ downs (bump at d events) + (ups events + (if p at then above d else 0))
  unfolding bump
  sums-bump at d [] = omega arith
  sums-bump at d ((time, e) ∷ events) = elim (Bool-cases (time == at)) [
    | inl same ↦
        let here : time ≡ at = ground arith in
        let step = weighed (p time) e d in rw (same, ← here) (omega (arith, step))
    | inr other ↦ rw other (omega (arith, sums-bump at d events))
  ]

  if_zero : (b : Bool) → ◌≡◌ {A = ℕ} (if b then 0 else 0) 0
  if_zero true = refl
  if_zero false = refl

  sums-add_spans :
      (spans : List Span) (events : List (ℕ × ℤ))
      → ups (add_spans spans events) + (downs events + tally (λ a. p a.end) spans)
        ≡ downs (add_spans spans events) + (ups events + tally (λ a. p a.start) spans)
  unfolding add_spans
  sums-add_spans [] events = omega arith
  sums-add_spans (a ∷ spans) events =
      let first = sums-bump a.start (pos 1) events in
      let second = sums-bump a.end (negsuc 0) (bump a.start (pos 1) events) in
      let rest = sums-add_spans spans (bump a.end (negsuc 0) (bump a.start (pos 1) events)) in
      omega (arith, first, second, rest, if_zero (p a.start), if_zero (p a.end))

  -- Over the spans of all cards.
  pub sums-add_cards :
      (n : List Span → ℕ) (cards : Dict (List Span)) (events : List (ℕ × ℤ))
      → ((spans : List Span)
          → tally (λ a. p a.start) (union spans) ≡ tally (λ a. p a.end) (union spans) + n spans)
      → ups (add_cards cards events) + downs events
        ≡ downs (add_cards cards events) + (ups events + total n cards)
  unfolding add_cards
  sums-add_cards n [] events h = omega arith
  sums-add_cards n ((card, spans) ∷ cards) events h =
      let here = sums-add_spans (union spans) events in
      let rest = sums-add_cards n cards (add_spans (union spans) events) h in
      omega (arith, here, rest, h spans)

-- Spans that start after t.
not_begun :
    (t m : ℕ) (spans : List Span)
    → All (λ b. m < b.start) spans
    → t < m
    → AreDisjoint spans
    → (tally (λ a. leb a.start t) spans ≡ 0)
      × (tally (λ a. leb a.end t) spans ≡ 0)
      × (any (covers t) spans ≡ false)
unfolding AreDisjoint
not_begun t m [] later h ok = (refl, refl, refl)
not_begun t m (a ∷ spans) later h ok =
    let (one, two, three) = not_begun t m spans later.1 h ok.2 in
    let first : m < a.start = later.0 in
    let full : a.start < a.end = ok.0 in
    let start : leb a.start t ≡ false = ground arith in
    let end_ : leb a.end t ≡ false = ground arith in
    rw (start, end_) (omega (arith, one), omega (arith, two), three)

-- Of disjoint spans as many have begun as have ended, and one more where one of them is on.
begun :
    (t : ℕ) (spans : List Span)
    → AreDisjoint spans
    → tally (λ a. leb a.start t) spans
      ≡ tally (λ a. leb a.end t) spans + (if any (covers t) spans then 1 else 0)
unfolding AreDisjoint
begun t [] ok = refl
begun t (a ∷ spans) (full, later, ok) = elim (Bool-cases (leb a.end t)) [
  | inl over ↦
      let ih = begun t spans ok in
      let begun_first : leb a.start t ≡ true = ground arith in
      let off : ltb t a.end ≡ false = ground arith in
      rw (over, begun_first, off) (omega (arith, ih))
  | inr on ↦
      let (none_begun, none_over, none_on) = not_begun t a.end spans later (ground arith) ok in
      let on' : ltb t a.end ≡ true = ground arith in
      elim (Bool-cases (leb a.start t)) [
        | inl here ↦ rw (here, on, on') (omega (arith, none_begun, none_over))
        | inr early ↦ rw (early, on, none_on) (omega (arith, none_begun, none_over))
      ]
]

pub begun-union :
    (t : ℕ) (spans : List Span)
    → tally (λ a. leb a.start t) (union spans)
      ≡ tally (λ a. leb a.end t) (union spans) + (if any (covers t) spans then 1 else 0)
begun-union t spans =
    let (same, apart) = union-covers spans in
    begun t (union spans) apart
    ∙ ap (λ b. tally (λ a. leb a.end t) (union spans) + (if b then 1 else 0)) (same t)
