-- ===== src/Usage/Cards.antt =====
-- The segments against the cards that the records use at a time
-- (packages/lab/src/constella_lab/activity_usage.py, `segments`).
use constella.Prelude.{
  ℕ, ◌+◌, ◌≡◌, refl, Bool, true, false, not, ◌&&◌, ◌||◌, List, [], ◌∷◌, Text, text_eq, text_eq→eq,
  text_eq-sym, text_eq_refl, leb, ltb, any, tally, arith, inl, inr, Bool-cases, if◌then◌else◌, ap,
  ◌∙◌, sym,
}
use constella.Prelude.Dicts.{Dict, branches_swap}
use constella.Prelude.Integers.{pos, above, below, eq_pos}
use constella.Prelude.Sorting.{weigh-sort_by}
use constella.Usage.Spans.{Span, covers, union}
use constella.Usage.Union.{any-snoc}
use constella.Usage.Segments.{
  Usage, append_span, clipped, cards_of, add_cards, event_before, sorted_events, segments,
}
use constella.Usage.Events.{total, sums-add_cards, begun-union}
use constella.Usage.Sweep.{counts_at-swept}
use constella.Usage.Emit.{counts_at, nonzero, AreTimed-sorted_events, after, after-balance}

-- Whether a record uses its card at the time t of the window.
abbrev pub uses : ℕ → ℕ → ℕ → Usage → Bool
uses t start end r = covers t r.span && (leb start t && ltb t end)

-- How many cards the records use at the time t, without those in `seen`.
unfoldable pub cards_used : ℕ → ℕ → ℕ → List Text → List Usage → ℕ
cards_used t start end seen [] = 0
cards_used t start end seen (r ∷ records) =
    let fresh = uses t start end r && not (any (text_eq r.card) seen) in
    (if fresh then 1 else 0)
    + cards_used t start end (if fresh then r.card ∷ seen else seen) records

-- Whether the spans of a card cover t.
unfoldable pub on : ℕ → Text → Dict (List Span) → Bool
on t card [] = false
on t card ((j, spans) ∷ cards) =
    let rest = on t card cards in if text_eq j card then any (covers t) spans else rest

abbrev one : Bool → ℕ
one b = if b then 1 else 0

abbrev busy : ℕ → List Span → ℕ
busy t spans = if any (covers t) spans then 1 else 0

busy-more :
    (a b : Bool) (n : ℕ)
    → (if a || b then 1 else 0) + n ≡ (if b then 1 else 0) + n + (if a && not b then 1 else 0)
busy-more true true n = omega arith
busy-more true false n = omega arith
busy-more false true n = omega arith
busy-more false false n = omega arith

total-append_span :
    (t : ℕ) (card : Text) (a : Span) (cards : Dict (List Span))
    → total (busy t) (append_span card a cards)
      ≡ total (busy t) cards + (if covers t a && not (on t card cards) then 1 else 0)
unfolding append_span on
total-append_span t card a [] = busy-more (covers t a) false 0
total-append_span t card a ((j, spans) ∷ cards) = elim (Bool-cases (text_eq j card)) [
  | inl same ↦
      rw (same, any-snoc t spans a)
        (busy-more (covers t a) (any (covers t) spans) (total (busy t) cards))
  | inr other ↦ rw other (omega (arith, total-append_span t card a cards))
]

on-append_span :
    (t : ℕ) (card c : Text) (a : Span) (cards : Dict (List Span))
    → on t c (append_span card a cards)
      ≡ (if text_eq card c then covers t a || on t card cards else on t c cards)
unfolding append_span on
on-append_span t card c a [] = refl
on-append_span t card c a ((j, spans) ∷ cards) = elim (Bool-cases (text_eq j card)) [
  | inl same ↦
      let alike : text_eq j c ≡ text_eq card c = rw (text_eq→eq j card same) refl in
      rw (same, alike, any-snoc t spans a) (under_one (text_eq card c))
  | inr other ↦
      rw (other, on-append_span t card c a cards)
        (branches_swap card c j (any (covers t) spans) (covers t a || on t card cards)
          (on t c cards) other)
]
  where
    under_one :
        (b : Bool)
        → (if b then covers t a || any (covers t) spans else on t c cards) ≡ (
            if b
            then covers t a || any (covers t) spans
            else (if b then any (covers t) spans else on t c cards))
    under_one true = refl
    under_one false = refl

covers-clipped :
    (t start end : ℕ) (r : Usage) → covers t (clipped start end r.span) ≡ uses t start end r
covers-clipped t start end r = ground arith

-- The cards seen are those that are on.
abbrev AreSeen : ℕ → List Text → Dict (List Span) → Type 0
AreSeen t seen cards = (c : Text) → any (text_eq c) seen ≡ on t c cards

AreSeen-append_span :
    (t : ℕ) (card : Text) (a : Span) (cards : Dict (List Span)) (seen : List Text) (b : Bool)
    → covers t a ≡ b
    → AreSeen t seen cards
    → AreSeen t
        (if b && not (any (text_eq card) seen) then card ∷ seen else seen)
        (append_span card a cards)
AreSeen-append_span t card a cards seen b used same c = elim (Bool-cases (text_eq card c)) [
  | inl here ↦
      let e : card ≡ c = text_eq→eq card c here in
      let now : on t c (append_span card a cards) ≡ (covers t a || on t card cards) =
        on-append_span t card c a cards ∙ rw here refl in
      (rw (← e) (seen_self b))
      ∙ ap (λ x. x || any (text_eq card) seen) (sym used)
      ∙ ap (λ x. covers t a || x) (same card)
      ∙ sym now
  | inr there ↦
      let away : text_eq c card ≡ false = text_eq-sym c card ∙ there in
      let now : on t c (append_span card a cards) ≡ on t c cards =
        on-append_span t card c a cards ∙ rw there refl in
      seen_other (b && not (any (text_eq card) seen)) away ∙ same c ∙ sym now
]
  where
    seen_self :
        (x : Bool)
        → any (text_eq card) (if x && not (any (text_eq card) seen) then card ∷ seen else seen)
          ≡ (x || any (text_eq card) seen)
    seen_self false = refl
    seen_self true = elim (Bool-cases (any (text_eq card) seen)) [
      | inl old ↦ rw (old, old) refl
      | inr new ↦ rw (new, text_eq_refl card) refl
    ]

    seen_other :
        (x : Bool)
        → text_eq c card ≡ false
        → any (text_eq c) (if x then card ∷ seen else seen) ≡ any (text_eq c) seen
    seen_other true away = rw away refl
    seen_other false away = refl

-- Each card counts once, however many of its records are on.
total-cards_of :
    (t start end : ℕ) (records : List Usage) (cards : Dict (List Span)) (seen : List Text)
    → AreSeen t seen cards
    → total (busy t) (cards_of start end records cards)
      ≡ total (busy t) cards + cards_used t start end seen records
unfolding cards_of cards_used
total-cards_of t start end [] cards seen same = omega arith
total-cards_of t start end (r ∷ records) cards seen same =
    let clip = covers-clipped t start end r in
    let more = total-append_span t r.card (clipped start end r.span) cards in
    let fresh = uses t start end r && not (any (text_eq r.card) seen) in
    let rest =
      total-cards_of t start end records (append_span r.card (clipped start end r.span) cards)
        (if fresh then r.card ∷ seen else seen)
        (AreSeen-append_span t r.card (clipped start end r.span) cards seen (uses t start end r)
          clip same) in
    let counted : one (covers t (clipped start end r.span) && not (on t r.card cards)) ≡ one fresh =
      (λ i. one (clip i && not (sym (same r.card) i))) in
    omega (arith, rest, more, counted)

total_none : {V : Type 0} (d : Dict V) → total (λ v. 0) d ≡ 0
total_none [] = refl
total_none ((k, v) ∷ d) = omega (arith, total_none d)

-- What is active is what has begun less what has ended, in any order of the events.
after-counted :
    (p : ℕ → Bool) (n : List Span → ℕ) (cards : Dict (List Span))
    → ((spans : List Span)
        → tally (λ a. p a.start) (union spans) ≡ tally (λ a. p a.end) (union spans) + n spans)
    → after p (pos 0) (sorted_events (add_cards cards [])) ≡ pos (total n cards)
after-counted p n cards h =
    let events = add_cards cards [] in
    let active = after p (pos 0) (sorted_events events) in
    let same_ups = weigh-sort_by event_before (λ e. if p e.0 then above e.1 else 0) events in
    let same_downs = weigh-sort_by event_before (λ e. if p e.0 then below e.1 else 0) events in
    let balance = after-balance p (pos 0) (sorted_events events) in
    let sums = sums-add_cards p n cards [] h in
    let above_is : above active ≡ below active + total n cards =
      omega (arith, same_ups, same_downs, balance, sums) in
    eq_pos active (total n cards) above_is

-- At each time of the window, the segments that are on are one, with the number of the cards that
-- the records use at this time, where a card counts once; they are none where no card is in use or
-- the time lies outside the window.
pub segments-cards_used :
    (records : List Usage) (start end t : ℕ)
    → counts_at t (segments records start end) ≡ nonzero (pos (cards_used t start end [] records))
unfolding segments
segments-cards_used records start end t =
    let cards = cards_of start end records [] in
    let none_left : after (λ n. true) (pos 0) (sorted_events (add_cards cards [])) ≡ pos 0 =
      after-counted (λ n. true) (λ spans. 0) cards (λ spans. omega arith)
      ∙ ap pos (total_none cards) in
    let now : after (λ n. leb n t) (pos 0) (sorted_events (add_cards cards []))
        ≡ pos (cards_used t start end [] records) =
      after-counted (λ n. leb n t) (busy t) cards (begun-union t)
      ∙ ap pos (omega (arith, total-cards_of t start end records [] [] (λ c. unfold on in refl))) in
    counts_at-swept t start (sorted_events (add_cards cards []))
      (AreTimed-sorted_events (add_cards cards [])) none_left
    ∙ ap nonzero now
