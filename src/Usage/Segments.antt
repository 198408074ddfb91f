-- ===== src/Usage/Segments.antt =====
-- How many cards are in use at a time (packages/lab/src/constella_lab/activity_usage.py, `segments`).
-- The list `result` is kept with its last segment first, and turned round at the end.
use constella.Prelude.{
  ℕ, Bool, max, min, not, ◌&&◌, List, [], ◌∷◌, ◌++◌, Text, text_eq, ltb, leb, ◌==◌, if◌then◌else◌,
}
use constella.Prelude.Dicts.{Dict}
use constella.Prelude.Integers.{ℤ, pos, negsuc, ◌+ℤ◌, int_eq}
use constella.Prelude.Sorting.{sort_by}
use constella.Usage.Spans.{Span, union}

-- A `Usage`, of which `row` is the source; `span` is its start and its end.
pub record Usage : Type 0 where
  pub owner : Text
  pub label : Text
  pub span : Span
  pub card : Text
  pub model : Text
  pub key : Text

-- `cards[card].append(span)`
unfoldable pub append_span : Text → Span → Dict (List Span) → Dict (List Span)
append_span card a [] = (card, a ∷ []) ∷ []
append_span card a ((j, spans) ∷ cards) =
    let rest = append_span card a cards in
    if text_eq j card then (j, spans ++ a ∷ []) ∷ cards else (j, spans) ∷ rest

abbrev pub clipped : ℕ → ℕ → Span → Span
clipped start end a = record { start = max start a.start; end = min end a.end }

unfoldable pub cards_of : ℕ → ℕ → List Usage → Dict (List Span) → Dict (List Span)
cards_of start end [] cards = cards
cards_of start end (r ∷ records) cards =
    cards_of start end records (append_span r.card (clipped start end r.span) cards)

-- `events[at] += delta`
unfoldable pub bump : ℕ → ℤ → List (ℕ × ℤ) → List (ℕ × ℤ)
bump at delta [] = (at, delta) ∷ []
bump at delta ((time, d) ∷ events) =
    let rest = bump at delta events in
    if time == at then (time, d +ℤ delta) ∷ events else (time, d) ∷ rest

unfoldable pub add_spans : List Span → List (ℕ × ℤ) → List (ℕ × ℤ)
add_spans [] events = events
add_spans (a ∷ spans) events = add_spans spans (bump a.end (negsuc 0) (bump a.start (pos 1) events))

unfoldable pub add_cards : Dict (List Span) → List (ℕ × ℤ) → List (ℕ × ℤ)
add_cards [] events = events
add_cards ((card, spans) ∷ cards) events = add_cards cards (add_spans (union spans) events)

-- `sorted(events.items())`; no two have the same time.
abbrev pub event_before : ℕ × ℤ → ℕ × ℤ → Bool
event_before e f = leb e.0 f.0

abbrev pub sorted_events : List (ℕ × ℤ) → List (ℕ × ℤ)
sorted_events events = sort_by event_before events

pub record Segment : Type 0 where
  pub span : Span
  pub count : ℤ

-- A segment that goes on where the last one ends, with its count, makes one segment with it.
abbrev pub append_segment : ℕ → ℕ → ℤ → List Segment → List Segment
append_segment previous at active [] =
    record { span = record { start = previous; end = at }; count = active } ∷ []
append_segment previous at active (last ∷ result) =
    if (last.span.end == previous) && int_eq last.count active
    then record { span = record { start = last.span.start; end = at }; count = last.count } ∷ result
    else record { span = record { start = previous; end = at }; count = active } ∷ last ∷ result

abbrev pub emit : ℕ → ℕ → ℤ → List Segment → List Segment
emit previous at active result =
    if not (int_eq active (pos 0)) && ltb previous at
    then append_segment previous at active result
    else result

unfoldable pub sweep : ℤ → ℕ → List Segment → List (ℕ × ℤ) → List Segment
sweep active previous result [] = result
sweep active previous result ((at, delta) ∷ events) =
    sweep (active +ℤ delta) at (emit previous at active result) events

abbrev pub segments_turned : List Segment → List Segment
segments_turned [] = []
segments_turned (s ∷ result) = segments_turned result ++ s ∷ []

unfoldable pub segments : List Usage → ℕ → ℕ → List Segment
segments records start end =
    segments_turned
      (sweep (pos 0) start [] (sorted_events (add_cards (cards_of start end records []) [])))
