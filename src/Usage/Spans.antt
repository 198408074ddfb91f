-- ===== src/Usage/Spans.antt =====
-- `union` (packages/lab/src/constella_lab/activity_usage.py). Times are whole microseconds. The list
-- `merged` is kept with its last span first, and turned round at the end.
use constella.Prelude.{ℕ, max, Bool, ◌&&◌, ◌||◌, List, [], ◌∷◌, ◌++◌, ltb, leb, ◌==◌, if◌then◌else◌}
use constella.Prelude.Sorting.{sort_by}

pub record Span : Type 0 where
  pub start : ℕ
  pub end : ℕ

-- Python's order of pairs.
abbrev pub before : Span → Span → Bool
before a b = ltb a.start b.start || ((a.start == b.start) && leb a.end b.end)

-- `sorted(spans)`
abbrev pub sorted : List Span → List Span
sorted spans = sort_by before spans

-- What the loop of `union` does with a span that is not empty.
abbrev pub add_span : Span → List Span → List Span
add_span a [] = a ∷ []
add_span a (last ∷ merged) =
    if leb a.start last.end
    then record { start = last.start; end = max a.end last.end } ∷ merged
    else a ∷ last ∷ merged

unfoldable pub merge_spans : List Span → List Span → List Span
merge_spans merged [] = merged
merge_spans merged (a ∷ spans) =
    merge_spans (if leb a.end a.start then merged else add_span a merged) spans

abbrev pub turned : List Span → List Span
turned [] = []
turned (a ∷ spans) = turned spans ++ a ∷ []

unfoldable pub union : List Span → List Span
union spans = turned (merge_spans [] (sorted spans))

-- Whether a time lies in a span; the end is not in it.
abbrev pub covers : ℕ → Span → Bool
covers t a = leb a.start t && ltb t a.end
