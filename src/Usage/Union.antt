-- ===== src/Usage/Union.antt =====
-- The union of spans against the times that they cover (activity_usage.py, `union`).
use constella.Prelude.{
  ℕ, ◌≤◌, ◌<◌, max, ◌≡◌, refl, sym, ap, ◌∙◌, Bool, true, false, ◌||◌, or_swap, or_assoc, or_false,
  List, [], ◌∷◌, ◌++◌, leb, any, All, All-append, arith, inl, inr, Bool-cases,
}
use constella.Usage.Spans.{Span, before, sorted, add_span, merge_spans, turned, union, covers}
use constella.Prelude.Sorting.{AreInOrder, any-sort_by, AreInOrder-sort_by}

-- The spans start no earlier than those before them.
abbrev AreSorted : List Span → Type 0
AreSorted spans = AreInOrder (λ b. b.start) spans

AreSorted-sorted : (spans : List Span) → AreSorted (sorted spans)
AreSorted-sorted spans =
    AreInOrder-sort_by before (λ b. b.start) (λ a b h. ground arith) (λ a b h. ground arith) spans

-- Newest first, not empty, and with a gap between each and the one before it.
unfoldable pub AreApart : List Span → Type 0
AreApart [] = Unit
AreApart (a ∷ spans) = (a.start < a.end) × All (λ b. b.end < a.start) spans × AreApart spans

-- A span that starts within or right after another one makes one span with it.
covers-joined :
    (t : ℕ) (a last : Span)
    → last.start ≤ a.start
    → a.start ≤ last.end
    → a.start < a.end
    → covers t (record { start = last.start; end = max a.end last.end })
      ≡ (covers t a || covers t last)
covers-joined t a last sorted_ joined full = elim (Bool-cases (leb a.end last.end)) [
  | inl inside ↦
      let longest : max a.end last.end ≡ last.end = ground arith in rw longest (ground arith)
  | inr longer ↦
      let longest : max a.end last.end ≡ a.end = ground arith in rw longest (ground arith)
]

-- The last merged span starts no later than what comes.
abbrev AreBefore : List Span → List Span → Type 0
AreBefore [] spans = Unit
AreBefore (last ∷ merged) spans = All (λ b. last.start ≤ b.start) spans

covers-add_span :
    (t : ℕ) (a : Span) (merged : List Span)
    → AreBefore merged (a ∷ [])
    → a.start < a.end
    → any (covers t) (add_span a merged) ≡ (covers t a || any (covers t) merged)
covers-add_span t a [] h full = refl
covers-add_span t a (last ∷ merged) h full = elim (Bool-cases (leb a.start last.end)) [
  | inl joined ↦
      simp (joined, covers-joined t a last h.0 (ground arith) full)
        (or_assoc (covers t a) (covers t last) (any (covers t) merged))
  | inr apart ↦ simp apart refl
]

covers-empty : (t : ℕ) (a : Span) → leb a.end a.start ≡ true → covers t a ≡ false
covers-empty t a h = ground arith

ends_before :
    (m n : ℕ) (spans : List Span) → m ≤ n → All (λ b. b.end < m) spans → All (λ b. b.end < n) spans
ends_before m n [] h hs = tt
ends_before m n (b ∷ spans) h hs = (omega arith, ends_before m n spans h hs.1)

AreApart-add_span :
    (a : Span) (merged : List Span)
    → AreBefore merged (a ∷ [])
    → a.start < a.end
    → AreApart merged
    → AreApart (add_span a merged)
unfolding AreApart
AreApart-add_span a [] h full ok = (full, tt, tt)
AreApart-add_span a (last ∷ merged) h full ok = elim (Bool-cases (leb a.start last.end)) [
  | inl joined ↦ simp joined (omega arith, ok.1, ok.2)
  | inr apart ↦
      simp apart (full, (ground arith, ends_before last.start a.start merged h.0 ok.1), ok)
]

AreBefore-tail :
    (a : Span) (merged spans : List Span) → AreBefore merged (a ∷ spans) → AreBefore merged spans
AreBefore-tail a [] spans h = tt
AreBefore-tail a (last ∷ merged) spans h = h.1

AreBefore-first :
    (a : Span) (merged spans : List Span) → AreBefore merged (a ∷ spans) → AreBefore merged (a ∷ [])
AreBefore-first a [] spans h = tt
AreBefore-first a (last ∷ merged) spans h = (h.0, tt)

AreBefore-add_span :
    (a : Span) (merged spans : List Span)
    → AreBefore merged (a ∷ spans)
    → All (λ b. a.start ≤ b.start) spans
    → AreBefore (add_span a merged) spans
AreBefore-add_span a [] spans h later = later
AreBefore-add_span a (last ∷ merged) spans h later = elim (Bool-cases (leb a.start last.end)) [
  | inl joined ↦ simp joined h.1
  | inr apart ↦ simp apart later
]

or_empty : (p q r : Bool) → q ≡ false → (p || r) ≡ (p || (q || r))
or_empty p q r h = rw h refl

or_moved : (p q r : Bool) → ((q || p) || r) ≡ (p || (q || r))
or_moved true true r = refl
or_moved true false r = refl
or_moved false true r = refl
or_moved false false r = refl

covers-merge_spans :
    (t : ℕ) (merged spans : List Span)
    → AreSorted spans
    → AreBefore merged spans
    → any (covers t) (merge_spans merged spans) ≡ (any (covers t) merged || any (covers t) spans)
unfolding merge_spans
covers-merge_spans t merged [] ok h = sym (or_false (any (covers t) merged))
covers-merge_spans t merged (a ∷ spans) ok h = elim (Bool-cases (leb a.end a.start)) [
  | inl empty ↦ simp empty (
      covers-merge_spans t merged spans ok.1 (AreBefore-tail a merged spans h)
      ∙ or_empty (any (covers t) merged) (covers t a) (any (covers t) spans)
          (covers-empty t a empty))
  | inr full ↦ simp full (
      covers-merge_spans t (add_span a merged) spans ok.1 (AreBefore-add_span a merged spans h ok.0)
      ∙ ap (λ b. b || any (covers t) spans)
          (covers-add_span t a merged (AreBefore-first a merged spans h) (ground arith))
      ∙ or_moved (any (covers t) merged) (covers t a) (any (covers t) spans))
]

AreApart-merge_spans :
    (merged spans : List Span)
    → AreSorted spans
    → AreBefore merged spans
    → AreApart merged
    → AreApart (merge_spans merged spans)
unfolding merge_spans
AreApart-merge_spans merged [] ok h apart = apart
AreApart-merge_spans merged (a ∷ spans) ok h apart = elim (Bool-cases (leb a.end a.start)) [
  | inl empty ↦
      simp empty (AreApart-merge_spans merged spans ok.1 (AreBefore-tail a merged spans h) apart)
  | inr full ↦ simp full (
      AreApart-merge_spans (add_span a merged) spans ok.1 (AreBefore-add_span a merged spans h ok.0)
        (AreApart-add_span a merged (AreBefore-first a merged spans h) (ground arith) apart))
]

-- Each span ends after it starts and before the next one starts.
unfoldable pub AreDisjoint : List Span → Type 0
AreDisjoint [] = Unit
AreDisjoint (a ∷ spans) = (a.start < a.end) × All (λ b. a.end < b.start) spans × AreDisjoint spans

AreDisjoint-snoc :
    (a : Span) (spans : List Span)
    → a.start < a.end
    → All (λ b. b.end < a.start) spans
    → AreDisjoint spans
    → AreDisjoint (spans ++ a ∷ [])
unfolding AreDisjoint
AreDisjoint-snoc a [] full h ok = (full, tt, tt)
AreDisjoint-snoc a (b ∷ spans) full h ok = (
  ok.0,
  All-append (λ c. b.end < c.start) spans (a ∷ []) ok.1 (h.0, tt),
  AreDisjoint-snoc a spans full h.1 ok.2,
)

All-turned :
    (n : ℕ) (spans : List Span) → All (λ b. b.end < n) spans → All (λ b. b.end < n) (turned spans)
All-turned n [] h = tt
All-turned n (a ∷ spans) h =
    All-append (λ b. b.end < n) (turned spans) (a ∷ []) (All-turned n spans h.1) (h.0, tt)

AreDisjoint-turned : (spans : List Span) → AreApart spans → AreDisjoint (turned spans)
unfolding AreApart AreDisjoint
AreDisjoint-turned [] ok = tt
AreDisjoint-turned (a ∷ spans) ok =
    AreDisjoint-snoc a (turned spans) ok.0 (All-turned a.start spans ok.1)
      (AreDisjoint-turned spans ok.2)

pub any-snoc :
    (t : ℕ) (spans : List Span) (a : Span)
    → any (covers t) (spans ++ a ∷ []) ≡ (covers t a || any (covers t) spans)
any-snoc t [] a = refl
any-snoc t (b ∷ spans) a =
    ap (λ x. covers t b || x) (any-snoc t spans a)
    ∙ or_swap (covers t b) (covers t a) (any (covers t) spans)

any-turned : (t : ℕ) (spans : List Span) → any (covers t) (turned spans) ≡ any (covers t) spans
any-turned t [] = refl
any-turned t (a ∷ spans) =
    any-snoc t (turned spans) a ∙ ap (λ x. covers t a || x) (any-turned t spans)

-- The union of any spans, in any order, covers the times that they cover and no others, and its spans
-- come in order, none of them empty, with a gap between each and the next.
pub union-covers :
    (spans : List Span)
    → ((t : ℕ) → any (covers t) (union spans) ≡ any (covers t) spans) × AreDisjoint (union spans)
unfolding union AreApart
union-covers spans = (
  (λ t.
      any-turned t (merge_spans [] (sorted spans))
      ∙ covers-merge_spans t [] (sorted spans) (AreSorted-sorted spans) tt
      ∙ any-sort_by before (covers t) spans),
  AreDisjoint-turned (merge_spans [] (sorted spans))
      (AreApart-merge_spans [] (sorted spans) (AreSorted-sorted spans) tt tt),
)
