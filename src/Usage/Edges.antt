-- ===== src/Usage/Edges.antt =====
-- The pieces into which `resolve_usage` cuts a row: which one a time lies in
-- (packages/lab/src/constella_lab/activity_usage.py).
use constella.Prelude.{
  or_true, ℕ, ◌≤◌, ◌<◌, ◌≡◌, refl, true, false, ◌&&◌, ◌||◌, List, [], ◌∷◌, ltb, leb, any, keep, All,
  All-map, arith, or_left, or_right, and_false, Option-cases, inl, inr, Bool-cases, ◌∙◌,
}
use constella.Usage.Spans.{Span, covers}
use constella.Usage.Owners.{Binding, bounds, sorted_set, pairs}
use constella.Usage.EdgeSets.{
  Agrees, All-sorted_set, any-sorted_set, AreStrict, AreStrict-sorted_set,
}

-- The one piece that t lies in.
abbrev pub HasPiece : ℕ → List ℕ → List Span → Type 0
HasPiece t edges spans =
    (a : Span) × (keep (covers t) spans ≡ a ∷ [])
    × (covers t a ≡ true)
    × All (Agrees a.start t) edges

none_later :
    (t m : ℕ) (edges : List ℕ)
    → t < m
    → AreStrict (m ∷ edges)
    → keep (covers t) (pairs (m ∷ edges)) ≡ []
unfolding pairs AreStrict
none_later t m [] h ok = refl
none_later t m (b ∷ edges) h ok =
    let next : m < b = ok.0.0 in
    let off : leb m t ≡ false = ground arith in rw off (none_later t b edges (omega arith) ok.1)

first_least :
    (t a : ℕ) (edges : List ℕ)
    → AreStrict (a ∷ edges)
    → any (λ x. leb x t) (a ∷ edges) ≡ true
    → a ≤ t
unfolding AreStrict
first_least t a [] ok h = ground arith
first_least t a (b ∷ edges) ok h = elim (Bool-cases (leb a t)) [
  | inl from ↦ ground arith
  | inr not_yet ↦
      let later : any (λ x. leb x t) (b ∷ edges) ≡ true = rw (← not_yet_or not_yet) h in
      let least = first_least t b edges ok.1 later in let next : a < b = ok.0.0 in omega arith
]
  where
    not_yet_or :
        leb a t ≡ false
        → (leb a t || any (λ x. leb x t) (b ∷ edges)) ≡ any (λ x. leb x t) (b ∷ edges)
    not_yet_or off = rw off refl

piece :
    (t : ℕ) (edges : List ℕ)
    → AreStrict edges
    → any (λ x. leb x t) edges ≡ true
    → any (λ x. ltb t x) edges ≡ true
    → HasPiece t edges (pairs edges)
unfolding pairs AreStrict
piece t [] ok from to = absurd (cc)
piece t (a ∷ []) ok from to = absurd (ground arith)
piece t (a ∷ b ∷ edges) ok from to =
    let start : a ≤ t = first_least t a (b ∷ edges) ok from in
    let next : a < b = ok.0.0 in
    elim (Bool-cases (ltb t b)) [
      | inl on ↦
          let here : covers t (record { start = a; end = b }) ≡ true = ground arith in
          let rest = none_later t b edges (ground arith) ok.1 in
          (
            record { start = a; end = b },
            rw (here, rest) refl,
            here,
            (
              ground arith,
              (ground arith, All-map (λ y. b < y) (Agrees a t) edges (λ y h. ground arith) ok.1.0),
            ),
          )
      | inr over ↦
          let off : covers t (record { start = a; end = b }) ≡ false = ground arith in
          let from' : any (λ x. leb x t) (b ∷ edges) ≡ true =
            let begun : leb b t ≡ true = ground arith in rw begun refl in
          let to' : any (λ x. ltb t x) (b ∷ edges) ≡ true =
            let gone : ltb t a ≡ false = ground arith in rw gone at to in
          let (s, one, inside, agree) = piece t (b ∷ edges) ok.1 from' to' in
          (s, rw off one, inside, (ground (arith, agree.0), agree))
    ]

no_piece_from :
    (t : ℕ) (edges : List ℕ) → any (λ x. leb x t) edges ≡ false → keep (covers t) (pairs edges) ≡ []
unfolding pairs
no_piece_from t [] h = refl
no_piece_from t (a ∷ []) h = refl
no_piece_from t (a ∷ b ∷ edges) h =
    let off : leb a t ≡ false = or_left (leb a t) _ h in
    rw off (no_piece_from t (b ∷ edges) (or_right (leb a t) _ h))

no_piece_to :
    (t : ℕ) (edges : List ℕ) → any (λ x. ltb t x) edges ≡ false → keep (covers t) (pairs edges) ≡ []
unfolding pairs
no_piece_to t [] h = refl
no_piece_to t (a ∷ []) h = refl
no_piece_to t (a ∷ b ∷ edges) h =
    let rest : any (λ x. ltb t x) (b ∷ edges) ≡ false = or_right (ltb t a) _ h in
    let off : ltb t b ≡ false = or_left (ltb t b) _ rest in
    let out : covers t (record { start = a; end = b }) ≡ false = rw off (and_false (leb a t)) in
    rw out (no_piece_to t (b ∷ edges) rest)

-- The bounds lie in the range of the row.
AreBounded :
    (left right : ℕ) (matches : List Binding)
    → left ≤ right
    → All (λ x. (left ≤ x) × (x ≤ right)) (bounds left right matches)
unfolding bounds
AreBounded left right [] h = tt
AreBounded left right (b ∷ matches) h = elim (Option-cases b.valid_to) [
  | inl open_ ↦ rw open_ ((omega arith, omega arith), AreBounded left right matches h)
  | inr (to, ended) ↦
      rw ended
        ((omega arith, omega arith), ((omega arith, omega arith), AreBounded left right matches h))
]

any_from :
    (t left right : ℕ) (xs : List ℕ)
    → All (λ x. (left ≤ x) × (x ≤ right)) xs
    → t < left
    → any (λ x. leb x t) xs ≡ false
any_from t left right [] h early = refl
any_from t left right (x ∷ xs) h early =
    let low : left ≤ x = h.0.0 in
    let off : leb x t ≡ false = ground arith in rw off (any_from t left right xs h.1 early)

any_to :
    (t left right : ℕ) (xs : List ℕ)
    → All (λ x. (left ≤ x) × (x ≤ right)) xs
    → right ≤ t
    → any (λ x. ltb t x) xs ≡ false
any_to t left right [] h late = refl
any_to t left right (x ∷ xs) h late =
    let high : x ≤ right = h.0.1 in
    let off : ltb t x ≡ false = ground arith in rw off (any_to t left right xs h.1 late)

abbrev pub edges_of : ℕ → ℕ → List Binding → List ℕ
edges_of left right matches = sorted_set (left ∷ right ∷ bounds left right matches)

-- A time of the row lies in one piece, and no bound lies between the piece's start and it.
pub piece-inside :
    (t left right : ℕ) (matches : List Binding)
    → left ≤ t
    → t < right
    → (a : Span) × (keep (covers t) (pairs (edges_of left right matches)) ≡ a ∷ [])
      × (covers t a ≡ true)
      × All (Agrees a.start t) (left ∷ right ∷ bounds left right matches)
piece-inside t left right matches from to =
    let xs = left ∷ right ∷ bounds left right matches in
    let begun : leb left t ≡ true = ground arith in
    let on : ltb t right ≡ true = ground arith in
    let has_from : any (λ x. leb x t) (sorted_set xs) ≡ true =
      any-sorted_set (λ x. leb x t) xs ∙ rw begun refl in
    let has_to : any (λ x. ltb t x) (sorted_set xs) ≡ true =
      any-sorted_set (λ x. ltb t x) xs ∙ rw on (or_true (ltb t left)) in
    let (a, one, inside, agree) =
      piece t (sorted_set xs) (AreStrict-sorted_set xs) has_from has_to in
    (a, one, inside, All-sorted_set a.start t xs agree)

pub piece-outside :
    (t left right : ℕ) (matches : List Binding)
    → left ≤ right
    → (leb left t && ltb t right) ≡ false
    → keep (covers t) (pairs (edges_of left right matches)) ≡ []
piece-outside t left right matches h out =
    let xs = left ∷ right ∷ bounds left right matches in
    let bounded : All (λ x. (left ≤ x) × (x ≤ right)) xs =
      ((omega arith, h), ((h, omega arith), AreBounded left right matches h)) in
    elim (Bool-cases (leb left t)) [
      | inl begun ↦
          no_piece_to t (sorted_set xs)
            (any-sorted_set (λ x. ltb t x) xs ∙ any_to t left right xs bounded (ground arith))
      | inr early ↦
          no_piece_from t (sorted_set xs)
            (any-sorted_set (λ x. leb x t) xs ∙ any_from t left right xs bounded (ground arith))
    ]
