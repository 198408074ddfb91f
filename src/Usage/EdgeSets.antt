-- ===== src/Usage/EdgeSets.antt =====
-- The set of edges that `resolve_usage` sorts (packages/lab/src/constella_lab/activity_usage.py).
use constella.Prelude.{
  or_swap, ℕ, ◌<◌, ◌≡◌, refl, Bool, true, false, ◌||◌, List, [], ◌∷◌, ltb, leb, ◌==◌, any, All,
  All-map, arith, inl, inr, Bool-cases, ap, ◌∙◌,
}
use constella.Usage.Owners.{insert_edge, sorted_set}

any-insert_edge :
    (p : ℕ → Bool) (x : ℕ) (edges : List ℕ) → any p (insert_edge x edges) ≡ (p x || any p edges)
unfolding insert_edge
any-insert_edge p x [] = refl
any-insert_edge p x (y ∷ edges) = elim (Bool-cases (x == y)) [
  | inl same ↦ let e : x ≡ y = ground arith in rw (same, e) (or_twice (p y) (any p edges))
  | inr other ↦ elim (Bool-cases (ltb x y)) [
    | inl less ↦ rw (other, less) refl
    | inr more ↦ rw (other, more, any-insert_edge p x edges) (or_swap (p y) (p x) (any p edges))
  ]
]
  where
    or_twice : (a b : Bool) → (a || b) ≡ (a || (a || b))
    or_twice true b = refl
    or_twice false b = refl

pub any-sorted_set : (p : ℕ → Bool) (xs : List ℕ) → any p (sorted_set xs) ≡ any p xs
unfolding sorted_set
any-sorted_set p [] = refl
any-sorted_set p (x ∷ xs) =
    any-insert_edge p x (sorted_set xs) ∙ ap (λ b. p x || b) (any-sorted_set p xs)

-- The edges are in order, and none stands twice.
unfoldable pub AreStrict : List ℕ → Type 0
AreStrict [] = Unit
AreStrict (x ∷ edges) = All (λ y. x < y) edges × AreStrict edges

All-insert_edge :
    (n x : ℕ) (edges : List ℕ)
    → n < x
    → All (λ y. n < y) edges
    → All (λ y. n < y) (insert_edge x edges)
unfolding insert_edge
All-insert_edge n x [] h hs = (h, tt)
All-insert_edge n x (y ∷ edges) h hs = elim (Bool-cases (x == y)) [
  | inl same ↦ rw same hs
  | inr other ↦ elim (Bool-cases (ltb x y)) [
    | inl less ↦ rw (other, less) (h, hs)
    | inr more ↦ rw (other, more) (hs.0, All-insert_edge n x edges h hs.1)
  ]
]

AreStrict-insert_edge : (x : ℕ) (edges : List ℕ) → AreStrict edges → AreStrict (insert_edge x edges)
unfolding insert_edge AreStrict
AreStrict-insert_edge x [] ok = (tt, tt)
AreStrict-insert_edge x (y ∷ edges) ok = elim (Bool-cases (x == y)) [
  | inl same ↦ rw same ok
  | inr other ↦ elim (Bool-cases (ltb x y)) [
    | inl less ↦
        let first : x < y = ground arith in
        let rest = All-map (λ z. y < z) (λ z. x < z) edges (λ z h. omega (arith, first, h)) ok.0 in
        rw (other, less) ((first, rest), ok)
    | inr more ↦
        rw (other, more)
          (All-insert_edge y x edges (ground arith) ok.0, AreStrict-insert_edge x edges ok.1)
  ]
]

pub AreStrict-sorted_set : (xs : List ℕ) → AreStrict (sorted_set xs)
unfolding sorted_set AreStrict
AreStrict-sorted_set [] = tt
AreStrict-sorted_set (x ∷ xs) = AreStrict-insert_edge x (sorted_set xs) (AreStrict-sorted_set xs)

-- No edge lies between the start of the piece and t.
abbrev pub Agrees : ℕ → ℕ → ℕ → Type 0
Agrees a t x = leb x a ≡ leb x t

-- What agrees on the edges agrees on what they were made of.
All-inserted :
    (a t x : ℕ) (edges : List ℕ)
    → All (Agrees a t) (insert_edge x edges)
    → Agrees a t x × All (Agrees a t) edges
unfolding insert_edge
All-inserted a t x [] h = h
All-inserted a t x (y ∷ edges) h = elim (Bool-cases (x == y)) [
  | inl same ↦
      let e : x ≡ y = ground arith in
      let both : All (Agrees a t) (y ∷ edges) = rw same at h in (rw e both.0, both)
  | inr other ↦ elim (Bool-cases (ltb x y)) [
    | inl less ↦ rw (other, less) at h
    | inr more ↦
        let (here, rest) : Agrees a t y × All (Agrees a t) (insert_edge x edges) =
          rw (other, more) at h in
        let (found, others) = All-inserted a t x edges rest in (found, (here, others))
  ]
]

pub All-sorted_set :
    (a t : ℕ) (xs : List ℕ) → All (Agrees a t) (sorted_set xs) → All (Agrees a t) xs
unfolding sorted_set
All-sorted_set a t [] h = tt
All-sorted_set a t (x ∷ xs) h =
    let (here, rest) = All-inserted a t x (sorted_set xs) h in (here, All-sorted_set a t xs rest)
