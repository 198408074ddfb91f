-- ===== src/Prelude/Sorting.antt =====
-- A stable sort, as Python's `sorted` and SQL's `ORDER BY` are, by a test that says what comes first.
use Prim.Native.Nat.{ℕ, ◌+◌, ◌≤◌}
use mathlib.Core.Path.{◌≡◌, refl, sym, ap, ◌∙◌}
use mathlib.Core.Logic.{inl, inr}
use mathlib.Core.Bool.{Bool, true, false, ◌||◌}
use mathlib.Core.List.{List, [], ◌∷◌}
use native.Mathlib.Omega.{arith}
use constella.Prelude.Booleans.{or_swap}
use constella.Prelude.Tests.{if◌then◌else◌, Bool-cases}
use constella.Prelude.Lists.{any, tally, length, All, All-map}

-- The sum of a number for each element.
abbrev pub weigh : {A : Type 0} → (A → ℕ) → List A → ℕ
weigh n [] = 0
weigh n (x ∷ xs) = n x + weigh n xs

tally-weigh :
    {A : Type 0} (p : A → Bool) (xs : List A) → tally p xs ≡ weigh (λ x. if p x then 1 else 0) xs
tally-weigh p [] = refl
tally-weigh p (x ∷ xs) = ap (λ n. (if p x then 1 else 0) + n) (tally-weigh p xs)

length-weigh : {A : Type 0} (xs : List A) → length xs ≡ weigh (λ x. 1) xs
length-weigh [] = refl
length-weigh (x ∷ xs) = omega (arith, length-weigh xs)

-- Each element is related to all that come after it.
abbrev pub AreRelated : {A : Type 0} → (A → A → Type 0) → List A → Type 0
AreRelated R [] = Unit
AreRelated R (x ∷ xs) = All (R x) xs × AreRelated R xs

-- The elements come in the order of their keys.
abbrev pub AreInOrder : {A : Type 0} → (A → ℕ) → List A → Type 0
AreInOrder key xs = AreRelated (λ x y. key x ≤ key y) xs

module _ {A : Type 0} (before : A → A → Bool) where
  unfoldable pub insert_by : A → List A → List A
  insert_by a [] = a ∷ []
  insert_by a (b ∷ xs) = let rest = insert_by a xs in if before a b then a ∷ b ∷ xs else b ∷ rest

  unfoldable pub sort_by : List A → List A
  sort_by [] = []
  sort_by (a ∷ xs) = insert_by a (sort_by xs)

  any-insert_by : (p : A → Bool) (a : A) (xs : List A) → any p (insert_by a xs) ≡ (p a || any p xs)
  unfolding insert_by
  any-insert_by p a [] = refl
  any-insert_by p a (b ∷ xs) = elim (Bool-cases (before a b)) [
    | inl first ↦ rw first refl
    | inr after ↦ rw (after, any-insert_by p a xs) (or_swap (p b) (p a) (any p xs))
  ]

  pub any-sort_by : (p : A → Bool) (xs : List A) → any p (sort_by xs) ≡ any p xs
  unfolding sort_by
  any-sort_by p [] = refl
  any-sort_by p (a ∷ xs) = any-insert_by p a (sort_by xs) ∙ ap (λ b. p a || b) (any-sort_by p xs)

  All-insert_by : (P : A → Type 0) (a : A) (xs : List A) → P a → All P xs → All P (insert_by a xs)
  unfolding insert_by
  All-insert_by P a [] h hs = (h, tt)
  All-insert_by P a (b ∷ xs) h hs = elim (Bool-cases (before a b)) [
    | inl first ↦ rw first (h, hs)
    | inr after ↦ rw after (hs.0, All-insert_by P a xs h hs.1)
  ]

  pub All-sort_by : (P : A → Type 0) (xs : List A) → All P xs → All P (sort_by xs)
  unfolding sort_by
  All-sort_by P [] hs = tt
  All-sort_by P (a ∷ xs) hs = All-insert_by P a (sort_by xs) hs.0 (All-sort_by P xs hs.1)

  weigh-insert_by : (n : A → ℕ) (a : A) (xs : List A) → weigh n (insert_by a xs) ≡ n a + weigh n xs
  unfolding insert_by
  weigh-insert_by n a [] = refl
  weigh-insert_by n a (b ∷ xs) = elim (Bool-cases (before a b)) [
    | inl first ↦ rw first refl
    | inr after ↦ rw after (omega (arith, weigh-insert_by n a xs))
  ]

  pub weigh-sort_by : (n : A → ℕ) (xs : List A) → weigh n (sort_by xs) ≡ weigh n xs
  unfolding sort_by
  weigh-sort_by n [] = refl
  weigh-sort_by n (a ∷ xs) = omega (arith, weigh-insert_by n a (sort_by xs), weigh-sort_by n xs)

  pub tally-sort_by : (p : A → Bool) (xs : List A) → tally p (sort_by xs) ≡ tally p xs
  tally-sort_by p xs =
      tally-weigh p (sort_by xs)
      ∙ weigh-sort_by (λ x. if p x then 1 else 0) xs
      ∙ sym (tally-weigh p xs)

  pub length-sort_by : (xs : List A) → length (sort_by xs) ≡ length xs
  length-sort_by xs = length-weigh (sort_by xs) ∙ weigh-sort_by (λ x. 1) xs ∙ sym (length-weigh xs)

  module _ (R : A → A → Type 0) (trans : (a b c : A) → R a b → R b c → R a c)
      (first : (a b : A) → before a b ≡ true → R a b)
      (after : (a b : A) → before a b ≡ false → R b a) where
    AreRelated-insert_by : (a : A) (xs : List A) → AreRelated R xs → AreRelated R (insert_by a xs)
    unfolding insert_by
    AreRelated-insert_by a [] ok = (tt, tt)
    AreRelated-insert_by a (b ∷ xs) ok = elim (Bool-cases (before a b)) [
      | inl now ↦
          let least = first a b now in
          rw now ((least, All-map (R b) (R a) xs (λ y h. trans a b y least h) ok.0), ok)
      | inr later ↦
          rw later (All-insert_by (R b) a xs (after a b later) ok.0, AreRelated-insert_by a xs ok.1)
    ]

    pub AreRelated-sort_by : (xs : List A) → AreRelated R (sort_by xs)
    unfolding sort_by
    AreRelated-sort_by [] = tt
    AreRelated-sort_by (a ∷ xs) = AreRelated-insert_by a (sort_by xs) (AreRelated-sort_by xs)

  pub AreInOrder-sort_by :
      (key : A → ℕ)
      → ((a b : A) → before a b ≡ true → key a ≤ key b)
      → ((a b : A) → before a b ≡ false → key b ≤ key a)
      → (xs : List A) → AreInOrder key (sort_by xs)
  AreInOrder-sort_by key first after xs =
      AreRelated-sort_by (λ x y. key x ≤ key y) (λ a b c h k. omega (arith, h, k)) first after xs
