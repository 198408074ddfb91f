-- ===== src/Prelude/Keyed.antt =====
-- A Python dict in insertion order, for keys with a test of equality.
use mathlib.Core.Path.{◌≡◌, refl, subst, ◌∙◌}
use mathlib.Core.Logic.{inl, inr}
use mathlib.Core.Bool.{Bool, true, false}
use mathlib.Core.Option.{Option, none, some}
use mathlib.Core.List.{List, [], ◌∷◌}
use constella.Prelude.Tests.{if◌then◌else◌, Bool-cases}
use constella.Prelude.Lists.{All, All-map}

pub record Keys (K : Type 0) : Type 0 where
  pub same : K → K → Bool
  pub sound : (a b : K) → same a b ≡ true → a ≡ b
  pub reflexive : (a : K) → same a a ≡ true

excludes :
    {K : Type 0} ⦃e : Keys K⦄ (j k i : K)
    → e.same j k ≡ true
    → e.same k i ≡ false
    → e.same j i ≡ false
excludes ⦃e⦄ j k i is_k ne = rw (e.sound j k is_k) ne

module _ {K V : Type 0} ⦃e : Keys K⦄ where
  -- `d.get(key)`
  unfoldable pub find : K → List (K × V) → Option V
  find k [] = none
  find k ((j, v) ∷ d) = let rest = find k d in if e.same j k then some v else rest

  -- `d[key] = f(d.get(key))`
  unfoldable pub alter : K → (Option V → V) → List (K × V) → List (K × V)
  alter k f [] = (k, f none) ∷ []
  alter k f ((j, v) ∷ d) =
      let rest = alter k f d in if e.same j k then (j, f (some v)) ∷ d else (j, v) ∷ rest

  -- `d.pop(key, None)`
  unfoldable pub pop : K → List (K × V) → List (K × V)
  pop k [] = []
  pop k ((j, v) ∷ d) = let rest = pop k d in if e.same j k then rest else (j, v) ∷ rest

  pub find-alter_self :
      (k : K) (f : Option V → V) (d : List (K × V)) → find k (alter k f d) ≡ some (f (find k d))
  unfolding find alter
  find-alter_self k f [] = rw (e.reflexive k) refl
  find-alter_self k f ((j, v) ∷ d) = elim (Bool-cases (e.same j k)) [
    | inl here ↦ rw (here, here) refl
    | inr other ↦ rw (other, other) (find-alter_self k f d)
  ]

  pub find-alter_same :
      (k i : K) (f : Option V → V) (d : List (K × V))
      → e.same k i ≡ true
      → find i (alter k f d) ≡ some (f (find i d))
  find-alter_same k i f d here =
      subst (λ j. find j (alter k f d) ≡ some (f (find j d))) (e.sound k i here)
        (find-alter_self k f d)

  pub find-alter_other :
      (k i : K) (f : Option V → V) (d : List (K × V))
      → e.same k i ≡ false
      → find i (alter k f d) ≡ find i d
  unfolding find alter
  find-alter_other k i f [] ne = rw ne refl
  find-alter_other k i f ((j, v) ∷ d) ne = elim (Bool-cases (e.same j k)) [
    | inl here ↦ rw (here, excludes j k i here ne) refl
    | inr other ↦ rw (other, find-alter_other k i f d ne) refl
  ]

  pub find-pop_other :
      (k i : K) (d : List (K × V)) → e.same k i ≡ false → find i (pop k d) ≡ find i d
  unfolding find pop
  find-pop_other k i [] ne = refl
  find-pop_other k i ((j, v) ∷ d) ne = elim (Bool-cases (e.same j k)) [
    | inl here ↦ rw (here, excludes j k i here ne) (find-pop_other k i d ne)
    | inr other ↦ rw (other, find-pop_other k i d ne) refl
  ]

  pub find-pop_self : (k : K) (d : List (K × V)) → find k (pop k d) ≡ none
  unfolding find pop
  find-pop_self k [] = refl
  find-pop_self k ((j, v) ∷ d) = elim (Bool-cases (e.same j k)) [
    | inl here ↦ rw here (find-pop_self k d)
    | inr other ↦ rw (other, other) (find-pop_self k d)
  ]

  -- No key stands twice.
  abbrev pub AreDistinct : List (K × V) → Type 0
  AreDistinct [] = Unit
  AreDistinct ((j, v) ∷ d) = (find j d ≡ none) × AreDistinct d

  pub AreDistinct-alter :
      (k : K) (f : Option V → V) (d : List (K × V)) → AreDistinct d → AreDistinct (alter k f d)
  unfolding alter
  AreDistinct-alter k f [] ok = (unfold find in refl, tt)
  AreDistinct-alter k f ((j, v) ∷ d) ok = elim (Bool-cases (e.same j k)) [
    | inl here ↦ rw here ok
    | inr other ↦
        rw other (find-alter_other k j f d (turned other) ∙ ok.0, AreDistinct-alter k f d ok.1)
  ]
    where
      turned : e.same j k ≡ false → e.same k j ≡ false
      turned ne = elim (Bool-cases (e.same k j)) [
        | inl here ↦
            let back : e.same j k ≡ true = rw (e.sound k j here) (e.reflexive j) in absurd (cc)
        | inr other ↦ other
      ]

  -- Every entry is what its key gives.
  pub entries-find :
      (d : List (K × V)) → AreDistinct d → All (λ (x : K × V). find x.0 d ≡ some x.1) d
  unfolding find
  entries-find [] ok = tt
  entries-find ((j, v) ∷ d) ok =
      (rw (e.reflexive j) refl, All-map _ _ d (behind ok.0) (entries-find d ok.1))
    where
      behind :
          find j d ≡ none
          → (x : K × V) → find x.0 d ≡ some x.1
          → (if e.same j x.0 then some v else find x.0 d) ≡ some x.1
      behind absent x h = elim (Bool-cases (e.same j x.0)) [
        | inl here ↦ let g : find x.0 d ≡ none = rw (← e.sound j x.0 here) absent in absurd (cc)
        | inr other ↦ rw other h
      ]
