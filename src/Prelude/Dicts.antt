-- ===== src/Prelude/Dicts.antt =====
-- A Python dict keyed by texts, in insertion order.
use mathlib.Core.Path.{◌≡◌, refl}
use mathlib.Core.Logic.{inl, inr}
use mathlib.Core.Bool.{true, false}
use mathlib.Core.List.{List, [], ◌∷◌}
use mathlib.Core.Option.{Option, none, some}
use native.Mathlib.Omega.{arith}
use constella.Prelude.Tests.{Bool-cases, if◌then◌else◌}
use constella.Prelude.Texts.{Text, text_eq, text_eq_refl, text_eq-sym, text_eq→eq}

abbrev pub Dict : Type 0 → Type 0
Dict V = List (Text × V)

text_eq-of_eq : (j k i : Text) → text_eq j k ≡ true → text_eq j i ≡ text_eq k i
text_eq-of_eq j k i e = rw (text_eq→eq j k e)

text_eq-excludes : (k i j : Text) → text_eq j k ≡ false → text_eq k i ≡ true → text_eq j i ≡ false
text_eq-excludes k i j e f = rw (← text_eq→eq k i f, e)

pub branches_swap :
    {A : Type 0} (k i j : Text) (x y z : A)
    → text_eq j k ≡ false
    → (if text_eq j i then x else (if text_eq k i then y else z))
      ≡ (if text_eq k i then y else (if text_eq j i then x else z))
branches_swap k i j x y z e = elim (Bool-cases (text_eq k i)) [
  | inl f ↦ rw (f, text_eq-excludes k i j e f)
  | inr f ↦ rw f
]

module _ {V : Type 0} where
  unfoldable pub lookup : Text → Dict V → Option V
  lookup k [] = none
  lookup k ((j, v) ∷ d) = if text_eq j k then some v else lookup k d

  -- `d[k] = v`
  unfoldable pub insert : Text → V → Dict V → Dict V
  insert k v [] = (k, v) ∷ []
  insert k v ((j, w) ∷ d) = if text_eq j k then (j, v) ∷ d else (j, w) ∷ insert k v d

  -- `d.pop(k, None)`
  unfoldable pub erase : Text → Dict V → Dict V
  erase k [] = []
  erase k ((j, w) ∷ d) = let rest = erase k d in if text_eq j k then rest else (j, w) ∷ rest

  pub lookup-insert :
      (k i : Text) (v : V) (d : Dict V)
      → lookup i (insert k v d) ≡ (if text_eq k i then some v else lookup i d)
  unfolding lookup insert
  lookup-insert k i v [] = refl
  lookup-insert k i v ((j, w) ∷ d) = elim (Bool-cases (text_eq j k)) [
    | inl e ↦ rw (e, text_eq-of_eq j k i e) (ground arith)
    | inr e ↦ rw (e, lookup-insert k i v d) (branches_swap k i j _ _ _ e)
  ]

  pub lookup-erase :
      (k i : Text) (d : Dict V) → lookup i (erase k d) ≡ (if text_eq k i then none else lookup i d)
  unfolding lookup erase
  lookup-erase k i [] = ground arith
  lookup-erase k i ((j, w) ∷ d) = elim (Bool-cases (text_eq j k)) [
    | inl e ↦ rw (e, lookup-erase k i d, text_eq-of_eq j k i e) (ground arith)
    | inr e ↦ rw (e, lookup-erase k i d) (branches_swap k i j _ _ _ e)
  ]

pub lookup-insert_self :
    {V : Type 0} (k : Text) (v : V) (d : Dict V) → lookup k (insert k v d) ≡ some v
lookup-insert_self k v d = rw (lookup-insert k k v d, text_eq_refl k)

pub ruleset dict_laws = (lookup-insert, lookup-erase, text_eq_refl)
