-- ===== src/Prelude/Modulus.antt =====
-- The positions of a ring of n places: what `%` gives within two rounds.
use Prim.Native.Nat.{ℕ, suc, ◌+◌, ◌-◌, ◌%◌, ◌≤◌, ◌<◌}
use mathlib.Core.Path.{◌≡◌, sym, ap, ◌∙◌}
use mathlib.Core.Logic.{◌≢◌, ◌⊎◌, inl, inr}
use native.Mathlib.Omega.{arith}
use native.Mathlib.Nat.{mod-eq_of_lt, mod-eq-sub-mod}
use constella.Prelude.Tests.{Bool-cases, ltb}

pub mod_cases : (a n : ℕ) → a < n + n → ((a < n) × (a % n ≡ a)) ⊎ ((n ≤ a) × (a % n + n ≡ a))
mod_cases a n h = elim (Bool-cases (ltb a n)) [
  | inl less ↦ inl (ground arith, mod-eq_of_lt (ground arith))
  | inr more ↦
      let over : n ≤ a = ground arith in
      let small : (a - n) % n ≡ a - n = mod-eq_of_lt (omega arith) in
      inr (over, rw (mod-eq-sub-mod over, small) (omega arith))
]

mod_self_add : (w n : ℕ) → suc w ≡ n → suc w % n ≡ 0
mod_self_add w n h = elim (mod_cases (suc w) n (omega arith)) [
  | inl (less, e) ↦ absurd (omega arith)
  | inr (over, e) ↦ omega arith
]

pub mod_is : (a n v : ℕ) → a ≡ v → v < n → a % n ≡ v
mod_is a n v h less = rw h (mod-eq_of_lt less)

pub mod_over : (a n v : ℕ) → a ≡ v + n → v < n → a % n ≡ v
mod_over a n v h less = elim (mod_cases a n (omega arith)) [
  | inl (small, e) ↦ absurd (omega arith)
  | inr (over, e) ↦ omega arith
]

pub wrap-last : (w o n : ℕ) → suc w ≡ n → o < n → (suc w % n + o) % n ≡ o
wrap-last w o n h less = let start = mod_self_add w n h in mod_is _ n o (omega arith) less

pub wrap-shift : (w o n : ℕ) → w < n → suc o < n → (suc w % n + o) % n ≡ (w + suc o) % n
wrap-shift w o n h less = elim (mod_cases (suc w) n (omega arith)) [
  | inl (small, e) ↦ ap (λ i. i % n) (omega arith)
  | inr (over, e) ↦
      mod_is _ n o (omega arith) (omega arith)
      ∙ sym (mod_over (w + suc o) n o (omega arith) (omega arith))
]

pub wrap-other : (w o n : ℕ) → w < n → suc o < n → w ≢ (w + suc o) % n
wrap-other w o n h less same = elim (mod_cases (w + suc o) n (omega arith)) [
  | inl (small, e) ↦ omega arith
  | inr (over, e) ↦ omega arith
]

pub wrap-new : (w o n : ℕ) → w < n → suc o ≡ n → (suc w % n + o) % n ≡ w
wrap-new w o n h last = elim (mod_cases (suc w) n (omega arith)) [
  | inl (small, e) ↦ mod_over _ n w (omega arith) h
  | inr (over, e) ↦ mod_is _ n w (omega arith) h
]
