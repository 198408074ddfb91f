-- ===== src/Prelude/Integers.antt =====
-- Python's int over the native numbers, as far as counts go up and down.
use Prim.Native.Nat.{ℕ, zero, suc, ◌+◌}
use mathlib.Core.Path.{◌≡◌, ap}
use mathlib.Core.Bool.{Bool, true, false}
use native.Mathlib.Omega.{arith}
use constella.Prelude.Tests.{◌==◌}

pub data ℤ : Type 0 where
  pos : ℕ → ℤ
  negsuc : ℕ → ℤ

-- m less n.
unfoldable pub difference : ℕ → ℕ → ℤ
difference m zero = pos m
difference zero (suc n) = negsuc n
difference (suc m) (suc n) = difference m n

infixl 60 ◌+ℤ◌
abbrev pub ◌+ℤ◌ : ℤ → ℤ → ℤ
pos m +ℤ pos n = pos (m + n)
pos m +ℤ negsuc n = difference m (suc n)
negsuc m +ℤ pos n = difference n (suc m)
negsuc m +ℤ negsuc n = negsuc (suc (m + n))

abbrev pub int_eq : ℤ → ℤ → Bool
int_eq (pos m) (pos n) = m == n
int_eq (pos m) (negsuc n) = false
int_eq (negsuc m) (pos n) = false
int_eq (negsuc m) (negsuc n) = m == n

pub int_eq→eq : (z w : ℤ) → int_eq z w ≡ true → z ≡ w
int_eq→eq (pos m) (pos n) h = ap pos (ground arith)
int_eq→eq (pos m) (negsuc n) h = cc
int_eq→eq (negsuc m) (pos n) h = cc
int_eq→eq (negsuc m) (negsuc n) h = ap negsuc (ground arith)

-- The number above zero and the number below it, of which one is 0.
abbrev pub above : ℤ → ℕ
above (pos n) = n
above (negsuc n) = 0

abbrev pub below : ℤ → ℕ
below (pos n) = 0
below (negsuc n) = suc n

difference-balance : (m n : ℕ) → above (difference m n) + n ≡ below (difference m n) + m
unfolding difference
difference-balance m zero = omega arith
difference-balance zero (suc n) = omega arith
difference-balance (suc m) (suc n) = omega (arith, difference-balance m n)

pub add-balance :
    (z w : ℤ) → above (z +ℤ w) + (below z + below w) ≡ below (z +ℤ w) + (above z + above w)
add-balance (pos m) (pos n) = omega arith
add-balance (pos m) (negsuc n) = omega (arith, difference-balance m (suc n))
add-balance (negsuc m) (pos n) = omega (arith, difference-balance n (suc m))
add-balance (negsuc m) (negsuc n) = omega arith

pub eq_pos : (z : ℤ) (n : ℕ) → above z ≡ below z + n → z ≡ pos n
eq_pos (pos m) n h = ap pos (omega arith)
eq_pos (negsuc m) n h = absurd (omega arith)
