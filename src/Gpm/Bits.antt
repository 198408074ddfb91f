-- ===== src/Gpm/Bits.antt =====
-- The masks of a sample: bit k is set exactly if the metric k has a reading (performance_highres.py,
-- `append`).
use constella.Prelude.{
  ℕ, zero, suc, ◌+◌, ◌*◌, ◌/◌, ◌%◌, ◌^◌, ◌≡◌, refl, Option, none, some, List, [], ◌∷◌, get_or,
  arith, if◌then◌else◌, ◌∙◌,
}
use native.Mathlib.Numerals.{unary_clauses}
use constella.Telemetry.Rules.{Number}
use constella.Gpm.Ring.{is_given, mask_from, has_bit}

abbrev digit : Option Number → ℕ
digit none = 0
digit (some v) = 1

-- The mask that the first reading is the lowest bit of.
unfoldable mask_of : List (Option Number) → ℕ
mask_of [] = 0
mask_of (given ∷ readings) = digit given + 2 * mask_of readings

weighed : (p q m b mask : ℕ) → q ≡ 2 * p → (mask + p * b) + q * m ≡ mask + p * (b + 2 * m)
weighed p q m b mask e = rw e (omega arith)

mask_step :
    (bit mask : ℕ) (given : Option Number)
    → (if is_given given then mask + 2 ^ bit else mask) ≡ mask + 2 ^ bit * digit given
mask_step bit mask none = omega arith
mask_step bit mask (some v) = omega arith

mask_from-mask_of :
    (bit mask : ℕ) (readings : List (Option Number))
    → mask_from bit mask readings ≡ mask + 2 ^ bit * mask_of readings
unfolding mask_from mask_of
mask_from-mask_of bit mask [] = omega arith
mask_from-mask_of bit mask (given ∷ readings) =
    rw
      (
        mask_step bit mask given,
        mask_from-mask_of (suc bit) (mask + 2 ^ bit * digit given) readings,
      )
      (weighed (2 ^ bit) (2 ^ suc bit) (mask_of readings) (digit given) mask
        (simp unary_clauses (omega arith)))

has_bit-mask_of :
    (readings : List (Option Number)) (k : ℕ)
    → has_bit (mask_of readings) k ≡ is_given (get_or readings k none)
unfolding has_bit mask_of
has_bit-mask_of [] zero = refl
has_bit-mask_of [] (suc k) = has_bit-mask_of [] k
has_bit-mask_of (none ∷ readings) zero =
    let even : (0 + 2 * mask_of readings) % 2 ≡ 0 = omega arith in rw even refl
has_bit-mask_of (some v ∷ readings) zero =
    let odd : (1 + 2 * mask_of readings) % 2 ≡ 1 = omega arith in rw odd refl
has_bit-mask_of (given ∷ readings) (suc k) =
    let half : (digit given + 2 * mask_of readings) / 2 ≡ mask_of readings = halved given _ in
    rw half (has_bit-mask_of readings k)
  where
    halved : (g : Option Number) (m : ℕ) → (digit g + 2 * m) / 2 ≡ m
    halved none m = omega arith
    halved (some v) m = omega arith

pub has_bit-mask_from :
    (readings : List (Option Number)) (k : ℕ)
    → has_bit (mask_from 0 0 readings) k ≡ is_given (get_or readings k none)
has_bit-mask_from readings k =
    let all : mask_from 0 0 readings ≡ mask_of readings =
      mask_from-mask_of 0 0 readings ∙ omega arith in
    rw all (has_bit-mask_of readings k)
