-- ===== src/Gpm/Slots.antt =====
-- Where the ring's samples stand (performance_highres.py, `append`, `_index`).
use constella.Prelude.{
  ℕ, suc, ◌%◌, ◌≤◌, ◌<◌, min, ◌≡◌, ◌≢◌, refl, false, true, ltb, arith, inl, inr, Bool-cases,
}
use constella.Prelude.Modulus.{wrap-last, wrap-shift, wrap-other, wrap-new}
use constella.Gpm.Ring.{slot}

pub slot-before : (n w c o : ℕ) → c < n → slot n w c o ≡ o
unfolding slot
slot-before n w c o less = let still : ltb c n ≡ true = ground arith in rw still refl

-- The index after a write, while the arrays fill up.
pub slot-partial : (n w c o : ℕ) → w ≡ c → c < n → o ≤ c → slot n (suc w % n) (min n (suc c)) o ≡ o
unfolding slot
slot-partial n w c o filled less before = elim (Bool-cases (ltb (min n (suc c)) n)) [
  | inl still ↦ rw still refl
  | inr full ↦ rw full (wrap-last w o n (ground arith) (omega arith))
]

-- Once they are full, every sample moves up by one offset, and the new one is at the last.
pub slot-full_old :
    (n w c o : ℕ)
    → w < n
    → c ≡ n
    → suc o < n
    → (slot n (suc w % n) (min n (suc c)) o ≡ slot n w c (suc o)) × (w ≢ slot n w c (suc o))
unfolding slot
slot-full_old n w c o inside full less =
    let no_room : ltb (min n (suc c)) n ≡ false = ground arith in
    let no_room' : ltb c n ≡ false = ground arith in
    rw (no_room, no_room') (wrap-shift w o n inside less, wrap-other w o n inside less)

pub slot-full_new :
    (n w c o : ℕ) → w < n → c ≡ n → suc o ≡ n → slot n (suc w % n) (min n (suc c)) o ≡ w
unfolding slot
slot-full_new n w c o inside full last =
    let no_room : ltb (min n (suc c)) n ≡ false = ground arith in
    rw no_room (wrap-new w o n inside last)
