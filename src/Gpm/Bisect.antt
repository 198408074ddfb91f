-- ===== src/Gpm/Bisect.antt =====
-- The bisection loop (performance_highres.py, `_window`).
use constella.Prelude.{
  ℕ, zero, suc, ◌+◌, ◌/◌, ◌≤◌, ◌<◌, ◌≡◌, refl, Bool, true, false, ltb, arith, inl, inr, Bool-cases,
  if◌then◌else◌,
}
use constella.Gpm.Window.{bisect}

-- The test holds below e and fails from e on, up to n.
pub record Splits (p : ℕ → Bool) (lo n e : ℕ) : Type 0 where
  pub from : lo ≤ e
  pub to : e ≤ n
  pub below : (i : ℕ) → lo ≤ i → i < e → p i ≡ true
  pub above : (i : ℕ) → e ≤ i → i < n → p i ≡ false

-- Once the test fails, it fails.
abbrev pub IsFalling : (ℕ → Bool) → ℕ → Type 0
IsFalling p n = (i j : ℕ) → i ≤ j → j < n → p j ≡ true → p i ≡ true

bisect-empty : (p : ℕ → Bool) (fuel lo hi : ℕ) → hi ≤ lo → bisect p fuel lo hi ≡ lo
unfolding bisect
bisect-empty p zero lo hi h = refl
bisect-empty p (suc fuel) lo hi h = let over : ltb lo hi ≡ false = ground arith in rw over refl

-- Where the range starts and ends in the next round.
pub bisect_step :
    (p : ℕ → Bool) (fuel lo hi : ℕ) (right : Bool)
    → lo < hi
    → p ((lo + hi) / 2) ≡ right
    → bisect p (suc fuel) lo hi
      ≡ bisect p fuel
          (if right then suc ((lo + hi) / 2) else lo)
          (if right then hi else (lo + hi) / 2)
unfolding bisect
bisect_step p fuel lo hi right less e =
    let going : ltb lo hi ≡ true = ground arith in rw (going, e) refl

-- The range that is left: what lies before it passes the test, and what lies behind it does not.
record Range (p : ℕ → Bool) (start n lo hi : ℕ) : Type 0 where
  begun : start ≤ lo
  order : lo ≤ hi
  inside : hi ≤ n
  before : (i : ℕ) → start ≤ i → i < lo → p i ≡ true
  behind : (i : ℕ) → hi ≤ i → i < n → p i ≡ false

Range-empty :
    (p : ℕ → Bool) (start n lo hi : ℕ) → Range p start n lo hi → hi ≤ lo → Splits p start n lo
Range-empty p start n lo hi range empty = record {
  from = range.begun;
  to = omega (arith, range.order, range.inside);
  below = range.before;
  above = (λ i above less. range.behind i (omega arith) less);
}

Range-right :
    (p : ℕ → Bool) (start n lo hi mid : ℕ)
    → IsFalling p n
    → Range p start n lo hi
    → mid < hi
    → lo ≤ mid
    → p mid ≡ true
    → Range p start n (suc mid) hi
Range-right p start n lo hi mid falling range less more right = record {
  begun = omega (arith, range.begun);
  order = less;
  inside = range.inside;
  before = (λ i from below. falling i mid (omega arith) (omega (arith, range.inside)) right);
  behind = range.behind;
}

not_true : (b : Bool) → (b ≡ true → ⊥) → b ≡ false
not_true true h = absurd (h refl)
not_true false h = refl

Range-left :
    (p : ℕ → Bool) (start n lo hi mid : ℕ)
    → IsFalling p n
    → Range p start n lo hi
    → mid < hi
    → lo ≤ mid
    → p mid ≡ false
    → Range p start n lo mid
Range-left p start n lo hi mid falling range less more left = record {
  begun = range.begun;
  order = more;
  inside = omega (arith, range.inside);
  before = range.before;
  behind = (λ i above inside.
      not_true (p i) (λ passes. let here : p mid ≡ true = falling mid i above inside passes in cc));
}

bisect_run :
    (p : ℕ → Bool) (fuel start lo hi n : ℕ)
    → IsFalling p n
    → Range p start n lo hi
    → hi ≤ lo + fuel
    → Splits p start n (bisect p fuel lo hi)
bisect_run p zero start lo hi n falling range enough =
    let empty : hi ≤ lo = omega arith in
    rw (bisect-empty p 0 lo hi empty) (Range-empty p start n lo hi range empty)
bisect_run p (suc fuel) start lo hi n falling range enough = elim (Bool-cases (ltb lo hi)) [
  | inr over ↦
      let empty : hi ≤ lo = ground arith in
      rw (bisect-empty p (suc fuel) lo hi empty) (Range-empty p start n lo hi range empty)
  | inl going ↦
      let less : lo < hi = ground arith in
      let mid = (lo + hi) / 2 in
      elim (Bool-cases (p mid)) [
        | inl right ↦ rw (bisect_step p fuel lo hi true less right) (
            bisect_run p fuel start (suc mid) hi n falling
              (Range-right p start n lo hi mid falling range (omega arith) (omega arith) right)
              (omega arith))
        | inr left ↦ rw (bisect_step p fuel lo hi false less left) (
            bisect_run p fuel start lo mid n falling
              (Range-left p start n lo hi mid falling range (omega arith) (omega arith) left)
              (omega arith))
      ]
]

-- The bisection of the offsets from start to n finds where the test begins to fail, if it never holds
-- again after it has failed.
pub bisect-Splits :
    (p : ℕ → Bool) (fuel start n : ℕ)
    → IsFalling p n
    → start ≤ n
    → n ≤ start + fuel
    → Splits p start n (bisect p fuel start n)
bisect-Splits p fuel start n falling order enough =
    bisect_run p fuel start start n n falling
      (record {
        begun = omega arith;
        order = order;
        inside = omega arith;
        before = (λ i from below. absurd (omega arith));
        behind = (λ i above less. absurd (omega arith));
      })
      enough
