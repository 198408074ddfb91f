-- ===== src/Gpm/Slices.antt =====
-- The two slices of an array against reads at offsets (performance_highres.py, `_window`).
use constella.Prelude.{
  ℕ, zero, suc, ◌+◌, ◌-◌, ◌%◌, ◌≤◌, ◌<◌, ◌≡◌, refl, List, [], ◌∷◌, ◌++◌, ltb, leb, ◌==◌, arith, inl,
  inr, Bool-cases, get_or, take, drop, length, length-drop, ap, sym, ◌∙◌,
}
use constella.Prelude.Modulus.{mod_cases, mod_is, mod_over}
use constella.Prelude.Tables.{tabulate, tabulate-split, take-drop}
use constella.Gpm.Ring.{Ring, slot, index_of}
use constella.Gpm.Cells.{IsRing}
use constella.Gpm.Window.{slices}

take-all {ℓ} : {A : Type ℓ} (n : ℕ) (xs : List A) → length xs ≤ n → take n xs ≡ xs
take-all zero [] h = refl
take-all zero (x ∷ xs) h = absurd (omega arith)
take-all (suc n) [] h = refl
take-all (suc n) (x ∷ xs) h = ap (λ ys. x ∷ ys) (take-all n xs (omega arith))

-- Before the end of the array the index moves with the offset.
slot-inside :
    (n w c o i : ℕ)
    → w < n
    → c ≤ n
    → o + i < c
    → slot n w c o + i < n
    → slot n w c (o + i) ≡ slot n w c o + i
unfolding slot
slot-inside n w c o i inside fits less before = elim (Bool-cases (ltb c n)) [
  | inl still ↦ rw still refl
  | inr full ↦
      let all : c ≡ n = ground arith in
      let before' : (w + o) % n + i < n = simp full at before in
      rw full (elim (mod_cases (w + o) n (omega arith)) [
        | inl (small, e) ↦ mod_is (w + (o + i)) n _ (omega arith) before'
        | inr (over, e) ↦ mod_over (w + (o + i)) n _ (omega arith) before'
      ])
]

-- Behind it the index starts again.
slot-wrapped :
    (n w c o i : ℕ)
    → w < n
    → c ≤ n
    → o + ((n - slot n w c o) + i) < c
    → slot n w c o < n
    → slot n w c (o + ((n - slot n w c o) + i)) ≡ i
unfolding slot
slot-wrapped n w c o i inside fits less before = elim (Bool-cases (ltb c n)) [
  | inl still ↦
      let room : c < n = ground arith in
      let less' : o + ((n - o) + i) < c = simp still at less in absurd (omega arith)
  | inr full ↦
      let all : c ≡ n = ground arith in
      let less' : o + ((n - (w + o) % n) + i) < c = simp full at less in
      rw full (elim (mod_cases (w + o) n (omega arith)) [
        | inl (small, e) ↦ mod_over _ n i (omega arith) (omega arith)
        | inr (over, e) ↦ absurd (omega arith)
      ])
]

slot-fits : (n w c o : ℕ) → w < n → c ≤ n → o < c → slot n w c o < n
unfolding slot
slot-fits n w c o inside fits less = elim (Bool-cases (ltb c n)) [
  | inl still ↦ rw still (ground arith)
  | inr full ↦ rw full (elim (mod_cases (w + o) n (omega arith)) [
    | inl (small, e) ↦ omega arith
    | inr (over, e) ↦ omega arith
  ])
]

module _ {ℓ} {A : Type ℓ} (xs : List A) (d : A) (n w c start : ℕ) (full : length xs ≡ n)
    (inside : w < n) (fits : c ≤ n) where
  one_slice :
      (len : ℕ)
      → 0 < len
      → start + len ≤ c
      → slot n w c start + len ≤ n
      → take len (drop (slot n w c start) xs)
        ≡ tabulate len (λ i. get_or xs (slot n w c (start + i)) d)
  one_slice len some held whole =
      take-drop len (slot n w c start) xs d (λ i. get_or xs (slot n w c (start + i)) d)
        (omega arith)
        (λ i less.
          ap (λ j. get_or xs j d)
            (sym (slot-inside n w c start i inside fits (omega arith) (omega arith))))

  two_slices :
      (len : ℕ)
      → 0 < len
      → start + len ≤ c
      → n < slot n w c start + len
      → drop (slot n w c start) xs ++ take ((slot n w c start + len) - n) xs
        ≡ tabulate len (λ i. get_or xs (slot n w c (start + i)) d)
  two_slices len some held more =
      let first = slot n w c start in
      let first_fits : first < n = slot-fits n w c start inside fits (omega arith) in
      let head : drop first xs ≡ tabulate (n - first) (λ i. get_or xs (slot n w c (start + i)) d) =
        sym (take-all (n - first) (drop first xs) (omega (arith, length-drop first xs)))
        ∙ one_slice (n - first) (omega arith) (omega arith) (omega arith) in
      let end : take ((first + len) - n) xs ≡ tabulate ((first + len) - n) (λ i. get_or xs i d) =
        take-drop ((first + len) - n) 0 xs d (λ i. get_or xs i d) (omega arith)
          (λ i less. ap (λ j. get_or xs j d) (omega arith)) in
      rw (head, end)
        (sym (
          tabulate-split (n - first) ((first + len) - n) len
            (λ i. get_or xs (slot n w c (start + i)) d) (λ i. get_or xs i d) (omega arith)
            (λ i less.
              ap (λ j. get_or xs j d)
                (slot-wrapped n w c start i inside fits (omega arith) first_fits))))

-- Between two offsets of the ring the slices hold what stands at each, in order.
pub slices-tabulate {ℓ} :
    {A : Type ℓ} (r : Ring) (start end : ℕ) (xs : List A) (d : A)
    → IsRing r
    → length xs ≡ r.capacity
    → start ≤ end
    → end ≤ r.count
    → slices r start end xs ≡ tabulate (end - start) (λ i. get_or xs (index_of r (start + i)) d)
unfolding slices
slices-tabulate r start end xs d ok full order held = elim (Bool-cases (start == end)) [
  | inl same ↦ let none_left : end - start ≡ 0 = ground arith in rw (same, none_left) refl
  | inr apart ↦
      let some_left : 0 < end - start = ground arith in
      let first = index_of r start in
      let long : first + end - start ≡ first + (end - start) = omega arith in
      let len : first + end - start - first ≡ end - start = omega arith in
      elim (Bool-cases (leb (first + end - start) r.capacity)) [
        | inl whole ↦
            rw (apart, whole, len)
              (one_slice xs d r.capacity r.write_index r.count start full ok.write_fits
                ok.count_fits (end - start) some_left (omega arith) (ground arith))
        | inr wraps ↦
            rw (apart, wraps, long)
              (two_slices xs d r.capacity r.write_index r.count start full ok.write_fits
                ok.count_fits (end - start) some_left (omega arith) (ground arith))
      ]
]
