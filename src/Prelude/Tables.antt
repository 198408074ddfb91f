-- ===== src/Prelude/Tables.antt =====
-- Tabulations of a function: the contents of a ring, oldest first.
use Prim.Native.Nat.{ℕ, zero, suc, ◌+◌, ◌-◌, ◌≤◌, ◌<◌}
use mathlib.Core.Path.{◌≡◌, refl, ap, ◌∙◌}
use mathlib.Core.List.{List, [], ◌∷◌, ◌++◌, map}
use native.Mathlib.Omega.{arith}
use constella.Prelude.Lists.{
  length, recent, recent-short, recent-cons, length-append, take, drop, get_or,
}

-- f 0, …, f (n - 1)
abbrev pub tabulate {ℓ} : {A : Type ℓ} → ℕ → (ℕ → A) → List A
tabulate zero f = []
tabulate (suc n) f = f 0 ∷ tabulate n (λ i. f (suc i))

pub tabulate-cong {ℓ} :
    {A : Type ℓ} (n : ℕ) (f g : ℕ → A) → ((i : ℕ) → i < n → f i ≡ g i) → tabulate n f ≡ tabulate n g
tabulate-cong zero f g h = refl
tabulate-cong (suc n) f g h =
    rw
      (
        h 0 (omega arith),
        tabulate-cong n (λ i. f (suc i)) (λ i. g (suc i)) (λ i less. h (suc i) (omega arith)),
      )
      refl

pub tabulate-snoc {ℓ} :
    {A : Type ℓ} (n : ℕ) (f : ℕ → A) → tabulate (suc n) f ≡ tabulate n f ++ f n ∷ []
tabulate-snoc zero f = refl
tabulate-snoc (suc n) f = ap (λ xs. f 0 ∷ xs) (tabulate-snoc n (λ i. f (suc i)))

pub length-tabulate {ℓ} : {A : Type ℓ} (n : ℕ) (f : ℕ → A) → length (tabulate n f) ≡ n
length-tabulate zero f = refl
length-tabulate (suc n) f = ap suc (length-tabulate n (λ i. f (suc i)))

pub tabulate-grow {ℓ} :
    {A : Type ℓ} (n m c : ℕ) (f f' : ℕ → A) (y : A)
    → m ≡ suc n
    → n < c
    → ((i : ℕ) → i < n → f' i ≡ f i)
    → f' n ≡ y
    → tabulate m f' ≡ recent c (tabulate n f ++ y ∷ [])
tabulate-grow n m c f f' y grown fits old new =
    let short : length (tabulate n f ++ y ∷ []) ≤ c =
      omega (arith, length-append (tabulate n f) (y ∷ []), length-tabulate n f) in
    rw (grown, recent-short c (tabulate n f ++ y ∷ []) short)
      (tabulate-snoc n f' ∙ rw (new, tabulate-cong n f' f old) refl)

pub tabulate-shift {ℓ} :
    {A : Type ℓ} (k n m c : ℕ) (f f' : ℕ → A) (y : A)
    → n ≡ suc k
    → m ≡ suc k
    → c ≡ suc k
    → ((i : ℕ) → i < k → f' i ≡ f (suc i))
    → f' k ≡ y
    → tabulate m f' ≡ recent c (tabulate n f ++ y ∷ [])
tabulate-shift k n m c f f' y full full' all old new =
    let rest = tabulate k (λ i. f (suc i)) ++ y ∷ [] in
    let long : length rest ≡ suc k = omega (
      arith,
      length-append (tabulate k (λ i. f (suc i))) (y ∷ []),
      length-tabulate k (λ i. f (suc i)),
    ) in
    rw
      (
        full,
        full',
        all,
        recent-cons (suc k) (f 0) rest (omega arith),
        recent-short (suc k) rest (omega arith),
      )
      (tabulate-snoc k f' ∙ rw (new, tabulate-cong k f' (λ i. f (suc i)) old) refl)

pub tabulate-split {ℓ} :
    {A : Type ℓ} (n m total : ℕ) (f g : ℕ → A)
    → total ≡ n + m
    → ((i : ℕ) → i < m → f (n + i) ≡ g i)
    → tabulate total f ≡ tabulate n f ++ tabulate m g
tabulate-split zero m total f g sum h =
    let all : total ≡ m = omega arith in
    rw all (tabulate-cong m f g (λ i less. ap f (let e : i ≡ 0 + i = omega arith in e) ∙ h i less))
tabulate-split (suc n) m total f g sum h =
    let more : total ≡ suc (total - 1) = omega arith in
    rw more (
      ap (λ xs. f 0 ∷ xs)
        (tabulate-split n m (total - 1) (λ i. f (suc i)) g (omega arith)
          (λ i less. ap f (let e : suc (n + i) ≡ suc n + i = omega arith in e) ∙ h i less)))

pub map-tabulate {ℓ κ} :
    {A : Type ℓ} {B : Type κ} (g : A → B) (n : ℕ) (f : ℕ → A)
    → map g (tabulate n f) ≡ tabulate n (λ i. g (f i))
map-tabulate g zero f = refl
map-tabulate g (suc n) f = ap (λ xs. g (f 0) ∷ xs) (map-tabulate g n (λ i. f (suc i)))

-- A slice of a list is a tabulation of its elements.
pub take-drop {ℓ} :
    {A : Type ℓ} (n a : ℕ) (xs : List A) (d : A) (g : ℕ → A)
    → a + n ≤ length xs
    → ((i : ℕ) → i < n → get_or xs (a + i) d ≡ g i)
    → take n (drop a xs) ≡ tabulate n g
take-drop zero a xs d g fits h = refl
take-drop (suc n) a [] d g fits h = absurd (omega arith)
take-drop (suc n) zero (x ∷ xs) d g fits h = rw (← h 0 (omega arith)) (
    ap (λ ys. x ∷ ys)
      (take-drop n 0 xs d (λ i. g (suc i)) (omega arith)
        (λ i less.
          ap (λ j. get_or xs j d) (let e : 0 + i ≡ i = omega arith in e)
          ∙ ap (λ j. get_or (x ∷ xs) j d) (let e : suc i ≡ 0 + suc i = omega arith in e)
          ∙ h (suc i) (omega arith))))
take-drop (suc n) (suc a) (x ∷ xs) d g fits h = take-drop (suc n) a xs d g (omega arith) (λ i less.
    ap (λ j. get_or (x ∷ xs) j d) (let e : suc (a + i) ≡ suc a + i = omega arith in e) ∙ h i less)
