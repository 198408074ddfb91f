-- ===== src/Highres/Contents.antt =====
-- The ring against the list of the samples that came in (highres.py, `append`, `oldest_at`,
-- `newest_at`).
use constella.Prelude.{
  append-nil, ℕ, suc, ◌-◌, ◌<◌, min, ◌≡◌, refl, true, List, [], ◌∷◌, ◌++◌, recent, recent-empty,
  recent-append, ltb, arith, inl, inr, Bool-cases, ap, sym, ◌∙◌, if◌then◌else◌,
}
use constella.Prelude.Tables.{tabulate, tabulate-grow, tabulate-shift}
use constella.Highres.Ring.{
  Reading, Ring, Point, new, written, append, chronological_index, point_at,
}
use constella.Highres.Positions.{
  IsRing, point_of, point_at-written_self, point_at-written_other, IsRing-written, IsRing-new,
  index-partial, index-full_old, index-full_new,
}

-- The sample at an offset from the oldest.
abbrev pub nth : Ring → ℕ → Point
nth r offset = point_at r (chronological_index r offset)

-- What the ring holds, oldest first.
abbrev pub contents : Ring → List Point
contents r = tabulate r.count (nth r)

index-before : (r : Ring) (o : ℕ) → r.count < r.capacity → chronological_index r o ≡ o
unfolding chronological_index
index-before r o less = let still : ltb r.count r.capacity ≡ true = ground arith in rw still refl

nth-partial_old :
    (r : Ring) (at : ℕ) (g : Reading) (o : ℕ)
    → IsRing r
    → r.count < r.capacity
    → o < r.count
    → nth (written at g r) o ≡ nth r o
nth-partial_old r at g o ok less before =
    let filled : r.write_index ≡ r.count = ok.partial less in
    rw (index-partial r at g o ok less (omega arith), index-before r o less)
      (point_at-written_other r at g o (λ e. omega arith))

nth-partial_new :
    (r : Ring) (at : ℕ) (g : Reading)
    → IsRing r
    → r.count < r.capacity
    → nth (written at g r) r.count ≡ point_of at g
nth-partial_new r at g ok less =
    rw (index-partial r at g r.count ok less (omega arith), ← ok.partial less)
      (point_at-written_self r at g ok)

nth-full_old :
    (r : Ring) (at : ℕ) (g : Reading) (o : ℕ)
    → IsRing r
    → r.count ≡ r.capacity
    → suc o < r.capacity
    → nth (written at g r) o ≡ nth r (suc o)
nth-full_old r at g o ok full inside =
    let (same, other) = index-full_old r at g o ok full inside in
    rw same (point_at-written_other r at g _ other)

nth-full_new :
    (r : Ring) (at : ℕ) (g : Reading) (o : ℕ)
    → IsRing r
    → r.count ≡ r.capacity
    → suc o ≡ r.capacity
    → nth (written at g r) o ≡ point_of at g
nth-full_new r at g o ok full last =
    rw (index-full_new r at g o ok full last) (point_at-written_self r at g ok)

contents-partial :
    (r : Ring) (at : ℕ) (g : Reading)
    → IsRing r
    → r.count < r.capacity
    → contents (written at g r) ≡ recent r.capacity (contents r ++ point_of at g ∷ [])
contents-partial r at g ok less =
    tabulate-grow r.count (min r.capacity (suc r.count)) r.capacity (nth r) (nth (written at g r))
      (point_of at g) (omega arith) less (λ o before. nth-partial_old r at g o ok less before)
      (nth-partial_new r at g ok less)

contents-full :
    (r : Ring) (at : ℕ) (g : Reading)
    → IsRing r
    → r.count ≡ r.capacity
    → contents (written at g r) ≡ recent r.capacity (contents r ++ point_of at g ∷ [])
contents-full r at g ok full =
    let room = ok.some_room in
    tabulate-shift (r.capacity - 1) r.count (min r.capacity (suc r.count)) r.capacity (nth r)
      (nth (written at g r)) (point_of at g) (omega arith) (omega arith) (omega arith)
      (λ o inside. nth-full_old r at g o ok full (omega arith))
      (nth-full_new r at g (r.capacity - 1) ok full (omega arith))

-- A step of the ring is a step of a list that keeps its last elements.
contents-written :
    (r : Ring) (at : ℕ) (g : Reading)
    → IsRing r
    → contents (written at g r) ≡ recent r.capacity (contents r ++ point_of at g ∷ [])
contents-written r at g ok = elim (Bool-cases (ltb r.count r.capacity)) [
  | inl less ↦ contents-partial r at g ok (ground arith)
  | inr full ↦ contents-full r at g ok (ground arith)
]

-- The calls of `append`, in order.
unfoldable pub append_all : List (ℕ × Reading) → Ring → Ring
append_all [] r = r
append_all ((at, g) ∷ samples) r = append_all samples (append at g r)

-- The samples that `append` takes.
unfoldable pub valid_points : List (ℕ × Reading) → List Point
valid_points [] = []
valid_points ((at, g) ∷ samples) =
    let rest = valid_points samples in if g.valid then point_of at g ∷ rest else rest

append-assoc_snoc :
    (xs : List Point) (y : Point) (ys : List Point) → (xs ++ y ∷ []) ++ ys ≡ xs ++ y ∷ ys
append-assoc_snoc [] y ys = refl
append-assoc_snoc (x ∷ xs) y ys = ap (λ zs. x ∷ zs) (append-assoc_snoc xs y ys)

contents_step :
    (r : Ring) (n at : ℕ) (g : Reading) (before : List Point)
    → IsRing r
    → r.capacity ≡ n
    → contents r ≡ recent n before
    → contents (written at g r) ≡ recent n (before ++ point_of at g ∷ [])
contents_step r n at g before ok size holds =
    contents-written r at g ok
    ∙ ap (λ c. recent c (contents r ++ point_of at g ∷ [])) size
    ∙ ap (λ ps. recent n (ps ++ point_of at g ∷ [])) holds
    ∙ recent-append n before (point_of at g)

contents_run :
    (samples : List (ℕ × Reading)) (r : Ring) (n : ℕ) (before : List Point)
    → IsRing r
    → r.capacity ≡ n
    → contents r ≡ recent n before
    → contents (append_all samples r) ≡ recent n (before ++ valid_points samples)
unfolding append_all valid_points append
contents_run [] r n before ok size holds = rw (append-nil before) holds
contents_run ((at, g) ∷ samples) r n before ok size holds = elim (Bool-cases g.valid) [
  | inl valid ↦
      simp (valid, ← append-assoc_snoc before (point_of at g) (valid_points samples))
        (contents_run samples (written at g r) n (before ++ point_of at g ∷ [])
          (IsRing-written r at g ok) size (contents_step r n at g before ok size holds))
  | inr invalid ↦ simp invalid (contents_run samples r n before ok size holds)
]

-- Whatever samples come in, a ring holds the last `capacity` of the valid ones, oldest first.
pub contents-recent :
    (n : ℕ) (samples : List (ℕ × Reading))
    → 0 < n
    → contents (append_all samples (new n)) ≡ recent n (valid_points samples)
contents-recent n samples room =
    contents_run samples (new n) n [] (IsRing-new n room) refl (sym (recent-empty n))
