-- ===== src/Usage/Granted.antt =====
-- What a call of `consume` grants and what of it lies in a window (packages/lab/src/constella_lab/api.py).
use constella.Prelude.{
  and_false, ℕ, zero, suc, ◌+◌, ◌≤◌, ◌<◌, ◌≡◌, refl, ap, Bool, true, false, ◌&&◌, List, [], ◌∷◌,
  ◌++◌, ltb, leb, length, replicate, tally, tally-append, arith, inl, inr, Bool-cases,
  if◌then◌else◌,
}
use constella.Prelude.Keyed.{find-alter_self, find-alter_other}
use constella.Usage.Limiter.{
  limit_keys, or_empty, Key, key_eq, Table, events_of, put_events, expire, Request, exceeds,
  consume,
}

-- Whether an event lies in the window that ends at a time.
abbrev pub in_window : ℕ → ℕ → ℕ → Bool
in_window window at e = leb e at && ltb at (e + window)

-- The clock does not go back.
unfoldable pub AreOrdered : ℕ → List Request → Type 0
AreOrdered from [] = Unit
AreOrdered from (r ∷ requests) = (from ≤ r.now) × AreOrdered r.now requests

-- Every call for the key has this limit and window.
unfoldable pub HaveLimit : Key → ℕ → ℕ → List Request → Type 0
HaveLimit k limit window [] = Unit
HaveLimit k limit window (r ∷ requests) =
    (key_eq r.key k ≡ true → (r.limit ≡ limit) × (r.window ≡ window))
    × HaveLimit k limit window requests

pub tally-bound : (p : ℕ → Bool) (xs : List ℕ) → tally p xs ≤ length xs
tally-bound p [] = omega arith
tally-bound p (x ∷ xs) = elim (Bool-cases (p x)) [
  | inl yes_ ↦ rw yes_ (omega (arith, tally-bound p xs))
  | inr no_ ↦ rw no_ (omega (arith, tally-bound p xs))
]

tally-replicate : (p : ℕ → Bool) (n e : ℕ) → p e ≡ false → tally p (replicate n e) ≡ 0
tally-replicate p zero e out = refl
tally-replicate p (suc n) e out = rw (out, tally-replicate p n e out) (omega arith)

-- What expires lies in no window that ends later.
pub tally-expire :
    (window now at : ℕ) (events : List ℕ)
    → now ≤ at
    → tally (in_window window at) (expire window now events) ≡ tally (in_window window at) events
unfolding expire
tally-expire window now at [] later = refl
tally-expire window now at (e ∷ events) later = elim (Bool-cases (leb (e + window) now)) [
  | inl old ↦
      let out : ltb at (e + window) ≡ false = ground arith in
      rw (old, out, and_false (leb e at), tally-expire window now at events later) (omega arith)
  | inr fresh ↦ rw fresh refl
]

module _ (k : Key) (limit window : ℕ) where
  -- The table's events for the key stand for all that was granted, in every window from now on.
  pub record Counts (now : ℕ) (before : List ℕ) (t : Table) : Type 0 where
    pub kept :
        (at : ℕ)
        → now ≤ at
        → tally (in_window window at) before ≡ tally (in_window window at) (events_of k t)
    pub bound : (at : ℕ) → tally (in_window window at) before ≤ limit

pub events_of-put_self :
    (k : Key) (events : List ℕ) (t : Table) → events_of k (put_events k events t) ≡ events
events_of-put_self k events t = ap or_empty (find-alter_self k (λ o. events) t)

events_of-put_other :
    (j k : Key) (events : List ℕ) (t : Table)
    → key_eq j k ≡ false
    → events_of k (put_events j events t) ≡ events_of k t
events_of-put_other j k events t ne = ap or_empty (find-alter_other j k (λ o. events) t ne)

pub consume-other :
    (r : Request) (k : Key) (t : Table)
    → key_eq r.key k ≡ false
    → events_of k (consume r t).1 ≡ events_of k t
unfolding consume
consume-other r k t ne = elim (Bool-cases (exceeds r t)) [
  | inl over ↦ simp over (events_of-put_other r.key k _ t ne)
  | inr fits ↦ simp fits (events_of-put_other r.key k _ t ne)
]

-- What a call grants.
abbrev pub grant : Key → Request → Table → List ℕ
grant k r t = if key_eq r.key k && (consume r t).0 then replicate r.amount r.now else []

-- A window that ends before the call does not have what it grants.
pub bound-before :
    (window at amount now limit : ℕ) (before : List ℕ)
    → at < now
    → tally (in_window window at) before ≤ limit
    → tally (in_window window at) (before ++ replicate amount now) ≤ limit
bound-before window at amount now limit before early h =
    let out : leb now at ≡ false = ground arith in
    let none_in : in_window window at now ≡ false = rw out refl in
    omega (
      arith,
      tally-append (in_window window at) before (replicate amount now),
      tally-replicate (in_window window at) amount now none_in,
    )
