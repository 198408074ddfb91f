-- ===== src/Usage/Window.antt =====
-- The limit holds in every window (packages/lab/src/constella_lab/api.py, `consume`).
use constella.Prelude.{
  append_assoc, append-nil, ℕ, ◌+◌, ◌≤◌, ◌≡◌, refl, sym, ap, ◌∙◌, true, false, List, [], ◌∷◌, ◌++◌,
  ltb, length, replicate, tally, tally-append, length-append, length-replicate, arith, inl, inr,
  Bool-cases, subst,
}
use constella.Prelude.Keyed.{find}
use constella.Usage.Limiter.{
  key_eq→eq, key_eq_refl, limit_keys, Key, key_eq, Table, events_of, put_events, expire, Request,
  exceeds, consume, granted,
}
use constella.Usage.Granted.{
  Counts, in_window, AreOrdered, HaveLimit, tally-bound, tally-expire, events_of-put_self,
  consume-other, grant, bound-before,
}

module _ (k : Key) (limit window : ℕ) where
  Counts-refused :
      (from now : ℕ) (before : List ℕ) (t : Table)
      → from ≤ now
      → Counts k limit window from before t
      → Counts k limit window now before (put_events k (expire window now (events_of k t)) t)
  Counts-refused from now before t later h = record {
    kept = (λ at past.
        h.kept at (omega arith)
        ∙ sym (tally-expire window now at (events_of k t) past)
        ∙ ap (tally (in_window window at)) (sym (events_of-put_self k _ t)));
    bound = h.bound;
  }

  Counts-granted :
      (from now amount : ℕ) (before : List ℕ) (t : Table)
      → from ≤ now
      → length (expire window now (events_of k t)) + amount ≤ limit
      → Counts k limit window from before t
      → Counts k limit window now
          (before ++ replicate amount now)
          (put_events k (expire window now (events_of k t) ++ replicate amount now) t)
  Counts-granted from now amount before t later fits h = record {
    kept = (λ at past.
        kept' at past ∙ ap (tally (in_window window at)) (sym (events_of-put_self k _ t)));
    bound = (λ at. elim (Bool-cases (ltb at now)) [
      | inl early ↦ bound-before window at amount now limit before (ground arith) (h.bound at)
      | inr past ↦
          let p = in_window window at in
          let bounded = tally-bound p (expire window now (events_of k t) ++ replicate amount now) in
          omega (
            arith,
            kept' at (ground arith),
            bounded,
            length-append (expire window now (events_of k t)) (replicate amount now),
            length-replicate amount now,
          )
    ]);
  }
    where
      kept' :
          (at : ℕ)
          → now ≤ at
          → tally (in_window window at) (before ++ replicate amount now)
            ≡ tally
                (in_window window at)
                (expire window now (events_of k t) ++ replicate amount now)
      kept' at past =
          let p = in_window window at in
          omega (
            arith,
            tally-append p before (replicate amount now),
            tally-append p (expire window now (events_of k t)) (replicate amount now),
            h.kept at (omega arith),
            tally-expire window now at (events_of k t) past,
          )

  Counts-other :
      (from : ℕ) (before : List ℕ) (r : Request) (t : Table)
      → from ≤ r.now
      → key_eq r.key k ≡ false
      → Counts k limit window from before t
      → Counts k limit window r.now (before ++ grant k r t) (consume r t).1
  Counts-other from before r t later other h = record {
    kept = (λ at past.
        simp (other, append-nil before)
          (h.kept at (omega arith)
            ∙ ap (tally (in_window window at)) (sym (consume-other r k t other))));
    bound = (λ at. simp (other, append-nil before) (h.bound at));
  }

  -- A call for the key.
  abbrev own_request : ℕ → ℕ → Request
  own_request amount now = record {
    key = k;
    amount = amount;
    limit = limit;
    window = window;
    now = now;
  }

  Counts-own :
      (from amount now : ℕ) (before : List ℕ) (t : Table)
      → from ≤ now
      → Counts k limit window from before t
      → Counts k limit window now
          (before ++ grant k (own_request amount now) t)
          (consume (own_request amount now) t).1
  unfolding consume
  Counts-own from amount now before t later h =
      elim (Bool-cases (exceeds (own_request amount now) t)) [
        | inl over ↦
            simp (key_eq_refl k, over, append-nil before) (Counts-refused from now before t later h)
        | inr fits ↦
            simp (key_eq_refl k, fits)
              (Counts-granted from now amount before t later (ground arith) h)
      ]

  own_request-eq :
      (r : Request)
      → r.key ≡ k
      → r.limit ≡ limit
      → r.window ≡ window
      → own_request r.amount r.now ≡ r
  own_request-eq r key_is limit_is window_is = rw (key_is, limit_is, window_is) refl

  Counts-step :
      (from : ℕ) (before : List ℕ) (r : Request) (t : Table)
      → from ≤ r.now
      → (key_eq r.key k ≡ true → (r.limit ≡ limit) × (r.window ≡ window))
      → Counts k limit window from before t
      → Counts k limit window r.now (before ++ grant k r t) (consume r t).1
  Counts-step from before r t later same_limit h = elim (Bool-cases (key_eq r.key k)) [
    | inr other ↦ Counts-other from before r t later other h
    | inl mine ↦
        let (limit_is, window_is) = same_limit mine in
        subst (λ (x : Request). Counts k limit window x.now (before ++ grant k x t) (consume x t).1)
          (own_request-eq r (key_eq→eq r.key k mine) limit_is window_is)
          (Counts-own from r.amount r.now before t later h)
  ]

  bound-granted :
      (from : ℕ) (before : List ℕ) (requests : List Request) (t : Table)
      → AreOrdered from requests
      → HaveLimit k limit window requests
      → Counts k limit window from before t
      → (at : ℕ) → tally (in_window window at) (before ++ granted k requests t) ≤ limit
  unfolding AreOrdered HaveLimit granted
  bound-granted from before [] t ordered same h at = rw (append-nil before) (h.bound at)
  bound-granted from before (r ∷ requests) t ordered same h at =
      subst (λ (log : List ℕ). tally (in_window window at) log ≤ limit)
        (append_assoc before (grant k r t) (granted k requests (consume r t).1))
        (bound-granted r.now (before ++ grant k r t) requests (consume r t).1 ordered.1 same.1
          (Counts-step from before r t ordered.0 same.0 h) at)

-- Of all that a limiter grants a key, never more than the limit lies in one window, whatever other
-- keys are asked for in between: as long as the clock does not go back and every call for the key
-- has the same limit and window.
pub consume_bounded :
    (k : Key) (limit window : ℕ) (requests : List Request)
    → AreOrdered 0 requests
    → HaveLimit k limit window requests
    → (at : ℕ) → tally (in_window window at) (granted k requests []) ≤ limit
unfolding find
consume_bounded k limit window requests ordered same at =
    bound-granted k limit window 0 [] requests [] ordered same
      (record { kept = (λ at past. refl); bound = (λ at. omega arith) }) at
