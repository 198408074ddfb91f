-- ===== src/Rpc/Futures.antt =====
-- What the broker's writes do to the futures (agent_rpc.py, `set_result`, `set_exception`,
-- `_fail_pending`).
use constella.Prelude.{
  ℕ, zero, suc, ◌≡◌, refl, sym, ◌∙◌, Bool, true, false, some, List, [], ◌∷◌, Text, text_eq,
  get_elem?, inl, inr, Bool-cases, eq_of_some, ap, if◌then◌else◌,
}
use constella.Prelude.Keyed.{find}
use constella.Rpc.Broker.{set_outcome, settle, fail_pending}
use constella.Rpc.Data.{
  key_eq→eq, pending_keys, Key, Future, Outcome, RpcError, failed, key_eq, is_waiting, pending_of,
}

-- The future at a place.
abbrev pub IsAt : ℕ → Future → List Future → Type 0
IsAt i f fs = get_elem? fs i ≡ some f

-- A step on the futures: those that are done stay as they are, and those that wait after it waited
-- before, unchanged.
pub record Settles (fs fs' : List Future) : Type 0 where
  pub done : (i : ℕ) (f : Future) → IsAt i f fs → is_waiting f.outcome ≡ false → IsAt i f fs'
  pub still_open : (i : ℕ) (f : Future) → IsAt i f fs' → is_waiting f.outcome ≡ true → IsAt i f fs
  pub kept : (i : ℕ) (f : Future) → IsAt i f fs → (g : Future) × (IsAt i g fs') × (g.key ≡ f.key)
  pub known : (i : ℕ) (f : Future) → IsAt i f fs' → (g : Future) × (IsAt i g fs) × (g.key ≡ f.key)

pub Settles-refl : (fs : List Future) → Settles fs fs
Settles-refl fs = record {
  done = (λ i f here settled. here);
  still_open = (λ i f here wait. here);
  kept = (λ i f here. (f, here, refl));
  known = (λ i f here. (f, here, refl));
}

pub Settles-trans : (fs gs hs : List Future) → Settles fs gs → Settles gs hs → Settles fs hs
Settles-trans fs gs hs p q = record {
  done = (λ i f here settled. q.done i f (p.done i f here settled) settled);
  still_open = (λ i f here wait. p.still_open i f (q.still_open i f here wait) wait);
  kept = (λ i f here.
      let (g, here', same) = p.kept i f here in
      let (h, here'', same') = q.kept i g here' in (h, here'', same' ∙ same));
  known = (λ i f here.
      let (g, here', same) = q.known i f here in
      let (h, here'', same') = p.known i g here' in (h, here'', same' ∙ same));
}

both_ways : (b : Bool) → b ≡ false → b ≡ true → ⊥
both_ways b off on = cc

-- Where the future waits, the guard makes no difference.
pub set_outcome-settle :
    (i : ℕ) (o : Outcome) (f : Future) (fs : List Future)
    → IsAt i f fs
    → is_waiting f.outcome ≡ true
    → set_outcome i o fs ≡ settle i o fs
unfolding set_outcome settle
set_outcome-settle i o f [] here wait = refl
set_outcome-settle zero o f (g ∷ fs) here wait =
    let it : is_waiting g.outcome ≡ true =
      ap (λ (x : Future). is_waiting x.outcome) (eq_of_some here) ∙ wait in
    rw it refl
set_outcome-settle (suc i) o f (g ∷ fs) here wait =
    ap (λ gs. g ∷ gs) (set_outcome-settle i o f fs here wait)

settle-done :
    (i j : ℕ) (o : Outcome) (f : Future) (fs : List Future)
    → IsAt j f fs
    → is_waiting f.outcome ≡ false
    → IsAt j f (settle i o fs)
unfolding settle
settle-done i j o f [] here done = here
settle-done zero zero o f (g ∷ fs) here done =
    let same : g ≡ f = eq_of_some here in
    let settled : is_waiting g.outcome ≡ false =
      ap (λ (x : Future). is_waiting x.outcome) same ∙ done in
    simp settled here
settle-done zero (suc j) o f (g ∷ fs) here done = here
settle-done (suc i) zero o f (g ∷ fs) here done = here
settle-done (suc i) (suc j) o f (g ∷ fs) here done = settle-done i j o f fs here done

-- Where the outcome is a final one, the place it is set at waits no more.
settle-open :
    (i j : ℕ) (o : Outcome) (f : Future) (fs : List Future)
    → is_waiting o ≡ false
    → IsAt j f (settle i o fs)
    → is_waiting f.outcome ≡ true
    → IsAt j f fs
unfolding settle
settle-open i j o f [] final here wait = here
settle-open zero zero o f (g ∷ fs) final here wait = elim (Bool-cases (is_waiting g.outcome)) [
  | inl open_ ↦
      let set_ : o ≡ f.outcome = ap (λ (x : Future). x.outcome) (eq_of_some (simp open_ at here)) in
      absurd (both_ways _ (rw set_ at final) wait)
  | inr done ↦ simp done at here
]
settle-open zero (suc j) o f (g ∷ fs) final here wait = here
settle-open (suc i) zero o f (g ∷ fs) final here wait = here
settle-open (suc i) (suc j) o f (g ∷ fs) final here wait = settle-open i j o f fs final here wait

settle-known :
    (i j : ℕ) (o : Outcome) (f : Future) (fs : List Future)
    → IsAt j f (settle i o fs)
    → (g : Future) × (IsAt j g fs) × (g.key ≡ f.key)
unfolding settle
settle-known i j o f [] here = (f, here, refl)
settle-known zero zero o f (g ∷ fs) here = elim (Bool-cases (is_waiting g.outcome)) [
  | inl wait ↦ (g, refl, ap (λ (x : Future). x.key) (eq_of_some (simp wait at here)))
  | inr done ↦ (g, refl, ap (λ (x : Future). x.key) (eq_of_some (simp done at here)))
]
settle-known zero (suc j) o f (g ∷ fs) here = (f, here, refl)
settle-known (suc i) zero o f (g ∷ fs) here = (f, here, refl)
settle-known (suc i) (suc j) o f (g ∷ fs) here = settle-known i j o f fs here

settle-kept :
    (i j : ℕ) (o : Outcome) (f : Future) (fs : List Future)
    → IsAt j f fs
    → (g : Future) × (IsAt j g (settle i o fs)) × (g.key ≡ f.key)
unfolding settle
settle-kept i j o f [] here = (f, here, refl)
settle-kept zero zero o f (g ∷ fs) here = elim (Bool-cases (is_waiting g.outcome)) [
  | inl wait ↦
      (record g { outcome = o }, simp wait refl, ap (λ (x : Future). x.key) (eq_of_some here))
  | inr done ↦ (g, simp done refl, ap (λ (x : Future). x.key) (eq_of_some here))
]
settle-kept zero (suc j) o f (g ∷ fs) here = (f, here, refl)
settle-kept (suc i) zero o f (g ∷ fs) here = (f, here, refl)
settle-kept (suc i) (suc j) o f (g ∷ fs) here = settle-kept i j o f fs here

pub Settles-settle :
    (i : ℕ) (o : Outcome) (fs : List Future) → is_waiting o ≡ false → Settles fs (settle i o fs)
Settles-settle i o fs final = record {
  done = (λ j f here done. settle-done i j o f fs here done);
  still_open = (λ j f here wait. settle-open i j o f fs final here wait);
  kept = (λ j f here. settle-kept i j o f fs here);
  known = (λ j f here. settle-known i j o f fs here);
}

Settles-if_settle :
    (b : Bool) (i : ℕ) (o : Outcome) (fs : List Future)
    → is_waiting o ≡ false
    → Settles fs (if b then settle i o fs else fs)
Settles-if_settle true i o fs final = Settles-settle i o fs final
Settles-if_settle false i o fs final = Settles-refl fs

pub Settles-fail_pending :
    (node : Text) (e : RpcError) (p : List (Key × ℕ)) (fs : List Future)
    → Settles fs (fail_pending node e p fs)
unfolding fail_pending
Settles-fail_pending node e [] fs = Settles-refl fs
Settles-fail_pending node e ((k, i) ∷ p) fs =
    Settles-trans fs _ _ (Settles-if_settle (text_eq k.node_id node) i (failed e) fs refl)
      (Settles-fail_pending node e p _)

none_not_at : (i : ℕ) (f : Future) → IsAt i f [] → ⊥
none_not_at i f here = cc

settle_self :
    (i : ℕ) (o : Outcome) (f : Future) (fs : List Future)
    → is_waiting o ≡ false
    → IsAt i f (settle i o fs)
    → is_waiting f.outcome ≡ false
unfolding settle
settle_self i o f [] final here = absurd (none_not_at i f here)
settle_self zero o f (g ∷ fs) final here = elim (Bool-cases (is_waiting g.outcome)) [
  | inl open_ ↦
      let set_ : o ≡ f.outcome = ap (λ (x : Future). x.outcome) (eq_of_some (simp open_ at here)) in
      rw set_ at final
  | inr done ↦
      let same : g ≡ f = eq_of_some (simp done at here) in
      ap (λ (x : Future). is_waiting x.outcome) (sym same) ∙ done
]
settle_self (suc i) o f (g ∷ fs) final here = settle_self i o f fs final here

-- After `_fail_pending` of a node, no future that the node's pending keys name is waiting.
pub fail_pending-fails :
    (node : Text) (e : RpcError) (p : List (Key × ℕ)) (fs : List Future) (k : Key) (i : ℕ)
    (f : Future)
    → pending_of k p ≡ some i
    → text_eq k.node_id node ≡ true
    → IsAt i f (fail_pending node e p fs)
    → is_waiting f.outcome ≡ false
unfolding fail_pending find
fail_pending-fails node e [] fs k i f found mine here = cc
fail_pending-fails node e ((j, h) ∷ p) fs k i f found mine here = elim (Bool-cases (key_eq j k)) [
  | inl same ↦
      let place : h ≡ i = eq_of_some (simp same at found) in
      let named : text_eq j.node_id node ≡ true = rw (key_eq→eq j k same) mine in
      let failed_here : IsAt i f (fail_pending node e p (settle i (failed e) fs)) =
        simp (named, place) at here in
      let after = Settles-fail_pending node e p (settle i (failed e) fs) in
      let (g, before, keys) = after.known i f failed_here in
      let done = settle_self i (failed e) g fs refl before in
      let there = after.done i g before done in
      ap (λ (x : Future). is_waiting x.outcome) (eq_of_some (sym failed_here ∙ there)) ∙ done
  | inr other ↦ fail_pending-fails node e p _ k i f (simp other at found) mine here
]
