-- ===== src/Rpc/Ends.antt =====
-- What sending, timeouts and the end of a request keep (agent_rpc.py, `_request`).
use constella.Prelude.{
  or_right, or_left, true_not_false, none_not_some, ℕ, zero, suc, ◌≡◌, refl, sym, ap, subst, ◌∙◌,
  Bool, true, false, ◌&&◌, none, some, List, [], ◌∷◌, ◌++◌, Text, text_eq, text_eq-sym, any, length,
  get_elem?, inl, inr, ◌⊎◌, Bool-cases, Option-cases, eq_of_some,
}
use constella.Prelude.Dicts.{lookup}
use constella.Rpc.Broker.{Call, send_next, key_of_call, time_out, finish}
use constella.Rpc.Data.{
  key_eq→eq, pending_keys, Key, Future, cancelled, Broker, key_eq, is_waiting, pending_of,
  put_pending, pop_pending,
}
use constella.Rpc.Futures.{IsAt, Settles-settle}
use constella.Prelude.Keyed.{find-alter_other, find-pop_other, find-pop_self}
use constella.Rpc.Owned.{IsOwned, IsOwned-Settles, IsOwned-insert, sent_on-connection}

-- No request so far has this id: what `uuid.uuid4()` is relied on for.
abbrev pub IsFresh : Text → Broker → Type 0
IsFresh id b = any (λ f. text_eq f.key.request_id id) b.futures ≡ false

pub and_middle : (a b c : Bool) → b ≡ false → (a && b && c) ≡ false
and_middle true b c h = rw h refl
and_middle false b c h = refl

pub any-at :
    (p : Future → Bool) (i : ℕ) (f : Future) (fs : List Future)
    → any p fs ≡ false
    → IsAt i f fs
    → p f ≡ false
any-at p i f [] h here = absurd (none_not_some f here)
any-at p zero f (g ∷ fs) h here = ap p (sym (eq_of_some here)) ∙ or_left (p g) _ h
any-at p (suc i) f (g ∷ fs) h here = any-at p i f fs (or_right (p g) _ h) here

pub other_key :
    (call : Call) (id : Text) (b : Broker) (i : ℕ) (f : Future)
    → IsFresh id b
    → IsAt i f b.futures
    → key_eq (key_of_call call id) f.key ≡ false
other_key call id b i f fresh here =
    let differs = any-at (λ f. text_eq f.key.request_id id) i f b.futures fresh here in
    and_middle (text_eq call.node_id f.key.node_id) _ _ (text_eq-sym id f.key.request_id ∙ differs)

pub IsOwned-send_next : (node : Text) (b : Broker) → IsOwned b → IsOwned (send_next node b)
unfolding send_next
IsOwned-send_next node b ok = elim (Option-cases (lookup node b.connections)) [
  | inl missing ↦ simp missing ok
  | inr (c, found) ↦ simp found (IsOwned-insert node _ b (sent_on-connection node c b ok found) ok)
]

pub IsOwned-time_out : (i : ℕ) (b : Broker) → IsOwned b → IsOwned (time_out i b)
unfolding time_out
IsOwned-time_out i b ok = IsOwned-Settles b _ (Settles-settle i cancelled b.futures refl) ok

pub done_key :
    (i j : ℕ) (f g : Future) (b : Broker)
    → IsAt i f b.futures
    → is_waiting f.outcome ≡ false
    → IsOwned b
    → IsAt j g b.futures
    → is_waiting g.outcome ≡ true
    → key_eq f.key g.key ≡ false
done_key i j f g b here done ok there wait = elim (Bool-cases (key_eq f.key g.key)) [
  | inr other ↦ other
  | inl same ↦
      let place : i ≡ j = ok.unique i j f g here there (key_eq→eq f.key g.key same) in
      let it : f ≡ g = eq_of_some (sym here ∙ rw place there) in
      absurd (true_not_false (sym wait ∙ ap (λ (x : Future). is_waiting x.outcome) (sym it) ∙ done))
]

-- What is found after a key is taken out was there before.
pub pop_found :
    (k j : Key) (i : ℕ) (p : List (Key × ℕ))
    → pending_of j (pop_pending k p) ≡ some i
    → pending_of j p ≡ some i
pop_found k j i p found = elim (Bool-cases (key_eq k j)) [
  | inr other ↦ sym (find-pop_other k j p other) ∙ found
  | inl same ↦ absurd (
      none_not_some i (
        sym (
          subst (λ x. pending_of x (pop_pending k p) ≡ none) (key_eq→eq k j same)
            (find-pop_self k p))
        ∙ found))
]

pub put_pop_found :
    (k j : Key) (i h : ℕ) (p : List (Key × ℕ))
    → pending_of j (pop_pending k (put_pending k h p)) ≡ some i
    → pending_of j p ≡ some i
put_pop_found k j i h p found = elim (Bool-cases (key_eq k j)) [
  | inr other ↦
      sym (find-alter_other k j (λ o. h) p other) ∙ pop_found k j i (put_pending k h p) found
  | inl same ↦ absurd (
      none_not_some i (
        sym (
          subst (λ x. pending_of x (pop_pending k (put_pending k h p)) ≡ none) (key_eq→eq k j same)
            (find-pop_self k (put_pending k h p)))
        ∙ found))
]

pub IsOwned-pop :
    (i : ℕ) (f : Future) (b : Broker)
    → IsAt i f b.futures
    → is_waiting f.outcome ≡ false
    → IsOwned b
    → IsOwned (record b { pending = pop_pending f.key b.pending })
IsOwned-pop i f b here done ok = record {
  served = (λ j g there wait.
      let (c, at_node, own, key) = ok.served j g there wait in
      (
        c,
        at_node,
        own,
        find-pop_other f.key g.key b.pending (done_key i j f g b here done ok there wait) ∙ key,
      ));
  unique = ok.unique;
  named = (λ k j found. ok.named k j (pop_found f.key k j b.pending found));
}

pub IsOwned-finish : (i : ℕ) (b : Broker) → IsOwned b → IsOwned (finish i b)
unfolding finish
IsOwned-finish i b ok = elim (Option-cases (get_elem? b.futures i)) [
  | inl missing ↦ simp missing ok
  | inr (f, here) ↦ elim (Bool-cases (is_waiting f.outcome)) [
    | inl wait ↦ simp (here, wait) ok
    | inr done ↦ simp (here, done) (IsOwned-pop i f b here done ok)
  ]
]

-- The new request is at the end of the futures; the others are where they were.
pub IsAt-append_old :
    (fs : List Future) (n : Future) (i : ℕ) (f : Future) → IsAt i f fs → IsAt i f (fs ++ n ∷ [])
IsAt-append_old [] n i f here = absurd (none_not_some f here)
IsAt-append_old (g ∷ fs) n zero f here = here
IsAt-append_old (g ∷ fs) n (suc i) f here = IsAt-append_old fs n i f here

pub IsAt-append_new : (fs : List Future) (n : Future) → IsAt (length fs) n (fs ++ n ∷ [])
IsAt-append_new [] n = refl
IsAt-append_new (g ∷ fs) n = IsAt-append_new fs n

pub IsAt-append :
    (fs : List Future) (n : Future) (i : ℕ) (f : Future)
    → IsAt i f (fs ++ n ∷ [])
    → (IsAt i f fs) ⊎ ((i ≡ length fs) × (n ≡ f))
IsAt-append [] n zero f here = inr (refl, eq_of_some here)
IsAt-append [] n (suc i) f here = absurd (none_not_some f here)
IsAt-append (g ∷ fs) n zero f here = inl here
IsAt-append (g ∷ fs) n (suc i) f here = elim (IsAt-append fs n i f here) [
  | inl old ↦ inl old
  | inr (place, new) ↦ inr (ap suc place, new)
]
