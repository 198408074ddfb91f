-- ===== src/Lab/Steps.antt =====
-- What an action does to the store, as a relation between the store before and after, also where it
-- raises. The rules follow the combinators, so the methods are proved by `search`.
use constella.Prelude.{Bool, true, false, Option, none, some}
use constella.Lab.Data.{
  Store, Error, Result, ok, raised, Action, pure, raise, gets, or_raise, branch, if_found,
  transaction, commit, catch_integrity, continue, ◌>>=◌, ◌>>◌, raise_if, modify,
}
use constella.Lab.Sql.{constraint}

pub record IsPreorder (R : Store → Store → Type 0) : Type 0 where
  pub reflexive : (s : Store) → R s s
  pub transitive : (s t u : Store) → R s t → R t u → R s u

pub record Steps {A : Type 0} (R : Store → Store → Type 0) (m : Action A) : Type 0 where
  pub at : (s : Store) → R s (m s).1

module _ {R : Store → Store → Type 0} (p : IsPreorder R) where
  pub Steps-pure : {A : Type 0} (a : A) → Steps R (pure a)
  unfolding pure
  Steps-pure a = record { at = p.reflexive }

  pub Steps-raise : {A : Type 0} (e : Error) → Steps R (raise {A = A} e)
  unfolding raise
  Steps-raise e = record { at = p.reflexive }

  pub Steps-gets : {A : Type 0} (f : Store → A) → Steps R (gets f)
  unfolding gets
  Steps-gets f = record { at = p.reflexive }

  pub Steps-raise_if : (c : Bool) (e : Error) → Steps R (raise_if c e)
  unfolding raise_if
  Steps-raise_if c e = record { at = p.reflexive }

  pub Steps-constraint : (violated : Store → Bool) → Steps R (constraint violated)
  unfolding constraint
  Steps-constraint violated = record { at = p.reflexive }

  pub Steps-or_raise : {A : Type 0} (o : Option A) (e : Error) → Steps R (or_raise o e)
  unfolding or_raise
  Steps-or_raise none e = record { at = p.reflexive }
  Steps-or_raise (some a) e = record { at = p.reflexive }

  pub Steps-branch :
      {A : Type 0} (b : Bool) (m n : Action A) → Steps R m → Steps R n → Steps R (branch b m n)
  unfolding branch
  Steps-branch true m n h k = h
  Steps-branch false m n h k = k

  pub Steps-if_found :
      {A B : Type 0} (o : Option B) (m : Action A) (f : B → Action A)
      → Steps R m
      → ((b : B) → Steps R (f b))
      → Steps R (if_found o m f)
  unfolding if_found
  Steps-if_found none m f h k = h
  Steps-if_found (some b) m f h k = k b

  continue-Steps :
      {A B : Type 0} (f : A → Action B) (s : Store) (x : Result A × Store)
      → R s x.1
      → ((a : A) → Steps R (f a))
      → R s (continue f x).1
  continue-Steps f s (ok a, t) h k = p.transitive s t (f a t).1 h ((k a).at t)
  continue-Steps f s (raised e, t) h k = h

  pub Steps-bind :
      {A B : Type 0} (m : Action A) (f : A → Action B)
      → Steps R m
      → ((a : A) → Steps R (f a))
      → Steps R (m >>= f)
  unfolding ◌>>=◌
  Steps-bind m f h k = record { at = λ s. continue-Steps f s (m s) (h.at s) k }

  -- A statement behind a constraint.
  pub Steps-guarded :
      {A : Type 0} (violated : Store → Bool) (m : Action A)
      → Steps R m
      → Steps R (constraint violated >> m)
  Steps-guarded violated m h =
      Steps-bind (constraint violated) _ (Steps-constraint violated) (λ _. h)

  commit-Steps : {A : Type 0} (s : Store) (x : Result A × Store) → R s x.1 → R s (commit s x).1
  commit-Steps s (ok a, t) h = h
  commit-Steps s (raised e, t) h = p.reflexive s

  pub Steps-transaction : {A : Type 0} (m : Action A) → Steps R m → Steps R (transaction m)
  unfolding transaction
  Steps-transaction m h = record { at = λ s. commit-Steps s (m s) (h.at s) }

  translate-Steps :
      {A : Type 0} (s : Store) (x : Result A × Store) → R s x.1 → R s (catch_integrity (λ _. x) s).1
  unfolding catch_integrity
  translate-Steps s (ok a, t) h = h
  translate-Steps s (raised e, t) h = h

  pub Steps-catch_integrity : {A : Type 0} (m : Action A) → Steps R m → Steps R (catch_integrity m)
  unfolding catch_integrity
  Steps-catch_integrity m h = record {
    at = λ s. unfold catch_integrity in translate-Steps s (m s) (h.at s);
  }

pub Steps-modify :
    {R : Store → Store → Type 0} (f : Store → Store)
    → ((s : Store) → R s (f s))
    → Steps R (modify f)
unfolding modify
Steps-modify f h = record { at = h }

pub ruleset steps_rules = (
  Steps-pure, Steps-raise, Steps-gets, Steps-raise_if, Steps-constraint, Steps-or_raise,
  Steps-branch, Steps-if_found, Steps-bind, Steps-transaction, Steps-catch_integrity,
)
