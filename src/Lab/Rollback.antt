-- ===== src/Lab/Rollback.antt =====
-- What a transaction that raises leaves behind, and what reads alone do (store.py, `with self._lock,
-- self._con():`).
use constella.Prelude.{
  ◌≡◌, refl, subst, Bool, true, none, some, List, [], ◌∷◌, Text, any, find?, arith, Option,
  Option-cases, Bool-cases, inl, inr,
}
use constella.Lab.Data.{
  User, Store, Error, lab_store_error, Result, ok, raised, Action, pure, raise, gets, or_raise,
  branch, transaction, commit, catch_integrity, continue, ◌>>=◌, raise_if,
}
use constella.Lab.Sql.{has_id, user_exists}
use constella.Lab.Users.{admin_update_user, migrate_identity, checked}
use constella.Lab.Logins.{
  select_user, resolve_identity, update_profile, choose_readonly, normalize_email,
}
use constella.Lab.Bindings.{create_bindings, end_binding, verify_binding, reassign_binding}
use constella.Lab.Calls.{
  Call, resolve_identity_call, update_profile_call, choose_readonly_call, admin_update_user_call,
  migrate_identity_call, create_bindings_call, end_binding_call, verify_binding_call,
  reassign_binding_call,
}

abbrev pub error_of : {A : Type 0} → Result A → Option Error
error_of (ok a) = none
error_of (raised e) = some e

-- The error that a call ends with, if it raises.
unfoldable pub failure : Call → Store → Option Error
failure (resolve_identity_call issuer subject email bootstrap request id now) s =
    error_of (resolve_identity issuer subject email bootstrap request id now s).0
failure (update_profile_call user name now) s = error_of (update_profile user name now s).0
failure (choose_readonly_call user request now) s = error_of (choose_readonly user request now s).0
failure (admin_update_user_call user actor request role status name now) s =
    error_of (admin_update_user user actor request role status name now s).0
failure (migrate_identity_call user pending actor request reason now) s =
    error_of (migrate_identity user pending actor request reason now s).0
failure (create_bindings_call g accounts) s = error_of (create_bindings g accounts s).0
failure (end_binding_call id actor owner request status reason now) s =
    error_of (end_binding id actor owner request status reason now s).0
failure (verify_binding_call id actor request now) s =
    error_of (verify_binding id actor request now s).0
failure (reassign_binding_call user account actor request reason id now) s =
    error_of (reassign_binding user account actor request reason id now s).0

-- An action that raises has changed nothing.
abbrev pub Unchanged : {A : Type 0} → Store → Result A × Store → Type 0
Unchanged s (ok a, t) = Unit
Unchanged s (raised e, t) = t ≡ s

pub record IsAtomic {A : Type 0} (m : Action A) : Type 0 where
  pub at : (s : Store) → Unchanged s (m s)

-- An action that only reads.
pub record IsReading {A : Type 0} (m : Action A) : Type 0 where
  pub at : (s : Store) → (m s).1 ≡ s

module _ {A : Type 0} where
  pub commit-Unchanged : (s : Store) (x : Result A × Store) → Unchanged s (commit s x)
  commit-Unchanged s (ok a, t) = tt
  commit-Unchanged s (raised e, t) = refl

  pub transaction-IsAtomic : (m : Action A) → IsAtomic (transaction m)
  unfolding transaction
  transaction-IsAtomic m = record { at = λ s. commit-Unchanged s (m s) }

  pub caught-Unchanged :
      (s : Store) (x : Result A × Store)
      → Unchanged s x
      → Unchanged s (catch_integrity (λ (t : Store). x) s)
  unfolding catch_integrity
  caught-Unchanged s (ok a, t) h = tt
  caught-Unchanged s (raised e, t) h = h

  pub catch_integrity-IsAtomic : (m : Action A) → IsAtomic m → IsAtomic (catch_integrity m)
  unfolding catch_integrity
  catch_integrity-IsAtomic m h = record {
    at = λ s. unfold catch_integrity in caught-Unchanged s (m s) (h.at s);
  }

module _ {A B : Type 0} where
  pub continue-reading :
      (f : A → Action B) (s : Store) (x : Result A × Store)
      → x.1 ≡ s
      → ((a : A) → IsAtomic (f a))
      → Unchanged s (continue f x)
  continue-reading f s (ok a, t) e h = subst (λ u. Unchanged u (f a t)) e ((h a).at t)
  continue-reading f s (raised e, t) same h = same

  -- Reading first.
  pub reading-IsAtomic :
      (m : Action A) (f : A → Action B)
      → IsReading m
      → ((a : A) → IsAtomic (f a))
      → IsAtomic (m >>= f)
  unfolding ◌>>=◌
  reading-IsAtomic m f r h = record { at = λ s. continue-reading f s (m s) (r.at s) h }

  pub continue-reselect :
      (s : Store) (x : Result A × Store) (g : Store → B)
      → Unchanged s x
      → Unchanged s (continue (λ a. gets g) x)
  unfolding gets
  continue-reselect s (ok a, t) g h = tt
  continue-reselect s (raised e, t) g h = h

  -- Reading a column at the end, where nothing can raise.
  pub then_gets-IsAtomic :
      (m : Action A) (g : Store → B) → IsAtomic m → IsAtomic (m >>= λ a. gets g)
  unfolding ◌>>=◌
  then_gets-IsAtomic m g h = record { at = λ s. continue-reselect s (m s) g (h.at s) }

pub normalize_email-IsReading : (email : Text) → IsReading (normalize_email email)
unfolding normalize_email branch raise pure
normalize_email-IsReading email = record { at = λ s. ground arith }

pub raise_if-IsReading : (c : Bool) (e : Error) → IsReading (raise_if c e)
unfolding raise_if
raise_if-IsReading c e = record { at = λ s. refl }

pub checked-IsReading :
    {A : Type 0} (parse : Text → Option A) (o : Option Text) → IsReading (checked parse o)
unfolding checked pure or_raise ◌>>=◌
checked-IsReading parse none = record { at = λ s. refl }
checked-IsReading parse (some t) = record {
  at = λ s. elim (Option-cases (parse t)) [ inl e ↦ rw e | inr (a, e) ↦ rw e ];
}

pub found-of-exists :
    (k : Text) (us : List User) → find? (has_id k) us ≡ none → any (has_id k) us ≡ true → ⊥
found-of-exists k [] h e = cc
found-of-exists k (u ∷ us) h e = elim (Bool-cases (has_id k u)) [
  | inl here ↦ ground arith
  | inr there ↦ found-of-exists k us (rw there at h) (rw there at e)
]

pub exists-of-found :
    (k : Text) (us : List User) {u : User} → find? (has_id k) us ≡ some u → any (has_id k) us ≡ true
exists-of-found k [] h = cc
exists-of-found k (v ∷ us) h = elim (Bool-cases (has_id k v)) [
  | inl here ↦ rw here
  | inr there ↦ rw there (exists-of-found k us (rw there at h))
]

-- The user that a transaction wrote is there when it is read again.
module _ {A : Type 0} (k : Text) where
  pub reselect-Unchanged :
      (s : Store) (x : Result A × Store)
      → Unchanged s x
      → ((a : A) → x.0 ≡ ok a → user_exists k x.1 ≡ true)
      → Unchanged s (continue (λ a. gets (select_user k) >>= λ o. or_raise o lab_store_error) x)
  reselect-Unchanged s (raised e, t) h there = h
  reselect-Unchanged s (ok a, t) h there = elim (Option-cases (select_user k t)) [
    | inl missing ↦ absurd (found-of-exists k t.users missing (there a refl))
    | inr (u, found) ↦ unfold ◌>>=◌ gets or_raise in rw found tt
  ]

  pub then_reselect-IsAtomic :
      (m : Action A)
      → IsAtomic m
      → ((s : Store) (a : A) → (m s).0 ≡ ok a → user_exists k (m s).1 ≡ true)
      → IsAtomic (m >>= λ a. gets (select_user k) >>= λ o. or_raise o lab_store_error)
  then_reselect-IsAtomic m h there = record {
    at = λ s. unfold ◌>>=◌ in reselect-Unchanged s (m s) (h.at s) (there s);
  }
