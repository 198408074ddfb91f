-- ===== src/Lab/Atomic.antt =====
-- A call of the store that raises leaves the store as it was (store.py: `with self._lock,
-- self._con():` in each method, and the checks around it).
use constella.Prelude.{
  ℕ, ◌≡◌, refl, ap, true, none, some, List, [], ◌∷◌, Text, find?, update_where, arith, Option,
  Option-cases, inl, inr,
}
use constella.Lab.Data.{
  Role, UserStatus, User, BindingStatus, Store, Error, lab_store_error, Result, ok, raised, gets,
  or_raise, transaction, ◌>>=◌, modify,
}
use constella.Lab.Sql.{has_id, user_exists, update_users}
use constella.Lab.Rules.{apply_update-Steps, apply_migration-Steps}
use constella.Lab.History.{Extends-Rules}
use constella.Lab.Users.{
  admin_update_user, migrate_identity, apply_update, apply_migration, change_user, move_identity,
}
use constella.Lab.Logins.{select_user, resolve_identity, update_profile, choose_readonly}
use constella.Lab.Bindings.{
  Grant, Account, create_bindings, end_binding, verify_binding, reassign_binding,
}
use constella.Lab.Calls.{
  Call, resolve_identity_call, update_profile_call, choose_readonly_call, admin_update_user_call,
  migrate_identity_call, create_bindings_call, end_binding_call, verify_binding_call,
  reassign_binding_call, perform,
}
use constella.Lab.Rollback.{
  error_of, failure, Unchanged, IsAtomic, transaction-IsAtomic, catch_integrity-IsAtomic,
  reading-IsAtomic, then_gets-IsAtomic, normalize_email-IsReading, raise_if-IsReading,
  checked-IsReading, exists-of-found, then_reselect-IsAtomic,
}

resolve_identity-IsAtomic :
    (issuer subject email bootstrap request id : Text) (now : ℕ)
    → IsAtomic (resolve_identity issuer subject email bootstrap request id now)
unfolding resolve_identity
resolve_identity-IsAtomic issuer subject email bootstrap request id now =
    reading-IsAtomic _ _ (normalize_email-IsReading email) (λ n. transaction-IsAtomic _)

choose_readonly-IsAtomic :
    (user request : Text) (now : ℕ) → IsAtomic (choose_readonly user request now)
unfolding choose_readonly
choose_readonly-IsAtomic user request now = then_gets-IsAtomic _ _ (transaction-IsAtomic _)

create_bindings-IsAtomic :
    (g : Grant) (accounts : List (Text × Account)) → IsAtomic (create_bindings g accounts)
unfolding create_bindings
create_bindings-IsAtomic g accounts =
    then_gets-IsAtomic _ _ (catch_integrity-IsAtomic _ (transaction-IsAtomic _))

end_binding-IsAtomic :
    (id actor : Text) (owner : Option Text) (request : Text) (status : BindingStatus)
    (reason : Option Text) (now : ℕ)
    → IsAtomic (end_binding id actor owner request status reason now)
unfolding end_binding
end_binding-IsAtomic id actor owner request status reason now = transaction-IsAtomic _

verify_binding-IsAtomic :
    (id actor request : Text) (now : ℕ) → IsAtomic (verify_binding id actor request now)
unfolding verify_binding
verify_binding-IsAtomic id actor request now = transaction-IsAtomic _

reassign_binding-IsAtomic :
    (user : Text) (account : Account) (actor request reason id : Text) (now : ℕ)
    → IsAtomic (reassign_binding user account actor request reason id now)
unfolding reassign_binding
reassign_binding-IsAtomic user account actor request reason id now =
    reading-IsAtomic _ _ (raise_if-IsReading _ _)
      (λ u. catch_integrity-IsAtomic _ (transaction-IsAtomic _))

apply_update_missing :
    (k actor request : Text) (role : Option Role) (status : Option UserStatus) (name : Option Text)
    (now : ℕ) (s : Store)
    → find? (has_id k) s.users ≡ none
    → (apply_update k actor request role status name now s).0 ≡ raised lab_store_error
unfolding apply_update transaction ◌>>=◌ change_user gets or_raise
apply_update_missing k actor request role status name now s missing = rw missing

apply_migration_missing :
    (k pending actor request reason : Text) (now : ℕ) (s : Store)
    → find? (has_id k) s.users ≡ none
    → (apply_migration k pending actor request reason now s).0 ≡ raised lab_store_error
unfolding apply_migration transaction ◌>>=◌ move_identity gets or_raise
apply_migration_missing k pending actor request reason now s missing = rw missing

-- The user whom a transaction changes is there before it, so there after it.
apply_update_exists :
    (k actor request : Text) (role : Option Role) (status : Option UserStatus) (name : Option Text)
    (now : ℕ) (s : Store) (a : Unit {0})
    → (apply_update k actor request role status name now s).0 ≡ ok a
    → user_exists k (apply_update k actor request role status name now s).1 ≡ true
apply_update_exists k actor request role status name now s a h =
    elim (Option-cases (find? (has_id k) s.users)) [
      | inl missing ↦ cc (apply_update_missing k actor request role status name now s missing)
      | inr (u, found) ↦
          ((apply_update-Steps Extends-Rules k actor request role status name now).at s).users k
            (exists-of-found k s.users found)
    ]

apply_migration_exists :
    (k pending actor request reason : Text) (now : ℕ) (s : Store) (a : Unit {0})
    → (apply_migration k pending actor request reason now s).0 ≡ ok a
    → user_exists k (apply_migration k pending actor request reason now s).1 ≡ true
apply_migration_exists k pending actor request reason now s a h =
    elim (Option-cases (find? (has_id k) s.users)) [
      | inl missing ↦ cc (apply_migration_missing k pending actor request reason now s missing)
      | inr (u, found) ↦
          ((apply_migration-Steps Extends-Rules k pending actor request reason now).at s).users k
            (exists-of-found k s.users found)
    ]

apply_update-IsAtomic :
    (k actor request : Text) (role : Option Role) (status : Option UserStatus) (name : Option Text)
    (now : ℕ)
    → IsAtomic (apply_update k actor request role status name now)
unfolding apply_update
apply_update-IsAtomic k actor request role status name now = transaction-IsAtomic _

apply_migration-IsAtomic :
    (k pending actor request reason : Text) (now : ℕ)
    → IsAtomic (apply_migration k pending actor request reason now)
unfolding apply_migration
apply_migration-IsAtomic k pending actor request reason now = transaction-IsAtomic _

admin_update_user-IsAtomic :
    (k actor request : Text) (role status name : Option Text) (now : ℕ)
    → IsAtomic (admin_update_user k actor request role status name now)
unfolding admin_update_user
admin_update_user-IsAtomic k actor request role status name now =
    reading-IsAtomic _ _ (checked-IsReading _ role) (λ r.
      reading-IsAtomic _ _ (checked-IsReading _ status) (λ t.
        then_reselect-IsAtomic k _ (apply_update-IsAtomic k actor request r t name now)
          (apply_update_exists k actor request r t name now)))

migrate_identity-IsAtomic :
    (k pending actor request reason : Text) (now : ℕ)
    → IsAtomic (migrate_identity k pending actor request reason now)
unfolding migrate_identity
migrate_identity-IsAtomic k pending actor request reason now =
    reading-IsAtomic _ _ (raise_if-IsReading _ _) (λ u.
      then_reselect-IsAtomic k _ (apply_migration-IsAtomic k pending actor request reason now)
        (apply_migration_exists k pending actor request reason now))

-- Writing to a row that is not there writes nothing.
update-unfound :
    (k : Text) (f : User → User) (us : List User)
    → ((u : User) → (f u).id ≡ u.id)
    → find? (has_id k) (update_where (has_id k) f us) ≡ none
    → update_where (has_id k) f us ≡ us
update-unfound k f [] same h = refl
update-unfound k f (u ∷ us) same h = ground (arith, update-unfound k f us same, same u)

profile-Unchanged :
    (k : Text) (f : User → User) (s : Store)
    → ((u : User) → (f u).id ≡ u.id)
    → Unchanged s (
        (transaction (update_users (has_id k) f) >>= λ u.
        gets (select_user k) >>= λ o. or_raise o lab_store_error)
          s)
unfolding transaction update_users modify ◌>>=◌ gets or_raise
profile-Unchanged k f s same =
    elim (Option-cases (find? (has_id k) (update_where (has_id k) f s.users))) [
      | inl missing ↦
          rw missing (ap (λ us. record s { users = us }) (update-unfound k f s.users same missing))
      | inr (u, found) ↦ rw found tt
    ]

update_profile-IsAtomic :
    (k : Text) (name : Option Text) (now : ℕ) → IsAtomic (update_profile k name now)
unfolding update_profile
update_profile-IsAtomic k name now =
    reading-IsAtomic _ _ (raise_if-IsReading _ _)
      (λ u. record { at = λ s. profile-Unchanged k _ s (λ v. refl) })

Unchanged-error :
    {A : Type 0} (s : Store) (x : Result A × Store) (e : Error)
    → Unchanged s x
    → error_of x.0 ≡ some e
    → x.1 ≡ s
Unchanged-error s (ok a, t) e h k = cc
Unchanged-error s (raised f, t) e h k = h

-- Every call that writes users or bindings and raises, whatever the error, leaves the store exactly
-- as it was.
pub perform_failed : (c : Call) (s : Store) (e : Error) → failure c s ≡ some e → perform c s ≡ s
unfolding failure perform
perform_failed (resolve_identity_call issuer subject email bootstrap request id now) s e =
    Unchanged-error s _ e
      ((resolve_identity-IsAtomic issuer subject email bootstrap request id now).at s)
perform_failed (update_profile_call user name now) s e =
    Unchanged-error s _ e ((update_profile-IsAtomic user name now).at s)
perform_failed (choose_readonly_call user request now) s e =
    Unchanged-error s _ e ((choose_readonly-IsAtomic user request now).at s)
perform_failed (admin_update_user_call user actor request role status name now) s e =
    Unchanged-error s _ e
      ((admin_update_user-IsAtomic user actor request role status name now).at s)
perform_failed (migrate_identity_call user pending actor request reason now) s e =
    Unchanged-error s _ e ((migrate_identity-IsAtomic user pending actor request reason now).at s)
perform_failed (create_bindings_call g accounts) s e =
    Unchanged-error s _ e ((create_bindings-IsAtomic g accounts).at s)
perform_failed (end_binding_call id actor owner request status reason now) s e =
    Unchanged-error s _ e ((end_binding-IsAtomic id actor owner request status reason now).at s)
perform_failed (verify_binding_call id actor request now) s e =
    Unchanged-error s _ e ((verify_binding-IsAtomic id actor request now).at s)
perform_failed (reassign_binding_call user account actor request reason id now) s e =
    Unchanged-error s _ e
      ((reassign_binding-IsAtomic user account actor request reason id now).at s)
