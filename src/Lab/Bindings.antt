-- ===== src/Lab/Bindings.antt =====
-- The methods of `LabStore` that write account bindings (store.py: `can_bind`, `create_bindings`,
-- `end_binding`, `verify_binding`, `reassign_binding`). One reading of the clock, `now`, serves a
-- call, and the ids that `uuid.uuid4()` makes are arguments.
use constella.Prelude.{
  ℕ, Bool, true, false, not, ◌&&◌, Option, none, some, List, [], ◌∷◌, Text, text_eq, truthy, strip,
  length, find?, any, keep,
}
use constella.Lab.Data.{
  User, Binding, Assurance, admin_verified, BindingStatus, in_force, reassigned, Details,
  binding_created, onboarding_completed, binding_ended, binding_reassigned, binding_verified, Store,
  value_error, lab_store_error, Action, pure, gets, or_raise, branch, if_found, transaction,
  catch_integrity, ◌>>=◌, ◌>>◌, raise_if,
}
use constella.Lab.Sql.{
  is_active, has_id, is_open, binding_has_id, conflicts, update_users, insert_binding,
  update_bindings, end_bindings, audit_sql,
}
use constella.Lab.Logins.{select_user, is_unset}

-- The dict of an account that a node has looked up.
pub record Account : Type 0 where
  pub node_id : Text
  pub uid : ℕ
  pub gid : Option ℕ
  pub canonical_username : Text

unfoldable pub can_bind : Text → Text → ℕ → Store → Bool
can_bind user_id node_id unix_uid s = not (any (conflicts user_id node_id unix_uid) s.bindings)

abbrev pub new_binding : Text → Text → Account → Assurance → ℕ → Text → Option Text → Binding
new_binding id user_id account assurance now actor reason = record {
  id = id;
  user_id = user_id;
  node_id = account.node_id;
  unix_uid = account.uid;
  unix_gid = account.gid;
  unix_username = account.canonical_username;
  assurance = assurance;
  status = in_force;
  valid_from = now;
  valid_to = none;
  created_by = actor;
  ended_by = none;
  reason = reason;
}

abbrev pub created_details : Text → Account → Assurance → Option Text → Details
created_details user_id account assurance reason =
    binding_created user_id account.node_id account.uid assurance reason

-- The parameters of one call of `create_bindings`.
pub record Grant : Type 0 where
  pub user_id : Text
  pub actor_user_id : Text
  pub request_id : Text
  pub assurance : Assurance
  pub reason : Option Text
  pub now : ℕ

-- The loop of `create_bindings`; each account comes with the id of its row.
unfoldable pub insert_accounts : Grant → List (Text × Account) → Action (Unit {0})
insert_accounts g [] = pure tt
insert_accounts g ((id, account) ∷ rest) = do
  insert_binding (new_binding id g.user_id account g.assurance g.now g.actor_user_id g.reason)
  audit_sql g.actor_user_id id g.request_id (created_details g.user_id account g.assurance g.reason)
      g.now
  insert_accounts g rest

abbrev not_onboarded : Text → User → Bool
not_onboarded user_id u = has_id user_id u && is_unset u.onboarding_completed_at

-- The first bindings of a user complete the onboarding.
unfoldable pub complete_onboarding : Grant → ℕ → Action (Unit {0})
complete_onboarding g count = do
  completed ← gets (λ s. any (not_onboarded g.user_id) s.users)
  update_users (not_onboarded g.user_id)
      (λ u. record u { onboarding_completed_at = some g.now; updated_at = g.now })
  branch completed
      (audit_sql g.actor_user_id g.user_id g.request_id (onboarding_completed count) g.now)
      (pure tt)

abbrev pub bindings_of : Text → Store → List Binding
bindings_of user_id s = keep (λ b. text_eq b.user_id user_id && is_open b) s.bindings

abbrev listed : List (Text × Account) → Binding → Bool
listed accounts b = any (λ entry. binding_has_id entry.0 b) accounts

unfoldable pub create_bindings : Grant → List (Text × Account) → Action (List Binding)
create_bindings g accounts = do
  catch_integrity
      (transaction do insert_accounts g accounts; complete_onboarding g (length accounts))
  gets (λ s. keep (listed accounts) (bindings_of g.user_id s))

abbrev pub owned : Option Text → Binding → Bool
owned none b = true
owned (some user_id) b = text_eq b.user_id user_id

-- The condition by which `end_binding` finds its row.
abbrev pub may_end : Text → Option Text → Binding → Bool
may_end binding_id owner b = binding_has_id binding_id b && is_open b && owned owner b

abbrev pub coalesce : Option Text → Option Text → Option Text
coalesce none old = old
coalesce (some t) old = some t

unfoldable pub end_binding :
    Text → Text → Option Text → Text → BindingStatus → Option Text → ℕ → Action Bool
end_binding binding_id actor owner request status reason now = transaction do
  row ← gets (λ s. find? (may_end binding_id owner) s.bindings)
  if_found row (pure false) λ b. do
    end_bindings (binding_has_id binding_id) now actor status (coalesce reason)
    audit_sql actor binding_id request (binding_ended status reason) now
    pure true

unfoldable pub verify_binding : Text → Text → Text → ℕ → Action (Option Binding)
verify_binding binding_id actor request now = transaction do
  row ← gets (λ s. find? (may_end binding_id none) s.bindings)
  if_found row (pure none) λ b. do
    update_bindings (binding_has_id binding_id) (λ c. record c { assurance = admin_verified })
    audit_sql actor binding_id request (binding_verified admin_verified) now
    gets (λ s. find? (binding_has_id binding_id) s.bindings)

-- The loop of `reassign_binding` over the rows that give way.
unfoldable pub replace_rows : List Binding → Text → Text → Text → Text → ℕ → Action (Unit {0})
replace_rows [] new_id actor request reason now = pure tt
replace_rows (b ∷ rest) new_id actor request reason now = do
  end_bindings (binding_has_id b.id) now actor reassigned (λ r. some reason)
  audit_sql actor b.id request (binding_reassigned new_id reason) now
  replace_rows rest new_id actor request reason now

abbrev is_active_user : Option User → Bool
is_active_user none = false
is_active_user (some u) = is_active u.status

unfoldable pub reassign_binding : Text → Account → Text → Text → Text → Text → ℕ → Action Binding
reassign_binding user_id account actor request given_reason binding_id now = do
  let reason = strip given_reason
  raise_if (not (truthy reason)) value_error
  catch_integrity (
      transaction do
        user ← gets (select_user user_id)
        raise_if (not (is_active_user user)) lab_store_error
        replaced ← gets (λ s. keep (conflicts user_id account.node_id account.uid) s.bindings)
        replace_rows replaced binding_id actor request reason now
        insert_binding
            (new_binding binding_id user_id account admin_verified now actor (some reason))
        audit_sql actor binding_id request
            (created_details user_id account admin_verified (some reason)) now
        or_raise (← gets (λ s. find? (binding_has_id binding_id) s.bindings)) lab_store_error)
