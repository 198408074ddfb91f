-- ===== src/Lab/Users.antt =====
-- The methods of `LabStore` by which an admin writes users (store.py: `admin_update_user`,
-- `migrate_identity`). One reading of the clock, `now`, serves a call.
use constella.Prelude.{
  ℕ, Bool, not, ◌&&◌, ◌||◌, leb, Option, none, some, List, [], ◌∷◌, ◌++◌, Text, text, text_eq,
  truthy, strip, tally, keep, if◌then◌else◌,
}
use constella.Lab.Data.{
  Role, viewer, member, admin, UserStatus, active, disabled, pending_identity_review, User, Binding,
  revoked, user_updated, binding_ended, identity_migrated, value_error, lab_store_error,
  last_admin_error, Action, pure, gets, or_raise, branch, transaction, ◌>>=◌, ◌>>◌, raise_if,
}
use constella.Lab.Sql.{
  is_active, is_admin, is_pending, is_active_admin, has_id, is_open, update_users, update_identity,
  end_bindings, audit_sql,
}
use constella.Lab.Logins.{select_user, or_none}

-- `VALID_ROLES` and `VALID_USER_STATUSES`: a text outside them is refused.
role_of : Text → Option Role
role_of t =
    if text_eq t (text "viewer")
    then some viewer
    else if text_eq t (text "member")
    then some member
    else if text_eq t (text "admin")
    then some admin
    else none

status_of : Text → Option UserStatus
status_of t =
    if text_eq t (text "active")
    then some active
    else if text_eq t (text "disabled")
    then some disabled
    else if text_eq t (text "pending_identity_review")
    then some pending_identity_review
    else none

-- `if role is not None and role not in VALID_ROLES: raise ValueError`
unfoldable pub checked : {A : Type 0} → (Text → Option A) → Option Text → Action (Option A)
checked parse none = pure none
checked parse (some t) = do a ← or_raise (parse t) value_error; pure (some a)

abbrev pub or_current : {A : Type 0} → Option A → A → A
or_current none a = a
or_current (some b) a = b

abbrev pub removes_active_admin : User → Option Role → Option UserStatus → Bool
removes_active_admin current role status =
    is_active_admin current
    && (not (is_admin (or_current role admin)) || not (is_active (or_current status active)))

-- The audit events of the bindings that a disabled user loses, in their order.
unfoldable pub audit_ended : Text → Text → ℕ → List Binding → Action (Unit {0})
audit_ended actor request now [] = pure tt
audit_ended actor request now (b ∷ rest) = do
  audit_sql actor b.id request (binding_ended revoked (some (text "user disabled"))) now
  audit_ended actor request now rest

-- The end of a transaction of `admin_update_user`: a user that is not active holds no binding.
unfoldable pub close_account : Text → Text → Text → ℕ → Action (Unit {0})
close_account user_id actor request now = do
  let theirs = λ (b : Binding). text_eq b.user_id user_id && is_open b
  ended ← gets (λ s. keep theirs s.bindings)
  end_bindings theirs now actor revoked (λ r. some (text "user disabled"))
  audit_ended actor request now ended

abbrev pub admin_row : Role → UserStatus → Option Text → ℕ → User → User
admin_row role status name now u = record u {
  role = role;
  status = status;
  display_name = name;
  updated_at = now;
}

-- The guard and the `UPDATE` of `admin_update_user`, with the status that it writes.
unfoldable pub change_user :
    Text → Option Role → Option UserStatus → Option Text → ℕ → Action (Role × UserStatus)
change_user user_id role status display_name now = do
  current ← or_raise (← gets (select_user user_id)) lab_store_error
  admin_count ← gets (λ s. tally is_active_admin s.users)
  raise_if (removes_active_admin current role status && leb admin_count 1) last_admin_error
  let next_role = or_current role current.role
  let next_status = or_current status current.status
  let next_name =
      or_none (elim display_name [ none ↦ current.display_name | some t ↦ some (strip t) ])
  update_users (has_id user_id) (admin_row next_role next_status next_name now)
  pure (next_role, next_status)

-- The transaction of `admin_update_user`.
unfoldable pub apply_update :
    Text → Text → Text → Option Role → Option UserStatus → Option Text → ℕ → Action (Unit {0})
apply_update user_id actor request role status display_name now = transaction do
  next ← change_user user_id role status display_name now
  audit_sql actor user_id request (user_updated next.0 next.1) now
  branch (is_active next.1) (pure tt) (close_account user_id actor request now)

unfoldable pub admin_update_user :
    Text → Text → Text → Option Text → Option Text → Option Text → ℕ → Action User
unfolding role_of status_of
admin_update_user user_id actor request role status display_name now = do
  new_role ← checked role_of role
  new_status ← checked status_of status
  apply_update user_id actor request new_role new_status display_name now
  or_raise (← gets (select_user user_id)) lab_store_error

-- `f"migrated:{pending_user_id}"`
abbrev migrated_issuer : Text → Text
migrated_issuer pending = text "migrated:" ++ pending

abbrev pub retired_row : Text → ℕ → User → User
retired_row issuer now u = record u { access_issuer = issuer; status = disabled; updated_at = now }

abbrev pub adopted_row : User → ℕ → User → User
adopted_row pending now u = record u {
  access_issuer = pending.access_issuer;
  access_subject = pending.access_subject;
  email = pending.email;
  email_normalized = pending.email_normalized;
  updated_at = now;
  last_login_at = pending.last_login_at;
}

-- The part of `migrate_identity` that tests the two users and writes their identities.
unfoldable pub move_identity : Text → Text → ℕ → Action (Unit {0})
move_identity user_id pending_user_id now = do
  target ← or_raise (← gets (select_user user_id)) lab_store_error
  pending ← or_raise (← gets (select_user pending_user_id)) lab_store_error
  raise_if
      (not (is_pending pending.status && text_eq target.email_normalized pending.email_normalized))
      value_error
  let retired = migrated_issuer pending_user_id
  update_identity pending_user_id retired pending.access_subject (retired_row retired now)
  update_identity user_id pending.access_issuer pending.access_subject (adopted_row pending now)

-- The transaction of `migrate_identity`.
unfoldable pub apply_migration : Text → Text → Text → Text → Text → ℕ → Action (Unit {0})
apply_migration user_id pending_user_id actor request reason now = transaction do
  move_identity user_id pending_user_id now
  audit_sql actor user_id request (identity_migrated pending_user_id (strip reason)) now

unfoldable pub migrate_identity : Text → Text → Text → Text → Text → ℕ → Action User
migrate_identity user_id pending_user_id actor request reason now = do
  raise_if (not (truthy (strip reason))) value_error
  apply_migration user_id pending_user_id actor request reason now
  or_raise (← gets (select_user user_id)) lab_store_error
