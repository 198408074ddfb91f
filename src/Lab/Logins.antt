-- ===== src/Lab/Logins.antt =====
-- The methods of `LabStore` that write the row of the user who calls (store.py: `resolve_identity`,
-- `update_profile`, `choose_readonly`, `normalize_email`). One reading of the clock, `now`, serves a
-- call, and the id that `uuid.uuid4()` makes is an argument.
use constella.Prelude.{
  ℕ, ◌+◌, ◌*◌, Bool, true, false, not, ◌&&◌, ◌||◌, ltb, leb, Option, none, some, Text, text_eq,
  truthy, strip, lower, length, find?, any, if◌then◌else◌, ◌==◌,
}
use constella.Lab.Data.{
  Role, viewer, member, admin, UserStatus, active, pending_identity_review, User, user_created,
  readonly_selected, Store, value_error, lab_store_error, Action, pure, raise, gets, or_raise,
  branch, if_found, transaction, ◌>>=◌, ◌>>◌, raise_if, second,
}
use constella.Lab.Sql.{
  is_active, is_member, is_active_admin, has_id, same_identity, insert_user, update_users,
  audit_sql,
}

abbrev contains_at : Text → Bool
contains_at = any (λ c. c == 64)

unfoldable pub normalize_email : Text → Action Text
normalize_email email =
    let normalized = strip (lower email) in
    branch (not (truthy normalized) || not (contains_at normalized) || ltb 320 (length normalized))
      (raise value_error) (pure normalized)

abbrev pub select_user : Text → Store → Option User
select_user k s = find? (has_id k) s.users

-- `email`, `email_normalized`, `updated_at`, `last_login_at`
abbrev pub login_row : Text → Text → ℕ → User → User
login_row email normalized now u = record u {
  email = email;
  email_normalized = normalized;
  updated_at = now;
  last_login_at = now;
}

-- A known identity: the row is refreshed every five minutes, or when the address changes.
unfoldable pub refresh_login : Text → Text → ℕ → User → Action User
refresh_login email normalized now row =
    branch (leb (row.last_login_at + 300 * second) now || not (text_eq row.email email))
      (do
        update_users (has_id row.id) (login_row email normalized now)
        or_raise (← gets (select_user row.id)) lab_store_error)
      (pure row)

abbrev new_user : Text → Text → Text → Text → Text → Role → UserStatus → ℕ → User
new_user id issuer subject email normalized role status now = record {
  id = id;
  access_issuer = issuer;
  access_subject = subject;
  email = email;
  email_normalized = normalized;
  display_name = none;
  role = role;
  status = status;
  created_at = now;
  updated_at = now;
  last_login_at = now;
  onboarding_completed_at = none;
}

-- The part of `resolve_identity` for an identity that is not known yet.
unfoldable pub register : Text → Text → Text → Text → Text → Text → Text → ℕ → Action User
register issuer subject email normalized bootstrap request user_id now = do
  conflict ← gets (λ s. any (λ u. text_eq u.email_normalized normalized) s.users)
  admin_exists ← gets (λ s. any is_active_admin s.users)
  bootstrap_normalized ← normalize_email bootstrap
  let role = if text_eq normalized bootstrap_normalized && not admin_exists then admin else member
  let status = if conflict then pending_identity_review else active
  insert_user (new_user user_id issuer subject email normalized role status now)
  audit_sql user_id user_id request (user_created role status) now
  or_raise (← gets (select_user user_id)) lab_store_error

unfoldable pub resolve_identity : Text → Text → Text → Text → Text → Text → ℕ → Action User
resolve_identity issuer subject email bootstrap request user_id now = do
  normalized ← normalize_email email
  transaction do
    row ← gets (λ s. find? (same_identity issuer subject) s.users)
    if_found row (register issuer subject email normalized bootstrap request user_id now)
        (refresh_login email normalized now)

-- `x or None` of an optional text.
abbrev pub or_none : Option Text → Option Text
or_none none = none
or_none (some t) = if truthy t then some t else none

abbrev stripped : Option Text → Option Text
stripped none = none
stripped (some t) = if truthy t then some (strip t) else none

abbrev too_long : Option Text → Bool
too_long none = false
too_long (some t) = truthy t && ltb 80 (length t)

unfoldable pub update_profile : Text → Option Text → ℕ → Action User
update_profile user_id display_name now = do
  let name = stripped display_name
  raise_if (too_long name) value_error
  transaction
      (update_users (has_id user_id) (λ u. record u { display_name = name; updated_at = now }))
  or_raise (← gets (select_user user_id)) lab_store_error

abbrev pub is_unset : Option ℕ → Bool
is_unset none = true
is_unset (some t) = false

-- The condition of the `UPDATE` in `choose_readonly`; `bound` is its subquery, whether the user has
-- any binding.
abbrev pub may_choose_readonly : Text → Bool → User → Bool
may_choose_readonly user_id bound u =
    has_id user_id u
    && is_member u.role
    && is_active u.status
    && is_unset u.onboarding_completed_at
    && not bound

abbrev pub readonly_row : ℕ → User → User
readonly_row now u = record u {
  role = viewer;
  onboarding_completed_at = some now;
  updated_at = now;
}

unfoldable pub choose_readonly : Text → Text → ℕ → Action (Option User)
choose_readonly user_id request now = do
  transaction do
    bound ← gets (λ s. any (λ b. text_eq b.user_id user_id) s.bindings)
    changed ← gets (λ s. any (may_choose_readonly user_id bound) s.users)
    raise_if (not changed) value_error
    update_users (may_choose_readonly user_id bound) (readonly_row now)
    audit_sql user_id user_id request readonly_selected now
  gets (select_user user_id)
