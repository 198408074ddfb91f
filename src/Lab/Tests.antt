-- ===== src/Lab/Tests.antt =====
-- A small lab: an admin, two members, and one binding; runs of the calls on it.
use constella.Prelude.{◌≡◌, refl, false, none, some, List, [], ◌∷◌, Text, text, arith, text_eq, ℕ}
use constella.Lab.Data.{
  Role, member, admin, active, disabled, User, self_claimed, in_force, Store, last_admin_error,
  binding_conflict_error, raised, ◌>>=◌, pure, gets, or_raise, branch, transaction, raise_if,
  modify,
}
use constella.Lab.Sql.{update_users, update_bindings, end_bindings, audit_sql, constraint}
use constella.Lab.Users.{
  apply_update, change_user, close_account, audit_ended, admin_update_user, checked,
}
use constella.Lab.Bindings.{Account, Grant, can_bind, create_bindings}
use constella.Lab.Calls.{
  Call, admin_update_user_call, create_bindings_call, reassign_binding_call, perform, run,
}
use constella.Lab.Exclusive.{IsExclusive, run-IsExclusive}
use constella.Lab.Governance.{run-IsGoverned}
use constella.Lab.Admins.{IsGoverned}
use constella.Lab.History.{Extends, run-Extends}
use constella.Lab.Atomic.{perform_failed}
use constella.Lab.Rollback.{failure}
use constella.Lab.Refusals.{holds_open, create_bindings-blocked, apply_update_closes}

abbrev person : Text → Text → Role → User
person id email role = record {
  id = id;
  access_issuer = text "idp";
  access_subject = id;
  email = email;
  email_normalized = email;
  display_name = none;
  role = role;
  status = active;
  created_at = 1;
  updated_at = 1;
  last_login_at = 1;
  onboarding_completed_at = none;
}

abbrev account : Text → ℕ → Account
account node uid = record { node_id = node; uid = uid; gid = none; canonical_username = text "u" }

abbrev lab : Store
lab = record {
  users =
      person (text "a") (text "a@x") admin
      ∷ person (text "b") (text "b@x") member
      ∷ person (text "c") (text "c@x") member
      ∷ [];
  bindings =
      record {
        id = text "1";
        user_id = text "b";
        node_id = text "n";
        unix_uid = 7;
        unix_gid = none;
        unix_username = text "u";
        assurance = self_claimed;
        status = in_force;
        valid_from = 1;
        valid_to = none;
        created_by = text "b";
        ended_by = none;
        reason = none;
      }
      ∷ [];
  audit = [];
}

abbrev grant : Text → Grant
grant user = record {
  user_id = user;
  actor_user_id = user;
  request_id = text "r";
  assurance = self_claimed;
  reason = none;
  now = 5;
}

-- The admin demotes themself, a member takes a second account and is disabled, the freed uid goes
-- to another member.
abbrev day : List Call
day =
    admin_update_user_call (text "a") (text "a") (text "r") (some (text "member")) none none 2
    ∷ create_bindings_call (grant (text "b")) ((text "2", account (text "m") 7) ∷ [])
    ∷ admin_update_user_call (text "b") (text "a") (text "r") none (some (text "disabled")) none 3
    ∷ reassign_binding_call (text "c") (account (text "n") 7) (text "a") (text "r") (text "moved")
        (text "3") 4
    ∷ []

run-IsExclusive_example : IsExclusive (run day lab).bindings
run-IsExclusive_example = run-IsExclusive day lab ((λ o. refl), tt)

run-IsGoverned_example : IsGoverned (run day lab).users
run-IsGoverned_example = run-IsGoverned day lab lab-IsGoverned
  where
    lab-IsGoverned : IsGoverned lab.users
    lab-IsGoverned = unfold text_eq in ((refl, (refl, (refl, tt))), omega arith)

run-Extends_example : Extends lab (run day lab)
run-Extends_example = run-Extends day lab

abbrev demote : Call
demote = admin_update_user_call (text "a") (text "a") (text "r") (some (text "member")) none none 2

demote_fails : failure demote lab ≡ some last_admin_error
unfolding failure admin_update_user checked apply_update change_user transaction ◌>>=◌ gets or_raise
    raise_if pure text_eq
demote_fails = refl

perform_failed_example : perform demote lab ≡ lab
perform_failed_example = perform_failed demote lab last_admin_error demote_fails

create_bindings-blocked_example :
    create_bindings
      (grant (text "c"))
      ((text "2", account (text "m") 1) ∷ (text "3", account (text "n") 7) ∷ [])
      lab
    ≡ (raised binding_conflict_error, lab)
unfolding can_bind text_eq
create_bindings-blocked_example =
    create_bindings-blocked (grant (text "c"))
      ((text "2", account (text "m") 1) ∷ (text "3", account (text "n") 7) ∷ []) lab refl

apply_update_closes_example :
    holds_open
      (text "b")
      (apply_update (text "b") (text "a") (text "r") none (some disabled) none 3 lab).1
    ≡ false
unfolding apply_update change_user close_account audit_ended transaction ◌>>=◌ gets or_raise
    raise_if pure branch update_users end_bindings update_bindings audit_sql constraint modify
    text_eq
apply_update_closes_example =
    apply_update_closes (text "b") (text "a") (text "r") none disabled none 3 lab refl refl
