-- ===== src/Lab/Rules.antt =====
-- A relation that the statements satisfy holds over every method of `LabStore` (store.py) and over
-- every run of calls.
use constella.Prelude.{ℕ, refl, none, some, List, [], ◌∷◌, Text, Option}
use constella.Lab.Data.{Role, UserStatus, User, Binding, BindingStatus, Store}
use constella.Lab.Sql.{has_id}
use constella.Lab.Steps.{Steps, Steps-bind, steps_rules}
use constella.Lab.Users.{
  audit_ended, close_account, checked, apply_update, admin_update_user, apply_migration,
  migrate_identity,
}
use constella.Lab.Logins.{
  normalize_email, refresh_login, register, resolve_identity, update_profile, choose_readonly,
  login_row,
}
use constella.Lab.Bindings.{
  Grant, Account, insert_accounts, complete_onboarding, create_bindings, end_binding,
  verify_binding, replace_rows, reassign_binding,
}
use constella.Lab.Calls.{
  Call, resolve_identity_call, update_profile_call, choose_readonly_call, admin_update_user_call,
  migrate_identity_call, create_bindings_call, end_binding_call, verify_binding_call,
  reassign_binding_call, perform, run,
}
use constella.Lab.Statements.{Rules, IsSafe, same_standing-IsSafe, readonly-IsSafe, verified-IsTame}

module _ {R : Store → Store → Type 0} (r : Rules R) where
  open r use {
    preorder, insert_user_rule, update_users_rule, change_user_rule, move_identity_rule,
    insert_binding_rule, update_bindings_rule, end_bindings_rule, audit_rule,
  }

  normalize_email-Steps : (email : Text) → Steps R (normalize_email email)
  unfolding normalize_email
  normalize_email-Steps email = search (steps_rules, preorder) depth 12

  refresh_login-Steps :
      (email normalized : Text) (now : ℕ) (row : User)
      → Steps R (refresh_login email normalized now row)
  unfolding refresh_login
  refresh_login-Steps email normalized now row =
      let safe : IsSafe (has_id row.id) (login_row email normalized now) =
        same_standing-IsSafe _ _ (λ u. refl) (λ u. refl) in
      search (steps_rules, preorder, update_users_rule, safe) depth 12

  register-Steps :
      (issuer subject email normalized bootstrap request id : Text) (now : ℕ)
      → Steps R (register issuer subject email normalized bootstrap request id now)
  unfolding register
  register-Steps issuer subject email normalized bootstrap request id now =
      search (steps_rules, preorder, normalize_email-Steps, insert_user_rule, audit_rule) depth 20

  resolve_identity-Steps :
      (issuer subject email bootstrap request id : Text) (now : ℕ)
      → Steps R (resolve_identity issuer subject email bootstrap request id now)
  unfolding resolve_identity
  resolve_identity-Steps issuer subject email bootstrap request id now =
      search (steps_rules, preorder, normalize_email-Steps, register-Steps, refresh_login-Steps)
        depth 12

  update_profile-Steps :
      (user : Text) (name : Option Text) (now : ℕ) → Steps R (update_profile user name now)
  unfolding update_profile
  update_profile-Steps user name now =
      search (steps_rules, preorder, update_users_rule, same_standing-IsSafe) depth 12

  choose_readonly-Steps :
      (user request : Text) (now : ℕ) → Steps R (choose_readonly user request now)
  unfolding choose_readonly
  choose_readonly-Steps user request now =
      search (steps_rules, preorder, update_users_rule, readonly-IsSafe, audit_rule) depth 16

  checked-Steps :
      {A : Type 0} (parse : Text → Option A) (o : Option Text) → Steps R (checked parse o)
  unfolding checked
  checked-Steps parse none = search (steps_rules, preorder)
  checked-Steps parse (some t) = search (steps_rules, preorder)

  audit_ended-Steps :
      (actor request : Text) (now : ℕ) (bs : List Binding)
      → Steps R (audit_ended actor request now bs)
  unfolding audit_ended
  audit_ended-Steps actor request now [] = search (steps_rules, preorder)
  audit_ended-Steps actor request now (b ∷ bs) =
      Steps-bind preorder _ _ (audit_rule actor b.id request _ now)
        (λ _. audit_ended-Steps actor request now bs)

  close_account-Steps :
      (user actor request : Text) (now : ℕ) → Steps R (close_account user actor request now)
  unfolding close_account
  close_account-Steps user actor request now =
      search (steps_rules, preorder, end_bindings_rule, audit_ended-Steps) depth 12

  pub apply_update-Steps :
      (user actor request : Text) (role : Option Role) (status : Option UserStatus)
      (name : Option Text) (now : ℕ)
      → Steps R (apply_update user actor request role status name now)
  unfolding apply_update
  apply_update-Steps user actor request role status name now =
      search (steps_rules, preorder, change_user_rule, audit_rule, close_account-Steps) depth 20

  admin_update_user-Steps :
      (user actor request : Text) (role status name : Option Text) (now : ℕ)
      → Steps R (admin_update_user user actor request role status name now)
  unfolding admin_update_user
  admin_update_user-Steps user actor request role status name now =
      search (steps_rules, preorder, checked-Steps, apply_update-Steps) depth 20

  pub apply_migration-Steps :
      (user pending actor request reason : Text) (now : ℕ)
      → Steps R (apply_migration user pending actor request reason now)
  unfolding apply_migration
  apply_migration-Steps user pending actor request reason now =
      search (steps_rules, preorder, move_identity_rule, audit_rule) depth 12

  migrate_identity-Steps :
      (user pending actor request reason : Text) (now : ℕ)
      → Steps R (migrate_identity user pending actor request reason now)
  unfolding migrate_identity
  migrate_identity-Steps user pending actor request reason now =
      search (steps_rules, preorder, apply_migration-Steps) depth 12

  insert_accounts-Steps :
      (g : Grant) (accounts : List (Text × Account)) → Steps R (insert_accounts g accounts)
  unfolding insert_accounts
  insert_accounts-Steps g [] = search (steps_rules, preorder)
  insert_accounts-Steps g ((id, account) ∷ accounts) =
      Steps-bind preorder _ _ (insert_binding_rule _) (λ _.
        Steps-bind preorder _ _ (audit_rule _ id _ _ _) (λ _. insert_accounts-Steps g accounts))

  complete_onboarding-Steps : (g : Grant) (n : ℕ) → Steps R (complete_onboarding g n)
  unfolding complete_onboarding
  complete_onboarding-Steps g n =
      search (steps_rules, preorder, update_users_rule, same_standing-IsSafe, audit_rule) depth 16

  create_bindings-Steps :
      (g : Grant) (accounts : List (Text × Account)) → Steps R (create_bindings g accounts)
  unfolding create_bindings
  create_bindings-Steps g accounts =
      search (steps_rules, preorder, insert_accounts-Steps, complete_onboarding-Steps) depth 12

  end_binding-Steps :
      (id actor : Text) (owner : Option Text) (request : Text) (status : BindingStatus)
      (reason : Option Text) (now : ℕ)
      → Steps R (end_binding id actor owner request status reason now)
  unfolding end_binding
  end_binding-Steps id actor owner request status reason now =
      search (steps_rules, preorder, end_bindings_rule, audit_rule) depth 16

  verify_binding-Steps :
      (id actor request : Text) (now : ℕ) → Steps R (verify_binding id actor request now)
  unfolding verify_binding
  verify_binding-Steps id actor request now =
      search (steps_rules, preorder, update_bindings_rule, verified-IsTame, audit_rule) depth 16

  replace_rows-Steps :
      (bs : List Binding) (id actor request reason : Text) (now : ℕ)
      → Steps R (replace_rows bs id actor request reason now)
  unfolding replace_rows
  replace_rows-Steps [] id actor request reason now = search (steps_rules, preorder)
  replace_rows-Steps (b ∷ bs) id actor request reason now =
      Steps-bind preorder _ _ (end_bindings_rule _ now actor _ _) (λ _.
        Steps-bind preorder _ _ (audit_rule actor b.id request _ now)
          (λ _. replace_rows-Steps bs id actor request reason now))

  reassign_binding-Steps :
      (user : Text) (account : Account) (actor request reason id : Text) (now : ℕ)
      → Steps R (reassign_binding user account actor request reason id now)
  unfolding reassign_binding
  reassign_binding-Steps user account actor request reason id now =
      search (steps_rules, preorder, replace_rows-Steps, insert_binding_rule, audit_rule) depth 24

  -- Every call, whether it raises or not.
  pub perform-Rules : (c : Call) (s : Store) → R s (perform c s)
  unfolding perform
  perform-Rules (resolve_identity_call issuer subject email bootstrap request id now) s =
      (resolve_identity-Steps issuer subject email bootstrap request id now).at s
  perform-Rules (update_profile_call user name now) s = (update_profile-Steps user name now).at s
  perform-Rules (choose_readonly_call user request now) s =
      (choose_readonly-Steps user request now).at s
  perform-Rules (admin_update_user_call user actor request role status name now) s =
      (admin_update_user-Steps user actor request role status name now).at s
  perform-Rules (migrate_identity_call user pending actor request reason now) s =
      (migrate_identity-Steps user pending actor request reason now).at s
  perform-Rules (create_bindings_call g accounts) s = (create_bindings-Steps g accounts).at s
  perform-Rules (end_binding_call id actor owner request status reason now) s =
      (end_binding-Steps id actor owner request status reason now).at s
  perform-Rules (verify_binding_call id actor request now) s =
      (verify_binding-Steps id actor request now).at s
  perform-Rules (reassign_binding_call user account actor request reason id now) s =
      (reassign_binding-Steps user account actor request reason id now).at s

  pub run-Rules : (calls : List Call) (s : Store) → R s (run calls s)
  unfolding run
  run-Rules [] s = preorder.reflexive s
  run-Rules (c ∷ calls) s =
      preorder.transitive s (perform c s) (run calls (perform c s)) (perform-Rules c s)
        (run-Rules calls (perform c s))
