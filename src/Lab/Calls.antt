-- ===== src/Lab/Calls.antt =====
-- The calls that the rest of the lab makes of its store, and a run of them. A call that raises
-- leaves the store as its method left it.
use constella.Prelude.{ℕ, Option, List, [], ◌∷◌, Text}
use constella.Lab.Data.{BindingStatus, Store}
use constella.Lab.Users.{admin_update_user, migrate_identity}
use constella.Lab.Logins.{resolve_identity, update_profile, choose_readonly}
use constella.Lab.Bindings.{
  Account, Grant, create_bindings, end_binding, verify_binding, reassign_binding,
}

pub data Call : Type 0 where
  resolve_identity_call : Text → Text → Text → Text → Text → Text → ℕ → Call
  update_profile_call : Text → Option Text → ℕ → Call
  choose_readonly_call : Text → Text → ℕ → Call
  admin_update_user_call : Text → Text → Text → Option Text → Option Text → Option Text → ℕ → Call
  migrate_identity_call : Text → Text → Text → Text → Text → ℕ → Call
  create_bindings_call : Grant → List (Text × Account) → Call
  end_binding_call : Text → Text → Option Text → Text → BindingStatus → Option Text → ℕ → Call
  verify_binding_call : Text → Text → Text → ℕ → Call
  reassign_binding_call : Text → Account → Text → Text → Text → Text → ℕ → Call

unfoldable pub perform : Call → Store → Store
perform (resolve_identity_call issuer subject email bootstrap request id now) s =
    (resolve_identity issuer subject email bootstrap request id now s).1
perform (update_profile_call user name now) s = (update_profile user name now s).1
perform (choose_readonly_call user request now) s = (choose_readonly user request now s).1
perform (admin_update_user_call user actor request role status name now) s =
    (admin_update_user user actor request role status name now s).1
perform (migrate_identity_call user pending actor request reason now) s =
    (migrate_identity user pending actor request reason now s).1
perform (create_bindings_call g accounts) s = (create_bindings g accounts s).1
perform (end_binding_call id actor owner request status reason now) s =
    (end_binding id actor owner request status reason now s).1
perform (verify_binding_call id actor request now) s = (verify_binding id actor request now s).1
perform (reassign_binding_call user account actor request reason id now) s =
    (reassign_binding user account actor request reason id now s).1

unfoldable pub run : List Call → Store → Store
run [] s = s
run (c ∷ calls) s = run calls (perform c s)
