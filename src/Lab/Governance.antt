-- ===== src/Lab/Governance.antt =====
-- The lab never loses its last active admin (store.py: the guard of `admin_update_user`, and every
-- other method).
use constella.Prelude.{
  ℕ, ◌≡◌, refl, Bool, true, ◌&&◌, some, List, Text, text_eq, find?, update_where, arith, Option,
  Option-cases, Bool-cases, inl, inr, leb,
}
use constella.Lab.Data.{
  Role, UserStatus, User, Binding, BindingStatus, Details, Store, modify, ◌>>=◌, ◌>>◌, gets,
  or_raise, raise_if, pure,
}
use constella.Lab.Sql.{
  is_pending, has_id, insert_user, update_users, update_identity, insert_binding, update_bindings,
  end_bindings, audit_sql, constraint,
}
use constella.Lab.Steps.{IsPreorder, Steps, Steps-modify, Steps-guarded}
use constella.Lab.Rules.{run-Rules}
use constella.Lab.Statements.{IsSafe, same_standing-IsSafe, Rules}
use constella.Lab.Users.{change_user, move_identity, retired_row, adopted_row, removes_active_admin}
use constella.Lab.Calls.{Call, run}
use constella.Lab.Admins.{
  active_admins, IsGoverned, IsGoverned-append, IsGoverned-safe, IsGoverned-change,
  IsGoverned-retire,
}

KeepsGoverned : Store → Store → Type 0
KeepsGoverned s t = IsGoverned s.users → IsGoverned t.users

KeepsGoverned-preorder : IsPreorder KeepsGoverned
unfolding KeepsGoverned
KeepsGoverned-preorder = record { reflexive = λ s h. h; transitive = λ s t u f g h. g (f h) }

insert_user-KeepsGoverned : (u : User) → Steps KeepsGoverned (insert_user u)
unfolding insert_user KeepsGoverned ◌>>=◌ constraint modify
insert_user-KeepsGoverned u = record { at = λ s h. ground (arith, IsGoverned-append s.users u h) }

update_users-KeepsGoverned :
    (p : User → Bool) (f : User → User) → IsSafe p f → Steps KeepsGoverned (update_users p f)
unfolding update_users KeepsGoverned modify
update_users-KeepsGoverned p f safe = record { at = λ s h. IsGoverned-safe p f s.users safe h }

change_user-KeepsGoverned :
    (k : Text) (role : Option Role) (status : Option UserStatus) (name : Option Text) (now : ℕ)
    → Steps KeepsGoverned (change_user k role status name now)
unfolding change_user update_users KeepsGoverned ◌>>=◌ gets or_raise raise_if pure modify
change_user-KeepsGoverned k role status name now = record {
  at = λ s h. elim (Option-cases (find? (has_id k) s.users)) [
    | inl missing ↦ rw missing h
    | inr (found, e) ↦
        rw e
          (elim (Bool-cases
            (removes_active_admin found role status && leb (active_admins s.users) 1)) [
              | inl refused ↦ rw refused h
              | inr allowed ↦
                  rw allowed
                    (IsGoverned-change k role status _ _ _ now s.users found e allowed refl refl h)
            ])
  ];
}

KeepsGoverned-moved :
    (k pending_id issuer : Text) (now : ℕ) (s : Store) (pending : User)
    → find? (has_id pending_id) s.users ≡ some pending
    → is_pending pending.status ≡ true
    → KeepsGoverned s
        ((update_identity pending_id issuer pending.access_subject (retired_row issuer now)
            >> update_identity k pending.access_issuer pending.access_subject
                (adopted_row pending now))
          s).1
unfolding update_identity update_users KeepsGoverned ◌>>=◌ constraint modify
KeepsGoverned-moved k pending_id issuer now s pending e waits h = ground (
  arith,
  IsGoverned-retire pending_id issuer now s.users pending e waits h,
  IsGoverned-safe (has_id k) (adopted_row pending now)
      (update_where (has_id pending_id) (retired_row issuer now) s.users)
      (same_standing-IsSafe _ _ (λ u. refl) (λ u. refl)),
)

move_identity-KeepsGoverned :
    (k pending : Text) (now : ℕ) → Steps KeepsGoverned (move_identity k pending now)
unfolding move_identity KeepsGoverned ◌>>=◌ gets or_raise raise_if
move_identity-KeepsGoverned k pending_id now = record {
  at = λ s h. elim (Option-cases (find? (has_id k) s.users)) [
    | inl missing ↦ rw missing h
    | inr (target, e) ↦ rw e (elim (Option-cases (find? (has_id pending_id) s.users)) [
      | inl missing ↦ rw missing h
      | inr (pending, e') ↦
          rw e'
            (elim (Bool-cases (
              is_pending pending.status
              && text_eq target.email_normalized pending.email_normalized)) [
                | inl matched ↦ rw matched (
                    unfold KeepsGoverned ◌>>=◌ in
                    KeepsGoverned-moved k pending_id _ now s pending e' (ground arith) h)
                | inr refused ↦ rw refused h
              ])
    ])
  ];
}

insert_binding-KeepsGoverned : (b : Binding) → Steps KeepsGoverned (insert_binding b)
unfolding insert_binding KeepsGoverned
insert_binding-KeepsGoverned b = Steps-guarded KeepsGoverned-preorder _ _ (
    Steps-guarded KeepsGoverned-preorder _ _
      (Steps-guarded KeepsGoverned-preorder _ _ (Steps-modify _ (λ s h. h))))

update_bindings-KeepsGoverned :
    (p : Binding → Bool) (f : Binding → Binding) → Steps KeepsGoverned (update_bindings p f)
unfolding update_bindings KeepsGoverned
update_bindings-KeepsGoverned p f = Steps-modify _ (λ s h. h)

end_bindings-KeepsGoverned :
    (p : Binding → Bool) (now : ℕ) (actor : Text) (status : BindingStatus)
    (why : Option Text → Option Text)
    → Steps KeepsGoverned (end_bindings p now actor status why)
unfolding end_bindings
end_bindings-KeepsGoverned p now actor status why =
    Steps-guarded KeepsGoverned-preorder _ _ (update_bindings-KeepsGoverned p _)

audit_sql-KeepsGoverned :
    (actor target request : Text) (d : Details) (now : ℕ)
    → Steps KeepsGoverned (audit_sql actor target request d now)
unfolding audit_sql KeepsGoverned
audit_sql-KeepsGoverned actor target request d now =
    Steps-guarded KeepsGoverned-preorder _ _ (Steps-modify _ (λ s h. h))

KeepsGoverned-Rules : Rules KeepsGoverned
KeepsGoverned-Rules = record {
  preorder = KeepsGoverned-preorder;
  insert_user_rule = insert_user-KeepsGoverned;
  update_users_rule = update_users-KeepsGoverned;
  change_user_rule = change_user-KeepsGoverned;
  move_identity_rule = move_identity-KeepsGoverned;
  insert_binding_rule = insert_binding-KeepsGoverned;
  update_bindings_rule = λ p f tame. update_bindings-KeepsGoverned p f;
  end_bindings_rule = end_bindings-KeepsGoverned;
  audit_rule = audit_sql-KeepsGoverned;
}

-- Over any calls that write users or bindings, those that raise included: where user ids are
-- distinct and at least one user is an active admin before, both hold after.
pub run-IsGoverned :
    (calls : List Call) (s : Store) → IsGoverned s.users → IsGoverned (run calls s).users
unfolding KeepsGoverned
run-IsGoverned calls s h = run-Rules KeepsGoverned-Rules calls s h
