-- ===== src/Lab/Exclusive.antt =====
-- The two unique indexes over open bindings (store.py, the script of `LabStore.open`) through every
-- method that writes bindings.
use constella.Prelude.{
  ℕ, ◌≡◌, refl, Bool, true, false, List, [], ◌∷◌, ◌++◌, Text, text_eq-sym, any, update_where,
  if◌then◌else◌, arith, Option, Bool-cases, inl, inr,
}
use constella.Lab.Data.{Binding, BindingStatus, Store, User, Details, modify, ◌>>=◌}
use constella.Lab.Sql.{
  is_open, conflicts, insert_user, update_users, update_identity, insert_binding, update_bindings,
  end_row, end_bindings, audit_sql, constraint,
}
use constella.Lab.Steps.{IsPreorder, Steps, steps_rules}
use constella.Lab.Rules.{run-Rules}
use constella.Lab.Statements.{IsTame, end_row-IsTame, Rules}
use constella.Lab.Calls.{Call, run}
use constella.Lab.Data.{Role, UserStatus}
use constella.Lab.Users.{change_user, move_identity}

-- No later row of the list collides with an open one.
abbrev clash : Binding → List Binding → Bool
clash b = any (conflicts b.user_id b.node_id b.unix_uid)

-- No two open rows have the same user and node, or the same node and uid.
abbrev pub IsExclusive : List Binding → Type 0
IsExclusive [] = Unit
IsExclusive (b ∷ bs) = (is_open b ≡ true → clash b bs ≡ false) × IsExclusive bs

abbrev pub IsExclusiveStore : Store → Type 0
IsExclusiveStore s = IsExclusive s.bindings

clash-append :
    (user node : Text) (uid : ℕ) (bs : List Binding) (c : Binding)
    → any (conflicts user node uid) bs ≡ false
    → conflicts user node uid c ≡ false
    → any (conflicts user node uid) (bs ++ c ∷ []) ≡ false
clash-append user node uid [] c h k = ground arith
clash-append user node uid (b ∷ bs) c h k = ground (arith, clash-append user node uid bs c)

conflicts-sym :
    (b c : Binding)
    → is_open b ≡ true
    → conflicts c.user_id c.node_id c.unix_uid b ≡ false
    → conflicts b.user_id b.node_id b.unix_uid c ≡ false
conflicts-sym b c o h =
    ground (arith, text_eq-sym b.user_id c.user_id, text_eq-sym b.node_id c.node_id)

IsExclusive-append :
    (bs : List Binding) (c : Binding)
    → IsExclusive bs
    → clash c bs ≡ false
    → IsExclusive (bs ++ c ∷ [])
IsExclusive-append [] c h k = ((λ o. refl), tt)
IsExclusive-append (b ∷ bs) c h k = (
  (λ o.
      clash-append b.user_id b.node_id b.unix_uid bs c (h.0 o)
        (conflicts-sym b c o (ground arith))),
  IsExclusive-append bs c h.1 (ground arith),
)

module _ (p : Binding → Bool) (f : Binding → Binding) (tame : IsTame f) where
  conflicts-update :
      (user node : Text) (uid : ℕ) (b : Binding)
      → conflicts user node uid b ≡ false
      → conflicts user node uid (if p b then f b else b) ≡ false
  conflicts-update user node uid b h =
      ground (arith, tame.user b, tame.node b, tame.uid b, tame.stays_closed b)

  clash-update :
      (user node : Text) (uid : ℕ) (bs : List Binding)
      → any (conflicts user node uid) bs ≡ false
      → any (conflicts user node uid) (update_where p f bs) ≡ false
  clash-update user node uid [] h = refl
  clash-update user node uid (b ∷ bs) h =
      grind (arith, conflicts-update user node uid b, clash-update user node uid bs)

  clash_kept :
      (b : Binding) (bs : List Binding)
      → (is_open b ≡ true → clash b bs ≡ false)
      → is_open (if p b then f b else b) ≡ true
      → clash (if p b then f b else b) (update_where p f bs) ≡ false
  clash_kept b bs h o = elim (Bool-cases (p b)) [
    | inl e ↦
        rw (e, tame.user b, tame.node b, tame.uid b)
          (clash-update b.user_id b.node_id b.unix_uid bs (h (tame.stays_closed b (rw e at o))))
    | inr e ↦ rw e (clash-update b.user_id b.node_id b.unix_uid bs (h (rw e at o)))
  ]

  IsExclusive-update : (bs : List Binding) → IsExclusive bs → IsExclusive (update_where p f bs)
  IsExclusive-update [] h = tt
  IsExclusive-update (b ∷ bs) h = (clash_kept b bs h.0, IsExclusive-update bs h.1)

KeepsExclusive : Store → Store → Type 0
KeepsExclusive s t = IsExclusiveStore s → IsExclusiveStore t

KeepsExclusive-preorder : IsPreorder KeepsExclusive
unfolding KeepsExclusive
KeepsExclusive-preorder = record { reflexive = λ s h. h; transitive = λ s t u f g h. g (f h) }

insert_user-KeepsExclusive : (u : User) → Steps KeepsExclusive (insert_user u)
unfolding insert_user KeepsExclusive ◌>>=◌ constraint modify
insert_user-KeepsExclusive u = record { at = λ s h. ground arith }

update_users-KeepsExclusive :
    (p : User → Bool) (f : User → User) → Steps KeepsExclusive (update_users p f)
unfolding update_users KeepsExclusive modify
update_users-KeepsExclusive p f = record { at = λ s h. h }

update_identity-KeepsExclusive :
    (k issuer subject : Text) (f : User → User)
    → Steps KeepsExclusive (update_identity k issuer subject f)
unfolding update_identity KeepsExclusive ◌>>=◌ constraint modify
update_identity-KeepsExclusive k issuer subject f = record { at = λ s h. ground arith }

audit_sql-KeepsExclusive :
    (actor target request : Text) (d : Details) (now : ℕ)
    → Steps KeepsExclusive (audit_sql actor target request d now)
unfolding audit_sql KeepsExclusive ◌>>=◌ constraint modify
audit_sql-KeepsExclusive actor target request d now = record { at = λ s h. ground arith }

insert_binding-KeepsExclusive : (b : Binding) → Steps KeepsExclusive (insert_binding b)
unfolding insert_binding KeepsExclusive ◌>>=◌ constraint modify
insert_binding-KeepsExclusive b = record {
  at = λ s h. ground (arith, IsExclusive-append s.bindings b);
}

update_bindings-KeepsExclusive :
    (p : Binding → Bool) (f : Binding → Binding)
    → IsTame f
    → Steps KeepsExclusive (update_bindings p f)
unfolding update_bindings KeepsExclusive modify
update_bindings-KeepsExclusive p f t = record { at = λ s h. IsExclusive-update p f t s.bindings h }

end_bindings-KeepsExclusive :
    (p : Binding → Bool) (now : ℕ) (actor : Text) (status : BindingStatus)
    (why : Option Text → Option Text)
    → Steps KeepsExclusive (end_bindings p now actor status why)
unfolding end_bindings KeepsExclusive ◌>>=◌ constraint modify
end_bindings-KeepsExclusive p now actor status why = record {
  at = λ s h. ground (
    arith,
    IsExclusive-update p (end_row now actor status why) (end_row-IsTame now actor status why)
        s.bindings,
  );
}

ruleset exclusive_rules = (
  steps_rules, KeepsExclusive-preorder, update_users-KeepsExclusive, update_identity-KeepsExclusive,
)

change_user-KeepsExclusive :
    (k : Text) (role : Option Role) (status : Option UserStatus) (name : Option Text) (now : ℕ)
    → Steps KeepsExclusive (change_user k role status name now)
unfolding change_user
change_user-KeepsExclusive k role status name now = search exclusive_rules depth 16

move_identity-KeepsExclusive :
    (k pending : Text) (now : ℕ) → Steps KeepsExclusive (move_identity k pending now)
unfolding move_identity
move_identity-KeepsExclusive k pending now = search exclusive_rules depth 16

KeepsExclusive-Rules : Rules KeepsExclusive
KeepsExclusive-Rules = record {
  preorder = KeepsExclusive-preorder;
  insert_user_rule = insert_user-KeepsExclusive;
  update_users_rule = λ p f safe. update_users-KeepsExclusive p f;
  change_user_rule = change_user-KeepsExclusive;
  move_identity_rule = move_identity-KeepsExclusive;
  insert_binding_rule = insert_binding-KeepsExclusive;
  update_bindings_rule = update_bindings-KeepsExclusive;
  end_bindings_rule = end_bindings-KeepsExclusive;
  audit_rule = audit_sql-KeepsExclusive;
}

-- Over any calls that write users or bindings, those that raise included: if no two open bindings
-- have the same user and node or the same node and uid before, none have after.
pub run-IsExclusive :
    (calls : List Call) (s : Store) → IsExclusive s.bindings → IsExclusive (run calls s).bindings
unfolding KeepsExclusive
run-IsExclusive calls s h = run-Rules KeepsExclusive-Rules calls s h
