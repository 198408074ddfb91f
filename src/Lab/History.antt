-- ===== src/Lab/History.antt =====
-- Nothing that the store has recorded is lost: audit events and bindings are only added, a user
-- never disappears, and a binding is never moved or opened again.
use constella.Prelude.{
  any-append_left, ℕ, ◌≡◌, refl, sym, ◌∙◌, ap, Bool, true, false, some, List, [], ◌∷◌, ◌++◌, Text,
  any, update_where, if◌then◌else◌, arith, Option,
}
use constella.Lab.Data.{
  Role, UserStatus, User, Binding, BindingStatus, Details, AuditEvent, Store, modify,
}
use constella.Lab.Sql.{
  is_open, has_id, user_exists, insert_user, update_users, update_identity, insert_binding,
  update_bindings, end_bindings, audit_sql,
}
use constella.Lab.Steps.{IsPreorder, Steps, Steps-modify, Steps-guarded, steps_rules}
use constella.Lab.Rules.{run-Rules}
use constella.Lab.Statements.{IsTame, Rules, end_row-IsTame}
use constella.Lab.Users.{change_user, move_identity}
use constella.Lab.Calls.{Call, run}

-- A binding is about the same account of the same user, and is open only if it was.
pub record IsKept (b c : Binding) : Type 0 where
  pub id : c.id ≡ b.id
  pub user : c.user_id ≡ b.user_id
  pub node : c.node_id ≡ b.node_id
  pub uid : c.unix_uid ≡ b.unix_uid
  pub stays_closed : is_open c ≡ true → is_open b ≡ true

-- The rows of the first list stand in the second, in order, before any new ones.
abbrev pub Keeps : List Binding → List Binding → Type 0
Keeps [] cs = Unit
Keeps (b ∷ bs) [] = ⊥
Keeps (b ∷ bs) (c ∷ cs) = IsKept b c × Keeps bs cs

IsKept-refl : (b : Binding) → IsKept b b
IsKept-refl b = record { id = refl; user = refl; node = refl; uid = refl; stays_closed = λ h. h }

IsKept-trans : {b c d : Binding} → IsKept b c → IsKept c d → IsKept b d
IsKept-trans h k = record {
  id = k.id ∙ h.id;
  user = k.user ∙ h.user;
  node = k.node ∙ h.node;
  uid = k.uid ∙ h.uid;
  stays_closed = λ o. h.stays_closed (k.stays_closed o);
}

Keeps-refl : (bs : List Binding) → Keeps bs bs
Keeps-refl [] = tt
Keeps-refl (b ∷ bs) = (IsKept-refl b, Keeps-refl bs)

Keeps-append : (bs cs : List Binding) → Keeps bs (bs ++ cs)
Keeps-append [] cs = tt
Keeps-append (b ∷ bs) cs = (IsKept-refl b, Keeps-append bs cs)

Keeps-trans : (bs cs ds : List Binding) → Keeps bs cs → Keeps cs ds → Keeps bs ds
Keeps-trans [] cs ds h k = tt
Keeps-trans (b ∷ bs) [] ds h k = absurd h
Keeps-trans (b ∷ bs) (c ∷ cs) [] h k = absurd k
Keeps-trans (b ∷ bs) (c ∷ cs) (d ∷ ds) h k = (IsKept-trans h.0 k.0, Keeps-trans bs cs ds h.1 k.1)

IsKept-tame :
    {f : Binding → Binding} (p : Bool) (b : Binding) → IsTame f → IsKept b (if p then f b else b)
IsKept-tame true b t = record {
  id = t.id b;
  user = t.user b;
  node = t.node b;
  uid = t.uid b;
  stays_closed = t.stays_closed b;
}
IsKept-tame false b t = IsKept-refl b

Keeps-update :
    (p : Binding → Bool) {f : Binding → Binding} (bs : List Binding)
    → IsTame f
    → Keeps bs (update_where p f bs)
Keeps-update p [] t = tt
Keeps-update p (b ∷ bs) t = (IsKept-tame (p b) b t, Keeps-update p bs t)

-- What a run may do to the records of the store.
pub record Extends (s t : Store) : Type 0 where
  pub new_events : List AuditEvent
  pub events : t.audit ≡ new_events ++ s.audit
  pub rows : Keeps s.bindings t.bindings
  pub users : (k : Text) → user_exists k s ≡ true → user_exists k t ≡ true

Extends-same :
    (s t : Store)
    → t.audit ≡ s.audit
    → Keeps s.bindings t.bindings
    → ((k : Text) → user_exists k s ≡ true → user_exists k t ≡ true)
    → Extends s t
Extends-same s t a b u = record { new_events = []; events = a; rows = b; users = u }

append_assoc_lem : {A : Type 0} (xs ys zs : List A) → (xs ++ ys) ++ zs ≡ xs ++ (ys ++ zs)
append_assoc_lem [] ys zs = refl
append_assoc_lem (x ∷ xs) ys zs = ap (λ l. x ∷ l) (append_assoc_lem xs ys zs)

pub Extends-preorder : IsPreorder Extends
Extends-preorder = record {
  reflexive = λ s. Extends-same s s refl (Keeps-refl s.bindings) (λ k h. h);
  transitive = λ s t u h k. record {
    new_events = k.new_events ++ h.new_events;
    events = k.events ∙ rw h.events (sym (append_assoc_lem k.new_events h.new_events s.audit));
    rows = Keeps-trans s.bindings t.bindings u.bindings h.rows k.rows;
    users = λ i e. k.users i (h.users i e);
  };
}

any-update_where :
    {A : Type 0} (q p : A → Bool) (f : A → A) (xs : List A)
    → ((x : A) → q x ≡ true → q (f x) ≡ true)
    → any q xs ≡ true
    → any q (update_where p f xs) ≡ true
any-update_where q p f [] keep h = cc
any-update_where q p f (x ∷ xs) keep h = ground (arith, any-update_where q p f xs keep, keep x)

exists-update :
    (k : Text) (p : User → Bool) (f : User → User) (us : List User)
    → ((u : User) → (f u).id ≡ u.id)
    → any (has_id k) us ≡ true
    → any (has_id k) (update_where p f us) ≡ true
exists-update k p f us same h = any-update_where (has_id k) p f us (λ u e. rw (same u) e) h

ruleset extends_rules = (steps_rules, Extends-preorder)

insert_user-Extends : (u : User) → Steps Extends (insert_user u)
unfolding insert_user
insert_user-Extends u =
    let add : Steps Extends (modify (λ s. record s { users = s.users ++ (u ∷ []) })) =
      Steps-modify _ (λ s.
        Extends-same s _ refl (Keeps-refl s.bindings)
          (λ k h. any-append_left (has_id k) s.users (u ∷ []) h)) in
    Steps-guarded Extends-preorder _ _ (Steps-guarded Extends-preorder _ _ add)

update_users-Extends :
    (p : User → Bool) (f : User → User)
    → ((u : User) → (f u).id ≡ u.id)
    → Steps Extends (update_users p f)
unfolding update_users
update_users-Extends p f same =
    Steps-modify _ (λ s.
      Extends-same s _ refl (Keeps-refl s.bindings) (λ k h. exists-update k p f s.users same h))

update_identity-Extends :
    (k issuer subject : Text) (f : User → User)
    → ((u : User) → (f u).id ≡ u.id)
    → Steps Extends (update_identity k issuer subject f)
unfolding update_identity
update_identity-Extends k issuer subject f same =
    Steps-guarded Extends-preorder _ _ (update_users-Extends (has_id k) f same)

insert_binding-Extends : (b : Binding) → Steps Extends (insert_binding b)
unfolding insert_binding
insert_binding-Extends b =
    let add : Steps Extends (modify (λ s. record s { bindings = s.bindings ++ (b ∷ []) })) =
      Steps-modify _ (λ s. Extends-same s _ refl (Keeps-append s.bindings (b ∷ [])) (λ k h. h)) in
    Steps-guarded Extends-preorder _ _
      (Steps-guarded Extends-preorder _ _ (Steps-guarded Extends-preorder _ _ add))

update_bindings-Extends :
    (p : Binding → Bool) (f : Binding → Binding) → IsTame f → Steps Extends (update_bindings p f)
unfolding update_bindings
update_bindings-Extends p f t =
    Steps-modify _ (λ s. Extends-same s _ refl (Keeps-update p s.bindings t) (λ k h. h))

end_bindings-Extends :
    (p : Binding → Bool) (now : ℕ) (actor : Text) (status : BindingStatus)
    (why : Option Text → Option Text)
    → Steps Extends (end_bindings p now actor status why)
unfolding end_bindings
end_bindings-Extends p now actor status why =
    Steps-guarded Extends-preorder _ _
      (update_bindings-Extends p _ (end_row-IsTame now actor status why))

audit_sql-Extends :
    (actor target request : Text) (d : Details) (now : ℕ)
    → Steps Extends (audit_sql actor target request d now)
unfolding audit_sql
audit_sql-Extends actor target request d now =
    let add =
      Steps-modify {R = Extends} (λ s. record s { audit = event ∷ s.audit })
        (λ s. record {
          new_events = event ∷ [];
          events = refl;
          rows = Keeps-refl s.bindings;
          users = λ k h. h;
        }) in
    Steps-guarded Extends-preorder _ _ add
  where
    event : AuditEvent
    event = record {
      occurred_at = now;
      actor_user_id = some actor;
      target_id = some target;
      request_id = request;
      details = d;
    }

change_user-Extends :
    (k : Text) (role : Option Role) (status : Option UserStatus) (name : Option Text) (now : ℕ)
    → Steps Extends (change_user k role status name now)
unfolding change_user
change_user-Extends k role status name now = search (extends_rules, update_users-Extends) depth 16

move_identity-Extends : (k pending : Text) (now : ℕ) → Steps Extends (move_identity k pending now)
unfolding move_identity
move_identity-Extends k pending now = search (extends_rules, update_identity-Extends) depth 16

pub Extends-Rules : Rules Extends
Extends-Rules = record {
  preorder = Extends-preorder;
  insert_user_rule = insert_user-Extends;
  update_users_rule = λ p f safe. update_users-Extends p f safe.id;
  change_user_rule = change_user-Extends;
  move_identity_rule = move_identity-Extends;
  insert_binding_rule = insert_binding-Extends;
  update_bindings_rule = update_bindings-Extends;
  end_bindings_rule = end_bindings-Extends;
  audit_rule = audit_sql-Extends;
}

-- Over any calls that write users or bindings, those that raise included, the audit log only grows
-- at its new end, every binding row stays in its place for the same user, node and uid and is open
-- only if it was open, and no user row disappears.
pub run-Extends : (calls : List Call) (s : Store) → Extends s (run calls s)
run-Extends calls s = run-Rules Extends-Rules calls s
