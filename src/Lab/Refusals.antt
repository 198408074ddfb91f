-- ===== src/Lab/Refusals.antt =====
-- When bindings are refused, and what a disabled user is left with (store.py: `can_bind`,
-- `create_bindings`, `admin_update_user`).
use constella.Prelude.{
  any-append_left, ℕ, ◌≡◌, refl, Bool, true, false, ◌&&◌, some, List, [], ◌∷◌, ◌++◌, Text, text,
  text_eq, any, update_where, arith, Option, Bool-cases, inl, inr, not, ◌⊎◌,
}
use constella.Lab.Data.{
  Role, UserStatus, Binding, BindingStatus, revoked, Store, integrity_error, binding_conflict_error,
  Result, Details, binding_ended, user_updated, ok, raised, Action, pure, gets, branch, transaction,
  commit, raise_if, or_raise, ◌>>◌, catch_integrity, continue, ◌>>=◌, modify,
}
use constella.Lab.Sql.{
  is_active, update_users, is_open, conflicts, user_exists, insert_binding, update_bindings,
  end_row, end_bindings, audit_sql, constraint,
}
use constella.Lab.Users.{close_account, audit_ended, apply_update, change_user}
use constella.Lab.Bindings.{
  Account, Grant, new_binding, created_details, can_bind, insert_accounts, create_bindings,
}

-- Some account of the list cannot be bound as the store stands.
abbrev pub blocked : Grant → Store → List (Text × Account) → Bool
blocked g s = any (λ entry. not (can_bind g.user_id entry.1.node_id entry.1.uid s))

blocked-same :
    (g : Grant) (s t : Store) (rest : List (Text × Account))
    → t.bindings ≡ s.bindings
    → blocked g s rest ≡ true
    → blocked g t rest ≡ true
unfolding can_bind
blocked-same g s t [] e h = cc
blocked-same g s t ((id, a) ∷ rest) e h = rw e (ground (arith, blocked-same g s t rest e))

blocked-append :
    (g : Grant) (s : Store) (extra : List Binding) (rest : List (Text × Account))
    → blocked g s rest ≡ true
    → blocked g (record s { bindings = s.bindings ++ extra }) rest ≡ true
unfolding can_bind
blocked-append g s extra [] h = cc
blocked-append g s extra ((id, a) ∷ rest) h = ground (
  arith,
  any-append_left (conflicts g.user_id a.node_id a.uid) s.bindings extra,
  blocked-append g s extra rest,
)

-- How an INSERT of a binding ends.
insert_binding-cases :
    (b : Binding) (s : Store)
    → (insert_binding b s ≡ (raised integrity_error, s))
      ⊎ ((insert_binding b s ≡ (ok tt, record s { bindings = s.bindings ++ b ∷ [] }))
          × (any (conflicts b.user_id b.node_id b.unix_uid) s.bindings ≡ false))
unfolding insert_binding ◌>>=◌ constraint modify
insert_binding-cases b s = ground arith

-- How the record of an audit event ends; it leaves the bindings alone.
audit_sql-cases :
    (actor target request : Text) (d : Details) (now : ℕ) (s : Store)
    → ((audit_sql actor target request d now s).0 ≡ raised integrity_error)
      ⊎ ((audit_sql actor target request d now s).0 ≡ ok tt)
unfolding audit_sql ◌>>=◌ constraint modify
audit_sql-cases actor target request d now s = ground arith

audit_sql-bindings :
    (actor target request : Text) (d : Details) (now : ℕ) (s : Store)
    → (audit_sql actor target request d now s).1.bindings ≡ s.bindings
unfolding audit_sql ◌>>=◌ constraint modify
audit_sql-bindings actor target request d now s = ground arith

insert_accounts-blocked :
    (g : Grant) (accounts : List (Text × Account)) (s : Store)
    → blocked g s accounts ≡ true
    → (insert_accounts g accounts s).0 ≡ raised integrity_error
unfolding insert_accounts ◌>>=◌
insert_accounts-blocked g [] s h = cc
insert_accounts-blocked g ((id, a) ∷ rest) s h =
    let row = new_binding id g.user_id a g.assurance g.now g.actor_user_id g.reason in
    let next : Store = record s { bindings = s.bindings ++ row ∷ [] } in
    let details = created_details g.user_id a g.assurance g.reason in
    elim (insert_binding-cases row s) [
      | inl refused ↦ rw refused
      | inr (inserted, free) ↦
          let later : blocked g s rest ≡ true = unfold can_bind in ground arith in
          rw inserted (elim (audit_sql-cases g.actor_user_id id g.request_id details g.now next) [
            | inl refused ↦ rw refused
            | inr recorded ↦ rw recorded (
                insert_accounts-blocked g rest
                  (audit_sql g.actor_user_id id g.request_id details g.now next).1
                  (blocked-same g next _ rest
                    (audit_sql-bindings g.actor_user_id id g.request_id details g.now next)
                    (blocked-append g s (row ∷ []) rest later)))
          ])
    ]

-- If one of the accounts is taken, by the user's binding on its node or by its uid there, then
-- `create_bindings` raises BindingConflictError and binds none of them: the store is as it was.
pub create_bindings-blocked :
    (g : Grant) (accounts : List (Text × Account)) (s : Store)
    → blocked g s accounts ≡ true
    → create_bindings g accounts s ≡ (raised binding_conflict_error, s)
unfolding create_bindings ◌>>=◌ catch_integrity transaction
create_bindings-blocked g accounts s h = rw (insert_accounts-blocked g accounts s h)

none_open :
    (k : Text) (now : ℕ) (actor : Text) (status : BindingStatus) (why : Option Text → Option Text)
    (bs : List Binding)
    → any
        (λ b. text_eq b.user_id k && is_open b)
        (update_where (λ b. text_eq b.user_id k && is_open b) (end_row now actor status why) bs)
      ≡ false
none_open k now actor status why [] = refl
none_open k now actor status why (b ∷ bs) = ground (arith, none_open k now actor status why bs)

abbrev pub holds_open : Text → Store → Bool
holds_open k s = any (λ b. text_eq b.user_id k && is_open b) s.bindings

audit_ended-holds_open :
    (k actor request : Text) (now : ℕ) (ended : List Binding) (s : Store)
    → holds_open k s ≡ false
    → holds_open k (audit_ended actor request now ended s).1 ≡ false
unfolding audit_ended ◌>>=◌ pure
audit_ended-holds_open k actor request now [] s h = h
audit_ended-holds_open k actor request now (b ∷ ended) s h =
    let details = binding_ended revoked (some (text "user disabled")) in
    let same = audit_sql-bindings actor b.id request details now s in
    let kept : holds_open k (audit_sql actor b.id request details now s).1 ≡ false = rw same h in
    elim (audit_sql-cases actor b.id request details now s) [
      | inl refused ↦ rw refused kept
      | inr recorded ↦ rw recorded (audit_ended-holds_open k actor request now ended _ kept)
    ]

-- `close_account` ends every binding of the user that is open.
close_account-holds_open :
    (k actor request : Text) (now : ℕ) (s : Store)
    → (close_account k actor request now s).0 ≡ ok tt
    → holds_open k (close_account k actor request now s).1 ≡ false
unfolding close_account ◌>>=◌ gets end_bindings update_bindings constraint modify
close_account-holds_open k actor request now s h =
    elim (Bool-cases
      (any (λ b. text_eq b.user_id k && is_open b) s.bindings && not (user_exists actor s))) [
        | inl bad ↦ let absurd_ok = rw bad at h in cc absurd_ok
        | inr good ↦ rw good (
            audit_ended-holds_open k actor request now _ _
              (none_open k now actor revoked (λ r. some (text "user disabled")) s.bindings))
      ]

change_user-status :
    (k : Text) (role : Option Role) (t : UserStatus) (name : Option Text) (now : ℕ) (s : Store)
    (next : Role × UserStatus)
    → (change_user k role (some t) name now s).0 ≡ ok next
    → next.1 ≡ t
unfolding change_user ◌>>=◌ gets or_raise raise_if update_users modify pure
change_user-status k role t name now s next h = ground arith

commit-ok :
    {A : Type 0} (s : Store) (x : Result A × Store) {a : A}
    → (commit s x).0 ≡ ok a
    → (commit s x ≡ x) × (x.0 ≡ ok a)
commit-ok s (ok b, t) h = (refl, h)
commit-ok s (raised e, t) h = cc

module _ (k actor request : Text) (now : ℕ) (s : Store) where
  finish : Role × UserStatus → Action (Unit {0})
  finish next = do
    audit_sql actor k request (user_updated next.0 next.1) now
    branch (is_active next.1) (pure tt) (close_account k actor request now)

  finish-holds_open :
      (next : Role × UserStatus) (u : Store)
      → is_active next.1 ≡ false
      → (finish next u).0 ≡ ok tt
      → holds_open k (finish next u).1 ≡ false
  unfolding finish ◌>>=◌ branch
  finish-holds_open next u off h =
      let details = user_updated next.0 next.1 in
      elim (audit_sql-cases actor k request details now u) [
        | inl refused ↦ let bad = rw refused at h in cc bad
        | inr recorded ↦
            let done = rw (recorded, off) at h in
            rw (recorded, off) (close_account-holds_open k actor request now _ done)
      ]

  closing :
      (x : Result (Role × UserStatus) × Store)
      → ((next : Role × UserStatus) → x.0 ≡ ok next → is_active next.1 ≡ false)
      → (continue finish x).0 ≡ ok tt
      → holds_open k (continue finish x).1 ≡ false
  closing (ok next, u) off h = finish-holds_open next u (off next refl) h
  closing (raised e, u) off h = cc

-- When an admin's update succeeds and gives a user a status other than active, that user has no
-- open binding left.
pub apply_update_closes :
    (k actor request : Text) (role : Option Role) (t : UserStatus) (name : Option Text) (now : ℕ)
    (s : Store)
    → is_active t ≡ false
    → (apply_update k actor request role (some t) name now s).0 ≡ ok tt
    → holds_open k (apply_update k actor request role (some t) name now s).1 ≡ false
unfolding apply_update transaction ◌>>=◌ finish
apply_update_closes k actor request role t name now s off h =
    let x = change_user k role (some t) name now s in
    let done = commit-ok s (continue (finish k actor request now s) x) h in
    let closed =
      closing k actor request now s x
        (λ next e. rw (change_user-status k role t name now s next e) off) done.1 in
    rw done.0 closed
