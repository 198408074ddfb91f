-- ===== src/Lab/Sql.antt =====
-- The statements that the methods of `LabStore` run, with the constraints that its schema declares
-- (store.py, the script of `LabStore.open`): primary keys, the unique pair (issuer, subject), the
-- two unique indexes over the rows with `valid_to IS NULL`, and the references to `lab_users`.
-- A violated constraint raises `sqlite3.IntegrityError`.
use constella.Prelude.{
  ℕ, Bool, true, false, not, ◌&&◌, ◌||◌, ◌==◌, Option, none, some, [], ◌∷◌, ◌++◌, Text, text_eq,
  if◌then◌else◌, any, update_where,
}
use constella.Lab.Data.{
  Role, member, admin, UserStatus, active, pending_identity_review, User, Binding, Details, Store,
  ok, BindingStatus, raised, modify, integrity_error, Action, ◌>>◌,
}

abbrev pub is_admin : Role → Bool
is_admin admin = true
is_admin r = false

abbrev pub is_member : Role → Bool
is_member member = true
is_member r = false

abbrev pub is_active : UserStatus → Bool
is_active active = true
is_active s = false

abbrev pub is_pending : UserStatus → Bool
is_pending pending_identity_review = true
is_pending s = false

-- `role = 'admin' AND status = 'active'`
abbrev pub is_active_admin : User → Bool
is_active_admin u = is_admin u.role && is_active u.status

-- `WHERE id = ?`
abbrev pub has_id : Text → User → Bool
has_id k u = text_eq u.id k

abbrev pub binding_has_id : Text → Binding → Bool
binding_has_id k b = text_eq b.id k

abbrev pub same_identity : Text → Text → User → Bool
same_identity issuer subject u = text_eq u.access_issuer issuer && text_eq u.access_subject subject

-- `valid_to IS NULL`
abbrev pub is_open : Binding → Bool
is_open b = elim b.valid_to [ none ↦ true | some t ↦ false ]

-- The rows of the indexes `uq_lab_binding_user_node_active` and `uq_lab_binding_node_uid_active`.
abbrev pub same_user_node : Text → Text → Binding → Bool
same_user_node user node b = text_eq b.user_id user && text_eq b.node_id node

abbrev pub same_node_uid : Text → ℕ → Binding → Bool
same_node_uid node uid b = text_eq b.node_id node && (b.unix_uid == uid)

-- The condition of `can_bind` and of `reassign_binding`.
abbrev pub conflicts : Text → Text → ℕ → Binding → Bool
conflicts user node uid b = is_open b && (same_user_node user node b || same_node_uid node uid b)

-- A constraint of the schema.
unfoldable pub constraint : (Store → Bool) → Action (Unit {0})
constraint violated s = (if violated s then raised integrity_error else ok tt, s)

abbrev pub user_exists : Text → Store → Bool
user_exists k s = any (has_id k) s.users

-- `INSERT INTO lab_users`: the primary key and `UNIQUE(access_issuer, access_subject)`.
unfoldable pub insert_user : User → Action (Unit {0})
insert_user u = do
  constraint (user_exists u.id)
  constraint (λ s. any (same_identity u.access_issuer u.access_subject) s.users)
  modify (λ s. record s { users = s.users ++ (u ∷ []) })

-- `UPDATE lab_users SET … WHERE …`, of columns that no constraint names.
unfoldable pub update_users : (User → Bool) → (User → User) → Action (Unit {0})
update_users p f = modify (λ s. record s { users = update_where p f s.users })

-- `UPDATE lab_users SET access_issuer = ?, … WHERE id = ?`: no other row may have the identity.
unfoldable pub update_identity : Text → Text → Text → (User → User) → Action (Unit {0})
unfolding update_users
update_identity k issuer subject f = do
  constraint (λ s. any (λ u. not (has_id k u) && same_identity issuer subject u) s.users)
  update_users (has_id k) f

-- `INSERT INTO lab_account_bindings`, of a row with `valid_to` NULL.
unfoldable pub insert_binding : Binding → Action (Unit {0})
insert_binding b = do
  constraint (λ s. any (binding_has_id b.id) s.bindings)
  constraint (λ s. not (user_exists b.user_id s && user_exists b.created_by s))
  constraint (λ s. any (conflicts b.user_id b.node_id b.unix_uid) s.bindings)
  modify (λ s. record s { bindings = s.bindings ++ (b ∷ []) })

-- `UPDATE lab_account_bindings SET … WHERE …`. It never opens a closed row and never moves a row to
-- another user, node or uid, so the unique indexes hold after it where they held before.
unfoldable pub update_bindings : (Binding → Bool) → (Binding → Binding) → Action (Unit {0})
update_bindings p f = modify (λ s. record s { bindings = update_where p f s.bindings })

-- `valid_to = ?, ended_by = ?, status = ?, reason = ?`; `ended_by` refers to a user.
abbrev pub end_row : ℕ → Text → BindingStatus → (Option Text → Option Text) → Binding → Binding
end_row now actor status why b = record b {
  valid_to = some now;
  ended_by = some actor;
  status = status;
  reason = why b.reason;
}

unfoldable pub end_bindings :
    (Binding → Bool) → ℕ → Text → BindingStatus → (Option Text → Option Text) → Action (Unit {0})
unfolding update_bindings
end_bindings p now actor status why = do
  constraint (λ s. any p s.bindings && not (user_exists actor s))
  update_bindings p (end_row now actor status why)

-- `_audit_sql`
unfoldable pub audit_sql : Text → Text → Text → Details → ℕ → Action (Unit {0})
audit_sql actor target request details now = do
  constraint (λ s. not (user_exists actor s))
  modify λ s. record s {
    audit =
        record {
          occurred_at = now;
          actor_user_id = some actor;
          target_id = some target;
          request_id = request;
          details = details;
        }
        ∷ s.audit;
  }
