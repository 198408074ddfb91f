-- ===== src/Lab/Statements.antt =====
-- What a relation between stores has to satisfy, statement by statement (store.py).
use constella.Prelude.{ℕ, ◌≡◌, refl, ◌∙◌, Bool, true, Text, Option, arith}
use constella.Lab.Data.{
  Role, UserStatus, User, Binding, BindingStatus, Details, Store, admin_verified,
}
use constella.Lab.Sql.{
  is_open, is_active_admin, insert_user, update_users, insert_binding, update_bindings,
  end_bindings, end_row, audit_sql,
}
use constella.Lab.Steps.{IsPreorder, Steps}
use constella.Lab.Users.{change_user, move_identity}
use constella.Lab.Logins.{may_choose_readonly, readonly_row}

-- A row is changed without moving and without being opened again.
pub record IsTame (f : Binding → Binding) : Type 0 where
  pub id : (b : Binding) → (f b).id ≡ b.id
  pub user : (b : Binding) → (f b).user_id ≡ b.user_id
  pub node : (b : Binding) → (f b).node_id ≡ b.node_id
  pub uid : (b : Binding) → (f b).unix_uid ≡ b.unix_uid
  pub stays_closed : (b : Binding) → is_open (f b) ≡ true → is_open b ≡ true

-- The rows that the test picks keep their id, and no active admin among them loses that standing.
pub record IsSafe (p : User → Bool) (f : User → User) : Type 0 where
  pub id : (u : User) → (f u).id ≡ u.id
  pub standing : (u : User) → p u ≡ true → is_active_admin u ≡ true → is_active_admin (f u) ≡ true

pub record Rules (R : Store → Store → Type 0) : Type 0 where
  pub preorder : IsPreorder R
  pub insert_user_rule : (u : User) → Steps R (insert_user u)
  pub update_users_rule :
      (p : User → Bool) (f : User → User) → IsSafe p f → Steps R (update_users p f)
  pub change_user_rule :
      (k : Text) (role : Option Role) (status : Option UserStatus) (name : Option Text) (now : ℕ)
      → Steps R (change_user k role status name now)
  pub move_identity_rule : (k pending : Text) (now : ℕ) → Steps R (move_identity k pending now)
  pub insert_binding_rule : (b : Binding) → Steps R (insert_binding b)
  pub update_bindings_rule :
      (p : Binding → Bool) (f : Binding → Binding) → IsTame f → Steps R (update_bindings p f)
  pub end_bindings_rule :
      (p : Binding → Bool) (now : ℕ) (actor : Text) (status : BindingStatus)
      (why : Option Text → Option Text)
      → Steps R (end_bindings p now actor status why)
  pub audit_rule :
      (actor target request : Text) (d : Details) (now : ℕ)
      → Steps R (audit_sql actor target request d now)

pub same_standing-IsSafe :
    (p : User → Bool) (f : User → User)
    → ((u : User) → (f u).id ≡ u.id)
    → ((u : User) → is_active_admin (f u) ≡ is_active_admin u)
    → IsSafe p f
same_standing-IsSafe p f h k = record { id = h; standing = λ u t a. k u ∙ a }

-- A member that turns read-only was no admin.
pub readonly-IsSafe :
    (user : Text) (bound : Bool) (now : ℕ)
    → IsSafe (may_choose_readonly user bound) (readonly_row now)
readonly-IsSafe user bound now = record { id = λ u. refl; standing = λ u picked a. ground arith }

pub verified-IsTame : IsTame (λ b. record b { assurance = admin_verified })
verified-IsTame = record {
  id = λ b. refl;
  user = λ b. refl;
  node = λ b. refl;
  uid = λ b. refl;
  stays_closed = λ b h. h;
}

pub end_row-IsTame :
    (now : ℕ) (actor : Text) (status : BindingStatus) (why : Option Text → Option Text)
    → IsTame (end_row now actor status why)
end_row-IsTame now actor status why = record {
  id = λ b. refl;
  user = λ b. refl;
  node = λ b. refl;
  uid = λ b. refl;
  stays_closed = λ b h. cc;
}
