-- ===== src/Lab/Admins.antt =====
-- Active admins in lists of users: what the writes of `LabStore` do to their number (store.py).
use constella.Prelude.{
  ℕ, ◌+◌, ◌≤◌, ◌<◌, ◌≡◌, refl, Bool, true, false, ◌&&◌, some, List, [], ◌∷◌, ◌++◌, Text, text_eq,
  text_eq-sym, text_eq→eq, any, find?, tally, update_where, arith, Option, eq_of_some, Bool-cases,
  inl, inr, tally-append, leb, ap,
}
use constella.Lab.Data.{Role, UserStatus, User}
use constella.Lab.Sql.{is_pending, is_active_admin, has_id}
use constella.Lab.Statements.{IsSafe}
use constella.Lab.Users.{admin_row, retired_row, removes_active_admin, or_current}

-- `id TEXT PRIMARY KEY`
abbrev pub UniqueIds : List User → Type 0
UniqueIds [] = Unit
UniqueIds (u ∷ us) = (any (has_id u.id) us ≡ false) × UniqueIds us

abbrev pub active_admins : List User → ℕ
active_admins = tally is_active_admin

abbrev pub IsGoverned : List User → Type 0
IsGoverned us = UniqueIds us × (0 < active_admins us)

pub absent-append :
    (k : Text) (us : List User) (n : User)
    → any (has_id k) us ≡ false
    → text_eq n.id k ≡ false
    → any (has_id k) (us ++ n ∷ []) ≡ false
absent-append k [] n h e = ground arith
absent-append k (u ∷ us) n h e = ground (arith, absent-append k us n)

pub UniqueIds-append :
    (us : List User) (n : User)
    → UniqueIds us
    → any (has_id n.id) us ≡ false
    → UniqueIds (us ++ n ∷ [])
UniqueIds-append [] n h e = (refl, tt)
UniqueIds-append (u ∷ us) n h e = (
  absent-append u.id us n h.0 (ground (arith, text_eq-sym u.id n.id)),
  UniqueIds-append us n h.1 (ground arith),
)

pub IsGoverned-append :
    (us : List User) (n : User)
    → IsGoverned us
    → any (has_id n.id) us ≡ false
    → IsGoverned (us ++ n ∷ [])
IsGoverned-append us n h e =
    (UniqueIds-append us n h.0 e, omega (arith, tally-append is_active_admin us (n ∷ []), h.1))

pub absent-update :
    (k : Text) (p : User → Bool) (f : User → User) (us : List User)
    → ((u : User) → (f u).id ≡ u.id)
    → any (has_id k) us ≡ false
    → any (has_id k) (update_where p f us) ≡ false
absent-update k p f [] same h = refl
absent-update k p f (u ∷ us) same h = ground (arith, absent-update k p f us same, same u)

pub UniqueIds-update :
    (p : User → Bool) (f : User → User) (us : List User)
    → ((u : User) → (f u).id ≡ u.id)
    → UniqueIds us
    → UniqueIds (update_where p f us)
UniqueIds-update p f [] same h = tt
UniqueIds-update p f (u ∷ us) same h = (
  (elim (Bool-cases (p u)) [
    | inl e ↦ rw (e, same u) (absent-update u.id p f us same h.0)
    | inr e ↦ rw e (absent-update u.id p f us same h.0)
  ]),
  UniqueIds-update p f us same h.1,
)

pub admins-update :
    (p : User → Bool) (f : User → User) (us : List User)
    → IsSafe p f
    → active_admins us ≤ active_admins (update_where p f us)
admins-update p f [] safe = omega arith
admins-update p f (u ∷ us) safe = ground (arith, admins-update p f us safe, safe.standing u)

pub update-absent :
    (k : Text) (f : User → User) (us : List User)
    → any (has_id k) us ≡ false
    → update_where (has_id k) f us ≡ us
update-absent k f [] h = refl
update-absent k f (u ∷ us) h = ground (arith, update-absent k f us)

pub absent_rest :
    (k : Text) (u : User) (us : List User)
    → any (has_id u.id) us ≡ false
    → has_id k u ≡ true
    → any (has_id k) us ≡ false
absent_rest k u us h e = rw (← text_eq→eq u.id k e) h

-- One row has the id, so at most one active admin is changed.
pub admins-update_id :
    (k : Text) (f : User → User) (us : List User)
    → UniqueIds us
    → active_admins us ≤ active_admins (update_where (has_id k) f us) + 1
admins-update_id k f [] h = omega arith
admins-update_id k f (u ∷ us) h = elim (Bool-cases (has_id k u)) [
  | inl e ↦ rw (e, update-absent k f us (absent_rest k u us h.0 e)) (ground arith)
  | inr e ↦ rw e (omega (arith, admins-update_id k f us h.1))
]

pub standing_le :
    (u found v : User) (us : List User)
    → u ≡ found
    → (is_active_admin found ≡ true → is_active_admin v ≡ true)
    → active_admins (u ∷ us) ≤ active_admins (v ∷ us)
standing_le u found v us e keep = elim (Bool-cases (is_active_admin found)) [
  | inl a ↦ rw (ap (λ x. is_active_admin x) e, a, keep a) (omega arith)
  | inr b ↦ rw (ap (λ x. is_active_admin x) e, b) (omega arith)
]

-- That row is the one that the SELECT found.
pub admins-update_found :
    (k : Text) (f : User → User) (us : List User) (found : User)
    → UniqueIds us
    → find? (has_id k) us ≡ some found
    → (is_active_admin found ≡ true → is_active_admin (f found) ≡ true)
    → active_admins us ≤ active_admins (update_where (has_id k) f us)
admins-update_found k f [] found h e keep = omega arith
admins-update_found k f (u ∷ us) found h e keep = elim (Bool-cases (has_id k u)) [
  | inl here ↦
      let same : some u ≡ some found = ground arith in
      let row : u ≡ found = eq_of_some same in
      rw (here, update-absent k f us (absent_rest k u us h.0 here))
        (standing_le u found (f u) us row (λ a. rw (ap f row) (keep a)))
  | inr there ↦ rw there (omega (arith, admins-update_found k f us found h.1 (rw there at e) keep))
]

pub IsGoverned-safe :
    (p : User → Bool) (f : User → User) (us : List User)
    → IsSafe p f
    → IsGoverned us
    → IsGoverned (update_where p f us)
IsGoverned-safe p f us safe h =
    (UniqueIds-update p f us safe.id h.0, omega (arith, admins-update p f us safe, h.1))

-- The guard of `admin_update_user`: an active admin loses that standing only where another is left.
pub IsGoverned-change :
    (k : Text) (role : Option Role) (status : Option UserStatus) (r : Role) (t : UserStatus)
    (name : Option Text) (now : ℕ) (us : List User) (found : User)
    → find? (has_id k) us ≡ some found
    → (removes_active_admin found role status && leb (active_admins us) 1) ≡ false
    → r ≡ or_current role found.role
    → t ≡ or_current status found.status
    → IsGoverned us
    → IsGoverned (update_where (has_id k) (admin_row r t name now) us)
IsGoverned-change k role status r t name now us found e guard er et h = (
  UniqueIds-update (has_id k) (admin_row r t name now) us (λ u. refl) h.0,
  elim (Bool-cases (removes_active_admin found role status)) [
    | inl removes ↦ ground (arith, admins-update_id k (admin_row r t name now) us h.0)
    | inr stays ↦ omega (
      arith,
      h.1,
      admins-update_found k (admin_row r t name now) us found h.0 e (λ a. ground arith),
    )
  ],
)

-- A pending user is no active admin, so that it is disabled changes nothing.
pub IsGoverned-retire :
    (k issuer : Text) (now : ℕ) (us : List User) (found : User)
    → find? (has_id k) us ≡ some found
    → is_pending found.status ≡ true
    → IsGoverned us
    → IsGoverned (update_where (has_id k) (retired_row issuer now) us)
IsGoverned-retire k issuer now us found e pending h = (
  UniqueIds-update (has_id k) (retired_row issuer now) us (λ u. refl) h.0,
  omega (
    arith,
    h.1,
    admins-update_found k (retired_row issuer now) us found h.0 e (λ a. ground arith),
  ),
)
