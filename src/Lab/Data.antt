-- ===== src/Lab/Data.antt =====
-- The rows of the three tables of the lab database (store.py, the script of `LabStore.open`), the
-- store, and an action on it: state with exceptions, where a raise keeps what was written so far.
-- Times are whole microseconds. An id is a text, as `uuid.uuid4().hex` is.
use constella.Prelude.{ℕ, ◌*◌, Bool, true, false, Option, none, some, List, Text, if◌then◌else◌}

pub data Role : Type 0 where
  viewer member admin : Role

pub data UserStatus : Type 0 where
  active disabled pending_identity_review : UserStatus

pub data Assurance : Type 0 where
  self_claimed admin_verified node_verified : Assurance

pub data BindingStatus : Type 0 where
  in_force revoked reassigned : BindingStatus

pub record User : Type 0 where
  pub id : Text
  pub access_issuer : Text
  pub access_subject : Text
  pub email : Text
  pub email_normalized : Text
  pub display_name : Option Text
  pub role : Role
  pub status : UserStatus
  pub created_at : ℕ
  pub updated_at : ℕ
  pub last_login_at : ℕ
  pub onboarding_completed_at : Option ℕ

pub record Binding : Type 0 where
  pub id : Text
  pub user_id : Text
  pub node_id : Text
  pub unix_uid : ℕ
  pub unix_gid : Option ℕ
  pub unix_username : Text
  pub assurance : Assurance
  pub status : BindingStatus
  pub valid_from : ℕ
  pub valid_to : Option ℕ
  pub created_by : Text
  pub ended_by : Option Text
  pub reason : Option Text

-- What `details_json` holds, by the action that is recorded.
pub data Details : Type 0 where
  user_created user_updated : Role → UserStatus → Details
  binding_created : Text → Text → ℕ → Assurance → Option Text → Details
  onboarding_completed : ℕ → Details
  binding_ended : BindingStatus → Option Text → Details
  binding_reassigned : Text → Text → Details
  binding_verified : Assurance → Details
  identity_migrated : Text → Text → Details
  readonly_selected : Details

pub record AuditEvent : Type 0 where
  pub occurred_at : ℕ
  pub actor_user_id : Option Text
  pub target_id : Option Text
  pub request_id : Text
  pub details : Details

-- `audit` has the newest event first.
pub record Store : Type 0 where
  pub users : List User
  pub bindings : List Binding
  pub audit : List AuditEvent

pub data Error : Type 0 where
  value_error lab_store_error last_admin_error binding_conflict_error integrity_error : Error

pub data Result (A : Type 0) : Type 0 where
  ok : A → Result A
  raised : Error → Result A

abbrev pub Action : Type 0 → Type 0
Action A = Store → Result A × Store

abbrev conflict_of : Error → Error
conflict_of integrity_error = binding_conflict_error
conflict_of e = e

module _ {A : Type 0} where
  unfoldable pub pure : A → Action A
  pure a s = (ok a, s)

  unfoldable pub raise : Error → Action A
  raise e s = (raised e, s)

  unfoldable pub gets : (Store → A) → Action A
  gets f s = (ok (f s), s)

  unfoldable pub or_raise : Option A → Error → Action A
  or_raise none e s = (raised e, s)
  or_raise (some a) e s = (ok a, s)

  unfoldable pub branch : Bool → Action A → Action A → Action A
  branch true m n = m
  branch false m n = n

  unfoldable pub if_found : {B : Type 0} → Option B → Action A → (B → Action A) → Action A
  if_found none m f = m
  if_found (some b) m f = f b

  abbrev pub commit : Store → Result A × Store → Result A × Store
  commit s (ok a, s') = (ok a, s')
  commit s (raised e, s') = (raised e, s)

  -- `with self._con():` commits, or rolls back on an exception and lets it pass.
  unfoldable pub transaction : Action A → Action A
  transaction m s = commit s (m s)

  abbrev translate : Result A × Store → Result A × Store
  translate (ok a, s) = (ok a, s)
  translate (raised e, s) = (raised (conflict_of e), s)

  -- `except sqlite3.IntegrityError as exc: raise BindingConflictError(…) from exc`
  unfoldable pub catch_integrity : Action A → Action A
  catch_integrity m s = translate (m s)

abbrev pub continue : {A B : Type 0} → (A → Action B) → Result A × Store → Result B × Store
continue f (ok a, s) = f a s
continue f (raised e, s) = (raised e, s)

infixl 5 ◌>>=◌ ◌>>◌
unfoldable pub ◌>>=◌ : {A B : Type 0} → Action A → (A → Action B) → Action B
◌>>=◌ m f s = continue f (m s)

abbrev pub ◌>>◌ : {A B : Type 0} → Action A → Action B → Action B
m >> k = m >>= λ _. k

unfoldable pub raise_if : Bool → Error → Action (Unit {0})
raise_if c e s = (if c then raised e else ok tt, s)

unfoldable pub modify : (Store → Store) → Action (Unit {0})
modify f s = (ok tt, f s)

-- Ticks in a second.
abbrev pub second : ℕ
second = 1000 * 1000
