-- ===== src/Lab/Gate.antt =====
-- `LabAuthMiddleware` and the claims of an access token (packages/lab/src/constella_lab/auth.py).
-- `jwt.decode` with the key set is an argument, `decode`: the claims of a token that it accepts.
use constella.Prelude.{
  ℕ, ◌+◌, ◌*◌, ◌-◌, min, Bool, true, false, not, ◌&&◌, ◌||◌, Option, none, some, List, [], ◌∷◌,
  Text, text, text_eq, truthy, leb, ◌==◌, if◌then◌else◌,
}
use mathlib.Core.List.{reverse}
use constella.Lab.Data.{User, UserStatus, Store, Error, value_error, Result, ok, raised, second}
use constella.Lab.Sql.{is_active, is_admin}
use constella.Lab.Logins.{resolve_identity}

pub record Claims : Type 0 where
  pub type : Option Text
  pub iss : Text
  -- `none` where the claim is no string.
  pub sub : Option Text
  pub email : Option Text
  pub exp : ℕ

pub record AccessIdentity : Type 0 where
  pub issuer : Text
  pub subject : Text
  pub email : Text
  pub expires_at : ℕ

abbrev pub given : Option Text → Bool
given none = false
given (some t) = truthy t

abbrev pub is_text : Option Text → Text → Bool
is_text none t = false
is_text (some u) t = text_eq u t

abbrev pub identity_from : Text → ℕ → Option Text → Option Text → Option AccessIdentity
identity_from iss exp none email = none
identity_from iss exp (some subject) none = none
identity_from iss exp (some subject) (some email) =
    some (record { issuer = iss; subject = subject; email = email; expires_at = exp })

-- `_verify_sync` after `jwt.decode`; `none` stands for `InvalidTokenError`.
unfoldable pub identity_of : Claims → Option AccessIdentity
identity_of c =
    if is_text c.type (text "app") && given c.sub && given c.email
    then identity_from c.iss c.exp c.sub c.email
    else none

abbrev pub verified : Option Claims → Option AccessIdentity
verified none = none
verified (some c) = identity_of c

pub data Kind : Type 0 where
  http websocket lifespan : Kind

pub record Scope : Type 0 where
  pub type : Kind
  pub path : Text
  pub method : Option Text
  -- Headers, empty where they are missing.
  pub token : Text
  pub origin : Text
  pub marker : Text

pub record GateConfig : Type 0 where
  pub public_origin : Text
  pub bootstrap_admin_email : Text

unfoldable pub starts_with : Text → Text → Bool
starts_with t [] = true
starts_with [] (c ∷ prefix) = false
starts_with (d ∷ t) (c ∷ prefix) = (d == c) && starts_with t prefix

-- `_is_machine_or_health_path`
unfoldable pub is_machine_or_health_path : Text → Bool
is_machine_or_health_path p =
    text_eq p (text "/api/health")
    || text_eq p (text "/api/agents/ws")
    || text_eq p (text "/api/highres/stream")

-- `_admin_only_path`
unfoldable pub admin_only_path : Scope → Bool
unfolding starts_with
admin_only_path s =
    (starts_with s.path (text "/api/lab/admin")
      || starts_with s.path (text "/api/docs")
      || text_eq s.path (text "/openapi.json"))
    || (text_eq s.path (text "/api/settings") && is_text s.method (text "PATCH"))

unfoldable drop_slashes : Text → Text
drop_slashes [] = []
drop_slashes (c ∷ t) = let rest = drop_slashes t in if c == 47 then rest else c ∷ t

-- `origin.rstrip("/")`
unfoldable pub without_slashes : Text → Text
unfolding drop_slashes
without_slashes t = reverse (drop_slashes (reverse t))

abbrev pub is_http : Kind → Bool
is_http http = true
is_http k = false

abbrev pub changes_state : Scope → Bool
changes_state s =
    is_http s.type
    && (is_text s.method (text "POST")
        || is_text s.method (text "PATCH")
        || is_text s.method (text "DELETE"))

abbrev pub same_origin : GateConfig → Scope → Bool
same_origin config s =
    text_eq (without_slashes s.origin) config.public_origin && text_eq s.marker (text "same-origin")

-- What becomes of a request: it goes to the application without a user, or with one and the time its
-- token expires, or it is rejected with a status and a code, or the store's error goes up.
pub data Verdict : Type 0 where
  passes_open : Verdict
  passes : User → ℕ → Verdict
  rejects : ℕ → Text → Verdict
  fails : Error → Verdict

-- The tests after the user is known.
abbrev pub admits : GateConfig → Scope → ℕ → User → Verdict
admits config s expires user =
    if not (is_active user.status)
    then rejects 403 (text "user_not_active")
    else if admin_only_path s && not (is_admin user.role)
    then rejects 403 (text "admin_required")
    else if changes_state s && not (same_origin config s)
    then rejects 403 (text "csrf_check_failed")
    else passes user expires

abbrev pub admits_result : GateConfig → Scope → ℕ → Result User → Verdict
admits_result config s expires (ok user) = admits config s expires user
admits_result config s expires (raised value_error) = rejects 401 (text "invalid_access_identity")
admits_result config s expires (raised e) = fails e

abbrev pub resolved : GateConfig → AccessIdentity → Text → Text → ℕ → Store → Result User × Store
resolved config i request user_id now =
    resolve_identity i.issuer i.subject i.email config.bootstrap_admin_email request user_id now

abbrev pub identified :
    GateConfig → Scope → Option AccessIdentity → Text → Text → ℕ → Store → Verdict × Store
identified config s none request user_id now store =
    (rejects 401 (text "invalid_access_identity"), store)
identified config s (some i) request user_id now store =
    let (result, after) = resolved config i request user_id now store in
    (admits_result config s i.expires_at result, after)

abbrev pub is_protected : Kind → Bool
is_protected lifespan = false
is_protected k = true

-- `__call__` up to the call of the application.
unfoldable pub gate :
    (Text → Option Claims) → GateConfig → Scope → Text → Text → ℕ → Store → Verdict × Store
gate decode config s request user_id now store =
    if not (is_protected s.type) || is_machine_or_health_path s.path
    then (passes_open, store)
    else if not (truthy s.token)
    then (rejects 401 (text "access_identity_required"), store)
    else identified config s (verified (decode s.token)) request user_id now store

-- `_reject` on a websocket.
abbrev pub reject_close_code : ℕ → ℕ
reject_close_code status = if status == 401 then 4401 else 4403

-- One round of the loop of `_run_websocket`: the clock at its head, whether the application has
-- finished after the wait, and the status of the user that is then read, if there still is one.
pub record Round : Type 0 where
  pub now : ℕ
  pub finished : Bool
  pub status : Option UserStatus

pub data Session : Type 0 where
  running returned : Session
  closed : ℕ → Session

abbrev pub still_active : Option UserStatus → Bool
still_active none = false
still_active (some t) = is_active t

unfoldable pub watch : ℕ → ℕ → List Round → Session
watch deadline code [] = running
watch deadline code (r ∷ rounds) =
    let rest = watch deadline code rounds in
    if leb deadline r.now
    then closed code
    else if r.finished
    then returned
    else if still_active r.status
    then rest
    else closed 4403

-- `_run_websocket`, of a connection that is accepted at a time; the wall clock and the monotonic
-- clock are one here.
unfoldable pub run_websocket : ℕ → ℕ → List Round → Session
run_websocket now expires_at rounds =
    let lifetime = expires_at - now in
    watch (now + min (900 * second) lifetime) (if leb lifetime (900 * second) then 4401 else 4000)
      rounds
