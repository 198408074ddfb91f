-- ===== src/Lab/GateTests.antt =====
-- Requests to the middleware, at concrete inputs.
use constella.Prelude.{
  ◌≤◌, ℕ, ◌≡◌, refl, true, false, not, ◌||◌, Option, none, some, List, [], ◌∷◌, Text, text, text_eq,
  All, arith, lower, strip, lstrip,
}
use constella.Lab.Data.{
  admin, active, User, Store, ◌>>=◌, pure, gets, branch, if_found, transaction,
}
use constella.Lab.Logins.{resolve_identity, normalize_email, refresh_login}
use constella.Lab.Gate.{
  Claims, Scope, http, GateConfig, gate, passes, passes_open, is_protected,
  is_machine_or_health_path, Round, running, run_websocket, starts_with, admin_only_path,
  identity_of, without_slashes,
}
use constella.Lab.Access.{gate-passes, IsLive, run_websocket-running}
use constella.Lab.Verdicts.{IsIdentified, IsAdmitted}

abbrev ann : User
ann = record {
  id = text "a";
  access_issuer = text "idp";
  access_subject = text "s";
  email = text "a@x";
  email_normalized = text "a@x";
  display_name = none;
  role = admin;
  status = active;
  created_at = 1;
  updated_at = 1;
  last_login_at = 1;
  onboarding_completed_at = none;
}

abbrev lab : Store
lab = record { users = ann ∷ []; bindings = []; audit = [] }

abbrev decode : Text → Option Claims
decode t = some (record {
  type = some (text "app");
  iss = text "idp";
  sub = some (text "s");
  email = some (text "a@x");
  exp = 90;
})

abbrev config : GateConfig
config = record { public_origin = text "https://lab"; bootstrap_admin_email = text "a@x" }

abbrev request : Scope
request = record {
  type = http;
  path = text "/api/lab/admin/users";
  method = some (text "PATCH");
  token = text "t";
  origin = text "https://lab/";
  marker = text "same-origin";
}

-- An admin's request is let in.
gate-admin : (gate decode config request (text "r") (text "n") 2 lab).0 ≡ passes ann 90
unfolding gate resolve_identity normalize_email refresh_login ◌>>=◌ pure gets branch if_found
    transaction text_eq starts_with admin_only_path identity_of without_slashes
    is_machine_or_health_path lower strip lstrip
gate-admin = refl

gate-passes_example :
    ((v : User) (e : ℕ)
      → (gate decode config request (text "r") (text "n") 2 lab).0 ≡ passes v e
      → IsIdentified decode config request (text "r") (text "n") 2 lab v e
        × IsAdmitted config request v)
    × ((gate decode config request (text "r") (text "n") 2 lab).0 ≡ passes_open
        → (not (is_protected request.type) || is_machine_or_health_path request.path) ≡ true)
gate-passes_example = gate-passes decode config request (text "r") (text "n") 2 lab

abbrev rounds : List Round
rounds =
    record { now = 2; finished = false; status = some active }
    ∷ record { now = 60; finished = false; status = some active }
    ∷ []

rounds-onward : All (λ (r : Round). 1 ≤ r.now) rounds
rounds-onward = (omega arith, (omega arith, tt))

run_websocket-running_example :
    (run_websocket 1 90 rounds ≡ running → All (IsLive 1 90) rounds)
    × (All (IsLive 1 90) rounds → run_websocket 1 90 rounds ≡ running)
run_websocket-running_example = run_websocket-running 1 90 rounds rounds-onward
