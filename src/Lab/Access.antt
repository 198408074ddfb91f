-- ===== src/Lab/Access.antt =====
-- Who gets past the middleware, and how long a session lasts (packages/lab/src/constella_lab/auth.py).
use constella.Prelude.{
  true_not_false, ℕ, ◌+◌, ◌<◌, ◌≤◌, ◌-◌, ◌*◌, min, ◌≡◌, ◌≢◌, refl, sym, ap, ◌∙◌, true, false, not,
  ◌||◌, Option, List, [], ◌∷◌, Text, truthy, leb, All, inl, inr, Bool-cases, arith,
}
use constella.Lab.Data.{User, Store, second}
use constella.Lab.Gate.{
  Claims, verified, Scope, GateConfig, is_machine_or_health_path, passes_open, passes, is_protected,
  gate, Round, running, returned, closed, still_active, watch, run_websocket,
}
use constella.Lab.Verdicts.{
  IsAdmitted, rejects_not_passes, open_not_passes, IsIdentified, identified-passes, opens,
  opens-identified,
}

closed_not_running : (n : ℕ) → closed n ≢ running
closed_not_running n bad = cc

returned_not_running : returned ≢ running
returned_not_running bad = cc

-- The round began before the end of the session, and found the application at work and the user
-- there and active.
abbrev pub IsLive : ℕ → ℕ → Round → Type 0
IsLive now expires r =
    (r.now < now + 900 * second)
    × (r.now < expires)
    × (r.finished ≡ false)
    × (still_active r.status ≡ true)

module _ (now expires deadline code : ℕ)
    (ends : deadline ≡ now + min (900 * second) (expires - now)) where
  watch-IsLive :
      (rounds : List Round)
      → All (λ r. now ≤ r.now) rounds
      → watch deadline code rounds ≡ running
      → All (IsLive now expires) rounds
  unfolding watch
  watch-IsLive [] onward h = tt
  watch-IsLive (r ∷ rounds) onward h = elim (Bool-cases (leb deadline r.now)) [
    | inl over ↦ absurd (closed_not_running _ (simp over at h))
    | inr before ↦ elim (Bool-cases r.finished) [
      | inl done ↦ absurd (returned_not_running (simp (before, done) at h))
      | inr going ↦ elim (Bool-cases (still_active r.status)) [
        | inr gone ↦ absurd (closed_not_running _ (simp (before, going, gone) at h))
        | inl here ↦
            let early : r.now < deadline = ground arith in
            let begun : now ≤ r.now = onward.0 in
            (
              (omega (arith, ends), omega (arith, ends), going, here),
              watch-IsLive rounds onward.1 (simp (before, going, here) at h),
            )
      ]
    ]
  ]

  watch-live :
      (rounds : List Round)
      → All (λ r. now ≤ r.now) rounds
      → All (IsLive now expires) rounds
      → watch deadline code rounds ≡ running
  unfolding watch
  watch-live [] onward live = refl
  watch-live (r ∷ rounds) onward ((short, valid, going, here), live) =
      let begun : now ≤ r.now = onward.0 in
      let early : r.now < deadline = omega (arith, ends) in
      let before : leb deadline r.now ≡ false = ground arith in
      rw (before, going, here) (watch-live rounds onward.1 live)

-- A request reaches the application with a user only if its token decodes to claims of the
-- application's type with a subject and an address, the store resolves that identity to this user,
-- the user is active, is an admin where the path is for admins, and, where the request changes state,
-- comes from the public origin with the marker. It reaches it without a user only if it is no HTTP
-- request or websocket, or on one of the three machine and health paths.
pub gate-passes :
    (decode : Text → Option Claims) (config : GateConfig) (s : Scope) (request user_id : Text)
    (now : ℕ) (store : Store)
    → ((v : User) (e : ℕ)
        → (gate decode config s request user_id now store).0 ≡ passes v e
        → IsIdentified decode config s request user_id now store v e × IsAdmitted config s v)
      × ((gate decode config s request user_id now store).0 ≡ passes_open
          → (not (is_protected s.type) || is_machine_or_health_path s.path) ≡ true)
unfolding gate
gate-passes decode config s request user_id now store =
    elim (Bool-cases (not (is_protected s.type) || is_machine_or_health_path s.path)) [
      | inl free ↦ simp free ((λ v e h. absurd (open_not_passes v e h)), (λ h. refl))
      | inr held ↦ elim (Bool-cases (not (truthy s.token))) [
        | inl blank ↦
            simp (held, blank)
              (
                (λ v e h. absurd (rejects_not_passes _ _ v e h)),
                (λ h. absurd (true_not_false (sym (ap opens h)))),
              )
        | inr sent_ ↦
            simp (held, sent_)
              (
                (λ v e h. identified-passes decode config s request user_id now store v e h),
                (λ h. absurd (
                    true_not_false (
                      sym (ap opens h)
                      ∙ opens-identified config s (verified (decode s.token)) request user_id now
                          store))),
              )
      ]
    ]

-- Where no round begins before the session was accepted: the session goes on exactly when each of its
-- rounds began less than fifteen minutes after it was accepted and before its token expires, and
-- found the application at work and the user there and active. So no round follows the expiry, also
-- when the token had expired before and was let in within the leeway.
pub run_websocket-running :
    (now expires_at : ℕ) (rounds : List Round)
    → All (λ r. now ≤ r.now) rounds
    → (run_websocket now expires_at rounds ≡ running → All (IsLive now expires_at) rounds)
      × (All (IsLive now expires_at) rounds → run_websocket now expires_at rounds ≡ running)
unfolding run_websocket
run_websocket-running now expires_at rounds onward = (
  watch-IsLive now expires_at _ _ refl rounds onward,
  watch-live now expires_at _ _ refl rounds onward,
)
