-- ===== src/Lab/Verdicts.antt =====
-- The verdicts on one request (packages/lab/src/constella_lab/auth.py).
use constella.Prelude.{
  none_not_some, ℕ, ◌≡◌, ◌≢◌, refl, ap, subst, Bool, true, false, not, ◌&&◌, Option, none, some,
  Text, text, inl, inr, Bool-cases, Option-cases,
}
use constella.Lab.Data.{
  User, Store, Error, value_error, lab_store_error, last_admin_error, binding_conflict_error,
  integrity_error, Result, ok, raised,
}
use constella.Lab.Sql.{is_active, is_admin}
use constella.Lab.Gate.{
  Claims, AccessIdentity, is_text, identity_of, verified, Scope, GateConfig, admin_only_path,
  changes_state, same_origin, Verdict, passes_open, passes, rejects, fails, admits, admits_result,
  resolved, identified,
}

-- What the tests after the user is known have found.
abbrev pub IsAdmitted : GateConfig → Scope → User → Type 0
IsAdmitted config s user =
    (is_active user.status ≡ true)
    × (admin_only_path s ≡ true → is_admin user.role ≡ true)
    × (changes_state s ≡ true → same_origin config s ≡ true)

pub rejects_not_passes : (n : ℕ) (t : Text) (u : User) (e : ℕ) → rejects n t ≢ passes u e
rejects_not_passes n t u e bad = cc

fails_not_passes : (x : Error) (u : User) (e : ℕ) → fails x ≢ passes u e
fails_not_passes x u e bad = cc

pub open_not_passes : (u : User) (e : ℕ) → passes_open ≢ passes u e
open_not_passes u e bad = cc

passes_user : (u v : User) (d e : ℕ) → passes u d ≡ passes v e → (u ≡ v) × (d ≡ e)
passes_user u v d e same = (cc, cc)

implied : (p q : Bool) → (p && not q) ≡ false → p ≡ true → q ≡ true
implied true true h on = refl
implied true false h on = cc
implied false q h on = cc

not_off : (p : Bool) → not p ≡ false → p ≡ true
not_off true h = refl
not_off false h = cc

admits-passes :
    (config : GateConfig) (s : Scope) (d : ℕ) (u v : User) (e : ℕ)
    → admits config s d u ≡ passes v e
    → (u ≡ v) × (d ≡ e) × IsAdmitted config s u
admits-passes config s d u v e h = elim (Bool-cases (not (is_active u.status))) [
  | inl off ↦ absurd (rejects_not_passes _ _ v e (simp off at h))
  | inr on ↦ elim (Bool-cases (admin_only_path s && not (is_admin u.role))) [
    | inl low ↦ absurd (rejects_not_passes _ _ v e (simp (on, low) at h))
    | inr high ↦ elim (Bool-cases (changes_state s && not (same_origin config s))) [
      | inl foreign ↦ absurd (rejects_not_passes _ _ v e (simp (on, high, foreign) at h))
      | inr own ↦
          let same = passes_user u v d e (simp (on, high, own) at h) in
          (
            same.0,
            same.1,
            (not_off _ on, implied (admin_only_path s) _ high, implied (changes_state s) _ own),
          )
    ]
  ]
]

admits_result-passes :
    (config : GateConfig) (s : Scope) (d : ℕ) (r : Result User) (v : User) (e : ℕ)
    → admits_result config s d r ≡ passes v e
    → (r ≡ ok v) × (d ≡ e) × IsAdmitted config s v
admits_result-passes config s d (ok u) v e h =
    let (same, time, admitted) = admits-passes config s d u v e h in
    (ap (λ x. ok x) same, time, subst (IsAdmitted config s) same admitted)
admits_result-passes config s d (raised value_error) v e h = absurd (rejects_not_passes _ _ v e h)
admits_result-passes config s d (raised lab_store_error) v e h = absurd (fails_not_passes _ v e h)
admits_result-passes config s d (raised last_admin_error) v e h = absurd (fails_not_passes _ v e h)
admits_result-passes config s d (raised binding_conflict_error) v e h =
    absurd (fails_not_passes _ v e h)
admits_result-passes config s d (raised integrity_error) v e h = absurd (fails_not_passes _ v e h)

-- A request came with a token of the application whose identity the store knows as this user.
abbrev pub IsIdentified :
    (Text → Option Claims) → GateConfig → Scope → Text → Text → ℕ → Store → User → ℕ → Type 0
IsIdentified decode config s request user_id now store user expires =
    (c : Claims) × (i : AccessIdentity) × (decode s.token ≡ some c)
    × (is_text c.type (text "app") ≡ true)
    × (identity_of c ≡ some i)
    × (i.expires_at ≡ expires)
    × ((resolved config i request user_id now store).0 ≡ ok user)

identity_of-app :
    (c : Claims) (i : AccessIdentity) → identity_of c ≡ some i → is_text c.type (text "app") ≡ true
unfolding identity_of
identity_of-app c i h = elim (Bool-cases (is_text c.type (text "app"))) [
  | inl app ↦ app
  | inr other ↦ absurd (none_not_some i (simp other at h))
]

pub identified-passes :
    (decode : Text → Option Claims) (config : GateConfig) (s : Scope) (request user_id : Text)
    (now : ℕ) (store : Store) (v : User) (e : ℕ)
    → (identified config s (verified (decode s.token)) request user_id now store).0 ≡ passes v e
    → IsIdentified decode config s request user_id now store v e × IsAdmitted config s v
identified-passes decode config s request user_id now store v e h =
    elim (Option-cases (decode s.token)) [
      | inl bad ↦ absurd (rejects_not_passes _ _ v e (simp bad at h))
      | inr (c, good) ↦ elim (Option-cases (identity_of c)) [
        | inl unknown ↦ absurd (rejects_not_passes _ _ v e (simp (good, unknown) at h))
        | inr (i, known) ↦
            let (result, time, admitted) =
              admits_result-passes config s i.expires_at
                (resolved config i request user_id now store).0 v e (simp (good, known) at h) in
            ((c, i, good, identity_of-app c i known, known, time, result), admitted)
      ]
    ]

abbrev pub opens : Verdict → Bool
opens passes_open = true
opens (passes u e) = false
opens (rejects n t) = false
opens (fails e) = false

opens-admits :
    (config : GateConfig) (s : Scope) (e : ℕ) (u : User) → opens (admits config s e u) ≡ false
opens-admits config s e u = elim (Bool-cases (not (is_active u.status))) [
  | inl off ↦ simp off refl
  | inr on ↦ elim (Bool-cases (admin_only_path s && not (is_admin u.role))) [
    | inl low ↦ simp (on, low) refl
    | inr high ↦ elim (Bool-cases (changes_state s && not (same_origin config s))) [
      | inl foreign ↦ simp (on, high, foreign) refl
      | inr own ↦ simp (on, high, own) refl
    ]
  ]
]

opens-admits_result :
    (config : GateConfig) (s : Scope) (e : ℕ) (r : Result User)
    → opens (admits_result config s e r) ≡ false
opens-admits_result config s e (ok u) = opens-admits config s e u
opens-admits_result config s e (raised value_error) = refl
opens-admits_result config s e (raised lab_store_error) = refl
opens-admits_result config s e (raised last_admin_error) = refl
opens-admits_result config s e (raised binding_conflict_error) = refl
opens-admits_result config s e (raised integrity_error) = refl

pub opens-identified :
    (config : GateConfig) (s : Scope) (o : Option AccessIdentity) (request user_id : Text) (now : ℕ)
    (store : Store)
    → opens (identified config s o request user_id now store).0 ≡ false
opens-identified config s none request user_id now store = refl
opens-identified config s (some i) request user_id now store =
    opens-admits_result config s i.expires_at (resolved config i request user_id now store).0
