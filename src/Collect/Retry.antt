-- ===== src/Collect/Retry.antt =====
-- When the preferred sampler is tried again (collector.py, `_sample_once`).
use constella.Prelude.{
  suc, ℕ, ◌+◌, ◌==◌, ◌≤◌, ◌<◌, ◌≡◌, refl, leb, Bool, true, false, not, ◌&&◌, ◌||◌, Option, none,
  some, List, [], ◌∷◌, ◌++◌, append_assoc, append-nil, Text, All, replicate, length, Bool-cases,
  and_false, inl, inr, ap, ◌∙◌, sym, subst, arith, if◌then◌else◌,
}
use constella.Collect.Collector.{
  Attempt, Effect, opened, closed, asked, fell_back, Collector, Outcome, raised, sampled, Result,
  fallback_state, close_effects, is_usable, or_message, fall_back, failed, succeeded, with_outcome,
  with_sampler, is_due, sample_once, retry_delay,
}
use constella.Collect.Runs.{Op, sample, step, run}

-- `sample_once` by its two tests: the deadline is over, and the clock has reached it.
abbrev by_tests : Attempt → Collector → Bool → Bool → Result
by_tests a c due reached =
    let up = if due then false else c.sampler in
    if up || reached
    then with_sampler a up a.construction (record c { sampler = up })
        (close_effects (due && c.sampler))
    else fall_back a (record c { sampler = up }) (close_effects (due && c.sampler))

sample_once_lem :
    (a : Attempt) (c : Collector) (due reached : Bool)
    → is_due a c ≡ due
    → leb c.retry_at a.now ≡ reached
    → sample_once a c ≡ by_tests a c due reached
unfolding sample_once
sample_once_lem a c due reached h k =
    ap (λ b. by_tests a c b (leb c.retry_at a.now)) h ∙ ap (by_tests a c due) k

-- Before the deadline a collector without a sampler asks the fallback alone.
sample-waits :
    (a : Attempt) (c : Collector)
    → c.sampler ≡ false
    → a.now < c.retry_at
    → sample_once a c ≡ fall_back a c []
sample-waits a c down early =
    let before : leb c.retry_at a.now ≡ false = ground arith in
    let not_due : is_due a c ≡ false =
      ap (λ b. not (c.retry_at == 0) && b) before ∙ and_false (not (c.retry_at == 0)) in
    sample_once_lem a c false false not_due before
    ∙ ap
        (λ b. if b || false then with_sampler a c.sampler a.construction c [] else fall_back a c [])
        down

abbrev pub samples : List Attempt → List Op
samples [] = []
samples (a ∷ as') = sample a ∷ samples as'

-- The preferred sampler, its deadline and its error, and the settings, are what they were.
abbrev pub IsUndisturbed : Collector → Collector → Type 0
IsUndisturbed c d =
    (d.sampler ≡ c.sampler)
    × (d.retry_at ≡ c.retry_at)
    × (d.preferred_error ≡ c.preferred_error)
    × (d.refresh_interval ≡ c.refresh_interval)
    × (d.process_interval ≡ c.process_interval)
    × (d.woken ≡ c.woken)

abbrev Waits : Collector → ℕ → Collector × List Effect → Type 0
Waits c n p = (p.1 ≡ replicate n fell_back) × IsUndisturbed c p.0

run-Waits :
    (as' : List Attempt) (c : Collector)
    → c.sampler ≡ false
    → All (λ (a : Attempt). a.now < c.retry_at) as'
    → Waits c (length as') (run (samples as') c)
unfolding run step
run-Waits [] c down early = (refl, (refl, refl, refl, refl, refl, refl))
run-Waits (a ∷ as') c down (now, early) =
    let (effects, rest) = run-Waits as' (fallback_state a c) down early in
    subst
      (λ (r : Result).
        Waits c (suc (length as'))
          ((run (samples as') r.state).0, r.effects ++ (run (samples as') r.state).1))
      (sym (sample-waits a c down now)) (ap (λ es. fell_back ∷ es) effects, rest)

-- The sampler raises, or what it brings has no device.
abbrev pub is_bad : Outcome → Bool
is_bad (raised e) = true
is_bad (sampled s) = not (is_usable s)

abbrev IsDown : ℕ → Result → Type 0
IsDown at r = (r.state.sampler ≡ false) × (r.state.retry_at ≡ at)

with_outcome-IsDown :
    (a : Attempt) (o : Outcome) (c : Collector) (effects : List Effect)
    → is_bad o ≡ true
    → IsDown (a.later + retry_delay) (with_outcome a o c effects)
with_outcome-IsDown a (raised e) c effects bad = (refl, refl)
with_outcome-IsDown a (sampled s) c effects bad = elim (Bool-cases (is_usable s)) [
  | inl usable ↦ let e : not true ≡ true = ap not (sym usable) ∙ bad in absurd (cc)
  | inr useless ↦
      subst (IsDown (a.later + retry_delay))
        (sym (
          ap
            (λ b.
              if b then succeeded a s c effects else failed a true (or_message s.error) c effects)
            useless))
        (refl, refl)
]

with_sampler-IsDown :
    (a : Attempt) (up : Bool) (construction : Option Text) (c : Collector) (effects : List Effect)
    → is_bad a.preferred ≡ true
    → IsDown (a.later + retry_delay) (with_sampler a up construction c effects)
with_sampler-IsDown a true construction c effects bad =
    with_outcome-IsDown a a.preferred c (effects ++ asked ∷ []) bad
with_sampler-IsDown a false (some e) c effects bad = (refl, refl)
with_sampler-IsDown a false none c effects bad =
    with_outcome-IsDown a a.preferred c (effects ++ opened ∷ asked ∷ []) bad

sample-IsDown :
    (a : Attempt) (c : Collector)
    → (c.sampler || leb c.retry_at a.now) ≡ true
    → is_bad a.preferred ≡ true
    → IsDown (a.later + retry_delay) (sample_once a c)
sample-IsDown a c tries bad =
    subst (IsDown (a.later + retry_delay)) (sym (sample_once_lem a c _ _ refl refl))
      (by_due (is_due a c) (leb c.retry_at a.now) (due_reached (not (c.retry_at == 0)) _) tries)
  where
    due_reached : (b r : Bool) → (b && r) ≡ true → r ≡ true
    due_reached true r h = h
    due_reached false r h = cc

    by_due :
        (due reached : Bool)
        → (due ≡ true → reached ≡ true)
        → (c.sampler || reached) ≡ true
        → IsDown (a.later + retry_delay) (by_tests a c due reached)
    by_due true reached r h =
        subst (λ b. IsDown (a.later + retry_delay) (by_tests a c true b)) (sym (r refl))
          (with_sampler-IsDown a false a.construction _ _ bad)
    by_due false reached r h =
        subst
          (λ b.
            IsDown (a.later + retry_delay)
              (if b then with_sampler a c.sampler a.construction c [] else fall_back a c []))
          (sym h) (with_sampler-IsDown a c.sampler a.construction c [] bad)

-- When the preferred sampler is asked and fails, all calls before two minutes have passed ask the
-- fallback alone, once each, and leave alone what concerns the preferred sampler: its handle, which is
-- gone, its deadline and its error, and the settings.
pub failure-waits :
    (a : Attempt) (c : Collector) (as' : List Attempt)
    → (c.sampler || leb c.retry_at a.now) ≡ true
    → is_bad a.preferred ≡ true
    → All (λ (b : Attempt). b.now < a.later + retry_delay) as'
    → ((run (samples as') (sample_once a c).state).1 ≡ replicate (length as') fell_back)
      × ((sample_once a c).state.sampler ≡ false)
      × ((sample_once a c).state.retry_at ≡ a.later + retry_delay)
      × IsUndisturbed (sample_once a c).state (run (samples as') (sample_once a c).state).0
failure-waits a c as' tries bad early =
    let (down, at) = sample-IsDown a c tries bad in
    let (effects, rest) =
      run-Waits as' (sample_once a c).state down
        (subst (λ n. All (λ (b : Attempt). b.now < n) as') (sym at) early) in
    (effects, down, at, rest)

with_outcome-starts :
    (a : Attempt) (o : Outcome) (c : Collector) (effects : List Effect)
    → (rest : List Effect) × ((with_outcome a o c effects).effects ≡ effects ++ rest)
with_outcome-starts a (raised e) c effects =
    (closed ∷ fell_back ∷ [], append_assoc effects (closed ∷ []) (fell_back ∷ []))
with_outcome-starts a (sampled s) c effects = by_use (is_usable s)
  where
    by_use :
        (b : Bool)
        → (rest : List Effect) × ((if b
              then succeeded a s c effects
              else failed a true (or_message s.error) c effects).effects
            ≡ effects ++ rest)
    by_use true = ([], sym (append-nil effects))
    by_use false = (closed ∷ fell_back ∷ [], append_assoc effects (closed ∷ []) (fell_back ∷ []))

-- The first call at or after a deadline closes the sampler, if there is one, makes a new one and asks
-- it, if one can be made.
pub due-opens :
    (a : Attempt) (c : Collector)
    → 0 < c.retry_at
    → c.retry_at ≤ a.now
    → a.construction ≡ none
    → (rest : List Effect) × ((sample_once a c).effects
        ≡ close_effects c.sampler ++ (opened ∷ asked ∷ rest))
due-opens a c pending reached can =
    let now : leb c.retry_at a.now ≡ true = ground arith in
    let there : not (c.retry_at == 0) ≡ true = ground arith in
    let due : is_due a c ≡ true = rw (there, now) refl in
    let down = record c { sampler = false } in
    let before = close_effects c.sampler in
    let (rest, e) = with_outcome-starts a a.preferred down (before ++ opened ∷ asked ∷ []) in
    (
      rest,
      ap (λ (r : Result). r.effects) (sample_once_lem a c true true due now)
          ∙ ap (λ o. (with_sampler a false o down before).effects) can
          ∙ e
          ∙ append_assoc before (opened ∷ asked ∷ []) rest,
    )
