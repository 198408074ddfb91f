-- ===== src/Collect/Runs.antt =====
-- The sampler's handle and the settings over any calls (collector.py).
use constella.Prelude.{
  ℕ, ◌==◌, ◌≤◌, ◌≡◌, refl, leb, Bool, true, false, ◌||◌, Option, none, some, List, [], ◌∷◌, ◌++◌,
  Text, any, Bool-cases, inl, inr, ap, ◌∙◌, sym, subst, arith, eq_of_some, none_not_some,
  if◌then◌else◌,
}
use constella.Collect.Collector.{
  Attempt, Effect, opened, asked, Collector, Outcome, raised, sampled, Result, second, allowed,
  validate_refresh_interval, refreshed, set_refresh_interval, set_process_interval, close,
  is_usable, or_message, fall_back, failed, succeeded, with_outcome, with_sampler, dropped,
  dropped_effects, sample_once,
}
use constella.Collect.Handles.{track, track-append, track-close, IsTracked-sample_once}

-- What is called on a collector.
pub data Op : Type 0 where
  sample : Attempt → Op
  refresh process : ℕ → Op
  stop : Op

unfoldable pub step : Op → Collector → Collector × List Effect
step (sample a) c = ((sample_once a c).state, (sample_once a c).effects)
step (refresh seconds) c = (set_refresh_interval seconds c, [])
step (process seconds) c = (set_process_interval seconds c, [])
step stop c = close c

unfoldable pub run : List Op → Collector → Collector × List Effect
run [] c = (c, [])
run (o ∷ ops) c = let (d, effects) = step o c in let (e, more) = run ops d in (e, effects ++ more)

-- The refresh interval is one of those allowed, and processes are read at most once a second.
pub record IsSettled (c : Collector) : Type 0 where
  pub refresh_allowed : any (λ a. a == c.refresh_interval) allowed ≡ true
  pub process_slow : second ≤ c.process_interval

refreshed-IsSettled :
    (c : Collector) (o : Option ℕ)
    → ((s : ℕ) → o ≡ some s → any (λ a. a == s) allowed ≡ true)
    → IsSettled c
    → (IsSettled (refreshed c o)) × ((refreshed c o).sampler ≡ c.sampler)
refreshed-IsSettled c none ok h = (h, refl)
refreshed-IsSettled c (some s) ok h = elim (Bool-cases (s == c.refresh_interval)) [
  | inl same ↦ rw same (h, refl)
  | inr other ↦
      rw other (record { refresh_allowed = ok s refl; process_slow = h.process_slow }, refl)
]

validated :
    (seconds s : ℕ) → validate_refresh_interval seconds ≡ some s → any (λ a. a == s) allowed ≡ true
unfolding validate_refresh_interval
validated seconds s h = elim (Bool-cases (any (λ a. a == seconds) allowed)) [
  | inl known ↦
      let h' : some seconds ≡ some s = ap (λ b. if b then some seconds else none) (sym known) ∙ h in
      subst (λ n. any (λ a. a == n) allowed ≡ true) (eq_of_some h') known
  | inr unknown ↦
      let h' : none ≡ some s = ap (λ b. if b then some seconds else none) (sym unknown) ∙ h in
      absurd (none_not_some s h')
]

abbrev SameSettings : Collector → Result → Type 0
SameSettings c r =
    (r.state.refresh_interval ≡ c.refresh_interval)
    × (r.state.process_interval ≡ c.process_interval)

SameSettings-with_outcome :
    (a : Attempt) (o : Outcome) (c : Collector) (effects : List Effect)
    → SameSettings c (with_outcome a o c effects)
SameSettings-with_outcome a (raised e) c effects = (refl, refl)
SameSettings-with_outcome a (sampled s) c effects = by_use (is_usable s)
  where
    by_use :
        (b : Bool)
        → SameSettings c
            (if b then succeeded a s c effects else failed a true (or_message s.error) c effects)
    by_use true = (refl, refl)
    by_use false = (refl, refl)

SameSettings-with_sampler :
    (a : Attempt) (open_now : Bool) (construction : Option Text) (c : Collector)
    (effects : List Effect)
    → SameSettings c (with_sampler a open_now construction c effects)
SameSettings-with_sampler a true construction c effects =
    SameSettings-with_outcome a a.preferred c (effects ++ asked ∷ [])
SameSettings-with_sampler a false (some e) c effects = (refl, refl)
SameSettings-with_sampler a false none c effects =
    SameSettings-with_outcome a a.preferred c (effects ++ opened ∷ asked ∷ [])

SameSettings-sample_once : (a : Attempt) (c : Collector) → SameSettings c (sample_once a c)
unfolding sample_once
SameSettings-sample_once a c = by_test ((dropped a c).sampler || leb (dropped a c).retry_at a.now)
  where
    by_test :
        (b : Bool)
        → SameSettings c (
            if b
            then with_sampler a
                (dropped a c).sampler
                a.construction
                (dropped a c)
                (dropped_effects a c)
            else fall_back a (dropped a c) (dropped_effects a c))
    by_test true = SameSettings-with_sampler a _ a.construction (dropped a c) (dropped_effects a c)
    by_test false = (refl, refl)

step-IsSettled :
    (o : Op) (c : Collector)
    → IsSettled c
    → (track c.sampler (step o c).1 ≡ some (step o c).0.sampler) × IsSettled (step o c).0
unfolding step close set_refresh_interval set_process_interval track
step-IsSettled (sample a) c h =
    let (refresh_same, process_same) = SameSettings-sample_once a c in
    (
      IsTracked-sample_once a c,
      record {
        refresh_allowed = ap (λ n. any (λ b. b == n) allowed) refresh_same ∙ h.refresh_allowed;
        process_slow = subst (λ n. second ≤ n) (sym process_same) h.process_slow;
      },
    )
step-IsSettled (refresh seconds) c h =
    let (settled, same) =
      refreshed-IsSettled c (validate_refresh_interval seconds) (λ s. validated seconds s) h in
    (ap some (sym same), settled)
step-IsSettled (process seconds) c h =
    (refl, record { refresh_allowed = h.refresh_allowed; process_slow = omega arith })
step-IsSettled stop c h = (
  track-close c.sampler,
  record { refresh_allowed = h.refresh_allowed; process_slow = h.process_slow },
)

-- Whatever is called on a collector, and whatever the samplers do: no sampler is made while there is
-- one, none is closed or asked that is not there, and the collector has a sampler exactly if one has
-- been made and not closed. Its refresh interval stays one of those allowed, and its process interval
-- at least a second.
pub run-IsSettled :
    (ops : List Op) (c : Collector)
    → IsSettled c
    → (track c.sampler (run ops c).1 ≡ some (run ops c).0.sampler) × IsSettled (run ops c).0
unfolding run track
run-IsSettled [] c h = (refl, h)
run-IsSettled (o ∷ ops) c h =
    let (tracked, settled) = step-IsSettled o c h in
    let (later, in_the_end) = run-IsSettled ops (step o c).0 settled in
    (
      track-append c.sampler (step o c).1 (run ops (step o c).0).1 (step o c).0.sampler tracked
          ∙ later,
      in_the_end,
    )
