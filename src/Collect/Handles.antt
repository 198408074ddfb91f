-- ===== src/Collect/Handles.antt =====
-- The sampler's handle in a call of `_sample_once` (collector.py).
use constella.Prelude.{
  ◌≡◌, refl, leb, Bool, true, false, ◌&&◌, ◌||◌, Option, none, some, List, [], ◌∷◌, ◌++◌, Text,
  Bool-cases, inl, inr, ap, ◌∙◌, sym, subst, eq_of_some, none_not_some, if◌then◌else◌,
}
use constella.Collect.Collector.{
  Attempt, Effect, opened, closed, asked, fell_back, Collector, Outcome, raised, sampled, Result,
  close_effects, is_usable, or_message, fall_back, failed, succeeded, with_outcome, with_sampler,
  is_due, dropped, dropped_effects, sample_once,
}

-- What a reader of the effects knows of the sampler: `none` where one is made while there is one, or
-- one is closed or asked while there is none.
unfoldable pub track : Bool → List Effect → Option Bool
track up [] = some up
track true (opened ∷ effects) = none
track false (opened ∷ effects) = track true effects
track true (closed ∷ effects) = track false effects
track false (closed ∷ effects) = none
track true (asked ∷ effects) = track true effects
track false (asked ∷ effects) = none
track true (fell_back ∷ effects) = track true effects
track false (fell_back ∷ effects) = track false effects

pub track-append :
    (up : Bool) (xs ys : List Effect) (b : Bool)
    → track up xs ≡ some b
    → track up (xs ++ ys) ≡ track b ys
unfolding track
track-append up [] ys b h = ap (λ c. track c ys) (eq_of_some h)
track-append true (opened ∷ xs) ys b h = absurd (none_not_some b h)
track-append false (opened ∷ xs) ys b h = track-append true xs ys b h
track-append true (closed ∷ xs) ys b h = track-append false xs ys b h
track-append false (closed ∷ xs) ys b h = absurd (none_not_some b h)
track-append true (asked ∷ xs) ys b h = track-append true xs ys b h
track-append false (asked ∷ xs) ys b h = absurd (none_not_some b h)
track-append true (fell_back ∷ xs) ys b h = track-append true xs ys b h
track-append false (fell_back ∷ xs) ys b h = track-append false xs ys b h

-- The effects tell whether the collector has a sampler.
abbrev pub IsTracked : Bool → Result → Type 0
IsTracked up r = track up r.effects ≡ some r.state.sampler

pub track-close : (up : Bool) → track up (close_effects up) ≡ some false
unfolding track
track-close true = refl
track-close false = refl

IsTracked-failed :
    (up open_now : Bool) (a : Attempt) (e : Text) (c : Collector) (effects : List Effect)
    → track up effects ≡ some open_now
    → IsTracked up (failed a open_now e c effects)
unfolding track
IsTracked-failed up open_now a e c effects h =
    track-append up (effects ++ close_effects open_now) (fell_back ∷ []) false
      (track-append up effects (close_effects open_now) open_now h ∙ track-close open_now)

IsTracked-with_outcome :
    (up : Bool) (a : Attempt) (o : Outcome) (c : Collector) (effects : List Effect)
    → track up effects ≡ some true
    → IsTracked up (with_outcome a o c effects)
IsTracked-with_outcome up a (raised e) c effects h = IsTracked-failed up true a e c effects h
IsTracked-with_outcome up a (sampled s) c effects h = elim (Bool-cases (is_usable s)) [
  | inl usable ↦
      subst (IsTracked up)
        (sym (
          ap
            (λ b.
              if b then succeeded a s c effects else failed a true (or_message s.error) c effects)
            usable))
        h
  | inr useless ↦
      subst (IsTracked up)
        (sym (
          ap
            (λ b.
              if b then succeeded a s c effects else failed a true (or_message s.error) c effects)
            useless))
        (IsTracked-failed up true a (or_message s.error) c effects h)
]

IsTracked-with_sampler :
    (up open_now : Bool) (a : Attempt) (construction : Option Text) (c : Collector)
    (effects : List Effect)
    → track up effects ≡ some open_now
    → IsTracked up (with_sampler a open_now construction c effects)
unfolding track
IsTracked-with_sampler up true a construction c effects h =
    IsTracked-with_outcome up a a.preferred c (effects ++ asked ∷ [])
      (track-append up effects (asked ∷ []) true h)
IsTracked-with_sampler up false a (some e) c effects h = IsTracked-failed up false a e c effects h
IsTracked-with_sampler up false a none c effects h =
    IsTracked-with_outcome up a a.preferred c (effects ++ opened ∷ asked ∷ [])
      (track-append up effects (opened ∷ asked ∷ []) false h)

track-dropped :
    (a : Attempt) (c : Collector)
    → track c.sampler (dropped_effects a c) ≡ some (dropped a c).sampler
track-dropped a c = by_due (is_due a c) c.sampler
  where
    by_due :
        (due up : Bool) → track up (close_effects (due && up)) ≡ some (if due then false else up)
    by_due true up = track-close up
    by_due false true = unfold track in refl
    by_due false false = unfold track in refl

pub IsTracked-sample_once : (a : Attempt) (c : Collector) → IsTracked c.sampler (sample_once a c)
unfolding sample_once track
IsTracked-sample_once a c = by_test ((dropped a c).sampler || leb (dropped a c).retry_at a.now)
  where
    track-fell_back : (up : Bool) → track up (fell_back ∷ []) ≡ some up
    track-fell_back true = refl
    track-fell_back false = refl

    by_test :
        (b : Bool)
        → IsTracked c.sampler (
            if b
            then with_sampler a
                (dropped a c).sampler
                a.construction
                (dropped a c)
                (dropped_effects a c)
            else fall_back a (dropped a c) (dropped_effects a c))
    by_test true =
        IsTracked-with_sampler c.sampler (dropped a c).sampler a a.construction (dropped a c)
          (dropped_effects a c) (track-dropped a c)
    by_test false =
        track-append c.sampler (dropped_effects a c) (fell_back ∷ []) (dropped a c).sampler
          (track-dropped a c)
        ∙ track-fell_back (dropped a c).sampler
