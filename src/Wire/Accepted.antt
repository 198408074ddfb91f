-- ===== src/Wire/Accepted.antt =====
-- A sound device has no numeric issue, and its performance is decoded as it is sent (schema.py, `to_dict`; cluster.py,
-- `gpu_from_telemetry`).
use constella.Prelude.{
  ◌≡◌, ◌==◌, refl, true, Option, none, some, [], ◌∷◌, Text, text, text_eq, strip, truthy, All, ap,
  ◌∙◌, sym, Bool-cases, inl, inr, if◌then◌else◌,
}
use constella.Prelude.Dicts.{Dict, lookup}
use constella.Telemetry.Rules.{
  Number, Value, number, accepts, numeric_issues, gpu_metric_rules, NumericRule,
}
use constella.Wire.Json.{
  object, Fields, get, Json, num, str, field, values_of, str_or, str_of, is_truthy,
}
use constella.Wire.Data.{AcceleratorPerformance, GpuInfo, post_init, distinct_texts}
use constella.Wire.Decode.{float_or, optional_float}
use constella.Wire.Performances.{
  performance_from_dict, raw_performance, performance_at, performance_named,
}
use constella.Wire.Encode.{
  json_of, performance_fields, performance_json, gpu_fields_with, opt_json, opt_value,
}
use constella.Wire.Sound.{IsPlain, str_or-str, IsSoundPerformance, IsNumberValue, OfSome, IsSound}
use constella.Wire.Parts.{printed-texts, texts_of-texts, values_of-values}

-- Every rule that the values are held against accepts what they have.
abbrev AllAccepted : Dict Value → Dict NumericRule → Type 0
AllAccepted values rules =
    All
      (λ (e : Text × NumericRule).
        (v : Value) × (lookup e.0 values ≡ some v) × (accepts e.1 v ≡ true))
      rules

AllAccepted-no_issues :
    (values : Dict Value) (rules : Dict NumericRule)
    → AllAccepted values rules
    → numeric_issues values rules ≡ []
unfolding numeric_issues
AllAccepted-no_issues values [] h = refl
AllAccepted-no_issues values ((name, rule) ∷ rules) ((v, here, ok), h) =
    let rest = numeric_issues values rules in
    ap
      (λ (o : Option Value). elim o [
        | none ↦ rest
        | some w ↦ if accepts rule w then rest else name ∷ rest
      ])
      here
    ∙ ap (λ b. if b then rest else name ∷ rest) ok
    ∙ AllAccepted-no_issues values rules h

pub gpu-no_issues :
    (j mp pp : Json) (g : GpuInfo)
    → IsSound g
    → numeric_issues (values_of (gpu_fields_with j mp pp g)) gpu_metric_rules ≡ []
unfolding values_of lookup text_eq
gpu-no_issues j mp pp g h =
    AllAccepted-no_issues (values_of (gpu_fields_with j mp pp g)) gpu_metric_rules (
      (_, refl, h.gpu.0),
      (
        (_, refl, h.mem.0),
        (
          (_, refl, h.total.0),
          (
            (_, refl, h.used.0),
            (
              (_, refl, h.free.0),
              (
                (_, refl, h.temperature.0),
                (
                  (_, refl, h.power.0),
                  (
                    (_, refl, h.limit.0),
                    (
                      (_, refl, h.clock_sm),
                      (
                        (_, refl, h.clock_mem),
                        ((_, refl, h.max_clock_sm), ((_, refl, h.max_clock_mem), tt)),
                      ),
                    ),
                  ),
                ),
              ),
            ),
          ),
        ),
      ),
    )

module _ (print : Json → Text) (parse : Text → Option Value) where
  float_or-num : (n : Number) → IsPlain n → float_or print parse (num n) ≡ some (number n)
  float_or-num n plain = elim (Bool-cases (n.millionths == 0)) [
    | inl nil ↦ rw nil (ap (λ m. some (number m)) (sym (plain nil)))
    | inr some_left ↦ rw some_left refl
  ]

  pub float_or-json :
      (v : Value)
      → (n : Number) × (v ≡ number n) × IsPlain n
      → float_or print parse (json_of v) ≡ some v
  float_or-json v (n, e, plain) = rw e (float_or-num n plain)

  pub optional_float-value :
      (o : Option Value)
      → OfSome IsNumberValue o
      → optional_float print parse (opt_value o) ≡ some o
  optional_float-value none h = refl
  optional_float-value (some v) (n, e) = rw e refl

  pub error-text :
      (o : Option Text)
      → OfSome (λ t. truthy t ≡ true) o
      → (if is_truthy (opt_json o) then some (str_of print (opt_json o)) else none) ≡ o
  error-text none h = refl
  error-text (some t) h = rw h refl

  raw_performance-fields :
      (p : AcceleratorPerformance)
      → IsSoundPerformance p
      → raw_performance print parse p.profile p.status (performance_fields p) ≡ some p
  unfolding field text_eq raw_performance
  raw_performance-fields p h =
      ap
        (λ o.
          performance_at print parse p.profile p.status (performance_fields p) o
            (optional_float print parse (opt_value p.interval_ms)))
        (float_or-json p.sampled_at h.sampled)
      ∙ ap
          (performance_at print parse p.profile p.status (performance_fields p) (some p.sampled_at))
          (optional_float-value p.interval_ms h.interval)
      ∙ ap post_init (λ i. record {
        profile = p.profile;
        status = p.status;
        sampled_at = p.sampled_at;
        interval_ms = p.interval_ms;
        metrics = values_of-values p.metrics h.metrics i;
        supported_metrics =
            (ap (distinct_texts []) (texts_of-texts p.supported_metrics h.supported) ∙ h.once) i;
        error = error-text p.error h.error_text i;
        invalid_metrics = printed-texts print parse p.invalid_metrics i;
      })
      ∙ h.made

  -- Of a dict that has the profile and the status, and of what the rest of it gives.
  pub performance_from_dict-object :
      (d : Fields) (p q : AcceleratorPerformance)
      → IsSoundPerformance p
      → get (text "profile") d ≡ str p.profile
      → get (text "status") d ≡ str p.status
      → raw_performance print parse p.profile p.status d ≡ some q
      → performance_from_dict print parse (object d) ≡ some q
  unfolding performance_from_dict
  performance_from_dict-object d p q h profile_at status_at made =
      let profile : strip (str_or print (get (text "profile") d) []) ≡ p.profile =
        ap (λ j. strip (str_or print j [])) profile_at
        ∙ ap strip (str_or-str print p.profile [] h.profile.1)
        ∙ h.profile.0 in
      let status : strip (str_or print (get (text "status") d) []) ≡ p.status =
        ap (λ j. strip (str_or print j [])) status_at
        ∙ ap strip (str_or-str print p.status [] h.status.1)
        ∙ h.status.0 in
      (λ i. performance_named print parse (profile i) (status i) d)
      ∙ simp (h.profile.1, h.status.1, made) refl

  pub performance_from_dict-json :
      (o : Option AcceleratorPerformance)
      → OfSome IsSoundPerformance o
      → performance_from_dict print parse (performance_json o) ≡ o
  unfolding performance_from_dict
  performance_from_dict-json none h = refl
  performance_from_dict-json (some p) h =
      performance_from_dict-object (performance_fields p) p p h (unfold field text_eq in refl)
        (unfold field text_eq in refl) (raw_performance-fields p h)
