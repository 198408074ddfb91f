-- ===== src/Wire/Sends.antt =====
-- What the agent sends of a device whose supported metrics are those sent last, and what the manager
-- makes of it (agent.py, `SupportedMetricsDelta.apply`; cluster.py, `_gpu_from_dict`).
use constella.Prelude.{
  ◌≡◌, ◌==◌, refl, Bool, true, false, Option, none, some, List, [], ◌∷◌, ◌++◌, map, Text, text,
  text_eq, ap, ◌∙◌, sym, Bool-cases, inl, inr, if◌then◌else◌, text_eq_refl,
}
use constella.Telemetry.Rules.{Number, Value, whole}
use constella.Wire.Json.{
  Json, str, num, object, list, Fields, blank, entry, set_field, field, has, list_of, str_or,
  str_of,
}
use constella.Wire.Data.{AcceleratorPerformance, GpuInfo, post_init, distinct_texts}
use constella.Wire.Decode.{optional_float, texts_of}
use constella.Wire.Devices.{inherited}
use constella.Wire.Performances.{performance_from_dict, raw_performance, performance_at}
use constella.Wire.Encode.{
  performance_json, performance_fields, json_of, opt_value, values_json, opt_json, texts_json,
  gpu_fields_with, to_dict,
}
use constella.Wire.Sound.{IsWhole, str_or-str, IsSoundPerformance, IsSound}
use constella.Wire.Parts.{printed-texts, values_of-values}
use constella.Wire.Accepted.{
  float_or-json, optional_float-value, error-text, performance_from_dict-object,
}
use constella.Wire.Delta.{DeltaKey, Pass, key_of, visit, without, is_sent, sent_for, record_sent}

-- The dict of a performance without its supported metrics.
abbrev pub shorter_fields : AcceleratorPerformance → Fields
shorter_fields p = entry (text "profile") (str p.profile) (
    entry (text "status") (str p.status) (
      entry (text "sampled_at") (json_of p.sampled_at) (
        entry (text "interval_ms") (opt_value p.interval_ms) (
          entry (text "metrics") (object (values_json p.metrics)) (
            entry (text "error") (opt_json p.error)
              (entry (text "invalid_metrics") (list (texts_json p.invalid_metrics)) blank))))))

abbrev unlisted : AcceleratorPerformance → AcceleratorPerformance
unlisted p = record p { supported_metrics = [] }

unlisted-if :
    (b : Bool) (p : AcceleratorPerformance) (q : AcceleratorPerformance)
    → (if b then some p else none) ≡ some q
    → (if b then some (unlisted p) else none) ≡ some (unlisted q)
unlisted-if true p q h = cc
unlisted-if false p q h = cc

-- The constructor does not look at the supported metrics.
post_init-unlisted :
    (p : AcceleratorPerformance) → post_init p ≡ some p → post_init (unlisted p) ≡ some (unlisted p)
unfolding post_init
post_init-unlisted p h = unlisted-if _ _ p h

taken_over :
    (d : Fields) (x : GpuInfo) (p q : AcceleratorPerformance)
    → has (text "supported_metrics") d ≡ false
    → x.performance ≡ some q
    → q.profile ≡ p.profile
    → inherited (some d) (some x) (some p)
      ≡ some (record p { supported_metrics = q.supported_metrics })
taken_over d x p q absent last profile =
    let same : text_eq q.profile p.profile ≡ true = rw profile (text_eq_refl p.profile) in
    (λ i. inherited (some d) (some (record x { performance = last i })) (some p))
    ∙ rw (absent, same) refl

module _ (print : Json → Text) (parse : Text → Option Value) where
  raw_performance-shorter :
      (p : AcceleratorPerformance)
      → IsSoundPerformance p
      → raw_performance print parse p.profile p.status (shorter_fields p) ≡ some (unlisted p)
  unfolding field text_eq raw_performance texts_of distinct_texts
  raw_performance-shorter p h =
      ap
        (λ o.
          performance_at print parse p.profile p.status (shorter_fields p) o
            (optional_float print parse (opt_value p.interval_ms)))
        (float_or-json print parse p.sampled_at h.sampled)
      ∙ ap (performance_at print parse p.profile p.status (shorter_fields p) (some p.sampled_at))
          (optional_float-value print parse p.interval_ms h.interval)
      ∙ ap post_init (λ i. record {
        profile = p.profile;
        status = p.status;
        sampled_at = p.sampled_at;
        interval_ms = p.interval_ms;
        metrics = values_of-values p.metrics h.metrics i;
        supported_metrics = [];
        error = error-text print parse p.error h.error_text i;
        invalid_metrics = printed-texts print parse p.invalid_metrics i;
      })
      ∙ post_init-unlisted p h.made

  -- The list that was left out is that of the device's sample before.
  pub inherited-shorter :
      (p q : AcceleratorPerformance) (x : GpuInfo)
      → IsSoundPerformance p
      → x.performance ≡ some q
      → q.profile ≡ p.profile
      → q.supported_metrics ≡ p.supported_metrics
      → inherited
          (some (shorter_fields p))
          (some x)
          (performance_from_dict print parse (object (shorter_fields p)))
        ≡ some p
  inherited-shorter p q x h last profile listed =
      let decoded : performance_from_dict print parse (object (shorter_fields p))
          ≡ some (unlisted p) =
        performance_from_dict-object print parse (shorter_fields p) p (unlisted p) h
          (unfold field text_eq in refl) (unfold field text_eq in refl)
          (raw_performance-shorter p h) in
      ap (inherited (some (shorter_fields p)) (some x)) decoded
      ∙ taken_over (shorter_fields p) x (unlisted p) q (unfold field text_eq in refl) last profile
      ∙ ap (λ ts. some (record p { supported_metrics = ts })) listed

  -- The key of a device that is in its range.
  abbrev pub delta_key : GpuInfo → AcceleratorPerformance → DeltaKey
  delta_key g p = record { uuid = g.uuid; index = print (num g.index); profile = p.profile }

  index-text :
      (n : Number) → IsWhole n → str_or print (num n) (print (num (whole 0))) ≡ print (num n)
  index-text n (plain, whole_part) = elim (Bool-cases (n.millionths == 0)) [
    | inl nil ↦ rw nil (ap (λ m. print (num m)) (sym (plain nil)))
    | inr some_left ↦ rw some_left refl
  ]

  printed-list : (ts : List Text) → map (str_of print) (list_of (texts_json ts)) ≡ ts
  unfolding list_of texts_json
  printed-list [] = refl
  printed-list (t ∷ ts) = ap (λ us. t ∷ us) (printed-list ts)

  -- A turn of the loop, at a device with a performance.
  abbrev pub turn :
      Bool → DeltaKey → List Text → Json → Json → GpuInfo → AcceleratorPerformance → Pass → Pass
  turn same k current mp pp g p pass =
      if same
      then record {
        gpus = pass.gpus ++ object (gpu_fields_with (object (shorter_fields p)) mp pp g) ∷ [];
        previous = pass.previous;
        seen = k ∷ pass.seen;
      }
      else record {
        gpus = pass.gpus ++ object (gpu_fields_with (object (performance_fields p)) mp pp g) ∷ [];
        previous = record_sent k current pass.previous;
        seen = k ∷ pass.seen;
      }

  pub visit-some :
      (mp pp : Json) (g : GpuInfo) (p : AcceleratorPerformance) (pass : Pass)
      → IsSound g
      → IsSoundPerformance p
      → g.performance ≡ some p
      → visit print (to_dict mp pp g) pass
        ≡ turn
            (is_sent (sent_for (delta_key g p) pass.previous) p.supported_metrics)
            (delta_key g p)
            p.supported_metrics
            mp
            pp
            g
            p
            pass
  unfolding to_dict field set_field without text_eq
  visit-some mp pp g p pass h hp at_p =
      let d = gpu_fields_with (object (performance_fields p)) mp pp g in
      let key : key_of print (record {
        gpu = d;
        performance = performance_fields p;
        raw_metrics = list_of (texts_json p.supported_metrics);
      })
          ≡ delta_key g p =
        (λ i. record {
          uuid = str_or-str print g.uuid (text "unknown") h.uuid i;
          index = index-text g.index h.index_whole i;
          profile = str_or-str print p.profile [] hp.profile.1 i;
        }) in
      let listed = printed-list p.supported_metrics in
      ap (λ o. visit print (object (gpu_fields_with (performance_json o) mp pp g)) pass) at_p
      ∙ (λ i.
          turn (is_sent (sent_for (key i) pass.previous) (listed i)) (key i) (listed i) mp pp g p
            pass)

  pub visit-none :
      (mp pp : Json) (g : GpuInfo) (pass : Pass)
      → g.performance ≡ none
      → visit print (to_dict mp pp g) pass
        ≡ record pass { gpus = pass.gpus ++ to_dict mp pp g ∷ [] }
  unfolding to_dict field text_eq
  visit-none mp pp g pass at_none =
      ap (λ o. visit print (object (gpu_fields_with (performance_json o) mp pp g)) pass) at_none
      ∙ ap
          (λ o. record pass {
            gpus = pass.gpus ++ object (gpu_fields_with (performance_json o) mp pp g) ∷ [];
          })
          (sym at_none)
