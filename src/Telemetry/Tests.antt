-- ===== src/Telemetry/Tests.antt =====
-- The filter at a concrete input.
use constella.Prelude.{◌≡◌, refl, [], ◌∷◌, text, text_eq}
use constella.Prelude.Dicts.{Dict, lookup}
use constella.Telemetry.Rules.{
  Value, number, not_a_number, whole, filter_readings, gpu_metric_rules,
}
use constella.Telemetry.Filter.{AreDistinct, good_only, is_bad, has_name, filter_readings-good}

abbrev metrics : Dict Value
metrics =
    (text "utilization_gpu", number (whole 120))
    ∷ (text "power_watts", number (whole 300))
    ∷ (text "sm_occupancy", not_a_number)
    ∷ []

metrics-AreDistinct : AreDistinct metrics
unfolding AreDistinct text_eq
metrics-AreDistinct = (refl, (refl, (refl, tt)))

filter_readings-good_example :
    (lookup (text "utilization_gpu") (filter_readings gpu_metric_rules metrics).0
      ≡ good_only gpu_metric_rules
          (text "utilization_gpu")
          (lookup (text "utilization_gpu") metrics))
    × (has_name (text "utilization_gpu") (filter_readings gpu_metric_rules metrics).1
        ≡ is_bad gpu_metric_rules
            (text "utilization_gpu")
            (lookup (text "utilization_gpu") metrics))
filter_readings-good_example =
    filter_readings-good gpu_metric_rules metrics metrics-AreDistinct (text "utilization_gpu")
