-- ===== src/Wire/Performances.antt =====
-- The decoder of a performance reading (cluster.py: _performance_from_dict).
use constella.Prelude.{◌&&◌, Option, none, some, [], Text, text, strip, truthy, if◌then◌else◌}
use constella.Telemetry.Rules.{Value, number, whole}
use constella.Wire.Json.{Json, Fields, field, get, is_truthy, str_of, str_or}
use constella.Wire.Data.{AcceleratorPerformance, post_init, distinct_texts}
use constella.Wire.Decode.{
  items, fields_of, texts_of, metrics_of_dict, or_else, printed, float_or, optional_float,
}

abbrev pub isolated_performance : Text → AcceleratorPerformance
isolated_performance profile = record {
  profile = profile;
  status = text "error";
  sampled_at = number (whole 0);
  interval_ms = none;
  metrics = [];
  supported_metrics = [];
  error = some (text "Invalid performance metadata; sample isolated");
  invalid_metrics = [];
}

module _ (print : Json → Text) (parse : Text → Option Value) where
  -- The constructor's call; the times are those that `float` makes, where it makes any.
  abbrev pub performance_at :
      Text → Text → Fields → Option Value → Option (Option Value) → Option AcceleratorPerformance
  performance_at profile status d none interval = none
  performance_at profile status d (some sampled_at) none = none
  performance_at profile status d (some sampled_at) (some interval_ms) = post_init (record {
    profile = profile;
    status = status;
    sampled_at = sampled_at;
    interval_ms = interval_ms;
    metrics = metrics_of_dict (get (text "metrics") d);
    supported_metrics =
        distinct_texts [] (texts_of (items (some (get (text "supported_metrics") d))).0);
    error =
        (if is_truthy (get (text "error") d)
          then some (str_of print (get (text "error") d))
          else none);
    invalid_metrics = printed print parse (items (field (text "invalid_metrics") d)).0;
  })

  unfoldable pub raw_performance : Text → Text → Fields → Option AcceleratorPerformance
  raw_performance profile status d =
      performance_at profile status d (float_or print parse (get (text "sampled_at") d))
        (optional_float print parse (get (text "interval_ms") d))

  abbrev pub performance_named : Text → Text → Fields → Option AcceleratorPerformance
  performance_named profile status d =
      if truthy profile && truthy status
      then some (or_else (raw_performance profile status d) (isolated_performance profile))
      else none

  abbrev pub performance_from_fields : Option Fields → Option AcceleratorPerformance
  performance_from_fields none = none
  performance_from_fields (some d) =
      performance_named (strip (str_or print (get (text "profile") d) []))
        (strip (str_or print (get (text "status") d) [])) d

  unfoldable pub performance_from_dict : Json → Option AcceleratorPerformance
  performance_from_dict j = performance_from_fields (fields_of j)
