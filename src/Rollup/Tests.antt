-- ===== src/Rollup/Tests.antt =====
-- The theorem on the averages at a concrete input.
use constella.Prelude.{◌≡◌, false, List, [], ◌∷◌, Text, text}
use constella.Telemetry.Rules.{Value, number, infinite, whole}
use constella.Rollup.Bucket.{Performance, new, to_row}
use constella.Rollup.Totals.{columns_of, to_row-columns_of}
use constella.Rollup.Held.{add_all, values_of}

abbrev sm_active : Text
sm_active = text "nvidia.gpm.sm_active"

abbrev performance : Text → Value → Performance
performance status v = record {
  profile = text "nvidia.gpm.v1";
  status = status;
  metrics = (sm_active, v) ∷ [];
}

abbrev performances : List Performance
performances =
    performance (text "available") (number (whole 40))
    ∷ performance (text "warming") (number (whole 50))
    ∷ performance (text "available") (infinite false)
    ∷ performance (text "available") (number (whole 60))
    ∷ []

to_row-columns_of_example :
    to_row sm_active (add_all performances new) ≡ columns_of (values_of sm_active performances)
to_row-columns_of_example = to_row-columns_of sm_active performances
