-- ===== src/Rollup/Bucket.antt =====
-- `NvidiaGpmRollupBucket` (performance_rollup.py). The rules accept no negative value, so that sums and
-- maxima are whole numbers of millionths; an average is the sum and the count it is divided by.
use constella.Prelude.{
  ℕ, ◌+◌, ◌==◌, max, Option, none, some, [], ◌∷◌, Text, text, text_eq, if◌then◌else◌,
}
use constella.Prelude.Dicts.{Dict, lookup, insert}
use constella.Telemetry.Rules.{
  Value, missing, number, infinite, not_a_number, other, NumericRule, accepts,
}
use constella.Gpm.Ring.{gpm_metrics}
use constella.Gpm.Cache.{gpm_profile}

-- What the bucket reads of an AcceleratorPerformance.
pub record Performance : Type 0 where
  pub profile : Text
  pub status : Text
  pub metrics : Dict Value

-- `bucket_start`, `node_id` and `gpu_uuid` are taken over into the row as they are.
pub record Bucket : Type 0 where
  pub expected_count : ℕ
  pub sums : Dict ℕ
  pub maxima : Dict ℕ
  pub counts : Dict ℕ

abbrev pub new : Bucket
new = record { expected_count = 0; sums = []; maxima = []; counts = [] }

-- The value that a rule accepts, in millionths. A metric has a column exactly if it has a rule, and
-- the column's name is its own without a prefix.
abbrev pub millionths_of : NumericRule → Value → Option ℕ
millionths_of rule missing = none
millionths_of rule (number n) = if accepts rule (number n) then some n.millionths else none
millionths_of rule (infinite negative) = none
millionths_of rule not_a_number = none
millionths_of rule other = none

abbrev pub under : Option NumericRule → Value → Option ℕ
under none v = none
under (some rule) v = millionths_of rule v

abbrev pub or_zero : Option ℕ → ℕ
or_zero none = 0
or_zero (some n) = n

abbrev pub or_value : ℕ → Option ℕ → ℕ
or_value v none = v
or_value v (some n) = n

abbrev pub count_in : Text → Option ℕ → Bucket → Bucket
count_in metric none b = b
count_in metric (some v) b = record b {
  sums = insert metric (or_zero (lookup metric b.sums) + v) b.sums;
  maxima = insert metric (max (or_value v (lookup metric b.maxima)) v) b.maxima;
  counts = insert metric (or_zero (lookup metric b.counts) + 1) b.counts;
}

unfoldable pub add_metrics : Dict Value → Bucket → Bucket
add_metrics [] b = b
add_metrics ((metric, v) ∷ metrics) b =
    add_metrics metrics (count_in metric (under (lookup metric gpm_metrics) v) b)

unfoldable pub add : Performance → Bucket → Bucket
add p b =
    let counted = record b { expected_count = b.expected_count + 1 } in
    let added = add_metrics p.metrics counted in
    if text_eq p.profile gpm_profile
    then if text_eq p.status (text "unsupported")
      then b
      else if text_eq p.status (text "available")
      then added
      else counted
    else b

-- The columns of a metric in `to_row`: the average as a sum and a count, the maximum and the count.
pub record Columns : Type 0 where
  pub average : Option (ℕ × ℕ)
  pub maximum : Option ℕ
  pub count : ℕ

unfoldable pub to_row : Text → Bucket → Columns
to_row metric b =
    let count = or_zero (lookup metric b.counts) in
    record {
      average = (if count == 0 then none else some (or_zero (lookup metric b.sums), count));
      maximum = (if count == 0 then none else lookup metric b.maxima);
      count = count;
    }
