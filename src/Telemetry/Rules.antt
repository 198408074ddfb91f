-- ===== src/Telemetry/Rules.antt =====
-- `NumericRule`, the rules and what they are used for (telemetry.py). A finite number is a whole
-- number of millionths with a sign. `type(value) in (int, float)` holds of the numbers, infinities and
-- NaN, and of nothing else.
use constella.Prelude.{
  ℕ, ◌*◌, ◌^◌, ◌-◌, ◌%◌, Bool, true, false, not, ◌&&◌, ◌||◌, Option, none, some, List, [], ◌∷◌,
  Text, text, leb, ◌==◌, if◌then◌else◌,
}
use constella.Prelude.Dicts.{Dict, lookup, erase}

pub record Number : Type 0 where
  pub negative : Bool
  pub millionths : ℕ

pub data Value : Type 0 where
  missing : Value
  number : Number → Value
  infinite : Bool → Value
  not_a_number : Value
  other : Value

-- `a <= b`
abbrev pub at_most : Number → Number → Bool
at_most a b =
    if a.negative
    then if b.negative then leb b.millionths a.millionths else true
    else if b.negative
    then (a.millionths == 0) && (b.millionths == 0)
    else leb a.millionths b.millionths

abbrev pub million : ℕ
million = 1000000

abbrev pub whole : ℕ → Number
whole n = record { negative = false; millionths = n * million }

abbrev pub minus : ℕ → Number
minus m = record { negative = true; millionths = m }

-- The value of `3.4028234663852886e38`.
abbrev pub float32_max : ℕ
float32_max = 340282346638528859811704183484516925440

abbrev pub sqlite_int_max : ℕ
sqlite_int_max = 2 ^ 63 - 1

pub record NumericRule : Type 0 where
  pub minimum : Number
  pub maximum : Number
  pub integer : Bool
  pub optional : Bool

abbrev is_whole : Number → Bool
is_whole n = n.millionths % million == 0

unfoldable pub accepts : NumericRule → Value → Bool
accepts r missing = r.optional
accepts r (number n) = at_most r.minimum n && at_most n r.maximum && (not r.integer || is_whole n)
accepts r (infinite negative) = false
accepts r not_a_number = false
accepts r other = false

abbrev pub default_rule : NumericRule
default_rule = record {
  minimum = whole 0;
  maximum = whole sqlite_int_max;
  integer = false;
  optional = false;
}

abbrev pub count_rule : NumericRule
count_rule = record default_rule { integer = true }

abbrev pub optional_count : NumericRule
optional_count = record default_rule { integer = true; optional = true }

abbrev pub percent : NumericRule
percent = record default_rule { maximum = whole 100 }

abbrev pub reading : NumericRule
reading = record default_rule {
  minimum = minus (float32_max * million);
  maximum = whole float32_max;
}

abbrev pub timestamp : NumericRule
timestamp = record default_rule { maximum = whole 253402300799; optional = true }

abbrev pub sample_time : NumericRule
sample_time = record default_rule {
  minimum = record { negative = false; millionths = 1 };
  maximum = whole 253402300799;
}

abbrev pub interval : NumericRule
interval = record default_rule {
  minimum = record { negative = false; millionths = 1 };
  maximum = whole 86400;
}

abbrev pub gpu_metric_rules : Dict NumericRule
gpu_metric_rules =
    (text "utilization_gpu", percent)
    ∷ (text "utilization_mem", percent)
    ∷ (text "memory_total_mb", count_rule)
    ∷ (text "memory_used_mb", count_rule)
    ∷ (text "memory_free_mb", count_rule)
    ∷ (text "temperature_c", record default_rule { minimum = minus 273150000 })
    ∷ (text "power_watts", default_rule)
    ∷ (text "power_limit_watts", default_rule)
    ∷ (text "clock_sm_mhz", optional_count)
    ∷ (text "clock_mem_mhz", optional_count)
    ∷ (text "max_clock_sm_mhz", optional_count)
    ∷ (text "max_clock_mem_mhz", optional_count)
    ∷ []

-- `numeric_issues`, the names of which all have the same message.
unfoldable pub numeric_issues : Dict Value → Dict NumericRule → List Text
numeric_issues values [] = []
numeric_issues values ((name, rule) ∷ rules) =
    let rest = numeric_issues values rules in
    elim (lookup name values) [
      | none ↦ rest
      | some v ↦ if accepts rule v then rest else name ∷ rest
    ]

abbrev pub or_reading : Option NumericRule → NumericRule
or_reading none = reading
or_reading (some r) = r

-- `rules.get(name, READING).accepts(value)`
abbrev pub is_good : Dict NumericRule → Text → Value → Bool
is_good rules name v = accepts (or_reading (lookup name rules)) v

unfoldable pub invalid_names : Dict NumericRule → Dict Value → List Text
invalid_names rules [] = []
invalid_names rules ((name, v) ∷ metrics) =
    let rest = invalid_names rules metrics in if is_good rules name v then rest else name ∷ rest

unfoldable pub erase_all : List Text → Dict Value → Dict Value
erase_all [] metrics = metrics
erase_all (name ∷ names) metrics = erase_all names (erase name metrics)

abbrev pub without : List Text → Dict Value → Dict Value × List Text
without [] metrics = (metrics, [])
without (name ∷ names) metrics = (erase_all (name ∷ names) metrics, name ∷ names)

unfoldable pub filter_readings : Dict NumericRule → Dict Value → Dict Value × List Text
filter_readings rules metrics = without (invalid_names rules metrics) metrics
