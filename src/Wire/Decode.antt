-- ===== src/Wire/Decode.antt =====
-- The decoder of a device (cluster.py: gpu_from_telemetry, _gpu_from_dict, _performance_from_dict,
-- _process_from_dict). `print` is `str` of a value that is not a text, and `parse` is `float` of a
-- text; `none` stands for what is raised.
use constella.Prelude.{
  Bool, true, false, ◌&&◌, Option, none, some, List, [], ◌∷◌, Text, text, strip, truthy,
  if◌then◌else◌,
}
use constella.Prelude.Dicts.{Dict, insert}
use constella.Telemetry.Rules.{
  Number, Value, number, infinite, not_a_number, NumericRule, accepts, whole, count_rule,
  optional_count, timestamp, default_rule, numeric_issues,
}
use constella.Wire.Json.{
  Json, null, bool, num, inf, nan, str, list, object, Fields, blank, entry, set_field, get,
  is_truthy, value_of, values_of, list_of, int_or_zero, str_of, str_or, is_null,
}
use constella.Wire.Data.{GpuProcess, OtherUserMemory}

-- PROCESS_METRIC_RULES and OWNER_METRIC_RULES
abbrev pub pid_rule : NumericRule
pid_rule = record default_rule { minimum = whole 1; integer = true }

abbrev pub process_metric_rules : Dict NumericRule
process_metric_rules =
    (text "pid", pid_rule)
    ∷ (text "gpu_memory_mb", count_rule)
    ∷ (text "ppid", optional_count)
    ∷ (text "user_uid", optional_count)
    ∷ (text "runtime_seconds", optional_count)
    ∷ (text "process_start_time", timestamp)
    ∷ (text "parent_start_time", timestamp)
    ∷ []

abbrev pub owner_metric_rules : Dict NumericRule
owner_metric_rules =
    (text "process_count", count_rule)
    ∷ (text "total_memory_mb", count_rule)
    ∷ (text "runtime_seconds", optional_count)
    ∷ []

abbrev pub no_issues : List Text → Bool
no_issues [] = true
no_issues (t ∷ ts) = false

-- The items of a value that should be a list; it is no list where the flag is set.
abbrev pub items : Option Json → List Json × Bool
items none = ([], false)
items (some null) = ([], true)
items (some (bool b)) = ([], true)
items (some (num n)) = ([], true)
items (some (inf negative)) = ([], true)
items (some nan) = ([], true)
items (some (str t)) = ([], true)
items (some (list js)) = (list_of js, false)
items (some (object d)) = ([], true)

abbrev pub fields_of : Json → Option Fields
fields_of null = none
fields_of (bool b) = none
fields_of (num n) = none
fields_of (inf negative) = none
fields_of nan = none
fields_of (str t) = none
fields_of (list js) = none
fields_of (object d) = some d

-- A list of entries, and whether one was omitted.
abbrev pub with_entry {ℓ} : {A : Type ℓ} → Option A → List A × Bool → List A × Bool
with_entry none (xs, omitted) = (xs, true)
with_entry (some x) (xs, omitted) = (x ∷ xs, omitted)

unfoldable pub each {ℓ} : {A : Type ℓ} → (Json → Option A) → List Json → List A × Bool
each f [] = ([], false)
each f (j ∷ js) = with_entry (f j) (each f js)

abbrev pub note : Bool → Text → Text → Dict Text → Dict Text
note b k message errors = if b then insert k message errors else errors

abbrev pub opt_int : Json → Option Number
opt_int j = if is_null j then none else some (int_or_zero j)

unfoldable pub texts_of : List Json → List Text
texts_of [] = []
texts_of (null ∷ js) = texts_of js
texts_of (bool b ∷ js) = texts_of js
texts_of (num n ∷ js) = texts_of js
texts_of (inf negative ∷ js) = texts_of js
texts_of (nan ∷ js) = texts_of js
texts_of (str t ∷ js) = let rest = texts_of js in if truthy (strip t) then strip t ∷ rest else rest
texts_of (list is ∷ js) = texts_of js
texts_of (object d ∷ js) = texts_of js

-- `dict_of`: the values of a dict, and nothing of a value that is none.
abbrev pub metrics_of_dict : Json → Dict Value
metrics_of_dict j = elim (fields_of j) [ none ↦ [] | some d ↦ values_of d ]

abbrev pub or_else {ℓ} : {A : Type ℓ} → Option A → A → A
or_else none a = a
or_else (some b) a = b

-- A metric whose reading the rules refuse counts as None.
unfoldable pub nulled : List Text → Fields → Fields
nulled [] d = d
nulled (name ∷ names) d = nulled names (set_field name null d)

unfoldable pub noted : List Text → Dict Text → Dict Text
noted [] errors = errors
noted (name ∷ names) errors =
    noted names (insert name (text "Invalid numeric reading; sample omitted") errors)

module _ (print : Json → Text) (parse : Text → Option Value) where
  unfoldable pub printed : List Json → List Text
  printed [] = []
  printed (j ∷ js) = str_of print j ∷ printed js

  unfoldable pub printed_fields : Fields → Dict Text
  printed_fields blank = []
  printed_fields (entry k v d) = (k, str_of print v) ∷ printed_fields d

  -- `float(j)`
  abbrev pub float_of : Json → Option Value
  float_of null = none
  float_of (bool true) = some (number (whole 1))
  float_of (bool false) = some (number (whole 0))
  float_of (num n) = some (number n)
  float_of (inf negative) = some (infinite negative)
  float_of nan = some not_a_number
  float_of (str t) = parse t
  float_of (list js) = none
  float_of (object d) = none

  abbrev pub float_or : Json → Option Value
  float_or j = if is_truthy j then float_of j else some (number (whole 0))

  -- `float(j) if j is not None else None`
  abbrev pub optional_float : Json → Option (Option Value)
  optional_float j =
      if is_null j then some none else elim (float_of j) [ none ↦ none | some v ↦ some (some v) ]

  abbrev pub process_from_dict : Fields → GpuProcess
  process_from_dict d = record {
    pid = int_or_zero (get (text "pid") d);
    name = str_or print (get (text "name") d) (text "?");
    gpu_memory_mb = int_or_zero (get (text "gpu_memory_mb") d);
    ppid = get (text "ppid") d;
    user = get (text "user") d;
    task_name = get (text "task_name") d;
    exe = get (text "exe") d;
    cmdline = get (text "cmdline") d;
    cmdline_hash = get (text "cmdline_hash") d;
    kind = str_or print (get (text "kind") d) (text "compute");
    runtime_seconds = get (text "runtime_seconds") d;
    process_start_time = get (text "process_start_time") d;
    parent_start_time = get (text "parent_start_time") d;
    detail_status = str_or print (get (text "detail_status") d) (text "unknown");
    detail_error = get (text "detail_error") d;
    user_uid = get (text "user_uid") d;
  }

  -- An entry of `processes`; `none` is an entry that is omitted.
  abbrev pub process_from_fields : Option Fields → Option GpuProcess
  process_from_fields none = none
  process_from_fields (some d) =
      if accepts pid_rule (value_of (get (text "pid") d))
        && no_issues (numeric_issues (values_of d) process_metric_rules)
      then some (process_from_dict d)
      else none

  abbrev pub owner_from_fields : Option Fields → Option OtherUserMemory
  owner_from_fields none = none
  owner_from_fields (some d) =
      if no_issues (numeric_issues (values_of d) owner_metric_rules)
      then some (record {
        user = str_or print (get (text "user") d) (text "?");
        process_count = int_or_zero (get (text "process_count") d);
        total_memory_mb = int_or_zero (get (text "total_memory_mb") d);
        runtime_seconds = get (text "runtime_seconds") d;
      })
      else none

  unfoldable pub process_entry : Json → Option GpuProcess
  process_entry j = process_from_fields (fields_of j)

  unfoldable pub owner_entry : Json → Option OtherUserMemory
  owner_entry j = owner_from_fields (fields_of j)
