-- ===== src/Wire/Parts.antt =====
-- The parts of a device are decoded as they are sent (schema.py, `to_dict`; cluster.py,
-- `gpu_from_telemetry`).
use constella.Prelude.{
  ◌≡◌, refl, true, false, Option, none, some, List, [], ◌∷◌, Text, text, text_eq, strip, truthy,
  All, ap,
}
use constella.Prelude.Dicts.{Dict, lookup}
use constella.Telemetry.Rules.{Value, accepts, numeric_issues}
use constella.Wire.Json.{Json, Fields, field, get, has, value_of, values_of, list_of}
use constella.Wire.Data.{GpuProcess, OtherUserMemory, AcceleratorPerformance, GpuInfo}
use constella.Wire.Decode.{
  process_metric_rules, each, process_entry, owner_entry, process_from_dict, texts_of, printed,
  printed_fields, pid_rule,
}
use constella.Wire.Devices.{inherited}
use constella.Wire.Encode.{
  process_fields, process_json, owner_json, processes_json, owners_json, texts_json, values_json,
  errors_json,
}
use constella.Wire.Sound.{int_or_zero-num, str_or-str, IsSoundProcess, IsSoundOwner, IsNumberValue}

pub process-no_issues :
    (p : GpuProcess)
    → IsSoundProcess p
    → numeric_issues (values_of (process_fields p)) process_metric_rules ≡ []
unfolding numeric_issues values_of lookup text_eq
process-no_issues p h = rw (h.pid, h.memory, h.ppid, h.uid, h.runtime, h.start, h.parent_start) refl

module _ (print : Json → Text) (parse : Text → Option Value) where
  process_from_dict-fields :
      (p : GpuProcess) → IsSoundProcess p → process_from_dict print parse (process_fields p) ≡ p
  unfolding field text_eq
  process_from_dict-fields p h = λ i. record {
    pid = int_or_zero-num p.pid h.pid_whole i;
    name = str_or-str print p.name (text "?") h.named i;
    gpu_memory_mb = int_or_zero-num p.gpu_memory_mb h.memory_whole i;
    ppid = p.ppid;
    user = p.user;
    task_name = p.task_name;
    exe = p.exe;
    cmdline = p.cmdline;
    cmdline_hash = p.cmdline_hash;
    kind = str_or-str print p.kind (text "compute") h.kind i;
    runtime_seconds = p.runtime_seconds;
    process_start_time = p.process_start_time;
    parent_start_time = p.parent_start_time;
    detail_status = str_or-str print p.detail_status (text "unknown") h.detail i;
    detail_error = p.detail_error;
    user_uid = p.user_uid;
  }

  process_entry-json :
      (p : GpuProcess) → IsSoundProcess p → process_entry print parse (process_json p) ≡ some p
  unfolding process_entry
  process_entry-json p h =
      let pid_ok : accepts pid_rule (value_of (get (text "pid") (process_fields p))) ≡ true =
        unfold field text_eq in h.pid in
      rw (pid_ok, process-no_issues p h) (ap some (process_from_dict-fields p h))

  owner_entry-json :
      (o : OtherUserMemory) → IsSoundOwner o → owner_entry print parse (owner_json o) ≡ some o
  unfolding owner_entry numeric_issues values_of lookup text_eq field
  owner_entry-json o h =
      rw (h.count, h.memory, h.runtime)
        (λ i. some (record {
          user = str_or-str print o.user (text "?") h.named i;
          process_count = int_or_zero-num o.process_count h.count_whole i;
          total_memory_mb = int_or_zero-num o.total_memory_mb h.memory_whole i;
          runtime_seconds = o.runtime_seconds;
        }))

  pub each-processes :
      (ps : List GpuProcess)
      → All IsSoundProcess ps
      → each (process_entry print parse) (list_of (processes_json ps)) ≡ (ps, false)
  unfolding each list_of processes_json
  each-processes [] h = refl
  each-processes (p ∷ ps) h = rw (process_entry-json p h.0, each-processes ps h.1) refl

  pub each-owners :
      (os : List OtherUserMemory)
      → All IsSoundOwner os
      → each (owner_entry print parse) (list_of (owners_json os)) ≡ (os, false)
  unfolding each list_of owners_json
  each-owners [] h = refl
  each-owners (o ∷ os) h = rw (owner_entry-json o h.0, each-owners os h.1) refl

  pub printed-texts : (ts : List Text) → printed print parse (list_of (texts_json ts)) ≡ ts
  unfolding printed list_of texts_json
  printed-texts [] = refl
  printed-texts (t ∷ ts) = ap (λ us. t ∷ us) (printed-texts ts)

  pub printed_fields-errors : (d : Dict Text) → printed_fields print parse (errors_json d) ≡ d
  unfolding printed_fields errors_json
  printed_fields-errors [] = refl
  printed_fields-errors ((k, t) ∷ d) = ap (λ e. (k, t) ∷ e) (printed_fields-errors d)

pub texts_of-texts :
    (ts : List Text)
    → All (λ t. (strip t ≡ t) × (truthy t ≡ true)) ts
    → texts_of (list_of (texts_json ts)) ≡ ts
unfolding texts_of list_of texts_json
texts_of-texts [] h = refl
texts_of-texts (t ∷ ts) ((trimmed, given), h) = rw (trimmed, given, texts_of-texts ts h) refl

pub values_of-values :
    (d : Dict Value)
    → All (λ (e : Text × Value). IsNumberValue e.1) d
    → values_of (values_json d) ≡ d
unfolding values_of values_json
values_of-values [] h = refl
values_of-values ((k, v) ∷ d) ((n, e), h) = rw (e, values_of-values d h) refl

-- A sent performance takes over nothing from the sample before.
pub inherited-sent :
    (d : Fields) (previous : Option GpuInfo) (p : Option AcceleratorPerformance)
    → has (text "supported_metrics") d ≡ true
    → inherited (some d) previous p ≡ p
inherited-sent d previous none h = refl
inherited-sent d none (some p) h = refl
inherited-sent d (some g) (some p) h = by_last g.performance h
  where
    by_last :
        (q : Option AcceleratorPerformance)
        → has (text "supported_metrics") d ≡ true
        → inherited (some d) (some (record g { performance = q })) (some p) ≡ some p
    by_last none e = refl
    by_last (some q) e = rw e refl
