-- ===== src/Wire/Received.antt =====
-- The fields of a sound device are decoded as they are sent (schema.py, `to_dict`; cluster.py,
-- `_gpu_from_dict`).
use constella.Prelude.{
  ℕ, ◌≡◌, refl, Bool, true, false, ◌&&◌, ◌||◌, Option, none, some, List, Text, text, text_eq, ap,
  ◌∙◌, if◌then◌else◌,
}
use constella.Prelude.Dicts.{insert}
use constella.Telemetry.Rules.{Number, Value, number, accepts, count_rule, whole}
use constella.Wire.Json.{Json, object, field, get, value_of, int_or_zero, str_or, is_null}
use constella.Wire.Data.{AcceleratorPerformance, GpuInfo}
use constella.Wire.Decode.{fields_of, nulled, noted, note, opt_int}
use constella.Wire.Devices.{
  inherited, gpu_from_dict, decoded, within_capacity, index_accepted, gpu_from_telemetry, global_id,
  opt_text, raw_index, over_capacity, previous_of, bare_gpu, sent_errors,
}
use constella.Wire.Performances.{performance_from_dict}
use constella.Wire.Encode.{performance_fields, performance_json, gpu_fields_with, opt_json, opt_num}
use constella.Wire.Sound.{
  IsWhole, float_or_zero-num, int_or_zero-num, str_or-str, IsSoundPerformance, OfSome, IsSound,
}
use constella.Wire.Parts.{each-processes, each-owners, printed_fields-errors, inherited-sent}
use constella.Wire.Accepted.{gpu-no_issues, performance_from_dict-json}

module _ (print : Json → Text) (parse : Text → Option Value) where
  opt_text-json : (o : Option Text) → opt_text print parse (opt_json o) ≡ o
  opt_text-json none = refl
  opt_text-json (some t) = refl

  opt_int-num :
      (o : Option Number)
      → OfSome (λ n. (accepts count_rule (number n) ≡ true) × IsWhole n) o
      → opt_int (opt_num o) ≡ o
  opt_int-num none h = refl
  opt_int-num (some n) h = ap some (int_or_zero-num n h.1)

  pub inherited-json :
      (o : Option AcceleratorPerformance) (previous : Option GpuInfo)
      → OfSome IsSoundPerformance o
      → inherited
          (fields_of (performance_json o))
          previous
          (performance_from_dict print parse (performance_json o))
        ≡ o
  inherited-json none previous h =
      ap (inherited none previous) (performance_from_dict-json print parse none h)
  inherited-json (some p) previous h =
      ap (inherited (some (performance_fields p)) previous)
        (performance_from_dict-json print parse (some p) h)
      ∙ inherited-sent (performance_fields p) previous (some p) (unfold field text_eq in refl)

  -- The device as the manager has it: of the node that sent it.
  abbrev pub received : Text → GpuInfo → GpuInfo
  received node_id g = record g {
    node_id = node_id;
    gpu_id = some (global_id print parse node_id g.uuid g.index);
  }

  gpu_from_dict-fields :
      (j mp pp : Json) (g : GpuInfo) (node_id : Text) (previous : Option GpuInfo)
      → IsSound g
      → inherited (fields_of j) previous (performance_from_dict print parse j) ≡ g.performance
      → gpu_from_dict print parse node_id (gpu_fields_with j mp pp g) previous g.telemetry_errors
        ≡ received node_id g
  unfolding gpu_from_dict field text_eq
  gpu_from_dict-fields j mp pp g node_id previous h kept =
      let processes = each-processes print parse g.processes h.processes in
      let owners = each-owners print parse g.other_users h.owners in
      λ i. record {
        index = int_or_zero-num g.index h.index_whole i;
        node_id = node_id;
        gpu_id = some (
            global_id print parse node_id (str_or-str print g.uuid (text "unknown") h.uuid i)
              (int_or_zero-num g.index h.index_whole i));
        device_type = str_or-str print g.device_type (text "nvidia") h.kind i;
        card_id = opt_text-json g.card_id i;
        die_id = opt_int-num g.die_id h.die i;
        uuid = str_or-str print g.uuid (text "unknown") h.uuid i;
        name = str_or-str print g.name (text "unknown") h.named i;
        pci_bus_id = g.pci_bus_id;
        utilization_gpu = int_or_zero-num g.utilization_gpu h.gpu.1 i;
        utilization_mem = int_or_zero-num g.utilization_mem h.mem.1 i;
        memory_total_mb = int_or_zero-num g.memory_total_mb h.total.1 i;
        memory_used_mb = int_or_zero-num g.memory_used_mb h.used.1 i;
        memory_free_mb = int_or_zero-num g.memory_free_mb h.free.1 i;
        temperature_c = int_or_zero-num g.temperature_c h.temperature.1 i;
        power_watts = float_or_zero-num g.power_watts h.power.1 i;
        power_limit_watts = float_or_zero-num g.power_limit_watts h.limit.1 i;
        clock_sm_mhz = g.clock_sm_mhz;
        clock_mem_mhz = g.clock_mem_mhz;
        max_clock_sm_mhz = g.max_clock_sm_mhz;
        max_clock_mem_mhz = g.max_clock_mem_mhz;
        pstate = g.pstate;
        compute_mode = g.compute_mode;
        mig_mode = g.mig_mode;
        ecc_mode = g.ecc_mode;
        performance = kept i;
        processes = (processes i).0;
        other_users = (owners i).0;
        error = g.error;
        telemetry_errors =
            note (owners i).1 (text "other_users")
              (text "Invalid process owner reading; affected entries omitted")
              (note (processes i).1 (text "processes")
                (text "Invalid process reading; affected entries omitted") g.telemetry_errors);
      }

  index-accepted :
      (j mp pp : Json) (g : GpuInfo) (fallback : ℕ)
      → IsSound g
      → index_accepted (gpu_fields_with j mp pp g) fallback ≡ true
  unfolding field text_eq
  index-accepted j mp pp g fallback h =
      ap (λ b. b && die_ok g.die_id) h.index ∙ by_die g.die_id h.die
    where
      die_ok : Option Number → Bool
      die_ok o = is_null (opt_num o) || accepts count_rule (value_of (opt_num o))

      by_die :
          (o : Option Number)
          → OfSome (λ n. (accepts count_rule (number n) ≡ true) × IsWhole n) o
          → die_ok o ≡ true
      by_die none d = refl
      by_die (some n) d = d.0

  within_capacity-fits : (x : GpuInfo) → over_capacity x ≡ false → within_capacity x ≡ x
  within_capacity-fits x e =
      ap
        (λ b.
          if b
          then record x {
            memory_used_mb = whole 0;
            telemetry_errors =
                insert (text "memory_used_mb")
                  (text "Memory usage exceeds capacity; sample omitted") x.telemetry_errors;
          }
          else x)
        e

  decoded-fields :
      (j mp pp : Json) (g : GpuInfo) (node_id : Text) (fallback : ℕ) (previous : List GpuInfo)
      → IsSound g
      → inherited
          (fields_of j)
          (previous_of g.uuid g.index previous)
          (performance_from_dict print parse j)
        ≡ g.performance
      → decoded print parse node_id (gpu_fields_with j mp pp g) g.telemetry_errors fallback previous
        ≡ received node_id g
  unfolding decoded
  decoded-fields j mp pp g node_id fallback previous h kept =
      let d = gpu_fields_with j mp pp g in
      let uuid = str_or print (get (text "uuid") d) (text "unknown") in
      let index = int_or_zero (raw_index d fallback) in
      let last = previous_of uuid index previous in
      let whole_index : int_or_zero (raw_index d fallback) ≡ g.index =
        unfold field text_eq in int_or_zero-num g.index h.index_whole in
      let same_uuid : uuid ≡ g.uuid =
        unfold field text_eq in str_or-str print g.uuid (text "unknown") h.uuid in
      let kept' : inherited (fields_of j) last (performance_from_dict print parse j)
          ≡ g.performance =
        ap (λ o. inherited (fields_of j) o (performance_from_dict print parse j))
          (λ i. previous_of (same_uuid i) (whole_index i) previous)
        ∙ kept in
      ap
        (λ b.
          if b
          then within_capacity
              (record (gpu_from_dict print parse node_id d last g.telemetry_errors) {
                index = index;
              })
          else bare_gpu (whole fallback) node_id uuid
              (str_or print (get (text "name") d) (text "unknown"))
              (text "Invalid GPU snapshot; sample isolated"))
        (index-accepted j mp pp g fallback h)
      ∙ (λ i. within_capacity (record (gpu_from_dict-fields j mp pp g node_id last h kept' i) {
        index = whole_index i;
      }))
      ∙ within_capacity-fits (received node_id g) h.fits

  -- A sound device whose performance is sent as j.
  pub gpu_from_telemetry-fields :
      (j mp pp : Json) (g : GpuInfo) (node_id : Text) (fallback : ℕ) (previous : List GpuInfo)
      → IsSound g
      → inherited
          (fields_of j)
          (previous_of g.uuid g.index previous)
          (performance_from_dict print parse j)
        ≡ g.performance
      → gpu_from_telemetry print parse node_id
          (object (gpu_fields_with j mp pp g))
          fallback
          previous
        ≡ received node_id g
  unfolding gpu_from_telemetry nulled noted field text_eq
  gpu_from_telemetry-fields j mp pp g node_id fallback previous h kept =
      let d = gpu_fields_with j mp pp g in
      ap
        (λ issues.
          decoded print parse node_id (nulled issues d)
            (noted issues (sent_errors print parse (fields_of (get (text "telemetry_errors") d))))
            fallback previous)
        (gpu-no_issues j mp pp g h)
      ∙ ap (λ errors. decoded print parse node_id d errors fallback previous)
          (printed_fields-errors print parse g.telemetry_errors)
      ∙ decoded-fields j mp pp g node_id fallback previous h kept
