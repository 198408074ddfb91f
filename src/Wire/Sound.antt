-- ===== src/Wire/Sound.antt =====
-- What a device that a sampler has checked is like (schema.py, `validate_readings`, `__post_init__`).
use constella.Prelude.{
  Bool, ℕ, ◌*◌, ◌%◌, ◌==◌, ◌≡◌, refl, true, false, Option, none, some, [], Text, strip, truthy, All,
  ap, ◌∙◌, sym, Bool-cases, inl, inr, arith, if◌then◌else◌,
}
use constella.Telemetry.Rules.{
  Number, Value, number, accepts, whole, million, percent, count_rule, optional_count, timestamp,
  default_rule, minus,
}
use constella.Wire.Json.{
  Json, null, bool, inf, nan, list, object, num, str, value_of, truncated, float_or_zero,
  int_or_zero, str_or,
}
use constella.Wire.Data.{
  GpuProcess, OtherUserMemory, AcceleratorPerformance, GpuInfo, post_init, distinct_texts,
}
use constella.Wire.Decode.{pid_rule}
use constella.Wire.Devices.{over_capacity}

-- The zero of floats is not -0.0.
abbrev pub IsPlain : Number → Type 0
IsPlain n = (n.millionths == 0) ≡ true → n ≡ whole 0

abbrev pub IsWhole : Number → Type 0
IsWhole n = IsPlain n × (n.millionths % million ≡ 0)

pub float_or_zero-num : (n : Number) → IsPlain n → float_or_zero (num n) ≡ n
float_or_zero-num n plain = elim (Bool-cases (n.millionths == 0)) [
  | inl nil ↦ ap (λ b. if b then whole 0 else n) nil ∙ sym (plain nil)
  | inr some_left ↦ ap (λ b. if b then whole 0 else n) some_left
]

truncated-whole : (n : Number) → n.millionths % million ≡ 0 → truncated n ≡ n
truncated-whole n h = ap (λ (m : ℕ). record n { millionths = m }) (omega arith)

pub int_or_zero-num : (n : Number) → IsWhole n → int_or_zero (num n) ≡ n
int_or_zero-num n (plain, whole_part) =
    ap truncated (float_or_zero-num n plain) ∙ truncated-whole n whole_part

pub str_or-str : (print : Json → Text) (t d : Text) → truthy t ≡ true → str_or print (str t) d ≡ t
str_or-str print t d h = rw h refl

abbrev pub is_text_or_null : Json → Bool
is_text_or_null null = true
is_text_or_null (bool b) = false
is_text_or_null (num n) = false
is_text_or_null (inf negative) = false
is_text_or_null nan = false
is_text_or_null (str t) = true
is_text_or_null (list js) = false
is_text_or_null (object d) = false

pub record IsSoundProcess (p : GpuProcess) : Type 0 where
  pub pid : accepts pid_rule (number p.pid) ≡ true
  pub pid_whole : IsWhole p.pid
  pub memory : accepts count_rule (number p.gpu_memory_mb) ≡ true
  pub memory_whole : IsWhole p.gpu_memory_mb
  pub ppid : accepts optional_count (value_of p.ppid) ≡ true
  pub uid : accepts optional_count (value_of p.user_uid) ≡ true
  pub runtime : accepts optional_count (value_of p.runtime_seconds) ≡ true
  pub start : accepts timestamp (value_of p.process_start_time) ≡ true
  pub parent_start : accepts timestamp (value_of p.parent_start_time) ≡ true
  pub named : truthy p.name ≡ true
  pub kind : truthy p.kind ≡ true
  pub detail : truthy p.detail_status ≡ true
  pub user : is_text_or_null p.user ≡ true
  pub exe : is_text_or_null p.exe ≡ true

pub record IsSoundOwner (o : OtherUserMemory) : Type 0 where
  pub named : truthy o.user ≡ true
  pub count : accepts count_rule (number o.process_count) ≡ true
  pub count_whole : IsWhole o.process_count
  pub memory : accepts count_rule (number o.total_memory_mb) ≡ true
  pub memory_whole : IsWhole o.total_memory_mb
  pub runtime : accepts optional_count (value_of o.runtime_seconds) ≡ true

abbrev pub IsNumberValue : Value → Type 0
IsNumberValue v = (n : Number) × (v ≡ number n)

abbrev pub OfSome {ℓ} : {A : Type ℓ} → (A → Type 0) → Option A → Type 0
OfSome P none = Unit
OfSome P (some a) = P a

-- A value that its constructor has made, with names that need no trimming.
pub record IsSoundPerformance (p : AcceleratorPerformance) : Type 0 where
  pub made : post_init p ≡ some p
  pub profile : (strip p.profile ≡ p.profile) × (truthy p.profile ≡ true)
  pub status : (strip p.status ≡ p.status) × (truthy p.status ≡ true)
  pub sampled : (n : Number) × (p.sampled_at ≡ number n) × IsPlain n
  pub interval : OfSome IsNumberValue p.interval_ms
  pub metrics : All (λ (e : Text × Value). IsNumberValue e.1) p.metrics
  pub supported : All (λ t. (strip t ≡ t) × (truthy t ≡ true)) p.supported_metrics
  pub once : distinct_texts [] p.supported_metrics ≡ p.supported_metrics
  pub error_text : OfSome (λ t. truthy t ≡ true) p.error

pub record IsSound (g : GpuInfo) : Type 0 where
  pub index : accepts count_rule (number g.index) ≡ true
  pub index_whole : IsWhole g.index
  pub die : OfSome (λ n. (accepts count_rule (number n) ≡ true) × IsWhole n) g.die_id
  pub kind : truthy g.device_type ≡ true
  pub uuid : truthy g.uuid ≡ true
  pub named : truthy g.name ≡ true
  pub gpu : (accepts percent (number g.utilization_gpu) ≡ true) × IsWhole g.utilization_gpu
  pub mem : (accepts percent (number g.utilization_mem) ≡ true) × IsWhole g.utilization_mem
  pub total : (accepts count_rule (number g.memory_total_mb) ≡ true) × IsWhole g.memory_total_mb
  pub used : (accepts count_rule (number g.memory_used_mb) ≡ true) × IsWhole g.memory_used_mb
  pub free : (accepts count_rule (number g.memory_free_mb) ≡ true) × IsWhole g.memory_free_mb
  pub temperature :
      (accepts (record default_rule { minimum = minus 273150000 }) (number g.temperature_c) ≡ true)
      × IsWhole g.temperature_c
  pub power : (accepts default_rule (number g.power_watts) ≡ true) × IsPlain g.power_watts
  pub limit :
      (accepts default_rule (number g.power_limit_watts) ≡ true) × IsPlain g.power_limit_watts
  pub clock_sm : accepts optional_count (value_of g.clock_sm_mhz) ≡ true
  pub clock_mem : accepts optional_count (value_of g.clock_mem_mhz) ≡ true
  pub max_clock_sm : accepts optional_count (value_of g.max_clock_sm_mhz) ≡ true
  pub max_clock_mem : accepts optional_count (value_of g.max_clock_mem_mhz) ≡ true
  pub fits : over_capacity g ≡ false
  pub performance : OfSome IsSoundPerformance g.performance
  pub processes : All IsSoundProcess g.processes
  pub owners : All IsSoundOwner g.other_users

pub IsWhole-whole : (n : ℕ) → IsWhole (whole n)
IsWhole-whole n = (
  (λ h.
      let nil : n * million ≡ 0 * million = ground arith in
      ap (λ (m : ℕ). record { negative = false; millionths = m }) nil),
  omega arith,
)
