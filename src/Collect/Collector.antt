-- ===== src/Collect/Collector.antt =====
-- `SnapshotCollector` (collector.py): the sampler's handle, the deadline of the next try and the
-- intervals. Times are whole microseconds; a deadline of 0 is none. What the samplers do in a call is
-- an argument: they call vendor libraries and processes.
use constella.Prelude.{
  ℕ, ◌+◌, ◌==◌, leb, max, Bool, true, false, not, ◌&&◌, ◌||◌, Option, none, some, List, [], ◌∷◌,
  ◌++◌, Text, text, truthy, any, if◌then◌else◌,
}
use constella.Prelude.Dicts.{Dict, insert}

-- What the test for a degraded device reads of one: whether it has an error or telemetry errors, and
-- of its performance, if it has one, whether the status is "error" and a metric is invalid; and what the
-- fallback keeps of it. A process stands by a text.
pub record Health : Type 0 where
  pub error : Bool
  pub telemetry_errors : Bool
  pub performance : Option (Bool × Bool)
  pub uuid : Text
  pub processes : List Text

pub record Snapshot : Type 0 where
  pub ok : Bool
  pub source : Text
  pub gpus : List Health
  pub error : Option Text

pub data Outcome : Type 0 where
  raised : Text → Outcome
  sampled : Snapshot → Outcome

-- One call of `_sample_once`: the clock at its start and after the sampler, whether the constructor
-- raises, and what the sampler does if it is asked; the clock before and after nvidia-smi, and what
-- nvidia-smi brings, of whether it reads the processes and of those read before; and for the fallback
-- of Ascend, whether its constructor raises and what it does.
pub record Attempt : Type 0 where
  pub now : ℕ
  pub later : ℕ
  pub construction : Option Text
  pub preferred : Outcome
  pub fallback_start : ℕ
  pub fallback_end : ℕ
  pub nvidia_smi : Bool → Dict (List Text) → Outcome
  pub npu_construction : Option Text
  pub npu_smi : Outcome

-- What a call does to the outside: a sampler is made, closed or asked, the fallback is asked.
pub data Effect : Type 0 where
  opened closed asked fell_back : Effect

pub record Collector : Type 0 where
  pub ascend : Bool
  pub sampler : Bool
  pub retry_at : ℕ
  pub preferred_error : Option Text
  pub refresh_interval : ℕ
  pub process_interval : ℕ
  pub woken : Bool
  pub npu_sampler : Bool
  pub fallback_processes : Dict (List Text)
  pub next_fallback_at : ℕ

-- PREFERRED_RETRY_SECONDS
abbrev pub retry_delay : ℕ
retry_delay = 120000000

abbrev pub second : ℕ
second = 1000000

-- `validate_refresh_interval`: its tolerance is less than a microsecond.
abbrev pub allowed : List ℕ
allowed = 500000 ∷ 1000000 ∷ 2000000 ∷ 5000000 ∷ []

unfoldable pub validate_refresh_interval : ℕ → Option ℕ
validate_refresh_interval seconds = if any (λ a. a == seconds) allowed then some seconds else none

-- `__init__`; `none` is a ValueError.
abbrev pub new_with : Bool → ℕ → Option ℕ → Option Collector
new_with ascend process none = none
new_with ascend process (some refresh) = some (record {
  ascend = ascend;
  sampler = false;
  retry_at = 0;
  preferred_error = none;
  refresh_interval = refresh;
  process_interval = max second process;
  woken = false;
  npu_sampler = false;
  fallback_processes = [];
  next_fallback_at = 0;
})

unfoldable pub new : Bool → ℕ → ℕ → Option Collector
new ascend refresh process = new_with ascend process (validate_refresh_interval refresh)

-- The property `process_interval`.
abbrev pub effective_interval : Collector → ℕ
effective_interval c = max c.process_interval c.refresh_interval

abbrev pub refreshed : Collector → Option ℕ → Collector
refreshed c none = c
refreshed c (some interval) =
    if interval == c.refresh_interval
    then c
    else record c { refresh_interval = interval; woken = true }

-- A ValueError leaves the collector as it is.
unfoldable pub set_refresh_interval : ℕ → Collector → Collector
set_refresh_interval seconds c = refreshed c (validate_refresh_interval seconds)

unfoldable pub set_process_interval : ℕ → Collector → Collector
set_process_interval seconds c = record c { process_interval = max second seconds }

-- `_close_preferred`
abbrev pub close_effects : Bool → List Effect
close_effects true = closed ∷ []
close_effects false = []

unfoldable pub close : Collector → Collector × List Effect
close c = (
  record c { sampler = false; retry_at = 0; preferred_error = none; npu_sampler = false },
  close_effects c.sampler,
)

abbrev pub bad_performance : Option (Bool × Bool) → Bool
bad_performance none = false
bad_performance (some (status_error, invalid)) = status_error || invalid

abbrev pub is_degraded : Snapshot → Bool
is_degraded s = any (λ g. g.error || (g.telemetry_errors || bad_performance g.performance)) s.gpus

abbrev pub no_gpus : List Health → Bool
no_gpus [] = true
no_gpus (g ∷ gs) = false

abbrev pub is_usable : Snapshot → Bool
is_usable s = s.ok && not (no_gpus s.gpus)

abbrev pub or_message : Option Text → Text
or_message none = text "preferred sampler returned no devices"
or_message (some t) = if truthy t then t else text "preferred sampler returned no devices"

abbrev pub shown : Option Text → Text
shown none = text "None"
shown (some e) = e

-- The snapshot where both fail; `e` is the fallback's exception.
abbrev pub error_snapshot : Bool → Option Text → Text → Snapshot
error_snapshot ascend preferred_error e = record {
  ok = false;
  source = text "none";
  gpus = [];
  error = some (
      (if ascend then text "ascend" else text "nvidia")
      ++ (text " preferred sampler failed: "
          ++ (shown preferred_error ++ (text "; fallback failed: " ++ e))));
}

-- The result of the fallback. That of nvidia-smi must have a device.
abbrev pub fallback_result : Bool → Option Text → Outcome → Snapshot
fallback_result ascend preferred_error (raised e) = error_snapshot ascend preferred_error e
fallback_result ascend preferred_error (sampled s) =
    if not ascend && no_gpus s.gpus
    then error_snapshot ascend preferred_error (text "nvidia-smi returned no devices")
    else s

-- The state, the snapshot and the effects of a call.
pub record Result : Type 0 where
  pub state : Collector
  pub snapshot : Snapshot
  pub effects : List Effect

-- The fallback of Ascend is made once and kept.
abbrev pub npu_after : Bool → Option Text → Bool
npu_after true construction = true
npu_after false none = true
npu_after false (some e) = false

abbrev pub npu_outcome : Bool → Option Text → Outcome → Outcome
npu_outcome true construction o = o
npu_outcome false none o = o
npu_outcome false (some e) o = raised e

-- `_sample_with_nvidia_smi`: the processes are read once in a process interval.
abbrev pub collects_processes : Attempt → Collector → Bool
collects_processes a c = leb c.next_fallback_at a.fallback_start

abbrev pub smi_outcome : Attempt → Collector → Outcome
smi_outcome a c = a.nvidia_smi (collects_processes a c) c.fallback_processes

-- `{gpu.uuid: gpu.processes for gpu in snapshot.gpus}`
unfoldable pub processes_by_uuid : List Health → Dict (List Text) → Dict (List Text)
processes_by_uuid [] d = d
processes_by_uuid (g ∷ gs) d = processes_by_uuid gs (insert g.uuid g.processes d)

-- Whether nvidia-smi is asked and brings processes, and the devices that it brings.
abbrev pub brought : Attempt → Collector → Option (List Health)
brought a c =
    if not c.ascend && collects_processes a c
    then (elim (smi_outcome a c) [ raised e ↦ none | sampled s ↦ some s.gpus ])
    else none

abbrev pub cached : Option (List Health) → Dict (List Text) → Dict (List Text)
cached none d = d
cached (some gs) d = processes_by_uuid gs []

abbrev pub put_off : Option (List Health) → ℕ → ℕ → ℕ
put_off none at next = at
put_off (some gs) at next = next

-- What the fallback writes.
abbrev pub fallback_state : Attempt → Collector → Collector
fallback_state a c = record c {
  npu_sampler = (if c.ascend then npu_after c.npu_sampler a.npu_construction else c.npu_sampler);
  fallback_processes = cached (brought a c) c.fallback_processes;
  next_fallback_at =
      put_off (brought a c) c.next_fallback_at (a.fallback_end + effective_interval c);
}

abbrev pub fallback_outcome : Attempt → Collector → Outcome
fallback_outcome a c =
    if c.ascend then npu_outcome c.npu_sampler a.npu_construction a.npu_smi else smi_outcome a c

abbrev pub fall_back : Attempt → Collector → List Effect → Result
fall_back a c effects = record {
  state = fallback_state a c;
  snapshot = fallback_result c.ascend c.preferred_error (fallback_outcome a c);
  effects = effects ++ fell_back ∷ [];
}

-- The handler of an exception: `open` says whether there is a sampler to close.
abbrev pub failed : Attempt → Bool → Text → Collector → List Effect → Result
failed a open_now e c effects =
    fall_back a
      (record c { sampler = false; preferred_error = some e; retry_at = a.later + retry_delay })
      (effects ++ close_effects open_now)

abbrev pub succeeded : Attempt → Snapshot → Collector → List Effect → Result
succeeded a s c effects = record {
  state = record c {
    sampler = true;
    preferred_error = none;
    retry_at =
        (if is_degraded s
          then (if (c.retry_at == 0) || leb c.retry_at a.now
              then a.later + retry_delay
              else c.retry_at)
          else 0);
  };
  snapshot = s;
  effects = effects;
}

abbrev pub with_outcome : Attempt → Outcome → Collector → List Effect → Result
with_outcome a (raised e) c effects = failed a true e c effects
with_outcome a (sampled s) c effects =
    if is_usable s then succeeded a s c effects else failed a true (or_message s.error) c effects

-- The sampler is made if there is none, and asked.
abbrev pub with_sampler : Attempt → Bool → Option Text → Collector → List Effect → Result
with_sampler a true construction c effects = with_outcome a a.preferred c (effects ++ asked ∷ [])
with_sampler a false (some e) c effects = failed a false e c effects
with_sampler a false none c effects = with_outcome a a.preferred c (effects ++ opened ∷ asked ∷ [])

-- Whether the deadline is there and over, so that the old sampler goes.
abbrev pub is_due : Attempt → Collector → Bool
is_due a c = not (c.retry_at == 0) && leb c.retry_at a.now

abbrev pub dropped : Attempt → Collector → Collector
dropped a c = record c { sampler = (if is_due a c then false else c.sampler) }

abbrev pub dropped_effects : Attempt → Collector → List Effect
dropped_effects a c = close_effects (is_due a c && c.sampler)

unfoldable pub sample_once : Attempt → Collector → Result
sample_once a c =
    let d = dropped a c in
    if d.sampler || leb d.retry_at a.now
    then with_sampler a d.sampler a.construction d (dropped_effects a c)
    else fall_back a d (dropped_effects a c)
