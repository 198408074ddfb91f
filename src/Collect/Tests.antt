-- ===== src/Collect/Tests.antt =====
-- The theorems on the collector at concrete inputs.
use constella.Prelude.{
  ℕ, ◌+◌, ◌≡◌, refl, true, false, none, some, List, [], ◌∷◌, ◌++◌, text, text_eq, replicate, arith,
}
use constella.Prelude.Dicts.{insert}
use constella.Collect.Collector.{
  Health, Snapshot, raised, sampled, Attempt, Effect, opened, closed, asked, fell_back, Collector,
  sample_once, processes_by_uuid, close_effects, close, set_refresh_interval, set_process_interval,
  validate_refresh_interval,
}
use constella.Collect.Handles.{track}
use constella.Collect.Runs.{Op, sample, refresh, process, stop, step, run, IsSettled, run-IsSettled}
use constella.Collect.Retry.{samples, IsUndisturbed, failure-waits, due-opens}

abbrev fresh : Collector
fresh = record {
  ascend = false;
  sampler = false;
  retry_at = 0;
  preferred_error = none;
  refresh_interval = 1000000;
  process_interval = 5000000;
  woken = false;
  npu_sampler = false;
  fallback_processes = [];
  next_fallback_at = 0;
}

abbrev device : Health
device = record {
  error = false;
  telemetry_errors = false;
  performance = some (false, false);
  uuid = text "GPU-0";
  processes = text "python" ∷ [];
}

abbrev healthy : Snapshot
healthy = record { ok = true; source = text "nvml"; gpus = device ∷ []; error = none }

abbrev failing : ℕ → Attempt
failing now = record {
  now = now;
  later = now + 1;
  construction = none;
  preferred = raised (text "driver lost");
  fallback_start = now + 1;
  fallback_end = now + 2;
  nvidia_smi = (λ collects before. sampled healthy);
  npu_construction = none;
  npu_smi = sampled healthy;
}

abbrev working : ℕ → Attempt
working now = record (failing now) { preferred = sampled healthy }

abbrev degraded : Collector
degraded = record fresh { sampler = true; retry_at = 7 }

fresh-IsSettled : IsSettled fresh
fresh-IsSettled = record { refresh_allowed = refl; process_slow = omega arith }

abbrev ops : List Op
ops =
    sample (working 1)
    ∷ refresh 300000
    ∷ sample (failing 2)
    ∷ process 0
    ∷ sample (working 3)
    ∷ stop
    ∷ []

run-IsSettled_example :
    (track false (run ops fresh).1 ≡ some (run ops fresh).0.sampler) × IsSettled (run ops fresh).0
run-IsSettled_example = run-IsSettled ops fresh fresh-IsSettled

effects_seen : (run ops fresh).1 ≡ opened ∷ asked ∷ asked ∷ closed ∷ fell_back ∷ fell_back ∷ []
unfolding run step sample_once close set_refresh_interval set_process_interval
    validate_refresh_interval
effects_seen = refl

failure-waits_example :
    ((run (samples (working 3 ∷ working 4 ∷ [])) (sample_once (failing 2) fresh).state).1
      ≡ replicate 2 fell_back)
    × ((sample_once (failing 2) fresh).state.sampler ≡ false)
    × ((sample_once (failing 2) fresh).state.retry_at ≡ 3 + 120000000)
    × IsUndisturbed
        (sample_once (failing 2) fresh).state
        (run (samples (working 3 ∷ working 4 ∷ [])) (sample_once (failing 2) fresh).state).0
failure-waits_example =
    failure-waits (failing 2) fresh (working 3 ∷ working 4 ∷ []) refl refl (omega arith)

due-opens_example :
    (rest : List Effect) × ((sample_once (working 9) degraded).effects
      ≡ close_effects true ++ (opened ∷ asked ∷ rest))
due-opens_example = due-opens (working 9) degraded (omega arith) (omega arith) refl

-- The fallback keeps the processes, and reads them again after a process interval.
processes_kept :
    (sample_once (failing 2) fresh).state.fallback_processes
    ≡ (text "GPU-0", text "python" ∷ []) ∷ []
unfolding sample_once processes_by_uuid insert text_eq
processes_kept = refl
