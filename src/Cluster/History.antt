-- ===== src/Cluster/History.antt =====
-- `HistoryAccumulator` (cluster.py): four bounded series for each device.
use constella.Prelude.{ℕ, Option, none, some, List, [], ◌∷◌, ◌++◌, Text, recent, if◌then◌else◌}
use constella.Prelude.Dicts.{Dict, lookup, insert, erase}
use constella.Cluster.Data.{Gpu, Series}

-- `deque(maxlen=size).append(x)`
abbrev pub push : ℕ → List ℕ → ℕ → List ℕ
push size xs x = recent size (xs ++ x ∷ [])

abbrev pub empty_series : Series
empty_series = record { gpu = []; memory = []; power = []; temperature = [] }

abbrev pub or_empty : Option Series → Series
or_empty none = empty_series
or_empty (some x) = x

abbrev pub series_for : Text → Dict Series → Series
series_for k h = or_empty (lookup k h)

abbrev pub push_reading : ℕ → Series → Gpu → Series
push_reading size x g = record {
  gpu = push size x.gpu g.utilization;
  memory = push size x.memory g.memory_percent;
  power = push size x.power g.power_percent;
  temperature = push size x.temperature g.temperature;
}

-- One round of the loop of `update`.
unfoldable pub update_gpu : ℕ → Gpu → Dict Series → Dict Series
update_gpu size g h =
    if g.valid
    then insert g.gpu_id (push_reading size (series_for g.gpu_id h) g) h
    else erase g.gpu_id h

unfoldable pub update_history : ℕ → List Gpu → Dict Series → Dict Series
update_history size [] h = h
update_history size (g ∷ gpus) h = update_history size gpus (update_gpu size g h)

-- The dict starts empty, and a later device of the same id overwrites an entry with its equal.
unfoldable pub payload_from : List Gpu → Dict Series → Dict Series → Dict Series
payload_from [] h payload = payload
payload_from (g ∷ gpus) h payload =
    payload_from gpus h
      (elim (lookup g.gpu_id h) [ none ↦ payload | some x ↦ insert g.gpu_id x payload ])

abbrev pub payload_for_node : List Gpu → Dict Series → Dict Series
payload_for_node gpus h = payload_from gpus h []
