-- ===== src/Cluster/Series.antt =====
-- The history that `HistoryAccumulator` builds (cluster.py, `update`, `_series_for`), against the
-- readings that came in.
use constella.Prelude.{
  ℕ, ◌≡◌, refl, true, List, [], ◌∷◌, ◌++◌, map, Text, text_eq, recent, recent-append, recent-empty,
  if◌then◌else◌, Bool-cases, inl, inr, text_eq→eq, sym, ◌∙◌,
}
use constella.Prelude.Dicts.{Dict, lookup, lookup-insert, lookup-erase}
use constella.Cluster.Data.{Gpu, Series}
use constella.Cluster.History.{
  push, empty_series, series_for, push_reading, update_gpu, update_history,
}

-- The readings of a device that count: the valid ones since its last invalid one. `before` holds
-- those of earlier rounds.
unfoldable pub valid_run : Text → List Gpu → List Gpu → List Gpu
valid_run k before [] = before
valid_run k before (g ∷ gpus) =
    valid_run k (if text_eq g.gpu_id k then (if g.valid then before ++ g ∷ [] else []) else before)
      gpus

abbrev pub utilization_of : Gpu → ℕ
utilization_of g = g.utilization

abbrev pub memory_of : Gpu → ℕ
memory_of g = g.memory_percent

abbrev pub power_of : Gpu → ℕ
power_of g = g.power_percent

abbrev pub temperature_of : Gpu → ℕ
temperature_of g = g.temperature

-- The series that shows the last readings of a list.
abbrev pub series_of : ℕ → List Gpu → Series
series_of size readings = record {
  gpu = recent size (map utilization_of readings);
  memory = recent size (map memory_of readings);
  power = recent size (map power_of readings);
  temperature = recent size (map temperature_of readings);
}

map-snoc :
    (f : Gpu → ℕ) (gpus : List Gpu) (g : Gpu) → map f (gpus ++ g ∷ []) ≡ map f gpus ++ f g ∷ []
map-snoc f [] g = refl
map-snoc f (x ∷ gpus) g = rw (map-snoc f gpus g) refl

push-series_of :
    (f : Gpu → ℕ) (size : ℕ) (gpus : List Gpu) (g : Gpu)
    → push size (recent size (map f gpus)) (f g) ≡ recent size (map f (gpus ++ g ∷ []))
push-series_of f size gpus g = recent-append size (map f gpus) (f g) ∙ rw (map-snoc f gpus g) refl

push_reading-series_of :
    (size : ℕ) (gpus : List Gpu) (g : Gpu)
    → push_reading size (series_of size gpus) g ≡ series_of size (gpus ++ g ∷ [])
push_reading-series_of size gpus g =
    rw
      (
        push-series_of utilization_of size gpus g,
        push-series_of memory_of size gpus g,
        push-series_of power_of size gpus g,
        push-series_of temperature_of size gpus g,
      )
      refl

series_of-empty : (size : ℕ) → series_of size [] ≡ empty_series
series_of-empty size = rw (recent-empty size) refl

series_same :
    (j k : Text) (size : ℕ) (before : List Gpu) (h : Dict Series)
    → series_for k h ≡ series_of size before
    → text_eq j k ≡ true
    → series_for j h ≡ series_of size before
series_same j k size before h e same = rw (text_eq→eq j k same) e

update_gpu-series :
    (size : ℕ) (k : Text) (g : Gpu) (before : List Gpu) (h : Dict Series)
    → series_for k h ≡ series_of size before
    → series_for k (update_gpu size g h)
      ≡ series_of size
          (if text_eq g.gpu_id k then (if g.valid then before ++ g ∷ [] else []) else before)
unfolding update_gpu
update_gpu-series size k g before h e = elim (Bool-cases (text_eq g.gpu_id k)) [
  | inr other ↦ elim (Bool-cases g.valid) [
    | inl good ↦ rw (good, other, lookup-insert g.gpu_id k _ h, other) e
    | inr bad ↦ rw (bad, other, lookup-erase g.gpu_id k h, other) e
  ]
  | inl same ↦ elim (Bool-cases g.valid) [
    | inl good ↦
        simp
          (
            good,
            same,
            lookup-insert g.gpu_id k _ h,
            same,
            series_same g.gpu_id k size before h e same,
          )
          (push_reading-series_of size before g)
    | inr bad ↦ simp (bad, same, lookup-erase g.gpu_id k h, same) (sym (series_of-empty size))
  ]
]

update_history-series :
    (size : ℕ) (k : Text) (gpus before : List Gpu) (h : Dict Series)
    → series_for k h ≡ series_of size before
    → series_for k (update_history size gpus h) ≡ series_of size (valid_run k before gpus)
unfolding update_history valid_run
update_history-series size k [] before h e = e
update_history-series size k (g ∷ gpus) before h e =
    update_history-series size k gpus _ (update_gpu size g h)
      (update_gpu-series size k g before h e)

-- After any readings, in any number of rounds, the four series of every device are the last
-- `history_size` values, oldest first, of the device's valid readings since its last invalid one.
pub series-recent :
    (size : ℕ) (k : Text) (gpus : List Gpu)
    → series_for k (update_history size gpus []) ≡ series_of size (valid_run k [] gpus)
unfolding lookup
series-recent size k gpus = update_history-series size k gpus [] [] (sym (series_of-empty size))
