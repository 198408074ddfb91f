-- ===== src/Wire/Sources.antt =====
-- What the agent has recorded after a sample is what a device of this sample had (agent.py,
-- `SupportedMetricsDelta.apply`).
use constella.Prelude.{
  ◌≡◌, refl, Bool, true, false, ◌⊎◌, ◌||◌, inl, inr, Option, some, List, [], ◌∷◌, Text, ap, ◌∙◌,
  sym, subst, All, All-map, Bool-cases, Option-cases,
}
use constella.Telemetry.Rules.{Value}
use constella.Wire.Json.{Json}
use constella.Wire.Data.{AcceleratorPerformance, GpuInfo}
use constella.Wire.Encode.{to_dict}
use constella.Wire.Sound.{IsSound, IsSoundPerformance, OfSome}
use constella.Wire.Delta.{
  DeltaKey, key_eq, Pass, visit, visit_all, Sent, sent_for, record_sent, is_seen, is_sent,
}
use constella.Wire.Sends.{delta_key, turn, visit-some, visit-none}
use constella.Prelude.Keyed.{find-alter_self, find-alter_other}
use constella.Wire.Recorded.{is_sent→eq}
use constella.Wire.Delta.{key_eq→eq, delta_keys}

pub sound_at :
    (g : GpuInfo) (p : AcceleratorPerformance)
    → IsSound g
    → g.performance ≡ some p
    → IsSoundPerformance p
sound_at g p h at_p = subst (OfSome IsSoundPerformance) at_p h.performance

module _ (print : Json → Text) (parse : Text → Option Value) (mp pp : GpuInfo → Json) where
  -- `snapshot.to_dict()`, of which the percentages are mp and pp.
  unfoldable pub payload : List GpuInfo → List Json
  payload [] = []
  payload (g ∷ gs) = to_dict (mp g) (pp g) g ∷ payload gs

  -- The device has the key, and the metrics.
  abbrev pub IsSource : DeltaKey → List Text → GpuInfo → Type 0
  IsSource k ts g =
      (p : AcceleratorPerformance) × (g.performance ≡ some p)
      × (delta_key print parse g p ≡ k)
      × (p.supported_metrics ≡ ts)

  abbrev pub HasSource : List GpuInfo → DeltaKey → List Text → Type 0
  HasSource [] k ts = false ≡ true
  HasSource (g ∷ gs) k ts = IsSource k ts g ⊎ HasSource gs k ts

  abbrev pub AreSourced : List GpuInfo → List DeltaKey → Sent → Type 0
  AreSourced all seen d =
      (k : DeltaKey) (ts : List Text)
      → is_seen k seen ≡ true
      → sent_for k d ≡ some ts
      → HasSource all k ts

  abbrev Counts : List GpuInfo → GpuInfo → Type 0
  Counts all g = (k : DeltaKey) (ts : List Text) → IsSource k ts g → HasSource all k ts

  all-count : (gs : List GpuInfo) → All (Counts gs) gs
  all-count [] = tt
  all-count (g ∷ gs) =
      ((λ k ts s. inl s), All-map _ _ gs (λ x c k ts s. inr (c k ts s)) (all-count gs))

  AreSourced-turn :
      (all : List GpuInfo) (g : GpuInfo) (p : AcceleratorPerformance) (pass : Pass)
      → Counts all g
      → g.performance ≡ some p
      → AreSourced all pass.seen pass.previous
      → (b : Bool)
      → is_sent (sent_for (delta_key print parse g p) pass.previous) p.supported_metrics ≡ b
      → AreSourced all
          (turn print parse b
            (delta_key print parse g p)
            p.supported_metrics
            (mp g)
            (pp g)
            g
            p
            pass).seen
          (turn print parse b
            (delta_key print parse g p)
            p.supported_metrics
            (mp g)
            (pp g)
            g
            p
            pass).previous
  unfolding is_seen
  AreSourced-turn all g p pass counts at_p before true same k ts seen sent =
      elim (Bool-cases (key_eq (delta_key print parse g p) k)) [
        | inl here ↦
            let e = key_eq→eq (delta_key print parse g p) k here in
            let mine =
              is_sent→eq (sent_for (delta_key print parse g p) pass.previous) p.supported_metrics
                same in
            let found : some p.supported_metrics ≡ some ts =
              sym mine ∙ ap (λ j. sent_for j pass.previous) e ∙ sent in
            counts k ts (p, at_p, e, cc)
        | inr there ↦ before k ts (sym (ap (λ b. b || is_seen k pass.seen) there) ∙ seen) sent
      ]
  AreSourced-turn all g p pass counts at_p before false other k ts seen sent =
      let at = delta_key print parse g p in
      elim (Bool-cases (key_eq at k)) [
        | inl here ↦
            let e = key_eq→eq at k here in
            let found : some p.supported_metrics ≡ some ts =
              sym (find-alter_self at (λ o. p.supported_metrics) pass.previous)
              ∙ ap (λ j. sent_for j (record_sent at p.supported_metrics pass.previous)) e
              ∙ sent in
            counts k ts (p, at_p, e, cc)
        | inr there ↦
            before k ts (sym (ap (λ b. b || is_seen k pass.seen) there) ∙ seen)
              (sym (find-alter_other at k (λ o. p.supported_metrics) pass.previous there) ∙ sent)
      ]

  AreSourced-visit :
      (all : List GpuInfo) (g : GpuInfo) (pass : Pass)
      → IsSound g
      → Counts all g
      → AreSourced all pass.seen pass.previous
      → AreSourced all
          (visit print (to_dict (mp g) (pp g) g) pass).seen
          (visit print (to_dict (mp g) (pp g) g) pass).previous
  AreSourced-visit all g pass h counts before = elim (Option-cases g.performance) [
    | inl at_none ↦
        subst (λ (q : Pass). AreSourced all q.seen q.previous)
          (sym (visit-none print parse (mp g) (pp g) g pass at_none)) before
    | inr (p, at_p) ↦
        subst (λ (q : Pass). AreSourced all q.seen q.previous)
          (sym (visit-some print parse (mp g) (pp g) g p pass h (sound_at g p h at_p) at_p))
          (AreSourced-turn all g p pass counts at_p before _ refl)
  ]

  pub AreSourced-visit_all :
      (all gs : List GpuInfo) (pass : Pass)
      → All IsSound gs
      → All (Counts all) gs
      → AreSourced all pass.seen pass.previous
      → AreSourced all
          (visit_all print (payload gs) pass).seen
          (visit_all print (payload gs) pass).previous
  unfolding payload visit_all
  AreSourced-visit_all all [] pass h counts before = before
  AreSourced-visit_all all (g ∷ gs) pass h counts before =
      AreSourced-visit_all all gs (visit print (to_dict (mp g) (pp g) g) pass) h.1 counts.1
        (AreSourced-visit all g pass h.0 counts.0 before)

  pub payload-AreSourced :
      (gs : List GpuInfo) (d : Sent)
      → All IsSound gs
      → AreSourced gs
          (visit_all print (payload gs) (record { gpus = []; previous = d; seen = [] })).seen
          (visit_all print (payload gs) (record { gpus = []; previous = d; seen = [] })).previous
  unfolding is_seen
  payload-AreSourced gs d h =
      AreSourced-visit_all gs gs (record { gpus = []; previous = d; seen = [] }) h (all-count gs)
        (λ k ts seen sent. cc)
