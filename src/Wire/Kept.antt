-- ===== src/Wire/Kept.antt =====
-- A sample as the manager decodes it, where it has the lists that the agent leaves out (agent.py,
-- `SupportedMetricsDelta.apply`; cluster.py, `node_snapshot_from_agent_sample`).
use constella.Prelude.{
  ℕ, ◌≡◌, refl, Bool, true, false, ◌&&◌, inl, inr, Option, some, List, [], ◌∷◌, ◌++◌, map, Text,
  text_eq, text_eq_refl, append-nil, append_assoc, ap, ◌∙◌, sym, subst, All, Bool-cases,
  Option-cases, arith,
}
use constella.Telemetry.Rules.{Number, Value}
use constella.Wire.Json.{Json, num, object}
use constella.Wire.Data.{AcceleratorPerformance, GpuInfo}
use constella.Wire.Devices.{inherited, previous_of, same_number, gpu_from_telemetry, decoded_gpus}
use constella.Wire.Performances.{performance_from_dict}
use constella.Wire.Encode.{to_dict, performance_json, gpu_fields_with, performance_fields}
use constella.Wire.Sound.{IsSound}
use constella.Wire.Received.{received, gpu_from_telemetry-fields}
use constella.Wire.RoundTrip.{place, gpu_from_telemetry-to_dict, decoded_gpus-append}
use constella.Wire.Delta.{DeltaKey, key_eq, Pass, visit, visit_all, Sent, sent_for, is_sent}
use constella.Wire.Sends.{
  delta_key, turn, visit-some, visit-none, shorter_fields, inherited-shorter,
}
use constella.Prelude.Keyed.{find-alter_other}
use constella.Wire.Recorded.{is_sent→eq}
use constella.Wire.Delta.{key_eq→eq, delta_keys}
use constella.Wire.Sources.{payload, sound_at}

pub same_number_refl : (n : Number) → same_number n n ≡ true
same_number_refl n = ground arith

-- Two entries with one uuid and one index.
abbrev pub same_device : GpuInfo → GpuInfo → Bool
same_device x g = text_eq x.uuid g.uuid && same_number x.index g.index

-- No two devices of a sample have the same uuid and the same index.
abbrev pub AreApart : List GpuInfo → Type 0
AreApart [] = Unit
AreApart (g ∷ gs) = All (λ x. same_device x g ≡ false) gs × AreApart gs

module _ (print : Json → Text) (parse : Text → Option Value) (mp pp : GpuInfo → Json)
    (print_one : (m n : Number) → print (num m) ≡ print (num n) → m ≡ n) (node_id : Text)
    (last : List GpuInfo) where
  -- The manager has the list that the agent would leave out.
  abbrev pub IsShared : Sent → GpuInfo → Type 0
  IsShared d g =
      (p : AcceleratorPerformance) (ts : List Text)
      → g.performance ≡ some p
      → sent_for (delta_key print parse g p) d ≡ some ts
      → (x : GpuInfo) × (q : AcceleratorPerformance) × (previous_of g.uuid g.index last ≡ some x)
        × (x.performance ≡ some q)
        × (q.profile ≡ p.profile)
        × (q.supported_metrics ≡ ts)

  -- The value is decoded as the device.
  abbrev IsFor : GpuInfo → Json → Type 0
  IsFor g j =
      (fallback : ℕ)
      → gpu_from_telemetry print parse node_id j fallback last ≡ received print parse node_id g

  keys-apart :
      (x g : GpuInfo) (p q : AcceleratorPerformance)
      → same_device x g ≡ false
      → key_eq (delta_key print parse g p) (delta_key print parse x q) ≡ false
  keys-apart x g p q apart =
      elim (Bool-cases (key_eq (delta_key print parse g p) (delta_key print parse x q))) [
        | inl same ↦
            let e = key_eq→eq (delta_key print parse g p) (delta_key print parse x q) same in
            let uuid : g.uuid ≡ x.uuid = ap (λ (k : DeltaKey). k.uuid) e in
            let index : g.index ≡ x.index =
              print_one g.index x.index (ap (λ (k : DeltaKey). k.index) e) in
            let one : text_eq x.uuid g.uuid ≡ true = rw uuid (text_eq_refl x.uuid) in
            let two : same_number x.index g.index ≡ true = rw index (same_number_refl x.index) in
            let both : same_device x g ≡ true = rw (one, two) refl in absurd (cc)
        | inr other ↦ other
      ]

  -- What is sent in a turn, in either case.
  turn-IsFor :
      (g : GpuInfo) (p : AcceleratorPerformance) (pass : Pass) (k : DeltaKey)
      → IsSound g
      → g.performance ≡ some p
      → IsShared pass.previous g
      → (b : Bool)
      → is_sent (sent_for (delta_key print parse g p) pass.previous) p.supported_metrics ≡ b
      → (j : Json) × ((turn print parse b k p.supported_metrics (mp g) (pp g) g p pass).gpus
          ≡ pass.gpus ++ j ∷ [])
        × IsFor g j
  turn-IsFor g p pass k h at_p shared true same =
      let sent =
        is_sent→eq (sent_for (delta_key print parse g p) pass.previous) p.supported_metrics same in
      let (x, q, found, last_p, profile, listed) = shared p p.supported_metrics at_p sent in
      (
        object (gpu_fields_with (object (shorter_fields p)) (mp g) (pp g) g),
        refl,
        (λ fallback.
            gpu_from_telemetry-fields print parse (object (shorter_fields p)) (mp g) (pp g) g
              node_id fallback last h
              (ap
                  (λ o.
                    inherited (some (shorter_fields p)) o
                      (performance_from_dict print parse (object (shorter_fields p))))
                  found
                ∙ inherited-shorter print parse p q x (sound_at g p h at_p) last_p profile listed
                ∙ sym at_p)),
      )
  turn-IsFor g p pass k h at_p shared false other = (
    object (gpu_fields_with (object (performance_fields p)) (mp g) (pp g) g),
    refl,
    (λ fallback.
        ap
          (λ o.
            gpu_from_telemetry print parse node_id
              (object (gpu_fields_with (performance_json o) (mp g) (pp g) g)) fallback last)
          (sym at_p)
        ∙ (unfold to_dict in
            gpu_from_telemetry-to_dict print parse (mp g) (pp g) g node_id fallback last h)),
  )

  visit-IsFor :
      (g : GpuInfo) (pass : Pass)
      → IsSound g
      → IsShared pass.previous g
      → (j : Json) × ((visit print (to_dict (mp g) (pp g) g) pass).gpus ≡ pass.gpus ++ j ∷ [])
        × IsFor g j
  visit-IsFor g pass h shared = elim (Option-cases g.performance) [
    | inl at_none ↦ (
      to_dict (mp g) (pp g) g,
      ap (λ (q : Pass). q.gpus) (visit-none print parse (mp g) (pp g) g pass at_none),
      (λ fallback. gpu_from_telemetry-to_dict print parse (mp g) (pp g) g node_id fallback last h),
    )
    | inr (p, at_p) ↦
        let same =
          is_sent (sent_for (delta_key print parse g p) pass.previous) p.supported_metrics in
        let (j, more, is_for) =
          turn-IsFor g p pass (delta_key print parse g p) h at_p shared same refl in
        (
          j,
          ap (λ (q : Pass). q.gpus)
                (visit-some print parse (mp g) (pp g) g p pass h (sound_at g p h at_p) at_p)
              ∙ more,
          is_for,
        )
  ]

  -- A turn at one device leaves what is recorded of the others.
  turn-others :
      (g x : GpuInfo) (p q : AcceleratorPerformance) (pass : Pass) (b : Bool)
      → same_device x g ≡ false
      → sent_for
          (delta_key print parse x q)
          (turn print parse b
            (delta_key print parse g p)
            p.supported_metrics
            (mp g)
            (pp g)
            g
            p
            pass).previous
        ≡ sent_for (delta_key print parse x q) pass.previous
  turn-others g x p q pass true apart = refl
  turn-others g x p q pass false apart =
      find-alter_other (delta_key print parse g p) (delta_key print parse x q)
        (λ o. p.supported_metrics) pass.previous (keys-apart x g p q apart)

  IsShared-visit :
      (g x : GpuInfo) (pass : Pass)
      → IsSound g
      → same_device x g ≡ false
      → IsShared pass.previous x
      → IsShared (visit print (to_dict (mp g) (pp g) g) pass).previous x
  IsShared-visit g x pass h apart shared = elim (Option-cases g.performance) [
    | inl at_none ↦
        subst (λ (q : Pass). IsShared q.previous x)
          (sym (visit-none print parse (mp g) (pp g) g pass at_none)) shared
    | inr (p, at_p) ↦
        subst (λ (q : Pass). IsShared q.previous x)
          (sym (visit-some print parse (mp g) (pp g) g p pass h (sound_at g p h at_p) at_p))
          (λ q ts at_q sent. shared q ts at_q (sym (turn-others g x p q pass _ apart) ∙ sent))
  ]

  pub decoded_gpus-visit_all :
      (gs : List GpuInfo) (pass : Pass)
      → All IsSound gs
      → AreApart gs
      → All (IsShared pass.previous) gs
      → decoded_gpus print parse node_id
          (visit_all print (payload print parse mp pp gs) pass).gpus
          0
          last
        ≡ decoded_gpus print parse node_id pass.gpus 0 last ++ map (received print parse node_id) gs
  unfolding visit_all payload decoded_gpus
  decoded_gpus-visit_all [] pass h apart shared = sym (append-nil _)
  decoded_gpus-visit_all (g ∷ gs) pass h apart shared =
      let next = visit print (to_dict (mp g) (pp g) g) pass in
      let (j, more, is_for) = visit-IsFor g pass h.0 shared.0 in
      let here : decoded_gpus print parse node_id next.gpus 0 last
          ≡ decoded_gpus print parse node_id pass.gpus 0 last
            ++ received print parse node_id g ∷ [] =
        ap (λ js. decoded_gpus print parse node_id js 0 last) more
        ∙ decoded_gpus-append print parse node_id pass.gpus (j ∷ []) 0 last
        ∙ ap (λ x. decoded_gpus print parse node_id pass.gpus 0 last ++ x ∷ [])
            (is_for (place 0 pass.gpus)) in
      decoded_gpus-visit_all gs next h.1 apart.1 (rest_shared gs apart.0 shared.1)
      ∙ ap (λ xs. xs ++ map (received print parse node_id) gs) here
      ∙ append_assoc _ (received print parse node_id g ∷ []) (map (received print parse node_id) gs)
    where
      rest_shared :
          (xs : List GpuInfo)
          → All (λ x. same_device x g ≡ false) xs
          → All (IsShared pass.previous) xs
          → All (IsShared (visit print (to_dict (mp g) (pp g) g) pass).previous) xs
      rest_shared [] a s = tt
      rest_shared (x ∷ xs) a s = (IsShared-visit g x pass h.0 a.0 s.0, rest_shared xs a.1 s.1)
