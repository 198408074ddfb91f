-- ===== src/Wire/Recorded.antt =====
-- The table of the lists that were sent (agent.py, `SupportedMetricsDelta.previous`).
use constella.Prelude.{
  ◌≡◌, refl, true, false, Option, none, some, List, [], ◌∷◌, Text, text_eq, text_eq→eq, and_both,
  ap, ◌∙◌, sym, Bool-cases, inl, inr, if◌then◌else◌,
}
use constella.Prelude.Keyed.{find}
use constella.Wire.Delta.{
  DeltaKey, key_eq, key_eq→eq, delta_keys, texts_eq, Sent, sent_for, is_seen, seen_only, is_sent,
}

pub texts_eq→eq : (ts us : List Text) → texts_eq ts us ≡ true → ts ≡ us
texts_eq→eq [] [] h = refl
texts_eq→eq [] (u ∷ us) h = cc
texts_eq→eq (t ∷ ts) [] h = cc
texts_eq→eq (t ∷ ts) (u ∷ us) h =
    let (one, rest) = and_both (text_eq t u) (texts_eq ts us) h in
    rw (text_eq→eq t u one, texts_eq→eq ts us rest) refl

pub is_sent→eq : (o : Option (List Text)) (ts : List Text) → is_sent o ts ≡ true → o ≡ some ts
is_sent→eq none ts h = cc
is_sent→eq (some us) ts h = ap some (texts_eq→eq us ts h)

-- Only what was seen in a sample stays.
sent_for-seen_only_if :
    (k : DeltaKey) (seen : List DeltaKey) (d : Sent)
    → sent_for k (seen_only seen d) ≡ (if is_seen k seen then sent_for k d else none)
unfolding find seen_only
sent_for-seen_only_if k seen [] = elim (Bool-cases (is_seen k seen)) [
  | inl held ↦ rw held refl
  | inr gone ↦ rw gone refl
]
sent_for-seen_only_if k seen ((j, us) ∷ d) = elim (Bool-cases (key_eq j k)) [
  | inl same ↦ elim (Bool-cases (is_seen k seen)) [
    | inl held ↦
        let held' : is_seen j seen ≡ true = ap (λ i. is_seen i seen) (key_eq→eq j k same) ∙ held in
        rw (held', held, same) refl
    | inr gone ↦
        let gone' : is_seen j seen ≡ false = ap (λ i. is_seen i seen) (key_eq→eq j k same) ∙ gone in
        rw (gone', gone) (sent_for-seen_only_if k seen d ∙ rw gone refl)
  ]
  | inr other ↦ elim (Bool-cases (is_seen j seen)) [
    | inl held ↦ rw (held, other) (sent_for-seen_only_if k seen d)
    | inr gone ↦ rw (gone, other) (sent_for-seen_only_if k seen d)
  ]
]

pub sent_for-seen_only :
    (k : DeltaKey) (seen : List DeltaKey) (d : Sent) (ts : List Text)
    → sent_for k (seen_only seen d) ≡ some ts
    → (is_seen k seen ≡ true) × (sent_for k d ≡ some ts)
sent_for-seen_only k seen d ts h =
    let kept = sym (sent_for-seen_only_if k seen d) ∙ h in
    elim (Bool-cases (is_seen k seen)) [
      | inl held ↦ (held, sym (ap (λ b. if b then sent_for k d else none) held) ∙ kept)
      | inr gone ↦
          let nothing : none ≡ some ts =
            sym (ap (λ b. if b then sent_for k d else none) gone) ∙ kept in
          cc
    ]
