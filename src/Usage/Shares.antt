-- ===== src/Usage/Shares.antt =====
-- Who is charged for a row at a time (packages/lab/src/constella_lab/activity_usage.py,
-- `resolve_usage`).
use constella.Prelude.{
  ℕ, ◌≤◌, ◌<◌, max, min, ◌≡◌, refl, false, ◌&&◌, List, [], ◌∷◌, ◌++◌, map, Text, ltb, leb, keep,
  All, arith, and_both, inl, inr, Bool-cases, Option-cases, if◌then◌else◌, ap, ◌∙◌,
}
use constella.Usage.Spans.{Span, covers}
use constella.Usage.Segments.{Usage}
use constella.Usage.Owners.{
  Binding, Row, clamp, bounds, pairs, is_applicable, latest, matches_of, owner_of, usage_of,
  usages_of, resolve_usage,
}
use constella.Usage.EdgeSets.{Agrees}
use constella.Usage.Edges.{edges_of, piece-inside, piece-outside}

-- A bound that lies in the row agrees where it agrees clamped.
clamp-Agrees :
    (a t left right v : ℕ)
    → left ≤ a
    → a ≤ t
    → t < right
    → Agrees a t (clamp left right v)
    → Agrees a t v
clamp-Agrees a t left right v low mid high agree = ground arith

-- From the start of a piece to t, the same bindings apply.
applicable-same :
    (a t left right : ℕ) (matches : List Binding)
    → left ≤ a
    → a ≤ t
    → t < right
    → All (Agrees a t) (bounds left right matches)
    → keep (is_applicable a) matches ≡ keep (is_applicable t) matches
unfolding bounds
applicable-same a t left right [] low mid high agree = refl
applicable-same a t left right (b ∷ matches) low mid high agree = elim (Option-cases b.valid_to) [
  | inl open_ ↦
      let (from, rest) : Agrees a t (clamp left right b.valid_from)
          × All (Agrees a t) (bounds left right matches) =
        rw open_ at agree in
      let same : is_applicable a b ≡ is_applicable t b =
        rw (open_, clamp-Agrees a t left right b.valid_from low mid high from) refl in
      kept same (applicable-same a t left right matches low mid high rest)
  | inr (to, ended) ↦
      let (from, (until, rest)) : Agrees a t (clamp left right b.valid_from)
          × (Agrees a t (clamp left right to) × All (Agrees a t) (bounds left right matches)) =
        rw ended at agree in
      let later = clamp-Agrees a t left right to low mid high until in
      let before_end : ltb a to ≡ ltb t to = ground arith in
      let same : is_applicable a b ≡ is_applicable t b =
        rw (ended, clamp-Agrees a t left right b.valid_from low mid high from, before_end) refl in
      kept same (applicable-same a t left right matches low mid high rest)
]
  where
    kept :
        is_applicable a b ≡ is_applicable t b
        → keep (is_applicable a) matches ≡ keep (is_applicable t) matches
        → keep (is_applicable a) (b ∷ matches) ≡ keep (is_applicable t) (b ∷ matches)
    kept same ih i = if same i then b ∷ ih i else ih i

abbrev pub charged : List Usage → List Text
charged [] = []
charged (u ∷ usages) = u.owner ∷ charged usages

-- The owners of the usages that a time lies in.
abbrev pub charged_at : ℕ → List Usage → List Text
charged_at t usages = charged (keep (λ u. covers t u.span) usages)

charged_at-append :
    (t : ℕ) (us vs : List Usage) → charged_at t (us ++ vs) ≡ charged_at t us ++ charged_at t vs
charged_at-append t [] vs = refl
charged_at-append t (u ∷ us) vs = elim (Bool-cases (covers t u.span)) [
  | inl on ↦ rw on (ap (λ os. u.owner ∷ os) (charged_at-append t us vs))
  | inr off ↦ rw off (charged_at-append t us vs)
]

module _ (account model_of job_of : Row → Text) where
  -- Whose the row's account is at the time t, if t lies in the row and in the period.
  abbrev pub due : ℕ → Row → List Binding → ℕ → ℕ → List Text
  due t row matches left right =
      if leb left t && ltb t right
      then owner_of account model_of job_of row (latest (keep (is_applicable t) matches)) ∷ []
      else []

  unfoldable pub all_due : ℕ → List Row → List Binding → ℕ → ℕ → List Text
  all_due t [] bindings start end = []
  all_due t (row ∷ rows) bindings start end =
      due t row (matches_of bindings start row.node_id row.user_uid row.user)
        (max start row.first_seen_at) (min end row.last_seen_at)
      ++ all_due t rows bindings start end

  charged-map :
      (t : ℕ) (row : Row) (matches : List Binding) (spans : List Span)
      → charged_at t (map (usage_of account model_of job_of row matches) spans)
        ≡ charged (map (usage_of account model_of job_of row matches) (keep (covers t) spans))
  charged-map t row matches [] = refl
  charged-map t row matches (a ∷ spans) = elim (Bool-cases (covers t a)) [
    | inl on ↦ rw on (
        ap (λ os. (usage_of account model_of job_of row matches a).owner ∷ os)
          (charged-map t row matches spans))
    | inr off ↦ rw off (charged-map t row matches spans)
  ]

  charged_at-pieces :
      (t : ℕ) (row : Row) (matches : List Binding) (left right : ℕ)
      → left < right
      → charged_at t
          (map (usage_of account model_of job_of row matches) (pairs (edges_of left right matches)))
        ≡ due t row matches left right
  charged_at-pieces t row matches left right some_time =
      let usage = usage_of account model_of job_of row matches in
      let spans = pairs (edges_of left right matches) in
      elim (Bool-cases (leb left t && ltb t right)) [
        | inl on ↦
            let (from, to) = and_both (leb left t) (ltb t right) on in
            let (a, one, inside, (begun, (ended, agree))) =
              piece-inside t left right matches (ground arith) (ground arith) in
            let low : left ≤ a.start = ground arith in
            let mid : a.start ≤ t = ground arith in
            let same = applicable-same a.start t left right matches low mid (ground arith) agree in
            charged-map t row matches spans
            ∙ ap (λ pieces. charged (map usage pieces)) one
            ∙ rw on (
                ap (λ applicable. owner_of account model_of job_of row (latest applicable) ∷ [])
                  same)
        | inr off ↦
            charged-map t row matches spans
            ∙ ap (λ pieces. charged (map usage pieces))
                (piece-outside t left right matches (omega arith) off)
            ∙ rw off refl
      ]

  charged_at-usages_of :
      (t : ℕ) (row : Row) (matches : List Binding) (left right : ℕ)
      → charged_at t (usages_of account model_of job_of row matches left right)
        ≡ due t row matches left right
  charged_at-usages_of t row matches left right = elim (Bool-cases (ltb left right)) [
    | inl some_time ↦
        let not_over : ltb right left ≡ false = ground arith in
        rw (not_over, some_time) (charged_at-pieces t row matches left right (ground arith))
    | inr no_time ↦
        let empty : (leb left t && ltb t right) ≡ false = ground arith in
        elim (Bool-cases (ltb right left)) [
          | inl over ↦ rw (over, empty) refl
          | inr now ↦ rw (now, no_time, empty) refl
        ]
  ]

  pub resolve_usage-all_due :
      (rows : List Row) (bindings : List Binding) (start end t : ℕ)
      → charged_at t (resolve_usage account model_of job_of rows bindings start end)
        ≡ all_due t rows bindings start end
  unfolding resolve_usage all_due
  resolve_usage-all_due [] bindings start end t = refl
  resolve_usage-all_due (row ∷ rows) bindings start end t =
      let matches = matches_of bindings start row.node_id row.user_uid row.user in
      let left = max start row.first_seen_at in
      let right = min end row.last_seen_at in
      charged_at-append t (usages_of account model_of job_of row matches left right)
        (resolve_usage account model_of job_of rows bindings start end)
      ∙ (λ i.
          charged_at-usages_of t row matches left right i
          ++ resolve_usage-all_due rows bindings start end t i)
