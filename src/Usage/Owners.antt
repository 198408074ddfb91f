-- ===== src/Usage/Owners.antt =====
-- Whose account a process ran in (packages/lab/src/constella_lab/activity_usage.py,
-- `legacy_bindings`, `resolve_usage`). `account`, `model_of` and `job_of` are the texts that
-- `json.dumps`, `compact_gpu_name` and `job_key` make of a row.
use constella.Prelude.{
  ℕ, max, min, Bool, true, ◌&&◌, Option, none, some, List, [], ◌∷◌, ◌++◌, map, Text, text, text_eq,
  truthy, ltb, leb, ◌==◌, keep, if◌then◌else◌,
}
use constella.Prelude.Sorting.{sort_by}
use constella.Usage.Spans.{Span}
use constella.Usage.Segments.{Usage}

pub record Binding : Type 0 where
  pub user_id : Text
  pub user_display_name : Option Text
  pub node_id : Text
  pub unix_uid : ℕ
  pub unix_username : Text
  pub valid_from : ℕ
  pub valid_to : Option ℕ

pub record Row : Type 0 where
  pub node_id : Text
  pub user : Option Text
  pub user_uid : Option ℕ
  pub first_seen_at : ℕ
  pub last_seen_at : ℕ
  pub session_first_seen_at : ℕ
  pub device_type : Option Text
  pub card_id : Option Text
  pub gpu_uuid : Text

-- `sorted(history, key=lambda b: b["valid_from"])`
abbrev pub ordered : List Binding → List Binding
ordered history = sort_by (λ b c. leb b.valid_from c.valid_from) history

abbrev pub inherit : ℕ → List Binding → List Binding
inherit start [] = []
inherit start (b ∷ history) = record b { valid_from = min start b.valid_from } ∷ history

-- The bindings that `legacy_bindings` lists under a node and a name.
unfoldable pub legacy_bindings : List Binding → ℕ → Text → Text → List Binding
legacy_bindings bindings start node_id name = inherit start (
    ordered (
      keep
        (λ b. truthy b.unix_username && (text_eq b.node_id node_id && text_eq b.unix_username name))
        bindings))

-- A row without a uid has the bindings of its name; a row without a name has none.
abbrev pub matches_of : List Binding → ℕ → Text → Option ℕ → Option Text → List Binding
matches_of bindings start node_id none none = []
matches_of bindings start node_id none (some user) = legacy_bindings bindings start node_id user
matches_of bindings start node_id (some uid) user =
    keep (λ b. text_eq b.node_id node_id && (b.unix_uid == uid)) bindings

abbrev pub clamp : ℕ → ℕ → ℕ → ℕ
clamp left right v = max left (min right v)

unfoldable pub bounds : ℕ → ℕ → List Binding → List ℕ
bounds left right [] = []
bounds left right (b ∷ matches) =
    let rest = bounds left right matches in
    elim b.valid_to [
      | none ↦ clamp left right b.valid_from ∷ rest
      | some to ↦ clamp left right b.valid_from ∷ clamp left right to ∷ rest
    ]

-- `sorted` of a set: no number stands twice.
unfoldable pub insert_edge : ℕ → List ℕ → List ℕ
insert_edge x [] = x ∷ []
insert_edge x (y ∷ edges) =
    let rest = insert_edge x edges in
    if x == y then y ∷ edges else if ltb x y then x ∷ y ∷ edges else y ∷ rest

unfoldable pub sorted_set : List ℕ → List ℕ
sorted_set [] = []
sorted_set (x ∷ xs) = insert_edge x (sorted_set xs)

-- `zip(edges, edges[1:])`
unfoldable pub pairs : List ℕ → List Span
pairs [] = []
pairs (a ∷ []) = []
pairs (a ∷ b ∷ edges) = record { start = a; end = b } ∷ pairs (b ∷ edges)

abbrev pub spans_of : ℕ → ℕ → List Binding → List Span
spans_of left right matches =
    if ltb left right
    then pairs (sorted_set (left ∷ right ∷ bounds left right matches))
    else record { start = left; end = right } ∷ []

abbrev pub is_before_end : ℕ → Option ℕ → Bool
is_before_end a none = true
is_before_end a (some to) = ltb a to

abbrev pub is_applicable : ℕ → Binding → Bool
is_applicable a b = leb b.valid_from a && is_before_end a b.valid_to

-- `max(…, key=…)` is the first of those that have the greatest key.
abbrev pub greater_of : Binding → Option Binding → Binding
greater_of b none = b
greater_of b (some c) = if ltb b.valid_from c.valid_from then c else b

unfoldable pub latest : List Binding → Option Binding
latest [] = none
latest (b ∷ applicable) = some (greater_of b (latest applicable))

abbrev pub text_or : Option Text → Text → Text
text_or none t = t
text_or (some s) t = if truthy s then s else t

-- `_physical_card_key`
abbrev pub physical_card_key : Row → Text
physical_card_key row = elim row.card_id [
  | none ↦ row.node_id ++ (text ":" ++ row.gpu_uuid)
  | some card ↦
      if text_eq (text_or row.device_type []) (text "ascend")
      then row.node_id ++ (text ":ascend:" ++ card)
      else row.node_id ++ (text ":" ++ row.gpu_uuid)
]

module _ (account model_of job_of : Row → Text) where
  abbrev pub owner_of : Row → Option Binding → Text
  owner_of row none = text "account:" ++ account row
  owner_of row (some b) = text "user:" ++ b.user_id

  abbrev pub label_of : Row → Option Binding → Text
  label_of row none = text_or row.user (text "Unknown") ++ (text " @ " ++ row.node_id)
  label_of row (some b) = text_or b.user_display_name (text_or row.user b.user_id)

  abbrev pub usage_of : Row → List Binding → Span → Usage
  usage_of row matches a =
      let binding = latest (keep (is_applicable a.start) matches) in
      record {
        owner = owner_of row binding;
        label = label_of row binding;
        span = a;
        card = physical_card_key row;
        model = model_of row;
        key = job_of row;
      }

  abbrev pub usages_of : Row → List Binding → ℕ → ℕ → List Usage
  usages_of row matches left right =
      if ltb right left then [] else map (usage_of row matches) (spans_of left right matches)

  unfoldable pub resolve_usage : List Row → List Binding → ℕ → ℕ → List Usage
  resolve_usage [] bindings start end = []
  resolve_usage (row ∷ rows) bindings start end =
      usages_of row (matches_of bindings start row.node_id row.user_uid row.user)
        (max start row.first_seen_at) (min end row.last_seen_at)
      ++ resolve_usage rows bindings start end
