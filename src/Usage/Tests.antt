-- ===== src/Usage/Tests.antt =====
-- The usage theorems at concrete inputs.
use constella.Prelude.{
  ℕ, ◌≤◌, ◌≡◌, refl, Option, none, some, List, [], ◌∷◌, map, Text, text, text_eq, any, tally, arith,
}
use constella.Usage.Limiter.{Key, Request, granted}
use constella.Usage.Window.{consume_bounded}
use constella.Usage.Granted.{in_window, AreOrdered, HaveLimit}
use constella.Usage.Spans.{Span, union, covers, merge_spans}
use constella.Prelude.Integers.{pos, difference}
use constella.Prelude.Sorting.{sort_by, insert_by}
use constella.Usage.Segments.{
  Usage, segments, cards_of, append_span, add_cards, add_spans, bump, sweep,
}
use constella.Usage.Emit.{counts_at, nonzero}
use constella.Usage.Cards.{cards_used, segments-cards_used}
use constella.Usage.Owners.{
  Binding, Row, resolve_usage, legacy_bindings, latest, pairs, sorted_set, insert_edge, bounds,
}
use constella.Usage.Shares.{charged_at}
use constella.Usage.Charges.{AreCharged, resolve_usage-AreCharged}
use constella.Usage.Union.{AreDisjoint, union-covers}

abbrev ann : Key
ann = record { user = text "ann"; action = text "lookup-minute" }

abbrev bob : Key
bob = record { user = text "bob"; action = text "lookup-minute" }

abbrev lookup_at : Key → ℕ → ℕ → Request
lookup_at k amount now = record { key = k; amount = amount; limit = 10; window = 60; now = now }

abbrev lookups : List Request
lookups =
    lookup_at ann 6 0
    ∷ lookup_at bob 10 5
    ∷ lookup_at ann 5 10
    ∷ lookup_at ann 4 20
    ∷ lookup_at ann 5 65
    ∷ []

lookups-AreOrdered : AreOrdered 0 lookups
unfolding AreOrdered
lookups-AreOrdered = omega arith

lookups-HaveLimit : HaveLimit ann 10 60 lookups
unfolding HaveLimit
lookups-HaveLimit = (
  (λ e. (refl, refl)),
  ((λ e. (refl, refl)), ((λ e. (refl, refl)), ((λ e. (refl, refl)), ((λ e. (refl, refl)), tt)))),
)

consume_bounded_example : tally (in_window 60 30) (granted ann lookups []) ≤ 10
consume_bounded_example = consume_bounded ann 10 60 lookups lookups-AreOrdered lookups-HaveLimit 30

abbrev span : ℕ → ℕ → Span
span a b = record { start = a; end = b }

abbrev spans : List Span
spans = span 30 40 ∷ span 0 10 ∷ span 7 7 ∷ span 5 20 ∷ span 20 25 ∷ []

union-covers_example :
    ((t : ℕ) → any (covers t) (union spans) ≡ any (covers t) spans) × AreDisjoint (union spans)
union-covers_example = union-covers spans

abbrev binding : Text → ℕ → ℕ → Option ℕ → Binding
binding user uid from to = record {
  user_id = user;
  user_display_name = none;
  node_id = text "alpha";
  unix_uid = uid;
  unix_username = text "dev";
  valid_from = from;
  valid_to = to;
}

-- The account passes from one user to another at 30.
abbrev bindings : List Binding
bindings = binding (text "ann") 1000 10 (some 30) ∷ binding (text "bob") 1000 30 none ∷ []

abbrev row : Text → Option ℕ → ℕ → ℕ → Row
row card uid from to = record {
  node_id = text "alpha";
  user = some (text "dev");
  user_uid = uid;
  first_seen_at = from;
  last_seen_at = to;
  session_first_seen_at = from;
  device_type = some (text "ascend");
  card_id = some card;
  gpu_uuid = text "die";
}

abbrev rows : List Row
rows = row (text "0") (some 1000) 5 60 ∷ row (text "0") none 20 25 ∷ row (text "1") none 40 50 ∷ []

abbrev no_text : Row → Text
no_text r = text "?"

abbrev usages : List Usage
usages = resolve_usage no_text no_text no_text rows bindings 0 55

segments-cards_used_example :
    counts_at 45 (segments usages 0 55) ≡ nonzero (pos (cards_used 45 0 55 [] usages))
segments-cards_used_example = segments-cards_used usages 0 55 45

-- One die of a card and another are one card.
segments_once : map (λ s. s.count) (segments usages 0 55) ≡ pos 1 ∷ pos 2 ∷ pos 1 ∷ []
unfolding segments sort_by insert_by resolve_usage cards_of append_span union merge_spans add_cards
    add_spans bump sweep text_eq legacy_bindings latest pairs sorted_set insert_edge bounds
    difference
segments_once = refl

abbrev known_rows : List Row
known_rows = row (text "0") (some 1000) 5 60 ∷ row (text "1") (some 1001) 40 50 ∷ []

resolve_usage-AreCharged_example :
    AreCharged no_text no_text no_text 45 0 55 bindings known_rows
      (charged_at 45 (resolve_usage no_text no_text no_text known_rows bindings 0 55))
resolve_usage-AreCharged_example =
    resolve_usage-AreCharged no_text no_text no_text known_rows bindings 0 55 45
      ((1000, refl), ((1001, refl), tt))

-- An account that none holds pays for itself.
charged_once :
    charged_at 45 (resolve_usage no_text no_text no_text known_rows bindings 0 55)
    ≡ text "user:bob" ∷ text "account:?" ∷ []
unfolding resolve_usage legacy_bindings latest pairs sorted_set insert_edge bounds text_eq
charged_once = refl
