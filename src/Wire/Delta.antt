-- ===== src/Wire/Delta.antt =====
-- The agent's record of the supported metrics it has sent (agent.py: SupportedMetricsDelta). The
-- payload is that of one sample; `gpus` is its list of devices.
use constella.Prelude.{
  ◌≡◌, refl, text_eq_refl, text_eq→eq, and_both, Bool, true, false, ◌&&◌, ◌||◌, Option, none, some,
  List, [], ◌∷◌, ◌++◌, map, Text, text, text_eq, if◌then◌else◌,
}
use constella.Prelude.Keyed.{Keys, find, alter}
use constella.Telemetry.Rules.{whole}
use constella.Wire.Json.{
  Json, null, bool, num, inf, nan, str, list, object, Fields, blank, entry, get, set_field, list_of,
  str_of, str_or,
}
use constella.Wire.Decode.{fields_of}

-- A device's uuid, index and profile, as texts.
pub record DeltaKey : Type 0 where
  pub uuid : Text
  pub index : Text
  pub profile : Text

abbrev pub key_eq : DeltaKey → DeltaKey → Bool
key_eq a b = text_eq a.uuid b.uuid && (text_eq a.index b.index && text_eq a.profile b.profile)

pub key_eq→eq : (a b : DeltaKey) → key_eq a b ≡ true → a ≡ b
key_eq→eq a b h =
    let (one, more) = and_both (text_eq a.uuid b.uuid) _ h in
    let (two, three) = and_both (text_eq a.index b.index) (text_eq a.profile b.profile) more in
    λ i. record {
      uuid = text_eq→eq a.uuid b.uuid one i;
      index = text_eq→eq a.index b.index two i;
      profile = text_eq→eq a.profile b.profile three i;
    }

pub key_eq_refl : (a : DeltaKey) → key_eq a a ≡ true
key_eq_refl a = rw (text_eq_refl a.uuid, text_eq_refl a.index, text_eq_refl a.profile) refl

instance abbrev pub delta_keys : Keys DeltaKey
delta_keys = record { same = key_eq; sound = key_eq→eq; reflexive = key_eq_refl }

abbrev pub texts_eq : List Text → List Text → Bool
texts_eq [] [] = true
texts_eq [] (u ∷ us) = false
texts_eq (t ∷ ts) [] = false
texts_eq (t ∷ ts) (u ∷ us) = let rest = texts_eq ts us in text_eq t u && rest

abbrev pub Sent : Type 0
Sent = List (DeltaKey × List Text)

-- `previous.get(key)`
abbrev pub sent_for : DeltaKey → Sent → Option (List Text)
sent_for k d = find k d

-- `previous[key] = current`
abbrev pub record_sent : DeltaKey → List Text → Sent → Sent
record_sent k current d = alter k (λ o. current) d

-- `key in seen`
unfoldable pub is_seen : DeltaKey → List DeltaKey → Bool
is_seen k [] = false
is_seen k (j ∷ seen) = let rest = is_seen k seen in key_eq j k || rest

unfoldable pub seen_only : List DeltaKey → Sent → Sent
seen_only seen [] = []
seen_only seen ((j, ts) ∷ d) =
    let rest = seen_only seen d in if is_seen j seen then (j, ts) ∷ rest else rest

-- `d.pop(k, None)`
unfoldable pub without : Text → Fields → Fields
without k blank = blank
without k (entry j v d) = let rest = without k d in if text_eq j k then rest else entry j v rest

pub record SupportedMetricsDelta : Type 0 where
  pub enabled : Bool
  pub previous : Sent

abbrev pub new : Bool → SupportedMetricsDelta
new enabled = record { enabled = enabled; previous = [] }

-- A value, where it is a list.
abbrev pub list_in : Json → Option (List Json)
list_in null = none
list_in (bool b) = none
list_in (num n) = none
list_in (inf negative) = none
list_in nan = none
list_in (str t) = none
list_in (list js) = some (list_of js)
list_in (object d) = none

-- A device's dict, that of its performance and the list of metrics in it.
pub record Reading : Type 0 where
  pub gpu : Fields
  pub performance : Fields
  pub raw_metrics : List Json

infixl 20 ◌>>=◌
abbrev pub ◌>>=◌ {ℓ κ} : {A : Type ℓ} → {B : Type κ} → Option A → (A → Option B) → Option B
none >>= f = none
some a >>= f = f a

abbrev pub reading_of : Json → Option Reading
reading_of j = do
  gpu ← fields_of j
  performance ← fields_of (get (text "performance") gpu)
  raw_metrics ← list_in (get (text "supported_metrics") performance)
  some (record { gpu = gpu; performance = performance; raw_metrics = raw_metrics })

-- What a turn of the loop leaves: the devices so far, `previous` and `seen`.
pub record Pass : Type 0 where
  pub gpus : List Json
  pub previous : Sent
  pub seen : List DeltaKey

abbrev pub is_sent : Option (List Text) → List Text → Bool
is_sent none current = false
is_sent (some ts) current = texts_eq ts current

module _ (print : Json → Text) where
  abbrev pub key_of : Reading → DeltaKey
  key_of r = record {
    uuid = str_or print (get (text "uuid") r.gpu) (text "unknown");
    index = str_or print (get (text "index") r.gpu) (print (num (whole 0)));
    profile = str_or print (get (text "profile") r.performance) [];
  }

  abbrev pub metrics_of : Reading → List Text
  metrics_of r = map (str_of print) r.raw_metrics

  -- A list that is the one sent last is left out; another is recorded.
  abbrev pub with_reading : Reading → Pass → Pass
  with_reading r pass =
      let k = key_of r in
      let current = metrics_of r in
      let shorter = object (without (text "supported_metrics") r.performance) in
      if is_sent (sent_for k pass.previous) current
      then record {
        gpus = pass.gpus ++ object (set_field (text "performance") shorter r.gpu) ∷ [];
        previous = pass.previous;
        seen = k ∷ pass.seen;
      }
      else record {
        gpus = pass.gpus ++ object r.gpu ∷ [];
        previous = record_sent k current pass.previous;
        seen = k ∷ pass.seen;
      }

  abbrev pub visit : Json → Pass → Pass
  visit j pass = elim (reading_of j) [
    | none ↦ record pass { gpus = pass.gpus ++ j ∷ [] }
    | some r ↦ with_reading r pass
  ]

  unfoldable pub visit_all : List Json → Pass → Pass
  visit_all [] pass = pass
  visit_all (j ∷ js) pass = visit_all js (visit j pass)

  -- The delta after the call, and the devices that are sent.
  unfoldable pub apply : List Json → SupportedMetricsDelta → SupportedMetricsDelta × List Json
  apply gpus delta =
      let pass = visit_all gpus (record { gpus = []; previous = delta.previous; seen = [] }) in
      if delta.enabled
      then (record delta { previous = seen_only pass.seen pass.previous }, pass.gpus)
      else (delta, gpus)
