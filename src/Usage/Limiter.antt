-- ===== src/Usage/Limiter.antt =====
-- `SlidingWindowLimiter` (packages/lab/src/constella_lab/api.py). Times are whole microseconds of
-- `time.monotonic`. `events[0] <= now - window` is written without the subtraction.
use constella.Prelude.{
  ◌≡◌, refl, and_both, text_eq→eq, text_eq_refl, Option, none, some, ℕ, ◌+◌, Bool, true, false,
  ◌&&◌, List, [], ◌∷◌, ◌++◌, Text, text_eq, ltb, leb, length, replicate, if◌then◌else◌,
}
use constella.Prelude.Keyed.{Keys, find, alter}

-- The key that a limit is counted for.
pub record Key : Type 0 where
  pub user : Text
  pub action : Text

abbrev pub key_eq : Key → Key → Bool
key_eq a b = text_eq a.action b.action && text_eq a.user b.user

pub key_eq→eq : (a b : Key) → key_eq a b ≡ true → a ≡ b
key_eq→eq a b h =
    let (one, two) = and_both (text_eq a.action b.action) (text_eq a.user b.user) h in
    rw (text_eq→eq a.action b.action one, text_eq→eq a.user b.user two) refl

pub key_eq_refl : (k : Key) → key_eq k k ≡ true
key_eq_refl k = rw (text_eq_refl k.action, text_eq_refl k.user) refl

instance abbrev pub limit_keys : Keys Key
limit_keys = record { same = key_eq; sound = key_eq→eq; reflexive = key_eq_refl }

-- `defaultdict(deque)`
abbrev pub Table : Type 0
Table = List (Key × List ℕ)

abbrev pub or_empty : Option (List ℕ) → List ℕ
or_empty none = []
or_empty (some events) = events

abbrev pub events_of : Key → Table → List ℕ
events_of k t = or_empty (find k t)

abbrev pub put_events : Key → List ℕ → Table → Table
put_events k events t = alter k (λ o. events) t

-- `while events and events[0] <= now - window: events.popleft()`
unfoldable pub expire : ℕ → ℕ → List ℕ → List ℕ
expire window now [] = []
expire window now (e ∷ events) =
    let rest = expire window now events in if leb (e + window) now then rest else e ∷ events

pub record Request : Type 0 where
  pub key : Key
  pub amount : ℕ
  pub limit : ℕ
  pub window : ℕ
  pub now : ℕ

-- `len(events) + amount > limit`
abbrev pub exceeds : Request → Table → Bool
exceeds r t = ltb r.limit (length (expire r.window r.now (events_of r.key t)) + r.amount)

unfoldable pub consume : Request → Table → Bool × Table
consume r t =
    let events = expire r.window r.now (events_of r.key t) in
    if exceeds r t
    then (false, put_events r.key events t)
    else (true, put_events r.key (events ++ replicate r.amount r.now) t)

-- The times at which a key's units were granted, over a sequence of calls.
unfoldable pub granted : Key → List Request → Table → List ℕ
granted k [] t = []
granted k (r ∷ requests) t =
    (if key_eq r.key k && (consume r t).0 then replicate r.amount r.now else [])
    ++ granted k requests (consume r t).1
