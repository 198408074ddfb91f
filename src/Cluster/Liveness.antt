-- ===== src/Cluster/Liveness.antt =====
-- How a node's status goes on while nothing is heard of it (cluster.py, `_status`).
use constella.Prelude.{
  ℕ, ◌+◌, ◌*◌, ◌≤◌, ◌<◌, ◌≡◌, refl, Bool, true, false, not, none, max, arith, ltb, if◌then◌else◌,
}
use constella.Cluster.Data.{Status, Runtime, Config, online, stale, offline, error}
use constella.Cluster.Views.{status_of, stale_limit, offline_limit, has_error}

-- How far gone a node is.
abbrev pub stage : Status → ℕ
stage online = 0
stage error = 0
stage stale = 1
stage offline = 2

abbrev by_limits : Bool → Bool → Bool → ℕ
by_limits connected gone late =
    if connected then (if gone then 2 else (if late then 1 else 0)) else 2

stage-status_of :
    (c : Config) (r : Runtime) (now : ℕ)
    → stage (status_of c r now)
      ≡ by_limits r.connected
          (ltb (r.last_seen_at + offline_limit c r) now)
          (ltb (r.last_seen_at + stale_limit c r) now)
unfolding status_of
stage-status_of c r now =
    by_tests r.connected (ltb (r.last_seen_at + offline_limit c r) now)
      (ltb (r.last_seen_at + stale_limit c r) now) (has_error r.snapshot.error)
  where
    by_tests :
        (connected gone late bad : Bool)
        → stage (
            if not connected
            then offline
            else if gone
            then offline
            else if late
            then stale
            else if bad
            then error
            else online)
          ≡ by_limits connected gone late
    by_tests false gone late bad = refl
    by_tests true true late bad = refl
    by_tests true false true bad = refl
    by_tests true false false true = refl
    by_tests true false false false = refl

later-gone :
    (a b now later : ℕ) (connected : Bool)
    → now ≤ later
    → by_limits connected (ltb b now) (ltb a now) ≤ by_limits connected (ltb b later) (ltb a later)
later-gone a b now later false h = omega arith
later-gone a b now later true h = ground arith

-- While nothing is heard of a node, its status goes from online, or an error, to stale and to offline,
-- and never back, whatever the limits are. With the default limits a connected node is online, or
-- shows an error, exactly up to five seconds or three of its refresh intervals after it was last
-- seen, whichever is longer, an interval counting as at least a tenth of a second; it is offline
-- exactly after thirty seconds or ten intervals, whichever is longer; and a node that is not
-- connected is offline.
pub status_of-stages :
    (c : Config) (r : Runtime) (now later : ℕ)
    → now ≤ later
    → (stage (status_of c r now) ≤ stage (status_of c r later))
      × (r.connected ≡ false → stage (status_of c r now) ≡ 2)
      × (c.stale_after ≡ none
          → c.offline_after ≡ none
          → r.connected ≡ true
          → (now ≤ r.last_seen_at + max (3 * max r.snapshot.refresh_interval 100000) 5000000
              → stage (status_of c r now) ≡ 0)
            × (r.last_seen_at + max (3 * max r.snapshot.refresh_interval 100000) 5000000 < now
                → now ≤ r.last_seen_at + max (10 * max r.snapshot.refresh_interval 100000) 30000000
                → stage (status_of c r now) ≡ 1)
            × (r.last_seen_at + max (10 * max r.snapshot.refresh_interval 100000) 30000000 < now
                → stage (status_of c r now) ≡ 2))
status_of-stages c r now later h = (
  rw (stage-status_of c r now, stage-status_of c r later)
      (later-gone (r.last_seen_at + stale_limit c r) (r.last_seen_at + offline_limit c r) now later
        r.connected h),
  (λ out. rw (stage-status_of c r now, out) refl),
  (λ no_stale no_offline on. (
    (λ early.
        let fresh : ltb (r.last_seen_at + stale_limit c r) now ≡ false =
          rw no_stale (ground arith) in
        let here : ltb (r.last_seen_at + offline_limit c r) now ≡ false =
          rw no_offline (ground arith) in
        rw (stage-status_of c r now, on, here, fresh) refl),
    (λ late early.
        let old : ltb (r.last_seen_at + stale_limit c r) now ≡ true = rw no_stale (ground arith) in
        let here : ltb (r.last_seen_at + offline_limit c r) now ≡ false =
          rw no_offline (ground arith) in
        rw (stage-status_of c r now, on, here, old) refl),
    (λ late.
        let gone : ltb (r.last_seen_at + offline_limit c r) now ≡ true =
          rw no_offline (ground arith) in
        rw (stage-status_of c r now, on, gone) refl),
  )),
)
