-- ===== src/Cluster/Views.antt =====
-- How the cluster state is read (cluster.py, `snapshot`, `_runtime_snapshot`, `_status`).
use constella.Prelude.{
  ℕ, ◌+◌, ◌*◌, ◌/◌, Bool, false, not, Option, none, some, List, map, Text, truthy, ltb, ◌==◌, max,
  if◌then◌else◌,
}
use constella.Cluster.Data.{
  Status, online, stale, offline, error, Snapshot, Runtime, Config, Cluster,
}
use constella.Cluster.State.{second}

abbrev pub or_default : Option ℕ → ℕ → ℕ
or_default none d = d
or_default (some x) d = x

-- `elapsed > limit` is written without the subtraction, since the clock may lie before `last_seen_at`.
abbrev pub stale_limit : Config → Runtime → ℕ
stale_limit c r =
    or_default c.stale_after (max (3 * max r.snapshot.refresh_interval (second / 10)) (5 * second))

abbrev pub offline_limit : Config → Runtime → ℕ
offline_limit c r =
    or_default c.offline_after
      (max (10 * max r.snapshot.refresh_interval (second / 10)) (30 * second))

abbrev pub has_error : Option Text → Bool
has_error none = false
has_error (some t) = truthy t

-- `_status`
unfoldable pub status_of : Config → Runtime → ℕ → Status
status_of c r now =
    if not r.connected
    then offline
    else if ltb (r.last_seen_at + offline_limit c r) now
    then offline
    else if ltb (r.last_seen_at + stale_limit c r) now
    then stale
    else if has_error r.snapshot.error
    then error
    else online

-- `_runtime_snapshot`, which writes the snapshot that the runtime holds.
unfoldable pub refreshed : Config → ℕ → Runtime → Runtime
unfolding status_of
refreshed c now r = record r {
  snapshot = record (r.snapshot) {
    status = status_of c r now;
    received_at = if r.last_seen_at == 0 then r.snapshot.received_at else r.last_seen_at;
  };
}

abbrev pub refresh_entry : Config → ℕ → Text × Runtime → Text × Runtime
refresh_entry c now (k, r) = (k, refreshed c now r)

-- The nodes that `snapshot` reports, in the order of the dict, and the state that it leaves.
unfoldable pub snapshot : ℕ → Cluster → List Snapshot × Cluster
unfolding refreshed
snapshot now s =
    let nodes = map (refresh_entry s.config now) s.latest_by_node in
    (map (λ (entry : Text × Runtime). entry.1.snapshot) nodes, record s { latest_by_node = nodes })
