-- ===== src/Clock/Synchronizer.antt =====
-- `ClockSynchronizer`. Durations and system times are nanoseconds; a method takes the readings of the
-- system clock that it makes: `now_ms` for the hybrid clock, `now` for `SystemTime::now()`.
pub mod Drift
use kaelix.Base.{
  ℕ, ◌+◌, ◌-◌, ◌*◌, max, ltb, if◌then◌else◌, Bool, List, [], ◌∷◌, map, Option, none, some, length,
}
use kaelix.Base.Assoc.{Assoc, lookup, insert, remove, values}
use kaelix.Clock.Hybrid
use kaelix.Clock.Hybrid.{HybridLogicalClock, abs_diff, max_clock_drift_ms}

pub record ClockSynchronizer : Type 0 where
  pub local_clock : HybridLogicalClock
  pub peer_clocks : Assoc HybridLogicalClock
  pub drift_threshold : ℕ
  pub last_sync : ℕ
  pub sync_interval : ℕ

abbrev pub from_millis : ℕ → ℕ
from_millis ms = ms * 1_000_000

-- 30 seconds.
abbrev default_sync_interval : ℕ
default_sync_interval = 30_000_000_000

unfoldable pub with_drift_threshold : ℕ → ℕ → ℕ → ClockSynchronizer
with_drift_threshold drift_threshold now_ms now = record {
  local_clock = record { physical_time = now_ms; logical_time = 0 };
  peer_clocks = [];
  drift_threshold = drift_threshold;
  last_sync = now;
  sync_interval = default_sync_interval;
}

unfoldable pub new : ℕ → ℕ → ClockSynchronizer
unfolding with_drift_threshold
new now_ms now = with_drift_threshold (from_millis max_clock_drift_ms) now_ms now

unfoldable pub tick : ℕ → ClockSynchronizer → ClockSynchronizer × HybridLogicalClock
tick now_ms c =
    let clock = Hybrid.tick now_ms c.local_clock in (record c { local_clock = clock }, clock)

unfoldable pub sync_with_peer :
    ℕ → HybridLogicalClock → ℕ → ℕ → ClockSynchronizer → ClockSynchronizer
sync_with_peer peer_id peer_clock now_ms now c = record c {
  local_clock = Hybrid.update now_ms peer_clock c.local_clock;
  peer_clocks = insert peer_id peer_clock c.peer_clocks;
  last_sync = now;
}

unfoldable pub needs_sync : ℕ → ClockSynchronizer → Bool
needs_sync now c = ltb c.sync_interval (now - c.last_sync)

-- The loop over the peers.
unfoldable pub drift_issues : ℕ → ℕ → Assoc HybridLogicalClock → Assoc ℕ
drift_issues local_time threshold [] = []
drift_issues local_time threshold ((p, c) ∷ ps) =
    let drift = from_millis (abs_diff local_time c.physical_time) in
    let rest = drift_issues local_time threshold ps in
    if ltb threshold drift then (p, drift) ∷ rest else rest

unfoldable pub detect_drift : ClockSynchronizer → Assoc ℕ
unfolding drift_issues
detect_drift c = drift_issues c.local_clock.physical_time c.drift_threshold c.peer_clocks

pub record SyncStats : Type 0 where
  pub peer_count : ℕ
  pub drift_issues : ℕ
  pub max_drift : ℕ
  pub last_sync_age : ℕ
  pub needs_sync : Bool

unfoldable pub maximum : List ℕ → ℕ
maximum [] = 0
maximum (x ∷ xs) = max x (maximum xs)

unfoldable pub sync_stats : ℕ → ClockSynchronizer → SyncStats
unfolding maximum detect_drift needs_sync
sync_stats now c =
    let drift_info = detect_drift c in
    record {
      peer_count = length c.peer_clocks;
      drift_issues = length drift_info;
      max_drift = maximum (values drift_info);
      last_sync_age = now - c.last_sync;
      needs_sync = needs_sync now c;
    }

unfoldable pub reset : ℕ → ℕ → ClockSynchronizer → ClockSynchronizer
reset now_ms now c = record c {
  local_clock = record { physical_time = now_ms; logical_time = 0 };
  peer_clocks = [];
  last_sync = now;
}

unfoldable pub remove_peer : ℕ → ClockSynchronizer → ClockSynchronizer × Option HybridLogicalClock
remove_peer peer_id c =
    (record c { peer_clocks = remove peer_id c.peer_clocks }, lookup peer_id c.peer_clocks)

unfoldable pub set_drift_threshold : ℕ → ClockSynchronizer → ClockSynchronizer
set_drift_threshold threshold c = record c { drift_threshold = threshold }
