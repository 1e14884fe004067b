-- ===== src/Clock/Tests.antt =====
-- Small runs of the clocks, and each of their theorems at a concrete input.
use kaelix.Base.{◌≡◌, refl, [], ◌∷◌, arith}
use kaelix.Base.Assoc.{contains}
use kaelix.Clock.Logical
use kaelix.Clock.Logical.{LogicalClock, update_race, ticks}
use kaelix.Clock.Vector
use kaelix.Clock.Vector.{VectorClock}
use kaelix.Clock.Version
use kaelix.Clock.Version.{VersionVector}
use kaelix.Clock.Version.Agreement.{compare-agrees}
use kaelix.Clock.Hybrid
use kaelix.Clock.Hybrid.{HybridLogicalClock, to_u128, from_u128}
use kaelix.Clock.Hybrid.Monotone.{update_later_iff}
use kaelix.Clock.Synchronizer.{ClockSynchronizer}

abbrev lamport : LogicalClock
lamport = record { counter = 7 }

update_race_example :
    (Logical.update_store 5 (Logical.update_load lamport) (ticks 2 lamport)).1
    ≡ (Logical.tick lamport).1
update_race_example = (update_race 1 5 lamport (omega arith) (omega arith)).0

abbrev left : VectorClock
left = record { node_id = 1; vector = (1, 3) ∷ (2, 1) ∷ [] }

abbrev right : VectorClock
right = record { node_id = 2; vector = (1, 1) ∷ (2, 4) ∷ (3, 2) ∷ [] }

abbrev old : VersionVector
old = record { versions = (1, 3) ∷ (2, 1) ∷ [] }

abbrev recent : VersionVector
recent = record { versions = (2, 1) ∷ (1, 4) ∷ [] }

compare-agrees_example :
    Version.compare recent old
    ≡ Vector.compare
        (record { node_id = 1; vector = recent.versions })
        (record { node_id = 2; vector = old.versions })
unfolding contains
compare-agrees_example = compare-agrees recent old 1 2 (refl, (refl, tt)) (refl, (refl, tt))

abbrev early : HybridLogicalClock
early = record { physical_time = 100; logical_time = 4 }

abbrev late : HybridLogicalClock
late = record { physical_time = 90; logical_time = 9 }

update_later_iff_example : Hybrid.update 95 late early ≡ early
update_later_iff_example =
    (update_later_iff 95 late early (omega arith) (omega arith)).1 (omega arith)

abbrev synchronizer : ClockSynchronizer
synchronizer = record {
  local_clock = early;
  peer_clocks = (2, late) ∷ (3, record { physical_time = 500; logical_time = 0 }) ∷ [];
  drift_threshold = 50_000_000;
  last_sync = 0;
  sync_interval = 30_000_000_000;
}
