-- ===== src/Clock/Hybrid/Monotone.antt =====
-- When a hybrid clock moves forward, and when it does not.
use Prim.Native.Nat.{Ordering}
use kaelix.Base.{ℕ, ◌+◌, ◌≤◌, ◌<◌, ◌^◌, ◌≡◌, ◌↔◌, max, arith, ◌⊎◌}
use kaelix.Clock.Hybrid.{HybridLogicalClock, tick, update, compare}

-- The order of timestamps: by physical time, then by logical time.
abbrev pub Earlier : HybridLogicalClock → HybridLogicalClock → Type 0
Earlier c d =
    (c.physical_time < d.physical_time)
    ⊎ ((c.physical_time ≡ d.physical_time) × (c.logical_time < d.logical_time))

compare-Earlier : (c d : HybridLogicalClock) → (compare c d ≡ Ordering.lt) ↔ Earlier c d
unfolding compare
compare-Earlier c d = ground arith

-- A local event gets a later timestamp, whatever the system clock says, unless the logical counter is
-- at its largest; and the physical time never falls.
pub tick_later :
    (now : ℕ) (c : HybridLogicalClock)
    → c.logical_time + 1 < 2 ^ 64
    → (compare c (tick now c) ≡ Ordering.lt) × (c.physical_time ≤ (tick now c).physical_time)
unfolding tick compare
tick_later now c h = ground arith

-- With both logical counters below 2^64 - 1, where they would wrap around, an update gives a timestamp
-- later than the clock's and the received one exactly when the clock's
-- physical time is not ahead of both the system clock and the received time; if it is ahead of both,
-- the update changes nothing.
pub update_later_iff :
    (now : ℕ) (received c : HybridLogicalClock)
    → c.logical_time + 1 < 2 ^ 64
    → received.logical_time + 1 < 2 ^ 64
    → (((compare c (update now received c) ≡ Ordering.lt)
          × (compare received (update now received c) ≡ Ordering.lt))
        ↔ (c.physical_time ≤ max now received.physical_time))
      × (max now received.physical_time < c.physical_time → update now received c ≡ c)
unfolding update compare
update_later_iff now received c h k = (ground arith, ground arith)
