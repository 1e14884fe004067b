-- ===== src/Clock/Hybrid.antt =====
-- `HybridLogicalClock`. `now` is what `TimestampUtils::system_time_millis` answers.
pub mod Monotone
pub mod Packed
use Prim.Native.Nat.{compare as compare_ℕ, Ordering, bit_and, bit_or}
use kaelix.Base.{ℕ, ◌+◌, ◌-◌, ◌*◌, ◌/◌, ◌%◌, ◌^◌, ltb, leb, ◌==◌, if◌then◌else◌, u64, max, Bool}

pub record HybridLogicalClock : Type 0 where
  pub physical_time : ℕ
  pub logical_time : ℕ

abbrev pub max_clock_drift_ms : ℕ
max_clock_drift_ms = 60_000

unfoldable pub with_time : ℕ → HybridLogicalClock
with_time physical_time = record { physical_time = physical_time; logical_time = 0 }

unfoldable pub new : ℕ → ℕ → HybridLogicalClock
new physical_time logical_time = record {
  physical_time = physical_time;
  logical_time = logical_time;
}

-- `tick` and `update` return a copy of the clock that they leave.
unfoldable pub tick : ℕ → HybridLogicalClock → HybridLogicalClock
tick now c =
    if ltb c.physical_time now
    then record { physical_time = now; logical_time = 0 }
    else record c { logical_time = u64 (c.logical_time + 1) }

unfoldable pub update : ℕ → HybridLogicalClock → HybridLogicalClock → HybridLogicalClock
update now received c =
    let max_physical = max now received.physical_time in
    if ltb c.physical_time max_physical
    then record {
      physical_time = max_physical;
      logical_time =
          if max_physical == received.physical_time then u64 (received.logical_time + 1) else 0;
    }
    else if max_physical == c.physical_time
    then record c { logical_time = u64 (max c.logical_time received.logical_time + 1) }
    else c

abbrev then_compare : Ordering → Ordering → Ordering
then_compare Ordering.eq next = next
then_compare Ordering.lt next = Ordering.lt
then_compare Ordering.gt next = Ordering.gt

unfoldable pub compare : HybridLogicalClock → HybridLogicalClock → Ordering
compare c d =
    then_compare (compare_ℕ c.physical_time d.physical_time)
      (compare_ℕ c.logical_time d.logical_time)

abbrev pub abs_diff : ℕ → ℕ → ℕ
abs_diff a b = if ltb a b then b - a else a - b

unfoldable pub is_valid_drift : ℕ → HybridLogicalClock → Bool
is_valid_drift now c = leb (abs_diff c.physical_time now) max_clock_drift_ms

-- Shifts and casts on u128 and u64.
unfoldable pub to_u128 : HybridLogicalClock → ℕ
to_u128 c = bit_or (c.physical_time * 2 ^ 64 % 2 ^ 128) c.logical_time

unfoldable pub from_u128 : ℕ → HybridLogicalClock
from_u128 value = record {
  physical_time = u64 (value / 2 ^ 64);
  logical_time = u64 (bit_and value 0xffff_ffff_ffff_ffff);
}

unfoldable pub time_diff_millis : HybridLogicalClock → HybridLogicalClock → ℕ
time_diff_millis c d = abs_diff c.physical_time d.physical_time

unfoldable pub age_millis : ℕ → HybridLogicalClock → ℕ
age_millis now c = now - c.physical_time
