-- ===== src/Clock/Logical.antt =====
-- `LogicalClock`: a Lamport timestamp in a 64-bit atomic.
use Prim.Native.Nat.{compare, Ordering}
use kaelix.Base.{ℕ, ◌+◌, ◌≤◌, ◌<◌, ◌^◌, ◌≡◌, refl, max, arith, u64, zero, suc}

pub record LogicalClock : Type 0 where
  pub counter : ℕ

unfoldable pub new : LogicalClock
new = record { counter = 0 }

unfoldable pub with_timestamp : ℕ → LogicalClock
with_timestamp t = record { counter = t }

-- `fetch_add(1) + 1`.
unfoldable pub tick : LogicalClock → LogicalClock × ℕ
tick c = (record { counter = u64 (c.counter + 1) }, u64 (c.counter + 1))

-- `update` is a load and a store, between which other threads may run.
unfoldable pub update_load : LogicalClock → ℕ
update_load c = c.counter

unfoldable pub update_store : ℕ → ℕ → LogicalClock → LogicalClock × ℕ
update_store received current c =
    let new_value = u64 (max received current + 1) in (record { counter = new_value }, new_value)

unfoldable pub update : ℕ → LogicalClock → LogicalClock × ℕ
unfolding update_load update_store
update received c = update_store received (update_load c) c

unfoldable pub reset : ℕ → LogicalClock → LogicalClock
reset t c = record { counter = t }

abbrev pub compare_timestamps : ℕ → ℕ → Ordering
compare_timestamps a b = compare a b

-- Below the largest timestamp, a tick gives a timestamp above the clock's, an update one above the
-- clock's and the received one, and both leave the clock at the timestamp they give.
timestamps_grow :
    (c : LogicalClock) (received : ℕ)
    → c.counter + 1 < 2 ^ 64
    → received + 1 < 2 ^ 64
    → (c.counter < (tick c).1)
      × ((tick c).0.counter ≡ (tick c).1)
      × (c.counter < (update received c).1)
      × (received < (update received c).1)
      × ((update received c).0.counter ≡ (update received c).1)
unfolding tick update
timestamps_grow c received h k = (omega arith, refl, omega arith, omega arith, refl)

-- `n` local events.
abbrev pub ticks : ℕ → LogicalClock → LogicalClock
ticks zero c = c
ticks (suc n) c = ticks n (tick c).0

ticks-counter :
    (n : ℕ) (c : LogicalClock) → c.counter + n < 2 ^ 64 → (ticks n c).counter ≡ c.counter + n
unfolding tick
ticks-counter zero c h = omega arith
ticks-counter (suc n) c h = omega (arith, ticks-counter n (tick c).0 (omega arith))

-- Where other threads tick `n + 1` times between the load and the store of an update whose received
-- timestamp is not ahead, and no counter reaches 2^64, the update gives out again the timestamp of the first of those ticks, and
-- the clock falls back below the last of them if there was more than one.
pub update_race :
    (n received : ℕ) (c : LogicalClock)
    → received ≤ c.counter
    → c.counter + (n + 1) < 2 ^ 64
    → let raced = update_store received (update_load c) (ticks (suc n) c) in
      (raced.1 ≡ (tick c).1) × (raced.0.counter + n ≡ (ticks (suc n) c).counter)
unfolding tick update_load update_store
update_race n received c h k = (omega arith, omega (arith, ticks-counter (suc n) c (omega arith)))
