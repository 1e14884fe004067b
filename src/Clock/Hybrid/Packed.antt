-- ===== src/Clock/Hybrid/Packed.antt =====
-- The 128-bit form of a hybrid timestamp.
use Prim.Native.Nat.{Ordering, bit_or}
use kaelix.Base.{ℕ, ◌+◌, ◌*◌, ◌/◌, ◌%◌, ◌<◌, ◌^◌, ◌≡◌, ◌↔◌, refl, ap, ◌∙◌, arith}
use kaelix.Base.Bits.{bit_or_shifted, bit_and_mask}
use kaelix.Clock.Hybrid.{HybridLogicalClock, compare, to_u128, from_u128}

-- Both components fit their words.
abbrev pub Fits : HybridLogicalClock → Type 0
Fits c = (c.physical_time < 2 ^ 64) × (c.logical_time < 2 ^ 64)

to_u128-sum :
    (c : HybridLogicalClock) → Fits c → to_u128 c ≡ c.physical_time * 2 ^ 64 + c.logical_time
unfolding to_u128
to_u128-sum c f =
    let fits : c.physical_time * 2 ^ 64 % 2 ^ 128 ≡ c.physical_time * 2 ^ 64 = omega arith in
    ap (λ n. bit_or n c.logical_time) fits ∙ bit_or_shifted 64 c.physical_time c.logical_time f.1

from_u128-parts :
    (v : ℕ)
    → ((from_u128 v).physical_time ≡ v / 2 ^ 64 % 2 ^ 64)
      × ((from_u128 v).logical_time ≡ v % 2 ^ 64)
unfolding from_u128
from_u128-parts v = (refl, omega (arith, bit_and_mask 64 v 0xffff_ffff_ffff_ffff refl))

-- Packing is undone by unpacking, both ways, and the packed numbers are ordered as the timestamps are.
packed_order :
    (c d : HybridLogicalClock) (v : ℕ)
    → Fits c
    → Fits d
    → v < 2 ^ 128
    → (from_u128 (to_u128 c) ≡ c)
      × (to_u128 (from_u128 v) ≡ v)
      × ((compare c d ≡ Ordering.lt) ↔ (to_u128 c < to_u128 d))
unfolding compare
packed_order c d v fc fd h =
    let a = to_u128-sum c fc in
    let b = to_u128-sum d fd in
    let p = from_u128-parts (to_u128 c) in
    let q = from_u128-parts v in
    (
      ground (arith, a, p),
      omega (arith, q, to_u128-sum (from_u128 v) (omega (arith, q), omega (arith, q))),
      ground (arith, a, b),
    )
