-- ===== src/Clock/Synchronizer/Drift.antt =====
-- Which peers `detect_drift` reports, and the worst drift of `sync_stats`.
use kaelix.Base.{
  ℕ, ◌≤◌, ◌≡◌, refl, ap, arith, ltb, if◌then◌else◌, false, [], ◌∷◌, Option, none, some,
}
use kaelix.Base.Assoc.{Assoc, lookup, values, keys, contains, IsMap, lookup-none}
use kaelix.Clock.Hybrid.{HybridLogicalClock, abs_diff}
use kaelix.Clock.Synchronizer.{
  ClockSynchronizer, from_millis, drift_issues, detect_drift, maximum, sync_stats,
}

-- A peer's drift, if it is over the threshold.
abbrev pub over : ℕ → ℕ → Option HybridLogicalClock → Option ℕ
over local_time threshold none = none
over local_time threshold (some c) =
    let drift = from_millis (abs_diff local_time c.physical_time) in
    if ltb threshold drift then some drift else none

keys-drift_issues :
    (l t : ℕ) (ps : Assoc HybridLogicalClock) (k : ℕ)
    → contains k (keys ps) ≡ false
    → contains k (keys (drift_issues l t ps)) ≡ false
unfolding drift_issues contains
keys-drift_issues l t [] k h = refl
keys-drift_issues l t ((p, c) ∷ ps) k h = ground (arith, keys-drift_issues l t ps k)

lookup-drift_issues :
    (l t : ℕ) (ps : Assoc HybridLogicalClock) (k : ℕ)
    → IsMap ps
    → lookup k (drift_issues l t ps) ≡ over l t (lookup k ps)
unfolding drift_issues lookup
lookup-drift_issues l t [] k h = refl
lookup-drift_issues l t ((p, c) ∷ ps) k h =
    let same : p ≡ k → contains p (keys ps) ≡ contains k (keys ps) =
      ap (λ j. contains j (keys ps)) in
    ground (arith, lookup-drift_issues l t ps k h.1, h.0, same, lookup-none k ps)

below-maximum : (ps : Assoc ℕ) (k d : ℕ) → lookup k ps ≡ some d → d ≤ maximum (values ps)
unfolding lookup maximum
below-maximum [] k d e = grind arith
below-maximum ((p, x) ∷ ps) k d e = ground (arith, below-maximum ps k d)

-- `detect_drift` reports exactly the peers whose physical time is more than the threshold away, each
-- with its distance, and `sync_stats` gives no smaller maximum than any of them.
detect_drift_iff :
    (c : ClockSynchronizer) (k now : ℕ)
    → IsMap c.peer_clocks
    → (lookup k (detect_drift c)
        ≡ over c.local_clock.physical_time c.drift_threshold (lookup k c.peer_clocks))
      × ((d : ℕ) → lookup k (detect_drift c) ≡ some d → d ≤ (sync_stats now c).max_drift)
unfolding detect_drift sync_stats
detect_drift_iff c k now h = (
  lookup-drift_issues c.local_clock.physical_time c.drift_threshold c.peer_clocks k h,
  λ d e. below-maximum (detect_drift c) k d e,
)
