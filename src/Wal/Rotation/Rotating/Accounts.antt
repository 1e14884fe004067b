-- ===== src/Wal/Rotation/Rotating/Accounts.antt =====
-- What the statistics of the rotation manager add up to: kaelix-storage/src/wal/rotation.rs.
use kaelix.Base.{
  ℕ, ◌+◌, ◌-◌, ltb, ◌≡◌, refl, sym, ap, ◌∙◌, arith, u64, true, false, Option, none, some,
  Bool-cases, inl, inr,
}
use kaelix.Wal.Types.{WalResult, ok, err}
use kaelix.Wal.Segment.{WalSegment, seal}
use kaelix.Wal.Rotation.{
  RotationManager, RotationConfig, RotationTrigger, RotationStats, size, time, count, manual,
  disk_space, shutdown, new, set_active_segment, check_rotation_needed, update_rotation_stats,
}
use kaelix.Wal.Rotation.Rotating.{
  RotationCalls, WalConfig, rotate_segment, perform_rotation, install, create_next, after_seal,
  seal_and_create,
}

pub data Step (m : RotationManager) : RotationManager → Type 0 where
  installed : (s : WalSegment) → Step m (set_active_segment s m)
  checked : (now system : ℕ) → Step m (check_rotation_needed now system m).0
  rotated :
      (calls : RotationCalls) (trigger : RotationTrigger) (duration_us system : ℕ)
      (config : WalConfig)
      → Step m (rotate_segment calls trigger duration_us system config m).manager

pub data Reach (m : RotationManager) : RotationManager → Type 0 where
  here : Reach m m
  next : {t u : RotationManager} → Reach m t → Step t u → Reach m u

by_trigger : RotationStats → ℕ
by_trigger s =
    s.size_rotations + s.time_rotations + s.count_rotations + s.manual_rotations
    + s.disk_space_rotations + s.shutdown_rotations

-- The rotations are those of all triggers, and no rotation is left open.
abbrev pub IsBalanced : RotationManager → Type 0
unfolding by_trigger
IsBalanced m =
    (u64 m.stats.total_rotations ≡ u64 (by_trigger m.stats)) × (m.rotation_in_progress ≡ false)

abbrev SameCounts : RotationStats → RotationStats → Type 0
unfolding by_trigger
SameCounts a b = (a.total_rotations ≡ b.total_rotations) × (by_trigger a ≡ by_trigger b)

install-SameCounts :
    (retired : Option WalSegment) (m : RotationManager) (r : WalResult WalSegment)
    → SameCounts m.stats (install retired m r).manager.stats
unfolding install set_active_segment SameCounts by_trigger
install-SameCounts retired m (ok s) = (refl, refl)
install-SameCounts retired m (err e) = (refl, refl)

create_next-SameCounts :
    (calls : RotationCalls) (system : ℕ) (config : WalConfig) (retired : Option WalSegment)
    (m : RotationManager)
    → SameCounts m.stats (create_next calls system config retired m).manager.stats
unfolding create_next
create_next-SameCounts calls system config retired m = install-SameCounts retired m _

sealed-SameCounts :
    (calls : RotationCalls) (system : ℕ) (config : WalConfig) (m : RotationManager)
    (r : WalSegment × WalResult (Unit {0}))
    → SameCounts m.stats (after_seal calls system config m r).manager.stats
unfolding after_seal SameCounts by_trigger
sealed-SameCounts calls system config m (s, err e) = (refl, refl)
sealed-SameCounts calls system config m (s, ok u) =
    create_next-SameCounts calls system config (some s) (record m {
      active_segment = some s;
      stats = record m.stats { segments_sealed = u64 (m.stats.segments_sealed + 1) };
    })

perform-SameCounts :
    (calls : RotationCalls) (system : ℕ) (config : WalConfig) (m : RotationManager)
    (active : Option WalSegment)
    → SameCounts m.stats (seal_and_create calls system config m active).manager.stats
unfolding seal_and_create
perform-SameCounts calls system config m none = create_next-SameCounts calls system config none m
perform-SameCounts calls system config m (some s) =
    sealed-SameCounts calls system config m (seal system calls.sync s)

update-IsBalanced :
    (trigger : RotationTrigger) (duration_us system : ℕ) (s : RotationStats)
    → u64 s.total_rotations ≡ u64 (by_trigger s)
    → u64 (update_rotation_stats trigger duration_us system s).total_rotations
      ≡ u64 (by_trigger (update_rotation_stats trigger duration_us system s))
unfolding update_rotation_stats by_trigger
update-IsBalanced size d y s h = ground arith
update-IsBalanced time d y s h = ground arith
update-IsBalanced count d y s h = ground arith
update-IsBalanced manual d y s h = ground arith
update-IsBalanced disk_space d y s h = ground arith
update-IsBalanced shutdown d y s h = ground arith

moved :
    (a b : RotationStats)
    → SameCounts a b
    → u64 a.total_rotations ≡ u64 (by_trigger a)
    → u64 b.total_rotations ≡ u64 (by_trigger b)
unfolding SameCounts
moved a b h e = sym (ap u64 h.0) ∙ e ∙ ap u64 h.1

checked-IsBalanced :
    (now system : ℕ) (m : RotationManager)
    → IsBalanced m
    → IsBalanced (check_rotation_needed now system m).0
unfolding check_rotation_needed IsBalanced by_trigger
checked-IsBalanced now system m h =
    elim (Bool-cases (ltb (now - m.last_check_time) m.config.check_interval_ms)) [
      | inl early ↦ rw early h
      | inr due ↦ elim (Bool-cases m.shutdown_flag) [
        | inl stopping ↦ simp (due, stopping) h
        | inr running ↦ simp (due, running) h
      ]
    ]

rotate-IsBalanced :
    (calls : RotationCalls) (trigger : RotationTrigger) (duration_us system : ℕ)
    (config : WalConfig) (m : RotationManager)
    → IsBalanced m
    → IsBalanced (rotate_segment calls trigger duration_us system config m).manager
unfolding rotate_segment perform_rotation IsBalanced
rotate-IsBalanced calls trigger d system config m h =
    let begun = record m { rotation_in_progress = true } in
    let r = perform_rotation calls system config begun in
    simp (h.1) (
      update-IsBalanced trigger d system r.manager.stats (
          moved m.stats r.manager.stats
            (perform-SameCounts calls system config begun m.active_segment) h.0),
      refl,
    )

Step-IsBalanced : {m t : RotationManager} → Step m t → IsBalanced m → IsBalanced t
unfolding IsBalanced set_active_segment by_trigger
Step-IsBalanced (installed s) h = h
Step-IsBalanced {m} (checked now system) h = checked-IsBalanced now system m h
Step-IsBalanced {m} (rotated calls trigger d system config) h =
    rotate-IsBalanced calls trigger d system config m h

-- After any checks and rotations of a new manager, failed rotations among them, the total of the
-- rotations is the sum of those that each trigger made, in 64 bits, and none is left in progress.
rotations_add_up :
    (now : ℕ) (config : RotationConfig) {t : RotationManager}
    → Reach (new now config) t
    → IsBalanced t
unfolding IsBalanced new by_trigger
rotations_add_up now config here = (refl, refl)
rotations_add_up now config (next r s) = Step-IsBalanced s (rotations_add_up now config r)
