-- ===== src/Wal/Rotation/Rotating.antt =====
-- Rotating, and stopping: kaelix-storage/src/wal/rotation.rs.
pub mod Accounts
use Prim.Native.String.{String}
use kaelix.Base.{
  ℕ, ◌+◌, ◌-◌, ◌*◌, ◌/◌, ltb, leb, ◌==◌, not, ◌&&◌, if◌then◌else◌, u64, max, Bool, true, false,
  Option, none, some,
}
use kaelix.Wal.Types.{WalError, invalid_operation, WalResult, ok, err}
use kaelix.Wal.Segment.{WalSegment, CreateCalls, create, seal}
use kaelix.Wal.Rotation.{
  manual, RotationConfig, default_config, validate, RotationTrigger, RotationStats, no_stats,
  RotationManager, new, set_active_segment, size_due, time_due, count_due, check_segment,
  check_rotation_needed, next_segment_id, count_trigger, update_rotation_stats,
}

pub record WalConfig : Type 0 where
  pub segment_size : ℕ
  pub use_mmap : Bool
  -- `wal_dir` joined with the name of the segment's file.
  pub path : ℕ → String

-- The manager, the segment that it no longer holds, and the answer.
pub record Rotated : Type 0 where
  pub manager : RotationManager
  pub retired : Option WalSegment
  pub answer : WalResult WalSegment

-- What the system answers during a rotation: to the sync of the seal and to the calls of `create`.
pub record RotationCalls : Type 0 where
  pub sync : Option String
  pub create : CreateCalls

abbrev pub install : Option WalSegment → RotationManager → WalResult WalSegment → Rotated
unfolding set_active_segment
install retired m (err e) = record { manager = m; retired = none; answer = err e }
install retired m (ok segment) =
    let m' = set_active_segment segment m in
    record {
      manager = record m' {
        stats = record m'.stats { segments_created = u64 (m'.stats.segments_created + 1) };
      };
      retired = retired;
      answer = ok segment;
    }

abbrev pub create_next :
    RotationCalls → ℕ → WalConfig → Option WalSegment → RotationManager → Rotated
unfolding create next_segment_id install
create_next calls system config retired m =
    let id = next_segment_id m.active_segment in
    install retired m
      (create calls.create system id (config.path id) config.segment_size config.use_mmap)

abbrev pub after_seal :
    RotationCalls → ℕ → WalConfig → RotationManager → WalSegment × WalResult (Unit {0}) → Rotated
unfolding create_next
after_seal calls system config m (s, err e) = record {
  manager = record m { active_segment = some s };
  retired = none;
  answer = err e;
}
after_seal calls system config m (s, ok _) = create_next calls system config (some s) (record m {
  active_segment = some s;
  stats = record m.stats { segments_sealed = u64 (m.stats.segments_sealed + 1) };
})

abbrev pub seal_and_create :
    RotationCalls → ℕ → WalConfig → RotationManager → Option WalSegment → Rotated
unfolding after_seal create_next seal
seal_and_create calls system config m none = create_next calls system config none m
seal_and_create calls system config m (some s) =
    after_seal calls system config m (seal system calls.sync s)

unfoldable pub perform_rotation : RotationCalls → ℕ → WalConfig → RotationManager → Rotated
unfolding seal_and_create
perform_rotation calls system config m = seal_and_create calls system config m m.active_segment

-- The rotation holds the flag while it runs, and counts whether it succeeds or not.
unfoldable pub rotate_segment :
    RotationCalls → RotationTrigger → ℕ → ℕ → WalConfig → RotationManager → Rotated
unfolding perform_rotation update_rotation_stats
rotate_segment calls trigger duration_us system config m =
    let r = perform_rotation calls system config (record m { rotation_in_progress = true }) in
    if m.rotation_in_progress
    then record {
      manager = m;
      retired = none;
      answer = err (invalid_operation "Rotation already in progress");
    }
    else record {
      manager = record r.manager {
        rotation_in_progress = false;
        stats = update_rotation_stats trigger duration_us system r.manager.stats;
      };
      retired = r.retired;
      answer = r.answer;
    }

unfoldable pub force_rotation : RotationCalls → ℕ → ℕ → WalConfig → RotationManager → Rotated
unfolding rotate_segment
force_rotation calls duration_us system config m =
    rotate_segment calls manual duration_us system config m

abbrev pub stopped :
    RotationManager → WalSegment × WalResult (Unit {0}) → RotationManager × WalResult (Unit {0})
stopped m (s, err e) = (record m { active_segment = some s }, err e)
stopped m (s, ok _) = (
  record m {
    active_segment = some s;
    stats = record m.stats {
      segments_sealed = u64 (m.stats.segments_sealed + 1);
      shutdown_rotations = u64 (m.stats.shutdown_rotations + 1);
    };
  },
  ok tt,
)

abbrev pub stop_segment :
    ℕ → Option String → RotationManager → Option WalSegment → RotationManager × WalResult (Unit {0})
unfolding seal
stop_segment system failed m none = (m, ok tt)
stop_segment system failed m (some s) = stopped m (seal system failed s)

unfoldable pub stop : ℕ → Option String → RotationManager → RotationManager × WalResult (Unit {0})
unfolding stop_segment
stop system failed m =
    stop_segment system failed (record m { shutdown_flag = true }) m.active_segment
