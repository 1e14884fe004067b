-- ===== src/Wal/Rotation.antt =====
-- `RotationManager` of kaelix-storage/src/wal/rotation.rs. Instants and system times are milliseconds,
-- rotation times microseconds. The task that records the active segment's identifier runs at once.
pub mod Triggers
pub mod Rotating
use Prim.Native.String.{String}
use kaelix.Base.{
  ℕ, ◌+◌, ◌-◌, ◌*◌, ◌/◌, ltb, leb, ◌==◌, not, ◌&&◌, if◌then◌else◌, u64, max, Bool, true, false,
  Option, none, some,
}
use kaelix.Wal.Types.{WalError, invalid_operation, WalResult, ok, err}
use kaelix.Wal.Segment.{WalSegment, CreateCalls, create, seal}

pub record RotationConfig : Type 0 where
  pub max_segment_size : ℕ
  pub max_segment_age : ℕ
  pub max_entries_per_segment : ℕ
  pub min_free_space : ℕ
  pub enable_time_rotation : Bool
  pub enable_size_rotation : Bool
  pub enable_count_rotation : Bool
  pub check_interval_ms : ℕ

abbrev pub default_config : RotationConfig
default_config = record {
  max_segment_size = 256 * 1024 * 1024;
  max_segment_age = 3600;
  max_entries_per_segment = 1_000_000;
  min_free_space = 1024 * 1024 * 1024;
  enable_time_rotation = true;
  enable_size_rotation = true;
  enable_count_rotation = false;
  check_interval_ms = 1000;
}

-- The text of the error, where there is one.
unfoldable pub validate : RotationConfig → Option String
validate c =
    if c.max_segment_size == 0
    then some "max_segment_size must be greater than 0"
    else if c.max_segment_age == 0 && c.enable_time_rotation
    then some "max_segment_age must be greater than 0 when time rotation is enabled"
    else if c.max_entries_per_segment == 0 && c.enable_count_rotation
    then some "max_entries_per_segment must be greater than 0 when count rotation is enabled"
    else if c.check_interval_ms == 0
    then some "check_interval_ms must be greater than 0"
    else none

pub data RotationTrigger : Type 0 where
  size time count manual disk_space shutdown : RotationTrigger

pub record RotationStats : Type 0 where
  pub total_rotations : ℕ
  pub size_rotations : ℕ
  pub time_rotations : ℕ
  pub count_rotations : ℕ
  pub manual_rotations : ℕ
  pub disk_space_rotations : ℕ
  pub shutdown_rotations : ℕ
  pub avg_rotation_time_us : ℕ
  pub peak_rotation_time_us : ℕ
  pub total_rotation_time_us : ℕ
  pub last_rotation_time : Option ℕ
  pub active_segment_id : Option ℕ
  pub segments_created : ℕ
  pub segments_sealed : ℕ

abbrev pub no_stats : RotationStats
no_stats = record {
  total_rotations = 0;
  size_rotations = 0;
  time_rotations = 0;
  count_rotations = 0;
  manual_rotations = 0;
  disk_space_rotations = 0;
  shutdown_rotations = 0;
  avg_rotation_time_us = 0;
  peak_rotation_time_us = 0;
  total_rotation_time_us = 0;
  last_rotation_time = none;
  active_segment_id = none;
  segments_created = 0;
  segments_sealed = 0;
}

pub record RotationManager : Type 0 where
  pub config : RotationConfig
  pub active_segment : Option WalSegment
  pub stats : RotationStats
  pub last_check_time : ℕ
  pub rotation_in_progress : Bool
  pub shutdown_flag : Bool

unfoldable pub new : ℕ → RotationConfig → RotationManager
new now config = record {
  config = config;
  active_segment = none;
  stats = no_stats;
  last_check_time = now;
  rotation_in_progress = false;
  shutdown_flag = false;
}

unfoldable pub set_active_segment : WalSegment → RotationManager → RotationManager
set_active_segment segment m = record m {
  active_segment = some segment;
  stats = record m.stats { active_segment_id = some segment.metadata.id };
}

unfoldable pub size_due : RotationConfig → WalSegment → Bool
size_due c s = c.enable_size_rotation && leb c.max_segment_size s.metadata.size

unfoldable pub time_due : RotationConfig → ℕ → WalSegment → Bool
time_due c system s =
    c.enable_time_rotation && leb c.max_segment_age ((system - s.metadata.created_at) / 1000)

unfoldable pub count_due : RotationConfig → WalSegment → Bool
count_due c s = c.enable_count_rotation && leb c.max_entries_per_segment s.metadata.entry_count

abbrev pub check_segment :
    RotationConfig → ℕ → Option WalSegment → WalResult (Option RotationTrigger)
unfolding size_due time_due count_due
check_segment c system none = ok none
check_segment c system (some s) =
    if size_due c s
    then ok (some size)
    else if c.enable_time_rotation && ltb system s.metadata.created_at
    then err (invalid_operation "Clock error")
    else if time_due c system s
    then ok (some time)
    else if count_due c s
    then ok (some count)
    else ok none

-- At the instant `now`, which is `system` on the system clock.
unfoldable pub check_rotation_needed :
    ℕ → ℕ → RotationManager → RotationManager × WalResult (Option RotationTrigger)
unfolding check_segment
check_rotation_needed now system m =
    let m' = record m { last_check_time = now } in
    if ltb (now - m.last_check_time) m.config.check_interval_ms
    then (m, ok none)
    else if m.shutdown_flag
    then (m', ok (some shutdown))
    else (m', check_segment m.config system m.active_segment)

unfoldable pub next_segment_id : Option WalSegment → ℕ
next_segment_id none = 1
next_segment_id (some current) = u64 (current.metadata.id + 1)

abbrev pub count_trigger : RotationTrigger → RotationStats → RotationStats
count_trigger size s = record s { size_rotations = u64 (s.size_rotations + 1) }
count_trigger time s = record s { time_rotations = u64 (s.time_rotations + 1) }
count_trigger count s = record s { count_rotations = u64 (s.count_rotations + 1) }
count_trigger manual s = record s { manual_rotations = u64 (s.manual_rotations + 1) }
count_trigger disk_space s = record s { disk_space_rotations = u64 (s.disk_space_rotations + 1) }
count_trigger shutdown s = record s { shutdown_rotations = u64 (s.shutdown_rotations + 1) }

unfoldable pub update_rotation_stats : RotationTrigger → ℕ → ℕ → RotationStats → RotationStats
update_rotation_stats trigger duration_us system s =
    let counted =
      count_trigger trigger (record s { total_rotations = u64 (s.total_rotations + 1) }) in
    let spent = u64 (s.total_rotation_time_us + duration_us) in
    record counted {
      total_rotation_time_us = spent;
      peak_rotation_time_us = max s.peak_rotation_time_us duration_us;
      avg_rotation_time_us =
          if ltb 0 counted.total_rotations
          then spent / counted.total_rotations
          else s.avg_rotation_time_us;
      last_rotation_time = some system;
    }
