-- ===== src/Wal/Log.antt =====
-- `Wal` of kaelix-storage/src/wal/mod.rs. The managers of batches and of recovery take no part in its
-- operations. Times are nanoseconds. The statistics are without the compression ratio, which is a
-- floating-point number and never set.
pub mod Shutdown
use Prim.Native.String.{String}
use kaelix.Base.{ℕ, ◌+◌, if◌then◌else◌, u64, Bool, true, false, List, [], Option, none, some}
use kaelix.Wal.Types.{WalError, invalid_operation, shutdown, WalResult, ok, err}
use kaelix.Wal.Entry.{LogEntry, Codec, new, serialized_size}
use kaelix.Wal.Segment.{WalSegment, WriteCall, write_entry, seal}
use kaelix.Wal.Rotation.{RotationManager}
use kaelix.Wal.Rotation.Rotating.{stop}

pub record WalStats : Type 0 where
  pub entries_written : ℕ
  pub entries_read : ℕ
  pub bytes_written : ℕ
  pub bytes_read : ℕ
  pub active_segments : ℕ
  pub segments_created : ℕ
  pub batch_operations : ℕ
  pub avg_write_latency_us : ℕ
  pub avg_read_latency_us : ℕ
  pub peak_write_latency_us : ℕ
  pub peak_read_latency_us : ℕ
  pub errors_total : ℕ
  pub recovery_operations : ℕ

abbrev pub no_stats : WalStats
no_stats = record {
  entries_written = 0;
  entries_read = 0;
  bytes_written = 0;
  bytes_read = 0;
  active_segments = 0;
  segments_created = 0;
  batch_operations = 0;
  avg_write_latency_us = 0;
  avg_read_latency_us = 0;
  peak_write_latency_us = 0;
  peak_read_latency_us = 0;
  errors_total = 0;
  recovery_operations = 0;
}

pub record Wal : Type 0 where
  pub active_segment : Option WalSegment
  pub rotation_manager : RotationManager
  pub stats : WalStats
  pub shutdown_flag : Bool

-- `Wal::new` once the managers are made, with the result of creating the first segment.
unfoldable pub new_log : RotationManager → WalResult WalSegment → WalResult Wal
new_log manager (err e) = err e
new_log manager (ok segment) = ok (record {
  active_segment = some segment;
  rotation_manager = manager;
  stats = no_stats;
  shutdown_flag = false;
})

abbrev pub wrote_entry : LogEntry → Wal → WalSegment × WalResult ℕ → Wal × WalResult ℕ
unfolding serialized_size
wrote_entry e w (s, err x) = (record w { active_segment = some s }, err x)
wrote_entry e w (s, ok position) = (
  record w {
    active_segment = some s;
    stats = record w.stats {
      entries_written = u64 (w.stats.entries_written + 1);
      bytes_written = u64 (w.stats.bytes_written + serialized_size e);
    };
  },
  ok position,
)

abbrev pub write_new :
    Codec → WriteCall → Wal → Option WalSegment → WalResult LogEntry → Wal × WalResult ℕ
unfolding wrote_entry write_entry
write_new codec call w s (err x) = (w, err x)
write_new codec call w none (ok e) = (w, err (invalid_operation "No active segment"))
write_new codec call w (some s) (ok e) = wrote_entry e w (write_entry codec call e s)

-- With what bincode makes of the message, and what the system answers to the write.
unfoldable pub write :
    (List ℕ → ℕ) → Codec → WriteCall → ℕ → WalResult (List ℕ) → Wal → Wal × WalResult ℕ
unfolding new write_new
write hash codec call now message w =
    if w.shutdown_flag
    then (w, err shutdown)
    else write_new codec call w w.active_segment (new hash 1 now message)

unfoldable pub read : ℕ → ℕ → Wal → Wal × WalResult (List LogEntry)
read start_sequence limit w = if w.shutdown_flag then (w, err shutdown) else (
  record w { stats = record w.stats { entries_read = u64 (w.stats.entries_read + limit) } },
  ok [],
)

abbrev pub sealed_log : Wal → WalSegment × WalResult (Unit {0}) → Wal × WalResult (Unit {0})
sealed_log w (s, r) = (record w { active_segment = some s }, r)

abbrev pub seal_active : ℕ → Option String → Wal → Option WalSegment → Wal × WalResult (Unit {0})
unfolding seal
seal_active now failed w none = (w, ok tt)
seal_active now failed w (some s) = sealed_log w (seal now failed s)

abbrev pub after_stop :
    ℕ → Option String → Wal → RotationManager × WalResult (Unit {0}) → Wal × WalResult (Unit {0})
unfolding seal_active
after_stop now failed w (m, err x) = (record w { rotation_manager = m }, err x)
after_stop now failed w (m, ok _) =
    seal_active now failed (record w { rotation_manager = m }) w.active_segment

-- With what the system answers to the syncs of the manager's segment and of the log's own.
unfoldable pub close : ℕ → Option String → Option String → Wal → Wal × WalResult (Unit {0})
unfolding after_stop stop
close now manager_failed failed w =
    let w' = record w { shutdown_flag = true } in
    after_stop now failed w' (stop now manager_failed w.rotation_manager)
