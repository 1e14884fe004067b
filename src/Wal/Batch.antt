-- ===== src/Wal/Batch.antt =====
-- `BatchCoordinator` of kaelix-storage/src/wal/batch.rs. The channel is the list of the batches that
-- wait in it; its receiver lives as long as the coordinator, so that sending succeeds. A permit of the
-- semaphore is given back when `add_entry` ends, so that one caller always gets one. The metrics are
-- without the two averages, which are computed in floating point.
pub mod Order
pub mod Tasks
use kaelix.Base.{
  ℕ, ◌+◌, ◌/◌, max, ltb, leb, ◌==◌, ◌||◌, if◌then◌else◌, u64, Bool, true, false, List, [], ◌∷◌,
  ◌++◌, length, Option, none, some,
}
use kaelix.Wal.Types.{WalError, shutdown, WalResult, ok, err}
use kaelix.Wal.Entry.{LogEntry, serialized_size}

pub record BatchConfig : Type 0 where
  pub max_batch_size : ℕ
  pub max_batch_duration_us : ℕ
  pub max_memory_usage : ℕ
  pub adaptive_batching : Bool

pub record BatchResult : Type 0 where
  pub batch_size : ℕ
  pub batch_duration_us : ℕ
  pub memory_used : ℕ
  pub start_sequence : ℕ
  pub end_sequence : ℕ

pub record BatchMetrics : Type 0 where
  pub total_batches : ℕ
  pub total_entries : ℕ
  pub max_batch_size : ℕ
  pub min_batch_size : ℕ
  pub total_memory_used : ℕ
  pub backpressure_events : ℕ
  pub last_batch_timestamp : Option ℕ

pub record BatchCoordinator : Type 0 where
  pub config : BatchConfig
  pub current_batch : List LogEntry
  pub batch_ready : List (List LogEntry)
  pub is_shutdown : Bool
  pub permits : ℕ
  pub metrics : BatchMetrics

unfoldable pub make_coordinator : BatchConfig → BatchCoordinator
make_coordinator config = record {
  config = config;
  current_batch = [];
  batch_ready = [];
  is_shutdown = false;
  permits = max (config.max_memory_usage / 1024) 100;
  metrics = record {
    total_batches = 0;
    total_entries = 0;
    max_batch_size = 0;
    min_batch_size = 0;
    total_memory_used = 0;
    backpressure_events = 0;
    last_batch_timestamp = none;
  };
}

abbrev first_sequence : List LogEntry → ℕ
first_sequence [] = 0
first_sequence (e ∷ es) = e.sequence_number

abbrev last_sequence : List LogEntry → ℕ
last_sequence [] = 0
last_sequence (e ∷ []) = e.sequence_number
last_sequence (e ∷ f ∷ es) = last_sequence (f ∷ es)

abbrev memory_of : List LogEntry → ℕ
unfolding serialized_size
memory_of [] = 0
memory_of (e ∷ es) = serialized_size e + memory_of es

abbrev note_batch : ℕ → List LogEntry → BatchMetrics → BatchMetrics
unfolding memory_of
note_batch now batch m =
    let size = length batch in
    record m {
      total_batches = u64 (m.total_batches + 1);
      total_entries = u64 (m.total_entries + size);
      max_batch_size = if ltb m.max_batch_size size then size else m.max_batch_size;
      min_batch_size =
          if ltb size m.min_batch_size || m.min_batch_size == 0 then size else m.min_batch_size;
      total_memory_used = u64 (m.total_memory_used + memory_of batch);
      last_batch_timestamp = some now;
    }

-- The parts of the operations between which other tasks may run: each holds its lock, or is one call of
-- the channel. A push is the middle part of `add_entry`; `flush_batch` and the task of
-- `start_periodic_flush` take the batch, send it, and count it.
unfoldable pub push_entry : LogEntry → BatchCoordinator → BatchCoordinator
push_entry e c = record c { current_batch = c.current_batch ++ (e ∷ []) }

unfoldable pub take_batch : BatchCoordinator → BatchCoordinator × List LogEntry
take_batch c = (record c { current_batch = [] }, c.current_batch)

unfoldable pub send_batch : List LogEntry → BatchCoordinator → BatchCoordinator
send_batch batch c = record c { batch_ready = c.batch_ready ++ (batch ∷ []) }

unfoldable pub count_flush : ℕ → List LogEntry → BatchCoordinator → BatchCoordinator
unfolding note_batch
count_flush now batch c = record c { metrics = note_batch now batch c.metrics }

unfoldable pub count_tick : List LogEntry → BatchCoordinator → BatchCoordinator
count_tick batch c = record c {
  metrics = record c.metrics {
    total_batches = u64 (c.metrics.total_batches + 1);
    total_entries = u64 (c.metrics.total_entries + length batch);
  };
}

abbrev pub flush_entries :
    ℕ → ℕ → BatchCoordinator → List LogEntry → BatchCoordinator × Option BatchResult
unfolding memory_of take_batch send_batch count_flush
flush_entries now duration c [] = (c, none)
flush_entries now duration c (e ∷ es) =
    let batch = e ∷ es in
    (
      count_flush now batch (send_batch batch (take_batch c).0),
      some (record {
        batch_size = length batch;
        batch_duration_us = duration;
        memory_used = memory_of batch;
        start_sequence = first_sequence batch;
        end_sequence = last_sequence batch;
      }),
    )

-- `flush_batch` with nothing between its parts, at the system time `now`, in `duration` microseconds.
unfoldable pub flush_batch : ℕ → ℕ → BatchCoordinator → BatchCoordinator × Option BatchResult
unfolding flush_entries
flush_batch now duration c =
    if c.is_shutdown then (c, none) else flush_entries now duration c c.current_batch

unfoldable pub add_entry :
    ℕ → ℕ → LogEntry → BatchCoordinator → BatchCoordinator × WalResult (Unit {0})
unfolding push_entry flush_batch
add_entry now duration e c =
    let c' = push_entry e c in
    if c.is_shutdown
    then (c, err shutdown)
    else if leb c.config.max_batch_size (length c'.current_batch)
    then ((flush_batch now duration c').0, ok tt)
    else (c', ok tt)

abbrev pub tick_entries : BatchCoordinator → List LogEntry → BatchCoordinator
unfolding take_batch send_batch count_tick
tick_entries c [] = c
tick_entries c (e ∷ es) = let batch = e ∷ es in count_tick batch (send_batch batch (take_batch c).0)

-- A turn of the task that `start_periodic_flush` spawns, with nothing between its parts. Its test of the flag stands before the wait for
-- the interval, so that a turn may still run after a shutdown.
unfoldable pub periodic_tick : BatchCoordinator → BatchCoordinator
periodic_tick c = tick_entries c c.current_batch

pub data NextBatch : Type 0 where
  taken : List LogEntry → NextBatch
  waits ended : NextBatch

abbrev pub receive : BatchCoordinator → List (List LogEntry) → BatchCoordinator × NextBatch
receive c [] = (c, waits)
receive c (b ∷ bs) = (record c { batch_ready = bs }, taken b)

unfoldable pub next_batch : BatchCoordinator → BatchCoordinator × NextBatch
next_batch c = if c.is_shutdown then (c, ended) else receive c c.batch_ready

unfoldable pub set_shutdown : BatchCoordinator → BatchCoordinator
set_shutdown c = record c { is_shutdown = true }

unfoldable pub stop : ℕ → ℕ → BatchCoordinator → BatchCoordinator
unfolding flush_batch set_shutdown
stop now duration c = (flush_batch now duration (set_shutdown c)).0
