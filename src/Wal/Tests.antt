-- ===== src/Wal/Tests.antt =====
-- The write-ahead log: each theorem at a concrete input.
use kaelix.Base.{
  true, ℕ, ◌<◌, ◌^◌, ltb, if◌then◌else◌, ◌≡◌, refl, subst, lt→ltb, arith, false, List, [], ◌∷◌,
  ◌++◌, length, none,
}
use kaelix.Wal.Types.{serialization, WalResult, ok, err}
use kaelix.Wal.Entry.{LogEntry, Codec, metadata_of, message}
use kaelix.Wal.Segment.{
  WalSegment, CreateCalls, create, new_metadata, zeros, slice, all_written, write_entry, seal,
}
use kaelix.Wal.Segment.Reading.{read_entry}
use kaelix.Wal.Segment.Capacity.{Reach-IsSound}
use kaelix.Wal.Segment.Steps.{here, next, wrote, sealed_off}
use kaelix.Wal.Segment.Steps.{IsSound, Extends}
use kaelix.Wal.Segment.Written.{write_entry_persists}
use kaelix.Wal.Segment.Reading.Unreadable.{IsError, read_entry-IsError}
use kaelix.Wal.Batch.{
  BatchConfig, BatchCoordinator, make_coordinator, push_entry, take_batch, send_batch,
}
use kaelix.Wal.Rotation.{default_config, size_due}
use kaelix.Wal.Rotation.Triggers.{size_never_due}

abbrev entry : LogEntry
entry = record {
  sequence_number = 1;
  timestamp = 100;
  metadata = metadata_of message;
  payload_length = 2;
  checksum = 7;
  payload = 8 ∷ 9 ∷ [];
}

-- An entry takes 39 bytes and its payload.
abbrev plain : Codec
plain = record {
  serialize = λ e. ok (zeros 39 ++ e.payload);
  deserialize =
      λ bytes. if ltb (length bytes) 39 then err (serialization "unexpected end") else ok entry;
}

abbrev no_errors : CreateCalls
no_errors = record { create_dir = none; open_file = none; set_len = none; map_file = none }

-- A segment of 50 bytes, not mapped.
abbrev blank : WalSegment
blank = record {
  metadata = new_metadata 0 1 "1.wal" 50;
  content = zeros 50;
  mapped = none;
  write_position = 0;
}

abbrev written : WalSegment
written = (write_entry plain all_written entry blank).0

blank-IsSound : IsSound blank
unfolding new_metadata
blank-IsSound = record {
  position = refl;
  room = omega arith;
  allocated = refl;
  addressable = omega arith;
  covered = tt;
}

ok-injective : {a b : List ℕ} → WalResult.ok a ≡ ok b → a ≡ b
ok-injective e = ground arith

short_entry : (bytes : List ℕ) → plain.serialize entry ≡ ok bytes → length bytes < 2 ^ 63
short_entry bytes e = subst (λ b. length b < 2 ^ 63) (ok-injective e) (omega arith)

needs_all : (bytes : List ℕ) → length bytes < 39 → IsError (plain.deserialize bytes)
needs_all bytes few = rw (lt→ltb (length bytes) 39 few) tt

Reach-IsSound_example : IsSound written × Extends written (seal 5 none written).0
unfolding create new_metadata
Reach-IsSound_example =
    Reach-IsSound plain no_errors 0 1 "1.wal" 50 false {s = blank} (omega arith) refl
      (next here (wrote all_written entry short_entry)) (next here (sealed_off 5 none))

write_entry_persists_example : slice 0 41 (seal 5 none written).0.content ≡ zeros 39 ++ (8 ∷ 9 ∷ [])
unfolding write_entry new_metadata
write_entry_persists_example =
    write_entry_persists plain all_written entry (zeros 39 ++ entry.payload) 0 blank
      (seal 5 none written).0 blank-IsSound refl (omega arith) refl (next here (sealed_off 5 none))

read_entry-IsError_example : IsError (read_entry plain 0 written)
read_entry-IsError_example = read_entry-IsError plain 0 written needs_all

size_never_due_example : size_due default_config written ≡ false
unfolding create new_metadata write_entry
size_never_due_example =
    (size_never_due plain no_errors 0 1 "1.wal" 50 false default_config {s = blank} (omega arith)
      refl (next here (wrote all_written entry short_entry)) (omega arith)).0

abbrev batches_of_two : BatchConfig
batches_of_two = record {
  max_batch_size = 2;
  max_batch_duration_us = 10_000;
  max_memory_usage = 0;
  adaptive_batching = true;
}

abbrev numbered : ℕ → LogEntry
numbered n = record entry { sequence_number = n }

-- Two entries are a batch that was given out, while the batch of the third is in flight.
abbrev third_taken : BatchCoordinator
third_taken =
    (take_batch (
      push_entry (numbered 3) (
        send_batch (numbered 1 ∷ numbered 2 ∷ [])
          (take_batch (
            push_entry (numbered 2)
              (push_entry (numbered 1) (make_coordinator batches_of_two)))).0))).0
