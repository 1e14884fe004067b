-- ===== src/Wal/Segment/Reading.antt =====
-- Opening and reading a segment: kaelix-storage/src/wal/segment.rs.
pub mod Unreadable
mod Scan
use Prim.Native.String.{String}
use kaelix.Base.{
  ℕ, zero, suc, ◌+◌, ◌-◌, ◌^◌, ◌<◌, ltb, leb, ◌==◌, not, ◌&&◌, ◌||◌, if◌then◌else◌, u64, Bool, true,
  false, List, [], ◌∷◌, ◌++◌, length, take, drop, Option, none, some,
}
use kaelix.Wal.Types.{WalError, io, segment_full, segment_sealed, invalid_path, WalResult, ok, err}
use kaelix.Wal.Entry.{LogEntry, Codec, deserialize_header}
use kaelix.Wal.Segment.{
  or_first, SegmentMetadata, new_metadata, is_full, available_space, mark_synced, WalSegment, zeros,
  overwrite, slice, CreateCalls, call, maps, create, can_accept, WriteCall, advanced, write_to_file,
  write_bytes, write_serialized, write_entry, SyncPolicy, synced, sync, seal_after, seal,
}

-- What a scan has found.
pub record Scanned : Type 0 where
  pub entry_count : ℕ
  pub position : ℕ
  pub first_sequence : Option ℕ
  pub last_sequence : Option ℕ

abbrev pub found : Scanned → LogEntry → Scanned
found s e = record {
  entry_count = u64 (s.entry_count + 1);
  position = s.position + (24 + e.payload_length);
  first_sequence = or_first s.first_sequence e.sequence_number;
  last_sequence = some e.sequence_number;
}

-- The loop over the headers of a file without errors of the system; the position of the file is
-- `s.position`, which is far below 2^64. `none` is to run out of fuel.
unfoldable pub scan_loop : Codec → List ℕ → ℕ → Scanned → Option (WalResult Scanned)
unfolding deserialize_header slice
scan_loop codec content zero s = none
scan_loop codec content (suc fuel) s = elim (ltb (length content) (s.position + 24)) [
  | true ↦ some (ok s)
  | false ↦ elim (deserialize_header codec (slice s.position 24 content)) [
    | err e ↦ some (err (io "Failed to parse entry header"))
    | ok entry ↦ scan_loop codec content fuel (found s entry)
  ]
]

abbrev pub nothing_scanned : Scanned
nothing_scanned = record {
  entry_count = 0;
  position = 0;
  first_sequence = none;
  last_sequence = none;
}

unfoldable pub scan_segment : Codec → List ℕ → Option (WalResult Scanned)
unfolding scan_loop
scan_segment codec content = scan_loop codec content (suc (length content)) nothing_scanned

abbrev pub opened : ℕ → ℕ → String → List ℕ → Bool → WalResult Scanned → WalResult WalSegment
unfolding new_metadata
opened now id path content use_mmap (err e) = err e
opened now id path content use_mmap (ok s) = ok (record {
  metadata = record (new_metadata now id path (length content)) {
    size = s.position;
    entry_count = s.entry_count;
    first_sequence = s.first_sequence;
    last_sequence = s.last_sequence;
  };
  content = content;
  mapped = if maps use_mmap (length content) then some (length content) else none;
  write_position = s.position;
})

abbrev open_scanned :
    ℕ → ℕ → String → List ℕ → Bool → Option (WalResult Scanned) → Option (WalResult WalSegment)
unfolding opened
open_scanned now id path content use_mmap none = none
open_scanned now id path content use_mmap (some r) = some (opened now id path content use_mmap r)

-- `WalSegment::open`, where the calls before the scan succeed, for the number that the file name has
-- between its first two dashes.
unfoldable pub open_segment :
    Codec → ℕ → Option ℕ → String → List ℕ → Bool → Option (WalResult WalSegment)
unfolding scan_segment open_scanned
open_segment codec now none path content use_mmap =
    some (err (invalid_path "Cannot parse segment ID"))
open_segment codec now (some id) path content use_mmap =
    open_scanned now id path content use_mmap (scan_segment codec content)

abbrev pub read_mapped : Codec → ℕ → List ℕ → ℕ → WalResult LogEntry → WalResult LogEntry
unfolding slice
read_mapped codec position content map_length (err e) = err e
read_mapped codec position content map_length (ok header) =
    if ltb map_length (position + (24 + header.payload_length))
    then err (io "Insufficient data for full entry")
    else codec.deserialize (slice position (24 + header.payload_length) content)

abbrev pub read_file : Codec → ℕ → List ℕ → WalResult LogEntry → WalResult LogEntry
unfolding slice
read_file codec position content (err e) = err e
read_file codec position content (ok header) =
    if ltb (length content) (position + (24 + header.payload_length))
    then err (io "Failed to read payload")
    else codec.deserialize
        (slice position 24 content ++ slice (position + 24) header.payload_length content)

abbrev pub read_from : Codec → ℕ → List ℕ → Option ℕ → WalResult LogEntry
unfolding read_mapped read_file slice deserialize_header
read_from codec position content (some map_length) =
    if leb map_length position
    then err (io "Position beyond segment bounds")
    else if ltb map_length (position + 24)
    then err (io "Insufficient data for header")
    else read_mapped codec position content map_length
        (deserialize_header codec (slice position 24 content))
read_from codec position content none =
    if ltb (length content) (position + 24)
    then err (io "Failed to read header")
    else read_file codec position content (deserialize_header codec (slice position 24 content))

-- Where the seek succeeds.
unfoldable pub read_entry : Codec → ℕ → WalSegment → WalResult LogEntry
unfolding read_from
read_entry codec position s = read_from codec position s.content s.mapped
