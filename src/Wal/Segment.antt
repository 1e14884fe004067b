-- ===== src/Wal/Segment.antt =====
-- `WalSegment` of kaelix-storage/src/wal/segment.rs. The memory map is shared with the file, so that
-- both are one list of bytes. What the operating system answers to a call is an argument: `none` where
-- the call succeeds, else the text of its error.
pub mod Bytes
pub mod Steps
pub mod Capacity
pub mod Written
pub mod Reading
use Prim.Native.String.{String}
use kaelix.Base.{
  ℕ, zero, suc, ◌+◌, ◌-◌, ◌^◌, ◌<◌, ltb, leb, ◌==◌, not, ◌&&◌, ◌||◌, if◌then◌else◌, u64, Bool, true,
  false, List, [], ◌∷◌, ◌++◌, length, take, drop, Option, none, some,
}
use kaelix.Wal.Types.{WalError, io, segment_full, segment_sealed, invalid_path, WalResult, ok, err}
use kaelix.Wal.Entry.{LogEntry, Codec, deserialize_header}

pub record SegmentMetadata : Type 0 where
  pub id : ℕ
  pub path : String
  pub size : ℕ
  pub capacity : ℕ
  pub entry_count : ℕ
  pub first_sequence : Option ℕ
  pub last_sequence : Option ℕ
  pub created_at : ℕ
  pub last_sync : Option ℕ
  pub sealed : Bool

unfoldable pub new_metadata : ℕ → ℕ → String → ℕ → SegmentMetadata
new_metadata now id path capacity = record {
  id = id;
  path = path;
  size = 0;
  capacity = capacity;
  entry_count = 0;
  first_sequence = none;
  last_sequence = none;
  created_at = now;
  last_sync = none;
  sealed = false;
}

unfoldable pub is_full : SegmentMetadata → Bool
is_full m = leb m.capacity m.size

unfoldable pub available_space : SegmentMetadata → ℕ
available_space m = m.capacity - m.size

unfoldable pub mark_synced : ℕ → SegmentMetadata → SegmentMetadata
mark_synced now m = record m { last_sync = some now }

-- `content` is the file, `mapped` how many of its bytes are mapped, where they are.
pub record WalSegment : Type 0 where
  pub metadata : SegmentMetadata
  pub content : List ℕ
  pub mapped : Option ℕ
  pub write_position : ℕ

abbrev pub zeros : ℕ → List ℕ
zeros zero = []
zeros (suc n) = 0 ∷ zeros n

-- The file after bytes were written at a position; a gap before it is filled with zeros.
unfoldable pub overwrite : ℕ → List ℕ → List ℕ → List ℕ
overwrite position bytes content =
    take position content
    ++ (zeros (position - length content) ++ (bytes ++ drop (position + length bytes) content))

unfoldable pub slice : ℕ → ℕ → List ℕ → List ℕ
slice position count content = take count (drop position content)

-- The answers to the calls of `create`, in their order.
pub record CreateCalls : Type 0 where
  pub create_dir : Option String
  pub open_file : Option String
  pub set_len : Option String
  pub map_file : Option String

abbrev pub call {ℓ} : {A : Type ℓ} → Option String → WalResult A → WalResult A
call none next = next
call (some text) next = err (io text)

-- The mapping is asked for, and the file is not empty.
abbrev pub maps : Bool → ℕ → Bool
maps use_mmap size = use_mmap && ltb 0 size

unfoldable pub create : CreateCalls → ℕ → ℕ → String → ℕ → Bool → WalResult WalSegment
unfolding new_metadata
create calls now id path capacity use_mmap = call calls.create_dir (
    call calls.open_file (
      call calls.set_len (
        call (if maps use_mmap capacity then calls.map_file else none) (
          ok (record {
            metadata = new_metadata now id path capacity;
            content = zeros capacity;
            mapped = if maps use_mmap capacity then some capacity else none;
            write_position = 0;
          })))))

unfoldable pub can_accept : ℕ → WalSegment → Bool
can_accept entry_size s =
    not s.metadata.sealed && leb (u64 (s.write_position + entry_size)) s.metadata.capacity

-- The answers to `seek` and `write_all`; the latter may have written some of the bytes when it fails.
pub data WriteCall : Type 0 where
  all_written : WriteCall
  seek_failed : String → WriteCall
  write_failed : ℕ → String → WriteCall

abbrev pub or_first : Option ℕ → ℕ → Option ℕ
or_first none sequence = some sequence
or_first (some first) sequence = some first

abbrev pub advanced : LogEntry → List ℕ → WalSegment → WalSegment
unfolding overwrite
advanced e bytes s =
    let position = u64 (s.write_position + length bytes) in
    record s {
      content = overwrite s.write_position bytes s.content;
      write_position = position;
      metadata = record s.metadata {
        size = position;
        entry_count = u64 (s.metadata.entry_count + 1);
        first_sequence = or_first s.metadata.first_sequence e.sequence_number;
        last_sequence = some e.sequence_number;
      };
    }

abbrev pub write_to_file : LogEntry → List ℕ → WalSegment → WriteCall → WalSegment × WalResult ℕ
unfolding advanced overwrite
write_to_file e bytes s all_written = (advanced e bytes s, ok s.write_position)
write_to_file e bytes s (seek_failed text) = (s, err (io text))
write_to_file e bytes s (write_failed count text) =
    (record s { content = overwrite s.write_position (take count bytes) s.content }, err (io text))

abbrev pub write_bytes :
    LogEntry → List ℕ → WalSegment → WriteCall → Option ℕ → WalSegment × WalResult ℕ
unfolding write_to_file advanced
write_bytes e bytes s w none = write_to_file e bytes s w
write_bytes e bytes s w (some map_length) =
    if leb (u64 (s.write_position + length bytes)) map_length
    then (advanced e bytes s, ok s.write_position)
    else (s, err (segment_full s.metadata.id))

unfoldable pub write_serialized :
    LogEntry → WalSegment → WriteCall → WalResult (List ℕ) → WalSegment × WalResult ℕ
unfolding write_bytes
write_serialized e s w (err x) = (s, err x)
write_serialized e s w (ok bytes) =
    if s.metadata.sealed
    then (s, err (segment_sealed s.metadata.id))
    else if ltb s.metadata.capacity (u64 (s.write_position + length bytes))
    then (s, err (segment_full s.metadata.id))
    else write_bytes e bytes s w s.mapped

unfoldable pub write_entry : Codec → WriteCall → LogEntry → WalSegment → WalSegment × WalResult ℕ
unfolding write_serialized
write_entry codec w e s = write_serialized e s w (codec.serialize e)

pub data SyncPolicy : Type 0 where
  never always on_batch on_shutdown : SyncPolicy
  interval : ℕ → SyncPolicy

abbrev pub synced : ℕ → WalSegment → Option String → WalSegment × WalResult (Unit {0})
unfolding mark_synced
synced now s none = (record s { metadata = mark_synced now s.metadata }, ok tt)
synced now s (some text) = (s, err (io text))

-- With the error of `flush` or `sync_data`, where there is one.
unfoldable pub sync :
    ℕ → Option String → SyncPolicy → WalSegment → WalSegment × WalResult (Unit {0})
unfolding synced
sync now failed never s = synced now s none
sync now failed always s = synced now s failed
sync now failed on_batch s = synced now s failed
sync now failed on_shutdown s = synced now s failed
sync now failed (interval ms) s = synced now s failed

abbrev pub seal_after : WalSegment × WalResult (Unit {0}) → WalSegment × WalResult (Unit {0})
seal_after (s, ok u) = (record s { metadata = record s.metadata { sealed = true } }, ok tt)
seal_after (s, err e) = (s, err e)

unfoldable pub seal : ℕ → Option String → WalSegment → WalSegment × WalResult (Unit {0})
unfolding sync
seal now failed s = seal_after (sync now failed always s)
