-- ===== src/Wal/Entry.antt =====
-- `LogEntry` of kaelix-storage/src/wal/entry.rs. Bytes are numbers below 256; `crc32fast::hash` and
-- bincode are parameters. An error of `validate` keeps the words of its message without the numbers.
pub mod Validity
use Prim.Native.String.{String}
use kaelix.Base.{
  ℕ, ◌+◌, ◌-◌, ◌%◌, ◌^◌, ltb, ◌==◌, not, ◌&&◌, if◌then◌else◌, Bool, true, false, List, [], length,
}
use kaelix.Wal.Types.{WalError, io, serialization, corruption, WalResult, ok, err}

pub data EntryType : Type 0 where
  message control heartbeat : EntryType

pub record EntryMetadata : Type 0 where
  pub entry_type : EntryType
  pub version : ℕ
  pub flags : ℕ

abbrev pub metadata_of : EntryType → EntryMetadata
metadata_of t = record { entry_type = t; version = 1; flags = 0 }

pub record LogEntry : Type 0 where
  pub sequence_number : ℕ
  pub timestamp : ℕ
  pub metadata : EntryMetadata
  pub payload_length : ℕ
  pub checksum : ℕ
  pub payload : List ℕ

-- `as u32`.
abbrev pub u32 : ℕ → ℕ
u32 n = n % 2 ^ 32

unfoldable pub is_message : LogEntry → Bool
is_message e = elim e.metadata.entry_type [ message ↦ true | control ↦ false | heartbeat ↦ false ]

unfoldable pub is_control : LogEntry → Bool
is_control e = elim e.metadata.entry_type [ message ↦ false | control ↦ true | heartbeat ↦ false ]

unfoldable pub is_heartbeat : LogEntry → Bool
is_heartbeat e = elim e.metadata.entry_type [ message ↦ false | control ↦ false | heartbeat ↦ true ]

unfoldable pub is_checkpoint : LogEntry → Bool
unfolding is_control
is_checkpoint e = is_control e && e.metadata.flags % 2 == 1

unfoldable pub serialized_size : LogEntry → ℕ
serialized_size e = 24 + length e.payload

-- `now` is the time of the call.
unfoldable pub age_nanos : ℕ → LogEntry → ℕ
age_nanos now e = now - e.timestamp

unfoldable pub is_older_than : ℕ → ℕ → LogEntry → Bool
unfolding age_nanos
is_older_than now nanos e = ltb nanos (age_nanos now e)

unfoldable pub with_sequence : ℕ → LogEntry → LogEntry
with_sequence sequence_number e = record e { sequence_number = sequence_number }

unfoldable pub with_timestamp : ℕ → LogEntry → LogEntry
with_timestamp timestamp e = record e { timestamp = timestamp }

module _ (hash : List ℕ → ℕ) where
  abbrev pub make_entry : EntryMetadata → ℕ → ℕ → List ℕ → LogEntry
  make_entry metadata sequence_number timestamp payload = record {
    sequence_number = sequence_number;
    timestamp = timestamp;
    metadata = metadata;
    payload_length = u32 (length payload);
    checksum = hash payload;
    payload = payload;
  }

  -- `LogEntry::new`, with what bincode makes of the message.
  unfoldable pub new : ℕ → ℕ → WalResult (List ℕ) → WalResult LogEntry
  new sequence_number timestamp (ok payload) =
      ok (make_entry (metadata_of message) sequence_number timestamp payload)
  new sequence_number timestamp (err e) = err e

  unfoldable pub new_control : ℕ → ℕ → List ℕ → LogEntry
  new_control sequence_number timestamp control_data =
      make_entry (metadata_of control) sequence_number timestamp control_data

  unfoldable pub new_heartbeat : ℕ → ℕ → LogEntry
  new_heartbeat sequence_number timestamp =
      make_entry (metadata_of heartbeat) sequence_number timestamp []

  unfoldable pub checkpoint : ℕ → ℕ → List ℕ → LogEntry
  checkpoint sequence_number timestamp checkpoint_data =
      make_entry (record (metadata_of control) { flags = 1 }) sequence_number timestamp
        checkpoint_data

  unfoldable pub verify_integrity : LogEntry → Bool
  verify_integrity e = hash e.payload == e.checksum

  unfoldable pub update_checksum : LogEntry → LogEntry
  update_checksum e = record e {
    checksum = hash e.payload;
    payload_length = u32 (length e.payload);
  }

  unfoldable pub validate : LogEntry → WalResult (Unit {0})
  unfolding verify_integrity
  validate e =
      if not (e.payload_length == length e.payload)
      then err (corruption "payload length mismatch")
      else if not (verify_integrity e)
      then err (corruption "checksum mismatch")
      else if e.sequence_number == 0
      then err (corruption "invalid sequence number")
      else if e.timestamp == 0
      then err (corruption "invalid timestamp")
      else ok tt

-- `bincode::serialize` and `bincode::deserialize` on entries, with the error that the entry makes of
-- theirs.
pub record Codec : Type 0 where
  pub serialize : LogEntry → WalResult (List ℕ)
  pub deserialize : List ℕ → WalResult LogEntry

unfoldable pub deserialize_header : Codec → List ℕ → WalResult LogEntry
deserialize_header codec bytes =
    if ltb (length bytes) 24
    then err (io "Insufficient data for entry header")
    else codec.deserialize bytes
