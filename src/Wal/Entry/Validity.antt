-- ===== src/Wal/Entry/Validity.antt =====
-- Which entries are valid: kaelix-storage/src/wal/entry.rs.
use kaelix.Base.{ℕ, ◌<◌, ◌^◌, ◌≡◌, ◌≢◌, ◌↔◌, arith, List, length}
use kaelix.Wal.Types.{ok}
use kaelix.Wal.Entry.{LogEntry, validate, verify_integrity, update_checksum}

-- An entry that was built or whose checksum was updated is valid exactly when it has a sequence number
-- and a time and its payload is shorter than 2^32 bytes.
validate_iff :
    (hash : List ℕ → ℕ) (e : LogEntry)
    → (validate hash (update_checksum hash e) ≡ ok tt)
      ↔ ((e.sequence_number ≢ 0) × (e.timestamp ≢ 0) × (length e.payload < 2 ^ 32))
unfolding validate update_checksum verify_integrity
validate_iff hash e = ground arith
