-- ===== src/Wal.antt =====
-- The write-ahead log: kaelix-storage/src/wal.
pub mod Types
pub mod Entry
pub mod Segment
pub mod Batch
pub mod Rotation
pub mod Log
mod Tests
