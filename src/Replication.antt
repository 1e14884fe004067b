-- ===== src/Replication.antt =====
-- Replicated storage: kaelix-storage/src/replication.
pub mod Types
pub mod Responses
pub mod Quorum
pub mod Consistency
mod Tests
