-- ===== src/Raft.antt =====
-- The Raft node of kaelix-cluster/src/consensus/mod.rs: the inline module `raft`.
pub mod Types
pub mod Node
pub mod Log
pub mod Election
pub mod Append
pub mod Leader
pub mod Apply
pub mod Step
pub mod Timeouts
mod Tests
