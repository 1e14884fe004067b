-- ===== src/Clock.antt =====
-- The clocks of kaelix-cluster/src/time/mod.rs.
pub mod Logical
pub mod Causality
pub mod Vector
pub mod Version
pub mod Hybrid
pub mod Synchronizer
mod Tests
