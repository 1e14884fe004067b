-- ===== src/Membership.antt =====
-- Cluster membership by the SWIM protocol: kaelix-cluster/src/membership.
pub mod Types
pub mod Swim
pub mod Round
mod Tests
