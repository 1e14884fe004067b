-- ===== src/Replication/Types.antt =====
-- The errors of replication: kaelix-storage/src/replication/mod.rs.
use Prim.Native.String.{String}
use kaelix.Base.{ℕ}
use kaelix.Wal.Types.{WalError}

-- `quorum_not_available` and `quorum_not_achieved` keep the beginning of the message and the two
-- numbers that it prints.
pub data ReplicationError : Type 0 where
  wal : WalError → ReplicationError
  network consensus configuration_error replica_not_available replica_not_found :
      String → ReplicationError
  quorum_not_available quorum_not_achieved : String → ℕ → ℕ → ReplicationError
  consistency_violation session_not_found : String → ReplicationError
  operation_timeout : ReplicationError
  serialization : String → ReplicationError
  shutdown : ReplicationError

pub data Result {ℓ} (A : Type ℓ) : Type ℓ where
  ok : A → Result A
  err : ReplicationError → Result A
