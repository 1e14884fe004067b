-- ===== src/Wal/Types.antt =====
-- The errors of the write-ahead log: kaelix-storage/src/wal/mod.rs.
use Prim.Native.String.{String}
use kaelix.Base.{ℕ}

pub data WalError : Type 0 where
  io serialization validation segment : String → WalError
  segment_full segment_sealed : ℕ → WalError
  batch recovery configuration not_found already_exists : String → WalError
  invalid_operation invalid_path timeout corruption : String → WalError
  shutdown : WalError

pub data WalResult {ℓ} (A : Type ℓ) : Type ℓ where
  ok : A → WalResult A
  err : WalError → WalResult A
