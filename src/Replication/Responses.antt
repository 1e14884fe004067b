-- ===== src/Replication/Responses.antt =====
-- The configuration of the quorums, the answers of replicas and the metrics:
-- kaelix-storage/src/replication/quorum.rs.
use Prim.Native.String.{String}
use kaelix.Base.{ℕ, ◌+◌, ltb, ◌==◌, if◌then◌else◌, u64, Bool, true, List, Option}
use kaelix.Raft.Types.{NodeId}
use kaelix.Replication.Types.{configuration_error, Result, ok, err}

pub record QuorumConfig : Type 0 where
  pub write_quorum : ℕ
  pub read_quorum : ℕ
  pub total_replicas : ℕ
  pub operation_timeout_us : ℕ
  pub strict_mode : Bool

abbrev pub default_config : QuorumConfig
default_config = record {
  write_quorum = 2;
  read_quorum = 1;
  total_replicas = 3;
  operation_timeout_us = 1_000_000;
  strict_mode = true;
}

unfoldable pub validate : QuorumConfig → Result (Unit {0})
validate c =
    if c.write_quorum == 0
    then err (configuration_error "write_quorum must be greater than 0")
    else if c.read_quorum == 0
    then err (configuration_error "read_quorum must be greater than 0")
    else if ltb c.total_replicas c.write_quorum
    then err (configuration_error "write_quorum cannot exceed total_replicas")
    else if ltb c.total_replicas c.read_quorum
    then err (configuration_error "read_quorum cannot exceed total_replicas")
    else ok tt

unfoldable pub supports_strong_consistency : QuorumConfig → Bool
supports_strong_consistency c = ltb c.total_replicas (u64 (c.write_quorum + c.read_quorum))

pub record QuorumResult : Type 0 where
  pub successful_responses : ℕ
  pub failed_responses : ℕ
  pub operation_time : ℕ
  pub quorum_achieved : Bool
  pub responding_replicas : List NodeId
  pub failed_replicas : List NodeId

pub record ReadResponse : Type 0 where
  pub value : Option (List ℕ)
  pub version : ℕ
  pub source_node : NodeId
  pub timestamp : ℕ

pub record WriteResponse : Type 0 where
  pub success : Bool
  pub version : ℕ
  pub source_node : NodeId
  pub error : Option String

pub record QuorumMetrics : Type 0 where
  pub total_reads : ℕ
  pub total_writes : ℕ
  pub successful_reads : ℕ
  pub successful_writes : ℕ
  pub avg_read_latency_us : ℕ
  pub avg_write_latency_us : ℕ
  pub quorum_failures : ℕ
  pub timeout_failures : ℕ

abbrev pub no_metrics : QuorumMetrics
no_metrics = record {
  total_reads = 0;
  total_writes = 0;
  successful_reads = 0;
  successful_writes = 0;
  avg_read_latency_us = 0;
  avg_write_latency_us = 0;
  quorum_failures = 0;
  timeout_failures = 0;
}
