-- ===== src/Replication/Quorum.antt =====
-- `QuorumManager` of kaelix-storage/src/replication/quorum.rs. Numbers of replicas
-- are usize; a duration is in microseconds. An operation runs as a whole: what other tasks do between
-- its two locks is not modelled.
pub mod Overlap
pub mod Latest
pub mod Reads
pub mod Accounts
use Prim.Native.String.{String}
use kaelix.Base.{
  ℕ, ◌+◌, ◌-◌, ◌*◌, ◌/◌, ltb, leb, ◌==◌, if◌then◌else◌, u64, Bool, true, false, List, [], ◌∷◌,
  length, take, Option, none, some,
}
use kaelix.Base.Sets.{add, discard}
use kaelix.Raft.Types.{NodeId}
use kaelix.Replication.Types.{
  ReplicationError, configuration_error, quorum_not_available, quorum_not_achieved,
  operation_timeout, Result, ok, err,
}
use kaelix.Replication.Responses.{
  QuorumConfig, validate, QuorumResult, ReadResponse, WriteResponse, QuorumMetrics, no_metrics,
}

pub record QuorumManager : Type 0 where
  pub config : QuorumConfig
  pub available_replicas : List NodeId
  pub metrics : QuorumMetrics

abbrev made : QuorumConfig → Result (Unit {0}) → Result QuorumManager
made config (err e) = err e
made config (ok _) = ok (record { config = config; available_replicas = []; metrics = no_metrics })

unfoldable pub new : QuorumConfig → Result QuorumManager
unfolding validate
new config = made config (validate config)

unfoldable pub update_available_replicas : List NodeId → QuorumManager → QuorumManager
update_available_replicas replicas m = record m { available_replicas = replicas }

unfoldable pub add_replica : NodeId → QuorumManager → QuorumManager
add_replica replica m = record m { available_replicas = add replica m.available_replicas }

unfoldable pub remove_replica : NodeId → QuorumManager → QuorumManager
remove_replica replica m = record m { available_replicas = discard replica m.available_replicas }

unfoldable pub can_read : QuorumManager → Bool
can_read m = leb m.config.read_quorum (length m.available_replicas)

unfoldable pub can_write : QuorumManager → Bool
can_write m = leb m.config.write_quorum (length m.available_replicas)

unfoldable pub available_replica_count : QuorumManager → ℕ
available_replica_count m = length m.available_replicas

-- What the timed call of one replica gives.
pub data Answer {ℓ} (A : Type ℓ) : Type ℓ where
  answered : A → Answer A
  refused : ReplicationError → Answer A
  late : Answer A

module _ {ℓ} {A : Type ℓ} (ask : NodeId → Answer A) (good : A → Bool) where
  abbrev pub keep_good : NodeId → Answer A → List (NodeId × A) → List (NodeId × A)
  keep_good k (answered a) rest = if good a then (k, a) ∷ rest else rest
  keep_good k (refused e) rest = rest
  keep_good k late rest = rest

  abbrev pub keep_failed : NodeId → Answer A → List NodeId → List NodeId
  keep_failed k (answered a) rest = if good a then rest else k ∷ rest
  keep_failed k (refused e) rest = k ∷ rest
  keep_failed k late rest = k ∷ rest

  -- The answers that count, in the order of the replicas that were asked, and the replicas of the others.
  unfoldable pub responses : List NodeId → List (NodeId × A)
  responses [] = []
  responses (k ∷ ks) = keep_good k (ask k) (responses ks)

  unfoldable pub failures : List NodeId → List NodeId
  failures [] = []
  failures (k ∷ ks) = keep_failed k (ask k) (failures ks)

abbrev pub responders {ℓ} : {A : Type ℓ} → List (NodeId × A) → List NodeId
responders [] = []
responders ((k, a) ∷ rs) = k ∷ responders rs

abbrev pub any_response : ReadResponse → Bool
any_response r = true

abbrev pub acknowledged : WriteResponse → Bool
acknowledged r = r.success

-- The average over `count` operations, with that of the last one.
unfoldable pub average : ℕ → ℕ → ℕ → ℕ
average avg count latency =
    if ltb 0 count then u64 (u64 (avg * (count - 1)) + latency) / count else avg

unfoldable pub note_read : Bool → ℕ → QuorumMetrics → QuorumMetrics
unfolding average
note_read achieved latency m =
    let successes = if achieved then u64 (m.successful_reads + 1) else m.successful_reads in
    record m {
      total_reads = u64 (m.total_reads + 1);
      successful_reads = successes;
      quorum_failures = if achieved then m.quorum_failures else u64 (m.quorum_failures + 1);
      avg_read_latency_us = average m.avg_read_latency_us successes latency;
    }

unfoldable pub note_write : Bool → ℕ → QuorumMetrics → QuorumMetrics
unfolding average
note_write achieved latency m =
    let successes = if achieved then u64 (m.successful_writes + 1) else m.successful_writes in
    record m {
      total_writes = u64 (m.total_writes + 1);
      successful_writes = successes;
      quorum_failures = if achieved then m.quorum_failures else u64 (m.quorum_failures + 1);
      avg_write_latency_us = average m.avg_write_latency_us successes latency;
    }

-- `max_by_key` takes the last of the responses with the highest version.
unfoldable pub latest : Option ReadResponse → List (NodeId × ReadResponse) → Option ReadResponse
latest best [] = best
latest none ((k, r) ∷ rs) = latest (some r) rs
latest (some best) ((k, r) ∷ rs) = latest (some (if leb best.version r.version then r else best)) rs

abbrev pub data_of : Option ReadResponse → Option (List ℕ)
data_of none = none
data_of (some r) = r.value

unfoldable pub selected : QuorumManager → List NodeId
selected m =
    if leb (length m.available_replicas) m.config.total_replicas
    then m.available_replicas
    else take m.config.total_replicas m.available_replicas

unfoldable pub quorum_read :
    (NodeId → String → Answer ReadResponse)
    → String
    → ℕ
    → QuorumManager
    → QuorumManager × Result (Option (List ℕ) × QuorumResult)
unfolding selected responses failures note_read latest
quorum_read read_fn key elapsed m =
    let asked : NodeId → Answer ReadResponse = λ k. read_fn k key in
    let available = length m.available_replicas in
    let good = responses asked any_response (selected m) in
    let bad = failures asked any_response (selected m) in
    let achieved = leb m.config.read_quorum (length good) in
    let noted = record m { metrics = note_read achieved (u64 elapsed) m.metrics } in
    if ltb available m.config.read_quorum
    then (
      record m {
        metrics = record m.metrics {
          total_reads = u64 (m.metrics.total_reads + 1);
          quorum_failures = u64 (m.metrics.quorum_failures + 1);
        };
      },
      err (quorum_not_available "Not enough replicas available" available m.config.read_quorum),
    )
    else if achieved
    then (
      noted,
      ok (
        data_of (latest none good),
        record {
          successful_responses = length good;
          failed_responses = length bad;
          operation_time = elapsed;
          quorum_achieved = true;
          responding_replicas = responders good;
          failed_replicas = bad;
        },
      ),
    )
    else (
      noted,
      err (quorum_not_achieved "Read quorum not achieved" (length good) m.config.read_quorum),
    )

unfoldable pub quorum_write :
    (NodeId → String → List ℕ → Answer WriteResponse)
    → String
    → List ℕ
    → ℕ
    → QuorumManager
    → QuorumManager × Result QuorumResult
unfolding responses failures note_write
quorum_write write_fn key value elapsed m =
    let asked : NodeId → Answer WriteResponse = λ k. write_fn k key value in
    let available = length m.available_replicas in
    let good = responses asked acknowledged m.available_replicas in
    let bad = failures asked acknowledged m.available_replicas in
    let achieved = leb m.config.write_quorum (length good) in
    let noted = record m { metrics = note_write achieved (u64 elapsed) m.metrics } in
    if ltb available m.config.write_quorum
    then (
      record m {
        metrics = record m.metrics {
          total_writes = u64 (m.metrics.total_writes + 1);
          quorum_failures = u64 (m.metrics.quorum_failures + 1);
        };
      },
      err (
          quorum_not_available "Not enough replicas available for write" available
            m.config.write_quorum),
    )
    else if achieved
    then (
      noted,
      ok (record {
        successful_responses = length good;
        failed_responses = length bad;
        operation_time = elapsed;
        quorum_achieved = true;
        responding_replicas = responders good;
        failed_replicas = bad;
      }),
    )
    else (
      noted,
      err (quorum_not_achieved "Write quorum not achieved" (length good) m.config.write_quorum),
    )
