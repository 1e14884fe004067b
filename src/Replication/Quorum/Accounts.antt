-- ===== src/Replication/Quorum/Accounts.antt =====
-- The metrics of the quorum manager account for every operation:
-- kaelix-storage/src/replication/quorum.rs.
use Prim.Native.String.{String}
use kaelix.Base.{
  ℕ, ◌+◌, ltb, leb, ◌≡◌, inl, inr, arith, u64, Bool, true, false, List, length, Bool-cases,
}
use kaelix.Raft.Types.{NodeId}
use kaelix.Replication.Types.{ok}
use kaelix.Replication.Quorum.{
  QuorumManager, Answer, new, update_available_replicas, add_replica, remove_replica, responses,
  any_response, acknowledged, selected, quorum_read, quorum_write, note_read, note_write,
}
use kaelix.Replication.Responses.{
  QuorumConfig, QuorumMetrics, ReadResponse, WriteResponse, validate,
}

pub data Step (m : QuorumManager) : QuorumManager → Type 0 where
  replaced : (ks : List NodeId) → Step m (update_available_replicas ks m)
  added : (k : NodeId) → Step m (add_replica k m)
  removed : (k : NodeId) → Step m (remove_replica k m)
  read :
      (read_fn : NodeId → String → Answer ReadResponse) (key : String) (elapsed : ℕ)
      → Step m (quorum_read read_fn key elapsed m).0
  wrote :
      (write_fn : NodeId → String → List ℕ → Answer WriteResponse) (key : String) (value : List ℕ)
      (elapsed : ℕ)
      → Step m (quorum_write write_fn key value elapsed m).0

pub data Reach (m : QuorumManager) : QuorumManager → Type 0 where
  here : Reach m m
  next : {t u : QuorumManager} → Reach m t → Step t u → Reach m u

-- Every operation counts as one success or one failure, and no failure counts as a timeout.
abbrev pub IsBalanced : QuorumMetrics → Type 0
IsBalanced m =
    (u64 (m.total_reads + m.total_writes)
      ≡ u64 (m.successful_reads + m.successful_writes + m.quorum_failures))
    × (m.timeout_failures ≡ 0)

note_read-IsBalanced :
    (achieved : Bool) (latency : ℕ) (m : QuorumMetrics)
    → IsBalanced m
    → IsBalanced (note_read achieved latency m)
unfolding note_read
note_read-IsBalanced achieved latency m h = ground (arith, h.0)

note_write-IsBalanced :
    (achieved : Bool) (latency : ℕ) (m : QuorumMetrics)
    → IsBalanced m
    → IsBalanced (note_write achieved latency m)
unfolding note_write
note_write-IsBalanced achieved latency m h = ground (arith, h.0)

failed_read-IsBalanced :
    (m : QuorumMetrics)
    → IsBalanced m
    → IsBalanced (record m {
      total_reads = u64 (m.total_reads + 1);
      quorum_failures = u64 (m.quorum_failures + 1);
    })
failed_read-IsBalanced m h = ground (arith, h.0)

failed_write-IsBalanced :
    (m : QuorumMetrics)
    → IsBalanced m
    → IsBalanced (record m {
      total_writes = u64 (m.total_writes + 1);
      quorum_failures = u64 (m.quorum_failures + 1);
    })
failed_write-IsBalanced m h = ground (arith, h.0)

read-IsBalanced :
    (read_fn : NodeId → String → Answer ReadResponse) (key : String) (elapsed : ℕ)
    (m : QuorumManager)
    → IsBalanced m.metrics
    → IsBalanced (quorum_read read_fn key elapsed m).0.metrics
unfolding quorum_read
read-IsBalanced read_fn key elapsed m h =
    let enough =
      leb m.config.read_quorum
        (length (responses (λ (k : NodeId). read_fn k key) any_response (selected m))) in
    elim (Bool-cases (ltb (length m.available_replicas) m.config.read_quorum)) [
      | inl few ↦ rw few (failed_read-IsBalanced m.metrics h)
      | inr many ↦ elim (Bool-cases enough) [
        | inl met ↦ rw (many, met) (note_read-IsBalanced true (u64 elapsed) m.metrics h)
        | inr missed ↦ rw (many, missed) (note_read-IsBalanced false (u64 elapsed) m.metrics h)
      ]
    ]

write-IsBalanced :
    (write_fn : NodeId → String → List ℕ → Answer WriteResponse) (key : String) (value : List ℕ)
    (elapsed : ℕ) (m : QuorumManager)
    → IsBalanced m.metrics
    → IsBalanced (quorum_write write_fn key value elapsed m).0.metrics
unfolding quorum_write
write-IsBalanced write_fn key value elapsed m h =
    let enough = leb m.config.write_quorum (
      length
        (responses (λ (k : NodeId). write_fn k key value) acknowledged m.available_replicas)) in
    elim (Bool-cases (ltb (length m.available_replicas) m.config.write_quorum)) [
      | inl few ↦ rw few (failed_write-IsBalanced m.metrics h)
      | inr many ↦ elim (Bool-cases enough) [
        | inl met ↦ rw (many, met) (note_write-IsBalanced true (u64 elapsed) m.metrics h)
        | inr missed ↦ rw (many, missed) (note_write-IsBalanced false (u64 elapsed) m.metrics h)
      ]
    ]

Step-IsBalanced : {m t : QuorumManager} → Step m t → IsBalanced m.metrics → IsBalanced t.metrics
unfolding update_available_replicas add_replica remove_replica
Step-IsBalanced (replaced ks) h = h
Step-IsBalanced (added k) h = h
Step-IsBalanced (removed k) h = h
Step-IsBalanced {m} (read read_fn key elapsed) h = read-IsBalanced read_fn key elapsed m h
Step-IsBalanced {m} (wrote write_fn key value elapsed) h =
    write-IsBalanced write_fn key value elapsed m h

new-IsBalanced : (c : QuorumConfig) (m : QuorumManager) → new c ≡ ok m → IsBalanced m.metrics
unfolding new validate
new-IsBalanced c m h = ground arith

-- After any sequence of operations of a new manager the reads and writes are as many as the successful
-- reads, the successful writes and the quorum failures, in 64 bits; and no operation, not even one that
-- every replica let time out, has counted as a timeout failure.
pub Reach-IsBalanced :
    (c : QuorumConfig) {m t : QuorumManager} → new c ≡ ok m → Reach m t → IsBalanced t.metrics
Reach-IsBalanced c {m} made here = new-IsBalanced c m made
Reach-IsBalanced c made (next r s) = Step-IsBalanced s (Reach-IsBalanced c made r)
