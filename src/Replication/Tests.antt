-- ===== src/Replication/Tests.antt =====
-- Quorum operations and the consistency checks: each theorem at a concrete input.
use Prim.Native.String.{String}
use kaelix.Base.{ℕ, ◌≤◌, ◌==◌, if◌then◌else◌, ◌≡◌, refl, arith, true, List, [], ◌∷◌, none, some}
use kaelix.Base.Assoc.{contains, insert, lookup}
use kaelix.Raft.Types.{NodeId}
use kaelix.Replication.Quorum.{
  QuorumManager, Answer, answered, late, responses, selected, new, add_replica, quorum_read,
  quorum_write,
}
use kaelix.Replication.Responses.{
  QuorumConfig, QuorumResult, ReadResponse, WriteResponse, no_metrics, validate,
  supports_strong_consistency,
}
use kaelix.Replication.Quorum.Reads.{read_sees_write}
use kaelix.Replication.Quorum.Accounts.{IsBalanced, here, next, added, read, Reach-IsBalanced}
use kaelix.Replication.Consistency.{
  ConsistencyManager, SessionInfo, read_your_writes, monotonic, check_read_consistency,
  create_session, update_session_write,
}
use kaelix.Replication.Consistency as Consistency
use kaelix.Replication.Consistency.Sessions.{reads_own_writes, record_all, covers_all, wrote}
use kaelix.Replication.Consistency.Sessions as Sessions

-- Two of three replicas for a write as for a read.
abbrev strict : QuorumConfig
strict = record {
  write_quorum = 2;
  read_quorum = 2;
  total_replicas = 3;
  operation_timeout_us = 1_000_000;
  strict_mode = true;
}

-- The third replica is not available when the write is made, the first when the read is.
abbrev writer : QuorumManager
writer = record { config = strict; available_replicas = 1 ∷ 2 ∷ []; metrics = no_metrics }

abbrev reader : QuorumManager
reader = record { config = strict; available_replicas = 2 ∷ 3 ∷ []; metrics = no_metrics }

abbrev accept : NodeId → String → List ℕ → Answer WriteResponse
accept k key value =
    answered (record { success = true; version = 5; source_node = k; error = none })

abbrev respond : NodeId → String → Answer ReadResponse
respond k key = answered (
    if k == 3
    then record { value = none; version = 0; source_node = k; timestamp = 0 }
    else record { value = some (7 ∷ []); version = 5; source_node = k; timestamp = 1 })

abbrev acks : QuorumResult
acks = record {
  successful_responses = 2;
  failed_responses = 0;
  operation_time = 10;
  quorum_achieved = true;
  responding_replicas = 1 ∷ 2 ∷ [];
  failed_replicas = [];
}

abbrev heard : QuorumResult
heard = record acks { responding_replicas = 2 ∷ 3 ∷ [] }

respond_newer :
    (k : NodeId) (a : ReadResponse)
    → contains k (1 ∷ 2 ∷ []) ≡ true
    → respond k "k" ≡ answered a
    → 5 ≤ a.version
unfolding contains
respond_newer k a acked e = ground arith

read_sees_write_example :
    (k : NodeId) × (a : ReadResponse) × (contains k (2 ∷ 3 ∷ []) ≡ true)
    × (respond k "k" ≡ answered a)
    × (some (7 ∷ []) ≡ a.value)
    × ((j : NodeId) (b : ReadResponse)
        → contains j (2 ∷ 3 ∷ []) ≡ true
        → respond j "k" ≡ answered b
        → b.version ≤ a.version)
    × (5 ≤ a.version)
unfolding contains quorum_write quorum_read responses selected supports_strong_consistency
read_sees_write_example =
    read_sees_write respond accept "k" (7 ∷ []) 10 10 5 (1 ∷ 2 ∷ 3 ∷ []) writer reader acks heard
      (some (7 ∷ [])) refl refl refl ((refl, (refl, tt)), λ k h. ground arith)
      ((refl, (refl, tt)), λ k h. ground arith) refl refl respond_newer

abbrev silent : NodeId → String → Answer ReadResponse
silent k key = late

abbrev empty : QuorumManager
empty = record { config = strict; available_replicas = []; metrics = no_metrics }

Reach-IsBalanced_example :
    IsBalanced (quorum_read silent "k" 10 (add_replica 2 (add_replica 1 empty))).0.metrics
unfolding new validate
Reach-IsBalanced_example =
    Reach-IsBalanced strict {m = empty} refl
      (next (next (next here (added 1)) (added 2)) (read silent "k" 10))

-- A session whose last write has the sequence 4, and then 9.
abbrev session : SessionInfo
session = record {
  session_id = 3;
  last_write_sequence = 4;
  last_read_timestamp = 50;
  origin_node = 1;
}

abbrev one_session : ConsistencyManager
one_session = record (Consistency.new 1) { sessions = (3, session) ∷ [] }

reads_own_writes_example : 9 ≤ 12
unfolding Consistency.new lookup contains update_session_write insert check_read_consistency
reads_own_writes_example =
    reads_own_writes 3 9 12 2 one_session
      (update_session_write 3 11 (update_session_write 3 9 one_session)) session (refl, tt) refl
      (Sessions.next Sessions.here (wrote 3 11)) refl
