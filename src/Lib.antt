-- ===== src/Lib.antt =====
-- Kaelix, a distributed message broker: the consensus node, membership, the clocks, replicated storage,
-- the write-ahead log and the framing protocol.
--
-- The parts and how they interact. A cluster node (kaelix-cluster) replicates a log with Raft: the
-- handlers of one node take a message, change the node and return the answer, and the transport around
-- them carries the answers. The nodes find each other and notice failures by the SWIM protocol: tables of
-- members and suspects, which messages and the timeouts of a periodic round change. Replicated storage
-- (kaelix-storage) reads and writes through quorums of replicas and checks sessions for consistency; its
-- write-ahead log appends entries to segments, which a rotation manager seals and replaces. The clocks of
-- kaelix-cluster order events and replicas' versions without a common clock. The framing
-- protocol of kaelix-core turns messages into frames of bytes, which its encoder batches and its decoder finds again in a stream that arrives in pieces.
--
-- Files.
--   Base: names passed on from the libraries, Boolean tests, lists on native numbers, association
--     lists for HashMap, insertion sort for `sort_unstable`, laws of bit operations.
--   Raft, for kaelix-cluster/src/consensus/mod.rs (module `raft`) and the identifiers of
--     kaelix-cluster/src/types.rs:
--     Raft/Types: terms, entries, messages, RaftConfig, errors. Raft/Node: RaftNode, its constructor and
--     timers. Raft/Log: the log helpers (check_log_consistency, append_new_entries, find_conflict_info,
--     is_log_up_to_date, get_entries_from). Raft/Election: start_election, handle_vote_request,
--     handle_vote_response, become_follower, become_leader. Raft/Append: handle_append_entries.
--     Raft/Leader: append_entry, create_append_entries, handle_append_entries_response,
--     handle_log_conflict, try_advance_commit_index. Raft/Apply: apply_committed_entries.
--     Raft/Step: every operation as one step of a node. The child modules prove, and are named for what
--     they prove.
--   Clock, for kaelix-cluster/src/time/mod.rs: Clock/Logical (LogicalClock), Clock/Vector
--     (VectorClock), Clock/Version (VersionVector), Clock/Hybrid (HybridLogicalClock),
--     Clock/Synchronizer (ClockSynchronizer), Clock/Causality (what both kinds of vectors share).
--   Protocol, for kaelix-core/src/protocol: Protocol/Types (mod.rs, error.rs), Protocol/Bytes (byte
--     order and the interface to the `bytes` crate), Protocol/Frame and Protocol/Frame/Wire (frame.rs),
--     Protocol/Codec (FrameDecoder of codec.rs), Protocol/Codec/Encoder (FrameEncoder).
--   Membership, for kaelix-cluster/src/membership/mod.rs: Membership/Types (NodeInfo, NodeStatus,
--     SwimConfig, SwimMessage, and the errors of kaelix-cluster/src/error.rs), Membership/Swim
--     (SwimMembership: mark_suspect, mark_failed, process_suspicion_timeouts, update_node_info,
--     add_member, remove_member, the handlers that send nothing), Membership/Round
--     (execute_protocol_round, send_ping, indirect_ping, gossip_updates), Membership/Round/Handlers
--     (handle_swim_message and the handlers that send), Membership/Round/Steps (all of these as the
--     steps of one node).
--   Replication, for kaelix-storage/src/replication: Replication/Responses (QuorumConfig and the data of
--     quorum.rs), Replication/Quorum (QuorumManager), Replication/Consistency (ConsistencyManager of
--     consistency.rs), Replication/Types (the errors of mod.rs).
--   Wal, for kaelix-storage/src/wal: Wal/Entry (LogEntry of entry.rs), Wal/Segment and
--     Wal/Segment/Reading (WalSegment of segment.rs), Wal/Batch (BatchCoordinator of batch.rs),
--     Wal/Batch/Tasks (its operations side by side), Wal/Rotation and Wal/Rotation/Rotating (RotationManager of rotation.rs), Wal/Log (Wal of mod.rs), Wal/Types (WalError).
--   Tests stand in the module Tests of each part.
--
-- How the code is read. A method with `&mut self` is a function from the state that returns the state
-- beside its result; an `async` method without an await of another task is such a function.
-- The batches of the write-ahead log, which several tasks handle at once, are modelled by the parts
-- between which the tasks can change places. A method that
-- reads a clock or draws a random number takes the reading as an argument, and the caller's closure of
-- apply_committed_entries is an argument with its own state. Numbers are natural numbers; sums of u64
-- wrap as in the release profile, which has the overflow checks off. A HashMap is an association list.
--
-- Bounds and fuel. Three loops run on fuel: apply_committed_entries on the number of the entries that are
-- committed and not applied, decode_stream on the length of its buffer, of which every further turn takes
-- at least a header, and scan_segment on the length of the file, likewise. All are shown to
-- be enough.
--
-- Parameters. The buffers of the `bytes` crate are a record of operations with their documented laws; the
-- hash of the standard library's DefaultHasher is an arbitrary function. So are the random choices, bincode
-- and the message router of the membership, the calls of the replicas, and CRC32 and bincode in the log;
-- where a theorem relies on what such code documents, that is a hypothesis of it. What the file system
-- answers to a call is an argument, errors and partial writes included.
--
-- Not modelled: the network transport and the tasks of a node, the prototypes under consensus/raft that
-- no module names, high availability, the recovery of the write-ahead log, the replication manager, log
-- segments and storage backends, multiplexing, plugins, runtime and telemetry, the broker's sockets, the
-- clients, benchmarks and the test harness. Logging, buffer capacities and floating-point statistics are left out of the parts that are modelled.
pub mod Base
pub mod Raft
pub mod Clock
pub mod Protocol
pub mod Membership
pub mod Replication
pub mod Wal
