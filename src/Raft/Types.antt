-- ===== src/Raft/Types.antt =====
-- Errors, messages and log entries of the consensus module. A NodeId is the number that its UUID
-- spells, a Term is its u64, times and durations are nanoseconds.
use Prim.Native.String.{String}
use kaelix.Base.{ℕ, ◌+◌, ◌-◌, ltb, if◌then◌else◌, u64, length, Bool, List, Option}

abbrev pub NodeId : Type 0
NodeId = ℕ

abbrev pub Term : Type 0
Term = ℕ

abbrev pub LogIndex : Type 0
LogIndex = ℕ

-- `log_inconsistency` keeps the index that the message names.
pub data ConsensusError : Type 0 where
  term_mismatch : ℕ → ℕ → ConsensusError
  not_leader : Option NodeId → ConsensusError
  invalid_node_id : String → ConsensusError
  election_timeout : ConsensusError
  log_inconsistency : LogIndex → ConsensusError
  network_partition : ConsensusError
  configuration : String → ConsensusError
  generic : String → ConsensusError

pub data ConsensusResult {ℓ} (A : Type ℓ) : Type ℓ where
  ok : A → ConsensusResult A
  err : ConsensusError → ConsensusResult A

pub data ConsensusState : Type 0 where
  follower candidate leader : ConsensusState

pub record RaftConfig : Type 0 where
  pub election_timeout_min : ℕ
  pub election_timeout_max : ℕ
  pub heartbeat_interval : ℕ
  pub max_entries_per_append : ℕ
  pub snapshot_threshold : ℕ
  pub pre_vote_enabled : Bool
  pub max_pipeline_depth : ℕ
  pub batch_timeout : ℕ

pub record LogEntry : Type 0 where
  pub term : Term
  pub command : List ℕ
  pub index : LogIndex
  pub timestamp : ℕ
  pub size : ℕ

-- What the clocks answer while an entry is made: `Instant::now()` in `LogEntry::new`, then
-- `SystemTime::now()` (since the epoch) and `Instant::now()` in the conversion.
pub record ClockReading : Type 0 where
  pub instant : ℕ
  pub system : ℕ
  pub later : ℕ

-- `SerializableInstant::from`; the difference below is a saturating one.
abbrev pub serializable_instant : ClockReading → ℕ
serializable_instant c = u64 (
    if ltb c.later c.instant
    then c.system + (c.instant - c.later)
    else c.system - (c.later - c.instant))

-- `LogEntry::new`.
abbrev pub new_entry : Term → LogIndex → List ℕ → ClockReading → LogEntry
new_entry term index command clock = record {
  term = term;
  command = command;
  index = index;
  timestamp = serializable_instant clock;
  size = length command;
}

pub record RequestVoteRequest : Type 0 where
  pub term : Term
  pub candidate_id : NodeId
  pub last_log_index : LogIndex
  pub last_log_term : Term
  pub pre_vote : Bool

pub record RequestVoteResponse : Type 0 where
  pub term : Term
  pub vote_granted : Bool
  pub pre_vote : Bool
  pub last_log_index : Option LogIndex

pub record AppendEntriesRequest : Type 0 where
  pub term : Term
  pub leader_id : NodeId
  pub prev_log_index : LogIndex
  pub prev_log_term : Term
  pub entries : List LogEntry
  pub leader_commit : LogIndex
  pub request_id : ℕ

pub record AppendEntriesResponse : Type 0 where
  pub term : Term
  pub success : Bool
  pub last_log_index : Option LogIndex
  pub conflict_index : Option LogIndex
  pub conflict_term : Option Term
  pub request_id : ℕ

pub record RaftMetrics : Type 0 where
  pub elections_started : ℕ
  pub elections_won : ℕ
  pub entries_appended : ℕ
  pub entries_committed : ℕ
  pub avg_heartbeat_latency : ℕ
  pub avg_replication_latency : ℕ
  pub last_election_duration : Option ℕ
  pub log_size_bytes : ℕ
