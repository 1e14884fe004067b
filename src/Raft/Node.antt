-- ===== src/Raft/Node.antt =====
-- The state of a Raft node, its constructor and queries, and the shape of its methods.
use kaelix.Base.{ℕ, ◌-◌, ◌*◌, ◌/◌, ltb, u64, Bool, true, false, List, [], Option, none, some}
use kaelix.Base.Assoc.{Assoc}
use kaelix.Raft.Types.{
  NodeId, Term, LogIndex, ConsensusResult, ok, err, ConsensusState, follower, candidate, leader,
  RaftConfig, LogEntry, RaftMetrics,
}

pub record RaftNode : Type 0 where
  pub node_id : NodeId
  pub current_term : Term
  pub state : ConsensusState
  pub voted_for : Option NodeId
  pub log : List LogEntry
  pub commit_index : LogIndex
  pub last_applied : LogIndex
  pub next_index : Assoc LogIndex
  pub match_index : Assoc LogIndex
  pub current_leader : Option NodeId
  pub last_heartbeat : Option ℕ
  pub election_start : Option ℕ
  pub vote_count : ℕ
  pub cluster_size : ℕ
  pub config : RaftConfig
  pub metrics : RaftMetrics

-- A method that may fail: it leaves the node in a state, and returns a value or an error.
abbrev pub Method : Type 0 → Type 0
Method A = RaftNode → RaftNode × ConsensusResult A

-- `first?; rest`: the error of the first step is returned with the state that it left.
infixr 5 ◌>>◌
abbrev pub ◌>>◌ :
    {A : Type 0} → RaftNode × ConsensusResult (Unit {0}) → Method A → RaftNode × ConsensusResult A
(s, ok u) >> rest = rest s
(s, err e) >> rest = (s, err e)

abbrev pub no_metrics : RaftMetrics
no_metrics = record {
  elections_started = 0;
  elections_won = 0;
  entries_appended = 0;
  entries_committed = 0;
  avg_heartbeat_latency = 0;
  avg_replication_latency = 0;
  last_election_duration = none;
  log_size_bytes = 0;
}

unfoldable pub new : NodeId → ℕ → RaftConfig → RaftNode
new node_id cluster_size config = record {
  node_id = node_id;
  current_term = 0;
  state = follower;
  voted_for = none;
  log = [];
  commit_index = 0;
  last_applied = 0;
  next_index = [];
  match_index = [];
  current_leader = none;
  last_heartbeat = none;
  election_start = none;
  vote_count = 0;
  cluster_size = cluster_size;
  config = config;
  metrics = no_metrics;
}

abbrev is_leader_state : ConsensusState → Bool
is_leader_state leader = true
is_leader_state _ = false

abbrev is_candidate_state : ConsensusState → Bool
is_candidate_state candidate = true
is_candidate_state _ = false

abbrev pub is_leader : RaftNode → Bool
is_leader s = is_leader_state s.state

abbrev pub is_candidate : RaftNode → Bool
is_candidate s = is_candidate_state s.state

abbrev pub as_millis : ℕ → ℕ
as_millis d = d / 1_000_000

abbrev pub from_millis : ℕ → ℕ
from_millis ms = ms * 1_000_000

-- The random generator is not the program's: `gen_range lo hi` is a number that it drew.
module _ (gen_range : ℕ → ℕ → ℕ) where
  unfoldable pub generate_election_timeout : RaftNode → ℕ
  generate_election_timeout s = from_millis (
      u64 (
        gen_range (as_millis s.config.election_timeout_min)
          (as_millis s.config.election_timeout_max)))

  -- A time that is not known counts as run out; `elapsed` is a saturating difference.
  elapsed_over : ℕ → ℕ → Option ℕ → Bool
  elapsed_over now timeout none = true
  elapsed_over now timeout (some since) = ltb timeout (now - since)

  timed_out : ConsensusState → RaftNode → ℕ → Bool
  unfolding elapsed_over
  timed_out follower s now = elapsed_over now (generate_election_timeout s) s.last_heartbeat
  timed_out candidate s now = elapsed_over now (generate_election_timeout s) s.election_start
  timed_out leader s now = false

  unfoldable pub is_election_timeout : RaftNode → ℕ → Bool
  unfolding timed_out
  is_election_timeout s now = timed_out s.state s now
