-- ===== src/Raft/Tests.antt =====
-- Data for the runs of the Raft node, which stand in the modules below.
mod Elections
mod Replication
mod Runs
use mathlib.Core.List.{foldl}
use kaelix.Base.{
  ℕ, ◌+◌, ◌-◌, ◌≤◌, ◌<◌, ◌≡◌, ◌≢◌, refl, ◌⊎◌, inl, inr, Bool, true, false, List, [], ◌∷◌, Option,
  none, some, arith, length, take, length,
}
use kaelix.Base.Assoc.{Assoc, insert, lookup, values}
use kaelix.Base.Sort.{count_ge, sort}
use kaelix.Raft.Types.{
  ConsensusResult, ok, err, generic, follower, candidate, leader, RaftConfig, LogEntry,
  RequestVoteRequest, RequestVoteResponse, AppendEntriesRequest, AppendEntriesResponse,
  ClockReading, ConsensusError, not_leader,
}
use kaelix.Raft.Node.{RaftNode, new, generate_election_timeout, is_election_timeout}
use kaelix.Raft.Log.{
  check_log_consistency, find_conflict_info, is_log_up_to_date, append_new_entries, last_log_info,
}
use kaelix.Raft.Log.Facts.{HasTerm, NoneBefore, NoneAfter}
use kaelix.Raft.Election.{start_election, handle_vote_request, handle_vote_response}
use kaelix.Raft.Election.Votes.{
  granted, granted_vote, one_vote_per_term, wins_iff_majority, heartbeat_frees_vote,
}
use kaelix.Raft.Append.{handle_append_entries}
use kaelix.Raft.Append.Outcome.{
  succeeded, handle_append_entries_outcome, late_request_drops_committed,
}
use kaelix.Raft.Append.Matching.{replicates}
use kaelix.Raft.Leader.{
  append_entry, create_append_entries, entries_to_send, handle_append_entries_response,
  try_advance_commit_index, handle_log_conflict,
}
use kaelix.Raft.Leader.Commit.{commit_on_majority, first_answer_commits_all, known_indices}
use kaelix.Raft.Leader.Conflict.{Lacks}
use kaelix.Raft.Apply.{apply_committed_entries}
use kaelix.Raft.Apply.Rounds.{applies_pending, failed_entry_is_skipped, pending}
use kaelix.Raft.Step.{Reach, here, next, elects, counts, proposes}
use kaelix.Raft.Step.Invariant.{IsWellFormed, Evolves, leader_append_only}
use kaelix.Raft.Timeouts.{InRange, is_election_timeout_cases}

abbrev pub config : RaftConfig
config = record {
  election_timeout_min = 150_000_000;
  election_timeout_max = 300_000_000;
  heartbeat_interval = 50_000_000;
  max_entries_per_append = 100;
  snapshot_threshold = 10_000;
  pre_vote_enabled = true;
  max_pipeline_depth = 10;
  batch_timeout = 10_000_000;
}

abbrev pub fresh : RaftNode
fresh = new 1 3 config

abbrev pub entry : ℕ → ℕ → LogEntry
entry term index = record {
  term = term;
  command = index ∷ [];
  index = index;
  timestamp = 0;
  size = 1;
}

abbrev pub ask : ℕ → ℕ → RequestVoteRequest
ask term who = record {
  term = term;
  candidate_id = who;
  last_log_index = 0;
  last_log_term = 0;
  pre_vote = false;
}
