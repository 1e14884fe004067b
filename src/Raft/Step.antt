-- ===== src/Raft/Step.antt =====
-- The node as a state machine: one step for each method that changes it, whatever its arguments.
pub mod Invariant
use kaelix.Base.{ℕ, ◌+◌, ◌<◌, ◌^◌, List}
use kaelix.Raft.Types.{
  NodeId, Term, ConsensusResult, LogEntry, ClockReading, RequestVoteRequest, RequestVoteResponse,
  AppendEntriesRequest, AppendEntriesResponse,
}
use kaelix.Raft.Node.{RaftNode}
use kaelix.Raft.Log.Facts.{IsIndexed}
use kaelix.Raft.Election.{
  become_follower, become_leader, start_election, handle_vote_request, handle_vote_response,
}
use kaelix.Raft.Append.{handle_append_entries}
use kaelix.Raft.Leader.{append_entry, handle_append_entries_response}
use kaelix.Raft.Apply.{apply_committed_entries}

-- An election starts below the largest term, and a request's entries carry the positions behind
-- `prev_log_index`; nothing else is asked of a message, a time or a closure.
pub data Step (s : RaftNode) : RaftNode → Type 1 where
  elects : (now : ℕ) → s.current_term + 1 < 2 ^ 64 → Step s (start_election now s).0
  steps_down : (term : Term) → Step s (become_follower term s).0
  takes_over : (now : ℕ) → Step s (become_leader now s).0
  votes : (q : RequestVoteRequest) (now : ℕ) → Step s (handle_vote_request q now s).0
  counts : (r : RequestVoteResponse) (now : ℕ) → Step s (handle_vote_response r now s).0
  follows :
      (q : AppendEntriesRequest) (now : ℕ)
      → IsIndexed (q.prev_log_index + 1) q.entries
      → Step s (handle_append_entries q now s).0
  learns :
      (f : NodeId) (r : AppendEntriesResponse) → Step s (handle_append_entries_response f r s).0
  proposes : (command : List ℕ) (clock : ClockReading) → Step s (append_entry command clock s).0
  applies :
      {S : Type 0} (apply_fn : LogEntry → S → S × ConsensusResult (Unit {0})) (m : S)
      → Step s (apply_committed_entries apply_fn s m).0

pub data Reach (s : RaftNode) : RaftNode → Type 1 where
  here : Reach s s
  next : {t u : RaftNode} → Reach s t → Step t u → Reach s u
