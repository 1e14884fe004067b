-- ===== src/Raft/Leader.antt =====
-- The leader's side of replication: new entries, requests, and the handler of their responses.
pub mod Commit
pub mod Conflict
use kaelix.Base.{
  ℕ, ◌+◌, ◌-◌, ◌/◌, ltb, ◌==◌, not, if◌then◌else◌, u64, unwrap_or, Bool, false, List, [], ◌∷◌, ◌++◌,
  Option, none, some, length, get_elem?, take,
}
use kaelix.Base.Assoc.{Assoc, lookup, insert, values}
use kaelix.Base.Sort.{sort}
use kaelix.Raft.Types.{
  NodeId, LogIndex, Term, ConsensusResult, ok, err, not_leader, log_inconsistency, LogEntry,
  ClockReading, new_entry, AppendEntriesRequest, AppendEntriesResponse,
}
use kaelix.Raft.Node.{RaftNode, Method, ◌>>◌, is_leader}
use kaelix.Raft.Log.{get_entries_from, last_of_term}
use kaelix.Raft.Election.{become_follower}

unfoldable pub append_entry : List ℕ → ClockReading → Method LogIndex
append_entry command clock s =
    if not (is_leader s)
    then (s, err (not_leader s.current_leader))
    else (let index = length s.log + 1 in
        let entry = new_entry s.current_term index command clock in
        (
          record s {
            log = s.log ++ (entry ∷ []);
            metrics = record s.metrics {
              entries_appended = u64 (s.metrics.entries_appended + 1);
              log_size_bytes = u64 (s.metrics.log_size_bytes + entry.size);
            };
          },
          ok index,
        ))

abbrev after_prev :
    List LogEntry → LogIndex → LogIndex → Option LogEntry → ConsensusResult (Term × List LogEntry)
after_prev log next_index prev_log_index none = err (log_inconsistency prev_log_index)
after_prev log next_index prev_log_index (some e) = ok (e.term, get_entries_from log next_index)

-- The term before the entries that are sent, and those entries.
unfoldable pub entries_to_send : List LogEntry → LogIndex → ConsensusResult (Term × List LogEntry)
entries_to_send log next_index =
    let prev_log_index = next_index - 1 in
    if prev_log_index == 0
    then ok (0, get_entries_from log 1)
    else after_prev log next_index prev_log_index (get_elem? log (prev_log_index - 1))

abbrev append_request :
    RaftNode
    → LogIndex
    → ℕ
    → ConsensusResult (Term × List LogEntry)
    → ConsensusResult AppendEntriesRequest
append_request s prev_log_index request_id (err e) = err e
append_request s prev_log_index request_id (ok (prev_log_term, entries)) = ok (record {
  term = s.current_term;
  leader_id = s.node_id;
  prev_log_index = prev_log_index;
  prev_log_term = prev_log_term;
  entries = take s.config.max_entries_per_append entries;
  leader_commit = s.commit_index;
  request_id = request_id;
})

-- `request_id` is the number that the program's counter gives out.
unfoldable pub create_append_entries : NodeId → ℕ → RaftNode → ConsensusResult AppendEntriesRequest
unfolding entries_to_send
create_append_entries follower_id request_id s =
    if not (is_leader s)
    then err (not_leader s.current_leader)
    else (let next_index = unwrap_or (lookup follower_id s.next_index) 1 in
        append_request s (next_index - 1) request_id (entries_to_send s.log next_index))

-- The known indices, the leader's own log among them.
unfoldable pub match_indices : RaftNode → List LogIndex
match_indices s = sort (values s.match_index ++ (length s.log ∷ []))

abbrev entry_in_term : Term → Option LogEntry → Bool
entry_in_term t none = false
entry_in_term t (some e) = e.term == t

abbrev commit_to : RaftNode → LogIndex → RaftNode
commit_to s new_commit_index =
    if ltb s.commit_index new_commit_index
    then (if entry_in_term s.current_term (get_elem? s.log (new_commit_index - 1))
        then record s { commit_index = new_commit_index }
        else s)
    else s

-- The list is not empty and the position is inside it, so the indexing never panics.
abbrev commit_option : RaftNode → Option LogIndex → RaftNode
commit_option s none = s
commit_option s (some new_commit_index) = commit_to s new_commit_index

unfoldable pub try_advance_commit_index : RaftNode → RaftNode
try_advance_commit_index s =
    if not (is_leader s)
    then s
    else commit_option s (get_elem? (match_indices s) (length (match_indices s) / 2))

abbrev after_last : LogIndex → Option ℕ → LogIndex
after_last conflict_index none = conflict_index
after_last conflict_index (some i) = i + 2

-- The next index after a conflict in the log, from the follower's two hints.
unfoldable pub conflict_next : List LogEntry → LogIndex → Option Term → LogIndex
conflict_next log conflict_index none = conflict_index
conflict_next log conflict_index (some t) = after_last conflict_index (last_of_term t 0 log)

abbrev step_back : NodeId → Option LogIndex → Assoc LogIndex → Assoc LogIndex
step_back follower_id none m = m
step_back follower_id (some n) m = if ltb 1 n then insert follower_id (n - 1) m else m

abbrev conflict_map : RaftNode → NodeId → Option LogIndex → Option Term → Assoc LogIndex
conflict_map s follower_id none conflict_term =
    step_back follower_id (lookup follower_id s.next_index) s.next_index
conflict_map s follower_id (some conflict_index) conflict_term =
    insert follower_id (conflict_next s.log conflict_index conflict_term) s.next_index

unfoldable pub handle_log_conflict : NodeId → AppendEntriesResponse → RaftNode → RaftNode
unfolding conflict_next
handle_log_conflict follower_id response s = record s {
  next_index = conflict_map s follower_id response.conflict_index response.conflict_term;
}

abbrev record_progress : NodeId → Option LogIndex → RaftNode → RaftNode
record_progress follower_id none s = s
record_progress follower_id (some last_log_index) s = record s {
  next_index = insert follower_id (u64 (last_log_index + 1)) s.next_index;
  match_index = insert follower_id last_log_index s.match_index;
}

unfoldable pub handle_append_entries_response : NodeId → AppendEntriesResponse → Method (Unit {0})
unfolding become_follower try_advance_commit_index handle_log_conflict
handle_append_entries_response follower_id response s =
    if not (is_leader s)
    then (s, ok tt)
    else if ltb s.current_term response.term
    then become_follower response.term s >> (λ t. (t, ok tt))
    else if response.success
    then (try_advance_commit_index (record_progress follower_id response.last_log_index s), ok tt)
    else (handle_log_conflict follower_id response s, ok tt)
