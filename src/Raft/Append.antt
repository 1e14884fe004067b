-- ===== src/Raft/Append.antt =====
-- The follower's side of replication: the handler of an append-entries request.
pub mod Outcome
pub mod Matching
use kaelix.Base.{
  ℕ, ◌+◌, ltb, leb, not, if◌then◌else◌, u64, Bool, true, false, List, [], ◌∷◌, Option, none, some,
  length, min,
}
use kaelix.Raft.Types.{LogIndex, Term, ok, LogEntry, AppendEntriesRequest, AppendEntriesResponse}
use kaelix.Raft.Node.{RaftNode, Method, ◌>>◌}
use kaelix.Raft.Log.{last_log_info, check_log_consistency, find_conflict_info, append_new_entries}
use kaelix.Raft.Election.{become_follower}

abbrev append_answer : RaftNode → Bool → Option LogIndex → Option Term → ℕ → AppendEntriesResponse
append_answer s success conflict_index conflict_term request_id = record {
  term = s.current_term;
  success = success;
  last_log_index = some (last_log_info s.log).0;
  conflict_index = conflict_index;
  conflict_term = conflict_term;
  request_id = request_id;
}

abbrev is_empty : List LogEntry → Bool
is_empty [] = true
is_empty (e ∷ es) = false

unfoldable pub store_entries : AppendEntriesRequest → RaftNode → RaftNode
store_entries request s =
    if not (is_empty request.entries)
    then record s {
      log = append_new_entries s.log request.prev_log_index request.entries;
      metrics = record s.metrics {
        entries_appended = u64 (s.metrics.entries_appended + length request.entries);
      };
    }
    else s

unfoldable pub update_commit : LogIndex → RaftNode → RaftNode
update_commit leader_commit s =
    if ltb s.commit_index leader_commit
    then record s { commit_index = min leader_commit (length s.log) }
    else s

-- The part of the handler behind the tests of the term.
unfoldable pub check_and_store : AppendEntriesRequest → Method AppendEntriesResponse
unfolding store_entries update_commit
check_and_store request s =
    if not (check_log_consistency s.log request.prev_log_index request.prev_log_term)
    then (let (conflict_index, conflict_term) = find_conflict_info s.log request.prev_log_index in
        (s, ok (append_answer s false (some conflict_index) conflict_term request.request_id)))
    else (let t = update_commit request.leader_commit (store_entries request s) in
        (t, ok (append_answer t true none none request.request_id)))

unfoldable pub follow_leader : AppendEntriesRequest → ℕ → Method (Unit {0})
unfolding become_follower
follow_leader request now s =
    if leb s.current_term request.term
    then become_follower request.term s >> (λ t.
      (record t { current_leader = some request.leader_id; last_heartbeat = some now }, ok tt))
    else (s, ok tt)

unfoldable pub handle_append_entries : AppendEntriesRequest → ℕ → Method AppendEntriesResponse
unfolding follow_leader check_and_store
handle_append_entries request now s =
    if ltb request.term s.current_term
    then (s, ok (append_answer s false none none request.request_id))
    else follow_leader request now s >> check_and_store request
