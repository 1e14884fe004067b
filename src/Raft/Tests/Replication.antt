-- ===== src/Raft/Tests/Replication.antt =====
-- Replication: each theorem at a concrete input.
use kaelix.Base.{
  ℕ, ◌-◌, ◌≤◌, ◌<◌, ◌≡◌, refl, ◌⊎◌, true, false, List, [], ◌∷◌, none, some, arith, length,
  get_elem?,
}
use kaelix.Base.Assoc.{lookup}
use kaelix.Base.Sort.{count_ge, sort}
use kaelix.Raft.Types.{leader, LogEntry, AppendEntriesRequest, AppendEntriesResponse}
use kaelix.Raft.Node.{RaftNode, new}
use kaelix.Raft.Log.{get_entries_from, check_log_consistency}
use kaelix.Raft.Election.{majority}
use kaelix.Raft.Append.{handle_append_entries}
use kaelix.Raft.Append.Outcome.{
  handle_append_entries_outcome, IsHint, conflict, late_request_drops_committed,
}
use kaelix.Raft.Append.Matching.{replicates}
use kaelix.Raft.Leader.{
  match_indices, create_append_entries, handle_append_entries_response, try_advance_commit_index,
}
use kaelix.Raft.Leader.Commit.{commit_on_majority, first_answer_commits_all, known_indices}
use kaelix.Raft.Tests.{fresh, entry}

-- A follower with two entries, both committed.
abbrev holder : RaftNode
holder = record fresh { current_term = 1; log = entry 1 1 ∷ entry 1 2 ∷ []; commit_index = 2 }

abbrev request : ℕ → ℕ → List LogEntry → AppendEntriesRequest
request prev term es = record {
  term = 1;
  leader_id = 2;
  prev_log_index = prev;
  prev_log_term = term;
  entries = es;
  leader_commit = 2;
  request_id = 1;
}

-- The request builds on an entry of term 2, where the follower has one of term 1.
handle_append_entries_outcome_example :
    IsHint holder.log
      (request 2 2 (entry 2 3 ∷ []))
      (conflict (handle_append_entries (request 2 2 (entry 2 3 ∷ [])) 9 holder).1)
unfolding handle_append_entries check_log_consistency new
handle_append_entries_outcome_example =
    ((handle_append_entries_outcome (request 2 2 (entry 2 3 ∷ [])) 9 holder).1 (omega arith) refl).1

late_request_drops_committed_example :
    length (handle_append_entries (request 0 0 (entry 1 1 ∷ [])) 9 holder).0.log
    < (handle_append_entries (request 0 0 (entry 1 1 ∷ [])) 9 holder).0.commit_index
unfolding check_log_consistency new
late_request_drops_committed_example =
    (late_request_drops_committed (request 0 0 (entry 1 1 ∷ [])) 9 holder (omega arith) refl refl
      refl (omega arith) (omega arith)).1

-- A leader of term 2 with three entries, which sends node 3 what follows its first.
abbrev chief : RaftNode
chief = record fresh {
  current_term = 2;
  state = leader;
  current_leader = some 1;
  log = entry 1 1 ∷ entry 1 2 ∷ entry 2 3 ∷ [];
  next_index = (3, 2) ∷ [];
}

abbrev sent : AppendEntriesRequest
sent = record {
  term = 2;
  leader_id = 1;
  prev_log_index = 1;
  prev_log_term = 1;
  entries = entry 1 2 ∷ entry 2 3 ∷ [];
  leader_commit = 0;
  request_id = 7;
}

replicates_example :
    (handle_append_entries sent 9 holder).0.log ≡ entry 1 1 ∷ entry 1 2 ∷ entry 2 3 ∷ []
unfolding create_append_entries lookup new get_entries_from
replicates_example = (replicates chief holder 3 7 9 sent refl (omega arith) refl).1 refl

abbrev refusal : AppendEntriesResponse
refusal = record {
  term = 2;
  success = false;
  last_log_index = some 2;
  conflict_index = some 1;
  conflict_term = none;
  request_id = 7;
}

-- Both followers of three answered.
abbrev informed : RaftNode
informed = record chief { match_index = (2, 3) ∷ (3, 1) ∷ [] }

commit_on_majority_example :
    let t = try_advance_commit_index informed in
    (t ≡ informed)
    ⊎ ((e : LogEntry) × (informed.commit_index < t.commit_index)
        × (get_elem? informed.log (t.commit_index - 1) ≡ some e)
        × (e.term ≡ informed.current_term)
        × (majority informed.cluster_size ≤ count_ge t.commit_index (known_indices informed)))
unfolding new
commit_on_majority_example = commit_on_majority informed 1 refl refl

informed_commits : (try_advance_commit_index informed).commit_index ≡ 3
unfolding try_advance_commit_index match_indices sort new
informed_commits = refl

abbrev first_answer : AppendEntriesResponse
first_answer = record {
  term = 2;
  success = true;
  last_log_index = some 0;
  conflict_index = none;
  conflict_term = none;
  request_id = 7;
}

first_answer_commits_all_example :
    (handle_append_entries_response 3 first_answer chief).0.commit_index ≡ 3
unfolding new
first_answer_commits_all_example =
    (first_answer_commits_all chief 3 first_answer 0 (entry 2 3) refl refl (omega arith) refl refl
      refl (omega arith) (omega arith) refl refl).0
