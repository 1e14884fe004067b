-- ===== src/Raft/Tests/Elections.antt =====
-- Elections: each theorem at a concrete input.
use kaelix.Base.{◌≡◌, refl, true, false, [], ◌∷◌, some, arith}
use kaelix.Raft.Types.{leader, RequestVoteResponse, AppendEntriesRequest}
use kaelix.Raft.Node.{RaftNode, new}
use kaelix.Raft.Log.{is_log_up_to_date}
use kaelix.Raft.Election.{start_election, handle_vote_request, handle_vote_response}
use kaelix.Raft.Election.Votes.{
  granted, granted_vote, one_vote_per_term, wins_iff_majority, heartbeat_frees_vote,
}
use kaelix.Raft.Append.{handle_append_entries}
use kaelix.Raft.Tests.{fresh, ask}

-- A node that voted for node 2 in term 1.
abbrev voter : RaftNode
voter = record fresh { current_term = 1; voted_for = some 2 }

granted_vote_example : (handle_vote_request (ask 1 2) 5 fresh).0.voted_for ≡ some 2
unfolding handle_vote_request new is_log_up_to_date
granted_vote_example = (granted_vote (ask 1 2) 5 fresh refl refl).4

one_vote_per_term_example :
    granted (handle_vote_request (ask 1 3) 9 (handle_vote_request (ask 1 3) 8 voter).0).1 ≡ false
unfolding handle_vote_request new is_log_up_to_date
one_vote_per_term_example =
    one_vote_per_term ((ask 1 3, 8) ∷ []) (ask 1 3) 9 voter 2 refl refl refl (omega arith)

abbrev running : RaftNode
running = (start_election 7 fresh).0

abbrev yes_vote : RequestVoteResponse
yes_vote = record { term = 1; vote_granted = true; pre_vote = false; last_log_index = some 0 }

wins_iff_majority_example : (handle_vote_response yes_vote 9 running).0.state ≡ leader
unfolding start_election new
wins_iff_majority_example =
    ((wins_iff_majority yes_vote 9 running).1 (λ e. ground arith)).1 (refl, refl, refl, omega arith)

abbrev heartbeat : AppendEntriesRequest
heartbeat = record {
  term = 1;
  leader_id = 2;
  prev_log_index = 0;
  prev_log_term = 0;
  entries = [];
  leader_commit = 0;
  request_id = 1;
}

heartbeat_frees_vote_example :
    granted (handle_vote_request (ask 1 3) 9 (handle_append_entries heartbeat 8 voter).0).1 ≡ true
unfolding new is_log_up_to_date
heartbeat_frees_vote_example =
    heartbeat_frees_vote heartbeat (ask 1 3) 8 9 voter 2 refl refl refl refl (omega arith) refl
