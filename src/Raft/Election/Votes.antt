-- ===== src/Raft/Election/Votes.antt =====
-- Who gets a vote and who gets to lead: `handle_vote_request` and `handle_vote_response`.
use kaelix.Base.{
  ℕ, ◌+◌, ◌≤◌, ◌<◌, ◌≡◌, ◌≢◌, ◌⊎◌, ◌↔◌, ◌∙◌, sym, Bool, true, false, List, [], ◌∷◌, none, some,
  arith, u64,
}
use kaelix.Raft.Types.{
  NodeId, Term, LogIndex, LogEntry, ConsensusResult, ok, err, leader, RequestVoteRequest,
  RequestVoteResponse, AppendEntriesRequest,
}
use kaelix.Raft.Node.{RaftNode, is_candidate}
use kaelix.Raft.Log.{is_log_up_to_date, last_log_info}
use kaelix.Raft.Election.{handle_vote_request, handle_vote_response, majority}
use kaelix.Raft.Append.{handle_append_entries}

abbrev pub granted : ConsensusResult RequestVoteResponse → Bool
granted (ok v) = v.vote_granted
granted (err e) = false

-- The last entry, by its index and term, is not ahead of a log that ends with `index` and `term`: its
-- term is lower, or its term is the same and its index not higher.
abbrev pub IsNotAhead : LogIndex × Term → LogIndex → Term → Type 0
IsNotAhead (our_index, our_term) index term =
    (our_term < term) ⊎ ((our_term ≡ term) × (our_index ≤ index))

up_to_date-IsNotAhead :
    (log : List LogEntry) (index : LogIndex) (term : Term)
    → is_log_up_to_date log index term ≡ true
    → IsNotAhead (last_log_info log) index term
unfolding is_log_up_to_date
up_to_date-IsNotAhead log index term h = ground arith

-- A vote that counts is granted only in a term that is not behind, to a candidate whose log is up
-- to date (the node's own last entry has a lower term, or the same term and no higher index), by a node
-- that had not voted for another in that term; and the node records it.
pub granted_vote :
    (q : RequestVoteRequest) (now : ℕ) (s : RaftNode)
    → granted (handle_vote_request q now s).1 ≡ true
    → q.pre_vote ≡ false
    → (s.current_term ≤ q.term)
      × (is_log_up_to_date s.log q.last_log_index q.last_log_term ≡ true)
      × IsNotAhead (last_log_info s.log) q.last_log_index q.last_log_term
      × (s.current_term ≡ q.term → (s.voted_for ≡ none) ⊎ (s.voted_for ≡ some q.candidate_id))
      × ((handle_vote_request q now s).0.voted_for ≡ some q.candidate_id)
      × ((handle_vote_request q now s).0.current_term ≡ q.term)
unfolding handle_vote_request
granted_vote q now s g p =
    let fresh_log : is_log_up_to_date s.log q.last_log_index q.last_log_term ≡ true =
      ground arith in
    (
      ground arith,
      fresh_log,
      up_to_date-IsNotAhead s.log q.last_log_index q.last_log_term fresh_log,
      ground arith,
      ground arith,
      ground arith,
    )

vote-term_mono :
    (q : RequestVoteRequest) (now : ℕ) (s : RaftNode)
    → s.current_term ≤ (handle_vote_request q now s).0.current_term
unfolding handle_vote_request
vote-term_mono q now s = ground arith

kept_vote :
    (q : RequestVoteRequest) (now : ℕ) (s : RaftNode) (a : NodeId)
    → s.voted_for ≡ some a
    → (handle_vote_request q now s).0.current_term ≡ s.current_term
    → (handle_vote_request q now s).0.voted_for ≡ some a
unfolding handle_vote_request
kept_vote q now s a e t = ground arith

-- Vote requests handled one after another, each at its time.
abbrev pub run_votes : List (RequestVoteRequest × ℕ) → RaftNode → RaftNode
run_votes [] s = s
run_votes ((q, now) ∷ qs) s = run_votes qs (handle_vote_request q now s).0

run_votes-term_mono :
    (qs : List (RequestVoteRequest × ℕ)) (s : RaftNode)
    → s.current_term ≤ (run_votes qs s).current_term
run_votes-term_mono [] s = omega arith
run_votes-term_mono ((q, now) ∷ qs) s =
    omega (arith, vote-term_mono q now s, run_votes-term_mono qs (handle_vote_request q now s).0)

run_votes-voted_for :
    (qs : List (RequestVoteRequest × ℕ)) (s : RaftNode) (a : NodeId)
    → s.voted_for ≡ some a
    → (run_votes qs s).current_term ≡ s.current_term
    → (run_votes qs s).voted_for ≡ some a
run_votes-voted_for [] s a e t = e
run_votes-voted_for ((q, now) ∷ qs) s a e t =
    let next = (handle_vote_request q now s).0 in
    let same : next.current_term ≡ s.current_term =
      omega (arith, vote-term_mono q now s, run_votes-term_mono qs next) in
    run_votes-voted_for qs next a (kept_vote q now s a e same) (t ∙ sym same)

second_vote_refused :
    (q : RequestVoteRequest) (now : ℕ) (s : RaftNode) (a : NodeId)
    → s.voted_for ≡ some a
    → q.term ≡ s.current_term
    → q.candidate_id ≢ a
    → granted (handle_vote_request q now s).1 ≡ false
unfolding handle_vote_request
second_vote_refused q now s a e t ne = ground arith

-- A node that voted for `a` grants no vote to another candidate in the same term, whatever vote
-- requests it handled in between.
pub one_vote_per_term :
    (qs : List (RequestVoteRequest × ℕ)) (q : RequestVoteRequest) (now : ℕ) (s : RaftNode)
    (a : NodeId)
    → s.voted_for ≡ some a
    → (run_votes qs s).current_term ≡ s.current_term
    → q.term ≡ s.current_term
    → q.candidate_id ≢ a
    → granted (handle_vote_request q now (run_votes qs s)).1 ≡ false
one_vote_per_term qs q now s a e t same ne =
    second_vote_refused q now (run_votes qs s) a (run_votes-voted_for qs s a e t) (same ∙ sym t) ne

-- The vote that reaches the majority: granted, in the node's own term, and to a candidate.
abbrev pub IsWinning : RequestVoteResponse → RaftNode → Type 0
IsWinning r s =
    (is_candidate s ≡ true)
    × (r.term ≡ s.current_term)
    × (r.vote_granted ≡ true)
    × (majority s.cluster_size ≤ u64 (s.vote_count + 1))

-- A vote response is answered by `true` exactly when the node is a candidate, the vote was granted in
-- its own term, and it is the vote that reaches the majority; it makes a node that was no leader a
-- leader under exactly the same conditions, and the winner leads its own term and names itself.
pub wins_iff_majority :
    (r : RequestVoteResponse) (now : ℕ) (s : RaftNode)
    → let t = (handle_vote_response r now s).0 in
      (((handle_vote_response r now s).1 ≡ ok true) ↔ IsWinning r s)
      × (s.state ≢ leader → (t.state ≡ leader) ↔ IsWinning r s)
      × (IsWinning r s → (t.current_term ≡ s.current_term) × (t.current_leader ≡ some s.node_id))
unfolding handle_vote_response
wins_iff_majority r now s = (ground arith, (λ no_leader. ground arith), (λ wins. ground arith))

-- A heartbeat (an append-entries request with no entries) of the node's own term makes it forget its
-- vote: afterwards it grants a second vote of that term, to any candidate with an up-to-date log.
pub heartbeat_frees_vote :
    (h : AppendEntriesRequest) (q : RequestVoteRequest) (now later : ℕ) (s : RaftNode) (a : NodeId)
    → s.voted_for ≡ some a
    → h.term ≡ s.current_term
    → h.entries ≡ []
    → q.term ≡ s.current_term
    → q.candidate_id ≢ a
    → is_log_up_to_date s.log q.last_log_index q.last_log_term ≡ true
    → granted (handle_vote_request q later (handle_append_entries h now s).0).1 ≡ true
unfolding handle_vote_request handle_append_entries
heartbeat_frees_vote h q now later s a e ht c qt ne up = ground arith
