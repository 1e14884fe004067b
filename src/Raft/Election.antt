-- ===== src/Raft/Election.antt =====
-- Elections: becoming a follower, a candidate or a leader, and the two vote handlers.
pub mod Votes
use kaelix.Base.{
  ℕ, ◌+◌, ◌-◌, ◌/◌, ltb, leb, ◌==◌, not, ◌&&◌, ◌||◌, if◌then◌else◌, u64, is_none, Bool, true, false,
  List, [], ◌∷◌, Option, none, some, length,
}
use kaelix.Base.Assoc.{Assoc, insert}
use kaelix.Raft.Types.{
  NodeId, Term, LogIndex, ok, err, term_mismatch, generic, follower, candidate, leader,
  RequestVoteRequest, RequestVoteResponse,
}
use kaelix.Raft.Node.{RaftNode, Method, ◌>>◌, is_candidate}
use kaelix.Raft.Log.{last_log_info, is_log_up_to_date}

unfoldable pub become_follower : Term → Method (Unit {0})
become_follower term s =
    if ltb term s.current_term then (s, err (term_mismatch s.current_term term)) else (
      record s {
        current_term = term;
        state = follower;
        voted_for = none;
        election_start = none;
        vote_count = 0;
      },
      ok tt,
    )

unfoldable pub start_election : ℕ → Method RequestVoteRequest
start_election now s =
    let t = record s {
      current_term = u64 (s.current_term + 1);
      state = candidate;
      voted_for = some s.node_id;
      current_leader = none;
      election_start = some now;
      vote_count = 1;
      metrics = record s.metrics { elections_started = u64 (s.metrics.elections_started + 1) };
    } in
    let (last_log_index, last_log_term) = last_log_info t.log in
    (
      t,
      ok (record {
        term = t.current_term;
        candidate_id = t.node_id;
        last_log_index = last_log_index;
        last_log_term = last_log_term;
        pre_vote = false;
      }),
    )

-- `voted_for == Some(candidate_id)`.
abbrev pub is_vote_for : Option NodeId → NodeId → Bool
is_vote_for none c = false
is_vote_for (some v) c = v == c

abbrev vote_answer : RaftNode → Bool → Bool → RequestVoteResponse
vote_answer s granted pre_vote = record {
  term = s.current_term;
  vote_granted = granted;
  pre_vote = pre_vote;
  last_log_index = some (last_log_info s.log).0;
}

-- The part of `handle_vote_request` behind the two tests of the term.
unfoldable pub cast_vote : RequestVoteRequest → ℕ → Method RequestVoteResponse
cast_vote request now s =
    let can_vote = is_none s.voted_for || is_vote_for s.voted_for request.candidate_id in
    let candidate_log_ok = is_log_up_to_date s.log request.last_log_index request.last_log_term in
    let vote_granted = can_vote && candidate_log_ok in
    let t =
      if vote_granted && not request.pre_vote
      then record s { voted_for = some request.candidate_id; last_heartbeat = some now }
      else s in
    (t, ok (vote_answer t vote_granted request.pre_vote))

unfoldable pub handle_vote_request : RequestVoteRequest → ℕ → Method RequestVoteResponse
unfolding become_follower cast_vote
handle_vote_request request now s =
    if ltb request.term s.current_term
    then (s, ok (vote_answer s false request.pre_vote))
    else (if ltb s.current_term request.term then become_follower request.term s else (s, ok tt))
      >> cast_vote request now

-- A placeholder in the source: no peers.
unfoldable pub get_peer_ids : RaftNode → List NodeId
get_peer_ids s = []

insert_all : List NodeId → LogIndex → Assoc LogIndex → Assoc LogIndex
insert_all [] v m = m
insert_all (p ∷ ps) v m = insert_all ps v (insert p v m)

abbrev election_duration : ℕ → Option ℕ → Option ℕ → Option ℕ
election_duration now none last = last
election_duration now (some since) last = some (now - since)

unfoldable pub become_leader : ℕ → Method (Unit {0})
unfolding insert_all get_peer_ids
become_leader now s =
    if not (is_candidate s)
    then (s, err (generic "Can only become leader from candidate state"))
    else (
      record s {
        state = leader;
        current_leader = some s.node_id;
        metrics = record s.metrics {
          elections_won = u64 (s.metrics.elections_won + 1);
          last_election_duration =
              election_duration now s.election_start s.metrics.last_election_duration;
        };
        election_start = none;
        next_index = insert_all (get_peer_ids s) (length s.log + 1) s.next_index;
        match_index = insert_all (get_peer_ids s) 0 s.match_index;
      },
      ok tt,
    )

abbrev pub majority : ℕ → ℕ
majority cluster_size = cluster_size / 2 + 1

-- One more vote, and the leadership once the majority is reached.
unfoldable pub count_vote : ℕ → Method Bool
unfolding become_leader
count_vote now s =
    let t = record s { vote_count = u64 (s.vote_count + 1) } in
    if leb (majority t.cluster_size) t.vote_count
    then become_leader now t >> (λ u. (u, ok true))
    else (t, ok false)

unfoldable pub handle_vote_response : RequestVoteResponse → ℕ → Method Bool
unfolding become_follower count_vote
handle_vote_response response now s =
    if not (is_candidate s)
    then (s, ok false)
    else if ltb s.current_term response.term
    then become_follower response.term s >> (λ t. (t, ok false))
    else if response.term == s.current_term && response.vote_granted
    then count_vote now s
    else (s, ok false)
