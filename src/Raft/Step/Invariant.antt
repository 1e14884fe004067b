-- ===== src/Raft/Step/Invariant.antt =====
-- What holds of a node in every state that it can reach, and of a leader from step to step.
use kaelix.Base.{
  ℕ, zero, suc, ◌+◌, ◌-◌, ◌≤◌, ◌<◌, ◌≡◌, ◌≢◌, refl, ◌⊎◌, inl, inr, true, List, [], ◌∷◌, some, arith,
  length, get_elem?, take, Option-cases, lt_length_of_get_elem?, take-all, take-append_length,
  length-take,
}
use kaelix.Raft.Types.{
  NodeId, Term, ConsensusResult, LogEntry, ClockReading, candidate, RequestVoteRequest,
  RequestVoteResponse, AppendEntriesRequest, AppendEntriesResponse, follower, leader, new_entry,
}
use kaelix.Raft.Node.{RaftNode}
use kaelix.Raft.Log.{append_new_entries, check_log_consistency}
use kaelix.Raft.Log.Facts.{IsIndexed, IsIndexed-append, IsIndexed-take}
use kaelix.Raft.Election.{
  become_follower, become_leader, majority, start_election, handle_vote_request,
  handle_vote_response,
}
use kaelix.Raft.Append.{handle_append_entries}
use kaelix.Raft.Leader.{append_entry, handle_append_entries_response, try_advance_commit_index}
use kaelix.Raft.Leader.Commit.{advance_cases, match_indices-middle}
use kaelix.Raft.Apply.{apply_committed_entries}
use kaelix.Raft.Apply.Rounds.{apply-Kept}
use kaelix.Raft.Step.{
  Step, elects, steps_down, takes_over, votes, counts, follows, learns, proposes, applies,
}

-- The log carries its positions, a node that is not a follower has voted for itself, a candidate with
-- more votes than its own is short of the majority, and a leader names itself.
pub record IsWellFormed (s : RaftNode) : Type 0 where
  pub indexed : IsIndexed 1 s.log
  pub own_vote : (s.state ≡ follower) ⊎ (s.voted_for ≡ some s.node_id)
  pub waits : s.state ≡ candidate → (s.vote_count ≡ 1) ⊎ (s.vote_count < majority s.cluster_size)
  pub led : s.state ≡ leader → s.current_leader ≡ some s.node_id

elects-IsWellFormed :
    (now : ℕ) (s : RaftNode) → IsWellFormed s → IsWellFormed (start_election now s).0
unfolding start_election
elects-IsWellFormed now s w = ground arith

steps_down-IsWellFormed :
    (term : Term) (s : RaftNode) → IsWellFormed s → IsWellFormed (become_follower term s).0
unfolding become_follower
steps_down-IsWellFormed term s w = ground arith

takes_over-IsWellFormed :
    (now : ℕ) (s : RaftNode) → IsWellFormed s → IsWellFormed (become_leader now s).0
unfolding become_leader
takes_over-IsWellFormed now s w = ground arith

votes-IsWellFormed :
    (q : RequestVoteRequest) (now : ℕ) (s : RaftNode)
    → IsWellFormed s
    → IsWellFormed (handle_vote_request q now s).0
unfolding handle_vote_request
votes-IsWellFormed q now s w = ground arith

counts-IsWellFormed :
    (r : RequestVoteResponse) (now : ℕ) (s : RaftNode)
    → IsWellFormed s
    → IsWellFormed (handle_vote_response r now s).0
unfolding handle_vote_response
counts-IsWellFormed r now s w = ground arith

-- A consistent request builds on an entry of the log.
prev-le-length :
    (log : List LogEntry) (p : ℕ) (t : Term) → check_log_consistency log p t ≡ true → p ≤ length log
unfolding check_log_consistency
prev-le-length log zero t c = omega arith
prev-le-length log (suc p) t c = elim (Option-cases (get_elem? log (suc p - 1))) [
  | inl missing ↦ ground arith
  | inr (e, found) ↦ omega (arith, lt_length_of_get_elem? log (suc p - 1) found)
]

append_new_entries-IsIndexed :
    (log es : List LogEntry) (p : ℕ) (t : Term)
    → check_log_consistency log p t ≡ true
    → IsIndexed 1 log
    → IsIndexed (p + 1) es
    → IsIndexed 1 (append_new_entries log p es)
unfolding append_new_entries
append_new_entries-IsIndexed log es p t c a b =
    IsIndexed-append 1 (p + 1) (take p log) es
      (omega (arith, length-take p log, prev-le-length log p t c)) (IsIndexed-take 1 p log a) b

follows-IsWellFormed :
    (q : AppendEntriesRequest) (now : ℕ) (s : RaftNode)
    → IsIndexed (q.prev_log_index + 1) q.entries
    → IsWellFormed s
    → IsWellFormed (handle_append_entries q now s).0
unfolding handle_append_entries
follows-IsWellFormed q now s b w =
    ground (arith, append_new_entries-IsIndexed s.log q.entries q.prev_log_index q.prev_log_term)

advance-IsWellFormed : (s : RaftNode) → IsWellFormed s → IsWellFormed (try_advance_commit_index s)
advance-IsWellFormed s w =
    let (n, m) = match_indices-middle s in
    elim (advance_cases s n m) [
      | inl same ↦ rw same w
      | inr (_, _, _, _, _, moved) ↦ rw moved (ground arith)
    ]

learns-IsWellFormed :
    (f : NodeId) (r : AppendEntriesResponse) (s : RaftNode)
    → IsWellFormed s
    → IsWellFormed (handle_append_entries_response f r s).0
unfolding handle_append_entries_response
learns-IsWellFormed f r s w = ground arith

proposes-IsWellFormed :
    (command : List ℕ) (clock : ClockReading) (s : RaftNode)
    → IsWellFormed s
    → IsWellFormed (append_entry command clock s).0
unfolding append_entry
proposes-IsWellFormed command clock s w =
    let entry = new_entry s.current_term (length s.log + 1) command clock in
    ground (
      arith,
      IsIndexed-append 1 (length s.log + 1) s.log (entry ∷ []) (omega arith) w.indexed (refl, tt),
    )

applies-IsWellFormed :
    {S : Type 0} (apply_fn : LogEntry → S → S × ConsensusResult (Unit {0})) (m : S) (s : RaftNode)
    → IsWellFormed s
    → IsWellFormed (apply_committed_entries apply_fn s m).0
applies-IsWellFormed apply_fn m s w = ground (arith, apply-Kept apply_fn s m)

pub Step-IsWellFormed : {s t : RaftNode} → Step s t → IsWellFormed s → IsWellFormed t
Step-IsWellFormed {s} (elects now h) w = elects-IsWellFormed now s w
Step-IsWellFormed {s} (steps_down term) w = steps_down-IsWellFormed term s w
Step-IsWellFormed {s} (takes_over now) w = takes_over-IsWellFormed now s w
Step-IsWellFormed {s} (votes q now) w = votes-IsWellFormed q now s w
Step-IsWellFormed {s} (counts r now) w = counts-IsWellFormed r now s w
Step-IsWellFormed {s} (follows q now b) w = follows-IsWellFormed q now s b w
Step-IsWellFormed {s} (learns f r) w = learns-IsWellFormed f r s w
Step-IsWellFormed {s} (proposes command clock) w = proposes-IsWellFormed command clock s w
Step-IsWellFormed {s} (applies apply_fn m) w = applies-IsWellFormed apply_fn m s w

-- The identity of a node stays, and its term does not go back.
pub record Evolves (s t : RaftNode) : Type 0 where
  pub node_id : t.node_id ≡ s.node_id
  pub cluster_size : t.cluster_size ≡ s.cluster_size
  pub config : t.config ≡ s.config
  pub current_term : s.current_term ≤ t.current_term

-- A step of a leader that leaves it a leader keeps its term, only appends to its log and does not
-- lower its commit index; and no single step makes a follower a leader. An election that starts in the
-- term 2^64 - 1, and an append-entries request whose entries do not carry the positions that follow
-- its `prev_log_index`, are no steps.
pub leader_append_only :
    {s t : RaftNode}
    → Step s t
    → (s.state ≡ leader
        → t.state ≡ leader
        → (t.current_term ≡ s.current_term)
          × (take (length s.log) t.log ≡ s.log)
          × (s.commit_index ≤ t.commit_index))
      × (s.state ≡ follower → t.state ≢ leader)
unfolding become_follower become_leader start_election handle_vote_request handle_vote_response
    handle_append_entries handle_append_entries_response append_entry
leader_append_only (elects now h) = ground arith
leader_append_only {s} (steps_down term) = ground (arith, take-all (length s.log) s.log)
leader_append_only {s} (takes_over now) = ground (arith, take-all (length s.log) s.log)
leader_append_only {s} (votes q now) = ground (arith, take-all (length s.log) s.log)
leader_append_only {s} (counts r now) = ground (arith, take-all (length s.log) s.log)
leader_append_only {s} (follows q now b) = ground (arith, take-all (length s.log) s.log)
leader_append_only {s} (learns f r) = ground (arith, take-all (length s.log) s.log)
leader_append_only {s} (proposes command clock) =
    let entry = new_entry s.current_term (length s.log + 1) command clock in
    ground (arith, take-append_length s.log (entry ∷ []))
leader_append_only {s} (applies apply_fn m) =
    ground (arith, apply-Kept apply_fn s m, take-all (length s.log) s.log)
