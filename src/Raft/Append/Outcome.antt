-- ===== src/Raft/Append/Outcome.antt =====
-- What `handle_append_entries` answers, and what it does to the commit index.
use kaelix.Base.{
  ℕ, ◌+◌, ◌<◌, ◌≡◌, ◌↔◌, Bool, true, false, Option, none, some, arith, length, length-append,
  length-take, ◌≤◌, take, drop, ◌-◌, ◌≢◌, ◌⊎◌, inl, inr, ap, sym, subst, List,
}
use kaelix.Raft.Types.{
  LogIndex, Term, LogEntry, ConsensusResult, ok, err, AppendEntriesRequest, AppendEntriesResponse,
}
use kaelix.Raft.Node.{RaftNode}
use kaelix.Raft.Log.{check_log_consistency, find_conflict_info, append_new_entries}
use kaelix.Raft.Log.Facts.{HasTerm, NoneBefore, find_conflict_info_lem}
use kaelix.Raft.Append.{handle_append_entries, is_empty}

abbrev pub succeeded : ConsensusResult AppendEntriesResponse → Bool
succeeded (ok r) = r.success
succeeded (err e) = false

-- The request is accepted exactly when its term is not behind and the log holds the entry that it
-- builds on.
succeeded_iff :
    (q : AppendEntriesRequest) (now : ℕ) (s : RaftNode)
    → (succeeded (handle_append_entries q now s).1 ≡ true) ↔ (
        (s.current_term ≤ q.term)
        × (check_log_consistency s.log q.prev_log_index q.prev_log_term ≡ true))
unfolding handle_append_entries
succeeded_iff q now s = ground arith

-- The two conflict hints of an answer.
abbrev pub conflict : ConsensusResult AppendEntriesResponse → Option LogIndex × Option Term
conflict (ok r) = (r.conflict_index, r.conflict_term)
conflict (err e) = (none, none)

abbrev hints : LogIndex × Option Term → Option LogIndex × Option Term
hints (i, t) = (some i, t)

-- What the two hints of a refusal tell about the log: it ends before the entry asked for, and the hint
-- is its length; or that entry has another term `c`, and the hints are `c` and the index of the first
-- entry of that term.
abbrev pub IsHint : List LogEntry → AppendEntriesRequest → Option LogIndex × Option Term → Type 0
IsHint log q answer =
    ((length log < q.prev_log_index) × (answer ≡ (some (length log), none)))
    ⊎ ((j : ℕ) × (c : Term) × (answer ≡ (some (j + 1), some c))
        × (c ≢ q.prev_log_term)
        × (j < q.prev_log_index)
        × HasTerm log (q.prev_log_index - 1) c
        × HasTerm log j c
        × NoneBefore log j c)

hints-IsHint :
    (log : List LogEntry) (q : AppendEntriesRequest)
    → check_log_consistency log q.prev_log_index q.prev_log_term ≡ false
    → IsHint log q (hints (find_conflict_info log q.prev_log_index))
hints-IsHint log q h = elim (find_conflict_info_lem log q.prev_log_index q.prev_log_term h) [
  | inl (short, e) ↦ inl (short, ap hints e)
  | inr (c, j, e, other, before, asked, found, first) ↦
      inr (j, c, ap hints e, other, before, asked, found, first)
]

refusal :
    (q : AppendEntriesRequest) (now : ℕ) (s : RaftNode)
    → s.current_term ≤ q.term
    → succeeded (handle_append_entries q now s).1 ≡ false
    → (check_log_consistency s.log q.prev_log_index q.prev_log_term ≡ false)
      × ((handle_append_entries q now s).0.log ≡ s.log)
      × (conflict (handle_append_entries q now s).1
          ≡ hints (find_conflict_info s.log q.prev_log_index))
unfolding handle_append_entries
refusal q now s term refused = (ground arith, ground arith, ground arith)

-- A request of an old term changes nothing. A refused one of another term leaves the log, and its
-- answer says why: the log ends before the entry that the request builds on, and the conflict index is
-- its length; or that entry has another term, which is the conflict term, and the conflict index is
-- that of the first entry of this term. The commit index changes only with an accepted request, and
-- then neither beyond the leader's commit index nor beyond the log.
pub handle_append_entries_outcome :
    (q : AppendEntriesRequest) (now : ℕ) (s : RaftNode)
    → let t = (handle_append_entries q now s).0 in
      let answer = (handle_append_entries q now s).1 in
      (q.term < s.current_term → t ≡ s)
      × (s.current_term ≤ q.term
          → succeeded answer ≡ false
          → (t.log ≡ s.log) × IsHint s.log q (conflict answer))
      × (t.commit_index ≢ s.commit_index
          → (succeeded answer ≡ true)
            × (t.commit_index ≤ q.leader_commit)
            × (t.commit_index ≤ length t.log))
unfolding handle_append_entries
handle_append_entries_outcome q now s = (
  (λ old. ground arith),
  (λ term refused.
      let (inconsistent, same, told) = refusal q now s term refused in
      (same, subst (IsHint s.log q) (sym told) (hints-IsHint s.log q inconsistent))),
  (λ moved. ground arith),
)

-- A repeated or late request cuts the log even where the log already holds all its entries: with
-- entries that end before the commit index, the node is left with fewer entries than it committed.
pub late_request_drops_committed :
    (q : AppendEntriesRequest) (now : ℕ) (s : RaftNode)
    → s.current_term ≤ q.term
    → check_log_consistency s.log q.prev_log_index q.prev_log_term ≡ true
    → is_empty q.entries ≡ false
    → take (length q.entries) (drop q.prev_log_index s.log) ≡ q.entries
    → q.prev_log_index + length q.entries < s.commit_index
    → q.leader_commit ≤ s.commit_index
    → let t = (handle_append_entries q now s).0 in
      (t.commit_index ≡ s.commit_index) × (length t.log < t.commit_index)
unfolding handle_append_entries append_new_entries
late_request_drops_committed q now s term fits some_entries held short behind = ground (
  arith,
  length-append (take q.prev_log_index s.log) q.entries,
  length-take q.prev_log_index s.log,
)
