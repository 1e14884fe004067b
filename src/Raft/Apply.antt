-- ===== src/Raft/Apply.antt =====
-- The loop that hands the committed entries to the state machine.
pub mod Rounds
use kaelix.Base.{ℕ, zero, suc, ◌+◌, ◌-◌, u64, Option, none, some, get_elem?}
use kaelix.Raft.Types.{ConsensusResult, ok, err, log_inconsistency, LogEntry}
use kaelix.Raft.Node.{RaftNode}

-- `apply_fn` is a closure that may change a state of its own.
module _ {S : Type 0} (apply_fn : LogEntry → S → S × ConsensusResult (Unit {0})) where
  abbrev count_applied : RaftNode → RaftNode
  count_applied s = record s {
    metrics = record s.metrics { entries_committed = u64 (s.metrics.entries_committed + 1) };
  }

  -- The body of the loop, at the entry that `last_applied` now names.
  abbrev apply_entry : RaftNode → Option LogEntry → S → RaftNode × S × ConsensusResult (Unit {0})
  apply_entry s none m = (s, m, err (log_inconsistency s.last_applied))
  apply_entry s (some e) m =
      let (m', r) = apply_fn e m in
      elim r [ ok u ↦ (count_applied s, m', ok tt) | err x ↦ (s, m', err x) ]

  -- One round for each index from `last_applied + 1` to `commit_index`.
  unfoldable pub apply_rounds : ℕ → RaftNode → S → RaftNode × S × ConsensusResult (Unit {0})
  apply_rounds zero s m = (s, m, ok tt)
  apply_rounds (suc n) s m =
      let t = record s { last_applied = s.last_applied + 1 } in
      let (t', m', r) = apply_entry t (get_elem? t.log (t.last_applied - 1)) m in
      elim r [ ok u ↦ apply_rounds n t' m' | err x ↦ (t', m', err x) ]

  unfoldable pub apply_committed_entries : RaftNode → S → RaftNode × S × ConsensusResult (Unit {0})
  unfolding apply_rounds
  apply_committed_entries s m = apply_rounds (s.commit_index - s.last_applied) s m
