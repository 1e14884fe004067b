-- ===== src/Raft/Apply/Rounds.antt =====
-- What `apply_committed_entries` hands to the closure, and what it leaves of the node.
use mathlib.Core.List.{foldl}
use native.Mathlib.Numerals.{add-one}
use kaelix.Base.{
  ℕ, zero, suc, ◌+◌, ◌-◌, ◌≤◌, ◌<◌, ◌≡◌, refl, sym, ap, ◌∙◌, inl, inr, List, ◌∷◌, Option, none,
  some, arith, take-cons, u64, length, get_elem?, take, drop, Option-cases, get_elem?_of_lt,
  drop-cons_of_get_elem?,
}
use kaelix.Raft.Types.{ConsensusResult, ok, err, log_inconsistency, LogEntry, ConsensusError}
use kaelix.Raft.Node.{RaftNode}
use kaelix.Raft.Apply.{apply_rounds, apply_committed_entries}

-- What the loop never touches.
pub record Kept (s t : RaftNode) : Type 0 where
  pub node_id : t.node_id ≡ s.node_id
  pub current_term : t.current_term ≡ s.current_term
  pub state : t.state ≡ s.state
  pub voted_for : t.voted_for ≡ s.voted_for
  pub log : t.log ≡ s.log
  pub commit_index : t.commit_index ≡ s.commit_index
  pub current_leader : t.current_leader ≡ s.current_leader
  pub cluster_size : t.cluster_size ≡ s.cluster_size
  pub vote_count : t.vote_count ≡ s.vote_count
  pub config : t.config ≡ s.config

-- The node after one successful round.
abbrev pub applied_one : RaftNode → RaftNode
applied_one s = record s {
  last_applied = s.last_applied + 1;
  metrics = record s.metrics { entries_committed = u64 (s.metrics.entries_committed + 1) };
}

abbrev pub next_entry : RaftNode → Option LogEntry
next_entry s = get_elem? s.log (s.last_applied + 1 - 1)

module _ {S : Type 0} (apply_fn : LogEntry → S → S × ConsensusResult (Unit {0})) where
  -- The three ways in which a round goes on.
  round_missing :
      (n : ℕ) (s : RaftNode) (m : S)
      → next_entry s ≡ none
      → apply_rounds apply_fn (suc n) s m ≡ (
        record s { last_applied = s.last_applied + 1 },
        m,
        err (log_inconsistency (s.last_applied + 1)),
      )
  unfolding apply_rounds
  round_missing n s m e = ground arith

  round_failed :
      (n : ℕ) (s : RaftNode) (m m' : S) (e : LogEntry) (x : ConsensusError)
      → next_entry s ≡ some e
      → apply_fn e m ≡ (m', err x)
      → apply_rounds apply_fn (suc n) s m
        ≡ (record s { last_applied = s.last_applied + 1 }, m', err x)
  unfolding apply_rounds
  round_failed n s m m' e x found failed = ground arith

  round_done :
      (n : ℕ) (s : RaftNode) (m m' : S) (e : LogEntry) (u : Unit {0})
      → next_entry s ≡ some e
      → apply_fn e m ≡ (m', ok u)
      → apply_rounds apply_fn (suc n) s m ≡ apply_rounds apply_fn n (applied_one s) m'
  unfolding apply_rounds
  round_done n s m m' e u found done = ground arith

  apply_rounds-Kept : (n : ℕ) (s : RaftNode) (m : S) → Kept s (apply_rounds apply_fn n s m).0
  apply_rounds-Kept zero s m = unfold apply_rounds in ground arith
  apply_rounds-Kept (suc n) s m = elim (Option-cases (next_entry s)) [
    | inl missing ↦ rw (round_missing n s m missing) (ground arith)
    | inr (e, found) ↦ go e found (apply_fn e m) refl (apply_rounds-Kept n (applied_one s))
  ]
    where
      go :
          (e : LogEntry)
          → next_entry s ≡ some e
          → (r : S × ConsensusResult (Unit {0})) → apply_fn e m ≡ r
          → ((m' : S) → Kept (applied_one s) (apply_rounds apply_fn n (applied_one s) m').0)
          → Kept s (apply_rounds apply_fn (suc n) s m).0
      go e found (m', ok u) done ih =
          rw (round_done n s m m' e u found done) (ground (arith, ih m'))
      go e found (m', err x) failed ih = rw (round_failed n s m m' e x found failed) (ground arith)

  pub apply-Kept : (s : RaftNode) (m : S) → Kept s (apply_committed_entries apply_fn s m).0
  unfolding apply_committed_entries
  apply-Kept s m = apply_rounds-Kept (s.commit_index - s.last_applied) s m

-- The committed entries that are not applied yet.
abbrev pub pending : RaftNode → List LogEntry
pending s = take (s.commit_index - s.last_applied) (drop s.last_applied s.log)

pending-cons :
    (s : RaftNode) (e : LogEntry)
    → s.last_applied < s.commit_index
    → get_elem? s.log s.last_applied ≡ some e
    → pending s ≡ e ∷ pending (record s { last_applied = s.last_applied + 1 })
pending-cons s e less found =
    let left = s.commit_index - (s.last_applied + 1) in
    ap (take (s.commit_index - s.last_applied)) (drop-cons_of_get_elem? s.last_applied s.log found)
    ∙ take-cons _ left e (drop (suc s.last_applied) s.log) (omega arith)
    ∙ ap (λ j. e ∷ take left (drop j s.log)) (sym (add-one s.last_applied))

module _ {S : Type 0} (apply_fn : LogEntry → S → S × ConsensusResult (Unit {0}))
    (succeeds : (e : LogEntry) (m : S) → (apply_fn e m).1 ≡ ok tt) where
  apply_rounds_all :
      (n : ℕ) (s : RaftNode) (m : S)
      → s.last_applied + n ≤ length s.log
      → ((apply_rounds apply_fn n s m).0.last_applied ≡ s.last_applied + n)
        × ((apply_rounds apply_fn n s m).1
            ≡ foldl (λ k e. (apply_fn e k).0) m (take n (drop s.last_applied s.log)))
        × ((apply_rounds apply_fn n s m).2 ≡ ok tt)
  apply_rounds_all zero s m h = unfold apply_rounds in (omega arith, refl, refl)
  apply_rounds_all (suc n) s m h =
      let (e, found) = get_elem?_of_lt s.log s.last_applied (omega arith) in
      let same : s.last_applied + 1 - 1 ≡ s.last_applied = omega arith in
      let ih = apply_rounds_all n (applied_one s) (apply_fn e m).0 (omega arith) in
      let step =
        round_done apply_fn n s m (apply_fn e m).0 e tt (ap (get_elem? s.log) same ∙ found)
          (λ i. ((apply_fn e m).0, succeeds e m i)) in
      let more : drop (s.last_applied + 1) s.log ≡ drop (suc s.last_applied) s.log =
        ap (λ k. drop k s.log) (add-one s.last_applied) in
      (
        rw step (omega (arith, ih.0)),
        rw (step, ih.1, more, drop-cons_of_get_elem? s.last_applied s.log found),
        rw step ih.2,
      )

  -- With a closure that always succeeds and a commit index inside the log, the call applies every
  -- committed entry that was not applied, each once and in order, and then nothing is left.
  pub applies_pending :
      (s : RaftNode) (m : S)
      → s.last_applied ≤ s.commit_index
      → s.commit_index ≤ length s.log
      → ((apply_committed_entries apply_fn s m).0.last_applied ≡ s.commit_index)
        × ((apply_committed_entries apply_fn s m).1 ≡ foldl (λ k e. (apply_fn e k).0) m (pending s))
        × ((apply_committed_entries apply_fn s m).2 ≡ ok tt)
  unfolding apply_committed_entries
  applies_pending s m h k =
      let (a, b, c) = apply_rounds_all (s.commit_index - s.last_applied) s m (omega arith) in
      (omega arith, b, c)

-- If the closure fails on the first pending entry, the call returns that error and still counts the
-- entry as applied: a second call, with a closure that always succeeds, starts behind it.
pub failed_entry_is_skipped :
    {S : Type 0} (failing retry : LogEntry → S → S × ConsensusResult (Unit {0})) (s : RaftNode)
    (m m' k : S) (e : LogEntry) (x : ConsensusError)
    → ((d : LogEntry) (j : S) → (retry d j).1 ≡ ok tt)
    → s.last_applied < s.commit_index
    → s.commit_index ≤ length s.log
    → get_elem? s.log s.last_applied ≡ some e
    → failing e m ≡ (m', err x)
    → let t = (apply_committed_entries failing s m).0 in
      ((apply_committed_entries failing s m).2 ≡ err x)
      × (pending s ≡ e ∷ pending t)
      × ((apply_committed_entries retry t k).1 ≡ foldl (λ j d. (retry d j).0) k (pending t))
unfolding apply_committed_entries
failed_entry_is_skipped failing retry s m m' k e x works less inside found fails = (
  ap (λ r. r.2) once,
  rw stepped (pending-cons s e less found),
  (applies_pending retry works (apply_committed_entries failing s m).0 k (rw stepped (omega arith))
      (rw stepped inside)).1,
)
  where
    after : RaftNode
    after = record s { last_applied = s.last_applied + 1 }

    once : apply_committed_entries failing s m ≡ (after, m', err x)
    once =
        let rounds : s.commit_index - s.last_applied ≡ suc (s.commit_index - s.last_applied - 1) =
          omega arith in
        let same : s.last_applied + 1 - 1 ≡ s.last_applied = omega arith in
        rw rounds (round_failed failing _ s m m' e x (ap (get_elem? s.log) same ∙ found) fails)

    stepped : (apply_committed_entries failing s m).0 ≡ after
    stepped = ap (λ r. r.0) once
