-- ===== src/Replication/Consistency/Sessions.antt =====
-- What the consistency checks promise: kaelix-storage/src/replication/consistency.rs.
use kaelix.Base.{
  ℕ, ◌-◌, ◌≤◌, max, ltb, leb, ◌==◌, not, ◌&&◌, ◌||◌, ◌≡◌, inl, inr, sym, ap, subst, ◌∙◌, arith,
  Bool, true, false, List, [], ◌∷◌, Option, some, Option-cases, Bool-cases, unwrap_or,
}
use kaelix.Base.Assoc.{Assoc, lookup, insert, contains, keys, IsMap, lookup-insert}
use kaelix.Raft.Types.{NodeId}
use kaelix.Replication.Consistency.{
  ConsistencyManager, SessionInfo, new, read_your_writes, monotonic, create_session,
  update_session_write, check_read_consistency, update_vector_clock, update_node_sequence,
  cleanup_expired_sessions, retain,
}

-- The operations during the life of a session `sid`, which is not created again.
pub data Step (sid : ℕ) (m : ConsistencyManager) : ConsistencyManager → Type 0 where
  created : (now k : ℕ) → (k == sid) ≡ false → Step sid m (create_session now k m).0
  wrote : (k sequence : ℕ) → Step sid m (update_session_write k sequence m)
  clocked : (node : NodeId) (sequence : ℕ) → Step sid m (update_vector_clock node sequence m)
  sequenced : (node : NodeId) (sequence : ℕ) → Step sid m (update_node_sequence node sequence m)
  cleaned :
      (now max_age removed : ℕ) (t : ConsistencyManager)
      → cleanup_expired_sessions now max_age m ≡ some (t, removed)
      → Step sid m t

pub data Reach (sid : ℕ) (m : ConsistencyManager) : ConsistencyManager → Type 0 where
  here : Reach sid m m
  next : {t u : ConsistencyManager} → Reach sid m t → Step sid t u → Reach sid m u

-- No entry of the session is behind the sequence `q`.
abbrev IsAtLeast : ℕ → ℕ → Assoc SessionInfo → Type 0
IsAtLeast sid q [] = Unit {0}
IsAtLeast sid q ((k, s) ∷ ss) = ((k == sid) ≡ true → q ≤ s.last_write_sequence) × IsAtLeast sid q ss

insert-IsAtLeast :
    (sid q k : ℕ) (s : SessionInfo) (ss : Assoc SessionInfo)
    → ((k == sid) ≡ true → q ≤ s.last_write_sequence)
    → IsAtLeast sid q ss
    → IsAtLeast sid q (insert k s ss)
unfolding insert
insert-IsAtLeast sid q k s [] new_one h = (new_one, tt)
insert-IsAtLeast sid q k s ((j, r) ∷ ss) new_one h = elim (Bool-cases (j == k)) [
  | inl same ↦ rw same (new_one, h.1)
  | inr other ↦ rw other (h.0, insert-IsAtLeast sid q k s ss new_one h.1)
]

lookup-IsAtLeast :
    (sid q : ℕ) (ss : Assoc SessionInfo) (s : SessionInfo)
    → IsAtLeast sid q ss
    → lookup sid ss ≡ some s
    → q ≤ s.last_write_sequence
unfolding lookup
lookup-IsAtLeast sid q [] s h e = absurd (ground arith)
lookup-IsAtLeast sid q ((k, r) ∷ ss) s h e = elim (Bool-cases (k == sid)) [
  | inl same ↦ ground (arith, h.0 same)
  | inr other ↦ lookup-IsAtLeast sid q ss s h.1 (ground arith)
]

retain-IsAtLeast :
    (sid q cutoff : ℕ) (ss : Assoc SessionInfo)
    → IsAtLeast sid q ss
    → IsAtLeast sid q (retain cutoff ss)
unfolding retain
retain-IsAtLeast sid q cutoff [] h = h
retain-IsAtLeast sid q cutoff ((k, s) ∷ ss) h =
    elim (Bool-cases (ltb cutoff s.last_read_timestamp)) [
      | inl young ↦ rw young (h.0, retain-IsAtLeast sid q cutoff ss h.1)
      | inr old ↦ rw old (retain-IsAtLeast sid q cutoff ss h.1)
    ]

same_key : (sid k : ℕ) (ss : Assoc SessionInfo) → (k == sid) ≡ true → lookup k ss ≡ lookup sid ss
same_key sid k ss e = ap (λ i. lookup i ss) (ground arith)

wrote-IsAtLeast :
    (sid q k sequence : ℕ) (m : ConsistencyManager)
    → IsAtLeast sid q m.sessions
    → IsAtLeast sid q (update_session_write k sequence m).sessions
unfolding update_session_write
wrote-IsAtLeast sid q k sequence m h = elim (Option-cases (lookup k m.sessions)) [
  | inl missing ↦ rw missing h
  | inr (s, found) ↦ rw found (
      insert-IsAtLeast sid q k _ m.sessions
        (λ same.
          let behind =
            lookup-IsAtLeast sid q m.sessions s h (sym (same_key sid k m.sessions same) ∙ found) in
          omega (arith, behind))
        h)
]

Step-IsAtLeast :
    (sid q : ℕ) {m t : ConsistencyManager}
    → Step sid m t
    → IsAtLeast sid q m.sessions
    → IsAtLeast sid q t.sessions
unfolding create_session update_vector_clock update_node_sequence cleanup_expired_sessions
Step-IsAtLeast sid q {m} (created now k other) h =
    insert-IsAtLeast sid q k _ m.sessions (λ same. absurd (ground arith)) h
Step-IsAtLeast sid q {m} (wrote k sequence) h = wrote-IsAtLeast sid q k sequence m h
Step-IsAtLeast sid q (clocked node sequence) h = h
Step-IsAtLeast sid q (sequenced node sequence) h = h
Step-IsAtLeast sid q {m} {t} (cleaned now max_age removed _ e) h =
    let left : t.sessions ≡ retain (now - max_age) m.sessions = ground arith in
    subst (IsAtLeast sid q) (sym left) (retain-IsAtLeast sid q (now - max_age) m.sessions h)

absent-IsAtLeast :
    (sid q : ℕ) (ss : Assoc SessionInfo) → contains sid (keys ss) ≡ false → IsAtLeast sid q ss
unfolding contains
absent-IsAtLeast sid q [] h = tt
absent-IsAtLeast sid q ((k, s) ∷ ss) h =
    ((λ same. absurd (ground arith)), absent-IsAtLeast sid q ss (ground arith))

stored-IsAtLeast :
    (sid q : ℕ) (s : SessionInfo) (ss : Assoc SessionInfo)
    → IsMap ss
    → q ≤ s.last_write_sequence
    → IsAtLeast sid q (insert sid s ss)
unfolding insert
stored-IsAtLeast sid q s [] once h = ((λ same. h), tt)
stored-IsAtLeast sid q s ((j, r) ∷ ss) once h = elim (Bool-cases (j == sid)) [
  | inl same ↦ rw same (
    (λ e. h),
    absent-IsAtLeast sid q ss
        (ap (λ i. contains i (keys ss)) {x = sid} {y = j} (ground arith) ∙ once.0),
  )
  | inr other ↦ rw other ((λ e. absurd (ground arith)), stored-IsAtLeast sid q s ss once.1 h)
]

wrote_first-IsAtLeast :
    (sid q : ℕ) (m : ConsistencyManager) (s : SessionInfo)
    → IsMap m.sessions
    → lookup sid m.sessions ≡ some s
    → IsAtLeast sid q (update_session_write sid q m).sessions
unfolding update_session_write
wrote_first-IsAtLeast sid q m s once found =
    rw found (stored-IsAtLeast sid q _ m.sessions once (omega arith))

Reach-IsAtLeast :
    (sid q : ℕ) {m t : ConsistencyManager}
    → Reach sid m t
    → IsAtLeast sid q m.sessions
    → IsAtLeast sid q t.sessions
Reach-IsAtLeast sid q here h = h
Reach-IsAtLeast sid q (next r st) h = Step-IsAtLeast sid q st (Reach-IsAtLeast sid q r h)

-- After a write of a known session was recorded, a read passes the read-your-writes check of that
-- session only if its sequence is that of the write or a later one; whatever other writes, sessions,
-- sequences and clean-ups follow, as long as the session is not created again. Each session stands once
-- in the table.
pub reads_own_writes :
    (sid sequence read_sequence : ℕ) (node : NodeId) (m t : ConsistencyManager) (s : SessionInfo)
    → IsMap m.sessions
    → lookup sid m.sessions ≡ some s
    → Reach sid (update_session_write sid sequence m) t
    → check_read_consistency read_your_writes (some sid) read_sequence node t ≡ true
    → sequence ≤ read_sequence
unfolding check_read_consistency
reads_own_writes sid sequence read_sequence node m t s once found run passed =
    let kept =
      Reach-IsAtLeast sid sequence run (wrote_first-IsAtLeast sid sequence m s once found) in
    elim (Option-cases (lookup sid t.sessions)) [
      | inl missing ↦ absurd (ground arith)
      | inr (r, there) ↦
          let behind = lookup-IsAtLeast sid sequence t.sessions r kept there in ground arith
    ]

-- `update_node_sequence` for each of the reports, and the check that a reader of all reports would make.
unfoldable pub record_all : List (NodeId × ℕ) → ConsistencyManager → ConsistencyManager
unfolding update_node_sequence
record_all [] m = m
record_all ((node, sequence) ∷ us) m = record_all us (update_node_sequence node sequence m)

unfoldable pub covers_all : NodeId → ℕ → List (NodeId × ℕ) → Bool
covers_all node read_sequence [] = true
covers_all node read_sequence ((k, sequence) ∷ us) =
    (not (k == node) || leb sequence read_sequence) && covers_all node read_sequence us

check_after :
    (node : NodeId) (read_sequence : ℕ) (session : Option ℕ) (us : List (NodeId × ℕ))
    (m : ConsistencyManager)
    → check_read_consistency monotonic session read_sequence node (record_all us m) ≡ (
        check_read_consistency monotonic session read_sequence node m
        && covers_all node read_sequence us)
unfolding check_read_consistency record_all covers_all
check_after node read_sequence session [] m = ground arith
check_after node read_sequence session ((k, sequence) ∷ us) m = ground (
  arith,
  check_after node read_sequence session us (update_node_sequence k sequence m),
  lookup-insert k node (max (unwrap_or (lookup k m.node_sequences) 0) sequence) m.node_sequences,
)

-- After any reports on a new manager the monotonic check of a read passes exactly when no report on the
-- node that is read is ahead of it. What the same session read from other nodes plays no part.
monotonic_covers_reports :
    (local node : NodeId) (read_sequence : ℕ) (session : Option ℕ) (us : List (NodeId × ℕ))
    → check_read_consistency monotonic session read_sequence node (record_all us (new local))
      ≡ covers_all node read_sequence us
unfolding check_read_consistency new covers_all lookup
monotonic_covers_reports local node read_sequence session us =
    ground (arith, check_after node read_sequence session us (new local))
