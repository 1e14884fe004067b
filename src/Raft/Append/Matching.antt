-- ===== src/Raft/Append/Matching.antt =====
-- What a leader's request does at a follower: `create_append_entries`, then `handle_append_entries`.
use kaelix.Base.{
  ℕ, zero, suc, ◌+◌, ◌-◌, ◌≤◌, ◌≡◌, refl, ap, inl, inr, true, false, List, arith, length, take,
  drop, get_elem?, ltb, ltb→ge, ltb→lt, Bool-cases, Option-cases, unwrap_or, take-append-take-drop,
  drop-all, get_elem?-take,
}
use kaelix.Base.Assoc.{lookup}
use kaelix.Raft.Types.{
  NodeId, Term, LogIndex, ConsensusResult, ok, err, LogEntry, AppendEntriesRequest,
}
use kaelix.Raft.Node.{RaftNode}
use kaelix.Raft.Log.{check_log_consistency, get_entries_from, append_new_entries}
use kaelix.Raft.Append.{handle_append_entries, is_empty}
use kaelix.Raft.Append.Outcome.{succeeded}
use kaelix.Raft.Leader.{create_append_entries, entries_to_send}

get_entries_from-drop :
    (log : List LogEntry) (n m : ℕ) → n ≡ suc m → get_entries_from log n ≡ drop m log
unfolding get_entries_from
get_entries_from-drop log n m e = elim (Bool-cases (ltb (length log) n)) [
  | inl over ↦ ground (arith, drop-all m log)
  | inr inside ↦ let same : n - 1 ≡ m = omega arith in ground (arith, ap (λ k. drop k log) same)
]

-- What is read from the log fits the log.
entries_to_send-fits :
    (log : List LogEntry) (n : LogIndex) (t : Term) (es : List LogEntry)
    → entries_to_send log n ≡ ok (t, es)
    → (es ≡ drop (n - 1) log) × (check_log_consistency log (n - 1) t ≡ true)
unfolding entries_to_send check_log_consistency
entries_to_send-fits log n t es e = elim (Bool-cases (ltb 1 n)) [
  | inl late ↦ elim (Option-cases (get_elem? log (n - 1 - 1))) [
    | inl missing ↦ ground arith
    | inr (x, found) ↦
        ground (arith, get_entries_from-drop log n (n - 1) (omega (arith, ltb→lt 1 n late)))
  ]
  | inr early ↦
      ground (
        arith,
        get_entries_from-drop log 1 0 refl,
        ap (λ k. drop k log) (first n (ltb→ge 1 n early)),
      )
]
  where
    first : (k : ℕ) → k ≤ 1 → k - 1 ≡ 0
    first k h = omega arith

-- A request that a leader makes carries its term, the entries behind `prev_log_index` up to the
-- configured number, and a previous term that fits its own log.
create_append_entries-fits :
    (l : RaftNode) (follower_id : NodeId) (id : ℕ) (q : AppendEntriesRequest)
    → create_append_entries follower_id id l ≡ ok q
    → (q.term ≡ l.current_term)
      × (q.entries ≡ take l.config.max_entries_per_append (drop q.prev_log_index l.log))
      × (check_log_consistency l.log q.prev_log_index q.prev_log_term ≡ true)
unfolding create_append_entries
create_append_entries-fits l follower_id id q e = go (entries_to_send l.log next) refl
  where
    next : ℕ
    next = unwrap_or (lookup follower_id l.next_index) 1

    go :
        (r : ConsensusResult (Term × List LogEntry))
        → entries_to_send l.log next ≡ r
        → (q.term ≡ l.current_term)
          × (q.entries ≡ take l.config.max_entries_per_append (drop q.prev_log_index l.log))
          × (check_log_consistency l.log q.prev_log_index q.prev_log_term ≡ true)
    go (err x) p = ground arith
    go (ok (t, es)) p = ground (arith, entries_to_send-fits l.log next t es p)

check-agrees :
    (xs ys : List LogEntry) (p : LogIndex) (t : Term)
    → take p xs ≡ take p ys
    → check_log_consistency ys p t ≡ true
    → check_log_consistency xs p t ≡ true
unfolding check_log_consistency
check-agrees xs ys zero t e h = refl
check-agrees xs ys (suc p) t e h = ground (
  arith,
  get_elem?-take (suc p) (suc p - 1) xs (omega arith),
  get_elem?-take (suc p) (suc p - 1) ys (omega arith),
  ap (λ zs. get_elem? zs (suc p - 1)) e,
)

-- A follower that is not ahead in its term and agrees with the leader up to `prev_log_index` accepts
-- the leader's request. If the request has entries, its log is then a prefix of the leader's, as far
-- as the configured number of entries goes; without entries its log stays.
pub replicates :
    (l f : RaftNode) (follower_id : NodeId) (id now : ℕ) (q : AppendEntriesRequest)
    → create_append_entries follower_id id l ≡ ok q
    → f.current_term ≤ l.current_term
    → take q.prev_log_index f.log ≡ take q.prev_log_index l.log
    → (succeeded (handle_append_entries q now f).1 ≡ true)
      × (is_empty q.entries ≡ false
          → (handle_append_entries q now f).0.log
            ≡ take (q.prev_log_index + l.config.max_entries_per_append) l.log)
      × (is_empty q.entries ≡ true → (handle_append_entries q now f).0.log ≡ f.log)
unfolding handle_append_entries append_new_entries
replicates l f follower_id id now q made term agree =
    let (a, b, c) = create_append_entries-fits l follower_id id q made in
    let d = check-agrees f.log l.log q.prev_log_index q.prev_log_term agree c in
    (
      ground arith,
      (λ some_entries.
          let e = take-append-take-drop q.prev_log_index l.config.max_entries_per_append l.log in
          ground arith),
      (λ no_entries. ground arith),
    )
