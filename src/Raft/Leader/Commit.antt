-- ===== src/Raft/Leader/Commit.antt =====
-- When a leader commits: `try_advance_commit_index`, and the cases in which it commits too much.
use kaelix.Base.{
  ℕ, suc, ◌+◌, ◌-◌, ◌*◌, ◌/◌, ◌≤◌, ◌<◌, ◌≡◌, ◌++◌, ap, ◌⊎◌, inl, inr, true, List, [], ◌∷◌, some,
  arith, length, get_elem?, Option-cases, length-append, get_elem?_of_lt,
}
use kaelix.Base.Assoc.{values, insert}
use kaelix.Base.Sort.{sort, count_ge, sort-IsSorted, length-sort, count_ge-sort, count_ge-sorted}
use kaelix.Raft.Types.{NodeId, LogIndex, LogEntry, AppendEntriesResponse}
use kaelix.Raft.Node.{RaftNode, is_leader}
use kaelix.Raft.Election.{majority}
use kaelix.Raft.Leader.{match_indices, handle_append_entries_response, try_advance_commit_index}

-- The indices that the leader knows: each follower's that it has heard of, and its own.
abbrev pub known_indices : RaftNode → List LogIndex
known_indices s = values s.match_index ++ (length s.log ∷ [])

length-match_indices :
    (s : RaftNode) → length (match_indices s) ≡ suc (length (values s.match_index))
unfolding match_indices
length-match_indices s =
    omega (
      arith,
      length-sort (known_indices s),
      length-append (values s.match_index) (length s.log ∷ []),
    )

-- The position read is inside the list.
pub match_indices-middle :
    (s : RaftNode)
    → (n : LogIndex) × (get_elem? (match_indices s) (length (match_indices s) / 2) ≡ some n)
match_indices-middle s = get_elem?_of_lt (match_indices s) _ (omega (arith, length-match_indices s))

count-middle :
    (s : RaftNode) (n : LogIndex)
    → get_elem? (match_indices s) (length (match_indices s) / 2) ≡ some n
    → length (known_indices s) ≤ length (known_indices s) / 2 + count_ge n (known_indices s)
unfolding match_indices
count-middle s n e =
    let xs = known_indices s in
    omega (
      arith,
      count_ge-sorted (sort xs) (length (sort xs) / 2) n (sort-IsSorted xs) e,
      count_ge-sort n xs,
      length-sort xs,
    )

-- A commit index that moves moves up, to an entry of the current term.
pub advance_cases :
    (s : RaftNode) (n : LogIndex)
    → get_elem? (match_indices s) (length (match_indices s) / 2) ≡ some n
    → (try_advance_commit_index s ≡ s)
      ⊎ ((e : LogEntry) × (get_elem? s.log (n - 1) ≡ some e)
          × (e.term ≡ s.current_term)
          × (s.commit_index < n)
          × (is_leader s ≡ true)
          × (try_advance_commit_index s ≡ record s { commit_index = n }))
unfolding try_advance_commit_index
advance_cases s n m = elim (Option-cases (get_elem? s.log (n - 1))) [
  | inl missing ↦ ground arith
  | inr (e, found) ↦ ground arith
]

-- In a cluster of 2k + 1 members of which the leader knows all 2k followers, a commit index that
-- moves goes up, to an entry of the leader's term that a majority of the cluster holds.
pub commit_on_majority :
    (s : RaftNode) (k : ℕ)
    → s.cluster_size ≡ 2 * k + 1
    → length (values s.match_index) ≡ 2 * k
    → let t = try_advance_commit_index s in
      (t ≡ s)
      ⊎ ((e : LogEntry) × (s.commit_index < t.commit_index)
          × (get_elem? s.log (t.commit_index - 1) ≡ some e)
          × (e.term ≡ s.current_term)
          × (majority s.cluster_size ≤ count_ge t.commit_index (known_indices s)))
commit_on_majority s k size followers =
    let (n, m) = match_indices-middle s in
    elim (advance_cases s n m) [
      | inl same ↦ inl same
      | inr (e, found, term, up, _, moved) ↦
          let to : (try_advance_commit_index s).commit_index ≡ n = ap (λ t. t.commit_index) moved in
          inr (
            e,
            rw to up,
            rw to found,
            term,
            rw to (
                omega (
                  arith,
                  count-middle s n m,
                  length-append (values s.match_index) (length s.log ∷ []),
                )),
          )
    ]

-- A new leader knows no follower. When the first follower answers that it holds `m` entries, fewer
-- than the leader, the leader commits its whole log if its last entry is of its term, though no other
-- member of the cluster is known to hold that entry.
pub first_answer_commits_all :
    (s : RaftNode) (f : NodeId) (r : AppendEntriesResponse) (m : LogIndex) (e : LogEntry)
    → s.match_index ≡ []
    → is_leader s ≡ true
    → 2 ≤ s.cluster_size
    → r.term ≡ s.current_term
    → r.success ≡ true
    → r.last_log_index ≡ some m
    → m < length s.log
    → s.commit_index < length s.log
    → get_elem? s.log (length s.log - 1) ≡ some e
    → e.term ≡ s.current_term
    → let t = (handle_append_entries_response f r s).0 in
      (t.commit_index ≡ length s.log)
      × (count_ge t.commit_index (known_indices t) ≡ 1)
      × (count_ge t.commit_index (known_indices t) < majority t.cluster_size)
unfolding handle_append_entries_response match_indices sort insert count_ge
first_answer_commits_all s f r m e none_known lead size term good says less behind found current = (
  committed,
  rw (committed, tracked) counted,
  rw (committed, tracked, counted) (rw sized (omega arith)),
)
  where
    committed : (handle_append_entries_response f r s).0.commit_index ≡ length s.log
    committed = ground (arith, ap (insert f m) none_known)

    tracked : known_indices (handle_append_entries_response f r s).0 ≡ m ∷ length s.log ∷ []
    tracked = ground (arith, ap (insert f m) none_known)

    counted : count_ge (length s.log) (m ∷ length s.log ∷ []) ≡ 1
    counted = ground arith

    sized : (handle_append_entries_response f r s).0.cluster_size ≡ s.cluster_size
    sized = ground arith
