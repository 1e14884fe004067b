-- ===== src/Raft/Leader/Conflict.antt =====
-- Where a leader goes on after a refused request: `handle_log_conflict`.
use native.Mathlib.Nat.{zero-add}
use kaelix.Base.{
  ℕ, zero, suc, ◌+◌, ◌≡◌, ◌≢◌, refl, ◌⊎◌, inl, inr, List, [], ◌∷◌, none, some, arith, get_elem?,
  ◌==◌, Bool-cases,
}
use kaelix.Base.Assoc.{lookup, lookup-insert, lookup-insert_self}
use kaelix.Raft.Types.{NodeId, Term, LogIndex, LogEntry, AppendEntriesResponse}
use kaelix.Raft.Node.{RaftNode}
use kaelix.Raft.Log.{last_of_term}
use kaelix.Raft.Log.Facts.{HasTerm, NoneAfter}
use kaelix.Raft.Leader.{conflict_next, handle_log_conflict}

-- No entry has term `t`.
abbrev pub Lacks : List LogEntry → Term → Type 0
Lacks log t = (k : ℕ) (e : LogEntry) → get_elem? log k ≡ some e → e.term ≢ t

abbrev LastOf : Term → ℕ → List LogEntry → Type 0
LastOf t i xs =
    ((last_of_term t i xs ≡ none) × Lacks xs t)
    ⊎ ((j : ℕ) × (last_of_term t i xs ≡ some (i + j)) × HasTerm xs j t × NoneAfter xs j t)

Lacks-cons :
    (t : Term) (x : LogEntry) (xs : List LogEntry) → x.term ≢ t → Lacks xs t → Lacks (x ∷ xs) t
Lacks-cons t x xs ne l zero e g = ground arith
Lacks-cons t x xs ne l (suc k) e g = l k e g

NoneAfter-head :
    (t : Term) (x : LogEntry) (xs : List LogEntry) → Lacks xs t → NoneAfter (x ∷ xs) 0 t
NoneAfter-head t x xs l zero e h g = absurd (omega arith)
NoneAfter-head t x xs l (suc k) e h g = l k e g

NoneAfter-cons :
    (t : Term) (x : LogEntry) (xs : List LogEntry) (j : ℕ)
    → NoneAfter xs j t
    → NoneAfter (x ∷ xs) (suc j) t
NoneAfter-cons t x xs j n zero e h g = absurd (omega arith)
NoneAfter-cons t x xs j n (suc k) e h g = n k e (omega arith) g

last_of_term_lem : (t : Term) (i : ℕ) (xs : List LogEntry) → LastOf t i xs
unfolding last_of_term
last_of_term_lem t i [] = inl (refl, λ k e g. cc)
last_of_term_lem t i (x ∷ xs) = elim (last_of_term_lem t (suc i) xs) [
  | inr (j, found, has, after) ↦ inr (suc j, ground arith, has, NoneAfter-cons t x xs j after)
  | inl (missing, lacks) ↦ elim (Bool-cases (x.term == t)) [
    | inl hit ↦ inr (0, ground arith, (x, refl, ground arith), NoneAfter-head t x xs lacks)
    | inr miss ↦ inl (ground arith, Lacks-cons t x xs (ground arith) lacks)
  ]
]

-- After a refusal with a conflict index the leader goes on, for that follower, right behind its own
-- last entry of the conflict term, or at the conflict index where it has none of that term or no term
-- is given; for every other follower it goes on where it was.
handle_log_conflict_next :
    (f g : NodeId) (r : AppendEntriesResponse) (s : RaftNode) (i : LogIndex)
    → r.conflict_index ≡ some i
    → let next = lookup f (handle_log_conflict f r s).next_index in
      (r.conflict_term ≡ none → next ≡ some i)
      × ((t : Term)
          → r.conflict_term ≡ some t
          → (Lacks s.log t × (next ≡ some i))
            ⊎ ((j : ℕ) × HasTerm s.log j t × NoneAfter s.log j t × (next ≡ some (j + 2))))
      × (g ≢ f → lookup g (handle_log_conflict f r s).next_index ≡ lookup g s.next_index)
unfolding handle_log_conflict
handle_log_conflict_next f g r s i hint = (
  (λ no_term. ground (arith, lookup-insert_self f i s.next_index)),
  (λ t term. elim (last_of_term_lem t 0 s.log) [
    | inl (missing, lacks) ↦ inl (lacks, ground (arith, lookup-insert_self f i s.next_index))
    | inr (j, found, has, after) ↦
        inr (j, has, after, ground (arith, zero-add j, lookup-insert_self f (j + 2) s.next_index))
  ]),
  (λ other. ground (arith, lookup-insert f g (conflict_next s.log i r.conflict_term) s.next_index)),
)
