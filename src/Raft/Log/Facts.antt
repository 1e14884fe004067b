-- ===== src/Raft/Log/Facts.antt =====
-- What the log helpers of a node answer: the last entry, the conflict hints, the indices.
use kaelix.Base.{
  ℕ, zero, suc, ◌+◌, ◌-◌, ◌≤◌, ◌<◌, ◌≡◌, ◌≢◌, refl, subst, false, List, [], ◌∷◌, ◌++◌, none, some,
  arith, length, get_elem?, take, Bool-cases, ltb, ltb→lt, ltb→ge, ◌==◌, ◌⊎◌, inl, inr,
  get_elem?_of_lt,
}
use native.Mathlib.Nat.{zero-add}
use kaelix.Raft.Types.{Term, LogIndex, LogEntry}
use kaelix.Raft.Log.{last_log_info, check_log_consistency, first_of_term, find_conflict_info}

-- The entries carry their positions, counted from `n`.
abbrev pub IsIndexed : ℕ → List LogEntry → Type 0
IsIndexed n [] = Unit {0}
IsIndexed n (e ∷ es) = (e.index ≡ n) × IsIndexed (suc n) es

pub IsIndexed-append :
    (n m : ℕ) (xs ys : List LogEntry)
    → m ≡ n + length xs
    → IsIndexed n xs
    → IsIndexed m ys
    → IsIndexed n (xs ++ ys)
IsIndexed-append n m [] ys e a b = subst (λ k. IsIndexed k ys) (omega arith) b
IsIndexed-append n m (x ∷ xs) ys e a b = (a.0, IsIndexed-append (suc n) m xs ys (omega arith) a.1 b)

pub IsIndexed-take : (n k : ℕ) (xs : List LogEntry) → IsIndexed n xs → IsIndexed n (take k xs)
IsIndexed-take n zero xs a = tt
IsIndexed-take n (suc k) [] a = tt
IsIndexed-take n (suc k) (x ∷ xs) a = (a.0, IsIndexed-take (suc n) k xs a.1)

last_index :
    (n : ℕ) (x : LogEntry) (xs : List LogEntry)
    → IsIndexed n (x ∷ xs)
    → (last_log_info (x ∷ xs)).0 ≡ n + length xs
unfolding last_log_info
last_index n x [] a = omega arith
last_index n x (y ∷ ys) a = omega (arith, last_index (suc n) y ys a.1)

-- In an indexed log the last entry's index is the length.
pub last_log_info-length :
    (log : List LogEntry) → IsIndexed 1 log → (last_log_info log).0 ≡ length log
unfolding last_log_info
last_log_info-length [] a = refl
last_log_info-length (x ∷ xs) a = omega (arith, last_index 1 x xs a)

-- The entry at position `j` has term `t`.
abbrev pub HasTerm : List LogEntry → ℕ → Term → Type 0
HasTerm log j t = (e : LogEntry) × (get_elem? log j ≡ some e) × (e.term ≡ t)

-- No entry before position `j` has term `t`.
abbrev pub NoneBefore : List LogEntry → ℕ → Term → Type 0
NoneBefore log j t = (k : ℕ) (e : LogEntry) → k < j → get_elem? log k ≡ some e → e.term ≢ t

-- No entry behind position `j` has term `t`.
abbrev pub NoneAfter : List LogEntry → ℕ → Term → Type 0
NoneAfter log j t = (k : ℕ) (e : LogEntry) → j < k → get_elem? log k ≡ some e → e.term ≢ t

first_of_term-ge : (t : Term) (i j : ℕ) (xs : List LogEntry) → first_of_term t i xs ≡ some j → i ≤ j
unfolding first_of_term
first_of_term-ge t i j [] e = cc
first_of_term-ge t i j (x ∷ xs) e = ground (arith, first_of_term-ge t (suc i) j xs)

first_of_term-HasTerm :
    (t : Term) (i k j : ℕ) (xs : List LogEntry)
    → i + k ≡ j
    → first_of_term t i xs ≡ some j
    → HasTerm xs k t
unfolding first_of_term
first_of_term-HasTerm t i k j [] p e = absurd (cc)
first_of_term-HasTerm t i zero j (x ∷ xs) p e =
    (x, refl, ground (arith, first_of_term-ge t (suc i) j xs))
first_of_term-HasTerm t i (suc k) j (x ∷ xs) p e =
    first_of_term-HasTerm t (suc i) k j xs (omega arith) (ground arith)

first_of_term-NoneBefore :
    (t : Term) (i k j : ℕ) (xs : List LogEntry)
    → i + k ≡ j
    → first_of_term t i xs ≡ some j
    → NoneBefore xs k t
unfolding first_of_term
first_of_term-NoneBefore t i k j [] p e m y h g = absurd (cc)
first_of_term-NoneBefore t i zero j (x ∷ xs) p e m y h g = absurd (omega arith)
first_of_term-NoneBefore t i (suc k) j (x ∷ xs) p e zero y h g = ground arith
first_of_term-NoneBefore t i (suc k) j (x ∷ xs) p e (suc m) y h g =
    first_of_term-NoneBefore t (suc i) k j xs (omega arith) (ground arith) m y (omega arith) g

first_of_term_found :
    (t : Term) (i k : ℕ) (xs : List LogEntry)
    → HasTerm xs k t
    → (j : ℕ) × (first_of_term t i xs ≡ some (i + j)) × (j ≤ k)
unfolding first_of_term
first_of_term_found t i k [] (y, g, h) = absurd (cc)
first_of_term_found t i zero (x ∷ xs) (y, g, h) = (0, ground arith, omega arith)
first_of_term_found t i (suc k) (x ∷ xs) (y, g, h) =
    let (j, e, l) = first_of_term_found t (suc i) k xs (y, g, h) in
    elim (Bool-cases (x.term == t)) [
      | inl hit ↦ (0, ground arith, omega arith)
      | inr miss ↦ (suc j, ground arith, omega arith)
    ]

conflict_hint :
    (log : List LogEntry) (prev : LogIndex) (e : LogEntry)
    → 0 < prev
    → ltb (length log) prev ≡ false
    → get_elem? log (prev - 1) ≡ some e
    → (j : ℕ) × (find_conflict_info log prev ≡ (j + 1, some e.term))
      × (j < prev)
      × HasTerm log j e.term
      × NoneBefore log j e.term
unfolding find_conflict_info
conflict_hint log prev e p long g =
    let (j, f, l) = first_of_term_found e.term 0 (prev - 1) log (e, g, refl) in
    (
      j,
      ground (arith, zero-add j),
      omega arith,
      first_of_term-HasTerm e.term 0 j (0 + j) log refl f,
      first_of_term-NoneBefore e.term 0 j (0 + j) log refl f,
    )

-- A refused request: either the log is shorter than the entry asked for, and the hint is its length;
-- or the entry there has another term, and the hint is that term with the index of its first entry.
pub find_conflict_info_lem :
    (log : List LogEntry) (prev : LogIndex) (t : Term)
    → check_log_consistency log prev t ≡ false
    → ((length log < prev) × (find_conflict_info log prev ≡ (length log, none)))
      ⊎ ((c : Term) × (j : ℕ) × (find_conflict_info log prev ≡ (j + 1, some c))
          × (c ≢ t)
          × (j < prev)
          × HasTerm log (prev - 1) c
          × HasTerm log j c
          × NoneBefore log j c)
unfolding check_log_consistency find_conflict_info
find_conflict_info_lem log prev t h = elim (Bool-cases (ltb (length log) prev)) [
  | inl short ↦ inl (ltb→lt _ _ short, rw short)
  | inr long ↦
      let p : 0 < prev = ground arith in
      let (e, g) = get_elem?_of_lt log (prev - 1) (omega (arith, ltb→ge _ _ long)) in
      let (j, f, l, a, b) = conflict_hint log prev e p long g in
      inr (e.term, j, f, ground arith, l, (e, g, refl), a, b)
]
