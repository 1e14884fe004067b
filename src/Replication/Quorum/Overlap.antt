-- ===== src/Replication/Quorum/Overlap.antt =====
-- Two sets of replicas that together count more than all replicas have one in common.
use kaelix.Base.{
  ℕ, ◌+◌, ◌≤◌, ◌<◌, ◌==◌, ◌&&◌, if◌then◌else◌, ◌≡◌, inl, inr, ap, arith, true, false, List, [], ◌∷◌,
  length, Bool-cases,
}
use kaelix.Base.Assoc.{contains}
use kaelix.Raft.Types.{NodeId}

-- Each replica stands once.
abbrev pub AllDistinct : List NodeId → Type 0
AllDistinct [] = Unit {0}
AllDistinct (k ∷ ks) = (contains k ks ≡ false) × AllDistinct ks

abbrev pub IsWithin : List NodeId → List NodeId → Type 0
IsWithin ks us = (k : NodeId) → contains k ks ≡ true → contains k us ≡ true

-- How many of the replicas are among `ks`, and how many among both.
count : List NodeId → List NodeId → ℕ
count ks [] = 0
count ks (u ∷ us) = (if contains u ks then 1 else 0) + count ks us

count_both : List NodeId → List NodeId → List NodeId → ℕ
count_both ks js [] = 0
count_both ks js (u ∷ us) = (if contains u ks && contains u js then 1 else 0) + count_both ks js us

count_sum : (ks js us : List NodeId) → count ks us + count js us ≤ length us + count_both ks js us
unfolding count count_both
count_sum ks js [] = omega arith
count_sum ks js (u ∷ us) = ground (arith, count_sum ks js us)

count_both-common :
    (ks js us : List NodeId)
    → 0 < count_both ks js us
    → (k : NodeId) × (contains k ks ≡ true) × (contains k js ≡ true)
unfolding count_both
count_both-common ks js [] h = absurd (omega arith)
count_both-common ks js (u ∷ us) h = elim (Bool-cases (contains u ks && contains u js)) [
  | inl both ↦ (u, ground arith, ground arith)
  | inr single ↦ count_both-common ks js us (ground arith)
]

count_more : (k : NodeId) (ks us : List NodeId) → count ks us ≤ count (k ∷ ks) us
unfolding count contains
count_more k ks [] = omega arith
count_more k ks (u ∷ us) = ground (arith, count_more k ks us)

same_contains : (k u : NodeId) (ks : List NodeId) → k ≡ u → contains k ks ≡ contains u ks
same_contains k u ks e = ap (λ i. contains i ks) e

count_one_more :
    (k : NodeId) (ks us : List NodeId)
    → contains k ks ≡ false
    → contains k us ≡ true
    → 1 + count ks us ≤ count (k ∷ ks) us
unfolding count contains
count_one_more k ks [] fresh h = absurd (ground arith)
count_one_more k ks (u ∷ us) fresh h = elim (Bool-cases (u == k)) [
  | inl same ↦ ground (arith, same_contains u k ks, count_more k ks us)
  | inr other ↦ ground (arith, count_one_more k ks us fresh)
]

length-count : (ks us : List NodeId) → AllDistinct ks → IsWithin ks us → length ks ≤ count ks us
unfolding contains
length-count [] us distinct within = omega arith
length-count (k ∷ ks) us distinct within =
    let rest = length-count ks us distinct.1 (λ j h. within j (ground arith)) in
    let more = count_one_more k ks us distinct.0 (within k (ground arith)) in
    omega (arith, rest, more)

pub overlap :
    (ks js us : List NodeId)
    → AllDistinct ks
    → AllDistinct js
    → IsWithin ks us
    → IsWithin js us
    → length us < length ks + length js
    → (k : NodeId) × (contains k ks ≡ true) × (contains k js ≡ true)
overlap ks js us dk dj wk wj many =
    let one = length-count ks us dk wk in
    let two = length-count js us dj wj in
    count_both-common ks js us (omega (arith, one, two, count_sum ks js us))
