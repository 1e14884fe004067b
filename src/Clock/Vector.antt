-- ===== src/Clock/Vector.antt =====
-- `VectorClock`.
pub mod Causal
use Prim.Native.Nat.{compare as compare_ℕ, Ordering}
use kaelix.Base.{ℕ, ◌+◌, u64, Bool, true, false, List, [], ◌∷◌, Option, none, some}
use kaelix.Base.Assoc.{Assoc, lookup, insert, keys}
use kaelix.Clock.Causality.{
  CausalityRelation, before, after, equal, concurrent, get, merge_entries, all_nodes,
}

pub record VectorClock : Type 0 where
  pub node_id : ℕ
  pub vector : Assoc ℕ

unfoldable pub new : ℕ → VectorClock
new node_id = record { node_id = node_id; vector = insert node_id 0 [] }

insert_zeros : List ℕ → Assoc ℕ → Assoc ℕ
insert_zeros [] m = m
insert_zeros (n ∷ ns) m = insert_zeros ns (insert n 0 m)

unfoldable pub with_nodes : ℕ → List ℕ → VectorClock
unfolding insert_zeros
with_nodes node_id nodes = record {
  node_id = node_id;
  vector = insert node_id 0 (insert_zeros nodes []);
}

unfoldable pub tick : VectorClock → VectorClock × ℕ
tick c =
    let current = u64 (get c.vector c.node_id + 1) in
    (record c { vector = insert c.node_id current c.vector }, current)

unfoldable pub merge : VectorClock → VectorClock → VectorClock
merge c other = record c { vector = merge_entries c.vector other.vector }

-- The same loop as `merge`, then a tick.
unfoldable pub update : VectorClock → VectorClock → VectorClock
unfolding tick
update c other = (tick (record c { vector = merge_entries c.vector other.vector })).0

abbrev mark : Ordering → Bool × Bool → Bool × Bool
mark Ordering.lt (less, greater) = (true, greater)
mark Ordering.gt (less, greater) = (less, true)
mark Ordering.eq (less, greater) = (less, greater)

-- The loop over the nodes, with the two flags.
unfoldable pub compare_nodes : Assoc ℕ → Assoc ℕ → List ℕ → Bool × Bool → Bool × Bool
compare_nodes a b [] f = f
compare_nodes a b (n ∷ ns) f = compare_nodes a b ns (mark (compare_ℕ (get a n) (get b n)) f)

abbrev relation : Bool × Bool → CausalityRelation
relation (true, false) = before
relation (false, true) = after
relation (false, false) = equal
relation (true, true) = concurrent

unfoldable pub compare : VectorClock → VectorClock → CausalityRelation
unfolding compare_nodes
compare c other =
    relation (compare_nodes c.vector other.vector (all_nodes c.vector other.vector) (false, false))

unfoldable pub get_timestamp : VectorClock → ℕ → ℕ
get_timestamp c n = get c.vector n

abbrev is_after : CausalityRelation → Bool
is_after after = true
is_after _ = false

abbrev is_concurrent_relation : CausalityRelation → Bool
is_concurrent_relation concurrent = true
is_concurrent_relation _ = false

unfoldable pub dominates : VectorClock → VectorClock → Bool
unfolding compare
dominates c other = is_after (compare c other)

unfoldable pub is_concurrent : VectorClock → VectorClock → Bool
unfolding compare
is_concurrent c other = is_concurrent_relation (compare c other)

unfoldable pub incremented : VectorClock → VectorClock
unfolding tick
incremented c = (tick c).0
