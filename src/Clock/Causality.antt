-- ===== src/Clock/Causality.antt =====
-- Maps from nodes to counters, as vector clocks and version vectors use them, and the four
-- relations between two of them.
use kaelix.Base.{
  ℕ, ◌≤◌, ◌≡◌, refl, false, ◌||◌, List, [], ◌∷◌, arith, max, unwrap_or, ◌==◌, if◌then◌else◌,
}
use kaelix.Base.Assoc.{
  Assoc, lookup, insert, keys, contains, IsMap, insert-IsMap, lookup-insert, lookup-none,
}

pub data CausalityRelation : Type 0 where
  before after equal concurrent : CausalityRelation

-- `get(&node).copied().unwrap_or(0)`.
abbrev pub get : Assoc ℕ → ℕ → ℕ
get m n = unwrap_or (lookup n m) 0

-- `entry(node).or_insert(0)`, raised to `t`.
abbrev pub raise : ℕ → ℕ → Assoc ℕ → Assoc ℕ
raise n t m = insert n (max (get m n) t) m

-- The loop of both `merge` methods, over the other map's entries.
unfoldable pub merge_entries : Assoc ℕ → Assoc ℕ → Assoc ℕ
merge_entries m [] = m
merge_entries m ((n, t) ∷ o) = merge_entries (raise n t m) o

-- `HashSet::extend`: the keys that are not in the set yet.
unfoldable pub extend : List ℕ → List ℕ → List ℕ
extend set [] = set
extend set (k ∷ ks) = extend (if contains k set then set else k ∷ set) ks

unfoldable pub all_nodes : Assoc ℕ → Assoc ℕ → List ℕ
unfolding extend
all_nodes a b = extend (extend [] (keys a)) (keys b)

get-insert : (m : Assoc ℕ) (n v k : ℕ) → get (insert n v m) k ≡ (if n == k then v else get m k)
get-insert m n v k = ground (arith, lookup-insert n k v m)

pub get-raise :
    (m : Assoc ℕ) (n t k : ℕ) → get (raise n t m) k ≡ (if n == k then max (get m k) t else get m k)
get-raise m n t k = ground (arith, lookup-insert n k (max (get m n) t) m)

pub merge_entries-IsMap : (m o : Assoc ℕ) → IsMap m → IsMap (merge_entries m o)
unfolding merge_entries
merge_entries-IsMap m [] h = h
merge_entries-IsMap m ((n, t) ∷ o) h = merge_entries-IsMap (raise n t m) o (insert-IsMap n _ m h)

-- Merging takes the maximum at each node.
pub get-merge_entries :
    (m o : Assoc ℕ) (k : ℕ) → IsMap o → get (merge_entries m o) k ≡ max (get m k) (get o k)
unfolding merge_entries lookup
get-merge_entries m [] k h = omega arith
get-merge_entries m ((n, t) ∷ o) k h =
    ground (arith, get-merge_entries (raise n t m) o k h.1, get-raise m n t k, lookup-none n o h.0)

contains-extend :
    (k : ℕ) (set ks : List ℕ) → contains k (extend set ks) ≡ (contains k set || contains k ks)
unfolding extend contains
contains-extend k set [] = ground arith
contains-extend k set (j ∷ ks) =
    ground (arith, contains-extend k (if contains j set then set else j ∷ set) ks)

-- A node outside the set counts 0 on both sides.
pub outside-all_nodes :
    (a b : Assoc ℕ) (k : ℕ) → contains k (all_nodes a b) ≡ false → (get a k ≡ 0) × (get b k ≡ 0)
unfolding all_nodes
outside-all_nodes a b k h = ground (
  arith,
  contains-extend k (extend [] (keys a)) (keys b),
  contains-extend k [] (keys a),
  lookup-none k a,
  lookup-none k b,
)

-- Pointwise order.
abbrev pub Leq : Assoc ℕ → Assoc ℕ → Type 0
Leq a b = (n : ℕ) → get a n ≤ get b n

-- What a comparison should answer.
abbrev pub Describes : CausalityRelation → Assoc ℕ → Assoc ℕ → Type 0
Describes equal a b = Leq a b × Leq b a
Describes before a b = Leq a b × (¬ Leq b a)
Describes after a b = (¬ Leq a b) × Leq b a
Describes concurrent a b = (¬ Leq a b) × (¬ Leq b a)

-- At most one relation describes two maps.
pub Describes-unique :
    (r q : CausalityRelation) (a b : Assoc ℕ) → Describes r a b → Describes q a b → r ≡ q
Describes-unique equal equal a b d e = refl
Describes-unique equal before a b d e = absurd (e.1 d.1)
Describes-unique equal after a b d e = absurd (e.0 d.0)
Describes-unique equal concurrent a b d e = absurd (e.0 d.0)
Describes-unique before equal a b d e = absurd (d.1 e.1)
Describes-unique before before a b d e = refl
Describes-unique before after a b d e = absurd (e.0 d.0)
Describes-unique before concurrent a b d e = absurd (e.0 d.0)
Describes-unique after equal a b d e = absurd (d.0 e.0)
Describes-unique after before a b d e = absurd (d.0 e.0)
Describes-unique after after a b d e = refl
Describes-unique after concurrent a b d e = absurd (e.1 d.1)
Describes-unique concurrent equal a b d e = absurd (d.0 e.0)
Describes-unique concurrent before a b d e = absurd (d.0 e.0)
Describes-unique concurrent after a b d e = absurd (d.1 e.1)
Describes-unique concurrent concurrent a b d e = refl
