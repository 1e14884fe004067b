-- ===== src/Clock/Version/Agreement.antt =====
-- A version vector decides the same causality as a vector clock, and what its operations do.
use kaelix.Base.{
  ℕ, ◌+◌, ◌≤◌, ◌<◌, ◌^◌, ◌≡◌, ◌↔◌, refl, ap, subst, sym, Bool, true, false, ◌&&◌, ◌≢◌, List, [],
  ◌∷◌, arith, max, u64, ◌==◌, not,
}
use kaelix.Base.Assoc.{
  Assoc, contains, keys, IsMap, insert-IsMap, lookup, lookup-insert, lookup-none,
}
use kaelix.Clock.Causality.{
  after, equal, get, all_nodes, Leq, Describes, get-merge_entries, outside-all_nodes,
  Describes-unique,
}
use kaelix.Clock.Vector
use kaelix.Clock.Vector.{VectorClock}
use kaelix.Clock.Vector.Causal.{compare-Describes}
use kaelix.Clock.Version.{
  VersionVector, descends, is_descendant_of, compare, relation, merge, diff, diff_nodes, increment,
}

-- The loop over entries decides the order at every node.
descends_sound : (m o : Assoc ℕ) (n : ℕ) → descends m o ≡ true → get o n ≤ get m n
unfolding descends lookup
descends_sound m [] n h = omega arith
descends_sound m ((k, t) ∷ o) n h =
    let same : k ≡ n → get m k ≡ get m n = ap (get m) in ground (arith, descends_sound m o n, same)

descends_complete : (m o : Assoc ℕ) → IsMap o → Leq o m → descends m o ≡ true
unfolding descends lookup
descends_complete m [] i h = refl
descends_complete m ((k, t) ∷ o) i h = ground (arith, descends_complete m o i.1 (λ n. rest n), h k)
  where
    rest : (n : ℕ) → get o n ≤ get m n
    rest n =
        let same : k ≡ n → contains k (keys o) ≡ contains n (keys o) =
          ap (λ j. contains j (keys o)) in
        ground (arith, h n, lookup-none n o, i.0, same)

descends_iff : (m o : Assoc ℕ) → IsMap o → (descends m o ≡ true) ↔ Leq o m
descends_iff m o i = ((λ h n. descends_sound m o n h), descends_complete m o i)

relation-Describes :
    (a b : Assoc ℕ) (x y : Bool)
    → ((x ≡ true) ↔ Leq b a)
    → ((y ≡ true) ↔ Leq a b)
    → Describes (relation x y) a b
relation-Describes a b true true p q = (q.0 refl, p.0 refl)
relation-Describes a b true false p q = ((λ h. cc (q.1 h)), p.0 refl)
relation-Describes a b false true p q = (q.0 refl, λ h. cc (p.1 h))
relation-Describes a b false false p q = ((λ h. cc (q.1 h)), λ h. cc (p.1 h))

version-Describes :
    (v w : VersionVector)
    → IsMap v.versions
    → IsMap w.versions
    → Describes (compare v w) v.versions w.versions
unfolding compare
version-Describes v w p q =
    relation-Describes v.versions w.versions _ _ (descends_iff v.versions w.versions q)
      (descends_iff w.versions v.versions p)

-- Two version vectors compare as two vector clocks with the same maps do: the two loops agree.
pub compare-agrees :
    (v w : VersionVector) (i j : ℕ)
    → IsMap v.versions
    → IsMap w.versions
    → compare v w
      ≡ Vector.compare
          (record { node_id = i; vector = v.versions })
          (record { node_id = j; vector = w.versions })
compare-agrees v w i j p q = sym (
    (compare-Describes (record { node_id = i; vector = v.versions })
        (record { node_id = j; vector = w.versions }) _).1
      (version-Describes v w p q))

contains-diff_nodes :
    (a b : Assoc ℕ) (ns : List ℕ) (n : ℕ)
    → contains n (diff_nodes a b ns) ≡ (contains n ns && not (get a n == get b n))
unfolding diff_nodes contains
contains-diff_nodes a b [] n = refl
contains-diff_nodes a b (k ∷ ns) n =
    let same : k ≡ n → (get a k ≡ get a n) × (get b k ≡ get b n) =
      λ e. (ap (get a) e, ap (get b) e) in
    ground (arith, contains-diff_nodes a b ns n, same)

-- `diff` lists exactly the nodes whose versions differ, and it lists none exactly when the two
-- vectors compare equal.
diff_iff :
    (v w : VersionVector)
    → IsMap v.versions
    → IsMap w.versions
    → ((n : ℕ) → (contains n (diff v w) ≡ true) ↔ (get v.versions n ≢ get w.versions n))
      × ((compare v w ≡ equal) ↔ ((n : ℕ) → contains n (diff v w) ≡ false))
unfolding diff
diff_iff v w p q = (at, both)
  where
    at : (n : ℕ) → (contains n (diff v w) ≡ true) ↔ (get v.versions n ≢ get w.versions n)
    at n = ground (
      arith,
      contains-diff_nodes v.versions w.versions (all_nodes v.versions w.versions) n,
      outside-all_nodes v.versions w.versions n,
    )

    same : (n : ℕ) → contains n (diff v w) ≡ false → get v.versions n ≡ get w.versions n
    same n h = ground (
      arith,
      h,
      contains-diff_nodes v.versions w.versions (all_nodes v.versions w.versions) n,
      outside-all_nodes v.versions w.versions n,
    )

    both : (compare v w ≡ equal) ↔ ((n : ℕ) → contains n (diff v w) ≡ false)
    both = (
      (λ e n.
          let d = subst (λ r. Describes r v.versions w.versions) e (version-Describes v w p q) in
          ground (arith, d.0 n, d.1 n, at n)),
      (λ h.
          Describes-unique (compare v w) equal v.versions w.versions (version-Describes v w p q)
            ((λ n. omega (arith, same n (h n))), (λ n. omega (arith, same n (h n))))),
    )

-- `merge` takes the larger version at each node, so the result descends from both; `increment` makes
-- a vector that comes after, if that version is below the largest.
merge_and_increment :
    (v w : VersionVector) (k : ℕ)
    → IsMap v.versions
    → IsMap w.versions
    → get v.versions k + 1 < 2 ^ 64
    → ((n : ℕ) → get (merge v w).versions n ≡ max (get v.versions n) (get w.versions n))
      × (is_descendant_of (merge v w) v ≡ true)
      × (is_descendant_of (merge v w) w ≡ true)
      × (compare (increment k v).0 v ≡ after)
unfolding merge increment is_descendant_of
merge_and_increment v w k p q h =
    let at = λ (n : ℕ). get-merge_entries v.versions w.versions n q in
    (
      at,
      descends_complete _ v.versions p (λ n. omega (arith, at n)),
      descends_complete _ w.versions q (λ n. omega (arith, at n)),
      Describes-unique _ after (increment k v).0.versions v.versions
          (version-Describes (increment k v).0 v (insert-IsMap k _ v.versions p) p)
          (
            (λ above.
                ground (arith, above k, lookup-insert k k (u64 (get v.versions k + 1)) v.versions)),
            λ n. up n,
          ),
    )
  where
    up : (n : ℕ) → get v.versions n ≤ get (increment k v).0.versions n
    up n =
        let same : k ≡ n → get v.versions k ≡ get v.versions n = ap (get v.versions) in
        ground (arith, lookup-insert k n (u64 (get v.versions k + 1)) v.versions, same)
