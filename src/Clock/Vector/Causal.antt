-- ===== src/Clock/Vector/Causal.antt =====
-- Vector clocks decide causality: `compare`, and what `update` and `merge` do to it.
use Prim.Native.Nat.{compare as compare_ℕ}
use kaelix.Base.{
  ℕ, ◌+◌, ◌≤◌, ◌<◌, ◌^◌, ◌≡◌, ◌↔◌, refl, subst, ap, inl, inr, Bool, true, false, List, [], ◌∷◌,
  arith, max, u64, ◌==◌, Bool-cases, if◌then◌else◌,
}
use kaelix.Base.Assoc.{Assoc, contains, IsMap, lookup-insert}
use kaelix.Clock.Causality.{
  CausalityRelation, before, get, merge_entries, all_nodes, Leq, Describes, get-merge_entries,
  outside-all_nodes, Describes-unique,
}
use kaelix.Clock.Vector.{VectorClock, mark, relation, compare, compare_nodes, update, merge}

-- A flag that is up stays up.
flags_kept :
    (a b : Assoc ℕ) (ns : List ℕ) (f : Bool × Bool)
    → (f.0 ≡ true → (compare_nodes a b ns f).0 ≡ true)
      × (f.1 ≡ true → (compare_nodes a b ns f).1 ≡ true)
unfolding compare_nodes
flags_kept a b [] f = (λ h. h, λ h. h)
flags_kept a b (k ∷ ns) f =
    let ih = flags_kept a b ns (mark (compare_ℕ (get a k) (get b k)) f) in
    (ground (arith, ih), ground (arith, ih))

-- A flag that is down at the end says something of each node visited.
flags_sound :
    (a b : Assoc ℕ) (ns : List ℕ) (f : Bool × Bool) (n : ℕ)
    → contains n ns ≡ true
    → ((compare_nodes a b ns f).0 ≡ false → get b n ≤ get a n)
      × ((compare_nodes a b ns f).1 ≡ false → get a n ≤ get b n)
unfolding compare_nodes contains
flags_sound a b [] f n c = cc
flags_sound a b (k ∷ ns) f n c =
    let g = mark (compare_ℕ (get a k) (get b k)) f in
    let ih = flags_sound a b ns g n in
    let kept = flags_kept a b ns g in
    let same : k ≡ n → (get a k ≡ get a n) × (get b k ≡ get b n) =
      λ e. (ap (get a) e, ap (get b) e) in
    (ground (arith, ih, kept, same), ground (arith, ih, kept, same))

-- A flag is not raised without a reason.
flags_complete :
    (a b : Assoc ℕ) (ns : List ℕ) (f : Bool × Bool)
    → (Leq b a → f.0 ≡ false → (compare_nodes a b ns f).0 ≡ false)
      × (Leq a b → f.1 ≡ false → (compare_nodes a b ns f).1 ≡ false)
unfolding compare_nodes
flags_complete a b [] f = (λ h e. e, λ h e. e)
flags_complete a b (k ∷ ns) f =
    let ih = flags_complete a b ns (mark (compare_ℕ (get a k) (get b k)) f) in
    ((λ h e. ground (arith, ih.0 h, h k)), (λ h e. ground (arith, ih.1 h, h k)))

module _ (a b : Assoc ℕ) where
  flags : Bool × Bool
  flags = compare_nodes a b (all_nodes a b) (false, false)

  less_iff : (flags.0 ≡ false) ↔ Leq b a
  unfolding flags
  less_iff = (
    (λ h n. elim (Bool-cases (contains n (all_nodes a b))) [
      | inl inside ↦ (flags_sound a b (all_nodes a b) (false, false) n inside).0 h
      | inr outside ↦ omega (arith, outside-all_nodes a b n outside)
    ]),
    (λ h. (flags_complete a b (all_nodes a b) (false, false)).0 h refl),
  )

  greater_iff : (flags.1 ≡ false) ↔ Leq a b
  unfolding flags
  greater_iff = (
    (λ h n. elim (Bool-cases (contains n (all_nodes a b))) [
      | inl inside ↦ (flags_sound a b (all_nodes a b) (false, false) n inside).1 h
      | inr outside ↦ omega (arith, outside-all_nodes a b n outside)
    ]),
    (λ h. (flags_complete a b (all_nodes a b) (false, false)).1 h refl),
  )

  relation-Describes :
      (f : Bool × Bool)
      → ((f.0 ≡ false) ↔ Leq b a)
      → ((f.1 ≡ false) ↔ Leq a b)
      → Describes (relation f) a b
  relation-Describes (true, true) l g = (λ h. cc (g.1 h), λ h. cc (l.1 h))
  relation-Describes (true, false) l g = (g.0 refl, λ h. cc (l.1 h))
  relation-Describes (false, true) l g = (λ h. cc (g.1 h), l.0 refl)
  relation-Describes (false, false) l g = (g.0 refl, l.0 refl)

pub compare-Describes :
    (c d : VectorClock) (r : CausalityRelation) → (compare c d ≡ r) ↔ Describes r c.vector d.vector
unfolding compare flags
compare-Describes c d r =
    let here =
      relation-Describes c.vector d.vector _ (less_iff c.vector d.vector)
        (greater_iff c.vector d.vector) in
    (
      (λ e. subst (λ q. Describes q c.vector d.vector) e here),
      (λ h. Describes-unique (compare c d) r c.vector d.vector here h),
    )

update-get :
    (c d : VectorClock) (n : ℕ)
    → IsMap d.vector
    → get (update c d).vector n ≡ (
        if c.node_id == n
        then u64 (max (get c.vector n) (get d.vector n) + 1)
        else max (get c.vector n) (get d.vector n))
unfolding update
update-get c d n h =
    let m = merge_entries c.vector d.vector in
    let v = u64 (get m c.node_id + 1) in
    let same : c.node_id ≡ n → get m c.node_id ≡ get m n = λ e. ap (get m) e in
    ground (arith, lookup-insert c.node_id n v m, get-merge_entries c.vector d.vector n h, same)

update-ge :
    (c d : VectorClock) (n : ℕ)
    → IsMap d.vector
    → get c.vector c.node_id + 1 < 2 ^ 64
    → get d.vector c.node_id + 1 < 2 ^ 64
    → (get c.vector n ≤ get (update c d).vector n) × (get d.vector n ≤ get (update c d).vector n)
update-ge c d n h k l =
    let same : c.node_id ≡ n
        → (get c.vector c.node_id ≡ get c.vector n) × (get d.vector c.node_id ≡ get d.vector n) =
      λ e. (ap (get c.vector) e, ap (get d.vector) e) in
    ground (arith, update-get c d n h, same)

-- Behind a received clock: the updated clock is after the old one and after the received one, if the
-- node's own counter is below the largest.
update_after :
    (c d : VectorClock)
    → IsMap d.vector
    → get c.vector c.node_id + 1 < 2 ^ 64
    → get d.vector c.node_id + 1 < 2 ^ 64
    → (compare c (update c d) ≡ before) × (compare d (update c d) ≡ before)
update_after c d h k l = (
  (compare-Describes c (update c d) before).1 (
    (λ n. (update-ge c d n h k l).0),
    (λ back. ground (arith, update-get c d c.node_id h, back c.node_id)),
  ),
  (compare-Describes d (update c d) before).1 (
    (λ n. (update-ge c d n h k l).1),
    (λ back. ground (arith, update-get c d c.node_id h, back c.node_id)),
  ),
)

-- `merge` is the least upper bound: at or above both clocks, and below whatever is.
merge_least :
    (c d : VectorClock) (m : Assoc ℕ)
    → IsMap d.vector
    → Leq c.vector (merge c d).vector
      × Leq d.vector (merge c d).vector
      × (Leq c.vector m → Leq d.vector m → Leq (merge c d).vector m)
unfolding merge
merge_least c d m h = (
  (λ n. omega (arith, get-merge_entries c.vector d.vector n h)),
  (λ n. omega (arith, get-merge_entries c.vector d.vector n h)),
  (λ a b n. omega (arith, get-merge_entries c.vector d.vector n h, a n, b n)),
)
