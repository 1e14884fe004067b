-- ===== src/Membership/Swim/Incarnations.antt =====
-- Incarnation numbers along the steps: kaelix-cluster/src/membership/mod.rs.
use kaelix.Base.{
  ℕ, ◌+◌, ◌≤◌, leb, ◌==◌, if◌then◌else◌, ◌≡◌, inl, inr, sym, ap, ◌∙◌, arith, u64, Bool, true, false,
  List, [], ◌∷◌, Option, none, some, Option-cases, Bool-cases, subst,
}
use kaelix.Base.Assoc.{Assoc, lookup, insert, lookup-insert}
use kaelix.Base.Sets.{lookup-remove}
use kaelix.Raft.Types.{NodeId}
use kaelix.Membership.Types.{NodeStatus, alive, suspect, failed, is_alive, NodeInfo, update_status}
use kaelix.Membership.Swim.{
  SwimMembership, mark_suspect, mark_failed, fail_all, process_suspicion_timeouts, expired_suspects,
  suspicion_timeout, update_node_info, revive, count_response, process_membership_updates,
  handle_ack, handle_gossip, handle_indirect_ack, add_member, remove_member,
  cleanup_expired_indirect_pings,
}
use kaelix.Membership.Swim.Steps.{
  Step, acked, gossiped, answered, suspected, declared_failed, timed_out, joined, removed, cleaned,
}
use kaelix.Membership.Swim.Consistency.{NotOlder, IsConsistent}

-- The same members before and after, none with a lower incarnation.
abbrev Grows : Option NodeInfo → Option NodeInfo → Type 0
Grows none none = Unit {0}
Grows none (some b) = ⊥
Grows (some a) none = ⊥
Grows (some a) (some b) = a.incarnation ≤ b.incarnation

Grows-refl : (o : Option NodeInfo) → Grows o o
Grows-refl none = tt
Grows-refl (some a) = omega arith

Grows-trans : (x y z : Option NodeInfo) → Grows x y → Grows y z → Grows x z
Grows-trans none none none g h = tt
Grows-trans none none (some c) g h = h
Grows-trans none (some b) z g h = absurd g
Grows-trans (some a) none z g h = absurd g
Grows-trans (some a) (some b) none g h = h
Grows-trans (some a) (some b) (some c) g h = omega arith

Grows-NotOlder : (x y : Option NodeInfo) → Grows x y → NotOlder x y
Grows-NotOlder none none g = tt
Grows-NotOlder none (some b) g = tt
Grows-NotOlder (some a) none g = tt
Grows-NotOlder (some a) (some b) g = g

insert-Grows :
    (k : NodeId) (old n : NodeInfo) (members : Assoc NodeInfo)
    → lookup k members ≡ some old
    → old.incarnation ≤ n.incarnation
    → (j : NodeId) → Grows (lookup j members) (lookup j (insert k n members))
insert-Grows k old n members found grown j = elim (Bool-cases (k == j)) [
  | inl same ↦
      let e : k ≡ j = ground arith in
      rw (lookup-insert k j n members, same)
        (subst (λ o. Grows o (some n)) (sym found ∙ ap (λ i. lookup i members) e) grown)
  | inr other ↦ rw (lookup-insert k j n members, other) (Grows-refl (lookup j members))
]

update_status_grows :
    (now : ℕ) (status : NodeStatus) (i : ℕ) (n : NodeInfo)
    → n.incarnation ≤ (update_status now status i n).incarnation
unfolding update_status
update_status_grows now status i n = ground arith

mark_failed-Grows :
    (now : ℕ) (k : NodeId) (s : SwimMembership) (j : NodeId)
    → Grows (lookup j s.members) (lookup j (mark_failed now k s).members)
unfolding mark_failed
mark_failed-Grows now k s j = elim (Option-cases (lookup k s.members)) [
  | inl missing ↦ rw missing (Grows-refl (lookup j s.members))
  | inr (n, found) ↦ rw found (
      insert-Grows k n _ s.members found
        (update_status_grows now failed (u64 (n.incarnation + 1)) n) j)
]

mark_suspect-Grows :
    (now : ℕ) (k : NodeId) (s : SwimMembership) (j : NodeId)
    → Grows (lookup j s.members) (lookup j (mark_suspect now k s).members)
unfolding mark_suspect
mark_suspect-Grows now k s j = elim (Option-cases (lookup k s.members)) [
  | inl missing ↦ rw missing (Grows-refl (lookup j s.members))
  | inr (n, found) ↦ elim (Bool-cases (is_alive n.status)) [
    | inl live ↦
        rw (found, live)
          (insert-Grows k n _ s.members found
            (update_status_grows now suspect (u64 (n.incarnation + 1)) n) j)
    | inr dead ↦ rw (found, dead) (Grows-refl (lookup j s.members))
  ]
]

update_node_info-Grows :
    (now : ℕ) (k : NodeId) (status : NodeStatus) (i : ℕ) (s : SwimMembership) (j : NodeId)
    → Grows (lookup j s.members) (lookup j (update_node_info now k status i s).members)
unfolding update_node_info
update_node_info-Grows now k status i s j = elim (Option-cases (lookup k s.members)) [
  | inl missing ↦ rw missing (Grows-refl (lookup j s.members))
  | inr (n, found) ↦ elim (Bool-cases (leb n.incarnation i)) [
    | inl newer ↦
        rw (found, newer)
          (insert-Grows k n _ s.members found (update_status_grows now status i n) j)
    | inr older ↦ rw (found, older) (Grows-refl (lookup j s.members))
  ]
]

if-Grows :
    (c : Bool) (before : Option NodeInfo) (s t : SwimMembership) (j : NodeId)
    → Grows before (lookup j s.members)
    → Grows before (lookup j t.members)
    → Grows before (lookup j (if c then s else t).members)
if-Grows true before s t j g h = g
if-Grows false before s t j g h = h

updates-Grows :
    (now : ℕ) (us : List NodeInfo) (s : SwimMembership) (j : NodeId)
    → Grows (lookup j s.members) (lookup j (process_membership_updates now us s).members)
unfolding process_membership_updates
updates-Grows now [] s j = Grows-refl (lookup j s.members)
updates-Grows now (u ∷ us) s j =
    let updated = update_node_info now u.id u.status u.incarnation s in
    let first = if u.id == s.local_node.id then s else updated in
    Grows-trans (lookup j s.members) (lookup j first.members) _
      (if-Grows (u.id == s.local_node.id) (lookup j s.members) s updated j
        (Grows-refl (lookup j s.members))
        (update_node_info-Grows now u.id u.status u.incarnation s j))
      (updates-Grows now us first j)

fail_all-Grows :
    (now : ℕ) (ids : List NodeId) (s : SwimMembership) (j : NodeId)
    → Grows (lookup j s.members) (lookup j (fail_all now ids s).members)
unfolding fail_all
fail_all-Grows now [] s j = Grows-refl (lookup j s.members)
fail_all-Grows now (k ∷ ids) s j =
    Grows-trans (lookup j s.members) _ _ (mark_failed-Grows now k s j)
      (fail_all-Grows now ids (mark_failed now k s) j)

answer-Grows :
    (now : ℕ) (k : NodeId) (r : ℕ) (good : Bool) (s : SwimMembership) (j : NodeId)
    → Grows (lookup j s.members) (lookup j (handle_indirect_ack now k r good s).members)
unfolding handle_indirect_ack revive count_response
answer-Grows now k r good s j = elim (Option-cases (lookup r s.pending_indirect_pings)) [
  | inl missing ↦ rw missing (Grows-refl (lookup j s.members))
  | inr (q, found) ↦ elim (Bool-cases good) [
    | inl success ↦
        rw (found, success) (update_node_info-Grows now k alive 0 (count_response r q s) j)
    | inr failure ↦ rw (found, failure) (Grows-refl (lookup j s.members))
  ]
]

removed-NotOlder : (c : Bool) (o : Option NodeInfo) → NotOlder o (if c then none else o)
removed-NotOlder true none = tt
removed-NotOlder true (some a) = tt
removed-NotOlder false o = Grows-NotOlder o o (Grows-refl o)

-- No step lowers the incarnation of a member that stays a member.
Step-NotOlder :
    {s t : SwimMembership}
    → Step s t
    → IsConsistent s
    → (j : NodeId) → NotOlder (lookup j s.members) (lookup j t.members)
unfolding handle_ack handle_gossip process_suspicion_timeouts cleanup_expired_indirect_pings
    add_member remove_member
Step-NotOlder {s} (acked now k i us) h j = Grows-NotOlder (lookup j s.members) _ (
    Grows-trans (lookup j s.members) _ _ (update_node_info-Grows now k alive i s j)
      (updates-Grows now us (update_node_info now k alive i s) j))
Step-NotOlder {s} (gossiped now us) h j =
    Grows-NotOlder (lookup j s.members) _ (updates-Grows now us s j)
Step-NotOlder {s} (answered now k r good) h j =
    Grows-NotOlder (lookup j s.members) _ (answer-Grows now k r good s j)
Step-NotOlder {s} (suspected now k room) h j =
    Grows-NotOlder (lookup j s.members) _ (mark_suspect-Grows now k s j)
Step-NotOlder {s} (declared_failed now k) h j =
    Grows-NotOlder (lookup j s.members) _ (mark_failed-Grows now k s j)
Step-NotOlder {s} (timed_out now) h j =
    Grows-NotOlder (lookup j s.members) _
      (fail_all-Grows now (expired_suspects now (suspicion_timeout s) s.members s.suspects) s j)
Step-NotOlder {s} (joined n fresh) h j = elim (Bool-cases (n.id == j)) [
  | inl same ↦
      let e : n.id ≡ j = ground arith in
      subst (λ o. NotOlder o (lookup j (insert n.id n s.members)))
        (sym fresh ∙ ap (λ i. lookup i s.members) e) tt
  | inr other ↦
      rw (lookup-insert n.id j n s.members, other)
        (Grows-NotOlder (lookup j s.members) _ (Grows-refl (lookup j s.members)))
]
Step-NotOlder {s} (removed k) h j = elim (Option-cases (lookup k s.members)) [
  | inl missing ↦
      rw missing (Grows-NotOlder (lookup j s.members) _ (Grows-refl (lookup j s.members)))
  | inr (n, found) ↦
      rw (found, lookup-remove k j s.members h.is_map)
        (removed-NotOlder (k == j) (lookup j s.members))
]
Step-NotOlder {s} (cleaned now) h j =
    Grows-NotOlder (lookup j s.members) _ (Grows-refl (lookup j s.members))
