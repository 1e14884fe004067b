-- ===== src/Membership/Swim/Consistency.antt =====
-- Each operation keeps the table of suspects consistent: kaelix-cluster/src/membership/mod.rs.
use kaelix.Base.{
  ℕ, ◌+◌, ◌≤◌, ◌<◌, ◌^◌, leb, ◌==◌, if◌then◌else◌, ◌≡◌, inl, inr, ap, ◌∙◌, arith, u64, Bool, true,
  false, List, [], ◌∷◌, Option, none, some, Option-cases, Bool-cases, subst,
}
use kaelix.Base.Assoc.{Assoc, lookup, insert, contains, IsMap, lookup-insert, insert-IsMap}
use kaelix.Base.Sets.{add, discard, contains-add, contains-discard, lookup-remove, remove-IsMap}
use kaelix.Raft.Types.{NodeId}
use kaelix.Membership.Types.{
  NodeStatus, alive, suspect, failed, left, is_alive, NodeInfo, update_status, IndirectPingRequest,
}
use kaelix.Membership.Swim.{
  SwimMembership, mark_suspect, suspect_found, mark_failed, fail_all, update_node_info, revive,
  count_response, process_membership_updates, handle_indirect_ack, add_member, remove_member,
}

abbrev pub NotAlive : Option NodeInfo → Type 0
unfolding is_alive
NotAlive none = ⊥
NotAlive (some n) = is_alive n.status ≡ false

-- A member that is suspected is known and does not pass for alive.
pub record IsConsistent (s : SwimMembership) : Type 0 where
  pub is_map : IsMap s.members
  pub suspects_known : (j : NodeId) → contains j s.suspects ≡ true → NotAlive (lookup j s.members)

-- The incarnation of a member that stays does not fall.
abbrev pub NotOlder : Option NodeInfo → Option NodeInfo → Type 0
NotOlder none after = Unit {0}
NotOlder (some a) none = Unit {0}
NotOlder (some a) (some b) = a.incarnation ≤ b.incarnation

if-IsConsistent :
    (c : Bool) {s t : SwimMembership}
    → IsConsistent s
    → IsConsistent t
    → IsConsistent (if c then s else t)
if-IsConsistent true h k = h
if-IsConsistent false h k = k

insert-NotAlive :
    (k : NodeId) (n : NodeInfo) (members : Assoc NodeInfo) (before after : List NodeId)
    → ((j : NodeId) → contains j before ≡ true → NotAlive (lookup j members))
    → ((j : NodeId) → contains j after ≡ true → (k == j) ≡ false → contains j before ≡ true)
    → (contains k after ≡ true → is_alive n.status ≡ false)
    → (j : NodeId) → contains j after ≡ true
    → NotAlive (lookup j (insert k n members))
unfolding NotAlive
insert-NotAlive k n members before after known others own j listed = elim (Bool-cases (k == j)) [
  | inl same ↦
      let e : k ≡ j = ground arith in
      rw (lookup-insert k j n members, same) (own (ap (λ i. contains i after) e ∙ listed))
  | inr other ↦ rw (lookup-insert k j n members, other) (known j (others j listed other))
]

pub mark_failed-IsConsistent :
    (now : ℕ) (k : NodeId) (s : SwimMembership)
    → IsConsistent s
    → IsConsistent (mark_failed now k s)
unfolding mark_failed
mark_failed-IsConsistent now k s h = elim (Option-cases (lookup k s.members)) [
  | inl missing ↦ rw missing h
  | inr (node, found) ↦ rw found (record {
    is_map = insert-IsMap k _ s.members h.is_map;
    suspects_known =
        insert-NotAlive k (update_status now failed (u64 (node.incarnation + 1)) node) s.members
          s.suspects (discard k s.suspects) h.suspects_known
          (λ j listed other. ground (arith, contains-discard k j s.suspects))
          (λ listed. absurd (ground (arith, contains-discard k k s.suspects)));
  })
]

raised :
    (now : ℕ) (node : NodeInfo)
    → node.incarnation + 1 < 2 ^ 64
    → is_alive (update_status now suspect (u64 (node.incarnation + 1)) node).status ≡ false
unfolding update_status is_alive
raised now node room = ground arith

suspect_found-IsConsistent :
    (now : ℕ) (k : NodeId) (s : SwimMembership) (node : NodeInfo)
    → node.incarnation + 1 < 2 ^ 64
    → IsConsistent s
    → IsConsistent (suspect_found now k s (some node))
suspect_found-IsConsistent now k s node room h = elim (Bool-cases (is_alive node.status)) [
  | inl live ↦ rw live (record {
    is_map = insert-IsMap k _ s.members h.is_map;
    suspects_known =
        insert-NotAlive k (update_status now suspect (u64 (node.incarnation + 1)) node) s.members
          s.suspects (add k s.suspects) h.suspects_known
          (λ j listed other. ground (arith, contains-add k j s.suspects))
          (λ listed. raised now node room);
  })
  | inr dead ↦ rw dead h
]

updated_status :
    (now : ℕ) (status : NodeStatus) (i : ℕ) (node : NodeInfo) (suspects : List NodeId) (k : NodeId)
    → leb node.incarnation i ≡ true
    → contains k (if is_alive status then discard k suspects else suspects) ≡ true
    → is_alive (update_status now status i node).status ≡ false
unfolding is_alive update_status
updated_status now alive i node suspects k newer listed =
    absurd (ground (arith, contains-discard k k suspects))
updated_status now suspect i node suspects k newer listed = ground arith
updated_status now failed i node suspects k newer listed = ground arith
updated_status now left i node suspects k newer listed = ground arith

pub mark_suspect-IsConsistent :
    (now : ℕ) (k : NodeId) (s : SwimMembership)
    → ((n : NodeInfo) → lookup k s.members ≡ some n → n.incarnation + 1 < 2 ^ 64)
    → IsConsistent s
    → IsConsistent (mark_suspect now k s)
unfolding mark_suspect
mark_suspect-IsConsistent now k s room h = elim (Option-cases (lookup k s.members)) [
  | inl missing ↦ rw missing h
  | inr (node, found) ↦ rw found (suspect_found-IsConsistent now k s node (room node found) h)
]

pub update_node_info-IsConsistent :
    (now : ℕ) (k : NodeId) (status : NodeStatus) (i : ℕ) (s : SwimMembership)
    → IsConsistent s
    → IsConsistent (update_node_info now k status i s)
unfolding update_node_info
update_node_info-IsConsistent now k status i s h = elim (Option-cases (lookup k s.members)) [
  | inl missing ↦ rw missing h
  | inr (node, found) ↦ elim (Bool-cases (leb node.incarnation i)) [
    | inl newer ↦
        rw (found, newer)
          (record {
            is_map = insert-IsMap k _ s.members h.is_map;
            suspects_known =
                insert-NotAlive k (update_status now status i node) s.members s.suspects _
                  h.suspects_known
                  (λ j listed other. ground (arith, contains-discard k j s.suspects))
                  (λ listed. updated_status now status i node s.suspects k newer listed);
          })
    | inr older ↦ rw (found, older) h
  ]
]

pub updates-IsConsistent :
    (now : ℕ) (us : List NodeInfo) (s : SwimMembership)
    → IsConsistent s
    → IsConsistent (process_membership_updates now us s)
unfolding process_membership_updates
updates-IsConsistent now [] s h = h
updates-IsConsistent now (u ∷ us) s h = elim (Bool-cases (u.id == s.local_node.id)) [
  | inl own ↦ rw own (updates-IsConsistent now us s h)
  | inr other ↦ rw other (
      updates-IsConsistent now us _
        (update_node_info-IsConsistent now u.id u.status u.incarnation s h))
]

pub fail_all-IsConsistent :
    (now : ℕ) (ids : List NodeId) (s : SwimMembership)
    → IsConsistent s
    → IsConsistent (fail_all now ids s)
unfolding fail_all
fail_all-IsConsistent now [] s h = h
fail_all-IsConsistent now (k ∷ ids) s h =
    fail_all-IsConsistent now ids (mark_failed now k s) (mark_failed-IsConsistent now k s h)

pub remove-IsConsistent :
    (k : NodeId) (s : SwimMembership) → IsConsistent s → IsConsistent (remove_member k s).0
unfolding remove_member
remove-IsConsistent k s h = elim (Option-cases (lookup k s.members)) [
  | inl missing ↦ rw missing h
  | inr (node, found) ↦ rw found (record {
    is_map = remove-IsMap k s.members h.is_map;
    suspects_known = λ j listed.
        let was : contains j s.suspects ≡ true = ground (arith, contains-discard k j s.suspects) in
        let other : (k == j) ≡ false = ground (arith, contains-discard k j s.suspects) in
        rw (lookup-remove k j s.members h.is_map, other) (h.suspects_known j was);
  })
]

counted-IsConsistent :
    (r : ℕ) (q : IndirectPingRequest) (s : SwimMembership)
    → IsConsistent s
    → IsConsistent (count_response r q s)
unfolding count_response
counted-IsConsistent r q s h = record { is_map = h.is_map; suspects_known = h.suspects_known }

revive-IsConsistent :
    (now : ℕ) (k : NodeId) (s : SwimMembership) → IsConsistent s → IsConsistent (revive now k s)
unfolding revive
revive-IsConsistent now k s h =
    let updated = update_node_info now k alive 0 s in
    let kept = update_node_info-IsConsistent now k alive 0 s h in
    record {
      is_map = kept.is_map;
      suspects_known =
          λ j listed. kept.suspects_known j (ground (arith, contains-discard k j updated.suspects));
    }

pub answer-IsConsistent :
    (now : ℕ) (k : NodeId) (r : ℕ) (good : Bool) (s : SwimMembership)
    → IsConsistent s
    → IsConsistent (handle_indirect_ack now k r good s)
unfolding handle_indirect_ack
answer-IsConsistent now k r good s h = elim (Option-cases (lookup r s.pending_indirect_pings)) [
  | inl missing ↦ rw missing h
  | inr (q, found) ↦ rw found (
      if-IsConsistent good
        (revive-IsConsistent now k (count_response r q s) (counted-IsConsistent r q s h))
        (counted-IsConsistent r q s h))
]

pub add-IsConsistent :
    (n : NodeInfo) (s : SwimMembership)
    → lookup n.id s.members ≡ none
    → IsConsistent s
    → IsConsistent (add_member n s)
unfolding add_member NotAlive
add-IsConsistent n s fresh h = record {
  is_map = insert-IsMap n.id n s.members h.is_map;
  suspects_known =
      insert-NotAlive n.id n s.members s.suspects s.suspects h.suspects_known
        (λ j listed other. listed)
        (λ listed. absurd (subst NotAlive fresh (h.suspects_known n.id listed)));
}
