-- ===== src/Membership/Swim/Timeouts.antt =====
-- What the suspicion timeouts do: kaelix-cluster/src/membership/mod.rs.
use kaelix.Base.{
  ℕ, ◌+◌, ◌≤◌, ◌<◌, ◌^◌, ltb, ◌==◌, ◌≡◌, inl, inr, sym, ap, subst, lt→ltb, ◌-◌, ◌∙◌, arith, u64,
  Bool, true, false, List, [], ◌∷◌, Option, some, Bool-cases, ◌&&◌,
}
use kaelix.Base.Assoc.{Assoc, lookup, contains, lookup-insert}
use kaelix.Base.Sets.{contains-discard}
use kaelix.Raft.Types.{NodeId}
use kaelix.Membership.Types.{failed, NodeInfo, update_status, time_since_last_seen}
use kaelix.Membership.Swim.{
  SwimMembership, is_suspected, mark_failed, fail_all, process_suspicion_timeouts, expired_suspects,
  expired_found, longer, suspicion_timeout,
}
use kaelix.Membership.Swim.Suspects.{mark_failed_other, fail_all_other}

abbrev pub HasFailed : NodeId → SwimMembership → Type 0
unfolding is_suspected
HasFailed id s =
    ((n : NodeInfo) × (lookup id s.members ≡ some n) × (n.status ≡ failed))
    × (is_suspected id s ≡ false)

same_found :
    (now bound : ℕ) (members : Assoc NodeInfo) (k id : NodeId)
    → k ≡ id
    → expired_found now bound (lookup k members) ≡ expired_found now bound (lookup id members)
same_found now bound members k id e = ap (λ i. expired_found now bound (lookup i members)) e

found_longer :
    (now t bound : ℕ) (n : NodeInfo)
    → n.last_seen ≡ some t
    → (longer bound (time_since_last_seen now n) && true) ≡ ltb bound (now - t)
unfolding time_since_last_seen
found_longer now t bound n seen = ground arith

found_late :
    (now t bound : ℕ) (n : NodeInfo) (o : Option NodeInfo) (listed : Bool)
    → o ≡ some n
    → n.last_seen ≡ some t
    → listed ≡ true
    → (expired_found now bound o && listed) ≡ ltb bound (now - t)
unfolding time_since_last_seen
found_late now t bound n o listed found seen e = rw (found, e) (found_longer now t bound n seen)

expired-contains :
    (now bound : ℕ) (members : Assoc NodeInfo) (ids : List NodeId) (id : NodeId)
    → contains id (expired_suspects now bound members ids)
      ≡ (expired_found now bound (lookup id members) && contains id ids)
unfolding expired_suspects contains
expired-contains now bound members [] id = ground arith
expired-contains now bound members (k ∷ ids) id =
    ground (arith, same_found now bound members k id, expired-contains now bound members ids id)

mark_failed-HasFailed :
    (now : ℕ) (id : NodeId) (n : NodeInfo) (s : SwimMembership)
    → lookup id s.members ≡ some n
    → n.incarnation + 1 < 2 ^ 64
    → HasFailed id (mark_failed now id s)
unfolding mark_failed update_status is_suspected
mark_failed-HasFailed now id n s found room =
    let dead = update_status now failed (u64 (n.incarnation + 1)) n in
    rw found (
      (dead, ground (arith, lookup-insert id id dead s.members), ground arith),
      ground (arith, contains-discard id id s.suspects),
    )

failed_again :
    (now : ℕ) (id : NodeId) (n : NodeInfo) (s : SwimMembership)
    → lookup id s.members ≡ some n
    → n.status ≡ failed
    → HasFailed id (mark_failed now id s)
unfolding mark_failed update_status is_suspected
failed_again now id n s found was =
    let dead = update_status now failed (u64 (n.incarnation + 1)) n in
    rw found (
      (dead, ground (arith, lookup-insert id id dead s.members), ground arith),
      ground (arith, contains-discard id id s.suspects),
    )

mark_failed-keeps :
    (now : ℕ) (k id : NodeId) (s : SwimMembership)
    → HasFailed id s
    → HasFailed id (mark_failed now k s)
unfolding HasFailed
mark_failed-keeps now k id s ((n, found, dead), out) = elim (Bool-cases (k == id)) [
  | inl same ↦
      let e : k ≡ id = ground arith in
      subst (λ i. HasFailed id (mark_failed now i s)) (sym e) (failed_again now id n s found dead)
  | inr other ↦
      let (kept, unlisted) = mark_failed_other now k id s other in
      ((n, kept ∙ found, dead), unlisted ∙ out)
]

fail_all-keeps :
    (now : ℕ) (ids : List NodeId) (id : NodeId) (s : SwimMembership)
    → HasFailed id s
    → HasFailed id (fail_all now ids s)
unfolding fail_all
fail_all-keeps now [] id s h = h
fail_all-keeps now (k ∷ ids) id s h =
    fail_all-keeps now ids id (mark_failed now k s) (mark_failed-keeps now k id s h)

fail_all-HasFailed :
    (now : ℕ) (ids : List NodeId) (id : NodeId) (n : NodeInfo) (s : SwimMembership)
    → contains id ids ≡ true
    → lookup id s.members ≡ some n
    → n.incarnation + 1 < 2 ^ 64
    → HasFailed id (fail_all now ids s)
unfolding fail_all contains
fail_all-HasFailed now [] id n s listed found room = absurd (ground arith)
fail_all-HasFailed now (k ∷ ids) id n s listed found room = elim (Bool-cases (k == id)) [
  | inl same ↦
      let e : k ≡ id = ground arith in
      fail_all-keeps now ids id (mark_failed now k s) (
        subst (λ i. HasFailed id (mark_failed now i s)) (sym e)
          (mark_failed-HasFailed now id n s found room))
  | inr other ↦
      fail_all-HasFailed now ids id n (mark_failed now k s) (ground arith)
        ((mark_failed_other now k id s other).0 ∙ found) room
]

-- A suspect that was last seen longer ago than the suspicion timeout is failed and no longer suspected
-- after the timeouts were processed; one that was seen since stays as it is, and stays suspected. Its
-- incarnation is below the largest number.
pub process_suspicion_timeouts_lem :
    (now t : ℕ) (id : NodeId) (n : NodeInfo) (s : SwimMembership)
    → lookup id s.members ≡ some n
    → n.last_seen ≡ some t
    → is_suspected id s ≡ true
    → n.incarnation + 1 < 2 ^ 64
    → (suspicion_timeout s < now - t → HasFailed id (process_suspicion_timeouts now s))
      × (now - t ≤ suspicion_timeout s
          → (lookup id (process_suspicion_timeouts now s).members ≡ some n)
            × (is_suspected id (process_suspicion_timeouts now s) ≡ true))
unfolding process_suspicion_timeouts is_suspected
process_suspicion_timeouts_lem now t id n s found seen listed room =
    let ids = expired_suspects now (suspicion_timeout s) s.members s.suspects in
    let late : contains id ids ≡ ltb (suspicion_timeout s) (now - t) =
      expired-contains now (suspicion_timeout s) s.members s.suspects id
      ∙ found_late now t (suspicion_timeout s) n (lookup id s.members) (contains id s.suspects)
          found seen listed in
    (
      λ expired. fail_all-HasFailed now ids id n s (late ∙ lt→ltb _ _ expired) found room,
      λ fresh.
          let other = fail_all_other now ids id s (late ∙ ground arith) in
          (other.0 ∙ found, other.1 ∙ listed),
    )
