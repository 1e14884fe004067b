-- ===== src/Membership/Swim/Suspects.antt =====
-- The table of suspects against the members' statuses: kaelix-cluster/src/membership/mod.rs.
use kaelix.Base.{
  ℕ, ◌+◌, ◌<◌, ◌≤◌, ◌==◌, ◌≡◌, inl, inr, refl, ◌∙◌, arith, u64, true, false, List, [], ◌∷◌, some,
  Option-cases,
}
use kaelix.Base.Assoc.{Assoc, lookup, contains, lookup-insert}
use kaelix.Base.Sets.{contains-discard}
use kaelix.Raft.Types.{NodeId}
use kaelix.Membership.Types.{
  suspect, failed, is_alive, NodeInfo, update_status, IndirectPingRequest,
}
use kaelix.Membership.Swim.{
  SwimMembership, is_suspected, mark_failed, expired_suspects, fail_all, process_suspicion_timeouts,
  suspicion_timeout, update_node_info, revive, count_response, handle_indirect_ack,
}

-- Failing one node leaves the others.
pub mark_failed_other :
    (now : ℕ) (k id : NodeId) (s : SwimMembership)
    → (k == id) ≡ false
    → (lookup id (mark_failed now k s).members ≡ lookup id s.members)
      × (is_suspected id (mark_failed now k s) ≡ is_suspected id s)
unfolding mark_failed is_suspected
mark_failed_other now k id s other = elim (Option-cases (lookup k s.members)) [
  | inl missing ↦ rw missing (refl, refl)
  | inr (node, found) ↦
      let failed_node = update_status now failed (u64 (node.incarnation + 1)) node in
      rw found (
        ground (arith, lookup-insert k id failed_node s.members),
        ground (arith, contains-discard k id s.suspects),
      )
]

pub fail_all_other :
    (now : ℕ) (ids : List NodeId) (id : NodeId) (s : SwimMembership)
    → contains id ids ≡ false
    → (lookup id (fail_all now ids s).members ≡ lookup id s.members)
      × (is_suspected id (fail_all now ids s) ≡ is_suspected id s)
unfolding fail_all contains
fail_all_other now [] id s h = (refl, refl)
fail_all_other now (k ∷ ids) id s h =
    let other : (k == id) ≡ false = ground arith in
    let (one, two) = mark_failed_other now k id s other in
    let (three, four) = fail_all_other now ids id (mark_failed now k s) (ground arith) in
    (three ∙ one, four ∙ two)

expired_only_suspects :
    (now bound : ℕ) (members : Assoc NodeInfo) (ids : List NodeId) (id : NodeId)
    → contains id ids ≡ false
    → contains id (expired_suspects now bound members ids) ≡ false
unfolding expired_suspects contains
expired_only_suspects now bound members [] id h = refl
expired_only_suspects now bound members (k ∷ ids) id h =
    ground (arith, expired_only_suspects now bound members ids id)

-- Of a member outside the table of suspects the timeouts change nothing, whatever its status and
-- however late it is.
pub unlisted_never_fails :
    (now : ℕ) (id : NodeId) (s : SwimMembership)
    → is_suspected id s ≡ false
    → (lookup id (process_suspicion_timeouts now s).members ≡ lookup id s.members)
      × (is_suspected id (process_suspicion_timeouts now s) ≡ false)
unfolding process_suspicion_timeouts is_suspected
unlisted_never_fails now id s h =
    let ids = expired_suspects now (suspicion_timeout s) s.members s.suspects in
    let (kept, out) =
      fail_all_other now ids id s
        (expired_only_suspects now (suspicion_timeout s) s.members s.suspects id h) in
    (kept, out ∙ h)

-- The passes of the timeouts at the times `nows`.
unfoldable pub suspicion_passes : List ℕ → SwimMembership → SwimMembership
suspicion_passes [] s = s
suspicion_passes (now ∷ nows) s = suspicion_passes nows (process_suspicion_timeouts now s)

pub passes_keep_unlisted :
    (nows : List ℕ) (id : NodeId) (s : SwimMembership)
    → is_suspected id s ≡ false
    → (lookup id (suspicion_passes nows s).members ≡ lookup id s.members)
      × (is_suspected id (suspicion_passes nows s) ≡ false)
unfolding suspicion_passes
passes_keep_unlisted [] id s h = (refl, h)
passes_keep_unlisted (now ∷ nows) id s h =
    let (kept, out) = unlisted_never_fails now id s h in
    let (still, unlisted) = passes_keep_unlisted nows id (process_suspicion_timeouts now s) out in
    (still ∙ kept, unlisted)

-- A member that gossip reports as suspect, in an incarnation that is not older, takes that status; but
-- if the node itself did not suspect it, no number of passes of the timeouts, at whatever times, fails
-- it or puts it on the table of suspects.
pub gossiped_suspect_never_fails :
    (seen : ℕ) (nows : List ℕ) (id : NodeId) (incarnation : ℕ) (node : NodeInfo)
    (s : SwimMembership)
    → lookup id s.members ≡ some node
    → is_suspected id s ≡ false
    → node.incarnation ≤ incarnation
    → let t = suspicion_passes nows (update_node_info seen id suspect incarnation s) in
      (lookup id t.members
        ≡ some (record node { status = suspect; incarnation = incarnation; last_seen = some seen }))
      × (is_suspected id t ≡ false)
unfolding update_node_info is_suspected update_status is_alive
gossiped_suspect_never_fails seen nows id incarnation node s found out newer =
    let reported = record node {
      status = suspect;
      incarnation = incarnation;
      last_seen = some seen;
    } in
    let after = update_node_info seen id suspect incarnation s in
    let stored : lookup id after.members ≡ some reported =
      ground (arith, lookup-insert id id reported s.members) in
    let unlisted : is_suspected id after ≡ false = ground arith in
    let (kept, still) = passes_keep_unlisted nows id after unlisted in (kept ∙ stored, still)

-- A successful indirect acknowledgement for a suspect whose incarnation is above 0 takes it off the
-- table of suspects but leaves it suspect: no number of passes of the timeouts fails it.
indirect_ack_strands :
    (seen : ℕ) (nows : List ℕ) (id request_id : ℕ) (node : NodeInfo) (request : IndirectPingRequest)
    (s : SwimMembership)
    → lookup request_id s.pending_indirect_pings ≡ some request
    → lookup id s.members ≡ some node
    → 0 < node.incarnation
    → lookup id (suspicion_passes nows (handle_indirect_ack seen id request_id true s)).members
      ≡ some node
unfolding handle_indirect_ack revive count_response update_node_info is_suspected
indirect_ack_strands seen nows id request_id node request s pending found positive =
    let after = handle_indirect_ack seen id request_id true s in
    let kept : lookup id after.members ≡ some node = ground arith in
    let unlisted : is_suspected id after ≡ false =
      ground (arith, contains-discard id id s.suspects) in
    (passes_keep_unlisted nows id after unlisted).0 ∙ kept
