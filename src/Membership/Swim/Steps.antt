-- ===== src/Membership/Swim/Steps.antt =====
-- The operations that change the tables and send nothing, and what they keep:
-- kaelix-cluster/src/membership/mod.rs.
use kaelix.Base.{ℕ, ◌+◌, ◌<◌, ◌^◌, ◌≡◌, Bool, List, none, some}
use kaelix.Base.Assoc.{lookup}
use kaelix.Raft.Types.{NodeId}
use kaelix.Membership.Types.{alive, NodeInfo}
use kaelix.Membership.Swim.{
  SwimMembership, mark_suspect, mark_failed, process_suspicion_timeouts, expired_suspects,
  suspicion_timeout, update_node_info, handle_ack, handle_gossip, handle_indirect_ack, add_member,
  remove_member, cleanup_expired_indirect_pings,
}
use kaelix.Membership.Swim.Consistency.{
  IsConsistent, mark_suspect-IsConsistent, mark_failed-IsConsistent, update_node_info-IsConsistent,
  updates-IsConsistent, fail_all-IsConsistent, remove-IsConsistent, answer-IsConsistent,
  add-IsConsistent,
}

-- A member that joins is not known yet, and no member's incarnation is the largest number when it is
-- suspected; nothing else is asked of a message or a time.
pub data Step (s : SwimMembership) : SwimMembership → Type 0 where
  acked : (now : ℕ) (k : NodeId) (i : ℕ) (us : List NodeInfo) → Step s (handle_ack now k i us s)
  gossiped : (now : ℕ) (us : List NodeInfo) → Step s (handle_gossip now us s)
  answered :
      (now : ℕ) (k : NodeId) (r : ℕ) (good : Bool) → Step s (handle_indirect_ack now k r good s)
  suspected :
      (now : ℕ) (k : NodeId)
      → ((n : NodeInfo) → lookup k s.members ≡ some n → n.incarnation + 1 < 2 ^ 64)
      → Step s (mark_suspect now k s)
  declared_failed : (now : ℕ) (k : NodeId) → Step s (mark_failed now k s)
  timed_out : (now : ℕ) → Step s (process_suspicion_timeouts now s)
  joined : (n : NodeInfo) → lookup n.id s.members ≡ none → Step s (add_member n s)
  removed : (k : NodeId) → Step s (remove_member k s).0
  cleaned : (now : ℕ) → Step s (cleanup_expired_indirect_pings now s)

pub Step-IsConsistent : {s t : SwimMembership} → Step s t → IsConsistent s → IsConsistent t
unfolding handle_ack handle_gossip process_suspicion_timeouts cleanup_expired_indirect_pings
Step-IsConsistent {s} (acked now k i us) h =
    updates-IsConsistent now us (update_node_info now k alive i s)
      (update_node_info-IsConsistent now k alive i s h)
Step-IsConsistent {s} (gossiped now us) h = updates-IsConsistent now us s h
Step-IsConsistent {s} (answered now k r good) h = answer-IsConsistent now k r good s h
Step-IsConsistent {s} (suspected now k room) h = mark_suspect-IsConsistent now k s room h
Step-IsConsistent {s} (declared_failed now k) h = mark_failed-IsConsistent now k s h
Step-IsConsistent {s} (timed_out now) h =
    fail_all-IsConsistent now (expired_suspects now (suspicion_timeout s) s.members s.suspects) s h
Step-IsConsistent {s} (joined n fresh) h = add-IsConsistent n s fresh h
Step-IsConsistent {s} (removed k) h = remove-IsConsistent k s h
Step-IsConsistent {s} (cleaned now) h = record {
  is_map = h.is_map;
  suspects_known = h.suspects_known;
}
