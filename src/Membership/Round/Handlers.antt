-- ===== src/Membership/Round/Handlers.antt =====
-- The handlers that answer with messages, and the dispatch of all five:
-- kaelix-cluster/src/membership/mod.rs.
use kaelix.Base.{ℕ, Bool, true, false, List, [], ◌++◌, Option, none, some}
use kaelix.Base.Assoc.{lookup}
use kaelix.Raft.Types.{NodeId}
use kaelix.Membership.Types.{
  Result, ok, err, alive, NodeInfo, SwimMessage, ping, ack, indirect_ping, indirect_ack, gossip,
}
use kaelix.Membership.Swim.{
  SwimMembership, update_node_info, process_membership_updates, handle_ack, handle_gossip,
  handle_indirect_ack,
}
use kaelix.Membership.Round.{World, Outcome, quiet, get_gossip_updates, tell, send_ping}

module _ (world : World) where
  unfoldable pub handle_ping : ℕ → NodeId → ℕ → List NodeInfo → SwimMembership → Outcome (Unit {0})
  unfolding tell update_node_info process_membership_updates get_gossip_updates
  handle_ping now source incarnation updates s =
      let s' =
        process_membership_updates now updates (update_node_info now source alive incarnation s) in
      tell world source
        (ack s.local_node.id s.local_node.incarnation (get_gossip_updates world now s')) s'

  abbrev pub succeeded : Result (Unit {0}) → Bool
  succeeded (ok _) = true
  succeeded (err _) = false

  unfoldable pub report_back :
      NodeId → NodeId → ℕ → Bool → List (NodeId × SwimMessage) → SwimMembership → Outcome (Unit {0})
  unfolding tell
  report_back source target request_id success sent s =
      let t = tell world source (indirect_ack s.local_node.id target request_id success) s in
      record { state = t.state; sent = sent ++ t.sent; answer = t.answer }

  unfoldable pub relayed :
      NodeId → NodeId → ℕ → Option (Outcome (Unit {0})) → Option (Outcome (Unit {0}))
  unfolding report_back
  relayed source target request_id none = none
  relayed source target request_id (some o) =
      some (report_back source target request_id (succeeded o.answer) o.sent o.state)

  unfoldable pub relay_to :
      ℕ → NodeId → NodeId → ℕ → SwimMembership → Option NodeInfo → Option (Outcome (Unit {0}))
  unfolding report_back send_ping relayed
  relay_to now source target request_id s none =
      some (report_back source target request_id false [] s)
  relay_to now source target request_id s (some node) =
      relayed source target request_id (send_ping world now node s)

  unfoldable pub handle_indirect_ping :
      ℕ → NodeId → NodeId → ℕ → SwimMembership → Option (Outcome (Unit {0}))
  unfolding relay_to
  handle_indirect_ping now source target request_id s =
      relay_to now source target request_id s (lookup target s.members)

  unfoldable pub handle_swim_message :
      ℕ → SwimMessage → SwimMembership → Option (Outcome (Unit {0}))
  unfolding handle_ping handle_ack handle_indirect_ping handle_indirect_ack handle_gossip
  handle_swim_message now (ping source incarnation updates) s =
      some (handle_ping now source incarnation updates s)
  handle_swim_message now (ack source incarnation updates) s =
      some (quiet (handle_ack now source incarnation updates s) (ok tt))
  handle_swim_message now (indirect_ping source target request_id) s =
      handle_indirect_ping now source target request_id s
  handle_swim_message now (indirect_ack source target request_id success) s =
      some (quiet (handle_indirect_ack now target request_id success s) (ok tt))
  handle_swim_message now (gossip source updates) s =
      some (quiet (handle_gossip now updates s) (ok tt))
