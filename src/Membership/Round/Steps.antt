-- ===== src/Membership/Round/Steps.antt =====
-- The whole membership as a state machine: what changes the tables alone, the messages that come in,
-- and the rounds that the node runs, of kaelix-cluster/src/membership/mod.rs.
use kaelix.Base.{ℕ, ◌≡◌, refl, subst, arith, Bool, false, List, [], Option, none, some}
use kaelix.Base.Assoc.{lookup, contains}
use kaelix.Raft.Types.{NodeId}
use kaelix.Membership.Types.{
  alive, NodeInfo, SwimConfig, SwimMessage, ping, ack, indirect_ping, indirect_ack, gossip,
}
use kaelix.Membership.Swim.{SwimMembership, new, update_node_info}
use kaelix.Membership.Swim.Steps.{Step-IsConsistent}
use kaelix.Membership.Swim.Steps as Tables
use kaelix.Membership.Swim.Consistency.{
  IsConsistent, update_node_info-IsConsistent, updates-IsConsistent, answer-IsConsistent,
}
use kaelix.Membership.Round.{
  World, Outcome, Encoding, encoded, unencodable, send_ping, send_indirect_ping,
  handle_ping_timeout, execute_protocol_round, tell, told,
}
use kaelix.Membership.Round.Handlers.{
  handle_ping, report_back, relayed, relay_to, handle_indirect_ping, handle_swim_message, succeeded,
}
use kaelix.Membership.Round.Tables.{
  HasRoom, SameTables, SameTables-refl, SameTables-IsConsistent, IfSame, IfConsistent,
  send_ping-IfSame, send_indirect_ping-SameTables, handle_ping_timeout-IsConsistent,
  round-IfConsistent,
}

-- A round, and a ping that ran out of time, suspect members only below the largest incarnation; nothing
-- else is asked of a message, a time, the random choices, the encoding or the router.
pub data Step (s : SwimMembership) : SwimMembership → Type 0 where
  changed : {t : SwimMembership} → Tables.Step s t → Step s t
  handled :
      (world : World) (now : ℕ) (m : SwimMessage) (o : Outcome (Unit {0}))
      → handle_swim_message world now m s ≡ some o
      → Step s o.state
  ran :
      (world : World) (now pinged_at later : ℕ) (o : Outcome (Unit {0}))
      → HasRoom s
      → execute_protocol_round world now pinged_at later s ≡ some o
      → Step s o.state
  gave_up :
      (world : World) (now later : ℕ) (target : NodeInfo)
      → HasRoom s
      → Step s (handle_ping_timeout world now later target s).state
  asked :
      (world : World) (now : ℕ) (target : NodeId) (proxies : List NodeInfo)
      → Step s (send_indirect_ping world now target proxies s).state

pub data Reach (s : SwimMembership) : SwimMembership → Type 0 where
  here : Reach s s
  next : {t u : SwimMembership} → Reach s t → Step t u → Reach s u

module _ (world : World) where
  told-SameTables :
      (to : NodeId) (m : SwimMessage) (s : SwimMembership) (e : Encoding)
      → SameTables s (told world to m s e).state
  told-SameTables to m s (unencodable x) = SameTables-refl s
  told-SameTables to m s (encoded bytes) = SameTables-refl s

  tell-SameTables :
      (to : NodeId) (m : SwimMessage) (s : SwimMembership) → SameTables s (tell world to m s).state
  unfolding tell
  tell-SameTables to m s = told-SameTables to m s (world.encode m)

  report_back-SameTables :
      (source target : NodeId) (r : ℕ) (good : Bool) (sent : List (NodeId × SwimMessage))
      (s : SwimMembership)
      → SameTables s (report_back world source target r good sent s).state
  unfolding report_back
  report_back-SameTables source target r good sent s =
      let same = tell-SameTables source (indirect_ack s.local_node.id target r good) s in
      record { members = same.members; suspects = same.suspects }

  handle_ping-IsConsistent :
      (now : ℕ) (source : NodeId) (i : ℕ) (us : List NodeInfo) (s : SwimMembership)
      → IsConsistent s
      → IsConsistent (handle_ping world now source i us s).state
  unfolding handle_ping
  handle_ping-IsConsistent now source i us s h =
      SameTables-IsConsistent (tell-SameTables source _ _) (
        updates-IsConsistent now us (update_node_info now source alive i s)
          (update_node_info-IsConsistent now source alive i s h))

  reported-IfConsistent :
      (source target : NodeId) (r : ℕ) (s : SwimMembership) (o : Option (Outcome (Unit {0})))
      → IsConsistent s
      → IfSame s o
      → IfConsistent (relayed world source target r o)
  unfolding relayed
  reported-IfConsistent source target r s none h same = tt
  reported-IfConsistent source target r s (some p) h same =
      SameTables-IsConsistent
        (report_back-SameTables source target r (succeeded world p.answer) p.sent p.state)
        (SameTables-IsConsistent same h)

  relay_to-IfConsistent :
      (now : ℕ) (source target : NodeId) (r : ℕ) (s : SwimMembership) (n : Option NodeInfo)
      → IsConsistent s
      → IfConsistent (relay_to world now source target r s n)
  unfolding relay_to
  relay_to-IfConsistent now source target r s none h =
      SameTables-IsConsistent (report_back-SameTables source target r false [] s) h
  relay_to-IfConsistent now source target r s (some n) h =
      reported-IfConsistent source target r s (send_ping world now n s) h
        (send_ping-IfSame world now n s)

  handled-IfConsistent :
      (now : ℕ) (m : SwimMessage) (s : SwimMembership)
      → IsConsistent s
      → IfConsistent (handle_swim_message world now m s)
  unfolding handle_swim_message handle_indirect_ping
  handled-IfConsistent now (ping source i us) s h = handle_ping-IsConsistent now source i us s h
  handled-IfConsistent now (ack source i us) s h =
      Step-IsConsistent (Tables.acked now source i us) h
  handled-IfConsistent now (indirect_ping source target r) s h =
      relay_to-IfConsistent now source target r s (lookup target s.members) h
  handled-IfConsistent now (indirect_ack source target r good) s h =
      answer-IsConsistent now target r good s h
  handled-IfConsistent now (gossip source us) s h = Step-IsConsistent (Tables.gossiped now us) h

kept : {s t : SwimMembership} → Step s t → IsConsistent s → IsConsistent t
kept (changed step) h = Step-IsConsistent step h
kept {s} (handled world now m o e) h = subst IfConsistent e (handled-IfConsistent world now m s h)
kept {s} (ran world now pinged_at later o room e) h =
    subst IfConsistent e (round-IfConsistent world now pinged_at later s room h)
kept {s} (gave_up world now later target room) h =
    handle_ping_timeout-IsConsistent world now later target s room h
kept {s} (asked world now target proxies) h =
    SameTables-IsConsistent (send_indirect_ping-SameTables world now target proxies s) h

-- In every state that a new membership reaches by the messages that it handles, the protocol rounds and
-- pings that it runs and the changes of its tables, each node stands once in the table of members, and
-- each suspect is a known member whose status is not alive. Members join under new identifiers, and a
-- member is suspected only in an incarnation below 2^64 - 1; the messages, the times, the random
-- choices, the encoding and the router's answers are arbitrary.
pub Reach-IsConsistent :
    (now : ℕ) (local : NodeInfo) (config : SwimConfig) {t : SwimMembership}
    → Reach (new now local config) t
    → IsConsistent t
unfolding new contains
Reach-IsConsistent now local config here = record {
  is_map = (refl, tt);
  suspects_known = λ j listed. absurd (ground arith);
}
Reach-IsConsistent now local config (next r st) = kept st (Reach-IsConsistent now local config r)
