-- ===== src/Membership/Swim.antt =====
-- `SwimMembership` of kaelix-cluster/src/membership/mod.rs: what each method does to the tables. A
-- method takes the time in milliseconds at which it runs.
pub mod Consistency
pub mod Steps
pub mod Incarnations
pub mod Timeouts
pub mod Suspects
use Prim.Native.String.{String}
use kaelix.Base.{
  ℕ, zero, suc, ◌+◌, ◌-◌, ◌*◌, ltb, leb, ◌==◌, not, ◌&&◌, if◌then◌else◌, u64, Bool, true, false,
  List, [], ◌∷◌, ◌++◌, length, drop, Option, none, some,
}
use kaelix.Base.Assoc.{Assoc, lookup, insert, remove, values, contains}
use kaelix.Base.Sets.{add, discard}
use kaelix.Raft.Types.{NodeId}
use kaelix.Membership.Types.{
  Error, membership, Result, ok, err, NodeStatus, alive, suspect, failed, left, is_alive, NodeInfo,
  update_status, time_since_last_seen, SwimConfig, IndirectPingRequest,
}

-- The intervals of a detector are kept in milliseconds; the phi value computed from them, which
-- decides nothing in this module, is floating-point and left out.
pub record PhiFailureDetector : Type 0 where
  pub intervals : List ℕ
  pub max_history : ℕ
  pub last_heartbeat : Option ℕ

unfoldable pub new_detector : ℕ → PhiFailureDetector
new_detector max_history = record {
  intervals = [];
  max_history = max_history;
  last_heartbeat = none;
}

-- `none` is the panic of `remove(0)` on an empty history, where the history may hold nothing.
abbrev record_interval : PhiFailureDetector → ℕ → Option PhiFailureDetector
record_interval d interval =
    if ltb (length d.intervals) d.max_history
    then some (record d { intervals = d.intervals ++ (interval ∷ []) })
    else if length d.intervals == 0
    then none
    else some (record d { intervals = drop 1 d.intervals ++ (interval ∷ []) })

abbrev pub note_interval : ℕ → PhiFailureDetector → Option ℕ → Option PhiFailureDetector
note_interval now d none = some d
note_interval now d (some last) = record_interval d (now - last)

unfoldable pub heartbeat : ℕ → PhiFailureDetector → Option PhiFailureDetector
heartbeat now d = elim (note_interval now d d.last_heartbeat) [
  | none ↦ none
  | some d' ↦ some (record d' { last_heartbeat = some now })
]

pub record SwimMembership : Type 0 where
  pub local_node : NodeInfo
  pub members : Assoc NodeInfo
  pub config : SwimConfig
  pub suspects : List NodeId
  pub failure_detectors : Assoc PhiFailureDetector
  pub last_protocol_round : ℕ
  pub pending_indirect_pings : Assoc IndirectPingRequest
  pub request_id_counter : ℕ

unfoldable pub new : ℕ → NodeInfo → SwimConfig → SwimMembership
unfolding insert
new now local_node config = record {
  local_node = local_node;
  members = insert local_node.id local_node [];
  config = config;
  suspects = [];
  failure_detectors = [];
  last_protocol_round = now;
  pending_indirect_pings = [];
  request_id_counter = 0;
}

unfoldable pub member_count : SwimMembership → ℕ
member_count s = length s.members

abbrev pub count_alive : List NodeInfo → ℕ
unfolding is_alive
count_alive [] = 0
count_alive (n ∷ ns) = (if is_alive n.status then 1 else 0) + count_alive ns

unfoldable pub alive_member_count : SwimMembership → ℕ
unfolding count_alive
alive_member_count s = count_alive (values s.members)

unfoldable pub is_suspected : NodeId → SwimMembership → Bool
is_suspected id s = contains id s.suspects

abbrev pub suspect_found : ℕ → NodeId → SwimMembership → Option NodeInfo → SwimMembership
suspect_found now id s none = s
suspect_found now id s (some node) =
    if is_alive node.status
    then record s {
      members = insert id (update_status now suspect (u64 (node.incarnation + 1)) node) s.members;
      suspects = add id s.suspects;
    }
    else s

unfoldable pub mark_suspect : ℕ → NodeId → SwimMembership → SwimMembership
mark_suspect now id s = suspect_found now id s (lookup id s.members)

abbrev pub fail_found : ℕ → NodeId → SwimMembership → Option NodeInfo → SwimMembership
fail_found now id s none = s
fail_found now id s (some node) = record s {
  members = insert id (update_status now failed (u64 (node.incarnation + 1)) node) s.members;
  suspects = discard id s.suspects;
  failure_detectors = remove id s.failure_detectors;
}

unfoldable pub mark_failed : ℕ → NodeId → SwimMembership → SwimMembership
mark_failed now id s = fail_found now id s (lookup id s.members)

unfoldable pub suspicion_timeout : SwimMembership → ℕ
suspicion_timeout s = u64 (s.config.failure_timeout_ms * s.config.suspicion_multiplier)

abbrev pub longer : ℕ → Option ℕ → Bool
longer bound none = false
longer bound (some elapsed) = ltb bound elapsed

abbrev pub expired_found : ℕ → ℕ → Option NodeInfo → Bool
expired_found now bound none = false
expired_found now bound (some node) = longer bound (time_since_last_seen now node)

unfoldable pub expired_suspects : ℕ → ℕ → Assoc NodeInfo → List NodeId → List NodeId
expired_suspects now bound members [] = []
expired_suspects now bound members (id ∷ ids) =
    let rest = expired_suspects now bound members ids in
    if expired_found now bound (lookup id members) then id ∷ rest else rest

unfoldable pub fail_all : ℕ → List NodeId → SwimMembership → SwimMembership
fail_all now [] s = s
fail_all now (id ∷ ids) s = fail_all now ids (mark_failed now id s)

unfoldable pub process_suspicion_timeouts : ℕ → SwimMembership → SwimMembership
process_suspicion_timeouts now s =
    fail_all now (expired_suspects now (suspicion_timeout s) s.members s.suspects) s

abbrev pub update_found :
    ℕ → NodeId → NodeStatus → ℕ → SwimMembership → Option NodeInfo → SwimMembership
update_found now id status incarnation s none = s
update_found now id status incarnation s (some existing) =
    if leb existing.incarnation incarnation
    then record s {
      members = insert id (update_status now status incarnation existing) s.members;
      suspects = if is_alive status then discard id s.suspects else s.suspects;
    }
    else s

unfoldable pub update_node_info : ℕ → NodeId → NodeStatus → ℕ → SwimMembership → SwimMembership
update_node_info now id status incarnation s =
    update_found now id status incarnation s (lookup id s.members)

unfoldable pub process_membership_updates : ℕ → List NodeInfo → SwimMembership → SwimMembership
process_membership_updates now [] s = s
process_membership_updates now (u ∷ us) s =
    process_membership_updates now us
      (if u.id == s.local_node.id then s else update_node_info now u.id u.status u.incarnation s)

unfoldable pub add_member : NodeInfo → SwimMembership → SwimMembership
add_member node s = record s { members = insert node.id node s.members }

abbrev pub remove_found :
    NodeId → SwimMembership → Option NodeInfo → SwimMembership × Result (Unit {0})
remove_found id s none = (s, err (membership "Node not found in membership"))
remove_found id s (some node) = (
  record s {
    members = remove id s.members;
    suspects = discard id s.suspects;
    failure_detectors = remove id s.failure_detectors;
  },
  ok tt,
)

unfoldable pub remove_member : NodeId → SwimMembership → SwimMembership × Result (Unit {0})
remove_member id s = remove_found id s (lookup id s.members)

unfoldable pub count_response : ℕ → IndirectPingRequest → SwimMembership → SwimMembership
count_response id request s = record s {
  pending_indirect_pings =
      insert id (record request { responses_received = request.responses_received + 1 })
        s.pending_indirect_pings;
}

unfoldable pub revive : ℕ → NodeId → SwimMembership → SwimMembership
unfolding update_node_info
revive now target s =
    let updated = update_node_info now target alive 0 s in
    record updated { suspects = discard target updated.suspects }

abbrev pub answer_found :
    ℕ → NodeId → ℕ → Bool → SwimMembership → Option IndirectPingRequest → SwimMembership
answer_found now target id success s none = s
answer_found now target id success s (some request) =
    if success then revive now target (count_response id request s) else count_response id request s

unfoldable pub handle_indirect_ack : ℕ → NodeId → ℕ → Bool → SwimMembership → SwimMembership
handle_indirect_ack now target request_id success s =
    answer_found now target request_id success s (lookup request_id s.pending_indirect_pings)

unfoldable pub handle_ack : ℕ → NodeId → ℕ → List NodeInfo → SwimMembership → SwimMembership
unfolding update_node_info process_membership_updates
handle_ack now source incarnation updates s =
    process_membership_updates now updates (update_node_info now source alive incarnation s)

unfoldable pub handle_gossip : ℕ → List NodeInfo → SwimMembership → SwimMembership
unfolding process_membership_updates
handle_gossip now updates s = process_membership_updates now updates s

abbrev pub recent : ℕ → ℕ → Assoc IndirectPingRequest → Assoc IndirectPingRequest
recent now timeout [] = []
recent now timeout ((id, r) ∷ rs) =
    let rest = recent now timeout rs in
    if ltb (now - r.timestamp) timeout then (id, r) ∷ rest else rest

unfoldable pub cleanup_expired_indirect_pings : ℕ → SwimMembership → SwimMembership
cleanup_expired_indirect_pings now s = record s {
  pending_indirect_pings =
      recent now (u64 (s.config.failure_timeout_ms * 2)) s.pending_indirect_pings;
}
