-- ===== src/Membership/Types.antt =====
-- The data of the membership module, kaelix-cluster/src/membership/mod.rs, and the errors of
-- kaelix-cluster/src/error.rs. Times of the system clock are milliseconds since the epoch, instants
-- and durations are milliseconds too.
use Prim.Native.String.{String}
use kaelix.Base.{ℕ, ◌-◌, leb, if◌then◌else◌, Bool, true, false, List, [], Option, none, some}
use kaelix.Raft.Types.{NodeId}

pub data Error : Type 0 where
  membership node_discovery failure_detection consensus leader_election log_replication :
      String → Error
  state_machine communication network_transport message_routing connection : String → Error
  configuration node_configuration bootstrap join_cluster leave_cluster split_brain : String → Error
  quorum_loss node_unavailable cluster_partition : String → Error
  cluster_timeout : String → ℕ → Error
  invalid_node_state : String → String → Error
  term_mismatch index_mismatch : ℕ → ℕ → Error
  protocol_mismatch : String → String → Error
  authentication authorization certificate_validation encryption message_integrity : String → Error
  storage snapshot log_compaction backup recovery : String → Error
  resource_exhausted : String → String → Error
  memory thread_pool_saturated channel_capacity_exceeded backpressure rate_limit : String → Error
  circuit_breaker health_check metrics tracing not_implemented feature_unavailable : String → Error
  internal : String → Error

pub data Result {ℓ} (A : Type ℓ) : Type ℓ where
  ok : A → Result A
  err : Error → Result A

-- A socket address or a path is the text that it prints as.
pub data NodeAddress : Type 0 where
  tcp : String → NodeAddress
  udp : String → NodeAddress
  unix : String → NodeAddress

unfoldable pub socket_addr : NodeAddress → Option String
socket_addr (tcp a) = some a
socket_addr (udp a) = some a
socket_addr (unix p) = none

pub data NodeStatus : Type 0 where
  alive suspect failed left : NodeStatus

unfoldable pub is_active : NodeStatus → Bool
is_active alive = true
is_active suspect = true
is_active failed = false
is_active left = false

unfoldable pub is_alive : NodeStatus → Bool
is_alive alive = true
is_alive suspect = false
is_alive failed = false
is_alive left = false

unfoldable pub is_unavailable : NodeStatus → Bool
is_unavailable alive = false
is_unavailable suspect = false
is_unavailable failed = true
is_unavailable left = true

pub record NodeInfo : Type 0 where
  pub id : NodeId
  pub address : NodeAddress
  pub status : NodeStatus
  pub incarnation : ℕ
  pub last_seen : Option ℕ
  pub metadata : List (String × String)

-- `NodeInfo::new` at the time `now`.
unfoldable pub new_info : ℕ → NodeId → NodeAddress → NodeInfo
new_info now id address = record {
  id = id;
  address = address;
  status = alive;
  incarnation = 0;
  last_seen = some now;
  metadata = [];
}

unfoldable pub update_status : ℕ → NodeStatus → ℕ → NodeInfo → NodeInfo
update_status now status incarnation node =
    if leb node.incarnation incarnation
    then record node { status = status; incarnation = incarnation; last_seen = some now }
    else node

-- The subtraction saturates, as that of `ℕ` does.
unfoldable pub time_since_last_seen : ℕ → NodeInfo → Option ℕ
time_since_last_seen now node = elim node.last_seen [ none ↦ none | some t ↦ some (now - t) ]

-- The configuration without the threshold of the phi detector, which is a floating-point number.
pub record SwimConfig : Type 0 where
  pub protocol_period_ms : ℕ
  pub failure_timeout_ms : ℕ
  pub indirect_ping_count : ℕ
  pub gossip_fanout : ℕ
  pub suspicion_multiplier : ℕ
  pub max_failure_detector_history : ℕ

abbrev pub default_config : SwimConfig
default_config = record {
  protocol_period_ms = 1000;
  failure_timeout_ms = 5000;
  indirect_ping_count = 3;
  gossip_fanout = 3;
  suspicion_multiplier = 3;
  max_failure_detector_history = 100;
}

pub record IndirectPingRequest : Type 0 where
  pub target : NodeId
  pub proxies : List NodeId
  pub timestamp : ℕ
  pub responses_received : ℕ

pub data SwimMessage : Type 0 where
  ping : NodeId → ℕ → List NodeInfo → SwimMessage
  ack : NodeId → ℕ → List NodeInfo → SwimMessage
  indirect_ping : NodeId → NodeId → ℕ → SwimMessage
  indirect_ack : NodeId → NodeId → ℕ → Bool → SwimMessage
  gossip : NodeId → List NodeInfo → SwimMessage
