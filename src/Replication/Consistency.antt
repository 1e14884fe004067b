-- ===== src/Replication/Consistency.antt =====
-- `ConsistencyManager` of kaelix-storage/src/replication/consistency.rs. The identifier of a session
-- is the number that its text spells; times are milliseconds after the first time that the clock can
-- represent. The results are always `Ok`, but for `wait_for_consistency`.
pub mod Sessions
use kaelix.Base.{
  ℕ, zero, suc, ◌+◌, ◌-◌, ◌/◌, max, ltb, leb, ◌==◌, not, if◌then◌else◌, Bool, true, false, List, [],
  ◌∷◌, length, Option, none, some, unwrap_or,
}
use kaelix.Base.Assoc.{Assoc, lookup, insert}
use kaelix.Raft.Types.{NodeId}

pub data ConsistencyLevel : Type 0 where
  eventual read_your_writes monotonic strong : ConsistencyLevel

pub record SessionInfo : Type 0 where
  pub session_id : ℕ
  pub last_write_sequence : ℕ
  pub last_read_timestamp : ℕ
  pub origin_node : NodeId

pub data ReadPreference : Type 0 where
  primary primary_preferred any nearest : ReadPreference

pub data WritePreference : Type 0 where
  primary_only majority all : WritePreference

pub record ConsistencyManager : Type 0 where
  pub sessions : Assoc SessionInfo
  pub vector_clocks : Assoc ℕ
  pub node_sequences : Assoc ℕ
  pub local_node_id : NodeId

pub record ConsistencyStats : Type 0 where
  pub active_sessions : ℕ
  pub tracked_nodes : ℕ
  pub sequence_nodes : ℕ

unfoldable pub new : NodeId → ConsistencyManager
new local_node_id = record {
  sessions = [];
  vector_clocks = [];
  node_sequences = [];
  local_node_id = local_node_id;
}

unfoldable pub create_session : ℕ → ℕ → ConsistencyManager → ConsistencyManager × SessionInfo
create_session now session_id m =
    let session : SessionInfo = record {
      session_id = session_id;
      last_write_sequence = 0;
      last_read_timestamp = now;
      origin_node = m.local_node_id;
    } in
    (record m { sessions = insert session_id session m.sessions }, session)

abbrev pub wrote_in : ℕ → ℕ → ConsistencyManager → Option SessionInfo → ConsistencyManager
wrote_in session_id sequence m none = m
wrote_in session_id sequence m (some session) = record m {
  sessions =
      insert session_id
        (record session { last_write_sequence = max session.last_write_sequence sequence })
        m.sessions;
}

unfoldable pub update_session_write : ℕ → ℕ → ConsistencyManager → ConsistencyManager
update_session_write session_id sequence m =
    wrote_in session_id sequence m (lookup session_id m.sessions)

abbrev session_covers : ℕ → Option SessionInfo → Bool
session_covers read_sequence none = false
session_covers read_sequence (some session) = leb session.last_write_sequence read_sequence

abbrev sees_session : ℕ → ConsistencyManager → Option ℕ → Bool
sees_session read_sequence m none = false
sees_session read_sequence m (some session_id) =
    session_covers read_sequence (lookup session_id m.sessions)

abbrev not_behind : ℕ → Option ℕ → Bool
not_behind read_sequence none = true
not_behind read_sequence (some last_sequence) = leb last_sequence read_sequence

unfoldable pub check_read_consistency :
    ConsistencyLevel → Option ℕ → ℕ → NodeId → ConsistencyManager → Bool
check_read_consistency eventual session_id read_sequence read_node m = true
check_read_consistency read_your_writes session_id read_sequence read_node m =
    sees_session read_sequence m session_id
check_read_consistency monotonic session_id read_sequence read_node m =
    not_behind read_sequence (lookup read_node m.node_sequences)
check_read_consistency strong session_id read_sequence read_node m = true

unfoldable pub check_write_consistency : ConsistencyLevel → ℕ → List NodeId → ℕ → Bool
check_write_consistency eventual write_sequence nodes total = not (length nodes == 0)
check_write_consistency read_your_writes write_sequence nodes total = not (length nodes == 0)
check_write_consistency monotonic write_sequence nodes total = not (length nodes == 0)
check_write_consistency strong write_sequence nodes total = leb (total / 2 + 1) (length nodes)

unfoldable pub get_read_preference : ConsistencyLevel → ReadPreference
get_read_preference eventual = any
get_read_preference read_your_writes = primary_preferred
get_read_preference monotonic = primary_preferred
get_read_preference strong = primary

unfoldable pub get_write_preference : ConsistencyLevel → WritePreference
get_write_preference eventual = primary_only
get_write_preference read_your_writes = primary_only
get_write_preference monotonic = primary_only
get_write_preference strong = majority

-- `entry(node).or_insert(0)` and the maximum.
abbrev pub raise : NodeId → ℕ → Assoc ℕ → Assoc ℕ
raise node sequence m = insert node (max (unwrap_or (lookup node m) 0) sequence) m

unfoldable pub update_vector_clock : NodeId → ℕ → ConsistencyManager → ConsistencyManager
update_vector_clock node sequence m = record m {
  vector_clocks = raise node sequence m.vector_clocks;
}

unfoldable pub update_node_sequence : NodeId → ℕ → ConsistencyManager → ConsistencyManager
update_node_sequence node sequence m = record m {
  node_sequences = raise node sequence m.node_sequences;
}

abbrev reached : ℕ → Option ℕ → Bool
reached target none = false
reached target (some current) = leb target current

-- The turns of the loop that stand within the timeout, each with the sequences it finds. `false` is
-- the error of the timeout.
unfoldable pub poll : NodeId → ℕ → List (Assoc ℕ) → Bool
poll local target [] = false
poll local target (seen ∷ later) =
    let rest = poll local target later in if reached target (lookup local seen) then true else rest

unfoldable pub wait_for_consistency :
    ConsistencyLevel → ℕ → List (Assoc ℕ) → ConsistencyManager → Bool
unfolding poll
wait_for_consistency eventual target turns m = true
wait_for_consistency read_your_writes target turns m = poll m.local_node_id target turns
wait_for_consistency monotonic target turns m = poll m.local_node_id target turns
wait_for_consistency strong target turns m = true

unfoldable pub get_session : ℕ → ConsistencyManager → Option SessionInfo
get_session session_id m = lookup session_id m.sessions

unfoldable pub retain : ℕ → Assoc SessionInfo → Assoc SessionInfo
retain cutoff [] = []
retain cutoff ((k, s) ∷ ss) =
    let rest = retain cutoff ss in if ltb cutoff s.last_read_timestamp then (k, s) ∷ rest else rest

-- `none` is the panic of a subtraction before the first time that can be represented.
unfoldable pub cleanup_expired_sessions :
    ℕ → ℕ → ConsistencyManager → Option (ConsistencyManager × ℕ)
unfolding retain
cleanup_expired_sessions now max_age m =
    let kept = retain (now - max_age) m.sessions in
    if ltb now max_age
    then none
    else some (record m { sessions = kept }, length m.sessions - length kept)

unfoldable pub get_consistency_stats : ConsistencyManager → ConsistencyStats
get_consistency_stats m = record {
  active_sessions = length m.sessions;
  tracked_nodes = length m.vector_clocks;
  sequence_nodes = length m.node_sequences;
}
