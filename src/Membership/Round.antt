-- ===== src/Membership/Round.antt =====
-- The protocol round of `SwimMembership` and the handlers that send messages:
-- kaelix-cluster/src/membership/mod.rs. What the round asks of the random numbers, of bincode and of
-- the message router is the parameter `world`.
pub mod Handlers
pub mod Suspicion
pub mod Elsewhere
pub mod Recipients
pub mod Tables
pub mod Steps
use Prim.Native.String.{String}
use kaelix.Base.{
  ℕ, ◌+◌, ◌-◌, ltb, ◌==◌, not, ◌&&◌, if◌then◌else◌, u64, Bool, true, false, List, [], ◌∷◌, ◌++◌,
  take, Option, none, some,
}
use kaelix.Base.Assoc.{Assoc, lookup, insert, values}
use kaelix.Raft.Types.{NodeId}
use kaelix.Membership.Types.{
  Error, membership, cluster_timeout, Result, ok, err, NodeStatus, alive, is_alive, NodeInfo,
  SwimConfig, IndirectPingRequest, SwimMessage, ping, ack, indirect_ping, indirect_ack, gossip,
}
use kaelix.Membership.Swim.{
  SwimMembership, PhiFailureDetector, new_detector, heartbeat, mark_suspect,
  process_suspicion_timeouts, update_node_info, process_membership_updates, handle_ack,
  handle_gossip, handle_indirect_ack, cleanup_expired_indirect_pings,
}

-- How a send ends: the router took the message, refused it, or did not answer within the time that the
-- caller waits.
pub data Delivery : Type 0 where
  delivered late : Delivery
  refused : Error → Delivery

pub data Encoding : Type 0 where
  encoded : List ℕ → Encoding
  unencodable : Error → Encoding

-- `choose` and `shuffle` of the crate rand, `bincode::serialize` with the error that the caller makes
-- of its failure, and `MessageRouter::send_to_node`, at the time of the call.
pub record World : Type 0 where
  pub choose : ℕ → List NodeInfo → Option NodeInfo
  pub shuffle : ℕ → List NodeInfo → List NodeInfo
  pub encode : SwimMessage → Encoding
  pub send : ℕ → NodeId → List ℕ → Delivery

-- What a method leaves: the tables, the messages it handed to the router, and its answer.
pub record Outcome {ℓ} (A : Type ℓ) : Type ℓ where
  pub state : SwimMembership
  pub sent : List (NodeId × SwimMessage)
  pub answer : Result A

abbrev pub quiet {ℓ} : {A : Type ℓ} → SwimMembership → Result A → Outcome A
quiet s r = record { state = s; sent = []; answer = r }

-- The members that a ping or gossip may go to.
unfoldable pub candidates : NodeId → List NodeInfo → List NodeInfo
unfolding is_alive
candidates local [] = []
candidates local (n ∷ ns) =
    let rest = candidates local ns in
    if not (n.id == local) && is_alive n.status then n ∷ rest else rest

unfoldable pub proxy_candidates : NodeId → NodeId → List NodeInfo → List NodeInfo
unfolding is_alive
proxy_candidates local target [] = []
proxy_candidates local target (n ∷ ns) =
    let rest = proxy_candidates local target ns in
    if not (n.id == local) && (not (n.id == target) && is_alive n.status) then n ∷ rest else rest

abbrev pub ids : List NodeInfo → List NodeId
ids [] = []
ids (n ∷ ns) = n.id ∷ ids ns

-- The same message to every node.
abbrev pub to_all : SwimMessage → List NodeInfo → List (NodeId × SwimMessage)
to_all m [] = []
to_all m (n ∷ ns) = (n.id, m) ∷ to_all m ns

unfoldable pub register : ℕ → NodeId → List NodeInfo → SwimMembership → SwimMembership
register now target proxies s = record s {
  request_id_counter = u64 (s.request_id_counter + 1);
  pending_indirect_pings =
      insert s.request_id_counter
        (record { target = target; proxies = ids proxies; timestamp = now; responses_received = 0 })
        s.pending_indirect_pings;
}

unfoldable pub answered : Option IndirectPingRequest → Bool
answered none = false
answered (some request) = ltb 0 request.responses_received

-- `entry(target).or_insert_with(..)` and the heartbeat of the detector; `none` is its panic.
abbrev pub detector_of : SwimMembership → Option PhiFailureDetector → PhiFailureDetector
unfolding new_detector
detector_of s none = new_detector s.config.max_failure_detector_history
detector_of s (some d) = d

abbrev pub beaten : NodeId → SwimMembership → Option PhiFailureDetector → Option SwimMembership
beaten target s none = none
beaten target s (some d) =
    some (record s { failure_detectors = insert target d s.failure_detectors })

unfoldable pub beat : ℕ → NodeId → SwimMembership → Option SwimMembership
unfolding heartbeat
beat now target s =
    beaten target s (heartbeat now (detector_of s (lookup target s.failure_detectors)))

abbrev pub first_encoding : List NodeInfo → Encoding → Encoding
first_encoding [] e = encoded []
first_encoding (p ∷ ps) e = e

unfoldable pub waited : SwimMessage → List NodeInfo → ℕ → SwimMembership → Encoding → Outcome Bool
unfolding answered
waited message proxies request_id s (unencodable e) = quiet s (err e)
waited message proxies request_id s (encoded bytes) = record {
  state = s;
  sent = to_all message proxies;
  answer = ok (answered (lookup request_id s.pending_indirect_pings));
}

abbrev pub suspect_unless :
    ℕ → NodeId → SwimMembership → List (NodeId × SwimMessage) → Result Bool → Outcome (Unit {0})
unfolding mark_suspect
suspect_unless now target s sent (err e) = record { state = s; sent = sent; answer = err e }
suspect_unless now target s sent (ok success) = record {
  state = if success then s else mark_suspect now target s;
  sent = sent;
  answer = ok tt;
}

abbrev pub spread : SwimMembership → SwimMessage → List NodeInfo → Encoding → Outcome (Unit {0})
spread s message targets (unencodable e) = quiet s (err e)
spread s message targets (encoded bytes) = record {
  state = s;
  sent = to_all message targets;
  answer = ok tt;
}

abbrev pub swept :
    ℕ → SwimMembership → List (NodeId × SwimMessage) → Result (Unit {0}) → Outcome (Unit {0})
unfolding cleanup_expired_indirect_pings
swept now s sent (err e) = record { state = s; sent = sent; answer = err e }
swept now s sent (ok _) = record {
  state = cleanup_expired_indirect_pings now s;
  sent = sent;
  answer = ok tt;
}

abbrev pub heard : NodeId → SwimMessage → Option SwimMembership → Option (Outcome (Unit {0}))
heard target message none = none
heard target message (some s) =
    some (record { state = s; sent = (target, message) ∷ []; answer = ok tt })

unfoldable pub pinged :
    ℕ → NodeId → SwimMessage → SwimMembership → Delivery → Option (Outcome (Unit {0}))
unfolding beat
pinged now target message s delivered = heard target message (beat now target s)
pinged now target message s late = some (record {
  state = s;
  sent = (target, message) ∷ [];
  answer = err (cluster_timeout "ping" s.config.failure_timeout_ms);
})
pinged now target message s (refused e) =
    some (record { state = s; sent = (target, message) ∷ []; answer = err e })

module _ (world : World) where
  abbrev pub choose_from : ℕ → List NodeInfo → Option NodeInfo
  choose_from now [] = none
  choose_from now (n ∷ ns) = world.choose now (n ∷ ns)

  unfoldable pub select_ping_target : ℕ → SwimMembership → Option NodeInfo
  unfolding candidates
  select_ping_target now s = choose_from now (candidates s.local_node.id (values s.members))

  unfoldable pub select_proxy_nodes : ℕ → NodeId → ℕ → SwimMembership → List NodeInfo
  unfolding proxy_candidates
  select_proxy_nodes now target count s =
      take count (world.shuffle now (proxy_candidates s.local_node.id target (values s.members)))

  unfoldable pub get_gossip_updates : ℕ → SwimMembership → List NodeInfo
  get_gossip_updates now s = take s.config.gossip_fanout (world.shuffle now (values s.members))

  unfoldable pub select_gossip_targets : ℕ → SwimMembership → List NodeInfo
  unfolding candidates
  select_gossip_targets now s =
      take s.config.gossip_fanout
        (world.shuffle now (candidates s.local_node.id (values s.members)))

  -- A message whose sending decides nothing: a router's error is only logged.
  abbrev pub told : NodeId → SwimMessage → SwimMembership → Encoding → Outcome (Unit {0})
  told to message s (unencodable e) = quiet s (err e)
  told to message s (encoded bytes) = record {
    state = s;
    sent = (to, message) ∷ [];
    answer = ok tt;
  }

  unfoldable pub tell : NodeId → SwimMessage → SwimMembership → Outcome (Unit {0})
  tell to message s = told to message s (world.encode message)

  unfoldable pub ping_message : ℕ → SwimMembership → SwimMessage
  unfolding get_gossip_updates
  ping_message now s = ping s.local_node.id s.local_node.incarnation (get_gossip_updates now s)

  abbrev pub ping_encoded :
      ℕ → NodeId → SwimMessage → SwimMembership → Encoding → Option (Outcome (Unit {0}))
  unfolding pinged
  ping_encoded now target message s (unencodable e) = some (quiet s (err e))
  ping_encoded now target message s (encoded bytes) =
      pinged now target message s (world.send now target bytes)

  unfoldable pub send_ping : ℕ → NodeInfo → SwimMembership → Option (Outcome (Unit {0}))
  unfolding ping_message ping_encoded
  send_ping now target s =
      ping_encoded now target.id (ping_message now s) s (world.encode (ping_message now s))

  -- The request is registered, each proxy is asked, and `sleep` passes the time out. The method holds
  -- the tables all this while, so no acknowledgement is handled before it looks at the request again.
  -- All its messages are equal, so that the first that cannot be encoded is the first of all.
  unfoldable pub send_indirect_ping : ℕ → NodeId → List NodeInfo → SwimMembership → Outcome Bool
  unfolding register waited
  send_indirect_ping now target proxies s =
      let message = indirect_ping s.local_node.id target s.request_id_counter in
      waited message proxies s.request_id_counter (register now target proxies s)
        (first_encoding proxies (world.encode message))

  abbrev pub ask_proxies : ℕ → ℕ → NodeId → SwimMembership → List NodeInfo → Outcome (Unit {0})
  unfolding send_indirect_ping mark_suspect
  ask_proxies now later target s [] = quiet (mark_suspect now target s) (ok tt)
  ask_proxies now later target s (p ∷ ps) =
      let o = send_indirect_ping now target (p ∷ ps) s in
      suspect_unless later target o.state o.sent o.answer

  -- Begun at `now`; after the wait for the proxies it is `later`.
  unfoldable pub handle_ping_timeout : ℕ → ℕ → NodeInfo → SwimMembership → Outcome (Unit {0})
  unfolding select_proxy_nodes ask_proxies
  handle_ping_timeout now later target s =
      ask_proxies now later target.id s
        (select_proxy_nodes now target.id s.config.indirect_ping_count s)

  abbrev pub gossip_to : SwimMembership → List NodeInfo → List NodeInfo → Outcome (Unit {0})
  gossip_to s [] updates = quiet s (ok tt)
  gossip_to s (t ∷ ts) [] = quiet s (ok tt)
  gossip_to s (t ∷ ts) (u ∷ us) =
      let message = gossip s.local_node.id (u ∷ us) in
      spread s message (t ∷ ts) (world.encode message)

  unfoldable pub gossip_updates : ℕ → SwimMembership → Outcome (Unit {0})
  unfolding select_gossip_targets get_gossip_updates
  gossip_updates now s = gossip_to s (select_gossip_targets now s) (get_gossip_updates now s)

  -- What follows the ping: at `later` the ping has been answered or given up.
  unfoldable pub finish_round :
      ℕ → SwimMembership → List (NodeId × SwimMessage) → Result (Unit {0}) → Outcome (Unit {0})
  unfolding process_suspicion_timeouts gossip_updates swept
  finish_round later s sent (err e) = record { state = s; sent = sent; answer = err e }
  finish_round later s sent (ok _) =
      let g = gossip_updates later (process_suspicion_timeouts later s) in
      swept later g.state (sent ++ g.sent) g.answer

  -- `finish_round`, after the proxies were asked where the ping failed.
  unfoldable pub after_ping :
      ℕ
      → ℕ
      → NodeInfo
      → SwimMembership
      → List (NodeId × SwimMessage)
      → Result (Unit {0})
      → Outcome (Unit {0})
  unfolding handle_ping_timeout finish_round
  after_ping now later target s sent (ok _) = finish_round later s sent (ok tt)
  after_ping now later target s sent (err e) =
      let t = handle_ping_timeout now later target s in
      finish_round later t.state (sent ++ t.sent) t.answer

  abbrev pub round_pinged :
      ℕ → ℕ → NodeInfo → Option (Outcome (Unit {0})) → Option (Outcome (Unit {0}))
  unfolding after_ping
  round_pinged now later target none = none
  round_pinged now later target (some o) =
      some (after_ping now later target o.state o.sent o.answer)

  abbrev pub round_at : ℕ → ℕ → ℕ → SwimMembership → Option NodeInfo → Option (Outcome (Unit {0}))
  unfolding send_ping round_pinged finish_round
  round_at now pinged_at later s none = some (finish_round later s [] (ok tt))
  round_at now pinged_at later s (some target) =
      round_pinged pinged_at later target (send_ping now target s)

  -- The round that begins at `now`, whose ping is answered or given up at `pinged_at`, and the proxies,
  -- where they are asked, at `later`. `none` is the panic of a detector.
  unfoldable pub execute_protocol_round : ℕ → ℕ → ℕ → SwimMembership → Option (Outcome (Unit {0}))
  unfolding select_ping_target round_at
  execute_protocol_round now pinged_at later s =
      let s' = record s { last_protocol_round = now } in
      if ltb (now - s.last_protocol_round) s.config.protocol_period_ms
      then some (quiet s (ok tt))
      else round_at now pinged_at later s' (select_ping_target now s')
