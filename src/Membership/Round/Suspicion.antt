-- ===== src/Membership/Round/Suspicion.antt =====
-- Indirect pings never clear a node: kaelix-cluster/src/membership/mod.rs.
use kaelix.Base.{
  ℕ, ◌+◌, ◌<◌, ◌^◌, ==_refl, ◌≡◌, refl, sym, ap, subst, ◌∙◌, arith, u64, Bool, true, false, List,
  [], ◌∷◌, some,
}
use kaelix.Base.Assoc.{lookup, lookup-insert}
use kaelix.Base.Sets.{contains-add}
use kaelix.Raft.Types.{NodeId}
use kaelix.Membership.Types.{
  ok, alive, suspect, is_alive, NodeInfo, update_status, IndirectPingRequest, indirect_ping,
}
use kaelix.Membership.Swim.{SwimMembership, mark_suspect, is_suspected}
use kaelix.Membership.Round.{
  World, Outcome, encoded, register, answered, select_proxy_nodes, ask_proxies, suspect_unless,
  waited, send_indirect_ping, handle_ping_timeout, ids,
}

-- A node that has become suspect, in the incarnation after that of `n`.
abbrev pub HasTurnedSuspect : NodeInfo → NodeId → SwimMembership → Type 0
unfolding is_suspected
HasTurnedSuspect n id s =
    ((m : NodeInfo) × (lookup id s.members ≡ some m)
      × ((m.status ≡ suspect) × (m.incarnation ≡ n.incarnation + 1)))
    × (is_suspected id s ≡ true)

unanswered :
    (now : ℕ) (target : NodeId) (proxies : List NodeInfo) (s : SwimMembership)
    → answered (lookup s.request_id_counter (register now target proxies s).pending_indirect_pings)
      ≡ false
unfolding register answered
unanswered now target proxies s =
    let request : IndirectPingRequest = record {
      target = target;
      proxies = ids proxies;
      timestamp = now;
      responses_received = 0;
    } in
    rw
      (
        lookup-insert s.request_id_counter s.request_id_counter request s.pending_indirect_pings,
        ==_refl s.request_id_counter,
      )
      refl

registered_members :
    (now : ℕ) (target : NodeId) (proxies : List NodeInfo) (s : SwimMembership)
    → lookup target (register now target proxies s).members ≡ lookup target s.members
unfolding register
registered_members now target proxies s = refl

mark_suspect-suspects :
    (now : ℕ) (id : NodeId) (n : NodeInfo) (s : SwimMembership)
    → lookup id s.members ≡ some n
    → n.status ≡ alive
    → n.incarnation + 1 < 2 ^ 64
    → HasTurnedSuspect n id (mark_suspect now id s)
unfolding mark_suspect is_suspected is_alive update_status
mark_suspect-suspects now id n s found live room =
    let m = update_status now suspect (u64 (n.incarnation + 1)) n in
    rw (found, live)
      (
        (m, ground (arith, lookup-insert id id m s.members), (ground arith, ground arith)),
        ground (arith, contains-add id id s.suspects),
      )

-- The indirect ping always answers that it failed, and leaves its request pending.
pub send_indirect_ping-fails :
    (world : World) (now : ℕ) (id : NodeId) (p : NodeInfo) (ps : List NodeInfo) (bytes : List ℕ)
    (s : SwimMembership)
    → world.encode (indirect_ping s.local_node.id id s.request_id_counter) ≡ encoded bytes
    → ((send_indirect_ping world now id (p ∷ ps) s).answer ≡ ok false)
      × ((send_indirect_ping world now id (p ∷ ps) s).state ≡ register now id (p ∷ ps) s)
unfolding send_indirect_ping waited
send_indirect_ping-fails world now id p ps bytes s encodes =
    rw (encodes, unanswered now id (p ∷ ps) s) (refl, refl)

asked_state :
    (later : ℕ) (id : NodeId) (o : Outcome Bool)
    → o.answer ≡ ok false
    → (suspect_unless later id o.state o.sent o.answer).state ≡ mark_suspect later id o.state
unfolding suspect_unless
asked_state later id o e = rw e refl

asked_suspects :
    (world : World) (now later : ℕ) (id : NodeId) (proxies : List NodeInfo) (n : NodeInfo)
    (bytes : List ℕ) (s : SwimMembership)
    → world.encode (indirect_ping s.local_node.id id s.request_id_counter) ≡ encoded bytes
    → lookup id s.members ≡ some n
    → n.status ≡ alive
    → n.incarnation + 1 < 2 ^ 64
    → HasTurnedSuspect n id (ask_proxies world now later id s proxies).state
unfolding ask_proxies
asked_suspects world now later id [] n bytes s encodes found live room =
    mark_suspect-suspects now id n s found live room
asked_suspects world now later id (p ∷ ps) n bytes s encodes found live room =
    let (refused, left_by) = send_indirect_ping-fails world now id p ps bytes s encodes in
    subst (HasTurnedSuspect n id)
      (sym (
        asked_state later id (send_indirect_ping world now id (p ∷ ps) s) refused
        ∙ ap (mark_suspect later id) left_by))
      (mark_suspect-suspects later id n (register now id (p ∷ ps) s)
        (registered_members now id (p ∷ ps) s ∙ found) live room)

-- Whatever the proxies answer, the failure of a direct ping makes a live target suspect, in the next
-- incarnation, and the node suspects it; where the request to the proxies can be encoded and no
-- incarnation reaches 2^64.
pub ping_timeout_suspects :
    (world : World) (now later : ℕ) (target n : NodeInfo) (bytes : List ℕ) (s : SwimMembership)
    → world.encode (indirect_ping s.local_node.id target.id s.request_id_counter) ≡ encoded bytes
    → lookup target.id s.members ≡ some n
    → n.status ≡ alive
    → n.incarnation + 1 < 2 ^ 64
    → HasTurnedSuspect n target.id (handle_ping_timeout world now later target s).state
unfolding handle_ping_timeout
ping_timeout_suspects world now later target n bytes s encodes found live room =
    asked_suspects world now later target.id
      (select_proxy_nodes world now target.id s.config.indirect_ping_count s) n bytes s encodes
      found live room
