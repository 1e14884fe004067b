-- ===== src/Membership/Round/Tables.antt =====
-- What a protocol round does to the tables of members and of suspects:
-- kaelix-cluster/src/membership/mod.rs.
use kaelix.Base.{
  ℕ, ◌-◌, ltb, ◌+◌, ◌<◌, ◌^◌, ◌≡◌, refl, inl, inr, Bool, true, false, List, [], ◌∷◌, ◌++◌, Option,
  none, some, Bool-cases,
}
use kaelix.Base.Assoc.{lookup}
use kaelix.Raft.Types.{NodeId}
use kaelix.Membership.Types.{Result, ok, err, NodeInfo, SwimMessage, indirect_ping, gossip}
use kaelix.Membership.Swim.{
  SwimMembership, PhiFailureDetector, heartbeat, process_suspicion_timeouts,
}
use kaelix.Membership.Swim.Steps.{Step-IsConsistent}
use kaelix.Membership.Swim.Steps as Tables
use kaelix.Membership.Swim.Consistency.{IsConsistent, mark_suspect-IsConsistent}
use kaelix.Membership.Round.{
  World, Outcome, Encoding, encoded, unencodable, Delivery, delivered, late, refused, register,
  waited, first_encoding, suspect_unless, ask_proxies, select_ping_target, select_proxy_nodes,
  select_gossip_targets, get_gossip_updates, spread, swept, heard, beaten, beat, detector_of,
  pinged, ping_message, ping_encoded, send_ping, send_indirect_ping, handle_ping_timeout, gossip_to,
  gossip_updates, finish_round, after_ping, round_pinged, round_at, execute_protocol_round,
}

-- No known member is in the largest incarnation.
abbrev pub HasRoom : SwimMembership → Type 0
HasRoom s = (k : NodeId) (n : NodeInfo) → lookup k s.members ≡ some n → n.incarnation + 1 < 2 ^ 64

-- The tables of members and of suspects are those of `s`.
pub record SameTables (s t : SwimMembership) : Type 0 where
  pub members : t.members ≡ s.members
  pub suspects : t.suspects ≡ s.suspects

pub SameTables-refl : (s : SwimMembership) → SameTables s s
SameTables-refl s = record { members = refl; suspects = refl }

pub SameTables-IsConsistent :
    {s t : SwimMembership} → SameTables s t → IsConsistent s → IsConsistent t
SameTables-IsConsistent {s} {t} same h = record {
  is_map = rw same.members h.is_map;
  suspects_known = rw (same.members, same.suspects) h.suspects_known;
}

SameTables-HasRoom : {s t : SwimMembership} → SameTables s t → HasRoom s → HasRoom t
SameTables-HasRoom same room k n = rw same.members (room k n)

waited-SameTables :
    (message : SwimMessage) (proxies : List NodeInfo) (r : ℕ) (s : SwimMembership) (e : Encoding)
    → SameTables s (waited message proxies r s e).state
unfolding waited
waited-SameTables message proxies r s (unencodable e) = SameTables-refl s
waited-SameTables message proxies r s (encoded bytes) = SameTables-refl s

spread-SameTables :
    (s : SwimMembership) (message : SwimMessage) (targets : List NodeInfo) (e : Encoding)
    → SameTables s (spread s message targets e).state
spread-SameTables s message targets (unencodable e) = SameTables-refl s
spread-SameTables s message targets (encoded bytes) = SameTables-refl s

-- An outcome whose tables are those of `s`, where there is one.
abbrev pub IfSame : SwimMembership → Option (Outcome (Unit {0})) → Type 0
IfSame s none = Unit {0}
IfSame s (some o) = SameTables s o.state

heard-IfSame :
    (target : NodeId) (message : SwimMessage) (s : SwimMembership) (d : Option PhiFailureDetector)
    → IfSame s (heard target message (beaten target s d))
heard-IfSame target message s none = tt
heard-IfSame target message s (some d) = record { members = refl; suspects = refl }

pinged-IfSame :
    (now : ℕ) (target : NodeId) (message : SwimMessage) (s : SwimMembership) (d : Delivery)
    → IfSame s (pinged now target message s d)
unfolding pinged beat
pinged-IfSame now target message s delivered =
    heard-IfSame target message s
      (heartbeat now (detector_of s (lookup target s.failure_detectors)))
pinged-IfSame now target message s late = SameTables-refl s
pinged-IfSame now target message s (refused e) = SameTables-refl s

suspect_unless-IsConsistent :
    (now : ℕ) (target : NodeId) (s : SwimMembership) (sent : List (NodeId × SwimMessage))
    (r : Result Bool)
    → HasRoom s
    → IsConsistent s
    → IsConsistent (suspect_unless now target s sent r).state
unfolding suspect_unless
suspect_unless-IsConsistent now target s sent (err e) room h = h
suspect_unless-IsConsistent now target s sent (ok true) room h = h
suspect_unless-IsConsistent now target s sent (ok false) room h =
    mark_suspect-IsConsistent now target s (room target) h

swept-IsConsistent :
    (now : ℕ) (s : SwimMembership) (sent : List (NodeId × SwimMessage)) (r : Result (Unit {0}))
    → IsConsistent s
    → IsConsistent (swept now s sent r).state
unfolding swept
swept-IsConsistent now s sent (err e) h = h
swept-IsConsistent now s sent (ok u) h = Step-IsConsistent (Tables.cleaned now) h

-- What holds of an outcome, where there is one.
abbrev pub IfConsistent : Option (Outcome (Unit {0})) → Type 0
IfConsistent none = Unit {0}
IfConsistent (some o) = IsConsistent o.state

module _ (world : World) where
  ping_encoded-IfSame :
      (now : ℕ) (target : NodeId) (message : SwimMessage) (s : SwimMembership) (e : Encoding)
      → IfSame s (ping_encoded world now target message s e)
  unfolding ping_encoded
  ping_encoded-IfSame now target message s (unencodable e) = SameTables-refl s
  ping_encoded-IfSame now target message s (encoded bytes) =
      pinged-IfSame now target message s (world.send now target bytes)

  pub send_ping-IfSame :
      (now : ℕ) (target : NodeInfo) (s : SwimMembership) → IfSame s (send_ping world now target s)
  unfolding send_ping
  send_ping-IfSame now target s =
      ping_encoded-IfSame now target.id (ping_message world now s) s
        (world.encode (ping_message world now s))

  pub send_indirect_ping-SameTables :
      (now : ℕ) (target : NodeId) (proxies : List NodeInfo) (s : SwimMembership)
      → SameTables s (send_indirect_ping world now target proxies s).state
  unfolding send_indirect_ping register
  send_indirect_ping-SameTables now target proxies s =
      let message = indirect_ping s.local_node.id target s.request_id_counter in
      let same =
        waited-SameTables message proxies s.request_id_counter (register now target proxies s)
          (first_encoding proxies (world.encode message)) in
      record { members = same.members; suspects = same.suspects }

  ask_proxies-IsConsistent :
      (now later : ℕ) (target : NodeId) (s : SwimMembership) (ps : List NodeInfo)
      → HasRoom s
      → IsConsistent s
      → IsConsistent (ask_proxies world now later target s ps).state
  unfolding ask_proxies
  ask_proxies-IsConsistent now later target s [] room h =
      mark_suspect-IsConsistent now target s (room target) h
  ask_proxies-IsConsistent now later target s (p ∷ ps) room h =
      let o = send_indirect_ping world now target (p ∷ ps) s in
      let same = send_indirect_ping-SameTables now target (p ∷ ps) s in
      suspect_unless-IsConsistent later target o.state o.sent o.answer
        (SameTables-HasRoom same room) (SameTables-IsConsistent same h)

  gossip_to-SameTables :
      (s : SwimMembership) (targets updates : List NodeInfo)
      → SameTables s (gossip_to world s targets updates).state
  gossip_to-SameTables s [] updates = SameTables-refl s
  gossip_to-SameTables s (t ∷ ts) [] = SameTables-refl s
  gossip_to-SameTables s (t ∷ ts) (u ∷ us) =
      let message = gossip s.local_node.id (u ∷ us) in
      spread-SameTables s message (t ∷ ts) (world.encode message)

  finish_round-IsConsistent :
      (later : ℕ) (s : SwimMembership) (sent : List (NodeId × SwimMessage)) (r : Result (Unit {0}))
      → IsConsistent s
      → IsConsistent (finish_round world later s sent r).state
  unfolding finish_round gossip_updates
  finish_round-IsConsistent later s sent (err e) h = h
  finish_round-IsConsistent later s sent (ok u) h =
      let s' = process_suspicion_timeouts later s in
      let g = gossip_updates world later s' in
      let same =
        gossip_to-SameTables s' (select_gossip_targets world later s')
          (get_gossip_updates world later s') in
      swept-IsConsistent later g.state (sent ++ g.sent) g.answer
        (SameTables-IsConsistent same (Step-IsConsistent (Tables.timed_out later) h))

  pub handle_ping_timeout-IsConsistent :
      (now later : ℕ) (target : NodeInfo) (s : SwimMembership)
      → HasRoom s
      → IsConsistent s
      → IsConsistent (handle_ping_timeout world now later target s).state
  unfolding handle_ping_timeout
  handle_ping_timeout-IsConsistent now later target s room h =
      ask_proxies-IsConsistent now later target.id s
        (select_proxy_nodes world now target.id s.config.indirect_ping_count s) room h

  after_ping-IsConsistent :
      (now later : ℕ) (target : NodeInfo) (s : SwimMembership) (sent : List (NodeId × SwimMessage))
      (r : Result (Unit {0}))
      → HasRoom s
      → IsConsistent s
      → IsConsistent (after_ping world now later target s sent r).state
  unfolding after_ping
  after_ping-IsConsistent now later target s sent (ok u) room h =
      finish_round-IsConsistent later s sent (ok tt) h
  after_ping-IsConsistent now later target s sent (err e) room h =
      let t = handle_ping_timeout world now later target s in
      finish_round-IsConsistent later t.state (sent ++ t.sent) t.answer
        (handle_ping_timeout-IsConsistent now later target s room h)

  round_pinged-IfConsistent :
      (now later : ℕ) (target : NodeInfo) (s : SwimMembership) (o : Option (Outcome (Unit {0})))
      → HasRoom s
      → IsConsistent s
      → IfSame s o
      → IfConsistent (round_pinged world now later target o)
  unfolding round_pinged
  round_pinged-IfConsistent now later target s none room h same = tt
  round_pinged-IfConsistent now later target s (some o) room h same =
      after_ping-IsConsistent now later target o.state o.sent o.answer
        (SameTables-HasRoom same room) (SameTables-IsConsistent same h)

  round_at-IfConsistent :
      (now pinged_at later : ℕ) (s : SwimMembership) (target : Option NodeInfo)
      → HasRoom s
      → IsConsistent s
      → IfConsistent (round_at world now pinged_at later s target)
  unfolding round_at
  round_at-IfConsistent now pinged_at later s none room h =
      finish_round-IsConsistent later s [] (ok tt) h
  round_at-IfConsistent now pinged_at later s (some n) room h =
      round_pinged-IfConsistent pinged_at later n s (send_ping world now n s) room h
        (send_ping-IfSame now n s)

  pub round-IfConsistent :
      (now pinged_at later : ℕ) (s : SwimMembership)
      → HasRoom s
      → IsConsistent s
      → IfConsistent (execute_protocol_round world now pinged_at later s)
  unfolding execute_protocol_round
  round-IfConsistent now pinged_at later s room h =
      let s' = record s { last_protocol_round = now } in
      elim (Bool-cases (ltb (now - s.last_protocol_round) s.config.protocol_period_ms)) [
        | inl early ↦ rw early h
        | inr due ↦ rw due (
            round_at-IfConsistent now pinged_at later s' (select_ping_target world now s') room
              (SameTables-IsConsistent (record { members = refl; suspects = refl }) h))
      ]
