-- ===== src/Membership/Round/Recipients.antt =====
-- To whom a protocol round sends: kaelix-cluster/src/membership/mod.rs.
use mathlib.Core.List.{Permᴰ, Memᴰ}
use kaelix.Base.{
  ℕ, ◌-◌, ltb, ◌==◌, ◌≡◌, inl, inr, refl, ap, subst, ◌∙◌, arith, false, List, [], ◌∷◌, ◌++◌, Option,
  none, some, Bool-cases,
}
use kaelix.Base.Assoc.{lookup, values}
use kaelix.Raft.Types.{NodeId}
use kaelix.Membership.Types.{Result, ok, err, NodeInfo, SwimMessage, indirect_ping, gossip}
use kaelix.Membership.Swim.{
  heartbeat, PhiFailureDetector, SwimMembership, process_suspicion_timeouts, expired_suspects,
  suspicion_timeout,
}
use kaelix.Membership.Round.{
  World, Outcome, Encoding, encoded, unencodable, Delivery, delivered, late, refused, candidates,
  proxy_candidates, register, suspect_unless, ask_proxies, select_ping_target, select_proxy_nodes,
  select_gossip_targets, get_gossip_updates, beat, pinged, ping_message, send_ping,
  send_indirect_ping, handle_ping_timeout, gossip_updates, finish_round, after_ping,
  execute_protocol_round, choose_from, gossip_to, round_at, round_pinged, ping_encoded, detector_of,
  heard, beaten,
}
use kaelix.Membership.Round.Elsewhere.{
  AllOther, SentElsewhere, AllOther-Perm, AllOther-Mem, AllOther-take, candidates-AllOther,
  proxy_candidates-AllOther, append-SentElsewhere, mark_suspect-local, fail_all-local, IsElsewhere,
  spread-IsElsewhere, waited-IsElsewhere, suspect_unless-IsElsewhere, swept-IsElsewhere,
}

-- What the crate rand promises: a shuffle keeps the elements, a choice is one of them.
pub record IsRandom (world : World) : Type 0 where
  pub shuffled : (now : ℕ) (ns : List NodeInfo) → Permᴰ ns (world.shuffle now ns)
  pub chosen :
      (now : ℕ) (ns : List NodeInfo) (n : NodeInfo) → world.choose now ns ≡ some n → Memᴰ n ns

-- What holds of an outcome, where there is one.
abbrev Unpanicked {ℓ} : {A : Type ℓ} → NodeId → Option (Outcome A) → Type 0
Unpanicked local none = Unit {0}
Unpanicked local (some o) = IsElsewhere local o

beaten-Unpanicked :
    (target : NodeId) (message : SwimMessage) (s : SwimMembership) (d : Option PhiFailureDetector)
    → (target == s.local_node.id) ≡ false
    → Unpanicked s.local_node.id (heard target message (beaten target s d))
beaten-Unpanicked target message s none h = tt
beaten-Unpanicked target message s (some d) h = (refl, (h, tt))

pinged-Unpanicked :
    (now : ℕ) (target : NodeId) (message : SwimMessage) (s : SwimMembership) (d : Delivery)
    → (target == s.local_node.id) ≡ false
    → Unpanicked s.local_node.id (pinged now target message s d)
unfolding pinged beat
pinged-Unpanicked now target message s late h = (refl, (h, tt))
pinged-Unpanicked now target message s (refused e) h = (refl, (h, tt))
pinged-Unpanicked now target message s delivered h =
    beaten-Unpanicked target message s
      (heartbeat now (detector_of s (lookup target s.failure_detectors))) h

module _ (world : World) (random : IsRandom world) where
  proxies-AllOther :
      (now : ℕ) (target : NodeId) (count : ℕ) (s : SwimMembership)
      → AllOther s.local_node.id (select_proxy_nodes world now target count s)
  unfolding select_proxy_nodes
  proxies-AllOther now target count s =
      let local = s.local_node.id in
      let all = proxy_candidates local target (values s.members) in
      AllOther-take local count (world.shuffle now all) (
        AllOther-Perm local (random.shuffled now all)
          (proxy_candidates-AllOther local target (values s.members)))

  gossip_targets-AllOther :
      (now : ℕ) (s : SwimMembership) → AllOther s.local_node.id (select_gossip_targets world now s)
  unfolding select_gossip_targets
  gossip_targets-AllOther now s =
      let local = s.local_node.id in
      let all = candidates local (values s.members) in
      AllOther-take local s.config.gossip_fanout (world.shuffle now all) (
        AllOther-Perm local (random.shuffled now all)
          (candidates-AllOther local (values s.members)))

  chosen_of :
      (now : ℕ) (local : NodeId) (ns : List NodeInfo) (n : NodeInfo)
      → AllOther local ns
      → choose_from world now ns ≡ some n
      → (n.id == local) ≡ false
  chosen_of now local [] n h e = absurd (ground arith)
  chosen_of now local (m ∷ ms) n h e = AllOther-Mem local (random.chosen now (m ∷ ms) n e) h

  target_other :
      (now : ℕ) (s : SwimMembership) (n : NodeInfo)
      → select_ping_target world now s ≡ some n
      → (n.id == s.local_node.id) ≡ false
  unfolding select_ping_target
  target_other now s n e =
      chosen_of now s.local_node.id (candidates s.local_node.id (values s.members)) n
        (candidates-AllOther s.local_node.id (values s.members)) e

  gossip_to-IsElsewhere :
      (s : SwimMembership) (targets updates : List NodeInfo)
      → AllOther s.local_node.id targets
      → IsElsewhere s.local_node.id (gossip_to world s targets updates)
  gossip_to-IsElsewhere s [] updates h = (refl, tt)
  gossip_to-IsElsewhere s (t ∷ ts) [] h = (refl, tt)
  gossip_to-IsElsewhere s (t ∷ ts) (u ∷ us) h =
      let message = gossip s.local_node.id (u ∷ us) in
      spread-IsElsewhere s message (t ∷ ts) (world.encode message) h

  ask_proxies-IsElsewhere :
      (now later : ℕ) (target : NodeId) (s : SwimMembership) (ps : List NodeInfo)
      → AllOther s.local_node.id ps
      → IsElsewhere s.local_node.id (ask_proxies world now later target s ps)
  unfolding ask_proxies send_indirect_ping register suspect_unless
  ask_proxies-IsElsewhere now later target s [] h =
      (ap (λ n. n.id) (mark_suspect-local now target s), tt)
  ask_proxies-IsElsewhere now later target s (p ∷ ps) h =
      let message = indirect_ping s.local_node.id target s.request_id_counter in
      let o = send_indirect_ping world now target (p ∷ ps) s in
      let asked =
        waited-IsElsewhere message (p ∷ ps) s.request_id_counter (register now target (p ∷ ps) s)
          (world.encode message) h in
      suspect_unless-IsElsewhere s.local_node.id later target o.state o.sent o.answer asked.0
        asked.1

  finish_round-IsElsewhere :
      (local : NodeId) (later : ℕ) (s : SwimMembership) (sent : List (NodeId × SwimMessage))
      (r : Result (Unit {0}))
      → s.local_node.id ≡ local
      → SentElsewhere local sent
      → IsElsewhere local (finish_round world later s sent r)
  unfolding finish_round process_suspicion_timeouts gossip_updates
  finish_round-IsElsewhere local later s sent (err e) own h = (own, h)
  finish_round-IsElsewhere local later s sent (ok u) own h =
      let s' = process_suspicion_timeouts later s in
      let g = gossip_updates world later s' in
      let told =
        gossip_to-IsElsewhere s' (select_gossip_targets world later s')
          (get_gossip_updates world later s') (gossip_targets-AllOther later s') in
      let same : s'.local_node.id ≡ local =
        ap (λ n. n.id)
          (fail_all-local later (expired_suspects later (suspicion_timeout s) s.members s.suspects)
            s)
        ∙ own in
      swept-IsElsewhere local later g.state (sent ++ g.sent) g.answer (told.0 ∙ same)
        (append-SentElsewhere local sent g.sent h (subst (λ l. SentElsewhere l g.sent) same told.1))

  after_ping-IsElsewhere :
      (local : NodeId) (now later : ℕ) (target : NodeInfo) (s : SwimMembership)
      (sent : List (NodeId × SwimMessage)) (r : Result (Unit {0}))
      → s.local_node.id ≡ local
      → SentElsewhere local sent
      → IsElsewhere local (after_ping world now later target s sent r)
  unfolding after_ping handle_ping_timeout
  after_ping-IsElsewhere local now later target s sent (ok u) own h =
      finish_round-IsElsewhere local later s sent (ok tt) own h
  after_ping-IsElsewhere local now later target s sent (err e) own h =
      let t = handle_ping_timeout world now later target s in
      let asked =
        ask_proxies-IsElsewhere now later target.id s
          (select_proxy_nodes world now target.id s.config.indirect_ping_count s)
          (proxies-AllOther now target.id s.config.indirect_ping_count s) in
      finish_round-IsElsewhere local later t.state (sent ++ t.sent) t.answer (asked.0 ∙ own)
        (append-SentElsewhere local sent t.sent h (subst (λ l. SentElsewhere l t.sent) own asked.1))

  encoded-Unpanicked :
      (now : ℕ) (target : NodeId) (message : SwimMessage) (s : SwimMembership) (e : Encoding)
      → (target == s.local_node.id) ≡ false
      → Unpanicked s.local_node.id (ping_encoded world now target message s e)
  unfolding ping_encoded
  encoded-Unpanicked now target message s (unencodable e) h = (refl, tt)
  encoded-Unpanicked now target message s (encoded bytes) h =
      pinged-Unpanicked now target message s (world.send now target bytes) h

  round_pinged-Unpanicked :
      (local : NodeId) (now later : ℕ) (target : NodeInfo) (o : Option (Outcome (Unit {0})))
      → Unpanicked local o
      → Unpanicked local (round_pinged world now later target o)
  unfolding round_pinged
  round_pinged-Unpanicked local now later target none h = tt
  round_pinged-Unpanicked local now later target (some o) h =
      after_ping-IsElsewhere local now later target o.state o.sent o.answer h.0 h.1

  round_at-Unpanicked :
      (now pinged_at later : ℕ) (s : SwimMembership) (target : Option NodeInfo)
      → ((n : NodeInfo) → target ≡ some n → (n.id == s.local_node.id) ≡ false)
      → Unpanicked s.local_node.id (round_at world now pinged_at later s target)
  unfolding round_at send_ping
  round_at-Unpanicked now pinged_at later s none h =
      finish_round-IsElsewhere s.local_node.id later s [] (ok tt) refl tt
  round_at-Unpanicked now pinged_at later s (some n) h =
      round_pinged-Unpanicked s.local_node.id pinged_at later n (send_ping world now n s) (
        encoded-Unpanicked now n.id (ping_message world now s) s
          (world.encode (ping_message world now s)) (h n refl))

  round-Unpanicked :
      (now pinged_at later : ℕ) (s : SwimMembership)
      → Unpanicked s.local_node.id (execute_protocol_round world now pinged_at later s)
  unfolding execute_protocol_round
  round-Unpanicked now pinged_at later s =
      let s' = record s { last_protocol_round = now } in
      elim (Bool-cases (ltb (now - s.last_protocol_round) s.config.protocol_period_ms)) [
        | inl early ↦ rw early (refl, tt)
        | inr due ↦ rw due (
            round_at-Unpanicked now pinged_at later s' (select_ping_target world now s')
              (target_other now s'))
      ]

-- Whatever the members, the random choices and the answers of the router are, a protocol round that
-- ends sends nothing to the node itself: neither a ping, nor a request to a proxy, nor gossip.
pub execute_protocol_round-SentElsewhere :
    (world : World) (now pinged_at later : ℕ) (s : SwimMembership) (o : Outcome (Unit {0}))
    → IsRandom world
    → execute_protocol_round world now pinged_at later s ≡ some o
    → SentElsewhere s.local_node.id o.sent
execute_protocol_round-SentElsewhere world now pinged_at later s o random e =
    (subst (Unpanicked s.local_node.id) e (round-Unpanicked world random now pinged_at later s)).1
