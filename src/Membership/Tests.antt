-- ===== src/Membership/Tests.antt =====
-- The membership tables, the suspicion timeouts and the protocol round: each theorem at a concrete
-- input.
use mathlib.Core.List.{Memᴰ}
use mathlib.Core.List.Permᴰ
use mathlib.Core.Option.{some-injective}
use kaelix.Base.{◌+◌, ◌<◌, ◌^◌, ◌≡◌, refl, sym, subst, List, [], ◌∷◌, Option, none, some, arith}
use kaelix.Base.Assoc.{lookup, insert, contains}
use kaelix.Base.Sets.{add}
use kaelix.Membership.Types.{
  ok, tcp, suspect, NodeInfo, new_info, default_config, membership, is_alive, update_status, ping,
}
use kaelix.Membership.Swim.{
  SwimMembership, new, add_member, mark_suspect, update_node_info, process_suspicion_timeouts,
  is_suspected, suspicion_timeout,
}
use kaelix.Membership.Swim.Steps.{joined, suspected}
use kaelix.Membership.Round.Steps.{here, next, changed, handled, Reach-IsConsistent}
use kaelix.Membership.Round.Handlers.{handle_swim_message, handle_ping}
use kaelix.Membership.Swim.Consistency.{IsConsistent}
use kaelix.Membership.Swim.Timeouts.{HasFailed, process_suspicion_timeouts_lem}
use kaelix.Membership.Swim.Suspects.{suspicion_passes, gossiped_suspect_never_fails}
use kaelix.Membership.Round.{
  World, Outcome, encoded, refused, quiet, handle_ping_timeout, execute_protocol_round,
}
use kaelix.Membership.Round.Suspicion.{HasTurnedSuspect, ping_timeout_suspects}
use kaelix.Membership.Round.Recipients.{IsRandom, execute_protocol_round-SentElsewhere}
use kaelix.Membership.Round.Elsewhere.{SentElsewhere}

abbrev local : NodeInfo
local = new_info 0 1 (tcp "10.0.0.1:7000")

abbrev peer : NodeInfo
peer = new_info 0 2 (tcp "10.0.0.2:7000")

abbrev third : NodeInfo
third = new_info 0 3 (tcp "10.0.0.3:7000")

abbrev pair : SwimMembership
pair = add_member peer (new 0 local default_config)

abbrev trio : SwimMembership
trio = add_member third pair

abbrev doubted : SwimMembership
doubted = mark_suspect 10 2 trio

room : (n : NodeInfo) → lookup 2 trio.members ≡ some n → n.incarnation + 1 < 2 ^ 64
unfolding new add_member insert lookup new_info
room n e = subst (λ m. m.incarnation + 1 < 2 ^ 64) (some-injective _ _ e) (omega arith)

-- The second node as the first suspects it.
abbrev shaky : NodeInfo
unfolding new_info
shaky = record peer { status = suspect; incarnation = 1; last_seen = some 10 }

process_suspicion_timeouts_lem_example : HasFailed 2 (process_suspicion_timeouts 16_000 doubted)
unfolding new add_member insert lookup new_info mark_suspect suspicion_timeout is_alive
    update_status is_suspected contains add
process_suspicion_timeouts_lem_example =
    (process_suspicion_timeouts_lem 16_000 10 2 shaky doubted refl refl refl (omega arith)).0
      (omega arith)

gossiped_suspect_never_fails_example :
    lookup 2
      (suspicion_passes (20_000 ∷ 1_000_000 ∷ []) (update_node_info 50 2 suspect 4 trio)).members
    ≡ some (record peer { status = suspect; incarnation = 4; last_seen = some 50 })
unfolding new add_member insert lookup new_info is_suspected contains
gossiped_suspect_never_fails_example =
    (gossiped_suspect_never_fails 50 (20_000 ∷ 1_000_000 ∷ []) 2 4 peer trio refl refl
      (omega arith)).0

abbrev first : List NodeInfo → Option NodeInfo
first [] = none
first (n ∷ ns) = some n

-- The first candidate is chosen, nothing is shuffled, and the router refuses every message.
abbrev cut_off : World
cut_off = record {
  choose = λ now ns. first ns;
  shuffle = λ now ns. ns;
  encode = λ m. encoded [];
  send = λ now to bytes. refused (membership "no route");
}

ping_timeout_suspects_example :
    HasTurnedSuspect peer 2 (handle_ping_timeout cut_off 1_000 6_000 peer trio).state
unfolding new add_member insert lookup new_info
ping_timeout_suspects_example =
    ping_timeout_suspects cut_off 1_000 6_000 peer peer [] trio refl refl refl (omega arith)

first-Mem : (ns : List NodeInfo) (n : NodeInfo) → first ns ≡ some n → Memᴰ n ns
first-Mem [] n e = absurd (ground arith)
first-Mem (m ∷ ns) n e = Memᴰ.head (sym (some-injective _ _ e))

cut_off-IsRandom : IsRandom cut_off
cut_off-IsRandom = record {
  shuffled = λ now ns. Permᴰ.refl ns;
  chosen = λ now ns n e. first-Mem ns n e;
}

-- What the round of a cut-off node sends: the ping, the request to the proxy and gossip.
abbrev round : Option (Outcome (Unit {0}))
round = execute_protocol_round cut_off 1_000 1_010 6_010 trio

ended : Option (Outcome (Unit {0})) → Outcome (Unit {0})
ended none = quiet trio (ok tt)
ended (some o) = o

execute_protocol_round-SentElsewhere_example : SentElsewhere 1 (ended round).sent
unfolding ended execute_protocol_round new add_member insert new_info
execute_protocol_round-SentElsewhere_example =
    execute_protocol_round-SentElsewhere cut_off 1_000 1_010 6_010 trio (ended round)
      cut_off-IsRandom refl

-- The ping of a suspected node, which repeats the gossip that it is suspect.
abbrev rumour : Outcome (Unit {0})
rumour = handle_ping cut_off 20 3 0 (shaky ∷ []) doubted

Reach-IsConsistent_example : IsConsistent rumour.state
unfolding new add_member insert lookup new_info handle_swim_message
Reach-IsConsistent_example = Reach-IsConsistent 0 local default_config (
    next
      (next (next (next here (changed (joined peer refl))) (changed (joined third refl)))
        (changed (suspected 10 2 room)))
      (handled cut_off 20 (ping 3 0 (shaky ∷ [])) rumour refl))
