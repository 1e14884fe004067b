-- ===== src/Membership/Round/Elsewhere.antt =====
-- Messages that do not go to the node itself: lemmas on lists of recipients, and on the steps of a
-- round, of kaelix-cluster/src/membership/mod.rs.
use mathlib.Core.List.{Permᴰ, Memᴰ}
use kaelix.Base.{
  ℕ, zero, suc, ◌==◌, ◌≡◌, inl, inr, refl, sym, ap, subst, ◌∙◌, arith, Bool, true, false, List, [],
  ◌∷◌, ◌++◌, take, Option-cases,
}
use kaelix.Base.Assoc.{lookup}
use kaelix.Raft.Types.{NodeId}
use kaelix.Membership.Types.{Result, ok, err, NodeInfo, SwimMessage}
use kaelix.Membership.Swim.{
  SwimMembership, mark_suspect, fail_all, mark_failed, cleanup_expired_indirect_pings,
}
use kaelix.Membership.Round.{
  Outcome, Encoding, encoded, unencodable, candidates, proxy_candidates, to_all, waited,
  suspect_unless, spread, swept,
}

abbrev pub AllOther : NodeId → List NodeInfo → Type 0
AllOther local [] = Unit {0}
AllOther local (n ∷ ns) = ((n.id == local) ≡ false) × AllOther local ns

-- None of the messages goes to the node `local`.
abbrev pub SentElsewhere : NodeId → List (NodeId × SwimMessage) → Type 0
SentElsewhere local [] = Unit {0}
SentElsewhere local ((to, m) ∷ ms) = ((to == local) ≡ false) × SentElsewhere local ms

pub AllOther-Perm :
    (local : NodeId) {ns ms : List NodeInfo} → Permᴰ ns ms → AllOther local ns → AllOther local ms
AllOther-Perm local Permᴰ.nil h = h
AllOther-Perm local (Permᴰ.cons e p) h =
    (subst (λ n. (n.id == local) ≡ false) e h.0, AllOther-Perm local p h.1)
AllOther-Perm local (Permᴰ.swap e f) (h, (k, rest)) =
    (subst (λ n. (n.id == local) ≡ false) f k, (subst (λ n. (n.id == local) ≡ false) e h, rest))
AllOther-Perm local (Permᴰ.trans p q) h = AllOther-Perm local q (AllOther-Perm local p h)

pub AllOther-Mem :
    (local : NodeId) {n : NodeInfo} {ns : List NodeInfo}
    → Memᴰ n ns
    → AllOther local ns
    → (n.id == local) ≡ false
AllOther-Mem local (Memᴰ.head e) h = subst (λ n. (n.id == local) ≡ false) (sym e) h.0
AllOther-Mem local (Memᴰ.tail m) h = AllOther-Mem local m h.1

pub AllOther-take :
    (local : NodeId) (k : ℕ) (ns : List NodeInfo) → AllOther local ns → AllOther local (take k ns)
AllOther-take local zero ns h = tt
AllOther-take local (suc k) [] h = tt
AllOther-take local (suc k) (n ∷ ns) h = (h.0, AllOther-take local k ns h.1)

pub candidates-AllOther :
    (local : NodeId) (ns : List NodeInfo) → AllOther local (candidates local ns)
unfolding candidates
candidates-AllOther local [] = tt
candidates-AllOther local (n ∷ ns) = ground (arith, candidates-AllOther local ns)

pub proxy_candidates-AllOther :
    (local target : NodeId) (ns : List NodeInfo) → AllOther local (proxy_candidates local target ns)
unfolding proxy_candidates
proxy_candidates-AllOther local target [] = tt
proxy_candidates-AllOther local target (n ∷ ns) =
    ground (arith, proxy_candidates-AllOther local target ns)

to_all-SentElsewhere :
    (local : NodeId) (m : SwimMessage) (ns : List NodeInfo)
    → AllOther local ns
    → SentElsewhere local (to_all m ns)
to_all-SentElsewhere local m [] h = tt
to_all-SentElsewhere local m (n ∷ ns) h = (h.0, to_all-SentElsewhere local m ns h.1)

pub append-SentElsewhere :
    (local : NodeId) (ms ns : List (NodeId × SwimMessage))
    → SentElsewhere local ms
    → SentElsewhere local ns
    → SentElsewhere local (ms ++ ns)
append-SentElsewhere local [] ns h k = k
append-SentElsewhere local (m ∷ ms) ns h k = (h.0, append-SentElsewhere local ms ns h.1 k)

pub mark_suspect-local :
    (now : ℕ) (id : NodeId) (s : SwimMembership) → (mark_suspect now id s).local_node ≡ s.local_node
unfolding mark_suspect
mark_suspect-local now id s = elim (Option-cases (lookup id s.members)) [
  | inl missing ↦ rw missing refl
  | inr (n, found) ↦ ground arith
]

mark_failed-local :
    (now : ℕ) (id : NodeId) (s : SwimMembership) → (mark_failed now id s).local_node ≡ s.local_node
unfolding mark_failed
mark_failed-local now id s = elim (Option-cases (lookup id s.members)) [
  | inl missing ↦ rw missing refl
  | inr (n, found) ↦ rw found refl
]

pub fail_all-local :
    (now : ℕ) (ids : List NodeId) (s : SwimMembership)
    → (fail_all now ids s).local_node ≡ s.local_node
unfolding fail_all
fail_all-local now [] s = refl
fail_all-local now (k ∷ ids) s =
    fail_all-local now ids (mark_failed now k s) ∙ mark_failed-local now k s

-- A method keeps the local node, and sends elsewhere.
abbrev pub IsElsewhere {ℓ} : {A : Type ℓ} → NodeId → Outcome A → Type 0
IsElsewhere local o = (o.state.local_node.id ≡ local) × SentElsewhere local o.sent

pub spread-IsElsewhere :
    (s : SwimMembership) (message : SwimMessage) (targets : List NodeInfo) (e : Encoding)
    → AllOther s.local_node.id targets
    → IsElsewhere s.local_node.id (spread s message targets e)
spread-IsElsewhere s message targets (unencodable e) h = (refl, tt)
spread-IsElsewhere s message targets (encoded bytes) h =
    (refl, to_all-SentElsewhere s.local_node.id message targets h)

pub waited-IsElsewhere :
    (message : SwimMessage) (proxies : List NodeInfo) (r : ℕ) (s : SwimMembership) (e : Encoding)
    → AllOther s.local_node.id proxies
    → IsElsewhere s.local_node.id (waited message proxies r s e)
unfolding waited
waited-IsElsewhere message proxies r s (unencodable e) h = (refl, tt)
waited-IsElsewhere message proxies r s (encoded bytes) h =
    (refl, to_all-SentElsewhere s.local_node.id message proxies h)

pub suspect_unless-IsElsewhere :
    (local : NodeId) (now : ℕ) (target : NodeId) (s : SwimMembership)
    (sent : List (NodeId × SwimMessage)) (r : Result Bool)
    → s.local_node.id ≡ local
    → SentElsewhere local sent
    → IsElsewhere local (suspect_unless now target s sent r)
unfolding suspect_unless
suspect_unless-IsElsewhere local now target s sent (err e) own h = (own, h)
suspect_unless-IsElsewhere local now target s sent (ok true) own h = (own, h)
suspect_unless-IsElsewhere local now target s sent (ok false) own h =
    (ap (λ n. n.id) (mark_suspect-local now target s) ∙ own, h)

pub swept-IsElsewhere :
    (local : NodeId) (now : ℕ) (s : SwimMembership) (sent : List (NodeId × SwimMessage))
    (r : Result (Unit {0}))
    → s.local_node.id ≡ local
    → SentElsewhere local sent
    → IsElsewhere local (swept now s sent r)
unfolding swept cleanup_expired_indirect_pings
swept-IsElsewhere local now s sent (err e) own h = (own, h)
swept-IsElsewhere local now s sent (ok u) own h = (own, h)
