-- ===== src/Replication/Quorum/Latest.antt =====
-- Which response a read takes among those of its quorum: kaelix-storage/src/replication/quorum.rs.
use mathlib.Core.Option.{some-injective}
use kaelix.Base.{
  ℕ, ◌≤◌, leb, ◌==◌, if◌then◌else◌, ◌≡◌, ◌⊎◌, inl, inr, refl, sym, ap, ◌∙◌, arith, subst, true,
  List, [], ◌∷◌, Option, none, some, Bool-cases,
}
use kaelix.Base.Assoc.{contains}
use kaelix.Raft.Types.{NodeId}
use kaelix.Replication.Quorum.{
  Answer, answered, refused, late, responses, keep_good, responders, any_response, latest,
}
use kaelix.Replication.Responses.{ReadResponse}

latest_keeps :
    (v : ℕ) (best : ReadResponse) (rs : List (NodeId × ReadResponse))
    → v ≤ best.version
    → (b : ReadResponse) × (latest (some best) rs ≡ some b) × (v ≤ b.version)
unfolding latest
latest_keeps v best [] h = (best, refl, h)
latest_keeps v best ((k, r) ∷ rs) h =
    latest_keeps v (if leb best.version r.version then r else best) rs (ground arith)

-- One of the responses is at least as new as the version `v`.
abbrev pub IsSeen : ℕ → List (NodeId × ReadResponse) → Type 0
IsSeen v [] = ⊥
IsSeen v ((k, r) ∷ rs) = (v ≤ r.version) ⊎ IsSeen v rs

pub latest_sees :
    (v : ℕ) (best : Option ReadResponse) (rs : List (NodeId × ReadResponse))
    → IsSeen v rs
    → (b : ReadResponse) × (latest best rs ≡ some b) × (v ≤ b.version)
unfolding latest
latest_sees v none [] h = absurd h
latest_sees v (some best) [] h = absurd h
latest_sees v none ((k, r) ∷ rs) (inl newer) = latest_keeps v r rs newer
latest_sees v (some best) ((k, r) ∷ rs) (inl newer) =
    latest_keeps v (if leb best.version r.version then r else best) rs (ground arith)
latest_sees v none ((k, r) ∷ rs) (inr seen) = latest_sees v (some r) rs seen
latest_sees v (some best) ((k, r) ∷ rs) (inr seen) =
    latest_sees v (some (if leb best.version r.version then r else best)) rs seen

-- The response `b` is one of them.
abbrev pub IsOneOf : ReadResponse → List (NodeId × ReadResponse) → Type 0
IsOneOf b [] = ⊥
IsOneOf b ((k, r) ∷ rs) = (r ≡ b) ⊎ IsOneOf b rs

latest-IsOneOf :
    (best b : ReadResponse) (rs : List (NodeId × ReadResponse))
    → latest (some best) rs ≡ some b
    → (best ≡ b) ⊎ IsOneOf b rs
unfolding latest
latest-IsOneOf best b [] e = inl (some-injective _ _ e)
latest-IsOneOf best b ((k, r) ∷ rs) e = elim (Bool-cases (leb best.version r.version)) [
  | inl newer ↦
      inr
        (latest-IsOneOf r b rs (ap (λ t. latest (some (if t then r else best)) rs) (sym newer) ∙ e))
  | inr older ↦
      elim (latest-IsOneOf best b rs
        (ap (λ t. latest (some (if t then r else best)) rs) (sym older) ∙ e)) [
          | inl same ↦ inl same
          | inr later ↦ inr (inr later)
        ]
]

pub latest-none-IsOneOf :
    (b : ReadResponse) (rs : List (NodeId × ReadResponse)) → latest none rs ≡ some b → IsOneOf b rs
unfolding latest
latest-none-IsOneOf b [] e = absurd (ground arith)
latest-none-IsOneOf b ((k, r) ∷ rs) e = latest-IsOneOf r b rs e

-- A node among the responders gave the response `b`.
abbrev pub HasAnswered :
    (NodeId → Answer ReadResponse) → ReadResponse → List (NodeId × ReadResponse) → Type 0
HasAnswered ask b rs = (k : NodeId) × (contains k (responders rs) ≡ true) × (ask k ≡ answered b)

module _ (ask : NodeId → Answer ReadResponse) (b : ReadResponse) where
  keep_good-HasAnswered :
      (k : NodeId) (a : Answer ReadResponse) (rest : List (NodeId × ReadResponse))
      → ask k ≡ a
      → (IsOneOf b rest → HasAnswered ask b rest)
      → IsOneOf b (keep_good ask any_response k a rest)
      → HasAnswered ask b (keep_good ask any_response k a rest)
  unfolding contains
  keep_good-HasAnswered k (answered r) rest e later (inl same) =
      (k, ground arith, e ∙ ap answered same)
  keep_good-HasAnswered k (answered r) rest e later (inr one) =
      let (j, found, gave) = later one in (j, ground arith, gave)
  keep_good-HasAnswered k (refused x) rest e later one = later one
  keep_good-HasAnswered k late rest e later one = later one

  pub responses-HasAnswered :
      (ks : List NodeId)
      → IsOneOf b (responses ask any_response ks)
      → HasAnswered ask b (responses ask any_response ks)
  unfolding responses
  responses-HasAnswered [] one = absurd one
  responses-HasAnswered (k ∷ ks) one =
      keep_good-HasAnswered k (ask k) (responses ask any_response ks) refl
        (responses-HasAnswered ks) one

module _ (ask : NodeId → Answer ReadResponse) (v : ℕ) where
  keep_good-IsSeen :
      (k : NodeId) (a : Answer ReadResponse) (rest : List (NodeId × ReadResponse)) (j : NodeId)
      → ((r : ReadResponse) → (k == j) ≡ true → a ≡ answered r → v ≤ r.version)
      → (contains j (responders rest) ≡ true → IsSeen v rest)
      → contains j (responders (keep_good ask any_response k a rest)) ≡ true
      → IsSeen v (keep_good ask any_response k a rest)
  unfolding contains
  keep_good-IsSeen k (answered r) rest j new later h = elim (Bool-cases (k == j)) [
    | inl same ↦ inl (new r same refl)
    | inr other ↦ inr (later (ground arith))
  ]
  keep_good-IsSeen k (refused e) rest j new later h = later h
  keep_good-IsSeen k late rest j new later h = later h

  pub responses-IsSeen :
      (ks : List NodeId) (j : NodeId)
      → ((r : ReadResponse) → ask j ≡ answered r → v ≤ r.version)
      → contains j (responders (responses ask any_response ks)) ≡ true
      → IsSeen v (responses ask any_response ks)
  unfolding responses contains
  responses-IsSeen [] j new h = absurd (ground arith)
  responses-IsSeen (k ∷ ks) j new h =
      keep_good-IsSeen k (ask k) (responses ask any_response ks) j
        (λ r same e. new r (ap ask (sym (ground arith)) ∙ e)) (responses-IsSeen ks j new) h

-- The response taken is the newest of the quorum.
pub newest_of_all :
    (ask : NodeId → Answer ReadResponse) (a b : ReadResponse) (j : NodeId) (ks : List NodeId)
    → latest none (responses ask any_response ks) ≡ some a
    → contains j (responders (responses ask any_response ks)) ≡ true
    → ask j ≡ answered b
    → b.version ≤ a.version
newest_of_all ask a b j ks newest j_read gave =
    let seen = responses-IsSeen ask b.version ks j (λ r e. ground arith) j_read in
    let (c, taken, newer) = latest_sees b.version none (responses ask any_response ks) seen in
    let same : c ≡ a = some-injective _ _ (sym taken ∙ newest) in
    subst (λ x. b.version ≤ x.version) same newer
