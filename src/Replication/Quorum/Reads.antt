-- ===== src/Replication/Quorum/Reads.antt =====
-- When a quorum operation succeeds, and what a read sees of an acknowledged write:
-- kaelix-storage/src/replication/quorum.rs.
use Prim.Native.String.{String}
use kaelix.Base.{
  ℕ, zero, suc, ◌+◌, ◌≤◌, ◌<◌, leb, ◌≡◌, refl, sym, ap, ◌∙◌, arith, ltb→lt, Bool, true, false, List,
  [], ◌∷◌, length, take, length-take, Option, none,
}
use kaelix.Base.Assoc.{contains}
use kaelix.Raft.Types.{NodeId}
use kaelix.Replication.Types.{Result, ok, err}
use kaelix.Replication.Quorum.{
  QuorumManager, Answer, answered, responses, responders, any_response, acknowledged, latest,
  data_of, selected, quorum_read, quorum_write,
}
use kaelix.Replication.Responses.{
  QuorumResult, ReadResponse, WriteResponse, supports_strong_consistency,
}
use kaelix.Replication.Quorum.Latest.{
  latest_sees, latest-none-IsOneOf, newest_of_all, responses-IsSeen, responses-HasAnswered,
}
use kaelix.Replication.Quorum.Overlap.{AllDistinct, IsWithin, overlap}

abbrev pub succeeded {ℓ} : {A : Type ℓ} → Result A → Bool
succeeded (ok a) = true
succeeded (err e) = false

module _ {ℓ} {A : Type ℓ} (ask : NodeId → Answer A) (good : A → Bool) where
  length-responses : (ks : List NodeId) → length (responses ask good ks) ≤ length ks
  unfolding responses
  length-responses [] = omega arith
  length-responses (k ∷ ks) = ground (arith, length-responses ks)

  length-responders : (rs : List (NodeId × A)) → length (responders rs) ≡ length rs
  length-responders [] = refl
  length-responders ((k, a) ∷ rs) = ap suc (length-responders rs)

  responders-IsWithin : (ks : List NodeId) → IsWithin (responders (responses ask good ks)) ks
  unfolding responses contains
  responders-IsWithin [] j h = h
  responders-IsWithin (k ∷ ks) j h = ground (arith, responders-IsWithin ks j)

  responders-AllDistinct :
      (ks : List NodeId) → AllDistinct ks → AllDistinct (responders (responses ask good ks))
  unfolding responses contains
  responders-AllDistinct [] h = tt
  responders-AllDistinct (k ∷ ks) h =
      ground (arith, responders-AllDistinct ks h.1, responders-IsWithin ks k)

length-selected : (m : QuorumManager) → length (selected m) ≤ length m.available_replicas
unfolding selected
length-selected m = ground (arith, length-take m.config.total_replicas m.available_replicas)

-- A read succeeds exactly when as many of the replicas that it asks answer in time as the read quorum
-- has, a write when as many acknowledge it in time as the write quorum has: the check on the number of
-- available replicas never fails an operation that would have its quorum.
succeeds_iff_quorum :
    (read_fn : NodeId → String → Answer ReadResponse)
    (write_fn : NodeId → String → List ℕ → Answer WriteResponse) (key : String) (value : List ℕ)
    (elapsed : ℕ) (m : QuorumManager)
    → (succeeded (quorum_read read_fn key elapsed m).1
        ≡ leb m.config.read_quorum
            (length (responses (λ k. read_fn k key) any_response (selected m))))
      × (succeeded (quorum_write write_fn key value elapsed m).1
          ≡ leb m.config.write_quorum
              (length (responses (λ k. write_fn k key value) acknowledged m.available_replicas)))
unfolding quorum_read quorum_write
succeeds_iff_quorum read_fn write_fn key value elapsed m = (
  ground
      (arith, length-responses (λ k. read_fn k key) any_response (selected m), length-selected m),
  ground (arith, length-responses (λ k. write_fn k key value) acknowledged m.available_replicas),
)

contains-take :
    (n : ℕ) (ks : List NodeId) (j : NodeId) → contains j (take n ks) ≡ true → contains j ks ≡ true
unfolding contains
contains-take zero ks j h = absurd (ground arith)
contains-take (suc n) [] j h = h
contains-take (suc n) (k ∷ ks) j h = ground (arith, contains-take n ks j)

take-AllDistinct : (n : ℕ) (ks : List NodeId) → AllDistinct ks → AllDistinct (take n ks)
take-AllDistinct zero ks h = tt
take-AllDistinct (suc n) [] h = tt
take-AllDistinct (suc n) (k ∷ ks) h =
    (ground (arith, h.0, contains-take n ks k), take-AllDistinct n ks h.1)

selected-IsWithin : (m : QuorumManager) → IsWithin (selected m) m.available_replicas
unfolding selected
selected-IsWithin m j h =
    ground (arith, contains-take m.config.total_replicas m.available_replicas j)

selected-AllDistinct :
    (m : QuorumManager) → AllDistinct m.available_replicas → AllDistinct (selected m)
unfolding selected
selected-AllDistinct m h =
    ground (arith, take-AllDistinct m.config.total_replicas m.available_replicas h)

write_ok :
    (write_fn : NodeId → String → List ℕ → Answer WriteResponse) (key : String) (value : List ℕ)
    (elapsed : ℕ) (m : QuorumManager) (acks : QuorumResult)
    → (quorum_write write_fn key value elapsed m).1 ≡ ok acks
    → (acks.responding_replicas
        ≡ responders (responses (λ k. write_fn k key value) acknowledged m.available_replicas))
      × (m.config.write_quorum
          ≤ length (responses (λ k. write_fn k key value) acknowledged m.available_replicas))
unfolding quorum_write
write_ok write_fn key value elapsed m acks h = ground arith

read_ok :
    (read_fn : NodeId → String → Answer ReadResponse) (key : String) (elapsed : ℕ)
    (m : QuorumManager) (value : Option (List ℕ)) (result : QuorumResult)
    → (quorum_read read_fn key elapsed m).1 ≡ ok (value, result)
    → (value ≡ data_of (latest none (responses (λ k. read_fn k key) any_response (selected m))))
      × (result.responding_replicas
          ≡ responders (responses (λ k. read_fn k key) any_response (selected m)))
      × (m.config.read_quorum ≤ length (responses (λ k. read_fn k key) any_response (selected m)))
unfolding quorum_read
read_ok read_fn key elapsed m value result h = ground arith

-- The available replicas are different ones of the replicas `us`.
abbrev pub AreReplicas : List NodeId → QuorumManager → Type 0
AreReplicas us m = AllDistinct m.available_replicas × IsWithin m.available_replicas us

-- Under a configuration that supports strong consistency a read that succeeds returns the data that
-- one of the replicas of its quorum answered; no replica of the quorum answered a newer version, and
-- the version is at least that of an acknowledged write, whatever replicas were available at either,
-- and whatever the others answer. The available replicas are different and among the configured number,
-- and a replica that acknowledged the write answers, if it does, with that version or a newer one.
pub read_sees_write :
    (read_fn : NodeId → String → Answer ReadResponse)
    (write_fn : NodeId → String → List ℕ → Answer WriteResponse) (key : String) (written : List ℕ)
    (before after version : ℕ) (us : List NodeId) (w r : QuorumManager) (acks result : QuorumResult)
    (value : Option (List ℕ))
    → supports_strong_consistency w.config ≡ true
    → r.config ≡ w.config
    → length us ≡ w.config.total_replicas
    → AreReplicas us w
    → AreReplicas us r
    → (quorum_write write_fn key written before w).1 ≡ ok acks
    → (quorum_read read_fn key after r).1 ≡ ok (value, result)
    → ((k : NodeId) (a : ReadResponse)
        → contains k acks.responding_replicas ≡ true
        → read_fn k key ≡ answered a
        → version ≤ a.version)
    → (k : NodeId) × (a : ReadResponse) × (contains k result.responding_replicas ≡ true)
      × (read_fn k key ≡ answered a)
      × (value ≡ a.value)
      × ((j : NodeId) (b : ReadResponse)
          → contains j result.responding_replicas ≡ true
          → read_fn j key ≡ answered b
          → b.version ≤ a.version)
      × (version ≤ a.version)
unfolding supports_strong_consistency
read_sees_write read_fn write_fn key written before after version us w r acks result value strong
      same size near far wrote read kept =
    let ask_write : NodeId → Answer WriteResponse = λ k. write_fn k key written in
    let ask_read : NodeId → Answer ReadResponse = λ k. read_fn k key in
    let ws = responders (responses ask_write acknowledged w.available_replicas) in
    let rs = responders (responses ask_read any_response (selected r)) in
    let (acked, enough) = write_ok write_fn key written before w acks wrote in
    let (found, responded, answers) = read_ok read_fn key after r value result read in
    let quorum : r.config.read_quorum ≡ w.config.read_quorum = ap (λ c. c.read_quorum) same in
    let many : length us < length ws + length rs = omega (
      arith,
      ltb→lt _ _ strong,
      length-responders ask_write acknowledged
          (responses ask_write acknowledged w.available_replicas),
      length-responders ask_read any_response (responses ask_read any_response (selected r)),
    ) in
    let (k, k_wrote, k_read) =
      overlap ws rs us (responders-AllDistinct ask_write acknowledged w.available_replicas near.0)
        (responders-AllDistinct ask_read any_response (selected r) (selected-AllDistinct r far.0))
        (λ j h. near.1 j (responders-IsWithin ask_write acknowledged w.available_replicas j h))
        (λ j h.
          far.1 j
            (selected-IsWithin r j (responders-IsWithin ask_read any_response (selected r) j h)))
        many in
    let seen =
      responses-IsSeen ask_read version (selected r) k
        (λ a e. kept k a (ap (contains k) acked ∙ k_wrote) e) k_read in
    let (a, newest, newer) =
      latest_sees version none (responses ask_read any_response (selected r)) seen in
    let (j, j_read, gave) =
      responses-HasAnswered ask_read a (selected r)
        (latest-none-IsOneOf a (responses ask_read any_response (selected r)) newest) in
    (
      j,
      a,
      ap (contains j) responded ∙ j_read,
      gave,
      found ∙ ap data_of newest,
      (λ i b i_read answer.
          newest_of_all ask_read a b i (selected r) newest
            (ap (contains i) (sym responded) ∙ i_read) answer),
      newer,
    )
