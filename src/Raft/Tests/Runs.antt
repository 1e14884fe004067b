-- ===== src/Raft/Tests/Runs.antt =====
-- Runs, the state machine below the log, and timeouts: each theorem at a concrete input.
use mathlib.Core.List.{foldl}
use kaelix.Base.{ℕ, ◌≡◌, refl, false, List, [], ◌∷◌, some, arith, length, take}
use kaelix.Raft.Types.{ConsensusResult, ok, err, generic, leader, LogEntry, ClockReading}
use kaelix.Raft.Node.{RaftNode, new, is_election_timeout}
use kaelix.Raft.Election.{start_election}
use kaelix.Raft.Leader.{append_entry}
use kaelix.Raft.Apply.{apply_committed_entries}
use kaelix.Raft.Apply.Rounds.{applies_pending, failed_entry_is_skipped, pending}
use kaelix.Raft.Step.{Reach, here, next, elects, proposes}
use kaelix.Raft.Step.Invariant.{leader_append_only}
use kaelix.Raft.Timeouts.{InRange, is_election_timeout_cases}
use kaelix.Raft.Tests.{fresh, entry}

-- One of two committed entries is applied.
abbrev busy : RaftNode
busy = record fresh {
  log = entry 1 1 ∷ entry 1 2 ∷ entry 1 3 ∷ [];
  commit_index = 3;
  last_applied = 1;
}

-- A state machine that keeps the indices it was given, newest first.
abbrev keep : LogEntry → List ℕ → List ℕ × ConsensusResult (Unit {0})
keep e ks = (e.index ∷ ks, ok tt)

abbrev refuse : LogEntry → List ℕ → List ℕ × ConsensusResult (Unit {0})
refuse e ks = (ks, err (generic "disk full"))

applies_pending_example : (apply_committed_entries keep busy []).1 ≡ 3 ∷ 2 ∷ []
unfolding new
applies_pending_example = (applies_pending keep (λ e m. refl) busy [] (omega arith) (omega arith)).1

failed_entry_is_skipped_example :
    (apply_committed_entries keep (apply_committed_entries refuse busy []).0 []).1
    ≡ foldl (λ j d. (keep d j).0) [] (pending (apply_committed_entries refuse busy []).0)
unfolding new
failed_entry_is_skipped_example =
    (failed_entry_is_skipped refuse keep busy [] [] [] (entry 1 2) (generic "disk full")
      (λ d j. refl) (omega arith) (omega arith) refl refl).2

abbrev one_election : Reach fresh (start_election 7 fresh).0
one_election = next here (elects 7 (unfold new in omega arith))

abbrev head : RaftNode
head = record fresh { state = leader; current_leader = some 1; log = entry 0 1 ∷ [] }

abbrev clock : ClockReading
clock = record { instant = 5; system = 9; later = 6 }

leader_append_only_example :
    take (length head.log) (append_entry (4 ∷ []) clock head).0.log ≡ head.log
unfolding append_entry new
leader_append_only_example =
    ((leader_append_only {s = head} (proposes (4 ∷ []) clock)).0 refl refl).1

abbrev lowest : ℕ → ℕ → ℕ
lowest lo hi = lo

lowest-InRange : InRange lowest
lowest-InRange lo hi h = (omega arith, h)

-- A follower that heard of its leader at time 5 waits for 150 ms.
abbrev patient : RaftNode
patient = record fresh { last_heartbeat = some 5 }

is_election_timeout_cases_example : is_election_timeout lowest patient 150_000_005 ≡ false
unfolding new
is_election_timeout_cases_example =
    (is_election_timeout_cases lowest lowest-InRange patient 150_000_005 5 (omega arith)
        (omega arith)).2
      refl (omega arith)
