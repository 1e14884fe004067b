-- ===== src/Raft/Timeouts.antt =====
-- The election timeout: its range, and when a node finds it run out.
use kaelix.Base.{ℕ, ◌+◌, ◌≤◌, ◌<◌, ◌^◌, ◌≡◌, ◌≢◌, if◌then◌else◌, true, false, some, none, arith}
use kaelix.Raft.Types.{leader}
use kaelix.Raft.Node.{
  RaftNode, generate_election_timeout, is_election_timeout, is_candidate, as_millis, from_millis,
}

-- What is relied on of the random generator.
abbrev pub InRange : (ℕ → ℕ → ℕ) → Type 0
InRange gen_range = (lo hi : ℕ) → lo ≤ hi → (lo ≤ gen_range lo hi) × (gen_range lo hi ≤ hi)

module _ (gen_range : ℕ → ℕ → ℕ) (drawn : InRange gen_range) where
  -- The timeout lies between the minimum, rounded down to a millisecond, and the maximum.
  generate_election_timeout_range :
      (s : RaftNode)
      → s.config.election_timeout_min ≤ s.config.election_timeout_max
      → s.config.election_timeout_max < 2 ^ 64
      → (from_millis (as_millis s.config.election_timeout_min)
          ≤ generate_election_timeout gen_range s)
        × (generate_election_timeout gen_range s ≤ s.config.election_timeout_max)
  unfolding generate_election_timeout
  generate_election_timeout_range s h b = omega (
    arith,
    drawn (as_millis s.config.election_timeout_min) (as_millis s.config.election_timeout_max)
        (omega arith),
  )

  -- Whatever number in its range the generator draws, with a minimum that is not above the maximum and a
  -- maximum below 2^64 ns: a leader never times out; a follower that never heard of a leader does; one
  -- that did, at time `t`, does not within the minimum rounded down to a millisecond, and does beyond
  -- the maximum; and a candidate whose election began at time `t` does likewise.
  pub is_election_timeout_cases :
      (s : RaftNode) (now t : ℕ)
      → s.config.election_timeout_min ≤ s.config.election_timeout_max
      → s.config.election_timeout_max < 2 ^ 64
      → let heard = if is_candidate s then s.election_start else s.last_heartbeat in
        (s.state ≡ leader → is_election_timeout gen_range s now ≡ false)
        × (s.state ≢ leader → heard ≡ none → is_election_timeout gen_range s now ≡ true)
        × (heard ≡ some t
            → now ≤ t + from_millis (as_millis s.config.election_timeout_min)
            → is_election_timeout gen_range s now ≡ false)
        × (s.state ≢ leader
            → heard ≡ some t
            → t + s.config.election_timeout_max < now
            → is_election_timeout gen_range s now ≡ true)
  unfolding is_election_timeout
  is_election_timeout_cases s now t h b =
      let r = generate_election_timeout_range s h b in
      (ground arith, ground arith, ground arith, ground arith)
