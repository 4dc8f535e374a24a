-- ===== src/Raft/Roles.antt =====
-- The roles of a peer: src/raft/serverStateTrans.go, and GetState and Kill of src/raft/raft.go. A reading
-- of the clock is an argument `now`, a random number below 100 is an argument `random`.
use model_lib.Prelude.{
  ℕ, zero, suc, ◌+◌, Bool, true, ◌||◌, Option, none, some, List, [], ◌∷◌, if◌then◌else◌, replicate,
}
use model_lib.Prelude.Go.{Outcome, ok, ◌>>=◌, put}
use model_lib.Prelude.Int.{ℤ, pos, minus_one, ◌-ℤ◌, ltb_ℤ, ◌==ℤ◌, inc}
use model_lib.Raft.Log.{get_last_log_index_and_term}
use model_lib.Raft.Persist.{Gob, persist}
use model_lib.Raft.State.{follower, candidate, leader, is_leader, Raft, RequestVoteArgs}

-- The peers that a broadcast goes to: `for i := 0; i < len(rf.peers); i++`, without `rf.me`.
abbrev pub others_from : ℕ → ℕ → ℤ → List ℤ
others_from zero i me = []
others_from (suc n) i me =
    let rest = others_from n (suc i) me in if pos i ==ℤ me then rest else pos i ∷ rest

module _ {C : Type 0} where
  -- (currentTerm, role == leader)
  unfoldable pub get_state : Raft C → ℤ × Bool
  get_state rf = (rf.current_term, is_leader rf.role)

  unfoldable pub kill : Raft C → Raft C
  kill rf = record rf { dead = true }

  unfoldable pub to_follower : ℤ → Raft C → Raft C
  to_follower term rf =
      if ltb_ℤ rf.current_term term
      then record rf { role = follower; voted_for = minus_one; current_term = term }
      else record rf { role = follower }

  abbrev pub others : Raft C → List ℤ
  others rf = others_from rf.peers 0 rf.me

module _ {C : Type 0} ⦃g : Gob C⦄ where
  unfoldable pub to_candidate : ℤ → ℕ → Raft C → Raft C × RequestVoteArgs
  to_candidate now random rf =
      let rf1 = record rf {
        role = candidate;
        current_term = inc rf.current_term;
        voted_for = rf.me;
        vote_cnt = pos 1;
        election_timeout = pos (200 + random);
        last_heartbeat_time = now;
      } in
      let (last_log_index, last_log_term) = get_last_log_index_and_term rf1 in
      (
        persist rf1,
        record {
          term = rf1.current_term;
          candidate_id = rf1.me;
          last_log_index = last_log_index;
          last_log_term = last_log_term;
        },
      )

  -- The fields that toLeader writes, for the `matchIndex` that it has filled.
  abbrev pub leading : Raft C → List ℤ → Raft C
  leading rf match_index = persist (record rf {
    role = leader;
    next_index = replicate rf.peers (inc (get_last_log_index_and_term rf).0);
    match_index = match_index;
    voted_for = minus_one;
  })

  unfoldable pub to_leader : Raft C → Outcome (Raft C)
  to_leader rf = do
    match_index ← put (replicate rf.peers minus_one) rf.me (get_last_log_index_and_term rf).0
    ok (leading rf match_index)

  -- One round of `ticker`: `some` if the round starts an election.
  unfoldable pub ticker_round : ℤ → ℕ → Raft C → Raft C × Option RequestVoteArgs
  ticker_round now random rf =
      if rf.dead || is_leader rf.role
      then (rf, none)
      else if ltb_ℤ rf.election_timeout (now -ℤ rf.last_heartbeat_time)
      then (let (rf', args) = to_candidate now random rf in (rf', some args))
      else (rf, none)
