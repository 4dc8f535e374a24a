-- ===== src/Raft/Vote.antt =====
-- Elections: src/raft/requestVoteRPC.go.
pub mod Grant
pub mod Count
pub mod Leader
pub mod TwoLeaders
use model_lib.Prelude.{◌+◌, ◌/◌, Bool, true, false, not, ◌&&◌, ◌||◌, if◌then◌else◌}
use model_lib.Prelude.Int.{ℤ, pos, minus_one, ltb_ℤ, leb_ℤ, ◌==ℤ◌, inc}
use model_lib.Raft.Log.{get_last_log_index_and_term}
use model_lib.Raft.Persist.{Gob, persist}
use model_lib.Raft.Roles.{to_follower}
use model_lib.Raft.State.{is_leader, is_candidate, Raft, RequestVoteArgs, RequestVoteReply}

-- The candidate's log is behind the voter's.
abbrev pub behind : ℤ × ℤ → RequestVoteArgs → Bool
behind (last_log_index, last_log_term) args =
    ltb_ℤ args.last_log_term last_log_term
    || (last_log_term ==ℤ args.last_log_term && ltb_ℤ args.last_log_index last_log_index)

module _ {C : Type 0} ⦃g : Gob C⦄ where
  unfoldable pub request_vote_request_handler :
      ℤ → Raft C → RequestVoteArgs → RequestVoteReply → Raft C × RequestVoteReply
  request_vote_request_handler now rf args reply =
      let rf1 = if ltb_ℤ rf.current_term args.term then to_follower args.term rf else rf in
      let cold : RequestVoteReply =
        if is_leader rf1.role
        then record reply { vote_granted = false; term = rf1.current_term }
        else reply in
      let refused = record cold { term = rf1.current_term; vote_granted = false } in
      if ltb_ℤ args.term rf1.current_term
      then (persist rf1, refused)
      else if not (rf1.voted_for ==ℤ minus_one)
      then (persist rf1, refused)
      else if behind (get_last_log_index_and_term rf1) args
      then (persist rf1, refused)
      else (
        persist (record rf1 { last_heartbeat_time = now; voted_for = args.candidate_id }),
        record cold { term = rf1.current_term; vote_granted = true },
      )

module _ {C : Type 0} where
  -- The first critical section. `true`: the code has released the lock and goes on with `toLeader`,
  -- which takes it again.
  unfoldable pub request_vote_response_handler :
      Raft C → RequestVoteArgs → RequestVoteReply → Raft C × Bool
  request_vote_response_handler rf args reply =
      if not (is_candidate rf.role)
      then (rf, false)
      else if ltb_ℤ reply.term rf.current_term || ltb_ℤ args.term rf.current_term
      then (rf, false)
      else if ltb_ℤ rf.current_term reply.term
      then (to_follower reply.term rf, false)
      else if reply.vote_granted
      then (
        record rf { vote_cnt = inc rf.vote_cnt },
        leb_ℤ (pos (rf.peers / 2 + 1)) (inc rf.vote_cnt),
      )
      else (rf, false)
