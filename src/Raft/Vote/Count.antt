-- ===== src/Raft/Vote/Count.antt =====
-- What a candidate makes of the answers: RequestVoteResponseHandler.
use model_lib.Prelude.{◌+◌, ◌/◌, ◌≡◌, ◌↔◌, true, false, arith}
use model_lib.Prelude.Int.{pos, ◌≤ℤ◌, ◌<ℤ◌, inc, eq_of_parts, parts_of_eq}
use model_lib.Raft.State.{candidate, Raft, RequestVoteArgs, RequestVoteReply, zero_vote_reply}
use model_lib.Raft.Vote.{request_vote_response_handler}

module _ {C : Type 0} where
  -- An answer goes on to `toLeader` exactly when the peer is a candidate, the answer is a vote for
  -- the current term, the request was not of an older term, and the vote completes a majority.
  pub request_vote_response-elected_iff :
      (rf : Raft C) (args : RequestVoteArgs) (reply : RequestVoteReply)
      → ((request_vote_response_handler rf args reply).1 ≡ true) ↔ (
          (rf.role ≡ candidate)
          × (reply.term ≡ rf.current_term)
          × (rf.current_term ≤ℤ args.term)
          × (reply.vote_granted ≡ true)
          × (pos (rf.peers / 2 + 1) ≤ℤ inc rf.vote_cnt))
  unfolding request_vote_response_handler
  request_vote_response-elected_iff rf args reply = (
    (λ h. (
      ground arith,
      ground (arith, eq_of_parts reply.term rf.current_term),
      ground arith,
      ground arith,
      ground arith,
    )),
    (λ h. ground (arith, parts_of_eq h.1)),
  )

  -- The zero reply of a call that failed changes nothing, since a candidate's term is positive.
  pub request_vote_response-failed_call :
      (rf : Raft C) (args : RequestVoteArgs)
      → pos 0 <ℤ rf.current_term
      → request_vote_response_handler rf args zero_vote_reply ≡ (rf, false)
  unfolding request_vote_response_handler
  request_vote_response-failed_call rf args h = ground arith
