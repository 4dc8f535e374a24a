-- ===== src/Raft/Vote/Grant.antt =====
-- When a vote is granted, and what a refusal leaves: RequestVoteRequestHandler.
use model_lib.Prelude.{◌≡◌, ◌≢◌, ◌↔◌, ◌⊎◌, inl, inr, true, false, arith, if◌then◌else◌, Bool-cases}
use model_lib.Prelude.Int.{ℤ, minus_one, ◌<ℤ◌, ltb_ℤ, eq_of_parts, parts_of_eq, parts_of_ne}
use model_lib.Raft.Log.{get_last_log_index_and_term}
use model_lib.Raft.Persist.{Gob, clone, save, persistent_state, persist}
use model_lib.Raft.Roles.{to_follower}
use model_lib.Raft.State.{Raft, RequestVoteArgs, RequestVoteReply}
use model_lib.Raft.Vote.{behind, request_vote_request_handler}

module _ {C : Type 0} ⦃g : Gob C⦄ where
  -- The peer has no vote left in the candidate's term.
  abbrev pub CanVote : Raft C → RequestVoteArgs → Type 0
  CanVote rf args =
      (rf.current_term <ℤ args.term) ⊎ ((rf.current_term ≡ args.term) × (rf.voted_for ≡ minus_one))

  -- The handler grants exactly when the term is not stale, the vote of that term is free and the
  -- candidate's log is not behind. The role of the peer does not matter.
  pub request_vote-granted_iff :
      (now : ℤ) (rf : Raft C) (args : RequestVoteArgs) (reply : RequestVoteReply)
      → ((request_vote_request_handler now rf args reply).1.vote_granted ≡ true)
        ↔ (CanVote rf args × (behind (get_last_log_index_and_term rf) args ≡ false))
  unfolding request_vote_request_handler to_follower get_last_log_index_and_term
  request_vote-granted_iff now rf args reply = (
    (λ h.
        ground (arith, eq_of_parts rf.current_term args.term, eq_of_parts rf.voted_for minus_one)),
    (λ h. ground (arith, eq_of_parts rf.current_term args.term)),
  )

  -- Whatever the answer, the handler keeps the log, the snapshot, the commit index and the index
  -- arrays; the term becomes the larger of the two and is the reply's term; a grant records the
  -- candidate and resets the election clock; and the result is on stable storage.
  pub request_vote-effect :
      (now : ℤ) (rf : Raft C) (args : RequestVoteArgs) (reply : RequestVoteReply)
      → let (rf', reply') = request_vote_request_handler now rf args reply in
        (rf'.log ≡ rf.log)
        × (rf'.commit_index ≡ rf.commit_index)
        × (rf'.snapshot_index ≡ rf.snapshot_index)
        × (rf'.current_term
            ≡ (if ltb_ℤ rf.current_term args.term then args.term else rf.current_term))
        × (reply'.term ≡ rf'.current_term)
        × (reply'.vote_granted ≡ true
            → (rf'.voted_for ≡ args.candidate_id) × (rf'.last_heartbeat_time ≡ now))
        × (rf'.persister.raftstate ≡ clone (g.encode (persistent_state rf')))
  unfolding request_vote_request_handler to_follower persist save
  request_vote-effect now rf args reply = (
    ground arith,
    ground arith,
    ground arith,
    ground arith,
    ground arith,
    (λ h. ground arith),
    ground arith,
  )

  -- A peer that has granted its vote in a term, to a candidate whose number is not -1, grants no
  -- other request of that term that it handles next.
  pub request_vote-once :
      (now later : ℤ) (rf : Raft C) (args other : RequestVoteArgs) (reply reply' : RequestVoteReply)
      → args.candidate_id ≢ minus_one
      → other.term ≡ args.term
      → (request_vote_request_handler now rf args reply).1.vote_granted ≡ true
      → (request_vote_request_handler later
          (request_vote_request_handler now rf args reply).0
          other
          reply').1.vote_granted
        ≡ false
  request_vote-once now later rf args other reply reply' valid same granted =
      let rf' = (request_vote_request_handler now rf args reply).0 in
      let effect = request_vote-effect now rf args reply in
      let first = (request_vote-granted_iff now rf args reply).0 granted in
      elim (Bool-cases (request_vote_request_handler later rf' other reply').1.vote_granted) [
        | inl again ↦
            let second = (request_vote-granted_iff later rf' other reply').0 again in
            absurd (
              ground (
                arith,
                second.0,
                first.0,
                effect.3,
                effect.5 granted,
                parts_of_eq same,
                parts_of_ne args.candidate_id minus_one valid,
              ))
        | inr refused ↦ refused
      ]
