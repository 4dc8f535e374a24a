-- ===== src/Raft/Peer/Durable/Effects.antt =====
-- What each step of a peer does to its term and its stable storage.
use model_lib.Prelude.{◌≡◌, refl, ap, subst, inr, Bool, true, not, ◌||◌, arith, if_cases, ltb→lt}
use model_lib.Prelude.Ensures.{ensured}
use model_lib.Prelude.Int.{minus_one, ◌<ℤ◌, ltb_ℤ}
use model_lib.Raft.Peer.{Happens}
use model_lib.Raft.Peer.Durable.Operations.{
  Kept, Kept-same, term_later, ticker_round-Kept, request_vote-Kept, to_leader-Kept,
  append_entries_request-Kept, append_entries_response-Kept, install_snapshot_request-Kept,
  install_snapshot_response-Kept, leader_ticker_round-Kept, raft_start-Kept, raft_snapshot-Kept,
  killed-Kept,
}
use model_lib.Raft.Peer.Durable.Restore.{
  SameStored, unborn, IsDurable, put_apply_ch_buffer-SameStored, get_apply_ch_buffer-SameStored,
  make-IsDurable,
}
use model_lib.Raft.Persist.{Gob, persistent_state}
use model_lib.Raft.Roles.{to_follower}
use model_lib.Raft.Service.{reread}
use model_lib.Raft.State.{
  Role, follower, candidate, leader, is_candidate, Raft, RequestVoteArgs, RequestVoteReply,
  zero_vote_reply,
}
use model_lib.Raft.Vote.{request_vote_response_handler}

is_candidate→≡ : (r : Role) → is_candidate r ≡ true → r ≡ candidate
is_candidate→≡ follower h = cc
is_candidate→≡ candidate h = refl
is_candidate→≡ leader h = cc

module _ {C : Type 0} ⦃g : Gob C⦄ where
  -- A candidate has taken over a higher term, given its vote back and stored nothing.
  abbrev pub Unstored : Raft C → Raft C → Type 0
  Unstored rf rf' =
      (rf.role ≡ candidate)
      × (rf.current_term <ℤ rf'.current_term)
      × (rf'
          ≡ record rf { role = follower; voted_for = minus_one; current_term = rf'.current_term })

  -- What a step does to stable storage.
  pub data Effect (rf rf' : Raft C) : Type 0 where
    stores : Kept rf rf' → Effect rf rf'
    forgets : Unstored rf rf' → Effect rf rf'
    rereads :
        IsDurable rf'
        → persistent_state rf' ≡ persistent_state (reread rf.persister unborn)
        → Effect rf rf'

  vote_answered-Effect :
      (rf : Raft C) (args : RequestVoteArgs) (reply : RequestVoteReply)
      → Effect rf (request_vote_response_handler rf args reply).0
  unfolding request_vote_response_handler to_follower
  vote_answered-Effect rf args reply =
      let P = λ (r : Raft C × Bool). Effect rf r.0 in
      let same : Effect rf rf = stores (Kept-same rf) in
      if_cases P (not (is_candidate rf.role)) _ _ (λ _. same)
        λ asking.
          if_cases P (ltb_ℤ reply.term rf.current_term || ltb_ℤ args.term rf.current_term) _ _
            (λ _. same)
            λ _.
              if_cases P (ltb_ℤ rf.current_term reply.term) _ _
                (λ newer.
                  rw newer
                    (forgets (is_candidate→≡ rf.role (ground arith), ltb→lt _ _ newer, refl)))
                λ _.
                  if_cases P reply.vote_granted _ _
                    (λ _. stores (omega arith, inr (refl, refl, refl))) (λ _. same)

  buffers-Effect : (rf rf' : Raft C) → SameStored rf rf' → Effect rf rf'
  buffers-Effect rf rf' same =
      stores (term_later rf rf rf' (omega arith) (ap (λ s. s.current_term) same.1), inr same)

  pub Happens-Effect : (rf rf' : Raft C) → Happens rf rf' → Effect rf rf'
  Happens-Effect rf rf' (Happens.ticked now random request e) =
      stores (subst (Kept rf) (ap (λ r. r.0) e) (ticker_round-Kept now random rf))
  Happens-Effect rf rf' (Happens.vote_asked now args reply e) =
      stores (subst (Kept rf) (ap (λ r. r.0) e) (request_vote-Kept now rf args zero_vote_reply))
  Happens-Effect rf rf' (Happens.vote_answered args reply elected e) =
      subst (Effect rf) (ap (λ r. r.0) e) (vote_answered-Effect rf args reply)
  Happens-Effect rf rf' (Happens.becomes_leader e) = stores (ensured (to_leader-Kept rf) _ e)
  Happens-Effect rf rf' (Happens.append_asked now args reply e) =
      stores (ensured (append_entries_request-Kept now rf args _) _ e)
  Happens-Effect rf rf' (Happens.append_answered args reply e) =
      stores (ensured (append_entries_response-Kept rf args reply) _ e)
  Happens-Effect rf rf' (Happens.install_asked now args reply e) =
      stores (ensured (install_snapshot_request-Kept now rf args _) _ e)
  Happens-Effect rf rf' (Happens.install_answered args reply e) =
      stores (ensured (install_snapshot_response-Kept rf args reply) _ e)
  Happens-Effect rf rf' (Happens.led_round requests e) =
      stores (ensured (leader_ticker_round-Kept rf) _ e)
  Happens-Effect rf rf' (Happens.command_started command result e) =
      stores (ensured (raft_start-Kept command rf) _ e)
  Happens-Effect rf rf' (Happens.log_compacted index bytes e) =
      stores (ensured (raft_snapshot-Kept index bytes rf) _ e)
  Happens-Effect rf rf' (Happens.batch_buffered msgs e) =
      buffers-Effect rf rf' (put_apply_ch_buffer-SameStored msgs rf rf' e)
  Happens-Effect rf rf' (Happens.batch_applied msgs e) =
      buffers-Effect rf rf' (get_apply_ch_buffer-SameStored msgs rf rf' e)
  Happens-Effect rf rf' (Happens.was_killed e) = stores (subst (Kept rf) e (killed-Kept rf))
  Happens-Effect rf rf' (Happens.was_restarted now random e) =
      let (durable, read) = make-IsDurable now random rf.peers rf.me rf.persister rf' e in
      rereads durable read
