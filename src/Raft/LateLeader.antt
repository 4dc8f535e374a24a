-- ===== src/Raft/LateLeader.antt =====
-- toLeader takes the lock again after RequestVoteResponseHandler has released it
-- (src/raft/requestVoteRPC.go, src/raft/serverStateTrans.go): what an AppendEntries request in between does.
use model_lib.Prelude.{◌≡◌, refl, sym, ap, ◌∙◌, ◌≢◌, true, arith}
use model_lib.Prelude.Go.{ok, ok-injective}
use model_lib.Prelude.Int.{ℤ, ◌<ℤ◌, inc, parts_of_eq}
use model_lib.Raft.Append.{append_entries_request_handler}
use model_lib.Raft.Append.Answering.{append_entries_request-Obeys}
use model_lib.Raft.FollowerLog.{answer}
use model_lib.Raft.Persist.{Gob}
use model_lib.Raft.Roles.{to_leader}
use model_lib.Raft.State.{
  follower, leader, Raft, RequestVoteArgs, RequestVoteReply, AppendEntriesArgs, AppendEntriesReply,
}
use model_lib.Raft.Vote.{request_vote_response_handler}
use model_lib.Raft.Vote.Leader.{InRange, to_leader_lem, response-elected}
use model_lib.Raft.WellFormed.{IsWellFormed, Fits, IsWellFormed-same, Fits-same}

module _ {C : Type 0} ⦃g : Gob C⦄ where
  -- A candidate wins the election of its term. Before toLeader runs, a fitting AppendEntries request
  -- of a higher term is answered, which has made the peer a follower of that term. toLeader then
  -- makes the peer a leader of that term, in which it was not a candidate.
  pub late_leader :
      (now : ℤ) (rf rf' : Raft C) (vote : RequestVoteArgs) (answer : RequestVoteReply)
      (args : AppendEntriesArgs C) (reply reply' : AppendEntriesReply)
      → (request_vote_response_handler rf vote answer).1 ≡ true
      → IsWellFormed rf
      → Fits rf args
      → rf.current_term <ℤ args.term
      → append_entries_request_handler now
          (request_vote_response_handler rf vote answer).0
          args
          reply
        ≡ ok (rf', reply')
      → InRange rf'.me rf'.peers
      → (rf'.role ≡ follower)
        × ((led : Raft C) × (to_leader rf' ≡ ok led)
            × (led.role ≡ leader)
            × (led.current_term ≡ args.term)
            × (rf.current_term ≢ led.current_term))
  late_leader now rf rf' vote answer args reply reply' elected wf fits newer answers inside =
      let rf1 : Raft C = record rf { vote_cnt = inc rf.vote_cnt } in
      let state = response-elected rf vote answer elected in
      let wf1 : IsWellFormed rf1 = IsWellFormed-same _ _ refl refl refl wf in
      let fits1 : Fits rf1 args = Fits-same _ _ refl refl refl _ fits in
      let o = append_entries_request-Obeys now rf1 args reply wf1 fits1 (omega arith) in
      let same : (o.rf', o.reply') ≡ (rf', reply') = ok-injective (
        sym o.answers
        ∙ ap (λ r. append_entries_request_handler now r args reply) (sym state)
        ∙ answers) in
      let rf≡ : o.rf' ≡ rf' = ap (λ p. p.0) same in
      let term : rf'.current_term ≡ args.term =
        ap (λ (r : Raft C). r.current_term) (sym rf≡) ∙ o.term in
      let (led, run, leads, still, _, _, _, _, _) = to_leader_lem rf' inside in
      (
        ap (λ (r : Raft C). r.role) (sym rf≡) ∙ o.role,
        (
          led,
          run,
          leads,
          still ∙ term,
          λ e. omega (arith, parts_of_eq e, parts_of_eq (still ∙ term)),
        ),
      )
