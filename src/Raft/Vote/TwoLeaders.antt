-- ===== src/Raft/Vote/TwoLeaders.antt =====
-- An election of three peers in which two of them come to lead the same term.
use model_lib.Prelude.{ℕ, ◌+◌, ◌/◌, ◌≡◌, refl, sym, ap, subst₂, ◌∙◌, true, false, arith}
use model_lib.Prelude.Go.{ok}
use model_lib.Prelude.Int.{ℤ, pos, ◌≤ℤ◌, inc, inc_parts, parts_of_eq}
use model_lib.Raft.Log.{get_last_log_index_and_term}
use model_lib.Raft.Persist.{Gob, persist}
use model_lib.Raft.Roles.{to_candidate, to_leader}
use model_lib.Raft.State.{
  candidate, leader, Raft, RequestVoteArgs, RequestVoteReply, zero_vote_reply,
}
use model_lib.Raft.Vote.{behind, request_vote_request_handler, request_vote_response_handler}
use model_lib.Raft.Vote.Count.{request_vote_response-elected_iff}
use model_lib.Raft.Vote.Grant.{request_vote-granted_iff, request_vote-effect}
use model_lib.Raft.Vote.Leader.{
  InRange, to_leader_lem, to_leader-votes_again, request_vote-role, response-elected,
}

two_of_three :
    (peers : ℕ) (votes : ℤ) → peers ≡ 3 → votes ≡ pos 1 → pos (peers / 2 + 1) ≤ℤ inc votes
two_of_three peers votes e f = omega (arith, inc_parts votes, parts_of_eq f)

module _ {C : Type 0} ⦃g : Gob C⦄ where
  abbrev pub asked : ℤ → Raft C → RequestVoteArgs → Raft C × RequestVoteReply
  asked now rf args = request_vote_request_handler now rf args zero_vote_reply

  -- A granted request has moved the voter to the candidate's term, which the reply carries.
  pub granted-term :
      (now : ℤ) (rf : Raft C) (args : RequestVoteArgs)
      → (asked now rf args).1.vote_granted ≡ true
      → (asked now rf args).1.term ≡ args.term
  granted-term now rf args granted =
      let can = ((request_vote-granted_iff now rf args zero_vote_reply).0 granted).0 in
      let effect = request_vote-effect now rf args zero_vote_reply in
      effect.4 ∙ effect.3 ∙ ground (arith, can)

  pub to_candidate_lem :
      (now : ℤ) (random : ℕ) (rf : Raft C)
      → let (rf', args) = to_candidate now random rf in
        (rf'.role ≡ candidate)
        × (rf'.current_term ≡ inc rf.current_term)
        × (rf'.vote_cnt ≡ pos 1)
        × (rf'.peers ≡ rf.peers)
        × (rf'.me ≡ rf.me)
        × (get_last_log_index_and_term rf' ≡ get_last_log_index_and_term rf)
        × (args.term ≡ inc rf.current_term)
        × ((args.last_log_index, args.last_log_term) ≡ get_last_log_index_and_term rf)
  unfolding to_candidate persist get_last_log_index_and_term
  to_candidate_lem now random rf = (refl, refl, refl, refl, refl, refl, refl, refl)

  -- A candidate of a cluster of three that gets one vote for its term is elected.
  candidate-elected :
      (now later : ℤ) (random : ℕ) (rf voter : Raft C)
      → rf.peers ≡ 3
      → let (rf1, args) = to_candidate now random rf in
        (asked later voter args).1.vote_granted ≡ true
        → let (rf2, elected) = request_vote_response_handler rf1 args (asked later voter args).1 in
          (elected ≡ true)
          × (rf2.current_term ≡ inc rf.current_term)
          × (rf2.me ≡ rf.me)
          × (rf2.peers ≡ 3)
          × (get_last_log_index_and_term rf2 ≡ get_last_log_index_and_term rf)
  unfolding get_last_log_index_and_term
  candidate-elected now later random rf voter three granted =
      let (rf1, args) = to_candidate now random rf in
      let (voter', reply) = asked later voter args in
      let (role, term, cnt, peers, me, last, asked_term, _) = to_candidate_lem now random rf in
      let elected : (request_vote_response_handler rf1 args reply).1 ≡ true =
        (request_vote_response-elected_iff rf1 args reply).1 (
          role,
          granted-term later voter args granted ∙ asked_term ∙ sym term,
          omega (arith, parts_of_eq asked_term, parts_of_eq term),
          granted,
          two_of_three rf1.peers rf1.vote_cnt (peers ∙ three) cnt,
        ) in
      let state = response-elected rf1 args reply elected in
      (
        elected,
        ap (λ (r : Raft C). r.current_term) state ∙ term,
        ap (λ (r : Raft C). r.me) state ∙ me,
        ap (λ (r : Raft C). r.peers) state ∙ peers ∙ three,
        ap get_last_log_index_and_term state ∙ last,
      )

  -- Two leaders in one term. In a cluster of three, let `a` and `b` start an election in the same
  -- term, let `c` vote for `a`, and let `a` become leader before b's request reaches it. If b's log
  -- is not behind a's, then `a`, the leader, votes for `b`, and `b` becomes leader of the same term.
  pub two_leaders_one_term :
      (now : ℤ) (random : ℕ) (a b c : Raft C)
      → a.peers ≡ 3
      → b.peers ≡ 3
      → InRange a.me 3
      → InRange b.me 3
      → a.current_term ≡ b.current_term
      → let (a1, args_a) = to_candidate now random a in
        let (b1, args_b) = to_candidate now random b in
        (asked now c args_a).1.vote_granted ≡ true
        → behind (get_last_log_index_and_term a) args_b ≡ false
        → let a2 = (request_vote_response_handler a1 args_a (asked now c args_a).1).0 in
          (a3 : Raft C) × (to_leader a2 ≡ ok a3)
          × let b2 = (request_vote_response_handler b1 args_b (asked now a3 args_b).1).0 in
            (b3 : Raft C) × (to_leader b2 ≡ ok b3)
            × ((asked now a3 args_b).0.role ≡ leader)
            × (b3.role ≡ leader)
            × ((asked now a3 args_b).0.current_term ≡ b3.current_term)
  two_leaders_one_term now random a b c three_a three_b in_a in_b same granted ahead =
      let (a1, args_a) = to_candidate now random a in
      let (b1, args_b) = to_candidate now random b in
      let (_, term_a, me_a, peers_a, last_a) =
        candidate-elected now now random a c three_a granted in
      let a2 = (request_vote_response_handler a1 args_a (asked now c args_a).1).0 in
      let inside_a : InRange a2.me a2.peers = subst₂ InRange (sym me_a) (sym peers_a) in_a in
      let (a3, led_a, role_a, still_a, _, _, _, _, _) = to_leader_lem a2 inside_a in
      let same_b : args_b.term ≡ a2.current_term =
        (to_candidate_lem now random b).6 ∙ ap inc (sym same) ∙ sym term_a in
      let again =
        to_leader-votes_again now a2 a3 args_b zero_vote_reply inside_a led_a same_b
          (ap (λ l. behind l args_b) last_a ∙ ahead) in
      let (_, term_b, me_b, peers_b, _) = candidate-elected now now random b a3 three_b again in
      let b2 = (request_vote_response_handler b1 args_b (asked now a3 args_b).1).0 in
      let inside_b : InRange b2.me b2.peers = subst₂ InRange (sym me_b) (sym peers_b) in_b in
      let (b3, led_b, role_b, still_b, _, _, _, _, _) = to_leader_lem b2 inside_b in
      (
        a3,
        led_a,
        (
          b3,
          led_b,
          request_vote-role now a3 args_b zero_vote_reply (same_b ∙ sym still_a) ∙ role_a,
          role_b,
          sym (request_vote-effect now a3 args_b zero_vote_reply).4
              ∙ granted-term now a3 args_b again
              ∙ (to_candidate_lem now random b).6
              ∙ sym term_b
              ∙ sym still_b,
        ),
      )
