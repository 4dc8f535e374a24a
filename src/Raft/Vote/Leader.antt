-- ===== src/Raft/Vote/Leader.antt =====
-- A peer that becomes leader: toLeader after RequestVoteResponseHandler.
use model_lib.Prelude.{
  ℕ, ◌<◌, ◌≡◌, refl, ◌∙◌, inr, true, false, List, arith, ltb, length, set, replicate, length-set,
  length-replicate,
}
use model_lib.Prelude.Go.{ok, put}
use model_lib.Prelude.Int.{ℤ, pos, negsuc, minus_one, inc, parts_of_eq}
use model_lib.Raft.Log.{get_last_log_index_and_term}
use model_lib.Raft.Persist.{Gob, persist}
use model_lib.Raft.Roles.{leading, to_leader}
use model_lib.Raft.State.{leader, Raft, RequestVoteArgs, RequestVoteReply}
use model_lib.Raft.Vote.{behind, request_vote_request_handler, request_vote_response_handler}
use model_lib.Raft.Vote.Grant.{request_vote-granted_iff}

-- `i` is a valid index of a slice of length `n`.
abbrev pub InRange : ℤ → ℕ → Type 0
InRange (pos i) n = i < n
InRange (negsuc i) n = ⊥

pub put-replicate {ℓ} :
    {A : Type ℓ} (n : ℕ) (a b : A) (i : ℤ)
    → InRange i n
    → (xs : List A) × (put (replicate n a) i b ≡ ok xs) × (length xs ≡ n)
put-replicate n a b (pos i) h =
    let e : ltb i (length (replicate n a)) ≡ true = ground (arith, length-replicate n a) in
    (set (replicate n a) i b, rw e, length-set (replicate n a) i b ∙ length-replicate n a)
put-replicate n a b (negsuc i) h = absurd h

module _ {C : Type 0} ⦃g : Gob C⦄ where
  -- A peer with a number in range becomes leader without a panic: of the term that it is in at
  -- that moment, whatever its role was, with the vote of that term given back, its log kept, and
  -- one slot per peer in both arrays.
  pub to_leader_lem :
      (rf : Raft C)
      → InRange rf.me rf.peers
      → (rf' : Raft C) × (to_leader rf ≡ ok rf')
        × (rf'.role ≡ leader)
        × (rf'.current_term ≡ rf.current_term)
        × (rf'.voted_for ≡ minus_one)
        × (rf'.log ≡ rf.log)
        × (get_last_log_index_and_term rf' ≡ get_last_log_index_and_term rf)
        × (length rf'.next_index ≡ rf.peers)
        × (length rf'.match_index ≡ rf.peers)
  unfolding to_leader persist get_last_log_index_and_term
  to_leader_lem rf h =
      let (xs, e, l) =
        put-replicate rf.peers minus_one (get_last_log_index_and_term rf).0 rf.me h in
      (
        leading rf xs,
        rw e,
        refl,
        refl,
        refl,
        refl,
        refl,
        length-replicate rf.peers (inc (get_last_log_index_and_term rf).0),
        l,
      )

  -- A peer that has just become leader, with a number in range, has its vote back: it grants a
  -- request of its own term from a candidate whose log is not behind.
  pub to_leader-votes_again :
      (now : ℤ) (rf rf' : Raft C) (args : RequestVoteArgs) (reply : RequestVoteReply)
      → InRange rf.me rf.peers
      → to_leader rf ≡ ok rf'
      → args.term ≡ rf.current_term
      → behind (get_last_log_index_and_term rf) args ≡ false
      → (request_vote_request_handler now rf' args reply).1.vote_granted ≡ true
  to_leader-votes_again now rf rf' args reply h led same ahead =
      let (l, e, _, term, vote, _, last, _, _) = to_leader_lem rf h in
      let l≡ : l ≡ rf' = cc in (request_vote-granted_iff now rf' args reply).1 (inr (cc, cc), cc)

  pub request_vote-role :
      (now : ℤ) (rf : Raft C) (args : RequestVoteArgs) (reply : RequestVoteReply)
      → args.term ≡ rf.current_term
      → (request_vote_request_handler now rf args reply).0.role ≡ rf.role
  unfolding request_vote_request_handler persist
  request_vote-role now rf args reply e = ground (arith, parts_of_eq e)

  pub response-elected :
      (rf : Raft C) (args : RequestVoteArgs) (reply : RequestVoteReply)
      → (request_vote_response_handler rf args reply).1 ≡ true
      → (request_vote_response_handler rf args reply).0 ≡ record rf { vote_cnt = inc rf.vote_cnt }
  unfolding request_vote_response_handler
  response-elected rf args reply h = ground arith
