-- ===== src/Raft/StaleLeader.antt =====
-- A leader that steps down in the middle of leaderTicker, or of Start: src/raft/serverStateTrans.go and
-- src/raft/appendEntriesRPC.go. The loop tests the role under one lock, and
-- leaderSendAppendEntriesRPC copies term, log and next indices under another.
use model_lib.Prelude.{
  ◌≡◌, refl, sym, ap, subst₂, ◌∙◌, true, false, not, List, [], ◌∷◌, arith, if_cases, ltb→lt, All,
}
use model_lib.Prelude.Ensures.{
  Ensures, ensured, Ensures-ok, Ensures-panic, Ensures-if, Ensures-then, Ensures-bind,
}
use model_lib.Prelude.Go.{ok, get, slice_from}
use model_lib.Prelude.Int.{ℤ, pos, minus_one, ◌-ℤ◌, ◌<ℤ◌, ltb_ℤ, ◌==ℤ◌, inc}
use model_lib.Raft.Append.{
  append_entries_request_handler, requests_for, leader_send_append_entries_rpc,
}
use model_lib.Raft.LeaderLog.{Request, request_for}
use model_lib.Raft.Log.{find_index}
use model_lib.Raft.Peer.Keeps.{
  LogOnly, SameTerm, follower_handle_log-LogOnly, follower_update_commit_index-SameTerm,
}
use model_lib.Raft.Persist.{Gob, persist}
use model_lib.Raft.Roles.{to_follower, others}
use model_lib.Raft.State.{follower, Raft, AppendEntriesArgs, AppendEntriesReply, zero_append_reply}

module _ {C : Type 0} where
  abbrev pub term_of : Request C → ℤ
  term_of (Request.append_entries args) = args.term
  term_of (Request.install_snapshot args) = args.term

  abbrev pub sender_of : Request C → ℤ
  sender_of (Request.append_entries args) = args.leader_id
  sender_of (Request.install_snapshot args) = args.leader_id

  -- A request names the sender as the leader of the sender's term, whatever its role is.
  abbrev pub NamesLeader : ℤ → ℤ → ℤ × Request C → Type 0
  NamesLeader me term (server, request) = (term_of request ≡ term) × (sender_of request ≡ me)

  request_for-NamesLeader :
      (rf : Raft C) (server : ℤ)
      → Ensures
          (λ request. NamesLeader rf.me rf.current_term (server, request))
          (request_for rf server)
  unfolding request_for
  request_for-NamesLeader rf server = Ensures-bind _ (get rf.next_index server) _ λ next.
      let prev = next -ℤ pos 1 in
      Ensures-if _ (ltb_ℤ prev rf.snapshot_index) _ _ (Ensures-ok _ _ (refl, refl)) (
        Ensures-if _ (prev ==ℤ rf.snapshot_index) _ _ (Ensures-ok _ _ (refl, refl)) (
          let i = find_index rf.log prev in
          Ensures-if _ (i ==ℤ minus_one) _ _ (Ensures-panic _ _) (
            Ensures-bind _ (get rf.log i) _ λ e.
              Ensures-bind _ (slice_from rf.log (inc i)) _ λ entries. Ensures-ok _ _ (refl, refl))))

  requests_for-NamesLeader :
      (rf : Raft C) (servers : List ℤ)
      → Ensures (All (NamesLeader rf.me rf.current_term)) (requests_for rf servers)
  unfolding requests_for
  requests_for-NamesLeader rf [] = Ensures-ok _ _ tt
  requests_for-NamesLeader rf (s ∷ servers) =
      Ensures-then (λ request. NamesLeader rf.me rf.current_term (s, request)) _ _ _
        (request_for-NamesLeader rf s)
        λ request named.
          Ensures-then (All (NamesLeader rf.me rf.current_term)) _ _ _
            (requests_for-NamesLeader rf servers) λ rest all. Ensures-ok _ _ (named, all)

  abbrev StepsDown : ℤ → ℤ → Raft C × AppendEntriesReply → Type 0
  StepsDown me term r = (r.0.role ≡ follower) × (r.0.current_term ≡ term) × (r.0.me ≡ me)

  abbrev IsDown : ℤ → ℤ → Raft C → Type 0
  IsDown me term rf = (rf.role ≡ follower) × (rf.current_term ≡ term) × (rf.me ≡ me)

  to_follower-IsDown :
      (term : ℤ) (rf : Raft C) → rf.current_term <ℤ term → IsDown rf.me term (to_follower term rf)
  unfolding to_follower
  to_follower-IsDown term rf newer =
      let steps : ltb_ℤ rf.current_term term ≡ true = ground arith in
      if_cases (IsDown rf.me term) (ltb_ℤ rf.current_term term) _ _ (λ _. (refl, refl, refl))
        (λ h. absurd (true-false (sym steps ∙ h)))
    where
      true-false : true ≡ false → ⊥
      true-false e = cc

module _ {C : Type 0} ⦃g : Gob C⦄ where
  request-StepsDown :
      (now : ℤ) (rf : Raft C) (args : AppendEntriesArgs C) (reply : AppendEntriesReply)
      → rf.current_term <ℤ args.term
      → Ensures (StepsDown rf.me args.term) (append_entries_request_handler now rf args reply)
  unfolding append_entries_request_handler persist
  request-StepsDown now rf args reply newer =
      let rf1 : Raft C = record (to_follower args.term rf) { last_heartbeat_time = now } in
      let down : IsDown rf.me args.term rf1 = to_follower-IsDown args.term rf newer in
      let P = Ensures (StepsDown rf.me args.term) in
      if_cases P (ltb_ℤ args.term rf.current_term) _ _
        (λ old. absurd (omega (arith, ltb→lt _ _ old)))
        λ _.
          Ensures-then (LogOnly rf1) _ _ _ (follower_handle_log-LogOnly rf1 args _) λ handled kept.
            let role = ap (λ (r : Raft C). r.role) kept.1 ∙ down.0 in
            let term = ap (λ (r : Raft C). r.current_term) kept.1 ∙ down.1 in
            let me = ap (λ (r : Raft C). r.me) kept.1 ∙ down.2 in
            Ensures-if _ (not handled.1.success) _ _ (Ensures-ok _ _ (role, term, me)) (
              Ensures-then (SameTerm handled.0) _ _ _
                (follower_update_commit_index-SameTerm args.leader_commit handled.0)
                λ rf' same. Ensures-ok _ _ (same.2 ∙ role, same.0 ∙ term, same.3 ∙ me))

  -- The round of a leader's ticker, and Start, test the role, and broadcast later under a lock of its
  -- own. If a request of a higher term is handled in between, the peer is a follower when it
  -- broadcasts, and all that it sends names it as the leader of that higher term.
  pub stale_leader-broadcasts :
      (now : ℤ) (rf rf' : Raft C) (args : AppendEntriesArgs C) (reply : AppendEntriesReply)
      (requests : List (ℤ × Request C))
      → rf.current_term <ℤ args.term
      → append_entries_request_handler now rf args zero_append_reply ≡ ok (rf', reply)
      → leader_send_append_entries_rpc rf' ≡ ok requests
      → (rf'.role ≡ follower) × All (NamesLeader rf.me args.term) requests
  unfolding leader_send_append_entries_rpc
  stale_leader-broadcasts now rf rf' args reply requests newer answers e =
      let (role, term, me) =
        ensured (request-StepsDown now rf args zero_append_reply newer) (rf', reply) answers in
      (
        role,
        subst₂ (λ m t. All (NamesLeader m t) requests) me term
            (ensured (requests_for-NamesLeader rf' (others rf')) requests e),
      )
