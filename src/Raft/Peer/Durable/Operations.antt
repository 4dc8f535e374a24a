-- ===== src/Raft/Peer/Durable/Operations.antt =====
-- What the operations of src/raft that end in `persist` do to the term and to stable storage.
use model_lib.Prelude.{
  ℕ, ◌≡◌, refl, ap, ◌⊎◌, inl, inr, Bool, not, ◌&&◌, ◌||◌, Option, List, arith, if◌then◌else◌,
  if_cases, Bool-cases, replicate,
}
use model_lib.Prelude.Ensures.{
  Ensures, Ensures-ok, Ensures-panic, Ensures-if, Ensures-then, Ensures-bind,
}
use model_lib.Prelude.Go.{get, put, slice_from}
use model_lib.Prelude.Int.{
  ℤ, pos, minus_one, ◌-ℤ◌, ◌≤ℤ◌, ltb_ℤ, leb_ℤ, ◌==ℤ◌, inc, inc_parts, parts_of_eq,
}
use model_lib.Raft.Append.{
  append_entries_request_handler, append_entries_response_handler, leader_send_append_entries_rpc,
  leader_ticker_round,
}
use model_lib.Raft.Commit.{leader_update_commit_index}
use model_lib.Raft.LeaderLog.{Request}
use model_lib.Raft.Log.{find_index, get_last_log_index_and_term}
use model_lib.Raft.Peer.Durable.Restore.{SameStored}
use model_lib.Raft.Peer.Keeps.{
  LogOnly, SameTerm, follower_handle_log-LogOnly, follower_update_commit_index-SameTerm,
  advance_commit-SameTerm, leader_handle_log-SameTerm, take_snapshot-SameTerm,
}
use model_lib.Raft.Persist.{Gob, persist}
use model_lib.Raft.Roles.{kill, to_follower, to_candidate, to_leader, ticker_round}
use model_lib.Raft.Service.{raft_start}
use model_lib.Raft.Snapshot.{
  recommit, install_snapshot_request_handler, install_snapshot_response_handler, own_snapshot,
  install_cur_rf_snapshot, raft_snapshot,
}
use model_lib.Raft.State.{
  is_leader, Raft, RequestVoteArgs, RequestVoteReply, AppendEntriesArgs, AppendEntriesReply,
  InstallSnapshotArgs, InstallSnapshotReply, go_put_apply_ch_buffer,
}
use model_lib.Raft.Vote.{behind, request_vote_request_handler}

module _ {C : Type 0} ⦃g : Gob C⦄ where
  -- A step that lowers no term, and stores the state unless it leaves it as it was.
  abbrev pub Kept : Raft C → Raft C → Type 0
  Kept rf rf' =
      (rf.current_term ≤ℤ rf'.current_term)
      × (((r : Raft C) × (rf' ≡ persist r)) ⊎ SameStored rf rf')

  Kept-persist : (rf r : Raft C) → rf.current_term ≤ℤ r.current_term → Kept rf (persist r)
  unfolding persist
  Kept-persist rf r le = (le, inl (r, refl))

  pub Kept-same : (rf : Raft C) → Kept rf rf
  Kept-same rf = (omega arith, inr (refl, refl, refl))

  pub to_follower-term :
      (term : ℤ) (rf : Raft C) → rf.current_term ≤ℤ (to_follower term rf).current_term
  unfolding to_follower
  to_follower-term term rf = ground arith

  Kept-if :
      {A : Type 0} (rf : Raft C) (b : Bool) (x y : Raft C × A)
      → Kept rf x.0
      → Kept rf y.0
      → Kept rf (if b then x else y).0
  Kept-if rf b x y h k = if_cases (λ r. Kept rf r.0) b x y (λ _. h) (λ _. k)

  pub term_later :
      (rf r r' : Raft C)
      → rf.current_term ≤ℤ r.current_term
      → r'.current_term ≡ r.current_term
      → rf.current_term ≤ℤ r'.current_term
  term_later rf r r' le e = omega (arith, parts_of_eq e)

  -- A result that is the peer with its term, stored.
  persisted : (rf r : Raft C) → r.current_term ≡ rf.current_term → Kept rf (persist r)
  persisted rf r e = Kept-persist rf r (term_later rf rf r (omega arith) e)

  pub ticker_round-Kept :
      (now : ℤ) (random : ℕ) (rf : Raft C) → Kept rf (ticker_round now random rf).0
  unfolding ticker_round to_candidate
  ticker_round-Kept now random rf = Kept-if rf (rf.dead || is_leader rf.role) _ _ (Kept-same rf) (
      Kept-if rf (ltb_ℤ rf.election_timeout (now -ℤ rf.last_heartbeat_time)) _ _
        (Kept-persist rf _ (omega (arith, inc_parts rf.current_term))) (Kept-same rf))

  pub request_vote-Kept :
      (now : ℤ) (rf : Raft C) (args : RequestVoteArgs) (reply : RequestVoteReply)
      → Kept rf (request_vote_request_handler now rf args reply).0
  unfolding request_vote_request_handler
  request_vote-Kept now rf args reply =
      let rf1 = if ltb_ℤ rf.current_term args.term then to_follower args.term rf else rf in
      let le : rf.current_term ≤ℤ rf1.current_term =
        elim (Bool-cases (ltb_ℤ rf.current_term args.term)) [
          | inl newer ↦ rw newer (to_follower-term args.term rf)
          | inr known ↦ rw known (omega arith)
        ] in
      Kept-if rf (ltb_ℤ args.term rf1.current_term) _ _ (Kept-persist rf rf1 le) (
        Kept-if rf (not (rf1.voted_for ==ℤ minus_one)) _ _ (Kept-persist rf rf1 le) (
          Kept-if rf (behind (get_last_log_index_and_term rf1) args) _ _ (Kept-persist rf rf1 le)
            (Kept-persist rf _ le)))

  pub to_leader-Kept : (rf : Raft C) → Ensures (Kept rf) (to_leader rf)
  unfolding to_leader
  to_leader-Kept rf =
      Ensures-bind _ (put (replicate rf.peers minus_one) rf.me _) _
        λ match_index. Ensures-ok _ _ (Kept-persist rf _ (omega arith))

  pub append_entries_request-Kept :
      (now : ℤ) (rf : Raft C) (args : AppendEntriesArgs C) (reply : AppendEntriesReply)
      → Ensures
          (λ (r : Raft C × AppendEntriesReply). Kept rf r.0)
          (append_entries_request_handler now rf args reply)
  unfolding append_entries_request_handler
  append_entries_request-Kept now rf args reply =
      let rf1 : Raft C = record (to_follower args.term rf) { last_heartbeat_time = now } in
      let le = to_follower-term args.term rf in
      Ensures-if _ (ltb_ℤ args.term rf.current_term) _ _
        (Ensures-ok _ _ (Kept-persist rf rf (omega arith)))
        (Ensures-then (LogOnly rf1) _ _ _ (follower_handle_log-LogOnly rf1 args _) λ handled kept.
          let le' = term_later rf rf1 handled.0 le (ap (λ (r : Raft C). r.current_term) kept.1) in
          Ensures-if _ (not handled.1.success) _ _ (Ensures-ok _ _ (Kept-persist rf handled.0 le'))
            (Ensures-then (SameTerm handled.0) _ _ _
              (follower_update_commit_index-SameTerm args.leader_commit handled.0)
              λ rf' same.
                Ensures-ok _ _ (Kept-persist rf rf' (term_later rf handled.0 rf' le' same.0))))

  -- The end of the three handlers of replies: the term that a newer reply names, or the caller's.
  pub append_entries_response-Kept :
      (rf : Raft C) (args : AppendEntriesArgs C) (reply : AppendEntriesReply)
      → Ensures (Kept rf) (append_entries_response_handler rf args reply)
  unfolding append_entries_response_handler
  append_entries_response-Kept rf args reply =
      Ensures-if _ (ltb_ℤ reply.term rf.current_term || ltb_ℤ args.term rf.current_term) _ _
        (Ensures-ok _ _ (persisted rf rf refl))
        (Ensures-if _ (ltb_ℤ rf.current_term reply.term) _ _
          (Ensures-ok _ _ (Kept-persist rf _ (to_follower-term reply.term rf)))
          (Ensures-then (SameTerm rf) _ _ _ (leader_handle_log-SameTerm rf args reply)
            λ rf' same. Ensures-ok _ _ (persisted rf rf' same.0)))

  pub install_snapshot_request-Kept :
      (now : ℤ) (rf : Raft C) (args : InstallSnapshotArgs) (reply : InstallSnapshotReply)
      → Ensures
          (λ (r : Raft C × InstallSnapshotReply). Kept rf r.0)
          (install_snapshot_request_handler now rf args reply)
  unfolding install_snapshot_request_handler
  install_snapshot_request-Kept now rf args reply =
      let rf1 : Raft C = record rf { last_heartbeat_time = now } in
      let rf2 = if ltb_ℤ rf1.current_term args.term then to_follower args.term rf1 else rf1 in
      let le : rf.current_term ≤ℤ rf2.current_term =
        elim (Bool-cases (ltb_ℤ rf.current_term args.term)) [
          | inl newer ↦ rw newer (to_follower-term args.term rf1)
          | inr known ↦ rw known (omega arith)
        ] in
      Ensures-if _
        (rf.snapshot_index ==ℤ args.last_included_index
          && not (rf.snapshot_term ==ℤ args.last_included_term))
        _ _ (Ensures-panic _ _)
        (Ensures-if _ (ltb_ℤ args.term rf.current_term) _ _ (Ensures-ok _ _ (persisted rf rf refl))
          (Ensures-if _ (leb_ℤ args.last_included_index rf.snapshot_index) _ _
            (Ensures-ok _ _ (persisted rf rf1 refl))
            (Ensures-then (SameTerm rf2) _ _ _ (take_snapshot-SameTerm rf2 args)
              λ rf3 same. Ensures-ok _ _ (Kept-persist rf rf3 (term_later rf rf2 rf3 le same.0)))))

  pub install_snapshot_response-Kept :
      (rf : Raft C) (args : InstallSnapshotArgs) (reply : InstallSnapshotReply)
      → Ensures (Kept rf) (install_snapshot_response_handler rf args reply)
  unfolding install_snapshot_response_handler
  install_snapshot_response-Kept rf args reply =
      Ensures-if _ (not (rf.current_term ==ℤ args.term) || ltb_ℤ reply.term rf.current_term) _ _
        (Ensures-ok _ _ (persisted rf rf refl))
        (Ensures-if _ (ltb_ℤ rf.current_term reply.term) _ _
          (Ensures-ok _ _ (Kept-persist rf _ (to_follower-term reply.term rf)))
          (Ensures-bind _ (get rf.match_index reply.server_id) _ λ matched.
            Ensures-if _ (leb_ℤ args.last_included_index matched) _ _
              (Ensures-ok _ _ (persisted rf rf refl))
              (Ensures-bind _ (put rf.next_index reply.server_id _) _ λ next_index.
                Ensures-bind _ (put rf.match_index reply.server_id _) _
                  λ match_index. Ensures-ok _ _ (persisted rf _ refl))))

  pub leader_ticker_round-Kept :
      (rf : Raft C)
      → Ensures
          (λ (r : Raft C × Option (List (ℤ × Request C))). Kept rf r.0)
          (leader_ticker_round rf)
  unfolding leader_ticker_round leader_update_commit_index
  leader_ticker_round-Kept rf =
      Ensures-if _ (rf.dead || not (is_leader rf.role)) _ _ (Ensures-ok _ _ (Kept-same rf)) (
        Ensures-then (Kept rf) _ _ _
          (Ensures-then (SameTerm rf) _ _ _ (advance_commit-SameTerm rf)
            λ rf' same. Ensures-ok _ _ (persisted rf rf' same.0))
          λ rf' kept.
            Ensures-bind _ (leader_send_append_entries_rpc rf') _ λ requests. Ensures-ok _ _ kept)

  pub raft_start-Kept :
      (command : C) (rf : Raft C)
      → Ensures (λ (r : Raft C × (ℤ × ℤ × Bool)). Kept rf r.0) (raft_start command rf)
  unfolding raft_start
  raft_start-Kept command rf =
      Ensures-if _ (not (is_leader rf.role)) _ _ (Ensures-ok _ _ (Kept-same rf)) (
        Ensures-bind _ (put rf.match_index rf.me _) _ λ match_index.
          Ensures-bind _ (put rf.next_index rf.me _) _
            λ next_index. Ensures-ok _ _ (persisted rf _ refl))

  pub raft_snapshot-Kept :
      (index : ℤ) (bytes : List ℕ) (rf : Raft C) → Ensures (Kept rf) (raft_snapshot index bytes rf)
  unfolding raft_snapshot install_cur_rf_snapshot go_put_apply_ch_buffer
  raft_snapshot-Kept index bytes rf =
      let i = find_index rf.log (index -ℤ pos 1) in
      Ensures-if _ (i ==ℤ minus_one) _ _ (Ensures-ok _ _ (persisted rf rf refl)) (
        Ensures-bind _ (get rf.log i) _ λ e. Ensures-bind _ (slice_from rf.log (inc i)) _ λ rest.
          Ensures-bind _ (recommit (own_snapshot rf bytes e rest)) _
            λ msgs. Ensures-ok _ _ (persisted rf _ refl))

  pub killed-Kept : (rf : Raft C) → Kept rf (kill rf)
  unfolding kill
  killed-Kept rf = (omega arith, inr (refl, refl, refl))
