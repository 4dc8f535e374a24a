-- ===== src/Raft/FollowerLog/FromStart.antt =====
-- followerHandleLog for a request from the very start of the leader's log, at a peer that has a
-- snapshot.
use model_lib.Prelude.{
  ◌≤◌, ◌≡◌, refl, ap, subst, ◌∙◌, inl, inr, true, false, List, [], ◌∷◌, arith, leb, if_true, length,
}
use model_lib.Prelude.Go.{ok}
use model_lib.Prelude.Int.{minus_one, ◌<ℤ◌, ltb_ℤ, ◌==ℤ◌, inc, parts_of_eq, int_laws}
use model_lib.Raft.FollowerLog.{answer, follower_handle_log}
use model_lib.Raft.FollowerLog.Cases.{step_start}
use model_lib.Raft.FollowerLog.Match.{taken, handle_match_lem}
use model_lib.Raft.Log.{find_index, get_last_log_index_and_term, find_index_cases}
use model_lib.Raft.Log.Contiguous.{Contiguous, last_index-le, FoundAt-above}
use model_lib.Raft.State.{LogEntry, Raft, AppendEntriesArgs, AppendEntriesReply}
use model_lib.Raft.WellFormed.{IsWellFormed, get_last-last_index}

module _ {C : Type 0} where
  -- A well-formed peer with a snapshot gets a request with PrevLogIndex -1, contiguous entries and
  -- at least as many of them as its log has. Without a panic it answers with success and has put the
  -- entries in the place of its log, which then starts at index 0 and no longer behind the snapshot:
  -- the peer is not well-formed any more.
  pub follower_handle_log-from_start :
      (rf : Raft C) (args : AppendEntriesArgs C) (reply : AppendEntriesReply) (e : LogEntry C)
      (es : List (LogEntry C))
      → IsWellFormed rf
      → minus_one <ℤ rf.snapshot_index
      → args.prev_log_index ≡ minus_one
      → args.entries ≡ e ∷ es
      → Contiguous minus_one args.entries
      → length rf.log ≤ length args.entries
      → let rf' : Raft C = record rf { log = args.entries } in
        (follower_handle_log rf args reply
          ≡ ok (rf', answer reply true minus_one minus_one (length args.entries)))
        × ¬ IsWellFormed rf'
  follower_handle_log-from_start rf args reply e es wf kept start entries from enough =
      let lost : find_index rf.log args.prev_log_index ≡ minus_one =
        elim (find_index_cases rf.log args.prev_log_index) [
          | inl (e, _) ↦ e
          | inr (k, _, f) ↦ absurd (
              omega (
                arith,
                FoundAt-above rf.snapshot_index args.prev_log_index rf.log k f wf.log_contiguous,
                parts_of_eq start,
              ))
        ] in
      let long : ltb_ℤ (get_last_log_index_and_term rf).0 args.prev_log_index ≡ false = ground (
        arith,
        parts_of_eq start,
        parts_of_eq (get_last-last_index rf),
        last_index-le rf.snapshot_index rf.log wf.log_contiguous,
      ) in
      let begins : (args.prev_log_index ==ℤ minus_one) ≡ true = ground (arith, parts_of_eq start) in
      let all : leb (length rf.log) (length args.entries) ≡ true = ground arith in
      let all_taken : taken rf.log args.entries ≡ args.entries = if_true _ _ all in
      (
        step_start rf args reply long begins lost
            ∙ handle_match_lem rf args minus_one reply [] rf.log refl (unfold inc in refl)
            ∙ ap
                (λ log.
                  ok (record rf { log = log }, answer reply true minus_one minus_one (length log)))
                all_taken,
        λ wf'. omega (
          int_laws,
          parts_of_eq (subst (Contiguous minus_one) entries from).0,
          parts_of_eq (subst (Contiguous rf.snapshot_index) entries wf'.log_contiguous).0,
        ),
      )
