-- ===== src/Raft/FailedCall.antt =====
-- RPCs that fail: the callers of src/raft/requestVoteRPC.go, src/raft/appendEntriesRPC.go and
-- src/raft/installSnapshotRPC.go ignore the result of `Call` and hand the zero reply to the handler.
use model_lib.Prelude.{◌≡◌, true, false, not, ◌||◌, none, arith}
use model_lib.Prelude.Go.{ok}
use model_lib.Prelude.Int.{pos, ◌<ℤ◌, ltb_ℤ, ◌==ℤ◌}
use model_lib.Raft.Append.{append_entries_response_handler}
use model_lib.Raft.Calls.{request_vote_call, append_entries_call, install_snapshot_call}
use model_lib.Raft.Persist.{Gob, persist}
use model_lib.Raft.Snapshot.{install_snapshot_response_handler}
use model_lib.Raft.State.{Raft, RequestVoteArgs, AppendEntriesArgs, InstallSnapshotArgs}
use model_lib.Raft.Vote.Count.{request_vote_response-failed_call}

module _ {C : Type 0} ⦃g : Gob C⦄ where
  -- In a positive term a call that fails is no answer: none of the three calls changes more than
  -- stable storage, whatever was asked.
  pub failed_call-ignored :
      (rf : Raft C) (vote : RequestVoteArgs) (append : AppendEntriesArgs C)
      (install : InstallSnapshotArgs)
      → pos 0 <ℤ rf.current_term
      → (request_vote_call none rf vote ≡ (rf, false))
        × (append_entries_call none rf append ≡ ok (persist rf))
        × (install_snapshot_call none rf install ≡ ok (persist rf))
  unfolding request_vote_call append_entries_call install_snapshot_call
      append_entries_response_handler install_snapshot_response_handler
  failed_call-ignored rf vote append install h =
      let old : ltb_ℤ (pos 0) rf.current_term ≡ true = ground arith in
      let unanswered : (not (rf.current_term ==ℤ install.term) || ltb_ℤ (pos 0) rf.current_term)
          ≡ true =
        ground arith in
      (request_vote_response-failed_call rf vote h, rw old, rw unanswered)
