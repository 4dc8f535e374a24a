-- ===== src/Raft/Calls.antt =====
-- A call to another peer and what is made of its reply: sendRequestVote, sendAppendEntries and
-- sendInstallSnapshot with the code around them. `answer` is what labrpc brings back, `none` where
-- `Call` returns false: the caller ignores that and hands on the zero reply that it has passed.
use model_lib.Prelude.{Bool, Option, none, some}
use model_lib.Prelude.Go.{Outcome}
use model_lib.Raft.Append.{append_entries_response_handler}
use model_lib.Raft.FollowerLog.{answer}
use model_lib.Raft.Persist.{Gob}
use model_lib.Raft.Snapshot.{install_snapshot_response_handler}
use model_lib.Raft.State.{
  Raft, RequestVoteArgs, RequestVoteReply, AppendEntriesArgs, AppendEntriesReply,
  InstallSnapshotArgs, InstallSnapshotReply, zero_vote_reply, zero_append_reply,
  zero_snapshot_reply,
}
use model_lib.Raft.Vote.{request_vote_response_handler}

abbrev pub reply_or : {A : Type 0} → Option A → A → A
reply_or none zero_reply = zero_reply
reply_or (some reply) zero_reply = reply

module _ {C : Type 0} where
  unfoldable pub request_vote_call :
      Option RequestVoteReply → Raft C → RequestVoteArgs → Raft C × Bool
  request_vote_call answer rf args =
      request_vote_response_handler rf args (reply_or answer zero_vote_reply)

module _ {C : Type 0} ⦃g : Gob C⦄ where
  unfoldable pub append_entries_call :
      Option AppendEntriesReply → Raft C → AppendEntriesArgs C → Outcome (Raft C)
  append_entries_call answer rf args =
      append_entries_response_handler rf args (reply_or answer zero_append_reply)

  unfoldable pub install_snapshot_call :
      Option InstallSnapshotReply → Raft C → InstallSnapshotArgs → Outcome (Raft C)
  install_snapshot_call answer rf args =
      install_snapshot_response_handler rf args (reply_or answer zero_snapshot_reply)
