-- ===== src/Raft/Peer.antt =====
-- The life of one peer: whatever may happen to it next, each operation of src/raft as one step.
pub mod Keeps
pub mod Durable
use model_lib.Prelude.{ℕ, ◌≡◌, Bool, Option, some, List}
use model_lib.Prelude.Go.{ok}
use model_lib.Prelude.Int.{ℤ}
use model_lib.Raft.Append.{
  append_entries_request_handler, append_entries_response_handler, leader_ticker_round,
}
use model_lib.Raft.LeaderLog.{Request}
use model_lib.Raft.Persist.{Gob}
use model_lib.Raft.Roles.{kill, to_leader, ticker_round}
use model_lib.Raft.Service.{raft_start, put_apply_ch_buffer, get_apply_ch_buffer, make}
use model_lib.Raft.Snapshot.{
  install_snapshot_request_handler, install_snapshot_response_handler, raft_snapshot,
}
use model_lib.Raft.State.{
  ApplyMsg, Raft, RequestVoteArgs, RequestVoteReply, AppendEntriesArgs, AppendEntriesReply,
  InstallSnapshotArgs, InstallSnapshotReply, zero_vote_reply, zero_append_reply,
  zero_snapshot_reply,
}
use model_lib.Raft.Vote.{request_vote_request_handler, request_vote_response_handler}

module _ {C : Type 0} ⦃g : Gob C⦄ where
  -- A step is what the peer does while it holds its lock, or a crash with the restart after it.
  pub data Happens (rf rf' : Raft C) : Type 0 where
    ticked :
        (now : ℤ) (random : ℕ) (request : Option RequestVoteArgs)
        → ticker_round now random rf ≡ (rf', request)
        → Happens rf rf'
    vote_asked :
        (now : ℤ) (args : RequestVoteArgs) (reply : RequestVoteReply)
        → request_vote_request_handler now rf args zero_vote_reply ≡ (rf', reply)
        → Happens rf rf'
    vote_answered :
        (args : RequestVoteArgs) (reply : RequestVoteReply) (elected : Bool)
        → request_vote_response_handler rf args reply ≡ (rf', elected)
        → Happens rf rf'
    becomes_leader : to_leader rf ≡ ok rf' → Happens rf rf'
    append_asked :
        (now : ℤ) (args : AppendEntriesArgs C) (reply : AppendEntriesReply)
        → append_entries_request_handler now rf args zero_append_reply ≡ ok (rf', reply)
        → Happens rf rf'
    append_answered :
        (args : AppendEntriesArgs C) (reply : AppendEntriesReply)
        → append_entries_response_handler rf args reply ≡ ok rf'
        → Happens rf rf'
    install_asked :
        (now : ℤ) (args : InstallSnapshotArgs) (reply : InstallSnapshotReply)
        → install_snapshot_request_handler now rf args zero_snapshot_reply ≡ ok (rf', reply)
        → Happens rf rf'
    install_answered :
        (args : InstallSnapshotArgs) (reply : InstallSnapshotReply)
        → install_snapshot_response_handler rf args reply ≡ ok rf'
        → Happens rf rf'
    led_round :
        (requests : Option (List (ℤ × Request C)))
        → leader_ticker_round rf ≡ ok (rf', requests)
        → Happens rf rf'
    command_started :
        (command : C) (result : ℤ × ℤ × Bool)
        → raft_start command rf ≡ ok (rf', result)
        → Happens rf rf'
    log_compacted :
        (index : ℤ) (bytes : List ℕ) → raft_snapshot index bytes rf ≡ ok rf' → Happens rf rf'
    batch_buffered :
        (msgs : List (ApplyMsg C)) → put_apply_ch_buffer msgs rf ≡ some rf' → Happens rf rf'
    batch_applied :
        (msgs : List (ApplyMsg C)) → get_apply_ch_buffer rf ≡ some (rf', msgs) → Happens rf rf'
    was_killed : kill rf ≡ rf' → Happens rf rf'
    was_restarted :
        (now : ℤ) (random : ℕ)
        → make now random rf.peers rf.me rf.persister ≡ some rf'
        → Happens rf rf'

  pub data Lives : Raft C → Raft C → Type 0 where
    as_it_is : (rf : Raft C) → Lives rf rf
    goes_on : (rf rf' rf'' : Raft C) → Happens rf rf' → Lives rf' rf'' → Lives rf rf''
