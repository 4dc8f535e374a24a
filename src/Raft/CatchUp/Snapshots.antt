-- ===== src/Raft/CatchUp/Snapshots.antt =====
-- A round in which the leader sends its snapshot: InstallSnapshotRequestHandler and
-- InstallSnapshotResponseHandler of src/raft/installSnapshotRPC.go.
use model_lib.Prelude.{◌≡◌}
use model_lib.Prelude.Go.{ok}
use model_lib.Prelude.Int.{ℤ, inc}
use model_lib.Raft.CatchUp.{Together}
use model_lib.Raft.LeaderLog.{install_snapshot, request_for}
use model_lib.Raft.LeaderLog.Asks.{snapshot_args}
use model_lib.Raft.Persist.{Gob}
use model_lib.Raft.Snapshot.{install_snapshot_request_handler, install_snapshot_response_handler}
use model_lib.Raft.State.{Raft, InstallSnapshotReply, zero_snapshot_reply}

module _ {C : Type 0} ⦃g : Gob C⦄ where
  -- The leader sends its snapshot, the follower takes it at time `now`, and the leader handles the
  -- answer.
  pub record SnapshotRound (now : ℤ) (led followed led' followed' : Raft C)
      (reply : InstallSnapshotReply) : Type 0 where
    pub asks : request_for led followed.me ≡ ok (install_snapshot (snapshot_args led))
    pub answers :
        install_snapshot_request_handler now followed (snapshot_args led) zero_snapshot_reply
        ≡ ok (followed', reply)
    pub handles : install_snapshot_response_handler led (snapshot_args led) reply ≡ ok led'
    pub same_log : led'.log ≡ led.log
    pub same_base : led'.snapshot_index ≡ led.snapshot_index
    pub base : followed'.snapshot_index ≡ led.snapshot_index
    pub together : Together led' followed' (inc led.snapshot_index)
