-- ===== src/Raft/Examples/Snapshots.antt =====
-- Snapshots that a peer installs or takes.
use model_lib.Prelude.{ℕ, ◌≡◌, refl, [], ◌∷◌, arith}
use model_lib.Prelude.Go.{ok}
use model_lib.Prelude.Int.{pos, ◌-ℤ◌, inc}
use model_lib.Raft.Examples.Data.{
  number_gob, leading_peer, following_peer, leading_peer-IsWellFormed, following_peer-IsWellFormed,
}
use model_lib.Raft.Snapshot.{install_snapshot_request_handler, raft_snapshot}
use model_lib.Raft.Snapshot.Install.{InstallAnswer, install_snapshot_request-answers}
use model_lib.Raft.Snapshot.Own.{Compacts, raft_snapshot-Compacts}
use model_lib.Raft.State.{Raft, InstallSnapshotArgs, zero_snapshot_reply}

abbrev install_args : InstallSnapshotArgs
install_args = record {
  term = pos 2;
  leader_id = pos 0;
  last_included_index = pos 0;
  last_included_term = pos 1;
  snapshot = 7 ∷ [];
}

install_snapshot_request-answers_example :
    InstallAnswer
      (pos 9)
      following_peer
      install_args
      (install_snapshot_request_handler (pos 9) following_peer install_args zero_snapshot_reply)
install_snapshot_request-answers_example =
    install_snapshot_request-answers (pos 9) following_peer install_args zero_snapshot_reply
      following_peer-IsWellFormed
      (record { snapshot_term = λ e. cc; entry_term = ((λ e. refl), ((λ e. cc), tt)) })

-- The service of the leader has applied two commands and compacts the first.
raft_snapshot-Compacts_example :
    (rf' : Raft ℕ) × (raft_snapshot (pos 1) (7 ∷ []) leading_peer ≡ ok rf')
    × Compacts leading_peer (pos 1 -ℤ pos 1) (7 ∷ []) rf'
unfolding inc
raft_snapshot-Compacts_example =
    raft_snapshot-Compacts (pos 1) (7 ∷ []) leading_peer leading_peer-IsWellFormed (omega arith)
      (omega arith)
