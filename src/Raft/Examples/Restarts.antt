-- ===== src/Raft/Examples/Restarts.antt =====
-- A crash and a restart of a peer with a snapshot.
use model_lib.Prelude.{ℕ, ◌≡◌, some}
use model_lib.Prelude.Int.{pos}
use model_lib.Raft.Examples.Data.{
  number_gob, number_gob-GobLaws, compacted_peer, compacted_peer-IsWellFormed,
}
use model_lib.Raft.Persist.{persist}
use model_lib.Raft.Service.{make}
use model_lib.Raft.Service.Restart.{Restarted, make-Restarted}
use model_lib.Raft.State.{Raft}

make-Restarted_example :
    (rf : Raft ℕ) × (make (pos 30) 50 3 (pos 2) (persist compacted_peer).persister ≡ some rf)
    × Restarted compacted_peer rf
make-Restarted_example =
    make-Restarted number_gob-GobLaws compacted_peer compacted_peer-IsWellFormed (pos 30) 50 3
      (pos 2)
