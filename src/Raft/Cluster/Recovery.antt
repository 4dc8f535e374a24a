-- ===== src/Raft/Cluster/Recovery.antt =====
-- What crashes lose in a cluster.
use model_lib.Prelude.{◌≡◌, List, All}
use model_lib.Prelude.Ensures.{ensured}
use model_lib.Prelude.Go.{ok}
use model_lib.Raft.Cluster.{Cluster, Event, run_events}
use model_lib.Raft.Cluster.Invariant.{run_events-Holds}
use model_lib.Raft.Peer.Durable.{Recovers, Happens-Recovers}
use model_lib.Raft.Persist.{Gob, GobLaws}

module _ {C : Type 0} ⦃g : Gob C⦄ where
  -- Let a crash of any peer of a cluster lose at most a term in which the peer has no vote, and let
  -- the encoding decode what it has encoded. Then after any events (elections, calls delivered in
  -- any order or lost, commands, snapshots, crashes) the same holds of every peer.
  pub run_events-Recovers :
      (laws : GobLaws g) (events : List (Event C)) (q q' : Cluster C)
      → All Recovers q.peers
      → run_events events q ≡ ok q'
      → All Recovers q'.peers
  run_events-Recovers laws events q q' h e =
      ensured (run_events-Holds Recovers (Happens-Recovers laws) events q h) q' e
