-- ===== src/Raft/Examples.antt =====
-- Concrete peers, requests and byte encoding, on which the theorems about src/raft are applied.
mod Data
mod Elections
mod Followers
mod Leaders
mod Snapshots
mod Restarts
mod Queues
mod Cluster
mod CatchUps
