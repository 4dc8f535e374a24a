-- ===== src/Raft.antt =====
-- The Raft peer (src/raft).
pub mod State
pub mod Log
pub mod WellFormed
pub mod Persist
pub mod Roles
pub mod Vote
pub mod FollowerLog
pub mod LeaderLog
pub mod Commit
pub mod Append
pub mod Snapshot
pub mod Replication
pub mod CatchUp
pub mod Service
pub mod ApplyQueue
pub mod Calls
pub mod FailedCall
pub mod LateLeader
pub mod StaleLeader
pub mod Peer
pub mod Cluster
mod Examples
