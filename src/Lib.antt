-- ===== src/Lib.antt =====
-- A verification library for the Raft implementation of this repository, the Go package src/raft of
-- a course's labs on distributed systems, and for the clients of the services above it.
--
-- Parts of the program. A peer (`type Raft`, src/raft/raft.go) keeps its term, vote, log, commit
-- index, role and snapshot. Three RPCs connect the peers: RequestVote, AppendEntries and
-- InstallSnapshot, each with a request handler at the receiver and a response handler at the sender.
-- Two loops drive a peer: `ticker` starts elections, `leaderTicker` advances the leader's commit index
-- and broadcasts. The service uses a peer through Start, Snapshot, Make and the apply channel. The
-- persister is the peer's stable storage. The clerks of src/kvraft, src/shardctrler and src/shardkv send
-- a request to one server after another until one of them accepts it; shardkv's clerk asks the shard
-- controller for the group that serves a key. src/models states what a key/value store does.
-- src/labrpc is the network of the tests,
-- which drops and delays calls. src/main/mrsequential.go runs a MapReduce application, such as src/mrapps/wc.go, over its files.
--
-- Files, and the code that they are about:
--   Prelude            library names, tests, lists over the native numbers
--   Prelude/Int        Go's int
--   Prelude/Go         slices that panic out of range: `Outcome` is a value or a panic
--   Raft/State         LogEntry, ApplyMsg, Raft, Persister, RPC arguments and replies
--   Raft/Log           findIndex, getLastLogIndexAndTerm (src/raft/tools.go)
--   Raft/WellFormed    what holds of a peer between two handlers, and when a request fits a peer
--   Raft/Persist       src/raft/persister.go; persist, readPersist (src/raft/raft.go)
--   Raft/Roles         src/raft/serverStateTrans.go; GetState, Kill
--   Raft/Vote          src/raft/requestVoteRPC.go
--   Raft/FollowerLog   followerHandleLog (src/raft/logActivities.go)
--   Raft/LeaderLog     leaderHandleLog (src/raft/logActivities.go), the requests of
--                      leaderSendAppendEntriesRPC (src/raft/appendEntriesRPC.go)
--   Raft/Commit        leaderUpdateCommitIndex, followerUpdateCommitIndex, sendCommittedLogChannel
--   Raft/Append        src/raft/appendEntriesRPC.go
--   Raft/Snapshot      src/raft/installSnapshotRPC.go; Snapshot (src/raft/raft.go)
--   Raft/Service       Start, Make, putApplyChBuffer, getApplyChBuffer (src/raft/raft.go)
--   Raft/ApplyQueue    putApplyChBuffer and getApplyChBuffer as threads that share the buffer
--   Raft/Calls         the calls around sendRequestVote, sendAppendEntries, sendInstallSnapshot
--   Raft/Replication, Raft/FailedCall, Raft/LateLeader, Raft/StaleLeader   several handlers together
--   Raft/CatchUp        rounds between a leader and a lagging follower, until it has caught up
--   Raft/Peer          the life of one peer as a step relation, and what a crash can lose
--   Raft/Cluster       several peers with the calls between them, run by a sequence of events
--   KvRaft             the clerk of src/kvraft/client.go
--   ShardCtrler        the clerk of src/shardctrler/client.go
--   ShardKv            key2shard and the clerk of src/shardkv/client.go
--   Models             src/models/kv.go
--   Labrpc             src/labrpc/labrpc.go: the simulated network and its servers
--   MapReduce          src/main/mrsequential.go, ihash (src/mr/worker.go), src/mrapps/wc.go, src/mrapps/indexer.go
--   */Examples         concrete peers and clerks, on which the theorems are applied
-- A function keeps its Go name in snake case: `request_vote_request_handler` is
-- RequestVoteRequestHandler. A method takes the peer's state and returns the new one; a method that
-- can panic returns an `Outcome`. The branches of followerHandleLog have functions of their own.
--
-- Choices. Go's int is an unbounded integer, so that terms and indices do not wrap; they count
-- elections and log entries and stay far below 2^63. A reading of the clock and a random number are
-- arguments. Each handler runs under the peer's lock, and is one function; RequestVoteResponseHandler
-- releases the lock before toLeader, so that these are two. `go rf.putApplyChBuffer(..)` is recorded
-- in the field `apply_goroutines`; Raft/ApplyQueue takes such goroutines as threads, whose steps are
-- the stretches under the buffer's lock. The type of commands is a parameter. The bytes of encoding/gob
-- (package src/labgob) are a parameter `Gob`; `GobLaws` says that what was encoded is decoded again.
-- []byte and string are lists of numbers, where nil is the empty list. The loops of Raft are recursion
-- on the list or on the number of rounds that the code's own bound gives. The clerks' loops are endless
-- in the code, and run on fuel here: the theorems give the attempts or rounds after which they return.
-- What the network answers is an argument of a clerk's functions. The network of src/labrpc takes the
-- coins of rand as arguments, and its steps are the stretches under a lock; between two of them
-- everything else may change. A cluster is run by a list of events,
-- one for each stretch of the code under a peer's lock, but that a round of `ticker` or `leaderTicker`
-- is one event; the network delivers a call at most once, in any order, or fails it. The loop over the
-- sorted pairs of mrsequential.go has their number as fuel, which is enough. A MapReduce application,
-- the files and sort.Sort are parameters; what is read is ASCII, a rune for each byte.
--
-- Not modelled: goroutines other than those of the apply buffer and of the calls, printing
-- (src/raft/tools.go), the lengths of the delays and the byte counts of src/labrpc, the encoder's wrapper (src/labgob), the servers of
-- src/kvraft, src/shardctrler and src/shardkv and the coordinator and worker of src/mr, which are stubs,
-- the linearizability checker (src/porcupine), which is another project's library, the MapReduce
-- applications that only test (src/mrapps), the entry points (src/main), and all tests.
pub mod KvRaft
pub mod Labrpc
pub mod MapReduce
pub mod Models
pub mod Prelude
pub mod Raft
pub mod ShardCtrler
pub mod ShardKv
