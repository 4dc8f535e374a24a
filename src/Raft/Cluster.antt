-- ===== src/Raft/Cluster.antt =====
-- A cluster of peers and the calls under way between them, run by a sequence of events: the callers in
-- src/raft/serverStateTrans.go, src/raft/requestVoteRPC.go, src/raft/appendEntriesRPC.go and
-- src/raft/installSnapshotRPC.go. A call is delivered at most once, in any order, or lost. The broadcast that
-- Start makes by itself is left to the next round of the leader's ticker.
pub mod Invariant
pub mod Recovery
pub mod Diverge
use model_lib.Prelude.{ℕ, Bool, Option, none, some, List, [], ◌∷◌, ◌++◌, map, if◌then◌else◌}
use model_lib.Prelude.Go.{Outcome, ok, ◌>>=◌, or_panic, get, put, slice_to, slice_from}
use model_lib.Prelude.Int.{ℤ, pos, inc}
use model_lib.Raft.Append.{append_entries_request_handler, leader_ticker_round}
use model_lib.Raft.Calls.{request_vote_call, append_entries_call, install_snapshot_call}
use model_lib.Raft.FollowerLog.{answer}
use model_lib.Raft.FollowerLog.Match.{taken}
use model_lib.Raft.LeaderLog.{Request}
use model_lib.Raft.Persist.{Gob}
use model_lib.Raft.Roles.{others, to_leader, ticker_round}
use model_lib.Raft.Service.{raft_start, make}
use model_lib.Raft.Snapshot.{install_snapshot_request_handler, raft_snapshot}
use model_lib.Raft.State.{
  Raft, RequestVoteArgs, RequestVoteReply, AppendEntriesArgs, AppendEntriesReply,
  InstallSnapshotArgs, InstallSnapshotReply, zero_vote_reply, zero_append_reply,
  zero_snapshot_reply,
}
use model_lib.Raft.Vote.{request_vote_request_handler}

-- What is on its way, with the number of the peer that it goes to. An answer of `none` is a call that
-- has failed.
pub data Message (C : Type 0) : Type 0 where
  vote_request : ℤ → RequestVoteArgs → Message C
  vote_reply : ℤ → RequestVoteArgs → Option RequestVoteReply → Message C
  -- The goroutine that has counted a majority and goes on to `toLeader`.
  won : ℤ → Message C
  append_request : ℤ → AppendEntriesArgs C → Message C
  append_reply : ℤ → AppendEntriesArgs C → Option AppendEntriesReply → Message C
  install_request : ℤ → InstallSnapshotArgs → Message C
  install_reply : ℤ → InstallSnapshotArgs → Option InstallSnapshotReply → Message C

pub record Cluster (C : Type 0) : Type 0 where
  pub peers : List (Raft C)
  pub sent : List (Message C)

-- `delivers n` and `loses n` are about the n-th message on its way.
pub data Event (C : Type 0) : Type 0 where
  ticks : ℕ → ℤ → ℕ → Event C
  delivers : ℕ → ℤ → Event C
  loses : ℕ → Event C
  broadcasts : ℕ → Event C
  submits : ℕ → C → Event C
  compacts : ℕ → ℤ → List ℕ → Event C
  crashes : ℕ → ℤ → ℕ → Event C

module _ {C : Type 0} where
  abbrev pub vote_requests : List ℤ → RequestVoteArgs → List (Message C)
  vote_requests [] args = []
  vote_requests (s ∷ servers) args = vote_request s args ∷ vote_requests servers args

  -- The election that a round of `ticker` has started, if any.
  abbrev pub campaign : Raft C → Option RequestVoteArgs → List (Message C)
  campaign rf none = []
  campaign rf (some args) = vote_requests (others rf) args

  abbrev pub to_message : ℤ × Request C → Message C
  to_message (server, Request.append_entries args) = append_request server args
  to_message (server, Request.install_snapshot args) = install_request server args

  abbrev pub broadcast_of : Option (List (ℤ × Request C)) → List (Message C)
  broadcast_of none = []
  broadcast_of (some requests) = map to_message requests

  -- A call that the network loses comes back as failed; a lost answer is a failed call too.
  abbrev pub lose : Message C → List (Message C)
  lose (vote_request server args) = vote_reply args.candidate_id args none ∷ []
  lose (vote_reply server args answer) = vote_reply server args none ∷ []
  lose (won server) = won server ∷ []
  lose (append_request server args) = append_reply args.leader_id args none ∷ []
  lose (append_reply server args answer) = append_reply server args none ∷ []
  lose (install_request server args) = install_reply args.leader_id args none ∷ []
  lose (install_reply server args answer) = install_reply server args none ∷ []

  -- One peer takes a step, which sends messages.
  unfoldable pub with_peer :
      ℤ → (Raft C → Outcome (Raft C × List (Message C))) → Cluster C → Outcome (Cluster C)
  with_peer i act q = do
    rf ← get q.peers i
    stepped ← act rf
    peers ← put q.peers i stepped.0
    ok (record { peers = peers; sent = q.sent ++ stepped.1 })

  abbrev pub if_elected : Bool → ℤ → List (Message C)
  if_elected elected server = if elected then won server ∷ [] else []

module _ {C : Type 0} ⦃g : Gob C⦄ where
  -- What a peer does with a message, and what it sends in answer.
  unfoldable pub receive : ℤ → Message C → Cluster C → Outcome (Cluster C)
  receive now (vote_request server args) = with_peer server λ rf.
      let (rf', reply) = request_vote_request_handler now rf args zero_vote_reply in
      ok (rf', vote_reply args.candidate_id args (some reply) ∷ [])
  receive now (vote_reply server args answer) = with_peer server λ rf.
      let (rf', elected) = request_vote_call answer rf args in ok (rf', if_elected elected server)
  receive now (won server) = with_peer server λ rf. do rf' ← to_leader rf; ok (rf', [])
  receive now (append_request server args) = with_peer server λ rf. do
    answered ← append_entries_request_handler now rf args zero_append_reply
    ok (answered.0, append_reply args.leader_id args (some answered.1) ∷ [])
  receive now (append_reply server args answer) =
      with_peer server λ rf. do rf' ← append_entries_call answer rf args; ok (rf', [])
  receive now (install_request server args) = with_peer server λ rf. do
    answered ← install_snapshot_request_handler now rf args zero_snapshot_reply
    ok (answered.0, install_reply args.leader_id args (some answered.1) ∷ [])
  receive now (install_reply server args answer) =
      with_peer server λ rf. do rf' ← install_snapshot_call answer rf args; ok (rf', [])

  -- The n-th message, and the cluster without it.
  abbrev pub take_message : ℕ → Cluster C → Outcome (Message C × Cluster C)
  take_message n q = do
    m ← get q.sent (pos n)
    before ← slice_to q.sent (pos n)
    after ← slice_from q.sent (inc (pos n))
    ok (m, record q { sent = before ++ after })

  -- A panic is also the answer to an event that cannot happen: no such peer or message.
  unfoldable pub happen : Event C → Cluster C → Outcome (Cluster C)
  unfolding inc
  happen (ticks i now random) q =
      with_peer (pos i)
        (λ rf. let (rf', args) = ticker_round now random rf in ok (rf', campaign rf' args)) q
  happen (delivers n now) q = do taken ← take_message n q; receive now taken.0 taken.1
  happen (loses n) q = do
    taken ← take_message n q
    ok (record taken.1 { sent = taken.1.sent ++ lose taken.0 })
  happen (broadcasts i) q =
      with_peer (pos i)
        (λ rf. do round ← leader_ticker_round rf; ok (round.0, broadcast_of round.1)) q
  happen (submits i command) q =
      with_peer (pos i) (λ rf. do answered ← raft_start command rf; ok (answered.0, [])) q
  happen (compacts i index bytes) q =
      with_peer (pos i) (λ rf. do rf' ← raft_snapshot index bytes rf; ok (rf', [])) q
  happen (crashes i now random) q =
      with_peer (pos i)
        (λ rf. do rf' ← or_panic (make now random rf.peers rf.me rf.persister); ok (rf', [])) q

  unfoldable pub run_events : List (Event C) → Cluster C → Outcome (Cluster C)
  run_events [] q = ok q
  run_events (e ∷ events) q = do q' ← happen e q; run_events events q'
