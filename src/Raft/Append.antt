-- ===== src/Raft/Append.antt =====
-- The AppendEntries RPC: src/raft/appendEntriesRPC.go.
pub mod Following
pub mod Answering
pub mod Refusing
use model_lib.Prelude.{true, false, not, ◌||◌, Option, none, some, List, [], ◌∷◌, if◌then◌else◌}
use model_lib.Prelude.Go.{Outcome, ok, ◌>>=◌}
use model_lib.Prelude.Int.{ℤ, ltb_ℤ}
use model_lib.Raft.Commit.{follower_update_commit_index, leader_update_commit_index}
use model_lib.Raft.FollowerLog.{follower_handle_log}
use model_lib.Raft.LeaderLog.{Request, leader_handle_log, request_for}
use model_lib.Raft.Persist.{Gob, persist}
use model_lib.Raft.Roles.{to_follower, others}
use model_lib.Raft.State.{is_leader, Raft, AppendEntriesArgs, AppendEntriesReply}

module _ {C : Type 0} ⦃g : Gob C⦄ where
  unfoldable pub append_entries_request_handler :
      ℤ → Raft C → AppendEntriesArgs C → AppendEntriesReply → Outcome (Raft C × AppendEntriesReply)
  append_entries_request_handler now rf args reply =
      if ltb_ℤ args.term rf.current_term
      then ok (persist rf, record reply { term = rf.current_term; success = false })
      else do
        handled ←
            follower_handle_log (record (to_follower args.term rf) { last_heartbeat_time = now })
              args (record reply { term = args.term; success = true; server_id = rf.me })
        if not handled.1.success then ok (persist handled.0, handled.1) else (do
          rf' ← follower_update_commit_index args.leader_commit handled.0
          ok (persist rf', handled.1))

  unfoldable pub append_entries_response_handler :
      Raft C → AppendEntriesArgs C → AppendEntriesReply → Outcome (Raft C)
  append_entries_response_handler rf args reply =
      if ltb_ℤ reply.term rf.current_term || ltb_ℤ args.term rf.current_term
      then ok (persist rf)
      else if ltb_ℤ rf.current_term reply.term
      then ok (persist (to_follower reply.term rf))
      else do rf' ← leader_handle_log rf args reply; ok (persist rf')

module _ {C : Type 0} where
  -- One request for each other server.
  unfoldable pub requests_for : Raft C → List ℤ → Outcome (List (ℤ × Request C))
  requests_for rf [] = ok []
  requests_for rf (s ∷ servers) = do
    request ← request_for rf s
    rest ← requests_for rf servers
    ok ((s, request) ∷ rest)

  unfoldable pub leader_send_append_entries_rpc : Raft C → Outcome (List (ℤ × Request C))
  unfolding requests_for
  leader_send_append_entries_rpc rf = requests_for rf (others rf)

module _ {C : Type 0} ⦃g : Gob C⦄ where
  -- One round of `leaderTicker`: `none` when the peer no longer leads.
  unfoldable pub leader_ticker_round : Raft C → Outcome (Raft C × Option (List (ℤ × Request C)))
  leader_ticker_round rf = if rf.dead || not (is_leader rf.role) then ok (rf, none) else do
    rf' ← leader_update_commit_index rf
    requests ← leader_send_append_entries_rpc rf'
    ok (rf', some requests)
