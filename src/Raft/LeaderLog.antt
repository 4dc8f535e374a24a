-- ===== src/Raft/LeaderLog.antt =====
-- leaderHandleLog of src/raft/logActivities.go, and the requests that leaderSendAppendEntriesRPC of
-- src/raft/appendEntriesRPC.go builds.
pub mod Asks
pub mod Handles
pub mod BackUp
pub mod Refused
use model_lib.Prelude.{ℕ, zero, suc, not, List, if◌then◌else◌, length}
use model_lib.Prelude.Go.{
  should_found_prev_log_index, Outcome, ok, panic, ◌>>=◌, get, put, slice_from,
}
use model_lib.Prelude.Int.{ℤ, pos, minus_one, ◌+ℤ◌, ◌-ℤ◌, ltb_ℤ, ◌==ℤ◌, inc}
use model_lib.Raft.Log.{find_index}
use model_lib.Raft.State.{
  LogEntry, Raft, AppendEntriesArgs, AppendEntriesReply, InstallSnapshotArgs,
}

pub data Request (C : Type 0) : Type 0 where
  append_entries : AppendEntriesArgs C → Request C
  install_snapshot : InstallSnapshotArgs → Request C

module _ {C : Type 0} where
  -- The position below `n` of the last entry with the term, or -1: the loop runs downwards.
  unfoldable pub last_of_term : List (LogEntry C) → ℤ → ℕ → Outcome ℤ
  last_of_term log x_term zero = ok minus_one
  last_of_term log x_term (suc n) =
      let rest = last_of_term log x_term n in
      do e ← get log (pos n); if e.term ==ℤ x_term then ok (pos n) else rest

  -- The next index after a failed match.
  unfoldable pub back_up : List (LogEntry C) → AppendEntriesReply → Outcome ℤ
  back_up log reply = if reply.x_term ==ℤ minus_one then ok reply.x_index else do
    last ← last_of_term log reply.x_term (length log)
    if last ==ℤ minus_one then ok reply.x_index else (do e ← get log last; ok (inc e.index))

  unfoldable pub leader_handle_log :
      Raft C → AppendEntriesArgs C → AppendEntriesReply → Outcome (Raft C)
  leader_handle_log rf args reply = do
    next ← get rf.next_index reply.server_id
    if not (args.prev_log_index ==ℤ next -ℤ pos 1)
        then ok rf
        else if reply.success
        then (do
          let new_next = args.prev_log_index +ℤ pos (length args.entries) +ℤ pos 1
          next_index ← put rf.next_index reply.server_id new_next
          match_index ← put rf.match_index reply.server_id (new_next -ℤ pos 1)
          ok (record rf { next_index = next_index; match_index = match_index }))
        else (do
          new_next ← back_up rf.log reply
          next_index ← put rf.next_index reply.server_id new_next
          ok (record rf { next_index = next_index }))

  -- The request for one server, from the copy of the state that the broadcast takes under its lock.
  unfoldable pub request_for : Raft C → ℤ → Outcome (Request C)
  request_for rf server = do
    next ← get rf.next_index server
    let prev_log_index = next -ℤ pos 1
    let append = λ (prev_log_term : ℤ) (entries : List (LogEntry C)). append_entries (record {
      term = rf.current_term;
      leader_id = rf.me;
      prev_log_index = prev_log_index;
      prev_log_term = prev_log_term;
      entries = entries;
      leader_commit = rf.commit_index;
    })
    if ltb_ℤ prev_log_index rf.snapshot_index
        then ok (
            install_snapshot (record {
              term = rf.current_term;
              leader_id = rf.me;
              last_included_index = rf.snapshot_index;
              last_included_term = rf.snapshot_term;
              snapshot = rf.snapshot;
            }))
        else if prev_log_index ==ℤ rf.snapshot_index
        then ok (append rf.snapshot_term rf.log)
        else (let actual_index = find_index rf.log prev_log_index in
            if actual_index ==ℤ minus_one then panic should_found_prev_log_index else do
              e ← get rf.log actual_index
              entries ← slice_from rf.log (inc actual_index)
              ok (append e.term entries))
