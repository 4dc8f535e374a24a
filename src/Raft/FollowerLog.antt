-- ===== src/Raft/FollowerLog.antt =====
-- followerHandleLog of src/raft/logActivities.go: how a follower matches and takes over entries.
pub mod Overwrite
pub mod Reconcile
pub mod Match
pub mod Conflict
pub mod Adopt
pub mod Compacted
pub mod Cases
pub mod Safety
pub mod FromStart
use model_lib.Prelude.{
  ℕ, zero, suc, Bool, true, false, List, [], ◌∷◌, ◌++◌, leb, if◌then◌else◌, length,
}
use model_lib.Prelude.Go.{index_out_of_range, Outcome, ok, panic, ◌>>=◌, get, slice_to, slice_from}
use model_lib.Prelude.Int.{ℤ, pos, minus_one, pos_part, ◌-ℤ◌, ltb_ℤ, leb_ℤ, ◌==ℤ◌, inc}
use model_lib.Raft.Log.{find_index, get_last_log_index_and_term}
use model_lib.Raft.State.{LogEntry, Raft, AppendEntriesArgs, AppendEntriesReply}

-- `XTerm, XIndex, XLen` and `Success` of a reply
abbrev pub answer : AppendEntriesReply → Bool → ℤ → ℤ → ℕ → AppendEntriesReply
answer reply success x_term x_index x_len = record reply {
  success = success;
  x_term = x_term;
  x_index = x_index;
  x_len = pos x_len;
}

module _ {C : Type 0} where
  -- `for ; startIndex <= actualIndex; startIndex++ { if rf.log[startIndex].Term == tarTerm {break} }`
  -- over the log from position `start` on, with `rounds` rounds left.
  abbrev pub first_of_term : List (LogEntry C) → ℤ → ℕ → ℕ → Outcome ℕ
  first_of_term es tar_term zero start = ok start
  first_of_term [] tar_term (suc rounds) start = panic index_out_of_range
  first_of_term (e ∷ es) tar_term (suc rounds) start =
      if e.term ==ℤ tar_term then ok start else first_of_term es tar_term rounds (suc start)

  -- The loop over `entries` that cuts the log at the first entry with another term: at position `i`
  -- the entries `es` are left.
  unfoldable pub overwrite : List (LogEntry C) → ℤ → List (LogEntry C) → Outcome (List (LogEntry C))
  overwrite log i [] = ok log
  overwrite log i (e ∷ es) = do
    x ← get log i
    kept ← slice_to log i
    overwrite (if x.term ==ℤ e.term then log else kept ++ e ∷ es) (inc i) es

  -- The loop over `newEntries` that replaces the log if a term differs: from position `i` on.
  unfoldable pub replace :
      List (LogEntry C) → List (LogEntry C) → ℕ → List (LogEntry C) → Outcome (List (LogEntry C))
  replace new_entries log i [] = ok log
  replace new_entries log i (e ∷ es) = do
    x ← get log (pos i)
    replace new_entries (if x.term ==ℤ e.term then log else new_entries) (suc i) es

  -- The log after a request whose entries `new_entries` lie behind the snapshot.
  unfoldable pub adopt : List (LogEntry C) → List (LogEntry C) → Outcome (List (LogEntry C))
  adopt log new_entries =
      if leb (length log) (length new_entries)
      then ok new_entries
      else replace new_entries log 0 new_entries

  -- PrevLogIndex is inside the follower's snapshot.
  unfoldable pub handle_compacted :
      Raft C → AppendEntriesArgs C → AppendEntriesReply → Outcome (Raft C × AppendEntriesReply)
  handle_compacted rf args reply =
      let start = find_index args.entries (inc rf.snapshot_index) in
      if start ==ℤ minus_one
      then ok (rf, answer reply true minus_one minus_one (length rf.log))
      else do
        new_entries ← slice_from args.entries start
        log ← adopt rf.log new_entries
        ok (record rf { log = log }, answer reply true minus_one minus_one (length log))

  -- The entry at PrevLogIndex, at position `actual_index`, has another term.
  unfoldable pub handle_conflict :
      Raft C → ℤ → LogEntry C → AppendEntriesReply → Outcome (Raft C × AppendEntriesReply)
  handle_conflict rf actual_index e reply = do
    start_index ← first_of_term rf.log e.term (pos_part (inc actual_index)) 0
    first ← get rf.log (pos start_index)
    log ← slice_to rf.log actual_index
    ok (record rf { log = log }, answer reply false e.term first.index (length log))

  -- The log after a match up to PrevLogIndex, at position `actual_index` (-1 for the start).
  unfoldable pub take_over : List (LogEntry C) → List (LogEntry C) → ℤ → Outcome (List (LogEntry C))
  take_over log entries actual_index =
      if leb_ℤ (pos (length log) -ℤ pos 1 -ℤ actual_index) (pos (length entries))
      then (do kept ← slice_to log (inc actual_index); ok (kept ++ entries))
      else overwrite log (inc actual_index) entries

  unfoldable pub handle_match :
      Raft C → AppendEntriesArgs C → ℤ → AppendEntriesReply → Outcome (Raft C × AppendEntriesReply)
  handle_match rf args actual_index reply = do
    log ← take_over rf.log args.entries actual_index
    ok (record rf { log = log }, answer reply true minus_one minus_one (length log))

  unfoldable pub follower_handle_log :
      Raft C → AppendEntriesArgs C → AppendEntriesReply → Outcome (Raft C × AppendEntriesReply)
  follower_handle_log rf args reply =
      let prev_log_index = (get_last_log_index_and_term rf).0 in
      let actual_index = find_index rf.log args.prev_log_index in
      if ltb_ℤ prev_log_index args.prev_log_index
      then ok (rf, answer reply false minus_one (inc prev_log_index) (length rf.log))
      else if args.prev_log_index ==ℤ minus_one
      then handle_match rf args actual_index reply
      else if actual_index ==ℤ minus_one
      then handle_compacted rf args reply
      else do
        e ← get rf.log actual_index
        if e.term ==ℤ args.prev_log_term
            then handle_match rf args actual_index reply
            else handle_conflict rf actual_index e reply
