-- ===== src/Raft/Commit.antt =====
-- The commit index: followerUpdateCommitIndex, leaderUpdateCommitIndex and
-- sendCommittedLogChannel of src/raft/logActivities.go.
pub mod Quorum
pub mod Send
pub mod Follower
pub mod Leader
use model_lib.Prelude.{
  ℕ, zero, suc, ◌+◌, ◌/◌, Bool, true, false, ◌&&◌, ◌||◌, List, [], ◌∷◌, if◌then◌else◌,
}
use model_lib.Prelude.Go.{should_found_start_index, Outcome, ok, panic, ◌>>=◌, get}
use model_lib.Prelude.Int.{ℤ, pos, minus_one, pos_part, ◌-ℤ◌, ltb_ℤ, leb_ℤ, ◌==ℤ◌, inc}
use model_lib.Raft.Log.{find_index, get_last_log_index_and_term}
use model_lib.Raft.Persist.{Gob, persist}
use model_lib.Raft.State.{LogEntry, ApplyMsg, Raft, go_put_apply_ch_buffer, command_msg}

-- sort.Ints
abbrev pub insert_int : ℤ → List ℤ → List ℤ
insert_int a [] = a ∷ []
insert_int a (x ∷ xs) = if leb_ℤ a x then a ∷ x ∷ xs else x ∷ insert_int a xs

unfoldable pub sort_ints : List ℤ → List ℤ
sort_ints [] = []
sort_ints (x ∷ xs) = insert_int x (sort_ints xs)

-- `sortedMatchIndex[(len(rf.peers)+1)/2-1]`
unfoldable pub majority_index : ℕ → List ℤ → Outcome ℤ
majority_index peers match_index = get (sort_ints match_index) (pos ((peers + 1) / 2) -ℤ pos 1)

module _ {C : Type 0} where
  -- The messages for `rounds` entries from position `i` on, each made by `msg`.
  unfoldable pub collect :
      (LogEntry C → ApplyMsg C) → List (LogEntry C) → ℤ → ℕ → Outcome (List (ApplyMsg C))
  collect msg log i zero = ok []
  collect msg log i (suc rounds) = do
    e ← get log i
    rest ← collect msg log (inc i) rounds
    ok (msg e ∷ rest)

  -- The position of the last entry that was sent, -1 if none is left in the log.
  unfoldable pub sent_position : ℤ → Raft C → Outcome ℤ
  sent_position prev_commit_index rf =
      if prev_commit_index ==ℤ minus_one || prev_commit_index ==ℤ rf.snapshot_index
      then ok minus_one
      else (let found = find_index rf.log prev_commit_index in
          if found ==ℤ minus_one then panic should_found_start_index else ok found)

  unfoldable pub send_committed_log_channel : ℤ → ℤ → Raft C → Outcome (Raft C)
  send_committed_log_channel prev_commit_index cur_commit_index rf = do
    start_index ← sent_position prev_commit_index rf
    msgs ←
        collect command_msg rf.log (inc start_index)
          (pos_part (cur_commit_index -ℤ prev_commit_index))
    ok (go_put_apply_ch_buffer msgs rf)

  unfoldable pub follower_update_commit_index : ℤ → Raft C → Outcome (Raft C)
  follower_update_commit_index leader_commit rf =
      if leb_ℤ leader_commit rf.commit_index
      then ok rf
      else (let last_log_index = (get_last_log_index_and_term rf).0 in
          let new_commit =
            if ltb_ℤ last_log_index leader_commit then last_log_index else leader_commit in
          send_committed_log_channel rf.commit_index new_commit
            (record rf { commit_index = new_commit; last_applied = new_commit }))

  abbrev pub is_nil : List (LogEntry C) → Bool
  is_nil [] = true
  is_nil (x ∷ xs) = false

  -- leaderUpdateCommitIndex before its deferred `persist`.
  unfoldable pub advance_commit : Raft C → Outcome (Raft C)
  advance_commit rf = if is_nil rf.log && rf.snapshot_index ==ℤ minus_one then ok rf else do
    majority ← majority_index rf.peers rf.match_index
    if majority ==ℤ minus_one || leb_ℤ majority rf.commit_index then ok rf else (do
      e ← get rf.log (find_index rf.log majority)
      if e.term ==ℤ rf.current_term
          then send_committed_log_channel rf.commit_index majority
              (record rf { commit_index = majority; last_applied = majority })
          else ok rf)

module _ {C : Type 0} ⦃g : Gob C⦄ where
  unfoldable pub leader_update_commit_index : Raft C → Outcome (Raft C)
  leader_update_commit_index rf = do rf' ← advance_commit rf; ok (persist rf')
