-- ===== src/Raft/Peer/Keeps.antt =====
-- What the parts of the handlers leave alone: the log handling, the commit index and the snapshots
-- change neither the term nor the vote, the role
-- and the number of the peer.
use model_lib.Prelude.{◌≡◌, refl, not, ◌&&◌, ◌||◌, List}
use model_lib.Prelude.Ensures.{Ensures, Ensures-ok, Ensures-panic, Ensures-if, Ensures-bind}
use model_lib.Prelude.Go.{ok, get, put, slice_to, slice_from}
use model_lib.Prelude.Int.{ℤ, pos, minus_one, pos_part, ◌-ℤ◌, ltb_ℤ, leb_ℤ, ◌==ℤ◌, inc}
use model_lib.Raft.Commit.{
  majority_index, collect, sent_position, send_committed_log_channel, follower_update_commit_index,
  is_nil, advance_commit,
}
use model_lib.Raft.FollowerLog.{
  first_of_term, adopt, handle_compacted, handle_conflict, take_over, handle_match,
  follower_handle_log,
}
use model_lib.Raft.LeaderLog.{back_up, leader_handle_log}
use model_lib.Raft.Log.{find_index, get_last_log_index_and_term}
use model_lib.Raft.Snapshot.{take_whole, take_part, take_snapshot}
use model_lib.Raft.State.{
  LogEntry, Raft, AppendEntriesArgs, AppendEntriesReply, InstallSnapshotArgs,
  go_put_apply_ch_buffer, command_msg,
}

module _ {C : Type 0} where
  -- The peer after it is the peer before it, but for the log.
  abbrev pub LogOnly : Raft C → Raft C × AppendEntriesReply → Type 0
  LogOnly rf r = (log : List (LogEntry C)) × (r.0 ≡ record rf { log = log })

  abbrev pub SameTerm : Raft C → Raft C → Type 0
  SameTerm rf rf' =
      (rf'.current_term ≡ rf.current_term)
      × (rf'.voted_for ≡ rf.voted_for)
      × (rf'.role ≡ rf.role)
      × (rf'.me ≡ rf.me)

  log_only :
      (rf : Raft C) (log : List (LogEntry C)) (reply : AppendEntriesReply)
      → Ensures (LogOnly rf) (ok (record rf { log = log }, reply))
  log_only rf log reply = Ensures-ok _ _ (log, refl)

  handle_match-LogOnly :
      (rf : Raft C) (args : AppendEntriesArgs C) (i : ℤ) (reply : AppendEntriesReply)
      → Ensures (LogOnly rf) (handle_match rf args i reply)
  unfolding handle_match
  handle_match-LogOnly rf args i reply =
      Ensures-bind _ (take_over rf.log args.entries i) _ (λ log. log_only rf log _)

  handle_conflict-LogOnly :
      (rf : Raft C) (i : ℤ) (e : LogEntry C) (reply : AppendEntriesReply)
      → Ensures (LogOnly rf) (handle_conflict rf i e reply)
  unfolding handle_conflict
  handle_conflict-LogOnly rf i e reply =
      Ensures-bind _ (first_of_term rf.log e.term (pos_part (inc i)) 0) _ λ start_index.
        Ensures-bind _ (get rf.log (pos start_index)) _
          λ first. Ensures-bind _ (slice_to rf.log i) _ λ log. log_only rf log _

  handle_compacted-LogOnly :
      (rf : Raft C) (args : AppendEntriesArgs C) (reply : AppendEntriesReply)
      → Ensures (LogOnly rf) (handle_compacted rf args reply)
  unfolding handle_compacted
  handle_compacted-LogOnly rf args reply =
      Ensures-if _ (find_index args.entries (inc rf.snapshot_index) ==ℤ minus_one) _ _
        (log_only rf rf.log _)
        (Ensures-bind _ (slice_from args.entries (find_index args.entries (inc rf.snapshot_index)))
          _ λ new_entries. Ensures-bind _ (adopt rf.log new_entries) _ λ log. log_only rf log _)

  -- What a follower does with a request's entries changes its log and nothing else.
  pub follower_handle_log-LogOnly :
      (rf : Raft C) (args : AppendEntriesArgs C) (reply : AppendEntriesReply)
      → Ensures (LogOnly rf) (follower_handle_log rf args reply)
  unfolding follower_handle_log
  follower_handle_log-LogOnly rf args reply =
      let i = find_index rf.log args.prev_log_index in
      let last = (get_last_log_index_and_term rf).0 in
      Ensures-if _ (ltb_ℤ last args.prev_log_index) _ _ (log_only rf rf.log _) (
        Ensures-if _ (args.prev_log_index ==ℤ minus_one) _ _ (handle_match-LogOnly rf args i reply)
          (Ensures-if _ (i ==ℤ minus_one) _ _ (handle_compacted-LogOnly rf args reply) (
            Ensures-bind _ (get rf.log i) _ λ e.
              Ensures-if _ (e.term ==ℤ args.prev_log_term) _ _
                (handle_match-LogOnly rf args i reply) (handle_conflict-LogOnly rf i e reply))))

  send_committed-SameTerm :
      (prev cur : ℤ) (rf : Raft C) → Ensures (SameTerm rf) (send_committed_log_channel prev cur rf)
  unfolding send_committed_log_channel go_put_apply_ch_buffer
  send_committed-SameTerm prev cur rf = Ensures-bind _ (sent_position prev rf) _ λ start_index.
      Ensures-bind _ (collect command_msg rf.log (inc start_index) (pos_part (cur -ℤ prev))) _
        λ msgs. Ensures-ok _ _ (refl, refl, refl, refl)

  pub follower_update_commit_index-SameTerm :
      (leader_commit : ℤ) (rf : Raft C)
      → Ensures (SameTerm rf) (follower_update_commit_index leader_commit rf)
  unfolding follower_update_commit_index
  follower_update_commit_index-SameTerm leader_commit rf =
      Ensures-if _ (leb_ℤ leader_commit rf.commit_index) _ _
        (Ensures-ok _ _ (refl, refl, refl, refl)) (send_committed-SameTerm _ _ _)

  pub advance_commit-SameTerm : (rf : Raft C) → Ensures (SameTerm rf) (advance_commit rf)
  unfolding advance_commit
  advance_commit-SameTerm rf =
      let same : Ensures (SameTerm rf) (ok rf) = Ensures-ok _ _ (refl, refl, refl, refl) in
      Ensures-if _ (is_nil rf.log && rf.snapshot_index ==ℤ minus_one) _ _ same (
        Ensures-bind _ (majority_index rf.peers rf.match_index) _ λ majority.
          Ensures-if _ (majority ==ℤ minus_one || leb_ℤ majority rf.commit_index) _ _ same (
            Ensures-bind _ (get rf.log (find_index rf.log majority)) _ λ e.
              Ensures-if _ (e.term ==ℤ rf.current_term) _ _ (send_committed-SameTerm _ _ _) same))

  pub leader_handle_log-SameTerm :
      (rf : Raft C) (args : AppendEntriesArgs C) (reply : AppendEntriesReply)
      → Ensures (SameTerm rf) (leader_handle_log rf args reply)
  unfolding leader_handle_log
  leader_handle_log-SameTerm rf args reply =
      let same : Ensures (SameTerm rf) (ok rf) = Ensures-ok _ _ (refl, refl, refl, refl) in
      Ensures-bind _ (get rf.next_index reply.server_id) _ λ next.
        Ensures-if _ (not (args.prev_log_index ==ℤ next -ℤ pos 1)) _ _ same (
          Ensures-if _ reply.success _ _
            (Ensures-bind _ (put rf.next_index reply.server_id _) _ λ next_index.
              Ensures-bind _ (put rf.match_index reply.server_id _) _
                λ match_index. Ensures-ok _ _ (refl, refl, refl, refl))
            (Ensures-bind _ (back_up rf.log reply) _ λ new_next.
              Ensures-bind _ (put rf.next_index reply.server_id new_next) _
                λ next_index. Ensures-ok _ _ (refl, refl, refl, refl)))

  pub take_snapshot-SameTerm :
      (rf : Raft C) (args : InstallSnapshotArgs) → Ensures (SameTerm rf) (take_snapshot rf args)
  unfolding take_snapshot take_whole take_part go_put_apply_ch_buffer
  take_snapshot-SameTerm rf args =
      let i = find_index rf.log args.last_included_index in
      Ensures-if _ (i ==ℤ minus_one) _ _
        (Ensures-if _ (ltb_ℤ args.last_included_index rf.commit_index) _ _ (Ensures-panic _ _)
          (Ensures-ok _ _ (refl, refl, refl, refl)))
        (Ensures-bind _ (get rf.log i) _ λ e. Ensures-bind _ (slice_from rf.log (inc i)) _ λ rest.
          Ensures-if _ (not (e.term ==ℤ args.last_included_term)) _ _ (Ensures-panic _ _)
            (Ensures-ok _ _ (refl, refl, refl, refl)))
