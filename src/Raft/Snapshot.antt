-- ===== src/Raft/Snapshot.antt =====
-- Snapshots: src/raft/installSnapshotRPC.go, and Snapshot of src/raft/raft.go.
pub mod Take
pub mod Install
pub mod Own
pub mod Forward
pub mod Inconsistent
use model_lib.Prelude.{ℕ, not, ◌&&◌, ◌||◌, List, [], ◌∷◌, if◌then◌else◌}
use model_lib.Prelude.Go.{
  snapshot_inconsistent, commit_index_inconsistent, log_inconsistent, Outcome, ok, panic, ◌>>=◌,
  get, put, slice_from,
}
use model_lib.Prelude.Int.{ℤ, pos, minus_one, pos_part, ◌-ℤ◌, ltb_ℤ, leb_ℤ, ◌==ℤ◌, inc}
use model_lib.Raft.Commit.{collect}
use model_lib.Raft.Log.{find_index}
use model_lib.Raft.Persist.{Gob, persist}
use model_lib.Raft.Roles.{to_follower}
use model_lib.Raft.State.{
  LogEntry, ApplyMsg, Raft, InstallSnapshotArgs, InstallSnapshotReply, go_put_apply_ch_buffer,
  command_msg, snapshot_msg,
}

module _ {C : Type 0} where
  abbrev pub whole_installed : Raft C → InstallSnapshotArgs → Raft C
  whole_installed rf args = record rf {
    snapshot = args.snapshot;
    snapshot_index = args.last_included_index;
    snapshot_term = args.last_included_term;
    log = [];
    commit_index = args.last_included_index;
  }

  -- The peer's log does not reach the snapshot: it takes the snapshot and drops its log.
  unfoldable pub take_whole : Raft C → InstallSnapshotArgs → Outcome (Raft C)
  take_whole rf args =
      let rf' = whole_installed rf args in
      if ltb_ℤ args.last_included_index rf.commit_index
      then panic commit_index_inconsistent
      else ok (go_put_apply_ch_buffer (snapshot_msg rf' ∷ []) rf')

  abbrev pub part_installed : Raft C → InstallSnapshotArgs → LogEntry C → List (LogEntry C) → Raft C
  part_installed rf args e rest = record rf {
    snapshot = args.snapshot;
    snapshot_index = e.index;
    snapshot_term = e.term;
    log = rest;
    commit_index =
        if ltb_ℤ rf.commit_index args.last_included_index
        then args.last_included_index
        else rf.commit_index;
  }

  -- The log holds the snapshot's last entry, at position `true_index`: it keeps what follows.
  unfoldable pub take_part : Raft C → InstallSnapshotArgs → ℤ → Outcome (Raft C)
  take_part rf args true_index = do
    e ← get rf.log true_index
    rest ← slice_from rf.log (inc true_index)
    let rf' = part_installed rf args e rest
    if not (e.term ==ℤ args.last_included_term)
        then panic log_inconsistent
        else ok (go_put_apply_ch_buffer (snapshot_msg rf' ∷ []) rf')

  unfoldable pub take_snapshot : Raft C → InstallSnapshotArgs → Outcome (Raft C)
  take_snapshot rf args =
      let true_index = find_index rf.log args.last_included_index in
      if true_index ==ℤ minus_one then take_whole rf args else take_part rf args true_index

module _ {C : Type 0} where
  -- The message for an entry that is sent again, which names -1 where `command_msg` leaves zero.
  abbrev pub recommit_msg : LogEntry C → ApplyMsg C
  recommit_msg e = record (command_msg e) { snapshot_term = minus_one; snapshot_index = minus_one }

  -- The committed entries above the new snapshot, which are sent again.
  unfoldable pub recommit : Raft C → Outcome (List (ApplyMsg C))
  recommit rf =
      if ltb_ℤ rf.snapshot_index rf.commit_index
      then collect recommit_msg rf.log (pos 0) (pos_part (inc (find_index rf.log rf.commit_index)))
      else ok []

module _ {C : Type 0} ⦃g : Gob C⦄ where
  unfoldable pub install_snapshot_request_handler :
      ℤ
      → Raft C
      → InstallSnapshotArgs
      → InstallSnapshotReply
      → Outcome (Raft C × InstallSnapshotReply)
  install_snapshot_request_handler now rf args reply =
      let signed : InstallSnapshotReply = record reply { server_id = rf.me } in
      if rf.snapshot_index ==ℤ args.last_included_index
        && not (rf.snapshot_term ==ℤ args.last_included_term)
      then panic snapshot_inconsistent
      else if ltb_ℤ args.term rf.current_term
      then ok (persist rf, record signed { term = rf.current_term })
      else (let rf1 : Raft C = record rf { last_heartbeat_time = now } in
          if leb_ℤ args.last_included_index rf1.snapshot_index
          then ok (persist rf1, record signed { term = rf1.current_term })
          else (let rf2 =
                if ltb_ℤ rf1.current_term args.term then to_follower args.term rf1 else rf1 in
              do
                rf3 ← take_snapshot rf2 args
                ok (persist rf3, record signed { term = rf3.current_term })))

  unfoldable pub install_snapshot_response_handler :
      Raft C → InstallSnapshotArgs → InstallSnapshotReply → Outcome (Raft C)
  install_snapshot_response_handler rf args reply =
      if not (rf.current_term ==ℤ args.term) || ltb_ℤ reply.term rf.current_term
      then ok (persist rf)
      else if ltb_ℤ rf.current_term reply.term
      then ok (persist (to_follower reply.term rf))
      else do
        matched ← get rf.match_index reply.server_id
        if leb_ℤ args.last_included_index matched then ok (persist rf) else (do
          next_index ← put rf.next_index reply.server_id (inc args.last_included_index)
          match_index ← put rf.match_index reply.server_id args.last_included_index
          ok (persist (record rf { next_index = next_index; match_index = match_index })))

  abbrev pub own_snapshot : Raft C → List ℕ → LogEntry C → List (LogEntry C) → Raft C
  own_snapshot rf bytes e rest = record rf {
    snapshot = bytes;
    snapshot_index = e.index;
    snapshot_term = e.term;
    log = rest;
  }

  unfoldable pub install_cur_rf_snapshot : ℤ → List ℕ → Raft C → Outcome (Raft C)
  install_cur_rf_snapshot index bytes rf =
      let true_index = find_index rf.log index in
      if true_index ==ℤ minus_one then ok (persist rf) else do
        e ← get rf.log true_index
        rest ← slice_from rf.log (inc true_index)
        let rf' = own_snapshot rf bytes e rest
        msgs ← recommit rf'
        ok (persist (go_put_apply_ch_buffer (snapshot_msg rf' ∷ msgs) rf'))

  -- Snapshot: the service counts from 1.
  unfoldable pub raft_snapshot : ℤ → List ℕ → Raft C → Outcome (Raft C)
  raft_snapshot index bytes rf = install_cur_rf_snapshot (index -ℤ pos 1) bytes rf
