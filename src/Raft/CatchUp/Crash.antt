-- ===== src/Raft/CatchUp/Crash.antt =====
-- A follower that panics while it catches up: followerHandleLog and leaderHandleLog of
-- src/raft/logActivities.go, and InstallSnapshotRequestHandler of src/raft/installSnapshotRPC.go.
use model_lib.Prelude.{◌≡◌, sym, ap, subst, ◌∙◌, true, false, arith, length}
use model_lib.Prelude.Go.{log_inconsistent, ok, panic}
use model_lib.Prelude.Int.{ℤ, pos, ◌-ℤ◌, ◌≤ℤ◌, ◌<ℤ◌, ltb_ℤ, parts_of_eq, int_laws}
use model_lib.Raft.Append.{append_entries_request_handler}
use model_lib.Raft.CatchUp.{Together, Round}
use model_lib.Raft.CatchUp.Back.{refused-Together}
use model_lib.Raft.CatchUp.Refusal.{Reason-above}
use model_lib.Raft.LeaderLog.{append_entries, install_snapshot, request_for}
use model_lib.Raft.LeaderLog.Asks.{Continues, ask_snapshot}
use model_lib.Raft.LeaderLog.BackUp.{NoneOfTerm}
use model_lib.Raft.LeaderLog.Refused.{where_named, behind_entry}
use model_lib.Raft.Log.Contiguous.{last_index}
use model_lib.Raft.Persist.{Gob, persist}
use model_lib.Raft.Snapshot.{install_snapshot_request_handler}
use model_lib.Raft.Snapshot.Inconsistent.{OtherTerm, install_snapshot_request-panics}
use model_lib.Raft.State.{
  Raft, AppendEntriesArgs, AppendEntriesReply, InstallSnapshotArgs, zero_append_reply,
  zero_snapshot_reply,
}

module _ {C : Type 0} ⦃g : Gob C⦄ where
  -- A follower refuses a request and names a term of which the leader's log has no entry, and which
  -- starts, in the follower's log, at or below the end of the leader's snapshot. If what the
  -- follower keeps of its log still has an entry of another term at the snapshot's last index, then
  -- the leader, which now sends its snapshot, makes the follower panic. The leader and the follower
  -- are well-formed and contradict each other in no entry that the follower knows as committed.
  pub refused-panics :
      (now now' : ℤ) (led followed followed' : Raft C) (n : ℤ) (args : AppendEntriesArgs C)
      (reply : AppendEntriesReply)
      → Together led followed n
      → Continues led n args
      → request_for led followed.me ≡ ok (append_entries args)
      → append_entries_request_handler now followed args zero_append_reply ≡ ok (followed', reply)
      → reply.success ≡ false
      → NoneOfTerm led.log reply.x_term (length led.log)
      → reply.x_index ≤ℤ led.snapshot_index
      → led.snapshot_index ≤ℤ last_index followed'.snapshot_index followed'.log
      → OtherTerm led.snapshot_index led.snapshot_term followed'.log
      → (led' : Raft C) × (sent : InstallSnapshotArgs) × Round now led followed led' followed' args
          reply
        × Together led' followed' reply.x_index
        × (request_for led' followed.me ≡ ok (install_snapshot sent))
        × (install_snapshot_request_handler now' followed' sent zero_snapshot_reply
            ≡ panic log_inconsistent)
  unfolding persist
  refused-panics now now' led followed followed' n args reply t c asks answers failed none_there
        first ends other =
      let b = refused-Together now led followed followed' n args reply t c asks answers failed in
      let led' : Raft C = persist (record led { next_index = b.next_index }) in
      let named : b.n' ≡ reply.x_index = elim b.goes_on [
        | where_named e ↦ e
        | behind_entry k e _ inside at has_term _ ↦ absurd (none_there k e inside at has_term)
      ] in
      let (above, _) = Reason-above followed followed' args reply t.follows b.refuses.reason in
      let under : (b.n' -ℤ pos 1) <ℤ led.snapshot_index =
        omega (int_laws, parts_of_eq named, first) in
      let low : ltb_ℤ (b.n' -ℤ pos 1) led.snapshot_index ≡ true = ground (arith, under) in
      (
        led',
        _,
        b.round,
        subst (Together led' followed') named b.together,
        ap (request_for led') (sym b.refuses.me)
            ∙ ask_snapshot led' followed'.me b.n' b.together.next low,
        install_snapshot_request-panics now' followed' _ zero_snapshot_reply b.together.follows
            b.together.newer (omega (arith, parts_of_eq b.refuses.base, above, first)) ends other,
      )
