-- ===== src/Raft/CatchUp/Refusal.antt =====
-- A refused round: the follower's log gets shorter, or the leader learns where it ends.
use model_lib.Prelude.{
  suc, ◌+◌, ◌<◌, ◌≡◌, sym, ap, subst, ap₂, ◌∙◌, ◌∷◌, arith, length, length-append, All, All-left,
}
use model_lib.Prelude.Int.{ℤ, pos, minus_one, ◌≤ℤ◌, ◌<ℤ◌, inc, eq_of_parts, parts_of_eq, int_laws}
use model_lib.Raft.Append.Refusing.{Reason, ends_short, cut_conflict}
use model_lib.Raft.CatchUp.{Together}
use model_lib.Raft.CatchUp.Entries.{get_elem?-inside, FirstOfTerm-inside}
use model_lib.Raft.LeaderLog.Refused.{GoesOn, where_named, behind_entry}
use model_lib.Raft.Log.Contiguous.{Contiguous, last_index, last_index-le}
use model_lib.Raft.State.{LogEntry, Raft, AppendEntriesArgs, AppendEntriesReply}
use model_lib.Raft.WellFormed.{IsWellFormed}

module _ {C : Type 0} where
  -- A next index that the leader can go on from.
  pub record NextIndex (led followed : Raft C) (n : ℤ) : Type 0 where
    pub low : pos 0 ≤ℤ n
    pub reaches : n ≤ℤ inc (last_index led.snapshot_index led.log)
    pub start : n ≡ pos 0 → followed.snapshot_index ≡ minus_one

  -- An index above the follower's snapshot and not behind the end of the leader's log.
  above_snapshot :
      (led followed : Raft C) (n : ℤ)
      → IsWellFormed followed
      → followed.snapshot_index <ℤ n
      → n ≤ℤ inc (last_index led.snapshot_index led.log)
      → NextIndex led followed n
  above_snapshot led followed n wf above below = record {
    low = omega (int_laws, wf.snapshot_low);
    reaches = below;
    start = λ zero_next.
        eq_of_parts followed.snapshot_index minus_one
          (omega (int_laws, parts_of_eq zero_next, wf.snapshot_low));
  }

  -- The index that a refusal names.
  pub Reason-above :
      (rf rf' : Raft C) (args : AppendEntriesArgs C) (reply : AppendEntriesReply)
      → IsWellFormed rf
      → Reason rf rf' args reply
      → (rf.snapshot_index <ℤ reply.x_index) × (reply.x_index ≤ℤ args.prev_log_index)
  Reason-above rf rf' args reply wf (ends_short lower kept at term) =
      let up = last_index-le rf.snapshot_index rf.log wf.log_contiguous in
      (omega (int_laws, parts_of_eq at, up), omega (int_laws, parts_of_eq at))
  Reason-above rf rf' args reply wf (cut_conflict before after e split at cut f first) =
      let (above, below) =
        FirstOfTerm-inside rf.snapshot_index before after e
          (subst (Contiguous rf.snapshot_index) split wf.log_contiguous) f in
      (omega (arith, parts_of_eq first), omega (arith, parts_of_eq first, parts_of_eq at))

  pub Reason-NextIndex :
      (led followed followed' : Raft C) (n : ℤ) (args : AppendEntriesArgs C)
      (reply : AppendEntriesReply)
      → Together led followed n
      → inc args.prev_log_index ≡ n
      → Reason followed followed' args reply
      → NextIndex led followed reply.x_index
  Reason-NextIndex led followed followed' n args reply t from why =
      let (above, below) = Reason-above followed followed' args reply t.follows why in
      above_snapshot led followed reply.x_index t.follows above
        (omega (int_laws, parts_of_eq from, t.reaches))

  -- Where the leader goes on.
  pub GoesOn-NextIndex :
      (led followed : Raft C) (reply : AppendEntriesReply) (next : ℤ)
      → IsWellFormed led
      → NextIndex led followed reply.x_index
      → GoesOn led reply next
      → NextIndex led followed next
  GoesOn-NextIndex led followed reply next wf i (where_named named) =
      subst (NextIndex led followed) (sym named) i
  GoesOn-NextIndex led followed reply next wf i (behind_entry k e _ _ at _ goes) =
      let (above, below) = get_elem?-inside led.snapshot_index led.log k e wf.log_contiguous at in
      record {
        low = omega (int_laws, parts_of_eq goes, wf.snapshot_low);
        reaches = omega (int_laws, parts_of_eq goes);
        start = λ zero_next.
            absurd (omega (int_laws, parts_of_eq zero_next, parts_of_eq goes, wf.snapshot_low));
      }

  -- The entries that a refusing follower keeps are entries it had.
  pub Reason-keeps :
      (P : LogEntry C → Type 0) (rf rf' : Raft C) (args : AppendEntriesArgs C)
      (reply : AppendEntriesReply)
      → Reason rf rf' args reply
      → All P rf.log
      → All P rf'.log
  Reason-keeps P rf rf' args reply (ends_short _ kept _ _) h = subst (All P) (sym kept) h
  Reason-keeps P rf rf' args reply (cut_conflict before after e split _ cut _ _) h =
      subst (All P) (sym cut) (All-left P before (e ∷ after) (subst (All P) split h))

  -- The follower's log is shorter than before, or the leader goes on right behind its end.
  pub data Progress (rf rf' : Raft C) (n n' : ℤ) : Type 0 where
    cut_back : length rf'.log < length rf.log → Progress rf rf' n n'
    end_found :
        inc (last_index rf.snapshot_index rf.log) <ℤ n
        → rf'.log ≡ rf.log
        → n' ≡ inc (last_index rf'.snapshot_index rf'.log)
        → Progress rf rf' n n'

  pub Reason-Progress :
      (led rf rf' : Raft C) (n n' : ℤ) (args : AppendEntriesArgs C) (reply : AppendEntriesReply)
      → inc args.prev_log_index ≡ n
      → rf'.snapshot_index ≡ rf.snapshot_index
      → Reason rf rf' args reply
      → GoesOn led reply n'
      → Progress rf rf' n n'
  Reason-Progress led rf rf' n n' args reply from base (ends_short lower kept at term)
        (where_named named) =
      end_found (omega (int_laws, parts_of_eq from)) kept
        (named ∙ at ∙ sym (ap inc (ap₂ last_index base kept)))
  Reason-Progress led rf rf' n n' args reply from base (ends_short lower kept at term)
        (behind_entry _ _ names_term _ _ _ _) =
      absurd (names_term term)
  Reason-Progress led rf rf' n n' args reply from base (cut_conflict before after e split _ cut _ _)
        goes =
      let whole : length rf.log ≡ length before + suc (length after) =
        ap length split ∙ length-append before (e ∷ after) in
      let rest : length rf'.log ≡ length before = ap length cut in cut_back (omega arith)
