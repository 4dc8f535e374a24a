-- ===== src/Raft/FollowerLog/Compacted.antt =====
-- followerHandleLog where PrevLogIndex lies inside the follower's snapshot.
use model_lib.Prelude.{
  ℕ, ◌≡◌, sym, subst, ap₂, ◌∙◌, inl, inr, true, List, ◌∷◌, ◌++◌, length, All, All-right, All-mono,
}
use model_lib.Prelude.Go.{ok, bind_ok, slice_from}
use model_lib.Prelude.Int.{ℤ, pos, minus_one, ◌≤ℤ◌, inc, inc-injective, pos-==ℤ-minus_one, int_laws}
use model_lib.Prelude.Slices.{slice_from-split}
use model_lib.Raft.FollowerLog.{answer, adopt, handle_compacted}
use model_lib.Raft.FollowerLog.Adopt.{adopt_lem}
use model_lib.Raft.FollowerLog.Reconcile.{Holds}
use model_lib.Raft.Log.{find_index, find_index_cases}
use model_lib.Raft.Log.Contiguous.{Contiguous, last_index, Lacks_out, FoundAt-SplitAt}
use model_lib.Raft.State.{LogEntry, Raft, AppendEntriesArgs, AppendEntriesReply}
use model_lib.Raft.WellFormed.{IsWellFormed, AgreesAt, Fits}

module _ {C : Type 0} where
  handle_compacted_found :
      (rf : Raft C) (args : AppendEntriesArgs C) (reply : AppendEntriesReply) (k : ℕ)
      (new log : List (LogEntry C))
      → find_index args.entries (inc rf.snapshot_index) ≡ pos k
      → slice_from args.entries (pos k) ≡ ok new
      → adopt rf.log new ≡ ok log
      → handle_compacted rf args reply
        ≡ ok (record rf { log = log }, answer reply true minus_one minus_one (length log))
  unfolding handle_compacted
  handle_compacted_found rf args reply k new log found cut run =
      rw (found, pos-==ℤ-minus_one k) (bind_ok _ cut ∙ bind_ok _ run)

  handle_compacted_lost :
      (rf : Raft C) (args : AppendEntriesArgs C) (reply : AppendEntriesReply)
      → find_index args.entries (inc rf.snapshot_index) ≡ minus_one
      → handle_compacted rf args reply
        ≡ ok (rf, answer reply true minus_one minus_one (length rf.log))
  unfolding handle_compacted
  handle_compacted_lost rf args reply lost = rw lost

  -- The entries that the snapshot does not cover, if there are any, are in the log.
  pub data Behind (snapshot_index : ℤ) (args : AppendEntriesArgs C) (old log : List (LogEntry C))
      : Type 0 where
    covered :
        last_index args.prev_log_index args.entries ≤ℤ snapshot_index
        → Behind snapshot_index args old log
    held :
        (skipped new : List (LogEntry C))
        → args.entries ≡ skipped ++ new
        → last_index args.prev_log_index skipped ≡ snapshot_index
        → Holds old log new
        → Behind snapshot_index args old log

  -- The branch is total. The new log continues the snapshot, reaches the commit index and holds the
  -- entries behind the snapshot.
  pub handle_compacted_lem :
      (rf : Raft C) (args : AppendEntriesArgs C) (reply : AppendEntriesReply)
      → IsWellFormed rf
      → Fits rf args
      → args.prev_log_index ≤ℤ rf.snapshot_index
      → (log : List (LogEntry C)) × (handle_compacted rf args reply
          ≡ ok (record rf { log = log }, answer reply true minus_one minus_one (length log)))
        × Contiguous rf.snapshot_index log
        × (rf.commit_index ≤ℤ last_index rf.snapshot_index log)
        × Behind rf.snapshot_index args rf.log log
  handle_compacted_lem rf args reply wf fits inside =
      elim (find_index_cases args.entries (inc rf.snapshot_index)) [
        | inl (lost, lacks) ↦ (
          rf.log,
          handle_compacted_lost rf args reply lost,
          wf.log_contiguous,
          wf.commit_high,
          covered (
              omega (
                int_laws,
                Lacks_out args.prev_log_index (inc rf.snapshot_index) args.entries
                    fits.entries_contiguous lacks,
              )),
        )
        | inr (k, found, f) ↦
            let new = f.entry ∷ f.after in
            let s =
              FoundAt-SplitAt args.prev_log_index (inc rf.snapshot_index) args.entries k f
                fits.entries_contiguous in
            let (log, run, h, c, holds) =
              adopt_lem rf.snapshot_index rf.commit_index rf.log new wf.log_contiguous
                (f.has_index, subst (λ i. Contiguous i f.after) (sym f.has_index) s.right)
                (All-mono (λ x. All (AgreesAt rf.commit_index x) args.entries)
                  (λ x. All (AgreesAt rf.commit_index x) new) rf.log
                  (λ x r.
                    All-right (AgreesAt rf.commit_index x) f.before new
                      (subst (All (AgreesAt rf.commit_index x)) f.split r))
                  fits.entries_agree)
                wf.commit_high in
            (
              log,
              handle_compacted_found rf args reply k new log found
                  (ap₂ (λ l (n : ℕ). slice_from l (pos n)) f.split (sym f.at)
                    ∙ slice_from-split f.before new)
                  run,
              h,
              c,
              held f.before new f.split (inc-injective _ _ s.base) holds,
            )
      ]
