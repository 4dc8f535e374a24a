-- ===== src/Raft/FollowerLog/Safety.antt =====
-- What followerHandleLog preserves, and what a successful answer means.
use model_lib.Prelude.{
  ◌≡◌, refl, sym, ap, subst, ◌∙◌, ◌≢◌, true, List, [], ◌∷◌, ◌++◌, arith, All, All-right,
}
use model_lib.Prelude.Go.{Outcome, ok}
use model_lib.Prelude.Int.{◌≤ℤ◌, ◌<ℤ◌, parts_of_eq, int_laws}
use model_lib.Raft.FollowerLog.{follower_handle_log}
use model_lib.Raft.FollowerLog.Cases.{
  Handled, too_short, conflict, compacted, agrees, follower_handle_log-Handled,
}
use model_lib.Raft.FollowerLog.Compacted.{covered, held}
use model_lib.Raft.FollowerLog.Match.{taken, taken-Contiguous, taken_keeps_commit, taken-Holds}
use model_lib.Raft.FollowerLog.Reconcile.{Holds, All-Memᴰ, LogMatching, Holds-exact}
use model_lib.Raft.Log.Contiguous.{
  Contiguous, last_index, last_index-append, Contiguous-append, Contiguous-left, Contiguous-right,
}
use model_lib.Raft.State.{LogEntry, Raft, AppendEntriesArgs, AppendEntriesReply}
use model_lib.Raft.Vote.{behind}
use model_lib.Raft.WellFormed.{IsWellFormed, AgreesAt, Agrees, Fits}

module _ {C : Type 0} where
  -- The request's entries are covered by the snapshot; or the log has, right behind the last entry
  -- that the snapshot or the match covers, an entry that stands for each further one of them: that
  -- entry itself, or an entry of the log before, `old`, with its index and its term.
  pub data Replicated (old : List (LogEntry C)) (rf : Raft C) (args : AppendEntriesArgs C)
      : Type 0 where
    in_snapshot :
        last_index args.prev_log_index args.entries ≤ℤ rf.snapshot_index → Replicated old rf args
    in_log :
        (skipped new before rest : List (LogEntry C))
        → args.entries ≡ skipped ++ new
        → rf.log ≡ before ++ rest
        → last_index rf.snapshot_index before ≡ last_index args.prev_log_index skipped
        → Holds old rest new
        → Replicated old rf args

  -- Where entries with the same index and term are the same, no entry of the log before stands for
  -- another one: the log has the request's entries themselves.
  pub Replicated-exact :
      (old : List (LogEntry C)) (rf : Raft C) (args : AppendEntriesArgs C)
      → LogMatching old args.entries
      → Replicated old rf args
      → Replicated [] rf args
  Replicated-exact old rf args m (in_snapshot le) = in_snapshot le
  Replicated-exact old rf args m (in_log skipped new before rest split at last holds) =
      in_log skipped new before rest split at last
        (Holds-exact old rest new (All-right _ skipped new (subst (All _) split m)) holds)

  -- What holds of every answer of a well-formed follower.
  pub record Answered (rf : Raft C) (args : AppendEntriesArgs C) (reply : AppendEntriesReply)
      (result : Outcome (Raft C × AppendEntriesReply)) : Type 0 where
    pub log : List (LogEntry C)
    pub reply' : AppendEntriesReply
    pub answers : result ≡ ok (record rf { log = log }, reply')
    pub well_formed : IsWellFormed (record rf { log = log })
    pub replicated : reply'.success ≡ true → Replicated rf.log (record rf { log = log }) args
    pub kept_term : reply'.term ≡ reply.term
    pub kept_id : reply'.server_id ≡ reply.server_id

  -- A conflict lies above the commit index.
  conflict_above_commit :
      (rf : Raft C) (args : AppendEntriesArgs C) (before after : List (LogEntry C)) (e : LogEntry C)
      → Fits rf args
      → rf.log ≡ before ++ e ∷ after
      → e.index ≡ args.prev_log_index
      → e.term ≢ args.prev_log_term
      → rf.commit_index <ℤ e.index
  conflict_above_commit rf args before after e fits split at differs =
      let agrees = (All-right _ before (e ∷ after) (subst (All _) split fits.prev_agrees)).0 in
      omega (arith, λ (le : e.index ≤ℤ rf.commit_index). differs (agrees at le))

  -- The log after a match.
  agreed-IsWellFormed :
      (rf : Raft C) (args : AppendEntriesArgs C) (before after : List (LogEntry C))
      → IsWellFormed rf
      → Fits rf args
      → rf.log ≡ before ++ after
      → last_index rf.snapshot_index before ≡ args.prev_log_index
      → IsWellFormed (record rf { log = before ++ taken after args.entries })
  agreed-IsWellFormed rf args before after wf fits split base =
      let whole = subst (Contiguous rf.snapshot_index) split wf.log_contiguous in
      let behind =
        subst (λ i. Contiguous i after) base
          (Contiguous-right rf.snapshot_index before after whole) in
      let ends : (ys : List (LogEntry C))
          → last_index rf.snapshot_index (before ++ ys) ≡ last_index args.prev_log_index ys =
        λ ys. last_index-append rf.snapshot_index before ys ∙ ap (λ i. last_index i ys) base in
      record {
        log_contiguous =
            Contiguous-append rf.snapshot_index before (taken after args.entries)
              (Contiguous-left rf.snapshot_index before after whole)
              (subst (λ i. Contiguous i (taken after args.entries)) (sym base)
                (taken-Contiguous args.prev_log_index after args.entries behind
                  fits.entries_contiguous));
        snapshot_low = wf.snapshot_low;
        commit_low = wf.commit_low;
        commit_high =
            subst (λ i. rf.commit_index ≤ℤ i) (sym (ends (taken after args.entries)))
              (taken_keeps_commit args.prev_log_index rf.commit_index after args.entries behind
                fits.entries_contiguous
                (All-right (λ x. All (AgreesAt rf.commit_index x) args.entries) before after
                  (subst (λ l. Agrees rf.commit_index l args.entries) split fits.entries_agree))
                (subst (λ i. rf.commit_index ≤ℤ i)
                  (ap (last_index rf.snapshot_index) split ∙ ends after) wf.commit_high));
      }

  Handled-Answered :
      (rf : Raft C) (args : AppendEntriesArgs C) (reply : AppendEntriesReply)
      (result : Outcome (Raft C × AppendEntriesReply))
      → IsWellFormed rf
      → Fits rf args
      → Handled rf args reply result
      → Answered rf args reply result
  Handled-Answered rf args reply result wf fits (too_short short e) = record {
    log = rf.log;
    reply' = _;
    answers = e;
    well_formed = wf;
    replicated = λ s. cc;
    kept_term = refl;
    kept_id = refl;
  }
  Handled-Answered rf args reply result wf fits (conflict before after e split at differs f run) =
      let whole = subst (Contiguous rf.snapshot_index) split wf.log_contiguous in
      let base = (Contiguous-right rf.snapshot_index before (e ∷ after) whole).0 in
      record {
        log = before;
        reply' = _;
        answers = run;
        well_formed = record {
          log_contiguous = Contiguous-left rf.snapshot_index before (e ∷ after) whole;
          snapshot_low = wf.snapshot_low;
          commit_low = wf.commit_low;
          commit_high = omega (
            int_laws,
            parts_of_eq base,
            conflict_above_commit rf args before after e fits split at differs,
          );
        };
        replicated = λ s. cc;
        kept_term = refl;
        kept_id = refl;
      }
  Handled-Answered rf args reply result wf fits (compacted log inside h c behind run) = record {
    log = log;
    reply' = _;
    answers = run;
    well_formed = record {
      log_contiguous = h;
      snapshot_low = wf.snapshot_low;
      commit_low = wf.commit_low;
      commit_high = c;
    };
    replicated = λ s. elim behind [
      | covered le ↦ in_snapshot le
      | held skipped new split last holds ↦ in_log skipped new [] log split refl (sym last) holds
    ];
    kept_term = refl;
    kept_id = refl;
  }
  Handled-Answered rf args reply result wf fits (agrees before after split at base run) = record {
    log = before ++ taken after args.entries;
    reply' = _;
    answers = run;
    well_formed = agreed-IsWellFormed rf args before after wf fits split base;
    replicated = λ s. in_log [] args.entries before (taken after args.entries) refl refl base (
        taken-Holds rf.log args.prev_log_index after args.entries
          (All-right _ before after (subst (All _) split (All-Memᴰ rf.log)))
          (subst (λ i. Contiguous i after) base
            (Contiguous-right rf.snapshot_index before after
              (subst (Contiguous rf.snapshot_index) split wf.log_contiguous)))
          fits.entries_contiguous);
    kept_term = refl;
    kept_id = refl;
  }

  -- followerHandleLog answers every fitting request without a panic, keeps the peer well-formed, and
  -- a successful answer means that the request's entries are replicated.
  pub follower_handle_log-Answered :
      (rf : Raft C) (args : AppendEntriesArgs C) (reply : AppendEntriesReply)
      → IsWellFormed rf
      → Fits rf args
      → Answered rf args reply (follower_handle_log rf args reply)
  follower_handle_log-Answered rf args reply wf fits =
      Handled-Answered rf args reply _ wf fits (follower_handle_log-Handled rf args reply wf fits)
