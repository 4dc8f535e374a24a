-- ===== src/Raft/Append/Refusing.antt =====
-- When AppendEntriesRequestHandler refuses a request of its term, and what the reply then asks for.
use model_lib.Prelude.{
  ◌≡◌, sym, ap, subst, ap₂, ◌∙◌, inl, inr, true, false, List, [], ◌∷◌, ◌++◌, arith, Bool-cases,
}
use model_lib.Prelude.Go.{ok, ok-injective}
use model_lib.Prelude.Int.{ℤ, minus_one, ◌≤ℤ◌, ◌<ℤ◌, inc, parts_of_eq}
use model_lib.Raft.Append.{append_entries_request_handler}
use model_lib.Raft.Append.Answering.{accepted, request_current, finish_refused, finish_accepted}
use model_lib.Raft.Append.Following.{following, following_keeps, following_lem}
use model_lib.Raft.Commit.Follower.{follower_update_commit_index-commits}
use model_lib.Raft.FollowerLog.Cases.{
  Handled, too_short, conflict, compacted, agrees, follower_handle_log-Handled,
}
use model_lib.Raft.FollowerLog.Conflict.{FirstOfTerm}
use model_lib.Raft.FollowerLog.Safety.{follower_handle_log-Answered}
use model_lib.Raft.Log.Contiguous.{last_index}
use model_lib.Raft.Persist.{Gob, persist}
use model_lib.Raft.State.{LogEntry, Raft, AppendEntriesArgs, AppendEntriesReply}
use model_lib.Raft.WellFormed.{IsWellFormed, Fits}

module _ {C : Type 0} where
  -- Why a request is refused: the log ends before PrevLogIndex, or its entry there has another term
  -- and is cut off with what follows it. The reply then names where the log ends, or where its
  -- entries of that term start.
  pub data Reason (rf rf' : Raft C) (args : AppendEntriesArgs C) (reply : AppendEntriesReply)
      : Type 0 where
    ends_short :
        last_index rf.snapshot_index rf.log <ℤ args.prev_log_index
        → rf'.log ≡ rf.log
        → reply.x_index ≡ inc (last_index rf.snapshot_index rf.log)
        → reply.x_term ≡ minus_one
        → Reason rf rf' args reply
    cut_conflict :
        (before after : List (LogEntry C)) (e : LogEntry C)
        → rf.log ≡ before ++ e ∷ after
        → e.index ≡ args.prev_log_index
        → rf'.log ≡ before
        → (f : FirstOfTerm e.term (before ++ e ∷ [])) → reply.x_index ≡ f.entry.index
        → Reason rf rf' args reply

  pub record Refuses (rf : Raft C) (args : AppendEntriesArgs C) (rf' : Raft C)
      (reply : AppendEntriesReply) : Type 0 where
    pub failed : reply.success ≡ false
    pub me : rf'.me ≡ rf.me
    pub base : rf'.snapshot_index ≡ rf.snapshot_index
    pub reason : Reason rf rf' args reply

  -- The reason in terms of the peer that has become a follower is one in terms of the peer before.
  Handled-Reason :
      (rf1 rf2 : Raft C) (args : AppendEntriesArgs C) (reply reply' : AppendEntriesReply)
      → Handled rf1 args reply (ok (rf2, reply'))
      → reply'.success ≡ false
      → Reason rf1 rf2 args reply'
  Handled-Reason rf1 rf2 args reply reply' (too_short lower e) failed =
      let same = ok-injective e in
      ends_short lower (ap (λ p. p.0.log) same) (ap (λ p. p.1.x_index) same)
        (ap (λ p. p.1.x_term) same)
  Handled-Reason rf1 rf2 args reply reply' (conflict before after e split at _ f run) failed =
      let same = ok-injective run in
      cut_conflict before after e split at (ap (λ p. p.0.log) same) f (ap (λ p. p.1.x_index) same)
  Handled-Reason rf1 rf2 args reply reply' (compacted log _ _ _ _ e) failed =
      let success : reply'.success ≡ true = ap (λ p. p.1.success) (ok-injective e) in cc
  Handled-Reason rf1 rf2 args reply reply' (agrees before after _ _ _ e) failed =
      let success : reply'.success ≡ true = ap (λ p. p.1.success) (ok-injective e) in cc

  Reason-before :
      (rf0 rf1 rf2 : Raft C) (args : AppendEntriesArgs C) (reply : AppendEntriesReply)
      → rf1.log ≡ rf0.log
      → rf1.snapshot_index ≡ rf0.snapshot_index
      → Reason rf1 rf2 args reply
      → Reason rf0 rf2 args reply
  Reason-before rf0 rf1 rf2 args reply log base (ends_short lower kept at term) =
      let last : last_index rf1.snapshot_index rf1.log ≡ last_index rf0.snapshot_index rf0.log =
        ap₂ last_index base log in
      ends_short (omega (arith, parts_of_eq last)) (kept ∙ log) (at ∙ ap inc last) term
  Reason-before rf0 rf1 rf2 args reply log base (cut_conflict before after e split at cut f first) =
      cut_conflict before after e (sym log ∙ split) at cut f first

module _ {C : Type 0} ⦃g : Gob C⦄ where
  persist-Reason :
      (rf rf2 : Raft C) (args : AppendEntriesArgs C) (reply : AppendEntriesReply)
      → Reason rf rf2 args reply
      → Reason rf (persist rf2) args reply
  unfolding persist
  persist-Reason rf rf2 args reply (ends_short lower kept at term) = ends_short lower kept at term
  persist-Reason rf rf2 args reply (cut_conflict before after e split at cut f first) =
      cut_conflict before after e split at cut f first

  -- A well-formed peer that answers a fitting request of its own or a newer term without success
  -- has one of the two reasons of `Reason`, and has changed its log only as that reason says.
  pub append_entries_request-Refuses :
      (now : ℤ) (rf rf' : Raft C) (args : AppendEntriesArgs C) (reply reply' : AppendEntriesReply)
      → IsWellFormed rf
      → Fits rf args
      → rf.current_term ≤ℤ args.term
      → append_entries_request_handler now rf args reply ≡ ok (rf', reply')
      → reply'.success ≡ false
      → Refuses rf args rf' reply'
  unfolding persist
  append_entries_request-Refuses now rf rf' args reply reply' wf fits le answers failed =
      let (wf1, fits1, _, _, _, _) = following_lem now rf args wf fits le in
      let (log1, me1, base1) = following_keeps now args.term rf in
      let rf1 = following now args.term rf in
      let a = follower_handle_log-Answered rf1 args (accepted args rf reply) wf1 fits1 in
      let rf2 : Raft C = record rf1 { log = a.log } in
      let run = request_current now rf args reply (rf2, a.reply') le a.answers in
      elim (Bool-cases a.reply'.success) [
        | inl success ↦
            let (rf3, run3, _, _) =
              follower_update_commit_index-commits args.leader_commit rf2 a.well_formed in
            let same =
              ok-injective
                (sym answers ∙ run ∙ finish_accepted args rf2 rf3 a.reply' success run3) in
            let kept : reply'.success ≡ a.reply'.success = ap (λ p. p.1.success) same in cc
        | inr refused ↦
            let same =
              ok-injective (sym (run ∙ finish_refused args rf2 a.reply' refused) ∙ answers) in
            let handled =
              subst (Handled rf1 args (accepted args rf reply)) a.answers
                (follower_handle_log-Handled rf1 args (accepted args rf reply) wf1 fits1) in
            record {
              failed = failed;
              me = ap (λ p. p.0.me) (sym same) ∙ me1;
              base = ap (λ p. p.0.snapshot_index) (sym same) ∙ base1;
              reason =
                  subst (λ p. Reason rf p.0 args p.1) same
                    (persist-Reason rf rf2 args a.reply' (
                      Reason-before rf rf1 rf2 args a.reply' log1 base1 (
                        Handled-Reason rf1 rf2 args (accepted args rf reply) a.reply' handled
                          refused)));
            }
      ]
