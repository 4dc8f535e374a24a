-- ===== src/Raft/Append/Answering.antt =====
-- A follower's whole answer to AppendEntries: AppendEntriesRequestHandler.
use model_lib.Prelude.{
  ◌≡◌, refl, ap, subst, ◌∙◌, inl, inr, true, false, not, List, arith, if◌then◌else◌, Bool-cases,
}
use model_lib.Prelude.Go.{Outcome, ok, ◌>>=◌, bind_ok}
use model_lib.Prelude.Int.{ℤ, ◌≤ℤ◌, ◌<ℤ◌, ltb_ℤ, leb_ℤ, parts_of_eq}
use model_lib.Raft.Append.{append_entries_request_handler}
use model_lib.Raft.Append.Following.{following, following_keeps, following_lem}
use model_lib.Raft.Commit.{follower_update_commit_index}
use model_lib.Raft.Commit.Follower.{
  commit_target, follower_update_commit_index-commits, FollowerCommits-fields,
}
use model_lib.Raft.FollowerLog.{follower_handle_log}
use model_lib.Raft.FollowerLog.Safety.{
  Replicated, in_snapshot, in_log, follower_handle_log-Answered,
}
use model_lib.Raft.Log.Contiguous.{last_index}
use model_lib.Raft.Persist.{Gob, persist}
use model_lib.Raft.State.{follower, LogEntry, Raft, AppendEntriesArgs, AppendEntriesReply}
use model_lib.Raft.WellFormed.{IsWellFormed, Fits, IsWellFormed-same}

module _ {C : Type 0} ⦃g : Gob C⦄ where
  pub persist-IsWellFormed : (rf : Raft C) → IsWellFormed rf → IsWellFormed (persist rf)
  unfolding persist
  persist-IsWellFormed rf wf = IsWellFormed-same _ _ refl refl refl wf

  -- What a follower of the request's term has done when it answers.
  pub record Obeys (rf : Raft C) (args : AppendEntriesArgs C)
      (result : Outcome (Raft C × AppendEntriesReply)) : Type 0 where
    pub rf' : Raft C
    pub reply' : AppendEntriesReply
    pub answers : result ≡ ok (rf', reply')
    pub well_formed : IsWellFormed rf'
    pub term : rf'.current_term ≡ args.term
    pub role : rf'.role ≡ follower
    pub reply_term : reply'.term ≡ args.term
    pub reply_id : reply'.server_id ≡ rf.me
    pub replicated : reply'.success ≡ true → Replicated rf.log rf' args
    pub commit_grows : rf.commit_index ≤ℤ rf'.commit_index
    pub commit_kept : reply'.success ≡ false → rf'.commit_index ≡ rf.commit_index
    pub commit_follows :
        reply'.success ≡ true
        → rf'.commit_index ≡ (
            if leb_ℤ args.leader_commit rf.commit_index
            then rf.commit_index
            else commit_target args.leader_commit rf')

  -- A request of an old term is refused, and changes no more than stable storage.
  pub append_entries_request-stale :
      (now : ℤ) (rf : Raft C) (args : AppendEntriesArgs C) (reply : AppendEntriesReply)
      → args.term <ℤ rf.current_term
      → append_entries_request_handler now rf args reply
        ≡ ok (persist rf, record reply { term = rf.current_term; success = false })
  unfolding append_entries_request_handler
  append_entries_request-stale now rf args reply h = ground arith

  -- The code behind the term test.
  abbrev pub finish :
      AppendEntriesArgs C → Raft C × AppendEntriesReply → Outcome (Raft C × AppendEntriesReply)
  finish args handled =
      if not handled.1.success
      then ok (persist handled.0, handled.1)
      else follower_update_commit_index args.leader_commit handled.0 >>= λ rf'.
          ok (persist rf', handled.1)

  abbrev pub accepted : AppendEntriesArgs C → Raft C → AppendEntriesReply → AppendEntriesReply
  accepted args rf reply = record reply { term = args.term; success = true; server_id = rf.me }

  pub request_current :
      (now : ℤ) (rf : Raft C) (args : AppendEntriesArgs C) (reply : AppendEntriesReply)
      (handled : Raft C × AppendEntriesReply)
      → rf.current_term ≤ℤ args.term
      → follower_handle_log (following now args.term rf) args (accepted args rf reply) ≡ ok handled
      → append_entries_request_handler now rf args reply ≡ finish args handled
  unfolding append_entries_request_handler
  request_current now rf args reply handled le run =
      let current : ltb_ℤ args.term rf.current_term ≡ false = ground arith in
      rw current (bind_ok (finish args) run)

  pub finish_refused :
      (args : AppendEntriesArgs C) (rf : Raft C) (reply : AppendEntriesReply)
      → reply.success ≡ false
      → finish args (rf, reply) ≡ ok (persist rf, reply)
  finish_refused args rf reply refused = rw refused

  pub finish_accepted :
      (args : AppendEntriesArgs C) (rf rf' : Raft C) (reply : AppendEntriesReply)
      → reply.success ≡ true
      → follower_update_commit_index args.leader_commit rf ≡ ok rf'
      → finish args (rf, reply) ≡ ok (persist rf', reply)
  finish_accepted args rf rf' reply success run = rw success (bind_ok _ run)

  Replicated-transfer :
      (old : List (LogEntry C)) (rf rf' : Raft C) (args : AppendEntriesArgs C)
      → rf'.log ≡ rf.log
      → rf'.snapshot_index ≡ rf.snapshot_index
      → Replicated old rf args
      → Replicated old rf' args
  Replicated-transfer old rf rf' args same base (in_snapshot le) =
      in_snapshot (omega (arith, parts_of_eq base))
  Replicated-transfer old rf rf' args same base
        (in_log skipped new before rest split at last holds) =
      in_log skipped new before rest split (same ∙ at) (ap (λ i. last_index i before) base ∙ last)
        holds

  pub append_entries_request-Obeys :
      (now : ℤ) (rf : Raft C) (args : AppendEntriesArgs C) (reply : AppendEntriesReply)
      → IsWellFormed rf
      → Fits rf args
      → rf.current_term ≤ℤ args.term
      → Obeys rf args (append_entries_request_handler now rf args reply)
  unfolding persist
  append_entries_request-Obeys now rf args reply wf fits le =
      let (wf1, fits1, commit1, term1, role1, base1) = following_lem now rf args wf fits le in
      let rf1 = following now args.term rf in
      let a = follower_handle_log-Answered rf1 args (accepted args rf reply) wf1 fits1 in
      let rf2 : Raft C = record rf1 { log = a.log } in
      let run = request_current now rf args reply (rf2, a.reply') le a.answers in
      elim (Bool-cases a.reply'.success) [
        | inl success ↦
            let (rf3, run3, wf3, c) =
              follower_update_commit_index-commits args.leader_commit rf2 a.well_formed in
            let (log3, base3, term3, role3, grows, target) =
              FollowerCommits-fields args.leader_commit rf2 rf3 a.well_formed c in
            record {
              rf' = persist rf3;
              reply' = a.reply';
              answers = run ∙ finish_accepted args rf2 rf3 a.reply' success run3;
              well_formed = persist-IsWellFormed rf3 wf3;
              term = term3 ∙ term1;
              role = role3 ∙ role1;
              reply_term = a.kept_term;
              reply_id = a.kept_id;
              replicated = λ s.
                  subst (λ old. Replicated old (persist rf3) args)
                    (following_keeps now args.term rf).0
                    (Replicated-transfer rf1.log rf2 (persist rf3) args log3 base3
                      (a.replicated s));
              commit_grows = omega (arith, parts_of_eq commit1, grows);
              commit_kept = λ f. cc;
              commit_follows = λ s.
                  subst
                    (λ c. rf3.commit_index ≡ (
                      if leb_ℤ args.leader_commit c
                      then c
                      else commit_target args.leader_commit rf3))
                    commit1 target;
            }
        | inr refused ↦ record {
          rf' = persist rf2;
          reply' = a.reply';
          answers = run ∙ finish_refused args rf2 a.reply' refused;
          well_formed = persist-IsWellFormed rf2 a.well_formed;
          term = term1;
          role = role1;
          reply_term = a.kept_term;
          reply_id = a.kept_id;
          replicated = λ s. cc;
          commit_grows = omega (arith, parts_of_eq commit1);
          commit_kept = λ f. commit1;
          commit_follows = λ s. cc;
        }
      ]
