-- ===== src/Raft/FollowerLog/Cases.antt =====
-- followerHandleLog as a whole: which branch it takes, and what each leaves.
use model_lib.Prelude.{
  ℕ, suc, ◌≡◌, refl, sym, ap, ap₂, ◌∙◌, ◌≢◌, inl, inr, true, false, List, [], ◌∷◌, ◌++◌, arith,
  if◌then◌else◌, if_true, if_false, Bool-cases, length, append_cons_assoc,
}
use model_lib.Prelude.Go.{Outcome, ok, bind_ok, get}
use model_lib.Prelude.Int.{
  ℤ, pos, minus_one, ◌≤ℤ◌, ◌<ℤ◌, ltb_ℤ, ◌==ℤ◌, inc, ==ℤ→≡, ==ℤ→≢, pos-==ℤ-minus_one, parts_of_eq,
}
use model_lib.Prelude.Slices.{length-snoc, get-split}
use model_lib.Raft.FollowerLog.{
  answer, handle_compacted, handle_conflict, handle_match, follower_handle_log,
}
use model_lib.Raft.FollowerLog.Compacted.{Behind, handle_compacted_lem}
use model_lib.Raft.FollowerLog.Conflict.{FirstOfTerm, handle_conflict_lem}
use model_lib.Raft.FollowerLog.Match.{taken, handle_match_lem}
use model_lib.Raft.Log.{find_index, get_last_log_index_and_term, find_index_cases}
use model_lib.Raft.Log.Contiguous.{
  Contiguous, last_index, last_index-append, Lacks_out, FoundAt-above,
}
use model_lib.Raft.State.{LogEntry, Raft, AppendEntriesArgs, AppendEntriesReply}
use model_lib.Raft.WellFormed.{IsWellFormed, Fits, get_last-last_index}

module _ {C : Type 0} where
  -- The entry in front of the split has PrevLogIndex and PrevLogTerm, or the split is the start of
  -- the log and PrevLogIndex is -1.
  pub data MatchesAt (args : AppendEntriesArgs C) (before : List (LogEntry C)) : Type 0 where
    at_start : args.prev_log_index ≡ minus_one → before ≡ [] → MatchesAt args before
    at_entry :
        (earlier : List (LogEntry C)) (e : LogEntry C)
        → before ≡ earlier ++ e ∷ []
        → e.index ≡ args.prev_log_index
        → e.term ≡ args.prev_log_term
        → MatchesAt args before

  -- The four outcomes of a follower's log check, with the new state and the reply of each.
  pub data Handled (rf : Raft C) (args : AppendEntriesArgs C) (reply : AppendEntriesReply)
      (result : Outcome (Raft C × AppendEntriesReply)) : Type 0 where
    too_short :
        last_index rf.snapshot_index rf.log <ℤ args.prev_log_index
        → result
          ≡ ok (
            rf,
            answer reply false minus_one
                (inc (last_index rf.snapshot_index rf.log))
                (length rf.log),
          )
        → Handled rf args reply result
    conflict :
        (before after : List (LogEntry C)) (e : LogEntry C)
        → rf.log ≡ before ++ e ∷ after
        → e.index ≡ args.prev_log_index
        → e.term ≢ args.prev_log_term
        → (f : FirstOfTerm e.term (before ++ e ∷ []))
        → result
          ≡ ok (record rf { log = before }, answer reply false e.term f.entry.index (length before))
        → Handled rf args reply result
    compacted :
        (log : List (LogEntry C))
        → args.prev_log_index ≤ℤ rf.snapshot_index
        → Contiguous rf.snapshot_index log
        → rf.commit_index ≤ℤ last_index rf.snapshot_index log
        → Behind rf.snapshot_index args rf.log log
        → result ≡ ok (record rf { log = log }, answer reply true minus_one minus_one (length log))
        → Handled rf args reply result
    agrees :
        (before after : List (LogEntry C))
        → rf.log ≡ before ++ after
        → MatchesAt args before
        → last_index rf.snapshot_index before ≡ args.prev_log_index
        → result
          ≡ ok (
            record rf { log = before ++ taken after args.entries },
            answer reply true minus_one minus_one (length (before ++ taken after args.entries)),
          )
        → Handled rf args reply result

  -- One equation for each path through the code.
  module _ (rf : Raft C) (args : AppendEntriesArgs C) (reply : AppendEntriesReply) where
    step_short :
        ltb_ℤ (get_last_log_index_and_term rf).0 args.prev_log_index ≡ true
        → follower_handle_log rf args reply
          ≡ ok (
            rf,
            answer reply false minus_one (inc (get_last_log_index_and_term rf).0) (length rf.log),
          )
    unfolding follower_handle_log
    step_short short = rw short

    module _ (long : ltb_ℤ (get_last_log_index_and_term rf).0 args.prev_log_index ≡ false) where
      pub step_start :
          (args.prev_log_index ==ℤ minus_one) ≡ true
          → find_index rf.log args.prev_log_index ≡ minus_one
          → follower_handle_log rf args reply ≡ handle_match rf args minus_one reply
      unfolding follower_handle_log
      step_start start lost = rw (long, start) (ap (λ (i : ℤ). handle_match rf args i reply) lost)

      step_compacted :
          (args.prev_log_index ==ℤ minus_one) ≡ false
          → find_index rf.log args.prev_log_index ≡ minus_one
          → follower_handle_log rf args reply ≡ handle_compacted rf args reply
      unfolding follower_handle_log
      step_compacted later lost = rw (long, later) (rw lost refl)

      step_found :
          (k : ℕ) (e : LogEntry C)
          → (args.prev_log_index ==ℤ minus_one) ≡ false
          → find_index rf.log args.prev_log_index ≡ pos k
          → get rf.log (pos k) ≡ ok e
          → follower_handle_log rf args reply ≡ (
              if e.term ==ℤ args.prev_log_term
              then handle_match rf args (pos k) reply
              else handle_conflict rf (pos k) e reply)
      unfolding follower_handle_log
      step_found k e later found read =
          rw (long, later) (rw found (rw (pos-==ℤ-minus_one k) (bind_ok _ read)))

  -- followerHandleLog on a well-formed peer, for a fitting request, never panics and takes one of
  -- the four branches of `Handled`, with the new log and the reply that the branch describes.
  pub follower_handle_log-Handled :
      (rf : Raft C) (args : AppendEntriesArgs C) (reply : AppendEntriesReply)
      → IsWellFormed rf
      → Fits rf args
      → Handled rf args reply (follower_handle_log rf args reply)
  follower_handle_log-Handled rf args reply wf fits =
      let last = get_last-last_index rf in
      elim (Bool-cases (ltb_ℤ (get_last_log_index_and_term rf).0 args.prev_log_index)) [
        | inl short ↦ too_short (ground (arith, parts_of_eq last)) (
            step_short rf args reply short
            ∙ ap (λ i. ok (rf, answer reply false minus_one (inc i) (length rf.log))) last)
        | inr long ↦ elim (Bool-cases (args.prev_log_index ==ℤ minus_one)) [
          | inl start ↦
              let prev : args.prev_log_index ≡ minus_one =
                ==ℤ→≡ args.prev_log_index minus_one start in
              let base : rf.snapshot_index ≡ args.prev_log_index = fits.start prev ∙ sym prev in
              elim (find_index_cases rf.log args.prev_log_index) [
                | inl (lost, _) ↦ agrees [] rf.log refl (at_start prev refl) base (
                    step_start rf args reply long start lost
                    ∙ handle_match_lem rf args minus_one reply [] rf.log refl (unfold inc in refl))
                | inr (k, _, f) ↦ absurd (
                    omega (
                      arith,
                      parts_of_eq base,
                      FoundAt-above rf.snapshot_index args.prev_log_index rf.log k f
                          wf.log_contiguous,
                    ))
              ]
          | inr later ↦ elim (find_index_cases rf.log args.prev_log_index) [
            | inl (lost, lacks) ↦
                let inside : args.prev_log_index ≤ℤ rf.snapshot_index = ground (
                  arith,
                  parts_of_eq last,
                  Lacks_out rf.snapshot_index args.prev_log_index rf.log wf.log_contiguous lacks,
                ) in
                let (log, run, h, c, behind_snapshot) =
                  handle_compacted_lem rf args reply wf fits inside in
                compacted log inside h c behind_snapshot
                  (step_compacted rf args reply long later lost ∙ run)
            | inr (k, found, f) ↦
                let read : get rf.log (pos k) ≡ ok f.entry =
                  ap₂ (λ l (n : ℕ). get l (pos n)) f.split (sym f.at)
                  ∙ get-split f.before f.after f.entry in
                let step = step_found rf args reply long k f.entry later found read in
                elim (Bool-cases (f.entry.term ==ℤ args.prev_log_term)) [
                  | inl same ↦
                      agrees (f.before ++ f.entry ∷ []) f.after
                        (f.split ∙ sym (append_cons_assoc f.before f.after f.entry))
                        (at_entry f.before f.entry refl f.has_index
                          (==ℤ→≡ f.entry.term args.prev_log_term same))
                        (last_index-append rf.snapshot_index f.before (f.entry ∷ []) ∙ f.has_index)
                        (step
                          ∙ if_true _ _ same
                          ∙ handle_match_lem rf args (pos k) reply (f.before ++ f.entry ∷ [])
                              f.after (f.split ∙ sym (append_cons_assoc f.before f.after f.entry))
                              (unfold inc in
                                ap (λ (n : ℕ). pos n)
                                  (ap suc (sym f.at) ∙ sym (length-snoc f.before f.entry))))
                  | inr differs ↦
                      let (first, run) =
                        handle_conflict_lem rf reply f.before f.after f.entry f.split in
                      conflict f.before f.after f.entry f.split f.has_index
                        (==ℤ→≢ f.entry.term args.prev_log_term differs) first
                        (step
                          ∙ if_false _ _ differs
                          ∙ ap (λ (n : ℕ). handle_conflict rf (pos n) f.entry reply) (sym f.at)
                          ∙ run)
                ]
          ]
        ]
      ]
