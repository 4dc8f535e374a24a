-- ===== src/Raft/CatchUp/Back.antt =====
-- A leader and a follower after a round that the follower has refused.
use model_lib.Prelude.{◌≡◌, refl, sym, ap, subst, ◌∙◌, false, List, arith, All}
use model_lib.Prelude.Go.{ok, ok-injective, get}
use model_lib.Prelude.Int.{ℤ, ◌≤ℤ◌, parts_of_eq}
use model_lib.Raft.Append.{append_entries_request_handler}
use model_lib.Raft.Append.Answering.{append_entries_request-Obeys}
use model_lib.Raft.Append.Refusing.{Refuses, append_entries_request-Refuses}
use model_lib.Raft.CatchUp.{Together, Round}
use model_lib.Raft.CatchUp.Agree.{Continues-Fits}
use model_lib.Raft.CatchUp.Refusal.{NextIndex, Reason-NextIndex, GoesOn-NextIndex, Reason-keeps}
use model_lib.Raft.LeaderLog.{append_entries, request_for}
use model_lib.Raft.LeaderLog.Asks.{Continues}
use model_lib.Raft.LeaderLog.Refused.{GoesOn, leader_handle_log-refused}
use model_lib.Raft.Persist.{Gob, persist}
use model_lib.Raft.Replication.{response_current}
use model_lib.Raft.State.{Raft, AppendEntriesArgs, AppendEntriesReply, zero_append_reply}
use model_lib.Raft.WellFormed.{IsWellFormed, Agrees, IsWellFormed-same}

module _ {C : Type 0} ⦃g : Gob C⦄ where
  -- The leader and the follower after a refused round: all of the leader but one next index is as
  -- before.
  pub record Back (now : ℤ) (led followed followed' : Raft C) (args : AppendEntriesArgs C)
      (reply : AppendEntriesReply) : Type 0 where
    pub next_index : List ℤ
    pub n' : ℤ
    pub round :
        Round now led followed
          (persist (record led { next_index = next_index }))
          followed'
          args
          reply
    pub together : Together (persist (record led { next_index = next_index })) followed' n'
    pub refuses : Refuses followed args followed' reply
    pub goes_on : GoesOn led reply n'

  -- The leader and the follower are together at the new next index.
  moved-Together :
      (led followed followed' : Raft C) (n n' : ℤ) (args : AppendEntriesArgs C)
      (reply : AppendEntriesReply) (next_index : List ℤ)
      → Together led followed n
      → IsWellFormed followed'
      → followed'.current_term ≤ℤ led.current_term
      → followed'.commit_index ≡ followed.commit_index
      → Refuses followed args followed' reply
      → NextIndex led followed n'
      → get next_index followed.me ≡ ok n'
      → Together (persist (record led { next_index = next_index })) followed' n'
  unfolding persist
  moved-Together led followed followed' n n' args reply next_index t wf newer commit r i next =
      record {
        leads = IsWellFormed-same _ _ refl refl refl t.leads;
        follows = wf;
        newer = newer;
        next = ap (get next_index) r.me ∙ next;
        slot = (t.slot.0, ap (get led.match_index) r.me ∙ t.slot.1);
        low = i.low;
        reaches = i.reaches;
        start = λ zero_next. r.base ∙ i.start zero_next;
        agree =
            subst (λ l. Agrees l followed'.log led.log) (sym commit)
              (Reason-keeps _ followed followed' args reply r.reason t.agree);
        agree_base = Reason-keeps _ followed followed' args reply r.reason (
            subst
              (λ l.
                All (λ x. x.index ≡ led.snapshot_index → x.index ≤ℤ l → x.term ≡ led.snapshot_term)
                  followed.log)
              (sym commit) t.agree_base);
      }

  -- After a refused round, which changes no more of the leader than that server's next index, the
  -- leader and the follower are together again.
  pub refused-Together :
      (now : ℤ) (led followed followed' : Raft C) (n : ℤ) (args : AppendEntriesArgs C)
      (reply : AppendEntriesReply)
      → Together led followed n
      → Continues led n args
      → request_for led followed.me ≡ ok (append_entries args)
      → append_entries_request_handler now followed args zero_append_reply ≡ ok (followed', reply)
      → reply.success ≡ false
      → Back now led followed followed' args reply
  unfolding persist
  refused-Together now led followed followed' n args reply t c asks answers failed =
      let fits = Continues-Fits led followed n args t c in
      let le : followed.current_term ≤ℤ args.term = omega (arith, parts_of_eq c.term, t.newer) in
      let o = append_entries_request-Obeys now followed args zero_append_reply t.follows fits le in
      let same : (o.rf', o.reply') ≡ (followed', reply) = ok-injective (sym o.answers ∙ answers) in
      let rf≡ : o.rf' ≡ followed' = ap (λ p. p.0) same in
      let reply≡ : o.reply' ≡ reply = ap (λ p. p.1) same in
      let id : reply.server_id ≡ followed.me = ap (λ r. r.server_id) (sym reply≡) ∙ o.reply_id in
      let term : followed'.current_term ≡ led.current_term =
        ap (λ s. s.current_term) (sym rf≡) ∙ o.term ∙ c.term in
      let newer : followed'.current_term ≤ℤ led.current_term = omega (arith, parts_of_eq term) in
      let r =
        append_entries_request-Refuses now followed followed' args zero_append_reply reply t.follows
          fits le answers failed in
      let commit : followed'.commit_index ≡ followed.commit_index =
        ap (λ s. s.commit_index) (sym rf≡) ∙ o.commit_kept (ap (λ s. s.success) reply≡ ∙ failed) in
      let (n', next_index, w, run, goes) =
        leader_handle_log-refused led args reply n (ap (get led.next_index) id ∙ t.next) c.from
          failed in
      let led' : Raft C = record led { next_index = next_index } in
      let i =
        GoesOn-NextIndex led followed reply n' t.leads
          (Reason-NextIndex led followed followed' n args reply t c.from r.reason) goes in
      record {
        next_index = next_index;
        n' = n';
        round = record {
          asks = asks;
          answers = answers;
          handles =
              response_current led led' args reply
                (ap (λ s. s.term) (sym reply≡) ∙ o.reply_term ∙ c.term) c.term run;
          same_log = refl;
        };
        together =
            moved-Together led followed followed' n n' args reply next_index t
              (subst IsWellFormed rf≡ o.well_formed) (omega (arith, parts_of_eq term)) commit r i
              (ap (get next_index) (sym id) ∙ w.at);
        refuses = r;
        goes_on = goes;
      }
