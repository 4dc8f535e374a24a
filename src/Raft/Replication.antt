-- ===== src/Raft/Replication.antt =====
-- One round of replication: a leader's request, the follower's answer, the leader's bookkeeping.
use model_lib.Prelude.{◌≡◌, refl, sym, ap, subst, ◌∙◌, true, false, ◌||◌, arith}
use model_lib.Prelude.Go.{ok, ok-injective, bind_ok, get}
use model_lib.Prelude.Int.{ℤ, ◌≤ℤ◌, ltb_ℤ, inc, parts_of_eq}
use model_lib.Raft.Append.{append_entries_request_handler, append_entries_response_handler}
use model_lib.Raft.Append.Answering.{append_entries_request-Obeys}
use model_lib.Raft.FollowerLog.Safety.{Replicated}
use model_lib.Raft.LeaderLog.{leader_handle_log}
use model_lib.Raft.LeaderLog.Asks.{Continues}
use model_lib.Raft.LeaderLog.Handles.{leader_handle_log-success}
use model_lib.Raft.Log.Contiguous.{last_index}
use model_lib.Raft.Persist.{Gob, persist}
use model_lib.Raft.State.{Raft, AppendEntriesArgs, AppendEntriesReply, zero_append_reply}
use model_lib.Raft.Vote.TwoLeaders.{asked}
use model_lib.Raft.WellFormed.{IsWellFormed, Fits}

module _ {C : Type 0} ⦃g : Gob C⦄ where
  pub response_current :
      (rf rf' : Raft C) (args : AppendEntriesArgs C) (reply : AppendEntriesReply)
      → reply.term ≡ rf.current_term
      → args.term ≡ rf.current_term
      → leader_handle_log rf args reply ≡ ok rf'
      → append_entries_response_handler rf args reply ≡ ok (persist rf')
  unfolding append_entries_response_handler
  response_current rf rf' args reply same asked run =
      let fresh : (ltb_ℤ reply.term rf.current_term || ltb_ℤ args.term rf.current_term) ≡ false =
        ground (arith, parts_of_eq same, parts_of_eq asked) in
      let current : ltb_ℤ rf.current_term reply.term ≡ false = ground (arith, parts_of_eq same) in
      rw (fresh, current) (bind_ok _ run)

  pub replication_round :
      (now : ℤ) (led followed followed' : Raft C) (args : AppendEntriesArgs C)
      (reply : AppendEntriesReply) (n m : ℤ)
      → IsWellFormed followed
      → get led.next_index followed.me ≡ ok n
      → get led.match_index followed.me ≡ ok m
      → Continues led n args
      → Fits followed args
      → followed.current_term ≤ℤ led.current_term
      → append_entries_request_handler now followed args zero_append_reply ≡ ok (followed', reply)
      → reply.success ≡ true
      → IsWellFormed followed'
        × Replicated followed.log followed' args
        × ((led' : Raft C) × (append_entries_response_handler led args reply ≡ ok led')
            × (led'.log ≡ led.log)
            × (get led'.match_index followed.me ≡ ok (last_index led.snapshot_index led.log))
            × (get led'.next_index followed.me ≡ ok (inc (last_index led.snapshot_index led.log))))
  unfolding persist
  replication_round now led followed followed' args reply n m wf next slot asks fits le answers
        success =
      let o =
        append_entries_request-Obeys now followed args zero_append_reply wf fits
          (omega (arith, parts_of_eq asks.term)) in
      let same : (o.rf', o.reply') ≡ (followed', reply) = ok-injective (sym o.answers ∙ answers) in
      let rf≡ : o.rf' ≡ followed' = ap (λ p. p.0) same in
      let reply≡ : o.reply' ≡ reply = ap (λ p. p.1) same in
      let id : reply.server_id ≡ followed.me = ap (λ r. r.server_id) (sym reply≡) ∙ o.reply_id in
      let term : reply.term ≡ args.term = ap (λ r. r.term) (sym reply≡) ∙ o.reply_term in
      let (next_index, match_index, wn, wm, run) =
        leader_handle_log-success led args reply n m (ap (get led.next_index) id ∙ next)
          (ap (get led.match_index) id ∙ slot) asks.from asks.contiguous success in
      let led' : Raft C = record led { next_index = next_index; match_index = match_index } in
      let replicated : Replicated followed.log followed' args =
        subst (λ r. Replicated followed.log r args) rf≡
          (o.replicated (ap (λ r. r.success) reply≡ ∙ success)) in
      (
        subst IsWellFormed rf≡ o.well_formed,
        replicated,
        (
          persist led',
          response_current led led' args reply (term ∙ asks.term) asks.term run,
          refl,
          ap (get match_index) (sym id) ∙ wm.at ∙ ap ok asks.to_end,
          ap (get next_index) (sym id) ∙ wn.at ∙ ap (λ i. ok (inc i)) asks.to_end,
        ),
      )
