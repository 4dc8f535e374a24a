-- ===== src/Raft/CatchUp/Rounds.antt =====
-- Rounds of replication until the follower has caught up.
use model_lib.Prelude.{
  ℕ, ◌+◌, ◌*◌, ◌≤◌, ◌≡◌, ap, ◌∙◌, ◌⊎◌, inl, inr, false, arith, Bool-cases, length,
}
use model_lib.Prelude.Go.{ok}
use model_lib.Prelude.Int.{ℤ, ◌≤ℤ◌, inc, parts_of_eq}
use model_lib.Raft.Append.Answering.{append_entries_request-Obeys}
use model_lib.Raft.CatchUp.{Together, UpToDate}
use model_lib.Raft.CatchUp.Agree.{Continues-Fits}
use model_lib.Raft.CatchUp.Back.{Back, refused-Together}
use model_lib.Raft.LeaderLog.{install_snapshot, request_for}
use model_lib.Raft.LeaderLog.Asks.{snapshot_args, snapshot_needed, entries_from, request_for-Asks}
use model_lib.Raft.Log.Contiguous.{last_index}
use model_lib.Raft.Persist.{Gob}
use model_lib.Raft.Replication.{replication_round}
use model_lib.Raft.State.{Raft, AppendEntriesArgs, AppendEntriesReply, zero_append_reply}

module _ {C : Type 0} where
  -- Enough refusals are left: two for each entry of the follower's log, and one more as long as the
  -- leader's next index lies beyond the end of that log.
  Enough : ℕ → Raft C → ℤ → Type 0
  Enough k rf n =
      (1 + 2 * length rf.log ≤ k)
      ⊎ ((2 * length rf.log ≤ k) × (n ≤ℤ inc (last_index rf.snapshot_index rf.log)))

module _ {C : Type 0} ⦃g : Gob C⦄ where
  -- What one round comes to.
  pub data Turn (now : ℤ) (led followed : Raft C) (n : ℤ) : Type 0 where
    asks_snapshot :
        n ≤ℤ led.snapshot_index
        → request_for led followed.me ≡ ok (install_snapshot (snapshot_args led))
        → Turn now led followed n
    succeeds : UpToDate now led followed → Turn now led followed n
    is_refused :
        (followed' : Raft C) (args : AppendEntriesArgs C) (reply : AppendEntriesReply)
        → inc args.prev_log_index ≡ n
        → reply.success ≡ false
        → Back now led followed followed' args reply
        → Turn now led followed n

  pub Together-Turn :
      (now : ℤ) (led followed : Raft C) (n : ℤ) → Together led followed n → Turn now led followed n
  Together-Turn now led followed n t =
      let (request, asks, rule) = request_for-Asks led followed.me n t.leads t.next t.reaches in
      elim rule [
        | snapshot_needed low is ↦ asks_snapshot low (asks ∙ ap ok is)
        | entries_from args is c ↦
            let fits = Continues-Fits led followed n args t c in
            let o =
              append_entries_request-Obeys now followed args zero_append_reply t.follows fits
                (omega (arith, parts_of_eq c.term, t.newer)) in
            elim (Bool-cases o.reply'.success) [
              | inl success ↦
                  let (_, replicated, (led', handles, same_log, reached, _)) =
                    replication_round now led followed o.rf' args o.reply' n t.slot.0 t.follows
                      t.next t.slot.1 c fits t.newer o.answers success in
                  succeeds (record {
                    led' = led';
                    followed' = o.rf';
                    args = args;
                    reply = o.reply';
                    round = record {
                      asks = asks ∙ ap ok is;
                      answers = o.answers;
                      handles = handles;
                      same_log = same_log;
                    };
                    success = success;
                    replicated = replicated;
                    reached = reached;
                  })
              | inr failed ↦ is_refused o.rf' args o.reply' c.from failed (
                  refused-Together now led followed o.rf' n args o.reply' t c (asks ∙ ap ok is)
                    o.answers failed)
            ]
      ]
