-- ===== src/Raft/CatchUp/Agree.antt =====
-- The request of a leader that a follower agrees with fits the follower.
use model_lib.Prelude.{
  ◌≡◌, sym, ap, subst, ◌∙◌, List, [], ◌∷◌, ◌++◌, All, All-right, All-left, All-mono,
}
use model_lib.Prelude.Int.{ℤ, ◌≤ℤ◌, inc, parts_of_eq, int_laws}
use model_lib.Raft.CatchUp.{Together}
use model_lib.Raft.LeaderLog.Asks.{Continues}
use model_lib.Raft.Log.{last_of}
use model_lib.Raft.State.{LogEntry, Raft, AppendEntriesArgs}
use model_lib.Raft.WellFormed.{Agrees, Fits}

module _ {C : Type 0} where
  -- What agrees with a log's base and its entries agrees with the last of them.
  Agrees-last_of :
      (c i t : ℤ) (log before : List (LogEntry C))
      → All (λ x. x.index ≡ i → x.index ≤ℤ c → x.term ≡ t) log
      → Agrees c log before
      → let last = last_of i t before in
        All (λ x. x.index ≡ last.0 → x.index ≤ℤ c → x.term ≡ last.1) log
  Agrees-last_of c i t log [] base h = base
  Agrees-last_of c i t log (e ∷ before) base h =
      Agrees-last_of c e.index e.term log before (All-mono _ _ log (λ x a. a.0) h)
        (All-mono _ _ log (λ x a. a.1) h)

  pub Continues-Fits :
      (led followed : Raft C) (n : ℤ) (args : AppendEntriesArgs C)
      → Together led followed n
      → Continues led n args
      → Fits followed args
  Continues-Fits led followed n args t c =
      let whole : Agrees followed.commit_index followed.log (c.before ++ args.entries) =
        subst (Agrees followed.commit_index followed.log) c.split t.agree in
      let last =
        Agrees-last_of followed.commit_index led.snapshot_index led.snapshot_term followed.log
          c.before t.agree_base
          (All-mono _ _ followed.log (λ x a. All-left _ c.before args.entries a) whole) in
      record {
        entries_contiguous = c.contiguous;
        prev_low = omega (int_laws, parts_of_eq c.from, t.low);
        start = λ at. t.start (unfold inc in sym c.from ∙ ap inc at);
        prev_agrees =
            subst
              (λ p.
                All (λ x. x.index ≡ p.0 → x.index ≤ℤ followed.commit_index → x.term ≡ p.1)
                  followed.log)
              (sym c.prev) last;
        entries_agree =
            All-mono _ _ followed.log (λ x a. All-right _ c.before args.entries a) whole;
      }
