-- ===== src/Raft/WellFormed.antt =====
-- What holds of a peer between two handlers, and what its requests must agree with.
use model_lib.Prelude.{◌≡◌, sym, subst, ap₂, ◌∙◌, List, arith, All, All-mono}
use model_lib.Prelude.Int.{ℤ, minus_one, ◌≤ℤ◌, parts_of_eq}
use model_lib.Raft.Log.{get_last_log_index_and_term}
use model_lib.Raft.Log.Contiguous.{Contiguous, last_index, last_of-index}
use model_lib.Raft.State.{LogEntry, Raft, AppendEntriesArgs}

module _ {C : Type 0} where
  -- The log has no gaps and starts behind the snapshot; the commit index lies between the snapshot
  -- and the end of the log.
  pub record IsWellFormed (rf : Raft C) : Type 0 where
    pub log_contiguous : Contiguous rf.snapshot_index rf.log
    pub snapshot_low : minus_one ≤ℤ rf.snapshot_index
    pub commit_low : rf.snapshot_index ≤ℤ rf.commit_index
    pub commit_high : rf.commit_index ≤ℤ last_index rf.snapshot_index rf.log

  -- Entries with the same index, up to `commit`, have the same term.
  abbrev pub AgreesAt : ℤ → LogEntry C → LogEntry C → Type 0
  AgreesAt commit x e = x.index ≡ e.index → x.index ≤ℤ commit → x.term ≡ e.term

  abbrev pub Agrees : ℤ → List (LogEntry C) → List (LogEntry C) → Type 0
  Agrees commit log es = All (λ x. All (AgreesAt commit x) es) log

  -- A request that continues at PrevLogIndex and contradicts no committed entry of the receiver. A
  -- request from the very start (PrevLogIndex -1) goes to a peer without a snapshot.
  pub record Fits (rf : Raft C) (args : AppendEntriesArgs C) : Type 0 where
    pub entries_contiguous : Contiguous args.prev_log_index args.entries
    pub prev_low : minus_one ≤ℤ args.prev_log_index
    pub start : args.prev_log_index ≡ minus_one → rf.snapshot_index ≡ minus_one
    pub prev_agrees :
        All
          (λ x.
            x.index ≡ args.prev_log_index
            → x.index ≤ℤ rf.commit_index
            → x.term ≡ args.prev_log_term)
          rf.log
    pub entries_agree : Agrees rf.commit_index rf.log args.entries

  -- Both depend on the log, the snapshot's index and the commit index alone.
  module _ (rf rf' : Raft C) (base : rf'.snapshot_index ≡ rf.snapshot_index)
      (log : rf'.log ≡ rf.log) (commit : rf'.commit_index ≡ rf.commit_index) where
    pub IsWellFormed-same : IsWellFormed rf → IsWellFormed rf'
    IsWellFormed-same wf = record {
      log_contiguous =
          subst (λ i. Contiguous i rf'.log) (sym base)
            (subst (Contiguous rf.snapshot_index) (sym log) wf.log_contiguous);
      snapshot_low = omega (arith, parts_of_eq base, wf.snapshot_low);
      commit_low = omega (arith, parts_of_eq base, parts_of_eq commit, wf.commit_low);
      commit_high =
          omega (arith, parts_of_eq commit, parts_of_eq (ap₂ last_index base log), wf.commit_high);
    }

    pub Fits-same : (args : AppendEntriesArgs C) → Fits rf args → Fits rf' args
    Fits-same args fits =
        let old : (x : LogEntry C) → x.index ≤ℤ rf'.commit_index → x.index ≤ℤ rf.commit_index =
          λ x le. omega (arith, parts_of_eq commit, le) in
        record {
          entries_contiguous = fits.entries_contiguous;
          prev_low = fits.prev_low;
          start = λ at. base ∙ fits.start at;
          prev_agrees =
              All-mono _ _ rf'.log (λ x a at le. a at (old x le))
                (subst (All _) (sym log) fits.prev_agrees);
          entries_agree =
              All-mono _ _ rf'.log (λ x. All-mono _ _ args.entries (λ e a at le. a at (old x le)))
                (subst (All _) (sym log) fits.entries_agree);
        }

  pub get_last-last_index :
      (rf : Raft C) → (get_last_log_index_and_term rf).0 ≡ last_index rf.snapshot_index rf.log
  unfolding get_last_log_index_and_term
  get_last-last_index rf = last_of-index rf.snapshot_index rf.snapshot_term rf.log
