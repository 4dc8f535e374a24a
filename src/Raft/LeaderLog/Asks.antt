-- ===== src/Raft/LeaderLog/Asks.antt =====
-- Which request a leader sends to a server: the loop body of leaderSendAppendEntriesRPC.
use model_lib.Prelude.{
  ℕ, ◌≡◌, refl, sym, ap, subst, ap₂, ◌∙◌, inl, inr, true, false, List, [], ◌∷◌, ◌++◌, arith,
  Bool-cases, append_cons_assoc,
}
use model_lib.Prelude.Go.{ok, bind_ok, get, slice_from}
use model_lib.Prelude.Int.{
  ℤ, pos, ◌-ℤ◌, ◌≤ℤ◌, ltb_ℤ, ◌==ℤ◌, inc, eq_of_parts, inc_parts, ==ℤ→≡, pos-==ℤ-minus_one,
  parts_of_eq, int_laws,
}
use model_lib.Prelude.Slices.{get-split, slice_from-after}
use model_lib.Raft.LeaderLog.{Request, append_entries, install_snapshot, request_for}
use model_lib.Raft.Log.{find_index, last_of}
use model_lib.Raft.Log.Contiguous.{Contiguous, last_index, find_index_inside}
use model_lib.Raft.State.{LogEntry, Raft, AppendEntriesArgs, InstallSnapshotArgs}
use model_lib.Raft.WellFormed.{IsWellFormed}

module _ {C : Type 0} where
  -- The arguments ask for the whole rest of the log from index `n` on, and carry the index and the
  -- term of the entry before it, the leader's term and its commit index.
  pub record Continues (rf : Raft C) (n : ℤ) (args : AppendEntriesArgs C) : Type 0 where
    pub before : List (LogEntry C)
    pub term : args.term ≡ rf.current_term
    pub commit : args.leader_commit ≡ rf.commit_index
    pub from : inc args.prev_log_index ≡ n
    pub split : rf.log ≡ before ++ args.entries
    pub prev :
        (args.prev_log_index, args.prev_log_term)
        ≡ last_of rf.snapshot_index rf.snapshot_term before
    pub contiguous : Contiguous args.prev_log_index args.entries
    pub to_end : last_index args.prev_log_index args.entries ≡ last_index rf.snapshot_index rf.log

  abbrev pub snapshot_args : Raft C → InstallSnapshotArgs
  snapshot_args rf = record {
    term = rf.current_term;
    leader_id = rf.me;
    last_included_index = rf.snapshot_index;
    last_included_term = rf.snapshot_term;
    snapshot = rf.snapshot;
  }

  -- The request to a server whose next index is `n`: the snapshot if the entry before `n` is
  -- compacted away, else the rest of the log.
  pub data Asks (rf : Raft C) (n : ℤ) (request : Request C) : Type 0 where
    snapshot_needed :
        n ≤ℤ rf.snapshot_index → request ≡ install_snapshot (snapshot_args rf) → Asks rf n request
    entries_from :
        (args : AppendEntriesArgs C)
        → request ≡ append_entries args
        → Continues rf n args
        → Asks rf n request

  abbrev pub append_from : Raft C → ℤ → ℤ → List (LogEntry C) → Request C
  append_from rf prev_log_index prev_log_term entries = append_entries (record {
    term = rf.current_term;
    leader_id = rf.me;
    prev_log_index = prev_log_index;
    prev_log_term = prev_log_term;
    entries = entries;
    leader_commit = rf.commit_index;
  })

  -- One equation for each path through the code.
  module _ (rf : Raft C) (server n : ℤ) (next : get rf.next_index server ≡ ok n) where
    pub ask_snapshot :
        ltb_ℤ (n -ℤ pos 1) rf.snapshot_index ≡ true
        → request_for rf server ≡ ok (install_snapshot (snapshot_args rf))
    unfolding request_for
    ask_snapshot low = bind_ok _ next ∙ rw low

    ask_all :
        ltb_ℤ (n -ℤ pos 1) rf.snapshot_index ≡ false
        → (n -ℤ pos 1 ==ℤ rf.snapshot_index) ≡ true
        → request_for rf server ≡ ok (append_from rf (n -ℤ pos 1) rf.snapshot_term rf.log)
    unfolding request_for
    ask_all low same = bind_ok _ next ∙ rw (low, same)

    ask_rest :
        (k : ℕ) (e : LogEntry C) (entries : List (LogEntry C))
        → ltb_ℤ (n -ℤ pos 1) rf.snapshot_index ≡ false
        → (n -ℤ pos 1 ==ℤ rf.snapshot_index) ≡ false
        → find_index rf.log (n -ℤ pos 1) ≡ pos k
        → get rf.log (pos k) ≡ ok e
        → slice_from rf.log (inc (pos k)) ≡ ok entries
        → request_for rf server ≡ ok (append_from rf (n -ℤ pos 1) e.term entries)
    unfolding request_for
    ask_rest k e entries low other found read rest =
        bind_ok _ next
        ∙ rw (low, other) (rw found (rw (pos-==ℤ-minus_one k) (bind_ok _ read ∙ bind_ok _ rest)))

  pub last_of-append :
      (b t : ℤ) (before : List (LogEntry C)) (e : LogEntry C)
      → last_of b t (before ++ e ∷ []) ≡ (e.index, e.term)
  last_of-append b t [] e = refl
  last_of-append b t (x ∷ before) e = last_of-append x.index x.term before e

  -- A well-formed leader builds the request for a server whose next index is not beyond the end of
  -- the log without a panic, by the rule of `Asks`: the snapshot if the entry before the next
  -- index is compacted away, else the rest of the log from the next index on.
  pub request_for-Asks :
      (rf : Raft C) (server n : ℤ)
      → IsWellFormed rf
      → get rf.next_index server ≡ ok n
      → n ≤ℤ inc (last_index rf.snapshot_index rf.log)
      → (request : Request C) × (request_for rf server ≡ ok request) × Asks rf n request
  request_for-Asks rf server n wf next reaches =
      let prev : ℤ = n -ℤ pos 1 in
      let before_n : inc prev ≡ n = eq_of_parts (inc prev) n (omega int_laws) in
      elim (Bool-cases (ltb_ℤ prev rf.snapshot_index)) [
        | inl low ↦ (
          _,
          ask_snapshot rf server n next low,
          snapshot_needed (ground (arith, inc_parts prev, parts_of_eq before_n)) refl,
        )
        | inr high ↦ elim (Bool-cases (prev ==ℤ rf.snapshot_index)) [
          | inl same ↦
              let at : prev ≡ rf.snapshot_index = ==ℤ→≡ prev rf.snapshot_index same in
              (
                _,
                ask_all rf server n next high same,
                entries_from _ refl (record {
                  before = [];
                  term = refl;
                  commit = refl;
                  from = before_n;
                  split = refl;
                  prev = ap (λ i. (i, rf.snapshot_term)) at;
                  contiguous = subst (λ i. Contiguous i rf.log) (sym at) wf.log_contiguous;
                  to_end = ap (λ i. last_index i rf.log) at;
                }),
              )
          | inr other ↦
              let (k, f, found, s) =
                find_index_inside rf.snapshot_index prev rf.log wf.log_contiguous (ground arith)
                  (omega (int_laws, parts_of_eq before_n)) in
              let e = f.entry in
              (
                _,
                ask_rest rf server n next k e f.after high other found
                    (ap₂ (λ l (m : ℕ). get l (pos m)) f.split (sym f.at)
                      ∙ get-split f.before f.after e)
                    (ap₂ (λ l (m : ℕ). slice_from l (inc (pos m))) f.split (sym f.at)
                      ∙ slice_from-after f.before f.after e),
                entries_from _ refl (record {
                  before = f.before ++ e ∷ [];
                  term = refl;
                  commit = refl;
                  from = before_n;
                  split = f.split ∙ sym (append_cons_assoc f.before f.after e);
                  prev =
                      ap (λ i. (i, e.term)) (sym f.has_index)
                      ∙ sym (last_of-append rf.snapshot_index rf.snapshot_term f.before e);
                  contiguous = s.right;
                  to_end = s.last;
                }),
              )
        ]
      ]
