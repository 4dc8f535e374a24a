-- ===== src/Raft/Snapshot/Take.antt =====
-- How a peer takes a leader's snapshot: the two branches behind the tests of
-- InstallSnapshotRequestHandler.
use model_lib.Prelude.{
  ℕ, ◌≡◌, refl, sym, subst, ap₂, ◌∙◌, inl, inr, true, false, not, List, [], ◌∷◌, ◌++◌, append-nil,
  arith, if◌then◌else◌, if_true, append_cons_assoc, All, All-right,
}
use model_lib.Prelude.Go.{ok, bind_ok, get, slice_from}
use model_lib.Prelude.Int.{pos, ◌≤ℤ◌, ◌<ℤ◌, ltb_ℤ, ◌==ℤ◌, inc, pos-==ℤ-minus_one, parts_of_eq}
use model_lib.Prelude.Slices.{get-split, slice_from-after}
use model_lib.Raft.Log.{FoundAt, Lacks, find_index_cases}
use model_lib.Raft.Log.Contiguous.{
  Contiguous, last_index, Lacks_out, FoundAt-SplitAt, FoundAt-above,
}
use model_lib.Raft.Snapshot.{whole_installed, take_whole, part_installed, take_part, take_snapshot}
use model_lib.Raft.State.{LogEntry, Raft, InstallSnapshotArgs, go_put_apply_ch_buffer, snapshot_msg}
use model_lib.Raft.WellFormed.{IsWellFormed}

module _ {C : Type 0} where
  -- The snapshot's last entry has one term, also where the peer holds it.
  pub record Consistent (rf : Raft C) (args : InstallSnapshotArgs) : Type 0 where
    pub snapshot_term :
        rf.snapshot_index ≡ args.last_included_index → rf.snapshot_term ≡ args.last_included_term
    pub entry_term :
        All
          (λ (e : LogEntry C).
            e.index ≡ args.last_included_index → e.term ≡ args.last_included_term)
          rf.log

  -- The peer's state behind a snapshot that is new to it.
  pub record Installed (rf : Raft C) (args : InstallSnapshotArgs) (rf' : Raft C) : Type 0 where
    pub well_formed : IsWellFormed rf'
    pub index : rf'.snapshot_index ≡ args.last_included_index
    pub term : rf'.snapshot_term ≡ args.last_included_term
    pub bytes : rf'.snapshot ≡ args.snapshot
    pub suffix : (before : List (LogEntry C)) × (rf.log ≡ before ++ rf'.log)
    pub commit : rf'.commit_index ≡ (
        if ltb_ℤ rf.commit_index args.last_included_index
        then args.last_included_index
        else rf.commit_index)
    pub current_term : rf'.current_term ≡ rf.current_term
    pub me : rf'.me ≡ rf.me
    pub reported : rf'.apply_goroutines ≡ rf.apply_goroutines ++ (snapshot_msg rf' ∷ []) ∷ []

  take_whole_lem :
      (rf : Raft C) (args : InstallSnapshotArgs)
      → IsWellFormed rf
      → rf.snapshot_index <ℤ args.last_included_index
      → Lacks args.last_included_index rf.log
      → (rf' : Raft C) × (take_whole rf args ≡ ok rf') × Installed rf args rf'
  unfolding take_whole go_put_apply_ch_buffer
  take_whole_lem rf args wf newer lacks =
      let beyond : rf.commit_index <ℤ args.last_included_index = omega (
        arith,
        Lacks_out rf.snapshot_index args.last_included_index rf.log wf.log_contiguous lacks,
        wf.commit_high,
      ) in
      let no_panic : ltb_ℤ args.last_included_index rf.commit_index ≡ false = ground arith in
      let raised : ltb_ℤ rf.commit_index args.last_included_index ≡ true = ground arith in
      let rf' = whole_installed rf args in
      (
        go_put_apply_ch_buffer (snapshot_msg rf' ∷ []) rf',
        rw no_panic,
        record {
          well_formed = record {
            log_contiguous = tt;
            snapshot_low = omega (arith, wf.snapshot_low);
            commit_low = omega arith;
            commit_high = omega arith;
          };
          index = refl;
          term = refl;
          bytes = refl;
          suffix = (rf.log, sym (append-nil rf.log));
          commit = sym (if_true _ _ raised);
          current_term = refl;
          me = refl;
          reported = refl;
        },
      )

  take_part_lem :
      (rf : Raft C) (args : InstallSnapshotArgs) (k : ℕ)
      → IsWellFormed rf
      → Consistent rf args
      → rf.snapshot_index <ℤ args.last_included_index
      → FoundAt args.last_included_index rf.log k
      → (rf' : Raft C) × (take_part rf args (pos k) ≡ ok rf') × Installed rf args rf'
  unfolding take_part go_put_apply_ch_buffer
  take_part_lem rf args k wf consistent newer f =
      let s =
        FoundAt-SplitAt rf.snapshot_index args.last_included_index rf.log k f wf.log_contiguous in
      let same =
        (All-right _ f.before (f.entry ∷ f.after) (subst (All _) f.split consistent.entry_term)).0
          f.has_index in
      let e = f.entry in
      let rf' = part_installed rf args e f.after in
      let agree : not (e.term ==ℤ args.last_included_term) ≡ false =
        ground (arith, parts_of_eq same) in
      let run : take_part rf args (pos k)
          ≡ ok (go_put_apply_ch_buffer (snapshot_msg rf' ∷ []) rf') =
        bind_ok _
          (ap₂ (λ l (n : ℕ). get l (pos n)) f.split (sym f.at) ∙ get-split f.before f.after e)
        ∙ bind_ok _ (
            ap₂ (λ l (n : ℕ). slice_from l (inc (pos n))) f.split (sym f.at)
            ∙ slice_from-after f.before f.after e)
        ∙ rw agree in
      (
        go_put_apply_ch_buffer (snapshot_msg rf' ∷ []) rf',
        run,
        record {
          well_formed = record {
            log_contiguous = subst (λ i. Contiguous i f.after) (sym f.has_index) s.right;
            snapshot_low = omega (arith, wf.snapshot_low, parts_of_eq f.has_index);
            commit_low = ground (arith, parts_of_eq f.has_index);
            commit_high =
                subst (λ i. rf'.commit_index ≤ℤ last_index i f.after) (sym f.has_index)
                  (subst (λ i. rf'.commit_index ≤ℤ i) (sym s.last)
                    (ground (
                      arith,
                      wf.commit_high,
                      FoundAt-above rf.snapshot_index args.last_included_index rf.log k f
                          wf.log_contiguous,
                    )));
          };
          index = f.has_index;
          term = same;
          bytes = refl;
          suffix = (f.before ++ e ∷ [], f.split ∙ sym (append_cons_assoc f.before f.after e));
          commit = refl;
          current_term = refl;
          me = refl;
          reported = refl;
        },
      )

  pub take_snapshot_lem :
      (rf : Raft C) (args : InstallSnapshotArgs)
      → IsWellFormed rf
      → Consistent rf args
      → rf.snapshot_index <ℤ args.last_included_index
      → (rf' : Raft C) × (take_snapshot rf args ≡ ok rf') × Installed rf args rf'
  unfolding take_snapshot
  take_snapshot_lem rf args wf consistent newer =
      elim (find_index_cases rf.log args.last_included_index) [
        | inl (lost, lacks) ↦
            let (rf', run, i) = take_whole_lem rf args wf newer lacks in (rf', rw lost run, i)
        | inr (k, found, f) ↦
            let (rf', run, i) = take_part_lem rf args k wf consistent newer f in
            (rf', rw found (rw (pos-==ℤ-minus_one k) run), i)
      ]
