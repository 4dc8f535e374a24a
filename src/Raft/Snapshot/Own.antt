-- ===== src/Raft/Snapshot/Own.antt =====
-- A snapshot that the service takes: Snapshot and installCurRfSnapShot.
use model_lib.Prelude.{
  ℕ, suc, ◌≡◌, refl, sym, ap, subst, ap₂, ◌∙◌, inl, inr, List, [], ◌∷◌, ◌++◌, map, arith,
  Bool-cases, length, append_cons_assoc,
}
use model_lib.Prelude.Go.{ok, bind_ok, get, slice_from}
use model_lib.Prelude.Int.{
  ℤ, pos, pos_part, ◌-ℤ◌, ◌≤ℤ◌, ◌<ℤ◌, ltb_ℤ, inc, eq_of_parts, pos-==ℤ-minus_one, parts_of_eq,
  int_laws,
}
use model_lib.Prelude.Slices.{length-snoc, get-split, slice_from-after}
use model_lib.Raft.Commit.{collect}
use model_lib.Raft.Commit.Send.{collect_lem}
use model_lib.Raft.Log.{find_index, find_index_cases}
use model_lib.Raft.Log.Contiguous.{
  Contiguous, last_index, last_index-append, FoundAt-above, find_index_inside,
}
use model_lib.Raft.Persist.{Gob, clone, save, clone_lem, persistent_state, persist}
use model_lib.Raft.Snapshot.{
  recommit_msg, recommit, own_snapshot, install_cur_rf_snapshot, raft_snapshot,
}
use model_lib.Raft.State.{LogEntry, Raft, go_put_apply_ch_buffer, snapshot_msg}
use model_lib.Raft.WellFormed.{IsWellFormed, IsWellFormed-same}

module _ {C : Type 0} ⦃g : Gob C⦄ where
  -- The peer behind its own snapshot up to `index`: the log behind it stays, the commit index stays,
  -- and one batch goes to the service, the snapshot and then the committed entries behind it.
  pub record Compacts (rf : Raft C) (index : ℤ) (bytes : List ℕ) (rf' : Raft C) : Type 0 where
    pub before : List (LogEntry C)
    pub entry : LogEntry C
    pub committed_entries : List (LogEntry C)
    pub later : List (LogEntry C)
    pub split : rf.log ≡ before ++ entry ∷ rf'.log
    pub log : rf'.log ≡ committed_entries ++ later
    pub entry_index : entry.index ≡ index
    pub snapshot_index : rf'.snapshot_index ≡ index
    pub snapshot_term : rf'.snapshot_term ≡ entry.term
    pub snapshot : rf'.snapshot ≡ bytes
    pub commit : rf'.commit_index ≡ rf.commit_index
    pub committed_to : last_index index committed_entries ≡ rf.commit_index
    pub sent :
        rf'.apply_goroutines
        ≡ rf.apply_goroutines ++ (snapshot_msg rf' ∷ map recommit_msg committed_entries) ∷ []
    pub well_formed : IsWellFormed rf'
    pub stored : rf'.persister.raftstate ≡ clone (g.encode (persistent_state rf'))
    pub stored_snapshot : rf'.persister.snapshot ≡ bytes

  -- The committed entries behind the snapshot are read without a panic.
  recommit_lem :
      (rf : Raft C)
      → IsWellFormed rf
      → (entries later : List (LogEntry C)) × (rf.log ≡ entries ++ later)
        × (last_index rf.snapshot_index entries ≡ rf.commit_index)
        × (recommit rf ≡ ok (map recommit_msg entries))
  unfolding recommit
  recommit_lem rf wf = elim (Bool-cases (ltb_ℤ rf.snapshot_index rf.commit_index)) [
    | inl more ↦
        let (k, f, found, s) =
          find_index_inside rf.snapshot_index rf.commit_index rf.log wf.log_contiguous
            (ground arith) wf.commit_high in
        let entries = f.before ++ f.entry ∷ [] in
        let split : rf.log ≡ entries ++ f.after =
          f.split ∙ sym (append_cons_assoc f.before f.after f.entry) in
        let count : pos_part (inc (find_index rf.log rf.commit_index)) ≡ length entries =
          ap (λ i. pos_part (inc i)) found
          ∙ unfold inc in (ap suc (sym f.at) ∙ sym (length-snoc f.before f.entry)) in
        (
          entries,
          f.after,
          split,
          last_index-append rf.snapshot_index f.before (f.entry ∷ []) ∙ f.has_index,
          rw more (
              ap₂ (λ l (n : ℕ). collect recommit_msg l (pos 0) n) split count
              ∙ collect_lem recommit_msg [] entries f.after),
        )
    | inr none_left ↦ (
      [],
      rf.log,
      refl,
      eq_of_parts rf.snapshot_index rf.commit_index (ground (arith, wf.commit_low)),
      rw none_left,
    )
  ]

  -- On a well-formed peer a snapshot up to an index that the peer's snapshot has covered already
  -- changes nothing but stable storage.
  pub raft_snapshot-covered :
      (index : ℤ) (bytes : List ℕ) (rf : Raft C)
      → IsWellFormed rf
      → index ≤ℤ inc rf.snapshot_index
      → raft_snapshot index bytes rf ≡ ok (persist rf)
  unfolding raft_snapshot install_cur_rf_snapshot
  raft_snapshot-covered index bytes rf wf le = elim (find_index_cases rf.log (index -ℤ pos 1)) [
    | inl (lost, _) ↦ rw lost
    | inr (k, _, f) ↦ absurd (
        omega
          (int_laws, FoundAt-above rf.snapshot_index (index -ℤ pos 1) rf.log k f wf.log_contiguous))
  ]

  -- The service, which counts from 1, hands a well-formed peer a snapshot up to a committed index
  -- behind the peer's snapshot: without a panic the log is cut behind that index, the snapshot
  -- takes its place, the commit index stays, and one batch goes to the service, the snapshot and
  -- then the committed entries behind it; the new state's encoding and the snapshot are in stable
  -- storage, and the peer is well-formed.
  pub raft_snapshot-Compacts :
      (index : ℤ) (bytes : List ℕ) (rf : Raft C)
      → IsWellFormed rf
      → inc rf.snapshot_index <ℤ index
      → index ≤ℤ inc rf.commit_index
      → (rf' : Raft C) × (raft_snapshot index bytes rf ≡ ok rf')
        × Compacts rf (index -ℤ pos 1) bytes rf'
  unfolding raft_snapshot install_cur_rf_snapshot persist save go_put_apply_ch_buffer
  raft_snapshot-Compacts index bytes rf wf newer committed_index =
      let target : ℤ = index -ℤ pos 1 in
      let (k, f, found, s) =
        find_index_inside rf.snapshot_index target rf.log wf.log_contiguous (omega int_laws)
          (omega (int_laws, wf.commit_high)) in
      let e = f.entry in
      let rf1 = own_snapshot rf bytes e f.after in
      let wf1 : IsWellFormed rf1 = record {
        log_contiguous = subst (λ i. Contiguous i f.after) (sym f.has_index) s.right;
        snapshot_low = omega (int_laws, wf.snapshot_low, parts_of_eq f.has_index);
        commit_low = omega (int_laws, parts_of_eq f.has_index);
        commit_high =
            subst (λ i. rf.commit_index ≤ℤ last_index i f.after) (sym f.has_index)
              (subst (λ i. rf.commit_index ≤ℤ i) (sym s.last) wf.commit_high);
      } in
      let (entries, later, split, to, msgs) = recommit_lem rf1 wf1 in
      let rf2 =
        persist (go_put_apply_ch_buffer (snapshot_msg rf1 ∷ map recommit_msg entries) rf1) in
      (
        rf2,
        rw found (
            rw (pos-==ℤ-minus_one k) (
              bind_ok _
                (ap₂ (λ l (n : ℕ). get l (pos n)) f.split (sym f.at) ∙ get-split f.before f.after e)
              ∙ bind_ok _ (
                  ap₂ (λ l (n : ℕ). slice_from l (inc (pos n))) f.split (sym f.at)
                  ∙ slice_from-after f.before f.after e)
              ∙ bind_ok _ msgs)),
        record {
          before = f.before;
          entry = e;
          committed_entries = entries;
          later = later;
          split = f.split;
          log = split;
          entry_index = f.has_index;
          snapshot_index = f.has_index;
          snapshot_term = refl;
          snapshot = refl;
          commit = refl;
          committed_to = ap (λ i. last_index i entries) (sym f.has_index) ∙ to;
          sent = refl;
          well_formed = IsWellFormed-same _ _ refl refl refl wf1;
          stored = refl;
          stored_snapshot = clone_lem bytes;
        },
      )
