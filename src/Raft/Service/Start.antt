-- ===== src/Raft/Service/Start.antt =====
-- A command that the service hands to a peer: Start of src/raft/raft.go.
use model_lib.Prelude.{◌≡◌, refl, sym, ap, subst₂, ap₂, ◌∙◌, true, false, [], ◌∷◌, ◌++◌, arith}
use model_lib.Prelude.Go.{ok, bind_ok, get}
use model_lib.Prelude.Int.{ℤ, pos, minus_one, inc, parts_of_eq, int_laws}
use model_lib.Raft.LeaderLog.Handles.{put-Written}
use model_lib.Raft.Log.{get_last_log_index_and_term}
use model_lib.Raft.Log.Contiguous.{Contiguous, last_index, last_index-append, Contiguous-append}
use model_lib.Raft.Persist.{Gob, clone, save, persistent_state, persist}
use model_lib.Raft.Service.{raft_start}
use model_lib.Raft.State.{is_leader, LogEntry, Raft}
use model_lib.Raft.WellFormed.{IsWellFormed, get_last-last_index}

module _ {C : Type 0} ⦃g : Gob C⦄ where
  -- What Start has done at a leader.
  pub record Started (command : C) (rf rf' : Raft C) (index : ℤ) : Type 0 where
    pub entry : LogEntry C
    pub log : rf'.log ≡ rf.log ++ entry ∷ []
    pub has_command : entry.command ≡ command
    pub has_term : entry.term ≡ rf.current_term
    pub has_index : index ≡ inc entry.index
    pub well_formed : IsWellFormed rf'
    pub own_match : get rf'.match_index rf.me ≡ ok (last_index rf'.snapshot_index rf'.log)
    pub durable : rf'.persister.raftstate ≡ clone (g.encode (persistent_state rf'))

  -- A peer that does not lead refuses the command and stays as it is.
  pub raft_start-refused :
      (command : C) (rf : Raft C)
      → is_leader rf.role ≡ false
      → raft_start command rf ≡ ok (rf, (minus_one, pos 0, false))
  unfolding raft_start
  raft_start-refused command rf h = rw h

  append_entry-IsWellFormed :
      (rf rf' : Raft C) (e : LogEntry C)
      → IsWellFormed rf
      → e.index ≡ inc (last_index rf.snapshot_index rf.log)
      → rf'.log ≡ rf.log ++ e ∷ []
      → rf'.snapshot_index ≡ rf.snapshot_index
      → rf'.commit_index ≡ rf.commit_index
      → IsWellFormed rf' × (last_index rf'.snapshot_index rf'.log ≡ e.index)
  append_entry-IsWellFormed rf rf' e wf next log base commit =
      let last : last_index rf'.snapshot_index rf'.log ≡ e.index =
        ap₂ last_index base log ∙ last_index-append rf.snapshot_index rf.log (e ∷ []) in
      (
        record {
          log_contiguous =
              subst₂ Contiguous (sym base) (sym log)
                (Contiguous-append rf.snapshot_index rf.log (e ∷ []) wf.log_contiguous (next, tt));
          snapshot_low = omega (arith, wf.snapshot_low, parts_of_eq base);
          commit_low = omega (arith, wf.commit_low, parts_of_eq base, parts_of_eq commit);
          commit_high =
              omega
                (int_laws, wf.commit_high, parts_of_eq last, parts_of_eq next, parts_of_eq commit);
        },
        last,
      )

  -- A well-formed leader with a slot of its own in both arrays appends the command with its own term
  -- at the next index, which it returns counted from 1; it stays well-formed, counts the entry as
  -- matched by itself and stores the result.
  pub raft_start-Started :
      (command : C) (rf : Raft C) (m n : ℤ)
      → IsWellFormed rf
      → get rf.match_index rf.me ≡ ok m
      → get rf.next_index rf.me ≡ ok n
      → is_leader rf.role ≡ true
      → (rf' : Raft C) × (index : ℤ) × (raft_start command rf
          ≡ ok (rf', (index, rf.current_term, true)))
        × Started command rf rf' index
  unfolding raft_start persist save
  raft_start-Started command rf m n wf match_slot next_slot leads =
      let index = inc (get_last_log_index_and_term rf).0 in
      let (match_index, wm) = put-Written rf.match_index rf.me index m match_slot in
      let (next_index, wn) = put-Written rf.next_index rf.me (inc index) n next_slot in
      let entry : LogEntry C = record {
        term = rf.current_term;
        index = index;
        command = command;
      } in
      let rf' = persist (record rf {
        log = rf.log ++ entry ∷ [];
        match_index = match_index;
        next_index = next_index;
      }) in
      let (wf', last) =
        append_entry-IsWellFormed rf rf' entry wf (ap inc (get_last-last_index rf)) refl refl
          refl in
      (
        rf',
        inc index,
        rw leads (bind_ok _ wm.written ∙ bind_ok _ wn.written),
        record {
          entry = entry;
          log = refl;
          has_command = refl;
          has_term = refl;
          has_index = refl;
          well_formed = wf';
          own_match = wm.at ∙ ap ok (sym last);
          durable = refl;
        },
      )
