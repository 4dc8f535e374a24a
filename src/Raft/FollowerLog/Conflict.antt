-- ===== src/Raft/FollowerLog/Conflict.antt =====
-- followerHandleLog where the entry at PrevLogIndex has another term.
use model_lib.Prelude.{
  ℕ, suc, ◌+◌, ◌≡◌, refl, sym, ap, ap₂, ◌∙◌, ◌≢◌, inl, inr, false, List, [], ◌∷◌, ◌++◌,
  append_assoc, arith, Bool-cases, length, append_cons_assoc, All,
}
use model_lib.Prelude.Go.{ok, bind_ok, get, slice_to}
use model_lib.Prelude.Int.{ℤ, pos, ◌==ℤ◌, inc, ==ℤ→≡, ==ℤ_refl, ==ℤ→≢}
use model_lib.Prelude.Slices.{get-split, slice_to-split}
use model_lib.Raft.FollowerLog.{answer, first_of_term, handle_conflict}
use model_lib.Raft.State.{LogEntry, Raft, AppendEntriesReply}

module _ {C : Type 0} where
  -- The first entry of a stretch: nothing before it has its term.
  pub record FirstOfTerm (term : ℤ) (log : List (LogEntry C)) : Type 0 where
    pub before : List (LogEntry C)
    pub entry : LogEntry C
    pub after : List (LogEntry C)
    pub split : log ≡ before ++ entry ∷ after
    pub has_term : entry.term ≡ term
    pub earlier : All (λ e. e.term ≢ term) before

  -- The scan finds the first entry with the term of the entry that it is bounded by.
  first_of_term_lem :
      (before after : List (LogEntry C)) (e : LogEntry C) (start : ℕ)
      → (f : FirstOfTerm e.term (before ++ e ∷ [])) × (first_of_term
            (before ++ e ∷ after)
            e.term
            (suc (length before))
            start
          ≡ ok (length f.before + start))
  first_of_term_lem [] after e start = (
    record { before = []; entry = e; after = []; split = refl; has_term = refl; earlier = tt },
    rw (==ℤ_refl e.term) (ap ok (omega arith)),
  )
  first_of_term_lem (x ∷ before) after e start = elim (Bool-cases (x.term ==ℤ e.term)) [
    | inl same ↦ (
      record {
        before = [];
        entry = x;
        after = before ++ e ∷ [];
        split = refl;
        has_term = ==ℤ→≡ x.term e.term same;
        earlier = tt;
      },
      rw same (ap ok (omega arith)),
    )
    | inr differs ↦
        let (f, scan) = first_of_term_lem before after e (suc start) in
        (
          record {
            before = x ∷ f.before;
            entry = f.entry;
            after = f.after;
            split = ap (◌∷◌ x) f.split;
            has_term = f.has_term;
            earlier = (==ℤ→≢ x.term e.term differs, f.earlier);
          },
          rw differs (scan ∙ ap ok (omega arith)),
        )
  ]

  -- Where the log holds an entry of another term at PrevLogIndex, the log is cut before that entry
  -- without a panic, and the reply names the entry's term and the index of the first entry of that
  -- term.
  pub handle_conflict_lem :
      (rf : Raft C) (reply : AppendEntriesReply) (before after : List (LogEntry C)) (e : LogEntry C)
      → rf.log ≡ before ++ e ∷ after
      → (f : FirstOfTerm e.term (before ++ e ∷ [])) × (handle_conflict rf
            (pos (length before))
            e
            reply
          ≡ ok
              (record rf { log = before }, answer reply false e.term f.entry.index (length before)))
  unfolding handle_conflict inc
  handle_conflict_lem rf reply before after e split =
      let (f, scan) = first_of_term_lem before after e 0 in
      let whole : rf.log ≡ f.before ++ f.entry ∷ (f.after ++ after) =
        split
        ∙ sym (append_cons_assoc before after e)
        ∙ ap (λ l. l ++ after) f.split
        ∙ append_assoc f.before (f.entry ∷ f.after) after in
      let at : length f.before + 0 ≡ length f.before = omega arith in
      let scanned = ap (λ l. first_of_term l e.term (suc (length before)) 0) split ∙ scan in
      let first : get rf.log (pos (length f.before + 0)) ≡ ok f.entry =
        ap₂ (λ l (n : ℕ). get l (pos n)) whole at ∙ get-split f.before (f.after ++ after) f.entry in
      let cut : slice_to rf.log (pos (length before)) ≡ ok before =
        ap (λ l. slice_to l (pos (length before))) split ∙ slice_to-split before (e ∷ after) in
      (f, bind_ok _ scanned ∙ bind_ok _ first ∙ bind_ok _ cut)
