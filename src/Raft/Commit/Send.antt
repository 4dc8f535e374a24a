-- ===== src/Raft/Commit/Send.antt =====
-- Which messages a commit hands to the service: sendCommittedLogChannel.
use model_lib.Prelude.{
  ℕ, suc, ◌≡◌, refl, sym, ap, subst, subst₂, ◌∙◌, inl, inr, false, List, [], ◌∷◌, ◌++◌, map, arith,
  Bool-cases, length, append_cons_assoc,
}
use model_lib.Prelude.Go.{Outcome, ok, bind_ok, get}
use model_lib.Prelude.Int.{
  ℤ, pos, minus_one, pos_part, ◌-ℤ◌, ◌≤ℤ◌, ◌==ℤ◌, inc, eq_of_parts, pos_part-sub, ==ℤ→≡,
  pos-==ℤ-minus_one, parts_of_eq, int_laws,
}
use model_lib.Prelude.Slices.{length-snoc, get-split, cut_at}
use model_lib.Raft.Commit.{collect, sent_position, send_committed_log_channel}
use model_lib.Raft.Log.Contiguous.{
  Contiguous, last_index, last_index-append, Contiguous-left, Contiguous-right, last_index_parts,
  find_index_inside,
}
use model_lib.Raft.State.{LogEntry, ApplyMsg, Raft, go_put_apply_ch_buffer, command_msg}

module _ {C : Type 0} where
  collect_step :
      (msg : LogEntry C → ApplyMsg C) (log : List (LogEntry C)) (i rounds : ℕ) (e : LogEntry C)
      (msgs : List (ApplyMsg C))
      → get log (pos i) ≡ ok e
      → collect msg log (pos (suc i)) rounds ≡ ok msgs
      → collect msg log (pos i) (suc rounds) ≡ ok (msg e ∷ msgs)
  unfolding collect inc
  collect_step msg log i rounds e msgs read rest = bind_ok _ read ∙ bind_ok _ rest

  -- The loop reads the entries of a stretch of the log, in order.
  pub collect_lem :
      (msg : LogEntry C → ApplyMsg C) (before entries after : List (LogEntry C))
      → collect msg (before ++ (entries ++ after)) (pos (length before)) (length entries)
        ≡ ok (map msg entries)
  collect_lem msg before [] after = unfold collect in refl
  collect_lem msg before (e ∷ entries) after =
      collect_step msg (before ++ e ∷ (entries ++ after)) (length before) (length entries) e
        (map msg entries) (get-split before (entries ++ after) e)
        (rw (append_cons_assoc before (entries ++ after) e, length-snoc before e) at
          (collect_lem msg (before ++ e ∷ []) entries after))

  -- The log is cut behind the last entry that was sent.
  record Sent (prev : ℤ) (rf : Raft C) (position : ℤ) : Type 0 where
    before : List (LogEntry C)
    rest : List (LogEntry C)
    split : rf.log ≡ before ++ rest
    last : last_index rf.snapshot_index before ≡ prev
    at : inc position ≡ pos (length before)

  sent_position_lem :
      (prev : ℤ) (rf : Raft C)
      → Contiguous rf.snapshot_index rf.log
      → minus_one ≤ℤ rf.snapshot_index
      → rf.snapshot_index ≤ℤ prev
      → prev ≤ℤ last_index rf.snapshot_index rf.log
      → (p : ℤ) × (sent_position prev rf ≡ ok p) × Sent prev rf p
  unfolding sent_position inc
  sent_position_lem prev rf h low lo hi = elim (Bool-cases (prev ==ℤ rf.snapshot_index)) [
    | inl at_snapshot ↦ (
      minus_one,
      ground arith,
      record {
        before = [];
        rest = rf.log;
        split = refl;
        last = sym (==ℤ→≡ prev rf.snapshot_index at_snapshot);
        at = refl;
      },
    )
    | inr beyond ↦
        let (k, f, found, s) =
          find_index_inside rf.snapshot_index prev rf.log h (ground arith) hi in
        let not_start : (prev ==ℤ minus_one) ≡ false = ground arith in
        (
          pos k,
          rw (not_start, beyond) (rw found (rw (pos-==ℤ-minus_one k))),
          record {
            before = f.before ++ f.entry ∷ [];
            rest = f.after;
            split = f.split ∙ sym (append_cons_assoc f.before f.after f.entry);
            last = last_index-append rf.snapshot_index f.before (f.entry ∷ []) ∙ f.has_index;
            at = ap (λ (n : ℕ). pos n) (ap suc (sym f.at) ∙ sym (length-snoc f.before f.entry));
          },
        )
  ]

  -- What a commit from `prev` to `cur` sends: the entries with the indices from prev + 1 to cur, as
  -- one batch and in order.
  pub record Sends (prev cur : ℤ) (rf : Raft C) (result : Outcome (Raft C)) : Type 0 where
    pub before : List (LogEntry C)
    pub entries : List (LogEntry C)
    pub after : List (LogEntry C)
    pub split : rf.log ≡ before ++ (entries ++ after)
    pub from : last_index rf.snapshot_index before ≡ prev
    pub contiguous : Contiguous prev entries
    pub to : last_index prev entries ≡ cur
    pub sent : result ≡ ok (go_put_apply_ch_buffer (map command_msg entries) rf)

  -- In a contiguous log behind a snapshot index of at least -1, with prev not below the snapshot
  -- index, not above cur, and cur not above the last index, the call never panics and hands over
  -- the entries from prev + 1 to cur as one batch, in order.
  pub send_committed-Sends :
      (prev cur : ℤ) (rf : Raft C)
      → Contiguous rf.snapshot_index rf.log
      → minus_one ≤ℤ rf.snapshot_index
      → rf.snapshot_index ≤ℤ prev
      → prev ≤ℤ cur
      → cur ≤ℤ last_index rf.snapshot_index rf.log
      → Sends prev cur rf (send_committed_log_channel prev cur rf)
  unfolding send_committed_log_channel
  send_committed-Sends prev cur rf h low lo le hi =
      let (p, position, s) = sent_position_lem prev rf h low lo (omega arith) in
      let n : ℕ = pos_part (cur -ℤ prev) in
      let rest_contiguous : Contiguous prev s.rest =
        subst (λ i. Contiguous i s.rest) s.last
          (Contiguous-right rf.snapshot_index s.before s.rest
            (subst (Contiguous rf.snapshot_index) s.split h)) in
      let rest_last : last_index prev s.rest ≡ last_index rf.snapshot_index rf.log =
        ap (λ i. last_index i s.rest) (sym s.last)
        ∙ sym (last_index-append rf.snapshot_index s.before s.rest)
        ∙ ap (last_index rf.snapshot_index) (sym s.split) in
      let c = cut_at s.rest n (
        omega (
          int_laws,
          pos_part-sub cur prev le,
          parts_of_eq rest_last,
          last_index_parts prev s.rest rest_contiguous,
        )) in
      let entries_contiguous : Contiguous prev c.front =
        Contiguous-left prev c.front c.back (subst (Contiguous prev) c.split rest_contiguous) in
      let whole : rf.log ≡ s.before ++ (c.front ++ c.back) = s.split ∙ ap (◌++◌ s.before) c.split in
      record {
        before = s.before;
        entries = c.front;
        after = c.back;
        split = whole;
        from = s.last;
        contiguous = entries_contiguous;
        to = eq_of_parts (last_index prev c.front) cur (
            omega (
              int_laws,
              last_index_parts prev c.front entries_contiguous,
              c.at,
              pos_part-sub cur prev le,
            ));
        sent =
            bind_ok _ position
            ∙ bind_ok _ (
                subst₂ (λ l (i : ℤ). collect command_msg l i n ≡ ok (map command_msg c.front))
                  (sym whole) (sym s.at)
                  (subst
                    (λ (m : ℕ).
                      collect command_msg (s.before ++ (c.front ++ c.back)) (pos (length s.before))
                        m
                      ≡ ok (map command_msg c.front))
                    c.at (collect_lem command_msg s.before c.front c.back)));
      }
